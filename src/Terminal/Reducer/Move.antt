-- ===== src/Terminal/Reducer/Move.antt =====
-- src/lib/terminal-group-reducer.ts, moving a tab: `MOVE_TAB`, `REORDER_TAB` and `MOVE_TAB_TO_NEW_GROUP`.
use r_shell.Prelude.{
  List, Option, String, [], eqb, get_elem?, if◌then◌else◌, length, ltb, negsuc, none, or_else, pos,
  show, some, ℕ, ℤ, ◌+◌, ◌==◌, ◌∷◌,
}
use r_shell.Dict.{insert}
use r_shell.Terminal.Grid.{insert_split}
use r_shell.Terminal.Reducer.Tabs.{without_tab}
use r_shell.Terminal.State.{maybe_remove_empty_group, set_group, with_group}
use r_shell.Terminal.Tabs.{drop_tab, erase_tab, find_tab, find_tab_index, insert_tab, splice_index}
use r_shell.Terminal.Types.{Float, SplitDirection, TerminalGroup, TerminalGroupState, TerminalTab}

-- `index >= 0 && index < length`, as the number of the element
pub index_in : ℤ → ℕ → Option ℕ
index_in (pos i) len = if ltb i len then some i else none
index_in (negsuc i) len = none

-- `[...tabs]` with `tab` spliced in at the target index.
abbrev pub spliced : List TerminalTab → Option ℤ → TerminalTab → List TerminalTab
spliced tabs target_index tab = insert_tab (splice_index target_index (length tabs)) tab tabs

-- `splice(from, 1)`, then `splice(to, 0, moved)`.
unfoldable pub reorder : List TerminalTab → ℕ → ℕ → List TerminalTab
reorder tabs from to = elim (get_elem? tabs from) [
  | none ↦ tabs
  | some moved ↦ insert_tab to moved (erase_tab from tabs)
]

module _ {N : Type 0} where
  unfoldable pub move_between :
      Float N
      → TerminalGroupState N
      → String × TerminalGroup
      → String × TerminalGroup
      → TerminalTab
      → String
      → Option ℤ
      → TerminalGroupState N
  unfolding without_tab
  move_between num s (source_id, source) (target_id, target) tab tab_id target_index =
      let index = or_else (find_tab_index tab_id source.tabs) 0 in
      if source_id == target_id
      then set_group s source_id (record source {
        tabs = spliced (drop_tab tab_id source.tabs) target_index tab;
        active_tab_id = some tab.id;
      })
      else maybe_remove_empty_group num
          (record s {
            groups =
                insert target_id
                  (record target {
                    tabs = spliced target.tabs target_index tab;
                    active_tab_id = some tab.id;
                  })
                  (insert source_id (without_tab source tab_id index) s.groups);
            tab_to_group_map = insert tab_id target_id s.tab_to_group_map;
          })
          source_id

  unfoldable pub reduce_move_tab :
      Float N → TerminalGroupState N → String → String → String → Option ℤ → TerminalGroupState N
  unfolding move_between
  reduce_move_tab num s source_id target_id tab_id target_index = with_group s source_id λ source.
      with_group s target_id λ target. elim (find_tab tab_id source.tabs) [
        | none ↦ s
        | some tab ↦
            move_between num s (source_id, source) (target_id, target) tab tab_id target_index
      ]

  unfoldable pub reduce_reorder_tab : TerminalGroupState N → String → ℤ → ℤ → TerminalGroupState N
  unfolding reorder index_in
  reduce_reorder_tab s group_id from_index to_index = with_group s group_id λ group.
      elim (index_in from_index (length group.tabs)) [
        | none ↦ s
        | some from ↦ elim (index_in to_index (length group.tabs)) [
          | none ↦ s
          | some to ↦
              if eqb from to
              then s
              else set_group s group_id (record group { tabs = reorder group.tabs from to })
        ]
      ]

  unfoldable pub reduce_move_tab_to_new_group :
      Float N → TerminalGroupState N → String → String → SplitDirection → TerminalGroupState N
  unfolding without_tab
  reduce_move_tab_to_new_group num s group_id tab_id direction = with_group s group_id λ group.
      elim (find_tab tab_id group.tabs) [
        | none ↦ s
        | some tab ↦
            let index = or_else (find_tab_index tab_id group.tabs) 0 in
            let new_group_id = show s.next_group_id in
            maybe_remove_empty_group num
              (record s {
                groups =
                    insert new_group_id
                      (record { id = new_group_id; tabs = tab ∷ []; active_tab_id = some tab.id })
                      (insert group_id (without_tab group tab_id index) s.groups);
                grid_layout = insert_split num s.grid_layout group_id new_group_id direction;
                next_group_id = s.next_group_id + 1;
                active_group_id = new_group_id;
                tab_to_group_map = insert tab_id new_group_id s.tab_to_group_map;
              })
              group_id
      ]
