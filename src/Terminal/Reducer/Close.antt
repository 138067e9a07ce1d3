-- ===== src/Terminal/Reducer/Close.antt =====
-- src/lib/terminal-group-reducer.ts, closing several tabs: `CLOSE_OTHER_TABS`, `CLOSE_TABS_TO_RIGHT`, `CLOSE_TABS_TO_LEFT` and
-- `CLOSE_ALL_TABS`.
use r_shell.Prelude.{
  List, Option, String, [], drop, eqb, head?, if◌then◌else◌, last?, length, none, some, take, ◌+◌,
  ◌∷◌,
}
use r_shell.Dict.{insert}
use r_shell.Terminal.State.{maybe_remove_empty_group, with_group}
use r_shell.Terminal.Tabs.{drop_tab, find_tab, find_tab_index, forget_tabs, keep_active}
use r_shell.Terminal.Types.{Float, TerminalGroup, TerminalGroupState, TerminalTab}

module _ {N : Type 0} where
  -- The group keeps `staying`, with `active` its active tab, and `closed` leave the map.
  abbrev pub close_tabs :
      TerminalGroupState N
      → String
      → TerminalGroup
      → List TerminalTab
      → Option String
      → List TerminalTab
      → TerminalGroupState N
  close_tabs s group_id group staying active closed = record s {
    groups = insert group_id (record group { tabs = staying; active_tab_id = active }) s.groups;
    tab_to_group_map = forget_tabs closed s.tab_to_group_map;
  }

  unfoldable pub reduce_close_other_tabs :
      TerminalGroupState N → String → String → TerminalGroupState N
  reduce_close_other_tabs s group_id tab_id = with_group s group_id λ group.
      elim (find_tab tab_id group.tabs) [
        | none ↦ s
        | some tab ↦
            close_tabs s group_id group (tab ∷ []) (some tab.id) (drop_tab tab_id group.tabs)
      ]

  unfoldable pub reduce_close_tabs_to_right :
      TerminalGroupState N → String → String → TerminalGroupState N
  reduce_close_tabs_to_right s group_id tab_id = with_group s group_id λ group.
      elim (find_tab_index tab_id group.tabs) [
        | none ↦ s
        | some idx ↦
            let new_tabs = take (idx + 1) group.tabs in
            close_tabs s group_id group new_tabs
              (keep_active group.active_tab_id new_tabs (last? new_tabs))
              (drop (idx + 1) group.tabs)
      ]

  unfoldable pub reduce_close_tabs_to_left :
      TerminalGroupState N → String → String → TerminalGroupState N
  reduce_close_tabs_to_left s group_id tab_id = with_group s group_id λ group.
      elim (find_tab_index tab_id group.tabs) [
        | none ↦ s
        | some idx ↦
            let new_tabs = drop idx group.tabs in
            close_tabs s group_id group new_tabs
              (keep_active group.active_tab_id new_tabs (head? new_tabs)) (take idx group.tabs)
      ]

  unfoldable pub reduce_close_all_tabs :
      Float N → TerminalGroupState N → String → TerminalGroupState N
  reduce_close_all_tabs num s group_id = with_group s group_id λ group.
      if eqb (length group.tabs) 0
      then s
      else maybe_remove_empty_group num (close_tabs s group_id group [] none group.tabs) group_id
