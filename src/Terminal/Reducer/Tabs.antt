-- ===== src/Terminal/Reducer/Tabs.antt =====
-- src/lib/terminal-group-reducer.ts, adding, activating and removing one tab: `ADD_TAB`,
-- `ACTIVATE_TAB` and `REMOVE_TAB`.
use r_shell.Prelude.{
  Bool, List, Option, String, [], false, if◌then◌else◌, none, some, ℕ, ◌++◌, ◌==◌, ◌||◌, ◌∷◌,
}
use r_shell.Dict.{Dict, erase, insert}
use r_shell.Terminal.State.{maybe_remove_empty_group, set_group, with_group}
use r_shell.Terminal.Tabs.{drop_tab, find_tab_index, has_tab, pick_adjacent_tab}
use r_shell.Terminal.Types.{Float, TerminalGroup, TerminalGroupState, TerminalTab}

-- Some group holds a tab of this id.
unfoldable pub tab_in_any : String → Dict TerminalGroup → Bool
tab_in_any id [] = false
tab_in_any id ((k, g) ∷ gs) = has_tab id g.tabs || tab_in_any id gs

-- The active tab once `tab_id`, at `index`, has left and `rest` stays.
unfoldable pub active_without : TerminalGroup → String → List TerminalTab → ℕ → Option String
active_without group tab_id rest index = elim group.active_tab_id [
  | none ↦ none
  | some id ↦ if id == tab_id then pick_adjacent_tab rest index else some id
]

-- The group once the tab has left it.
unfoldable pub without_tab : TerminalGroup → String → ℕ → TerminalGroup
unfolding active_without
without_tab group tab_id index =
    let rest = drop_tab tab_id group.tabs in
    record group { tabs = rest; active_tab_id = active_without group tab_id rest index }

module _ {N : Type 0} where
  unfoldable pub reduce_add_tab : TerminalGroupState N → String → TerminalTab → TerminalGroupState N
  reduce_add_tab s group_id tab = with_group s group_id λ group.
      if tab_in_any tab.id s.groups then s else record s {
        groups =
            insert group_id
              (record group { tabs = group.tabs ++ tab ∷ []; active_tab_id = some tab.id })
              s.groups;
        tab_to_group_map = insert tab.id group_id s.tab_to_group_map;
      }

  unfoldable pub reduce_activate_tab : TerminalGroupState N → String → String → TerminalGroupState N
  reduce_activate_tab s group_id tab_id = with_group s group_id λ group.
      if has_tab tab_id group.tabs
      then set_group s group_id (record group { active_tab_id = some tab_id })
      else s

  unfoldable pub reduce_remove_tab :
      Float N → TerminalGroupState N → String → String → TerminalGroupState N
  unfolding without_tab
  reduce_remove_tab num s group_id tab_id = with_group s group_id λ group.
      elim (find_tab_index tab_id group.tabs) [
        | none ↦ s
        | some index ↦
            maybe_remove_empty_group num
              (record s {
                groups = insert group_id (without_tab group tab_id index) s.groups;
                tab_to_group_map = erase tab_id s.tab_to_group_map;
              })
              group_id
      ]
