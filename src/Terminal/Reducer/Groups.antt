-- ===== src/Terminal/Reducer/Groups.antt =====
-- src/lib/terminal-group-reducer.ts, the actions on whole groups: `ACTIVATE_GROUP`, `SPLIT_GROUP` and `REMOVE_GROUP`.
use r_shell.Prelude.{Option, String, [], if◌then◌else◌, leb, length, none, show, some, ◌+◌, ◌∷◌}
use r_shell.Dict.{insert, keys}
use r_shell.Terminal.Grid.{insert_split}
use r_shell.Terminal.State.{remove_group_from_state, with_group}
use r_shell.Terminal.Tabs.{forget_tabs}
use r_shell.Terminal.Types.{Float, SplitDirection, TerminalGroupState, TerminalTab}

module _ {N : Type 0} where
  unfoldable pub reduce_activate_group : TerminalGroupState N → String → TerminalGroupState N
  reduce_activate_group s group_id =
      with_group s group_id λ group. record s { active_group_id = group_id }

  unfoldable pub reduce_split_group :
      Float N
      → TerminalGroupState N
      → String
      → SplitDirection
      → Option TerminalTab
      → TerminalGroupState N
  reduce_split_group num s group_id direction new_tab = with_group s group_id λ group.
      let new_group_id = show s.next_group_id in
      record s {
        groups =
            insert new_group_id
              (record {
                id = new_group_id;
                tabs = elim new_tab [ none ↦ [] | some tab ↦ tab ∷ [] ];
                active_tab_id = elim new_tab [ none ↦ none | some tab ↦ some tab.id ];
              })
              s.groups;
        grid_layout = insert_split num s.grid_layout group_id new_group_id direction;
        next_group_id = s.next_group_id + 1;
        active_group_id = new_group_id;
        tab_to_group_map = elim new_tab [
          | none ↦ s.tab_to_group_map
          | some tab ↦ insert tab.id new_group_id s.tab_to_group_map
        ];
      }

  unfoldable pub reduce_remove_group :
      Float N → TerminalGroupState N → String → TerminalGroupState N
  reduce_remove_group num s group_id = with_group s group_id λ group.
      if leb (length (keys s.groups)) 1
      then record s {
        groups = insert group_id (record group { tabs = []; active_tab_id = none }) [];
        tab_to_group_map = forget_tabs group.tabs s.tab_to_group_map;
      }
      else remove_group_from_state num s group_id
