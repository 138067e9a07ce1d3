-- ===== src/Terminal/Reducer/Update.antt =====
-- src/lib/terminal-group-reducer.ts, changing a tab in its place: `MARK_TAB_UNREAD_OUTPUT`,
use r_shell.Prelude.{
  Bool, String, eqb, false, if◌then◌else◌, none, not, or_else, some, true, ℕ, ◌+◌, ◌||◌,
}
use r_shell.Dict.{lookup}
use r_shell.Terminal.State.{is_terminal_tab_visible, owner, set_group, undefined, with_group}
use r_shell.Terminal.Tabs.{find_tab, find_tab_index, update_tab}
use r_shell.Terminal.Types.{
  ConnectionStatus, TerminalGroupState, TerminalTab, connecting, pending, terminal,
}
-- `ACKNOWLEDGE_TAB_OUTPUT`, `UPDATE_TAB_STATUS`, `UPDATE_TAB_NAME` and `RECONNECT_TAB`.
-- What a tab's output callback reports: new output, with the number of the session that wrote it,
-- or that the user has seen it.
use r_shell.Prelude.{
  Bool, String, eqb, false, if◌then◌else◌, none, not, or_else, some, true, ℕ, ◌+◌, ◌||◌,
}
use r_shell.Dict.{lookup}
use r_shell.Terminal.State.{is_terminal_tab_visible, owner, set_group, undefined, with_group}
use r_shell.Terminal.Tabs.{find_tab, find_tab_index, update_tab}
use r_shell.Terminal.Types.{
  ConnectionStatus, TerminalGroupState, TerminalTab, connecting, pending, terminal,
}

pub data OutputEvent : Type 0 where
  wrote : ℕ → OutputEvent
  seen : OutputEvent

abbrev pub is_unread : OutputEvent → Bool
is_unread (wrote n) = true
is_unread seen = false

-- `tab.tabType !== undefined && tab.tabType !== 'terminal'` fails
pub is_terminal : TerminalTab → Bool
is_terminal t = elim t.tab_type [ none ↦ true | some k ↦ elim k [ terminal ↦ true | _ ↦ false ] ]

pub is_pending : ConnectionStatus → Bool
is_pending pending = true
is_pending _ = false

-- Whether the event returns the state early, given whether the tab is visible.
pub is_ignored : OutputEvent → Bool → TerminalTab → Bool
unfolding is_pending
is_ignored (wrote n) visible t = visible || not (eqb n (or_else t.reconnect_count 0))
is_ignored seen visible t = not visible || is_pending t.connection_status

abbrev pub bool_eq : Bool → Bool → Bool
bool_eq true b = b
bool_eq false b = not b

abbrev pub with_status : ConnectionStatus → TerminalTab → TerminalTab
with_status status t = record t { connection_status = status }

abbrev pub with_name : String → TerminalTab → TerminalTab
with_name name t = record t { name = name }

abbrev pub reconnected : TerminalTab → TerminalTab
reconnected t = record t {
  reconnect_count = some (or_else t.reconnect_count 0 + 1);
  connection_status = connecting;
}

module _ {N : Type 0} where
  unfoldable pub reduce_tab_output :
      TerminalGroupState N → String → OutputEvent → TerminalGroupState N
  unfolding is_terminal is_ignored
  reduce_tab_output s tab_id event =
      let group_id = or_else (lookup tab_id s.tab_to_group_map) undefined in
      with_group s group_id λ group. elim (find_tab tab_id group.tabs) [
        | none ↦ s
        | some tab ↦
            if not (is_terminal tab)
              || is_ignored event (is_terminal_tab_visible s tab_id) tab
              || bool_eq (or_else tab.has_unread_output false) (is_unread event)
            then s
            else set_group s group_id (record group {
              tabs =
                  update_tab (or_else (find_tab_index tab_id group.tabs) 0)
                    (λ t. record t { has_unread_output = some (is_unread event) }) group.tabs;
            })
      ]

  -- What `UPDATE_TAB_STATUS`, `UPDATE_TAB_NAME` and `RECONNECT_TAB` share: the tab is found through
  -- the map, and replaced in its group.
  unfoldable pub change_tab :
      TerminalGroupState N → String → (TerminalTab → TerminalTab) → TerminalGroupState N
  change_tab s tab_id f = elim (owner s tab_id) [
    | none ↦ s
    | some group_id ↦ with_group s group_id λ group. elim (find_tab_index tab_id group.tabs) [
      | none ↦ s
      | some index ↦ set_group s group_id (record group { tabs = update_tab index f group.tabs })
    ]
  ]
