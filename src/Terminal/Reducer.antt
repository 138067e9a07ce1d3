-- ===== src/Terminal/Reducer.antt =====
-- `terminalGroupReducer` of src/lib/terminal-group-reducer.ts: the dispatch to the handlers, which
-- stand in the modules below by kind. A branch that returns `state` returns `s`.
pub mod Groups
pub mod Tabs
pub mod Close
pub mod Move
pub mod Update
use r_shell.Terminal.Grid.{update_sizes}
use r_shell.Terminal.Reducer.Close.{
  reduce_close_all_tabs, reduce_close_other_tabs, reduce_close_tabs_to_left,
  reduce_close_tabs_to_right,
}
use r_shell.Terminal.Reducer.Groups.{reduce_activate_group, reduce_remove_group, reduce_split_group}
use r_shell.Terminal.Reducer.Move.{
  reduce_move_tab, reduce_move_tab_to_new_group, reduce_reorder_tab,
}
use r_shell.Terminal.Reducer.Tabs.{reduce_activate_tab, reduce_add_tab, reduce_remove_tab}
use r_shell.Terminal.Reducer.Update.{
  change_tab, reconnected, reduce_tab_output, seen, with_name, with_status, wrote,
}
use r_shell.Terminal.State.{create_default_state, reset_unread_output}
use r_shell.Terminal.Types.{
  Float, TerminalGroupAction, TerminalGroupState, acknowledge_tab_output, activate_group,
  activate_tab, add_tab, close_all_tabs, close_other_tabs, close_tabs_to_left, close_tabs_to_right,
  mark_tab_unread_output, move_tab, move_tab_to_new_group, reconnect_tab, remove_group, remove_tab,
  reorder_tab, reset_layout, restore_layout, split_group, update_grid_sizes, update_tab_name,
  update_tab_status,
}

unfoldable pub terminal_group_reducer :
    {N : Type 0} → Float N → TerminalGroupState N → TerminalGroupAction N → TerminalGroupState N
terminal_group_reducer num s (split_group g d t) = reduce_split_group num s g d t
terminal_group_reducer num s (remove_group g) = reduce_remove_group num s g
terminal_group_reducer num s (activate_group g) = reduce_activate_group s g
terminal_group_reducer num s (add_tab g t) = reduce_add_tab s g t
terminal_group_reducer num s (remove_tab g t) = reduce_remove_tab num s g t
terminal_group_reducer num s (activate_tab g t) = reduce_activate_tab s g t
terminal_group_reducer num s (move_tab a b t i) = reduce_move_tab num s a b t i
terminal_group_reducer num s (reorder_tab g i j) = reduce_reorder_tab s g i j
terminal_group_reducer num s (close_other_tabs g t) = reduce_close_other_tabs s g t
terminal_group_reducer num s (close_tabs_to_right g t) = reduce_close_tabs_to_right s g t
terminal_group_reducer num s (close_tabs_to_left g t) = reduce_close_tabs_to_left s g t
terminal_group_reducer num s (close_all_tabs g) = reduce_close_all_tabs num s g
terminal_group_reducer num s (move_tab_to_new_group g t d) =
    reduce_move_tab_to_new_group num s g t d
terminal_group_reducer num s (mark_tab_unread_output t n) = reduce_tab_output s t (wrote n)
terminal_group_reducer num s (acknowledge_tab_output t) = reduce_tab_output s t seen
terminal_group_reducer num s (update_tab_status t status) = change_tab s t (with_status status)
terminal_group_reducer num s (update_tab_name t name) = change_tab s t (with_name name)
terminal_group_reducer num s (reconnect_tab t) = change_tab s t reconnected
terminal_group_reducer num s (update_grid_sizes path sizes) = record s {
  grid_layout = update_sizes s.grid_layout path sizes;
}
terminal_group_reducer num s reset_layout = create_default_state
terminal_group_reducer num s (restore_layout s') = reset_unread_output s'
