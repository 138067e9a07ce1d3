-- ===== src/Terminal/Types.antt =====
-- src/lib/terminal-group-types.ts, and the operations of `number` that sizes go through.
use r_shell.Prelude.{Bool, List, Option, String, ℕ, ℤ}
use r_shell.Dict.{Dict}

-- Sizes are floating-point numbers, which stay abstract: the arithmetic that the reducer does on
-- them. `nan` is what it reads past the end of an array of sizes, as `undefined` becomes NaN.
pub record Float (N : Type 0) : Type 0 where
  pub of_nat : ℕ → N
  pub add : N → N → N
  pub mul : N → N → N
  pub div : N → N → N
  pub is_zero : N → Bool
  pub nan : N

pub data SplitDirection : Type 0 where
  up down left right : SplitDirection

pub data Orientation : Type 0 where
  horizontal vertical : Orientation

mutual
  pub data GridNode (N : Type 0) : Type 0 where
    leaf : String → GridNode N
    branch : Orientation → Nodes N → List N → GridNode N

  -- `GridNode[]`
  pub data Nodes (N : Type 0) : Type 0 where
    nil : Nodes N
    cons : GridNode N → Nodes N → Nodes N

pub data TabType : Type 0 where
  terminal file_browser desktop editor : TabType

pub data ConnectionStatus : Type 0 where
  connected connecting disconnected pending : ConnectionStatus

-- An optional property is an `Option`. `reconnect_count` is one too: the declaration requires it,
-- but the reducer reads it as `?? 0`, since a restored layout is not checked for it.
pub record TerminalTab : Type 0 where
  pub id : String
  pub name : String
  pub tab_type : Option TabType
  pub protocol : Option String
  pub host : Option String
  pub username : Option String
  pub original_connection_id : Option String
  pub connection_status : ConnectionStatus
  pub reconnect_count : Option ℕ
  pub has_unread_output : Option Bool
  pub editor_file_path : Option String
  pub editor_connection_id : Option String

pub record TerminalGroup : Type 0 where
  pub id : String
  pub tabs : List TerminalTab
  pub active_tab_id : Option String

pub record TerminalGroupState (N : Type 0) : Type 0 where
  pub groups : Dict TerminalGroup
  pub active_group_id : String
  pub grid_layout : GridNode N
  pub next_group_id : ℕ
  pub tab_to_group_map : Dict String

pub data TerminalGroupAction (N : Type 0) : Type 0 where
  split_group : String → SplitDirection → Option TerminalTab → TerminalGroupAction N
  remove_group : String → TerminalGroupAction N
  activate_group : String → TerminalGroupAction N
  add_tab : String → TerminalTab → TerminalGroupAction N
  remove_tab : String → String → TerminalGroupAction N
  activate_tab : String → String → TerminalGroupAction N
  move_tab : String → String → String → Option ℤ → TerminalGroupAction N
  reorder_tab : String → ℤ → ℤ → TerminalGroupAction N
  close_other_tabs : String → String → TerminalGroupAction N
  close_tabs_to_right : String → String → TerminalGroupAction N
  close_tabs_to_left : String → String → TerminalGroupAction N
  close_all_tabs : String → TerminalGroupAction N
  move_tab_to_new_group : String → String → SplitDirection → TerminalGroupAction N
  mark_tab_unread_output : String → ℕ → TerminalGroupAction N
  acknowledge_tab_output : String → TerminalGroupAction N
  update_tab_status : String → ConnectionStatus → TerminalGroupAction N
  update_tab_name : String → String → TerminalGroupAction N
  reconnect_tab : String → TerminalGroupAction N
  update_grid_sizes : List ℤ → List N → TerminalGroupAction N
  reset_layout : TerminalGroupAction N
  restore_layout : TerminalGroupState N → TerminalGroupAction N
