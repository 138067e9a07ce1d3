-- ===== src/Shortcuts/Registry.antt =====
-- The commands of src/lib/shortcut-registry.ts, their bindings, and the conflicts of these. A `Record`
-- over the commands is a function of them, and a `Partial` one a function into `Option`.
use r_shell.Prelude.{Bool, List, Option, String, [], concat, false, or_else, true, ◌∷◌}

pub data ShortcutCommandId : Type 0 where
  new_session close_session next_tab previous_tab move_tab_left move_tab_right : ShortcutCommandId
  toggle_left_sidebar toggle_bottom_panel toggle_right_sidebar toggle_zen_mode : ShortcutCommandId
  split_right split_down open_settings : ShortcutCommandId

pub data ShortcutCategory : Type 0 where
  for_tabs for_layout for_split for_app : ShortcutCategory

pub record ShortcutDefinition : Type 0 where
  pub command : ShortcutCommandId
  pub default_chord : String
  pub label_key : String
  pub category : ShortcutCategory
  pub mac_menu_note : Bool

defined : ShortcutCommandId → String → String → ShortcutCategory → Bool → ShortcutDefinition
defined command chord label category note = record {
  command = command;
  default_chord = chord;
  label_key = concat "settings.shortcuts.command." label;
  category = category;
  mac_menu_note = note;
}

unfoldable pub shortcut_definitions : List ShortcutDefinition
unfolding defined
shortcut_definitions =
    defined new_session "Ctrl+N" "newSession" for_tabs true
    ∷ defined close_session "Ctrl+W" "closeSession" for_tabs true
    ∷ defined next_tab "Ctrl+Tab" "nextTab" for_tabs false
    ∷ defined previous_tab "Ctrl+Shift+Tab" "previousTab" for_tabs false
    ∷ defined move_tab_left "Ctrl+Shift+PageUp" "moveTabLeft" for_tabs false
    ∷ defined move_tab_right "Ctrl+Shift+PageDown" "moveTabRight" for_tabs false
    ∷ defined toggle_left_sidebar "Ctrl+B" "toggleLeftSidebar" for_layout false
    ∷ defined toggle_bottom_panel "Ctrl+J" "toggleBottomPanel" for_layout false
    ∷ defined toggle_right_sidebar "Ctrl+M" "toggleRightSidebar" for_layout false
    ∷ defined toggle_zen_mode "Ctrl+Z" "toggleZenMode" for_layout false
    ∷ defined split_right "Ctrl+\\" "splitRight" for_split false
    ∷ defined split_down "Ctrl+Shift+\\" "splitDown" for_split false
    ∷ defined open_settings "Ctrl+," "openSettings" for_app true
    ∷ []

abbrev pub ShortcutBindings : Type 0
ShortcutBindings = ShortcutCommandId → String

abbrev pub ShortcutOverrides : Type 0
ShortcutOverrides = ShortcutCommandId → Option String

-- `DEFAULT_SHORTCUT_BINDINGS[id]`
unfoldable pub default_shortcut_bindings : ShortcutBindings
default_shortcut_bindings new_session = "Ctrl+N"
default_shortcut_bindings close_session = "Ctrl+W"
default_shortcut_bindings next_tab = "Ctrl+Tab"
default_shortcut_bindings previous_tab = "Ctrl+Shift+Tab"
default_shortcut_bindings move_tab_left = "Ctrl+Shift+PageUp"
default_shortcut_bindings move_tab_right = "Ctrl+Shift+PageDown"
default_shortcut_bindings toggle_left_sidebar = "Ctrl+B"
default_shortcut_bindings toggle_bottom_panel = "Ctrl+J"
default_shortcut_bindings toggle_right_sidebar = "Ctrl+M"
default_shortcut_bindings toggle_zen_mode = "Ctrl+Z"
default_shortcut_bindings split_right = "Ctrl+\\"
default_shortcut_bindings split_down = "Ctrl+Shift+\\"
default_shortcut_bindings open_settings = "Ctrl+,"

unfoldable pub resolve_shortcut_binding : ShortcutOverrides → ShortcutCommandId → String
unfolding default_shortcut_bindings
resolve_shortcut_binding overrides id = or_else (overrides id) (default_shortcut_bindings id)

unfoldable pub resolve_shortcut_bindings : ShortcutOverrides → ShortcutBindings
unfolding resolve_shortcut_binding
resolve_shortcut_bindings overrides id = resolve_shortcut_binding overrides id
