-- ===== src/Shortcuts/Examples.antt =====
-- Chords, conflicts and registrations of src/lib/keyboard-shortcuts.ts and src/lib/shortcut-registry.ts
-- at concrete inputs.
use r_shell.Prelude.{
  Bool, List, String, [], false, find, is_some, map, none, not, refl, some, true, ℕ, ◌∷◌, ◌≡◌,
}
use r_shell.Dict.{lookup}
use r_shell.Json.{Members, end_object, entry, member, object, text}
use r_shell.Shortcuts.Chords.{parse_keyboard_shortcut, to_accelerator, trim}
use r_shell.Shortcuts.Clear.{IsClear, find_conflicts-IsClear}
use r_shell.Shortcuts.Conflicts.{duplicate, find_conflicts, menu_owned, reserved, shortcut_conflict}
use r_shell.Shortcuts.Engine.{Focus, KeyboardShortcut, desired_accelerators, on_app, on_terminal}
use r_shell.Shortcuts.Keydown.{
  KeyEvent, handle_in_window_key_down, handle_key_down, sync, unregisters,
}
use r_shell.Shortcuts.Labels.{format_keyboard_shortcut}
use r_shell.Shortcuts.Migrated.{blob_overrides-migrate_legacy_shortcut_bindings}
use r_shell.Shortcuts.Owners.{kept, lookup-desired_accelerators, may_run, takes}
use r_shell.Shortcuts.Registry.{
  ShortcutOverrides, close_session, next_tab, resolve_shortcut_bindings, shortcut_definitions,
  split_down, toggle_bottom_panel, toggle_left_sidebar, toggle_right_sidebar,
}
use r_shell.Shortcuts.Saved.{
  blob_overrides, command_key, load_shortcut_bindings, migrate_legacy_shortcut_bindings,
  record_members,
}
use r_shell.Shortcuts.Synced.{run_syncs, run_syncs-known}

abbrev no_overrides : ShortcutOverrides
no_overrides id = none

-- The bottom panel takes the chord of the left sidebar, in another spelling.
abbrev same_chord : ShortcutOverrides
same_chord toggle_bottom_panel = some "Cmd + b"
same_chord id = none

abbrev read_key : String → String
unfolding parse_keyboard_shortcut
read_key s = elim (parse_keyboard_shortcut s) [ none ↦ "" | some parsed ↦ parsed.key ]

reads_a_chord : read_key " ctrl + Shift+pageUP " ≡ "PageUp"
unfolding parse_keyboard_shortcut
reads_a_chord = refl

modifiers_alone : parse_keyboard_shortcut "Ctrl+Shift+" ≡ none
unfolding parse_keyboard_shortcut
modifiers_alone = refl

named_symbol : to_accelerator "Ctrl+," ≡ some "CommandOrControl+Comma"
unfolding to_accelerator
named_symbol = refl

finds_a_duplicate :
    find_conflicts same_chord false
    ≡ shortcut_conflict duplicate toggle_bottom_panel "Cmd + b" (some toggle_left_sidebar) ∷ []
unfolding find_conflicts shortcut_conflict
finds_a_duplicate = refl

-- On a Mac the menu has Command and D for another command, but the chord of M is handled in the window.
abbrev menu_chords : ShortcutOverrides
menu_chords toggle_left_sidebar = some "Ctrl+D"
menu_chords toggle_right_sidebar = some "Ctrl+G"
menu_chords toggle_bottom_panel = some "Ctrl+M"
menu_chords id = none

finds_a_menu_chord :
    find_conflicts menu_chords true
    ≡ shortcut_conflict menu_owned toggle_left_sidebar "Ctrl+D" none ∷ []
unfolding find_conflicts shortcut_conflict
finds_a_menu_chord = refl

abbrev digit_chord : ShortcutOverrides
digit_chord split_down = some "Cmd+9"
digit_chord id = none

finds_a_reserved_chord :
    find_conflicts digit_chord false ≡ shortcut_conflict reserved split_down "Cmd+9" none ∷ []
unfolding find_conflicts shortcut_conflict
finds_a_reserved_chord = refl

defaults_are_free : find_conflicts no_overrides true ≡ []
unfolding find_conflicts
defaults_are_free = refl

find_conflicts-IsClear_example :
    IsClear (resolve_shortcut_bindings no_overrides) true shortcut_definitions
find_conflicts-IsClear_example = (find_conflicts-IsClear no_overrides true).0 defaults_are_free

abbrev shortcut_of : String → Bool → Bool → Bool → ℕ → KeyboardShortcut ℕ
shortcut_of key shift in_terminal in_background number = record {
  key = key;
  ctrl_key = some true;
  shift_key = some shift;
  alt_key = none;
  meta_key = none;
  ignore_in_terminal = some (not in_terminal);
  global_in_background = some in_background;
  handler = number;
  description = "";
}

-- Two shortcuts for one chord, and two chords that the menu has on a Mac.
abbrev bound : List (KeyboardShortcut ℕ)
bound =
    shortcut_of "b" false false false 0
    ∷ shortcut_of "B" false true true 1
    ∷ shortcut_of "z" false true true 2
    ∷ shortcut_of "F9" true true true 3
    ∷ shortcut_of "Tab" true true true 4
    ∷ []

abbrev in_terminal : Focus
in_terminal = record { app_focused = true; sibling_window_focused = false; context = on_terminal }

-- The first shortcut of the chord does not run in a terminal, and the second does not take its place.
lookup-desired_accelerators_example :
    lookup "CommandOrControl+B" (desired_accelerators true in_terminal bound)
    ≡ kept (may_run in_terminal) (find (takes true "CommandOrControl+B") bound)
lookup-desired_accelerators_example =
    lookup-desired_accelerators true in_terminal bound "CommandOrControl+B"

shadowed_in_terminal :
    lookup "CommandOrControl+B" (desired_accelerators true in_terminal bound) ≡ none
unfolding desired_accelerators lookup
shadowed_in_terminal = refl

accelerators_in_terminal :
    map (λ entry. entry.0) (desired_accelerators true in_terminal bound)
    ≡ "CommandOrControl+Shift+F9" ∷ []
unfolding desired_accelerators
accelerators_in_terminal = refl

-- Settings of an older version, with blanks around a chord, a retired chord and one that does not parse.
abbrev older_settings : Members
older_settings = entry "nextTab" (text " Ctrl+K ") (
    entry "closeSession" (text "Ctrl+Shift+W")
      (entry "theme" (text "dark") (entry "newSession" (text "Ctrl+") end_object)))

blob_overrides-migrate_example :
    blob_overrides (migrate_legacy_shortcut_bindings older_settings) next_tab ≡ some "Ctrl+K"
unfolding trim blob_overrides member record_members
blob_overrides-migrate_example =
    blob_overrides-migrate_legacy_shortcut_bindings older_settings next_tab

keeps_other_settings :
    migrate_legacy_shortcut_bindings older_settings
    ≡ entry "shortcutBindings"
        (object (entry "nextTab" (text " Ctrl+K ") end_object))
        (entry "theme" (text "dark") end_object)
unfolding migrate_legacy_shortcut_bindings command_key
keeps_other_settings = refl

loads_defaults : load_shortcut_bindings none close_session ≡ "Ctrl+W"
unfolding load_shortcut_bindings
loads_defaults = refl

abbrev on_the_page : Focus
on_the_page = record { app_focused = true; sibling_window_focused = false; context = on_app }

-- From the page to the terminal: what is ignored there is given back to the system.
run_syncs-known_example :
    (run_syncs true ((on_the_page, bound) ∷ (in_terminal, bound) ∷ []) ([], λ k. false)).1
      "CommandOrControl+B"
    ≡ is_some (kept (may_run in_terminal) (find (takes true "CommandOrControl+B") bound))
run_syncs-known_example =
    run_syncs-known true ((on_the_page, bound) ∷ []) in_terminal bound "CommandOrControl+B"

given_back :
    (sync
      (desired_accelerators true in_terminal bound)
      (desired_accelerators true on_the_page bound)).0
    ≡ unregisters "CommandOrControl+B" ∷ []
unfolding sync desired_accelerators
given_back = refl

abbrev event_of : String → Bool → Bool → Bool → KeyEvent
event_of pressed ctrl meta at_terminal = record {
  pressed = pressed;
  ctrl = ctrl;
  shift = false;
  alt = false;
  meta = meta;
  at_editable = at_terminal;
  at_terminal = at_terminal;
}

zen_by_control : handle_in_window_key_down true (event_of "z" true false true) bound ≡ some 2
unfolding handle_in_window_key_down
zen_by_control = refl

zen_not_by_command : handle_in_window_key_down true (event_of "z" false true false) bound ≡ none
unfolding handle_in_window_key_down
zen_not_by_command = refl

browser_by_command : handle_key_down true (event_of "b" false true false) bound ≡ some 0
unfolding handle_key_down
browser_by_command = refl

ignored_by_browser : handle_key_down false (event_of "b" true false true) bound ≡ none
unfolding handle_key_down
ignored_by_browser = refl

mac_label : format_keyboard_shortcut true true "Ctrl+Shift+PageUp" ≡ "⌘⇧PageUp"
unfolding format_keyboard_shortcut lookup
mac_label = refl

degraded_label : format_keyboard_shortcut true true "Cmd+Z" ≡ "⌃Z"
unfolding format_keyboard_shortcut lookup
degraded_label = refl

plain_label : format_keyboard_shortcut false false "ctrl+ArrowUp" ≡ "Ctrl+↑"
unfolding format_keyboard_shortcut lookup
plain_label = refl
