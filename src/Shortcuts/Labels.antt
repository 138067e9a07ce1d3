-- ===== src/Shortcuts/Labels.antt =====
-- The labels of src/lib/keyboard-shortcuts.ts, and the shortcuts that are made of configured chords.
-- The platform that the browser names is an argument of its own.
use mathlib.Core.Option
use r_shell.Prelude.{
  Bool, List, Option, String, [], concat, false, if◌then◌else◌, map, none, or_else, some, ◌&&◌,
  ◌==◌, ◌∷◌,
}
use r_shell.Dict.{lookup}
use r_shell.Shortcuts.Chords.{
  ParsedKeyboardShortcut, is_alt_name, is_ctrl_name, is_meta_name, join_plus,
  parse_keyboard_shortcut, split_plus, to_lower, trim,
}
use r_shell.Shortcuts.Engine.{KeyboardShortcut}
use r_shell.Shortcuts.Keydown.{is_mac_in_window_shortcut}

configured : {H : Type 0} → ParsedKeyboardShortcut → H → String → KeyboardShortcut H
configured parsed handler description = record {
  key = parsed.key;
  ctrl_key = some parsed.ctrl_key;
  shift_key = some parsed.shift_key;
  alt_key = some parsed.alt_key;
  meta_key = some parsed.meta_key;
  ignore_in_terminal = none;
  global_in_background = none;
  handler = handler;
  description = description;
}

-- `none` where the source throws
unfoldable pub create_configured_shortcut :
    {H : Type 0} → String → String → H → String → Option (KeyboardShortcut H)
unfolding parse_keyboard_shortcut configured
create_configured_shortcut shortcut fallback handler description =
    elim (parse_keyboard_shortcut shortcut) [
      | some parsed ↦ some (configured parsed handler description)
      | none ↦
          Option.map (λ parsed. configured parsed handler description)
            (parse_keyboard_shortcut fallback)
    ]

unfoldable pub is_mac_degraded_shortcut : Bool → String → Bool
unfolding create_configured_shortcut is_mac_in_window_shortcut parse_keyboard_shortcut configured
is_mac_degraded_shortcut platform_is_mac shortcut = elim (parse_keyboard_shortcut shortcut) [
  | none ↦ false
  | some parsed ↦ is_mac_in_window_shortcut {H = String} platform_is_mac (configured parsed "" "")
]

primary_label : Bool → Bool → String → String
primary_label is_mac degraded other = if is_mac then if degraded then "⌃" else "⌘" else other

-- The label of one part of a chord.
unfoldable pub part_label : Bool → Bool → String → String
unfolding trim to_lower is_ctrl_name is_alt_name is_meta_name primary_label
part_label is_mac degraded part =
    let name = to_lower (trim part) in
    if is_ctrl_name name
    then primary_label is_mac degraded "Ctrl"
    else if name == "shift"
    then if is_mac then "⇧" else "Shift"
    else if is_alt_name name
    then if is_mac then "⌥" else "Alt"
    else if is_meta_name name
    then primary_label is_mac degraded "Meta"
    else or_else
        (lookup name
          (("arrowup", "↑") ∷ ("arrowdown", "↓") ∷ ("arrowleft", "←") ∷ ("arrowright", "→") ∷ []))
        (trim part)

join_plain : List String → String
join_plain [] = ""
join_plain (p ∷ ps) = concat p (join_plain ps)

unfoldable pub format_keyboard_shortcut : Bool → Bool → String → String
unfolding is_mac_degraded_shortcut split_plus part_label join_plain join_plus
format_keyboard_shortcut platform_is_mac is_mac shortcut =
    let degraded = is_mac && is_mac_degraded_shortcut platform_is_mac shortcut in
    let parts = map (part_label is_mac degraded) (split_plus shortcut) in
    if is_mac then join_plain parts else join_plus parts
