-- ===== src/Shortcuts/Conflicts.antt =====
-- The conflict analysis of src/lib/shortcut-registry.ts.
use Prim.Native.Char.{code}
use mathlib.Core.Option
use r_shell.Prelude.{
  Bool, List, Option, String, [], false, if◌then◌else◌, in_set, is_some, leb, map, none, not, some,
  true, ◌&&◌, ◌++◌, ◌==◌, ◌||◌, ◌∷◌,
}
use r_shell.Dict.{Dict, lookup}
use r_shell.Shortcuts.Chords.{
  ParsedKeyboardShortcut, join_plus, parse_keyboard_shortcut, to_accelerator, to_lower, when,
}
use r_shell.Shortcuts.Registry.{
  ShortcutBindings, ShortcutCommandId, ShortcutDefinition, ShortcutOverrides,
  resolve_shortcut_bindings, shortcut_definitions,
}

canonical_form : ParsedKeyboardShortcut → String
unfolding when join_plus to_lower
canonical_form parsed = join_plus (
    when (parsed.ctrl_key || parsed.meta_key) "primary"
      (when parsed.shift_key "shift" (when parsed.alt_key "alt" (to_lower parsed.key ∷ []))))

unfoldable pub canonical_chord : String → Option String
unfolding parse_keyboard_shortcut canonical_form
canonical_chord shortcut = Option.map canonical_form (parse_keyboard_shortcut shortcut)

-- `/^[1-9]$/`
is_focus_digit : String → Bool
is_focus_digit (String.◌∷◌ c String.[]) = leb 49 (code c) && leb (code c) 57
is_focus_digit _ = false

unfoldable pub is_reserved_chord : String → Bool
unfolding parse_keyboard_shortcut is_focus_digit
is_reserved_chord shortcut = elim (parse_keyboard_shortcut shortcut) [
  | none ↦ false
  | some parsed ↦
      if parsed.shift_key || parsed.alt_key
      then false
      else (parsed.ctrl_key || parsed.meta_key) && is_focus_digit parsed.key
]

unfoldable pub macos_in_window_chords : List String
macos_in_window_chords =
    "CommandOrControl+Z" ∷ "CommandOrControl+Shift+Z" ∷ "CommandOrControl+M"
    ∷ "CommandOrControl+Tab" ∷ "CommandOrControl+Shift+Tab" ∷ []

unfoldable pub macos_menu_owned_accelerators : List String
macos_menu_owned_accelerators =
    "CommandOrControl+N" ∷ "CommandOrControl+S" ∷ "CommandOrControl+W" ∷ "CommandOrControl+T"
    ∷ "CommandOrControl+D" ∷ "CommandOrControl+F" ∷ "CommandOrControl+L" ∷ "CommandOrControl+Z"
    ∷ "CommandOrControl+Shift+Z" ∷ "CommandOrControl+M" ∷ "CommandOrControl+Comma" ∷ "F5" ∷ []

unfoldable pub menu_owned_accelerators_lc : List String
unfolding macos_menu_owned_accelerators to_lower
menu_owned_accelerators_lc = map to_lower macos_menu_owned_accelerators

unfoldable pub in_window_chords_lc : List String
unfolding macos_in_window_chords to_lower
in_window_chords_lc = map to_lower macos_in_window_chords

unfoldable pub mac_owned_form : String → Option String
unfolding parse_keyboard_shortcut to_lower when join_plus to_accelerator
mac_owned_form shortcut = elim (parse_keyboard_shortcut shortcut) [
  | none ↦ none
  | some parsed ↦
      if not parsed.ctrl_key && not parsed.meta_key && not parsed.shift_key && not parsed.alt_key
      then some (to_lower parsed.key)
      else Option.map to_lower (
          to_accelerator (
            join_plus (
              when (parsed.ctrl_key || parsed.meta_key) "CmdOrCtrl"
                (when parsed.shift_key "Shift" (when parsed.alt_key "Alt" (parsed.key ∷ []))))))
]

-- `ownedForm !== macOwnedForm(def.default)`, where the first is not `null`
differs_from : String → Option String → Bool
differs_from form none = true
differs_from form (some other) = not (form == other)

-- The test of a chord, and of a command's default chord, on a Mac.
unfoldable pub is_menu_owned : String → String → Bool
unfolding mac_owned_form menu_owned_accelerators_lc in_window_chords_lc differs_from
is_menu_owned chord default_chord = elim (mac_owned_form chord) [
  | none ↦ false
  | some form ↦
      in_set form menu_owned_accelerators_lc
      && not (in_set form in_window_chords_lc)
      && differs_from form (mac_owned_form default_chord)
]

pub data ShortcutConflictKind : Type 0 where
  duplicate reserved menu_owned : ShortcutConflictKind

pub record ShortcutConflict : Type 0 where
  pub kind : ShortcutConflictKind
  pub command_id : ShortcutCommandId
  pub chord : String
  pub other_command_id : Option ShortcutCommandId

unfoldable pub shortcut_conflict :
    ShortcutConflictKind → ShortcutCommandId → String → Option ShortcutCommandId → ShortcutConflict
shortcut_conflict kind id chord other = record {
  kind = kind;
  command_id = id;
  chord = chord;
  other_command_id = other;
}

-- `conflicts.push` under a test
unfoldable pub push_if : Bool → ShortcutConflict → List ShortcutConflict
push_if test c = if test then c ∷ [] else []

-- The entry of `ownerByCanonical` for a chord that has none yet.
unfoldable pub owned_with :
    Option String → ShortcutCommandId → Dict ShortcutCommandId → Dict ShortcutCommandId
unfolding lookup
owned_with none id owners = owners
owned_with (some canonical) id owners =
    if is_some (lookup canonical owners) then owners else (canonical, id) ∷ owners

-- What one round of the loop pushes.
unfoldable pub conflicts_of :
    Bool
    → Dict ShortcutCommandId
    → ShortcutDefinition
    → String
    → Option String
    → List ShortcutConflict
unfolding is_reserved_chord is_menu_owned lookup shortcut_conflict push_if
conflicts_of is_mac owners d chord none = []
conflicts_of is_mac owners d chord (some canonical) =
    push_if (is_reserved_chord chord) (shortcut_conflict reserved d.command chord none)
    ++ push_if (is_some (lookup canonical owners))
        (shortcut_conflict duplicate d.command chord (lookup canonical owners))
    ++ push_if (is_mac && is_menu_owned chord d.default_chord)
        (shortcut_conflict menu_owned d.command chord none)

unfoldable pub conflicts_from :
    ShortcutBindings
    → Bool
    → Dict ShortcutCommandId
    → List ShortcutDefinition
    → List ShortcutConflict
unfolding canonical_chord owned_with conflicts_of
conflicts_from effective is_mac owners [] = []
conflicts_from effective is_mac owners (d ∷ ds) =
    let chord = effective d.command in
    let canonical = canonical_chord chord in
    conflicts_of is_mac owners d chord canonical
    ++ conflicts_from effective is_mac (owned_with canonical d.command owners) ds

unfoldable pub find_conflicts : ShortcutOverrides → Bool → List ShortcutConflict
unfolding resolve_shortcut_bindings shortcut_definitions conflicts_from
find_conflicts overrides is_mac =
    conflicts_from (resolve_shortcut_bindings overrides) is_mac [] shortcut_definitions
