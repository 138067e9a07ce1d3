-- ===== src/Shortcuts/Chords.antt =====
-- The chords of src/lib/keyboard-shortcuts.ts: how a binding is parsed, and the accelerator that the
-- system knows it by. `toLowerCase`, `toUpperCase` and `trim` act on the letters and blanks of ASCII.
use Prim.Native.Char.{Char, code}
use r_shell.Prelude.{
  Bool, List, Option, String, [], concat, eqb, false, filter, if◌then◌else◌, leb, length, map, none,
  not, or_else, some, true, ◌&&◌, ◌++◌, ◌==◌, ◌||◌, ◌∷◌,
}
use r_shell.Dict.{Dict, lookup}
use r_shell.Storage.Secrets.{parts}
use r_shell.Upload.Paths.{is_char, onto_first, strip_leading, strip_trailing}

translated : String → String → Char → Char
translated (String.◌∷◌ from froms) (String.◌∷◌ to tos) c =
    let others = translated froms tos c in if eqb (code from) (code c) then to else others
translated _ _ c = c

each_char : (Char → Char) → String → String
each_char f String.[] = String.[]
each_char f (String.◌∷◌ c s) = String.◌∷◌ (f c) (each_char f s)

-- `s.toLowerCase()`
unfoldable pub to_lower : String → String
unfolding each_char translated
to_lower = each_char (translated "ABCDEFGHIJKLMNOPQRSTUVWXYZ" "abcdefghijklmnopqrstuvwxyz")

-- `s.toUpperCase()`
unfoldable pub to_upper : String → String
unfolding each_char translated
to_upper = each_char (translated "abcdefghijklmnopqrstuvwxyz" "ABCDEFGHIJKLMNOPQRSTUVWXYZ")

unfoldable pub is_blank : Char → Bool
is_blank c = eqb (code c) 32 || (leb 9 (code c) && leb (code c) 13)

-- `s.trim()`
unfoldable pub trim : String → String
unfolding is_blank strip_leading strip_trailing
trim s = strip_trailing is_blank (strip_leading is_blank s)

-- `s.split('+')`
unfoldable pub split_plus : String → List String
unfolding is_char onto_first
split_plus String.[] = "" ∷ []
split_plus (String.◌∷◌ c s) =
    let others = split_plus s in if is_char "+" c then "" ∷ others else onto_first c others

-- `parts.join('+')`
unfoldable pub join_plus : List String → String
join_plus [] = ""
join_plus (p ∷ []) = p
join_plus (p ∷ q ∷ ps) = concat p (concat "+" (join_plus (q ∷ ps)))

pub record ParsedKeyboardShortcut : Type 0 where
  pub key : String
  pub ctrl_key : Bool
  pub shift_key : Bool
  pub alt_key : Bool
  pub meta_key : Bool

-- `s.length === 1`
unfoldable pub is_single : String → Bool
is_single (String.◌∷◌ c String.[]) = true
is_single _ = false

unfoldable pub key_aliases : Dict String
key_aliases =
    ("tab", "Tab")
    ∷ ("escape", "Escape")
    ∷ ("esc", "Escape")
    ∷ ("enter", "Enter")
    ∷ ("return", "Enter")
    ∷ ("space", " ")
    ∷ ("spacebar", " ")
    ∷ ("backspace", "Backspace")
    ∷ ("delete", "Delete")
    ∷ ("del", "Delete")
    ∷ ("pageup", "PageUp")
    ∷ ("pagedown", "PageDown")
    ∷ ("home", "Home")
    ∷ ("end", "End")
    ∷ ("arrowup", "ArrowUp")
    ∷ ("up", "ArrowUp")
    ∷ ("arrowdown", "ArrowDown")
    ∷ ("down", "ArrowDown")
    ∷ ("arrowleft", "ArrowLeft")
    ∷ ("left", "ArrowLeft")
    ∷ ("arrowright", "ArrowRight")
    ∷ ("right", "ArrowRight")
    ∷ []

unfoldable pub normalize_shortcut_key : String → String
unfolding trim is_single to_lower lookup key_aliases
normalize_shortcut_key k =
    let trimmed = trim k in
    if is_single trimmed
    then to_lower trimmed
    else or_else (lookup (to_lower trimmed) key_aliases) trimmed

unfoldable pub is_ctrl_name : String → Bool
is_ctrl_name n = n == "ctrl" || n == "control" || n == "cmdorctrl"

unfoldable pub is_alt_name : String → Bool
is_alt_name n = n == "alt" || n == "option"

unfoldable pub is_meta_name : String → Bool
is_meta_name n = n == "meta" || n == "cmd" || n == "command" || n == "super"

-- One part of a chord.
unfoldable pub read_part : String → ParsedKeyboardShortcut → ParsedKeyboardShortcut
unfolding to_lower is_ctrl_name is_alt_name is_meta_name normalize_shortcut_key
read_part part parsed =
    let normalized = to_lower part in
    if is_ctrl_name normalized
    then record parsed { ctrl_key = true }
    else if normalized == "shift"
    then record parsed { shift_key = true }
    else if is_alt_name normalized
    then record parsed { alt_key = true }
    else if is_meta_name normalized
    then record parsed { meta_key = true }
    else record parsed { key = normalize_shortcut_key part }

unfoldable pub read_parts : List String → ParsedKeyboardShortcut → ParsedKeyboardShortcut
unfolding read_part
read_parts [] parsed = parsed
read_parts (part ∷ parts) parsed = read_parts parts (read_part part parsed)

unfoldable pub parse_keyboard_shortcut : String → Option ParsedKeyboardShortcut
unfolding trim split_plus filter read_parts
parse_keyboard_shortcut shortcut =
    let parts = filter (λ p. not (p == "")) (map trim (split_plus shortcut)) in
    let parsed =
      read_parts parts record {
        key = "";
        ctrl_key = false;
        shift_key = false;
        alt_key = false;
        meta_key = false;
      } in
    if eqb (length parts) 0 then none else if parsed.key == "" then none else some parsed

unfoldable pub accelerator_symbol_keys : Dict String
accelerator_symbol_keys =
    (" ", "Space")
    ∷ ("`", "Backquote")
    ∷ ("\\", "Backslash")
    ∷ ("[", "BracketLeft")
    ∷ ("]", "BracketRight")
    ∷ (",", "Comma")
    ∷ ("=", "Equal")
    ∷ ("-", "Minus")
    ∷ (".", "Period")
    ∷ ("'", "Quote")
    ∷ (";", "Semicolon")
    ∷ ("/", "Slash")
    ∷ []

unfoldable pub to_accelerator_key : String → String
unfolding normalize_shortcut_key is_single to_lower to_upper lookup key_aliases
    accelerator_symbol_keys
to_accelerator_key k =
    let normalized = normalize_shortcut_key k in
    if k == " "
    then "Space"
    else if is_single normalized
    then or_else (lookup normalized accelerator_symbol_keys) (to_upper normalized)
    else or_else (lookup (to_lower normalized) key_aliases) (to_upper normalized)

unfoldable pub when : Bool → String → List String → List String
when test part parts = if test then part ∷ parts else parts

unfoldable pub to_accelerator_from_parsed : ParsedKeyboardShortcut → Option String
unfolding when join_plus to_accelerator_key
to_accelerator_from_parsed parsed =
    let parts = when parsed.ctrl_key "CommandOrControl" (
      when parsed.shift_key "Shift"
        (when parsed.alt_key "Option" (when parsed.meta_key "Command" []))) in
    if eqb (length parts) 0
    then none
    else some (join_plus (parts ++ (to_accelerator_key parsed.key ∷ [])))

unfoldable pub to_accelerator : String → Option String
unfolding parse_keyboard_shortcut to_accelerator_from_parsed
to_accelerator shortcut = elim (parse_keyboard_shortcut shortcut) [
  | none ↦ none
  | some parsed ↦ to_accelerator_from_parsed parsed
]
