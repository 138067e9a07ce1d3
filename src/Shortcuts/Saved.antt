-- ===== src/Shortcuts/Saved.antt =====
-- The saved bindings of src/lib/shortcut-registry.ts: reading them from the settings, and the migration
-- of the keys of older versions. The settings are what `JSON.parse` makes of the stored text, and
-- `none` where there is none or it does not parse. Blanks are those of ASCII.
use r_shell.Prelude.{
  Bool, List, Option, String, [], false, if◌then◌else◌, in_set, is_some, none, not, some, true,
  ◌==◌, ◌||◌, ◌∷◌,
}
use r_shell.Json.{Json, Members, array, end_object, entry, member, object, text}
use r_shell.Shortcuts.Chords.{is_blank, parse_keyboard_shortcut, to_lower, trim}
use r_shell.Shortcuts.Registry.{
  ShortcutBindings, ShortcutCommandId, ShortcutOverrides, close_session, default_shortcut_bindings,
  move_tab_left, move_tab_right, new_session, next_tab, open_settings, previous_tab,
  resolve_shortcut_bindings, split_down, split_right, toggle_bottom_panel, toggle_left_sidebar,
  toggle_right_sidebar, toggle_zen_mode,
}

-- `s.replace(/\s+/g, '')`
without_blanks : String → String
unfolding is_blank
without_blanks String.[] = String.[]
without_blanks (String.◌∷◌ c s) =
    let others = without_blanks s in if is_blank c then others else String.◌∷◌ c others

unfoldable pub compact_shortcut : String → String
unfolding without_blanks to_lower
compact_shortcut s = to_lower (without_blanks s)

unfoldable pub legacy_close_tab_shortcuts : List String
legacy_close_tab_shortcuts = "ctrl+shift+w" ∷ "cmdorctrl+shift+w" ∷ []

unfoldable pub resolve_saved_shortcut : Option Json → String → List String → String
unfolding compact_shortcut parse_keyboard_shortcut
resolve_saved_shortcut (some (text value)) fallback legacy_shortcuts =
    if in_set (compact_shortcut value) legacy_shortcuts
    then fallback
    else if is_some (parse_keyboard_shortcut value)
    then value
    else fallback
resolve_saved_shortcut _ fallback legacy_shortcuts = fallback

-- The command's name as a key.
unfoldable pub command_key : ShortcutCommandId → String
command_key new_session = "newSession"
command_key close_session = "closeSession"
command_key next_tab = "nextTab"
command_key previous_tab = "previousTab"
command_key move_tab_left = "moveTabLeft"
command_key move_tab_right = "moveTabRight"
command_key toggle_left_sidebar = "toggleLeftSidebar"
command_key toggle_bottom_panel = "toggleBottomPanel"
command_key toggle_right_sidebar = "toggleRightSidebar"
command_key toggle_zen_mode = "toggleZenMode"
command_key split_right = "splitRight"
command_key split_down = "splitDown"
command_key open_settings = "openSettings"

-- One legacy key.
unfoldable pub legacy_override : Option Json → String → List String → Option String
unfolding resolve_saved_shortcut
legacy_override saved fallback legacy_shortcuts =
    let value = resolve_saved_shortcut saved fallback legacy_shortcuts in
    if value == fallback then none else some value

unfoldable pub legacy_flat_overrides : Members → ShortcutOverrides
unfolding legacy_override member default_shortcut_bindings command_key legacy_close_tab_shortcuts
legacy_flat_overrides blob close_session =
    legacy_override (member "closeSession" blob) (default_shortcut_bindings close_session)
      legacy_close_tab_shortcuts
legacy_flat_overrides blob next_tab =
    legacy_override (member "nextTab" blob) (default_shortcut_bindings next_tab) []
legacy_flat_overrides blob previous_tab =
    legacy_override (member "previousTab" blob) (default_shortcut_bindings previous_tab) []
legacy_flat_overrides blob new_session =
    legacy_override (member "newSession" blob) (default_shortcut_bindings new_session) []
legacy_flat_overrides blob _ = none

-- `isRecord`, with the named properties of the value: an array has none.
unfoldable pub record_members : Option Json → Option Members
record_members (some (object members)) = some members
record_members (some (array elements)) = some end_object
record_members _ = none

unfoldable pub valid_binding : Option Json → Option String
unfolding parse_keyboard_shortcut trim
valid_binding (some (text value)) =
    if is_some (parse_keyboard_shortcut value) then some (trim value) else none
valid_binding _ = none

-- The overrides of a settings object.
unfoldable pub blob_overrides : Members → ShortcutOverrides
unfolding record_members member valid_binding command_key legacy_flat_overrides
blob_overrides blob id = elim (record_members (member "shortcutBindings" blob)) [
  | none ↦ legacy_flat_overrides blob id
  | some saved ↦ valid_binding (member (command_key id) saved)
]

-- The catch answers for `null`, and other values that are no objects have no keys.
unfoldable pub load_shortcut_overrides : Option Json → ShortcutOverrides
unfolding blob_overrides
load_shortcut_overrides (some (object blob)) id = blob_overrides blob id
load_shortcut_overrides _ id = none

unfoldable pub load_shortcut_bindings : Option Json → ShortcutBindings
unfolding resolve_shortcut_bindings load_shortcut_overrides
load_shortcut_bindings stored = resolve_shortcut_bindings (load_shortcut_overrides stored)

-- `delete blob[key]`
unfoldable pub erase_member : String → Members → Members
erase_member key end_object = end_object
erase_member key (entry k value rest) =
    let others = erase_member key rest in if k == key then others else entry k value others

-- `overrides[id] = value` on a new object, where there is a value
unfoldable pub entry_if : ShortcutCommandId → Option String → Members → Members
unfolding command_key
entry_if id none rest = rest
entry_if id (some value) rest = entry (command_key id) (text value) rest

-- The object of the legacy overrides.
unfoldable pub overrides_object : ShortcutOverrides → Members
unfolding entry_if
overrides_object overrides = entry_if close_session (overrides close_session) (
    entry_if next_tab (overrides next_tab) (
      entry_if previous_tab (overrides previous_tab)
        (entry_if new_session (overrides new_session) end_object)))

-- `Object.keys(overrides).length > 0`
unfoldable pub has_members : Members → Bool
has_members end_object = false
has_members (entry k value rest) = true

-- `blob.shortcutBindings = overrides`, and the same without the keys of older versions. A key that is
-- there is written in place, which no reading tells from writing it in front.
unfoldable pub with_legacy_bindings : Members → Members
unfolding record_members member legacy_flat_overrides overrides_object has_members erase_member
with_legacy_bindings blob =
    let overrides = overrides_object (legacy_flat_overrides blob) in
    if is_some (record_members (member "shortcutBindings" blob)) || not (has_members overrides)
    then blob
    else entry "shortcutBindings" (object overrides) (erase_member "shortcutBindings" blob)

unfoldable pub migrate_legacy_shortcut_bindings : Members → Members
unfolding with_legacy_bindings erase_member
migrate_legacy_shortcut_bindings blob = erase_member "previousTab" (
    erase_member "nextTab"
      (erase_member "closeSession" (erase_member "newSession" (with_legacy_bindings blob))))
