-- ===== src/Shortcuts/Legacy.antt =====
-- What src/lib/shortcut-registry.ts reads from a settings object with keys of an older version.
use mathlib.Core.Option
use r_shell.Prelude.{
  Bool-cases, List, Option, Option-cases, String, arith, eq_iff, eq_refl, if◌then◌else◌, in_set,
  inl, inr, is_some, none, refl, some, ◌==◌, ◌≡◌,
}
use r_shell.Json.{
  Json, Members, array, boolean, end_object, entry, fraction, integer, member, null, object, text,
}
use r_shell.Shortcuts.Chords.{parse_keyboard_shortcut, trim}
use r_shell.Shortcuts.Registry.{
  ShortcutCommandId, close_session, move_tab_left, move_tab_right, new_session, next_tab,
  open_settings, previous_tab, split_down, split_right, toggle_bottom_panel, toggle_left_sidebar,
  toggle_right_sidebar, toggle_zen_mode,
}
use r_shell.Shortcuts.Saved.{
  command_key, compact_shortcut, entry_if, erase_member, legacy_flat_overrides, legacy_override,
  migrate_legacy_shortcut_bindings, overrides_object, resolve_saved_shortcut, valid_binding,
  with_legacy_bindings,
}

member-erase_member :
    (k j : String) (m : Members)
    → member j (erase_member k m) ≡ (if k == j then none else member j m)
unfolding member erase_member
member-erase_member k j end_object = ground arith
member-erase_member k j (entry i v m) =
    ground (arith, eq_iff k j, eq_iff i k, eq_iff i j, member-erase_member k j m)

pub member-migrated :
    (blob : Members)
    → member "shortcutBindings" (migrate_legacy_shortcut_bindings blob)
      ≡ member "shortcutBindings" (with_legacy_bindings blob)
unfolding migrate_legacy_shortcut_bindings
member-migrated blob =
    rw (member-erase_member, member-erase_member, member-erase_member, member-erase_member) refl

-- No key of an older version is left.
pub migrated_flat :
    (blob : Members) (id : ShortcutCommandId)
    → legacy_flat_overrides (migrate_legacy_shortcut_bindings blob) id ≡ none
unfolding migrate_legacy_shortcut_bindings legacy_flat_overrides legacy_override
    resolve_saved_shortcut
migrated_flat blob close_session =
    rw (member-erase_member, member-erase_member, member-erase_member) refl
migrated_flat blob next_tab = rw (member-erase_member, member-erase_member) refl
migrated_flat blob previous_tab = rw member-erase_member refl
migrated_flat blob new_session =
    rw (member-erase_member, member-erase_member, member-erase_member, member-erase_member) refl
migrated_flat blob move_tab_left = refl
migrated_flat blob move_tab_right = refl
migrated_flat blob toggle_left_sidebar = refl
migrated_flat blob toggle_bottom_panel = refl
migrated_flat blob toggle_right_sidebar = refl
migrated_flat blob toggle_zen_mode = refl
migrated_flat blob split_right = refl
migrated_flat blob split_down = refl
migrated_flat blob open_settings = refl

-- An override of an older version is a binding that parses.
pub valid_binding-legacy_override :
    (saved : Option Json) (fallback : String) (legacy : List String)
    → valid_binding (Option.map text (legacy_override saved fallback legacy))
      ≡ Option.map trim (legacy_override saved fallback legacy)
unfolding legacy_override resolve_saved_shortcut valid_binding
valid_binding-legacy_override (some (text value)) fallback legacy =
    elim (Bool-cases (in_set (compact_shortcut value) legacy)) [
      | inl e ↦ rw (e, eq_refl fallback) refl
      | inr e ↦ elim (Bool-cases (is_some (parse_keyboard_shortcut value))) [
        | inl f ↦ elim (Bool-cases (value == fallback)) [
          | inl same ↦ rw (e, f, same) refl
          | inr other ↦ rw (e, f, other, f) refl
        ]
        | inr f ↦ rw (e, f, eq_refl fallback) refl
      ]
    ]
valid_binding-legacy_override none fallback legacy = rw (eq_refl fallback) refl
valid_binding-legacy_override (some null) fallback legacy = rw (eq_refl fallback) refl
valid_binding-legacy_override (some (boolean b)) fallback legacy = rw (eq_refl fallback) refl
valid_binding-legacy_override (some (integer n)) fallback legacy = rw (eq_refl fallback) refl
valid_binding-legacy_override (some (fraction t)) fallback legacy = rw (eq_refl fallback) refl
valid_binding-legacy_override (some (array es)) fallback legacy = rw (eq_refl fallback) refl
valid_binding-legacy_override (some (object ms)) fallback legacy = rw (eq_refl fallback) refl

member-entry_if :
    (id : ShortcutCommandId) (k : String) (o : Option String) (rest : Members)
    → member k (entry_if id o rest) ≡ (
        if command_key id == k
        then elim o [ none ↦ member k rest | some v ↦ some (text v) ]
        else member k rest)
unfolding member entry_if
member-entry_if id k none rest = elim (Bool-cases (command_key id == k)) [
  | inl e ↦ rw e refl
  | inr e ↦ rw e refl
]
member-entry_if id k (some v) rest = refl

-- The object of the overrides has them under the names of the commands.
pub member-overrides_object :
    (blob : Members) (id : ShortcutCommandId)
    → member (command_key id) (overrides_object (legacy_flat_overrides blob))
      ≡ Option.map text (legacy_flat_overrides blob id)
unfolding overrides_object command_key legacy_flat_overrides member
member-overrides_object blob close_session =
    rw member-entry_if (elim (Option-cases (legacy_flat_overrides blob close_session)) [
      | inl e ↦ rw (e, member-entry_if, member-entry_if, member-entry_if) refl
      | inr e ↦ rw (e.1) refl
    ])
member-overrides_object blob next_tab =
    rw (member-entry_if, member-entry_if)
      (elim (Option-cases (legacy_flat_overrides blob next_tab)) [
        | inl e ↦ rw (e, member-entry_if, member-entry_if) refl
        | inr e ↦ rw (e.1) refl
      ])
member-overrides_object blob previous_tab =
    rw (member-entry_if, member-entry_if, member-entry_if)
      (elim (Option-cases (legacy_flat_overrides blob previous_tab)) [
        | inl e ↦ rw (e, member-entry_if) refl
        | inr e ↦ rw (e.1) refl
      ])
member-overrides_object blob new_session =
    rw (member-entry_if, member-entry_if, member-entry_if, member-entry_if)
      (elim (Option-cases (legacy_flat_overrides blob new_session)) [
        | inl e ↦ rw e refl
        | inr e ↦ rw (e.1) refl
      ])
member-overrides_object blob move_tab_left =
    rw (member-entry_if, member-entry_if, member-entry_if, member-entry_if) refl
member-overrides_object blob move_tab_right =
    rw (member-entry_if, member-entry_if, member-entry_if, member-entry_if) refl
member-overrides_object blob toggle_left_sidebar =
    rw (member-entry_if, member-entry_if, member-entry_if, member-entry_if) refl
member-overrides_object blob toggle_bottom_panel =
    rw (member-entry_if, member-entry_if, member-entry_if, member-entry_if) refl
member-overrides_object blob toggle_right_sidebar =
    rw (member-entry_if, member-entry_if, member-entry_if, member-entry_if) refl
member-overrides_object blob toggle_zen_mode =
    rw (member-entry_if, member-entry_if, member-entry_if, member-entry_if) refl
member-overrides_object blob split_right =
    rw (member-entry_if, member-entry_if, member-entry_if, member-entry_if) refl
member-overrides_object blob split_down =
    rw (member-entry_if, member-entry_if, member-entry_if, member-entry_if) refl
member-overrides_object blob open_settings =
    rw (member-entry_if, member-entry_if, member-entry_if, member-entry_if) refl
