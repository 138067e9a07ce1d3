-- ===== src/Shortcuts/Migrated.antt =====
-- The migration of the keys of older versions in src/lib/shortcut-registry.ts keeps the bindings.
use mathlib.Core.Option
use mathlib.Core.Option.{none-ne-some}
use r_shell.Prelude.{
  Bool-cases, Option-cases, String, [], ap, false, if◌then◌else◌, impossible, inl, inr, is_some,
  none, not, refl, some, sym, true, ◌||◌, ◌∙◌, ◌≡◌,
}
use r_shell.Json.{Members, end_object, entry, member, object, text}
use r_shell.Shortcuts.Chords.{trim}
use r_shell.Shortcuts.Legacy.{
  member-migrated, member-overrides_object, migrated_flat, valid_binding-legacy_override,
}
use r_shell.Shortcuts.Registry.{
  ShortcutCommandId, close_session, default_shortcut_bindings, move_tab_left, move_tab_right,
  new_session, next_tab, open_settings, previous_tab, split_down, split_right, toggle_bottom_panel,
  toggle_left_sidebar, toggle_right_sidebar, toggle_zen_mode,
}
use r_shell.Shortcuts.Saved.{
  blob_overrides, command_key, has_members, legacy_close_tab_shortcuts, legacy_flat_overrides,
  migrate_legacy_shortcut_bindings, overrides_object, record_members, valid_binding,
  with_legacy_bindings,
}

valid_binding-legacy_flat_overrides :
    (blob : Members) (id : ShortcutCommandId)
    → valid_binding (Option.map text (legacy_flat_overrides blob id))
      ≡ Option.map trim (legacy_flat_overrides blob id)
unfolding valid_binding legacy_flat_overrides
valid_binding-legacy_flat_overrides blob close_session =
    valid_binding-legacy_override (member (command_key close_session) blob)
      (default_shortcut_bindings close_session) legacy_close_tab_shortcuts
valid_binding-legacy_flat_overrides blob next_tab =
    valid_binding-legacy_override (member (command_key next_tab) blob)
      (default_shortcut_bindings next_tab) []
valid_binding-legacy_flat_overrides blob previous_tab =
    valid_binding-legacy_override (member (command_key previous_tab) blob)
      (default_shortcut_bindings previous_tab) []
valid_binding-legacy_flat_overrides blob new_session =
    valid_binding-legacy_override (member (command_key new_session) blob)
      (default_shortcut_bindings new_session) []
valid_binding-legacy_flat_overrides blob move_tab_left = refl
valid_binding-legacy_flat_overrides blob move_tab_right = refl
valid_binding-legacy_flat_overrides blob toggle_left_sidebar = refl
valid_binding-legacy_flat_overrides blob toggle_bottom_panel = refl
valid_binding-legacy_flat_overrides blob toggle_right_sidebar = refl
valid_binding-legacy_flat_overrides blob toggle_zen_mode = refl
valid_binding-legacy_flat_overrides blob split_right = refl
valid_binding-legacy_flat_overrides blob split_down = refl
valid_binding-legacy_flat_overrides blob open_settings = refl

member-has_members : (k : String) (m : Members) → has_members m ≡ false → member k m ≡ none
unfolding has_members member
member-has_members k end_object h = refl
member-has_members k (entry j v m) h = impossible (sym h)

no_overrides_left :
    (blob : Members) (id : ShortcutCommandId)
    → has_members (overrides_object (legacy_flat_overrides blob)) ≡ false
    → legacy_flat_overrides blob id ≡ none
no_overrides_left blob id h =
    let read = member-has_members (command_key id) _ h in
    elim (Option-cases (legacy_flat_overrides blob id)) [
      | inl e ↦ e
      | inr e ↦
          let written =
            ap (Option.map text) (sym e.1) ∙ sym (member-overrides_object blob id) ∙ read in
          absurd (none-ne-some (text e.0) (sym written))
    ]

with_legacy_bindings-kept :
    (blob : Members)
    → (is_some (record_members (member "shortcutBindings" blob))
        || not (has_members (overrides_object (legacy_flat_overrides blob))))
      ≡ true
    → with_legacy_bindings blob ≡ blob
unfolding with_legacy_bindings
with_legacy_bindings-kept blob h = rw h refl

with_legacy_bindings-written :
    (blob : Members)
    → (is_some (record_members (member "shortcutBindings" blob))
        || not (has_members (overrides_object (legacy_flat_overrides blob))))
      ≡ false
    → member "shortcutBindings" (with_legacy_bindings blob)
      ≡ some (object (overrides_object (legacy_flat_overrides blob)))
unfolding with_legacy_bindings member
with_legacy_bindings-written blob h = rw h refl

-- Of each command, the override that is read behind the migration is the one that was read before it,
-- exactly so where there is a record of bindings, and else without the blanks around it.
pub blob_overrides-migrate_legacy_shortcut_bindings :
    (blob : Members) (id : ShortcutCommandId)
    → blob_overrides (migrate_legacy_shortcut_bindings blob) id ≡ (
        if is_some (record_members (member "shortcutBindings" blob))
        then blob_overrides blob id
        else Option.map trim (blob_overrides blob id))
unfolding blob_overrides record_members
blob_overrides-migrate_legacy_shortcut_bindings blob id =
    elim (Option-cases (record_members (member "shortcutBindings" blob))) [
      | inl e ↦ elim (Bool-cases (has_members (overrides_object (legacy_flat_overrides blob)))) [
        | inl old ↦
            rw
              (
                blob_overrides,
                member-migrated blob,
                with_legacy_bindings-written blob (rw (e, old) refl),
                e,
              )
              (rw (member-overrides_object blob id) (valid_binding-legacy_flat_overrides blob id))
        | inr none_old ↦
            rw
              (
                blob_overrides,
                member-migrated blob,
                with_legacy_bindings-kept blob (rw (e, none_old) refl),
                e,
              )
              (rw (migrated_flat blob id, no_overrides_left blob id none_old) refl)
      ]
      | inr e ↦
          rw
            (
              blob_overrides,
              member-migrated blob,
              with_legacy_bindings-kept blob (rw (e.1) refl),
              e.1,
            )
            refl
    ]
