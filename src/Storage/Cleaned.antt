-- ===== src/Storage/Cleaned.antt =====
-- What `stripSecretsDeep` of src/lib/connection-storage.ts leaves of a value, and the backup of it.
use r_shell.Prelude.{
  Bool, Bool-cases, List, String, [], false, inl, inr, not, refl, true, ℕ, ◌&&◌, ◌++◌, ◌∷◌, ◌≡◌,
  ◌⊎◌,
}
use r_shell.Json.{
  Elements, Json, Members, array, boolean, element, end_array, end_object, entry, fraction, integer,
  null, object, text,
}
use r_shell.Storage.Backup.{
  backup_corrupt_value, has_identical_backup, is_forbidden, is_secret_field, is_taken, may_stay,
  strip_elements, strip_members, strip_secrets_deep,
}
use r_shell.Storage.Copies.{free_backup_key-free}
use r_shell.Storage.Types.{Backup}

-- At any depth, a property that is named like a secret is `null`, empty or sealed.
unfoldable mutual
  unfolding is_forbidden

  pub is_clean : Json → Bool
  is_clean (array items) = are_clean items
  is_clean (object fields) = are_clean_fields fields
  is_clean value = true

  pub are_clean : Elements → Bool
  are_clean end_array = true
  are_clean (element value items) = is_clean value && are_clean items

  pub are_clean_fields : Members → Bool
  are_clean_fields end_object = true
  are_clean_fields (entry key value fields) =
      not (is_forbidden key value) && is_clean value && are_clean_fields fields

may_stay-strip : (v : Json) → may_stay v ≡ true → may_stay (strip_secrets_deep v) ≡ true
unfolding may_stay strip_secrets_deep
may_stay-strip null h = h
may_stay-strip (text s) h = h
may_stay-strip (boolean b) h = h
may_stay-strip (integer n) h = h
may_stay-strip (fraction s) h = h
may_stay-strip (array xs) h = h
may_stay-strip (object fs) h = h

stays_allowed : (a b c : Bool) → (b ≡ true → c ≡ true) → (a && not b) ≡ false → (a && not c) ≡ false
stays_allowed false b c h e = refl
stays_allowed true false c h e = cc
stays_allowed true true c h e = rw (h refl) refl

is_forbidden-strip :
    (k : String) (v : Json)
    → is_forbidden k v ≡ false
    → is_forbidden k (strip_secrets_deep v) ≡ false
unfolding is_forbidden
is_forbidden-strip k v e =
    stays_allowed (is_secret_field k) (may_stay v) (may_stay (strip_secrets_deep v))
      (may_stay-strip v) e

mutual
  unfolding is_clean strip_secrets_deep

  strip-clean : (v : Json) → is_clean (strip_secrets_deep v) ≡ true
  strip-clean null = refl
  strip-clean (text s) = refl
  strip-clean (boolean b) = refl
  strip-clean (integer n) = refl
  strip-clean (fraction s) = refl
  strip-clean (array xs) = strip-clean_items xs
  strip-clean (object fs) = strip-clean_fields fs

  strip-clean_items : (xs : Elements) → are_clean (strip_elements xs) ≡ true
  strip-clean_items end_array = refl
  strip-clean_items (element v xs) = rw (strip-clean v) (strip-clean_items xs)

  strip-clean_fields : (fs : Members) → are_clean_fields (strip_members fs) ≡ true
  strip-clean_fields end_object = refl
  strip-clean_fields (entry k v fs) = elim (Bool-cases (is_forbidden k v)) [
    | inl e ↦ rw (strip_members, e) (strip-clean_fields fs)
    | inr e ↦
        rw (strip_members, e) (rw (is_forbidden-strip k v e, strip-clean v) (strip-clean_fields fs))
  ]

-- The backup of a corrupt value leaves the other backups as they are. Unless one of the same key is
-- the same value without its secrets, it adds one under a name that was free, in which no property at
-- any depth that is named like a secret has a value other than `null`, an empty or a sealed text.
pub backup_corrupt_value-clean :
    (key : String) (now : ℕ) (raw : Json) (bs : List Backup)
    → ((has_identical_backup key (strip_secrets_deep raw) bs ≡ true)
        × (backup_corrupt_value key now raw bs ≡ bs))
      ⊎ ((b : Backup) × ((backup_corrupt_value key now raw bs ≡ bs ++ (b ∷ []))
            × ((is_taken b.backup_key bs ≡ false) × (is_clean b.copy ≡ true))))
unfolding backup_corrupt_value
backup_corrupt_value-clean key now raw bs =
    elim (Bool-cases (has_identical_backup key (strip_secrets_deep raw) bs)) [
      | inl e ↦ inl (e, rw (backup_corrupt_value, e) refl)
      | inr e ↦
          let free = free_backup_key-free key now bs in
          let b : Backup = record { backup_key = free.0; copy = strip_secrets_deep raw } in
          inr (b, (rw (backup_corrupt_value, e, free.1.0) refl, (free.1.1, strip-clean raw)))
    ]
