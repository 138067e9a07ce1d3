-- ===== src/Storage/Examples/Sealed.antt =====
-- Secrets of src/lib/credential-crypto.ts that are sealed and opened, and the calls on single
-- connections of src/lib/connection-storage.ts.
use r_shell.Prelude.{
  Bool-cases, List, Memᴰ, Option, String, [], all, any, eq_iff, false, if◌then◌else◌, impossible,
  inl, inr, none, refl, some, some_inj, starts_with, subst, sym, true, ◌++◌, ◌==◌, ◌∷◌, ◌≡◌, ◌⊎◌,
}
use r_shell.Json.{Json, array, element, end_array, end_object, entry, object, text}
use r_shell.Storage.Backup.{
  backup_corrupt_value, has_identical_backup, is_taken, strip_secrets_deep,
}
use r_shell.Storage.Catalog.{
  ConnectionCall, catalog, change_connection, discard_connection, listed, perform_all,
  put_connection, replay,
}
use r_shell.Storage.Cleaned.{backup_corrupt_value-clean, is_clean}
use r_shell.Storage.Connections.{port_to}
use r_shell.Storage.Examples.{empty_store, no_secrets, outside_at, saved_host}
use r_shell.Storage.Kept.{is_unreadable}
use r_shell.Storage.Lost.{Lost, migrate_legacy_secrets-stripped}
use r_shell.Storage.Migration.{migrate_legacy_secrets, with_connections}
use r_shell.Storage.Refines.{IsHealthy}
use r_shell.Storage.Refines.Catalogs.{perform_all-replay}
use r_shell.Storage.Sealing.{
  any_secret, is_sealed_field, open_connection_secrets-seal_legacy_secrets,
}
use r_shell.Storage.Secrets.{
  each_secret, has_plaintext, is_legacy_plaintext, is_sealed, open_connection_secrets, parts,
  seal_field, seal_legacy_secrets, strip_unencrypted_secrets, stripped_field,
}
use r_shell.Storage.Types.{Backup, ConnectionData, Secrets}

-- A backend that seals one text.
abbrev seal_one : String → Option String
seal_one s = if s == "abc" then some "v1:n:abc" else none

abbrev open_one : String → Option String
open_one z = if z == "v1:n:abc" then some "abc" else none

sealed_abc : (is_sealed "v1:n:abc" ≡ true) × (open_one "v1:n:abc" ≡ some "abc")
unfolding is_sealed parts starts_with
sealed_abc = (refl, refl)

no_text {ℓ} : {A : Type ℓ} {z : String} → none ≡ some z → A
no_text e = cc

seal_one-open_one :
    (s z : String) → seal_one s ≡ some z → (is_sealed z ≡ true) × (open_one z ≡ some s)
seal_one-open_one s z e = elim (Bool-cases (s == "abc")) [
  | inl a ↦
      subst (λ t. (is_sealed z ≡ true) × (open_one z ≡ some t)) (sym ((eq_iff s "abc").0 a))
        (subst (λ w. (is_sealed w ≡ true) × (open_one w ≡ some "abc"))
          (some_inj (rw (seal_one, a) at e)) sealed_abc)
  | inr a ↦ no_text (rw (seal_one, a) at e)
]

abbrev passwords : Secrets
passwords = record no_secrets {
  password = some "abc";
  passphrase = some "";
  vnc_password = some "pw";
}

passwords_plain : any_secret is_sealed_field passwords ≡ false
unfolding any_secret is_sealed_field is_sealed parts starts_with
passwords_plain = refl

open_connection_secrets-seal_legacy_secrets_example :
    open_connection_secrets open_one (seal_legacy_secrets seal_one passwords).0 ≡ passwords
open_connection_secrets-seal_legacy_secrets_example =
    open_connection_secrets-seal_legacy_secrets seal_one open_one seal_one-open_one passwords
      passwords_plain

abbrev first : ConnectionData
first = saved_host "first" "Work" (record no_secrets { password = some "abc" })

-- The backend does not seal this one.
abbrev second : ConnectionData
second = saved_host "second" "Work" (record no_secrets { password = some "only copy" })

first-plain : has_plaintext first.secrets ≡ true
unfolding has_plaintext is_legacy_plaintext is_sealed parts starts_with any
first-plain = refl

first-seals :
    ((seal_legacy_secrets seal_one first.secrets).1.failed ≡ false)
    × ((seal_legacy_secrets seal_one first.secrets).1.migrated ≡ true)
unfolding seal_legacy_secrets seal_field is_legacy_plaintext is_sealed parts starts_with
first-seals = (refl, refl)

second-fails : (seal_legacy_secrets seal_one second.secrets).1.failed ≡ true
unfolding seal_legacy_secrets seal_field is_legacy_plaintext is_sealed parts starts_with
second-fails = refl

abbrev none_plain : ConnectionData
none_plain = saved_host "third" "Work" no_secrets

others_fail :
    (c : ConnectionData)
    → Memᴰ c (second ∷ none_plain ∷ [])
    → has_plaintext c.secrets ≡ true
    → (seal_legacy_secrets seal_one c.secrets).1.failed ≡ true
unfolding has_plaintext is_legacy_plaintext any
others_fail c (Memᴰ.head k) h =
    subst (λ d. (seal_legacy_secrets seal_one d.secrets).1.failed ≡ true) (sym k) second-fails
others_fail c (Memᴰ.tail (Memᴰ.head k)) h =
    impossible (subst (λ d. has_plaintext d.secrets ≡ true) k h)
others_fail c (Memᴰ.tail (Memᴰ.tail m)) h = elim m [ ]

migrate_legacy_secrets-stripped_example : Lost first (second ∷ none_plain ∷ []) (
    migrate_legacy_secrets seal_one 1
      (with_connections (first ∷ second ∷ none_plain ∷ []) empty_store))
migrate_legacy_secrets-stripped_example =
    migrate_legacy_secrets-stripped seal_one 1 first (second ∷ none_plain ∷ []) empty_store
      first-plain first-seals.0 first-seals.1 others_fail

second_is_lost : (strip_unencrypted_secrets [] second).secrets.password ≡ none
unfolding strip_unencrypted_secrets each_secret stripped_field is_legacy_plaintext is_sealed parts
    starts_with
second_is_lost = refl

abbrev calls_on_one : List ConnectionCall
calls_on_one =
    put_connection (outside_at 5) "a"
      (saved_host "x" "Work" (record no_secrets { password = some "pw" }))
    ∷ change_connection 6 "a" (port_to 2222 ∷ [])
    ∷ put_connection (outside_at 7) "b" (saved_host "y" "" no_secrets)
    ∷ discard_connection 8 "b"
    ∷ []

empty-IsHealthy : IsHealthy empty_store
unfolding is_unreadable listed all
empty-IsHealthy = record { readable = refl; safe = refl }

perform_all-replay_example :
    catalog 9 (perform_all calls_on_one empty_store) "a"
    ≡ replay empty_store.seal_failed calls_on_one (catalog 9 empty_store) "a"
perform_all-replay_example = perform_all-replay calls_on_one 9 empty_store "a" empty-IsHealthy

-- Two wrappers around a secret, in the place of the array.
abbrev wrapped : Json
wrapped = object (
    entry "list"
      (array (
        element (object (entry "password" (text "pw") (entry "id" (text "a") end_object)))
          end_array))
      end_object)

backup_corrupt_value-clean_example :
    ((has_identical_backup "r-shell-connections" (strip_secrets_deep wrapped) [] ≡ true)
      × (backup_corrupt_value "r-shell-connections" 7 wrapped [] ≡ []))
    ⊎ ((b : Backup) × ((backup_corrupt_value "r-shell-connections" 7 wrapped [] ≡ [] ++ (b ∷ []))
          × ((is_taken b.backup_key [] ≡ false) × (is_clean b.copy ≡ true))))
backup_corrupt_value-clean_example = backup_corrupt_value-clean "r-shell-connections" 7 wrapped []
