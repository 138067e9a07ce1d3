-- ===== src/Storage/Backup.antt =====
-- The copies that src/lib/connection-storage.ts makes of a corrupt value: what is removed from them,
-- and the names that they get. A text is compared as the value that it stands for.
use r_shell.Prelude.{
  Bool, List, Option, String, [], any, concat, eqb, false, filter, if◌then◌else◌, in_set, length,
  negsuc, none, not, pos, show, some, starts_with, suc, true, zero, ℕ, ℤ, ◌&&◌, ◌++◌, ◌==◌, ◌||◌,
  ◌∷◌,
}
use r_shell.Json.{
  Elements, Json, Members, array, boolean, element, end_array, end_object, entry, fraction, integer,
  null, object, text,
}
use r_shell.Storage.Secrets.{is_sealed}
use r_shell.Storage.Types.{Backup}

unfoldable pub is_secret_field : String → Bool
is_secret_field key = in_set key (
    "password" ∷ "passphrase" ∷ "proxyPassword" ∷ "vncPassword" ∷ "tunnelPassword"
    ∷ "tunnelPassphrase" ∷ [])

-- `current === null || isEmptyOrSealed`
unfoldable pub may_stay : Json → Bool
may_stay null = true
may_stay (text s) = s == "" || is_sealed s
may_stay _ = false

-- The property is deleted.
unfoldable pub is_forbidden : String → Json → Bool
unfolding is_secret_field may_stay
is_forbidden key value = is_secret_field key && not (may_stay value)

unfoldable mutual
  unfolding is_forbidden

  pub strip_secrets_deep : Json → Json
  strip_secrets_deep (array items) = array (strip_elements items)
  strip_secrets_deep (object fields) = object (strip_members fields)
  strip_secrets_deep value = value

  pub strip_elements : Elements → Elements
  strip_elements end_array = end_array
  strip_elements (element value items) = element (strip_secrets_deep value) (strip_elements items)

  pub strip_members : Members → Members
  strip_members end_object = end_object
  strip_members (entry key value fields) =
      let stripped = strip_secrets_deep value in
      let others = strip_members fields in
      if is_forbidden key value then others else entry key stripped others

same_whole : ℤ → ℤ → Bool
same_whole (pos a) (pos b) = eqb a b
same_whole (negsuc a) (negsuc b) = eqb a b
same_whole _ _ = false

same_truth : Bool → Bool → Bool
same_truth true b = b
same_truth false b = not b

unfoldable mutual
  unfolding same_whole same_truth

  pub same_json : Json → Json → Bool
  same_json null null = true
  same_json (boolean a) (boolean b) = same_truth a b
  same_json (integer a) (integer b) = same_whole a b
  same_json (fraction a) (fraction b) = a == b
  same_json (text a) (text b) = a == b
  same_json (array a) (array b) = same_elements a b
  same_json (object a) (object b) = same_members a b
  same_json _ _ = false

  pub same_elements : Elements → Elements → Bool
  same_elements end_array end_array = true
  same_elements (element v a) (element w b) = same_json v w && same_elements a b
  same_elements _ _ = false

  pub same_members : Members → Members → Bool
  same_members end_object end_object = true
  same_members (entry k v a) (entry l w b) = k == l && same_json v w && same_members a b
  same_members _ _ = false

-- `${key}.corrupt.`
unfoldable pub backup_prefix : String → String
backup_prefix key = concat key ".corrupt."

unfoldable pub has_identical_backup : String → Json → List Backup → Bool
unfolding same_json backup_prefix
has_identical_backup key sanitized backups =
    any (λ (b : Backup). starts_with (backup_prefix key) b.backup_key && same_json b.copy sanitized)
      backups

-- `localStorage.getItem(name) !== null`
unfoldable pub is_taken : String → List Backup → Bool
is_taken name backups = any (λ (b : Backup). b.backup_key == name) backups

unfoldable pub suffixed_name : String → ℕ → String
suffixed_name base suffix = concat base (concat "-" (show suffix))

-- The loop on the suffixes, with fuel; `none` when the fuel is used up.
unfoldable pub free_suffix : ℕ → String → ℕ → List Backup → Option String
unfolding suffixed_name is_taken
free_suffix zero base suffix backups = none
free_suffix (suc fuel) base suffix backups =
    let later = free_suffix fuel base (suc suffix) backups in
    if is_taken (suffixed_name base suffix) backups then later else some (suffixed_name base suffix)

unfoldable pub free_backup_key : String → ℕ → List Backup → Option String
unfolding free_suffix backup_prefix is_taken
free_backup_key key now backups =
    let base = concat (backup_prefix key) (show now) in
    if is_taken base backups then free_suffix (suc (length backups)) base 1 backups else some base

unfoldable pub backup_corrupt_value : String → ℕ → Json → List Backup → List Backup
unfolding strip_secrets_deep has_identical_backup free_backup_key
backup_corrupt_value key now raw backups =
    let sanitized = strip_secrets_deep raw in
    if has_identical_backup key sanitized backups
    then backups
    else elim (free_backup_key key now backups) [
      | some name ↦ backups ++ (record { backup_key = name; copy = sanitized } ∷ [])
      | none ↦ backups
    ]

-- `removeCorruptBackups`
unfoldable pub remove_corrupt_backups : String → List Backup → List Backup
unfolding backup_prefix
remove_corrupt_backups key backups =
    filter (λ (b : Backup). not (starts_with (backup_prefix key) b.backup_key)) backups
