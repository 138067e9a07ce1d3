-- ===== src/Storage/Guarded.antt =====
-- The reads and writes of the two arrays of src/lib/connection-storage.ts, with the guard that keeps
-- a corrupt value. The time is an argument.
use r_shell.Prelude.{
  Bool, List, String, [], false, if◌then◌else◌, map, not, out_of_set, true, ℕ, ◌==◌, ◌||◌, ◌∷◌,
}
use r_shell.Storage.Backup.{backup_corrupt_value}
use r_shell.Storage.Secrets.{strip_unencrypted_secrets}
use r_shell.Storage.Types.{
  Backup, ConnectionData, ConnectionFolder, StorageKey, Store, Stored, absent, connections_key,
  entries, folders_key, malformed, other_value,
}

unfoldable pub key_name : StorageKey → String
key_name connections_key = "r-shell-connections"
key_name folders_key = "r-shell-connection-folders"

-- What `readStoredArray` returns, and the flag and the backups that it leaves.
pub record Reading (A : Type 0) : Type 0 where
  pub items : List A
  pub corrupt : Bool
  pub backups : List Backup

unfoldable pub read_stored_array :
    {A : Type 0} → StorageKey → ℕ → Bool → Stored A → Bool → List Backup → Reading A
unfolding key_name backup_corrupt_value
read_stored_array key now readable stored corrupted backups =
    if not readable then record { items = []; corrupt = true; backups = backups } else elim stored [
      | absent ↦ record { items = []; corrupt = false; backups = backups }
      | malformed raw ↦ record { items = []; corrupt = not (raw == ""); backups = backups }
      | other_value value ↦ record {
        items = [];
        corrupt = true;
        backups =
            if corrupted then backups else backup_corrupt_value (key_name key) now value backups;
      }
      | entries xs ↦ record { items = xs; corrupt = false; backups = backups }
    ]

unfoldable pub get_connections : ℕ → Store → List ConnectionData × Store
unfolding read_stored_array
get_connections now st =
    let r =
      read_stored_array connections_key now st.readable st.connections st.connections_corrupt
        st.backups in
    (r.items, record st { connections_corrupt = r.corrupt; backups = r.backups })

unfoldable pub get_folders : ℕ → Store → List ConnectionFolder × Store
unfolding read_stored_array
get_folders now st =
    let r =
      read_stored_array folders_key now st.readable st.folders st.folders_corrupt st.backups in
    (r.items, record st { folders_corrupt = r.corrupt; backups = r.backups })

-- `writeStoredArray`
unfoldable pub write_stored_array : {A : Type 0} → Bool → List A → Stored A → Stored A
write_stored_array corrupted value stored = if corrupted then stored else entries value

unfoldable pub write_folders : List ConnectionFolder → Store → Store
unfolding write_stored_array
write_folders fs st = record st { folders = write_stored_array st.folders_corrupt fs st.folders }

unfoldable pub persist_connections : List ConnectionData → Store → Store
unfolding write_stored_array strip_unencrypted_secrets
persist_connections cs st = record st {
  connections =
      write_stored_array st.connections_corrupt (map (strip_unencrypted_secrets st.seal_failed) cs)
        st.connections;
}

-- `corruption.connections || corruption.folders`
unfoldable pub is_storage_corrupt : Store → Bool
is_storage_corrupt st = st.connections_corrupt || st.folders_corrupt

unfoldable pub mark_seal_failed : String → Store → Store
mark_seal_failed id st = record st { seal_failed = id ∷ st.seal_failed }

unfoldable pub clear_seal_failed : String → Store → Store
clear_seal_failed id st = record st { seal_failed = out_of_set id st.seal_failed }
