-- ===== src/Storage/Sessions.antt =====
-- The first start in src/lib/connection-storage.ts, with the migration of the sessions of older
-- versions, and clearing. An old session is a record with the fields of a connection.
use mathlib.Core.Option
use r_shell.Prelude.{
  Bool, List, String, concat, false, if◌then◌else◌, map, starts_with, suc, true, zero, ℕ, ◌&&◌,
  ◌==◌,
}
use r_shell.Storage.Backup.{remove_corrupt_backups}
use r_shell.Storage.Bundle.{create_default_folders}
use r_shell.Storage.Guarded.{get_folders, key_name, write_folders, write_stored_array}
use r_shell.Storage.Types.{
  ConnectionData, ConnectionFolder, Outside, Store, Stored, absent, connections_key, entries,
  folders_key, malformed,
}

-- `text.replace(/All Sessions/g, 'All Connections')`, behind `passed` more characters of an occurrence
unfoldable pub renamed_from : ℕ → String → String
unfolding starts_with
renamed_from passed String.[] = String.[]
renamed_from zero (String.◌∷◌ c s) =
    let behind = renamed_from 11 s in
    let others = renamed_from 0 s in
    if starts_with "All Sessions" (String.◌∷◌ c s)
    then concat "All Connections" behind
    else String.◌∷◌ c others
renamed_from (suc passed) (String.◌∷◌ c s) = renamed_from passed s

unfoldable pub migrated_session : ConnectionData → ConnectionData
unfolding renamed_from
migrated_session c = record c { folder = Option.map (renamed_from 0) c.folder }

unfoldable pub migrated_folder : ConnectionFolder → ConnectionFolder
unfolding renamed_from
migrated_folder f = record f {
  name = renamed_from 0 f.name;
  path = renamed_from 0 f.path;
  parent_path = Option.map (renamed_from 0) f.parent_path;
}

-- `!localStorage.getItem(key)`
unfoldable pub is_missing : {A : Type 0} → Stored A → Bool
is_missing absent = true
is_missing (malformed raw) = raw == ""
is_missing _ = false

-- The part for the folders: what is no array of folders throws behind the read.
unfoldable pub migrate_folders : ℕ → Store → Store
unfolding is_missing get_folders migrated_folder write_folders
migrate_folders now st =
    if is_missing st.legacy_folders
    then st
    else (let read = (get_folders now st).1 in
        elim st.legacy_folders [
          | entries fs ↦ write_folders (map migrated_folder fs) read
          | _ ↦ read
        ])

-- The sessions are written as they are, plaintext included; what is no array of them throws.
unfoldable pub write_sessions : List ConnectionData → Store → Store
unfolding migrated_session write_stored_array
write_sessions cs st = record st {
  connections = write_stored_array st.connections_corrupt (map migrated_session cs) st.connections;
}

unfoldable pub migrate_from_session_storage : ℕ → Store → Store
unfolding is_missing write_sessions migrate_folders
migrate_from_session_storage now st =
    if st.readable && is_missing st.connections
    then elim st.legacy_sessions [
      | entries cs ↦ migrate_folders now (write_sessions cs st)
      | _ ↦ st
    ]
    else st

unfoldable pub initialize : Outside → Store → Store
unfolding migrate_from_session_storage create_default_folders
initialize out st = create_default_folders out (migrate_from_session_storage out.now st)

unfoldable pub clear_all : Outside → Store → Store
unfolding remove_corrupt_backups initialize key_name
clear_all out st = initialize out (record st {
  connections = absent;
  folders = absent;
  backups =
      remove_corrupt_backups (key_name folders_key)
        (remove_corrupt_backups (key_name connections_key) st.backups);
  connections_corrupt = false;
  folders_corrupt = false;
})
