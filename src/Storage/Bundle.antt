-- ===== src/Storage/Bundle.antt =====
-- Import, export and the default folders in src/lib/connection-storage.ts. The text of a bundle
-- is an argument, as what `JSON.parse` makes of it.
use r_shell.Prelude.{
  Bool, List, Option, [], eqb, if◌then◌else◌, is_some, length, none, or_else, some, suc, ℕ, ◌++◌,
  ◌+◌, ◌∷◌,
}
use r_shell.Storage.Folders.{create_folder, find_folder, root_folder}
use r_shell.Storage.Guarded.{
  get_connections, get_folders, is_storage_corrupt, persist_connections, write_folders,
}
use r_shell.Storage.Types.{ConnectionData, ConnectionFolder, Outside, Store}

-- A bundle, where `folders` may be missing.
pub record Imported : Type 0 where
  pub connections : List ConnectionData
  pub folders : Option (List ConnectionFolder)

-- The n-th folder of the store takes the n-th new id.
unfoldable pub import_folders :
    Outside → ℕ → List ConnectionFolder → List ConnectionFolder → ℕ × List ConnectionFolder
unfolding find_folder
import_folders out n [] folders = (n, folders)
import_folders out n (f ∷ fs) folders =
    let skipped = import_folders out n fs folders in
    let added =
      import_folders out (suc n) fs
        (folders ++ (record f { id = out.uuid n; created_at = out.iso } ∷ [])) in
    if is_some (find_folder f.path folders) then skipped else added

unfoldable pub import_connections_list : Outside → ℕ → List ConnectionData → List ConnectionData
import_connections_list out n [] = []
import_connections_list out n (c ∷ cs) =
    record c { id = out.uuid n; created_at = out.iso } ∷ import_connections_list out (suc n) cs

pub data ImportError : Type 0 where
  storage_unreadable invalid_format : ImportError

pub data ImportResult : Type 0 where
  imported_count : ℕ → ImportResult
  import_failed : ImportError → ImportResult

-- The bundle is `none` where it does not parse, or has no array of connections.
unfoldable pub import_connections : Outside → Option Imported → Bool → Store → ImportResult × Store
unfolding get_connections get_folders is_storage_corrupt import_folders import_connections_list
    persist_connections write_folders
import_connections out bundle merge st =
    let cs = get_connections out.now st in
    let fs = get_folders out.now cs.1 in
    if is_storage_corrupt fs.1 then (import_failed storage_unreadable, fs.1) else elim bundle [
      | none ↦ (import_failed invalid_format, fs.1)
      | some imported ↦
          let with_folders =
            import_folders out 0 (or_else imported.folders []) (if merge then fs.0 else []) in
          let added = import_connections_list out with_folders.0 imported.connections in
          (
            imported_count (length imported.connections),
            write_folders with_folders.1
                (persist_connections ((if merge then cs.0 else []) ++ added) fs.1),
          )
    ]

-- What `exportConnections` prints.
unfoldable pub export_connections : ℕ → Store → Imported × Store
unfolding get_connections get_folders
export_connections now st =
    let cs = get_connections now st in
    let fs = get_folders now cs.1 in (record { connections = cs.0; folders = some fs.0 }, fs.1)

-- Behind `n` calls of `crypto.randomUUID()`.
unfoldable pub past_ids : ℕ → Outside → Outside
past_ids n out = record out { uuid = λ i. out.uuid (i + n) }

-- `initialize`, after the migration; each call of `createFolder` takes a new id.
unfoldable pub create_default_folders : Outside → Store → Store
unfolding get_folders create_folder past_ids
create_default_folders out st =
    let read = get_folders out.now st in
    if eqb (length read.0) 0
    then (let a = create_folder out root_folder none read.1 in
        let b = create_folder (past_ids 1 out) "Personal" (some root_folder) a.1 in
        (create_folder (past_ids 2 out) "Work" (some root_folder) b.1).1)
    else read.1
