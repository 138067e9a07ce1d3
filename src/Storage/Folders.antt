-- ===== src/Storage/Folders.antt =====
-- The folders of src/lib/connection-storage.ts: paths, creation, deletion, and the move of a folder
-- with all that it holds. A folder's path is its parent's path, a slash and its name.
use r_shell.Prelude.{
  Bool, List, Option, String, [], after, concat, eqb, false, filter, find, if◌then◌else◌, length,
  map, none, not, some, starts_with, true, ℕ, ◌&&◌, ◌++◌, ◌==◌, ◌||◌, ◌∷◌,
}
use r_shell.Storage.Guarded.{
  get_connections, get_folders, is_storage_corrupt, persist_connections, write_folders,
}
use r_shell.Storage.Types.{ConnectionData, ConnectionFolder, Outside, Store}

abbrev pub root_folder : String
root_folder = "All Connections"

-- `parentPath ? `${parentPath}/${name}` : name`
unfoldable pub child_path : Option String → String → String
child_path none name = name
child_path (some parent) name = if parent == "" then name else concat parent (concat "/" name)

-- `path.startsWith(folder + '/')`
unfoldable pub is_under : String → String → Bool
is_under folder path = starts_with (concat folder "/") path

-- `c.folder === folder`
unfoldable pub is_in : String → Option String → Bool
is_in folder none = false
is_in folder (some f) = f == folder

-- `c.folder?.startsWith(folder + '/')`
unfoldable pub is_somewhere_under : String → Option String → Bool
is_somewhere_under folder none = false
is_somewhere_under folder (some f) = is_under folder f

-- `newPath + path.substring(folderPath.length)`
unfoldable pub rebased : String → String → String → String
rebased folder new_path path = concat new_path (after folder path)

unfoldable pub get_folders_under : String → List ConnectionFolder → List ConnectionFolder
unfolding is_under
get_folders_under folder folders = filter (λ (f : ConnectionFolder). is_under folder f.path) folders

-- `folders.filter(f => f.parentPath === parentPath)`
unfoldable pub same_parent : Option String → Option String → Bool
same_parent none none = true
same_parent (some a) (some b) = a == b
same_parent _ _ = false

unfoldable pub children_of : Option String → List ConnectionFolder → List ConnectionFolder
unfolding same_parent
children_of parent folders =
    filter (λ (f : ConnectionFolder). same_parent f.parent_path parent) folders

unfoldable pub find_folder : String → List ConnectionFolder → Option ConnectionFolder
find_folder path folders = find (λ (f : ConnectionFolder). f.path == path) folders

unfoldable pub create_folder : Outside → String → Option String → Store → ConnectionFolder × Store
unfolding get_folders find_folder child_path write_folders
create_folder out name parent_path st =
    let read = get_folders out.now st in
    let path = child_path parent_path name in
    elim (find_folder path read.0) [
      | some existing ↦ (existing, read.1)
      | none ↦
          let new_folder : ConnectionFolder = record {
            id = out.uuid 0;
            name = name;
            path = path;
            parent_path = parent_path;
            created_at = out.iso;
            sort_order = none;
          } in
          (new_folder, write_folders (read.0 ++ (new_folder ∷ [])) read.1)
    ]

-- The two predicates of `deleteFolder`.
unfoldable pub keeps_folder : String → Bool → ConnectionFolder → Bool
unfolding is_under
keeps_folder path with_subfolders f =
    not (f.path == path) && not (with_subfolders && is_under path f.path)

unfoldable pub keeps_connection : String → Bool → ConnectionData → Bool
unfolding is_in is_somewhere_under
keeps_connection path with_subfolders c =
    not (is_in path c.folder) && not (with_subfolders && is_somewhere_under path c.folder)

unfoldable pub delete_folder : ℕ → String → Bool → Store → Bool × Store
unfolding get_folders get_connections is_storage_corrupt keeps_folder keeps_connection write_folders
    persist_connections
delete_folder now path with_subfolders st =
    if path == root_folder
    then (false, st)
    else (let fs = get_folders now st in
        let cs = get_connections now fs.1 in
        let filtered = filter (keeps_folder path with_subfolders) fs.0 in
        if is_storage_corrupt cs.1
        then (false, cs.1)
        else if eqb (length filtered) (length fs.0)
        then (false, cs.1)
        else (
          true,
          persist_connections (filter (keeps_connection path with_subfolders) cs.0)
              (write_folders filtered cs.1),
        ))

-- The path that an object gets which names one at or under the folder.
unfoldable pub moved_path : String → String → String → String
unfolding is_under rebased
moved_path folder new_path path =
    if path == folder
    then new_path
    else if is_under folder path
    then rebased folder new_path path
    else path

unfoldable pub moved_parent : String → String → Option String → Option String
unfolding moved_path
moved_parent folder new_path none = none
moved_parent folder new_path (some parent) = some (moved_path folder new_path parent)

-- The bodies of the two loops of `moveFolderRecursive`.
unfoldable pub moved_folder : String → Option String → String → ConnectionFolder → ConnectionFolder
unfolding is_under rebased moved_parent
moved_folder folder new_parent new_path f =
    if f.path == folder
    then record f { path = new_path; parent_path = new_parent }
    else if is_under folder f.path
    then record f {
      path = rebased folder new_path f.path;
      parent_path = moved_parent folder new_path f.parent_path;
    }
    else f

unfoldable pub moved_connection : String → String → ConnectionData → ConnectionData
unfolding moved_parent
moved_connection folder new_path c = record c { folder = moved_parent folder new_path c.folder }

-- `newParentPath === folderPath || newParentPath?.startsWith(folderPath + '/')`
unfoldable pub moves_into_itself : String → Option String → Bool
unfolding is_in is_somewhere_under
moves_into_itself folder new_parent =
    is_in folder new_parent || is_somewhere_under folder new_parent

unfoldable pub move_folder_recursive : ℕ → String → Option String → Store → Bool × Store
unfolding get_folders get_connections is_storage_corrupt moves_into_itself find_folder child_path
    same_parent moved_folder moved_connection write_folders persist_connections
move_folder_recursive now path new_parent st =
    if path == root_folder || moves_into_itself path new_parent
    then (false, st)
    else (let fs = get_folders now st in
        let cs = get_connections now fs.1 in
        if is_storage_corrupt cs.1 then (false, cs.1) else elim (find_folder path fs.0) [
          | none ↦ (false, cs.1)
          | some folder ↦
              let new_path = child_path new_parent folder.name in
              if same_parent folder.parent_path new_parent then (true, cs.1) else (
                true,
                persist_connections (map (moved_connection path new_path) cs.0)
                    (write_folders (map (moved_folder path new_parent new_path) fs.0) cs.1),
              )
        ])
