-- ===== src/Storage/Tree.antt =====
-- The tree of folders of src/lib/connection-storage.ts, which two recursions on parents' paths walk.
-- They are on fuel, with `none` where it is used up.
use mathlib.Core.Option
use r_shell.Prelude.{
  Bool, List, Option, String, [], filter, in_set, map, none, some, sorted, suc, zero, ℕ, ◌++◌, ◌∷◌,
}
use r_shell.Storage.Folders.{children_of, is_in}
use r_shell.Storage.Guarded.{get_connections, get_folders}
use r_shell.Storage.Order.{comes_before, connection_before, folder_before}
use r_shell.Storage.Types.{ConnectionData, ConnectionFolder, Store}

-- What a loop over children collects, unless one of them gives nothing.
unfoldable pub gather {ℓ κ} :
    {A : Type ℓ} {B : Type κ} → (A → Option (List B)) → List A → Option (List B)
gather f [] = some []
gather f (x ∷ xs) = elim (f x) [
  | none ↦ none
  | some ys ↦ elim (gather f xs) [ none ↦ none | some zs ↦ some (ys ++ zs) ]
]

-- `collectValidPaths`: the paths that it adds for the folders below `parent`.
unfoldable pub collect_valid_paths :
    ℕ → List ConnectionFolder → Option String → Option (List String)
unfolding children_of gather
collect_valid_paths zero folders parent = none
collect_valid_paths (suc fuel) folders parent =
    gather
      (λ (child : ConnectionFolder).
        Option.map (λ below. child.path ∷ below)
          (collect_valid_paths fuel folders (some child.path)))
      (children_of parent folders)

unfoldable pub valid_folders : ℕ → List ConnectionFolder → Option (List ConnectionFolder)
unfolding collect_valid_paths
valid_folders fuel folders =
    Option.map (λ valid_paths. filter (λ (f : ConnectionFolder). in_set f.path valid_paths) folders)
      (collect_valid_paths fuel folders none)

unfoldable pub get_valid_folders : ℕ → ℕ → Store → Option (List ConnectionFolder) × Store
unfolding get_folders valid_folders
get_valid_folders fuel now st = let read = get_folders now st in (valid_folders fuel read.0, read.1)

-- A node of the tree. That of a connection copies the fields of the connection which are shown; here
-- it holds the connection, and `isConnected`.
mutual
  pub data ConnectionTreeNode : Type 0 where
    folder_node : (id name path : String) → Forest → ConnectionTreeNode
    connection_node : ConnectionData → (is_connected : Bool) → ConnectionTreeNode

  pub data Forest : Type 0 where
    end_forest : Forest
    tree : ConnectionTreeNode → Forest → Forest

unfoldable pub forest_of : List ConnectionTreeNode → Forest
forest_of [] = end_forest
forest_of (node ∷ nodes) = tree node (forest_of nodes)

module _ (active_connections : List String) (connections : List ConnectionData) where
  -- `bySortOrder(connections.filter(c => c.folder === folder.path)).map(…)`
  unfoldable pub connection_nodes : String → List ConnectionTreeNode
  unfolding sorted comes_before is_in
  connection_nodes path =
      map (λ (c : ConnectionData). connection_node c (in_set c.id active_connections))
        (sorted connection_before
          (filter (λ (c : ConnectionData). is_in path c.folder) connections))

  unfoldable pub build_folder_tree :
      ℕ → List ConnectionFolder → Option String → Option (List ConnectionTreeNode)
  unfolding children_of gather sorted comes_before connection_nodes forest_of
  build_folder_tree zero folders parent = none
  build_folder_tree (suc fuel) folders parent =
      gather
        (λ (f : ConnectionFolder).
          Option.map
            (λ below.
              folder_node f.id f.name f.path (forest_of (below ++ connection_nodes f.path)) ∷ [])
            (build_folder_tree fuel folders (some f.path)))
        (sorted folder_before (children_of parent folders))

unfoldable pub build_connection_tree :
    ℕ → ℕ → List String → Store → Option (List ConnectionTreeNode) × Store
unfolding get_folders get_connections build_folder_tree
build_connection_tree fuel now active_connections st =
    let fs = get_folders now st in
    let cs = get_connections now fs.1 in
    (build_folder_tree active_connections cs.0 fuel fs.0 none, cs.1)
