-- ===== src/Storage/Order.antt =====
-- The order of siblings in src/lib/connection-storage.ts: the stable sort by `sortOrder`, by which
-- the tree is shown, the sort of recent connections, and `reorderItem`.
use r_shell.Prelude.{
  Bool, List, Option, String, [], drop, false, filter, find, if◌then◌else◌, length, ltb, map, min,
  negsuc, none, not, or_else, pos, some, sorted, suc, take, true, ℕ, ℤ, ◌&&◌, ◌++◌, ◌==◌, ◌∷◌,
}
use r_shell.Storage.Connections.{find_connection, folder_or_root, has_id, update_first}
use r_shell.Storage.Folders.{child_path, root_folder, same_parent}
use r_shell.Storage.Guarded.{
  get_connections, get_folders, is_storage_corrupt, persist_connections, write_folders,
}
use r_shell.Storage.Types.{ConnectionData, ConnectionFolder, Store}

-- The comparison of `sortOrder ?? Infinity` is negative.
unfoldable pub comes_before : Option ℕ → Option ℕ → Bool
comes_before (some a) (some b) = ltb a b
comes_before (some a) none = true
comes_before none b = false

abbrev pub folder_before : ConnectionFolder → ConnectionFolder → Bool
folder_before a b = comes_before a.sort_order b.sort_order

abbrev pub connection_before : ConnectionData → ConnectionData → Bool
connection_before a b = comes_before a.sort_order b.sort_order

-- `(c.folder || 'All Connections') === (parentPath ?? 'All Connections')`
unfoldable pub is_sibling : Option String → ConnectionData → Bool
unfolding folder_or_root
is_sibling parent c = folder_or_root c.folder == or_else parent root_folder

unfoldable pub sibling_folders :
    Option String → Option String → List ConnectionFolder → List ConnectionFolder
unfolding same_parent sorted comes_before
sibling_folders parent excluded folders = sorted folder_before (
    filter
      (λ (f : ConnectionFolder).
        same_parent f.parent_path parent && not (same_parent (some f.id) excluded))
      folders)

unfoldable pub sibling_connections :
    Option String → Option String → List ConnectionData → List ConnectionData
unfolding same_parent sorted is_sibling comes_before
sibling_connections parent excluded connections = sorted connection_before (
    filter (λ (c : ConnectionData). is_sibling parent c && not (same_parent (some c.id) excluded))
      connections)

unfoldable pub reindex_folders : ℕ → List String → List ConnectionFolder → List ConnectionFolder
unfolding update_first
reindex_folders i [] folders = folders
reindex_folders i (id ∷ ids) folders = reindex_folders (suc i) ids (
    update_first (λ (f : ConnectionFolder). f.id == id)
      (λ (f : ConnectionFolder). record f { sort_order = some i }) folders)

unfoldable pub reindex_connections : ℕ → List String → List ConnectionData → List ConnectionData
unfolding update_first
reindex_connections i [] connections = connections
reindex_connections i (id ∷ ids) connections = reindex_connections (suc i) ids (
    update_first (has_id id) (λ (c : ConnectionData). record c { sort_order = some i }) connections)

-- `Math.max(0, Math.min(newIndex, siblings.length))`
unfoldable pub clamped : ℤ → ℕ → ℕ
clamped (pos i) n = min i n
clamped (negsuc i) n = 0

-- `ordered.splice(clampedIndex, 0, { id: itemId })`
unfoldable pub with_item : String → ℤ → List String → List String
unfolding clamped
with_item id index siblings =
    let i = clamped index (length siblings) in take i siblings ++ (id ∷ drop i siblings)

abbrev pub folder_ids : List ConnectionFolder → List String
folder_ids fs = map (λ (f : ConnectionFolder). f.id) fs

abbrev pub connection_ids : List ConnectionData → List String
connection_ids cs = map (λ (c : ConnectionData). c.id) cs

-- `reorderItem` on the folders, whose dragged folder has the parent `current`.
unfoldable pub reordered_folders :
    String → Option String → Option String → ℤ → List ConnectionFolder → List ConnectionFolder
unfolding same_parent sibling_folders reindex_folders with_item update_first child_path
reordered_folders id current target index folders =
    let same = same_parent current target in
    let siblings = sibling_folders target (if same then some id else none) folders in
    let indexed = reindex_folders 0 (with_item id index (folder_ids siblings)) folders in
    let placed =
      update_first (λ (f : ConnectionFolder). f.id == id)
        (λ (f : ConnectionFolder). record f {
          parent_path = target;
          path = child_path target f.name;
        })
        indexed in
    if same
    then placed
    else reindex_folders 0 (folder_ids (sibling_folders current (some id) placed)) placed

unfoldable pub reordered_connections :
    String → Option String → Option String → ℤ → List ConnectionData → List ConnectionData
unfolding same_parent sibling_connections reindex_connections with_item update_first
reordered_connections id current target index connections =
    let same = same_parent current target in
    let siblings = sibling_connections target (if same then some id else none) connections in
    let indexed =
      reindex_connections 0 (with_item id index (connection_ids siblings)) connections in
    let placed =
      update_first (has_id id)
        (λ (c : ConnectionData). record c { folder = some (or_else target root_folder) }) indexed in
    if same
    then placed
    else reindex_connections 0 (connection_ids (sibling_connections current (some id) placed))
        placed

pub data ItemType : Type 0 where
  folder_item connection_item : ItemType

unfoldable pub reorder_item : ℕ → String → ItemType → Option String → ℤ → Store → Bool × Store
unfolding get_folders get_connections is_storage_corrupt reordered_folders reordered_connections
    find_connection folder_or_root write_folders persist_connections
reorder_item now id item_type target index st =
    let fs = get_folders now st in
    let cs = get_connections now fs.1 in
    if is_storage_corrupt cs.1 then (false, cs.1) else elim item_type [
      | folder_item ↦ elim (find (λ (f : ConnectionFolder). f.id == id) fs.0) [
        | none ↦ (false, cs.1)
        | some f ↦ (
          true,
          persist_connections cs.0
              (write_folders (reordered_folders id f.parent_path target index fs.0) cs.1),
        )
      ]
      | connection_item ↦ elim (find_connection id cs.0) [
        | none ↦ (false, cs.1)
        | some c ↦ (
          true,
          persist_connections
              (reordered_connections id (some (folder_or_root c.folder)) target index cs.0)
              (write_folders fs.0 cs.1),
        )
      ]
    ]

-- `getRecentConnections`; `time_of` is `new Date(…).getTime()`.
unfoldable pub is_recent : ConnectionData → Bool
is_recent c = elim c.last_connected [ none ↦ false | some t ↦ not (t == "") ]

-- `c.lastConnected ? new Date(c.lastConnected).getTime() : 0`
unfoldable pub connected_at : (String → ℕ) → ConnectionData → ℕ
connected_at time_of c = elim c.last_connected [
  | none ↦ 0
  | some t ↦ if t == "" then 0 else time_of t
]

abbrev pub later_connected : (String → ℕ) → ConnectionData → ConnectionData → Bool
later_connected time_of a b = ltb (connected_at time_of b) (connected_at time_of a)

unfoldable pub get_recent_connections : (String → ℕ) → ℕ → ℕ → Store → List ConnectionData × Store
unfolding get_connections sorted is_recent connected_at
get_recent_connections time_of limit now st =
    let read = get_connections now st in
    (take limit (sorted (later_connected time_of) (filter is_recent read.0)), read.1)
