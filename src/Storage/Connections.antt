-- ===== src/Storage/Connections.antt =====
-- The saved connections of src/lib/connection-storage.ts: lookups, saving, updating and deleting.
use r_shell.Prelude.{
  Bool, List, Option, String, [], eqb, false, filter, find, if◌then◌else◌, is_some, length, none,
  not, or_else, some, true, ℕ, ◌++◌, ◌==◌, ◌||◌, ◌∷◌,
}
use r_shell.Storage.Folders.{is_in, is_somewhere_under, root_folder}
use r_shell.Storage.Guarded.{get_connections, persist_connections}
use r_shell.Storage.Types.{AuthMethod, ConnectionData, Details, Outside, Secrets, Store}

-- `xs[xs.findIndex(test)] = change(…)`
unfoldable pub update_first {ℓ} : {A : Type ℓ} → (A → Bool) → (A → A) → List A → List A
update_first test change [] = []
update_first test change (x ∷ xs) =
    let others = update_first test change xs in if test x then change x ∷ xs else x ∷ others

abbrev pub has_id : String → ConnectionData → Bool
has_id id c = c.id == id

unfoldable pub find_connection : String → List ConnectionData → Option ConnectionData
find_connection id cs = find (has_id id) cs

unfoldable pub get_connection : ℕ → String → Store → Option ConnectionData × Store
unfolding get_connections find_connection
get_connection now id st = let read = get_connections now st in (find_connection id read.0, read.1)

unfoldable pub get_connections_by_folder : ℕ → String → Store → List ConnectionData × Store
unfolding get_connections is_in
get_connections_by_folder now folder st =
    let read = get_connections now st in
    (filter (λ (c : ConnectionData). is_in folder c.folder) read.0, read.1)

unfoldable pub get_connections_by_folder_recursive :
    ℕ → String → Store → List ConnectionData × Store
unfolding get_connections is_in is_somewhere_under
get_connections_by_folder_recursive now folder st =
    let read = get_connections now st in
    (
      filter (λ (c : ConnectionData). is_in folder c.folder || is_somewhere_under folder c.folder)
          read.0,
      read.1,
    )

-- `connection.folder || 'All Connections'`
unfoldable pub folder_or_root : Option String → String
folder_or_root none = root_folder
folder_or_root (some f) = if f == "" then root_folder else f

-- `saveConnection`; the argument's `id` and `createdAt` are not used.
unfoldable pub save_connection : Outside → ConnectionData → Store → ConnectionData × Store
unfolding get_connections folder_or_root persist_connections
save_connection out connection st =
    let read = get_connections out.now st in
    let new_connection = record connection {
      id = out.uuid 0;
      created_at = out.iso;
      folder = some (folder_or_root connection.folder);
    } in
    (new_connection, persist_connections (read.0 ++ (new_connection ∷ [])) read.1)

-- `newConnection` of `saveConnectionWithId`
unfoldable pub saved_as : Outside → String → ConnectionData → ConnectionData
unfolding folder_or_root
saved_as out id connection = record connection {
  id = id;
  created_at = out.iso;
  last_connected = some out.iso;
  folder = some (folder_or_root connection.folder);
}

unfoldable pub save_connection_with_id :
    Outside → String → ConnectionData → Store → ConnectionData × Store
unfolding get_connections saved_as persist_connections update_first find_connection
save_connection_with_id out id connection st =
    let read = get_connections out.now st in
    let new_connection = saved_as out id connection in
    let saved =
      if is_some (find_connection id read.0)
      then update_first (has_id id) (λ c. new_connection) read.0
      else read.0 ++ (new_connection ∷ []) in
    (new_connection, persist_connections saved read.1)

-- One property of an argument of type `Partial<Omit<ConnectionData, 'id' | 'createdAt'>>`. A whole
-- connection is such an argument too, and brings its `createdAt`.
pub data FieldUpdate : Type 0 where
  name_to host_to username_to protocol_to : String → FieldUpdate
  created_at_to : String → FieldUpdate
  port_to : ℕ → FieldUpdate
  folder_to last_connected_to : Option String → FieldUpdate
  favorite_to : Option Bool → FieldUpdate
  auth_method_to : Option AuthMethod → FieldUpdate
  sort_order_to : Option ℕ → FieldUpdate
  secrets_to : Secrets → FieldUpdate
  details_to : Details → FieldUpdate

unfoldable pub apply_update : FieldUpdate → ConnectionData → ConnectionData
apply_update (name_to v) c = record c { name = v }
apply_update (host_to v) c = record c { host = v }
apply_update (username_to v) c = record c { username = v }
apply_update (protocol_to v) c = record c { protocol = v }
apply_update (created_at_to v) c = record c { created_at = v }
apply_update (port_to v) c = record c { port = v }
apply_update (folder_to v) c = record c { folder = v }
apply_update (last_connected_to v) c = record c { last_connected = v }
apply_update (favorite_to v) c = record c { favorite = v }
apply_update (auth_method_to v) c = record c { auth_method = v }
apply_update (sort_order_to v) c = record c { sort_order = v }
apply_update (secrets_to v) c = record c { secrets = v }
apply_update (details_to v) c = record c { details = v }

-- `{ ...connections[index], ...updates }`
unfoldable pub apply_updates : List FieldUpdate → ConnectionData → ConnectionData
unfolding apply_update
apply_updates [] c = c
apply_updates (u ∷ us) c = apply_updates us (apply_update u c)

unfoldable pub update_connection :
    ℕ → String → List FieldUpdate → Store → Option ConnectionData × Store
unfolding get_connections find_connection update_first apply_updates persist_connections
update_connection now id updates st =
    let read = get_connections now st in
    elim (find_connection id read.0) [
      | none ↦ (none, read.1)
      | some c ↦ (
        some (apply_updates updates c),
        persist_connections (update_first (has_id id) (apply_updates updates) read.0) read.1,
      )
    ]

unfoldable pub update_last_connected : Outside → String → Store → Store
unfolding update_connection
update_last_connected out id st =
    (update_connection out.now id (last_connected_to (some out.iso) ∷ []) st).1

unfoldable pub delete_connection : ℕ → String → Store → Bool × Store
unfolding get_connections persist_connections
delete_connection now id st =
    let read = get_connections now st in
    let filtered = filter (λ c. not (has_id id c)) read.0 in
    if eqb (length filtered) (length read.0)
    then (false, read.1)
    else (true, persist_connections filtered read.1)

unfoldable pub move_connection : ℕ → String → String → Store → Bool × Store
unfolding update_connection
move_connection now id folder st =
    let updated = update_connection now id (folder_to (some folder) ∷ []) st in
    (is_some updated.0, updated.1)

unfoldable pub get_favorites : ℕ → Store → List ConnectionData × Store
unfolding get_connections
get_favorites now st =
    let read = get_connections now st in
    (filter (λ (c : ConnectionData). or_else c.favorite false) read.0, read.1)
