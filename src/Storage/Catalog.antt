-- ===== src/Storage/Catalog.antt =====
-- The saved connections of src/lib/connection-storage.ts as a map from ids, and the calls on single
-- connections as changes of the map.
use mathlib.Core.Option
use r_shell.Prelude.{
  Bool, List, Option, String, [], ap, false, if◌then◌else◌, map, none, refl, some, true, ℕ, ◌==◌,
  ◌∙◌, ◌∷◌, ◌≡◌,
}
use r_shell.Storage.Connections.{
  FieldUpdate, apply_updates, delete_connection, find_connection, get_connection,
  save_connection_with_id, saved_as, update_connection,
}
use r_shell.Storage.Guarded.{
  get_connections, persist_connections, read_stored_array, write_stored_array,
}
use r_shell.Storage.Kept.{get_connections-IsFlagged, is_unreadable}
use r_shell.Storage.Secrets.{strip_unencrypted_secrets}
use r_shell.Storage.Types.{
  Backup, ConnectionData, Outside, StorageKey, Store, Stored, absent, connections_key, entries,
  malformed, other_value,
}

-- What `getConnection` answers for each id.
abbrev pub Catalog : Type 0
Catalog = String → Option ConnectionData

abbrev pub catalog : ℕ → Store → Catalog
catalog now st id = (get_connection now id st).0

pub data ConnectionCall : Type 0 where
  put_connection : Outside → String → ConnectionData → ConnectionCall
  change_connection : ℕ → String → List FieldUpdate → ConnectionCall
  discard_connection : ℕ → String → ConnectionCall

unfoldable pub perform : ConnectionCall → Store → Store
unfolding save_connection_with_id update_connection delete_connection
perform (put_connection out id c) st = (save_connection_with_id out id c st).1
perform (change_connection now id us) st = (update_connection now id us st).1
perform (discard_connection now id) st = (delete_connection now id st).1

unfoldable pub perform_all : List ConnectionCall → Store → Store
unfolding perform
perform_all [] st = st
perform_all (call ∷ calls) st = perform_all calls (perform call st)

-- The same call on the map; `seal_failed` is the set of ids whose plaintext is kept.
unfoldable pub replay_call : List String → ConnectionCall → Catalog → Catalog
unfolding saved_as strip_unencrypted_secrets apply_updates
replay_call seal_failed (put_connection out id c) m k =
    if id == k then some (strip_unencrypted_secrets seal_failed (saved_as out id c)) else m k
replay_call seal_failed (change_connection now id us) m k =
    if id == k
    then Option.map (λ c. strip_unencrypted_secrets seal_failed (apply_updates us c)) (m k)
    else m k
replay_call seal_failed (discard_connection now id) m k = if id == k then none else m k

unfoldable pub replay : List String → List ConnectionCall → Catalog → Catalog
unfolding replay_call
replay seal_failed [] m = m
replay seal_failed (call ∷ calls) m = replay seal_failed calls (replay_call seal_failed call m)

-- What a readable key lists.
unfoldable pub listed : {A : Type 0} → Bool → Stored A → List A
listed true (entries xs) = xs
listed readable stored = []

read_stored_array-items :
    {A : Type 0} (key : StorageKey) (now : ℕ) (readable : Bool) (old : Stored A) (c : Bool)
    (bs : List Backup)
    → (read_stored_array key now readable old c bs).items ≡ listed readable old
unfolding read_stored_array listed
read_stored_array-items key now true absent c bs = refl
read_stored_array-items key now true (malformed raw) c bs = refl
read_stored_array-items key now true (other_value value) c bs = refl
read_stored_array-items key now true (entries xs) c bs = refl
read_stored_array-items key now false old c bs = refl

pub get_connections-listed :
    (now : ℕ) (st : Store) → (get_connections now st).0 ≡ listed st.readable st.connections
unfolding get_connections
get_connections-listed now st =
    read_stored_array-items connections_key now st.readable st.connections st.connections_corrupt
      st.backups

pub catalog-listed :
    (now : ℕ) (k : String) (st : Store)
    → catalog now st k ≡ find_connection k (listed st.readable st.connections)
unfolding get_connection
catalog-listed now k st = ap (find_connection k) (get_connections-listed now st)

written_listed :
    {A : Type 0} (flag readable : Bool) (old : Stored A) (xs : List A)
    → flag ≡ is_unreadable readable old
    → is_unreadable readable old ≡ false
    → (listed readable (write_stored_array flag xs old) ≡ xs)
      × (is_unreadable readable (write_stored_array flag xs old) ≡ false)
unfolding listed write_stored_array is_unreadable
written_listed flag true old xs f h = rw (f ∙ h) (refl, refl)
written_listed flag false absent xs f h = cc
written_listed flag false (malformed raw) xs f h = cc
written_listed flag false (other_value v) xs f h = cc
written_listed flag false (entries ys) xs f h = cc

-- What is read after the array `cs` has been written behind a read.
pub persisted_listed :
    (now : ℕ) (cs : List ConnectionData) (st : Store)
    → is_unreadable st.readable st.connections ≡ false
    → let after = persist_connections cs (get_connections now st).1 in
      (listed after.readable after.connections ≡ map (strip_unencrypted_secrets st.seal_failed) cs)
      × (is_unreadable after.readable after.connections ≡ false)
unfolding persist_connections get_connections
persisted_listed now cs st h =
    written_listed (get_connections now st).1.connections_corrupt st.readable st.connections
      (map (strip_unencrypted_secrets st.seal_failed) cs) (get_connections-IsFlagged now st) h
