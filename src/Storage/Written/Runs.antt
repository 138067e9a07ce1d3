-- ===== src/Storage/Written/Runs.antt =====
-- The calls of src/lib/connection-storage.ts on connections, the import, the first start, and each
-- call of a run.
use r_shell.Prelude.{
  Bool, Bool-cases, List, Option, Option-cases, String, [], all, ap, both_hold, eqb, false, filter,
  if◌then◌else◌, impossible, inl, inr, length, map, none, not, refl, some, subst, true, ℕ, ◌&&◌,
  ◌∙◌, ◌∷◌, ◌≡◌,
}
use r_shell.Storage.Bundle.{
  ImportResult, Imported, create_default_folders, export_connections, import_connections, past_ids,
}
use r_shell.Storage.Calls.{
  StorageCall, create, export_all, import_bundle, move_folder, move_to, read_connections,
  read_folders, remove, remove_folder, reorder, run, save, save_with_id, start, touch, update,
}
use r_shell.Storage.Connections.{
  FieldUpdate, delete_connection, find_connection, folder_to, has_id, last_connected_to,
  move_connection, save_connection, save_connection_with_id, update_connection,
  update_last_connected,
}
use r_shell.Storage.Folders.{create_folder, root_folder}
use r_shell.Storage.Guarded.{
  get_connections, get_folders, is_storage_corrupt, persist_connections, write_folders,
  write_stored_array,
}
use r_shell.Storage.Kept.{
  Change, Written, Written-refl, Written-trans, all_permitted, get_connections-IsFlagged,
  get_connections-Written, get_folders-IsFolderFlagged, get_folders-Written, is_legacy_safe,
  is_permitted, is_safe, is_unreadable, persist_connections-Written, write_folders-Written,
}
use r_shell.Storage.Sessions.{
  initialize, is_missing, migrate_folders, migrate_from_session_storage, migrated_folder,
  migrated_session, write_sessions,
}
use r_shell.Storage.Types.{
  ConnectionData, ConnectionFolder, Outside, Store, Stored, absent, entries, malformed, other_value,
}
use r_shell.Storage.Written.{
  Kept, create_folder-Written, delete_folder-Kept, if-Kept, kept, move_folder_recursive-Kept,
  reorder_item-Kept,
}

-- A write of the connections behind their read.
persisted :
    (now : ℕ) (cs : List ConnectionData) (st : Store)
    → Written st (persist_connections cs (get_connections now st).1)
unfolding get_connections
persisted now cs st =
    Written-trans (get_connections-Written now st)
      (persist_connections-Written cs (get_connections now st).1 (get_connections-IsFlagged now st))

save_connection-Written :
    (out : Outside) (c : ConnectionData) (st : Store) → Written st (save_connection out c st).1
unfolding save_connection
save_connection-Written out c st = persisted out.now _ st

save_connection_with_id-Written :
    (out : Outside) (id : String) (c : ConnectionData) (st : Store)
    → Written st (save_connection_with_id out id c st).1
unfolding save_connection_with_id
save_connection_with_id-Written out id c st = persisted out.now _ st

update_connection-Written :
    (now : ℕ) (id : String) (us : List FieldUpdate) (st : Store)
    → Written st (update_connection now id us st).1
unfolding update_connection get_connections
update_connection-Written now id us st =
    elim (Option-cases (find_connection id (get_connections now st).0)) [
      | inl e ↦ rw (update_connection, e) (get_connections-Written now st)
      | inr (c, e) ↦ rw (update_connection, e) (persisted now _ st)
    ]

delete_connection-Kept :
    (now : ℕ) (id : String) (st : Store) → Kept Bool st (delete_connection now id st)
unfolding delete_connection
delete_connection-Kept now id st =
    let cs = (get_connections now st).0 in
    if-Kept (eqb (length (filter (λ c. not (has_id id c)) cs)) (length cs))
      (kept (get_connections-Written now st)) (kept (persisted now _ st))

bundle_read : (now : ℕ) (st : Store) → Store
unfolding get_folders get_connections
bundle_read now st = (get_folders now (get_connections now st).1).1

bundle_read-Written : (now : ℕ) (st : Store) → Written st (bundle_read now st)
unfolding bundle_read
bundle_read-Written now st =
    Written-trans (get_connections-Written now st)
      (get_folders-Written now (get_connections now st).1)

bundle_reads-Written :
    (now : ℕ) (fs : List ConnectionFolder) (cs : List ConnectionData) (st : Store)
    → Written st (write_folders fs (persist_connections cs (bundle_read now st)))
unfolding bundle_read get_connections get_folders persist_connections
bundle_reads-Written now fs cs st = Written-trans (bundle_read-Written now st) (
    Written-trans
      (persist_connections-Written cs (bundle_read now st) (get_connections-IsFlagged now st))
      (write_folders-Written fs (persist_connections cs (bundle_read now st))
        (get_folders-IsFolderFlagged now (get_connections now st).1)))

import_connections-Kept :
    (out : Outside) (bundle : Option Imported) (merge : Bool) (st : Store)
    → Kept ImportResult st (import_connections out bundle merge st)
unfolding import_connections bundle_read
import_connections-Kept out none merge st =
    if-Kept (is_storage_corrupt (bundle_read out.now st)) (kept (bundle_read-Written out.now st))
      (kept (bundle_read-Written out.now st))
import_connections-Kept out (some i) merge st =
    if-Kept (is_storage_corrupt (bundle_read out.now st)) (kept (bundle_read-Written out.now st))
      (kept (bundle_reads-Written out.now _ _ st))

if-Written :
    {st : Store} (b : Bool) {x y : Store}
    → Written st x
    → Written st y
    → Written st (if b then x else y)
if-Written true v w = v
if-Written false v w = w

is_missing-readable :
    {A : Type 0} (r : Bool) (old : Stored A)
    → r ≡ true
    → is_missing old ≡ true
    → is_unreadable r old ≡ false
unfolding is_missing is_unreadable
is_missing-readable r absent h k = rw h refl
is_missing-readable r (malformed raw) h k = rw (h, k) refl
is_missing-readable r (other_value value) h k = impossible k
is_missing-readable r (entries xs) h k = impossible k

migrated-safe :
    (sf : List String) (cs : List ConnectionData)
    → all (is_safe sf) (map migrated_session cs) ≡ all (is_safe sf) cs
unfolding all is_safe migrated_session
migrated-safe sf [] = refl
migrated-safe sf (c ∷ cs) = ap (λ b. is_safe sf c && b) (migrated-safe sf cs)

unsafe_permitted :
    (st : Store) (cs : List ConnectionData)
    → is_legacy_safe st.seal_failed st.legacy_sessions ≡ false
    → all (is_permitted st) cs ≡ true
unfolding all is_permitted
unsafe_permitted st [] h = refl
unsafe_permitted st (c ∷ cs) h = rw h (unsafe_permitted st cs h)

migrated-permitted :
    (st : Store) (cs : List ConnectionData)
    → st.legacy_sessions ≡ entries cs
    → all (is_permitted st) (map migrated_session cs) ≡ true
unfolding is_legacy_safe
migrated-permitted st cs old =
    elim (Bool-cases (is_legacy_safe st.seal_failed st.legacy_sessions)) [
      | inl e ↦ all_permitted st _ (
          migrated-safe st.seal_failed cs
          ∙ subst (λ x. is_legacy_safe st.seal_failed x ≡ true) old e)
      | inr e ↦ unsafe_permitted st _ e
    ]

create_default_folders-Written :
    (out : Outside) (st : Store) → Written st (create_default_folders out st)
unfolding create_default_folders past_ids
create_default_folders-Written out st =
    let read = (get_folders out.now st).1 in
    let a = (create_folder out root_folder none read).1 in
    let b = (create_folder (past_ids 1 out) "Personal" (some root_folder) a).1 in
    if-Written (eqb (length (get_folders out.now st).0) 0)
      (Written-trans (get_folders-Written out.now st) (
        Written-trans (create_folder-Written out root_folder none read) (
          Written-trans (create_folder-Written (past_ids 1 out) "Personal" (some root_folder) a)
            (create_folder-Written (past_ids 2 out) "Work" (some root_folder) b))))
      (get_folders-Written out.now st)

guarded-Change :
    {A : Type 0} (test : A → Bool) (r flag : Bool) (old : Stored A) (xs : List A)
    → is_unreadable r old ≡ false
    → all test xs ≡ true
    → Change test r old (write_stored_array flag xs old)
unfolding write_stored_array
guarded-Change test r true old xs h k = inl refl
guarded-Change test r false old xs h k = inr (h, (xs, (refl, k)))

write_sessions-Written :
    (cs : List ConnectionData) (st : Store)
    → st.readable ≡ true
    → is_missing st.connections ≡ true
    → st.legacy_sessions ≡ entries cs
    → Written st (write_sessions cs st)
unfolding write_sessions
write_sessions-Written cs st ready fresh old = record {
  connections =
      guarded-Change (is_permitted st) st.readable st.connections_corrupt st.connections
        (map migrated_session cs) (is_missing-readable st.readable st.connections ready fresh)
        (migrated-permitted st cs old);
  folders = inl refl;
  seal_failed = refl;
  readable = refl;
  legacy_sessions = refl;
}

migrate_folders-Written : (now : ℕ) (st : Store) → Written st (migrate_folders now st)
unfolding migrate_folders
migrate_folders-Written now st =
    if-Written (is_missing st.legacy_folders) (Written-refl st) (by_folders st.legacy_folders)
  where
    by_folders :
        (old : Stored ConnectionFolder)
        → Written st (elim old as (λ x. Store) [
          | entries fs ↦ write_folders (map migrated_folder fs) (get_folders now st).1
          | _ ↦ (get_folders now st).1
        ])
    by_folders absent = get_folders-Written now st
    by_folders (malformed raw) = get_folders-Written now st
    by_folders (other_value value) = get_folders-Written now st
    by_folders (entries fs) =
        Written-trans (get_folders-Written now st)
          (write_folders-Written _ _ (get_folders-IsFolderFlagged now st))

migrate_from_session_storage-Written :
    (now : ℕ) (st : Store) → Written st (migrate_from_session_storage now st)
unfolding migrate_from_session_storage
migrate_from_session_storage-Written now st =
    elim (Bool-cases (st.readable && is_missing st.connections)) [
      | inl e ↦
          let both = both_hold st.readable _ e in
          rw (migrate_from_session_storage, e)
            (by_sessions st.legacy_sessions
              (λ cs old. write_sessions-Written cs st both.0 both.1 old))
      | inr e ↦ rw (migrate_from_session_storage, e) (Written-refl st)
    ]
  where
    by_sessions :
        (old : Stored ConnectionData)
        → ((cs : List ConnectionData) → old ≡ entries cs → Written st (write_sessions cs st))
        → Written st (elim old [ entries cs ↦ migrate_folders now (write_sessions cs st) | _ ↦ st ])
    by_sessions absent write = Written-refl st
    by_sessions (malformed raw) write = Written-refl st
    by_sessions (other_value value) write = Written-refl st
    by_sessions (entries cs) write =
        Written-trans (write cs refl) (migrate_folders-Written now (write_sessions cs st))

initialize-Written : (out : Outside) (st : Store) → Written st (initialize out st)
unfolding initialize
initialize-Written out st =
    Written-trans (migrate_from_session_storage-Written out.now st)
      (create_default_folders-Written out (migrate_from_session_storage out.now st))

pub run-Written : (out : Outside) (call : StorageCall) (st : Store) → Written st (run out call st)
unfolding run get_connections get_folders export_connections bundle_read update_last_connected
    move_connection
run-Written out read_connections st = get_connections-Written out.now st
run-Written out read_folders st = get_folders-Written out.now st
run-Written out export_all st = bundle_read-Written out.now st
run-Written out start st = initialize-Written out st
run-Written out (create name parent) st = create_folder-Written out name parent st
run-Written out (remove_folder path w) st = (delete_folder-Kept out.now path w st).written
run-Written out (move_folder path parent) st =
    (move_folder_recursive-Kept out.now path parent st).written
run-Written out (reorder id t target i) st = (reorder_item-Kept out.now id t target i st).written
run-Written out (save c) st = save_connection-Written out c st
run-Written out (save_with_id id c) st = save_connection_with_id-Written out id c st
run-Written out (update id us) st = update_connection-Written out.now id us st
run-Written out (touch id) st =
    update_connection-Written out.now id (last_connected_to (some out.iso) ∷ []) st
run-Written out (remove id) st = (delete_connection-Kept out.now id st).written
run-Written out (move_to id folder) st =
    update_connection-Written out.now id (folder_to (some folder) ∷ []) st
run-Written out (import_bundle b merge) st = (import_connections-Kept out b merge st).written
