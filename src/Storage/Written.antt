-- ===== src/Storage/Written.antt =====
-- The calls of src/lib/connection-storage.ts, each of which only leaves or replaces a readable array: those on the folders.
pub mod Runs
use r_shell.Prelude.{
  Bool, List, Option, Option-cases, String, eqb, false, filter, find, if◌then◌else◌, inl, inr,
  length, true, ℕ, ℤ, ◌==◌, ◌||◌,
}
use r_shell.Storage.Connections.{find_connection}
use r_shell.Storage.Folders.{
  child_path, create_folder, delete_folder, find_folder, keeps_folder, move_folder_recursive,
  moves_into_itself, root_folder, same_parent,
}
use r_shell.Storage.Guarded.{
  get_connections, get_folders, is_storage_corrupt, persist_connections, write_folders,
}
use r_shell.Storage.Kept.{
  Written, Written-refl, Written-trans, get_connections-IsFlagged, get_connections-Written,
  get_folders-IsFolderFlagged, get_folders-Written, persist_connections-Written,
  write_folders-Written,
}
use r_shell.Storage.Order.{ItemType, connection_item, folder_item, reorder_item}
use r_shell.Storage.Types.{ConnectionData, ConnectionFolder, Outside, Store}

-- The store of a call's result.
pub record Kept (R : Type 0) (st : Store) (result : R × Store) : Type 0 where
  pub written : Written st result.1

pub if-Kept :
    {R : Type 0} {st : Store} (b : Bool) {x y : R × Store}
    → Kept R st x
    → Kept R st y
    → Kept R st (if b then x else y)
if-Kept true v w = v
if-Kept false v w = w

pub create_folder-Written :
    (out : Outside) (name : String) (parent : Option String) (st : Store)
    → Written st (create_folder out name parent st).1
unfolding create_folder get_folders
create_folder-Written out name parent st =
    elim (Option-cases (find_folder (child_path parent name) (get_folders out.now st).0)) [
      | inl e ↦
          rw (create_folder, e)
            (Written-trans (get_folders-Written out.now st)
              (write_folders-Written _ _ (get_folders-IsFolderFlagged out.now st)))
      | inr (existing, e) ↦ rw (create_folder, e) (get_folders-Written out.now st)
    ]

-- The two reads with which a call on both arrays begins.
both_read : (now : ℕ) (st : Store) → Store
unfolding get_folders get_connections
both_read now st = (get_connections now (get_folders now st).1).1

both_read-Written : (now : ℕ) (st : Store) → Written st (both_read now st)
unfolding both_read
both_read-Written now st =
    Written-trans (get_folders-Written now st) (get_connections-Written now (get_folders now st).1)

-- The two writes with which it ends.
both_reads-Written :
    (now : ℕ) (fs : List ConnectionFolder) (cs : List ConnectionData) (st : Store)
    → Written st (persist_connections cs (write_folders fs (both_read now st)))
unfolding both_read get_connections get_folders write_folders
both_reads-Written now fs cs st = Written-trans (both_read-Written now st) (
    Written-trans (write_folders-Written fs (both_read now st) (get_folders-IsFolderFlagged now st))
      (persist_connections-Written cs (write_folders fs (both_read now st))
        (get_connections-IsFlagged now (get_folders now st).1)))

pub kept : {R : Type 0} {st : Store} {r : R} {new : Store} → Written st new → Kept R st (r, new)
kept w = record { written = w }

pub delete_folder-Kept :
    (now : ℕ) (path : String) (w : Bool) (st : Store) → Kept Bool st (delete_folder now path w st)
unfolding delete_folder both_read
delete_folder-Kept now path w st =
    let fs = (get_folders now st).0 in
    if-Kept (path == root_folder) (kept (Written-refl st)) (
      if-Kept (is_storage_corrupt (both_read now st)) (kept (both_read-Written now st)) (
        if-Kept (eqb (length (filter (keeps_folder path w) fs)) (length fs))
          (kept (both_read-Written now st)) (kept (both_reads-Written now _ _ st))))

pub move_folder_recursive-Kept :
    (now : ℕ) (path : String) (parent : Option String) (st : Store)
    → Kept Bool st (move_folder_recursive now path parent st)
unfolding move_folder_recursive both_read
move_folder_recursive-Kept now path parent st =
    if-Kept (path == root_folder || moves_into_itself path parent) (kept (Written-refl st)) (
      if-Kept (is_storage_corrupt (both_read now st)) (kept (both_read-Written now st))
        (elim (Option-cases (find_folder path (get_folders now st).0)) [
          | inl e ↦ rw (get_folders, e) (kept (both_read-Written now st))
          | inr (f, e) ↦ rw e (
              if-Kept (same_parent f.parent_path parent) (kept (both_read-Written now st))
                (kept (both_reads-Written now _ _ st)))
        ]))

pub reorder_item-Kept :
    (now : ℕ) (id : String) (t : ItemType) (target : Option String) (index : ℤ) (st : Store)
    → Kept Bool st (reorder_item now id t target index st)
unfolding reorder_item both_read
reorder_item-Kept now id folder_item target index st =
    if-Kept (is_storage_corrupt (both_read now st)) (kept (both_read-Written now st))
      (elim (Option-cases (find (λ (f : ConnectionFolder). f.id == id) (get_folders now st).0)) [
        | inl e ↦ rw e (kept (both_read-Written now st))
        | inr (f, e) ↦ rw e (kept (both_reads-Written now _ _ st))
      ])
reorder_item-Kept now id connection_item target index st =
    if-Kept (is_storage_corrupt (both_read now st)) (kept (both_read-Written now st))
      (elim (Option-cases (find_connection id (get_connections now (get_folders now st).1).0)) [
        | inl e ↦ rw e (kept (both_read-Written now st))
        | inr (c, e) ↦ rw e (kept (both_reads-Written now _ _ st))
      ])
