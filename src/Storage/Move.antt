-- ===== src/Storage/Move.antt =====
-- `moveFolderRecursive` of src/lib/connection-storage.ts: which folder holds what after a move.
use r_shell.Prelude.{
  Bool, Bool-cases, List, Option, Option-cases, String, ap, concat, concat_assoc, false, impossible,
  inl, inr, map, none, refl, some, sym, true, ℕ, ◌==◌, ◌∙◌, ◌≡◌,
}
use r_shell.Storage.Folders.{
  child_path, find_folder, is_in, is_under, move_folder_recursive, moved_connection, moved_folder,
  moved_parent, moved_path, moves_into_itself, root_folder, same_parent,
}
use r_shell.Storage.Guarded.{
  get_connections, get_folders, is_storage_corrupt, persist_connections, read_stored_array,
  write_folders, write_stored_array,
}
use r_shell.Storage.Moved.{
  Place, at_folder, below, elsewhere, is_outside, is_under-concat, moved_path-eq, place,
}
use r_shell.Storage.Secrets.{strip_unencrypted_secrets}
use r_shell.Storage.Types.{ConnectionData, ConnectionFolder, Store, entries}

-- A store whose two arrays can be read.
abbrev pub with_arrays : List ConnectionFolder → List ConnectionData → Store → Store
with_arrays fs cs st = record st { readable = true; folders = entries fs; connections = entries cs }

-- No folder, or one outside.
unfoldable pub is_outside_at : String → Option String → Bool
unfolding is_outside
is_outside_at folder none = true
is_outside_at folder (some path) = is_outside folder path

-- The folder's path is that of its parent and its name.
pub record IsBelowParent (g : ConnectionFolder) : Type 0 where
  pub path : (q : String) → g.parent_path ≡ some q → g.path ≡ concat q (concat "/" g.name)

module _ (p : String) (parent : Option String) (n : String) where
  moved_folder-path :
      (f : ConnectionFolder) → (moved_folder p parent n f).path ≡ moved_path p n f.path
  unfolding moved_folder moved_path
  moved_folder-path f = elim (Bool-cases (f.path == p)) [
    | inl e ↦ rw (moved_folder, moved_path, e) refl
    | inr e ↦ elim (Bool-cases (is_under p f.path)) [
      | inl u ↦ rw (moved_folder, moved_path, e, u) refl
      | inr u ↦ rw (moved_folder, moved_path, e, u) refl
    ]
  ]

  in_moved :
      (x : String) (o : Option String)
      → is_outside n x ≡ true
      → is_outside_at n o ≡ true
      → is_in (moved_path p n x) (moved_parent p n o) ≡ is_in x o
  unfolding is_in moved_parent is_outside_at
  in_moved x none hx ho = refl
  in_moved x (some y) hx ho = moved_path-eq p n y x ho hx

  is_in-moved :
      (f : ConnectionFolder) (c : ConnectionData)
      → is_outside n f.path ≡ true
      → is_outside_at n c.folder ≡ true
      → is_in (moved_folder p parent n f).path (moved_connection p n c).folder
        ≡ is_in f.path c.folder
  unfolding moved_connection
  is_in-moved f c hf hc = rw (moved_folder-path f) (in_moved f.path c.folder hf hc)

  under_parent :
      (g : ConnectionFolder) (q : String)
      → IsBelowParent g
      → g.parent_path ≡ some q
      → is_under p g.path ≡ false
      → moved_path p n q ≡ q
  under_parent g q b e u = by_place (place p n q)
    where
      under : (r : String) → g.path ≡ concat p (concat "/" r) → moved_path p n q ≡ q
      under r k = impossible (sym u ∙ ap (is_under p) k ∙ is_under-concat p r)

      by_place : Place p n q → moved_path p n q ≡ q
      by_place (at_folder a k) =
          under g.name (b.path q e ∙ ap (λ x. concat x (concat "/" g.name)) a)
      by_place (below r a k) = under (concat r (concat "/" g.name)) (
          b.path q e
          ∙ ap (λ x. concat x (concat "/" g.name)) a
          ∙ concat_assoc p (concat "/" r) (concat "/" g.name)
          ∙ ap (concat p) (concat_assoc "/" r (concat "/" g.name)))
      by_place (elsewhere k o) = k

  moved_folder-parent :
      (g : ConnectionFolder)
      → IsBelowParent g
      → (g.path == p) ≡ false
      → (moved_folder p parent n g).parent_path ≡ moved_parent p n g.parent_path
  unfolding moved_folder moved_parent
  moved_folder-parent g b e = elim (Bool-cases (is_under p g.path)) [
    | inl u ↦ rw (moved_folder, e, u) refl
    | inr u ↦ elim (Option-cases g.parent_path) [
      | inl k ↦ rw (moved_folder, e, u, k) refl
      | inr (q, k) ↦ rw (moved_folder, e, u, k) (ap some (sym (under_parent g q b k u)))
    ]
  ]

  parent_moved :
      (x : String) (o : Option String)
      → is_outside n x ≡ true
      → is_outside_at n o ≡ true
      → same_parent (moved_parent p n o) (some (moved_path p n x)) ≡ same_parent o (some x)
  unfolding same_parent moved_parent is_outside_at
  parent_moved x none hx ho = refl
  parent_moved x (some y) hx ho = moved_path-eq p n y x ho hx

  same_parent-moved :
      (f g : ConnectionFolder)
      → is_outside n f.path ≡ true
      → is_outside_at n g.parent_path ≡ true
      → IsBelowParent g
      → (g.path == p) ≡ false
      → same_parent (moved_folder p parent n g).parent_path (some (moved_folder p parent n f).path)
        ≡ same_parent g.parent_path (some f.path)
  same_parent-moved f g hf hg b e =
      rw (moved_folder-path f, moved_folder-parent g b e) (parent_moved f.path g.parent_path hf hg)

moved_store :
    (now : ℕ) (p : String) (parent : Option String) (fs : List ConnectionFolder)
    (cs : List ConnectionData) (st : Store) (folder : ConnectionFolder)
    → (p == root_folder) ≡ false
    → moves_into_itself p parent ≡ false
    → find_folder p fs ≡ some folder
    → same_parent folder.parent_path parent ≡ false
    → let n = child_path parent folder.name in
      let result = move_folder_recursive now p parent (with_arrays fs cs st) in
      (result.0 ≡ true)
      × ((result.1.folders ≡ entries (map (moved_folder p parent n) fs))
          × (result.1.connections
              ≡ entries
                  (map (strip_unencrypted_secrets st.seal_failed) (map (moved_connection p n) cs))))
unfolding move_folder_recursive get_folders get_connections read_stored_array is_storage_corrupt
    write_folders persist_connections write_stored_array
moved_store now p parent fs cs st folder root into found apart =
    rw (move_folder_recursive, root, into, found, apart) (refl, (refl, refl))

-- A folder other than the root moves, in a store that can be read, to another parent that is neither
-- it nor under it. The call succeeds, and stores every folder and connection with its new path, stripped
-- of plaintext. Consider folders `f` and `g` and a connection `c`, where neither `f`'s path nor the
-- folder of `c` nor the parent of `g` is at or under the new path, and `g`, which is not the folder
-- that moves, has its parent's path and its name as its path. Then `f` holds `c` after the move just
-- where it did before, and so it is with `f` and `g`.
pub move_folder_recursive-members :
    (now : ℕ) (p : String) (parent : Option String) (fs : List ConnectionFolder)
    (cs : List ConnectionData) (st : Store) (folder f g : ConnectionFolder) (c : ConnectionData)
    → (p == root_folder) ≡ false
    → moves_into_itself p parent ≡ false
    → find_folder p fs ≡ some folder
    → same_parent folder.parent_path parent ≡ false
    → is_outside (child_path parent folder.name) f.path ≡ true
    → is_outside_at (child_path parent folder.name) c.folder ≡ true
    → is_outside_at (child_path parent folder.name) g.parent_path ≡ true
    → IsBelowParent g
    → (g.path == p) ≡ false
    → let n = child_path parent folder.name in
      let result = move_folder_recursive now p parent (with_arrays fs cs st) in
      let moved = moved_folder p parent n in
      ((result.0 ≡ true)
        × ((result.1.folders ≡ entries (map moved fs))
            × (result.1.connections
                ≡ entries (
                    map
                      (strip_unencrypted_secrets st.seal_failed)
                      (map (moved_connection p n) cs)))))
      × ((is_in (moved f).path (moved_connection p n c).folder ≡ is_in f.path c.folder)
          × (same_parent (moved g).parent_path (some (moved f).path)
              ≡ same_parent g.parent_path (some f.path)))
move_folder_recursive-members now p parent fs cs st folder f g c root into found other hf hc hg b
      e =
    let n = child_path parent folder.name in
    (
      moved_store now p parent fs cs st folder root into found other,
      (is_in-moved p parent n f c hf hc, same_parent-moved p parent n f g hf hg b e),
    )
