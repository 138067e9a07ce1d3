-- ===== src/Storage/Depth.antt =====
-- The recursions on the tree of folders in src/lib/connection-storage.ts end.
use mathlib.Core.Option
use r_shell.Prelude.{
  List, Memᴰ, Option, String, [], ap, arith, eq_iff, filter-Mem, is_some, max, none, refl, some,
  sorted, sorted-Mem, subst, suc, text_length, true, zero, ℕ, ◌++◌, ◌+◌, ◌<◌, ◌∷◌, ◌≡◌, ◌≤◌,
}
use r_shell.Storage.Folders.{children_of, same_parent}
use r_shell.Storage.Order.{folder_before}
use r_shell.Storage.Tree.{build_folder_tree, collect_valid_paths, gather, valid_folders}
use r_shell.Storage.Types.{ConnectionData, ConnectionFolder}

-- The characters of the longest path.
unfoldable pub longest : List ConnectionFolder → ℕ
longest [] = 0
longest (f ∷ fs) = max (text_length f.path) (longest fs)

-- A folder's path is longer than its parent's.
abbrev pub IsDeeper : ConnectionFolder → Type 0
IsDeeper f = (q : String) → f.parent_path ≡ some q → text_length q < text_length f.path

abbrev pub AreDeeper : List ConnectionFolder → Type 0
AreDeeper fs = (f : ConnectionFolder) → Memᴰ f fs → IsDeeper f

-- How many characters the parent's path has, and one more.
abbrev depth_of : Option String → ℕ
depth_of none = 0
depth_of (some p) = suc (text_length p)

gather-ends {ℓ κ} :
    {A : Type ℓ} {B : Type κ} (f : A → Option (List B)) (xs : List A)
    → ((x : A) → Memᴰ x xs → is_some (f x) ≡ true)
    → is_some (gather f xs) ≡ true
unfolding gather
gather-ends f [] h = refl
gather-ends {B = B} f (x ∷ xs) h =
    both (f x) (gather f xs) (h x (Memᴰ.head refl)) (gather-ends f xs λ y m. h y (Memᴰ.tail m))
  where
    both :
        (a b : Option (List B))
        → is_some a ≡ true
        → is_some b ≡ true
        → is_some {A = List B}
            (elim a [ none ↦ none | some ys ↦ elim b [ none ↦ none | some zs ↦ some (ys ++ zs) ] ])
          ≡ true
    both (some ys) (some zs) h k = refl
    both (some ys) none h k = k
    both none b h k = h

pub same_parent-eq : (a b : Option String) → same_parent a b ≡ true → a ≡ b
unfolding same_parent
same_parent-eq none none h = refl
same_parent-eq (some a) (some b) h = ap some ((eq_iff a b).0 h)
same_parent-eq none (some b) h = cc
same_parent-eq (some a) none h = cc

longest-ge :
    (f : ConnectionFolder) (fs : List ConnectionFolder)
    → Memᴰ f fs
    → text_length f.path ≤ longest fs
unfolding longest
longest-ge f [] m = elim m [ ]
longest-ge f (g ∷ fs) (Memᴰ.head e) =
    subst (λ (x : ConnectionFolder). text_length f.path ≤ max (text_length x.path) (longest fs)) e
      (omega arith)
longest-ge f (g ∷ fs) (Memᴰ.tail m) = omega (arith, longest-ge f fs m)

map-is_some {ℓ κ} :
    {A : Type ℓ} {B : Type κ} (f : A → B) (o : Option A)
    → is_some o ≡ true
    → is_some (Option.map f o) ≡ true
map-is_some f (some a) h = refl
map-is_some f none h = h

-- The folders below a path lie deeper, and not deeper than the longest path.
deeper_child :
    (fs : List ConnectionFolder) (parent : Option String) (f : ConnectionFolder)
    → AreDeeper fs
    → Memᴰ f (children_of parent fs)
    → (suc (depth_of parent) ≤ depth_of (some f.path)) × (text_length f.path ≤ longest fs)
unfolding children_of
deeper_child fs none f deep m =
    let r = filter-Mem (λ (f : ConnectionFolder). same_parent f.parent_path none) f fs m in
    (omega arith, longest-ge f fs r.0)
deeper_child fs (some q) f deep m =
    let r = filter-Mem (λ (f : ConnectionFolder). same_parent f.parent_path (some q)) f fs m in
    (omega (arith, deep f r.0 q (same_parent-eq f.parent_path (some q) r.1)), longest-ge f fs r.0)

collect-ends :
    (fuel : ℕ) (fs : List ConnectionFolder) (parent : Option String)
    → AreDeeper fs
    → depth_of parent ≤ longest fs + 1
    → longest fs + 2 ≤ fuel + depth_of parent
    → is_some (collect_valid_paths fuel fs parent) ≡ true
unfolding collect_valid_paths
collect-ends zero fs parent deep top enough = absurd (omega arith)
collect-ends (suc fuel) fs parent deep top enough = gather-ends _ (children_of parent fs) λ f m.
    let d = deeper_child fs parent f deep m in
    map-is_some _ (collect_valid_paths fuel fs (some f.path))
      (collect-ends fuel fs (some f.path) deep (omega (arith, d.1)) (omega (arith, d.0)))

build-ends :
    (active : List String) (cs : List ConnectionData) (fuel : ℕ) (fs : List ConnectionFolder)
    (parent : Option String)
    → AreDeeper fs
    → depth_of parent ≤ longest fs + 1
    → longest fs + 2 ≤ fuel + depth_of parent
    → is_some (build_folder_tree active cs fuel fs parent) ≡ true
unfolding build_folder_tree
build-ends active cs zero fs parent deep top enough = absurd (omega arith)
build-ends active cs (suc fuel) fs parent deep top enough =
    gather-ends _ (sorted folder_before (children_of parent fs)) λ f m.
      let d =
        deeper_child fs parent f deep (sorted-Mem folder_before f (children_of parent fs) m) in
      map-is_some _ (build_folder_tree active cs fuel fs (some f.path))
        (build-ends active cs fuel fs (some f.path) deep (omega (arith, d.1)) (omega (arith, d.0)))

-- Where each folder's path is longer than its parent's, both recursions from the root end: they use no
-- more fuel than two units and one for each character of the longest path.
pub recursions_end :
    (active : List String) (cs : List ConnectionData) (fs : List ConnectionFolder) (fuel : ℕ)
    → AreDeeper fs
    → longest fs + 2 ≤ fuel
    → (is_some (valid_folders fuel fs) ≡ true)
      × (is_some (build_folder_tree active cs fuel fs none) ≡ true)
unfolding valid_folders
recursions_end active cs fs fuel deep enough = (
  map-is_some _ (collect_valid_paths fuel fs none)
      (collect-ends fuel fs none deep (omega arith) (omega arith)),
  build-ends active cs fuel fs none deep (omega arith) (omega arith),
)
