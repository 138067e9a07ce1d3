-- ===== src/Storage/Reached.antt =====
-- Which folders `getValidFolders` of src/lib/connection-storage.ts finds.
use mathlib.Core.List.Memᴰ
use mathlib.Core.Option
use r_shell.Prelude.{
  List, Mem-filter, Mem-in_set, Memᴰ, Option, Option-cases, String, [], ap, eq_refl, filter-Mem,
  in_set, in_set-Mem, inl, inr, none, refl, some, some_inj, subst, suc, sym, true, zero, ℕ, ◌++◌,
  ◌↔◌, ◌∙◌, ◌∷◌, ◌≡◌,
}
use r_shell.Storage.Depth.{same_parent-eq}
use r_shell.Storage.Folders.{children_of, same_parent}
use r_shell.Storage.Tree.{collect_valid_paths, gather, valid_folders}
use r_shell.Storage.Types.{ConnectionFolder}

-- A path that a chain of folders links with the parent.
pub data IsBelow (fs : List ConnectionFolder) : Option String → String → Type 0 where
  child :
      {parent : Option String} (f : ConnectionFolder)
      → Memᴰ f fs
      → f.parent_path ≡ parent
      → IsBelow fs parent f.path
  deeper :
      {parent : Option String} {x : String} (f : ConnectionFolder)
      → Memᴰ f fs
      → f.parent_path ≡ parent
      → IsBelow fs (some f.path) x
      → IsBelow fs parent x

none_not_some {ℓ κ} : {A : Type ℓ} {B : Type κ} {x : A} → none ≡ some x → B
none_not_some e = cc

-- What a loop over children has collected, split at the first child.
gather-split {ℓ κ} :
    {A : Type ℓ} {B : Type κ} (f : A → Option (List B)) (x : A) (xs : List A) (ys : List B)
    → gather f (x ∷ xs) ≡ some ys
    → (us : List B) × ((bs : List B) × ((f x ≡ some us)
          × ((gather f xs ≡ some bs) × (us ++ bs ≡ ys))))
unfolding gather
gather-split f x xs ys e = elim (Option-cases (f x)) [
  | inl k ↦ none_not_some (rw (gather, k) at e)
  | inr (us, k) ↦ elim (Option-cases (gather f xs)) [
    | inl l ↦ none_not_some (rw (gather, k, l) at e)
    | inr (bs, l) ↦ (us, (bs, (k, (l, some_inj (rw (gather, k, l) at e)))))
  ]
]

-- A value that was collected comes from a child.
gather-from {ℓ κ} :
    {A : Type ℓ} {B : Type κ} (f : A → Option (List B)) (xs : List A) (ys : List B) (y : B)
    → gather f xs ≡ some ys
    → Memᴰ y ys
    → (x : A) × (Memᴰ x xs × ((zs : List B) × ((f x ≡ some zs) × Memᴰ y zs)))
unfolding gather
gather-from f [] ys y e m = elim (subst (λ l. Memᴰ y l) (sym (some_inj e)) m) [ ]
gather-from f (x ∷ xs) ys y e m =
    let s = gather-split f x xs ys e in
    elim (Memᴰ.append_cases s.0 (subst (λ l. Memᴰ y l) (sym s.1.1.1.1) m)) [
      | inl k ↦ (x, (Memᴰ.head refl, (s.0, (s.1.1.0, k))))
      | inr k ↦ let r = gather-from f xs s.1.0 y s.1.1.1.0 k in (r.0, (Memᴰ.tail r.1.0, r.1.1))
    ]

-- And all that a child gives is collected.
gather-into {ℓ κ} :
    {A : Type ℓ} {B : Type κ} (f : A → Option (List B)) (xs : List A) (ys : List B) (x : A)
    (zs : List B) (y : B)
    → gather f xs ≡ some ys
    → Memᴰ x xs
    → f x ≡ some zs
    → Memᴰ y zs
    → Memᴰ y ys
gather-into f [] ys x zs y e m k t = elim m [ ]
gather-into f (w ∷ xs) ys x zs y e (Memᴰ.head p) k t =
    let s = gather-split f w xs ys e in
    let same : s.0 ≡ zs = some_inj (sym s.1.1.0 ∙ ap f (sym p) ∙ k) in
    subst (λ l. Memᴰ y l) s.1.1.1.1 (Memᴰ.append_left s.1.0 (subst (λ l. Memᴰ y l) (sym same) t))
gather-into f (w ∷ xs) ys x zs y e (Memᴰ.tail p) k t =
    let s = gather-split f w xs ys e in
    subst (λ l. Memᴰ y l) s.1.1.1.1
      (Memᴰ.append_right s.0 (gather-into f xs s.1.0 x zs y s.1.1.1.0 p k t))

map-split {ℓ κ} :
    {A : Type ℓ} {B : Type κ} (f : A → B) (o : Option A) (b : B)
    → Option.map f o ≡ some b
    → (a : A) × ((o ≡ some a) × (f a ≡ b))
map-split f none b e = none_not_some e
map-split f (some a) b e = (a, (refl, some_inj e))

collected-IsBelow :
    (fuel : ℕ) (fs : List ConnectionFolder) (parent : Option String) (paths : List String)
    (x : String)
    → collect_valid_paths fuel fs parent ≡ some paths
    → Memᴰ x paths
    → IsBelow fs parent x
unfolding collect_valid_paths children_of
collected-IsBelow zero fs parent paths x e m = none_not_some e
collected-IsBelow (suc fuel) fs parent paths x e m =
    let g = gather-from _ (children_of parent fs) paths x e m in
    let f = g.0 in
    let from = filter-Mem (λ (f : ConnectionFolder). same_parent f.parent_path parent) f fs g.1.0 in
    let at = same_parent-eq f.parent_path parent from.1 in
    let r = map-split _ (collect_valid_paths fuel fs (some f.path)) g.1.1.0 g.1.1.1.0 in
    elim (Memᴰ.cases_cons (subst (λ l. Memᴰ x l) (sym r.1.1) g.1.1.1.1)) [
      | inl k ↦ subst (λ y. IsBelow fs parent y) (sym k) (child f from.0 at)
      | inr k ↦ deeper f from.0 at (collected-IsBelow fuel fs (some f.path) r.0 x r.1.0 k)
    ]

gather-each {ℓ κ} :
    {A : Type ℓ} {B : Type κ} (f : A → Option (List B)) (xs : List A) (ys : List B) (x : A)
    → gather f xs ≡ some ys
    → Memᴰ x xs
    → (zs : List B) × (f x ≡ some zs)
gather-each f [] ys x e m = elim m [ ]
gather-each f (w ∷ xs) ys x e (Memᴰ.head p) =
    let s = gather-split f w xs ys e in (s.0, ap f p ∙ s.1.1.0)
gather-each f (w ∷ xs) ys x e (Memᴰ.tail p) =
    let s = gather-split f w xs ys e in gather-each f xs s.1.0 x s.1.1.1.0 p

same_parent_refl : (a : Option String) → same_parent a a ≡ true
unfolding same_parent
same_parent_refl none = refl
same_parent_refl (some a) = eq_refl a

-- The folder is one of the children that the loop goes through.
among_children :
    (f : ConnectionFolder) (fs : List ConnectionFolder) (parent : Option String)
    → Memᴰ f fs
    → f.parent_path ≡ parent
    → Memᴰ f (children_of parent fs)
unfolding children_of
among_children f fs parent m e =
    Mem-filter (λ (f : ConnectionFolder). same_parent f.parent_path parent) f fs m
      (ap (same_parent f.parent_path) (sym e) ∙ same_parent_refl f.parent_path)

below_collected :
    (fuel : ℕ) (fs : List ConnectionFolder) (parent : Option String) (paths : List String)
    (x : String)
    → collect_valid_paths fuel fs parent ≡ some paths
    → IsBelow fs parent x
    → Memᴰ x paths
unfolding collect_valid_paths
below_collected zero fs parent paths x e b = none_not_some e
below_collected (suc fuel) fs parent paths x e (child f m at) =
    let among = among_children f fs parent m at in
    let each = gather-each _ (children_of parent fs) paths f e among in
    let r = map-split _ (collect_valid_paths fuel fs (some f.path)) each.0 each.1 in
    gather-into _ (children_of parent fs) paths f each.0 f.path e among each.1
      (subst (λ l. Memᴰ f.path l) r.1.1 (Memᴰ.head refl))
below_collected (suc fuel) fs parent paths x e (deeper f m at b) =
    let among = among_children f fs parent m at in
    let each = gather-each _ (children_of parent fs) paths f e among in
    let r = map-split _ (collect_valid_paths fuel fs (some f.path)) each.0 each.1 in
    gather-into _ (children_of parent fs) paths f each.0 x e among each.1 (
      subst (λ l. Memᴰ x l) r.1.1 (Memᴰ.tail (below_collected fuel fs (some f.path) r.0 x r.1.0 b)))

-- The folders that are found to be valid are the stored ones whose path a chain of stored folders links
-- with the root: each folder of the chain has the path of the next one up as its parent, and the last
-- has no parent.
pub valid_folders-IsBelow :
    (fuel : ℕ) (fs found : List ConnectionFolder) (f : ConnectionFolder)
    → valid_folders fuel fs ≡ some found
    → Memᴰ f found ↔ (Memᴰ f fs × IsBelow fs none f.path)
unfolding valid_folders
valid_folders-IsBelow fuel fs found f e =
    let r = map-split _ (collect_valid_paths fuel fs none) found e in
    let valid = λ (f : ConnectionFolder). in_set f.path r.0 in
    (
      λ m.
          let k = filter-Mem valid f fs (subst (λ l. Memᴰ f l) (sym r.1.1) m) in
          (k.0, collected-IsBelow fuel fs none r.0 f.path r.1.0 (in_set-Mem f.path r.0 k.1)),
      λ m.
          subst (λ l. Memᴰ f l) r.1.1
            (Mem-filter valid f fs m.0
              (Mem-in_set f.path r.0 (below_collected fuel fs none r.0 f.path r.1.0 m.1))),
    )
