-- ===== src/Upload/Planned.antt =====
-- The directories of a plan for one directory in src/lib/upload-paths.ts.
use r_shell.Prelude.{
  Ascending, Bool, Bool-cases, List, Memᴰ, String, [], arith, count, eqb, false, if◌then◌else◌,
  impossible, inl, inr, ltb, place_sorted, refl, sorted, sorted-Ascending, subst, sym, true, ◌+◌,
  ◌==◌, ◌↔◌, ◌∷◌, ◌≡◌, ◌≤◌, ◌⊎◌,
}
use r_shell.Terminal.Store.Unique.{once}
use r_shell.Upload.Ordered.{IsOnce, add_directory-IsOnce, add_directory-Mem}
use r_shell.Upload.Paths.{join_remote_path, normalize_relative_upload_path, remote_path_depth}
use r_shell.Upload.Plan.{
  DirectoryUploadPlan, LocalRecursiveUploadEntry, directory_before, plan_entries, plan_entry,
}

module _ (before : String → String → Bool) where
  count-place_sorted :
      (x y : String) (ys : List String)
      → count x (place_sorted before y ys) ≡ (if y == x then 1 else 0) + count x ys
  unfolding place_sorted
  count-place_sorted x y [] = refl
  count-place_sorted x y (z ∷ zs) = elim (Bool-cases (before z y)) [
    | inl e ↦ rw (place_sorted, e) (omega (arith, count-place_sorted x y zs))
    | inr e ↦ rw (place_sorted, e) refl
  ]

  pub count-sorted : (x : String) (xs : List String) → count x (sorted before xs) ≡ count x xs
  unfolding sorted
  count-sorted x [] = refl
  count-sorted x (y ∷ ys) =
      omega (arith, count-place_sorted x y (sorted before ys), count-sorted x ys)

module _ (locale_less : String → String → Bool) where
  before_up :
      (a b : String)
      → directory_before locale_less a b ≡ true
      → remote_path_depth a ≤ remote_path_depth b
  unfolding directory_before
  before_up a b h = elim (Bool-cases (eqb (remote_path_depth a) (remote_path_depth b))) [
    | inl e ↦ ground (arith, e)
    | inr e ↦
        let less : ltb (remote_path_depth a) (remote_path_depth b) ≡ true =
          rw (directory_before, e) at h in
        ground (arith, less)
  ]

  before_down :
      (a b : String)
      → directory_before locale_less a b ≡ false
      → remote_path_depth b ≤ remote_path_depth a
  unfolding directory_before
  before_down a b h = elim (Bool-cases (eqb (remote_path_depth a) (remote_path_depth b))) [
    | inl e ↦ ground (arith, e)
    | inr e ↦
        let less : ltb (remote_path_depth a) (remote_path_depth b) ≡ false =
          rw (directory_before, e) at h in
        ground (arith, less)
  ]

  pub by_depth :
      (ds : List String) → Ascending remote_path_depth (sorted (directory_before locale_less) ds)
  by_depth ds =
      sorted-Ascending (directory_before locale_less) remote_path_depth before_up before_down ds

-- The remote directory that an entry of the listing asks for.
pub data IsWanted (root : String) (es : List LocalRecursiveUploadEntry) (x : String) : Type 0 where
  wanted :
      (e : LocalRecursiveUploadEntry)
      → Memᴰ e es
      → (e.file_type == "Directory") ≡ true
      → (normalize_relative_upload_path e.relative_path == "") ≡ false
      → x ≡ join_remote_path root (normalize_relative_upload_path e.relative_path)
      → IsWanted root es x

-- What it takes for one entry to ask for a directory.
abbrev Asks : String → LocalRecursiveUploadEntry → String → Type 0
Asks root e x =
    ((e.file_type == "Directory") ≡ true)
    × (((normalize_relative_upload_path e.relative_path == "") ≡ false)
        × (x ≡ join_remote_path root (normalize_relative_upload_path e.relative_path)))

IsWanted-cons :
    (root x : String) (e : LocalRecursiveUploadEntry) (es : List LocalRecursiveUploadEntry)
    → IsWanted root (e ∷ es) x ↔ (Asks root e x ⊎ IsWanted root es x)
IsWanted-cons root x e es = (split, λ h. elim h [ inl a ↦ first a | inr w ↦ later w ])
  where
    split : IsWanted root (e ∷ es) x → Asks root e x ⊎ IsWanted root es x
    split (wanted f (Memᴰ.head k) t n j) = inl (subst (λ g. Asks root g x) k (t, (n, j)))
    split (wanted f (Memᴰ.tail m) t n j) = inr (wanted f m t n j)

    first : Asks root e x → IsWanted root (e ∷ es) x
    first a = wanted e (Memᴰ.head refl) a.0 a.1.0 a.1.1

    later : IsWanted root es x → IsWanted root (e ∷ es) x
    later (wanted f m t n j) = wanted f (Memᴰ.tail m) t n j

-- What the body of the loop makes of the directories.
plan_entry-directories :
    (src root : String) (e : LocalRecursiveUploadEntry) (plan : DirectoryUploadPlan)
    → IsOnce plan.directories
    → IsOnce (plan_entry src root e plan).directories
      × ((x : String)
          → Memᴰ x (plan_entry src root e plan).directories
            ↔ (Memᴰ x plan.directories ⊎ Asks root e x))
unfolding plan_entry
plan_entry-directories src root e plan once =
    let rel = normalize_relative_upload_path e.relative_path in
    elim (Bool-cases (rel == "")) [
      | inl k ↦
          rw (plan_entry, k)
            (once, λ x. (λ m. inl m, λ h. elim h [ inl m ↦ m | inr a ↦ impossible (sym a.1.0) ]))
      | inr k ↦ elim (Bool-cases (e.file_type == "Directory")) [
        | inl t ↦
            rw (plan_entry, k, t)
              (
                add_directory-IsOnce (join_remote_path root rel) plan.directories once,
                λ x.
                    let here = add_directory-Mem x (join_remote_path root rel) plan.directories in
                    (
                      λ m. elim (here.0 m) [ inl l ↦ inl l | inr l ↦ inr (refl, (refl, l)) ],
                      λ h. elim h [ inl l ↦ here.1 (inl l) | inr a ↦ here.1 (inr a.1.1) ],
                    ),
              )
        | inr t ↦
            rw (plan_entry, k, t)
              (once, λ x. (λ m. inl m, λ h. elim h [ inl m ↦ m | inr a ↦ impossible a.0 ]))
      ]
    ]

pub plan_entries-directories :
    (src root : String) (es : List LocalRecursiveUploadEntry) (plan : DirectoryUploadPlan)
    → IsOnce plan.directories
    → IsOnce (plan_entries src root es plan).directories
      × ((x : String)
          → Memᴰ x (plan_entries src root es plan).directories
            ↔ (Memᴰ x plan.directories ⊎ IsWanted root es x))
unfolding plan_entries
plan_entries-directories src root [] plan once =
    (once, λ x. (λ m. inl m, λ h. elim h [ inl m ↦ m | inr w ↦ none_wanted w ]))
  where
    none_wanted : {A : Type 0} {x : String} → IsWanted root [] x → A
    none_wanted (wanted f m t n j) = elim m [ ]
plan_entries-directories src root (e ∷ es) plan once =
    let here = plan_entry-directories src root e plan once in
    let later = plan_entries-directories src root es (plan_entry src root e plan) here.0 in
    (
      later.0,
      λ x. (
        λ m. elim ((later.1 x).0 m) [
          | inl k ↦ elim ((here.1 x).0 k) [
            | inl l ↦ inl l
            | inr a ↦ inr ((IsWanted-cons root x e es).1 (inl a))
          ]
          | inr w ↦ inr ((IsWanted-cons root x e es).1 (inr w))
        ],
        λ h. elim h [
          | inl m ↦ (later.1 x).1 (inl ((here.1 x).1 (inl m)))
          | inr w ↦ elim ((IsWanted-cons root x e es).0 w) [
            | inl a ↦ (later.1 x).1 (inl ((here.1 x).1 (inr a)))
            | inr v ↦ (later.1 x).1 (inr v)
          ]
        ],
      ),
    )
