-- ===== src/Upload/Dropped.antt =====
-- The plans of src/lib/upload-paths.ts for a directory, and the loop over dropped paths.
use mathlib.Core.List.Memᴰ
use mathlib.Core.List.{append_assoc}
use r_shell.Prelude.{
  Ascending, Bool, Bool-cases, List, Mem-sorted, Memᴰ, String, [], ap, arith, if◌then◌else◌,
  impossible, inl, inr, or_else, refl, sorted-Mem, subst, sym, true, ◌&&◌, ◌++◌, ◌↔◌, ◌∙◌, ◌∷◌, ◌≡◌,
  ◌⊎◌,
}
use r_shell.Terminal.Store.Unique.{once}
use r_shell.Upload.Cut.{append-nil}
use r_shell.Upload.Ordered.{IsOnce, add_directories-IsOnce, add_directories-Mem}
use r_shell.Upload.Paths.{get_local_path_basename, join_remote_path, remote_path_depth}
use r_shell.Upload.Plan.{
  DirectoryUploadPlan, DroppedPathStat, LocalRecursiveUploadEntry, MixedDropUploadPlan, SkippedPath,
  build_directory_upload_plan, directory_before, missing, plan_all_dropped, plan_dropped,
  plan_entries,
}
use r_shell.Upload.Planned.{IsWanted, by_depth, count-sorted, plan_entries-directories}

-- The remote directory that an uploaded directory becomes.
abbrev pub remote_root_of : String → String → String
remote_root_of source remote_parent =
    join_remote_path remote_parent (get_local_path_basename source)

-- The directories of the plan for one directory: its own and those that its listing asks for.
pub directory_plan :
    (locale_less : String → String → Bool) (source remote_parent : String)
    (es : List LocalRecursiveUploadEntry)
    → let ds = (build_directory_upload_plan locale_less source remote_parent es).directories in
      (Ascending remote_path_depth ds × IsOnce ds)
      × ((x : String)
          → Memᴰ x ds ↔ (
              (x ≡ remote_root_of source remote_parent)
              ⊎ IsWanted (remote_root_of source remote_parent) es x))
unfolding build_directory_upload_plan
directory_plan locale_less source remote_parent es =
    let root = remote_root_of source remote_parent in
    let start : DirectoryUploadPlan = record { directories = root ∷ []; items = [] } in
    let before = directory_before locale_less in
    let plan = plan_entries-directories source root es start (λ x. ground arith) in
    let ds = (plan_entries source root es start).directories in
    (
      (by_depth locale_less ds, λ x. omega (arith, count-sorted before x ds, plan.0 x)),
      λ x. (
        λ m. elim ((plan.1 x).0 (sorted-Mem before x ds m)) [
          | inl k ↦ inl (Memᴰ.eq_of_singleton k)
          | inr w ↦ inr w
        ],
        λ h.
            Mem-sorted before x ds
              ((plan.1 x).1 (elim h [ inl k ↦ inl (Memᴰ.head k) | inr w ↦ inr w ])),
      ),
    )

-- A dropped directory that exists.
abbrev pub is_dropped_directory : DroppedPathStat → Bool
is_dropped_directory d = d.stat.exists && d.stat.is_directory

-- The directories that its plan names.
abbrev pub directories_of : (String → String → Bool) → String → DroppedPathStat → List String
directories_of locale_less remote d =
    (build_directory_upload_plan locale_less d.path remote (or_else d.entries [])).directories

-- The directory belongs to a dropped one.
pub data IsDropped (locale_less : String → String → Bool) (remote : String)
    (ds : List DroppedPathStat) (x : String) : Type 0 where
  dropped_by :
      (d : DroppedPathStat)
      → Memᴰ d ds
      → is_dropped_directory d ≡ true
      → Memᴰ x (directories_of locale_less remote d)
      → IsDropped locale_less remote ds x

abbrev skipped_path : DroppedPathStat → SkippedPath
skipped_path d = record { path = d.path; reason = missing }

-- The dropped paths that have vanished, in their order.
unfoldable pub missing_paths : List DroppedPathStat → List SkippedPath
missing_paths [] = []
missing_paths (d ∷ ds) =
    if d.stat.exists then missing_paths ds else skipped_path d ∷ missing_paths ds

module _ (locale_less : String → String → Bool) (remote : String) where
  IsDropped-cons :
      (x : String) (d : DroppedPathStat) (ds : List DroppedPathStat)
      → IsDropped locale_less remote (d ∷ ds) x ↔ (
          ((is_dropped_directory d ≡ true) × Memᴰ x (directories_of locale_less remote d))
          ⊎ IsDropped locale_less remote ds x)
  IsDropped-cons x d ds = (split, λ h. elim h [ inl a ↦ first a | inr w ↦ later w ])
    where
      Here : DroppedPathStat → Type 0
      Here e = (is_dropped_directory e ≡ true) × Memᴰ x (directories_of locale_less remote e)

      split : IsDropped locale_less remote (d ∷ ds) x → Here d ⊎ IsDropped locale_less remote ds x
      split (dropped_by e (Memᴰ.head k) t m) = inl (subst (λ g. Here g) k (t, m))
      split (dropped_by e (Memᴰ.tail n) t m) = inr (dropped_by e n t m)

      first : Here d → IsDropped locale_less remote (d ∷ ds) x
      first a = dropped_by d (Memᴰ.head refl) a.0 a.1

      later : IsDropped locale_less remote ds x → IsDropped locale_less remote (d ∷ ds) x
      later (dropped_by e n t m) = dropped_by e (Memᴰ.tail n) t m

  plan_dropped-step :
      (d : DroppedPathStat) (plan : MixedDropUploadPlan)
      → IsOnce plan.directories
      → let next = plan_dropped locale_less remote d plan in
        (IsOnce next.directories × (next.skipped ≡ plan.skipped ++ missing_paths (d ∷ [])))
        × ((x : String)
            → Memᴰ x next.directories ↔ (
                Memᴰ x plan.directories
                ⊎ ((is_dropped_directory d ≡ true) × Memᴰ x (directories_of locale_less remote d))))
  unfolding plan_dropped missing_paths
  plan_dropped-step d plan once = elim (Bool-cases d.stat.exists) [
    | inr e ↦
        rw (plan_dropped, e)
          ((once, refl), λ x. (λ m. inl m, λ h. elim h [ inl m ↦ m | inr w ↦ impossible w.0 ]))
    | inl e ↦ elim (Bool-cases d.stat.is_directory) [
      | inl k ↦
          rw (plan_dropped, e, k)
            (
              (
                add_directories-IsOnce (directories_of locale_less remote d) plan.directories once,
                sym (append-nil plan.skipped),
              ),
              λ x.
                  let here =
                    add_directories-Mem x (directories_of locale_less remote d) plan.directories in
                  (
                    λ m. elim (here.0 m) [ inl l ↦ inl l | inr l ↦ inr (refl, l) ],
                    λ h. elim h [ inl l ↦ here.1 (inl l) | inr w ↦ here.1 (inr w.1) ],
                  ),
            )
      | inr k ↦
          rw (plan_dropped, e, k)
            (
              (once, sym (append-nil plan.skipped)),
              λ x. (λ m. inl m, λ h. elim h [ inl m ↦ m | inr w ↦ impossible w.0 ]),
            )
    ]
  ]

  missing-cons :
      (d : DroppedPathStat) (ds : List DroppedPathStat)
      → missing_paths (d ∷ []) ++ missing_paths ds ≡ missing_paths (d ∷ ds)
  unfolding missing_paths
  missing-cons d ds = elim (Bool-cases d.stat.exists) [
    | inl e ↦ rw (missing_paths, e) refl
    | inr e ↦ rw (missing_paths, e) refl
  ]

  none_dropped : {A : Type 0} {x : String} → IsDropped locale_less remote [] x → A
  none_dropped (dropped_by e n t m) = elim n [ ]

  pub plan_all_dropped-steps :
      (ds : List DroppedPathStat) (plan : MixedDropUploadPlan)
      → IsOnce plan.directories
      → let next = plan_all_dropped locale_less remote ds plan in
        (IsOnce next.directories × (next.skipped ≡ plan.skipped ++ missing_paths ds))
        × ((x : String)
            → Memᴰ x next.directories
              ↔ (Memᴰ x plan.directories ⊎ IsDropped locale_less remote ds x))
  unfolding plan_all_dropped missing_paths
  plan_all_dropped-steps [] plan once = (
    (once, sym (append-nil plan.skipped)),
    λ x. (λ m. inl m, λ h. elim h [ inl m ↦ m | inr w ↦ none_dropped w ]),
  )
  plan_all_dropped-steps (d ∷ ds) plan once =
      let here = plan_dropped-step d plan once in
      let next = plan_dropped locale_less remote d plan in
      let later = plan_all_dropped-steps ds next here.0.0 in
      (
        (
          later.0.0,
          later.0.1
              ∙ ap (λ l. l ++ missing_paths ds) here.0.1
              ∙ append_assoc plan.skipped (missing_paths (d ∷ [])) (missing_paths ds)
              ∙ ap (plan.skipped ++◌) (missing-cons d ds),
        ),
        λ x.
            let cut = IsDropped-cons x d ds in
            (
              λ m. elim ((later.1 x).0 m) [
                | inl k ↦ elim ((here.1 x).0 k) [ inl l ↦ inl l | inr a ↦ inr (cut.1 (inl a)) ]
                | inr w ↦ inr (cut.1 (inr w))
              ],
              λ h. elim h [
                | inl m ↦ (later.1 x).1 (inl ((here.1 x).1 (inl m)))
                | inr w ↦ elim (cut.0 w) [
                  | inl a ↦ (later.1 x).1 (inl ((here.1 x).1 (inr a)))
                  | inr v ↦ (later.1 x).1 (inr v)
                ]
              ],
            ),
      )
