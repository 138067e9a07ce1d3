-- ===== src/Upload/Mixed.antt =====
-- The plan of src/lib/upload-paths.ts for dropped files and directories.
use r_shell.Prelude.{
  Ascending, Bool, List, Mem-sorted, Memᴰ, String, [], arith, inl, inr, or_else, sorted-Mem, true,
  ◌↔◌, ◌≡◌, ◌⊎◌,
}
use r_shell.Upload.Dropped.{
  IsDropped, directory_plan, dropped_by, is_dropped_directory, missing_paths,
  plan_all_dropped-steps, remote_root_of,
}
use r_shell.Upload.Ordered.{IsOnce}
use r_shell.Upload.Paths.{remote_path_depth}
use r_shell.Upload.Plan.{
  DroppedPathStat, MixedDropUploadPlan, build_mixed_drop_upload_plan, directory_before,
  plan_all_dropped,
}
use r_shell.Upload.Planned.{IsWanted, by_depth, count-sorted}

module _ (locale_less : String → String → Bool) (remote : String) where
  -- The plan for dropped paths names each remote directory once, and none before one with fewer
  -- segments. They are those of the dropped directories that exist: for each the remote directory that it
  -- becomes, and one for each directory of its listing whose path has a segment. The paths that have
  -- vanished are skipped, in their order, and no others.
  pub mixed_drop_plan :
      (dropped : List DroppedPathStat)
      → let plan = build_mixed_drop_upload_plan locale_less dropped remote in
        ((Ascending remote_path_depth plan.directories × IsOnce plan.directories)
          × (plan.skipped ≡ missing_paths dropped))
        × ((x : String)
            → Memᴰ x plan.directories ↔ (
                (d : DroppedPathStat) × (Memᴰ d dropped
                  × ((is_dropped_directory d ≡ true)
                      × ((x ≡ remote_root_of d.path remote)
                          ⊎ IsWanted (remote_root_of d.path remote) (or_else d.entries []) x)))))
  unfolding build_mixed_drop_upload_plan
  mixed_drop_plan dropped =
      let before = directory_before locale_less in
      let start : MixedDropUploadPlan = record { directories = []; items = []; skipped = [] } in
      let all = plan_all_dropped-steps locale_less remote dropped start (λ x. omega arith) in
      let ds = (plan_all_dropped locale_less remote dropped start).directories in
      (
        (
          (by_depth locale_less ds, λ x. omega (arith, count-sorted before x ds, all.0.0 x)),
          all.0.1,
        ),
        λ x. (
          λ m. elim ((all.1 x).0 (sorted-Mem before x ds m)) [
            | inl k ↦ elim k [ ]
            | inr w ↦ of_dropped x w
          ],
          λ h. Mem-sorted before x ds ((all.1 x).1 (inr (to_dropped x h))),
        ),
      )
    where
      Owned : String → Type 0
      Owned x =
          (d : DroppedPathStat) × (Memᴰ d dropped
            × ((is_dropped_directory d ≡ true)
                × ((x ≡ remote_root_of d.path remote)
                    ⊎ IsWanted (remote_root_of d.path remote) (or_else d.entries []) x)))

      of_dropped : (x : String) → IsDropped locale_less remote dropped x → Owned x
      of_dropped x (dropped_by d n t m) =
          (d, (n, (t, ((directory_plan locale_less d.path remote (or_else d.entries [])).1 x).0 m)))

      to_dropped : (x : String) → Owned x → IsDropped locale_less remote dropped x
      to_dropped x (d, (n, (t, w))) =
          dropped_by d n t
            (((directory_plan locale_less d.path remote (or_else d.entries [])).1 x).1 w)
