-- ===== src/Upload/Examples.antt =====
-- Uploads of src/lib/upload-paths.ts at concrete paths.
use r_shell.Prelude.{
  Ascending, Bool, List, Memᴰ, String, [], false, filter, none, or_else, place_sorted, refl, some,
  sorted, true, ◌++◌, ◌↔◌, ◌∷◌, ◌≡◌, ◌⊎◌,
}
use r_shell.Upload.Dropped.{is_dropped_directory, missing_paths, remote_root_of}
use r_shell.Upload.Mixed.{mixed_drop_plan}
use r_shell.Upload.Normal.{segments-join_remote_path}
use r_shell.Upload.Ordered.{IsOnce}
use r_shell.Upload.Paths.{
  forward_slashes, get_local_path_basename, is_char, is_separator, join_remote_path, join_slash,
  normalize_relative_upload_path, onto_first, remote_path_depth, segments, split_slash,
  strip_trailing,
}
use r_shell.Upload.Plan.{
  DroppedPathStat, LocalPathStat, LocalRecursiveUploadEntry, add_directories, add_directory,
  build_directory_upload_plan, build_mixed_drop_upload_plan, directory_before, plan_all_dropped,
  plan_dropped, plan_entries, plan_entry,
}
use r_shell.Upload.Planned.{IsWanted}

joins_paths : join_remote_path "/srv//" "a\\b/" ≡ "/srv/a/b"
unfolding join_remote_path normalize_relative_upload_path forward_slashes segments split_slash
    join_slash strip_trailing is_char filter onto_first
joins_paths = refl

segments-join_remote_path_example :
    segments (join_remote_path "/srv//" "a\\b/")
    ≡ segments (forward_slashes "/srv//") ++ segments (forward_slashes "a\\b/")
segments-join_remote_path_example = segments-join_remote_path "/srv//" "a\\b/"

abbrev listing : List LocalRecursiveUploadEntry
listing =
    record { relative_path = "deep/er"; name = "er"; size = 0; file_type = "Directory" }
    ∷ record { relative_path = "deep"; name = "deep"; size = 0; file_type = "Directory" }
    ∷ record { relative_path = "deep/er/x.txt"; name = "x.txt"; size = 7; file_type = "File" }
    ∷ []

abbrev on_disk : Bool → Bool → LocalPathStat
on_disk exists is_directory = record {
  exists = exists;
  is_directory = is_directory;
  is_symlink = false;
  size = 5;
}

abbrev dropped_paths : List DroppedPathStat
dropped_paths =
    record { path = "C:\\photos\\"; stat = on_disk true true; entries = some listing }
    ∷ record { path = "/tmp/gone"; stat = on_disk false false; entries = none }
    ∷ record { path = "/tmp/file"; stat = on_disk true false; entries = none }
    ∷ []

-- No two names are told apart.
abbrev all_alike : String → String → Bool
all_alike a b = false

planned_directories :
    (build_mixed_drop_upload_plan all_alike dropped_paths "/srv").directories
    ≡ "/srv/photos" ∷ "/srv/photos/deep" ∷ "/srv/photos/deep/er" ∷ []
unfolding build_mixed_drop_upload_plan plan_all_dropped plan_dropped build_directory_upload_plan
    plan_entries plan_entry add_directories add_directory sorted place_sorted directory_before
    remote_path_depth get_local_path_basename join_remote_path normalize_relative_upload_path
    forward_slashes segments split_slash join_slash strip_trailing is_char is_separator filter
    onto_first
planned_directories = refl

mixed_drop_plan_example :
    let plan = build_mixed_drop_upload_plan all_alike dropped_paths "/srv" in
    ((Ascending remote_path_depth plan.directories × IsOnce plan.directories)
      × (plan.skipped ≡ missing_paths dropped_paths))
    × ((x : String)
        → Memᴰ x plan.directories ↔ (
            (d : DroppedPathStat) × (Memᴰ d dropped_paths
              × ((is_dropped_directory d ≡ true)
                  × ((x ≡ remote_root_of d.path "/srv")
                      ⊎ IsWanted (remote_root_of d.path "/srv") (or_else d.entries []) x)))))
mixed_drop_plan_example = mixed_drop_plan all_alike "/srv" dropped_paths
