-- ===== src/Sync/Examples.antt =====
-- Tests of the comparison of two directories, and the theorem about it at concrete listings.
use r_shell.Prelude.{
  List, Option, String, [], filter, length, map, none, refl, some, true, ℕ, ◌+◌, ◌∷◌, ◌≡◌,
}
use r_shell.Sync.{
  ListedEntry, SyncConfig, SyncDirection, SyncEntry, by_size_and_modified, compare_directories,
  delete_remote, local_to_remote, remote_to_local, to_upload,
}
use r_shell.Sync.Plan.{All, IsCareful, compare_directories-Careful}
use r_shell.Sync.Summary.{compute_sync_summary, is_checked_entry, summary_of_plan}

abbrev file : String → ℕ → ListedEntry
file name size = record { name = name; size = size; modified = some "t"; file_type = "File" }

abbrev no_time : String → Option ℕ
no_time value = none

abbrev config : SyncDirection → SyncConfig
config direction = record {
  direction = direction;
  criteria = by_size_and_modified;
  delete_orphaned = true;
  recursive = true;
  exclude_patterns = "*.log" ∷ [];
}

abbrev here_files : List ListedEntry
here_files = file "a" 1 ∷ file "b" 2 ∷ file "x.log" 3 ∷ []

abbrev there_files : List ListedEntry
there_files = file "b" 5 ∷ file "c" 7 ∷ []

abbrev plan : SyncDirection → List SyncEntry
plan d = compare_directories no_time here_files there_files "src" (config d)

-- Upwards, the new file and the one that differs are sent, and the other one may be deleted.
plan_up :
    map (λ (e : SyncEntry). e.action) (plan local_to_remote)
    ≡ to_upload ∷ to_upload ∷ delete_remote ∷ []
unfolding compare_directories
plan_up = refl

-- Downwards, the file "c" that only the remote side has is not in the plan.
plan_down : map (λ (e : SyncEntry). e.relative_path) (plan remote_to_local) ≡ "src/b" ∷ []
unfolding compare_directories
plan_down = refl

compare_directories-Careful_example :
    All (IsCareful (config remote_to_local)) (plan remote_to_local)
compare_directories-Careful_example =
    compare_directories-Careful no_time here_files there_files "src" (config remote_to_local)

summary_of_plan_example :
    (let summary = compute_sync_summary (plan local_to_remote) in
      (summary.to_delete_count ≡ 0)
      × (summary.to_upload_count + summary.to_download_count + summary.to_create_dir_count
          ≡ length (filter is_checked_entry (plan local_to_remote))))
summary_of_plan_example =
    summary_of_plan no_time here_files there_files "src" (config local_to_remote)
