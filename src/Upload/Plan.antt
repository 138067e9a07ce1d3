-- ===== src/Upload/Plan.antt =====
-- The plans of src/lib/upload-paths.ts. `locale_less` holds where `localeCompare` is negative.
use r_shell.Prelude.{
  Bool, List, Option, String, [], eqb, if◌then◌else◌, in_set, ltb, map, not, or_else, sorted, ℕ,
  ◌++◌, ◌==◌, ◌∷◌,
}
use r_shell.Transfer.Types.{TransferDirection, upload}
use r_shell.Upload.Paths.{
  get_local_path_basename, join_local_path, join_remote_path, normalize_relative_upload_path,
  remote_path_depth,
}

pub record LocalRecursiveUploadEntry : Type 0 where
  pub relative_path : String
  pub name : String
  pub size : ℕ
  pub file_type : String

pub record UploadQueueInput : Type 0 where
  pub file_name : String
  pub direction : TransferDirection
  pub source_path : String
  pub destination_path : String
  pub total_bytes : ℕ

pub record DirectoryUploadPlan : Type 0 where
  pub directories : List String
  pub items : List UploadQueueInput

pub record LocalPathStat : Type 0 where
  pub exists : Bool
  pub is_directory : Bool
  pub is_symlink : Bool
  pub size : ℕ

pub record DroppedPathStat : Type 0 where
  pub path : String
  pub stat : LocalPathStat
  pub entries : Option (List LocalRecursiveUploadEntry)

pub data DroppedPathSkipReason : Type 0 where
  missing : DroppedPathSkipReason

pub record SkippedPath : Type 0 where
  pub path : String
  pub reason : DroppedPathSkipReason

pub record MixedDropUploadPlan : Type 0 where
  pub directories : List String
  pub items : List UploadQueueInput
  pub skipped : List SkippedPath

-- `directories.add(path)`, in order of insertion.
unfoldable pub add_directory : String → List String → List String
add_directory path directories =
    if in_set path directories then directories else directories ++ (path ∷ [])

-- `for (const d of …) directoriesSet.add(d)`
unfoldable pub add_directories : List String → List String → List String
unfolding add_directory
add_directories [] directories = directories
add_directories (d ∷ ds) directories = add_directories ds (add_directory d directories)

-- `buildFileUploadItems` for one path
unfoldable pub file_upload_item : String → String → UploadQueueInput
unfolding get_local_path_basename join_remote_path
file_upload_item remote_directory local_path =
    let file_name = get_local_path_basename local_path in
    record {
      file_name = file_name;
      direction = upload;
      source_path = local_path;
      destination_path = join_remote_path remote_directory file_name;
      total_bytes = 0;
    }

unfoldable pub build_file_upload_items : List String → String → List UploadQueueInput
unfolding file_upload_item
build_file_upload_items local_paths remote_directory =
    map (file_upload_item remote_directory) local_paths

-- The body of the loop over a listing; `plan` is what has been collected.
unfoldable pub plan_entry :
    String → String → LocalRecursiveUploadEntry → DirectoryUploadPlan → DirectoryUploadPlan
unfolding normalize_relative_upload_path add_directory join_remote_path get_local_path_basename
    join_local_path
plan_entry source remote_root e plan =
    let relative_path = normalize_relative_upload_path e.relative_path in
    let basename = get_local_path_basename relative_path in
    if relative_path == ""
    then plan
    else if e.file_type == "Directory"
    then record plan {
      directories = add_directory (join_remote_path remote_root relative_path) plan.directories;
    }
    else record plan {
      items =
          plan.items
          ++ (record {
            file_name = if basename == "" then e.name else basename;
            direction = upload;
            source_path = join_local_path source relative_path;
            destination_path = join_remote_path remote_root relative_path;
            total_bytes = e.size;
          }
              ∷ []);
    }

unfoldable pub plan_entries :
    String → String → List LocalRecursiveUploadEntry → DirectoryUploadPlan → DirectoryUploadPlan
unfolding plan_entry
plan_entries source remote_root [] plan = plan
plan_entries source remote_root (e ∷ es) plan =
    plan_entries source remote_root es (plan_entry source remote_root e plan)

module _ (locale_less : String → String → Bool) where
  -- The comparison of two directories is negative.
  unfoldable pub directory_before : String → String → Bool
  unfolding remote_path_depth
  directory_before a b =
      if eqb (remote_path_depth a) (remote_path_depth b)
      then locale_less a b
      else ltb (remote_path_depth a) (remote_path_depth b)

  unfoldable pub build_directory_upload_plan :
      String → String → List LocalRecursiveUploadEntry → DirectoryUploadPlan
  unfolding get_local_path_basename join_remote_path plan_entries sorted directory_before
  build_directory_upload_plan source remote_parent listing =
      let remote_root = join_remote_path remote_parent (get_local_path_basename source) in
      let plan =
        plan_entries source remote_root listing
          (record { directories = remote_root ∷ []; items = [] }) in
      record plan { directories = sorted directory_before plan.directories }

  unfoldable pub plan_dropped : String → DroppedPathStat → MixedDropUploadPlan → MixedDropUploadPlan
  unfolding build_directory_upload_plan add_directories file_upload_item build_file_upload_items
  plan_dropped remote_directory dropped plan =
      let sub_plan =
        build_directory_upload_plan dropped.path remote_directory (or_else dropped.entries []) in
      if not dropped.stat.exists
      then record plan {
        skipped = plan.skipped ++ (record { path = dropped.path; reason = missing } ∷ []);
      }
      else if dropped.stat.is_directory
      then record plan {
        directories = add_directories sub_plan.directories plan.directories;
        items = plan.items ++ sub_plan.items;
      }
      else record plan {
        items =
            plan.items
            ++ map (λ (i : UploadQueueInput). record i { total_bytes = dropped.stat.size })
                (build_file_upload_items (dropped.path ∷ []) remote_directory);
      }

  unfoldable pub plan_all_dropped :
      String → List DroppedPathStat → MixedDropUploadPlan → MixedDropUploadPlan
  unfolding plan_dropped
  plan_all_dropped remote_directory [] plan = plan
  plan_all_dropped remote_directory (d ∷ ds) plan =
      plan_all_dropped remote_directory ds (plan_dropped remote_directory d plan)

  unfoldable pub build_mixed_drop_upload_plan : List DroppedPathStat → String → MixedDropUploadPlan
  unfolding plan_all_dropped sorted directory_before
  build_mixed_drop_upload_plan dropped remote_directory =
      let plan =
        plan_all_dropped remote_directory dropped
          (record { directories = []; items = []; skipped = [] }) in
      record plan { directories = sorted directory_before plan.directories }
