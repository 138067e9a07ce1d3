-- ===== src/Sync/Summary.antt =====
-- `computeSyncSummary` of src/lib/sync-types.ts.
use r_shell.Prelude.{
  Bool, Bool-cases, List, Option, String, [], arith, false, filter, if◌then◌else◌, inl, inr, length,
  or_else, refl, subst, sym, true, ℕ, ◌+◌, ◌∙◌, ◌∷◌, ◌≡◌,
}
use r_shell.Sync.{
  ListedEntry, SyncAction, SyncConfig, SyncEntry, compare_directories, conflict, create_dir,
  delete_remote, skip, to_download, to_upload,
}
use r_shell.Sync.Plan.{All, IsCareful, compare_directories-Careful, is_copy}

pub record SyncSummary : Type 0 where
  pub to_upload_count : ℕ
  pub to_download_count : ℕ
  pub to_create_dir_count : ℕ
  pub to_delete_count : ℕ
  pub skipped : ℕ
  pub conflicts : ℕ
  pub total_bytes : ℕ

-- `a === b` for two actions
pub same_action : SyncAction → SyncAction → Bool
same_action to_upload to_upload = true
same_action to_download to_download = true
same_action create_dir create_dir = true
same_action delete_remote delete_remote = true
same_action skip skip = true
same_action conflict conflict = true
same_action _ _ = false

-- `entries.filter((e) => e.action === action).length`
pub count_action : SyncAction → List SyncEntry → ℕ
unfolding same_action
count_action action entries =
    length (filter (λ (e : SyncEntry). same_action e.action action) entries)

-- `sum + (e.localSize ?? e.remoteSize ?? 0)` over the entries
pub sum_bytes : List SyncEntry → ℕ
sum_bytes [] = 0
sum_bytes (e ∷ es) = or_else e.local_size (or_else e.remote_size 0) + sum_bytes es

abbrev pub is_checked_entry : SyncEntry → Bool
is_checked_entry e = e.checked_item

pub compute_sync_summary : List SyncEntry → SyncSummary
unfolding count_action sum_bytes
compute_sync_summary entries =
    let checked = filter is_checked_entry entries in
    record {
      to_upload_count = count_action to_upload checked;
      to_download_count = count_action to_download checked;
      to_create_dir_count = count_action create_dir checked;
      to_delete_count = count_action delete_remote checked;
      skipped = count_action skip entries;
      conflicts = count_action conflict entries;
      total_bytes = sum_bytes checked;
    }

-- The checked entries by what they do
abbrev Copies : List SyncEntry → Type 0
Copies checked =
    (count_action delete_remote checked ≡ 0)
    × (count_action to_upload checked
          + count_action to_download checked
          + count_action create_dir checked
        ≡ length checked)

Copies-cons :
    (e : SyncEntry) (es : List SyncEntry) (a : SyncAction)
    → e.action ≡ a
    → is_copy a ≡ true
    → Copies es
    → Copies (e ∷ es)
unfolding count_action filter
Copies-cons e es to_upload h c (d, s) = (rw h d, rw h (omega (arith, s)))
Copies-cons e es to_download h c (d, s) = (rw h d, rw h (omega (arith, s)))
Copies-cons e es create_dir h c (d, s) = (rw h d, rw h (omega (arith, s)))
Copies-cons e es delete_remote h c (d, s) = cc
Copies-cons e es skip h c (d, s) = cc
Copies-cons e es conflict h c (d, s) = cc

checked-Copies :
    (config : SyncConfig) (es : List SyncEntry)
    → All (IsCareful config) es
    → Copies (filter is_checked_entry es)
unfolding count_action filter
checked-Copies config [] h = (refl, refl)
checked-Copies config (e ∷ es) (h, hs) =
    let later = filter is_checked_entry es in
    elim (Bool-cases e.checked_item) [
      | inl on ↦
          subst (λ b. Copies (if b then e ∷ later else later)) (sym on)
            (Copies-cons e later e.action refl (sym h.0 ∙ on) (checked-Copies config es hs))
      | inr idle ↦
          subst (λ b. Copies (if b then e ∷ later else later)) (sym idle)
            (checked-Copies config es hs)
    ]

-- In the summary of a plan as `compareDirectories` makes it, before the user has changed it, nothing is
-- to be deleted, and the numbers of uploads, downloads and directories to make add up to the number
-- of checked entries.
pub summary_of_plan :
    (parse_time : String → Option ℕ) (locals remotes : List ListedEntry) (prefix : String)
    (config : SyncConfig)
    → (let plan = compare_directories parse_time locals remotes prefix config in
        let summary = compute_sync_summary plan in
        (summary.to_delete_count ≡ 0)
        × (summary.to_upload_count + summary.to_download_count + summary.to_create_dir_count
            ≡ length (filter is_checked_entry plan)))
unfolding compute_sync_summary
summary_of_plan parse_time locals remotes prefix config =
    checked-Copies config _ (compare_directories-Careful parse_time locals remotes prefix config)
