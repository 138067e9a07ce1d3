-- ===== src/Sync.antt =====
-- src/lib/sync-types.ts: the comparison of a local and a remote directory, and the summary of a plan.
-- Sizes are natural numbers; `parse_time` is `new Date(…).getTime()`, in milliseconds since 1970, and
-- `none` for NaN.
pub mod Plan
pub mod Summary
mod Examples
use r_shell.Prelude.{
  Bool, List, Option, String, [], concat, eqb, false, if◌then◌else◌, is_some, ltb, none, not, some,
  starts_with, true, ℕ, ◌&&◌, ◌++◌, ◌+◌, ◌-◌, ◌==◌, ◌||◌, ◌∷◌,
}

pub data SyncCriteria : Type 0 where
  by_size by_modified by_size_and_modified : SyncCriteria

pub data SyncDirection : Type 0 where
  local_to_remote remote_to_local : SyncDirection

pub data SyncAction : Type 0 where
  to_upload to_download create_dir delete_remote skip conflict : SyncAction

pub record SyncEntry : Type 0 where
  pub relative_path : String
  pub action : SyncAction
  pub is_directory : Bool
  pub local_size : Option ℕ
  pub remote_size : Option ℕ
  pub local_modified : Option String
  pub remote_modified : Option String
  pub checked_item : Bool

pub record SyncConfig : Type 0 where
  pub direction : SyncDirection
  pub criteria : SyncCriteria
  pub delete_orphaned : Bool
  pub recursive : Bool
  pub exclude_patterns : List String

-- An entry of a listing; `modified` is `none` for `null`.
pub record ListedEntry : Type 0 where
  pub name : String
  pub size : ℕ
  pub modified : Option String
  pub file_type : String

-- `text.endsWith(suffix)`
pub ends_with : String → String → Bool
ends_with suffix String.[] = suffix == ""
ends_with suffix (String.◌∷◌ c s) = suffix == String.◌∷◌ c s || ends_with suffix s

-- `text.slice(1)`
pub slice_one : String → String
slice_one String.[] = String.[]
slice_one (String.◌∷◌ c s) = s

pub matches_exclude_pattern : String → List String → Bool
unfolding starts_with ends_with slice_one
matches_exclude_pattern name [] = false
matches_exclude_pattern name (pat ∷ patterns) =
    (if starts_with "*." pat then ends_with (slice_one pat) name else name == pat)
    || matches_exclude_pattern name patterns

-- `map.get(name)` in `new Map(entries.map((e) => [e.name, e]))`: the last entry of a name counts.
pub map_get : String → List ListedEntry → Option ListedEntry
map_get name [] = none
map_get name (e ∷ es) = elim (map_get name es) [
  | some later ↦ some later
  | none ↦ if e.name == name then some e else none
]

pub relative_to : String → String → String
relative_to prefix name = if prefix == "" then name else concat prefix (concat "/" name)

-- `local.modified && remote.modified`: the two texts, unless one is missing or empty.
pub both_modified : Option String → Option String → Option (String × String)
both_modified (some a) (some b) = if a == "" || b == "" then none else some (a, b)
both_modified _ _ = none

-- `a === b` for a text or `null`
pub same_text : Option String → Option String → Bool
same_text none none = true
same_text (some a) (some b) = a == b
same_text _ _ = false

pub far_apart : Option ℕ → Option ℕ → Bool
far_apart (some a) (some b) = ltb 2000 (a - b + (b - a))
far_apart _ _ = false

pub uses_size : SyncCriteria → Bool
uses_size by_modified = false
uses_size _ = true

pub uses_modified : SyncCriteria → Bool
uses_modified by_size = false
uses_modified _ = true

pub is_dir : ListedEntry → Bool
is_dir e = e.file_type == "Directory"

-- `config.deleteOrphaned && config.direction === 'local-to-remote'`
pub deletes_orphans : SyncConfig → Bool
deletes_orphans config =
    config.delete_orphaned
    && elim config.direction [ local_to_remote ↦ true | remote_to_local ↦ false ]

module _ (parse_time : String → Option ℕ) where
  pub modified_differs : Option String → Option String → Bool
  unfolding both_modified same_text far_apart
  modified_differs a b = elim (both_modified a b) [
    | some (x, y) ↦ far_apart (parse_time x) (parse_time y)
    | none ↦ not (same_text a b)
  ]

  pub compare_files : ListedEntry → ListedEntry → SyncCriteria → SyncDirection → SyncAction
  unfolding modified_differs uses_size uses_modified
  compare_files here there criteria direction =
      if (uses_size criteria && not (eqb here.size there.size))
        || (uses_modified criteria && modified_differs here.modified there.modified)
      then elim direction [ local_to_remote ↦ to_upload | remote_to_local ↦ to_download ]
      else skip

  -- The entry for a local file or directory, if there is one.
  pub local_entry : String → SyncConfig → ListedEntry → Option ListedEntry → List SyncEntry
  unfolding compare_files relative_to is_dir
  local_entry prefix config here none = elim config.direction [
    | remote_to_local ↦ []
    | local_to_remote ↦
        record {
          relative_path = relative_to prefix here.name;
          action = if is_dir here then create_dir else to_upload;
          is_directory = is_dir here;
          local_size = some here.size;
          remote_size = none;
          local_modified = here.modified;
          remote_modified = none;
          checked_item = true;
        }
        ∷ []
  ]
  local_entry prefix config here (some there) =
      if not (is_dir here) && not (is_dir there)
      then record {
        relative_path = relative_to prefix here.name;
        action = compare_files here there config.criteria config.direction;
        is_directory = false;
        local_size = some here.size;
        remote_size = some there.size;
        local_modified = here.modified;
        remote_modified = there.modified;
        checked_item = elim (compare_files here there config.criteria config.direction) [
          | skip ↦ false
          | _ ↦ true
        ];
      }
        ∷ []
      else if is_dir here && is_dir there
      then []
      else record {
        relative_path = relative_to prefix here.name;
        action = conflict;
        is_directory = is_dir here;
        local_size = some here.size;
        remote_size = some there.size;
        local_modified = here.modified;
        remote_modified = there.modified;
        checked_item = false;
      }
        ∷ []

  pub local_entries : String → SyncConfig → List ListedEntry → List ListedEntry → List SyncEntry
  unfolding local_entry matches_exclude_pattern map_get
  local_entries prefix config remotes [] = []
  local_entries prefix config remotes (here ∷ locals) =
      let rest = local_entries prefix config remotes locals in
      if matches_exclude_pattern here.name config.exclude_patterns
      then rest
      else local_entry prefix config here (map_get here.name remotes) ++ rest

  pub orphan_entries : String → SyncConfig → List ListedEntry → List ListedEntry → List SyncEntry
  unfolding matches_exclude_pattern map_get relative_to is_dir
  orphan_entries prefix config locals [] = []
  orphan_entries prefix config locals (there ∷ remotes) =
      let rest = orphan_entries prefix config locals remotes in
      if matches_exclude_pattern there.name config.exclude_patterns
        || is_some (map_get there.name locals)
      then rest
      else record {
        relative_path = relative_to prefix there.name;
        action = delete_remote;
        is_directory = is_dir there;
        local_size = none;
        remote_size = some there.size;
        local_modified = none;
        remote_modified = there.modified;
        checked_item = false;
      }
        ∷ rest

  pub compare_directories :
      List ListedEntry → List ListedEntry → String → SyncConfig → List SyncEntry
  unfolding local_entries orphan_entries deletes_orphans
  compare_directories locals remotes prefix config =
      local_entries prefix config remotes locals
      ++ (if deletes_orphans config then orphan_entries prefix config locals remotes else [])
