-- ===== src/Sync/Plan.antt =====
-- What stands in the plan that `compareDirectories` of src/lib/sync-types.ts makes.
use r_shell.Prelude.{
  Bool, Bool-cases, List, Option, String, [], both_hold, eqb, false, impossible, inl, inr, is_some,
  none, not, refl, some, true, ℕ, ◌&&◌, ◌++◌, ◌||◌, ◌∷◌, ◌≡◌, ◌⊎◌,
}
use r_shell.Sync.{
  ListedEntry, SyncAction, SyncConfig, SyncCriteria, SyncDirection, SyncEntry, compare_directories,
  compare_files, conflict, create_dir, delete_remote, deletes_orphans, is_dir, local_entries,
  local_entry, local_to_remote, map_get, matches_exclude_pattern, modified_differs, orphan_entries,
  remote_to_local, skip, to_download, to_upload, uses_modified, uses_size,
}

abbrev pub All : (SyncEntry → Type 0) → List SyncEntry → Type 0
All P [] = Unit
All P (e ∷ es) = P e × All P es

All-append :
    (P : SyncEntry → Type 0) (xs ys : List SyncEntry) → All P xs → All P ys → All P (xs ++ ys)
All-append P [] ys h h' = h'
All-append P (x ∷ xs) ys (h, hs) h' = (h, All-append P xs ys hs h')

-- The actions that copy something or make a directory
abbrev pub is_copy : SyncAction → Bool
is_copy to_upload = true
is_copy to_download = true
is_copy create_dir = true
is_copy _ = false

abbrev pub is_delete : SyncAction → Bool
is_delete delete_remote = true
is_delete _ = false

-- What an action asks of the configuration.
abbrev pub Allows : SyncConfig → SyncAction → Type 0
Allows config to_upload = config.direction ≡ local_to_remote
Allows config create_dir = config.direction ≡ local_to_remote
Allows config to_download = config.direction ≡ remote_to_local
Allows config delete_remote = (config.delete_orphaned ≡ true) × (config.direction ≡ local_to_remote)
Allows config skip = Unit
Allows config conflict = Unit

-- The entry is checked just when it copies, the configuration allows its action, and it is the entry of
-- something local unless it deletes.
abbrev pub IsCareful : SyncConfig → SyncEntry → Type 0
IsCareful config e =
    (e.checked_item ≡ is_copy e.action)
    × Allows config e.action
    × (is_delete e.action ≡ not (is_some e.local_size))

direction-cases : (d : SyncDirection) → (d ≡ local_to_remote) ⊎ (d ≡ remote_to_local)
direction-cases local_to_remote = inl refl
direction-cases remote_to_local = inr refl

module _ (parse_time : String → Option ℕ) where
  compare_files-cases :
      (here there : ListedEntry) (c : SyncCriteria) (d : SyncDirection)
      → (compare_files parse_time here there c d ≡ skip)
        ⊎ ((compare_files parse_time here there c d ≡ to_upload) × (d ≡ local_to_remote))
        ⊎ ((compare_files parse_time here there c d ≡ to_download) × (d ≡ remote_to_local))
  unfolding compare_files
  compare_files-cases here there c local_to_remote =
      elim (Bool-cases (
        (uses_size c && not (eqb here.size there.size))
        || (uses_modified c && modified_differs parse_time here.modified there.modified))) [
          | inl e ↦ rw (compare_files, e) (inr (inl (refl, refl)))
          | inr e ↦ rw (compare_files, e) (inl refl)
        ]
  compare_files-cases here there c remote_to_local =
      elim (Bool-cases (
        (uses_size c && not (eqb here.size there.size))
        || (uses_modified c && modified_differs parse_time here.modified there.modified))) [
          | inl e ↦ rw (compare_files, e) (inr (inr (refl, refl)))
          | inr e ↦ rw (compare_files, e) (inl refl)
        ]

  local_entry-Careful :
      (prefix : String) (config : SyncConfig) (here : ListedEntry) (there : Option ListedEntry)
      → All (IsCareful config) (local_entry parse_time prefix config here there)
  unfolding local_entry
  local_entry-Careful prefix config here none = elim (direction-cases config.direction) [
    | inl d ↦ elim (Bool-cases (is_dir here)) [
      | inl e ↦ rw (d, e) ((refl, refl, refl), tt)
      | inr e ↦ rw (d, e) ((refl, refl, refl), tt)
    ]
    | inr d ↦ rw d tt
  ]
  local_entry-Careful prefix config here (some there) =
      elim (Bool-cases (not (is_dir here) && not (is_dir there))) [
        | inl e ↦ elim (compare_files-cases here there config.criteria config.direction) [
          | inl a ↦ rw (e, a) ((refl, tt, refl), tt)
          | inr (inl a) ↦ rw (e, a.0) ((refl, a.1, refl), tt)
          | inr (inr a) ↦ rw (e, a.0) ((refl, a.1, refl), tt)
        ]
        | inr e ↦ elim (Bool-cases (is_dir here && is_dir there)) [
          | inl e' ↦ rw (e, e') tt
          | inr e' ↦ rw (e, e') ((refl, tt, refl), tt)
        ]
      ]

  local_entries-Careful :
      (prefix : String) (config : SyncConfig) (remotes locals : List ListedEntry)
      → All (IsCareful config) (local_entries parse_time prefix config remotes locals)
  unfolding local_entries
  local_entries-Careful prefix config remotes [] = tt
  local_entries-Careful prefix config remotes (here ∷ locals) =
      elim (Bool-cases (matches_exclude_pattern here.name config.exclude_patterns)) [
        | inl e ↦ rw e (local_entries-Careful prefix config remotes locals)
        | inr e ↦ rw e (
            All-append (IsCareful config) _ _
              (local_entry-Careful prefix config here (map_get here.name remotes))
              (local_entries-Careful prefix config remotes locals))
      ]

  orphan_entries-Careful :
      (prefix : String) (config : SyncConfig) (locals remotes : List ListedEntry)
      → (config.delete_orphaned ≡ true) × (config.direction ≡ local_to_remote)
      → All (IsCareful config) (orphan_entries parse_time prefix config locals remotes)
  unfolding orphan_entries
  orphan_entries-Careful prefix config locals [] allowed = tt
  orphan_entries-Careful prefix config locals (there ∷ remotes) allowed =
      elim (Bool-cases (
        matches_exclude_pattern there.name config.exclude_patterns
        || is_some (map_get there.name locals))) [
          | inl e ↦ rw e (orphan_entries-Careful prefix config locals remotes allowed)
          | inr e ↦
              rw e
                ((refl, allowed, refl), orphan_entries-Careful prefix config locals remotes allowed)
        ]

  deletes_orphans-allowed :
      (config : SyncConfig)
      → deletes_orphans config ≡ true
      → (config.delete_orphaned ≡ true) × (config.direction ≡ local_to_remote)
  unfolding deletes_orphans
  deletes_orphans-allowed config h =
      let both = both_hold config.delete_orphaned _ h in
      (
        both.0,
        elim (direction-cases config.direction) [ inl d ↦ d | inr d ↦ impossible (rw d at both.1) ],
      )

  -- An entry of the plan is checked from the start just when it copies a file or makes a directory:
  -- deletions, conflicts and files that are the same are left unchecked. Deletions stand in the plan
  -- only where the configuration asks for them and the direction is from local to remote; uploads and
  -- new directories stand in it only in that direction, and downloads only in the other. Each entry but
  -- a deletion is that of a local file or directory.
  pub compare_directories-Careful :
      (locals remotes : List ListedEntry) (prefix : String) (config : SyncConfig)
      → All (IsCareful config) (compare_directories parse_time locals remotes prefix config)
  unfolding compare_directories
  compare_directories-Careful locals remotes prefix config =
      elim (Bool-cases (deletes_orphans config)) [
        | inl e ↦ rw e (
            All-append (IsCareful config) _ _ (local_entries-Careful prefix config remotes locals) (
              orphan_entries-Careful prefix config locals remotes
                (deletes_orphans-allowed config e)))
        | inr e ↦ rw e (
            All-append (IsCareful config) _ _ (local_entries-Careful prefix config remotes locals)
              tt)
      ]
