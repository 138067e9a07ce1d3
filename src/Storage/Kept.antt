-- ===== src/Storage/Kept.antt =====
-- What a call of src/lib/connection-storage.ts may do to the two arrays: leave one as it is, or, where
-- it can be read, put another array in its place.
use r_shell.Prelude.{
  Bool, Bool-cases, List, Option, String, [], all, any, ap, both_hold, false, in_set, inl, inr, map,
  not, refl, subst, sym, true, ℕ, ◌==◌, ◌||◌, ◌∙◌, ◌∷◌, ◌≡◌, ◌⊎◌,
}
use r_shell.Storage.Guarded.{
  get_connections, get_folders, persist_connections, read_stored_array, write_folders,
  write_stored_array,
}
use r_shell.Storage.Secrets.{
  each_secret, has_plaintext, is_legacy_plaintext, strip_unencrypted_secrets, stripped_field,
}
use r_shell.Storage.Types.{
  Backup, ConnectionData, ConnectionFolder, Secrets, StorageKey, Store, Stored, absent,
  connections_key, entries, folders_key, malformed, other_value,
}

-- The value of a key cannot be read as an array.
unfoldable pub is_unreadable : {A : Type 0} → Bool → Stored A → Bool
is_unreadable readable absent = not readable
is_unreadable readable (malformed raw) = not readable || not (raw == "")
is_unreadable readable (other_value value) = true
is_unreadable readable (entries xs) = not readable

-- `new` is `old`, or an array of values that pass `test` in the place of a readable `old`.
abbrev pub Change : {A : Type 0} → (A → Bool) → Bool → Stored A → Stored A → Type 0
Change {A = A} test readable old new =
    (new ≡ old)
    ⊎ ((is_unreadable readable old ≡ false)
        × ((xs : List A) × ((new ≡ entries xs) × (all test xs ≡ true))))

-- No secret of the connection is plaintext, unless its seal has failed.
unfoldable pub is_safe : List String → ConnectionData → Bool
unfolding has_plaintext
is_safe seal_failed c = in_set c.id seal_failed || not (has_plaintext c.secrets)

-- The sessions of older versions hold no plaintext either.
unfoldable pub is_legacy_safe : List String → Stored ConnectionData → Bool
unfolding is_safe all
is_legacy_safe seal_failed (entries cs) = all (is_safe seal_failed) cs
is_legacy_safe seal_failed _ = true

-- What may be written: safe connections, or any where the sessions of older versions are not safe.
unfoldable pub is_permitted : Store → ConnectionData → Bool
unfolding is_safe is_legacy_safe
is_permitted st c =
    not (is_legacy_safe st.seal_failed st.legacy_sessions) || is_safe st.seal_failed c

pub any_folder : ConnectionFolder → Bool
any_folder f = true

pub record Written (st new : Store) : Type 0 where
  pub connections : Change (is_permitted st) st.readable st.connections new.connections
  pub folders : Change any_folder st.readable st.folders new.folders
  pub seal_failed : new.seal_failed ≡ st.seal_failed
  pub readable : new.readable ≡ st.readable
  pub legacy_sessions : new.legacy_sessions ≡ st.legacy_sessions

is_legacy_plaintext-stripped_field :
    (v : Option String) → is_legacy_plaintext (stripped_field false v) ≡ false
unfolding stripped_field is_legacy_plaintext
is_legacy_plaintext-stripped_field v = elim (Bool-cases (is_legacy_plaintext v)) [
  | inl e ↦ rw e refl
  | inr e ↦ rw e e
]

has_plaintext-stripped :
    (s : Secrets) → has_plaintext (each_secret (stripped_field false) s) ≡ false
unfolding has_plaintext each_secret any
has_plaintext-stripped s =
    rw
      (
        is_legacy_plaintext-stripped_field s.password,
        is_legacy_plaintext-stripped_field s.passphrase,
        is_legacy_plaintext-stripped_field s.proxy_password,
        is_legacy_plaintext-stripped_field s.vnc_password,
        is_legacy_plaintext-stripped_field s.tunnel_password,
        is_legacy_plaintext-stripped_field s.tunnel_passphrase,
      )
      refl

pub strip_unencrypted_secrets-safe :
    (sf : List String) (c : ConnectionData) → is_safe sf (strip_unencrypted_secrets sf c) ≡ true
unfolding is_safe strip_unencrypted_secrets
strip_unencrypted_secrets-safe sf c = elim (Bool-cases (in_set c.id sf)) [
  | inl e ↦ rw e refl
  | inr e ↦ rw (e, has_plaintext-stripped c.secrets) refl
]

pub all_safe :
    (sf : List String) (cs : List ConnectionData)
    → all (is_safe sf) (map (strip_unencrypted_secrets sf) cs) ≡ true
unfolding all
all_safe sf [] = refl
all_safe sf (c ∷ cs) = rw (strip_unencrypted_secrets-safe sf c) (all_safe sf cs)

all_folders : (fs : List ConnectionFolder) → all any_folder fs ≡ true
unfolding all any_folder
all_folders [] = refl
all_folders (f ∷ fs) = all_folders fs

-- The flag that a read leaves.
pub read_stored_array-corrupt :
    {A : Type 0} (key : StorageKey) (now : ℕ) (readable : Bool) (old : Stored A) (c : Bool)
    (bs : List Backup)
    → (read_stored_array key now readable old c bs).corrupt ≡ is_unreadable readable old
unfolding read_stored_array is_unreadable
read_stored_array-corrupt key now true absent c bs = refl
read_stored_array-corrupt key now true (malformed raw) c bs = refl
read_stored_array-corrupt key now true (other_value value) c bs = refl
read_stored_array-corrupt key now true (entries xs) c bs = refl
read_stored_array-corrupt key now false absent c bs = refl
read_stored_array-corrupt key now false (malformed raw) c bs = refl
read_stored_array-corrupt key now false (other_value value) c bs = refl
read_stored_array-corrupt key now false (entries xs) c bs = refl

write_stored_array-Change :
    {A : Type 0} (test : A → Bool) (readable flag : Bool) (old : Stored A) (xs : List A)
    → flag ≡ is_unreadable readable old
    → all test xs ≡ true
    → Change test readable old (write_stored_array flag xs old)
unfolding write_stored_array
write_stored_array-Change test readable true old xs h k = inl refl
write_stored_array-Change test readable false old xs h k = inr (sym h, (xs, (refl, k)))

Change-trans :
    {A : Type 0} (test : A → Bool) (r : Bool) (a b c : Stored A)
    → Change test r a b
    → Change test r b c
    → Change test r a c
Change-trans test r a b c (inl e) (inl f) = inl (f ∙ e)
Change-trans test r a b c (inl e) (inr (h, w)) = inr (ap (is_unreadable r) (sym e) ∙ h, w)
Change-trans test r a b c (inr (h, (xs, (e, k)))) (inl f) = inr (h, (xs, (f ∙ e, k)))
Change-trans test r a b c (inr (h, w)) (inr (k, v)) = inr (h, v)

same_permitted :
    (st mid : Store)
    → mid.seal_failed ≡ st.seal_failed
    → mid.legacy_sessions ≡ st.legacy_sessions
    → is_permitted mid ≡ is_permitted st
unfolding is_permitted
same_permitted st mid e e' = rw (is_permitted, e, e') refl

pub Written-trans : {st mid new : Store} → Written st mid → Written mid new → Written st new
Written-trans {st = st} {mid = mid} {new = new} v w = record {
  connections =
      Change-trans (is_permitted st) st.readable st.connections mid.connections new.connections
        v.connections
        (subst (λ r. Change (is_permitted st) r mid.connections new.connections) v.readable
          (subst (λ p. Change p mid.readable mid.connections new.connections)
            (same_permitted st mid v.seal_failed v.legacy_sessions) w.connections));
  folders =
      Change-trans any_folder st.readable st.folders mid.folders new.folders v.folders
        (subst (λ r. Change any_folder r mid.folders new.folders) v.readable w.folders);
  seal_failed = w.seal_failed ∙ v.seal_failed;
  readable = w.readable ∙ v.readable;
  legacy_sessions = w.legacy_sessions ∙ v.legacy_sessions;
}

pub Written-refl : (st : Store) → Written st st
Written-refl st = record {
  connections = inl refl;
  folders = inl refl;
  seal_failed = refl;
  readable = refl;
  legacy_sessions = refl;
}

pub get_connections-Written : (now : ℕ) (st : Store) → Written st (get_connections now st).1
unfolding get_connections
get_connections-Written now st = record {
  connections = inl refl;
  folders = inl refl;
  seal_failed = refl;
  readable = refl;
  legacy_sessions = refl;
}

pub get_folders-Written : (now : ℕ) (st : Store) → Written st (get_folders now st).1
unfolding get_folders
get_folders-Written now st = record {
  connections = inl refl;
  folders = inl refl;
  seal_failed = refl;
  readable = refl;
  legacy_sessions = refl;
}

-- The flags are those that the last reads have set.
abbrev pub IsFlagged : Store → Type 0
IsFlagged st = st.connections_corrupt ≡ is_unreadable st.readable st.connections

abbrev pub IsFolderFlagged : Store → Type 0
IsFolderFlagged st = st.folders_corrupt ≡ is_unreadable st.readable st.folders

pub get_connections-IsFlagged : (now : ℕ) (st : Store) → IsFlagged (get_connections now st).1
unfolding get_connections
get_connections-IsFlagged now st =
    read_stored_array-corrupt connections_key now st.readable st.connections st.connections_corrupt
      st.backups

pub get_folders-IsFolderFlagged : (now : ℕ) (st : Store) → IsFolderFlagged (get_folders now st).1
unfolding get_folders
get_folders-IsFolderFlagged now st =
    read_stored_array-corrupt folders_key now st.readable st.folders st.folders_corrupt st.backups

pub all_permitted :
    (st : Store) (cs : List ConnectionData)
    → all (is_safe st.seal_failed) cs ≡ true
    → all (is_permitted st) cs ≡ true
unfolding all is_permitted
all_permitted st [] h = refl
all_permitted st (c ∷ cs) h =
    let both = both_hold (is_safe st.seal_failed c) _ h in
    elim (Bool-cases (is_legacy_safe st.seal_failed st.legacy_sessions)) [
      | inl e ↦ rw (e, both.0) (all_permitted st cs both.1)
      | inr e ↦ rw e (all_permitted st cs both.1)
    ]

pub persist_connections-Written :
    (cs : List ConnectionData) (st : Store) → IsFlagged st → Written st (persist_connections cs st)
unfolding persist_connections
persist_connections-Written cs st h = record {
  connections =
      write_stored_array-Change (is_permitted st) st.readable st.connections_corrupt st.connections
        (map (strip_unencrypted_secrets st.seal_failed) cs) h
        (all_permitted st _ (all_safe st.seal_failed cs));
  folders = inl refl;
  seal_failed = refl;
  readable = refl;
  legacy_sessions = refl;
}

pub write_folders-Written :
    (fs : List ConnectionFolder) (st : Store)
    → IsFolderFlagged st
    → Written st (write_folders fs st)
unfolding write_folders
write_folders-Written fs st h = record {
  connections = inl refl;
  folders =
      write_stored_array-Change any_folder st.readable st.folders_corrupt st.folders fs h
        (all_folders fs);
  seal_failed = refl;
  readable = refl;
  legacy_sessions = refl;
}
