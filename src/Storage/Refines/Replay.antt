-- ===== src/Storage/Refines/Replay.antt =====
-- Runs of calls on single connections of src/lib/connection-storage.ts, against the map from ids.
use mathlib.Core.Option
use r_shell.Prelude.{
  Bool, Bool-cases, List, Option, Option-cases, String, [], all, ap, arith, eq_iff, eqb, filter,
  if◌then◌else◌, inl, inr, is_some, length, none, not, refl, some, suc, sym, true, ℕ, ◌++◌, ◌==◌,
  ◌∙◌, ◌∷◌, ◌≡◌, ◌≤◌,
}
use r_shell.Storage.Catalog.{
  discard_connection, get_connections-listed, perform, put_connection, replay_call,
}
use r_shell.Storage.Connections.{
  delete_connection, find_connection, has_id, save_connection_with_id, saved_as, update_first,
}
use r_shell.Storage.Found.{
  find_connection-append, find_connection-remove, find_connection-safe,
  find_connection-update_first,
}
use r_shell.Storage.Guarded.{get_connections, persist_connections}
use r_shell.Storage.Kept.{is_safe}
use r_shell.Storage.Refines.{
  After, IsHealthy, read_by, read_by-safe, read-IsHealthy, written_catalog,
}
use r_shell.Storage.Secrets.{strip_unencrypted_secrets}
use r_shell.Storage.Types.{ConnectionData, Outside, Store}

or_none : (o : Option ConnectionData) → (if is_some o then o else none) ≡ o
or_none none = refl
or_none (some c) = refl

-- The lookup behind `saveConnectionWithId`.
saved_found :
    (k id : String) (new : ConnectionData) (sf : List String) (cs : List ConnectionData)
    → new.id ≡ id
    → all (is_safe sf) cs ≡ true
    → Option.map (strip_unencrypted_secrets sf) (
        find_connection k (
          if is_some (find_connection id cs)
          then update_first (has_id id) (λ c. new) cs
          else cs ++ (new ∷ [])))
      ≡ (if id == k then some (strip_unencrypted_secrets sf new) else find_connection k cs)
saved_found k id new sf cs e h =
    let strip = strip_unencrypted_secrets sf in
    let safe = find_connection-safe k sf cs h in
    elim (Option-cases (find_connection id cs)) [
      | inr (old, l) ↦ rw l (
          ap (Option.map strip) (find_connection-update_first k id (λ c. new) cs (λ c m. e))
          ∙ elim (Bool-cases (id == k)) [
            | inl m ↦ rw (m, ap (λ j. find_connection j cs) (sym ((eq_iff id k).0 m)) ∙ l) refl
            | inr m ↦ rw m safe
          ])
      | inl l ↦ rw l (
          ap (Option.map strip) (find_connection-append k cs new) ∙ elim (Bool-cases (id == k)) [
            | inl m ↦
                rw
                  (
                    m,
                    ap (λ j. find_connection j cs) (sym ((eq_iff id k).0 m)) ∙ l,
                    ap (λ j. j == k) e ∙ m,
                  )
                  refl
            | inr m ↦ rw (m, ap (λ j. j == k) e ∙ m, or_none (find_connection k cs)) safe
          ])
    ]

pub perform-put :
    (out : Outside) (id : String) (c : ConnectionData) (st : Store)
    → IsHealthy st
    → After (put_connection out id c) st
unfolding perform save_connection_with_id replay_call get_connections persist_connections saved_as
perform-put out id c st h =
    let cs = read_by out.now st in
    let new = saved_as out id c in
    let w =
      written_catalog out.now
        (if is_some (find_connection id cs)
          then update_first (has_id id) (λ c. new) cs
          else cs ++ (new ∷ []))
        st h in
    (
      w.0,
      (
        refl,
        λ k.
            w.1 k
            ∙ saved_found k id new st.seal_failed cs refl (read_by-safe out.now st h)
            ∙ ap
                (λ l.
                  if id == k
                  then some (strip_unencrypted_secrets st.seal_failed new)
                  else find_connection k l)
                (get_connections-listed out.now st),
      ),
    )

-- A filter that does not shorten an array keeps it.
filter-length-le {ℓ} : {A : Type ℓ} (p : A → Bool) (xs : List A) → length (filter p xs) ≤ length xs
unfolding filter
filter-length-le p [] = omega arith
filter-length-le p (x ∷ xs) = elim (Bool-cases (p x)) [
  | inl e ↦ rw (filter, e) (omega (arith, filter-length-le p xs))
  | inr e ↦ rw (filter, e) (omega (arith, filter-length-le p xs))
]

filter-length-same {ℓ} :
    {A : Type ℓ} (p : A → Bool) (xs : List A) → length (filter p xs) ≡ length xs → filter p xs ≡ xs
unfolding filter
filter-length-same p [] h = refl
filter-length-same p (x ∷ xs) h = elim (Bool-cases (p x)) [
  | inl e ↦
      let k : suc (length (filter p xs)) ≡ suc (length xs) = rw (filter, e) at h in
      rw (filter, e) (ap (x ∷◌) (filter-length-same p xs (omega (arith, k))))
  | inr e ↦
      let k : length (filter p xs) ≡ suc (length xs) = rw (filter, e) at h in
      absurd (omega (arith, k, filter-length-le p xs))
]

discarded_found :
    (k id : String) (sf : List String) (cs : List ConnectionData)
    → all (is_safe sf) cs ≡ true
    → Option.map
        (strip_unencrypted_secrets sf)
        (find_connection k (filter (λ c. not (has_id id c)) cs))
      ≡ (if id == k then none else find_connection k cs)
discarded_found k id sf cs h =
    ap (Option.map (strip_unencrypted_secrets sf)) (find_connection-remove k id cs)
    ∙ elim (Bool-cases (id == k)) [
      | inl e ↦ rw e refl
      | inr e ↦ rw e (find_connection-safe k sf cs h)
    ]

pub perform-discard :
    (now : ℕ) (id : String) (st : Store) → IsHealthy st → After (discard_connection now id) st
unfolding perform delete_connection replay_call get_connections persist_connections
perform-discard now id st h =
    let cs = read_by now st in
    let left_over = filter (λ c. not (has_id id c)) cs in
    let same = get_connections-listed now st in
    elim (Bool-cases (eqb (length left_over) (length cs))) [
      | inl e ↦
          rw (perform, delete_connection, e)
            (
              read-IsHealthy now st h,
              (
                refl,
                λ k.
                    ap (find_connection k) (
                      sym same
                      ∙ sym (filter-length-same (λ c. not (has_id id c)) cs (ground (arith, e))))
                    ∙ find_connection-remove k id cs
                    ∙ ap (λ l. if id == k then none else find_connection k l) same,
              ),
            )
      | inr e ↦
          let w = written_catalog now left_over st h in
          rw (perform, delete_connection, e)
            (
              w.0,
              (
                refl,
                λ k.
                    w.1 k
                    ∙ discarded_found k id st.seal_failed cs (read_by-safe now st h)
                    ∙ ap (λ l. if id == k then none else find_connection k l) same,
              ),
            )
    ]
