-- ===== src/Storage/Guard.antt =====
-- Runs of calls of src/lib/connection-storage.ts: the guard of corrupt values, and what is written of
-- the secrets.
use r_shell.Prelude.{Bool, List, [], all, ap, inl, inr, refl, subst, sym, true, ◌&&◌, ◌∙◌, ◌∷◌, ◌≡◌}
use r_shell.Storage.Calls.{StorageCall, run}
use r_shell.Storage.Kept.{
  Change, Written, Written-refl, Written-trans, any_folder, is_legacy_safe, is_permitted, is_safe,
  is_unreadable,
}
use r_shell.Storage.Types.{ConnectionData, Outside, Store, Stored, entries}
use r_shell.Storage.Written.Runs.{run-Written}

-- Calls in their order, each with what it takes from outside.
unfoldable pub run_all : List (Outside × StorageCall) → Store → Store
run_all [] st = st
run_all ((out, call) ∷ calls) st = run_all calls (run out call st)

run_all-Written :
    (calls : List (Outside × StorageCall)) (st : Store) → Written st (run_all calls st)
unfolding run_all
run_all-Written [] st = Written-refl st
run_all-Written ((out, call) ∷ calls) st =
    Written-trans (run-Written out call st) (run_all-Written calls (run out call st))

unchanged :
    {A : Type 0} (test : A → Bool) (r : Bool) {old new : Stored A}
    → Change test r old new
    → is_unreadable r old ≡ true
    → new ≡ old
unchanged test r (inl e) h = e
unchanged test r (inr (k, w)) h = cc

-- After any calls of the manager, clearing left out, an array of connections that could not be read
-- as one is what it was, and so is an array of folders.
pub unreadable_kept :
    (calls : List (Outside × StorageCall)) (st : Store)
    → (is_unreadable st.readable st.connections ≡ true
        → (run_all calls st).connections ≡ st.connections)
      × (is_unreadable st.readable st.folders ≡ true → (run_all calls st).folders ≡ st.folders)
unreadable_kept calls st =
    let w = run_all-Written calls st in
    (
      unchanged (is_permitted st) st.readable w.connections,
      unchanged any_folder st.readable w.folders,
    )

-- Every stored connection has no plaintext secret, unless sealing it has failed, and so has every session
-- of an older version that is still stored.
pub record IsSafe (st : Store) : Type 0 where
  pub safe :
      (cs : List ConnectionData)
      → st.connections ≡ entries cs
      → all (is_safe st.seal_failed) cs ≡ true
  pub legacy : is_legacy_safe st.seal_failed st.legacy_sessions ≡ true

entries_inj : {A : Type 0} {xs ys : List A} → entries xs ≡ entries ys → xs ≡ ys
entries_inj e = cc

permitted_safe :
    (st : Store) (cs : List ConnectionData)
    → is_legacy_safe st.seal_failed st.legacy_sessions ≡ true
    → all (is_permitted st) cs ≡ all (is_safe st.seal_failed) cs
unfolding all is_permitted
permitted_safe st [] h = refl
permitted_safe st (c ∷ cs) h =
    rw h (ap (λ b. is_safe st.seal_failed c && b) (permitted_safe st cs h))

-- Where neither the stored connections nor the sessions of an older version hold a plaintext secret,
-- except those whose sealing has failed, none holds one after any calls of the manager either, the start
-- with its migration included and clearing left out.
pub run_all-IsSafe :
    (calls : List (Outside × StorageCall)) (st : Store) → IsSafe st → IsSafe (run_all calls st)
run_all-IsSafe calls st h =
    let w = run_all-Written calls st in
    subst (λ f. IsSafe (record (run_all calls st) { seal_failed = f })) (sym w.seal_failed)
      (record {
        safe = elim w.connections [
          | inl e ↦ λ cs k. h.safe cs (sym e ∙ k)
          | inr (k, (xs, (e, s))) ↦ λ cs k.
              subst (λ ys. all (is_safe st.seal_failed) ys ≡ true) (entries_inj (sym e ∙ k))
                (sym (permitted_safe st xs h.legacy) ∙ s)
        ];
        legacy =
            subst (λ o. is_legacy_safe st.seal_failed o ≡ true) (sym w.legacy_sessions) h.legacy;
      })
