-- ===== src/Storage/Lost.antt =====
-- What the start of src/App.tsx leaves of plaintext secrets of which some cannot be sealed.
use r_shell.Prelude.{
  Bool, List, Mem-filter, Memᴰ, Option, String, [], all, ap, eq_iff, eq_refl, false, filter,
  filter-Mem, find, in_set, inl, inr, map, not, refl, some, sym, true, ℕ, ◌==◌, ◌||◌, ◌∙◌, ◌∷◌, ◌≡◌,
  ◌⊎◌,
}
use r_shell.Storage.Connections.{
  FieldUpdate, apply_updates, find_connection, has_id, update_connection, update_first,
}
use r_shell.Storage.Guarded.{
  clear_seal_failed, get_connections, mark_seal_failed, persist_connections, read_stored_array,
  write_stored_array,
}
use r_shell.Storage.Kept.{all_safe, is_safe}
use r_shell.Storage.Migration.{
  as_updates, migrate_connection, migrate_each, migrate_legacy_secrets, with_connections,
}
use r_shell.Storage.Secrets.{has_plaintext, seal_legacy_secrets, strip_unencrypted_secrets}
use r_shell.Storage.Types.{ConnectionData, Store, entries}

find-head : (a : ConnectionData) (cs : List ConnectionData) → find_connection a.id (a ∷ cs) ≡ some a
unfolding find_connection find
find-head a cs = rw (eq_refl a.id) refl

update_first-head :
    (f : ConnectionData → ConnectionData) (a : ConnectionData) (cs : List ConnectionData)
    → update_first (has_id a.id) f (a ∷ cs) ≡ f a ∷ cs
unfolding update_first
update_first-head f a cs = rw (eq_refl a.id) refl

-- What an update leaves of it, at the first connection.
updated_head :
    (now : ℕ) (us : List FieldUpdate) (a : ConnectionData) (cs : List ConnectionData) (st : Store)
    → (update_connection now a.id us
        (record (with_connections (a ∷ cs) st) { connections_corrupt = false })).1
      ≡ record (with_connections
          (map (strip_unencrypted_secrets []) (apply_updates us a ∷ cs))
          st) { connections_corrupt = false }
unfolding update_connection get_connections read_stored_array persist_connections write_stored_array
updated_head now us a cs st =
    rw (update_connection, find-head a cs, update_first-head (apply_updates us) a cs) refl

or_true : (a b : Bool) → b ≡ true → (a || b) ≡ true
or_true true b h = refl
or_true false b h = h

-- The connection `a` and those behind it are stored under their ids, without plaintext, although the
-- ones behind it that had some are marked as the only copy of it.
pub record Lost (a : ConnectionData) (cs : List ConnectionData) (after : Store) : Type 0 where
  pub stored : List ConnectionData
  pub written : after.connections ≡ entries stored
  pub same_ids :
      map (λ (c : ConnectionData). c.id) stored ≡ a.id ∷ map (λ (c : ConnectionData). c.id) cs
  pub clean : all (λ (c : ConnectionData). not (has_plaintext c.secrets)) stored ≡ true
  pub marked :
      (c : ConnectionData)
      → Memᴰ c cs
      → has_plaintext c.secrets ≡ true
      → in_set c.id after.seal_failed ≡ true

ids-stripped :
    (cs : List ConnectionData)
    → map (λ (c : ConnectionData). c.id) (map (strip_unencrypted_secrets []) cs)
      ≡ map (λ (c : ConnectionData). c.id) cs
unfolding strip_unencrypted_secrets
ids-stripped [] = refl
ids-stripped (c ∷ cs) = ap (λ ids. c.id ∷ ids) (ids-stripped cs)

module _ (seal : String → Option String) where
  fails : ConnectionData → Bool
  fails c = (seal_legacy_secrets seal c.secrets).1.failed

  -- Connections that cannot be sealed are marked, and nothing is written.
  migrate_each-failing :
      (now : ℕ) (cs : List ConnectionData) (st : Store)
      → ((c : ConnectionData) → Memᴰ c cs → fails c ≡ true)
      → ((migrate_each seal now cs st).connections ≡ st.connections)
        × ((id : String)
            → (in_set id st.seal_failed ≡ true) ⊎ ((c : ConnectionData) × (Memᴰ c cs × (c.id ≡ id)))
            → in_set id (migrate_each seal now cs st).seal_failed ≡ true)
  unfolding migrate_each migrate_connection mark_seal_failed fails
  migrate_each-failing now [] st failing =
      (refl, λ id h. elim h [ inl e ↦ e | inr m ↦ elim m.1.0 [ ] ])
  migrate_each-failing now (c ∷ cs) st failing =
      let marked = mark_seal_failed c.id st in
      let step : migrate_each seal now (c ∷ cs) st ≡ migrate_each seal now cs marked =
        rw (migrate_each, failing c (Memᴰ.head refl)) refl in
      let rest = migrate_each-failing now cs marked (λ d m. failing d (Memᴰ.tail m)) in
      (
        ap (λ (s : Store). s.connections) step ∙ rest.0,
        λ id h.
            ap (λ (s : Store). in_set id s.seal_failed) step
            ∙ rest.1 id (elim h [
              | inl e ↦ inl (or_true (c.id == id) (in_set id st.seal_failed) e)
              | inr (d, (m, e)) ↦ elim m [
                | Memᴰ.head k ↦
                    inl
                      (rw ((eq_iff c.id id).1 (sym (ap (λ (x : ConnectionData). x.id) k) ∙ e)) refl)
                | Memᴰ.tail t ↦ inr (d, (t, e))
              ]
            ]),
      )

  -- Where sealing the first of the stored connections succeeds, and sealing any of the others that has
  -- plaintext fails, each of these is then marked, as if its plaintext were kept, but no stored
  -- connection has plaintext any more: the write of the first has stripped them all.
  pub migrate_legacy_secrets-stripped :
      (now : ℕ) (a : ConnectionData) (cs : List ConnectionData) (st : Store)
      → has_plaintext a.secrets ≡ true
      → (seal_legacy_secrets seal a.secrets).1.failed ≡ false
      → (seal_legacy_secrets seal a.secrets).1.migrated ≡ true
      → ((c : ConnectionData)
          → Memᴰ c cs
          → has_plaintext c.secrets ≡ true
          → (seal_legacy_secrets seal c.secrets).1.failed ≡ true)
      → Lost a cs (migrate_legacy_secrets seal now (with_connections (a ∷ cs) st))
  unfolding migrate_legacy_secrets migrate_each migrate_connection get_connections read_stored_array
      filter clear_seal_failed as_updates apply_updates strip_unencrypted_secrets is_safe fails
  migrate_legacy_secrets-stripped now a cs st pa sa ma failing =
      let sealed = record a { secrets = (seal_legacy_secrets seal a.secrets).0 } in
      let plain = filter (λ (c : ConnectionData). has_plaintext c.secrets) cs in
      let updated =
        record (with_connections
          (map (strip_unencrypted_secrets []) (apply_updates (as_updates sealed) a ∷ cs)) st) {
            connections_corrupt = false;
          } in
      let run : migrate_legacy_secrets seal now (with_connections (a ∷ cs) st)
          ≡ migrate_each seal now plain updated =
        rw (pa, migrate_each, migrate_connection, sa, ma)
          (ap (migrate_each seal now plain) (updated_head now (as_updates sealed) a cs st)) in
      let rest = migrate_each-failing now plain updated (λ c m.
        let found = filter-Mem (λ (c : ConnectionData). has_plaintext c.secrets) c cs m in
        failing c found.0 found.1) in
      record {
        stored = map (strip_unencrypted_secrets []) (apply_updates (as_updates sealed) a ∷ cs);
        written = ap (λ (s : Store). s.connections) run ∙ rest.0;
        same_ids = ap (λ ids. a.id ∷ ids) (ids-stripped cs);
        clean = all_safe [] (apply_updates (as_updates sealed) a ∷ cs);
        marked = λ c m p.
            ap (λ (s : Store). in_set c.id s.seal_failed) run
            ∙ rest.1 c.id (
                inr (
                  c,
                  (Mem-filter (λ (c : ConnectionData). has_plaintext c.secrets) c cs m p, refl),
                ));
      }
