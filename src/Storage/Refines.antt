-- ===== src/Storage/Refines.antt =====
-- The calls on single connections of src/lib/connection-storage.ts, against the map from ids.
pub mod Replay
pub mod Catalogs
use mathlib.Core.Option
use r_shell.Prelude.{
  Bool-cases, List, Option, Option-cases, String, [], after, all, ap, eq_iff, false, if◌then◌else◌,
  inl, inr, map, none, refl, some, sym, true, ℕ, ◌==◌, ◌∙◌, ◌∷◌, ◌≡◌,
}
use r_shell.Storage.Catalog.{
  ConnectionCall, change_connection, get_connections-listed, listed, perform, persisted_listed,
  replay_call,
}
use r_shell.Storage.Connections.{
  FieldUpdate, apply_update, apply_updates, auth_method_to, created_at_to, details_to, favorite_to,
  find_connection, folder_to, has_id, host_to, last_connected_to, name_to, port_to, protocol_to,
  secrets_to, sort_order_to, update_connection, update_first, username_to,
}
use r_shell.Storage.Found.{
  find_connection-safe, find_connection-strip, find_connection-update_first,
}
use r_shell.Storage.Guarded.{get_connections, persist_connections}
use r_shell.Storage.Kept.{all_safe, is_safe, is_unreadable}
use r_shell.Storage.Secrets.{strip_unencrypted_secrets}
use r_shell.Storage.Types.{ConnectionData, Store}
use r_shell.Terminal.Grid.{gone}

-- A store whose connections can be read, with no plaintext that would be stripped.
pub record IsHealthy (st : Store) : Type 0 where
  pub readable : is_unreadable st.readable st.connections ≡ false
  pub safe : all (is_safe st.seal_failed) (listed st.readable st.connections) ≡ true

-- The connections that a call reads.
abbrev pub read_by : ℕ → Store → List ConnectionData
read_by now st = (get_connections now st).0

pub read_by-safe :
    (now : ℕ) (st : Store) → IsHealthy st → all (is_safe st.seal_failed) (read_by now st) ≡ true
read_by-safe now st h = ap (all (is_safe st.seal_failed)) (get_connections-listed now st) ∙ h.safe

-- A write behind a read leaves the store healthy, and the catalog is that of the written array.
pub written_catalog :
    (now : ℕ) (cs : List ConnectionData) (st : Store)
    → IsHealthy st
    → let after = persist_connections cs (get_connections now st).1 in
      IsHealthy after
      × ((k : String)
          → find_connection k (listed after.readable after.connections)
            ≡ Option.map (strip_unencrypted_secrets st.seal_failed) (find_connection k cs))
unfolding persist_connections get_connections
written_catalog now cs st h =
    let w = persisted_listed now cs st h.readable in
    (
      record {
        readable = w.1;
        safe = ap (all (is_safe st.seal_failed)) w.0 ∙ all_safe st.seal_failed cs;
      },
      λ k. ap (find_connection k) w.0 ∙ find_connection-strip k st.seal_failed cs,
    )

-- What is not touched is found as it was.
pub kept_found :
    (now : ℕ) (k : String) (st : Store)
    → IsHealthy st
    → Option.map (strip_unencrypted_secrets st.seal_failed) (find_connection k (read_by now st))
      ≡ find_connection k (listed st.readable st.connections)
kept_found now k st h =
    find_connection-safe k st.seal_failed (read_by now st) (read_by-safe now st h)
    ∙ ap (find_connection k) (get_connections-listed now st)

-- The catalog that a call leaves.
abbrev pub After : ConnectionCall → Store → Type 0
After call st =
    IsHealthy (perform call st)
    × (((perform call st).seal_failed ≡ st.seal_failed)
        × ((k : String)
            → find_connection k (listed (perform call st).readable (perform call st).connections)
              ≡ replay_call st.seal_failed call
                  (λ j. find_connection j (listed st.readable st.connections)) k))

apply_update-id : (u : FieldUpdate) (c : ConnectionData) → (apply_update u c).id ≡ c.id
unfolding apply_update
apply_update-id (name_to v) c = refl
apply_update-id (host_to v) c = refl
apply_update-id (username_to v) c = refl
apply_update-id (protocol_to v) c = refl
apply_update-id (created_at_to v) c = refl
apply_update-id (port_to v) c = refl
apply_update-id (folder_to v) c = refl
apply_update-id (last_connected_to v) c = refl
apply_update-id (favorite_to v) c = refl
apply_update-id (auth_method_to v) c = refl
apply_update-id (sort_order_to v) c = refl
apply_update-id (secrets_to v) c = refl
apply_update-id (details_to v) c = refl

apply_updates-id : (us : List FieldUpdate) (c : ConnectionData) → (apply_updates us c).id ≡ c.id
unfolding apply_updates
apply_updates-id [] c = refl
apply_updates-id (u ∷ us) c = apply_updates-id us (apply_update u c) ∙ apply_update-id u c

pub map-map :
    (f g : ConnectionData → ConnectionData) (o : Option ConnectionData)
    → Option.map f (Option.map g o) ≡ Option.map (λ c. f (g c)) o
map-map f g none = refl
map-map f g (some c) = refl

-- The lookup behind an update, where what is found has nothing to strip.
changed_found :
    (k id : String) (us : List FieldUpdate) (sf : List String) (cs : List ConnectionData)
    → all (is_safe sf) cs ≡ true
    → Option.map
        (strip_unencrypted_secrets sf)
        (find_connection k (update_first (has_id id) (apply_updates us) cs))
      ≡ (if id == k
          then Option.map
              (λ c. strip_unencrypted_secrets sf (apply_updates us c))
              (find_connection k cs)
          else find_connection k cs)
changed_found k id us sf cs h =
    let found =
      find_connection-update_first k id (apply_updates us) cs (λ c e. apply_updates-id us c ∙ e) in
    ap (Option.map (strip_unencrypted_secrets sf)) found ∙ elim (Bool-cases (id == k)) [
      | inl e ↦
          rw e (map-map (strip_unencrypted_secrets sf) (apply_updates us) (find_connection k cs))
      | inr e ↦ rw e (find_connection-safe k sf cs h)
    ]

-- And where there is nothing to update.
missing_found :
    (k id : String) (f : ConnectionData → ConnectionData) (cs : List ConnectionData)
    → find_connection id cs ≡ none
    → find_connection k cs
      ≡ (if id == k then Option.map f (find_connection k cs) else find_connection k cs)
missing_found k id f cs h = elim (Bool-cases (id == k)) [
  | inl e ↦
      let gone = ap (λ j. find_connection j cs) (sym ((eq_iff id k).0 e)) ∙ h in rw (e, gone) refl
  | inr e ↦ rw e refl
]

pub read-IsHealthy : (now : ℕ) (st : Store) → IsHealthy st → IsHealthy (get_connections now st).1
unfolding get_connections
read-IsHealthy now st h = record { readable = h.readable; safe = h.safe }

pub perform-change :
    (now : ℕ) (id : String) (us : List FieldUpdate) (st : Store)
    → IsHealthy st
    → After (change_connection now id us) st
unfolding perform update_connection replay_call get_connections persist_connections
perform-change now id us st h =
    let sf = st.seal_failed in
    let same = get_connections-listed now st in
    elim (Option-cases (find_connection id (read_by now st))) [
      | inl e ↦
          rw (perform, update_connection, e)
            (
              read-IsHealthy now st h,
              (
                refl,
                λ k.
                    missing_found k id (λ c. strip_unencrypted_secrets sf (apply_updates us c))
                      (listed st.readable st.connections) (ap (find_connection id) (sym same) ∙ e),
              ),
            )
      | inr (c, e) ↦
          let w =
            written_catalog now (update_first (has_id id) (apply_updates us) (read_by now st)) st
              h in
          rw (perform, update_connection, e)
            (
              w.0,
              (
                refl,
                λ k.
                    w.1 k
                    ∙ changed_found k id us sf (read_by now st) (read_by-safe now st h)
                    ∙ ap
                        (λ l.
                          if id == k
                          then Option.map (λ c. strip_unencrypted_secrets sf (apply_updates us c))
                              (find_connection k l)
                          else find_connection k l)
                        same,
              ),
            )
    ]
