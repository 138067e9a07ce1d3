-- ===== src/Storage/Refines/Catalogs.antt =====
-- The catalog behind a run of calls of src/lib/connection-storage.ts.
use r_shell.Prelude.{List, String, [], ap, refl, sym, ℕ, ◌∙◌, ◌∷◌, ◌≡◌}
use r_shell.Storage.Catalog.{
  Catalog, ConnectionCall, catalog, catalog-listed, change_connection, discard_connection, listed,
  perform, perform_all, put_connection, replay, replay_call,
}
use r_shell.Storage.Connections.{find_connection}
use r_shell.Storage.Refines.{After, IsHealthy, perform-change}
use r_shell.Storage.Refines.Replay.{perform-discard, perform-put}
use r_shell.Storage.Types.{Store}

perform-After : (call : ConnectionCall) (st : Store) → IsHealthy st → After call st
perform-After (put_connection out id c) st h = perform-put out id c st h
perform-After (change_connection now id us) st h = perform-change now id us st h
perform-After (discard_connection now id) st h = perform-discard now id st h

replay_call-same :
    (sf : List String) (call : ConnectionCall) (m n : Catalog)
    → ((k : String) → m k ≡ n k)
    → (k : String) → replay_call sf call m k ≡ replay_call sf call n k
unfolding replay_call
replay_call-same sf (put_connection out id c) m n h k = rw (h k) refl
replay_call-same sf (change_connection now id us) m n h k = rw (h k) refl
replay_call-same sf (discard_connection now id) m n h k = rw (h k) refl

replay-same :
    (sf : List String) (calls : List ConnectionCall) (m n : Catalog)
    → ((k : String) → m k ≡ n k)
    → (k : String) → replay sf calls m k ≡ replay sf calls n k
unfolding replay
replay-same sf [] m n h k = h k
replay-same sf (call ∷ calls) m n h k =
    replay-same sf calls (replay_call sf call m) (replay_call sf call n)
      (replay_call-same sf call m n h) k

listed-replay :
    (calls : List ConnectionCall) (st : Store) (k : String)
    → IsHealthy st
    → find_connection k (listed (perform_all calls st).readable (perform_all calls st).connections)
      ≡ replay st.seal_failed calls (λ j. find_connection j (listed st.readable st.connections)) k
unfolding perform_all replay
listed-replay [] st k h = refl
listed-replay (call ∷ calls) st k h =
    let step = perform-After call st h in
    let next = perform call st in
    listed-replay calls next k step.0
    ∙ ap (λ sf. replay sf calls (λ j. find_connection j (listed next.readable next.connections)) k)
        step.1.0
    ∙ replay-same st.seal_failed calls
        (λ j. find_connection j (listed next.readable next.connections))
        (replay_call st.seal_failed call
          (λ j. find_connection j (listed st.readable st.connections)))
        step.1.1 k

-- Where the connections can be read and hold no plaintext that would be stripped, what `getConnection`
-- answers for each id after any calls that save under an id, update or delete is what the same changes
-- make of the map from ids to its answers before: saving puts the stripped connection under its id,
-- updating changes and strips the one under the id if there is one, and deleting removes it.
pub perform_all-replay :
    (calls : List ConnectionCall) (now : ℕ) (st : Store) (k : String)
    → IsHealthy st
    → catalog now (perform_all calls st) k ≡ replay st.seal_failed calls (catalog now st) k
perform_all-replay calls now st k h =
    catalog-listed now k (perform_all calls st)
    ∙ listed-replay calls st k h
    ∙ replay-same st.seal_failed calls (λ j. find_connection j (listed st.readable st.connections))
        (catalog now st) (λ j. sym (catalog-listed now j st)) k
