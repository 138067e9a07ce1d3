-- ===== src/Shortcuts/Synced.antt =====
-- What the calls of `sync` in src/lib/keyboard-shortcuts.ts leave registered.
use r_shell.Prelude.{
  Bool, Bool-cases, List, String, [], ap, eq_iff, false, filter, find, in_set, inl, inr, is_some,
  map, not, refl, sym, true, ◌&&◌, ◌++◌, ◌==◌, ◌||◌, ◌∙◌, ◌∷◌, ◌≡◌,
}
use r_shell.Dict.{Dict, has, keys, lookup}
use r_shell.Shortcuts.Engine.{Focus, KeyboardShortcut, desired_accelerators}
use r_shell.Shortcuts.Keydown.{RegistrationCall, registers, sync, unregisters}
use r_shell.Shortcuts.Owners.{kept, lookup-desired_accelerators, may_run, takes}

run_call : RegistrationCall → (String → Bool) → String → Bool
run_call (registers accel) known k = accel == k || known k
run_call (unregisters accel) known k = not (accel == k) && known k

-- The accelerators that the system knows after calls that succeed, each behind the one before.
unfoldable pub run_calls : List RegistrationCall → (String → Bool) → String → Bool
unfolding run_call
run_calls [] known = known
run_calls (c ∷ cs) known = run_calls cs (run_call c known)

never : (a : Bool) → (a && false) ≡ false
never true = refl
never false = refl

left_out : (a b c : Bool) → (not b && (not a && c)) ≡ (not (a || b) && c)
left_out true true c = refl
left_out true false c = refl
left_out false true c = refl
left_out false false c = refl

put_in : (a b c : Bool) → (b || (a || c)) ≡ ((a || b) || c)
put_in true true c = refl
put_in true false c = refl
put_in false true c = refl
put_in false false c = refl

called : (d r : Bool) → ((not (d && r) && d) || (not (not d && r) && r)) ≡ d
called true true = refl
called true false = refl
called false true = refl
called false false = refl

stored : (d r : Bool) → ((d && r) || (not (d && r) && d)) ≡ d
stored true true = refl
stored true false = refl
stored false true = refl
stored false false = refl

run_calls-append :
    (cs ds : List RegistrationCall) (known : String → Bool)
    → run_calls (cs ++ ds) known ≡ run_calls ds (run_calls cs known)
unfolding run_calls
run_calls-append [] ds known = refl
run_calls-append (c ∷ cs) ds known = run_calls-append cs ds (run_call c known)

run_calls-unregisters :
    (ks : List String) (known : String → Bool) (k : String)
    → run_calls (map (λ accel. unregisters accel) ks) known k ≡ (not (in_set k ks) && known k)
unfolding run_calls run_call
run_calls-unregisters [] known k = refl
run_calls-unregisters (j ∷ ks) known k =
    run_calls-unregisters ks (run_call (unregisters j) known) k
    ∙ left_out (j == k) (in_set k ks) (known k)

run_calls-registers :
    (ks : List String) (known : String → Bool) (k : String)
    → run_calls (map (λ accel. registers accel) ks) known k ≡ (in_set k ks || known k)
unfolding run_calls run_call
run_calls-registers [] known k = refl
run_calls-registers (j ∷ ks) known k =
    run_calls-registers ks (run_call (registers j) known) k
    ∙ put_in (j == k) (in_set k ks) (known k)

module _ {V : Type 0} where
  in_set-keys : (k : String) (m : Dict V) → in_set k (keys m) ≡ has k m
  unfolding lookup
  in_set-keys k [] = refl
  in_set-keys k ((j, v) ∷ m) = elim (Bool-cases (j == k)) [
    | inl e ↦ rw e refl
    | inr e ↦ rw e (in_set-keys k m)
  ]

  has-filter :
      (q : String → Bool) (k : String) (m : Dict V)
      → has k (filter (λ entry. q entry.0) m) ≡ (q k && has k m)
  unfolding lookup filter
  has-filter q k [] = sym (never (q k))
  has-filter q k ((j, v) ∷ m) = elim (Bool-cases (j == k)) [
    | inl e ↦
        let same = ap q ((eq_iff j k).0 e) in
        elim (Bool-cases (q j)) [
          | inl f ↦ rw (f, e, sym same ∙ f) refl
          | inr f ↦ rw (f, has-filter q k m, sym same ∙ f) refl
        ]
    | inr e ↦ elim (Bool-cases (q j)) [
      | inl f ↦ rw (f, e) (has-filter q k m)
      | inr f ↦ rw (f, e) (has-filter q k m)
    ]
  ]

  has-append : (k : String) (m n : Dict V) → has k (m ++ n) ≡ (has k m || has k n)
  unfolding lookup
  has-append k [] n = refl
  has-append k ((j, v) ∷ m) n = elim (Bool-cases (j == k)) [
    | inl e ↦ rw e refl
    | inr e ↦ rw e (has-append k m n)
  ]

-- Where the system knows just the accelerators that are kept as registered, and the calls succeed, it
-- knows just the desired ones behind them, and these are then kept as registered.
pub run_calls-sync :
    {H : Type 0} (desired registered : Dict (KeyboardShortcut H)) (known : String → Bool)
    → ((k : String) → known k ≡ has k registered)
    → (k : String)
    → (run_calls (sync desired registered).0 known k ≡ has k desired)
      × (has k (sync desired registered).1 ≡ has k desired)
unfolding sync
run_calls-sync desired registered known agrees k =
    let stale = filter (λ entry. not (has entry.0 desired)) registered in
    let remaining = filter (λ entry. has entry.0 desired) registered in
    let fresh = filter (λ entry. not (has entry.0 remaining)) desired in
    let stale_there = has-filter (λ j. not (has j desired)) k registered in
    let remaining_there = has-filter (λ j. has j desired) k registered in
    let fresh_there = has-filter (λ j. not (has j remaining)) k desired in
    (
      rw
          (
            run_calls-append (map (λ accel. unregisters accel) (keys stale))
                (map (λ accel. registers accel) (keys fresh)) known,
            run_calls-registers (keys fresh)
                (run_calls (map (λ accel. unregisters accel) (keys stale)) known) k,
            run_calls-unregisters (keys stale) known k,
            in_set-keys k stale,
            in_set-keys k fresh,
            fresh_there,
            stale_there,
            remaining_there,
            agrees k,
          )
          (called (has k desired) (has k registered)),
      rw (has-append k remaining fresh, fresh_there, remaining_there)
          (stored (has k desired) (has k registered)),
    )

module _ {H : Type 0} (is_mac : Bool) where
  -- The calls of `sync` in one state after the other, each with its focus and its shortcuts: what is kept
  -- as registered, and what the system knows.
  unfoldable pub run_syncs :
      List (Focus × List (KeyboardShortcut H))
      → Dict (KeyboardShortcut H) × (String → Bool)
      → Dict (KeyboardShortcut H) × (String → Bool)
  unfolding sync desired_accelerators run_calls
  run_syncs [] st = st
  run_syncs (now ∷ later) st =
      let called = sync (desired_accelerators is_mac now.0 now.1) st.0 in
      run_syncs later (called.1, run_calls called.0 st.1)

  run_syncs-agree :
      (states : List (Focus × List (KeyboardShortcut H)))
      (st : Dict (KeyboardShortcut H) × (String → Bool))
      → ((k : String) → st.1 k ≡ has k st.0)
      → (k : String) → (run_syncs states st).1 k ≡ has k (run_syncs states st).0
  unfolding run_syncs
  run_syncs-agree [] st agrees = agrees
  run_syncs-agree (now ∷ later) st agrees = run_syncs-agree later _ (λ k.
      let both = run_calls-sync (desired_accelerators is_mac now.0 now.1) st.0 st.1 agrees k in
      both.0 ∙ sym both.1)

  run_syncs-append :
      (earlier later : List (Focus × List (KeyboardShortcut H)))
      (st : Dict (KeyboardShortcut H) × (String → Bool))
      → run_syncs (earlier ++ later) st ≡ run_syncs later (run_syncs earlier st)
  unfolding run_syncs
  run_syncs-append [] later st = refl
  run_syncs-append (now ∷ earlier) later st = run_syncs-append earlier later _

  -- After a run of `sync` through any states, where nothing was registered before and the calls to the
  -- system succeed, the system knows an accelerator just when, in the last state, the first shortcut that
  -- has it and is not left to the menu of a Mac may run.
  pub run_syncs-known :
      (earlier : List (Focus × List (KeyboardShortcut H))) (focus : Focus)
      (shortcuts : List (KeyboardShortcut H)) (accel : String)
      → (run_syncs (earlier ++ ((focus, shortcuts) ∷ [])) ([], λ k. false)).1 accel
        ≡ is_some (kept (may_run focus) (find (takes is_mac accel) shortcuts))
  unfolding run_syncs lookup
  run_syncs-known earlier focus shortcuts accel =
      let before = run_syncs earlier ([], λ k. false) in
      let agrees = run_syncs-agree earlier ([], λ k. false) (λ k. refl) in
      ap (λ st. st.1 accel) (run_syncs-append earlier ((focus, shortcuts) ∷ []) ([], λ k. false))
      ∙ (run_calls-sync (desired_accelerators is_mac focus shortcuts) before.0 before.1 agrees
          accel).0
      ∙ ap is_some (lookup-desired_accelerators is_mac focus shortcuts accel)
