-- ===== src/Shortcuts/Owners.antt =====
-- Which shortcut of src/lib/keyboard-shortcuts.ts gets an accelerator, and when it is registered.
use mathlib.Core.Option.{none-ne-some}
use r_shell.Prelude.{
  Bool, Bool-cases, List, Option, Option-cases, String, [], ap, eq_iff, false, filter, find,
  if◌then◌else◌, inl, inr, none, not, or_else, refl, some, subst, sym, true, ◌&&◌, ◌++◌, ◌==◌, ◌∙◌,
  ◌∷◌, ◌≡◌,
}
use r_shell.Dict.{Dict, lookup}
use r_shell.Shortcuts.Engine.{
  Focus, FocusContext, KeyboardShortcut, accelerator_for_shortcut, desired_accelerators,
  is_left_to_menu, on_app, on_editable, on_terminal, set_accelerator, set_accelerators,
}

or_first {ℓ} : {A : Type ℓ} → Option A → Option A → Option A
or_first none second = second
or_first (some a) second = some a

unfoldable pub kept {ℓ} : {A : Type ℓ} → (A → Bool) → Option A → Option A
kept p none = none
kept p (some a) = if p a then some a else none

kept-none {ℓ} : {A : Type ℓ} (o : Option A) → kept (λ a. false) o ≡ none
unfolding kept
kept-none none = refl
kept-none (some a) = refl

kept-always {ℓ} : {A : Type ℓ} (o : Option A) → kept (λ a. true) o ≡ o
unfolding kept
kept-always none = refl
kept-always (some a) = refl

or_first-none {ℓ} : {A : Type ℓ} (o : Option A) → or_first o none ≡ o
unfolding or_first
or_first-none none = refl
or_first-none (some a) = refl

filter-append {ℓ} :
    {A : Type ℓ} (p : A → Bool) (xs ys : List A) → filter p (xs ++ ys) ≡ filter p xs ++ filter p ys
unfolding filter
filter-append p [] ys = refl
filter-append p (x ∷ xs) ys = elim (Bool-cases (p x)) [
  | inl e ↦ rw e (ap (λ zs. x ∷ zs) (filter-append p xs ys))
  | inr e ↦ rw e (filter-append p xs ys)
]

module _ {ℓ} {V : Type ℓ} where
  lookup-append :
      (k : String) (m n : Dict V) → lookup k (m ++ n) ≡ or_first (lookup k m) (lookup k n)
  unfolding lookup or_first
  lookup-append k [] n = refl
  lookup-append k ((j, v) ∷ m) n = elim (Bool-cases (j == k)) [
    | inl e ↦ rw e refl
    | inr e ↦ rw e (lookup-append k m n)
  ]

  -- Filtering the entries of a map filters what it gives.
  IsFaithful : (V → Bool) → Dict V → Type ℓ
  IsFaithful p m = (k : String) → lookup k (filter (λ entry. p entry.1) m) ≡ kept p (lookup k m)

  kept-or_first :
      (p : V → Bool) (o : Option V) (k j : String) (v : V)
      → ((j == k) ≡ true → o ≡ none)
      → or_first (kept p o) (lookup k (if p v then (j, v) ∷ [] else []))
        ≡ kept p (or_first o (lookup k ((j, v) ∷ [])))
  unfolding lookup kept or_first
  kept-or_first p none k j v free = elim (Bool-cases (p v)) [
    | inl e ↦ elim (Bool-cases (j == k)) [
      | inl same ↦ rw (e, same) (rw e refl)
      | inr other ↦ rw (e, other) refl
    ]
    | inr e ↦ elim (Bool-cases (j == k)) [
      | inl same ↦ rw (e, same) (rw e refl)
      | inr other ↦ rw (e, other) refl
    ]
  ]
  kept-or_first p (some a) k j v free = elim (Bool-cases (p a)) [
    | inl e ↦ rw e refl
    | inr e ↦ elim (Bool-cases (j == k)) [
      | inl same ↦ absurd (none-ne-some a (sym (free same)))
      | inr other ↦ elim (Bool-cases (p v)) [
        | inl f ↦ rw (e, f, other) refl
        | inr f ↦ rw (e, f) refl
      ]
    ]
  ]

  added-IsFaithful :
      (p : V → Bool) (m : Dict V) (j : String) (v : V)
      → lookup j m ≡ none
      → IsFaithful p m
      → IsFaithful p (m ++ ((j, v) ∷ []))
  unfolding IsFaithful lookup kept or_first filter
  added-IsFaithful p m j v free faithful k =
      rw
        (
          filter-append (λ entry. p entry.1) m ((j, v) ∷ []),
          lookup-append k (filter (λ entry. p entry.1) m)
              (filter (λ entry. p entry.1) ((j, v) ∷ [])),
          lookup-append k m ((j, v) ∷ []),
          faithful k,
        )
        (kept-or_first p (lookup k m) k j v
          (λ e. subst (λ i. lookup i m ≡ none) ((eq_iff j k).0 e) free))

-- What may run while the focus is so.
unfoldable pub may_run : {H : Type 0} → Focus → KeyboardShortcut H → Bool
may_run focus s =
    if focus.app_focused
    then elim focus.context [
      | on_editable ↦ false
      | on_terminal ↦ not (or_else s.ignore_in_terminal false)
      | on_app ↦ true
    ]
    else not focus.sibling_window_focused && or_else s.global_in_background false

module _ {H : Type 0} (is_mac : Bool) where
  takes_with : String → KeyboardShortcut H → Option String → Bool
  takes_with accel s none = false
  takes_with accel s (some own) = own == accel && not (is_mac && is_left_to_menu own s)

  -- The shortcut has the accelerator, and the menu does not take it.
  unfoldable pub takes : String → KeyboardShortcut H → Bool
  unfolding takes_with
  takes accel s = takes_with accel s (accelerator_for_shortcut s)

  lookup-set_accelerator :
      (k : String) (s : KeyboardShortcut H) (o : Option String) (m : Dict (KeyboardShortcut H))
      → lookup k (set_accelerator is_mac s o m)
        ≡ or_first (lookup k m) (if takes_with k s o then some s else none)
  unfolding set_accelerator takes_with lookup or_first
  lookup-set_accelerator k s none m = sym (or_first-none (lookup k m))
  lookup-set_accelerator k s (some own) m = elim (Bool-cases (is_mac && is_left_to_menu own s)) [
    | inl mine ↦ elim (Bool-cases (own == k)) [
      | inl e ↦ rw (mine, e) (sym (or_first-none (lookup k m)))
      | inr e ↦ rw (mine, e) (sym (or_first-none (lookup k m)))
    ]
    | inr free ↦ elim (Option-cases (lookup own m)) [
      | inl unowned ↦
          rw (free, unowned, lookup-append k m ((own, s) ∷ []))
            (elim (Bool-cases (own == k)) [ inl e ↦ rw e refl | inr e ↦ rw e refl ])
      | inr owned ↦ elim (Bool-cases (own == k)) [
        | inl e ↦
            let here = subst (λ i. lookup i m ≡ some owned.0) ((eq_iff own k).0 e) owned.1 in
            rw (free, owned.1, e, here) refl
        | inr e ↦ rw (free, owned.1, e) (sym (or_first-none (lookup k m)))
      ]
    ]
  ]

  or_first-if :
      (o second : Option (KeyboardShortcut H)) (test : Bool) (s : KeyboardShortcut H)
      → or_first (or_first o (if test then some s else none)) second
        ≡ or_first o (if test then some s else second)
  unfolding or_first
  or_first-if none second true s = refl
  or_first-if none second false s = refl
  or_first-if (some a) second test s = refl

  lookup-set_accelerators :
      (k : String) (ss : List (KeyboardShortcut H)) (m : Dict (KeyboardShortcut H))
      → lookup k (set_accelerators is_mac ss m) ≡ or_first (lookup k m) (find (takes k) ss)
  unfolding set_accelerators find takes
  lookup-set_accelerators k [] m = sym (or_first-none (lookup k m))
  lookup-set_accelerators k (s ∷ ss) m =
      lookup-set_accelerators k ss _
      ∙ ap (λ o. or_first o (find (takes k) ss))
          (lookup-set_accelerator k s (accelerator_for_shortcut s) m)
      ∙ or_first-if (lookup k m) (find (takes k) ss) (takes k s) s

  set_accelerator-IsFaithful :
      (p : KeyboardShortcut H → Bool) (s : KeyboardShortcut H) (o : Option String)
      (m : Dict (KeyboardShortcut H))
      → IsFaithful p m
      → IsFaithful p (set_accelerator is_mac s o m)
  unfolding set_accelerator
  set_accelerator-IsFaithful p s none m h = h
  set_accelerator-IsFaithful p s (some accel) m h =
      elim (Bool-cases (is_mac && is_left_to_menu accel s)) [
        | inl mine ↦ rw mine h
        | inr free ↦ elim (Option-cases (lookup accel m)) [
          | inl e ↦ rw (free, e) (added-IsFaithful p m accel s e h)
          | inr e ↦ rw (free, e.1) h
        ]
      ]

  set_accelerators-IsFaithful :
      (p : KeyboardShortcut H → Bool) (ss : List (KeyboardShortcut H))
      (m : Dict (KeyboardShortcut H))
      → IsFaithful p m
      → IsFaithful p (set_accelerators is_mac ss m)
  unfolding set_accelerators
  set_accelerators-IsFaithful p [] m h = h
  set_accelerators-IsFaithful p (s ∷ ss) m h =
      set_accelerators-IsFaithful p ss _
        (set_accelerator-IsFaithful p s (accelerator_for_shortcut s) m h)

  lookup-kept :
      (p : KeyboardShortcut H → Bool) (ss : List (KeyboardShortcut H)) (k : String)
      → lookup k (filter (λ entry. p entry.1) (set_accelerators is_mac ss []))
        ≡ kept p (find (takes k) ss)
  unfolding IsFaithful lookup kept filter or_first
  lookup-kept p ss k =
      set_accelerators-IsFaithful p ss [] (λ j. refl) k
      ∙ ap (kept p) (lookup-set_accelerators k ss [])

  desired_at :
      (app sibling : Bool) (context : FocusContext) (ss : List (KeyboardShortcut H))
      (accel : String)
      → let focus : Focus = record {
        app_focused = app;
        sibling_window_focused = sibling;
        context = context;
      } in
        lookup accel (desired_accelerators is_mac focus ss)
        ≡ kept (may_run focus) (find (takes accel) ss)
  unfolding desired_accelerators may_run lookup or_first find kept
  desired_at false true context ss accel = sym (kept-none (find (takes accel) ss))
  desired_at false false context ss accel =
      lookup-kept (λ s. or_else s.global_in_background false) ss accel
  desired_at true sibling on_editable ss accel = sym (kept-none (find (takes accel) ss))
  desired_at true sibling on_terminal ss accel =
      lookup-kept (λ s. not (or_else s.ignore_in_terminal false)) ss accel
  desired_at true sibling on_app ss accel =
      lookup-set_accelerators accel ss [] ∙ sym (kept-always (find (takes accel) ss))

  -- In any state of focus, what is to be registered for an accelerator is the first shortcut that has it
  -- and is not left to the menu of a Mac, where this one may run: in a terminal unless it is ignored
  -- there, in no editable element, in a window without focus only as a background shortcut while no
  -- sibling has the focus. Where it may not, nothing is registered for the accelerator.
  pub lookup-desired_accelerators :
      (focus : Focus) (ss : List (KeyboardShortcut H)) (accel : String)
      → lookup accel (desired_accelerators is_mac focus ss)
        ≡ kept (may_run focus) (find (takes accel) ss)
  lookup-desired_accelerators focus ss accel =
      desired_at focus.app_focused focus.sibling_window_focused focus.context ss accel
