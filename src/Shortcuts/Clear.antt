-- ===== src/Shortcuts/Clear.antt =====
-- When src/lib/shortcut-registry.ts reports no conflict.
use r_shell.Prelude.{
  Bool, Bool-cases, List, Option, Option-cases, String, [], any, arith, count, eq_iff, eq_refl,
  false, impossible, inl, inr, is_some, neither, none, refl, some, subst, sym, true, ◌&&◌, ◌++◌,
  ◌==◌, ◌||◌, ◌↔◌, ◌∙◌, ◌∷◌, ◌≡◌, ◌≤◌,
}
use r_shell.Dict.{Dict, lookup}
use r_shell.Shortcuts.Chords.{parse_keyboard_shortcut}
use r_shell.Shortcuts.Conflicts.{
  ShortcutConflict, canonical_chord, shortcut_conflict, conflicts_from, conflicts_of, duplicate,
  find_conflicts, is_menu_owned, is_reserved_chord, mac_owned_form, menu_owned, push_if, reserved,
}
use r_shell.Shortcuts.Registry.{
  ShortcutBindings, ShortcutCommandId, ShortcutDefinition, ShortcutOverrides,
  resolve_shortcut_bindings, shortcut_definitions,
}
use r_shell.Terminal.Store.Unique.{once}

with_chord : Option String → List String → List String
with_chord none cs = cs
with_chord (some c) cs = c ∷ cs

-- The canonical chords of the commands whose bindings parse.
unfoldable pub chords : ShortcutBindings → List ShortcutDefinition → List String
unfolding with_chord
chords effective [] = []
chords effective (d ∷ ds) = with_chord (canonical_chord (effective d.command)) (chords effective ds)

-- The command's chord is reserved, or the menu's on a Mac.
unfoldable pub is_forbidden : ShortcutBindings → Bool → ShortcutDefinition → Bool
is_forbidden effective is_mac d =
    is_reserved_chord (effective d.command)
    || (is_mac && is_menu_owned (effective d.command) d.default_chord)

-- No two commands have the same chord, and none has a forbidden one.
unfoldable pub IsClear : ShortcutBindings → Bool → List ShortcutDefinition → Type 0
unfolding chords is_forbidden any
IsClear effective is_mac ds =
    ((x : String) → count x (chords effective ds) ≤ 1)
    × (any (is_forbidden effective is_mac) ds ≡ false)

unread_is_allowed :
    (effective : ShortcutBindings) (is_mac : Bool) (d : ShortcutDefinition)
    → canonical_chord (effective d.command) ≡ none
    → is_forbidden effective is_mac d ≡ false
unfolding is_forbidden canonical_chord is_reserved_chord is_menu_owned mac_owned_form
unread_is_allowed effective is_mac d h =
    elim (Option-cases (parse_keyboard_shortcut (effective d.command))) [
      | inl e ↦ ground (arith, e)
      | inr e ↦ cc
    ]

append_empty {ℓ} : {A : Type ℓ} (xs ys : List A) → xs ++ ys ≡ [] → (xs ≡ []) × (ys ≡ [])
append_empty [] ys h = (refl, h)
append_empty (x ∷ xs) ys h = cc

none_of : {a b : Bool} → a ≡ false → b ≡ false → (a || b) ≡ false
none_of h k = cc

push_ifs_empty :
    (r t m : Bool) (p q s : ShortcutConflict)
    → (push_if r p ++ push_if t q ++ push_if m s ≡ []) ↔ ((t ≡ false) × ((r || m) ≡ false))
unfolding push_if
push_ifs_empty false false false p q s = (λ h. (refl, refl), λ h. refl)
push_ifs_empty true t m p q s = (λ h. cc, λ h. cc)
push_ifs_empty false true m p q s = (λ h. cc, λ h. cc)
push_ifs_empty false false true p q s = (λ h. cc, λ h. cc)

conflicts_of_empty :
    (is_mac : Bool) (owners : Dict ShortcutCommandId) (effective : ShortcutBindings)
    (d : ShortcutDefinition) (c : String)
    → (conflicts_of is_mac owners d (effective d.command) (some c) ≡ [])
      ↔ ((is_some (lookup c owners) ≡ false) × (is_forbidden effective is_mac d ≡ false))
unfolding conflicts_of is_forbidden push_if shortcut_conflict
conflicts_of_empty is_mac owners effective d c =
    let chord = effective d.command in
    push_ifs_empty (is_reserved_chord chord) (is_some (lookup c owners))
      (is_mac && is_menu_owned chord d.default_chord)
      (shortcut_conflict reserved d.command chord none)
      (shortcut_conflict duplicate d.command chord (lookup c owners))
      (shortcut_conflict menu_owned d.command chord none)

-- What holds of the chord x behind a chord c, where c gets an owner, and what holds of it from c on.
module _ (x c : String) (id : ShortcutCommandId) (owners : Dict ShortcutCommandId)
    (cs : List String) where
  before_owned :
      is_some (lookup c owners) ≡ false
      → count x cs ≤ 1
      → (is_some (lookup x ((c, id) ∷ owners)) ≡ true → count x cs ≡ 0)
      → (count x (c ∷ cs) ≤ 1) × (is_some (lookup x owners) ≡ true → count x (c ∷ cs) ≡ 0)
  unfolding lookup
  before_owned free once owned = elim (Bool-cases (c == x)) [
    | inl e ↦
        let none_left : count x cs ≡ 0 = owned (rw (lookup, e) refl) in
        (
          rw e (omega arith),
          λ h.
              impossible
                (sym (subst (λ y. is_some (lookup y owners) ≡ false) ((eq_iff c x).0 e) free) ∙ h),
        )
    | inr e ↦
        rw e
          (omega (arith, once), λ h. let absent = owned (rw (lookup, e) h) in omega (arith, absent))
  ]

  behind_owned :
      count x (c ∷ cs) ≤ 1
      → (is_some (lookup x owners) ≡ true → count x (c ∷ cs) ≡ 0)
      → (count x cs ≤ 1) × (is_some (lookup x ((c, id) ∷ owners)) ≡ true → count x cs ≡ 0)
  unfolding lookup
  behind_owned once owned = elim (Bool-cases (c == x)) [
    | inl e ↦ (
      let bound = rw e at once in omega (arith, bound),
      λ h. let bound = rw e at once in omega (arith, bound),
    )
    | inr e ↦ (
      let bound = rw e at once in omega (arith, bound),
      λ h. let absent = rw e at (owned (rw e at h)) in omega (arith, absent),
    )
  ]

free_chord :
    (c : String) (owners : Dict ShortcutCommandId) (cs : List String)
    → (is_some (lookup c owners) ≡ true → count c (c ∷ cs) ≡ 0)
    → is_some (lookup c owners) ≡ false
free_chord c owners cs unowned = elim (Bool-cases (is_some (lookup c owners))) [
  | inl e ↦
      let absent = unowned e in
      let none_here = rw (eq_refl c) at absent in absurd (omega (arith, none_here))
  | inr e ↦ e
]

module _ (effective : ShortcutBindings) (is_mac : Bool) where
  -- What no conflict tells of a chord, where the owners have their chords already.
  conflicts_from_empty :
      (owners : Dict ShortcutCommandId) (ds : List ShortcutDefinition) (x : String)
      → conflicts_from effective is_mac owners ds ≡ []
      → (count x (chords effective ds) ≤ 1)
        × ((is_some (lookup x owners) ≡ true → count x (chords effective ds) ≡ 0)
            × (any (is_forbidden effective is_mac) ds ≡ false))
  unfolding conflicts_from chords any
  conflicts_from_empty owners [] x h = (omega arith, (λ e. refl, refl))
  conflicts_from_empty owners (d ∷ ds) x h =
      elim (Option-cases (canonical_chord (effective d.command))) [
        | inl e ↦
            let rest = conflicts_from_empty owners ds x (rw (conflicts_from, e) at h) in
            rw e (rest.0, (rest.1.0, none_of (unread_is_allowed effective is_mac d e) rest.1.1))
        | inr e ↦
            let parts = append_empty _ _ (rw (conflicts_from, e.1) at h) in
            let own = (conflicts_of_empty is_mac owners effective d e.0).0 parts.0 in
            let rest =
              conflicts_from_empty ((e.0, d.command) ∷ owners) ds x (rw (own.0) at parts.1) in
            let here =
              before_owned x e.0 d.command owners (chords effective ds) own.0 rest.0 rest.1.0 in
            rw (e.1) (here.0, (here.1, none_of own.1 rest.1.1))
      ]

  conflicts_from_clear :
      (owners : Dict ShortcutCommandId) (ds : List ShortcutDefinition)
      → ((x : String) → count x (chords effective ds) ≤ 1)
      → ((x : String) → is_some (lookup x owners) ≡ true → count x (chords effective ds) ≡ 0)
      → any (is_forbidden effective is_mac) ds ≡ false
      → conflicts_from effective is_mac owners ds ≡ []
  unfolding conflicts_from chords any
  conflicts_from_clear owners [] once unowned allowed = refl
  conflicts_from_clear owners (d ∷ ds) once unowned allowed =
      elim (Option-cases (canonical_chord (effective d.command))) [
        | inl e ↦ rw e (
            conflicts_from_clear owners ds (λ x. rw (chords, e) at (once x))
              (λ x owned. rw (chords, e) at (unowned x owned)) (neither _ _ allowed).1)
        | inr e ↦
            let cs = chords effective ds in
            let once_here : ((x : String) → count x (e.0 ∷ cs) ≤ 1) =
              λ x. rw (chords, e.1) at (once x) in
            let absent : ((x : String)
                → is_some (lookup x owners) ≡ true
                → count x (e.0 ∷ cs) ≡ 0) =
              λ x owned. rw (chords, e.1) at (unowned x owned) in
            let free = free_chord e.0 owners cs (absent e.0) in
            let forbidden = neither (is_forbidden effective is_mac d) _ allowed in
            let behind : ((x : String)
                → (count x cs ≤ 1)
                  × (is_some (lookup x ((e.0, d.command) ∷ owners)) ≡ true → count x cs ≡ 0)) =
              λ x. behind_owned x e.0 d.command owners cs (once_here x) (absent x) in
            let rest =
              conflicts_from_clear ((e.0, d.command) ∷ owners) ds (λ x. (behind x).0)
                (λ x. (behind x).1) forbidden.1 in
            rw (e.1, (conflicts_of_empty is_mac owners effective d e.0).1 (free, forbidden.0), free)
              rest
      ]

-- The analysis reports no conflict just when, among the bindings that parse, no two have the same
-- canonical chord, and no binding is a reserved chord or, on a Mac, a chord of the menu's which is
-- neither handled in the window nor the chord of the command's default.
pub find_conflicts-IsClear :
    (overrides : ShortcutOverrides) (is_mac : Bool)
    → (find_conflicts overrides is_mac ≡ [])
      ↔ IsClear (resolve_shortcut_bindings overrides) is_mac shortcut_definitions
unfolding find_conflicts IsClear lookup
find_conflicts-IsClear overrides is_mac =
    let effective = resolve_shortcut_bindings overrides in
    (
      λ h. (
        λ x. (conflicts_from_empty effective is_mac [] shortcut_definitions x h).0,
        (conflicts_from_empty effective is_mac [] shortcut_definitions "" h).1.1,
      ),
      λ h.
          conflicts_from_clear effective is_mac [] shortcut_definitions h.0 (λ x e. impossible e)
            h.1,
    )
