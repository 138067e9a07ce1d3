-- ===== src/Terminal/Store/Owners.antt =====
-- `tabToGroupMap` as `dedupeDuplicateTabs` rebuilds it.
use r_shell.Prelude.{
  Bool, Bool-cases, List, Option, String, [], ap, arith, count, count-append, false, if◌then◌else◌,
  inl, inr, ltb, refl, some, true, ℕ, ◌+◌, ◌==◌, ◌∙◌, ◌∷◌, ◌≡◌, ◌≤◌,
}
use r_shell.Dict.{Dict, insert, lookup}
use r_shell.Dict.Keys.{IsObject, count_key, count_key-eq_zero}
use r_shell.Dict.Lookup.{lookup-insert}
use r_shell.Terminal.Invariant.{held_in}
use r_shell.Terminal.State.{owner, tabs_of}
use r_shell.Terminal.Store.{own_groups, own_tabs}
use r_shell.Terminal.Store.Unique.{all_ids}
use r_shell.Terminal.Tabs.{tab_ids}
use r_shell.Terminal.Types.{TerminalGroup, TerminalTab}

lookup-own_tabs :
    (t k : String) (ts : List TerminalTab) (owners : Dict String)
    → lookup t (own_tabs k ts owners)
      ≡ (if ltb 0 (count t (tab_ids ts)) then some k else lookup t owners)
unfolding own_tabs
lookup-own_tabs t k [] owners = refl
lookup-own_tabs t k (a ∷ ts) owners =
    lookup-own_tabs t k ts (insert a.id k owners) ∙ ground (arith, lookup-insert a.id t k owners)

pub tabs_of-cons :
    (g k : String) (group : TerminalGroup) (gs : Dict TerminalGroup)
    → tabs_of g ((k, group) ∷ gs) ≡ (if k == g then group.tabs else tabs_of g gs)
unfolding lookup
tabs_of-cons g k group gs = elim (Bool-cases (k == g)) [
  | inl e ↦ rw (tabs_of, e) refl
  | inr e ↦ rw (tabs_of, e) refl
]

-- A group that is not there has no tabs.
pub tabs_of-absent : (g : String) (gs : Dict TerminalGroup) → count_key g gs ≡ 0 → tabs_of g gs ≡ []
tabs_of-absent g gs h = rw (tabs_of, count_key-eq_zero g gs h) refl

-- No group holds an id more often than all groups do.
pub count-tabs_of-le :
    (g t : String) (gs : Dict TerminalGroup)
    → count t (tab_ids (tabs_of g gs)) ≤ count t (all_ids gs)
unfolding lookup
count-tabs_of-le g t [] = omega arith
count-tabs_of-le g t ((k, group) ∷ gs) =
    rw (tabs_of-cons g k group gs)
      (ground (arith, count-append t (tab_ids group.tabs) (all_ids gs), count-tabs_of-le g t gs))

-- What the group `g` holds of `t` after a group `k` with `a` of `t`, `b` being in the groups behind.
held_step :
    (g k : String) (a b inner : ℕ) (owner : Option String)
    → a + b ≤ 1
    → inner ≤ b
    → ((k == g) ≡ true → inner ≡ 0)
    → (if ltb 0 b then inner else held_in g (if ltb 0 a then some k else owner))
      ≡ (if ltb 0 (a + b) then (if k == g then a else inner) else held_in g owner)
held_step g k a b inner owner h le alone = ground arith

count-either :
    (t : String) (b : Bool) (xs ys : List TerminalTab)
    → count t (tab_ids (if b then xs else ys))
      ≡ (if b then count t (tab_ids xs) else count t (tab_ids ys))
count-either t true xs ys = refl
count-either t false xs ys = refl

pub held-own_groups :
    (g t : String) (gs : Dict TerminalGroup) (owners : Dict String)
    → IsObject gs
    → count t (all_ids gs) ≤ 1
    → held_in g (lookup t (own_groups gs owners)) ≡ (
        if ltb 0 (count t (all_ids gs))
        then count t (tab_ids (tabs_of g gs))
        else held_in g (lookup t owners))
unfolding own_groups
held-own_groups g t [] owners o h = refl
held-own_groups g t ((k, group) ∷ gs) owners o h =
    let split = count-append t (tab_ids group.tabs) (all_ids gs) in
    let ih =
      held-own_groups g t gs (own_tabs k group.tabs owners) (λ j. ground (arith, o j))
        (omega (arith, h, split)) in
    let owned = lookup-own_tabs t k group.tabs owners in
    let inside = tabs_of-cons g k group gs in
    let either = count-either t (k == g) group.tabs (tabs_of g gs) in
    let step =
      held_step g k (count t (tab_ids group.tabs)) (count t (all_ids gs))
        (count t (tab_ids (tabs_of g gs))) (lookup t owners) (omega (arith, h, split))
        (count-tabs_of-le g t gs)
        (λ same. ap (λ ts. count t (tab_ids ts)) (tabs_of-absent g gs (ground (arith, o g)))) in
    cc
