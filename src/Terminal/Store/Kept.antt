-- ===== src/Terminal/Store/Kept.antt =====
-- What `dedupeDuplicateTabs` leaves of tabs that have their ids to themselves.
use r_shell.Prelude.{
  Bool-cases, List, Option, String, [], ap, arith, count, count-append, eq_iff, eq_refl, false, inl,
  inr, none, refl, some, true, ℕ, ◌++◌, ◌+◌, ◌==◌, ◌∷◌, ◌≡◌, ◌≤◌,
}
use r_shell.Dict.{Dict, lookup}
use r_shell.Dict.Keys.{IsObject, count_key}
use r_shell.Terminal.Invariant.{IsValid, held_in}
use r_shell.Terminal.State.{owner, tabs_of}
use r_shell.Terminal.Store.{dedupe_groups, is_seen, seen_after, unseen_tabs, with_tabs}
use r_shell.Terminal.Store.Owners.{tabs_of-cons}
use r_shell.Terminal.Store.Unique.{all_ids, is_seen-after}
use r_shell.Terminal.Tabs.{tab_ids}
use r_shell.Terminal.Types.{TerminalGroup, TerminalGroupState, TerminalTab}

-- None of the ids is met, and none occurs twice.
abbrev pub IsFresh : List String → List String → Type 0
IsFresh met ids = (t : String) → count t ids ≤ 1 × ((is_seen t met) ≡ true → count t ids ≡ 0)

unseen_tabs-Fresh :
    (met : List String) (ts : List TerminalTab) → IsFresh met (tab_ids ts) → unseen_tabs met ts ≡ ts
unfolding is_seen unseen_tabs
unseen_tabs-Fresh met [] h = refl
unseen_tabs-Fresh met (a ∷ ts) h = elim (Bool-cases (is_seen a.id met)) [
  | inl e ↦ absurd (ground (arith, (h a.id).1 e, eq_refl a.id))
  | inr e ↦ rw e (
      ap (a ∷◌) (
        unseen_tabs-Fresh (a.id ∷ met) ts
          (λ t. (ground (arith, (h t).0), λ k. ground (arith, (h t).0, (h t).1)))))
]

seen_after-Fresh :
    (met : List String) (ts : List TerminalTab) (gs : Dict TerminalGroup)
    → IsFresh met (tab_ids ts ++ all_ids gs)
    → IsFresh (seen_after met ts) (all_ids gs)
seen_after-Fresh met ts gs h t = (
  omega (arith, (h t).0, count-append t (tab_ids ts) (all_ids gs)),
  λ k. ground (
    arith,
    (h t).0,
    (h t).1,
    count-append t (tab_ids ts) (all_ids gs),
    is_seen-after t met ts,
    k,
  ),
)

first_part :
    (met : List String) (ts : List TerminalTab) (gs : Dict TerminalGroup)
    → IsFresh met (tab_ids ts ++ all_ids gs)
    → IsFresh met (tab_ids ts)
first_part met ts gs h t =
    let split = count-append t (tab_ids ts) (all_ids gs) in
    (omega (arith, (h t).0, split), λ k. omega (arith, (h t).1 k, split))

-- Layouts whose tabs are all different keep them.
pub tabs_of-dedupe_groups :
    (g : String) (met : List String) (gs : Dict TerminalGroup)
    → IsFresh met (all_ids gs)
    → tabs_of g (dedupe_groups met gs) ≡ tabs_of g gs
unfolding dedupe_groups with_tabs lookup
tabs_of-dedupe_groups g met [] h = refl
tabs_of-dedupe_groups g met ((k, group) ∷ gs) h = elim (Bool-cases (k == g)) [
  | inl e ↦ rw (tabs_of, e) (unseen_tabs-Fresh met group.tabs (first_part met group.tabs gs h))
  | inr e ↦
      rw (tabs_of, e)
        (tabs_of-dedupe_groups g (seen_after met group.tabs) gs
          (seen_after-Fresh met group.tabs gs h))
]

abbrev owned : Option String → Dict TerminalGroup → ℕ
owned none gs = 0
owned (some g) gs = count_key g gs

owned-cons :
    (owner : Option String) (k : String) (group : TerminalGroup) (gs : Dict TerminalGroup)
    → owned owner ((k, group) ∷ gs) ≡ held_in k owner + owned owner gs
owned-cons none k group gs = omega arith
owned-cons (some g) k group gs = ground (arith, eq_iff k g, eq_iff g k)

-- Where each group holds of a tab what the owner says, all groups together hold it once at most.
count-all_ids :
    (t : String) (owner : Option String) (gs : Dict TerminalGroup)
    → IsObject gs
    → ((g : String) → 1 ≤ count_key g gs → count t (tab_ids (tabs_of g gs)) ≡ held_in g owner)
    → count t (all_ids gs) ≡ owned owner gs
count-all_ids t none [] o h = refl
count-all_ids t (some g) [] o h = refl
count-all_ids t owner ((k, group) ∷ gs) o h =
    let here : count t (tab_ids group.tabs) ≡ held_in k owner =
      rw (tabs_of-cons k k group gs, eq_refl k) at (h k (ground (arith, eq_refl k))) in
    let later =
      count-all_ids t owner gs (λ j. ground (arith, o j))
        (λ j there.
          rw (tabs_of-cons j k group gs, other j there) at (h j (ground (arith, there)))) in
    omega (
      arith,
      here,
      later,
      count-append t (tab_ids group.tabs) (all_ids gs),
      owned-cons owner k group gs,
    )
  where
    other : (j : String) → 1 ≤ count_key j gs → (k == j) ≡ false
    other j there = ground (arith, o j, there)

owned-le : (owner : Option String) (gs : Dict TerminalGroup) → IsObject gs → owned owner gs ≤ 1
owned-le none gs o = omega arith
owned-le (some g) gs o = o g

pub all_ids-IsFresh :
    {N : Type 0} {s : TerminalGroupState N} → IsValid s → IsFresh [] (all_ids s.groups)
unfolding is_seen
all_ids-IsFresh {s = s} v t =
    let owner = lookup t s.tab_to_group_map in
    (
      omega (
        arith,
        count-all_ids t owner s.groups v.object (λ g there. v.held g t),
        owned-le owner s.groups v.object,
      ),
      λ k. cc,
    )
