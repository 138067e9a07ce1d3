-- ===== src/Terminal/Store/Heal.antt =====
-- A stored layout after `dedupeDuplicateTabs`.
use r_shell.Prelude.{
  Bool-cases, List, Option, String, [], arith, count, false, if◌then◌else◌, inl, inr, is_some, none,
  refl, show, some, some_inj, subst, sym, true, ℕ, ◌==◌, ◌∙◌, ◌∷◌, ◌≡◌, ◌≤◌,
}
use r_shell.Dict.{Dict, has, lookup}
use r_shell.Dict.Keys.{IsObject, count_key}
use r_shell.Terminal.Grid.{collect_leaf_ids}
use r_shell.Terminal.Invariant.{IsGroup, IsValid, held_in}
use r_shell.Terminal.State.{tabs_of}
use r_shell.Terminal.Store.{
  StoredState, active_or_first, dedupe_groups, is_seen, own_groups, seen_after, unseen_tabs,
  with_tabs,
}
use r_shell.Terminal.Store.Owners.{count-tabs_of-le, held-own_groups}
use r_shell.Terminal.Store.Unique.{count-dedupe_groups}
use r_shell.Terminal.Tabs.{has_tab, tab_ids}
use r_shell.Terminal.Tabs.Count.{IsActive, count_tab-has_tab, head?-IsActive}
use r_shell.Terminal.Types.{TerminalGroup, TerminalGroupState, TerminalTab}

-- What the stored text must keep for its groups, whatever its tabs are.
pub record IsFramed {N : Type 0} (s : StoredState N) : Type 0 where
  pub object : IsObject s.groups
  pub key : (g : String) (group : TerminalGroup) → lookup g s.groups ≡ some group → group.id ≡ g
  pub leaves :
      (g : String) → count g (collect_leaf_ids s.grid_layout) ≡ (if has g s.groups then 1 else 0)
  pub active : has s.active_group_id s.groups ≡ true
  pub fresh : (n : ℕ) → s.next_group_id ≤ n → has (show n) s.groups ≡ false

active_or_first-IsActive :
    (active : Option String) (ts : List TerminalTab) → IsActive (active_or_first active ts) ts
unfolding active_or_first
active_or_first-IsActive none ts = head?-IsActive ts
active_or_first-IsActive (some id) ts = elim (Bool-cases (has_tab id ts)) [
  | inl e ↦ rw e (ground (arith, count_tab-has_tab id ts))
  | inr e ↦ rw e (head?-IsActive ts)
]

-- A group of the healed layout comes from one of the stored layout.
abbrev Healed : Option TerminalGroup → Option TerminalGroup → Type 0
Healed none new = new ≡ none
Healed (some old) new = (ts : List TerminalTab) × (new ≡ some (with_tabs ts old))

lookup-dedupe_groups :
    (g : String) (met : List String) (gs : Dict TerminalGroup)
    → Healed (lookup g gs) (lookup g (dedupe_groups met gs))
unfolding lookup dedupe_groups
lookup-dedupe_groups g met [] = refl
lookup-dedupe_groups g met ((k, group) ∷ gs) = elim (Bool-cases (k == g)) [
  | inl e ↦ rw e (unseen_tabs met group.tabs, refl)
  | inr e ↦ rw e (lookup-dedupe_groups g (seen_after met group.tabs) gs)
]

count_key-dedupe_groups :
    (g : String) (met : List String) (gs : Dict TerminalGroup)
    → count_key g (dedupe_groups met gs) ≡ count_key g gs
unfolding dedupe_groups
count_key-dedupe_groups g met [] = refl
count_key-dedupe_groups g met ((k, group) ∷ gs) =
    ground (arith, count_key-dedupe_groups g (seen_after met group.tabs) gs)

has-Healed : (old new : Option TerminalGroup) → Healed old new → is_some new ≡ is_some old
has-Healed none new h = rw h refl
has-Healed (some group) new (ts, e) = rw e refl

IsGroup-Healed :
    (g : String) (group : TerminalGroup) (old new : Option TerminalGroup)
    → Healed old new
    → ((was : TerminalGroup) → old ≡ some was → was.id ≡ g)
    → new ≡ some group
    → IsGroup g group
unfolding with_tabs
IsGroup-Healed g group none new h key e = cc
IsGroup-Healed g group (some was) new (ts, e') key e =
    subst (IsGroup g) (some_inj (sym e' ∙ e))
      (record { key = key was refl; active = active_or_first-IsActive was.active_tab_id ts })

-- The layout that the application starts with: the stored one with its map of owners.
abbrev pub as_layout : {N : Type 0} → StoredState N → Dict String → TerminalGroupState N
as_layout s owners = record {
  groups = s.groups;
  active_group_id = s.active_group_id;
  grid_layout = s.grid_layout;
  next_group_id = s.next_group_id;
  tab_to_group_map = owners;
}

has-dedupe_groups : (g : String) (gs : Dict TerminalGroup) → has g (dedupe_groups [] gs) ≡ has g gs
has-dedupe_groups g gs = has-Healed (lookup g gs) _ (lookup-dedupe_groups g [] gs)

healed-held :
    (gs : Dict TerminalGroup)
    → IsObject (dedupe_groups [] gs)
    → (g t : String)
    → count t (tab_ids (tabs_of g (dedupe_groups [] gs)))
      ≡ held_in g (lookup t (own_groups (dedupe_groups [] gs) []))
unfolding is_seen lookup
healed-held gs once_each g t =
    let le = count-tabs_of-le g t (dedupe_groups [] gs) in
    let all = count-dedupe_groups t [] gs in
    let owned = held-own_groups g t (dedupe_groups [] gs) [] once_each (ground (arith, all)) in
    ground (arith, owned, le)

module _ {N : Type 0} {s : StoredState N} (framed : IsFramed s) where
  IsObject-healed : IsObject (dedupe_groups [] s.groups)
  IsObject-healed k = rw (count_key-dedupe_groups k [] s.groups) (framed.object k)

  pub healed-IsValid : IsValid (
      as_layout
        (record s { groups = dedupe_groups [] s.groups })
        (own_groups (dedupe_groups [] s.groups) []))
  healed-IsValid = record {
    object = IsObject-healed;
    group_ok = λ g group e.
        IsGroup-Healed g group (lookup g s.groups) _ (lookup-dedupe_groups g [] s.groups)
          (framed.key g) e;
    held = healed-held s.groups IsObject-healed;
    leaves = λ g. rw (has-dedupe_groups g s.groups) (framed.leaves g);
    active = rw (has-dedupe_groups s.active_group_id s.groups) framed.active;
    fresh = λ n h. rw (has-dedupe_groups (show n) s.groups) (framed.fresh n h);
  }
