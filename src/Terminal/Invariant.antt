-- ===== src/Terminal/Invariant.antt =====
-- What a layout of the terminal area keeps between actions (src/lib/terminal-group-reducer.ts).
pub mod Update
pub mod Remove
pub mod Split
pub mod Tabs
pub mod Leave
pub mod Close
pub mod NewGroup
pub mod Move
pub mod Reorder
pub mod Retab
pub mod Restore
pub mod Actions
use r_shell.Prelude.{
  Bool-cases, Option, String, arith, count, eq_iff, false, if◌then◌else◌, inl, inr, ltb, none, refl,
  show, some, true, ℕ, ◌-◌, ◌==◌, ◌||◌, ◌≡◌, ◌≤◌,
}
use r_shell.Dict.{Dict, has, insert, lookup}
use r_shell.Dict.Keys.{IsObject}
use r_shell.Dict.Lookup.{lookup-insert}
use r_shell.Terminal.Grid.{collect_leaf_ids}
use r_shell.Terminal.State.{tabs_of}
use r_shell.Terminal.Tabs.{tab_ids}
use r_shell.Terminal.Tabs.Count.{IsActive}
use r_shell.Terminal.Types.{
  TerminalGroup, TerminalGroupAction, TerminalGroupState, TerminalTab, restore_layout, split_group,
}

-- Whether the owner that the map names is `g`, as a number.
abbrev pub held_in : String → Option String → ℕ
held_in g none = 0
held_in g (some h) = if h == g then 1 else 0

-- A group under the key `g`: its id is the key, and its active tab is one of its tabs.
pub record IsGroup (g : String) (group : TerminalGroup) : Type 0 where
  pub key : group.id ≡ g
  pub active : IsActive group.active_tab_id group.tabs

pub record IsValid {N : Type 0} (s : TerminalGroupState N) : Type 0 where
  -- no property of `groups` occurs twice
  pub object : IsObject s.groups
  pub group_ok :
      (g : String) (group : TerminalGroup) → lookup g s.groups ≡ some group → IsGroup g group
  -- a tab stands once in the group that `tabToGroupMap` names, and in no other
  pub held :
      (g t : String)
      → count t (tab_ids (tabs_of g s.groups)) ≡ held_in g (lookup t s.tab_to_group_map)
  -- the tree has one leaf for each group
  pub leaves :
      (g : String) → count g (collect_leaf_ids s.grid_layout) ≡ (if has g s.groups then 1 else 0)
  pub active : has s.active_group_id s.groups ≡ true
  -- the ids of groups to come are free
  pub fresh : (n : ℕ) → s.next_group_id ≤ n → has (show n) s.groups ≡ false

tabs_of-insert :
    (g j : String) (group : TerminalGroup) (gs : Dict TerminalGroup)
    → tabs_of j (insert g group gs) ≡ (if g == j then group.tabs else tabs_of j gs)
tabs_of-insert g j group gs = elim (Bool-cases (g == j)) [
  | inl e ↦ rw (tabs_of, lookup-insert g j group gs, e)
  | inr e ↦ rw (tabs_of, lookup-insert g j group gs, e)
]

has-insert :
    (g j : String) (group : TerminalGroup) (gs : Dict TerminalGroup)
    → has j (insert g group gs) ≡ g == j || has j gs
has-insert g j group gs = elim (Bool-cases (g == j)) [
  | inl e ↦ rw (lookup-insert g j group gs, e)
  | inr e ↦ rw (lookup-insert g j group gs, e)
]

-- Where `c` of the tabs that `g` holds leave the map, only `g` loses them.
held_in-forget :
    (g j : String) (o : Option String) (c : ℕ)
    → c ≤ held_in g o
    → held_in j (if ltb 0 c then none else o) ≡ (if g == j then held_in g o - c else held_in j o)
held_in-forget g j none c h = ground arith
held_in-forget g j (some k) c h = ground (arith, eq_iff k g, eq_iff k j, eq_iff g j)

module _ {N : Type 0} {s : TerminalGroupState N} (v : IsValid s) where
  pub held_by :
      (g : String) {group : TerminalGroup}
      → lookup g s.groups ≡ some group
      → (t : String) → count t (tab_ids group.tabs) ≡ held_in g (lookup t s.tab_to_group_map)
  held_by g e t = rw (tabs_of, e) at (v.held g t)

-- What `g` holds, no other group holds.
held_in-other :
    (g j : String) (o : Option String) → (g == j) ≡ false → 1 ≤ held_in g o → held_in j o ≡ 0
held_in-other g j none other h = refl
held_in-other g j (some k) other h = ground (arith, eq_iff k g, eq_iff k j, eq_iff g j)

held_in-le : (g : String) (o : Option String) → held_in g o ≤ 1
held_in-le g none = omega arith
held_in-le g (some k) = ground arith

-- The new tab of a split, if there is one, has no group yet.
abbrev pub IsUnowned : {N : Type 0} → Option TerminalTab → TerminalGroupState N → Type 0
IsUnowned none s = Unit {0}
IsUnowned (some tab) s = lookup tab.id s.tab_to_group_map ≡ none

-- What the callers of the reducer see to: a tab that comes with a split is new, and a layout that is
-- restored is valid.
abbrev pub IsAdmissible : {N : Type 0} → TerminalGroupState N → TerminalGroupAction N → Type 0
IsAdmissible s (split_group g d tab) = IsUnowned tab s
IsAdmissible s (restore_layout s') = IsValid s'
IsAdmissible s _ = Unit {0}
