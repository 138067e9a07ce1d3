-- ===== src/Terminal/Invariant/Leave.antt =====
-- Tabs that leave a group: `REMOVE_TAB` and the actions that close several tabs on a valid layout.
use r_shell.Prelude.{
  Bool-cases, List, Option, Option-cases, String, [], ap, arith, count, eq_iff, eq_refl, false,
  if◌then◌else◌, inl, inr, none, some, sym, ℕ, ◌+◌, ◌-◌, ◌==◌, ◌∙◌, ◌≡◌, ◌≤◌,
}
use r_shell.Dict.{erase, insert, lookup}
use r_shell.Dict.Lookup.{lookup-erase}
use r_shell.Terminal.Invariant.{IsGroup, IsValid, held_by, held_in, held_in-forget, held_in-other}
use r_shell.Terminal.Invariant.Remove.{maybe_remove_empty_group-IsValid}
use r_shell.Terminal.Invariant.Update.{Agrees, set_group-IsValid}
use r_shell.Terminal.Reducer.Tabs.{active_without, reduce_remove_tab, without_tab}
use r_shell.Terminal.State.{maybe_remove_empty_group, with_group}
use r_shell.Terminal.Tabs.{drop_tab, find_tab_index, forget_tabs, pick_adjacent_tab, tab_ids}
use r_shell.Terminal.Tabs.Count.{
  FoundIndex, IsActive, count-drop_tab, find_tab_index-Found, lookup-forget_tabs,
  pick_adjacent_tab-IsActive,
}
use r_shell.Terminal.Types.{Float, TerminalGroup, TerminalGroupState, TerminalTab}

drop_tab-eq_nil : (t : String) (ts : List TerminalTab) → ts ≡ [] → drop_tab t ts ≡ []
unfolding drop_tab
drop_tab-eq_nil t ts e = rw e

-- The active tab of the group that a tab leaves is one of those that stay.
pub without_tab-IsGroup :
    (g t : String) (i : ℕ) {group : TerminalGroup}
    → IsGroup g group
    → IsGroup g (without_tab group t i)
unfolding without_tab active_without
without_tab-IsGroup g t i {group} ok = record {
  key = ok.key;
  active = by_active group.active_tab_id ok.active;
}
  where
    rest : List TerminalTab
    rest = drop_tab t group.tabs

    by_active :
        (active : Option String)
        → IsActive active group.tabs
        → IsActive
            (elim active [
              | none ↦ none
              | some id ↦ if id == t then pick_adjacent_tab rest i else some id
            ])
            rest
    by_active none h = drop_tab-eq_nil t group.tabs h
    by_active (some id) h = elim (Bool-cases (id == t)) [
      | inl e ↦ rw (e, IsActive) (pick_adjacent_tab-IsActive rest i)
      | inr e ↦
          rw (e, IsActive)
            (rw (count-drop_tab t id group.tabs) (ground (arith, h, eq_iff id t, eq_iff t id)))
    ]

module _ {N : Type 0} {s : TerminalGroupState N} (v : IsValid s) where
  -- The tab leaves the group and the map.
  pub leave-Agrees :
      (g t : String) (i : ℕ) {group : TerminalGroup}
      → lookup g s.groups ≡ some group
      → 1 ≤ count t (tab_ids group.tabs)
      → Agrees g (without_tab group t i) s.tab_to_group_map (erase t s.tab_to_group_map)
  unfolding without_tab
  leave-Agrees g t i {group} e there = record {
    here = λ x. rw (lookup-erase t x s.tab_to_group_map, count-drop_tab t x group.tabs) (here x);
    elsewhere = λ j x other. rw (lookup-erase t x s.tab_to_group_map) (apart j x other);
  }
    where
      here :
          (x : String)
          → (if t == x then 0 else count x (tab_ids group.tabs))
            ≡ held_in g (if t == x then none else lookup x s.tab_to_group_map)
      here x = elim (Bool-cases (t == x)) [
        | inl same ↦ rw same
        | inr other ↦ rw other (held_by v g e x)
      ]

      apart :
          (j x : String)
          → (g == j) ≡ false
          → held_in j (if t == x then none else lookup x s.tab_to_group_map)
            ≡ held_in j (lookup x s.tab_to_group_map)
      apart j x other = elim (Bool-cases (t == x)) [
        | inl same ↦
            rw (same, ← (eq_iff t x).0 same)
              (sym (held_in-other g j _ other (omega (arith, there, held_by v g e t))))
        | inr e ↦ rw e
      ]

  -- Some tabs stay in the group, and the map forgets the others.
  pub forget-Agrees :
      (g : String) (closed : List TerminalTab) {old group : TerminalGroup}
      → lookup g s.groups ≡ some old
      → ((t : String)
          → count t (tab_ids group.tabs) + count t (tab_ids closed) ≡ count t (tab_ids old.tabs))
      → Agrees g group s.tab_to_group_map (forget_tabs closed s.tab_to_group_map)
  forget-Agrees g closed {old} {group} e h = record {
    here = λ t. rw (forgotten g t, eq_refl g) (omega (arith, h t, held_by v g e t));
    elsewhere = λ j t other. rw (forgotten j t, other);
  }
    where
      forgotten :
          (j t : String)
          → held_in j (lookup t (forget_tabs closed s.tab_to_group_map)) ≡ (
              if g == j
              then held_in g (lookup t s.tab_to_group_map) - count t (tab_ids closed)
              else held_in j (lookup t s.tab_to_group_map))
      forgotten j t =
          ap (held_in j) (lookup-forget_tabs t closed s.tab_to_group_map)
          ∙ held_in-forget g j (lookup t s.tab_to_group_map) (count t (tab_ids closed))
              (omega (arith, h t, held_by v g e t))

  pub reduce_remove_tab-IsValid :
      (num : Float N) (g t : String) → IsValid (reduce_remove_tab num s g t)
  unfolding reduce_remove_tab
  reduce_remove_tab-IsValid num g t = elim (Option-cases (lookup g s.groups)) [
    | inl e ↦ rw (with_group, e) v
    | inr (group, e) ↦
        rw (with_group, e)
          (found group e (find_tab_index t group.tabs) (find_tab_index-Found t group.tabs))
  ]
    where
      found :
          (group : TerminalGroup)
          → lookup g s.groups ≡ some group
          → (index : Option ℕ) → FoundIndex t group.tabs index
          → IsValid (elim index [
            | none ↦ s
            | some i ↦
                maybe_remove_empty_group num
                  (record s {
                    groups = insert g (without_tab group t i) s.groups;
                    tab_to_group_map = erase t s.tab_to_group_map;
                  })
                  g
          ])
      found group e none h = v
      found group e (some i) h = maybe_remove_empty_group-IsValid num g (
          set_group-IsValid v g _ _ (rw e) (without_tab-IsGroup g t i (v.group_ok g group e))
            (leave-Agrees g t i e h.1))

module _ {N : Type 0} {s : TerminalGroupState N} (v : IsValid s) where
  -- The layout once the tab has left its group.
  pub left-IsValid :
      (g t : String) (i : ℕ) (group : TerminalGroup)
      → lookup g s.groups ≡ some group
      → 1 ≤ count t (tab_ids group.tabs)
      → IsValid (record s {
        groups = insert g (without_tab group t i) s.groups;
        tab_to_group_map = erase t s.tab_to_group_map;
      })
  left-IsValid g t i group e h =
      set_group-IsValid v g _ _ (rw e) (without_tab-IsGroup g t i (v.group_ok g group e))
        (leave-Agrees v g t i e h)
