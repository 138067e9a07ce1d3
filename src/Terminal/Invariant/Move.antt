-- ===== src/Terminal/Invariant/Move.antt =====
-- `MOVE_TAB` on a valid layout.
use r_shell.Prelude.{
  Bool-cases, Option, Option-cases, String, arith, count, eq_iff, eq_refl, false, if◌then◌else◌,
  inl, inr, none, some, ℕ, ℤ, ◌+◌, ◌==◌, ◌≡◌, ◌≤◌,
}
use r_shell.Dict.{erase, insert, lookup}
use r_shell.Dict.Lookup.{lookup-erase, lookup-insert, lookup-insert-erase}
use r_shell.Terminal.Invariant.{IsValid, held_by, held_in-le}
use r_shell.Terminal.Invariant.Leave.{left-IsValid}
use r_shell.Terminal.Invariant.Remove.{maybe_remove_empty_group-IsValid}
use r_shell.Terminal.Invariant.Tabs.{join-Agrees, same-Agrees}
use r_shell.Terminal.Invariant.Update.{Agrees-lookup, set_group-IsValid}
use r_shell.Terminal.Reducer.Move.{move_between, reduce_move_tab, spliced}
use r_shell.Terminal.Reducer.Tabs.{without_tab}
use r_shell.Terminal.State.{set_group, with_group}
use r_shell.Terminal.Tabs.{drop_tab, find_tab, tab_ids}
use r_shell.Terminal.Tabs.Count.{FoundTab, count-drop_tab, count-insert_tab, find_tab-Found}
use r_shell.Terminal.Types.{Float, TerminalGroup, TerminalGroupState, TerminalTab}

module _ {N : Type 0} {s : TerminalGroupState N} (v : IsValid s) where
  -- A tab of the group occurs once in it.
  once :
      (g t : String) {group : TerminalGroup}
      → lookup g s.groups ≡ some group
      → 1 ≤ count t (tab_ids group.tabs)
      → count t (tab_ids group.tabs) ≡ 1
  once g t e h = omega (arith, held_by v g e t, held_in-le g (lookup t s.tab_to_group_map))

  -- `MOVE_TAB` within a group.
  same_group :
      (g t : String) (group : TerminalGroup) (tab : TerminalTab) (i : Option ℤ)
      → lookup g s.groups ≡ some group
      → FoundTab t group.tabs (some tab)
      → IsValid (
          set_group s g (record group {
            tabs = spliced (drop_tab t group.tabs) i tab;
            active_tab_id = some tab.id;
          }))
  same_group g t group tab i e found =
      set_group-IsValid v g _ s.tab_to_group_map (rw e)
        (record {
          key = (v.group_ok g group e).key;
          active =
              rw (count-insert_tab tab.id _ tab (drop_tab t group.tabs))
                (ground (arith, eq_refl tab.id));
        })
        (same-Agrees v g e (λ x.
          rw (count-insert_tab x _ tab (drop_tab t group.tabs), count-drop_tab t x group.tabs)
            (moved x)))
    where
      moved :
          (x : String)
          → (if tab.id == x then 1 else 0) + (if t == x then 0 else count x (tab_ids group.tabs))
            ≡ count x (tab_ids group.tabs)
      moved x =
          ground (arith, eq_iff tab.id t, eq_iff tab.id x, eq_iff t x, once g t e found.1, found.0)

  other_group :
      (num : Float N) (g h t : String) (i : ℕ) (source target : TerminalGroup) (tab : TerminalTab)
      (index : Option ℤ)
      → lookup g s.groups ≡ some source
      → lookup h s.groups ≡ some target
      → (g == h) ≡ false
      → FoundTab t source.tabs (some tab)
      → IsValid (record s {
        groups =
            insert h
              (record target { tabs = spliced target.tabs index tab; active_tab_id = some tab.id })
              (insert g (without_tab source t i) s.groups);
        tab_to_group_map = insert t h s.tab_to_group_map;
      })
  other_group num g h t i source target tab index e e' other found =
      set_group-IsValid w h _ _ (rw there)
        (record {
          key = (v.group_ok h target e').key;
          active = rw (count-insert_tab tab.id _ tab target.tabs) (ground (arith, eq_refl tab.id));
        })
        (Agrees-lookup (λ x. lookup-insert-erase t h s.tab_to_group_map x)
          (join-Agrees w h t (rw (lookup-erase t t s.tab_to_group_map, eq_refl t)) (λ x.
            rw (count-insert_tab x _ tab target.tabs) (
              ground (
                arith,
                eq_iff tab.id t,
                eq_iff tab.id x,
                eq_iff t x,
                found.0,
                held_by w h there x,
              )))))
    where
      w : IsValid (record s {
        groups = insert g (without_tab source t i) s.groups;
        tab_to_group_map = erase t s.tab_to_group_map;
      })
      w = left-IsValid v g t i source e found.1

      there : lookup h (insert g (without_tab source t i) s.groups) ≡ some target
      there = rw (lookup-insert g h (without_tab source t i) s.groups, other) e'

  pub move_between-IsValid :
      (num : Float N) (g h t : String) (source target : TerminalGroup) (tab : TerminalTab)
      (index : Option ℤ)
      → lookup g s.groups ≡ some source
      → lookup h s.groups ≡ some target
      → FoundTab t source.tabs (some tab)
      → IsValid (move_between num s (g, source) (h, target) tab t index)
  unfolding move_between
  move_between-IsValid num g h t source target tab index e e' found = elim (Bool-cases (g == h)) [
    | inl same ↦ rw same (same_group g t source tab index e found)
    | inr other ↦ rw other (
        maybe_remove_empty_group-IsValid num g
          (other_group num g h t _ source target tab index e e' other found))
  ]

  move_found :
      (num : Float N) (g h t : String) (source target : TerminalGroup) (index : Option ℤ)
      → lookup g s.groups ≡ some source
      → lookup h s.groups ≡ some target
      → (found : Option TerminalTab) → FoundTab t source.tabs found
      → IsValid (elim found [
        | none ↦ s
        | some tab ↦ move_between num s (g, source) (h, target) tab t index
      ])
  move_found num g h t source target index e e' none found = v
  move_found num g h t source target index e e' (some tab) found =
      move_between-IsValid num g h t source target tab index e e' found

  pub reduce_move_tab-IsValid :
      (num : Float N) (g h t : String) (index : Option ℤ)
      → IsValid (reduce_move_tab num s g h t index)
  unfolding reduce_move_tab
  reduce_move_tab-IsValid num g h t index = elim (Option-cases (lookup g s.groups)) [
    | inl e ↦ rw (with_group, e) v
    | inr (source, e) ↦
        rw (with_group, e)
          (elim (Option-cases (lookup h s.groups)) [
            | inl e' ↦ rw (with_group, e') v
            | inr (target, e') ↦
                rw (with_group, e')
                  (move_found num g h t source target index e e' (find_tab t source.tabs)
                    (find_tab-Found t source.tabs))
          ])
  ]
