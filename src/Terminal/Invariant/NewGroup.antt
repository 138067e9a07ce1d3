-- ===== src/Terminal/Invariant/NewGroup.antt =====
-- `MOVE_TAB_TO_NEW_GROUP` on a valid layout.
use r_shell.Prelude.{
  Option, Option-cases, String, [], arith, eq_refl, inl, inr, none, refl, show, some, ℕ, ◌+◌, ◌∷◌,
  ◌≡◌,
}
use r_shell.Dict.{insert, lookup}
use r_shell.Dict.Lookup.{lookup-erase, lookup-insert, lookup-insert-erase}
use r_shell.Terminal.Grid.{insert_split}
use r_shell.Terminal.Invariant.{IsValid}
use r_shell.Terminal.Invariant.Leave.{left-IsValid}
use r_shell.Terminal.Invariant.Remove.{maybe_remove_empty_group-IsValid}
use r_shell.Terminal.Invariant.Split.{fresh-Agrees, split-IsValid}
use r_shell.Terminal.Invariant.Update.{Agrees-lookup}
use r_shell.Terminal.Reducer.Move.{reduce_move_tab_to_new_group}
use r_shell.Terminal.Reducer.Tabs.{without_tab}
use r_shell.Terminal.State.{maybe_remove_empty_group, with_group}
use r_shell.Terminal.Tabs.{find_tab}
use r_shell.Terminal.Tabs.Count.{FoundTab, find_tab-Found}
use r_shell.Terminal.Types.{Float, SplitDirection, TerminalGroup, TerminalGroupState, TerminalTab}

module _ {N : Type 0} {s : TerminalGroupState N} (v : IsValid s) where
  new_group_found :
      (num : Float N) (g t : String) (group : TerminalGroup) (d : SplitDirection)
      → lookup g s.groups ≡ some group
      → (i : ℕ) → (found : Option TerminalTab) → FoundTab t group.tabs found
      → IsValid (elim found [
        | none ↦ s
        | some tab ↦
            maybe_remove_empty_group num
              (record s {
                groups =
                    insert
                      (show s.next_group_id)
                      (record {
                        id = show s.next_group_id;
                        tabs = tab ∷ [];
                        active_tab_id = some tab.id;
                      })
                      (insert g (without_tab group t i) s.groups);
                grid_layout = insert_split num s.grid_layout g (show s.next_group_id) d;
                next_group_id = s.next_group_id + 1;
                active_group_id = show s.next_group_id;
                tab_to_group_map = insert t (show s.next_group_id) s.tab_to_group_map;
              })
              g
      ])
  new_group_found num g t group d e i none found = v
  new_group_found num g t group d e i (some tab) found = maybe_remove_empty_group-IsValid num g (
      split-IsValid num (left-IsValid v g t i group e found.1) g _ d _
        (rw (lookup-insert g g (without_tab group t i) s.groups, eq_refl g))
        (record { key = refl; active = ground (arith, eq_refl tab.id) })
        (Agrees-lookup (λ x. lookup-insert-erase t (show s.next_group_id) s.tab_to_group_map x)
          (fresh-Agrees num (left-IsValid v g t i group e found.1) t tab found.0
            (rw (lookup-erase t t s.tab_to_group_map, eq_refl t)))))

  pub reduce_move_tab_to_new_group-IsValid :
      (num : Float N) (g t : String) (d : SplitDirection)
      → IsValid (reduce_move_tab_to_new_group num s g t d)
  unfolding reduce_move_tab_to_new_group
  reduce_move_tab_to_new_group-IsValid num g t d = elim (Option-cases (lookup g s.groups)) [
    | inl e ↦ rw (with_group, e) v
    | inr (group, e) ↦
        rw (with_group, e)
          (new_group_found num g t group d e _ (find_tab t group.tabs)
            (find_tab-Found t group.tabs))
  ]
