-- ===== src/Terminal/Invariant/Actions.antt =====
-- The actions on a valid layout.
use r_shell.Prelude.{
  Bool, Bool-cases, List, Option, Option-cases, String, [], ap, arith, count, eq_refl,
  if◌then◌else◌, inl, inr, leb, length, none, or_else, refl, some, subst, ℕ, ℤ, ◌∙◌, ◌≡◌,
}
use r_shell.Dict.{keys, lookup}
use r_shell.Dict.Keys.{insert-single, length-keys}
use r_shell.Terminal.Grid.{update_sizes}
use r_shell.Terminal.Grid.Sizes.{ids-update_sizes}
use r_shell.Terminal.Invariant.{IsAdmissible, IsUnowned, IsValid}
use r_shell.Terminal.Invariant.Close.{
  close_tabs-IsValid, reduce_close_all_tabs-IsValid, reduce_close_other_tabs-IsValid,
  reduce_close_tabs_to_left-IsValid, reduce_close_tabs_to_right-IsValid,
}
use r_shell.Terminal.Invariant.Leave.{reduce_remove_tab-IsValid}
use r_shell.Terminal.Invariant.Move.{reduce_move_tab-IsValid}
use r_shell.Terminal.Invariant.NewGroup.{reduce_move_tab_to_new_group-IsValid}
use r_shell.Terminal.Invariant.Remove.{remove_group_from_state-IsValid}
use r_shell.Terminal.Invariant.Reorder.{permute-IsValid, reduce_reorder_tab-IsValid}
use r_shell.Terminal.Invariant.Restore.{reset_unread_output-IsValid}
use r_shell.Terminal.Invariant.Split.{
  create_default_state-IsValid, empty-Agrees, fresh-Agrees, split-IsValid,
}
use r_shell.Terminal.Invariant.Tabs.{
  reduce_activate_group-IsValid, reduce_activate_tab-IsValid, reduce_add_tab-IsValid,
}
use r_shell.Terminal.Reducer.{terminal_group_reducer}
use r_shell.Terminal.Reducer.Groups.{reduce_remove_group, reduce_split_group}
use r_shell.Terminal.Reducer.Update.{OutputEvent, change_tab, reduce_tab_output, seen, wrote}
use r_shell.Terminal.State.{owner, set_group, undefined, with_group}
use r_shell.Terminal.Tabs.{find_tab, find_tab_index, forget_tabs, update_tab}
use r_shell.Terminal.Tabs.Count.{tab_ids-update_tab}
use r_shell.Terminal.Types.{
  Float, SplitDirection, TerminalGroup, TerminalGroupAction, TerminalGroupState, TerminalTab,
  acknowledge_tab_output, activate_group, activate_tab, add_tab, close_all_tabs, close_other_tabs,
  close_tabs_to_left, close_tabs_to_right, mark_tab_unread_output, move_tab, move_tab_to_new_group,
  reconnect_tab, remove_group, remove_tab, reorder_tab, reset_layout, restore_layout, split_group,
  update_grid_sizes, update_tab_name, update_tab_status,
}

module _ {N : Type 0} {s : TerminalGroupState N} (v : IsValid s) where
  update_tab-IsValid :
      (g : String) (group : TerminalGroup) (i : ℕ) (f : TerminalTab → TerminalTab)
      → lookup g s.groups ≡ some group
      → ((t : TerminalTab) → (f t).id ≡ t.id)
      → IsValid (set_group s g (record group { tabs = update_tab i f group.tabs }))
  update_tab-IsValid g group i f e same =
      permute-IsValid v g group _ e (λ t. ap (count t) (tab_ids-update_tab f i group.tabs same))

  output_found :
      (g : String) (group : TerminalGroup) (f : TerminalTab → TerminalTab)
      (quiet : TerminalTab → Bool) (i : ℕ) (found : Option TerminalTab)
      → lookup g s.groups ≡ some group
      → ((t : TerminalTab) → (f t).id ≡ t.id)
      → IsValid (elim found [
        | none ↦ s
        | some tab ↦
            if quiet tab
            then s
            else set_group s g (record group { tabs = update_tab i f group.tabs })
      ])
  output_found g group f quiet i none e same = v
  output_found g group f quiet i (some tab) e same = elim (Bool-cases (quiet tab)) [
    | inl q ↦ rw q v
    | inr q ↦ rw q (update_tab-IsValid g group i f e same)
  ]

  reduce_tab_output-IsValid :
      (t : String) (event : OutputEvent) → IsValid (reduce_tab_output s t event)
  unfolding reduce_tab_output
  reduce_tab_output-IsValid t event = elim (Option-cases (lookup g s.groups)) [
    | inl e ↦ rw (with_group, e) v
    | inr (group, e) ↦
        rw (with_group, e) (output_found g group _ _ _ (find_tab t group.tabs) e (λ x. refl))
  ]
    where
      g : String
      g = or_else (lookup t s.tab_to_group_map) undefined

  change_found :
      (g : String) (group : TerminalGroup) (f : TerminalTab → TerminalTab) (index : Option ℕ)
      → lookup g s.groups ≡ some group
      → ((t : TerminalTab) → (f t).id ≡ t.id)
      → IsValid (elim index [
        | none ↦ s
        | some i ↦ set_group s g (record group { tabs = update_tab i f group.tabs })
      ])
  change_found g group f none e same = v
  change_found g group f (some i) e same = update_tab-IsValid g group i f e same

  change_tab-IsValid :
      (t : String) (f : TerminalTab → TerminalTab)
      → ((x : TerminalTab) → (f x).id ≡ x.id)
      → IsValid (change_tab s t f)
  unfolding change_tab
  change_tab-IsValid t f same = elim (Option-cases (owner s t)) [
    | inl e ↦ rw (change_tab, e) v
    | inr (g, e) ↦
        rw (change_tab, e)
          (elim (Option-cases (lookup g s.groups)) [
            | inl e' ↦ rw (with_group, e') v
            | inr (group, e') ↦
                rw (with_group, e') (change_found g group f (find_tab_index t group.tabs) e' same)
          ])
  ]

  -- The group has no tab, or the tab that was passed, which has no owner yet.
  reduce_split_group-IsValid :
      (num : Float N) (g : String) (d : SplitDirection) (new_tab : Option TerminalTab)
      → IsUnowned new_tab s
      → IsValid (reduce_split_group num s g d new_tab)
  unfolding reduce_split_group
  reduce_split_group-IsValid num g d none free = elim (Option-cases (lookup g s.groups)) [
    | inl e ↦ rw (with_group, e) v
    | inr (group, e) ↦
        rw (with_group, e)
          (split-IsValid num v g _ d _ (rw e) (record { key = refl; active = refl })
            (empty-Agrees num v))
  ]
  reduce_split_group-IsValid num g d (some tab) free = elim (Option-cases (lookup g s.groups)) [
    | inl e ↦ rw (with_group, e) v
    | inr (group, e) ↦
        rw (with_group, e)
          (split-IsValid num v g _ d _ (rw e)
            (record { key = refl; active = ground (arith, eq_refl tab.id) })
            (fresh-Agrees num v tab.id tab (eq_refl tab.id) free))
  ]

  reduce_remove_group-IsValid : (num : Float N) (g : String) → IsValid (reduce_remove_group num s g)
  unfolding reduce_remove_group
  reduce_remove_group-IsValid num g = elim (Option-cases (lookup g s.groups)) [
    | inl e ↦ rw (with_group, e) v
    | inr (group, e) ↦
        rw (with_group, e)
          (elim (Bool-cases (leb (length (keys s.groups)) 1)) [
            | inl last ↦ rw last (
                subst
                  (λ gs. IsValid (record s {
                    groups = gs;
                    tab_to_group_map = forget_tabs group.tabs s.tab_to_group_map;
                  }))
                  (insert-single g _ s.groups (ground (arith, last, length-keys s.groups)) e)
                  (close_tabs-IsValid v g group [] none group.tabs e refl (λ t. omega arith)))
            | inr many ↦ rw many (
                remove_group_from_state-IsValid num v g (ground (arith, many, length-keys s.groups))
                  group e)
          ])
  ]

  update_sizes-IsValid :
      (path : List ℤ) (sizes : List N)
      → IsValid (record s { grid_layout = update_sizes s.grid_layout path sizes })
  update_sizes-IsValid path sizes = record {
    object = v.object;
    group_ok = v.group_ok;
    held = v.held;
    leaves = λ g. ap (count g) (ids-update_sizes s.grid_layout path sizes) ∙ v.leaves g;
    active = v.active;
    fresh = v.fresh;
  }

-- Every action keeps a layout valid: each group is drawn by one leaf of the tree and has its key as
-- id, each tab id stands once, in the group that the map names, the active tab of a group is one of
-- its tabs and missing only in an empty group, the focused group exists, and the ids of later groups
-- are free. It is supposed that a tab which comes with a split has no group yet, and that a layout
-- to restore is valid.
pub reducer-IsValid :
    {N : Type 0} (num : Float N) (s : TerminalGroupState N) (a : TerminalGroupAction N)
    → IsValid s
    → IsAdmissible s a
    → IsValid (terminal_group_reducer num s a)
unfolding terminal_group_reducer
reducer-IsValid num s (split_group g d t) v h = reduce_split_group-IsValid v num g d t h
reducer-IsValid num s (remove_group g) v h = reduce_remove_group-IsValid v num g
reducer-IsValid num s (activate_group g) v h = reduce_activate_group-IsValid v g
reducer-IsValid num s (add_tab g t) v h = reduce_add_tab-IsValid v g t
reducer-IsValid num s (remove_tab g t) v h = reduce_remove_tab-IsValid v num g t
reducer-IsValid num s (activate_tab g t) v h = reduce_activate_tab-IsValid v g t
reducer-IsValid num s (move_tab a b t i) v h = reduce_move_tab-IsValid v num a b t i
reducer-IsValid num s (reorder_tab g i j) v h = reduce_reorder_tab-IsValid v g i j
reducer-IsValid num s (close_other_tabs g t) v h = reduce_close_other_tabs-IsValid v g t
reducer-IsValid num s (close_tabs_to_right g t) v h = reduce_close_tabs_to_right-IsValid v g t
reducer-IsValid num s (close_tabs_to_left g t) v h = reduce_close_tabs_to_left-IsValid v g t
reducer-IsValid num s (close_all_tabs g) v h = reduce_close_all_tabs-IsValid v num g
reducer-IsValid num s (move_tab_to_new_group g t d) v h =
    reduce_move_tab_to_new_group-IsValid v num g t d
reducer-IsValid num s (mark_tab_unread_output t n) v h = reduce_tab_output-IsValid v t (wrote n)
reducer-IsValid num s (acknowledge_tab_output t) v h = reduce_tab_output-IsValid v t seen
reducer-IsValid num s (update_tab_status t status) v h = change_tab-IsValid v t _ (λ x. refl)
reducer-IsValid num s (update_tab_name t name) v h = change_tab-IsValid v t _ (λ x. refl)
reducer-IsValid num s (reconnect_tab t) v h = change_tab-IsValid v t _ (λ x. refl)
reducer-IsValid num s (update_grid_sizes path sizes) v h = update_sizes-IsValid v path sizes
reducer-IsValid num s reset_layout v h = create_default_state-IsValid
reducer-IsValid num s (restore_layout s') v h = reset_unread_output-IsValid h
