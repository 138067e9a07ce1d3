-- ===== src/Terminal/Examples.antt =====
-- Tests of the terminal layout, and the theorems about it at concrete layouts.
use r_shell.Prelude.{
  Bool-cases, List, String, [], eq_iff, eqb, false, impossible, inl, inr, none, pos, read_digits,
  refl, show, some, subst, true, ℕ, ◌*◌, ◌+◌, ◌/◌, ◌==◌, ◌↔◌, ◌∷◌, ◌≡◌,
}
use r_shell.Dict.{has, insert, lookup, map_values}
use r_shell.Json.{integer, text}
use r_shell.Terminal.Grid.{
  collect_leaf_ids, find_leaf_path, insert_split, remove_leaf, removed, simplify_tree,
}
use r_shell.Terminal.Grid.Leaves.{expand, without}
use r_shell.Terminal.Grid.Path.{Found, find_leaf_path-Found}
use r_shell.Terminal.Grid.Remove.{ids-removed, ids_of}
use r_shell.Terminal.Grid.Simplify.{IsSimple, simplify_tree-IsSimple}
use r_shell.Terminal.Grid.Sizes.{
  AlignedOption, IsAligned, insert_split-IsAligned, remove_leaf-IsAligned,
}
use r_shell.Terminal.Grid.Split.{ids-split, split_ids}
use r_shell.Terminal.Invariant.{IsValid}
use r_shell.Terminal.Invariant.Actions.{reducer-IsValid}
use r_shell.Terminal.Invariant.Restore.{reset_unread_output-map}
use r_shell.Terminal.Reach.{
  IsUsable, Reach, Reach-IsUsable, Reach-IsValid, start, start_again, step,
}
use r_shell.Terminal.Reducer.{terminal_group_reducer}
use r_shell.Terminal.Reducer.Move.{reduce_move_tab_to_new_group}
use r_shell.Terminal.Reducer.Tabs.{reduce_add_tab, tab_in_any}
use r_shell.Terminal.State.{
  create_default_state, is_terminal_tab_visible, maybe_remove_empty_group, read_group,
  reset_unread_output,
}
use r_shell.Terminal.Store.Restart.{restart}
use r_shell.Terminal.Tabs.{drop_tab, find_tab, find_tab_index, has_tab}
use r_shell.Terminal.Types.{
  Float, GridNode, TerminalGroupAction, TerminalGroupState, TerminalTab, add_tab, branch, connected,
  cons, horizontal, leaf, left, move_tab_to_new_group, nil, remove_tab, right, vertical,
}
use r_shell.Terminal.Visible.{IsShown, is_terminal_tab_visible-IsShown}

-- Whole numbers in place of floating-point ones.
abbrev whole : Float ℕ
whole = record {
  of_nat = λ n. n;
  add = λ a b. a + b;
  mul = λ a b. a * b;
  div = λ a b. a / b;
  is_zero = λ a. eqb a 0;
  nan = 0;
}

abbrev tab : String → TerminalTab
tab id = record {
  id = id;
  name = id;
  tab_type = none;
  protocol = none;
  host = none;
  username = none;
  original_connection_id = none;
  connection_status = connected;
  reconnect_count = some 0;
  has_unread_output = none;
  editor_file_path = none;
  editor_connection_id = none;
}

abbrev run : List (TerminalGroupAction ℕ) → TerminalGroupState ℕ
run [] = create_default_state
run (a ∷ rest) = terminal_group_reducer whole (run rest) a

-- Two tabs, the second in a group of its own to the right; the last action comes first.
abbrev side_by_side : TerminalGroupState ℕ
side_by_side =
    run (move_tab_to_new_group "1" "b" right ∷ add_tab "1" (tab "b") ∷ add_tab "1" (tab "a") ∷ [])

side_by_side-Reach : Reach whole side_by_side
side_by_side-Reach = step _ (step _ (step _ start tt) tt) tt

leaves_example : collect_leaf_ids side_by_side.grid_layout ≡ "1" ∷ "2" ∷ []
unfolding terminal_group_reducer reduce_move_tab_to_new_group reduce_add_tab create_default_state
    insert lookup find_tab find_tab_index has_tab drop_tab maybe_remove_empty_group insert_split
    collect_leaf_ids show tab_in_any read_digits
leaves_example = refl

reducer-IsValid_example : IsValid (terminal_group_reducer whole side_by_side (remove_tab "2" "b"))
reducer-IsValid_example =
    reducer-IsValid whole side_by_side (remove_tab "2" "b") (Reach-IsValid side_by_side-Reach) tt

-- The two groups are saved, and the application is started again.
abbrev started_again : TerminalGroupState ℕ
started_again = restart (λ n. integer (pos n)) (λ t. text t.id) true side_by_side

Reach-IsUsable_example : IsUsable started_again
Reach-IsUsable_example =
    Reach-IsUsable {num = whole}
      (start_again (λ n. integer (pos n)) (λ t. text t.id) true side_by_side-Reach)

-- Two leaves beside one below the other, in a branch with sizes that do not sum to 100.
abbrev three_leaves : GridNode ℕ
three_leaves =
    branch horizontal
      (cons (leaf "1")
        (cons (branch vertical (cons (leaf "2") (cons (leaf "3") nil)) (50 ∷ 50 ∷ [])) nil))
      (30 ∷ 60 ∷ [])

ids-split_example :
    collect_leaf_ids (insert_split whole three_leaves "2" "4" left)
    ≡ expand "2" (split_ids "2" "4" left) (collect_leaf_ids three_leaves)
ids-split_example = ids-split whole "2" "4" left three_leaves

ids-removed_example :
    ids_of (removed three_leaves (remove_leaf whole three_leaves "2"))
    ≡ without "2" (collect_leaf_ids three_leaves)
ids-removed_example = ids-removed whole "2" three_leaves

find_leaf_path-Found_example : Found "3" three_leaves (find_leaf_path three_leaves "3")
find_leaf_path-Found_example = find_leaf_path-Found "3" three_leaves

simplify_tree-IsSimple_example :
    (collect_leaf_ids (simplify_tree three_leaves) ≡ collect_leaf_ids three_leaves)
    × IsSimple (simplify_tree three_leaves)
    × (simplify_tree (simplify_tree three_leaves) ≡ simplify_tree three_leaves)
simplify_tree-IsSimple_example = simplify_tree-IsSimple three_leaves

three_leaves-IsAligned : IsAligned three_leaves
unfolding IsAligned
three_leaves-IsAligned = (refl, (tt, ((refl, (tt, (tt, tt))), tt)))

insert_split-IsAligned_example : IsAligned (insert_split whole three_leaves "2" "4" left)
insert_split-IsAligned_example =
    insert_split-IsAligned whole "2" "4" left three_leaves three_leaves-IsAligned

remove_leaf-IsAligned_example :
    AlignedOption (removed three_leaves (remove_leaf whole three_leaves "2"))
remove_leaf-IsAligned_example = remove_leaf-IsAligned whole "2" three_leaves three_leaves-IsAligned

reset_unread_output-map_example :
    reset_unread_output side_by_side
    ≡ record side_by_side { groups = map_values read_group side_by_side.groups }
reset_unread_output-map_example = reset_unread_output-map side_by_side

side_by_side_named : (g : String) → has g side_by_side.groups ≡ true → (g == "") ≡ false
unfolding terminal_group_reducer reduce_move_tab_to_new_group reduce_add_tab create_default_state
    insert lookup find_tab find_tab_index has_tab drop_tab maybe_remove_empty_group insert_split
    collect_leaf_ids show tab_in_any read_digits
side_by_side_named g h = elim (Bool-cases (g == "")) [
  | inl e ↦ impossible (subst (λ x. has x side_by_side.groups ≡ true) ((eq_iff g "").0 e) h)
  | inr e ↦ e
]

is_terminal_tab_visible-IsShown_example :
    (is_terminal_tab_visible side_by_side "b" ≡ true) ↔ ((g : String) × IsShown side_by_side g "b")
is_terminal_tab_visible-IsShown_example =
    is_terminal_tab_visible-IsShown (Reach-IsValid side_by_side-Reach) "b" side_by_side_named
