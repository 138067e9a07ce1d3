-- ===== src/Terminal/Grid/Split.antt =====
-- The leaves after `insertSplit` of src/lib/terminal-group-reducer.ts.
use mathlib.Core.List.{append-nil}
use r_shell.Prelude.{
  Bool-cases, List, String, [], ap, arith, count, eq_iff, if◌then◌else◌, inl, inr, refl, sym, ◌+◌,
  ◌==◌, ◌∙◌, ◌∷◌, ◌≡◌,
}
use r_shell.Terminal.Grid.{
  collect_children_ids, collect_leaf_ids, insert_split, insert_split_children, old_first,
  split_leaf,
}
use r_shell.Terminal.Grid.Leaves.{expand, expand-append}
use r_shell.Terminal.Types.{Float, GridNode, Nodes, SplitDirection, branch, cons, leaf, nil}

-- The two leaves of the branch that takes the place of `group_id`, in their order.
abbrev pub split_ids : String → String → SplitDirection → List String
split_ids group_id new_group_id direction =
    if old_first direction then group_id ∷ new_group_id ∷ [] else new_group_id ∷ group_id ∷ []

module _ {N : Type 0} (num : Float N) (g new : String) (direction : SplitDirection) where
  mutual
    unfolding insert_split collect_leaf_ids split_leaf

    ids-insert_split :
        (node : GridNode N)
        → collect_leaf_ids (insert_split num node g new direction)
          ≡ expand g (split_ids g new direction) (collect_leaf_ids node)
    ids-insert_split (leaf x) = ground (arith, append-nil (split_ids g new direction))
    ids-insert_split (branch d cs sizes) = ids-insert_split_children cs

    ids-insert_split_children :
        (cs : Nodes N)
        → collect_children_ids (insert_split_children num cs g new direction)
          ≡ expand g (split_ids g new direction) (collect_children_ids cs)
    ids-insert_split_children nil = refl
    ids-insert_split_children (cons c cs) =
        rw (ids-insert_split c, ids-insert_split_children cs)
          (sym (
            expand-append g (split_ids g new direction) (collect_leaf_ids c)
              (collect_children_ids cs)))

  -- After `insertSplit` the leaves stand in their old order, but that each leaf of the group that is
  -- split gives way to two: itself and the new group behind it for `right` and `down`, the new group
  -- before it for `left` and `up`.
  pub ids-split :
      (node : GridNode N)
      → collect_leaf_ids (insert_split num node g new direction)
        ≡ expand g (split_ids g new direction) (collect_leaf_ids node)
  ids-split = ids-insert_split

  count-expand_split :
      (j : String) (xs : List String)
      → count j (expand g (split_ids g new direction) xs)
        ≡ count j xs + (if new == j then count g xs else 0)
  count-expand_split j [] = ground arith
  count-expand_split j (x ∷ xs) = elim (Bool-cases (old_first direction)) [
    | inl e ↦ rw e (ground (arith, e, eq_iff x g, eq_iff x j, eq_iff g j, count-expand_split j xs))
    | inr e ↦ rw e (ground (arith, e, eq_iff x g, eq_iff x j, eq_iff g j, count-expand_split j xs))
  ]

  -- Every leaf stays, and the new group gets a leaf for each leaf of the group that is split.
  pub count-insert_split :
      (j : String) (node : GridNode N)
      → count j (collect_leaf_ids (insert_split num node g new direction))
        ≡ count j (collect_leaf_ids node)
          + (if new == j then count g (collect_leaf_ids node) else 0)
  count-insert_split j node =
      ap (count j) (ids-insert_split node) ∙ count-expand_split j (collect_leaf_ids node)
