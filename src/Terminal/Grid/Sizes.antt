-- ===== src/Terminal/Grid/Sizes.antt =====
-- The sizes of the branches, one for each child, as `isValidGridNode` of
-- src/lib/terminal-group-serializer.ts demands of a stored layout.
use r_shell.Prelude.{
  Bool-cases, List, Option, String, [], ap, arith, inl, inr, length, length-map, negsuc, none, not,
  pos, refl, some, suc, sym, zero, ℕ, ℤ, ◌&&◌, ◌++◌, ◌==◌, ◌∙◌, ◌∷◌, ◌≡◌,
}
use r_shell.Terminal.Grid.{
  Removal, Survivors, collect_children_ids, collect_leaf_ids, gone, head_size, insert_split,
  insert_split_children, is_nil, kept, normalize_sizes, rebuilt, remove_children, remove_leaf,
  removed, rest_sizes, settle, split_leaf, sum, survive, update_child, update_sizes,
}
use r_shell.Terminal.Types.{
  Float, GridNode, Nodes, Orientation, SplitDirection, branch, cons, leaf, nil,
}

abbrev pub children_count : {N : Type 0} → Nodes N → ℕ
children_count nil = 0
children_count (cons c cs) = suc (children_count cs)

unfoldable mutual
  pub IsAligned : {N : Type 0} → GridNode N → Type 0
  IsAligned (leaf g) = Unit {0}
  IsAligned (branch d cs sizes) = (children_count cs ≡ length sizes) × AllAligned cs

  pub AllAligned : {N : Type 0} → Nodes N → Type 0
  AllAligned nil = Unit {0}
  AllAligned (cons c cs) = IsAligned c × AllAligned cs

-- `null` is aligned.
abbrev pub AlignedOption : {N : Type 0} → Option (GridNode N) → Type 0
AlignedOption none = Unit {0}
AlignedOption (some node) = IsAligned node

module _ {N : Type 0} (num : Float N) where
  split_leaf-IsAligned :
      (g new : String) (direction : SplitDirection) → IsAligned (split_leaf num g new direction)
  unfolding split_leaf IsAligned
  split_leaf-IsAligned g new direction = ground arith

  module _ (g new : String) (direction : SplitDirection) where
    count_splits :
        (cs : Nodes N)
        → children_count (insert_split_children num cs g new direction) ≡ children_count cs
    unfolding insert_split
    count_splits nil = refl
    count_splits (cons c cs) = ap suc (count_splits cs)

    leaf_split : (x : String) → IsAligned (insert_split num (leaf x) g new direction)
    unfolding insert_split IsAligned
    leaf_split x = ground (arith, split_leaf-IsAligned g new direction)

    mutual
      unfolding insert_split IsAligned

      IsAligned-split :
          (node : GridNode N) → IsAligned node → IsAligned (insert_split num node g new direction)
      IsAligned-split (leaf x) h = leaf_split x
      IsAligned-split (branch d cs sizes) h = (count_splits cs ∙ h.0, aligned_splits cs h.1)

      aligned_splits :
          (cs : Nodes N) → AllAligned cs → AllAligned (insert_split_children num cs g new direction)
      aligned_splits nil h = tt
      aligned_splits (cons c cs) h = (IsAligned-split c h.0, aligned_splits cs h.1)

    -- `insertSplit` takes a tree with one size for each child of a branch to such a tree.
    pub insert_split-IsAligned :
        (node : GridNode N) → IsAligned node → IsAligned (insert_split num node g new direction)
    insert_split-IsAligned = IsAligned-split

  length-normalize_sizes : (sizes : List N) → length (normalize_sizes num sizes) ≡ length sizes
  unfolding normalize_sizes
  length-normalize_sizes sizes = elim (Bool-cases (num.is_zero (sum num (num.of_nat 0) sizes))) [
    | inl e ↦ rw e (length-map _ sizes)
    | inr e ↦ rw e (length-map _ sizes)
  ]

  -- The loop pushes a size with each child that it keeps.
  record Balanced (k : Survivors N) : Type 0 where
    one_each : children_count k.children ≡ length k.sizes
    aligned : AllAligned k.children

  survive-Balanced :
      (r : Removal N) (c : GridNode N) (s : N) (rest : Survivors N)
      → AlignedOption (removed c r)
      → Balanced rest
      → Balanced (survive num r c s rest)
  unfolding survive IsAligned
  survive-Balanced gone c s rest h b = record { one_each = b.one_each; aligned = b.aligned }
  survive-Balanced kept c s rest h b = record {
    one_each = ap suc b.one_each;
    aligned = (h, b.aligned);
  }
  survive-Balanced (rebuilt c') c s rest h b = record {
    one_each = ap suc b.one_each;
    aligned = (h, b.aligned);
  }

  settle-IsAligned :
      (d : Orientation) (k : Survivors N) (node : GridNode N)
      → IsAligned node
      → Balanced k
      → AlignedOption (removed node (settle num d k))
  unfolding settle IsAligned
  settle-IsAligned d k node h b = elim (Bool-cases (is_nil k.children)) [
    | inl e ↦ rw e tt
    | inr e ↦ elim (Bool-cases (not k.dropped && not k.changed)) [
      | inl e' ↦ rw (e, e') h
      | inr e' ↦ rw (e, e') (b.one_each ∙ sym (length-normalize_sizes k.sizes), b.aligned)
    ]
  ]

  module _ (g : String) where
    mutual
      unfolding remove_leaf IsAligned

      aligned_removed :
          (node : GridNode N)
          → IsAligned node
          → AlignedOption (removed node (remove_leaf num node g))
      aligned_removed (leaf x) h = elim (Bool-cases (x == g)) [ inl e ↦ rw e tt | inr e ↦ rw e tt ]
      aligned_removed (branch d cs sizes) h =
          settle-IsAligned d (remove_children num cs sizes g) (branch d cs sizes) h
            (Balanced-survivors cs sizes h.1)

      Balanced-survivors :
          (cs : Nodes N) (sizes : List N)
          → AllAligned cs
          → Balanced (remove_children num cs sizes g)
      Balanced-survivors nil sizes h = record { one_each = refl; aligned = tt }
      Balanced-survivors (cons c cs) sizes h =
          survive-Balanced (remove_leaf num c g) c (head_size num sizes) _ (aligned_removed c h.0)
            (Balanced-survivors cs (rest_sizes num sizes) h.1)

    -- `removeLeaf` takes a tree with one size for each child of a branch to such a tree, or to `null`.
    pub remove_leaf-IsAligned :
        (node : GridNode N) → IsAligned node → AlignedOption (removed node (remove_leaf num node g))
    remove_leaf-IsAligned = aligned_removed

mutual
  unfolding update_sizes collect_leaf_ids

  ids_updated :
      {N : Type 0} (node : GridNode N) (path : List ℤ) (sizes : List N)
      → collect_leaf_ids (update_sizes node path sizes) ≡ collect_leaf_ids node
  ids_updated (leaf g) path sizes = refl
  ids_updated (branch d cs old) [] sizes = refl
  ids_updated (branch d cs old) (idx ∷ rest) sizes = ids_child_updated cs idx rest sizes

  ids_child_updated :
      {N : Type 0} (cs : Nodes N) (idx : ℤ) (rest : List ℤ) (sizes : List N)
      → collect_children_ids (update_child cs idx rest sizes) ≡ collect_children_ids cs
  ids_child_updated nil idx rest sizes = refl
  ids_child_updated (cons c cs) (negsuc i) rest sizes = refl
  ids_child_updated (cons c cs) (pos zero) rest sizes =
      ap (◌++ collect_children_ids cs) (ids_updated c rest sizes)
  ids_child_updated (cons c cs) (pos (suc i)) rest sizes =
      ap (collect_leaf_ids c ++◌) (ids_child_updated cs (pos i) rest sizes)

-- Setting sizes moves no leaf.
pub ids-update_sizes :
    {N : Type 0} (node : GridNode N) (path : List ℤ) (sizes : List N)
    → collect_leaf_ids (update_sizes node path sizes) ≡ collect_leaf_ids node
ids-update_sizes = ids_updated
