-- ===== src/Terminal/Grid.antt =====
-- The grid tree helpers of src/lib/terminal-group-reducer.ts. An absent result (`null`) is `none`.
pub mod Leaves
pub mod Split
pub mod Remove
pub mod Simplify
pub mod Path
pub mod Sizes
use r_shell.Prelude.{
  Bool, List, Option, String, [], false, if◌then◌else◌, length, map, negsuc, none, not, pos, some,
  suc, true, zero, ℕ, ℤ, ◌&&◌, ◌++◌, ◌+◌, ◌==◌, ◌∷◌,
}
use r_shell.Terminal.Types.{
  Float, GridNode, Nodes, Orientation, SplitDirection, branch, cons, down, horizontal, leaf, left,
  nil, right, up, vertical,
}

-- The children are numbered from `i`.
unfoldable mutual
  pub find_leaf_path : {N : Type 0} → GridNode N → String → Option (List ℕ)
  find_leaf_path (leaf g) group_id = if g == group_id then some [] else none
  find_leaf_path (branch d cs sizes) group_id = find_leaf_path_from cs 0 group_id

  pub find_leaf_path_from : {N : Type 0} → Nodes N → ℕ → String → Option (List ℕ)
  find_leaf_path_from nil i group_id = none
  find_leaf_path_from (cons c cs) i group_id =
      let rest = find_leaf_path_from cs (i + 1) group_id in
      elim (find_leaf_path c group_id) [ some sub ↦ some (i ∷ sub) | none ↦ rest ]

pub branch_direction : SplitDirection → Orientation
branch_direction left = horizontal
branch_direction right = horizontal
branch_direction up = vertical
branch_direction down = vertical

-- Whether the old leaf comes first in the new branch.
pub old_first : SplitDirection → Bool
old_first right = true
old_first down = true
old_first left = false
old_first up = false

module _ {N : Type 0} (num : Float N) where
  pub split_leaf : String → String → SplitDirection → GridNode N
  unfolding branch_direction old_first
  split_leaf group_id new_group_id direction =
      let old_leaf : GridNode N = leaf group_id in
      let new_leaf : GridNode N = leaf new_group_id in
      let children =
        if old_first direction
        then cons old_leaf (cons new_leaf nil)
        else cons new_leaf (cons old_leaf nil) in
      branch (branch_direction direction) children (num.of_nat 50 ∷ num.of_nat 50 ∷ [])

  unfoldable mutual
    unfolding split_leaf

    pub insert_split : GridNode N → String → String → SplitDirection → GridNode N
    insert_split (leaf g) group_id new_group_id direction =
        if g == group_id then split_leaf group_id new_group_id direction else leaf g
    insert_split (branch d cs sizes) group_id new_group_id direction =
        branch d (insert_split_children cs group_id new_group_id direction) sizes

    pub insert_split_children : Nodes N → String → String → SplitDirection → Nodes N
    insert_split_children nil group_id new_group_id direction = nil
    insert_split_children (cons c cs) group_id new_group_id direction =
        cons (insert_split c group_id new_group_id direction)
          (insert_split_children cs group_id new_group_id direction)

  sum : N → List N → N
  sum acc [] = acc
  sum acc (s ∷ sizes) = sum (num.add acc s) sizes

  pub normalize_sizes : List N → List N
  unfolding sum
  normalize_sizes sizes =
      let total = sum (num.of_nat 0) sizes in
      if num.is_zero total
      then map (λ s. num.div (num.of_nat 100) (num.of_nat (length sizes))) sizes
      else map (λ s. num.mul (num.div s total) (num.of_nat 100)) sizes

-- What `removeLeaf` returns: `null`, the very node that it was given, or a new node.
pub data Removal (N : Type 0) : Type 0 where
  gone : Removal N
  kept : Removal N
  rebuilt : GridNode N → Removal N

-- `newChildren` and `newSizes` of the loop, whether a child was dropped, and whether one that
-- stays is no longer the same object.
pub record Survivors (N : Type 0) : Type 0 where
  pub children : Nodes N
  pub sizes : List N
  pub dropped : Bool
  pub changed : Bool

abbrev pub is_nil : {N : Type 0} → Nodes N → Bool
is_nil nil = true
is_nil (cons c cs) = false

module _ {N : Type 0} (num : Float N) where
  abbrev head_size : List N → N
  head_size [] = num.nan
  head_size (s ∷ sizes) = s

  abbrev rest_sizes : List N → List N
  rest_sizes [] = []
  rest_sizes (s ∷ sizes) = sizes

  -- One round of the loop, in front of the later ones.
  pub survive : Removal N → GridNode N → N → Survivors N → Survivors N
  survive gone c s rest = record rest { dropped = true }
  survive kept c s rest = record rest { children = cons c rest.children; sizes = s ∷ rest.sizes }
  survive (rebuilt c') c s rest = record rest {
    children = cons c' rest.children;
    sizes = s ∷ rest.sizes;
    changed = true;
  }

  pub settle : Orientation → Survivors N → Removal N
  settle d k =
      if is_nil k.children
      then gone
      else if not k.dropped && not k.changed
      then kept
      else rebuilt (branch d k.children (normalize_sizes num k.sizes))

  unfoldable mutual
    unfolding survive settle

    pub remove_leaf : GridNode N → String → Removal N
    remove_leaf (leaf g) group_id = if g == group_id then gone else kept
    remove_leaf (branch d cs sizes) group_id = settle d (remove_children cs sizes group_id)

    pub remove_children : Nodes N → List N → String → Survivors N
    remove_children nil sizes group_id = record {
      children = nil;
      sizes = [];
      dropped = false;
      changed = false;
    }
    remove_children (cons c cs) sizes group_id =
        survive (remove_leaf c group_id) c (head_size sizes)
          (remove_children cs (rest_sizes sizes) group_id)

-- The tree after a removal, `none` for `null`.
abbrev pub removed : {N : Type 0} → GridNode N → Removal N → Option (GridNode N)
removed node gone = none
removed node kept = some node
removed node (rebuilt node') = some node'

-- A branch is its only child, if it has just one.
pub collapse : {N : Type 0} → Orientation → Nodes N → List N → GridNode N
collapse d nil sizes = branch d nil sizes
collapse d (cons c nil) sizes = c
collapse d (cons c (cons c' cs)) sizes = branch d (cons c (cons c' cs)) sizes

unfoldable mutual
  unfolding collapse

  pub simplify_tree : {N : Type 0} → GridNode N → GridNode N
  simplify_tree (leaf g) = leaf g
  simplify_tree (branch d cs sizes) = collapse d (simplify_children cs) sizes

  pub simplify_children : {N : Type 0} → Nodes N → Nodes N
  simplify_children nil = nil
  simplify_children (cons c cs) = cons (simplify_tree c) (simplify_children cs)

-- An index out of range leaves the node as it is.
unfoldable mutual
  pub update_sizes : {N : Type 0} → GridNode N → List ℤ → List N → GridNode N
  update_sizes (leaf g) path sizes = leaf g
  update_sizes (branch d cs old) [] sizes = branch d cs sizes
  update_sizes (branch d cs old) (idx ∷ rest) sizes = branch d (update_child cs idx rest sizes) old

  pub update_child : {N : Type 0} → Nodes N → ℤ → List ℤ → List N → Nodes N
  update_child nil idx rest sizes = nil
  update_child (cons c cs) (negsuc i) rest sizes = cons c cs
  update_child (cons c cs) (pos zero) rest sizes = cons (update_sizes c rest sizes) cs
  update_child (cons c cs) (pos (suc i)) rest sizes = cons c (update_child cs (pos i) rest sizes)

unfoldable mutual
  pub collect_leaf_ids : {N : Type 0} → GridNode N → List String
  collect_leaf_ids (leaf g) = g ∷ []
  collect_leaf_ids (branch d cs sizes) = collect_children_ids cs

  pub collect_children_ids : {N : Type 0} → Nodes N → List String
  collect_children_ids nil = []
  collect_children_ids (cons c cs) = collect_leaf_ids c ++ collect_children_ids cs
