-- ===== src/Terminal/Grid/Simplify.antt =====
-- `simplifyTree` of src/lib/terminal-group-reducer.ts: its leaves and its branches.
use mathlib.Core.List.{append-nil}
use r_shell.Prelude.{Bool, List, ap, false, refl, sym, true, ◌∙◌, ◌≡◌}
use r_shell.Terminal.Grid.{
  collapse, collect_children_ids, collect_leaf_ids, simplify_children, simplify_tree,
}
use r_shell.Terminal.Types.{GridNode, Nodes, Orientation, branch, cons, leaf, nil}

ids-collapse :
    {N : Type 0} (d : Orientation) (cs : Nodes N) (sizes : List N)
    → collect_leaf_ids (collapse d cs sizes) ≡ collect_children_ids cs
unfolding collapse collect_leaf_ids
ids-collapse d nil sizes = refl
ids-collapse d (cons c nil) sizes = sym (append-nil (collect_leaf_ids c))
ids-collapse d (cons c (cons c' cs)) sizes = refl

mutual
  unfolding simplify_tree collect_leaf_ids collapse

  ids-simplify :
      {N : Type 0} (node : GridNode N)
      → collect_leaf_ids (simplify_tree node) ≡ collect_leaf_ids node
  ids-simplify (leaf g) = refl
  ids-simplify (branch d cs sizes) =
      ids-collapse d (simplify_children cs) sizes ∙ ids-simplify_children cs

  ids-simplify_children :
      {N : Type 0} (cs : Nodes N)
      → collect_children_ids (simplify_children cs) ≡ collect_children_ids cs
  ids-simplify_children nil = refl
  ids-simplify_children (cons c cs) = rw (ids-simplify c, ids-simplify_children cs)

-- No leaf is lost, made up or moved.
pub ids-simplify_tree :
    {N : Type 0} (node : GridNode N) → collect_leaf_ids (simplify_tree node) ≡ collect_leaf_ids node
ids-simplify_tree = ids-simplify

abbrev pub is_single : {N : Type 0} → Nodes N → Bool
is_single nil = false
is_single (cons c nil) = true
is_single (cons c (cons c' cs)) = false

-- No branch has exactly one child.
mutual
  pub IsSimple : {N : Type 0} → GridNode N → Type 0
  IsSimple (leaf g) = Unit {0}
  IsSimple (branch d cs sizes) = (is_single cs ≡ false) × AllSimple cs

  pub AllSimple : {N : Type 0} → Nodes N → Type 0
  AllSimple nil = Unit {0}
  AllSimple (cons c cs) = IsSimple c × AllSimple cs

collapse-IsSimple :
    {N : Type 0} (d : Orientation) (cs : Nodes N) (sizes : List N)
    → AllSimple cs
    → IsSimple (collapse d cs sizes)
unfolding collapse IsSimple
collapse-IsSimple d nil sizes h = (refl, tt)
collapse-IsSimple d (cons c nil) sizes h = h.0
collapse-IsSimple d (cons c (cons c' cs)) sizes h = (refl, h)

mutual
  unfolding simplify_tree IsSimple

  IsSimple-result : {N : Type 0} (node : GridNode N) → IsSimple (simplify_tree node)
  IsSimple-result (leaf g) = tt
  IsSimple-result (branch d cs sizes) =
      collapse-IsSimple d (simplify_children cs) sizes (AllSimple-results cs)

  AllSimple-results : {N : Type 0} (cs : Nodes N) → AllSimple (simplify_children cs)
  AllSimple-results nil = tt
  AllSimple-results (cons c cs) = (IsSimple-result c, AllSimple-results cs)

collapse_fixed :
    {N : Type 0} (d : Orientation) (cs : Nodes N) (sizes : List N)
    → is_single cs ≡ false
    → collapse d cs sizes ≡ branch d cs sizes
unfolding collapse
collapse_fixed d nil sizes h = refl
collapse_fixed d (cons c nil) sizes h = cc
collapse_fixed d (cons c (cons c' cs)) sizes h = refl

mutual
  unfolding simplify_tree IsSimple collapse

  IsSimple-fixed : {N : Type 0} (node : GridNode N) → IsSimple node → simplify_tree node ≡ node
  IsSimple-fixed (leaf g) h = refl
  IsSimple-fixed (branch d cs sizes) h =
      ap (λ ks. collapse d ks sizes) (AllSimple-fixed cs h.1) ∙ collapse_fixed d cs sizes h.0

  AllSimple-fixed : {N : Type 0} (cs : Nodes N) → AllSimple cs → simplify_children cs ≡ cs
  AllSimple-fixed nil h = refl
  AllSimple-fixed (cons c cs) h = rw (IsSimple-fixed c h.0, AllSimple-fixed cs h.1)

-- The simplified tree has the same leaves in the same order, no branch with a single child, and is
-- not changed by simplifying it again.
pub simplify_tree-IsSimple :
    {N : Type 0} (node : GridNode N)
    → (collect_leaf_ids (simplify_tree node) ≡ collect_leaf_ids node)
      × IsSimple (simplify_tree node)
      × (simplify_tree (simplify_tree node) ≡ simplify_tree node)
simplify_tree-IsSimple node = (
  ids-simplify node,
  IsSimple-result node,
  IsSimple-fixed (simplify_tree node) (IsSimple-result node),
)
