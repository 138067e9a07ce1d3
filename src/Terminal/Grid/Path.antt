-- ===== src/Terminal/Grid/Path.antt =====
-- Paths in the tree, and `findLeafPath` of src/lib/terminal-group-reducer.ts.
use r_shell.Prelude.{
  List, Option, String, [], ap, arith, count, count-append, eq_iff, none, refl, some, suc, zero, ℕ,
  ◌+◌, ◌∙◌, ◌∷◌, ◌≡◌, ◌≤◌,
}
use r_shell.Terminal.Grid.{
  collect_children_ids, collect_leaf_ids, find_leaf_path, find_leaf_path_from,
}
use r_shell.Terminal.Types.{GridNode, Nodes, Orientation, branch, cons, leaf, nil}

mutual
  -- The node at a path of child indices.
  pub node_at : {N : Type 0} → GridNode N → List ℕ → Option (GridNode N)
  node_at node [] = some node
  node_at (leaf g) (i ∷ path) = none
  node_at (branch d cs sizes) (i ∷ path) = child_at cs i path

  pub child_at : {N : Type 0} → Nodes N → ℕ → List ℕ → Option (GridNode N)
  child_at nil i path = none
  child_at (cons c cs) zero path = node_at c path
  child_at (cons c cs) (suc i) path = child_at cs i path

module _ {N : Type 0} (g : String) where
  -- What a search among the children from number `i` has found.
  abbrev FoundFrom : Nodes N → ℕ → Option (List ℕ) → Type 0
  FoundFrom cs i none = count g (collect_children_ids cs) ≡ 0
  FoundFrom cs i (some path) =
      (k : ℕ) × (rest : List ℕ) × (path ≡ (i + k) ∷ rest)
      × (child_at cs k rest ≡ some (leaf g))
      × (1 ≤ count g (collect_children_ids cs))

  -- What a search has found: a path to a leaf of the group, or that there is none.
  abbrev pub Found : GridNode N → Option (List ℕ) → Type 0
  Found node none = count g (collect_leaf_ids node) ≡ 0
  Found node (some path) =
      (node_at node path ≡ some (leaf g)) × (1 ≤ count g (collect_leaf_ids node))

  Found-first :
      (c : GridNode N) (cs : Nodes N) (i : ℕ) (here : Option (List ℕ)) (later : Option (List ℕ))
      → Found c here
      → FoundFrom cs (i + 1) later
      → FoundFrom (cons c cs) i (elim here [ some sub ↦ some (i ∷ sub) | none ↦ later ])
  unfolding node_at collect_leaf_ids
  Found-first c cs i (some sub) later h l = (
    0,
    sub,
    ap (◌∷ sub) (omega arith),
    h.0,
    omega (arith, h.1, count-append g (collect_leaf_ids c) (collect_children_ids cs)),
  )
  Found-first c cs i none none h l =
      omega (arith, count-append g (collect_leaf_ids c) (collect_children_ids cs))
  Found-first c cs i none (some path) h (k, rest, e, at, some_there) = (
    suc k,
    rest,
    e ∙ ap (◌∷ rest) (omega arith),
    at,
    omega (arith, count-append g (collect_leaf_ids c) (collect_children_ids cs)),
  )

  Found-children :
      (d : Orientation) (cs : Nodes N) (sizes : List N) (r : Option (List ℕ))
      → FoundFrom cs 0 r
      → Found (branch d cs sizes) r
  unfolding node_at collect_leaf_ids
  Found-children d cs sizes none h = h
  Found-children d cs sizes (some path) (k, rest, e, at, there) =
      (rw e (ap (λ m. child_at cs m rest) (omega arith) ∙ at), there)

  mutual
    unfolding find_leaf_path collect_leaf_ids node_at

    found : (node : GridNode N) → Found node (find_leaf_path node g)
    found (leaf x) = ground (arith, eq_iff x g)
    found (branch d cs sizes) = Found-children d cs sizes _ (found_from cs 0)

    found_from : (cs : Nodes N) (i : ℕ) → FoundFrom cs i (find_leaf_path_from cs i g)
    found_from nil i = refl
    found_from (cons c cs) i =
        Found-first c cs i (find_leaf_path c g) _ (found c) (found_from cs (i + 1))

  -- `findLeafPath` returns a path just where the tree has a leaf of the group, and the path leads
  -- to such a leaf.
  pub find_leaf_path-Found : (node : GridNode N) → Found node (find_leaf_path node g)
  find_leaf_path-Found = found
