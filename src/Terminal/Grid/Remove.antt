-- ===== src/Terminal/Grid/Remove.antt =====
-- The leaves after `removeLeaf`.
use r_shell.Prelude.{
  List, Option, String, [], ap, arith, false, none, refl, some, sym, ◌++◌, ◌∙◌, ◌≡◌,
}
use r_shell.Terminal.Grid.{
  Removal, Survivors, collect_children_ids, collect_leaf_ids, gone, head_size, kept, rebuilt,
  remove_children, remove_leaf, removed, rest_sizes, settle, survive,
}
use r_shell.Terminal.Grid.Leaves.{without, without-append}
use r_shell.Terminal.Types.{Float, GridNode, Nodes, Orientation, branch, cons, leaf, nil}

abbrev pub ids_of : {N : Type 0} → Option (GridNode N) → List String
ids_of none = []
ids_of (some node) = collect_leaf_ids node

module _ {N : Type 0} (num : Float N) (g : String) where
  -- Where no child is dropped and none changed, the children are the old ones.
  unchanged :
      (cs : Nodes N) (sizes : List N)
      → (remove_children num cs sizes g).dropped ≡ false
      → (remove_children num cs sizes g).changed ≡ false
      → (remove_children num cs sizes g).children ≡ cs
  unfolding remove_leaf survive
  unchanged nil sizes p q = refl
  unchanged (cons c cs) sizes p q = ground (arith, unchanged cs (rest_sizes num sizes))

  ids-settle :
      (d : Orientation) (k : Survivors N) (cs : Nodes N) (sizes : List N)
      → (k.dropped ≡ false → k.changed ≡ false → k.children ≡ cs)
      → ids_of (removed (branch d cs sizes) (settle num d k)) ≡ collect_children_ids k.children
  unfolding settle collect_leaf_ids
  ids-settle d k cs sizes h = by_children k.children refl
    where
      by_children :
          (ks : Nodes N)
          → k.children ≡ ks
          → ids_of (removed (branch d cs sizes) (settle num d k)) ≡ collect_children_ids k.children
      by_children nil e = ground arith
      by_children (cons c rest) e = ground (
        arith,
        λ (p : k.dropped ≡ false) (q : k.changed ≡ false). ap collect_children_ids (h p q),
      )

  ids-survive :
      (r : Removal N) (c : GridNode N) (s : N) (rest : Survivors N)
      → collect_children_ids (survive num r c s rest).children
        ≡ ids_of (removed c r) ++ collect_children_ids rest.children
  unfolding survive collect_leaf_ids
  ids-survive gone c s rest = refl
  ids-survive kept c s rest = refl
  ids-survive (rebuilt c') c s rest = refl

  mutual
    unfolding remove_leaf collect_leaf_ids survive

    ids-remove_leaf :
        (node : GridNode N)
        → ids_of (removed node (remove_leaf num node g)) ≡ without g (collect_leaf_ids node)
    ids-remove_leaf (leaf x) = ground arith
    ids-remove_leaf (branch d cs sizes) =
        ids-settle d (remove_children num cs sizes g) cs sizes (unchanged cs sizes)
        ∙ ids-remove_children cs sizes

    ids-remove_children :
        (cs : Nodes N) (sizes : List N)
        → collect_children_ids (remove_children num cs sizes g).children
          ≡ without g (collect_children_ids cs)
    ids-remove_children nil sizes = refl
    ids-remove_children (cons c cs) sizes =
        ids-survive (remove_leaf num c g) c (head_size num sizes)
          (remove_children num cs (rest_sizes num sizes) g)
        ∙ rw (ids-remove_leaf c, ids-remove_children cs (rest_sizes num sizes))
            (sym (without-append g (collect_leaf_ids c) _))

  -- After `removeLeaf` the leaves of the other groups stand in their old order, and there is none of
  -- the group that is removed; where the result is `null`, no leaf of another group was there.
  pub ids-removed :
      (node : GridNode N)
      → ids_of (removed node (remove_leaf num node g)) ≡ without g (collect_leaf_ids node)
  ids-removed = ids-remove_leaf
