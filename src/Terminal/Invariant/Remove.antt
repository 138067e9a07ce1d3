-- ===== src/Terminal/Invariant/Remove.antt =====
-- `removeGroupFromState` and `maybeRemoveEmptyGroup` on a valid layout.
use r_shell.Prelude.{
  Bool-cases, List, Option, Option-cases, String, ap, arith, count, eq_iff, false, head?,
  if◌then◌else◌, inl, inr, leb, length, ltb, none, refl, show, some, sym, true, ◌<◌, ◌==◌, ◌∙◌, ◌≡◌,
}
use r_shell.Dict.{Dict, erase, has, keys, lookup}
use r_shell.Dict.Keys.{erase-IsObject, length-keys, other_key}
use r_shell.Dict.Lookup.{lookup-erase}
use r_shell.Terminal.Grid.{collect_leaf_ids, remove_leaf, removed}
use r_shell.Terminal.Grid.Leaves.{count-head?, count-head?-none, count-without}
use r_shell.Terminal.Grid.Remove.{ids-removed, ids_of}
use r_shell.Terminal.Grid.Simplify.{ids-simplify_tree}
use r_shell.Terminal.Invariant.{IsValid, held_by, held_in, held_in-forget}
use r_shell.Terminal.State.{
  active_after, grid_without, maybe_remove_empty_group, remove_group_from_state, tabs_of,
  with_group,
}
use r_shell.Terminal.Tabs.{forget_tabs, tab_ids}
use r_shell.Terminal.Tabs.Count.{lookup-forget_tabs}
use r_shell.Terminal.Types.{Float, GridNode, TerminalGroup, TerminalGroupState}

module _ {N : Type 0} (num : Float N) {s : TerminalGroupState N} (v : IsValid s) where
  has-erase : (g j : String) → has j (erase g s.groups) ≡ (if g == j then false else has j s.groups)
  has-erase g j = elim (Bool-cases (g == j)) [
    | inl e ↦ rw (lookup-erase g j s.groups, e)
    | inr e ↦ rw (lookup-erase g j s.groups, e)
  ]

  module _ (g : String) (many : 1 < length s.groups) where
    -- The tree has a leaf that stays.
    leaf_stays : (j : String) × ((g == j) ≡ false) × (count j (collect_leaf_ids s.grid_layout) ≡ 1)
    leaf_stays =
        let (j, group, other, there) = other_key g s.groups v.object many in
        (j, other, v.leaves j ∙ rw there)

    abbrev gs : Dict TerminalGroup
    gs = erase g s.groups

    -- The new tree has the other leaves.
    count-grid_without :
        (j : String)
        → count j (collect_leaf_ids (grid_without num s.grid_layout g gs))
          ≡ (if g == j then 0 else count j (collect_leaf_ids s.grid_layout))
    unfolding grid_without
    count-grid_without j = by_result (removed s.grid_layout (remove_leaf num s.grid_layout g)) refl
      where
        by_result :
            (r : Option (GridNode N))
            → removed s.grid_layout (remove_leaf num s.grid_layout g) ≡ r
            → count j (collect_leaf_ids (grid_without num s.grid_layout g gs))
              ≡ (if g == j then 0 else count j (collect_leaf_ids s.grid_layout))
        by_result none e =
            let (k, other, one) = leaf_stays in
            absurd (
              ground (
                arith,
                other,
                one,
                ap (count k) (ap ids_of (sym e) ∙ ids-removed num g s.grid_layout),
                count-without g k (collect_leaf_ids s.grid_layout),
              ))
        by_result (some node) e =
            rw (e, grid_without)
              (ap (count j)
                  (ids-simplify_tree node ∙ ap ids_of (sym e) ∙ ids-removed num g s.grid_layout)
                ∙ count-without g j (collect_leaf_ids s.grid_layout))

    leaves_left :
        (j : String)
        → count j (collect_leaf_ids (grid_without num s.grid_layout g gs))
          ≡ (if has j gs then 1 else 0)
    leaves_left j = count-grid_without j ∙ rw (has-erase g j) (ground (arith, v.leaves j))

    active_left :
        has (active_after s.active_group_id g (grid_without num s.grid_layout g gs) gs) gs ≡ true
    unfolding active_after
    active_left = elim (Bool-cases (s.active_group_id == g)) [
      | inr stays ↦ rw stays (
          rw (has-erase g s.active_group_id)
            (ground (arith, v.active, eq_iff g s.active_group_id, eq_iff s.active_group_id g)))
      | inl e ↦ rw e (elim (Option-cases (head? ids)) [
        | inl empty ↦
            let (k, other, one) = leaf_stays in
            absurd (ground (arith, other, one, count-head?-none k ids empty, count-grid_without k))
        | inr (id, first) ↦ rw first (ground (arith, leaves_left id, count-head? id ids first))
      ])
    ]
      where
        ids : List String
        ids = collect_leaf_ids (grid_without num s.grid_layout g gs)

    forgotten_held :
        (group : TerminalGroup)
        → lookup g s.groups ≡ some group
        → (j t : String)
        → count t (tab_ids (tabs_of j gs))
          ≡ held_in j (lookup t (forget_tabs group.tabs s.tab_to_group_map))
    forgotten_held group e j t =
        rw
          (
            lookup-forget_tabs t group.tabs s.tab_to_group_map,
            held_in-forget g j (lookup t s.tab_to_group_map) (count t (tab_ids group.tabs))
                (omega (arith, kept_count)),
          )
          (elim (Bool-cases (g == j)) [
            | inl same ↦ rw (tabs_of, lookup-erase g j s.groups, same) (omega (arith, kept_count))
            | inr other ↦ rw (tabs_of, lookup-erase g j s.groups, other) (v.held j t)
          ])
      where
        kept_count : count t (tab_ids group.tabs) ≡ held_in g (lookup t s.tab_to_group_map)
        kept_count = held_by v g e t

    pub remove_group_from_state-IsValid :
        (group : TerminalGroup)
        → lookup g s.groups ≡ some group
        → IsValid (remove_group_from_state num s g)
    unfolding remove_group_from_state
    remove_group_from_state-IsValid group e = record {
      object = erase-IsObject g s.groups v.object;
      group_ok = λ j other h. v.group_ok j other (ground (arith, h, lookup-erase g j s.groups));
      held = rw (tabs_of, e) (forgotten_held group e);
      leaves = leaves_left;
      active = active_left;
      fresh = λ n h. rw (has-erase g (show n)) (ground (arith, v.fresh n h));
    }

-- An empty group goes, unless it is the last one.
pub maybe_remove_empty_group-IsValid :
    {N : Type 0} (num : Float N) {s : TerminalGroupState N} (g : String)
    → IsValid s
    → IsValid (maybe_remove_empty_group num s g)
unfolding maybe_remove_empty_group
maybe_remove_empty_group-IsValid num {s} g v = elim (Option-cases (lookup g s.groups)) [
  | inl e ↦ rw (with_group, e) v
  | inr (group, e) ↦
      rw (with_group, e)
        (elim (Bool-cases (ltb 0 (length group.tabs))) [
          | inl full ↦ rw full v
          | inr empty ↦ rw empty (elim (Bool-cases (leb (length (keys s.groups)) 1)) [
            | inl last ↦ rw last v
            | inr many ↦ rw many (
                remove_group_from_state-IsValid num v g (ground (arith, many, length-keys s.groups))
                  group e)
          ])
        ])
]
