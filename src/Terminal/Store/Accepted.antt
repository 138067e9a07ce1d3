-- ===== src/Terminal/Store/Accepted.antt =====
-- Which layouts are accepted once they are stored: what `JSON.parse` gives back for the text that
-- `serialize` of src/lib/terminal-group-serializer.ts writes, and the tests on it.
use r_shell.Prelude.{
  Bool, List, Option, String, [], all, ap, arith, eqb, false, if◌then◌else◌, length, none, pos,
  refl, some, suc, sym, true, ℕ, ◌&&◌, ◌↔◌, ◌∙◌, ◌∷◌, ◌≡◌,
}
use r_shell.Dict.{Dict}
use r_shell.Json.{
  Elements, Json, Members, array, element, end_array, end_object, entry, integer, null, object,
  text,
}
use r_shell.Terminal.Grid.Sizes.{AllAligned, IsAligned, children_count}
use r_shell.Terminal.Store.Accept.{
  accepted_data, all_valid, are_valid_groups, children_valid, elements_count, every_valid,
  is_valid_grid_node, is_valid_group, is_valid_state,
}
use r_shell.Terminal.Types.{
  GridNode, Nodes, Orientation, TerminalGroup, TerminalGroupState, TerminalTab, branch, cons,
  horizontal, leaf, nil, vertical,
}

abbrev pub orientation_json : Orientation → Json
orientation_json horizontal = text "horizontal"
orientation_json vertical = text "vertical"

abbrev pub optional_json : Option String → Json
optional_json none = null
optional_json (some value) = text value

both_true : (a b : ℕ) (all : Bool) → (eqb a b && all) ≡ true → (a ≡ b) × (all ≡ true)
both_true a b all h = (ground (arith, h), ground (arith, h))

and_true : (a b : Bool) → (a && b) ≡ true → (a ≡ true) × (b ≡ true)
and_true true b h = (refl, h)
and_true false b h = (h, cc)

true_and : (a b : Bool) → a ≡ true → b ≡ true → (a && b) ≡ true
true_and a b h h' = rw (h, h')

true_both : (a b : ℕ) (all : Bool) → a ≡ b → all ≡ true → (eqb a b && all) ≡ true
true_both a b all same h = ground (arith, same, h)

last_true : (a b : Bool) → b ≡ true → (a && b) ≡ a
last_true true b h = h
last_true false b h = refl

-- What is found only where a test succeeds.
found_iff {ℓ} : {A : Type ℓ} (b : Bool) (x : A) → (if b then some x else none) ≡ some x ↔ b ≡ true
found_iff true x = (λ h. refl, λ h. refl)
found_iff false x = (λ h. cc, λ h. cc)

module _ {N : Type 0} (number_json : N → Json) where
  abbrev pub sizes_json : List N → Elements
  sizes_json [] = end_array
  sizes_json (n ∷ ns) = element (number_json n) (sizes_json ns)

  unfoldable mutual
    pub grid_json : GridNode N → Json
    grid_json (leaf g) = object (entry "type" (text "leaf") (entry "groupId" (text g) end_object))
    grid_json (branch d cs sizes) = object (
        entry "type" (text "branch") (
          entry "direction" (orientation_json d) (
            entry "children" (array (children_json cs))
              (entry "sizes" (array (sizes_json sizes)) end_object))))

    pub children_json : Nodes N → Elements
    children_json nil = end_array
    children_json (cons c cs) = element (grid_json c) (children_json cs)

  count-children_json : (cs : Nodes N) → elements_count (children_json cs) ≡ children_count cs
  unfolding children_json
  count-children_json nil = refl
  count-children_json (cons c cs) = ap suc (count-children_json cs)

  count-sizes_json : (sizes : List N) → elements_count (sizes_json sizes) ≡ length sizes
  count-sizes_json [] = refl
  count-sizes_json (n ∷ ns) = ap suc (count-sizes_json ns)

  valid-branch :
      (d : Orientation) (cs : Nodes N) (sizes : List N)
      → is_valid_grid_node (grid_json (branch d cs sizes)) ≡ (
          eqb (elements_count (children_json cs)) (elements_count (sizes_json sizes))
          && all_valid (children_json cs))
  unfolding grid_json is_valid_grid_node children_valid every_valid
  valid-branch horizontal cs sizes = refl
  valid-branch vertical cs sizes = refl

  mutual
    unfolding IsAligned is_valid_grid_node all_valid grid_json

    accepted_node :
        (node : GridNode N) → is_valid_grid_node (grid_json node) ≡ true → IsAligned node
    accepted_node (leaf g) h = tt
    accepted_node (branch d cs sizes) h =
        let both = both_true _ _ _ (sym (valid-branch d cs sizes) ∙ h) in
        (
          sym (count-children_json cs) ∙ both.0 ∙ count-sizes_json sizes,
          accepted_children cs both.1,
        )

    accepted_children : (cs : Nodes N) → all_valid (children_json cs) ≡ true → AllAligned cs
    accepted_children nil h = tt
    accepted_children (cons c cs) h =
        let both = and_true _ _ h in (accepted_node c both.0, accepted_children cs both.1)

  mutual
    unfolding IsAligned is_valid_grid_node all_valid grid_json

    aligned_node : (node : GridNode N) → IsAligned node → is_valid_grid_node (grid_json node) ≡ true
    aligned_node (leaf g) h = refl
    aligned_node (branch d cs sizes) (same, all) =
        valid-branch d cs sizes
        ∙ true_both _ _ _ (count-children_json cs ∙ same ∙ sym (count-sizes_json sizes))
            (aligned_children cs all)

    aligned_children : (cs : Nodes N) → AllAligned cs → all_valid (children_json cs) ≡ true
    aligned_children nil h = refl
    aligned_children (cons c cs) (h, hs) = true_and _ _ (aligned_node c h) (aligned_children cs hs)

  -- `isValidGridNode` accepts a tree that was written as JSON just when every branch of it has one
  -- size for each child.
  pub is_valid_grid_node-IsAligned :
      (node : GridNode N) → is_valid_grid_node (grid_json node) ≡ true ↔ IsAligned node
  is_valid_grid_node-IsAligned node = (accepted_node node, aligned_node node)

  module _ (tab_json : TerminalTab → Json) where
    abbrev pub tabs_json : List TerminalTab → Elements
    tabs_json [] = end_array
    tabs_json (t ∷ ts) = element (tab_json t) (tabs_json ts)

    abbrev pub group_json : TerminalGroup → Json
    group_json g = object (
        entry "id" (text g.id) (
          entry "tabs" (array (tabs_json g.tabs))
            (entry "activeTabId" (optional_json g.active_tab_id) end_object)))

    abbrev pub groups_json : Dict TerminalGroup → Members
    groups_json [] = end_object
    groups_json ((k, g) ∷ gs) = entry k (group_json g) (groups_json gs)

    abbrev pub owners_json : Dict String → Members
    owners_json [] = end_object
    owners_json ((k, g) ∷ owners) = entry k (text g) (owners_json owners)

    abbrev pub data_json : TerminalGroupState N → Json
    data_json s = object (
        entry "groups" (object (groups_json s.groups)) (
          entry "activeGroupId" (text s.active_group_id) (
            entry "gridLayout" (grid_json s.grid_layout) (
              entry "nextGroupId" (integer (pos s.next_group_id))
                (entry "tabToGroupMap" (object (owners_json s.tab_to_group_map)) end_object)))))

    -- The envelope of `serialize`, with the data of a layout
    abbrev pub envelope_json : TerminalGroupState N → Json
    envelope_json s =
        object (entry "version" (integer (pos 1)) (entry "data" (data_json s) end_object))

    group_accepted :
        (g : TerminalGroup) (active : Option String)
        → is_valid_group (group_json (record g { active_tab_id = active })) ≡ true
    unfolding is_valid_group
    group_accepted g none = refl
    group_accepted g (some id) = refl

    groups_accepted : (gs : Dict TerminalGroup) → are_valid_groups (groups_json gs) ≡ true
    unfolding are_valid_groups
    groups_accepted [] = refl
    groups_accepted ((k, g) ∷ gs) =
        ground (arith, group_accepted g g.active_tab_id, groups_accepted gs)

    valid-data_json :
        (s : TerminalGroupState N)
        → is_valid_state (data_json s) ≡ is_valid_grid_node (grid_json s.grid_layout)
    unfolding is_valid_state
    valid-data_json s = last_true _ _ (groups_accepted s.groups)

    -- `deserialize` accepts the text that `serialize` writes, and finds the data in it, just when
    -- every branch of the tree has one size for each child: it passes the tests of the version, of
    -- the fields and of the groups in any case.
    pub accepted_data-IsAligned :
        (s : TerminalGroupState N)
        → (accepted_data (envelope_json s) ≡ some (data_json s)) ↔ IsAligned s.grid_layout
    unfolding accepted_data
    accepted_data-IsAligned s =
        let found = found_iff (is_valid_state (data_json s)) (data_json s) in
        (
          λ h. accepted_node s.grid_layout (sym (valid-data_json s) ∙ found.0 h),
          λ h. found.1 (valid-data_json s ∙ aligned_node s.grid_layout h),
        )
