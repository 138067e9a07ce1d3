-- ===== src/Terminal/State.antt =====
-- src/lib/terminal-group-reducer.ts: the default state, the removal of a group, and which tabs are
-- shown and read.
use r_shell.Prelude.{
  Bool, List, Option, String, [], false, head?, if◌then◌else◌, is_some, leb, length, ltb, map, none,
  not, or_else, some, true, ◌&&◌, ◌==◌, ◌∷◌,
}
use r_shell.Dict.{Dict, erase, insert, keys, lookup, map_values}
use r_shell.Terminal.Grid.{collect_leaf_ids, find_leaf_path, remove_leaf, removed, simplify_tree}
use r_shell.Terminal.Tabs.{forget_tabs}
use r_shell.Terminal.Types.{Float, GridNode, TerminalGroup, TerminalGroupState, TerminalTab, leaf}

unfoldable pub create_default_state : {N : Type 0} → TerminalGroupState N
create_default_state = record {
  groups = insert "1" (record { id = "1"; tabs = []; active_tab_id = none }) [];
  active_group_id = "1";
  grid_layout = leaf "1";
  next_group_id = 2;
  tab_to_group_map = [];
}

-- `groups[id]?.activeTabId === tabId`
unfoldable pub is_active_in : Option TerminalGroup → String → Bool
is_active_in none tab_id = false
is_active_in (some g) tab_id = elim g.active_tab_id [ none ↦ false | some id ↦ id == tab_id ]

unfoldable pub all_read : List TerminalTab → Bool
all_read [] = true
all_read (t ∷ ts) =
    elim t.has_unread_output [ some unread ↦ not unread | none ↦ false ] && all_read ts

unfoldable pub groups_read : Dict TerminalGroup → Bool
unfolding all_read
groups_read [] = true
groups_read ((id, g) ∷ gs) = all_read g.tabs && groups_read gs

abbrev pub read_tab : TerminalTab → TerminalTab
read_tab t = record t { has_unread_output = some false }

abbrev pub read_group : TerminalGroup → TerminalGroup
read_group g = record g { tabs = map read_tab g.tabs }

-- The id that stands for a missing one: `undefined` as a property's name.
abbrev pub undefined : String
undefined = "undefined"

abbrev pub tabs_of : String → Dict TerminalGroup → List TerminalTab
tabs_of group_id groups = elim (lookup group_id groups) [ none ↦ [] | some group ↦ group.tabs ]

module _ {N : Type 0} where
  -- `groups: { ...state.groups, [groupId]: group }`
  abbrev pub set_group : TerminalGroupState N → String → TerminalGroup → TerminalGroupState N
  set_group s group_id group = record s { groups = insert group_id group s.groups }

  -- `const group = state.groups[groupId]; if (!group) return state;`
  abbrev pub with_group :
      TerminalGroupState N → String → (TerminalGroup → TerminalGroupState N) → TerminalGroupState N
  with_group s group_id f = elim (lookup group_id s.groups) [ none ↦ s | some group ↦ f group ]

  -- `state.tabToGroupMap[tabId]`, `none` also for the empty text, which counts as false
  unfoldable pub owner : TerminalGroupState N → String → Option String
  owner s tab_id = elim (lookup tab_id s.tab_to_group_map) [
    | none ↦ none
    | some g ↦ if g == "" then none else some g
  ]

  unfoldable pub is_terminal_tab_visible : TerminalGroupState N → String → Bool
  unfolding owner is_active_in
  is_terminal_tab_visible s tab_id = elim (owner s tab_id) [
    | none ↦ false
    | some g ↦ is_active_in (lookup g s.groups) tab_id && is_some (find_leaf_path s.grid_layout g)
  ]

  unfoldable pub reset_unread_output : TerminalGroupState N → TerminalGroupState N
  unfolding groups_read
  reset_unread_output s =
      if groups_read s.groups then s else record s { groups = map_values read_group s.groups }

  -- The tree without the group, simplified. The last group is never removed, so that the tree has
  -- another leaf; the source keeps a fallback, the first group that remains.
  unfoldable pub grid_without : Float N → GridNode N → String → Dict TerminalGroup → GridNode N
  grid_without num grid group_id new_groups = elim (removed grid (remove_leaf num grid group_id)) [
    | none ↦ simplify_tree (leaf (or_else (head? (keys new_groups)) undefined))
    | some node ↦ simplify_tree node
  ]

  unfoldable pub active_after : String → String → GridNode N → Dict TerminalGroup → String
  active_after active group_id new_grid new_groups =
      if active == group_id
      then elim (head? (collect_leaf_ids new_grid)) [
        | some id ↦ id
        | none ↦ or_else (head? (keys new_groups)) undefined
      ]
      else active

  unfoldable pub remove_group_from_state :
      Float N → TerminalGroupState N → String → TerminalGroupState N
  unfolding grid_without active_after
  remove_group_from_state num s group_id =
      let new_groups = erase group_id s.groups in
      let new_grid = grid_without num s.grid_layout group_id new_groups in
      record s {
        groups = new_groups;
        grid_layout = new_grid;
        active_group_id = active_after s.active_group_id group_id new_grid new_groups;
        tab_to_group_map = forget_tabs (tabs_of group_id s.groups) s.tab_to_group_map;
      }

  unfoldable pub maybe_remove_empty_group :
      Float N → TerminalGroupState N → String → TerminalGroupState N
  unfolding remove_group_from_state
  maybe_remove_empty_group num s group_id = with_group s group_id λ group.
      if ltb 0 (length group.tabs)
      then s
      else if leb (length (keys s.groups)) 1
      then s
      else remove_group_from_state num s group_id
