-- ===== src/Terminal/Store.antt =====
-- src/lib/terminal-group-serializer.ts: what is stored of a layout, and how a stored one is healed.
pub mod Unique
pub mod Owners
pub mod Heal
pub mod Start
pub mod Kept
pub mod Restart
pub mod Return
pub mod Accept
pub mod Accepted
mod Examples
use mathlib.Core.Option
use r_shell.Prelude.{
  Bool, List, Option, String, [], false, filter, head?, if◌then◌else◌, map, none, some, true, ℕ,
  ◌==◌, ◌||◌, ◌∷◌,
}
use r_shell.Dict.{Dict, insert, lookup, map_values}
use r_shell.Terminal.State.{create_default_state, groups_read, read_group}
use r_shell.Terminal.Tabs.{find_tab, has_tab}
use r_shell.Terminal.Types.{
  GridNode, TerminalGroup, TerminalGroupState, TerminalTab, editor, pending,
}

-- `seen.has(id)`
pub is_seen : String → List String → Bool
is_seen id [] = false
is_seen id (s ∷ met) = s == id || is_seen id met

-- `group.tabs.filter(…)`: the first occurrence of each id that is not met yet.
pub unseen_tabs : List String → List TerminalTab → List TerminalTab
unfolding is_seen
unseen_tabs met [] = []
unseen_tabs met (t ∷ ts) =
    if is_seen t.id met then unseen_tabs met ts else t ∷ unseen_tabs (t.id ∷ met) ts

-- The set `seen` behind that filter.
pub seen_after : List String → List TerminalTab → List String
unfolding is_seen
seen_after met [] = met
seen_after met (t ∷ ts) = if is_seen t.id met then seen_after met ts else seen_after (t.id ∷ met) ts

-- `tabs.some(t => t.id === activeTabId) ? activeTabId : (tabs[0]?.id ?? null)`
pub active_or_first : Option String → List TerminalTab → Option String
active_or_first none tabs = Option.map (λ (t : TerminalTab). t.id) (head? tabs)
active_or_first (some id) tabs =
    if has_tab id tabs then some id else Option.map (λ (t : TerminalTab). t.id) (head? tabs)

-- A group with other tabs.
pub with_tabs : List TerminalTab → TerminalGroup → TerminalGroup
unfolding active_or_first
with_tabs tabs group = record group {
  tabs = tabs;
  active_tab_id = active_or_first group.active_tab_id tabs;
}

pub dedupe_groups : List String → Dict TerminalGroup → Dict TerminalGroup
unfolding unseen_tabs seen_after with_tabs
dedupe_groups met [] = []
dedupe_groups met ((id, group) ∷ groups) =
    (id, with_tabs (unseen_tabs met group.tabs) group)
    ∷ dedupe_groups (seen_after met group.tabs) groups

-- `tabToGroupMap[tab.id] = groupId` for the tabs of a group
pub own_tabs : String → List TerminalTab → Dict String → Dict String
own_tabs group_id [] owners = owners
own_tabs group_id (t ∷ ts) owners = own_tabs group_id ts (insert t.id group_id owners)

pub own_groups : Dict TerminalGroup → Dict String → Dict String
unfolding own_tabs
own_groups [] owners = owners
own_groups ((id, group) ∷ groups) owners = own_groups groups (own_tabs id group.tabs owners)

-- A stored layout, in which `tabToGroupMap` may be missing.
pub record StoredState (N : Type 0) : Type 0 where
  pub groups : Dict TerminalGroup
  pub active_group_id : String
  pub grid_layout : GridNode N
  pub next_group_id : ℕ
  pub tab_to_group_map : Option (Dict String)

abbrev pub pending_tab : TerminalTab → TerminalTab
pending_tab t = record t { connection_status = pending }

abbrev pub pending_group : TerminalGroup → TerminalGroup
pending_group g = record g { tabs = map pending_tab g.tabs }

-- `t.tabType !== 'editor'`
unfoldable pub not_editor : TerminalTab → Bool
not_editor t = elim t.tab_type [ some editor ↦ false | _ ↦ true ]

-- `saveState`: a group without its editor tabs. `tabs.find(…)` is tested as `tabs.some(…)`.
abbrev pub saved_group : TerminalGroup → TerminalGroup
saved_group g = with_tabs (filter not_editor g.tabs) g

-- Whether `saveState` keeps the entry of a tab that `group` owns.
pub keeps_entry : Option TerminalGroup → String → Bool
keeps_entry none tab_id = true
keeps_entry (some g) tab_id = elim (find_tab tab_id g.tabs) [ none ↦ true | some t ↦ not_editor t ]

pub saved_owners : Dict TerminalGroup → Dict String → Dict String
unfolding keeps_entry
saved_owners groups [] = []
saved_owners groups ((tab_id, g) ∷ owners) =
    let rest = saved_owners groups owners in
    if keeps_entry (lookup g groups) tab_id then (tab_id, g) ∷ rest else rest

-- A tab as `serialize` writes it, without its mark.
abbrev pub stored_tab : TerminalTab → TerminalTab
stored_tab t = record t { has_unread_output = none }

abbrev pub stored_group : TerminalGroup → TerminalGroup
stored_group g = record g { tabs = map stored_tab g.tabs }

module _ {N : Type 0} where
  pub dedupe_duplicate_tabs : StoredState N → StoredState N
  unfolding dedupe_groups own_groups
  dedupe_duplicate_tabs s =
      let groups = dedupe_groups [] s.groups in
      record s {
        groups = groups;
        tab_to_group_map = elim s.tab_to_group_map [
          | none ↦ none
          | some owners ↦ some (own_groups groups [])
        ];
      }

  -- `resetUnreadOutput` of src/lib/terminal-group-reducer.ts, which only reads and writes the groups
  pub reset_stored : StoredState N → StoredState N
  unfolding groups_read
  reset_stored s =
      if groups_read s.groups then s else record s { groups = map_values read_group s.groups }

  -- `deserialize`, behind its validation
  pub heal : StoredState N → StoredState N
  unfolding reset_stored dedupe_duplicate_tabs
  heal s = dedupe_duplicate_tabs (reset_stored s)

  -- `initializeState` of src/lib/terminal-group-context.tsx: `loaded` is what `loadState` returns, and
  -- `enabled` the setting that asks for it.
  pub initialize_state : Bool → Option (StoredState N) → TerminalGroupState N
  unfolding own_groups
  initialize_state enabled loaded =
      if enabled
      then elim loaded [
        | none ↦ create_default_state
        | some s ↦ record {
          groups = map_values pending_group s.groups;
          active_group_id = s.active_group_id;
          grid_layout = s.grid_layout;
          next_group_id = s.next_group_id;
          tab_to_group_map = own_groups s.groups [];
        }
      ]
      else create_default_state

  -- What `saveState` passes to `serialize`.
  pub save_state : TerminalGroupState N → TerminalGroupState N
  unfolding saved_owners
  save_state s = record s {
    groups = map_values saved_group s.groups;
    tab_to_group_map = saved_owners s.groups s.tab_to_group_map;
  }

  -- The data in the envelope that `serialize` writes.
  pub serialize_data : TerminalGroupState N → StoredState N
  serialize_data s = record {
    groups = map_values stored_group s.groups;
    active_group_id = s.active_group_id;
    grid_layout = s.grid_layout;
    next_group_id = s.next_group_id;
    tab_to_group_map = some s.tab_to_group_map;
  }
