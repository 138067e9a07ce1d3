-- ===== src/Terminal/Store/Examples.antt =====
-- Tests of stored layouts, and the theorems about them at concrete layouts.
use mathlib.Core.Option
use r_shell.Prelude.{
  Option, String, [], count, eqb, false, filter, map, min, none, pos, read_digits, refl, show, some,
  some_inj, subst, true, ℕ, ◌*◌, ◌+◌, ◌/◌, ◌↔◌, ◌∷◌, ◌≡◌,
}
use r_shell.Dict.{insert, keys, lookup, map_values}
use r_shell.Json.{Json, end_object, entry, integer, object, text}
use r_shell.Terminal.Grid.Sizes.{IsAligned}
use r_shell.Terminal.Invariant.{IsValid}
use r_shell.Terminal.Invariant.Actions.{reducer-IsValid}
use r_shell.Terminal.Reach.{Reach-IsValid, start, step}
use r_shell.Terminal.Reducer.{terminal_group_reducer}
use r_shell.Terminal.Reducer.Groups.{reduce_split_group}
use r_shell.Terminal.Reducer.Tabs.{reduce_add_tab, tab_in_any}
use r_shell.Terminal.State.{create_default_state, tabs_of}
use r_shell.Terminal.Store.{
  StoredState, dedupe_groups, heal, initialize_state, not_editor, save_state, serialize_data,
}
use r_shell.Terminal.Store.Accept.{accepted_data, is_valid_grid_node}
use r_shell.Terminal.Store.Accepted.{
  accepted_data-IsAligned, data_json, envelope_json, grid_json, is_valid_grid_node-IsAligned,
}
use r_shell.Terminal.Store.Heal.{IsFramed}
use r_shell.Terminal.Store.Restart.{restart}
use r_shell.Terminal.Store.Return.{returned_tab, saved-IsFramed, saved_and_restored}
use r_shell.Terminal.Store.Start.{initialize_state-IsValid, map_values-IsFramed}
use r_shell.Terminal.Store.Unique.{all_ids, dedupe_groups_once}
use r_shell.Terminal.Tabs.{has_tab, tab_ids}
use r_shell.Terminal.Types.{
  Float, GridNode, TabType, TerminalGroup, TerminalGroupState, TerminalTab, add_tab, branch,
  connected, cons, editor, horizontal, leaf, nil, right, split_group,
}

abbrev plain : String → Option TabType → TerminalTab
plain id kind = record {
  id = id;
  name = id;
  tab_type = kind;
  protocol = none;
  host = none;
  username = none;
  original_connection_id = none;
  connection_status = connected;
  reconnect_count = some 0;
  has_unread_output = some true;
  editor_file_path = none;
  editor_connection_id = none;
}

abbrev whole : Float ℕ
whole = record {
  of_nat = λ n. n;
  add = λ a b. a + b;
  mul = λ a b. a * b;
  div = λ a b. a / b;
  is_zero = λ a. eqb a 0;
  nan = 0;
}

-- One group with a terminal and an editor.
abbrev edited : TerminalGroupState ℕ
edited =
    terminal_group_reducer whole
      (terminal_group_reducer whole create_default_state (add_tab "1" (plain "a" none)))
      (add_tab "1" (plain "e" (some editor)))

edited-IsValid : IsValid edited
edited-IsValid = Reach-IsValid {num = whole} (step _ (step _ start tt) tt)

abbrev as_number : ℕ → Json
as_number n = integer (pos n)

abbrev as_object : TerminalTab → Json
as_object t = object (entry "id" (text t.id) end_object)

edited-IsAligned : IsAligned edited.grid_layout
unfolding terminal_group_reducer reduce_add_tab create_default_state IsAligned insert lookup
    tab_in_any has_tab show read_digits
edited-IsAligned = tt

saved_and_restored_example :
    (let back = restart as_number as_object true edited in
      IsValid back
      × (back.grid_layout ≡ edited.grid_layout)
      × (back.active_group_id ≡ edited.active_group_id)
      × ((g : String)
          → tabs_of g back.groups ≡ map returned_tab (filter not_editor (tabs_of g edited.groups))))
saved_and_restored_example = saved_and_restored edited-IsValid as_number as_object edited-IsAligned

-- A group that holds one tab twice, and has lost its active tab.
abbrev doubled : TerminalGroup → TerminalGroup
doubled g = record g { tabs = plain "a" none ∷ plain "a" none ∷ []; active_tab_id = some "z" }

-- Two groups side by side, both of that kind.
abbrev corrupt : StoredState ℕ
corrupt =
    let stored =
      serialize_data
        (save_state (terminal_group_reducer whole edited (split_group "1" right none))) in
    record stored { groups = map_values doubled stored.groups }

healed_example :
    (keys (heal corrupt).groups ≡ "1" ∷ "2" ∷ [])
    × (tab_ids (tabs_of "1" (heal corrupt).groups) ≡ "a" ∷ [])
    × (tab_ids (tabs_of "2" (heal corrupt).groups) ≡ [])
unfolding heal map_values serialize_data save_state terminal_group_reducer reduce_split_group lookup
    reduce_add_tab create_default_state insert tab_in_any has_tab show read_digits
healed_example = (refl, refl, refl)

dedupe_groups_once_example :
    count "a" (all_ids (dedupe_groups [] corrupt.groups))
    ≡ min 1 (count "a" (all_ids corrupt.groups))
dedupe_groups_once_example = dedupe_groups_once "a" corrupt.groups

corrupt-IsFramed : IsFramed corrupt
corrupt-IsFramed =
    map_values-IsFramed doubled (λ x. refl)
      (saved-IsFramed (reducer-IsValid whole edited (split_group "1" right none) edited-IsValid tt))

initialize_state-IsValid_example : IsValid (initialize_state true (Option.map heal (some corrupt)))
initialize_state-IsValid_example =
    initialize_state-IsValid true (some corrupt)
      (λ s e. subst IsFramed (some_inj e) corrupt-IsFramed)

-- A tree that lost a size.
abbrev misaligned : GridNode ℕ
misaligned = branch horizontal (cons (leaf "1") (cons (leaf "2") nil)) (100 ∷ [])

abbrev number : ℕ → Json
number n = integer (pos n)

misaligned_refused : is_valid_grid_node (grid_json number misaligned) ≡ false
unfolding is_valid_grid_node grid_json
misaligned_refused = refl

is_valid_grid_node-IsAligned_example :
    is_valid_grid_node (grid_json number misaligned) ≡ true ↔ IsAligned misaligned
is_valid_grid_node-IsAligned_example = is_valid_grid_node-IsAligned number misaligned

accepted_data-IsAligned_example :
    (accepted_data (envelope_json number (λ t. text t.id) edited)
      ≡ some (data_json number (λ t. text t.id) edited))
    ↔ IsAligned edited.grid_layout
accepted_data-IsAligned_example = accepted_data-IsAligned number (λ t. text t.id) edited
