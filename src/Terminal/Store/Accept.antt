-- ===== src/Terminal/Store/Accept.antt =====
-- The validation helpers of src/lib/terminal-group-serializer.ts, over parsed JSON.
use r_shell.Prelude.{
  Bool, Option, String, eqb, false, if◌then◌else◌, none, pos, some, suc, true, ℕ, ◌&&◌, ◌==◌, ◌||◌,
}
use r_shell.Json.{
  Elements, Json, Members, array, element, end_array, end_object, entry, fraction, integer, member,
  null, object, text,
}

pub is_text : String → Option Json → Bool
is_text expected (some (text value)) = value == expected
is_text expected _ = false

-- `typeof value === 'string'`
pub is_string : Option Json → Bool
is_string (some (text value)) = true
is_string _ = false

pub is_number : Option Json → Bool
is_number (some (integer n)) = true
is_number (some (fraction n)) = true
is_number _ = false

-- `typeof value === 'object' && value !== null`: an array is an object too.
pub is_object : Option Json → Bool
is_object (some (object ms)) = true
is_object (some (array es)) = true
is_object _ = false

pub is_array : Option Json → Bool
is_array (some (array es)) = true
is_array _ = false

abbrev pub elements_count : Elements → ℕ
elements_count end_array = 0
elements_count (element e es) = suc (elements_count es)

-- `array.length`
pub array_length : Option Json → ℕ
array_length (some (array es)) = elements_count es
array_length _ = 0

-- A node that is an object, given whether all its children are valid.
pub is_valid_node_object : Members → Bool → Bool
unfolding member is_text is_string is_array array_length
is_valid_node_object ms children_valid =
    if is_text "leaf" (member "type" ms)
    then is_string (member "groupId" ms)
    else if is_text "branch" (member "type" ms)
    then (is_text "horizontal" (member "direction" ms)
        || is_text "vertical" (member "direction" ms))
      && (is_array (member "children" ms)
          && (is_array (member "sizes" ms)
              && (eqb (array_length (member "children" ms)) (array_length (member "sizes" ms))
                  && children_valid)))
    else false

unfoldable mutual
  unfolding is_valid_node_object

  pub is_valid_grid_node : Json → Bool
  is_valid_grid_node (object ms) = is_valid_node_object ms (children_valid ms)
  is_valid_grid_node _ = false

  -- `obj.children.every(isValidGridNode)`
  pub children_valid : Members → Bool
  children_valid end_object = false
  children_valid (entry k v rest) =
      let here = every_valid v in
      let later = children_valid rest in if k == "children" then here else later

  pub every_valid : Json → Bool
  every_valid (array es) = all_valid es
  every_valid _ = false

  pub all_valid : Elements → Bool
  all_valid end_array = true
  all_valid (element e es) = is_valid_grid_node e && all_valid es

-- `typeof group.id === 'string'`, and the other tests of a group
unfoldable pub is_valid_group : Json → Bool
unfolding member is_string is_array
is_valid_group (object ms) =
    is_string (member "id" ms)
    && (is_array (member "tabs" ms)
        && elim (member "activeTabId" ms) [ some null ↦ true | some (text id) ↦ true | _ ↦ false ])
is_valid_group _ = false

unfoldable pub are_valid_groups : Members → Bool
unfolding is_valid_group
are_valid_groups end_object = true
are_valid_groups (entry k v rest) = is_valid_group v && are_valid_groups rest

-- The groups of a state: the elements of an array are its properties too.
pub all_valid_groups : Elements → Bool
unfolding is_valid_group
all_valid_groups end_array = true
all_valid_groups (element e es) = is_valid_group e && all_valid_groups es

pub has_valid_groups : Option Json → Bool
unfolding are_valid_groups all_valid_groups
has_valid_groups (some (object ms)) = are_valid_groups ms
has_valid_groups (some (array es)) = all_valid_groups es
has_valid_groups _ = false

-- `value === undefined || typeof value === 'object'`: `null` has that type.
pub is_optional_object : Option Json → Bool
unfolding is_object
is_optional_object none = true
is_optional_object (some null) = true
is_optional_object (some value) = is_object (some value)

pub is_valid_node_property : Option Json → Bool
unfolding is_valid_grid_node
is_valid_node_property none = false
is_valid_node_property (some value) = is_valid_grid_node value

unfoldable pub is_valid_state : Json → Bool
unfolding is_string is_number is_object is_valid_node_property is_optional_object has_valid_groups
    member
is_valid_state (object ms) =
    is_object (member "groups" ms)
    && (is_string (member "activeGroupId" ms)
        && (is_number (member "nextGroupId" ms)
            && (is_valid_node_property (member "gridLayout" ms)
                && (is_optional_object (member "tabToGroupMap" ms)
                    && has_valid_groups (member "groups" ms)))))
is_valid_state _ = false

-- The data in a stored envelope, where `deserialize` accepts it: the version is 1.
unfoldable pub accepted_data : Json → Option Json
unfolding is_valid_state member
accepted_data (object ms) = elim (member "version" ms) [
  | some (integer (pos version)) ↦ elim (member "data" ms) [
    | some found ↦ if eqb version 1 && is_valid_state found then some found else none
    | none ↦ none
  ]
  | _ ↦ none
]
accepted_data _ = none
