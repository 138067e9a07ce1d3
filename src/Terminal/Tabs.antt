-- ===== src/Terminal/Tabs.antt =====
-- The arrays of tabs in a group: the array methods that src/lib/terminal-group-reducer.ts applies to
-- them, and its `pickAdjacentTab`.
pub mod Count
use mathlib.Core.Option
use r_shell.Prelude.{
  Bool, List, Option, String, [], false, get_elem?, if◌then◌else◌, last?, map, min, negsuc, none,
  not, pos, some, suc, zero, ℕ, ℤ, ◌&&◌, ◌+◌, ◌-◌, ◌==◌, ◌||◌, ◌∷◌,
}
use r_shell.Dict.{Dict, erase}
use r_shell.Terminal.Types.{TerminalTab}

unfoldable pub has_tab : String → List TerminalTab → Bool
has_tab id [] = false
has_tab id (t ∷ ts) = t.id == id || has_tab id ts

-- `tabs.find((t) => t.id === id)`
unfoldable pub find_tab : String → List TerminalTab → Option TerminalTab
find_tab id [] = none
find_tab id (t ∷ ts) = if t.id == id then some t else find_tab id ts

-- `tabs.findIndex((t) => t.id === id)`, `none` for -1
unfoldable pub find_tab_index : String → List TerminalTab → Option ℕ
find_tab_index id [] = none
find_tab_index id (t ∷ ts) =
    let later = find_tab_index id ts in
    if t.id == id then some 0 else elim later [ none ↦ none | some i ↦ some (suc i) ]

-- `tabs.filter((t) => t.id !== id)`
unfoldable pub drop_tab : String → List TerminalTab → List TerminalTab
drop_tab id [] = []
drop_tab id (t ∷ ts) = if t.id == id then drop_tab id ts else t ∷ drop_tab id ts

-- `tabs.splice(i, 0, tab)` at an index of the array or its end
pub insert_tab : ℕ → TerminalTab → List TerminalTab → List TerminalTab
insert_tab zero tab ts = tab ∷ ts
insert_tab (suc i) tab [] = tab ∷ []
insert_tab (suc i) tab (t ∷ ts) = t ∷ insert_tab i tab ts

-- `tabs.splice(i, 1)`, what is left of the array
pub erase_tab : ℕ → List TerminalTab → List TerminalTab
erase_tab i [] = []
erase_tab zero (t ∷ ts) = ts
erase_tab (suc i) (t ∷ ts) = t ∷ erase_tab i ts

-- `tabs[i] = f(tabs[i])`
pub update_tab : ℕ → (TerminalTab → TerminalTab) → List TerminalTab → List TerminalTab
update_tab i f [] = []
update_tab zero f (t ∷ ts) = f t ∷ ts
update_tab (suc i) f (t ∷ ts) = t ∷ update_tab i f ts

-- Where `splice(idx, 0, tab)` inserts, for `idx` the `targetIndex` cut to the length, or the length:
-- a negative index counts from the end.
unfoldable pub splice_index : Option ℤ → ℕ → ℕ
splice_index none len = len
splice_index (some (pos i)) len = min i len
splice_index (some (negsuc i)) len = len - (i + 1)

abbrev pub tab_ids : List TerminalTab → List String
tab_ids = map (λ t. t.id)

-- The next active tab after the one at `removed_index` is taken out: to the right, else the last.
pub pick_adjacent_tab : List TerminalTab → ℕ → Option String
pick_adjacent_tab tabs removed_index = elim (get_elem? tabs removed_index) [
  | some t ↦ some t.id
  | none ↦ Option.map (λ (t : TerminalTab). t.id) (last? tabs)
]

-- `group.activeTabId && newTabs.some(…) ? group.activeTabId : fallback?.id ?? null`; an empty id
-- counts as false.
pub keep_active : Option String → List TerminalTab → Option TerminalTab → Option String
keep_active none tabs fallback = Option.map (λ (t : TerminalTab). t.id) fallback
keep_active (some id) tabs fallback =
    if not (id == "") && has_tab id tabs
    then some id
    else Option.map (λ (t : TerminalTab). t.id) fallback

-- `for (const t of tabs) delete map[t.id]`
pub forget_tabs : List TerminalTab → Dict String → Dict String
forget_tabs [] m = m
forget_tabs (t ∷ ts) m = forget_tabs ts (erase t.id m)
