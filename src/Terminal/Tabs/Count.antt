-- ===== src/Terminal/Tabs/Count.antt =====
-- How often an id occurs among the tabs of a group, after each of the array methods.
use mathlib.Core.Option
use r_shell.Prelude.{
  Bool-cases, List, Option, Option-cases, String, [], ap, arith, count, drop, eq_iff, eq_refl,
  get_elem?, head?, if◌then◌else◌, inl, inr, last?, length, ltb, none, not, refl, some, suc, take,
  true, zero, ℕ, ◌&&◌, ◌++◌, ◌+◌, ◌<◌, ◌==◌, ◌∙◌, ◌∷◌, ◌≡◌, ◌≤◌,
}
use r_shell.Dict.{Dict, erase, lookup}
use r_shell.Dict.Lookup.{lookup-erase}
use r_shell.Terminal.Tabs.{
  drop_tab, erase_tab, find_tab, find_tab_index, forget_tabs, has_tab, insert_tab, keep_active,
  pick_adjacent_tab, tab_ids, update_tab,
}
use r_shell.Terminal.Types.{TerminalTab}

pub count_tab-has_tab :
    (id : String) (ts : List TerminalTab) → has_tab id ts ≡ ltb 0 (count id (tab_ids ts))
unfolding has_tab
count_tab-has_tab id [] = refl
count_tab-has_tab id (t ∷ ts) = ground (arith, count_tab-has_tab id ts)

-- What a search for an id finds.
abbrev pub FoundTab : String → List TerminalTab → Option TerminalTab → Type 0
FoundTab id ts none = count id (tab_ids ts) ≡ 0
FoundTab id ts (some t) = ((t.id == id) ≡ true) × (1 ≤ count id (tab_ids ts))

FoundTab-cons :
    (id : String) (t : TerminalTab) (ts : List TerminalTab) (later : Option TerminalTab)
    → FoundTab id ts later
    → FoundTab id (t ∷ ts) (if t.id == id then some t else later)
FoundTab-cons id t ts none h = elim (Bool-cases (t.id == id)) [
  | inl e ↦ rw e (e, ground arith)
  | inr e ↦ rw e (ground arith)
]
FoundTab-cons id t ts (some u) h = elim (Bool-cases (t.id == id)) [
  | inl e ↦ rw e (e, ground arith)
  | inr e ↦ rw e (h.0, ground arith)
]

pub find_tab-Found : (id : String) (ts : List TerminalTab) → FoundTab id ts (find_tab id ts)
unfolding find_tab
find_tab-Found id [] = refl
find_tab-Found id (t ∷ ts) = FoundTab-cons id t ts (find_tab id ts) (find_tab-Found id ts)

abbrev pub FoundIndex : String → List TerminalTab → Option ℕ → Type 0
FoundIndex id ts none = count id (tab_ids ts) ≡ 0
FoundIndex id ts (some i) = (i < length ts) × (1 ≤ count id (tab_ids ts))

FoundIndex-cons :
    (id : String) (t : TerminalTab) (ts : List TerminalTab) (later : Option ℕ)
    → FoundIndex id ts later
    → FoundIndex id
        (t ∷ ts)
        (if t.id == id then some 0 else elim later [ none ↦ none | some i ↦ some (suc i) ])
FoundIndex-cons id t ts none h = elim (Bool-cases (t.id == id)) [
  | inl e ↦ rw e (ground arith)
  | inr e ↦ rw e (ground arith)
]
FoundIndex-cons id t ts (some i) h = elim (Bool-cases (t.id == id)) [
  | inl e ↦ rw e (ground arith)
  | inr e ↦ rw e (ground arith)
]

pub find_tab_index-Found :
    (id : String) (ts : List TerminalTab) → FoundIndex id ts (find_tab_index id ts)
unfolding find_tab_index
find_tab_index-Found id [] = refl
find_tab_index-Found id (t ∷ ts) =
    FoundIndex-cons id t ts (find_tab_index id ts) (find_tab_index-Found id ts)

pub count-drop_tab :
    (x t : String) (ts : List TerminalTab)
    → count t (tab_ids (drop_tab x ts)) ≡ (if x == t then 0 else count t (tab_ids ts))
unfolding drop_tab
count-drop_tab x t [] = ground arith
count-drop_tab x t (a ∷ ts) =
    ground (arith, eq_iff x t, eq_iff a.id x, eq_iff a.id t, count-drop_tab x t ts)

pub count-insert_tab :
    (t : String) (i : ℕ) (tab : TerminalTab) (ts : List TerminalTab)
    → count t (tab_ids (insert_tab i tab ts))
      ≡ (if tab.id == t then 1 else 0) + count t (tab_ids ts)
unfolding insert_tab
count-insert_tab t zero tab ts = refl
count-insert_tab t (suc i) tab [] = refl
count-insert_tab t (suc i) tab (a ∷ ts) = omega (arith, count-insert_tab t i tab ts)

pub count-erase_tab :
    (t : String) (i : ℕ) (ts : List TerminalTab) {tab : TerminalTab}
    → get_elem? ts i ≡ some tab
    → count t (tab_ids ts) ≡ (if tab.id == t then 1 else 0) + count t (tab_ids (erase_tab i ts))
unfolding erase_tab
count-erase_tab t i [] h = cc
count-erase_tab t zero (a ∷ ts) h = ground arith
count-erase_tab t (suc i) (a ∷ ts) h = omega (arith, count-erase_tab t i ts h)

pub count-concat :
    (t : String) (tab : TerminalTab) (ts : List TerminalTab)
    → count t (tab_ids (ts ++ tab ∷ [])) ≡ count t (tab_ids ts) + (if tab.id == t then 1 else 0)
count-concat t tab [] = omega arith
count-concat t tab (a ∷ ts) = omega (arith, count-concat t tab ts)

pub count-take-drop :
    (t : String) (i : ℕ) (ts : List TerminalTab)
    → count t (tab_ids (take i ts)) + count t (tab_ids (drop i ts)) ≡ count t (tab_ids ts)
count-take-drop t zero ts = omega arith
count-take-drop t (suc i) [] = omega arith
count-take-drop t (suc i) (a ∷ ts) = omega (arith, count-take-drop t i ts)

pub tab_ids-update_tab :
    (f : TerminalTab → TerminalTab) (i : ℕ) (ts : List TerminalTab)
    → ((t : TerminalTab) → (f t).id ≡ t.id)
    → tab_ids (update_tab i f ts) ≡ tab_ids ts
unfolding update_tab
tab_ids-update_tab f i [] h = refl
tab_ids-update_tab f zero (t ∷ ts) h = ap (◌∷ tab_ids ts) (h t)
tab_ids-update_tab f (suc i) (t ∷ ts) h = ap (t.id ∷◌) (tab_ids-update_tab f i ts h)

pub lookup-forget_tabs :
    (t : String) (ts : List TerminalTab) (m : Dict String)
    → lookup t (forget_tabs ts m) ≡ (if ltb 0 (count t (tab_ids ts)) then none else lookup t m)
unfolding forget_tabs
lookup-forget_tabs t [] m = refl
lookup-forget_tabs t (a ∷ ts) m =
    lookup-forget_tabs t ts (erase a.id m) ∙ ground (arith, lookup-erase a.id t m)

-- The active tab is among the tabs, and there is none only in a group with no tab.
abbrev pub IsActive : Option String → List TerminalTab → Type 0
IsActive none ts = ts ≡ []
IsActive (some id) ts = 1 ≤ count id (tab_ids ts)

get_elem?-count :
    (i : ℕ) (ts : List TerminalTab) {t : TerminalTab}
    → get_elem? ts i ≡ some t
    → 1 ≤ count t.id (tab_ids ts)
get_elem?-count i [] h = cc
get_elem?-count zero (a ∷ ts) {t} h = ground (arith, eq_refl t.id)
get_elem?-count (suc i) (a ∷ ts) h = omega (arith, get_elem?-count i ts h)

IsActive-cons :
    (t u : TerminalTab) (ts : List TerminalTab) (active : Option String)
    → IsActive active (u ∷ ts)
    → IsActive active (t ∷ u ∷ ts)
IsActive-cons t u ts none h = cc
IsActive-cons t u ts (some id) h = omega arith

pub last?-IsActive :
    (ts : List TerminalTab) → IsActive (Option.map (λ (t : TerminalTab). t.id) (last? ts)) ts
last?-IsActive [] = refl
last?-IsActive (t ∷ []) = ground (arith, eq_refl t.id)
last?-IsActive (t ∷ u ∷ ts) = IsActive-cons t u ts _ (last?-IsActive (u ∷ ts))

pub head?-IsActive :
    (ts : List TerminalTab) → IsActive (Option.map (λ (t : TerminalTab). t.id) (head? ts)) ts
head?-IsActive [] = refl
head?-IsActive (t ∷ ts) = ground (arith, eq_refl t.id)

pub pick_adjacent_tab-IsActive :
    (ts : List TerminalTab) (i : ℕ) → IsActive (pick_adjacent_tab ts i) ts
unfolding pick_adjacent_tab
pick_adjacent_tab-IsActive ts i = elim (Option-cases (get_elem? ts i)) [
  | inl e ↦ rw (e, IsActive) (last?-IsActive ts)
  | inr (t, e) ↦ rw (e, IsActive) (get_elem?-count i ts e)
]

pub keep_active-IsActive :
    (active : Option String) (ts : List TerminalTab) (fallback : Option TerminalTab)
    → IsActive (Option.map (λ (t : TerminalTab). t.id) fallback) ts
    → IsActive (keep_active active ts fallback) ts
unfolding keep_active
keep_active-IsActive none ts fallback h = h
keep_active-IsActive (some id) ts fallback h = elim (Bool-cases (not (id == "") && has_tab id ts)) [
  | inl e ↦ rw e (ground (arith, count_tab-has_tab id ts))
  | inr e ↦ rw e h
]
