-- ===== src/Terminal/Store/Unique.antt =====
-- The tabs that `dedupeDuplicateTabs` of src/lib/terminal-group-serializer.ts keeps.
use r_shell.Prelude.{
  Bool, Bool-cases, List, String, [], arith, count, count-append, eq_iff, if◌then◌else◌, inl, inr,
  ltb, min, ℕ, ◌++◌, ◌||◌, ◌∷◌, ◌≡◌,
}
use r_shell.Dict.{Dict}
use r_shell.Terminal.Store.{dedupe_groups, is_seen, seen_after, unseen_tabs, with_tabs}
use r_shell.Terminal.Tabs.{tab_ids}
use r_shell.Terminal.Types.{TerminalGroup, TerminalTab}

-- The ids of all tabs, group by group.
abbrev pub all_ids : Dict TerminalGroup → List String
all_ids [] = []
all_ids ((k, group) ∷ gs) = tab_ids group.tabs ++ all_ids gs

-- One, if an id occurs and is not met before.
abbrev pub once : Bool → ℕ → ℕ
once known n = if known then 0 else min 1 n

pub is_seen-after :
    (t : String) (met : List String) (ts : List TerminalTab)
    → is_seen t (seen_after met ts) ≡ is_seen t met || ltb 0 (count t (tab_ids ts))
unfolding is_seen seen_after
is_seen-after t met [] = ground arith
is_seen-after t met (a ∷ ts) = elim (Bool-cases (is_seen a.id met)) [
  | inl e ↦ rw e (ground (arith, is_seen-after t met ts, eq_iff a.id t, e))
  | inr e ↦ rw e (ground (arith, is_seen-after t (a.id ∷ met) ts, eq_iff a.id t, e))
]

count-unseen_tabs :
    (t : String) (met : List String) (ts : List TerminalTab)
    → count t (tab_ids (unseen_tabs met ts)) ≡ once (is_seen t met) (count t (tab_ids ts))
unfolding is_seen unseen_tabs
count-unseen_tabs t met [] = ground arith
count-unseen_tabs t met (a ∷ ts) = elim (Bool-cases (is_seen a.id met)) [
  | inl e ↦ rw e (ground (arith, count-unseen_tabs t met ts, eq_iff a.id t, e))
  | inr e ↦ rw e (ground (arith, count-unseen_tabs t (a.id ∷ met) ts, eq_iff a.id t, e))
]

pub count-dedupe_groups :
    (t : String) (met : List String) (gs : Dict TerminalGroup)
    → count t (all_ids (dedupe_groups met gs)) ≡ once (is_seen t met) (count t (all_ids gs))
unfolding dedupe_groups with_tabs
count-dedupe_groups t met [] = ground arith
count-dedupe_groups t met ((k, group) ∷ gs) = ground (
  arith,
  count-append t (tab_ids (unseen_tabs met group.tabs))
      (all_ids (dedupe_groups (seen_after met group.tabs) gs)),
  count-append t (tab_ids group.tabs) (all_ids gs),
  count-unseen_tabs t met group.tabs,
  count-dedupe_groups t (seen_after met group.tabs) gs,
  is_seen-after t met group.tabs,
)

-- `dedupeDuplicateTabs` keeps each id that occurs among the tabs, once.
pub dedupe_groups_once :
    (t : String) (gs : Dict TerminalGroup)
    → count t (all_ids (dedupe_groups [] gs)) ≡ min 1 (count t (all_ids gs))
unfolding is_seen
dedupe_groups_once t gs = count-dedupe_groups t [] gs
