-- ===== src/Terminal/Reach.antt =====
-- The layouts that the application comes to, within a session and from one session to the next, and what
-- holds in all of them: src/lib/terminal-group-reducer.ts and src/lib/terminal-group-serializer.ts.
use r_shell.Prelude.{
  Bool, List, Option, Option-cases, String, [], arith, count, eq_iff, eq_refl, inl, inr, is_some,
  none, refl, some, some_inj, sym, true, ℕ, ◌↔◌, ◌∙◌, ◌≡◌, ◌≢◌,
}
use r_shell.Dict.{has, lookup}
use r_shell.Json.{Json}
use r_shell.Terminal.Grid.{find_leaf_path}
use r_shell.Terminal.Grid.Path.{Found, find_leaf_path-Found}
use r_shell.Terminal.Invariant.{IsAdmissible, IsValid}
use r_shell.Terminal.Invariant.Actions.{reducer-IsValid}
use r_shell.Terminal.Invariant.Split.{create_default_state-IsValid}
use r_shell.Terminal.Reducer.{terminal_group_reducer}
use r_shell.Terminal.State.{create_default_state, tabs_of}
use r_shell.Terminal.Store.Restart.{restart}
use r_shell.Terminal.Store.Return.{restart-IsValid}
use r_shell.Terminal.Tabs.{has_tab, tab_ids}
use r_shell.Terminal.Tabs.Count.{IsActive, count_tab-has_tab}
use r_shell.Terminal.Types.{
  Float, TerminalGroup, TerminalGroupAction, TerminalGroupState, TerminalTab,
}

-- From the default layout, by actions, and by restarts with a layout that the application has saved, which
-- may be refused or not asked for.
pub data Reach {N : Type 0} (num : Float N) : TerminalGroupState N → Type 0 where
  start : Reach num create_default_state
  step :
      {s : TerminalGroupState N} (a : TerminalGroupAction N)
      → Reach num s
      → IsAdmissible s a
      → Reach num (terminal_group_reducer num s a)
  start_again :
      {s : TerminalGroupState N} (number_json : N → Json) (tab_json : TerminalTab → Json)
      (enabled : Bool)
      → Reach num s
      → Reach num (restart number_json tab_json enabled s)

pub Reach-IsValid :
    {N : Type 0} {num : Float N} {s : TerminalGroupState N} → Reach num s → IsValid s
Reach-IsValid start = create_default_state-IsValid
Reach-IsValid {num = num} (step {s = s} a r h) = reducer-IsValid num s a (Reach-IsValid r) h
Reach-IsValid (start_again number_json tab_json enabled r) =
    restart-IsValid (Reach-IsValid r) number_json tab_json enabled

-- What the user interface relies on.
pub record IsUsable {N : Type 0} (s : TerminalGroupState N) : Type 0 where
  -- the focused group exists and is drawn
  pub focused : has s.active_group_id s.groups ≡ true
  pub drawn : (g : String) → is_some (find_leaf_path s.grid_layout g) ≡ has g s.groups
  -- no id is in two groups, nor twice in one
  pub unique :
      (g h t : String)
      → has_tab t (tabs_of g s.groups) ≡ true
      → has_tab t (tabs_of h s.groups) ≡ true
      → (g ≡ h) × (count t (tab_ids (tabs_of g s.groups)) ≡ 1)
  -- the map leads to the group that holds the tab
  pub owned :
      (g t : String)
      → (has_tab t (tabs_of g s.groups) ≡ true) ↔ (lookup t s.tab_to_group_map ≡ some g)
  -- a group with tabs shows one of them
  pub shown :
      (g : String) (group : TerminalGroup)
      → lookup g s.groups ≡ some group
      → group.tabs ≢ []
      → (t : String) × (group.active_tab_id ≡ some t) × (has_tab t group.tabs ≡ true)

module _ {N : Type 0} {s : TerminalGroupState N} (v : IsValid s) where
  drawn_lem : (g : String) → is_some (find_leaf_path s.grid_layout g) ≡ has g s.groups
  drawn_lem g = by_path (find_leaf_path s.grid_layout g) (find_leaf_path-Found g s.grid_layout)
    where
      by_path : (p : Option (List ℕ)) → Found g s.grid_layout p → is_some p ≡ has g s.groups
      by_path none h = ground (arith, h, v.leaves g)
      by_path (some p) h = ground (arith, h.1, v.leaves g)

  owned_lem :
      (g t : String)
      → (has_tab t (tabs_of g s.groups) ≡ true) ↔ (lookup t s.tab_to_group_map ≡ some g)
  owned_lem g t = (there, back)
    where
      there : has_tab t (tabs_of g s.groups) ≡ true → lookup t s.tab_to_group_map ≡ some g
      there h = elim (Option-cases (lookup t s.tab_to_group_map)) [
        | inl e ↦
            absurd (ground (arith, h, e, v.held g t, count_tab-has_tab t (tabs_of g s.groups)))
        | inr (k, e) ↦
            ground (arith, h, e, v.held g t, count_tab-has_tab t (tabs_of g s.groups), eq_iff k g)
      ]

      back : lookup t s.tab_to_group_map ≡ some g → has_tab t (tabs_of g s.groups) ≡ true
      back e = ground (arith, e, v.held g t, count_tab-has_tab t (tabs_of g s.groups), eq_refl g)

  IsValid-IsUsable : IsUsable s
  IsValid-IsUsable = record {
    focused = v.active;
    drawn = drawn_lem;
    unique = λ g h t p q. (
      some_inj (sym ((owned_lem g t).0 p) ∙ (owned_lem h t).0 q),
      ground (arith, p, v.held g t, (owned_lem g t).0 p, eq_refl g),
    );
    owned = owned_lem;
    shown = λ g group e full.
        shown_lem group.active_tab_id group.tabs (v.group_ok g group e).active full;
  }
    where
      shown_lem :
          (active : Option String) (ts : List TerminalTab)
          → IsActive active ts
          → ts ≢ []
          → (t : String) × (active ≡ some t) × (has_tab t ts ≡ true)
      shown_lem none ts h full = absurd (full h)
      shown_lem (some t) ts h full = (t, refl, ground (arith, h, count_tab-has_tab t ts))

-- In every layout that the application comes to from the default one, by admissible actions and by
-- restarts with what it has saved of such a layout, the focused group exists, exactly the groups are
-- drawn, every tab is in one group, once, the map leads to it, and a group with tabs shows one. What a
-- restart finds may be refused, or the setting may not ask for it.
pub Reach-IsUsable :
    {N : Type 0} {num : Float N} {s : TerminalGroupState N} → Reach num s → IsUsable s
Reach-IsUsable r = IsValid-IsUsable (Reach-IsValid r)
