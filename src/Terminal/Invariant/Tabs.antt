-- ===== src/Terminal/Invariant/Tabs.antt =====
-- `ADD_TAB`, `ACTIVATE_TAB`, `REMOVE_TAB` and the actions that close several tabs on a valid
-- layout.
use r_shell.Prelude.{
  Bool-cases, Option-cases, String, [], ap, arith, count, eq_iff, eq_refl, false, if◌then◌else◌,
  inl, inr, none, refl, some, sym, ◌+◌, ◌==◌, ◌∙◌, ◌∷◌, ◌≡◌,
}
use r_shell.Dict.{Dict, has, insert, lookup}
use r_shell.Dict.Lookup.{lookup-insert}
use r_shell.Terminal.Invariant.{IsValid, held_by, held_in}
use r_shell.Terminal.Invariant.Update.{Agrees, set_group-IsValid}
use r_shell.Terminal.Reducer.Groups.{reduce_activate_group}
use r_shell.Terminal.Reducer.Tabs.{reduce_activate_tab, reduce_add_tab, tab_in_any}
use r_shell.Terminal.State.{tabs_of, with_group}
use r_shell.Terminal.Tabs.{has_tab, tab_ids}
use r_shell.Terminal.Tabs.Count.{count-concat, count_tab-has_tab}
use r_shell.Terminal.Types.{TerminalGroup, TerminalGroupState, TerminalTab}

module _ {N : Type 0} {s : TerminalGroupState N} (v : IsValid s) where
  -- The same tabs and the same map.
  pub same-Agrees :
      (g : String) {group group' : TerminalGroup}
      → lookup g s.groups ≡ some group
      → ((t : String) → count t (tab_ids group'.tabs) ≡ count t (tab_ids group.tabs))
      → Agrees g group' s.tab_to_group_map s.tab_to_group_map
  same-Agrees g e h = record { here = λ t. h t ∙ held_by v g e t; elsewhere = λ j t other. refl }

  pub reduce_activate_group-IsValid : (g : String) → IsValid (reduce_activate_group s g)
  unfolding reduce_activate_group
  reduce_activate_group-IsValid g = elim (Option-cases (lookup g s.groups)) [
    | inl e ↦ rw (with_group, e) v
    | inr (group, e) ↦
        rw (with_group, e)
          (record {
            object = v.object;
            group_ok = v.group_ok;
            held = v.held;
            leaves = v.leaves;
            active = rw e;
            fresh = v.fresh;
          })
  ]

  pub reduce_activate_tab-IsValid : (g t : String) → IsValid (reduce_activate_tab s g t)
  unfolding reduce_activate_tab
  reduce_activate_tab-IsValid g t = elim (Option-cases (lookup g s.groups)) [
    | inl e ↦ rw (with_group, e) v
    | inr (group, e) ↦
        rw (with_group, e)
          (elim (Bool-cases (has_tab t group.tabs)) [
            | inl has ↦ rw has (
                set_group-IsValid v g _ s.tab_to_group_map (rw e)
                  (record {
                    key = (v.group_ok g group e).key;
                    active = ground (arith, has, count_tab-has_tab t group.tabs);
                  })
                  (same-Agrees g e (λ t. refl)))
            | inr hasnt ↦ rw hasnt v
          ])
  ]

  -- No group holds a tab of an id that `ADD_TAB` lets pass.
  tab_in_any-free :
      (t : String) (gs : Dict TerminalGroup)
      → tab_in_any t gs ≡ false
      → (g : String) → count t (tab_ids (tabs_of g gs)) ≡ 0
  unfolding tab_in_any lookup
  tab_in_any-free t [] h g = refl
  tab_in_any-free t ((k, group) ∷ gs) h g = elim (Bool-cases (k == g)) [
    | inl e ↦ rw (tabs_of, e) (ground (arith, h, count_tab-has_tab t group.tabs))
    | inr e ↦ rw (tabs_of, e) (tab_in_any-free t gs (ground (arith, h)) g)
  ]

  -- So the map names no owner for it.
  unowned :
      (t : String)
      → ((g : String) → count t (tab_ids (tabs_of g s.groups)) ≡ 0)
      → lookup t s.tab_to_group_map ≡ none
  unowned t free = elim (Option-cases (lookup t s.tab_to_group_map)) [
    | inl e ↦ e
    | inr (g, e) ↦ absurd (ground (arith, e, v.held g t, free g, eq_refl g))
  ]

  -- A tab with no owner joins the group `g`, which becomes `group`.
  pub join-Agrees :
      (g t : String) {group : TerminalGroup}
      → lookup t s.tab_to_group_map ≡ none
      → ((x : String)
          → count x (tab_ids group.tabs)
            ≡ held_in g (lookup x s.tab_to_group_map) + (if t == x then 1 else 0))
      → Agrees g group s.tab_to_group_map (insert t g s.tab_to_group_map)
  join-Agrees g t {group} free h = record {
    here = λ x. rw (lookup-insert t x g s.tab_to_group_map) (joined x);
    elsewhere = λ j x other. rw (lookup-insert t x g s.tab_to_group_map) (apart j x other);
  }
    where
      joined :
          (x : String)
          → count x (tab_ids group.tabs)
            ≡ held_in g (if t == x then some g else lookup x s.tab_to_group_map)
      joined x = elim (Bool-cases (t == x)) [
        | inl same ↦ rw same (
            ground (
              arith,
              h x,
              same,
              (eq_iff t x).0 same,
              free,
              eq_refl g,
              ap (λ y. held_in g (lookup y s.tab_to_group_map)) (sym ((eq_iff t x).0 same)),
            ))
        | inr other ↦ rw other (ground (arith, h x, other))
      ]

      apart :
          (j x : String)
          → (g == j) ≡ false
          → held_in j (if t == x then some g else lookup x s.tab_to_group_map)
            ≡ held_in j (lookup x s.tab_to_group_map)
      apart j x other = elim (Bool-cases (t == x)) [
        | inl same ↦ rw (same, ← (eq_iff t x).0 same, free) (ground (arith, other))
        | inr e ↦ rw e
      ]

  pub reduce_add_tab-IsValid : (g : String) (tab : TerminalTab) → IsValid (reduce_add_tab s g tab)
  unfolding reduce_add_tab
  reduce_add_tab-IsValid g tab = elim (Option-cases (lookup g s.groups)) [
    | inl e ↦ rw (with_group, e) v
    | inr (group, e) ↦
        rw (with_group, e)
          (elim (Bool-cases (tab_in_any tab.id s.groups)) [
            | inl twice ↦ rw twice v
            | inr free ↦ rw free (
                set_group-IsValid v g _ _ (rw e)
                  (record {
                    key = (v.group_ok g group e).key;
                    active =
                        rw (count-concat tab.id tab group.tabs) (ground (arith, eq_refl tab.id));
                  })
                  (join-Agrees g tab.id (unowned tab.id (tab_in_any-free tab.id s.groups free))
                    (λ x. omega (arith, count-concat x tab group.tabs, held_by v g e x))))
          ])
  ]
