-- ===== src/Terminal/Visible.antt =====
-- `isTerminalTabVisible` of src/lib/terminal-group-reducer.ts on a valid layout.
use r_shell.Prelude.{
  Bool, Bool-cases, List, Option, Option-cases, String, ap, arith, count, eq_iff, eq_refl, false,
  impossible, inl, inr, is_some, none, refl, some, subst, true, ℕ, ◌&&◌, ◌==◌, ◌↔◌, ◌∙◌, ◌≡◌, ◌≤◌,
}
use r_shell.Dict.{has, lookup}
use r_shell.Terminal.Grid.{collect_leaf_ids, find_leaf_path}
use r_shell.Terminal.Grid.Path.{Found, find_leaf_path-Found}
use r_shell.Terminal.Invariant.{IsValid, held_by, held_in}
use r_shell.Terminal.State.{is_active_in, is_terminal_tab_visible, owner}
use r_shell.Terminal.Tabs.Count.{IsActive}
use r_shell.Terminal.Types.{GridNode, TerminalGroup, TerminalGroupState}

-- The tab is the active one of the group `g`.
abbrev pub IsShown : {N : Type 0} → TerminalGroupState N → String → String → Type 0
IsShown s g t =
    (group : TerminalGroup) × (lookup g s.groups ≡ some group) × (group.active_tab_id ≡ some t)

active_in-IsShown :
    (t : String) (found : Option TerminalGroup)
    → is_active_in found t ≡ true
    → (group : TerminalGroup) × (found ≡ some group) × (group.active_tab_id ≡ some t)
unfolding is_active_in
active_in-IsShown t none h = cc
active_in-IsShown t (some group) h = elim (Option-cases group.active_tab_id) [
  | inl e ↦ impossible (rw (is_active_in, e) at h)
  | inr (id, e) ↦ (group, refl, e ∙ ap some ((eq_iff id t).0 (rw e at h)))
]

held_in-owner : (g : String) (o : Option String) → 1 ≤ held_in g o → o ≡ some g
held_in-owner g none h = absurd (omega (arith, h))
held_in-owner g (some k) h = ap some ((eq_iff k g).0 (ground (arith, h)))

drawn :
    {N : Type 0} (g : String) (node : GridNode N) (path : Option (List ℕ))
    → Found g node path
    → 1 ≤ count g (collect_leaf_ids node)
    → is_some path ≡ true
drawn g node none found h = absurd (omega (arith, found, h))
drawn g node (some path) found h = refl

both : (a b : Bool) → a ≡ true → b ≡ true → (a && b) ≡ true
both a b h h' = rw (h, h')

and_left : (a b : Bool) → (a && b) ≡ true → a ≡ true
and_left true b h = refl
and_left false b h = h

module _ {N : Type 0} {s : TerminalGroupState N} (v : IsValid s) where
  IsShown-owner : (g t : String) → IsShown s g t → lookup t s.tab_to_group_map ≡ some g
  IsShown-owner g t (group, e, a) = held_in-owner g (lookup t s.tab_to_group_map) (
      subst (λ n. 1 ≤ n) (held_by v g e t)
        (subst (λ o. IsActive o group.tabs) a (v.group_ok g group e).active))

  visible-IsShown : (t : String) → is_terminal_tab_visible s t ≡ true → (g : String) × IsShown s g t
  unfolding is_terminal_tab_visible owner
  visible-IsShown t h = elim (Option-cases (lookup t s.tab_to_group_map)) [
    | inl e ↦ impossible (rw (is_terminal_tab_visible, e) at h)
    | inr (g, e) ↦ elim (Bool-cases (g == "")) [
      | inl e' ↦ impossible (rw (is_terminal_tab_visible, e, e') at h)
      | inr e' ↦ (
        g,
        active_in-IsShown t (lookup g s.groups)
            (and_left _ _ (rw (is_terminal_tab_visible, e, e') at h)),
      )
    ]
  ]

  IsShown-visible :
      (g t : String) → (g == "") ≡ false → IsShown s g t → is_terminal_tab_visible s t ≡ true
  unfolding is_terminal_tab_visible owner is_active_in
  IsShown-visible g t named (group, e, a) =
      let leaf_drawn : 1 ≤ count g (collect_leaf_ids s.grid_layout) =
        omega (arith, (rw e at (v.leaves g))) in
      rw (is_terminal_tab_visible, IsShown-owner g t (group, e, a), named, e, is_active_in, a)
        (both (t == t) _ (eq_refl t) (
          drawn g s.grid_layout (find_leaf_path s.grid_layout g)
            (find_leaf_path-Found g s.grid_layout) leaf_drawn))

  -- In a valid layout whose group ids are not empty, a tab is visible just when it is the active tab
  -- of some group.
  pub is_terminal_tab_visible-IsShown :
      (t : String)
      → ((g : String) → has g s.groups ≡ true → (g == "") ≡ false)
      → (is_terminal_tab_visible s t ≡ true) ↔ ((g : String) × IsShown s g t)
  is_terminal_tab_visible-IsShown t named = (
    visible-IsShown t,
    λ shown. IsShown-visible shown.0 t (named shown.0 (rw shown.1.1 refl)) shown.1,
  )
