-- ===== src/Terminal/Invariant/Close.antt =====
-- The actions that close several tabs on a valid layout.
use r_shell.Prelude.{
  Bool-cases, List, Option, Option-cases, String, [], arith, count, drop, eq_iff, eq_refl, eqb,
  head?, if◌then◌else◌, inl, inr, last?, length, none, refl, some, take, ℕ, ◌+◌, ◌==◌, ◌∷◌, ◌≡◌,
}
use r_shell.Dict.{lookup}
use r_shell.Terminal.Invariant.{IsValid, held_by, held_in-le}
use r_shell.Terminal.Invariant.Leave.{forget-Agrees}
use r_shell.Terminal.Invariant.Remove.{maybe_remove_empty_group-IsValid}
use r_shell.Terminal.Invariant.Update.{set_group-IsValid}
use r_shell.Terminal.Reducer.Close.{
  close_tabs, reduce_close_all_tabs, reduce_close_other_tabs, reduce_close_tabs_to_left,
  reduce_close_tabs_to_right,
}
use r_shell.Terminal.State.{with_group}
use r_shell.Terminal.Tabs.{drop_tab, find_tab, find_tab_index, keep_active, tab_ids}
use r_shell.Terminal.Tabs.Count.{
  FoundTab, IsActive, count-drop_tab, count-take-drop, find_tab-Found, head?-IsActive,
  keep_active-IsActive, last?-IsActive,
}
use r_shell.Terminal.Types.{Float, TerminalGroup, TerminalGroupState, TerminalTab}

module _ {N : Type 0} {s : TerminalGroupState N} (v : IsValid s) where
  pub close_tabs-IsValid :
      (g : String) (group : TerminalGroup) (staying : List TerminalTab) (active : Option String)
      (closed : List TerminalTab)
      → lookup g s.groups ≡ some group
      → IsActive active staying
      → ((t : String)
          → count t (tab_ids staying) + count t (tab_ids closed) ≡ count t (tab_ids group.tabs))
      → IsValid (close_tabs s g group staying active closed)
  close_tabs-IsValid g group staying active closed e ok h =
      set_group-IsValid v g _ _ (rw e) (record { key = (v.group_ok g group e).key; active = ok })
        (forget-Agrees v g closed e h)

  pub reduce_close_all_tabs-IsValid :
      (num : Float N) (g : String) → IsValid (reduce_close_all_tabs num s g)
  unfolding reduce_close_all_tabs
  reduce_close_all_tabs-IsValid num g = elim (Option-cases (lookup g s.groups)) [
    | inl e ↦ rw (with_group, e) v
    | inr (group, e) ↦
        rw (with_group, e)
          (elim (Bool-cases (eqb (length group.tabs) 0)) [
            | inl empty ↦ rw empty v
            | inr full ↦ rw full (
                maybe_remove_empty_group-IsValid num g
                  (close_tabs-IsValid g group [] none group.tabs e refl (λ t. omega arith)))
          ])
  ]

  close_other_tabs_found :
      (g t : String) (group : TerminalGroup)
      → lookup g s.groups ≡ some group
      → (found : Option TerminalTab) → FoundTab t group.tabs found
      → IsValid (elim found [
        | none ↦ s
        | some tab ↦ close_tabs s g group (tab ∷ []) (some tab.id) (drop_tab t group.tabs)
      ])
  close_other_tabs_found g t group e none h = v
  close_other_tabs_found g t group e (some tab) h =
      close_tabs-IsValid g group (tab ∷ []) (some tab.id) (drop_tab t group.tabs) e
        (ground (arith, eq_refl tab.id)) (λ x. rw (count-drop_tab t x group.tabs) (once x))
    where
      once :
          (x : String)
          → (if tab.id == x then 1 else 0)
              + 0
              + (if t == x then 0 else count x (tab_ids group.tabs))
            ≡ count x (tab_ids group.tabs)
      once x = ground (
        arith,
        h,
        eq_iff tab.id t,
        eq_iff tab.id x,
        eq_iff t x,
        held_by v g e t,
        held_in-le g (lookup t s.tab_to_group_map),
      )

  pub reduce_close_other_tabs-IsValid : (g t : String) → IsValid (reduce_close_other_tabs s g t)
  unfolding reduce_close_other_tabs
  reduce_close_other_tabs-IsValid g t = elim (Option-cases (lookup g s.groups)) [
    | inl e ↦ rw (with_group, e) v
    | inr (group, e) ↦
        rw (with_group, e)
          (close_other_tabs_found g t group e (find_tab t group.tabs) (find_tab-Found t group.tabs))
  ]

  close_right_found :
      (g t : String) (group : TerminalGroup)
      → lookup g s.groups ≡ some group
      → (index : Option ℕ)
      → IsValid (elim index [
        | none ↦ s
        | some idx ↦
            let new_tabs = take (idx + 1) group.tabs in
            close_tabs s g group new_tabs
              (keep_active group.active_tab_id new_tabs (last? new_tabs))
              (drop (idx + 1) group.tabs)
      ])
  close_right_found g t group e none = v
  close_right_found g t group e (some idx) =
      close_tabs-IsValid g group _ _ _ e
        (keep_active-IsActive group.active_tab_id _ _ (last?-IsActive (take (idx + 1) group.tabs)))
        (λ x. count-take-drop x (idx + 1) group.tabs)

  pub reduce_close_tabs_to_right-IsValid :
      (g t : String) → IsValid (reduce_close_tabs_to_right s g t)
  unfolding reduce_close_tabs_to_right
  reduce_close_tabs_to_right-IsValid g t = elim (Option-cases (lookup g s.groups)) [
    | inl e ↦ rw (with_group, e) v
    | inr (group, e) ↦
        rw (with_group, e) (close_right_found g t group e (find_tab_index t group.tabs))
  ]

  close_left_found :
      (g t : String) (group : TerminalGroup)
      → lookup g s.groups ≡ some group
      → (index : Option ℕ)
      → IsValid (elim index [
        | none ↦ s
        | some idx ↦
            let new_tabs = drop idx group.tabs in
            close_tabs s g group new_tabs
              (keep_active group.active_tab_id new_tabs (head? new_tabs))
              (take idx group.tabs)
      ])
  close_left_found g t group e none = v
  close_left_found g t group e (some idx) =
      close_tabs-IsValid g group _ _ _ e
        (keep_active-IsActive group.active_tab_id _ _ (head?-IsActive (drop idx group.tabs)))
        (λ x. omega (arith, count-take-drop x idx group.tabs))

  pub reduce_close_tabs_to_left-IsValid : (g t : String) → IsValid (reduce_close_tabs_to_left s g t)
  unfolding reduce_close_tabs_to_left
  reduce_close_tabs_to_left-IsValid g t = elim (Option-cases (lookup g s.groups)) [
    | inl e ↦ rw (with_group, e) v
    | inr (group, e) ↦
        rw (with_group, e) (close_left_found g t group e (find_tab_index t group.tabs))
  ]
