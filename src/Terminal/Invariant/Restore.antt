-- ===== src/Terminal/Invariant/Restore.antt =====
-- `resetUnreadOutput` on a valid layout.
use r_shell.Prelude.{
  Bool-cases, List, [], ap, arith, inl, inr, map, refl, subst, sym, true, ◌∷◌, ◌≡◌,
}
use r_shell.Dict.{Dict, map_values}
use r_shell.Terminal.Invariant.{IsValid}
use r_shell.Terminal.Invariant.Retab.{map_tabs-IsValid}
use r_shell.Terminal.State.{all_read, groups_read, read_group, read_tab, reset_unread_output}
use r_shell.Terminal.Types.{TerminalGroup, TerminalGroupState, TerminalTab}

-- Where all tabs are read already, marking them changes nothing.
map-read_tab : (ts : List TerminalTab) → all_read ts ≡ true → map read_tab ts ≡ ts
unfolding all_read
map-read_tab [] h = refl
map-read_tab (t ∷ ts) h = ground (arith, map-read_tab ts)

pub map_values-read_group :
    (gs : Dict TerminalGroup) → groups_read gs ≡ true → map_values read_group gs ≡ gs
unfolding groups_read map_values
map_values-read_group [] h = refl
map_values-read_group ((k, g) ∷ gs) h =
    ground (arith, map-read_tab g.tabs, map_values-read_group gs)

module _ {N : Type 0} where
  -- `resetUnreadOutput` gives the layout in which every tab is marked as read, also where it returns
  -- the state that it was given.
  pub reset_unread_output-map :
      (s : TerminalGroupState N)
      → reset_unread_output s ≡ record s { groups = map_values read_group s.groups }
  unfolding reset_unread_output
  reset_unread_output-map s = elim (Bool-cases (groups_read s.groups)) [
    | inl e ↦ rw e (ap (λ gs. record s { groups = gs }) (sym (map_values-read_group s.groups e)))
    | inr e ↦ rw e
  ]

  pub reset_unread_output-IsValid :
      {s : TerminalGroupState N} → IsValid s → IsValid (reset_unread_output s)
  reset_unread_output-IsValid {s} v =
      subst IsValid (sym (reset_unread_output-map s)) (map_tabs-IsValid read_tab (λ t. refl) v)
