-- ===== src/Terminal/Store/Start.antt =====
-- The layout that the application starts with.
use mathlib.Core.Option
use r_shell.Prelude.{
  Bool, Bool-cases, Option, Option-cases, String, ap, false, inl, inr, none, refl, show, some,
  some_inj, subst, sym, true, ◌∙◌, ◌≡◌,
}
use r_shell.Dict.{Dict, has, lookup, map_values}
use r_shell.Dict.Keys.{count_key-map_values}
use r_shell.Dict.Lookup.{lookup-map_values}
use r_shell.Terminal.Invariant.{IsValid}
use r_shell.Terminal.Invariant.Restore.{map_values-read_group}
use r_shell.Terminal.Invariant.Retab.{map_tabs-IsValid}
use r_shell.Terminal.Invariant.Split.{create_default_state-IsValid}
use r_shell.Terminal.State.{groups_read, read_group}
use r_shell.Terminal.Store.{
  StoredState, dedupe_duplicate_tabs, heal, initialize_state, pending_tab, reset_stored,
}
use r_shell.Terminal.Store.Heal.{IsFramed, healed-IsValid}
use r_shell.Terminal.Types.{TerminalGroup}

module _ (f : TerminalGroup → TerminalGroup) (same_id : (x : TerminalGroup) → (f x).id ≡ x.id) where
  map_key :
      (g : String) (group : TerminalGroup) (old : Option TerminalGroup)
      → ((was : TerminalGroup) → old ≡ some was → was.id ≡ g)
      → Option.map f old ≡ some group
      → group.id ≡ g
  map_key g group none key h = cc
  map_key g group (some was) key h = subst (λ x. x.id ≡ g) (some_inj h) (same_id was ∙ key was refl)

  has-mapped : (g : String) (gs : Dict TerminalGroup) → has g (map_values f gs) ≡ has g gs
  has-mapped g gs = elim (Option-cases (lookup g gs)) [
    | inl e ↦ rw (lookup-map_values f g gs, e)
    | inr (group, e) ↦ rw (lookup-map_values f g gs, e)
  ]

  pub map_values-IsFramed :
      {N : Type 0} {s : StoredState N}
      → IsFramed s
      → IsFramed (record s { groups = map_values f s.groups })
  map_values-IsFramed {s = s} framed = record {
    object = λ k. rw (count_key-map_values f k s.groups) (framed.object k);
    key = λ g group h.
        map_key g group (lookup g s.groups) (framed.key g)
          (sym (lookup-map_values f g s.groups) ∙ h);
    leaves = λ g. rw (has-mapped g s.groups) (framed.leaves g);
    active = rw (has-mapped s.active_group_id s.groups) framed.active;
    fresh = λ n h. rw (has-mapped (show n) s.groups) (framed.fresh n h);
  }

module _ {N : Type 0} where
  pub reset_stored-map :
      (s : StoredState N) → reset_stored s ≡ record s { groups = map_values read_group s.groups }
  unfolding reset_stored
  reset_stored-map s = elim (Bool-cases (groups_read s.groups)) [
    | inl e ↦ rw e (ap (λ gs. record s { groups = gs }) (sym (map_values-read_group s.groups e)))
    | inr e ↦ rw e
  ]

  reset_stored-IsFramed : {s : StoredState N} → IsFramed s → IsFramed (reset_stored s)
  reset_stored-IsFramed {s} framed =
      subst IsFramed (sym (reset_stored-map s)) (map_values-IsFramed read_group (λ x. refl) framed)

  -- Whatever is stored, the application starts with a valid layout, if a stored layout keeps its
  -- groups framed: its tabs may have ids twice, active tabs that are not there and stale owners.
  pub initialize_state-IsValid :
      (enabled : Bool) (stored : Option (StoredState N))
      → ((s : StoredState N) → stored ≡ some s → IsFramed s)
      → IsValid (initialize_state enabled (Option.map heal stored))
  unfolding initialize_state heal dedupe_duplicate_tabs
  initialize_state-IsValid false stored framed = create_default_state-IsValid
  initialize_state-IsValid true none framed = create_default_state-IsValid
  initialize_state-IsValid true (some s) framed =
      map_tabs-IsValid pending_tab (λ t. refl)
        (healed-IsValid (reset_stored-IsFramed (framed s refl)))
