-- ===== src/Terminal/Invariant/Retab.antt =====
-- Layouts in which every tab is changed but for its id.
use mathlib.Core.Option
use r_shell.Prelude.{
  List, Option, Option-cases, String, [], ap, inl, inr, map, none, refl, show, some, some_inj,
  subst, sym, ◌∙◌, ◌∷◌, ◌≡◌,
}
use r_shell.Dict.{Dict, has, lookup, map_values}
use r_shell.Dict.Keys.{count_key-map_values}
use r_shell.Dict.Lookup.{lookup-map_values}
use r_shell.Terminal.Invariant.{IsGroup, IsValid}
use r_shell.Terminal.State.{tabs_of}
use r_shell.Terminal.Tabs.{tab_ids}
use r_shell.Terminal.Tabs.Count.{IsActive}
use r_shell.Terminal.Types.{TerminalGroup, TerminalGroupState, TerminalTab}

-- `{ ...group, tabs: group.tabs.map(f) }`
abbrev pub map_tabs : (TerminalTab → TerminalTab) → TerminalGroup → TerminalGroup
map_tabs f g = record g { tabs = map f g.tabs }

module _ (f : TerminalTab → TerminalTab) (same_id : (t : TerminalTab) → (f t).id ≡ t.id) where
  pub tab_ids-map : (ts : List TerminalTab) → tab_ids (map f ts) ≡ tab_ids ts
  tab_ids-map [] = refl
  tab_ids-map (t ∷ ts) = rw (same_id t) (ap (t.id ∷◌) (tab_ids-map ts))

  map-nil : (ts : List TerminalTab) → ts ≡ [] → map f ts ≡ []
  map-nil ts e = rw e

  map-IsActive :
      (active : Option String) (ts : List TerminalTab)
      → IsActive active ts
      → IsActive active (map f ts)
  map-IsActive none ts h = map-nil ts h
  map-IsActive (some id) ts h = rw (tab_ids-map ts) h

  pub tabs_of-map_values :
      (g : String) (gs : Dict TerminalGroup)
      → tabs_of g (map_values (map_tabs f) gs) ≡ map f (tabs_of g gs)
  tabs_of-map_values g gs = elim (Option-cases (lookup g gs)) [
    | inl e ↦ rw (tabs_of, lookup-map_values (map_tabs f) g gs, e)
    | inr (group, e) ↦ rw (tabs_of, lookup-map_values (map_tabs f) g gs, e)
  ]

  pub has-map_values :
      (g : String) (gs : Dict TerminalGroup) → has g (map_values (map_tabs f) gs) ≡ has g gs
  has-map_values g gs = elim (Option-cases (lookup g gs)) [
    | inl e ↦ rw (lookup-map_values (map_tabs f) g gs, e)
    | inr (group, e) ↦ rw (lookup-map_values (map_tabs f) g gs, e)
  ]

  mapped_ok :
      (g : String) (group : TerminalGroup) (old : Option TerminalGroup)
      → ((was : TerminalGroup) → old ≡ some was → IsGroup g was)
      → Option.map (map_tabs f) old ≡ some group
      → IsGroup g group
  mapped_ok g group none ok h = cc
  mapped_ok g group (some was) ok h = subst (IsGroup g) (some_inj h) (record {
    key = (ok was refl).key;
    active = map-IsActive was.active_tab_id was.tabs (ok was refl).active;
  })

  pub map_tabs-IsValid :
      {N : Type 0} {s : TerminalGroupState N}
      → IsValid s
      → IsValid (record s { groups = map_values (map_tabs f) s.groups })
  map_tabs-IsValid {s = s} v = record {
    object = λ k. rw (count_key-map_values (map_tabs f) k s.groups) (v.object k);
    group_ok = λ g group h.
        mapped_ok g group (lookup g s.groups) (v.group_ok g)
          (sym (lookup-map_values (map_tabs f) g s.groups) ∙ h);
    held = λ g t. rw (tabs_of-map_values g s.groups, tab_ids-map (tabs_of g s.groups)) (v.held g t);
    leaves = λ g. rw (has-map_values g s.groups) (v.leaves g);
    active = rw (has-map_values s.active_group_id s.groups) v.active;
    fresh = λ n h. rw (has-map_values (show n) s.groups) (v.fresh n h);
  }
