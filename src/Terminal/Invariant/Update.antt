-- ===== src/Terminal/Invariant/Update.antt =====
-- A layout stays valid where one group and the map change together.
use r_shell.Prelude.{
  Bool-cases, String, ap, arith, count, eq_iff, false, inl, inr, show, some, some_inj, subst, sym,
  true, ◌==◌, ◌∙◌, ◌≡◌,
}
use r_shell.Dict.{Dict, has, insert, lookup}
use r_shell.Dict.Keys.{insert-IsObject}
use r_shell.Dict.Lookup.{lookup-insert}
use r_shell.Terminal.Invariant.{IsGroup, IsValid, has-insert, held_in, tabs_of-insert}
use r_shell.Terminal.State.{tabs_of}
use r_shell.Terminal.Tabs.{tab_ids}
use r_shell.Terminal.Types.{TerminalGroup, TerminalGroupState}

-- The new group and the new map agree on what the group holds, and the map is the old one for all
-- other groups.
pub record Agrees (g : String) (group : TerminalGroup) (old new : Dict String) : Type 0 where
  pub here : (t : String) → count t (tab_ids group.tabs) ≡ held_in g (lookup t new)
  pub elsewhere :
      (j t : String) → (g == j) ≡ false → held_in j (lookup t new) ≡ held_in j (lookup t old)

pub insert-groups_ok :
    (g : String) (group : TerminalGroup) (gs : Dict TerminalGroup)
    → ((j : String) (other : TerminalGroup) → lookup j gs ≡ some other → IsGroup j other)
    → IsGroup g group
    → (j : String) (other : TerminalGroup) → lookup j (insert g group gs) ≡ some other
    → IsGroup j other
insert-groups_ok g group gs old ok j other h = elim (Bool-cases (g == j)) [
  | inl e ↦
      subst (λ k. IsGroup k other) ((eq_iff g j).0 e)
        (subst (IsGroup g) (some_inj (rw (lookup-insert g j group gs, e) at h)) ok)
  | inr e ↦ old j other (rw (lookup-insert g j group gs, e) at h)
]

-- Only what the new map holds matters.
pub Agrees-lookup :
    {g : String} {group : TerminalGroup} {old new new' : Dict String}
    → ((t : String) → lookup t new ≡ lookup t new')
    → Agrees g group old new
    → Agrees g group old new'
Agrees-lookup {g} h a = record {
  here = λ t. a.here t ∙ ap (held_in g) (h t);
  elsewhere = λ j t other. ap (held_in j) (sym (h t)) ∙ a.elsewhere j t other;
}

module _ {N : Type 0} {s : TerminalGroupState N} (v : IsValid s) where
  pub insert-held :
      (g : String) (group : TerminalGroup) (new : Dict String)
      → Agrees g group s.tab_to_group_map new
      → (j t : String)
      → count t (tab_ids (tabs_of j (insert g group s.groups))) ≡ held_in j (lookup t new)
  insert-held g group new a j t = elim (Bool-cases (g == j)) [
    | inl e ↦ rw (tabs_of-insert g j group s.groups, e, ← (eq_iff g j).0 e) (a.here t)
    | inr e ↦ rw (tabs_of-insert g j group s.groups, e) (v.held j t ∙ sym (a.elsewhere j t e))
  ]

  -- An existing group is replaced.
  pub set_group-IsValid :
      (g : String) (group : TerminalGroup) (new : Dict String)
      → has g s.groups ≡ true
      → IsGroup g group
      → Agrees g group s.tab_to_group_map new
      → IsValid (record s { groups = insert g group s.groups; tab_to_group_map = new })
  set_group-IsValid g group new there ok a = record {
    object = insert-IsObject g group s.groups v.object;
    group_ok = insert-groups_ok g group s.groups v.group_ok ok;
    held = insert-held g group new a;
    leaves = λ j. rw (has-insert g j group s.groups) (ground (arith, v.leaves j, eq_iff g j));
    active = rw (has-insert g s.active_group_id group s.groups) (ground (arith, v.active));
    fresh = λ n h.
        rw (has-insert g (show n) group s.groups) (ground (arith, v.fresh n h, eq_iff g (show n)));
  }
