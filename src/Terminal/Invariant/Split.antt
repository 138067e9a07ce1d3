-- ===== src/Terminal/Invariant/Split.antt =====
-- A new group beside an existing one on a valid layout.
use r_shell.Prelude.{
  Bool, Bool-cases, Option-cases, String, [], arith, count, eq_iff, eq_refl, false, if◌then◌else◌,
  inl, inr, none, refl, show, show_inj, some, sym, true, ℕ, ◌+◌, ◌==◌, ◌∙◌, ◌∷◌, ◌≡◌, ◌≤◌,
}
use r_shell.Dict.{Dict, has, insert, lookup}
use r_shell.Dict.Keys.{insert-IsObject}
use r_shell.Terminal.Grid.{collect_leaf_ids, insert_split}
use r_shell.Terminal.Grid.Split.{count-insert_split}
use r_shell.Terminal.Invariant.{IsGroup, IsValid, has-insert, held_in, tabs_of-insert}
use r_shell.Terminal.Invariant.Tabs.{join-Agrees}
use r_shell.Terminal.Invariant.Update.{Agrees, insert-groups_ok, insert-held}
use r_shell.Terminal.State.{create_default_state, tabs_of}
use r_shell.Terminal.Tabs.{tab_ids}
use r_shell.Terminal.Types.{Float, SplitDirection, TerminalGroup, TerminalGroupState, TerminalTab}

module _ {N : Type 0} (num : Float N) {s : TerminalGroupState N} (v : IsValid s) where
  abbrev new_id : String
  new_id = show s.next_group_id

  new_id-free : has new_id s.groups ≡ false
  new_id-free = v.fresh s.next_group_id (omega arith)

  -- No tab is in the new group yet.
  new_id-holds_none : (t : String) → held_in new_id (lookup t s.tab_to_group_map) ≡ 0
  new_id-holds_none t = sym (v.held new_id t) ∙ elim (Option-cases (lookup new_id s.groups)) [
    | inl e ↦ rw (tabs_of, e)
    | inr (group, e) ↦ absurd (ground (arith, new_id-free, e))
  ]

  -- The new group takes a tab that has no owner.
  pub fresh-Agrees :
      (t : String) (tab : TerminalTab)
      → (tab.id == t) ≡ true
      → lookup t s.tab_to_group_map ≡ none
      → Agrees new_id
          (record { id = new_id; tabs = tab ∷ []; active_tab_id = some tab.id })
          s.tab_to_group_map
          (insert t new_id s.tab_to_group_map)
  fresh-Agrees t tab same free =
      join-Agrees v new_id t free (λ x.
        ground (arith, same, eq_iff tab.id t, eq_iff tab.id x, eq_iff t x, new_id-holds_none x))

  pub empty-Agrees :
      Agrees new_id
        (record { id = new_id; tabs = []; active_tab_id = none })
        s.tab_to_group_map
        s.tab_to_group_map
  empty-Agrees = record { here = λ t. sym (new_id-holds_none t); elsewhere = λ j t other. refl }

  -- `SPLIT_GROUP` and `MOVE_TAB_TO_NEW_GROUP`: the new group is active, and the next number is used.
  pub split-IsValid :
      (g : String) (group : TerminalGroup) (direction : SplitDirection) (new : Dict String)
      → has g s.groups ≡ true
      → IsGroup new_id group
      → Agrees new_id group s.tab_to_group_map new
      → IsValid (record s {
        groups = insert new_id group s.groups;
        active_group_id = new_id;
        grid_layout = insert_split num s.grid_layout g new_id direction;
        next_group_id = s.next_group_id + 1;
        tab_to_group_map = new;
      })
  split-IsValid g group direction new there ok a = record {
    object = insert-IsObject new_id group s.groups v.object;
    group_ok = insert-groups_ok new_id group s.groups v.group_ok ok;
    held = insert-held v new_id group new a;
    leaves = λ j.
        count-insert_split num g new_id direction j s.grid_layout
        ∙ rw (has-insert new_id j group s.groups)
            (ground (arith, v.leaves j, v.leaves g, there, new_id-free, eq_iff new_id j));
    active = rw (has-insert new_id new_id group s.groups) (ground (arith, eq_refl new_id));
    fresh = λ n h. rw (has-insert new_id (show n) group s.groups) (
        ground
          (arith, v.fresh n (omega arith), eq_iff new_id (show n), show_inj s.next_group_id n));
  }

lookup-nil {ℓ} : {V : Type ℓ} (k : String) → lookup {V = V} k [] ≡ none
unfolding lookup
lookup-nil k = refl

tabs_of-nil : (g : String) → tabs_of g [] ≡ []
tabs_of-nil g = rw (tabs_of, lookup-nil {V = TerminalGroup} g)

nothing_held :
    (g t : String) (b : Bool) → count t (tab_ids (if b then [] else [])) ≡ held_in g (lookup t [])
unfolding lookup
nothing_held g t true = refl
nothing_held g t false = refl

no_groups : (j : String) {group : TerminalGroup} → lookup j [] ≡ some group → ⊥
no_groups j h = cc (lookup-nil {V = TerminalGroup} j)

show-one : show 1 ≡ "1"
unfolding show
show-one = refl

not-show-one : (n : ℕ) → 2 ≤ n → ("1" == show n) ≡ false
not-show-one n h = elim (Bool-cases ("1" == show n)) [
  | inl e ↦ absurd (omega (arith, show_inj 1 n (show-one ∙ (eq_iff "1" (show n)).0 e)))
  | inr e ↦ e
]

-- The default layout is valid.
pub create_default_state-IsValid : {N : Type 0} → IsValid (create_default_state {N = N})
unfolding create_default_state collect_leaf_ids
create_default_state-IsValid = record {
  object = insert-IsObject "1" _ [] (λ k. omega arith);
  group_ok =
      insert-groups_ok "1" _ [] (λ j other h. absurd (no_groups j h))
        (record { key = refl; active = refl });
  held = λ g t. rw (tabs_of-insert "1" g _ [], tabs_of-nil g) (nothing_held g t ("1" == g));
  leaves = λ g. rw (has-insert "1" g _ [], lookup-nil g) (ground arith);
  active = rw (has-insert "1" "1" _ []) (ground (arith, eq_refl "1"));
  fresh = λ n h.
      rw (has-insert "1" (show n) _ [], lookup-nil (show n)) (ground (arith, not-show-one n h));
}
