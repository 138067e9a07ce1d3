-- ===== src/Terminal/Store/Return.antt =====
-- A layout that is saved, read again and started with.
use mathlib.Core.Option.{none-ne-some}
use r_shell.Prelude.{
  Bool, List, Option, Option-cases, String, [], ap, arith, count, count-append, false, filter, inl,
  inr, map, none, refl, some, some_inj, subst, true, ◌∙◌, ◌∷◌, ◌≡◌, ◌≤◌,
}
use r_shell.Dict.{Dict, lookup, map_values}
use r_shell.Dict.Lookup.{lookup-map_values}
use r_shell.Json.{Json}
use r_shell.Terminal.Grid.Sizes.{IsAligned}
use r_shell.Terminal.Invariant.{IsValid}
use r_shell.Terminal.Invariant.Retab.{map_tabs, tab_ids-map, tabs_of-map_values}
use r_shell.Terminal.State.{read_group, read_tab, tabs_of}
use r_shell.Terminal.Store.{
  StoredState, dedupe_duplicate_tabs, dedupe_groups, heal, initialize_state, is_seen, not_editor,
  pending_group, pending_tab, save_state, saved_group, serialize_data, stored_group, stored_tab,
  with_tabs,
}
use r_shell.Terminal.Store.Accept.{accepted_data}
use r_shell.Terminal.Store.Accepted.{accepted_data-IsAligned, envelope_json}
use r_shell.Terminal.Store.Heal.{IsFramed}
use r_shell.Terminal.Store.Kept.{IsFresh, all_ids-IsFresh, tabs_of-dedupe_groups}
use r_shell.Terminal.Store.Restart.{accepted_state, reloaded_state, restart}
use r_shell.Terminal.Store.Start.{initialize_state-IsValid, map_values-IsFramed, reset_stored-map}
use r_shell.Terminal.Store.Unique.{all_ids}
use r_shell.Terminal.Tabs.{tab_ids}
use r_shell.Terminal.Types.{TerminalGroup, TerminalGroupState, TerminalTab, pending}

all_ids-map_values :
    (f : TerminalTab → TerminalTab) (same_id : (t : TerminalTab) → (f t).id ≡ t.id)
    (gs : Dict TerminalGroup)
    → all_ids (map_values (map_tabs f) gs) ≡ all_ids gs
unfolding map_values
all_ids-map_values f same_id [] = refl
all_ids-map_values f same_id ((k, group) ∷ gs) =
    rw (tab_ids-map f same_id group.tabs, all_ids-map_values f same_id gs)

count-filter_le :
    (t : String) (ts : List TerminalTab)
    → count t (tab_ids (filter not_editor ts)) ≤ count t (tab_ids ts)
unfolding filter
count-filter_le t [] = omega arith
count-filter_le t (a ∷ ts) = ground (arith, count-filter_le t ts)

count-saved_groups :
    (t : String) (gs : Dict TerminalGroup)
    → count t (all_ids (map_values saved_group gs)) ≤ count t (all_ids gs)
unfolding map_values with_tabs
count-saved_groups t [] = omega arith
count-saved_groups t ((k, group) ∷ gs) = omega (
  arith,
  count-append t (tab_ids group.tabs) (all_ids gs),
  count-append t (tab_ids (filter not_editor group.tabs)) (all_ids (map_values saved_group gs)),
  count-filter_le t group.tabs,
  count-saved_groups t gs,
)

tabs_of-saved_groups :
    (g : String) (gs : Dict TerminalGroup)
    → tabs_of g (map_values saved_group gs) ≡ filter not_editor (tabs_of g gs)
unfolding with_tabs filter
tabs_of-saved_groups g gs = elim (Option-cases (lookup g gs)) [
  | inl e ↦ rw (tabs_of, lookup-map_values saved_group g gs, e) refl
  | inr (group, e) ↦ rw (tabs_of, lookup-map_values saved_group g gs, e) refl
]

-- A tab as it comes back.
abbrev pub returned_tab : TerminalTab → TerminalTab
returned_tab t = record t { has_unread_output = some false; connection_status = pending }

returned-map :
    (ts : List TerminalTab)
    → map pending_tab (map read_tab (map stored_tab ts)) ≡ map returned_tab ts
returned-map [] = refl
returned-map (t ∷ ts) = ap (returned_tab t ∷◌) (returned-map ts)

saved-Fresh :
    {N : Type 0} {s : TerminalGroupState N}
    → IsValid s
    → IsFresh [] (
        all_ids (map_values read_group (map_values stored_group (map_values saved_group s.groups))))
unfolding is_seen
saved-Fresh {s = s} v t =
    rw
      (
        all_ids-map_values read_tab (λ t. refl)
            (map_values stored_group (map_values saved_group s.groups)),
        all_ids-map_values stored_tab (λ t. refl) (map_values saved_group s.groups),
      )
      (omega (arith, (all_ids-IsFresh v t).0, count-saved_groups t s.groups), λ k. cc)

module _ {N : Type 0} {s : TerminalGroupState N} (v : IsValid s) where
  pub saved-IsFramed : IsFramed (serialize_data (save_state s))
  unfolding serialize_data save_state with_tabs
  saved-IsFramed =
      map_values-IsFramed stored_group (λ x. refl)
        (map_values-IsFramed saved_group (λ x. refl)
          (record {
            object = v.object;
            key = λ g group e. (v.group_ok g group e).key;
            leaves = v.leaves;
            active = v.active;
            fresh = v.fresh;
          }))

  returned_tabs :
      (g : String)
      → tabs_of g (
          map_values pending_group (
            dedupe_groups []
              (map_values read_group (map_values stored_group (map_values saved_group s.groups)))))
        ≡ map returned_tab (filter not_editor (tabs_of g s.groups))
  returned_tabs g =
      let saved = map_values saved_group s.groups in
      tabs_of-map_values pending_tab (λ t. refl) g _
      ∙ ap (map pending_tab) (
          tabs_of-dedupe_groups g [] _ (saved-Fresh v)
          ∙ (tabs_of-map_values read_tab (λ t. refl) g (map_values stored_group saved)
              ∙ ap (map read_tab) (
                  tabs_of-map_values stored_tab (λ t. refl) g saved
                  ∙ ap (map stored_tab) (tabs_of-saved_groups g s.groups))))
      ∙ returned-map (filter not_editor (tabs_of g s.groups))

  healed_and_restored :
      (let back = initialize_state true (some (heal (serialize_data (save_state s)))) in
        IsValid back
        × (back.grid_layout ≡ s.grid_layout)
        × (back.active_group_id ≡ s.active_group_id)
        × ((g : String)
            → tabs_of g back.groups ≡ map returned_tab (filter not_editor (tabs_of g s.groups))))
  unfolding initialize_state heal dedupe_duplicate_tabs serialize_data save_state
  healed_and_restored =
      let stored = serialize_data (save_state s) in
      (
        initialize_state-IsValid true (some stored)
            (λ x e. subst IsFramed (some_inj e) saved-IsFramed),
        ap (λ x. x.grid_layout) (reset_stored-map stored),
        ap (λ x. x.active_group_id) (reset_stored-map stored),
        λ g.
            ap (λ x. tabs_of g (map_values pending_group (dedupe_groups [] x.groups)))
              (reset_stored-map stored)
            ∙ returned_tabs g,
      )

  -- The data is found again where every branch has one size for each child.
  accepted_state-aligned :
      (number_json : N → Json) (tab_json : TerminalTab → Json)
      → IsAligned s.grid_layout
      → accepted_state number_json tab_json s ≡ some (serialize_data (save_state s))
  unfolding accepted_state save_state
  accepted_state-aligned number_json tab_json aligned =
      rw (accepted_state, (accepted_data-IsAligned number_json tab_json (save_state s)).1 aligned)
        refl

  -- A restart, with any setting, takes a valid layout to a valid one, whether what was saved is accepted
  -- or not.
  pub restart-IsValid :
      (number_json : N → Json) (tab_json : TerminalTab → Json) (enabled : Bool)
      → IsValid (restart number_json tab_json enabled s)
  unfolding restart reloaded_state accepted_state
  restart-IsValid number_json tab_json enabled =
      initialize_state-IsValid enabled (accepted_state number_json tab_json s)
        (λ x e. by_answer (accepted_data (envelope_json number_json tab_json (save_state s))) x e)
    where
      by_answer :
          (answer : Option Json) (x : StoredState N)
          → elim answer as (λ o. Option (StoredState N)) [
            | none ↦ none
            | some found ↦ some (serialize_data (save_state s))
          ]
            ≡ some x
          → IsFramed x
      by_answer none x e = absurd (none-ne-some x e)
      by_answer (some found) x e = subst IsFramed (some_inj e) saved-IsFramed

  -- A valid layout, in which every branch of the tree has one size for each child, is valid after it has
  -- been saved and started with again, with the same tree and the same active group, and each group has
  -- its tabs in their order but for the editor tabs, each pending and marked as read.
  pub saved_and_restored :
      (number_json : N → Json) (tab_json : TerminalTab → Json)
      → IsAligned s.grid_layout
      → (let back = restart number_json tab_json true s in
          IsValid back
          × (back.grid_layout ≡ s.grid_layout)
          × (back.active_group_id ≡ s.active_group_id)
          × ((g : String)
              → tabs_of g back.groups ≡ map returned_tab (filter not_editor (tabs_of g s.groups))))
  unfolding restart reloaded_state
  saved_and_restored number_json tab_json aligned =
      rw (restart, reloaded_state, accepted_state-aligned number_json tab_json aligned)
        healed_and_restored
