-- ===== src/Terminal/Invariant/Reorder.antt =====
-- `REORDER_TAB` on a valid layout.
use r_shell.Prelude.{
  Bool-cases, List, Option, Option-cases, String, [], ap, arith, count, eq_refl, eqb, get_elem?,
  if◌then◌else◌, inl, inr, length, none, refl, some, ℕ, ℤ, ◌∷◌, ◌≡◌,
}
use r_shell.Dict.{lookup}
use r_shell.Terminal.Invariant.{IsValid}
use r_shell.Terminal.Invariant.Tabs.{same-Agrees}
use r_shell.Terminal.Invariant.Update.{set_group-IsValid}
use r_shell.Terminal.Reducer.Move.{index_in, reduce_reorder_tab, reorder}
use r_shell.Terminal.State.{set_group, with_group}
use r_shell.Terminal.Tabs.{erase_tab, insert_tab, tab_ids}
use r_shell.Terminal.Tabs.Count.{IsActive, count-erase_tab, count-insert_tab}
use r_shell.Terminal.Types.{TerminalGroup, TerminalGroupState, TerminalTab}

count-moved :
    (t : String) (ts : List TerminalTab) (from to : ℕ) (found : Option TerminalTab)
    → get_elem? ts from ≡ found
    → count t
        (tab_ids (elim found [ none ↦ ts | some moved ↦ insert_tab to moved (erase_tab from ts) ]))
      ≡ count t (tab_ids ts)
count-moved t ts from to none e = refl
count-moved t ts from to (some moved) e =
    omega (arith, count-insert_tab t to moved (erase_tab from ts), count-erase_tab t from ts e)

count-reorder :
    (t : String) (ts : List TerminalTab) (from to : ℕ)
    → count t (tab_ids (reorder ts from to)) ≡ count t (tab_ids ts)
unfolding reorder
count-reorder t ts from to = count-moved t ts from to (get_elem? ts from) refl

-- The same ids, so the same active tab.
IsActive-permute :
    (active : Option String) (old new : List TerminalTab)
    → ((t : String) → count t (tab_ids new) ≡ count t (tab_ids old))
    → IsActive active old
    → IsActive active new
IsActive-permute none old [] h ok = refl
IsActive-permute none old (a ∷ new) h ok =
    absurd (ground (arith, h a.id, ap (λ ts. count a.id (tab_ids ts)) ok, eq_refl a.id))
IsActive-permute (some id) old new h ok = omega (arith, h id)

module _ {N : Type 0} {s : TerminalGroupState N} (v : IsValid s) where
  -- The group gets its tabs in another order.
  pub permute-IsValid :
      (g : String) (group : TerminalGroup) (ts : List TerminalTab)
      → lookup g s.groups ≡ some group
      → ((t : String) → count t (tab_ids ts) ≡ count t (tab_ids group.tabs))
      → IsValid (set_group s g (record group { tabs = ts }))
  permute-IsValid g group ts e h =
      set_group-IsValid v g _ s.tab_to_group_map (rw e)
        (record {
          key = (v.group_ok g group e).key;
          active =
              IsActive-permute group.active_tab_id group.tabs ts h (v.group_ok g group e).active;
        })
        (same-Agrees v g e h)

  reorder_found :
      (g : String) (group : TerminalGroup) (from to : Option ℕ)
      → lookup g s.groups ≡ some group
      → IsValid (elim from [
        | none ↦ s
        | some i ↦ elim to [
          | none ↦ s
          | some j ↦
              if eqb i j then s else set_group s g (record group { tabs = reorder group.tabs i j })
        ]
      ])
  reorder_found g group none to e = v
  reorder_found g group (some i) none e = v
  reorder_found g group (some i) (some j) e = elim (Bool-cases (eqb i j)) [
    | inl same ↦ rw same v
    | inr other ↦ rw other (permute-IsValid g group _ e (λ t. count-reorder t group.tabs i j))
  ]

  pub reduce_reorder_tab-IsValid : (g : String) (i j : ℤ) → IsValid (reduce_reorder_tab s g i j)
  unfolding reduce_reorder_tab
  reduce_reorder_tab-IsValid g i j = elim (Option-cases (lookup g s.groups)) [
    | inl e ↦ rw (with_group, e) v
    | inr (group, e) ↦
        rw (with_group, e)
          (reorder_found g group (index_in i (length group.tabs)) (index_in j (length group.tabs))
            e)
  ]
