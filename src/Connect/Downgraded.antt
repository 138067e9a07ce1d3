-- ===== src/Connect/Downgraded.antt =====
-- Which tabs the health checks of src/lib/session-health.ts mark as disconnected.
use mathlib.Core.Option.{none-ne-some}
use r_shell.Prelude.{
  Bool, Bool-cases, List, Memᴰ, Option, Option-cases, [], ap, arith, false, if◌then◌else◌,
  impossible, inl, inr, is_some, length, map, none, not, refl, some, some_inj, subst, suc, sym,
  true, ℕ, ◌++◌, ◌||◌, ◌∙◌, ◌∷◌, ◌≡◌, ◌≤◌,
}
use r_shell.Connect.Checked.{
  IsChecked, IsPass, Picks-passed_by, answered_pass-IsPass, append_nil, is_tab_checked,
  is_tab_checked-IsChecked, last_or, nothing, skipped, snoc_append,
}
use r_shell.Connect.Health.{
  HealthCheckedTab, HealthEvent, Pass, Poller, SessionHealth, Waiting, answered_pass, check_tabs,
  fetch_settled, health_run, health_step, idle_poller, is_connected, is_ssh_terminal_tab, polled,
  reconcile_session_health,
}

-- A pass that runs has come as far as the tab that it has asked about.
pub record IsRunning (w : Waiting) : Type 0 where
  pub before : List HealthCheckedTab
  pub split : w.pass.given ≡ before ++ (w.asked ∷ w.later)
  pub is_checked : IsChecked w.asked
  pub is_pass : IsPass before w.pass

pub record IsOrderly (p : Poller) : Type 0 where
  pub flagged : p.in_flight ≡ is_some p.waiting
  pub running : (w : Waiting) → p.waiting ≡ some w → IsRunning w
  pub finished : (pass : Pass) → Memᴰ pass p.passes → IsPass pass.given pass

check_tabs-IsOrderly :
    (passes : List Pass) (pass : Pass) (before tabs : List HealthCheckedTab)
    → pass.given ≡ before ++ tabs
    → IsPass before pass
    → ((q : Pass) → Memᴰ q passes → IsPass q.given q)
    → IsOrderly (check_tabs passes pass tabs)
unfolding check_tabs is_tab_checked
check_tabs-IsOrderly passes pass before [] split p others = record {
  flagged = refl;
  running = λ w e. absurd (none-ne-some w e);
  finished = λ q m. elim (last_or q passes pass m) [
    | inl t ↦ others q t
    | inr e ↦
        subst (λ r. IsPass r.given r) (sym e)
          (subst (λ ts. IsPass ts pass) (sym (split ∙ append_nil before)) p)
  ];
}
check_tabs-IsOrderly passes pass before (tab ∷ tabs) split p others =
    elim (Bool-cases (is_tab_checked tab)) [
      | inl e ↦
          rw
            (
              check_tabs,
              skipped (is_ssh_terminal_tab tab) (is_connected tab.connection_status) ∙ ap not e,
            )
            (record {
              flagged = refl;
              running = λ w k. subst IsRunning (some_inj k) (record {
                before = before;
                split = split;
                is_checked = (is_tab_checked-IsChecked tab).0 e;
                is_pass = p;
              });
              finished = others;
            })
      | inr e ↦
          rw
            (
              check_tabs,
              skipped (is_ssh_terminal_tab tab) (is_connected tab.connection_status) ∙ ap not e,
            )
            (check_tabs-IsOrderly passes pass (before ++ (tab ∷ [])) tabs
              (split ∙ snoc_append before tab tabs)
              (record {
                checked =
                    Picks-passed_by p.checked
                      (λ k. impossible (sym e ∙ (is_tab_checked-IsChecked tab).1 k));
                lost = p.lost;
                found = p.found;
                same = p.same;
              })
              others)
    ]

if-IsOrderly :
    (b : Bool) {x y : Poller} → IsOrderly x → IsOrderly y → IsOrderly (if b then x else y)
if-IsOrderly true h k = h
if-IsOrderly false h k = k

given-answered_pass :
    (tab : HealthCheckedTab) (answer : Option SessionHealth) (pass : Pass)
    → (answered_pass tab answer pass).given ≡ pass.given
unfolding answered_pass
given-answered_pass tab none pass = refl
given-answered_pass tab (some h) pass = refl

health_step-IsOrderly : (e : HealthEvent) (p : Poller) → IsOrderly p → IsOrderly (health_step e p)
unfolding health_step reconcile_session_health
health_step-IsOrderly (polled tabs) p h = if-IsOrderly p.in_flight h (
    check_tabs-IsOrderly p.passes (record { given = tabs; fetched = []; unhealthy = [] }) [] tabs
      refl (record { checked = nothing; lost = []; found = nothing; same = refl }) h.finished)
health_step-IsOrderly (fetch_settled answer) p h = by_waiting p.waiting h.running
  where
    by_waiting :
        (o : Option Waiting)
        → ((w : Waiting) → o ≡ some w → IsRunning w)
        → IsOrderly (elim o [
          | none ↦ p
          | some w ↦ check_tabs p.passes (answered_pass w.asked answer w.pass) w.later
        ])
    by_waiting none running = h
    by_waiting (some w) running =
        let r = running w refl in
        check_tabs-IsOrderly p.passes (answered_pass w.asked answer w.pass)
          (r.before ++ (w.asked ∷ [])) w.later
          (given-answered_pass w.asked answer w.pass
            ∙ r.split
            ∙ snoc_append r.before w.asked w.later)
          (answered_pass-IsPass r.before w.asked answer w.pass r.is_checked r.is_pass) h.finished

health_run-from :
    (events : List HealthEvent) (p : Poller) → IsOrderly p → IsOrderly (health_run events p)
unfolding health_run
health_run-from [] p h = h
health_run-from (e ∷ es) p h = health_run-from es (health_step e p) (health_step-IsOrderly e p h)

-- Whatever calls and answers come, in any order, the flag is set just while a pass waits for an answer,
-- and each pass that has returned has asked about just the connected SSH terminals among its tabs, in
-- their order, and returned the ids of just those of them that have lost their SSH connection, or have no
-- terminal and none that is detached; a pass that still runs has done so up to the tab it has asked about.
pub health_run-IsOrderly : (events : List HealthEvent) → IsOrderly (health_run events idle_poller)
health_run-IsOrderly events = health_run-from events idle_poller (record {
  flagged = refl;
  running = λ w e. absurd (none-ne-some w e);
  finished = λ q m. elim m [ ];
})

-- The answers that a pass can still wait for.
abbrev pub open_fetches : Poller → ℕ
open_fetches p = elim p.waiting [ none ↦ 0 | some w ↦ suc (length w.later) ]

open_fetches-check_tabs :
    (passes : List Pass) (pass : Pass) (tabs : List HealthCheckedTab)
    → open_fetches (check_tabs passes pass tabs) ≤ length tabs
unfolding check_tabs
open_fetches-check_tabs passes pass [] = omega arith
open_fetches-check_tabs passes pass (tab ∷ tabs) =
    elim (Bool-cases (not (is_ssh_terminal_tab tab) || not (is_connected tab.connection_status))) [
      | inl e ↦
          let later = open_fetches-check_tabs passes pass tabs in
          rw (check_tabs, e) (omega (arith, later))
      | inr e ↦ rw (check_tabs, e) (omega arith)
    ]

open_fetches-step :
    (answer : Option SessionHealth) (p : Poller) (n : ℕ)
    → open_fetches p ≤ suc n
    → open_fetches (health_step (fetch_settled answer) p) ≤ n
unfolding health_step
open_fetches-step answer p n h = by_waiting p.waiting refl h
  where
    by_waiting :
        (o : Option Waiting)
        → p.waiting ≡ o
        → elim o as (λ x. ℕ) [ none ↦ 0 | some w ↦ suc (length w.later) ] ≤ suc n
        → open_fetches (elim o [
          | none ↦ p
          | some w ↦ check_tabs p.passes (answered_pass w.asked answer w.pass) w.later
        ])
          ≤ n
    by_waiting none e k = rw (open_fetches, e) (omega arith)
    by_waiting (some w) e k =
        let later =
          open_fetches-check_tabs p.passes (answered_pass w.asked answer w.pass) w.later in
        omega (arith, later, k)

-- A pass ends, and the flag is reset, once each fetch that it can still make has settled.
pub health_run-settles :
    (answers : List (Option SessionHealth)) (p : Poller)
    → IsOrderly p
    → open_fetches p ≤ length answers
    → (health_run (map (λ a. fetch_settled a) answers) p).in_flight ≡ false
unfolding health_run
health_run-settles [] p h k = elim (Option-cases p.waiting) [
  | inl e ↦ h.flagged ∙ ap is_some e
  | inr (w, e) ↦ absurd (omega (arith, rw (open_fetches, e) at k))
]
health_run-settles (a ∷ rest) p h k =
    health_run-settles rest (health_step (fetch_settled a) p)
      (health_step-IsOrderly (fetch_settled a) p h) (open_fetches-step a p (length rest) k)
