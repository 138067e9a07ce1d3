-- ===== src/Connect/Health.antt =====
-- src/lib/session-health.ts: the passes of `reconcileSessionHealth` over tabs, as events. A pass runs as
-- far as its next `await` of `fetchHealth`; calls and answers come in any order, an answer is `none` where
-- the call throws, and a call that finds a pass in flight returns no ids. `markDisconnected` is called for
-- the ids that are returned, and does not throw.
use r_shell.Prelude.{
  Bool, List, Option, String, [], false, if◌then◌else◌, none, not, some, true, ℕ, ◌&&◌, ◌++◌, ◌==◌,
  ◌||◌, ◌∷◌,
}
use r_shell.Terminal.Types.{ConnectionStatus, TabType, connected, terminal}

pub record SessionHealth : Type 0 where
  pub ssh_connected : Bool
  pub has_pty : Bool
  pub pty_generation : Option ℕ
  pub detached : Bool
  pub connection_type : Option String

pub record HealthCheckedTab : Type 0 where
  pub id : String
  pub tab_type : Option TabType
  pub protocol : Option String
  pub connection_status : ConnectionStatus

unfoldable pub is_ssh_terminal_tab : HealthCheckedTab → Bool
is_ssh_terminal_tab tab =
    elim tab.tab_type [ none ↦ true | some terminal ↦ true | _ ↦ false ]
    && elim tab.protocol [ none ↦ true | some p ↦ p == "SSH" ]

unfoldable pub is_connected : ConnectionStatus → Bool
is_connected connected = true
is_connected _ = false

-- `!health.sshConnected || (!health.hasPty && !health.detached)`
unfoldable pub is_unhealthy : SessionHealth → Bool
is_unhealthy h = not h.ssh_connected || not h.has_pty && not h.detached

-- A pass: the tabs that it was given, the answers that it has come to, and the ids that it has marked and
-- will return.
pub record Pass : Type 0 where
  pub given : List HealthCheckedTab
  pub fetched : List (HealthCheckedTab × Option SessionHealth)
  pub unhealthy : List String

-- A pass at its `await`: the tab that it has asked about, and those behind it.
pub record Waiting : Type 0 where
  pub pass : Pass
  pub asked : HealthCheckedTab
  pub later : List HealthCheckedTab

-- The module: `reconcileInFlight`, the pass that runs, and the passes that have returned.
pub record Poller : Type 0 where
  pub in_flight : Bool
  pub waiting : Option Waiting
  pub passes : List Pass

abbrev pub idle_poller : Poller
idle_poller = record { in_flight = false; waiting = none; passes = [] }

-- The loop from a tab on, as far as the next `await`, or the `finally` behind it.
unfoldable pub check_tabs : List Pass → Pass → List HealthCheckedTab → Poller
unfolding is_ssh_terminal_tab is_connected
check_tabs passes pass [] = record {
  in_flight = false;
  waiting = none;
  passes = passes ++ (pass ∷ []);
}
check_tabs passes pass (tab ∷ tabs) =
    let others = check_tabs passes pass tabs in
    if not (is_ssh_terminal_tab tab) || not (is_connected tab.connection_status)
    then others
    else record {
      in_flight = true;
      waiting = some (record { pass = pass; asked = tab; later = tabs });
      passes = passes;
    }

-- What the loop makes of the answer to the tab.
unfoldable pub answered_pass : HealthCheckedTab → Option SessionHealth → Pass → Pass
unfolding is_unhealthy
answered_pass tab none pass = record pass { fetched = pass.fetched ++ ((tab, none) ∷ []) }
answered_pass tab (some health) pass = record pass {
  fetched = pass.fetched ++ ((tab, some health) ∷ []);
  unhealthy = if is_unhealthy health then pass.unhealthy ++ (tab.id ∷ []) else pass.unhealthy;
}

pub data HealthEvent : Type 0 where
  polled : List HealthCheckedTab → HealthEvent
  fetch_settled : Option SessionHealth → HealthEvent

unfoldable pub reconcile_session_health : List HealthCheckedTab → Poller → Poller
unfolding check_tabs
reconcile_session_health tabs p =
    if p.in_flight
    then p
    else check_tabs p.passes (record { given = tabs; fetched = []; unhealthy = [] }) tabs

unfoldable pub health_step : HealthEvent → Poller → Poller
unfolding reconcile_session_health check_tabs answered_pass
health_step (polled tabs) p = reconcile_session_health tabs p
health_step (fetch_settled answer) p = elim p.waiting [
  | none ↦ p
  | some w ↦ check_tabs p.passes (answered_pass w.asked answer w.pass) w.later
]

unfoldable pub health_run : List HealthEvent → Poller → Poller
unfolding health_step
health_run [] p = p
health_run (e ∷ es) p = health_run es (health_step e p)
