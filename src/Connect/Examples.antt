-- ===== src/Connect/Examples.antt =====
-- Tests of the connection requests, and the theorems about the services at concrete inputs.
use r_shell.Prelude.{
  Bool, List, Option, String, [], arith, eqb, false, if◌then◌else◌, length, map, none, pos, refl,
  some, true, ℕ, ◌*◌, ◌+◌, ◌<◌, ◌==◌, ◌^◌, ◌∷◌, ◌≡◌, ◌≤◌,
}
use r_shell.Connect.Agreement.{Agrees, sftp_request-Agrees}
use r_shell.Connect.Backoff.{IsRun, with_retry-IsRun}
use r_shell.Connect.Coherence.{IsCoherent, build_ssh_connect_request-IsCoherent}
use r_shell.Connect.Downgraded.{IsOrderly, health_run-IsOrderly}
use r_shell.Connect.Exclusive.{IsExclusive, guard_run-IsExclusive, next_duplicate_id_inj}
use r_shell.Connect.Guard.{GuardEvent, ends_attempt, guard_run, no_attempts, triggers}
use r_shell.Connect.Health.{
  HealthCheckedTab, HealthEvent, Pass, SessionHealth, fetch_settled, health_run, idle_poller,
  polled,
}
use r_shell.Connect.Request.{
  SftpConnectRequestSource, SshConnectRequest, SshConnectRequestSource, build_sftp_connect_request,
  build_ssh_connect_request,
}
use r_shell.Connect.Restoration.{
  RestorationEvent, empty_registry, fires, registers, restore_run, signals,
}
use r_shell.Connect.Retry.{Attempt, RetryOptions, rejected, resolved, returned, with_retry}
use r_shell.Connect.Settings.{get_connection_timeout_setting, get_host_key_policy, off}
use r_shell.Connect.Stopping.{total_delay, with_retry_delay, with_retry_stale, with_retry_success}
use r_shell.Connect.Waiting.{IsLive, is_resolved, restore_run-IsLive}
use r_shell.Dict.{erase, insert, lookup}
use r_shell.Json.{Json, boolean, end_object, entry, integer, member, object}
use r_shell.Terminal.Types.{connected}

abbrev jump_endpoint : SftpConnectRequestSource
jump_endpoint = record {
  host = "db.internal";
  port = 0;
  username = "root";
  auth_method = some "";
  password = none;
  private_key_path = some "";
  passphrase = none;
  tunnel_enabled = some true;
  tunnel_host = some "gate";
  tunnel_port = some 2222;
  tunnel_username = some "me";
  tunnel_auth_method = none;
  tunnel_password = some "";
  tunnel_key_path = none;
  tunnel_passphrase = none;
}

abbrev jump_source : SshConnectRequestSource
jump_source = record {
  endpoint = jump_endpoint;
  compression = none;
  keep_alive = some false;
  keep_alive_interval = some 30;
  server_alive_count_max = none;
  proxy_type = some "none";
  proxy_host = some "proxy";
  proxy_port = some 1080;
  proxy_username = none;
  proxy_password = none;
  x11 = none;
}

-- A parser that knows one text.
abbrev parse_settings : String → Option Json
parse_settings raw =
    if raw == "stored"
    then some (
        object (
          entry "connectionTimeout" (integer (pos 121))
            (entry "hostKeyVerification" (boolean false) end_object)))
    else none

abbrev request : SshConnectRequest
request = build_ssh_connect_request parse_settings (some "stored") "c1" jump_source

request_fields :
    (request.port ≡ 22)
    × (request.auth_method ≡ "password")
    × (request.connect_timeout ≡ none)
    × (request.host_key_policy ≡ off)
    × (request.tunnel_auth_method ≡ some "password")
    × (request.keepalive_interval ≡ none)
unfolding build_ssh_connect_request get_connection_timeout_setting get_host_key_policy member
request_fields = (refl, refl, refl, refl, refl, refl)

build_ssh_connect_request-IsCoherent_example : IsCoherent request
build_ssh_connect_request-IsCoherent_example =
    build_ssh_connect_request-IsCoherent parse_settings (some "stored") "c1" jump_source

sftp_request-Agrees_example :
    Agrees request (build_sftp_connect_request parse_settings (some "stored") "c1" jump_endpoint)
sftp_request-Agrees_example = sftp_request-Agrees parse_settings (some "stored") "c1" jump_source

-- The first attempt fails, the second one returns.
abbrev flaky : ℕ → Attempt ℕ String
flaky n = if eqb n 0 then rejected "busy" else resolved n

abbrev never : ℕ → Bool
never n = false

abbrev defaults : RetryOptions
defaults = record { max_retries = none; base_delay_ms = none }

with_retry-IsRun_example : IsRun flaky never never 1000 0 3 (with_retry flaky never never defaults)
with_retry-IsRun_example = with_retry-IsRun flaky never never defaults

with_retry_stale_example : (with_retry flaky (eqb 1) never defaults).calls ≤ 1
with_retry_stale_example = with_retry_stale flaky (eqb 1) never defaults 1 refl

with_retry_delay_example :
    total_delay (with_retry flaky never never defaults).retries + 1000
    ≡ 1000 * 2 ^ length (with_retry flaky never never defaults).retries
with_retry_delay_example = with_retry_delay flaky never never defaults

flaky_fails : (i : ℕ) → i < 1 → (never i ≡ false) × ((error : String) × (flaky i ≡ rejected error))
flaky_fails i h = (refl, ("busy", ground (arith, h)))

with_retry_success_example : (with_retry flaky never never defaults).outcome ≡ returned 1
with_retry_success_example =
    with_retry_success flaky never never defaults 1 1 (omega arith) flaky_fails (refl, refl, refl)

-- One connection is registered twice, the first timer fires, and the connection signals.
abbrev twice_registered : List RestorationEvent
twice_registered = registers "c" ∷ registers "c" ∷ fires 0 ∷ signals "c" ∷ []

-- The timer of the first promise has taken the entry of the second one, which misses its signal.
signal_missed : is_resolved 1 (restore_run empty_registry twice_registered).resolved ≡ false
unfolding restore_run empty_registry insert lookup erase
signal_missed = refl

restore_run-IsLive_example : IsLive (restore_run empty_registry twice_registered)
restore_run-IsLive_example = restore_run-IsLive twice_registered

-- A trigger, a second one while the attempt runs, and the end of the attempt
abbrev double_click : List GuardEvent
double_click = triggers "c" ∷ triggers "c" ∷ triggers "d" ∷ ends_attempt "c" ∷ []

double_click_runs : (guard_run no_attempts double_click).running ≡ "d" ∷ []
unfolding guard_run
double_click_runs = refl

guard_run-IsExclusive_example : IsExclusive (guard_run no_attempts double_click)
guard_run-IsExclusive_example = guard_run-IsExclusive double_click

next_duplicate_id_inj_example : ◌≡◌ {A = ℕ} 7 7
next_duplicate_id_inj_example = next_duplicate_id_inj "c" 1000 7 7 refl

abbrev ssh_tab : String → HealthCheckedTab
ssh_tab id = record {
  id = id;
  tab_type = none;
  protocol = some "SSH";
  connection_status = connected;
}

abbrev health_of : Bool → SessionHealth
health_of detached = record {
  ssh_connected = true;
  has_pty = false;
  pty_generation = none;
  detached = detached;
  connection_type = none;
}

-- The terminal "a" is dead, "b" is parked, and the backend does not answer for "c"; a second call comes
-- while the first one waits.
abbrev health_events : List HealthEvent
health_events =
    polled (ssh_tab "a" ∷ ssh_tab "b" ∷ ssh_tab "c" ∷ [])
    ∷ fetch_settled (some (health_of false))
    ∷ polled (ssh_tab "d" ∷ [])
    ∷ fetch_settled (some (health_of true))
    ∷ fetch_settled none
    ∷ []

health_run-IsOrderly_example : IsOrderly (health_run health_events idle_poller)
health_run-IsOrderly_example = health_run-IsOrderly health_events

one_pass :
    map (λ (q : Pass). q.unhealthy) (health_run health_events idle_poller).passes ≡ ("a" ∷ []) ∷ []
unfolding health_run
one_pass = refl

flag_reset : (health_run health_events idle_poller).in_flight ≡ false
unfolding health_run
flag_reset = refl
