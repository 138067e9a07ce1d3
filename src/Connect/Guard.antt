-- ===== src/Connect/Guard.antt =====
-- src/lib/connect-guard.ts: which connection attempts are in flight. The callers start an attempt
-- where `beginConnect` says so, and call `endConnect` once when it ends.
use r_shell.Prelude.{
  Bool, List, String, [], concat, false, if◌then◌else◌, in_set, out_of_set, show, true, ℕ, ◌==◌,
  ◌∷◌,
}

pub begin_connect : List String → String → Bool × List String
begin_connect in_flight id =
    if in_set id in_flight then (false, in_flight) else (true, id ∷ in_flight)

abbrev pub end_connect : List String → String → List String
end_connect in_flight id = out_of_set id in_flight

-- The registry, with the attempts that run
pub record Attempts : Type 0 where
  pub in_flight : List String
  pub running : List String

pub data GuardEvent : Type 0 where
  triggers ends_attempt : String → GuardEvent

-- `xs` without its first `id`
abbrev pub remove_one : String → List String → List String
remove_one id [] = []
remove_one id (x ∷ xs) = if x == id then xs else x ∷ remove_one id xs

unfoldable pub guard_step : Attempts → GuardEvent → Attempts
unfolding begin_connect
guard_step a (triggers id) =
    let (granted, in_flight) = begin_connect a.in_flight id in
    record { in_flight = in_flight; running = if granted then id ∷ a.running else a.running }
guard_step a (ends_attempt id) =
    if in_set id a.running
    then record { in_flight = end_connect a.in_flight id; running = remove_one id a.running }
    else a

unfoldable pub guard_run : Attempts → List GuardEvent → Attempts
unfolding guard_step
guard_run a [] = a
guard_run a (e ∷ es) = guard_run (guard_step a e) es

abbrev pub no_attempts : Attempts
no_attempts = record { in_flight = []; running = [] }

-- `nextDuplicateId`, with the clock and the counter
unfoldable pub next_duplicate_id : String → ℕ → ℕ → String
next_duplicate_id connection_id now counter =
    concat connection_id (concat "-dup-" (concat (show now) (concat "-" (show counter))))
