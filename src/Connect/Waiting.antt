-- ===== src/Connect/Waiting.antt =====
-- The promises of src/lib/restoration-manager.ts that wait.
use r_shell.Prelude.{
  Bool, Bool-cases, List, Option-cases, String, [], arith, eqb, false, if◌then◌else◌, in_set, inl,
  inr, is_some, refl, true, ℕ, ◌++◌, ◌<◌, ◌||◌, ◌∙◌, ◌∷◌, ◌≡◌,
}
use r_shell.Connect.Restoration.{
  Registry, RestorationEvent, clear_all_restorations, clear_timer, clear_timers, clears_all,
  empty_registry, fires, register_restoration, registers, restoration_step, restore_run,
  signal_ready, signals, time_out, timer_of,
}
use r_shell.Dict.{lookup, values}

abbrev pub is_resolved : ℕ → List ℕ → Bool
is_resolved n [] = false
is_resolved n (m ∷ ms) = eqb m n || is_resolved n ms

-- Each promise that was given out is resolved, or its timer is armed.
abbrev pub IsLive : Registry → Type 0
IsLive r = (n : ℕ) → n < r.next → (is_resolved n r.resolved || is_some (timer_of n r.timers)) ≡ true

timer-clear_timer :
    (n m : ℕ) (timers : List (ℕ × String))
    → is_some (timer_of m (clear_timer n timers))
      ≡ (if eqb n m then false else is_some (timer_of m timers))
unfolding timer_of clear_timer
timer-clear_timer n m [] = ground arith
timer-clear_timer n m ((k, id) ∷ timers) = ground (arith, timer-clear_timer n m timers)

timer-clear_timers :
    (ns : List ℕ) (m : ℕ) (timers : List (ℕ × String))
    → is_some (timer_of m (clear_timers ns timers))
      ≡ (if is_resolved m ns then false else is_some (timer_of m timers))
unfolding clear_timers
timer-clear_timers [] m timers = refl
timer-clear_timers (n ∷ ns) m timers =
    timer-clear_timers ns m (clear_timer n timers) ∙ ground (arith, timer-clear_timer n m timers)

resolved-append :
    (n : ℕ) (xs ys : List ℕ) → is_resolved n (xs ++ ys) ≡ is_resolved n xs || is_resolved n ys
resolved-append n [] ys = refl
resolved-append n (x ∷ xs) ys = ground (arith, resolved-append n xs ys)

register-IsLive : (r : Registry) (id : String) → IsLive r → IsLive (register_restoration r id)
unfolding register_restoration timer_of
register-IsLive r id live = elim (Bool-cases (in_set id r.early)) [
  | inl e ↦ rw e (λ n h. ground (arith, live n, h))
  | inr e ↦ rw e (λ n h. ground (arith, live n, h))
]

signal-IsLive : (r : Registry) (id : String) → IsLive r → IsLive (signal_ready r id)
unfolding signal_ready
signal-IsLive r id live = elim (Option-cases (lookup id r.pending)) [
  | inl e ↦ rw (signal_ready, e) live
  | inr (m, e) ↦
      rw (signal_ready, e) (λ n h. ground (arith, live n h, timer-clear_timer m n r.timers))
]

clear_all-IsLive : (r : Registry) → IsLive r → IsLive (clear_all_restorations r)
unfolding clear_all_restorations
clear_all-IsLive r live n h = ground (
  arith,
  live n h,
  timer-clear_timers (values r.pending) n r.timers,
  resolved-append n (values r.pending) r.resolved,
)

time_out-IsLive : (r : Registry) (m : ℕ) → IsLive r → IsLive (time_out r m)
unfolding time_out
time_out-IsLive r m live = elim (Option-cases (timer_of m r.timers)) [
  | inl e ↦ rw (time_out, e) live
  | inr (id, e) ↦ rw (time_out, e) (λ n h. ground (arith, live n h, timer-clear_timer m n r.timers))
]

step-IsLive : (r : Registry) (e : RestorationEvent) → IsLive r → IsLive (restoration_step r e)
unfolding restoration_step
step-IsLive r (registers id) live = register-IsLive r id live
step-IsLive r (signals id) live = signal-IsLive r id live
step-IsLive r clears_all live = clear_all-IsLive r live
step-IsLive r (fires n) live = time_out-IsLive r n live

run-IsLive : (r : Registry) (es : List RestorationEvent) → IsLive r → IsLive (restore_run r es)
unfolding restore_run
run-IsLive r [] live = live
run-IsLive r (e ∷ es) live = run-IsLive (restoration_step r e) es (step-IsLive r e live)

empty_registry-IsLive : IsLive empty_registry
unfolding empty_registry
empty_registry-IsLive n h = absurd (omega (arith, h))

-- After any registrations, signals, clearings and timers that fired, in any order, each promise that
-- was given out is resolved or has its timer armed, so that no one waits for ever.
pub restore_run-IsLive : (es : List RestorationEvent) → IsLive (restore_run empty_registry es)
restore_run-IsLive es = run-IsLive empty_registry es empty_registry-IsLive
