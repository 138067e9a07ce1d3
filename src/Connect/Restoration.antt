-- ===== src/Connect/Restoration.antt =====
-- src/lib/restoration-manager.ts: the promises that wait for restored connections. A promise is named
-- by the number of its registration; its timer is armed until it is cleared or fires.
use r_shell.Prelude.{
  List, Option, String, [], eqb, if◌then◌else◌, in_set, none, out_of_set, some, ℕ, ◌++◌, ◌+◌, ◌∷◌,
}
use r_shell.Dict.{Dict, erase, insert, lookup, values}

pub record Registry : Type 0 where
  -- the map `pendingRestorations`, from a connection to the promise that waits for it
  pub pending : Dict ℕ
  -- the set `earlySignals`
  pub early : List String
  -- the timers that are armed, each with its connection
  pub timers : List (ℕ × String)
  -- the promises that are resolved
  pub resolved : List ℕ
  pub next : ℕ

unfoldable pub empty_registry : Registry
empty_registry = record { pending = []; early = []; timers = []; resolved = []; next = 0 }

-- `clearTimeout(entry.timeout)`
unfoldable pub clear_timer : ℕ → List (ℕ × String) → List (ℕ × String)
clear_timer n [] = []
clear_timer n ((m, id) ∷ timers) =
    if eqb m n then clear_timer n timers else (m, id) ∷ clear_timer n timers

-- The timers that are left when each of these promises is cleared.
unfoldable pub clear_timers : List ℕ → List (ℕ × String) → List (ℕ × String)
unfolding clear_timer
clear_timers [] timers = timers
clear_timers (n ∷ ns) timers = clear_timers ns (clear_timer n timers)

-- `registerRestoration`: it returns a resolved promise where the signal was early.
unfoldable pub register_restoration : Registry → String → Registry
register_restoration r id =
    if in_set id r.early
    then record r {
      early = out_of_set id r.early;
      resolved = r.next ∷ r.resolved;
      next = r.next + 1;
    }
    else record r {
      pending = insert id r.next r.pending;
      timers = (r.next, id) ∷ r.timers;
      next = r.next + 1;
    }

unfoldable pub signal_ready : Registry → String → Registry
unfolding clear_timer
signal_ready r id = elim (lookup id r.pending) [
  | some n ↦ record r {
    pending = erase id r.pending;
    timers = clear_timer n r.timers;
    resolved = n ∷ r.resolved;
  }
  | none ↦ record r { early = if in_set id r.early then r.early else id ∷ r.early }
]

unfoldable pub clear_all_restorations : Registry → Registry
unfolding clear_timers
clear_all_restorations r = record r {
  pending = [];
  early = [];
  timers = clear_timers (values r.pending) r.timers;
  resolved = values r.pending ++ r.resolved;
}

unfoldable pub timer_of : ℕ → List (ℕ × String) → Option String
timer_of n [] = none
timer_of n ((m, id) ∷ timers) = if eqb m n then some id else timer_of n timers

-- The timer of a promise fires: it deletes the entry of its connection, whichever promise that names.
unfoldable pub time_out : Registry → ℕ → Registry
unfolding timer_of clear_timer
time_out r n = elim (timer_of n r.timers) [
  | none ↦ r
  | some id ↦ record r {
    pending = erase id r.pending;
    timers = clear_timer n r.timers;
    resolved = n ∷ r.resolved;
  }
]

pub data RestorationEvent : Type 0 where
  registers signals : String → RestorationEvent
  clears_all : RestorationEvent
  fires : ℕ → RestorationEvent

unfoldable pub restoration_step : Registry → RestorationEvent → Registry
unfolding register_restoration signal_ready clear_all_restorations time_out
restoration_step r (registers id) = register_restoration r id
restoration_step r (signals id) = signal_ready r id
restoration_step r clears_all = clear_all_restorations r
restoration_step r (fires n) = time_out r n

unfoldable pub restore_run : Registry → List RestorationEvent → Registry
unfolding restoration_step
restore_run r [] = r
restore_run r (e ∷ es) = restore_run (restoration_step r e) es
