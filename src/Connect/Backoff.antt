-- ===== src/Connect/Backoff.antt =====
-- How often `withRetry` calls its function, how long it waits, and how it ends.
use r_shell.Prelude.{
  Bool, Bool-cases, [], arith, false, get_elem?, inl, inr, length, or_else, refl, some, some_inj,
  subst, suc, true, zero, ℕ, ◌*◌, ◌+◌, ◌^◌, ◌≡◌, ◌≤◌, ◌⊎◌,
}
use r_shell.Connect.Retry.{
  Attempt, Outcome, Retry, RetryOptions, Run, aborted, again, attempts, backoff, cancelled_error,
  checked, ends, failed, rejected, resolved, returned, with_retry,
}

pub at_zero : (n : ℕ) → n ≡ n + 0
at_zero n = omega arith

pub from_zero : (n : ℕ) → 0 + n ≡ n
from_zero n = omega arith

pub past : (a b : ℕ) → a + 1 + b ≡ a + suc b
past a b = omega arith

module _ {ℓ} {T E : Type ℓ} (fn : ℕ → Attempt T E) (before after : ℕ → Bool) (base : ℕ) where
  -- Attempt number n was made and failed.
  abbrev pub Failed : ℕ → E → Type ℓ
  Failed n error = (before n ≡ false) × (fn n ≡ rejected error)

  -- How a run ends in attempt number n, the last of at most `limit`.
  abbrev pub Ends : ℕ → ℕ → ℕ → Outcome T E → Type ℓ
  Ends limit n calls (returned result) =
      (calls ≡ n + 1) × (before n ≡ false) × (fn n ≡ resolved result) × (after n ≡ false)
  Ends limit n calls (failed error) = (calls ≡ n + 1) × (n ≡ limit) × Failed n error
  Ends limit n calls cancelled_error =
      ((calls ≡ n) × (before n ≡ true))
      ⊎ ((calls ≡ n + 1) × (fn n ≡ aborted))
      ⊎ ((calls ≡ n + 1) × ((result : T) × (fn n ≡ resolved result)) × (after n ≡ true))

  -- The retry behind attempt number n.
  abbrev pub IsRetry : ℕ → Retry E → Type ℓ
  IsRetry n r = (r.attempt ≡ n + 1) × (r.delay ≡ base * 2 ^ n) × Failed n r.error

  -- A run from attempt number `first` on, when attempt number `limit` is the last one allowed.
  pub record IsRun (first limit : ℕ) (run : Run T E) : Type ℓ where
    pub retried : (j : ℕ) (r : Retry E) → get_elem? run.retries j ≡ some r → IsRetry (first + j) r
    pub bounded : first + length run.retries ≤ limit
    pub ended : Ends limit (first + length run.retries) (first + run.calls) run.outcome

  no_retry :
      (first limit calls : ℕ) (outcome : Outcome T E)
      → first ≤ limit
      → Ends limit first (first + calls) outcome
      → IsRun first limit (record { calls = calls; retries = []; outcome = outcome })
  no_retry first limit calls outcome h e = record {
    retried = λ j r eq. cc;
    bounded = omega (arith, h);
    ended = subst (λ n. Ends limit n (first + calls) outcome) (at_zero first) e;
  }

  again-IsRun :
      (first limit : ℕ) (error : E) (rest : Run T E)
      → Failed first error
      → IsRun (first + 1) limit rest
      → IsRun first limit (again base first error rest)
  unfolding again backoff
  again-IsRun first limit error rest h run = record {
    retried = retried;
    bounded = omega (arith, run.bounded);
    ended =
        subst (λ n. Ends limit n (first + suc rest.calls) rest.outcome)
          (past first (length rest.retries))
          (subst (λ n. Ends limit (first + 1 + length rest.retries) n rest.outcome)
            (past first rest.calls) run.ended);
  }
    where
      retried :
          (j : ℕ) (r : Retry E)
          → get_elem? (again base first error rest).retries j ≡ some r
          → IsRetry (first + j) r
      retried zero r e =
          subst (λ n. IsRetry n r) (at_zero first)
            (subst (λ x. IsRetry first x) (some_inj e) (refl, refl, h))
      retried (suc j) r e = subst (λ n. IsRetry n r) (past first j) (run.retried j r e)

  -- The end of an attempt that is not followed by another one.
  checked-Ends :
      (first limit : ℕ) (result : T) (stale : Bool)
      → before first ≡ false
      → fn first ≡ resolved result
      → after first ≡ stale
      → Ends limit first (first + 1) (checked stale result)
  checked-Ends first limit result true live e e' = inr (inr (refl, (result, e), e'))
  checked-Ends first limit result false live e e' = (refl, live, e, e')

  last_attempt :
      (first : ℕ) (attempt : Attempt T E)
      → before first ≡ false
      → fn first ≡ attempt
      → IsRun first first (elim attempt [
        | resolved result ↦ ends 1 (checked (after first) result)
        | aborted ↦ ends 1 cancelled_error
        | rejected error ↦ ends 1 (failed error)
      ])
  last_attempt first (resolved result) live e =
      no_retry first first 1 _ (omega arith) (checked-Ends first first result _ live e refl)
  last_attempt first aborted live e =
      no_retry first first 1 cancelled_error (omega arith) (inr (inl (refl, e)))
  last_attempt first (rejected error) live e =
      no_retry first first 1 (failed error) (omega arith) (refl, refl, (live, e))

  next_attempt :
      (first limit : ℕ) (rest : Run T E) (attempt : Attempt T E)
      → IsRun (first + 1) limit rest
      → before first ≡ false
      → fn first ≡ attempt
      → IsRun first limit (elim attempt [
        | resolved result ↦ ends 1 (checked (after first) result)
        | aborted ↦ ends 1 cancelled_error
        | rejected error ↦ again base first error rest
      ])
  next_attempt first limit rest (resolved result) run live e =
      no_retry first limit 1 _ (omega (arith, run.bounded))
        (checked-Ends first limit result _ live e refl)
  next_attempt first limit rest aborted run live e =
      no_retry first limit 1 cancelled_error (omega (arith, run.bounded)) (inr (inl (refl, e)))
  next_attempt first limit rest (rejected error) run live e =
      again-IsRun first limit error rest (live, e) run

  stopped :
      (first limit : ℕ)
      → first ≤ limit
      → before first ≡ true
      → IsRun first limit (ends 0 cancelled_error)
  stopped first limit h e = no_retry first limit 0 cancelled_error h (inl (omega arith, e))

  attempts-IsRun :
      (more first : ℕ) → IsRun first (first + more) (attempts fn before after base more first)
  unfolding attempts
  attempts-IsRun zero first = elim (Bool-cases (before first)) [
    | inl e ↦ rw e (stopped first (first + 0) (omega arith) e)
    | inr e ↦ rw e (
        subst
          (λ n. IsRun first n (elim (fn first) [
            | resolved result ↦ ends 1 (checked (after first) result)
            | aborted ↦ ends 1 cancelled_error
            | rejected error ↦ ends 1 (failed error)
          ]))
          (at_zero first) (last_attempt first (fn first) e refl))
  ]
  attempts-IsRun (suc more) first = elim (Bool-cases (before first)) [
    | inl e ↦ rw e (stopped first (first + suc more) (omega arith) e)
    | inr e ↦ rw e (
        next_attempt first (first + suc more) _ (fn first)
          (subst (λ n. IsRun (first + 1) n (attempts fn before after base more (first + 1)))
            (past first more) (attempts-IsRun more (first + 1)))
          e refl)
  ]

-- `withRetry`, whatever its function answers: retry number j comes behind attempt number j, which was
-- made and failed, with j + 1 as its counter and a delay of the base delay times 2 ^ j; there are at
-- most as many retries as allowed; and the run ends in the attempt behind the last retry, by
-- returning its result when nothing was cancelled before or behind it, by throwing its error when it
-- was the last one allowed, or by a `CancelledError` when it was cancelled or threw one.
pub with_retry-IsRun {ℓ} :
    {T E : Type ℓ} (fn : ℕ → Attempt T E) (before after : ℕ → Bool) (options : RetryOptions)
    → IsRun fn before after
        (or_else options.base_delay_ms 1000)
        0
        (or_else options.max_retries 3)
        (with_retry fn before after options)
unfolding with_retry
with_retry-IsRun fn before after options =
    let base = or_else options.base_delay_ms 1000 in
    let limit = or_else options.max_retries 3 in
    subst (λ n. IsRun fn before after base 0 n (attempts fn before after base limit 0))
      (from_zero limit) (attempts-IsRun fn before after base limit 0)
