-- ===== src/Connect/Stopping.antt =====
-- When `withRetry` stops: on a cancellation, and on the first success.
use native.Mathlib.Nat.{pow-suc}
use r_shell.Prelude.{
  Bool, Bool-cases, List, [], ap, arith, false, inl, inr, length, or_else, refl, subst, suc, true,
  zero, ℕ, ◌*◌, ◌+◌, ◌<◌, ◌^◌, ◌∙◌, ◌∷◌, ◌≡◌, ◌≤◌,
}
use r_shell.Connect.Backoff.{at_zero, from_zero, past}
use r_shell.Connect.Retry.{
  Attempt, Retry, RetryOptions, Run, aborted, again, attempts, backoff, cancelled_error, checked,
  ends, failed, rejected, resolved, returned, with_retry,
}

add_one : (n : ℕ) → n + 1 ≡ suc n
add_one n = omega arith

twice : (b x : ℕ) → b * (x * 2) ≡ b * x + b * x
twice b x = grind arith

pub total_delay {ℓ} : {E : Type ℓ} → List (Retry E) → ℕ
total_delay [] = 0
total_delay (r ∷ rs) = r.delay + total_delay rs

module _ {ℓ} {T E : Type ℓ} (fn : ℕ → Attempt T E) (before after : ℕ → Bool) (base : ℕ) where
  abbrev Within : ℕ → Run T E → Type 0
  Within m run = run.calls ≤ m

  -- What a run from attempt number n on has slept, and what it would sleep next.
  abbrev Doubles : ℕ → Run T E → Type 0
  Doubles n run = total_delay run.retries + base * 2 ^ n ≡ base * 2 ^ (n + length run.retries)

  -- Attempt number k returns a result while nothing is cancelled.
  abbrev pub Succeeds : ℕ → T → Type ℓ
  Succeeds k result = (before k ≡ false) × (fn k ≡ resolved result) × (after k ≡ false)

  calls_once :
      (n m : ℕ) (attempt : Attempt T E)
      → Within (suc m) (elim attempt as (λ x. Run T E) [
        | resolved result ↦ ends 1 (checked (after n) result)
        | aborted ↦ ends 1 cancelled_error
        | rejected error ↦ ends 1 (failed error)
      ])
  calls_once n m (resolved result) = omega arith
  calls_once n m aborted = omega arith
  calls_once n m (rejected error) = omega arith

  calls_again :
      (n m : ℕ) (rest : Run T E) (attempt : Attempt T E)
      → rest.calls ≤ m
      → Within (suc m) (elim attempt as (λ x. Run T E) [
        | resolved result ↦ ends 1 (checked (after n) result)
        | aborted ↦ ends 1 cancelled_error
        | rejected error ↦ again base n error rest
      ])
  unfolding again
  calls_again n m rest (resolved result) h = omega arith
  calls_again n m rest aborted h = omega arith
  calls_again n m rest (rejected error) h = omega (arith, h)

  start : (first k : ℕ) → k ≡ 0 + first → before k ≡ true → before first ≡ true
  start first k at e = subst (λ n. before n ≡ true) (at ∙ from_zero first) e

  attempts_stale :
      (more first j k : ℕ)
      → k ≡ j + first
      → before k ≡ true
      → Within j (attempts fn before after base more first)
  unfolding attempts
  attempts_stale zero first zero k at e = rw (start first k at e) (omega arith)
  attempts_stale (suc more) first zero k at e = rw (start first k at e) (omega arith)
  attempts_stale zero first (suc j) k at e = elim (Bool-cases (before first)) [
    | inl e' ↦ rw e' (omega arith)
    | inr e' ↦ rw e' (calls_once first j (fn first))
  ]
  attempts_stale (suc more) first (suc j) k at e = elim (Bool-cases (before first)) [
    | inl e' ↦ rw e' (omega arith)
    | inr e' ↦ rw e' (
        calls_again first j _ (fn first)
          (attempts_stale more (first + 1) j k (omega (arith, at)) e))
  ]

  double : (n : ℕ) → base * 2 ^ (n + 1) ≡ base * 2 ^ n + base * 2 ^ n
  double n =
      ap (λ k. base * 2 ^ k) (add_one n) ∙ ap (λ x. base * x) (pow-suc 2 n) ∙ twice base (2 ^ n)

  no_delay : (n : ℕ) → 0 + base * 2 ^ n ≡ base * 2 ^ (n + 0)
  no_delay n = from_zero _ ∙ ap (λ k. base * 2 ^ k) (at_zero n)

  delays_once :
      (n : ℕ) (attempt : Attempt T E)
      → Doubles n (elim attempt as (λ x. Run T E) [
        | resolved result ↦ ends 1 (checked (after n) result)
        | aborted ↦ ends 1 cancelled_error
        | rejected error ↦ ends 1 (failed error)
      ])
  unfolding total_delay
  delays_once n (resolved result) = no_delay n
  delays_once n aborted = no_delay n
  delays_once n (rejected error) = no_delay n

  delays_again :
      (n : ℕ) (rest : Run T E) (attempt : Attempt T E)
      → Doubles (n + 1) rest
      → Doubles n (elim attempt as (λ x. Run T E) [
        | resolved result ↦ ends 1 (checked (after n) result)
        | aborted ↦ ends 1 cancelled_error
        | rejected error ↦ again base n error rest
      ])
  unfolding again backoff total_delay
  delays_again n rest (resolved result) h = no_delay n
  delays_again n rest aborted h = no_delay n
  delays_again n rest (rejected error) h =
      omega (arith, h, double n, ap (λ k. base * 2 ^ k) (past n (length rest.retries)))

  attempts_delay : (more first : ℕ) → Doubles first (attempts fn before after base more first)
  unfolding attempts total_delay
  attempts_delay zero first = elim (Bool-cases (before first)) [
    | inl e ↦ rw e (no_delay first)
    | inr e ↦ rw e (delays_once first (fn first))
  ]
  attempts_delay (suc more) first = elim (Bool-cases (before first)) [
    | inl e ↦ rw e (no_delay first)
    | inr e ↦ rw e (delays_again first _ (fn first) (attempts_delay more (first + 1)))
  ]

  attempts_succeed :
      (more first j k : ℕ) (result : T)
      → k ≡ j + first
      → j ≤ more
      → ((i : ℕ) → first ≤ i → i < k → (before i ≡ false) × ((error : E) × (fn i ≡ rejected error)))
      → Succeeds k result
      → (attempts fn before after base more first).outcome ≡ returned result
  unfolding attempts again
  attempts_succeed zero first zero k result at h fails (live, e, fresh) =
      let here : k ≡ first = at ∙ from_zero first in
      rw
        (
          subst (λ n. before n ≡ false) here live,
          subst (λ n. fn n ≡ resolved result) here e,
          subst (λ n. after n ≡ false) here fresh,
        )
        refl
  attempts_succeed (suc more) first zero k result at h fails (live, e, fresh) =
      let here : k ≡ first = at ∙ from_zero first in
      rw
        (
          subst (λ n. before n ≡ false) here live,
          subst (λ n. fn n ≡ resolved result) here e,
          subst (λ n. after n ≡ false) here fresh,
        )
        refl
  attempts_succeed zero first (suc j) k result at h fails ok = absurd (omega (arith, h))
  attempts_succeed (suc more) first (suc j) k result at h fails ok =
      let now = fails first (omega arith) (omega (arith, at)) in
      rw (now.0, now.1.1)
        (attempts_succeed more (first + 1) j k result (omega (arith, at)) (omega (arith, h))
          (λ i above below. fails i (omega (arith, above)) below) ok)

-- A caller that is stale when attempt number k is about to begin sees at most k calls: no attempt is
-- made from then on.
pub with_retry_stale {ℓ} :
    {T E : Type ℓ} (fn : ℕ → Attempt T E) (before after : ℕ → Bool) (options : RetryOptions) (k : ℕ)
    → before k ≡ true
    → (with_retry fn before after options).calls ≤ k
unfolding with_retry
with_retry_stale fn before after options k e =
    attempts_stale fn before after (or_else options.base_delay_ms 1000)
      (or_else options.max_retries 3) 0 k k (omega arith) e

-- The delays of a run with r retries, and the base delay once more, make the base delay times 2 ^ r:
-- where the base delay is not zero, all the waiting together is shorter than the next delay would be.
pub with_retry_delay {ℓ} :
    {T E : Type ℓ} (fn : ℕ → Attempt T E) (before after : ℕ → Bool) (options : RetryOptions)
    → total_delay (with_retry fn before after options).retries + or_else options.base_delay_ms 1000
      ≡ or_else options.base_delay_ms 1000 * 2 ^ length (with_retry fn before after options).retries
unfolding with_retry
with_retry_delay fn before after options =
    let base = or_else options.base_delay_ms 1000 in
    let limit = or_else options.max_retries 3 in
    omega (
      arith,
      attempts_delay fn before after base limit 0,
      ap (λ k. base * 2 ^ k) (from_zero (length (attempts fn before after base limit 0).retries)),
    )

-- When attempt number k, one of those allowed, returns a result, each earlier one fails, and nothing
-- is cancelled until then, `withRetry` returns that result.
pub with_retry_success {ℓ} :
    {T E : Type ℓ} (fn : ℕ → Attempt T E) (before after : ℕ → Bool) (options : RetryOptions) (k : ℕ)
    (result : T)
    → k ≤ or_else options.max_retries 3
    → ((i : ℕ) → i < k → (before i ≡ false) × ((error : E) × (fn i ≡ rejected error)))
    → Succeeds fn before after (or_else options.base_delay_ms 1000) k result
    → (with_retry fn before after options).outcome ≡ returned result
unfolding with_retry
with_retry_success fn before after options k result h fails ok =
    attempts_succeed fn before after (or_else options.base_delay_ms 1000)
      (or_else options.max_retries 3) 0 k k result (omega arith) h (λ i above below. fails i below)
      ok
