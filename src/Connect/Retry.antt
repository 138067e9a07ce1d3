-- ===== src/Connect/Retry.antt =====
-- `withRetry` of src/lib/async-retry.ts. The function that is retried and the test for cancellation
-- are given by what they answer at attempt number n, counted from 0: `fn n`; `before n`, when the
-- attempt is about to begin; and `after n`, when the function has returned. Sleeping always ends, cut
-- short by a cancellation or not, and is seen only through its length.
use r_shell.Prelude.{
  Bool, List, Option, [], if◌then◌else◌, or_else, suc, zero, ℕ, ◌*◌, ◌+◌, ◌^◌, ◌∷◌,
}

pub data Attempt {ℓ} (T E : Type ℓ) : Type ℓ where
  resolved : T → Attempt T E
  rejected : E → Attempt T E
  -- the function threw a `CancelledError` itself
  aborted : Attempt T E

pub data Outcome {ℓ} (T E : Type ℓ) : Type ℓ where
  returned : T → Outcome T E
  failed : E → Outcome T E
  cancelled_error : Outcome T E

-- A call of `onRetry`; the sleep behind it has the same length.
pub record Retry {ℓ} (E : Type ℓ) : Type ℓ where
  pub attempt : ℕ
  pub error : E
  pub delay : ℕ

pub record Run {ℓ} (T E : Type ℓ) : Type ℓ where
  pub calls : ℕ
  pub retries : List (Retry E)
  pub outcome : Outcome T E

unfoldable pub backoff : ℕ → ℕ → ℕ
backoff base attempt = base * 2 ^ attempt

module _ {ℓ} {T E : Type ℓ} where
  -- The run ends in this attempt.
  abbrev pub ends : ℕ → Outcome T E → Run T E
  ends calls outcome = record { calls = calls; retries = []; outcome = outcome }

  -- What follows a `CancelledError` check behind a result.
  abbrev pub checked : Bool → T → Outcome T E
  checked stale result = if stale then cancelled_error else returned result

  -- The run of a failed attempt that is tried again.
  unfoldable pub again : ℕ → ℕ → E → Run T E → Run T E
  unfolding backoff
  again base n error rest = record {
    calls = suc rest.calls;
    retries = record { attempt = n + 1; error = error; delay = backoff base n } ∷ rest.retries;
    outcome = rest.outcome;
  }

module _ {ℓ} {T E : Type ℓ} (fn : ℕ → Attempt T E) (before after : ℕ → Bool) (base : ℕ) where
  -- The loop from attempt n on, with `more` attempts behind it.
  unfoldable pub attempts : ℕ → ℕ → Run T E
  unfolding again
  attempts zero n = if before n then ends 0 cancelled_error else elim (fn n) [
    | resolved result ↦ ends 1 (checked (after n) result)
    | aborted ↦ ends 1 cancelled_error
    | rejected error ↦ ends 1 (failed error)
  ]
  attempts (suc more) n =
      let rest = attempts more (n + 1) in
      if before n then ends 0 cancelled_error else elim (fn n) [
        | resolved result ↦ ends 1 (checked (after n) result)
        | aborted ↦ ends 1 cancelled_error
        | rejected error ↦ again base n error rest
      ]

pub record RetryOptions : Type 0 where
  pub max_retries : Option ℕ
  pub base_delay_ms : Option ℕ

unfoldable pub with_retry {ℓ} :
    {T E : Type ℓ} → (ℕ → Attempt T E) → (ℕ → Bool) → (ℕ → Bool) → RetryOptions → Run T E
unfolding attempts
with_retry fn before after options =
    attempts fn before after (or_else options.base_delay_ms 1000) (or_else options.max_retries 3) 0
