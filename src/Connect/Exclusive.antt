-- ===== src/Connect/Exclusive.antt =====
-- Attempts that the guard of src/lib/connect-guard.ts lets through.
use r_shell.Prelude.{
  Bool-cases, List, String, [], arith, concat_cancel, count, eq_iff, false, if◌then◌else◌, in_set,
  inl, inr, ltb, out_of_set, refl, show, show_inj, ℕ, ◌-◌, ◌==◌, ◌∷◌, ◌≡◌,
}
use r_shell.Connect.Guard.{
  Attempts, GuardEvent, ends_attempt, guard_run, guard_step, next_duplicate_id, no_attempts,
  remove_one, triggers,
}

-- An attempt runs just when its id is in flight, and then only one does.
abbrev pub IsExclusive : Attempts → Type 0
IsExclusive a = (id : String) → count id a.running ≡ (if in_set id a.in_flight then 1 else 0)

in_set-count : (id : String) (xs : List String) → in_set id xs ≡ ltb 0 (count id xs)
in_set-count id [] = refl
in_set-count id (x ∷ xs) = ground (arith, in_set-count id xs)

in_set-out_of_set :
    (id j : String) (xs : List String)
    → in_set j (out_of_set id xs) ≡ (if id == j then false else in_set j xs)
in_set-out_of_set id j [] = ground arith
in_set-out_of_set id j (x ∷ xs) =
    ground (arith, in_set-out_of_set id j xs, eq_iff x id, eq_iff id j, eq_iff x j)

count-remove_one :
    (id j : String) (xs : List String)
    → count j (remove_one id xs) ≡ (if id == j then count j xs - 1 else count j xs)
count-remove_one id j [] = ground arith
count-remove_one id j (x ∷ xs) =
    ground (arith, count-remove_one id j xs, eq_iff x id, eq_iff id j, eq_iff x j)

step-IsExclusive : (a : Attempts) (e : GuardEvent) → IsExclusive a → IsExclusive (guard_step a e)
unfolding guard_step
step-IsExclusive a (triggers id) ok = elim (Bool-cases (in_set id a.in_flight)) [
  | inl e ↦ rw (guard_step, e) ok
  | inr e ↦ rw (guard_step, e) (λ j. ground (arith, ok j, e, eq_iff id j))
]
step-IsExclusive a (ends_attempt id) ok = elim (Bool-cases (in_set id a.running)) [
  | inl e ↦
      rw (guard_step, e)
        (λ j.
          ground (arith, ok j, count-remove_one id j a.running, in_set-out_of_set id j a.in_flight))
  | inr e ↦ rw (guard_step, e) ok
]

run-IsExclusive :
    (a : Attempts) (es : List GuardEvent) → IsExclusive a → IsExclusive (guard_run a es)
unfolding guard_run
run-IsExclusive a [] ok = ok
run-IsExclusive a (e ∷ es) ok = run-IsExclusive (guard_step a e) es (step-IsExclusive a e ok)

-- Whatever triggers come and whichever attempts end, in any order, at most one attempt runs for an
-- id, and one runs just when the id is marked as in flight.
pub guard_run-IsExclusive : (es : List GuardEvent) → IsExclusive (guard_run no_attempts es)
guard_run-IsExclusive es = run-IsExclusive no_attempts es (λ id. refl)

-- Two ids that are made for one connection in the same millisecond are different where the counters
-- are.
pub next_duplicate_id_inj :
    (connection_id : String) (now m n : ℕ)
    → next_duplicate_id connection_id now m ≡ next_duplicate_id connection_id now n
    → m ≡ n
unfolding next_duplicate_id
next_duplicate_id_inj connection_id now m n e = show_inj m n (
    concat_cancel "-" _ _ (
      concat_cancel (show now) _ _ (concat_cancel "-dup-" _ _ (concat_cancel connection_id _ _ e))))
