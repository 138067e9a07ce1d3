-- ===== src/Transfer/Status.antt =====
-- How the reducer of src/lib/transfer-queue-reducer.ts moves the status of an item.
use r_shell.Prelude.{
  Bool-cases, List, Option, String, [], arith, false, inl, inr, none, refl, some, some_inj, subst,
  sym, true, ℕ, ◌++◌, ◌==◌, ◌∷◌, ◌≡◌,
}
use r_shell.Terminal.Types.{Float}
use r_shell.Transfer.Invariant.{All}
use r_shell.Transfer.Reducer.{
  at_id, broken, finished, is_completed, is_retryable, is_transferring, progressed, requeued,
  stopped, transfer_queue_reducer,
}
use r_shell.Transfer.Types.{
  Progress, TransferAction, TransferItem, TransferStatus, cancel, clear_all, clear_completed,
  complete, enqueue, fail, progress, queued, retry, start, transferring,
}

-- The moves that an action from outside the pump can make.
pub data Transition : TransferStatus → TransferStatus → Type 0 where
  stay : (st : TransferStatus) → Transition st st
  succeed : Transition transferring TransferStatus.completed
  give_up : Transition transferring TransferStatus.failed
  stop : (st : TransferStatus) → is_completed st ≡ false → Transition st TransferStatus.cancelled
  again : (st : TransferStatus) → is_retryable st ≡ true → Transition st queued

-- Each item of the first list, in its place, is related to one of the second, which may go on.
abbrev pub Extends {ℓ} : {A : Type ℓ} → (A → A → Type 0) → List A → List A → Type 0
Extends R [] ys = Unit
Extends R (x ∷ xs) [] = ⊥
Extends R (x ∷ xs) (y ∷ ys) = R x y × Extends R xs ys

-- The same transfer, moved.
abbrev pub Moved : {N : Type 0} → TransferItem N → TransferItem N → Type 0
Moved x y = (x.id ≡ y.id) × Transition x.status y.status

-- Neither the pump's action nor one that clears the list.
abbrev pub IsUpdate : {N : Type 0} → TransferAction N → Type 0
IsUpdate (start id) = ⊥
IsUpdate clear_completed = ⊥
IsUpdate clear_all = ⊥
IsUpdate _ = Unit {0}

-- The item on which an action reports, if it is a report of the running transfer.
abbrev pub reports_on : {N : Type 0} → TransferAction N → Option String
reports_on (progress id p) = some id
reports_on (complete id) = some id
reports_on (fail id error) = some id
reports_on _ = none

module _ {N : Type 0} (num : Float N) (now : ℕ) where
  progressed-Moved :
      (p : Progress N) (item : TransferItem N) → Moved item (progressed num now p item)
  unfolding progressed
  progressed-Moved p item = elim (Bool-cases (is_transferring item.status)) [
    | inl e ↦ rw e (refl, stay item.status)
    | inr e ↦ rw e (refl, stay item.status)
  ]

  from_transferring : (st : TransferStatus) → is_transferring st ≡ true → st ≡ transferring
  unfolding is_transferring
  from_transferring st e = ground arith

  finished-Moved : (item : TransferItem N) → Moved item (finished num now item)
  unfolding finished
  finished-Moved item = elim (Bool-cases (is_transferring item.status)) [
    | inl e ↦ rw e (
      refl,
      subst (λ st. Transition st TransferStatus.completed) (sym (from_transferring item.status e))
          succeed,
    )
    | inr e ↦ rw e (refl, stay item.status)
  ]

  broken-Moved : (error : String) (item : TransferItem N) → Moved item (broken num now error item)
  unfolding broken
  broken-Moved error item = elim (Bool-cases (is_transferring item.status)) [
    | inl e ↦ rw e (
      refl,
      subst (λ st. Transition st TransferStatus.failed) (sym (from_transferring item.status e))
          give_up,
    )
    | inr e ↦ rw e (refl, stay item.status)
  ]

  stopped-Moved : (item : TransferItem N) → Moved item (stopped num now item)
  unfolding stopped
  stopped-Moved item = elim (Bool-cases (is_completed item.status)) [
    | inl e ↦ rw e (refl, stay item.status)
    | inr e ↦ rw e (refl, stop item.status e)
  ]

  requeued-Moved : (item : TransferItem N) → Moved item (requeued num now item)
  unfolding requeued
  requeued-Moved item = elim (Bool-cases (is_retryable item.status)) [
    | inl e ↦ rw e (refl, again item.status e)
    | inr e ↦ rw e (refl, stay item.status)
  ]

  Extends-at_id :
      (id : String) (f : TransferItem N → TransferItem N) (items : List (TransferItem N))
      → ((item : TransferItem N) → Moved item (f item))
      → Extends Moved items (at_id id f items)
  unfolding at_id
  Extends-at_id id f [] h = tt
  Extends-at_id id f (item ∷ items) h = elim (Bool-cases (item.id == id)) [
    | inl e ↦ rw e (h item, Extends-at_id id f items h)
    | inr e ↦ rw e ((refl, stay item.status), Extends-at_id id f items h)
  ]

  Extends-append : (xs ys : List (TransferItem N)) → Extends Moved xs (xs ++ ys)
  Extends-append [] ys = tt
  Extends-append (x ∷ xs) ys = ((refl, stay x.status), Extends-append xs ys)

  -- An action that neither starts a transfer nor clears the list keeps every item in its place with
  -- its id, and moves its status by a transition: a completed item stays completed, only a running
  -- one completes or fails, and only a failed or cancelled one is queued again.
  pub update-Extends :
      (next_id : ℕ) (items : List (TransferItem N)) (a : TransferAction N)
      → IsUpdate a
      → Extends Moved items (transfer_queue_reducer num now next_id items a)
  unfolding transfer_queue_reducer
  update-Extends next_id items (enqueue inputs) u = Extends-append items _
  update-Extends next_id items (start id) u = absurd u
  update-Extends next_id items (progress id p) u = Extends-at_id id _ items (progressed-Moved p)
  update-Extends next_id items (complete id) u = Extends-at_id id _ items finished-Moved
  update-Extends next_id items (fail id error) u = Extends-at_id id _ items (broken-Moved error)
  update-Extends next_id items (cancel id) u = Extends-at_id id _ items stopped-Moved
  update-Extends next_id items (retry id) u = Extends-at_id id _ items requeued-Moved
  update-Extends next_id items clear_completed u = absurd u
  update-Extends next_id items clear_all u = absurd u

  -- No item of this id is transferring.
  abbrev NotRunning : String → List (TransferItem N) → Type 0
  NotRunning id = All (λ item. (item.id == id) ≡ true → is_transferring item.status ≡ false)

  at_id-fixed :
      (id : String) (f : TransferItem N → TransferItem N) (items : List (TransferItem N))
      → ((item : TransferItem N) → is_transferring item.status ≡ false → f item ≡ item)
      → NotRunning id items
      → at_id id f items ≡ items
  unfolding at_id
  at_id-fixed id f [] h p = refl
  at_id-fixed id f (item ∷ items) h p = elim (Bool-cases (item.id == id)) [
    | inl e ↦ rw (e, h item (p.0 e), at_id-fixed id f items h p.1)
    | inr e ↦ rw (e, at_id-fixed id f items h p.1)
  ]

  -- A report on a transfer that is not running, such as one that was cancelled meanwhile, changes
  -- nothing.
  pub late_report_ignored :
      (next_id : ℕ) (items : List (TransferItem N)) (a : TransferAction N) (id : String)
      → reports_on a ≡ some id
      → All (λ item. (item.id == id) ≡ true → is_transferring item.status ≡ false) items
      → transfer_queue_reducer num now next_id items a ≡ items
  unfolding transfer_queue_reducer progressed finished broken
  late_report_ignored next_id items (enqueue inputs) id e p = cc
  late_report_ignored next_id items (start k) id e p = cc
  late_report_ignored next_id items (progress k x) id e p =
      at_id-fixed k _ items (λ item q. rw q) (subst (λ i. NotRunning i items) (sym (some_inj e)) p)
  late_report_ignored next_id items (complete k) id e p =
      at_id-fixed k _ items (λ item q. rw q) (subst (λ i. NotRunning i items) (sym (some_inj e)) p)
  late_report_ignored next_id items (fail k error) id e p =
      at_id-fixed k _ items (λ item q. rw q) (subst (λ i. NotRunning i items) (sym (some_inj e)) p)
  late_report_ignored next_id items (cancel k) id e p = cc
  late_report_ignored next_id items (retry k) id e p = cc
  late_report_ignored next_id items clear_completed id e p = cc
  late_report_ignored next_id items clear_all id e p = cc
