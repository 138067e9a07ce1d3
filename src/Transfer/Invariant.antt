-- ===== src/Transfer/Invariant.antt =====
-- The invariant of the pump of src/lib/transfer-queue-service.ts.
use r_shell.Prelude.{
  Bool, Bool-cases, List, Option, String, [], arith, false, filter, if◌then◌else◌, inl, inr,
  is_some, none, refl, some, true, ℕ, ◌++◌, ◌+◌, ◌==◌, ◌∷◌, ◌≡◌,
}
use r_shell.Terminal.Types.{Float}
use r_shell.Transfer.Reducer.{
  at_id, broken, finished, is_completed, is_queued, is_retryable, is_transferring, new_items,
  progressed, requeued, stopped, transfer_queue_reducer,
}
use r_shell.Transfer.Service.{Service, arms}
use r_shell.Transfer.Types.{
  EnqueueTransferInput, TransferAction, TransferItem, cancel, clear_all, clear_completed, complete,
  enqueue, fail, progress, retry, start,
}

-- An item, next to the transfer that runs: only that one may be transferring, and while none runs,
-- no item is transferring or queued.
abbrev pub Fits : {N : Type 0} → Option (TransferItem N) → TransferItem N → Type 0
Fits none item = (is_transferring item.status ≡ false) × (is_queued item.status ≡ false)
Fits (some running) item = is_transferring item.status ≡ true → running.id ≡ item.id

abbrev pub All {ℓ κ} : {A : Type ℓ} → (A → Type κ) → List A → Type κ
All P [] = Unit
All P (x ∷ xs) = P x × All P xs

pub record IsSerial {N : Type 0} (svc : Service N) : Type 0 where
  pub busy : svc.pumping ≡ is_some svc.running
  pub fits : All (Fits svc.running) svc.items

-- No item is transferring.
abbrev pub Quiet : {N : Type 0} → TransferItem N → Type 0
Quiet item = is_transferring item.status ≡ false

module _ {N : Type 0} where
  pub All-map :
      {P Q : TransferItem N → Type 0} (items : List (TransferItem N))
      → ((item : TransferItem N) → P item → Q item)
      → All P items
      → All Q items
  All-map [] h p = tt
  All-map (item ∷ items) h p = (h item p.0, All-map items h p.1)

  pub All-append :
      (P : TransferItem N → Type 0) (xs ys : List (TransferItem N))
      → All P xs
      → All P ys
      → All P (xs ++ ys)
  All-append P [] ys p q = q
  All-append P (x ∷ xs) ys p q = (p.0, All-append P xs ys p.1 q)

  pub All-filter :
      (P : TransferItem N → Type 0) (keep : TransferItem N → Bool) (items : List (TransferItem N))
      → All P items
      → All P (filter keep items)
  unfolding filter
  All-filter P keep [] p = tt
  All-filter P keep (item ∷ items) p = elim (Bool-cases (keep item)) [
    | inl e ↦ rw e (p.0, All-filter P keep items p.1)
    | inr e ↦ rw e (All-filter P keep items p.1)
  ]

  -- A change of the items with one id, where it keeps what holds of each of them.
  pub All-at_id :
      {P Q : TransferItem N → Type 0} (id : String) (f : TransferItem N → TransferItem N)
      (items : List (TransferItem N))
      → ((item : TransferItem N) → (item.id == id) ≡ true → P item → Q (f item))
      → ((item : TransferItem N) → (item.id == id) ≡ false → P item → Q item)
      → All P items
      → All Q (at_id id f items)
  unfolding at_id
  All-at_id id f [] h k p = tt
  All-at_id id f (item ∷ items) h k p = elim (Bool-cases (item.id == id)) [
    | inl e ↦ rw e (h item e p.0, All-at_id id f items h k p.1)
    | inr e ↦ rw e (k item e p.0, All-at_id id f items h k p.1)
  ]

-- `START` is the pump's own action.
abbrev pub IsOutside : {N : Type 0} → TransferAction N → Type 0
IsOutside (start id) = ⊥
IsOutside _ = Unit {0}

module _ {N : Type 0} (num : Float N) (now : ℕ) where
  new_items-Quiet :
      (next_id : ℕ) (inputs : List EnqueueTransferInput)
      → All Quiet (new_items num now next_id inputs)
  unfolding new_items is_transferring
  new_items-Quiet next_id [] = tt
  new_items-Quiet next_id (input ∷ inputs) =
      (refl, new_items-Quiet (if is_some input.id then next_id else next_id + 1) inputs)

  -- While a transfer runs, no other item comes to be transferring.
  pub reduce-Fits-some :
      (r : TransferItem N) (next_id : ℕ) (a : TransferAction N) (items : List (TransferItem N))
      → IsOutside a
      → All (Fits (some r)) items
      → All (Fits (some r)) (transfer_queue_reducer num now next_id items a)
  unfolding transfer_queue_reducer is_transferring is_completed is_retryable progressed finished
      broken stopped requeued
  reduce-Fits-some r next_id (enqueue inputs) items o p =
      All-append (Fits (some r)) items _ p
        (All-map _ (λ item q h. cc) (new_items-Quiet next_id inputs))
  reduce-Fits-some r next_id (start id) items o p = absurd o
  reduce-Fits-some r next_id (progress id x) items o p =
      All-at_id id (progressed num now x) items (λ item e q. ground arith) (λ item e q. q) p
  reduce-Fits-some r next_id (complete id) items o p =
      All-at_id id (finished num now) items (λ item e q. ground arith) (λ item e q. q) p
  reduce-Fits-some r next_id (fail id error) items o p =
      All-at_id id (broken num now error) items (λ item e q. ground arith) (λ item e q. q) p
  reduce-Fits-some r next_id (cancel id) items o p =
      All-at_id id (stopped num now) items (λ item e q. ground arith) (λ item e q. q) p
  reduce-Fits-some r next_id (retry id) items o p =
      All-at_id id (requeued num now) items (λ item e q. ground arith) (λ item e q. q) p
  reduce-Fits-some r next_id clear_completed items o p = All-filter (Fits (some r)) _ items p
  reduce-Fits-some r next_id clear_all items o p = All-filter (Fits (some r)) _ items p

  -- While none runs, no item comes to be transferring,
  pub reduce-Quiet :
      (next_id : ℕ) (a : TransferAction N) (items : List (TransferItem N))
      → IsOutside a
      → All Quiet items
      → All Quiet (transfer_queue_reducer num now next_id items a)
  unfolding transfer_queue_reducer is_transferring is_completed is_retryable progressed finished
      broken stopped requeued
  reduce-Quiet next_id (enqueue inputs) items o p =
      All-append Quiet items _ p (new_items-Quiet next_id inputs)
  reduce-Quiet next_id (start id) items o p = absurd o
  reduce-Quiet next_id (progress id x) items o p =
      All-at_id id (progressed num now x) items (λ item e q. ground arith) (λ item e q. q) p
  reduce-Quiet next_id (complete id) items o p =
      All-at_id id (finished num now) items (λ item e q. ground arith) (λ item e q. q) p
  reduce-Quiet next_id (fail id error) items o p =
      All-at_id id (broken num now error) items (λ item e q. ground arith) (λ item e q. q) p
  reduce-Quiet next_id (cancel id) items o p =
      All-at_id id (stopped num now) items (λ item e q. ground arith) (λ item e q. q) p
  reduce-Quiet next_id (retry id) items o p =
      All-at_id id (requeued num now) items (λ item e q. ground arith) (λ item e q. q) p
  reduce-Quiet next_id clear_completed items o p = All-filter Quiet _ items p
  reduce-Quiet next_id clear_all items o p = All-filter Quiet _ items p

  -- and only an action that arms the pump makes an item queued.
  pub reduce-Fits-none :
      (next_id : ℕ) (a : TransferAction N) (items : List (TransferItem N))
      → IsOutside a
      → arms a ≡ false
      → All (Fits none) items
      → All (Fits none) (transfer_queue_reducer num now next_id items a)
  unfolding arms is_queued transfer_queue_reducer is_transferring is_completed is_retryable
      progressed finished broken stopped requeued
  reduce-Fits-none next_id (enqueue inputs) items o b p = cc
  reduce-Fits-none next_id (start id) items o b p = absurd o
  reduce-Fits-none next_id (progress id x) items o b p =
      All-at_id id (progressed num now x) items (λ item e q. ground arith) (λ item e q. q) p
  reduce-Fits-none next_id (complete id) items o b p =
      All-at_id id (finished num now) items (λ item e q. ground arith) (λ item e q. q) p
  reduce-Fits-none next_id (fail id error) items o b p =
      All-at_id id (broken num now error) items (λ item e q. ground arith) (λ item e q. q) p
  reduce-Fits-none next_id (cancel id) items o b p =
      All-at_id id (stopped num now) items (λ item e q. ground arith) (λ item e q. q) p
  reduce-Fits-none next_id (retry id) items o b p = cc
  reduce-Fits-none next_id clear_completed items o b p = All-filter (Fits none) _ items p
  reduce-Fits-none next_id clear_all items o b p = All-filter (Fits none) _ items p
