-- ===== src/Transfer/Drain.antt =====
-- The end of the transfers of src/lib/transfer-queue-service.ts: what each return of the backend call
-- leaves to do.
use r_shell.Prelude.{
  Bool-cases, List, Option-cases, String, [], any, ap, arith, eq_refl, false, find, if◌then◌else◌,
  inl, inr, is_some, length, none, refl, some, some_inj, suc, true, ℕ, ◌+◌, ◌==◌, ◌∙◌, ◌∷◌, ◌≡◌,
  ◌≤◌,
}
use r_shell.Terminal.Types.{Float}
use r_shell.Transfer.Events.{
  Event, InvokeResult, finish_transfer, refused, result_action, returns, run, step, succeeded,
  threw,
}
use r_shell.Transfer.Invariant.{All, All-map, Fits, IsSerial}
use r_shell.Transfer.Reducer.{
  at_id, broken, finished, get_next_queued_transfer, is_queued, is_terminal_status, is_transferring,
  started, transfer_queue_reducer,
}
use r_shell.Transfer.Serial.{finish_transfer-IsSerial, result_action-unarmed}
use r_shell.Transfer.Service.{Service, apply_action, pump}
use r_shell.Transfer.Types.{TransferItem, TransferStatus}

abbrev pub queued_count : {N : Type 0} → List (TransferItem N) → ℕ
queued_count [] = 0
queued_count (item ∷ items) = (if is_queued item.status then 1 else 0) + queued_count items

-- The transfers that are queued, and the one that runs.
abbrev pub pending_count : {N : Type 0} → Service N → ℕ
pending_count svc = queued_count svc.items + (if is_some svc.running then 1 else 0)

module _ {N : Type 0} (num : Float N) (now : ℕ) where
  queued_count-at_id :
      (id : String) (f : TransferItem N → TransferItem N) (items : List (TransferItem N))
      → ((item : TransferItem N) → is_queued (f item).status ≡ is_queued item.status)
      → queued_count (at_id id f items) ≡ queued_count items
  unfolding at_id
  queued_count-at_id id f [] h = refl
  queued_count-at_id id f (item ∷ items) h = elim (Bool-cases (item.id == id)) [
    | inl e ↦ rw (e, h item, queued_count-at_id id f items h)
    | inr e ↦ rw (e, queued_count-at_id id f items h)
  ]

  -- The result of the running transfer leaves the queue as it is.
  queued_count-result :
      (next_id : ℕ) (id : String) (result : InvokeResult) (items : List (TransferItem N))
      → queued_count (transfer_queue_reducer num now next_id items (result_action id result))
        ≡ queued_count items
  unfolding result_action transfer_queue_reducer finished broken is_transferring is_queued
  queued_count-result next_id id succeeded items =
      queued_count-at_id id _ items (λ item. ground arith)
  queued_count-result next_id id (refused error) items =
      queued_count-at_id id _ items (λ item. ground arith)
  queued_count-result next_id id (threw message) items =
      queued_count-at_id id _ items (λ item. ground arith)

  queued_count-start-le :
      (id : String) (items : List (TransferItem N))
      → queued_count (at_id id (started num now) items) ≤ queued_count items
  unfolding at_id started is_queued
  queued_count-start-le id [] = omega arith
  queued_count-start-le id (item ∷ items) = ground (arith, queued_count-start-le id items)

  -- Starting the first queued item takes it out of the queue.
  queued_count-start :
      (next : TransferItem N) (items : List (TransferItem N))
      → find (λ item. is_queued item.status) items ≡ some next
      → suc (queued_count (at_id next.id (started num now) items)) ≤ queued_count items
  unfolding at_id find started is_queued
  queued_count-start next [] e = cc
  queued_count-start next (item ∷ items) e = elim (Bool-cases (is_queued item.status)) [
    | inl q ↦ ground (
      arith,
      q,
      e,
      eq_refl next.id,
      ap (λ (x : TransferItem N). x.id) (some_inj (rw (find, q) at e)),
      queued_count-start-le next.id items,
    )
    | inr q ↦ ground (arith, q, queued_count-start next items (rw (find, q) at e))
  ]

  pump-pending :
      (svc : Service N)
      → svc.running ≡ none
      → pending_count (pump num now svc) ≤ queued_count svc.items + (if svc.pumping then 1 else 0)
  unfolding pump get_next_queued_transfer transfer_queue_reducer
  pump-pending svc r = elim (Bool-cases svc.pumping) [
    | inl p ↦ rw (p, r) (omega arith)
    | inr p ↦ rw p (elim (Bool-cases (any (λ item. is_transferring item.status) svc.items)) [
      | inl a ↦ rw (a, r) (omega arith)
      | inr a ↦ rw a (elim (Option-cases (find (λ item. is_queued item.status) svc.items)) [
        | inl e ↦ rw (e, r) (omega arith)
        | inr (next, e) ↦ rw e (omega (arith, queued_count-start next svc.items e))
      ])
    ])
  ]

module _ {N : Type 0} (num : Float N) (percent : ℕ → ℕ → ℕ) where
  queued_count-applied :
      (now : ℕ) (svc : Service N) (id : String) (result : InvokeResult)
      → queued_count (apply_action num now svc (result_action id result)).items
        ≡ queued_count svc.items
  unfolding apply_action
  queued_count-applied now svc id result =
      rw (result_action-unarmed num percent id result)
        (queued_count-result num now svc.next_id id result svc.items)

  -- Each return leaves less to do.
  finish-pending :
      (now : ℕ) (svc : Service N) (result : InvokeResult) {r : TransferItem N}
      → svc.running ≡ some r
      → suc (pending_count (finish_transfer num percent now svc result)) ≤ pending_count svc
  unfolding finish_transfer
  finish-pending now svc result {r} e =
      rw (e, finish_transfer)
        (omega (arith, pump-pending num now _ refl, queued_count-applied now svc r.id result))

  abbrev pub returned : List (ℕ × InvokeResult) → List (ℕ × Event N)
  returned [] = []
  returned ((now, result) ∷ rest) = (now, returns result) ∷ returned rest

  queued_count-idle :
      (items : List (TransferItem N)) → All (Fits none) items → queued_count items ≡ 0
  queued_count-idle [] h = refl
  queued_count-idle (item ∷ items) h = ground (arith, h.0, queued_count-idle items h.1)

  idle-pending : (svc : Service N) → IsSerial svc → svc.running ≡ none → pending_count svc ≡ 0
  idle-pending svc v e = rw e (omega (arith, queued_count-idle svc.items (rw e at v.fits)))

  finish-le :
      (now : ℕ) (svc : Service N) (result : InvokeResult) (k : ℕ)
      → IsSerial svc
      → pending_count svc ≤ suc k
      → pending_count (finish_transfer num percent now svc result) ≤ k
  unfolding finish_transfer
  finish-le now svc result k v h = elim (Option-cases svc.running) [
    | inl e ↦ rw (e, finish_transfer) (omega (arith, idle-pending svc v e))
    | inr (r, e) ↦ omega (arith, finish-pending now svc result e)
  ]

  settled :
      (st : TransferStatus)
      → is_transferring st ≡ false
      → is_queued st ≡ false
      → is_terminal_status st ≡ true
  unfolding is_transferring is_queued is_terminal_status
  settled st p q = ground arith

  All-settled :
      (svc : Service N)
      → IsSerial svc
      → pending_count svc ≡ 0
      → All (λ item. is_terminal_status item.status ≡ true) svc.items × (svc.pumping ≡ false)
  All-settled svc v h = elim (Option-cases svc.running) [
    | inl e ↦ (
      All-map svc.items (λ item q. settled item.status q.0 q.1) (rw e at v.fits),
      v.busy ∙ ap is_some e,
    )
    | inr (r, e) ↦ absurd (ground (arith, h, e))
  ]

  -- From a serial service, once the backend has returned at least as often as there are transfers
  -- queued or running, whatever the results, every item has settled and the pump rests.
  pub run-settled :
      (results : List (ℕ × InvokeResult)) (svc : Service N)
      → IsSerial svc
      → pending_count svc ≤ length results
      → All
          (λ item. is_terminal_status item.status ≡ true)
          (run num percent svc (returned results)).items
        × ((run num percent svc (returned results)).pumping ≡ false)
  unfolding run step
  run-settled [] svc v h = All-settled svc v (omega arith)
  run-settled ((now, result) ∷ rest) svc v h =
      run-settled rest (finish_transfer num percent now svc result)
        (finish_transfer-IsSerial num percent now svc result v)
        (finish-le now svc result (length rest) v h)
