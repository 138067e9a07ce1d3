-- ===== src/Transfer/Serial.antt =====
-- The events of src/lib/transfer-queue-service.ts, one lemma for each.
use r_shell.Prelude.{
  Bool-cases, List, Option-cases, String, [], any, ap, arith, eq_iff, false, find, inl, inr,
  is_some, none, refl, some, subst, sym, true, ℕ, ◌∙◌, ◌∷◌, ◌≡◌,
}
use r_shell.Terminal.Types.{Float}
use r_shell.Transfer.Events.{
  Event, InvokeResult, cancels, channel_action, clears, enqueues, finish_transfer, refused, reports,
  result_action, retries, returns, step, submits, succeeded, threw,
}
use r_shell.Transfer.Invariant.{
  All, All-at_id, All-map, Fits, IsOutside, IsSerial, Quiet, reduce-Fits-none, reduce-Fits-some,
  reduce-Quiet,
}
use r_shell.Transfer.Reducer.{
  broken, finished, get_next_queued_transfer, is_queued, is_transferring, started,
  transfer_queue_reducer,
}
use r_shell.Transfer.Service.{
  Service, apply_action, arms, cancel_transfer, enqueue_inputs, ids_used, pump, run_transfer,
  settle_action, submit, with_ids,
}
use r_shell.Transfer.Types.{TransferAction, TransferItem, enqueue, start}

module _ {N : Type 0} where
  any-Quiet :
      (items : List (TransferItem N))
      → All Quiet items
      → any (λ item. is_transferring item.status) items ≡ false
  unfolding any
  any-Quiet [] h = refl
  any-Quiet (item ∷ items) h = ground (arith, h.0, any-Quiet items h.1)

  find-none :
      (items : List (TransferItem N))
      → All Quiet items
      → find (λ item. is_queued item.status) items ≡ none
      → All (Fits none) items
  unfolding find
  find-none [] h e = tt
  find-none (item ∷ items) h e = elim (Bool-cases (is_queued item.status)) [
    | inl q ↦ absurd (ground (arith, q, e))
    | inr q ↦ ((h.0, q), find-none items h.1 (ground (arith, q, e)))
  ]

  Quiet-Fits-none : (items : List (TransferItem N)) → All (Fits none) items → All Quiet items
  Quiet-Fits-none items p = All-map items (λ item q. q.0) p

module _ {N : Type 0} (num : Float N) (now : ℕ) where
  -- The pump starts the first queued item, if nothing runs.
  pump-IsSerial :
      (svc : Service N)
      → svc.pumping ≡ false
      → svc.running ≡ none
      → All Quiet svc.items
      → IsSerial (pump num now svc)
  unfolding pump get_next_queued_transfer transfer_queue_reducer started is_transferring
  pump-IsSerial svc p r q = elim (Option-cases (find (λ item. is_queued item.status) svc.items)) [
    | inl e ↦
        rw (p, any-Quiet svc.items q, e)
          (record { busy = rw (p, r); fits = rw r (find-none svc.items q e) })
    | inr (next, e) ↦ rw (p, any-Quiet svc.items q, e) (started_next next)
  ]
    where
      started_next :
          (next : TransferItem N)
          → IsSerial (
              run_transfer
                (settle_action num now (record svc { pumping = true }) (start next.id))
                next)
      started_next next = record {
        busy = refl;
        fits =
            All-at_id next.id (started num now) svc.items
              (λ item e h t. sym ((eq_iff item.id next.id).0 e)) (λ item e h t. cc) q;
      }

  -- A pump that is running is left alone.
  pub pump_busy : (svc : Service N) → svc.pumping ≡ true → pump num now svc ≡ svc
  unfolding pump
  pump_busy svc e = elim (Bool-cases svc.pumping) [ inl b ↦ ground (arith, b) | inr b ↦ cc ]

  module _ (svc : Service N) (v : IsSerial svc) (a : TransferAction N) (o : IsOutside a) where
    apply_busy : (r : TransferItem N) → svc.running ≡ some r → IsSerial (apply_action num now svc a)
    unfolding apply_action
    apply_busy r e = elim (Bool-cases (arms a)) [
      | inl b ↦ rw b (
          subst IsSerial (sym (pump_busy (settle_action num now svc a) (v.busy ∙ ap is_some e)))
            after)
      | inr b ↦ rw b after
    ]
      where
        after : IsSerial (settle_action num now svc a)
        after = record {
          busy = v.busy;
          fits = rw e (reduce-Fits-some num now r svc.next_id a svc.items o (rw e at v.fits));
        }

    apply_idle : svc.running ≡ none → IsSerial (apply_action num now svc a)
    unfolding apply_action
    apply_idle e = elim (Bool-cases (arms a)) [
      | inl b ↦ rw b (
          pump-IsSerial (settle_action num now svc a) (rw (v.busy, e)) e (
            reduce-Quiet num now svc.next_id a svc.items o
              (Quiet-Fits-none svc.items (rw e at v.fits))))
      | inr b ↦ rw b (record {
        busy = v.busy;
        fits = rw e (reduce-Fits-none num now svc.next_id a svc.items o b (rw e at v.fits));
      })
    ]

    pub apply_action-IsSerial : IsSerial (apply_action num now svc a)
    apply_action-IsSerial = elim (Option-cases svc.running) [
      | inl e ↦ apply_idle e
      | inr (r, e) ↦ apply_busy r e
    ]

module _ {N : Type 0} (num : Float N) (percent : ℕ → ℕ → ℕ) where
  result_action-IsOutside :
      (id : String) (r : InvokeResult) → IsOutside {N = N} (result_action id r)
  unfolding result_action
  result_action-IsOutside id succeeded = tt
  result_action-IsOutside id (refused error) = tt
  result_action-IsOutside id (threw message) = tt

  pub result_action-unarmed :
      (id : String) (r : InvokeResult) → arms {N = N} (result_action id r) ≡ false
  unfolding result_action arms
  result_action-unarmed id succeeded = refl
  result_action-unarmed id (refused error) = refl
  result_action-unarmed id (threw message) = refl

  -- Once its result is applied, the transfer that ran is no longer transferring, and no other was.
  result-Quiet :
      (now next_id : ℕ) (r : TransferItem N) (result : InvokeResult) (items : List (TransferItem N))
      → All (Fits (some r)) items
      → All Quiet (transfer_queue_reducer num now next_id items (result_action r.id result))
  unfolding result_action transfer_queue_reducer finished broken is_transferring
  result-Quiet now next_id r succeeded items p =
      All-at_id r.id (finished num now) items (λ item e q. ground arith)
        (λ item e q. ground (arith, e, eq_iff item.id r.id)) p
  result-Quiet now next_id r (refused error) items p =
      All-at_id r.id (broken num now _) items (λ item e q. ground arith)
        (λ item e q. ground (arith, e, eq_iff item.id r.id)) p
  result-Quiet now next_id r (threw message) items p =
      All-at_id r.id (broken num now message) items (λ item e q. ground arith)
        (λ item e q. ground (arith, e, eq_iff item.id r.id)) p

  pub finish_transfer-IsSerial :
      (now : ℕ) (svc : Service N) (result : InvokeResult)
      → IsSerial svc
      → IsSerial (finish_transfer num percent now svc result)
  unfolding finish_transfer apply_action
  finish_transfer-IsSerial now svc result v = elim (Option-cases svc.running) [
    | inl e ↦ rw (finish_transfer, e) v
    | inr (r, e) ↦
        rw (finish_transfer, e)
          (pump-IsSerial num now _ refl refl (
            rw (apply_action, result_action-unarmed r.id result)
              (result-Quiet now svc.next_id r result svc.items (rw e at v.fits))))
  ]

  -- Every event keeps the service serial: the pump is busy just while a backend call is awaited, only
  -- the item of that call may be transferring, and while none is awaited, no item is queued.
  pub step-IsSerial :
      (svc : Service N) (e : ℕ × Event N) → IsSerial svc → IsSerial (step num percent svc e)
  unfolding step enqueue_inputs submit cancel_transfer channel_action
  step-IsSerial svc (now, enqueues inputs) v =
      apply_action-IsSerial num now _ (record { busy = v.busy; fits = v.fits }) _ tt
  step-IsSerial svc (now, submits input) v =
      let w =
        apply_action-IsSerial num now
          (record svc { next_id = ids_used num now svc.next_id (input ∷ []) })
          (record { busy = v.busy; fits = v.fits })
          (enqueue (with_ids num now svc.next_id (input ∷ []))) tt in
      record { busy = w.busy; fits = w.fits }
  step-IsSerial svc (now, cancels id) v =
      apply_action-IsSerial num now _ (record { busy = v.busy; fits = v.fits }) _ tt
  step-IsSerial svc (now, retries id) v = apply_action-IsSerial num now svc v _ tt
  step-IsSerial svc (now, clears) v = apply_action-IsSerial num now svc v _ tt
  step-IsSerial svc (now, reports id fallback_total event) v =
      apply_action-IsSerial num now svc v _ tt
  step-IsSerial svc (now, returns result) v = finish_transfer-IsSerial now svc result v
