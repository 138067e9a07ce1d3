-- ===== src/Transfer/Events.antt =====
-- What happens to the transfer service from outside: calls of its interface, dispatches of the queue
-- strip, messages of a progress channel, and the return of the backend call that the pump awaits.
use r_shell.Prelude.{
  List, Option, String, [], false, if◌then◌else◌, ltb, min, none, or_else, some, ℕ, ◌∷◌,
}
use r_shell.Terminal.Types.{Float}
use r_shell.Transfer.Service.{Service, apply_action, cancel_transfer, enqueue_inputs, pump, submit}
use r_shell.Transfer.Types.{
  EnqueueTransferInput, TransferAction, clear_completed, complete, fail, progress, retry,
}

-- How `invoke` ends: a result with or without success, or an exception with its text.
pub data InvokeResult : Type 0 where
  succeeded : InvokeResult
  refused : Option String → InvokeResult
  threw : String → InvokeResult

-- `TransferProgressEvent`, with the speed that the tracker derives
pub record ProgressEvent (N : Type 0) : Type 0 where
  pub transferred : ℕ
  pub total : ℕ
  pub speed : N

-- What `makeTransferProgressChannel` dispatches. `percent t n` stands for
-- `Math.floor((t / n) * 100)`, a rounded division of floating-point numbers.
unfoldable pub channel_action :
    {N : Type 0} → (ℕ → ℕ → ℕ) → String → ℕ → ProgressEvent N → TransferAction N
channel_action percent id fallback_total event =
    let total = if ltb 0 event.total then event.total else fallback_total in
    progress id (record {
      progress = if ltb 0 total then min 99 (percent event.transferred total) else 0;
      bytes_transferred = event.transferred;
      speed = event.speed;
      total_bytes = if ltb 0 total then some total else none;
    })

-- The action that `runTransfer` applies in the end.
unfoldable pub result_action : {N : Type 0} → String → InvokeResult → TransferAction N
result_action id succeeded = complete id
result_action id (refused error) = fail id (or_else error "Transfer failed")
result_action id (threw message) = fail id message

pub data Event (N : Type 0) : Type 0 where
  enqueues : List EnqueueTransferInput → Event N
  submits : EnqueueTransferInput → Event N
  cancels : String → Event N
  retries : String → Event N
  clears : Event N
  reports : String → ℕ → ProgressEvent N → Event N
  returns : InvokeResult → Event N

module _ {N : Type 0} (num : Float N) (percent : ℕ → ℕ → ℕ) where
  -- The rest of `runTransfer` and of `pump`, behind the `await`.
  unfoldable pub finish_transfer : ℕ → Service N → InvokeResult → Service N
  unfolding result_action
  finish_transfer now svc result = elim svc.running [
    | none ↦ svc
    | some item ↦
        let svc' = apply_action num now svc (result_action item.id result) in
        pump num now (record svc' { pumping = false; running = none })
  ]

  -- One event, at a time.
  unfoldable pub step : Service N → ℕ × Event N → Service N
  unfolding finish_transfer channel_action
  step svc (now, enqueues inputs) = enqueue_inputs num now svc inputs
  step svc (now, submits input) = submit num now svc input
  step svc (now, cancels id) = cancel_transfer num now svc id
  step svc (now, retries id) = apply_action num now svc (retry id)
  step svc (now, clears) = apply_action num now svc clear_completed
  step svc (now, reports id fallback_total event) =
      apply_action num now svc (channel_action percent id fallback_total event)
  step svc (now, returns result) = finish_transfer now svc result

  unfoldable pub run : Service N → List (ℕ × Event N) → Service N
  unfolding step
  run svc [] = svc
  run svc (e ∷ es) = run (step svc e) es

unfoldable pub idle_service : {N : Type 0} → Service N
idle_service = record {
  items = [];
  pumping = false;
  running = none;
  waiters = [];
  next_id = 1;
  log = [];
}
