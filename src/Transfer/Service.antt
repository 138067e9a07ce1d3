-- ===== src/Transfer/Service.antt =====
-- src/lib/transfer-queue-service.ts and transfer-progress.ts: the store of the queue, the pump that
-- runs one transfer at a time, and the calls of the public interface. An asynchronous function is
-- cut at its `await`: `running` is the item whose backend call `runTransfer` awaits, and `returns`
-- is the event that the call has returned. The listeners and the backend are seen through a log.
use r_shell.Prelude.{
  Bool, List, Option, String, [], false, find, if◌then◌else◌, is_some, map, none, not, or_else,
  some, true, ℕ, ◌&&◌, ◌++◌, ◌+◌, ◌==◌, ◌||◌, ◌∷◌,
}
use r_shell.Terminal.Types.{Float}
use r_shell.Transfer.Reducer.{
  generate_transfer_id, get_next_queued_transfer, is_terminal_status, transfer_queue_reducer,
}
use r_shell.Transfer.Types.{
  ConfinedDownloadPaths, EnqueueTransferInput, TransferAction, TransferItem, TransferStatus, cancel,
  download, enqueue, retry, start, upload,
}

pub data TransferOutcome : Type 0 where
  completed failed cancelled : TransferOutcome

-- The backend commands, with their arguments in the order of the source.
pub data Command : Type 0 where
  upload_remote_file : String → String → String → String → Command
  download_remote_file_confined : String → ConfinedDownloadPaths → String → Command
  download_remote_file : String → String → String → String → Command

pub data Effect (N : Type 0) : Type 0 where
  -- the promise `done` of a submitted transfer is resolved
  resolved : String → TransferOutcome → Effect N
  -- the listeners of `onItemSettled` are called
  item_settled : TransferItem N → Effect N
  -- the subscribers are called
  notified : Effect N
  invoked : Command → Effect N
  cancel_requested : String → Effect N

pub record Service (N : Type 0) : Type 0 where
  pub items : List (TransferItem N)
  pub pumping : Bool
  pub running : Option (TransferItem N)
  -- the keys of the map of resolvers
  pub waiters : List String
  pub next_id : ℕ
  pub log : List (Effect N)

unfoldable pub outcome_of : TransferStatus → TransferOutcome
outcome_of TransferStatus.completed = completed
outcome_of TransferStatus.failed = failed
outcome_of _ = cancelled

unfoldable pub is_waiting : String → List String → Bool
is_waiting id [] = false
is_waiting id (w ∷ ws) = w == id || is_waiting id ws

pub drop_waiter : String → List String → List String
drop_waiter id [] = []
drop_waiter id (w ∷ ws) = if w == id then drop_waiter id ws else w ∷ drop_waiter id ws

module _ {N : Type 0} where
  unfoldable pub command_for : TransferItem N → Command
  command_for item = elim item.direction [
    | upload ↦ upload_remote_file item.connection_id item.source_path item.destination_path item.id
    | download ↦ elim item.confined [
      | some paths ↦ download_remote_file_confined item.connection_id paths item.id
      | none ↦
          download_remote_file item.connection_id item.source_path item.destination_path item.id
    ]
  ]

  -- `before && isTerminalStatus(before.status)`
  pub was_terminal : String → List (TransferItem N) → Bool
  was_terminal id prev = elim (find (λ item. item.id == id) prev) [
    | none ↦ false
    | some before ↦ is_terminal_status before.status
  ]

  pub just_settled : List (TransferItem N) → List (TransferItem N) → List (TransferItem N)
  unfolding was_terminal
  just_settled prev [] = []
  just_settled prev (item ∷ next) =
      if is_terminal_status item.status && not (was_terminal item.id prev)
      then item ∷ just_settled prev next
      else just_settled prev next

  -- What the loop over the settled items resolves, and the waiters that it leaves.
  unfoldable pub resolutions : List (TransferItem N) → List String → List (Effect N)
  resolutions [] ws = []
  resolutions (item ∷ settled) ws =
      let rest = resolutions settled (drop_waiter item.id ws) in
      if is_waiting item.id ws then resolved item.id (outcome_of item.status) ∷ rest else rest

  pub waiters_left : List (TransferItem N) → List String → List String
  unfolding drop_waiter
  waiters_left [] ws = ws
  waiters_left (item ∷ settled) ws = waiters_left settled (drop_waiter item.id ws)

  -- Whether `applyAction` arms the pump.
  unfoldable pub arms : TransferAction N → Bool
  arms (enqueue inputs) = true
  arms (retry id) = true
  arms _ = false

  -- `runTransfer`, up to the backend call that it awaits
  pub run_transfer : Service N → TransferItem N → Service N
  run_transfer svc item = record svc {
    running = some item;
    log = svc.log ++ invoked (command_for item) ∷ [];
  }

module _ {N : Type 0} (num : Float N) (now : ℕ) where
  -- `applyAction` without the pump. The reducer always makes a new array, so that the early return
  -- on an unchanged one is never taken.
  unfoldable pub settle_action : Service N → TransferAction N → Service N
  unfolding just_settled waiters_left
  settle_action svc action =
      let next = transfer_queue_reducer num now svc.next_id svc.items action in
      let settled = just_settled svc.items next in
      record svc {
        items = next;
        waiters = waiters_left settled svc.waiters;
        log =
            svc.log
            ++ (resolutions settled svc.waiters ++ (map item_settled settled ++ notified ∷ []));
      }

  -- `pump`, up to its `await`: an action `START` does not arm the pump again.
  unfoldable pub pump : Service N → Service N
  unfolding settle_action run_transfer
  pump svc = if svc.pumping then svc else elim (get_next_queued_transfer svc.items) [
    | none ↦ svc
    | some next ↦ run_transfer (settle_action (record svc { pumping = true }) (start next.id)) next
  ]

  unfoldable pub apply_action : Service N → TransferAction N → Service N
  unfolding pump arms
  apply_action svc action =
      let svc' = settle_action svc action in if arms action then pump svc' else svc'

  -- The inputs with an id each, and the counter behind the last that was generated.
  pub with_ids : ℕ → List EnqueueTransferInput → List EnqueueTransferInput
  with_ids next_id [] = []
  with_ids next_id (input ∷ inputs) =
      record input { id = some (or_else input.id (generate_transfer_id next_id now)) }
      ∷ with_ids (if is_some input.id then next_id else next_id + 1) inputs

  pub ids_used : ℕ → List EnqueueTransferInput → ℕ
  ids_used next_id [] = next_id
  ids_used next_id (input ∷ inputs) =
      ids_used (if is_some input.id then next_id else next_id + 1) inputs

  -- `enqueue`
  unfoldable pub enqueue_inputs : Service N → List EnqueueTransferInput → Service N
  unfolding with_ids ids_used
  enqueue_inputs svc inputs =
      apply_action (record svc { next_id = ids_used svc.next_id inputs })
        (enqueue (with_ids svc.next_id inputs))

  -- `submit`: the resolver is stored once the action is applied.
  unfoldable pub submit : Service N → EnqueueTransferInput → Service N
  unfolding enqueue_inputs
  submit svc input =
      let id = or_else input.id (generate_transfer_id svc.next_id now) in
      let svc' = enqueue_inputs svc (input ∷ []) in
      record svc' {
        waiters = if is_waiting id svc'.waiters then svc'.waiters else id ∷ svc'.waiters;
      }

  unfoldable pub cancel_transfer : Service N → String → Service N
  cancel_transfer svc id =
      apply_action (record svc { log = svc.log ++ cancel_requested id ∷ [] }) (cancel id)
