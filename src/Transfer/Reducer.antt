-- ===== src/Transfer/Reducer.antt =====
-- src/lib/transfer-queue-reducer.ts. The clock and the counter of generated ids, which the source
-- keeps in module variables, are arguments.
use r_shell.Prelude.{
  Bool, List, Option, String, [], any, concat, false, filter, find, if◌then◌else◌, is_some, ltb,
  none, not, or_else, show, some, true, ℕ, ◌++◌, ◌+◌, ◌==◌, ◌||◌, ◌∷◌,
}
use r_shell.Terminal.Types.{Float}
use r_shell.Transfer.Types.{
  EnqueueTransferInput, Progress, TransferAction, TransferItem, TransferStatus, cancel, cancelled,
  clear_all, clear_completed, complete, completed, enqueue, fail, failed, progress, queued, retry,
  start, transferring,
}

unfoldable pub is_transferring : TransferStatus → Bool
is_transferring transferring = true
is_transferring _ = false

unfoldable pub is_queued : TransferStatus → Bool
is_queued queued = true
is_queued _ = false

unfoldable pub is_completed : TransferStatus → Bool
is_completed completed = true
is_completed _ = false

-- `isTerminalStatus`
unfoldable pub is_terminal_status : TransferStatus → Bool
is_terminal_status completed = true
is_terminal_status failed = true
is_terminal_status cancelled = true
is_terminal_status _ = false

-- `RETRY` applies to these.
unfoldable pub is_retryable : TransferStatus → Bool
is_retryable failed = true
is_retryable cancelled = true
is_retryable _ = false

pub generate_transfer_id : ℕ → ℕ → String
generate_transfer_id next_id now =
    concat "transfer-" (concat (show next_id) (concat "-" (show now)))

-- `state.map((item) => item.id === action.id … ? … : item)`
unfoldable pub at_id :
    {N : Type 0}
    → String
    → (TransferItem N → TransferItem N)
    → List (TransferItem N)
    → List (TransferItem N)
at_id id f [] = []
at_id id f (item ∷ items) = (if item.id == id then f item else item) ∷ at_id id f items

module _ {N : Type 0} (num : Float N) (now : ℕ) where
  unfoldable pub new_item : EnqueueTransferInput → String → TransferItem N
  new_item input id = record {
    id = id;
    connection_id = input.connection_id;
    file_name = input.file_name;
    direction = input.direction;
    source_path = input.source_path;
    destination_path = input.destination_path;
    status = queued;
    progress = 0;
    bytes_transferred = 0;
    total_bytes = input.total_bytes;
    speed = num.of_nat 0;
    error = none;
    started_at = none;
    completed_at = none;
    confined = input.confined;
  }

  -- The new items, with ids for the inputs that have none.
  unfoldable pub new_items : ℕ → List EnqueueTransferInput → List (TransferItem N)
  unfolding new_item generate_transfer_id
  new_items next_id [] = []
  new_items next_id (input ∷ inputs) =
      new_item input (or_else input.id (generate_transfer_id next_id now))
      ∷ new_items (if is_some input.id then next_id else next_id + 1) inputs

  unfoldable pub started : TransferItem N → TransferItem N
  started item = record item { status = transferring; started_at = some now }

  unfoldable pub progressed : Progress N → TransferItem N → TransferItem N
  progressed p item =
      if is_transferring item.status
      then record item {
        progress = p.progress;
        bytes_transferred = p.bytes_transferred;
        speed = p.speed;
        total_bytes = or_else p.total_bytes item.total_bytes;
      }
      else item

  unfoldable pub finished : TransferItem N → TransferItem N
  finished item =
      if is_transferring item.status
      then record item {
        status = completed;
        progress = 100;
        speed = num.of_nat 0;
        bytes_transferred =
            if ltb 0 item.total_bytes then item.total_bytes else item.bytes_transferred;
        completed_at = some now;
      }
      else item

  unfoldable pub broken : String → TransferItem N → TransferItem N
  broken error item =
      if is_transferring item.status
      then record item { status = failed; error = some error; completed_at = some now }
      else item

  unfoldable pub stopped : TransferItem N → TransferItem N
  stopped item =
      if not (is_completed item.status)
      then record item { status = cancelled; completed_at = some now }
      else item

  unfoldable pub requeued : TransferItem N → TransferItem N
  requeued item =
      if is_retryable item.status
      then record item {
        status = queued;
        progress = 0;
        bytes_transferred = 0;
        speed = num.of_nat 0;
        error = none;
        started_at = none;
        completed_at = none;
      }
      else item

  unfoldable pub transfer_queue_reducer :
      ℕ → List (TransferItem N) → TransferAction N → List (TransferItem N)
  unfolding at_id
  transfer_queue_reducer next_id state (enqueue inputs) = state ++ new_items next_id inputs
  transfer_queue_reducer next_id state (start id) = at_id id started state
  transfer_queue_reducer next_id state (progress id p) = at_id id (progressed p) state
  transfer_queue_reducer next_id state (complete id) = at_id id finished state
  transfer_queue_reducer next_id state (fail id error) = at_id id (broken error) state
  transfer_queue_reducer next_id state (cancel id) = at_id id stopped state
  transfer_queue_reducer next_id state (retry id) = at_id id requeued state
  transfer_queue_reducer next_id state clear_completed =
      filter (λ item. not (is_terminal_status item.status)) state
  transfer_queue_reducer next_id state clear_all =
      filter (λ item. is_transferring item.status) state

module _ {N : Type 0} where
  unfoldable pub get_active_transfer_count : List (TransferItem N) → ℕ
  get_active_transfer_count [] = 0
  get_active_transfer_count (item ∷ items) =
      (if is_queued item.status || is_transferring item.status then 1 else 0)
      + get_active_transfer_count items

  unfoldable pub get_next_queued_transfer : List (TransferItem N) → Option (TransferItem N)
  get_next_queued_transfer state =
      if any (λ item. is_transferring item.status) state
      then none
      else find (λ item. is_queued item.status) state
