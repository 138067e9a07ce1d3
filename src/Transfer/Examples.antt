-- ===== src/Transfer/Examples.antt =====
-- Tests of the transfer queue, and the theorems about it at concrete queues.
use r_shell.Prelude.{
  String, [], any, arith, eqb, false, filter, find, map, none, refl, some, true, ℕ, ◌*◌, ◌+◌, ◌/◌,
  ◌∷◌, ◌≡◌,
}
use r_shell.Terminal.Types.{Float}
use r_shell.Transfer.Drain.{run-settled}
use r_shell.Transfer.Events.{enqueues, idle_service, returns, run, step, succeeded, threw}
use r_shell.Transfer.Invariant.{All, IsSerial}
use r_shell.Transfer.Reducer.{
  get_next_queued_transfer, is_completed, is_queued, is_terminal_status, is_transferring, new_item,
  new_items, started, stopped, transfer_queue_reducer,
}
use r_shell.Transfer.Serial.{step-IsSerial}
use r_shell.Transfer.Service.{Service, apply_action, enqueue_inputs, settle_action}
use r_shell.Transfer.Status.{Extends, Moved, late_report_ignored, update-Extends}
use r_shell.Transfer.Types.{
  EnqueueTransferInput, TransferItem, TransferStatus, complete, retry, transferring, upload,
}

abbrev whole : Float ℕ
whole = record {
  of_nat = λ n. n;
  add = λ a b. a + b;
  mul = λ a b. a * b;
  div = λ a b. a / b;
  is_zero = λ a. eqb a 0;
  nan = 0;
}

abbrev floor_percent : ℕ → ℕ → ℕ
floor_percent t n = t * 100 / n

abbrev input : String → EnqueueTransferInput
input id = record {
  id = some id;
  connection_id = "host";
  file_name = id;
  direction = upload;
  source_path = "/tmp";
  destination_path = "/srv";
  total_bytes = 10;
  confined = none;
}

idle_service-IsSerial : IsSerial (idle_service {N = ℕ})
unfolding idle_service
idle_service-IsSerial = record { busy = refl; fits = tt }

-- Two transfers, of which the first runs and the second is queued.
abbrev two_transfers : Service ℕ
two_transfers = step whole floor_percent idle_service (5, enqueues (input "a" ∷ input "b" ∷ []))

two_transfers-IsSerial : IsSerial two_transfers
two_transfers-IsSerial =
    step-IsSerial whole floor_percent idle_service (5, enqueues (input "a" ∷ input "b" ∷ []))
      idle_service-IsSerial

statuses :
    map (λ (item : TransferItem ℕ). item.status) two_transfers.items
    ≡ transferring ∷ TransferStatus.queued ∷ []
unfolding step idle_service enqueue_inputs apply_action settle_action transfer_queue_reducer
    new_items get_next_queued_transfer any find is_queued is_transferring started filter
statuses = refl

step-IsSerial_example : IsSerial (step whole floor_percent two_transfers (9, returns succeeded))
step-IsSerial_example =
    step-IsSerial whole floor_percent two_transfers (9, returns succeeded) two_transfers-IsSerial

run-settled_example :
    All
      (λ item. is_terminal_status item.status ≡ true)
      (run whole floor_percent two_transfers
        ((9, returns succeeded) ∷ (12, returns (threw "gone")) ∷ [])).items
    × ((run whole floor_percent two_transfers
          ((9, returns succeeded) ∷ (12, returns (threw "gone")) ∷ [])).pumping
        ≡ false)
unfolding step idle_service enqueue_inputs apply_action settle_action transfer_queue_reducer
    new_items get_next_queued_transfer any find is_queued is_transferring started filter
run-settled_example =
    run-settled whole floor_percent ((9, succeeded) ∷ (12, threw "gone") ∷ []) two_transfers
      two_transfers-IsSerial (omega arith)

abbrev cancelled_item : TransferItem ℕ
cancelled_item = stopped whole 7 (new_item whole 5 (input "a") "a")

update-Extends_example :
    Extends Moved
      (cancelled_item ∷ [])
      (transfer_queue_reducer whole 9 1 (cancelled_item ∷ []) (retry "a"))
update-Extends_example = update-Extends whole 9 1 (cancelled_item ∷ []) (retry "a") tt

late_report_ignored_example :
    transfer_queue_reducer whole 9 1 (cancelled_item ∷ []) (complete "a") ≡ cancelled_item ∷ []
unfolding stopped new_item is_transferring is_completed
late_report_ignored_example =
    late_report_ignored whole 9 1 (cancelled_item ∷ []) (complete "a") "a" refl ((λ e. refl), tt)
