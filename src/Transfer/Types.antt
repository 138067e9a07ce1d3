-- ===== src/Transfer/Types.antt =====
-- The types of src/lib/transfer-queue-reducer.ts. Byte counts, percentages and times are natural
-- numbers; a speed is a floating-point number, of the type `N`.
use r_shell.Prelude.{List, Option, String, ℕ}

pub data TransferStatus : Type 0 where
  queued transferring completed failed cancelled : TransferStatus

pub data TransferDirection : Type 0 where
  upload download : TransferDirection

pub record ConfinedDownloadPaths : Type 0 where
  pub remote_root : String
  pub destination_root : String
  pub remote_relative_path : String
  pub destination_relative_path : String

pub record TransferItem (N : Type 0) : Type 0 where
  pub id : String
  pub connection_id : String
  pub file_name : String
  pub direction : TransferDirection
  pub source_path : String
  pub destination_path : String
  pub status : TransferStatus
  pub progress : ℕ
  pub bytes_transferred : ℕ
  pub total_bytes : ℕ
  pub speed : N
  pub error : Option String
  pub started_at : Option ℕ
  pub completed_at : Option ℕ
  pub confined : Option ConfinedDownloadPaths

pub record EnqueueTransferInput : Type 0 where
  pub id : Option String
  pub connection_id : String
  pub file_name : String
  pub direction : TransferDirection
  pub source_path : String
  pub destination_path : String
  pub total_bytes : ℕ
  pub confined : Option ConfinedDownloadPaths

pub record Progress (N : Type 0) : Type 0 where
  pub progress : ℕ
  pub bytes_transferred : ℕ
  pub speed : N
  pub total_bytes : Option ℕ

pub data TransferAction (N : Type 0) : Type 0 where
  enqueue : List EnqueueTransferInput → TransferAction N
  start : String → TransferAction N
  progress : String → Progress N → TransferAction N
  complete : String → TransferAction N
  fail : String → String → TransferAction N
  cancel : String → TransferAction N
  retry : String → TransferAction N
  clear_completed : TransferAction N
  clear_all : TransferAction N
