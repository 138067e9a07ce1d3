-- ===== src/Storage/Examples.antt =====
-- Stores of src/lib/connection-storage.ts, and what the calls make of them.
mod Moves
mod Sealed
use r_shell.Prelude.{
  List, String, [], all, any, concat, false, find, none, refl, show, some, true, ℕ, ◌∷◌, ◌≡◌,
}
use r_shell.Storage.Calls.{StorageCall, move_folder, save, start}
use r_shell.Storage.Guard.{IsSafe, run_all, run_all-IsSafe, unreadable_kept}
use r_shell.Storage.Kept.{is_legacy_safe, is_safe, is_unreadable}
use r_shell.Storage.Secrets.{has_plaintext, is_legacy_plaintext}
use r_shell.Storage.Sessions.{clear_all, initialize}
use r_shell.Storage.Types.{
  ConnectionData, ConnectionFolder, Details, Outside, Secrets, Store, absent, entries, malformed,
}

abbrev pub no_secrets : Secrets
no_secrets = record {
  password = none;
  passphrase = none;
  proxy_password = none;
  vnc_password = none;
  tunnel_password = none;
  tunnel_passphrase = none;
}

abbrev pub no_details : Details
no_details = record {
  profile_id = none;
  color = none;
  tags = none;
  description = none;
  private_key_path = none;
  ftps_enabled = none;
  ftps_verify_cert = none;
  proxy_type = none;
  proxy_host = none;
  proxy_port = none;
  proxy_username = none;
  tunnel_enabled = none;
  tunnel_host = none;
  tunnel_port = none;
  tunnel_username = none;
  tunnel_auth_method = none;
  tunnel_key_path = none;
  domain = none;
  rdp_resolution = none;
  vnc_color_depth = none;
  compression = none;
  keep_alive = none;
  keep_alive_interval = none;
  server_alive_count_max = none;
  x11 = none;
}

abbrev pub saved_host : String → String → Secrets → ConnectionData
saved_host id folder secrets = record {
  id = id;
  name = id;
  host = "example.org";
  port = 22;
  username = "root";
  protocol = "SSH";
  folder = some folder;
  created_at = "2024-01-01";
  last_connected = none;
  favorite = none;
  auth_method = none;
  sort_order = none;
  secrets = secrets;
  details = no_details;
}

abbrev pub folder_at : String → String → String → ConnectionFolder
folder_at id parent name = record {
  id = id;
  name = name;
  path = concat parent (concat "/" name);
  parent_path = some parent;
  created_at = "2024-01-01";
  sort_order = none;
}

abbrev pub top_folder : ConnectionFolder
top_folder = record {
  id = "f0";
  name = "All Connections";
  path = "All Connections";
  parent_path = none;
  created_at = "2024-01-01";
  sort_order = none;
}

abbrev pub empty_store : Store
empty_store = record {
  connections = absent;
  folders = absent;
  backups = [];
  connections_corrupt = false;
  folders_corrupt = false;
  seal_failed = [];
  readable = true;
  legacy_sessions = absent;
  legacy_folders = absent;
}

abbrev pub outside_at : ℕ → Outside
outside_at now = record { now = now; iso = "2024-06-01"; uuid = λ n. show n }

abbrev some_calls : List (Outside × StorageCall)
some_calls =
    (outside_at 1, start)
    ∷ (outside_at 2, save (saved_host "a" "Work" (record no_secrets { password = some "secret" })))
    ∷ (outside_at 3, move_folder "All Connections/Work" none)
    ∷ []

-- The connections are a text that does not parse.
abbrev broken_store : Store
broken_store = record empty_store { connections = malformed "[{" }

unreadable_kept_example :
    ((is_unreadable broken_store.readable broken_store.connections ≡ true)
      → (run_all some_calls broken_store).connections ≡ malformed "[{")
    × ((is_unreadable broken_store.readable broken_store.folders ≡ true)
        → (run_all some_calls broken_store).folders ≡ absent)
unreadable_kept_example = unreadable_kept some_calls broken_store

broken_kept : (run_all some_calls broken_store).connections ≡ malformed "[{"
unfolding is_unreadable
broken_kept = (unreadable_kept some_calls broken_store).0 refl

-- A store of an older version, whose session has no password.
abbrev old_store : Store
old_store = record empty_store {
  legacy_sessions = entries (saved_host "o" "All Sessions/Work" no_secrets ∷ []);
}

old-IsSafe : IsSafe old_store
unfolding is_legacy_safe is_safe has_plaintext is_legacy_plaintext all any
old-IsSafe = record { safe = λ cs e. cc; legacy = refl }

run_all-IsSafe_example : IsSafe (run_all some_calls old_store)
run_all-IsSafe_example = run_all-IsSafe some_calls old_store old-IsSafe

-- The start takes the sessions over with their plaintext, and clearing brings them back.
abbrev plain_sessions : String → List ConnectionData
plain_sessions folder = saved_host "p" folder (record no_secrets { password = some "secret" }) ∷ []

abbrev plain_store : Store
plain_store = record empty_store {
  legacy_sessions = entries (plain_sessions "All Sessions/All Sessions");
}

taken_over :
    (initialize (outside_at 1) plain_store).connections
    ≡ entries (plain_sessions "All Connections/All Connections")
unfolding initialize r_shell.Prelude.find
taken_over = refl

brought_back :
    (clear_all (outside_at 1) plain_store).connections
    ≡ entries (plain_sessions "All Connections/All Connections")
unfolding clear_all r_shell.Prelude.find
brought_back = refl
