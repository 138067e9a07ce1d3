-- ===== src/Connect/Settings.antt =====
-- The settings that a connection request reads from local storage: `getConnectionTimeoutSetting` of
-- src/lib/ssh-connect-request.ts and `getHostKeyPolicy` of src/lib/host-key.ts. The stored text is an
-- argument (`none` when there is none, or when the storage throws), and so is `JSON.parse`, whose
-- exception is `none`.
use r_shell.Prelude.{Option, String, false, if◌then◌else◌, leb, none, pos, some, ℕ, ◌&&◌, ◌==◌}
use r_shell.Json.{Json, boolean, integer, member, object}

pub data HostKeyPolicy : Type 0 where
  strict accept_new off : HostKeyPolicy

unfoldable pub timeout_in_range : Option Json → Option ℕ
timeout_in_range (some (integer (pos n))) = if leb 5 n && leb n 120 then some n else none
timeout_in_range _ = none

unfoldable pub policy_of : Option Json → HostKeyPolicy
policy_of (some (boolean false)) = off
policy_of _ = strict

module _ (parse : String → Option Json) where
  -- A property of the parsed settings, if these are an object.
  pub read_setting : Option String → String → Option Json
  read_setting none key = none
  read_setting (some raw) key =
      if raw == "" then none else elim (parse raw) [ some (object ms) ↦ member key ms | _ ↦ none ]

  unfoldable pub get_connection_timeout_setting : Option String → Option ℕ
  unfolding read_setting timeout_in_range
  get_connection_timeout_setting raw = timeout_in_range (read_setting raw "connectionTimeout")

  unfoldable pub get_host_key_policy : Option String → HostKeyPolicy
  unfolding read_setting policy_of
  get_host_key_policy raw = policy_of (read_setting raw "hostKeyVerification")
