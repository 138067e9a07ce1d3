-- ===== src/Storage/Migration.antt =====
-- The start of src/App.tsx, which seals the secrets that older versions have stored as plaintext, over
-- src/lib/connection-storage.ts. The calls of the backend are answered one after the other.
use r_shell.Prelude.{List, Option, String, [], filter, if◌then◌else◌, true, ℕ, ◌∷◌}
use r_shell.Storage.Connections.{
  FieldUpdate, auth_method_to, created_at_to, details_to, favorite_to, folder_to, host_to,
  last_connected_to, name_to, port_to, protocol_to, secrets_to, sort_order_to, update_connection,
  username_to,
}
use r_shell.Storage.Guarded.{clear_seal_failed, get_connections, mark_seal_failed}
use r_shell.Storage.Secrets.{has_plaintext, seal_legacy_secrets}
use r_shell.Storage.Types.{ConnectionData, Store, entries}

-- A connection as the argument `updates`.
unfoldable pub as_updates : ConnectionData → List FieldUpdate
as_updates c =
    name_to c.name
    ∷ host_to c.host
    ∷ username_to c.username
    ∷ protocol_to c.protocol
    ∷ created_at_to c.created_at
    ∷ port_to c.port
    ∷ folder_to c.folder
    ∷ last_connected_to c.last_connected
    ∷ favorite_to c.favorite
    ∷ auth_method_to c.auth_method
    ∷ sort_order_to c.sort_order
    ∷ secrets_to c.secrets
    ∷ details_to c.details
    ∷ []

module _ (seal : String → Option String) where
  -- The body of the loop over the connections with plaintext.
  unfoldable pub migrate_connection : ℕ → ConnectionData → Store → Store
  unfolding seal_legacy_secrets clear_seal_failed mark_seal_failed update_connection as_updates
  migrate_connection now c st =
      let r = seal_legacy_secrets seal c.secrets in
      let sealed = record c { secrets = r.0 } in
      if r.1.failed
      then mark_seal_failed c.id st
      else if r.1.migrated
      then (update_connection now c.id (as_updates sealed) (clear_seal_failed c.id st)).1
      else st

  unfoldable pub migrate_each : ℕ → List ConnectionData → Store → Store
  unfolding migrate_connection
  migrate_each now [] st = st
  migrate_each now (c ∷ cs) st = migrate_each now cs (migrate_connection now c st)

  unfoldable pub migrate_legacy_secrets : ℕ → Store → Store
  unfolding get_connections has_plaintext migrate_each
  migrate_legacy_secrets now st =
      let read = get_connections now st in
      migrate_each now (filter (λ (c : ConnectionData). has_plaintext c.secrets) read.0) read.1

-- A store whose array of connections can be read, where no sealing has failed.
abbrev pub with_connections : List ConnectionData → Store → Store
with_connections cs st = record st { readable = true; connections = entries cs; seal_failed = [] }
