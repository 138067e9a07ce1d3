-- ===== src/Storage/Secrets.antt =====
-- src/lib/credential-crypto.ts and the secrets of a saved connection in src/lib/connection-storage.ts:
-- which texts are sealed, what is stripped before a write, and the two passes that seal and open them.
-- `seal` and `reveal` are the backend's commands `credential_seal` and `credential_open`, `none` where
-- the call fails.
use r_shell.Prelude.{
  Bool, List, Option, String, [], any, eqb, false, if◌then◌else◌, in_set, is_some, none, not, some,
  starts_with, true, ℕ, ◌&&◌, ◌+◌, ◌==◌, ◌||◌, ◌∷◌,
}
use r_shell.Storage.Types.{
  AuthMethod, ConnectionData, Secrets, anonymous, keyboard_interactive, with_password,
  with_publickey,
}

-- The number of colons.
colons : String → ℕ
colons String.[] = 0
colons (String.◌∷◌ c s) = (if String.◌∷◌ c String.[] == ":" then 1 else 0) + colons s

-- `text.split(':').length`
unfoldable pub parts : String → ℕ
unfolding colons
parts s = colons s + 1

unfoldable pub is_sealed : String → Bool
is_sealed s = starts_with "v1:" s && eqb (parts s) 3

unfoldable pub is_legacy_plaintext : Option String → Bool
is_legacy_plaintext none = false
is_legacy_plaintext (some s) = not (s == "") && not (is_sealed s)

-- The same change at each field of `SECRET_FIELDS`.
unfoldable pub each_secret : (Option String → Option String) → Secrets → Secrets
each_secret f s = record {
  password = f s.password;
  passphrase = f s.passphrase;
  proxy_password = f s.proxy_password;
  vnc_password = f s.vnc_password;
  tunnel_password = f s.tunnel_password;
  tunnel_passphrase = f s.tunnel_passphrase;
}

unfoldable pub stripped_field : Bool → Option String → Option String
stripped_field protected_record value =
    if is_legacy_plaintext value && not protected_record then none else value

unfoldable pub strip_unencrypted_secrets : List String → ConnectionData → ConnectionData
strip_unencrypted_secrets seal_failed connection = record connection {
  secrets = each_secret (stripped_field (in_set connection.id seal_failed)) connection.secrets;
}

-- `data.authMethod || 'password'`
chosen_method : Option AuthMethod → AuthMethod
chosen_method none = with_password
chosen_method (some m) = m

unfoldable pub connection_has_credentials : ConnectionData → Bool
unfolding chosen_method
connection_has_credentials connection =
    let method = chosen_method connection.auth_method in
    if connection.protocol == "RDP" || connection.protocol == "VNC" then true else elim method [
      | with_password ↦ is_some connection.secrets.password
      | with_publickey ↦ true
      | anonymous ↦ connection.protocol == "SFTP" || connection.protocol == "FTP"
      | keyboard_interactive ↦ false
    ]

-- `SECRET_FIELDS.some((f) => isLegacyPlaintext(c[f]))`
unfoldable pub has_plaintext : Secrets → Bool
has_plaintext s = any is_legacy_plaintext (
    s.password ∷ s.passphrase ∷ s.proxy_password ∷ s.vnc_password ∷ s.tunnel_password
    ∷ s.tunnel_passphrase ∷ [])

-- How far `sealLegacySecrets` is: `migrated`, and whether a call of the backend has thrown.
pub record Sealing : Type 0 where
  pub migrated : Bool
  pub failed : Bool

module _ (seal : String → Option String) where
  unfoldable pub seal_field : Option String → Sealing → Option String × Sealing
  seal_field none st = (none, st)
  seal_field (some s) st =
      if not st.failed && is_legacy_plaintext (some s)
      then elim (seal s) [
        | some sealed ↦ (some sealed, record st { migrated = true })
        | none ↦ (some s, record st { failed = true })
      ]
      else (some s, st)

  unfoldable pub seal_legacy_secrets : Secrets → Secrets × Sealing
  seal_legacy_secrets s =
      let a = seal_field s.password (record { migrated = false; failed = false }) in
      let b = seal_field s.passphrase a.1 in
      let c = seal_field s.proxy_password b.1 in
      let d = seal_field s.vnc_password c.1 in
      let e = seal_field s.tunnel_password d.1 in
      let f = seal_field s.tunnel_passphrase e.1 in
      (
        record {
          password = a.0;
          passphrase = b.0;
          proxy_password = c.0;
          vnc_password = d.0;
          tunnel_password = e.0;
          tunnel_passphrase = f.0;
        },
        f.1,
      )

module _ (reveal : String → Option String) where
  unfoldable pub open_field : Option String → Option String
  open_field none = none
  open_field (some s) =
      if is_sealed s then elim (reveal s) [ some plain ↦ some plain | none ↦ some s ] else some s

  unfoldable pub open_connection_secrets : Secrets → Secrets
  open_connection_secrets s = each_secret open_field s
