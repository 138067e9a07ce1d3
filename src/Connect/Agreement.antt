-- ===== src/Connect/Agreement.antt =====
-- The SSH and the SFTP request of src/lib/ssh-connect-request.ts for one connection.
use r_shell.Prelude.{Option, String, arith, eq_iff, none, or_else, refl, some, ◌≡◌}
use r_shell.Connect.Request.{
  SftpConnectRequest, SshConnectRequest, SshConnectRequestSource, build_sftp_connect_request,
  build_ssh_connect_request, non_empty,
}
use r_shell.Json.{Json}

-- Two requests to one server by the same way.
pub record Agrees (ssh : SshConnectRequest) (sftp : SftpConnectRequest) : Type 0 where
  pub endpoint :
      (ssh.connection_id ≡ sftp.connection_id)
      × (ssh.host ≡ sftp.host)
      × (ssh.port ≡ sftp.port)
      × (ssh.username ≡ sftp.username)
  pub identity :
      (ssh.auth_method ≡ sftp.auth_method)
      × (ssh.key_path ≡ sftp.key_path)
      × (ssh.passphrase ≡ sftp.passphrase)
      × (or_else ssh.password "" ≡ sftp.password)
  pub limits :
      (ssh.host_key_policy ≡ sftp.host_key_policy) × (ssh.connect_timeout ≡ sftp.connect_timeout)
  pub jump :
      (ssh.tunnel_enabled ≡ sftp.tunnel_enabled)
      × (ssh.tunnel_host ≡ sftp.tunnel_host)
      × (ssh.tunnel_port ≡ sftp.tunnel_port)
      × (ssh.tunnel_username ≡ sftp.tunnel_username)
  pub jump_identity :
      (ssh.tunnel_auth_method ≡ sftp.tunnel_auth_method)
      × (ssh.tunnel_password ≡ sftp.tunnel_password)
      × (ssh.tunnel_key_path ≡ sftp.tunnel_key_path)
      × (ssh.tunnel_passphrase ≡ sftp.tunnel_passphrase)

password_agrees : (o : Option String) → or_else o "" ≡ or_else (non_empty o) ""
unfolding non_empty
password_agrees none = refl
password_agrees (some value) = ground (arith, eq_iff value "")

module _ (parse : String → Option Json) (settings : Option String) where
  -- For one connection, the SFTP request goes to the host, with the identity, under the host-key
  -- policy and through the jump host of the SSH request; the passwords differ only where the SSH
  -- request has none, for which the SFTP request has the empty one.
  pub sftp_request-Agrees :
      (id : String) (source : SshConnectRequestSource)
      → Agrees
          (build_ssh_connect_request parse settings id source)
          (build_sftp_connect_request parse settings id source.endpoint)
  unfolding build_ssh_connect_request build_sftp_connect_request
  sftp_request-Agrees id source = record {
    endpoint = (refl, refl, refl, refl);
    identity = (refl, refl, refl, password_agrees source.endpoint.password);
    limits = (refl, refl);
    jump = (refl, refl, refl, refl);
    jump_identity = (refl, refl, refl, refl);
  }
