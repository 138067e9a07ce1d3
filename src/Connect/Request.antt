-- ===== src/Connect/Request.antt =====
-- src/lib/ssh-connect-request.ts: the payloads of `ssh_connect` and `sftp_connect`. Ports, intervals
-- and counts are natural numbers.
use r_shell.Prelude.{
  Bool, Option, String, eqb, false, if◌then◌else◌, none, not, or_else, some, true, ℕ, ◌==◌,
}
use r_shell.Connect.Settings.{HostKeyPolicy, get_connection_timeout_setting, get_host_key_policy}
use r_shell.Json.{Json}

pub record X11Config : Type 0 where
  pub enabled : Bool
  pub display : Option String

pub record SftpConnectRequestSource : Type 0 where
  pub host : String
  pub port : ℕ
  pub username : String
  pub auth_method : Option String
  pub password : Option String
  pub private_key_path : Option String
  pub passphrase : Option String
  pub tunnel_enabled : Option Bool
  pub tunnel_host : Option String
  pub tunnel_port : Option ℕ
  pub tunnel_username : Option String
  pub tunnel_auth_method : Option String
  pub tunnel_password : Option String
  pub tunnel_key_path : Option String
  pub tunnel_passphrase : Option String

-- `endpoint` holds the fields that the source of an SFTP request has too.
pub record SshConnectRequestSource : Type 0 where
  pub endpoint : SftpConnectRequestSource
  pub compression : Option Bool
  pub keep_alive : Option Bool
  pub keep_alive_interval : Option ℕ
  pub server_alive_count_max : Option ℕ
  pub proxy_type : Option String
  pub proxy_host : Option String
  pub proxy_port : Option ℕ
  pub proxy_username : Option String
  pub proxy_password : Option String
  pub x11 : Option X11Config

pub record SshConnectRequest : Type 0 where
  pub connection_id : String
  pub host : String
  pub port : ℕ
  pub username : String
  pub auth_method : String
  pub password : Option String
  pub key_path : Option String
  pub passphrase : Option String
  pub host_key_policy : HostKeyPolicy
  pub connect_timeout : Option ℕ
  pub compression : Bool
  pub keepalive_enabled : Bool
  pub keepalive_interval : Option ℕ
  pub keepalive_max : Option ℕ
  pub proxy_type : String
  pub proxy_host : Option String
  pub proxy_port : Option ℕ
  pub proxy_username : Option String
  pub proxy_password : Option String
  pub tunnel_enabled : Bool
  pub tunnel_host : Option String
  pub tunnel_port : Option ℕ
  pub tunnel_username : Option String
  pub tunnel_auth_method : Option String
  pub tunnel_password : Option String
  pub tunnel_key_path : Option String
  pub tunnel_passphrase : Option String
  pub x11 : Option X11Config

pub record SftpConnectRequest : Type 0 where
  pub connection_id : String
  pub host : String
  pub port : ℕ
  pub username : String
  pub auth_method : String
  pub password : String
  pub key_path : Option String
  pub passphrase : Option String
  pub host_key_policy : HostKeyPolicy
  pub connect_timeout : Option ℕ
  pub tunnel_enabled : Bool
  pub tunnel_host : Option String
  pub tunnel_port : Option ℕ
  pub tunnel_username : Option String
  pub tunnel_auth_method : Option String
  pub tunnel_password : Option String
  pub tunnel_key_path : Option String
  pub tunnel_passphrase : Option String

-- `value || null`
unfoldable pub non_empty : Option String → Option String
non_empty none = none
non_empty (some value) = if value == "" then none else some value

-- `enabled ? value : null`
unfoldable pub only_if {ℓ} : {A : Type ℓ} → Bool → Option A → Option A
only_if true value = value
only_if false value = none

-- `port || 22`
unfoldable pub port_or_default : ℕ → ℕ
port_or_default port = if eqb port 0 then 22 else port

module _ (parse : String → Option Json) (settings : Option String) where
  unfoldable pub build_ssh_connect_request : String → SshConnectRequestSource → SshConnectRequest
  unfolding non_empty only_if port_or_default
  build_ssh_connect_request connection_id source =
      let keep_alive = or_else source.keep_alive true in
      let proxy_type = or_else source.proxy_type "none" in
      let proxy_enabled = not (proxy_type == "none") in
      let common = source.endpoint in
      let tunnel = or_else common.tunnel_enabled false in
      record {
        connection_id = connection_id;
        host = common.host;
        port = port_or_default common.port;
        username = common.username;
        auth_method = or_else (non_empty common.auth_method) "password";
        password = common.password;
        key_path = non_empty common.private_key_path;
        passphrase = non_empty common.passphrase;
        host_key_policy = get_host_key_policy parse settings;
        connect_timeout = get_connection_timeout_setting parse settings;
        compression = or_else source.compression true;
        keepalive_enabled = keep_alive;
        keepalive_interval = only_if keep_alive (some (or_else source.keep_alive_interval 60));
        keepalive_max = only_if keep_alive (some (or_else source.server_alive_count_max 3));
        proxy_type = proxy_type;
        proxy_host = only_if proxy_enabled (non_empty source.proxy_host);
        proxy_port = only_if proxy_enabled source.proxy_port;
        proxy_username = only_if proxy_enabled (non_empty source.proxy_username);
        proxy_password = only_if proxy_enabled (non_empty source.proxy_password);
        tunnel_enabled = tunnel;
        tunnel_host = only_if tunnel (non_empty common.tunnel_host);
        tunnel_port = only_if tunnel common.tunnel_port;
        tunnel_username = only_if tunnel (non_empty common.tunnel_username);
        tunnel_auth_method =
            only_if tunnel (some (or_else (non_empty common.tunnel_auth_method) "password"));
        tunnel_password = only_if tunnel (non_empty common.tunnel_password);
        tunnel_key_path = only_if tunnel (non_empty common.tunnel_key_path);
        tunnel_passphrase = only_if tunnel (non_empty common.tunnel_passphrase);
        x11 = source.x11;
      }

  unfoldable pub build_sftp_connect_request : String → SftpConnectRequestSource → SftpConnectRequest
  unfolding non_empty only_if port_or_default
  build_sftp_connect_request connection_id source =
      let tunnel = or_else source.tunnel_enabled false in
      record {
        connection_id = connection_id;
        host = source.host;
        port = port_or_default source.port;
        username = source.username;
        auth_method = or_else (non_empty source.auth_method) "password";
        password = or_else (non_empty source.password) "";
        key_path = non_empty source.private_key_path;
        passphrase = non_empty source.passphrase;
        host_key_policy = get_host_key_policy parse settings;
        connect_timeout = get_connection_timeout_setting parse settings;
        tunnel_enabled = tunnel;
        tunnel_host = only_if tunnel (non_empty source.tunnel_host);
        tunnel_port = only_if tunnel source.tunnel_port;
        tunnel_username = only_if tunnel (non_empty source.tunnel_username);
        tunnel_auth_method =
            only_if tunnel (some (or_else (non_empty source.tunnel_auth_method) "password"));
        tunnel_password = only_if tunnel (non_empty source.tunnel_password);
        tunnel_key_path = only_if tunnel (non_empty source.tunnel_key_path);
        tunnel_passphrase = only_if tunnel (non_empty source.tunnel_passphrase);
      }
