-- ===== src/Storage/Types.antt =====
-- The records of src/lib/connection-storage.ts, and the browser storage that holds them. A key's text
-- is kept as what `JSON.parse` makes of it: `Stored`. Ports and orders are natural numbers.
use r_shell.Prelude.{Bool, List, Option, String, ℕ}
use r_shell.Json.{Json}

pub data AuthMethod : Type 0 where
  with_password with_publickey keyboard_interactive anonymous : AuthMethod

pub data ProxyType : Type 0 where
  no_proxy http_proxy socks4 socks5 : ProxyType

pub data TunnelAuthMethod : Type 0 where
  tunnel_by_password tunnel_by_publickey : TunnelAuthMethod

pub record X11Config : Type 0 where
  pub enabled : Bool
  pub display : Option String

-- The fields of `SECRET_FIELDS`.
pub record Secrets : Type 0 where
  pub password : Option String
  pub passphrase : Option String
  pub proxy_password : Option String
  pub vnc_password : Option String
  pub tunnel_password : Option String
  pub tunnel_passphrase : Option String

-- The fields that the storage carries and does not read.
pub record Details : Type 0 where
  pub profile_id : Option String
  pub color : Option String
  pub tags : Option (List String)
  pub description : Option String
  pub private_key_path : Option String
  pub ftps_enabled : Option Bool
  pub ftps_verify_cert : Option Bool
  pub proxy_type : Option ProxyType
  pub proxy_host : Option String
  pub proxy_port : Option ℕ
  pub proxy_username : Option String
  pub tunnel_enabled : Option Bool
  pub tunnel_host : Option String
  pub tunnel_port : Option ℕ
  pub tunnel_username : Option String
  pub tunnel_auth_method : Option TunnelAuthMethod
  pub tunnel_key_path : Option String
  pub domain : Option String
  pub rdp_resolution : Option String
  pub vnc_color_depth : Option String
  pub compression : Option Bool
  pub keep_alive : Option Bool
  pub keep_alive_interval : Option ℕ
  pub server_alive_count_max : Option ℕ
  pub x11 : Option X11Config

pub record ConnectionData : Type 0 where
  pub id : String
  pub name : String
  pub host : String
  pub port : ℕ
  pub username : String
  pub protocol : String
  pub folder : Option String
  pub created_at : String
  pub last_connected : Option String
  pub favorite : Option Bool
  pub auth_method : Option AuthMethod
  pub sort_order : Option ℕ
  pub secrets : Secrets
  pub details : Details

pub record ConnectionFolder : Type 0 where
  pub id : String
  pub name : String
  pub path : String
  pub parent_path : Option String
  pub created_at : String
  pub sort_order : Option ℕ

-- What a key holds: no text, a text that `JSON.parse` rejects, another value than an array, an array.
pub data Stored (A : Type 0) : Type 0 where
  absent : Stored A
  malformed : String → Stored A
  other_value : Json → Stored A
  entries : List A → Stored A

pub data StorageKey : Type 0 where
  connections_key folders_key : StorageKey

pub record Backup : Type 0 where
  pub backup_key : String
  pub copy : Json

-- The storage with the module's own sets: `corruptedKeys` as a flag for each key, `sealFailedIds`,
-- whether `localStorage` can be read at all, and the keys of older versions.
pub record Store : Type 0 where
  pub connections : Stored ConnectionData
  pub folders : Stored ConnectionFolder
  pub backups : List Backup
  pub connections_corrupt : Bool
  pub folders_corrupt : Bool
  pub seal_failed : List String
  pub readable : Bool
  pub legacy_sessions : Stored ConnectionData
  pub legacy_folders : Stored ConnectionFolder

-- What a call takes from outside: `Date.now()`, `new Date().toISOString()`, and the results of
-- `crypto.randomUUID()` in their order.
pub record Outside : Type 0 where
  pub now : ℕ
  pub iso : String
  pub uuid : ℕ → String
