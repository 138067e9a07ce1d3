-- ===== src/Connect/Coherence.antt =====
-- What the requests of src/lib/ssh-connect-request.ts promise to the backend.
use r_shell.Prelude.{
  Bool, Bool-cases, Option, String, arith, eq_iff, false, inl, inr, is_some, leb, negsuc, none, not,
  or_else, pos, refl, some, true, ℕ, ◌&&◌, ◌==◌, ◌∙◌, ◌≡◌, ◌≢◌, ◌≤◌,
}
use r_shell.Connect.Request.{
  SshConnectRequest, SshConnectRequestSource, build_ssh_connect_request, non_empty, only_if,
  port_or_default,
}
use r_shell.Connect.Settings.{
  accept_new, get_connection_timeout_setting, get_host_key_policy, policy_of, read_setting,
  timeout_in_range,
}
use r_shell.Json.{Json, array, boolean, fraction, integer, null, object, text}

-- A field that is sent is not the empty text.
abbrev pub IsFilled : Option String → Type 0
IsFilled none = Unit
IsFilled (some value) = (value == "") ≡ false

-- The fields of a jump host: all absent without one, and with one at least a way to log in.
pub record IsTunnel (on : Bool) (host : Option String) (port : Option ℕ)
    (username method password key_path passphrase : Option String) : Type 0 where
  pub absent :
      on ≡ false
      → (host ≡ none)
        × (port ≡ none)
        × (username ≡ none)
        × (method ≡ none)
        × (password ≡ none)
        × (key_path ≡ none)
        × (passphrase ≡ none)
  pub login : on ≡ true → is_some method ≡ true
  pub filled : IsFilled host × IsFilled method × IsFilled password × IsFilled key_path

abbrev pub InRange : Option ℕ → Type 0
InRange none = Unit
InRange (some n) = (5 ≤ n) × (n ≤ 120)

pub record IsCoherent (r : SshConnectRequest) : Type 0 where
  pub port_set : 1 ≤ r.port
  pub method_set : (r.auth_method == "") ≡ false
  pub policy : r.host_key_policy ≢ accept_new
  pub timeout : InRange r.connect_timeout
  pub key : IsFilled r.key_path × IsFilled r.passphrase
  pub keepalive :
      (is_some r.keepalive_interval ≡ r.keepalive_enabled)
      × (is_some r.keepalive_max ≡ r.keepalive_enabled)
  pub no_proxy :
      r.proxy_type ≡ "none"
      → (r.proxy_host ≡ none)
        × (r.proxy_port ≡ none)
        × (r.proxy_username ≡ none)
        × (r.proxy_password ≡ none)
  pub tunnel :
      IsTunnel r.tunnel_enabled r.tunnel_host r.tunnel_port r.tunnel_username r.tunnel_auth_method
        r.tunnel_password r.tunnel_key_path r.tunnel_passphrase

non_empty-IsFilled : (o : Option String) → IsFilled (non_empty o)
unfolding non_empty
non_empty-IsFilled none = tt
non_empty-IsFilled (some value) = elim (Bool-cases (value == "")) [
  | inl e ↦ rw e tt
  | inr e ↦ rw e e
]

only_if-IsFilled : (b : Bool) (o : Option String) → IsFilled o → IsFilled (only_if b o)
unfolding only_if
only_if-IsFilled true o h = h
only_if-IsFilled false o h = tt

method_filled : (o : Option String) → IsFilled o → (or_else o "password" == "") ≡ false
method_filled none h = refl
method_filled (some value) h = h

is_some-only_if {ℓ} : {A : Type ℓ} (b : Bool) (n : A) → is_some (only_if b (some n)) ≡ b
unfolding only_if
is_some-only_if true n = refl
is_some-only_if false n = refl

only_if-none {ℓ} : {A : Type ℓ} (b : Bool) (o : Option A) → b ≡ false → only_if b o ≡ none
unfolding only_if
only_if-none b o e = rw e refl

tunnel_lem :
    (on : Bool) (host : Option String) (port : Option ℕ)
    (username method password key_path passphrase : Option String)
    → IsTunnel on
        (only_if on (non_empty host))
        (only_if on port)
        (only_if on (non_empty username))
        (only_if on (some (or_else (non_empty method) "password")))
        (only_if on (non_empty password))
        (only_if on (non_empty key_path))
        (only_if on (non_empty passphrase))
tunnel_lem on host port username method password key_path passphrase = record {
  absent = λ e. (
    only_if-none on _ e,
    only_if-none on _ e,
    only_if-none on _ e,
    only_if-none on _ e,
    only_if-none on _ e,
    only_if-none on _ e,
    only_if-none on _ e,
  );
  login = λ e. is_some-only_if on _ ∙ e;
  filled = (
    only_if-IsFilled on _ (non_empty-IsFilled host),
    only_if-IsFilled on _ (method_filled (non_empty method) (non_empty-IsFilled method)),
    only_if-IsFilled on _ (non_empty-IsFilled password),
    only_if-IsFilled on _ (non_empty-IsFilled key_path),
  );
}

port_positive : (n : ℕ) → 1 ≤ port_or_default n
unfolding port_or_default
port_positive n = ground arith

timeout-InRange : (o : Option Json) → InRange (timeout_in_range o)
unfolding timeout_in_range
timeout-InRange none = tt
timeout-InRange (some null) = tt
timeout-InRange (some (boolean b)) = tt
timeout-InRange (some (integer (pos n))) = elim (Bool-cases (leb 5 n && leb n 120)) [
  | inl e ↦ rw e (ground arith, ground arith)
  | inr e ↦ rw e tt
]
timeout-InRange (some (integer (negsuc n))) = tt
timeout-InRange (some (fraction t)) = tt
timeout-InRange (some (text t)) = tt
timeout-InRange (some (array es)) = tt
timeout-InRange (some (object ms)) = tt

proxy_off : (kind : String) → kind ≡ "none" → not (kind == "none") ≡ false
proxy_off kind e = ground (arith, eq_iff kind "none", e)

off_or_strict : (o : Option Json) → policy_of o ≢ accept_new
unfolding policy_of
off_or_strict none e = cc
off_or_strict (some null) e = cc
off_or_strict (some (boolean true)) e = cc
off_or_strict (some (boolean false)) e = cc
off_or_strict (some (integer n)) e = cc
off_or_strict (some (fraction t)) e = cc
off_or_strict (some (text t)) e = cc
off_or_strict (some (array es)) e = cc
off_or_strict (some (object ms)) e = cc

module _ (parse : String → Option Json) (settings : Option String) where
  -- The SSH request of any source: its port and its method of authentication are set; verification of
  -- the host key is strict or off; a time limit lies between 5 and 120 seconds; the texts that name
  -- keys are absent rather than empty; the two keep-alive fields are sent just when keep-alive is on;
  -- without a proxy no field of a proxy is sent, and without a jump host none of a jump host; with a
  -- jump host, its method of authentication is sent.
  pub build_ssh_connect_request-IsCoherent :
      (id : String) (source : SshConnectRequestSource)
      → IsCoherent (build_ssh_connect_request parse settings id source)
  unfolding build_ssh_connect_request get_host_key_policy get_connection_timeout_setting
  build_ssh_connect_request-IsCoherent id source = record {
    port_set = port_positive source.endpoint.port;
    method_set = method_filled _ (non_empty-IsFilled source.endpoint.auth_method);
    policy = off_or_strict _;
    timeout = timeout-InRange (read_setting parse settings "connectionTimeout");
    key = (
      non_empty-IsFilled source.endpoint.private_key_path,
      non_empty-IsFilled source.endpoint.passphrase,
    );
    keepalive = (
      is_some-only_if (or_else source.keep_alive true) _,
      is_some-only_if (or_else source.keep_alive true) _,
    );
    no_proxy = λ e. (
      only_if-none _ _ (proxy_off _ e),
      only_if-none _ _ (proxy_off _ e),
      only_if-none _ _ (proxy_off _ e),
      only_if-none _ _ (proxy_off _ e),
    );
    tunnel =
        tunnel_lem (or_else source.endpoint.tunnel_enabled false) source.endpoint.tunnel_host
          source.endpoint.tunnel_port source.endpoint.tunnel_username
          source.endpoint.tunnel_auth_method source.endpoint.tunnel_password
          source.endpoint.tunnel_key_path source.endpoint.tunnel_passphrase;
  }
