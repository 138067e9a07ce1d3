-- ===== src/Storage/Found.antt =====
-- Looking up a connection of src/lib/connection-storage.ts behind the changes that the calls make to
-- the array.
use mathlib.Core.Option
use r_shell.Prelude.{
  Bool, Bool-cases, List, Option, String, [], all, any, ap, arith, both_hold, eq_iff, false, filter,
  find, if◌then◌else◌, in_set, inl, inr, is_false_of, is_some, map, neither, none, not, refl, some,
  true, ◌++◌, ◌==◌, ◌||◌, ◌∙◌, ◌∷◌, ◌≡◌,
}
use r_shell.Storage.Connections.{find_connection, has_id, update_first}
use r_shell.Storage.Kept.{is_safe}
use r_shell.Storage.Secrets.{
  each_secret, has_plaintext, is_legacy_plaintext, strip_unencrypted_secrets, stripped_field,
}
use r_shell.Storage.Types.{ConnectionData, Secrets}

-- A text that is `k` and not `id` sets the two apart.
apart : (x id k : String) → (x == id) ≡ false → (x == k) ≡ true → (id == k) ≡ false
apart x id k e l = ground (arith, e, l, eq_iff x id, eq_iff x k, eq_iff id k)

pub find_connection-update_first :
    (k id : String) (f : ConnectionData → ConnectionData) (cs : List ConnectionData)
    → ((c : ConnectionData) → c.id ≡ id → (f c).id ≡ id)
    → find_connection k (update_first (has_id id) f cs)
      ≡ (if id == k then Option.map f (find_connection k cs) else find_connection k cs)
unfolding find_connection find update_first
find_connection-update_first k id f [] h = ground arith
find_connection-update_first k id f (c ∷ cs) h =
    let later = find_connection-update_first k id f cs h in
    elim (Bool-cases (c.id == id)) [
      | inl e ↦
          let same = (eq_iff c.id id).0 e in
          let kept = h c same in
          elim (Bool-cases (id == k)) [
            | inl l ↦
                rw (update_first, e, l, find, ap (λ x. x == k) kept ∙ l, ap (λ x. x == k) same ∙ l)
                  refl
            | inr l ↦
                rw (update_first, e, l, find, ap (λ x. x == k) kept ∙ l, ap (λ x. x == k) same ∙ l)
                  refl
          ]
      | inr e ↦ elim (Bool-cases (c.id == k)) [
        | inl l ↦ rw (update_first, e, find, l, apart c.id id k e l) refl
        | inr l ↦ rw (update_first, e, find, l) later
      ]
    ]

pub find_connection-append :
    (k : String) (cs : List ConnectionData) (c : ConnectionData)
    → find_connection k (cs ++ (c ∷ [])) ≡ (
        if is_some (find_connection k cs)
        then find_connection k cs
        else if c.id == k
        then some c
        else none)
unfolding find_connection find
find_connection-append k [] c = refl
find_connection-append k (d ∷ cs) c = elim (Bool-cases (d.id == k)) [
  | inl e ↦ rw (find, e) refl
  | inr e ↦ rw (find, e) (find_connection-append k cs c)
]

pub find_connection-remove :
    (k id : String) (cs : List ConnectionData)
    → find_connection k (filter (λ c. not (has_id id c)) cs)
      ≡ (if id == k then none else find_connection k cs)
unfolding find_connection find filter
find_connection-remove k id [] = ground arith
find_connection-remove k id (c ∷ cs) =
    let later = find_connection-remove k id cs in
    elim (Bool-cases (c.id == id)) [
      | inl e ↦ elim (Bool-cases (id == k)) [
        | inl l ↦ rw (filter, e) (later ∙ rw l refl)
        | inr l ↦ rw (filter, e, find, ap (λ x. x == k) ((eq_iff c.id id).0 e) ∙ l) later
      ]
      | inr e ↦ elim (Bool-cases (c.id == k)) [
        | inl l ↦ rw (filter, e, find, l, apart c.id id k e l) refl
        | inr l ↦ rw (filter, e, find, l) later
      ]
    ]

pub find_connection-strip :
    (k : String) (sf : List String) (cs : List ConnectionData)
    → find_connection k (map (strip_unencrypted_secrets sf) cs)
      ≡ Option.map (strip_unencrypted_secrets sf) (find_connection k cs)
unfolding find_connection find strip_unencrypted_secrets
find_connection-strip k sf [] = refl
find_connection-strip k sf (c ∷ cs) = elim (Bool-cases (c.id == k)) [
  | inl e ↦ rw (find, e) refl
  | inr e ↦ rw (find, e) (find_connection-strip k sf cs)
]

stripped_field-safe :
    (p : Bool) (v : Option String) → is_legacy_plaintext v ≡ false → stripped_field p v ≡ v
unfolding stripped_field
stripped_field-safe p v h = rw h refl

stripped_field-protected : (v : Option String) → stripped_field true v ≡ v
unfolding stripped_field
stripped_field-protected v = elim (Bool-cases (is_legacy_plaintext v)) [
  | inl e ↦ rw e refl
  | inr e ↦ rw e refl
]

each_secret-protected : (s : Secrets) → each_secret (stripped_field true) s ≡ s
unfolding each_secret
each_secret-protected s =
    rw
      (
        stripped_field-protected s.password,
        stripped_field-protected s.passphrase,
        stripped_field-protected s.proxy_password,
        stripped_field-protected s.vnc_password,
        stripped_field-protected s.tunnel_password,
        stripped_field-protected s.tunnel_passphrase,
      )
      refl

each_secret-safe :
    (s : Secrets) → has_plaintext s ≡ false → each_secret (stripped_field false) s ≡ s
unfolding each_secret has_plaintext any
each_secret-safe s h =
    let is = is_legacy_plaintext in
    let a =
      neither (is s.password)
        (is s.passphrase
          || (is s.proxy_password
              || (is s.vnc_password
                  || (is s.tunnel_password || (is s.tunnel_passphrase || false)))))
        h in
    let b =
      neither (is s.passphrase)
        (is s.proxy_password
          || (is s.vnc_password || (is s.tunnel_password || (is s.tunnel_passphrase || false))))
        a.1 in
    let c =
      neither (is s.proxy_password)
        (is s.vnc_password || (is s.tunnel_password || (is s.tunnel_passphrase || false))) b.1 in
    let d =
      neither (is s.vnc_password) (is s.tunnel_password || (is s.tunnel_passphrase || false)) c.1 in
    let e = neither (is s.tunnel_password) (is s.tunnel_passphrase || false) d.1 in
    let f = neither (is s.tunnel_passphrase) false e.1 in
    rw
      (
        stripped_field-safe false s.password a.0,
        stripped_field-safe false s.passphrase b.0,
        stripped_field-safe false s.proxy_password c.0,
        stripped_field-safe false s.vnc_password d.0,
        stripped_field-safe false s.tunnel_password e.0,
        stripped_field-safe false s.tunnel_passphrase f.0,
      )
      refl

-- A safe connection has nothing that would be stripped.
pub strip_unencrypted_secrets-safe_same :
    (sf : List String) (c : ConnectionData)
    → is_safe sf c ≡ true
    → strip_unencrypted_secrets sf c ≡ c
unfolding is_safe strip_unencrypted_secrets
strip_unencrypted_secrets-safe_same sf c h = elim (Bool-cases (in_set c.id sf)) [
  | inl e ↦ rw (e, each_secret-protected c.secrets) refl
  | inr e ↦
      rw
        (
          e,
          each_secret-safe c.secrets (is_false_of (has_plaintext c.secrets) (rw (is_safe, e) at h)),
        )
        refl
]

pub find_connection-safe :
    (k : String) (sf : List String) (cs : List ConnectionData)
    → all (is_safe sf) cs ≡ true
    → Option.map (strip_unencrypted_secrets sf) (find_connection k cs) ≡ find_connection k cs
unfolding find_connection find all
find_connection-safe k sf [] h = refl
find_connection-safe k sf (c ∷ cs) h =
    let both = both_hold (is_safe sf c) (all (is_safe sf) cs) h in
    elim (Bool-cases (c.id == k)) [
      | inl e ↦ rw (find, e) (ap some (strip_unencrypted_secrets-safe_same sf c both.0))
      | inr e ↦ rw (find, e) (find_connection-safe k sf cs both.1)
    ]
