-- ===== src/Storage/Sealing.antt =====
-- The two passes of src/lib/credential-crypto.ts over the secrets of a connection, one after the other
-- and before a write of src/lib/connection-storage.ts.
use r_shell.Prelude.{
  Bool, Bool-cases, Option, Option-cases, String, any, arith, false, impossible, inl, inr, neither,
  none, not, refl, some, sym, true, ◌&&◌, ◌||◌, ◌≡◌,
}
use r_shell.Storage.Secrets.{
  Sealing, each_secret, has_plaintext, is_legacy_plaintext, is_sealed, open_connection_secrets,
  open_field, seal_field, seal_legacy_secrets,
}
use r_shell.Storage.Types.{Secrets}

-- `SECRET_FIELDS.some(…)` for a test that takes a missing field too.
unfoldable pub any_secret : (Option String → Bool) → Secrets → Bool
any_secret p s =
    p s.password
    || p s.passphrase
    || p s.proxy_password
    || p s.vnc_password
    || p s.tunnel_password
    || p s.tunnel_passphrase

unfoldable pub is_sealed_field : Option String → Bool
is_sealed_field none = false
is_sealed_field (some s) = is_sealed s

none_holds :
    (a b c d e f : Bool)
    → (a || b || c || d || e || f) ≡ false
    → (a ≡ false) × ((b ≡ false) × ((c ≡ false) × ((d ≡ false) × ((e ≡ false) × (f ≡ false)))))
none_holds a b c d e f h =
    let p = neither (a || b || c || d || e) f h in
    let q = neither (a || b || c || d) e p.0 in
    let r = neither (a || b || c) d q.0 in
    let s = neither (a || b) c r.0 in
    let t = neither a b s.0 in (t.0, (t.1, (s.1, (r.1, (q.1, p.1)))))

sealed_not_legacy : (z : String) → is_sealed z ≡ true → is_legacy_plaintext (some z) ≡ false
unfolding is_legacy_plaintext
sealed_not_legacy z h = rw h (ground arith)

not_legacy : (failed plain : Bool) → (not failed && plain) ≡ false → failed ≡ false → plain ≡ false
not_legacy true plain h k = cc
not_legacy false plain h k = h

module _ (seal : String → Option String) where
  open_seal_field :
      (reveal : String → Option String)
      → ((s z : String) → seal s ≡ some z → (is_sealed z ≡ true) × (reveal z ≡ some s))
      → (v : Option String) (st : Sealing) → is_sealed_field v ≡ false
      → open_field reveal (seal_field seal v st).0 ≡ v
  unfolding open_field seal_field is_sealed_field
  open_seal_field reveal law none st h = refl
  open_seal_field reveal law (some s) st h =
      elim (Bool-cases (not st.failed && is_legacy_plaintext (some s))) [
        | inl e ↦ elim (Option-cases (seal s)) [
          | inl k ↦ rw (e, k, h) refl
          | inr (z, k) ↦ let w = law s z k in rw (e, k, w.0, w.1) refl
        ]
        | inr e ↦ rw (e, h) refl
      ]

  -- Where no field is sealed, opening the secrets which sealing leaves gives the original secrets,
  -- whether a call of the backend has failed or not. The backend seals a text as a sealed text, which it
  -- opens to the text.
  pub open_connection_secrets-seal_legacy_secrets :
      (reveal : String → Option String)
      → ((s z : String) → seal s ≡ some z → (is_sealed z ≡ true) × (reveal z ≡ some s))
      → (s : Secrets) → any_secret is_sealed_field s ≡ false
      → open_connection_secrets reveal (seal_legacy_secrets seal s).0 ≡ s
  unfolding open_connection_secrets seal_legacy_secrets each_secret any_secret
  open_connection_secrets-seal_legacy_secrets reveal law s h =
      let is = is_sealed_field in
      let n =
        none_holds (is s.password) (is s.passphrase) (is s.proxy_password) (is s.vnc_password)
          (is s.tunnel_password) (is s.tunnel_passphrase) h in
      rw
        (
          open_seal_field reveal law s.password _ n.0,
          open_seal_field reveal law s.passphrase _ n.1.0,
          open_seal_field reveal law s.proxy_password _ n.1.1.0,
          open_seal_field reveal law s.vnc_password _ n.1.1.1.0,
          open_seal_field reveal law s.tunnel_password _ n.1.1.1.1.0,
          open_seal_field reveal law s.tunnel_passphrase _ n.1.1.1.1.1,
        )
        refl

  sealed_field :
      ((s z : String) → seal s ≡ some z → is_sealed z ≡ true)
      → (v : Option String) (st : Sealing) → (seal_field seal v st).1.failed ≡ false
      → (st.failed ≡ false) × (is_legacy_plaintext (seal_field seal v st).0 ≡ false)
  unfolding seal_field is_legacy_plaintext
  sealed_field law none st h = (h, refl)
  sealed_field law (some s) st h =
      elim (Bool-cases (not st.failed && is_legacy_plaintext (some s))) [
        | inl e ↦ elim (Option-cases (seal s)) [
          | inl k ↦ impossible (sym (rw (seal_field, e, k) at h))
          | inr (z, k) ↦ rw (e, k) (rw (seal_field, e, k) at h, sealed_not_legacy z (law s z k))
        ]
        | inr e ↦ rw e (
          rw (seal_field, e) at h,
          not_legacy st.failed (is_legacy_plaintext (some s)) e (rw (seal_field, e) at h),
        )
      ]

  -- Where no call of the backend fails, sealing leaves no plaintext.
  pub seal_legacy_secrets-sealed :
      ((s z : String) → seal s ≡ some z → is_sealed z ≡ true)
      → (s : Secrets) → (seal_legacy_secrets seal s).1.failed ≡ false
      → has_plaintext (seal_legacy_secrets seal s).0 ≡ false
  unfolding seal_legacy_secrets has_plaintext any
  seal_legacy_secrets-sealed law s h =
      let f = sealed_field law s.tunnel_passphrase _ h in
      let e = sealed_field law s.tunnel_password _ f.0 in
      let d = sealed_field law s.vnc_password _ e.0 in
      let c = sealed_field law s.proxy_password _ d.0 in
      let b = sealed_field law s.passphrase _ c.0 in
      let a = sealed_field law s.password _ b.0 in rw (a.1, b.1, c.1, d.1, e.1, f.1) refl
