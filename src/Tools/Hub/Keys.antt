-- ===== src/Tools/Hub/Keys.antt =====
-- What an attach secret and a loopback key open (`ToolsHub` of runtime/src/tools.rs).
use openab_pty.Base.{
  ℕ, ◌+◌, ◌≤◌, ◌<◌, ◌≡◌, refl, sym, ◌∙◌, ap, ◌⊎◌, inl, inr, ◌↔◌, true, ◌&&◌, Option, none, some,
  List, arith, ◌==◌, ltb, if◌then◌else◌, Bool-cases, Option-cases, eq_bytes, eq_bytes_iff,
  eq_bytes_refl, lookup, lookup-insert, lookup-remove, lookup-insert_self,
}
use openab_pty.Crate.{SessionName, ok}
use openab_pty.Audit.{hex}
use openab_pty.Tools.Hub.{mint_with_ttl, verify, log_events, issue_loopback_key, check_loopback_key}
use openab_pty.Tools.Hub.State.{Grant, ToolsHub, grant_opens, grant_expired}

module _ (sha256 : List ℕ → List ℕ) where
  -- A grant that opens: not expired, and made for what is presented.
  abbrev pub Opens : Option Grant → (presented : List ℕ) → (now : ℕ) → Type 0
  Opens none presented now = ⊥
  Opens (some grant) presented now = (now < grant.expires_at) × (sha256 presented ≡ grant.hash)

  grant_opens_iff :
      (o : Option Grant) (presented : List ℕ) (now : ℕ)
      → (grant_opens o (sha256 presented) now ≡ true) ↔ Opens o presented now
  unfolding grant_opens
  grant_opens_iff none presented now = (λ h. cc, λ h. absurd h)
  grant_opens_iff (some grant) presented now = (
    λ h. ground (arith, eq_bytes_iff (sha256 presented) grant.hash),
    λ h. ground (arith, eq_bytes_iff (sha256 presented) grant.hash),
  )

module _ {Value : Type 0} (sha256 : List ℕ → List ℕ) where
  verify-ok :
      (session : SessionName) (presented source : List ℕ) (now : ℕ) (hub : ToolsHub Value)
      → ((verify sha256 session presented source now hub).0 ≡ ok tt)
        ↔ (grant_opens (lookup session hub.grants) (sha256 presented) now ≡ true)
  unfolding verify
  verify-ok session presented source now hub = (λ h. ground arith, λ h. ground arith)

  -- The hub after a mint: the grant's digest is that of the plaintext, and it ends after the lifetime.
  mint-grant :
      (session : SessionName) (ttl now : ℕ) (raw : List ℕ) (hub : ToolsHub Value)
      → 0 < ttl
      → ttl ≤ hub.max_ttl
      → (name : SessionName)
      → lookup name (mint_with_ttl sha256 session ttl now (some raw) hub).1.grants ≡ (
          if eq_bytes session name
          then some (record { hash = sha256 (hex raw); expires_at = now + ttl })
          else lookup name hub.grants)
  unfolding mint_with_ttl log_events
  mint-grant session ttl now raw hub pos max name = ground (
    arith,
    lookup-insert session name (record { hash = sha256 (hex raw); expires_at = now + ttl })
        hub.grants,
  )

  -- After a mint with a positive lifetime within the operator's maximum, the secret opens its
  -- session exactly before the lifetime ends, and only what has the plaintext's digest does.
  pub verify-mint_with_ttl :
      (session : SessionName) (ttl now : ℕ) (raw : List ℕ) (hub : ToolsHub Value)
      → 0 < ttl
      → ttl ≤ hub.max_ttl
      → (presented source : List ℕ) (later : ℕ)
      → ((verify sha256 session presented source later
            (mint_with_ttl sha256 session ttl now (some raw) hub).1).0
          ≡ ok tt)
        ↔ ((later < now + ttl) × (sha256 presented ≡ sha256 (hex raw)))
  verify-mint_with_ttl session ttl now raw hub pos max presented source later =
      let minted = (mint_with_ttl sha256 session ttl now (some raw) hub).1 in
      let grant : Grant = record { hash = sha256 (hex raw); expires_at = now + ttl } in
      let e : lookup session minted.grants ≡ some grant =
        mint-grant session ttl now raw hub pos max session
        ∙ ap (λ t. if t then some grant else lookup session hub.grants) (eq_bytes_refl session) in
      let (a, b) = verify-ok session presented source later minted in
      let (c, d) = grant_opens_iff sha256 (some grant) presented later in
      let f = ap (λ o. grant_opens o (sha256 presented) later) e in
      (λ h. c (sym f ∙ a h), λ h. b (f ∙ d h))

  -- `mint_with_ttl` refuses exactly a lifetime of zero, one above the operator's maximum, and a failed
  -- generator; a refused mint leaves the hub as it is.
  pub mint_with_ttl_refuses :
      (session : SessionName) (ttl now : ℕ) (raw : Option (List ℕ)) (hub : ToolsHub Value)
      → ((0 < ttl) × (ttl ≤ hub.max_ttl) × ((bytes : List ℕ) × (raw ≡ some bytes)))
        ⊎ (((mint_with_ttl sha256 session ttl now raw hub).1 ≡ hub))
  unfolding mint_with_ttl
  mint_with_ttl_refuses session ttl now none hub = inr (ground arith)
  mint_with_ttl_refuses session ttl now (some bytes) hub = elim (Bool-cases (ttl == 0)) [
    | inl e ↦ inr (ground arith)
    | inr e ↦ elim (Bool-cases (ltb hub.max_ttl ttl)) [
      | inl f ↦ inr (ground arith)
      | inr f ↦ inl (ground arith, ground arith, (bytes, refl))
    ]
  ]

  -- A refused secret leaves every other session's grant, and an expired grant goes.
  pub verify_grants :
      (session name : SessionName) (presented source : List ℕ) (now : ℕ) (hub : ToolsHub Value)
      → lookup name (verify sha256 session presented source now hub).2.grants ≡ (
          if eq_bytes session name && grant_expired (lookup session hub.grants) now
          then none
          else lookup name hub.grants)
  unfolding verify log_events grant_opens grant_expired
  verify_grants session name presented source now hub =
      elim (Option-cases (lookup session hub.grants)) [
        | inl e ↦ ground (arith, e)
        | inr (grant, e) ↦ ground (arith, e, lookup-remove session name hub.grants)
      ]

module _ {Value : Type 0} where
  -- After a key was issued, exactly its bytes open the session; if the generator failed, nothing does.
  pub check-issue :
      (session : SessionName) (raw : Option (List ℕ)) (hub : ToolsHub Value)
      → (decoded : Option (List ℕ))
      → (check_loopback_key (issue_loopback_key session raw hub).1 session decoded ≡ true)
        ↔ ((bytes : List ℕ) × (raw ≡ some bytes) × (decoded ≡ some bytes))
  unfolding check_loopback_key issue_loopback_key
  check-issue session none hub none = (λ h. cc, λ h. cc)
  check-issue session none hub (some bytes) = (
    λ h. ground (arith, lookup-remove session session hub.loopback_keys, eq_bytes_refl session),
    λ h. cc,
  )
  check-issue session (some raw) hub none = (λ h. cc, λ h. cc)
  check-issue session (some raw) hub (some bytes) = (
    λ h. (
      raw,
      refl,
      ground (arith, lookup-insert_self session raw hub.loopback_keys, eq_bytes_iff bytes raw),
    ),
    λ h. ground (arith, lookup-insert_self session raw hub.loopback_keys, eq_bytes_refl raw),
  )
