-- ===== src/Token/Laws.antt =====
-- What a token opens and for how long (runtime/src/token.rs).
use openab_pty.Base.{
  ℕ, ◌*◌, ◌/◌, ◌%◌, ◌≤◌, ◌<◌, ◌≡◌, ◌≢◌, refl, ◌⊎◌, inl, inr, ◌↔◌, true, Option, none, some, List,
  [], ◌∷◌, leb, if◌then◌else◌, arith, length, eq_bytes, eq_bytes_iff, eq_bytes_refl, lookup,
  lookup-remove, Option-cases, Bool-cases,
}
use openab_pty.Crate.{SessionName, Generation, unauthorized, Result, ok, err}
use openab_pty.Audit.{AuditEvent, hex, hex_digit}
use openab_pty.Token.{
  TokenScope, AttachGrant, StoredAttachToken, TokenStore, attach_only, is_attach_only, zeroize,
  revoke_session, admits, auth_failure, verify,
}

-- Every byte of a list satisfies a predicate.
abbrev pub AllBytes : (ℕ → Type 0) → List ℕ → Type 0
AllBytes P [] = Unit
AllBytes P (b ∷ bs) = P b × AllBytes P bs

abbrev pub IsLowerHex : ℕ → Type 0
IsLowerHex b = ((b'0' ≤ b) × (b ≤ b'9')) ⊎ ((b'a' ≤ b) × (b ≤ b'f'))

hex_digit-IsLowerHex : (n : ℕ) → n < 16 → IsLowerHex (hex_digit n)
hex_digit-IsLowerHex n h = ground arith

-- Two lowercase hexadecimal digits for each byte.
pub hex_lem :
    (bytes : List ℕ)
    → AllBytes (λ b. b < 256) bytes
    → (length (hex bytes) ≡ 2 * length bytes) × AllBytes IsLowerHex (hex bytes)
unfolding hex
hex_lem [] h = (refl, tt)
hex_lem (b ∷ bs) h =
    let (a, c) = hex_lem bs h.1 in
    (
      omega (arith, a),
      (
        hex_digit-IsLowerHex (b / 16) (omega arith),
        (hex_digit-IsLowerHex (b % 16) (omega arith), c),
      ),
    )

scope_lem : (s : TokenScope) → is_attach_only s ≡ true
scope_lem attach_only = refl

-- What is left of an entry that a refused `verify` has looked at.
abbrev pub unless_expired : ℕ → Option StoredAttachToken → Option StoredAttachToken
unless_expired now none = none
unless_expired now (some stored) = if leb stored.expires_at now then none else some stored

module _ (sha256 : List ℕ → List ℕ) where
  -- What is open: the stored hash is that of the presented bytes, the generation is the one asked
  -- for, and the entry has not expired.
  abbrev pub Opens : StoredAttachToken → Generation → List ℕ → ℕ → Type 0
  Opens stored generation presented now =
      (stored.generation ≡ generation)
      × (now < stored.expires_at)
      × (sha256 presented ≡ stored.hash)

  pub admits_iff :
      (stored : StoredAttachToken) (g : Generation) (presented : List ℕ) (now : ℕ)
      → (admits sha256 stored g (sha256 presented) now ≡ true) ↔ Opens stored g presented now
  unfolding admits
  admits_iff stored g presented now = (
    λ h. ground (arith, scope_lem stored.scope, eq_bytes_iff (sha256 presented) stored.hash),
    λ h. ground (arith, scope_lem stored.scope, eq_bytes_iff (sha256 presented) stored.hash),
  )

  -- A token is accepted if the session has an entry that it opens: of the right generation, not
  -- expired, with the hash of what was presented; the store is unchanged, the grant is the
  -- entry's, no audit event is recorded, and the presented plaintext is erased.
  pub verify_accepts :
      (store : TokenStore) (session : SessionName) (g : Generation) (presented : List ℕ)
      (source : Option (List ℕ)) (now : ℕ) (stored : StoredAttachToken)
      → lookup session store.entries ≡ some stored
      → Opens stored g presented now
      → verify sha256 store session g presented source now ≡ (
        ok (record {
          session = session;
          generation = g;
          scope = attach_only;
          expires_at = stored.expires_at;
        }),
        zeroize presented,
        store,
        [],
      )
  unfolding verify
  verify_accepts store session g presented source now stored e o =
      rw (e, (admits_iff stored g presented now).1 o, verify) (by_scope stored.scope)
    where
      by_scope :
          (s : TokenScope)
          → ◌≡◌ {A = Result AttachGrant × List ℕ × TokenStore × List AuditEvent}
              (
                ok (record {
                  session = session;
                  generation = stored.generation;
                  scope = s;
                  expires_at = stored.expires_at;
                }),
                zeroize presented,
                store,
                [],
              )
              (
                ok (record {
                  session = session;
                  generation = g;
                  scope = attach_only;
                  expires_at = stored.expires_at;
                }),
                zeroize presented,
                store,
                [],
              )
      by_scope attach_only = ground arith

  -- A token that opens no entry of its session is refused, always with the same error and the same
  -- audit event; the plaintext is erased, and the store loses the session's entry exactly if that
  -- has expired.
  pub verify_refuses :
      (store : TokenStore) (session : SessionName) (g : Generation) (presented : List ℕ)
      (source : Option (List ℕ)) (now : ℕ)
      → ((stored : StoredAttachToken)
          → lookup session store.entries ≡ some stored
          → ¬ Opens stored g presented now)
      → ((verify sha256 store session g presented source now).0 ≡ err unauthorized)
        × ((verify sha256 store session g presented source now).1 ≡ zeroize presented)
        × ((verify sha256 store session g presented source now).3
            ≡ auth_failure sha256 session g source ∷ [])
        × ((name : SessionName)
            → lookup name (verify sha256 store session g presented source now).2.entries ≡ (
                if eq_bytes session name
                then unless_expired now (lookup name store.entries)
                else lookup name store.entries))
  unfolding verify
  verify_refuses store session g presented source now shut =
      elim (Option-cases (lookup session store.entries)) [
        | inl e ↦
            rw (e, verify) (refl, refl, refl, λ name. ground (arith, eq_bytes_iff session name))
        | inr (stored, e) ↦ elim (Bool-cases (admits sha256 stored g (sha256 presented) now)) [
          | inl a ↦ absurd (shut stored e ((admits_iff stored g presented now).0 a))
          | inr a ↦
              rw (e, a, verify)
                (
                  refl,
                  refl,
                  refl,
                  λ name.
                      ground (
                        arith,
                        eq_bytes_iff session name,
                        lookup-remove session name store.entries,
                      ),
                )
        ]
      ]

  pub lookup-revoked :
      (store : TokenStore) (session : SessionName)
      → lookup session (revoke_session sha256 store session).0.entries ≡ none
  unfolding revoke_session
  lookup-revoked store session =
      ground (arith, lookup-remove session session store.entries, eq_bytes_refl session)

  lookup-revoked_other :
      (store : TokenStore) (session name : SessionName)
      → name ≢ session
      → lookup name (revoke_session sha256 store session).0.entries ≡ lookup name store.entries
  unfolding revoke_session
  lookup-revoked_other store session name ne =
      ground (arith, lookup-remove session name store.entries, eq_bytes_iff session name)

  -- After a revocation nothing opens the session, whatever is presented, for whatever generation and
  -- whenever; the other sessions' entries stay.
  pub revoke_session_lem :
      (store : TokenStore) (session : SessionName)
      → ((g : Generation) (presented : List ℕ) (source : Option (List ℕ)) (now : ℕ)
          → (verify sha256 (revoke_session sha256 store session).0 session g presented source now).0
            ≡ err unauthorized)
        × ((name : SessionName)
            → name ≢ session
            → lookup name (revoke_session sha256 store session).0.entries
              ≡ lookup name store.entries)
  revoke_session_lem store session = (
    λ g presented source now.
        (verify_refuses (revoke_session sha256 store session).0 session g presented source now
          (λ stored e o. cc (e, lookup-revoked store session))).0,
    λ name ne. lookup-revoked_other store session name ne,
  )
