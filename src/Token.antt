-- ===== src/Token.antt =====
-- runtime/src/token.rs: attach tokens. The store keeps a hash for each session; instants and
-- durations are numbers of nanoseconds, and the clock does not overflow. The digest (crate sha2) is
-- the section's parameter; what the operating system's generator (crate getrandom) returned is an
-- argument of the mint. A call that records audit events returns them in order.
pub mod Laws
pub mod Acceptance
pub mod Mint
mod Examples
use Prim.Native.String.{String}
use openab_pty.Base.{
  ℕ, ◌+◌, Bool, true, false, ◌&&◌, Option, none, some, List, [], ◌∷◌, map, ltb, leb, ◌==◌,
  if◌then◌else◌, eq_bytes, lookup, insert, remove, codes,
}
use openab_pty.Crate.{SessionName, Generation, Error, unauthorized, other, Result, ok, err}
use openab_pty.Audit.{
  AuditEvent, token_revoked, attach_auth_failure, with_session, with_source, with_fingerprint,
  with_detail, hex, hash_fingerprint,
}
use openab_pty.Audit

pub data TokenScope : Type 0 where
  attach_only : TokenScope

pub record AttachGrant : Type 0 where
  pub session : SessionName
  pub generation : Generation
  pub scope : TokenScope
  pub expires_at : ℕ

pub record StoredAttachToken : Type 0 where
  pub hash : List ℕ
  pub generation : Generation
  pub scope : TokenScope
  pub expires_at : ℕ

pub record MintedAttachToken : Type 0 where
  pub plaintext : List ℕ
  pub grant : AttachGrant

abbrev pub Entries : Type 0
Entries = List (SessionName × StoredAttachToken)

-- The store; the verifier shares its entries.
pub record TokenStore : Type 0 where
  pub entries : Entries
  pub ttl : ℕ

unfoldable pub new : ℕ → TokenStore
new ttl = record { entries = []; ttl = ttl }

abbrev pub is_attach_only : TokenScope → Bool
is_attach_only attach_only = true

-- `SecretBytes::zeroize`.
unfoldable pub zeroize : List ℕ → List ℕ
zeroize = map (λ _. 0)

module _ (sha256 : List ℕ → List ℕ) where
  -- `raw` is what the generator returned, if it did not fail.
  unfoldable pub mint_for_session :
      TokenStore
      → SessionName
      → Generation
      → (now : ℕ) → (raw : Option (List ℕ)) → Result MintedAttachToken × TokenStore
  mint_for_session store session generation now raw =
      if store.ttl == 0
      then (err (other "attach token TTL must be non-zero"), store)
      else elim raw [
        | none ↦ (err (other "OS RNG failed while minting attach token"), store)
        | some bytes ↦
            let encoded = hex bytes in
            let expires_at = now + store.ttl in
            (
              ok (record {
                plaintext = encoded;
                grant = record {
                  session = session;
                  generation = generation;
                  scope = attach_only;
                  expires_at = expires_at;
                };
              }),
              record store {
                entries =
                    insert session
                      (record {
                        hash = sha256 encoded;
                        generation = generation;
                        scope = attach_only;
                        expires_at = expires_at;
                      })
                      store.entries;
              },
            )
      ]

  unfoldable pub revoke_session : TokenStore → SessionName → TokenStore × List AuditEvent
  revoke_session store session = elim (lookup session store.entries) [
    | none ↦ (store, [])
    | some stored ↦ (
      record store { entries = remove session store.entries },
      with_fingerprint (with_session (Audit.new token_revoked) session stored.generation)
            (hash_fingerprint sha256 stored.hash)
          ∷ [],
    )
  ]

  -- The filter of `verify`.
  unfoldable pub admits : StoredAttachToken → Generation → List ℕ → (now : ℕ) → Bool
  admits stored generation presented_hash now =
      ltb now stored.expires_at
      && (stored.generation == generation)
      && is_attach_only stored.scope
      && eq_bytes presented_hash stored.hash

  unfoldable pub auth_failure : SessionName → Generation → Option (List ℕ) → AuditEvent
  auth_failure session generation source =
      with_detail
        (with_source (with_session (Audit.new attach_auth_failure) session generation)
          (elim source [ none ↦ codes "unknown" | some s ↦ s ]))
        (codes "invalid_or_expired_attach_token")

  -- The grant or the refusal, the presented buffer afterwards, the store, and the audit events.
  unfoldable pub verify :
      TokenStore
      → SessionName
      → Generation
      → (presented : List ℕ) → (source : Option (List ℕ)) → (now : ℕ)
      → Result AttachGrant × List ℕ × TokenStore × List AuditEvent
  unfolding admits
  verify store session generation presented source now = elim (lookup session store.entries) [
    | none ↦ (err unauthorized, erased, store, auth_failure session generation source ∷ [])
    | some stored ↦
        if admits stored generation presented_hash now
        then (
          ok (record {
            session = session;
            generation = stored.generation;
            scope = stored.scope;
            expires_at = stored.expires_at;
          }),
          erased,
          store,
          [],
        )
        else (
          err unauthorized,
          erased,
          (if leb stored.expires_at now
              then record store { entries = remove session store.entries }
              else store),
          auth_failure session generation source ∷ [],
        )
  ]
    where
      presented_hash : List ℕ
      presented_hash = sha256 presented

      erased : List ℕ
      erased = zeroize presented
