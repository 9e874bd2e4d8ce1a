-- ===== src/Token/Mint.antt =====
-- What a mint makes (`TokenStore::mint_for_session` of runtime/src/token.rs).
use openab_pty.Base.{
  ℕ, ◌+◌, ◌<◌, ◌≡◌, ◌≢◌, refl, ap, Option, some, List, [], arith, eq_bytes_iff, lookup, insert,
  lookup-insert, lookup-insert_self,
}
use openab_pty.Crate.{SessionName, Generation, Result, ok}
use openab_pty.Audit.{AuditEvent, hex}
use openab_pty.Token.{
  AttachGrant, StoredAttachToken, MintedAttachToken, TokenStore, attach_only, zeroize,
  mint_for_session, verify,
}
use openab_pty.Token.Laws.{verify_accepts}

module _ (sha256 : List ℕ → List ℕ) where
  -- A mint needs a lifetime and the generator's bytes. Then the token opens the session's entry until
  -- it expires, and every other session's entry is as it was.
  pub mint_for_session_lem :
      (store : TokenStore) (session : SessionName) (g : Generation) (now : ℕ) (bytes : List ℕ)
      → store.ttl ≢ 0
      → (token : MintedAttachToken) × (after : TokenStore) × (mint_for_session sha256 store session
            g now
            (some bytes)
          ≡ (ok token, after))
        × (token.plaintext ≡ hex bytes)
        × ((source : Option (List ℕ)) (later : ℕ)
            → later < now + store.ttl
            → verify sha256 after session g token.plaintext source later
              ≡ (ok token.grant, zeroize token.plaintext, after, []))
        × ((name : SessionName)
            → name ≢ session
            → lookup name after.entries ≡ lookup name store.entries)
  unfolding mint_for_session
  mint_for_session_lem store session g now bytes live = (
    token,
    after,
    ground arith,
    refl,
    λ source later h.
        verify_accepts sha256 after session g (hex bytes) source later stored
          (lookup-insert_self session stored store.entries) (refl, h, refl),
    λ name ne.
        ground (arith, lookup-insert session name stored store.entries, eq_bytes_iff session name),
  )
    where
      stored : StoredAttachToken
      stored = record {
        hash = sha256 (hex bytes);
        generation = g;
        scope = attach_only;
        expires_at = now + store.ttl;
      }

      token : MintedAttachToken
      token = record {
        plaintext = hex bytes;
        grant = record {
          session = session;
          generation = g;
          scope = attach_only;
          expires_at = now + store.ttl;
        };
      }

      after : TokenStore
      after = record store { entries = insert session stored store.entries }

  abbrev minted_entry : TokenStore → Generation → (now : ℕ) → List ℕ → StoredAttachToken
  minted_entry store g now bytes = record {
    hash = sha256 (hex bytes);
    generation = g;
    scope = attach_only;
    expires_at = now + store.ttl;
  }

  minted :
      (store : TokenStore) (session : SessionName) (g : Generation) (now : ℕ) (bytes : List ℕ)
      → store.ttl ≢ 0
      → (mint_for_session sha256 store session g now (some bytes)).1
        ≡ record store { entries = insert session (minted_entry store g now bytes) store.entries }
  unfolding mint_for_session
  minted store session g now bytes live = ground arith

  -- If the lifetime of tokens is not zero, a minted token opens its session under its generation
  -- until its lifetime is over.
  pub mint-verify :
      (store : TokenStore) (session : SessionName) (g : Generation) (now : ℕ) (bytes : List ℕ)
      (source : Option (List ℕ)) (later : ℕ)
      → store.ttl ≢ 0
      → later < now + store.ttl
      → (verify sha256
          (mint_for_session sha256 store session g now (some bytes)).1
          session
          g
          (hex bytes)
          source
          later).0
        ≡ ok (record {
          session = session;
          generation = g;
          scope = attach_only;
          expires_at = now + store.ttl;
        })
  mint-verify store session g now bytes source later live h =
      rw (minted store session g now bytes live) (
        ap (λ (r : Result AttachGrant × List ℕ × TokenStore × List AuditEvent). r.0)
          (verify_accepts sha256
            (record store {
              entries = insert session (minted_entry store g now bytes) store.entries;
            })
            session g (hex bytes) source later (minted_entry store g now bytes)
            (lookup-insert_self session (minted_entry store g now bytes) store.entries)
            (refl, h, refl)))
