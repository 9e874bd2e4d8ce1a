-- ===== src/Session/Manager/Revoke.antt =====
-- Which tokens still open a session after a renewal or a kill (runtime/src/session.rs, token.rs).
use openab_pty.Base.{
  ℕ, ◌+◌, ◌≡◌, refl, ◌∙◌, ap, inl, inr, true, Option, none, some, List, arith, ◌==◌, lookup,
  lookup-insert_self, Bool-cases,
}
use openab_pty.Crate.{SessionName, Generation, Result, ok, err, unauthorized}
use openab_pty.Crate
use openab_pty.Audit.{TerminationClass, hex}
use openab_pty.Audit
use openab_pty.Token.{
  attach_only, TokenStore, StoredAttachToken, mint_for_session, revoke_session, verify,
}
use openab_pty.Token.Laws.{Opens, verify_refuses, lookup-revoked}
use openab_pty.Session.Handle.{Session}
use openab_pty.Session.Attach.{teardown_locked}
use openab_pty.Session.Manager.{
  SessionManager, SessionCredential, with_session_state, record_events, forget, remember_dead,
}
use openab_pty.Session.Manager.Admin.{
  credential_for, let_go, issue_renewed, renew, teardown, bury, kill,
}
use openab_pty.Session.Manager.Dead.{kill-bury}

module _ (sha256 : List ℕ → List ℕ) where
  credential_tokens :
      (m : SessionManager) (name : SessionName) (g now : ℕ) (raw : Option (List ℕ))
      → (credential_for sha256 m name g now raw).1.tokens
        ≡ (mint_for_session sha256 m.tokens name g now raw).1
  unfolding credential_for
  credential_tokens m name g now raw = ground arith

  issue_tokens :
      (m : SessionManager) (name : SessionName) (g now : ℕ) (raw : Option (List ℕ))
      → (issue_renewed sha256 m name g now raw).1.tokens
        ≡ (mint_for_session sha256 m.tokens name g now raw).1
  unfolding issue_renewed record_events
  issue_tokens m name g now raw = ground (arith, credential_tokens m name g now raw)

  let_go_tokens :
      (m : SessionManager) (name : SessionName) (s : Session)
      → (let_go sha256 m name s).tokens ≡ (revoke_session sha256 m.tokens name).0
  unfolding let_go with_session_state record_events
  let_go_tokens m name s = refl

  renew_live :
      (m : SessionManager) (name : SessionName) (s : Session) (now : ℕ) (raw : Option (List ℕ))
      → lookup name m.sessions ≡ some s
      → s.io_alive ≡ true
      → renew sha256 m name now raw
        ≡ issue_renewed sha256 (let_go sha256 m name s) name (s.generation + 1) now raw
  unfolding renew
  renew_live m name s now raw e a = ground (arith, e, a)

  tokens-renew :
      (m : SessionManager) (name : SessionName) (s : Session) (now : ℕ) (raw : Option (List ℕ))
      → lookup name m.sessions ≡ some s
      → s.io_alive ≡ true
      → (renew sha256 m name now raw).1.tokens
        ≡ (mint_for_session sha256
            (revoke_session sha256 m.tokens name).0
            name
            (s.generation + 1)
            now
            raw).1
  tokens-renew m name s now raw e a =
      ap (λ (r : Result SessionCredential × SessionManager). r.1.tokens)
        (renew_live m name s now raw e a)
      ∙ issue_tokens (let_go sha256 m name s) name (s.generation + 1) now raw
      ∙ ap (λ t. (mint_for_session sha256 t name (s.generation + 1) now raw).1)
          (let_go_tokens m name s)

  minted_generation :
      (store : TokenStore) (name : SessionName) (g now : ℕ) (raw : Option (List ℕ))
      (stored : StoredAttachToken)
      → lookup name store.entries ≡ none
      → lookup name (mint_for_session sha256 store name g now raw).1.entries ≡ some stored
      → stored.generation ≡ g
  unfolding mint_for_session
  minted_generation store name g now none stored e h = ground arith
  minted_generation store name g now (some bytes) stored e h = elim (Bool-cases (store.ttl == 0)) [
    | inl t ↦ ground (arith, e, h, t)
    | inr t ↦ ground (
      arith,
      e,
      h,
      t,
      lookup-insert_self name
          (record {
            hash = sha256 (hex bytes);
            generation = g;
            scope = attach_only;
            expires_at = now + store.ttl;
          })
          store.entries,
    )
  ]

  -- After a renewal of a live session no token opens its old generation, whatever the mint of the
  -- new one came to.
  pub renew-verify :
      (m : SessionManager) (name : SessionName) (s : Session) (now : ℕ) (raw : Option (List ℕ))
      (presented : List ℕ) (source : Option (List ℕ)) (later : ℕ)
      → lookup name m.sessions ≡ some s
      → s.io_alive ≡ true
      → (verify sha256
          (renew sha256 m name now raw).1.tokens
          name
          s.generation
          presented
          source
          later).0
        ≡ err unauthorized
  renew-verify m name s now raw presented source later e a =
      rw (tokens-renew m name s now raw e a)
        (verify_refuses sha256 _ name s.generation presented source later shut).0
    where
      shut :
          (stored : StoredAttachToken)
          → lookup name
              (mint_for_session sha256
                (revoke_session sha256 m.tokens name).0
                name
                (s.generation + 1)
                now
                raw).1.entries
            ≡ some stored
          → ¬ Opens sha256 stored s.generation presented later
      shut stored h o =
          let g =
            minted_generation (revoke_session sha256 m.tokens name).0 name (s.generation + 1) now
              raw stored (lookup-revoked sha256 m.tokens name) h in
          absurd (omega (arith, g, o.0))

  tokens-teardown :
      (m : SessionManager) (name : SessionName) (s : Session) (c : TerminationClass) (code : ℕ)
      → s.alive ≡ true
      → (teardown sha256 m name s c code).tokens ≡ (revoke_session sha256 m.tokens name).0
  unfolding teardown with_session_state record_events teardown_locked
  tokens-teardown m name s c code a = ground (arith, a)

  tokens-kill :
      (m : SessionManager) (name : SessionName) (s : Session)
      → lookup name m.sessions ≡ some s
      → s.alive ≡ true
      → (kill sha256 m name).1.tokens ≡ (revoke_session sha256 m.tokens name).0
  unfolding bury forget remember_dead
  tokens-kill m name s e a =
      ap (λ (m : SessionManager). m.tokens) (kill-bury sha256 m name s e)
      ∙ tokens-teardown m name s Audit.admin_kill Crate.admin_kill a

  -- After the kill of a live session no token opens the name, under any generation.
  pub kill-verify :
      (m : SessionManager) (name : SessionName) (s : Session) (g : Generation) (presented : List ℕ)
      (source : Option (List ℕ)) (later : ℕ)
      → lookup name m.sessions ≡ some s
      → s.alive ≡ true
      → (verify sha256 (kill sha256 m name).1.tokens name g presented source later).0
        ≡ err unauthorized
  kill-verify m name s g presented source later e a =
      rw (tokens-kill m name s e a) (verify_refuses sha256 _ name g presented source later shut).0
    where
      shut :
          (stored : StoredAttachToken)
          → lookup name (revoke_session sha256 m.tokens name).0.entries ≡ some stored
          → ¬ Opens sha256 stored g presented later
      shut stored h o = let n = lookup-revoked sha256 m.tokens name in ground (arith, n, h)
