-- ===== src/Session/Manager/Admin.antt =====
-- The admin plane of `SessionManager` (runtime/src/session.rs): create, renew, kill, restart in place, and
-- the end of a session. The digest is the section's parameter.
use openab_pty.Base.{ℕ, ◌+◌, not, Option, none, some, List, [], ◌∷◌, if◌then◌else◌, lookup}
use openab_pty.Crate.{
  SessionName, Generation, Error, not_found, already_exists, session_dead, capacity_exceeded,
  unauthorized, Result, ok, err, session_ended, renewed,
}
use openab_pty.Crate
use openab_pty.Audit.{
  TerminationClass, self_exit, AuditEvent, session_create, session_renew, session_restart,
  takeover_anomaly, attach, with_session, with_source, with_detail,
}
use openab_pty.Audit
use openab_pty.Token.{mint_for_session, revoke_session}
use openab_pty.Session.Policy.{WindowSize, default_size}
use openab_pty.Session.Outbound.{close}
use openab_pty.Session.Handle.{Session, fresh, on_outbound}
use openab_pty.Session.Attach.{renew_locked, teardown_locked, cleared}
use openab_pty.Session.Manager.{
  SessionManager, SessionCredential, record_events, claim_name, release_claim, publish, forget,
  remember_dead, take_tombstone, with_session_state,
}

module _ (sha256 : List ℕ → List ℕ) where
  -- A mint as the manager calls it.
  unfoldable pub credential_for :
      SessionManager
      → SessionName
      → Generation
      → (now : ℕ) (raw : Option (List ℕ)) → Result SessionCredential × SessionManager
  credential_for m name generation now raw =
      let (minted, tokens) = mint_for_session sha256 m.tokens name generation now raw in
      elim minted [
        | err e ↦ (err e, record m { tokens = tokens })
        | ok token ↦ (
          ok (record { session = name; generation = generation; token = token }),
          record m { tokens = tokens },
        )
      ]

  -- `spawned` is what opening the kill domain and spawning the PTY came to.
  unfoldable pub spawn_claimed :
      SessionManager
      → SessionName
      → WindowSize
      → Generation
      → (spawned : Option Error) (now : ℕ) (raw : Option (List ℕ))
      → Result SessionCredential × SessionManager
  unfolding credential_for publish record_events
  spawn_claimed m name size generation (some e) now raw = (err e, m)
  spawn_claimed m name size generation none now raw =
      let s =
        fresh name generation size now m.config.scrollback_kib m.config.filter_terminal_responses
          m.best_effort m.policy.missed_pings_before_detached in
      let (minted, m') = credential_for m name generation now raw in
      elim minted [
        | err e ↦ (err e, m')
        | ok credential ↦
            let (displaced, m'') = publish m' name s in
            (
              ok credential,
              record_events (with_session (Audit.new session_create) name generation ∷ [])
                  (record m'' {
                    metrics = record m''.metrics {
                      sessions_created = m''.metrics.sessions_created + 1;
                    };
                  }),
            )
      ]

  unfoldable pub spawn_session :
      SessionManager
      → SessionName
      → WindowSize
      → Generation
      → (spawned : Option Error) (now : ℕ) (raw : Option (List ℕ))
      → Result SessionCredential × SessionManager
  unfolding claim_name spawn_claimed release_claim
  spawn_session m name size generation spawned now raw =
      let (claim, m') = claim_name m name in
      elim claim [
        | err e ↦ (err e, m')
        | ok _ ↦
            let (outcome, m'') = spawn_claimed m' name size generation spawned now raw in
            (outcome, release_claim m'' name)
      ]

  unfoldable pub create :
      SessionManager
      → SessionName
      → WindowSize
      → (spawned : Option Error) (now : ℕ) (raw : Option (List ℕ))
      → Result SessionCredential × SessionManager
  unfolding spawn_session
  create m name size spawned now raw = spawn_session m name size 1 spawned now raw

  -- The old tokens go, and the connection is let go with a close code of its own.
  unfoldable pub let_go : SessionManager → SessionName → Session → SessionManager
  unfolding with_session_state record_events
  let_go m name s =
      let (subscriber, s') = renew_locked s in
      let (tokens, events) = revoke_session sha256 m.tokens name in
      record_events events (
        with_session_state (record m { tokens = tokens }) name
          (on_outbound subscriber (λ o. close o renewed) s'))

  unfoldable pub issue_renewed :
      SessionManager
      → SessionName
      → Generation
      → (now : ℕ) (raw : Option (List ℕ)) → Result SessionCredential × SessionManager
  unfolding credential_for record_events
  issue_renewed m name generation now raw =
      let (outcome, m') = credential_for m name generation now raw in
      elim outcome [
        | err e ↦ (err e, m')
        | ok c ↦
            (ok c, record_events (with_session (Audit.new session_renew) name generation ∷ []) m')
      ]

  unfoldable pub renew :
      SessionManager
      → SessionName
      → (now : ℕ) (raw : Option (List ℕ)) → Result SessionCredential × SessionManager
  unfolding let_go issue_renewed
  renew m name now raw = elim (lookup name m.sessions) [
    | none ↦ (err (not_found name), m)
    | some s ↦
        if not s.io_alive
        then (err (session_dead name), m)
        else issue_renewed (let_go m name s) name (s.generation + 1) now raw
  ]

  -- The session ends, with its tokens; its report of the kill domain is left out of the audit event.
  unfoldable pub teardown :
      SessionManager → SessionName → Session → TerminationClass → (code : ℕ) → SessionManager
  unfolding with_session_state record_events
  teardown m name s class code =
      let (subscriber, already_dead, s') = teardown_locked s class in
      let s'' = cleared (on_outbound subscriber (λ o. close o code) s') in
      let (tokens, events) = revoke_session sha256 m.tokens name in
      let revoked =
        if already_dead then m else record_events events (record m { tokens = tokens }) in
      record_events
        (Audit.with_termination (with_session (Audit.new Audit.session_kill) name s.generation)
            class
          ∷ [])
        (with_session_state revoked name s'')

  -- A session that ends for good: torn down, forgotten, and remembered as dead.
  unfoldable pub bury :
      SessionManager → SessionName → Session → TerminationClass → (code : ℕ) → SessionManager
  unfolding teardown forget remember_dead
  bury m name s class code =
      remember_dead (forget (teardown m name s class code) name) name s.generation class

  unfoldable pub kill : SessionManager → SessionName → Result Generation × SessionManager
  unfolding bury
  kill m name = elim (lookup name m.sessions) [
    | none ↦ (err (not_found name), m)
    | some s ↦ (ok s.generation, bury m name s Audit.admin_kill Crate.admin_kill)
  ]

  unfoldable pub handle_self_exit : SessionManager → SessionName → SessionManager
  unfolding bury
  handle_self_exit m name = elim (lookup name m.sessions) [
    | none ↦ m
    | some s ↦
        if not s.io_alive
        then m
        else bury
            (record m { metrics = record m.metrics { self_exits = m.metrics.self_exits + 1 } }) name
            s self_exit session_ended
  ]

  -- The generation that a restart takes over, unbounded as in `renew_locked`, and the manager without the
  -- old session or tombstone.
  unfoldable pub retire : SessionManager → SessionName → Option Generation × SessionManager
  unfolding teardown forget take_tombstone
  retire m name = elim (lookup name m.sessions) [
    | some s ↦
        let ended = if s.io_alive then teardown m name s Audit.admin_kill session_ended else m in
        (some (s.generation + 1), forget ended name)
    | none ↦
        let (dead, m') = take_tombstone m name in
        elim dead [ none ↦ (none, m') | some t ↦ (some (t.generation + 1), m') ]
  ]

  unfoldable pub restart_in_place :
      SessionManager
      → SessionName
      → (spawned : Option Error) (now : ℕ) (raw : Option (List ℕ))
      → Result SessionCredential × SessionManager
  unfolding retire spawn_session record_events
  restart_in_place m name spawned now raw =
      let (next, m') = retire m name in
      elim next [
        | none ↦ (err (not_found name), m')
        | some generation ↦
            let (outcome, m'') = spawn_session m' name default_size generation spawned now raw in
            elim outcome [
              | err e ↦ (err e, m'')
              | ok c ↦ (
                ok c,
                record_events (with_session (Audit.new session_restart) name c.generation ∷ []) m'',
              )
            ]
      ]
