-- ===== src/Session/Manager/Client.antt =====
-- The attach plane of `SessionManager` (runtime/src/session.rs).
use openab_pty.Base.{ℕ, ◌+◌, not, Option, none, some, List, [], ◌∷◌, if◌then◌else◌, lookup, codes}
use openab_pty.Crate.{
  SessionName, Generation, Error, not_found, session_dead, capacity_exceeded, unauthorized, Result,
  ok, err,
}
use openab_pty.Audit.{
  TerminationClass, self_exit, AuditEvent, session_create, session_renew, session_restart,
  takeover_anomaly, attach, with_session, with_source, with_detail,
}
use openab_pty.Audit
use openab_pty.Session.Policy.{WindowSize}
use openab_pty.Session.Attach.{stale_generation, rate_limited, won, attach_locked, attach_deliver}
use openab_pty.Session.Manager.{SessionManager, record_events, peek_tombstone, with_session_state}

-- What an attach answers to a name that has no session.
unfoldable pub missing : SessionManager → SessionName → Error
unfolding peek_tombstone
missing m name = elim (peek_tombstone m name) [ some c ↦ session_dead name | none ↦ not_found name ]

abbrev pub or_unknown : Option (List ℕ) → List ℕ
or_unknown none = codes "unknown"
or_unknown (some source) = source

unfoldable pub attach_event :
    SessionName → Generation → Option (List ℕ) → Audit.AuditKind → List ℕ → AuditEvent
attach_event name generation source kind detail =
    with_detail (with_source (with_session (Audit.new kind) name generation) (or_unknown source))
      detail

-- An eviction is counted and recorded.
unfoldable pub count_eviction :
    SessionManager
    → SessionName
    → Generation
    → Option (List ℕ)
    → (previous : Option ℕ) → SessionManager
unfolding record_events attach_event
count_eviction m name generation source none = m
count_eviction m name generation source (some conn) =
    record_events
      (attach_event name generation source takeover_anomaly (codes "connection_preempted") ∷ [])
      (record m { metrics = record m.metrics { takeovers = m.metrics.takeovers + 1 } })

-- The whole of an attach, with nothing in between: the connection and the stream offset.
unfoldable pub attach_with_replay :
    (List ℕ → ℕ)
    → SessionManager
    → SessionName
    → (generation : Generation) (size : WindowSize) (source : Option (List ℕ)) (since : Option ℕ)
      (now : ℕ)
    → Result (ℕ × ℕ) × SessionManager
unfolding missing with_session_state record_events attach_event count_eviction
attach_with_replay wrap m name generation size source since now = elim (lookup name m.sessions) [
  | none ↦ (err (missing m name), m)
  | some s ↦
      if not s.io_alive
      then (err (session_dead name), m)
      else (let (attempt, s') =
            attach_locked wrap m.config.scrollback_replay m.policy s generation size since now in
          let m' = with_session_state m name s' in
          elim attempt [
            | stale_generation ↦ (err unauthorized, m')
            | rate_limited ↦ (
              err (capacity_exceeded m.policy.max_takeovers_per_window),
              record_events
                  (attach_event name generation source takeover_anomaly
                      (codes "takeover_rate_limited")
                    ∷ [])
                  (record m' {
                    metrics = record m'.metrics {
                      takeovers_rate_limited = m'.metrics.takeovers_rate_limited + 1;
                    };
                  }),
            )
            | won conn at previous replay ↦
                let evicting = count_eviction m' name generation source previous in
                let (delivered, s'') = attach_deliver s' conn previous replay since now in
                let m'' = with_session_state evicting name s'' in
                elim delivered [
                  | err e ↦ (err e, m'')
                  | ok c ↦ (
                    ok (c, at),
                    record_events
                        (with_source (with_session (Audit.new attach) name generation)
                            (or_unknown source)
                          ∷ [])
                        m'',
                  )
                ]
          ])
]
