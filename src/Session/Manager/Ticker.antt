-- ===== src/Session/Manager/Ticker.antt =====
-- What `SessionManager` (runtime/src/session.rs) does to all of its sessions: list, the notice, tick and shutdown. The
-- loops run over the sessions that the map has at their start, as nothing else happens meanwhile.
use openab_pty.Base.{
  ℕ, ◌+◌, ◌≡◌, refl, ◌∙◌, ap, Bool, true, false, not, Option, none, some, List, [], ◌∷◌, ◌++◌,
  arith, ◌==◌, if◌then◌else◌, eq_bytes, lookup, insert, remove, lookup-insert, lookup-remove,
}
use openab_pty.Crate.{SessionName, Generation, runtime_replaced}
use openab_pty.Crate
use openab_pty.Audit.{runtime_shutdown}
use openab_pty.Audit
use openab_pty.Session.Outbound.{ttl_warning, shutting_down, push_control}
use openab_pty.Session.Handle.{Session, on_outbound}
use openab_pty.Token.{revoke_session}
use openab_pty.Session.Attach.{teardown_locked, TtlDecision, expire, warn, ttl_decision}
use openab_pty.Session.Manager.{SessionManager, forget, record_events, with_session_state}
use openab_pty.Session.Manager.Admin.{teardown, bury}

-- Without the tier, which is one for all sessions.
pub record SessionStatus : Type 0 where
  pub name : SessionName
  pub generation : Generation
  pub alive : Bool
  pub attached : Bool
  pub bytes_written : ℕ
  pub teardown_best_effort : Bool
  pub absolute_ttl_best_effort : Bool

unfoldable pub status_of : (best_effort : Bool) → Session → SessionStatus
status_of best_effort s = record {
  name = s.name;
  generation = s.generation;
  alive = s.io_alive;
  attached = not (s.owner_conn == 0);
  bytes_written = s.buffer.written;
  teardown_best_effort = best_effort;
  absolute_ttl_best_effort = best_effort;
}

unfoldable pub statuses : (best_effort : Bool) → List (SessionName × Session) → List SessionStatus
unfolding status_of
statuses best_effort [] = []
statuses best_effort ((name, s) ∷ rest) = status_of best_effort s ∷ statuses best_effort rest

unfoldable pub list_sessions : SessionManager → List SessionStatus
unfolding statuses
list_sessions m = statuses m.best_effort m.sessions

-- The seconds of the grace period are those that the notice names.
unfoldable pub notified :
    (seconds : ℕ) → List (SessionName × Session) → List (SessionName × Session)
notified seconds [] = []
notified seconds ((name, s) ∷ rest) =
    (name, on_outbound s.subscriber (λ o. push_control o (shutting_down seconds)) s)
    ∷ notified seconds rest

unfoldable pub notify_shutdown : (seconds : ℕ) → SessionManager → SessionManager
unfolding notified
notify_shutdown seconds m = record m { sessions = notified seconds m.sessions }

pub data TtlAction : Type 0 where
  warned expired : (session : SessionName) (absolute : Bool) → TtlAction

removed :
    (name other : SessionName) (s : Session) (sessions : List (SessionName × Session))
    → lookup other (remove name (insert name s sessions))
      ≡ (if eq_bytes name other then none else lookup other sessions)
removed name other s sessions =
    ground (
      arith,
      lookup-remove name other (insert name s sessions),
      lookup-insert name other s sessions,
    )

unlisted :
    (name other : SessionName) (s : Session) (rest sessions : List (SessionName × Session))
    → (lookup other ((name, s) ∷ rest) ≡ none → lookup other sessions ≡ none)
    → lookup other rest ≡ none
    → (if eq_bytes name other then none else lookup other sessions) ≡ none
unfolding lookup
unlisted name other s rest sessions h n = ground (arith, h, n)

module _ (sha256 : List ℕ → List ℕ) where
  unfoldable pub decided :
      SessionManager → SessionName → Session → Option TtlDecision → List TtlAction × SessionManager
  unfolding bury with_session_state
  decided m name s none = ([], m)
  decided m name s (some (warn absolute seconds_remaining)) = (
    warned name absolute ∷ [],
    with_session_state m name
        (on_outbound s.subscriber (λ o. push_control o (ttl_warning seconds_remaining absolute)) s),
  )
  decided m name s (some (expire absolute)) =
      let m' = bury sha256 m name s Audit.ttl_expired Crate.ttl_expired in
      (
        expired name absolute ∷ [],
        record m' { metrics = record m'.metrics { ttl_expired = m'.metrics.ttl_expired + 1 } },
      )

  unfoldable pub tick_each :
      (now : ℕ) → List (SessionName × Session) → SessionManager → List TtlAction × SessionManager
  unfolding decided
  tick_each now [] m = ([], m)
  tick_each now ((name, s) ∷ rest) m =
      let (decision, s') = ttl_decision m.policy s now in
      let (actions, m') = decided m name s' decision in
      let (later, m'') = tick_each now rest m' in (actions ++ later, m'')

  unfoldable pub tick : (now : ℕ) → SessionManager → List TtlAction × SessionManager
  unfolding tick_each
  tick now m = tick_each now m.sessions m

  unfoldable pub shutdown_each : List (SessionName × Session) → SessionManager → SessionManager
  unfolding teardown forget
  shutdown_each [] m = m
  shutdown_each ((name, s) ∷ rest) m =
      shutdown_each rest (forget (teardown sha256 m name s runtime_shutdown runtime_replaced) name)

  unfoldable pub shutdown : SessionManager → SessionManager
  unfolding shutdown_each
  shutdown m = shutdown_each m.sessions m

  ended_sessions :
      (m : SessionManager) (name other : SessionName) (s : Session)
      → lookup other
          (forget (teardown sha256 m name s runtime_shutdown runtime_replaced) name).sessions
        ≡ (if eq_bytes name other then none else lookup other m.sessions)
  unfolding teardown forget record_events with_session_state
  ended_sessions m name other s =
      removed name other _ _
      ∙ ap (λ sessions. if eq_bytes name other then none else lookup other sessions)
          (kept (teardown_locked s runtime_shutdown).1)
    where
      kept :
          (already_dead : Bool)
          → (if already_dead
              then m
              else record_events
                  (revoke_session sha256 m.tokens name).1
                  (record m { tokens = (revoke_session sha256 m.tokens name).0 })).sessions
            ≡ m.sessions
      kept true = refl
      kept false = refl

  shutdown_each_gone :
      (l : List (SessionName × Session)) (m : SessionManager) (other : SessionName)
      → (lookup other l ≡ none → lookup other m.sessions ≡ none)
      → lookup other (shutdown_each l m).sessions ≡ none
  unfolding shutdown_each lookup
  shutdown_each_gone [] m other h = h refl
  shutdown_each_gone ((name, s) ∷ rest) m other h =
      shutdown_each_gone rest
        (forget (teardown sha256 m name s runtime_shutdown runtime_replaced) name) other
        (λ n. ended_sessions m name other s ∙ unlisted name other s rest m.sessions h n)

  -- After a shutdown no session is left.
  pub lookup-shutdown :
      (m : SessionManager) (other : SessionName) → lookup other (shutdown m).sessions ≡ none
  unfolding shutdown
  lookup-shutdown m other = shutdown_each_gone m.sessions m other (λ n. n)
