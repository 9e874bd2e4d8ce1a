-- ===== src/Session/Manager.antt =====
-- `SessionManager` of runtime/src/session.rs: its maps, and the operations of the admin and attach planes.
-- Parameters are what the kernel and other crates answer: the digest, the random bytes of a mint, and
-- what opening the kill domain and spawning the PTY came to.
pub mod Admin
pub mod Client
pub mod Admission
pub mod Dead
pub mod Revoke
pub mod Ticker
mod Examples
use openab_pty.Base.{
  ℕ, ◌+◌, ◌-◌, Bool, true, false, ◌&&◌, ◌||◌, not, Option, none, some, List, [], ◌∷◌, ◌++◌, length,
  drop, ltb, leb, ◌==◌, if◌then◌else◌, eq_bytes, lookup, insert, remove, codes,
}
use openab_pty.Crate.{
  SessionName, Generation, Error, not_found, already_exists, session_dead, capacity_exceeded,
  unauthorized, Result, ok, err, session_ended, renewed,
}
use openab_pty.Crate
use openab_pty.Audit.{
  TerminationClass, self_exit, AuditEvent, session_create, session_renew, session_restart,
  takeover_anomaly, attach, with_session, with_source, with_detail,
}
use openab_pty.Audit
use openab_pty.Token.{TokenStore, MintedAttachToken, mint_for_session, revoke_session}
use openab_pty.Session.Policy.{SessionPolicy, WindowSize, default_size}
use openab_pty.Session.Outbound.{close}
use openab_pty.Session.Handle.{Session, fresh, on_outbound}
use openab_pty.Session.Attach.{
  Attempt, stale_generation, rate_limited, won, attach_locked, attach_deliver, renew_locked,
  teardown_locked, cleared,
}

abbrev pub max_tombstones : ℕ
max_tombstones = 32

-- The fields of `PtyConfig` that the manager reads.
pub record ManagerConfig : Type 0 where
  pub max_sessions : ℕ
  pub scrollback_kib : ℕ
  pub scrollback_replay : Bool
  pub filter_terminal_responses : Bool

pub record Tombstone : Type 0 where
  pub generation : Generation
  pub class : TerminationClass

pub record Metrics : Type 0 where
  pub sessions_created : ℕ
  pub admission_rejected : ℕ
  pub takeovers : ℕ
  pub takeovers_rate_limited : ℕ
  pub ttl_expired : ℕ
  pub self_exits : ℕ

-- `audit` is the log, oldest first.
pub record SessionManager : Type 0 where
  pub sessions : List (SessionName × Session)
  pub claimed : List SessionName
  pub tombstones : List (SessionName × Tombstone)
  pub config : ManagerConfig
  pub policy : SessionPolicy
  pub tokens : TokenStore
  pub best_effort : Bool
  pub metrics : Metrics
  pub audit : List AuditEvent

pub record SessionCredential : Type 0 where
  pub session : SessionName
  pub generation : Generation
  pub token : MintedAttachToken

unfoldable pub record_events : List AuditEvent → SessionManager → SessionManager
record_events es m = record m { audit = m.audit ++ es }

unfoldable pub contains_name : SessionName → List SessionName → Bool
contains_name n [] = false
contains_name n (x ∷ xs) = eq_bytes x n || contains_name n xs

unfoldable pub remove_name : SessionName → List SessionName → List SessionName
remove_name n [] = []
remove_name n (x ∷ xs) = let rest = remove_name n xs in if eq_bytes x n then rest else x ∷ rest

unfoldable pub alive_count : List (SessionName × Session) → ℕ
alive_count [] = 0
alive_count ((n, s) ∷ m) = (if s.io_alive then 1 else 0) + alive_count m

-- `lookup` succeeds, or the name is claimed already.
unfoldable pub taken : SessionManager → SessionName → Bool
unfolding contains_name
taken m name = elim (lookup name m.sessions) [ some s ↦ true | none ↦ contains_name name m.claimed ]

unfoldable pub claim_name : SessionManager → SessionName → Result SessionName × SessionManager
unfolding taken alive_count
claim_name m name =
    if taken m name
    then (err (already_exists name), m)
    else if ltb m.config.max_sessions (alive_count m.sessions + length (name ∷ m.claimed))
    then (
      err (capacity_exceeded m.config.max_sessions),
      record m {
        metrics = record m.metrics { admission_rejected = m.metrics.admission_rejected + 1 };
      },
    )
    else (ok name, record m { claimed = name ∷ m.claimed })

-- The claim's `Drop`.
unfoldable pub release_claim : SessionManager → SessionName → SessionManager
unfolding remove_name
release_claim m name = record m { claimed = remove_name name m.claimed }

-- The session that the new one displaces is torn down by a task of its own.
unfoldable pub publish : SessionManager → SessionName → Session → Option Session × SessionManager
unfolding remove_name
publish m name s = (
  lookup name m.sessions,
  record m { claimed = remove_name name m.claimed; sessions = insert name s m.sessions },
)

unfoldable pub forget : SessionManager → SessionName → SessionManager
forget m name = record m { sessions = remove name m.sessions }

unfoldable pub last_of : ℕ → List (SessionName × Tombstone) → List (SessionName × Tombstone)
last_of n ts = drop (length ts - n) ts

unfoldable pub remember_dead :
    SessionManager → SessionName → Generation → TerminationClass → SessionManager
unfolding last_of
remember_dead m name generation class = record m {
  tombstones =
      last_of max_tombstones
        (m.tombstones ++ ((name, record { generation = generation; class = class }) ∷ []));
}

-- The newest tombstone of a name.
unfoldable pub newest : SessionName → List (SessionName × Tombstone) → Option Tombstone
newest n [] = none
newest n ((dead, t) ∷ ts) = elim (newest n ts) [
  | some later ↦ some later
  | none ↦ if eq_bytes dead n then some t else none
]

unfoldable pub without_newest :
    SessionName → List (SessionName × Tombstone) → List (SessionName × Tombstone)
unfolding newest
without_newest n [] = []
without_newest n ((dead, t) ∷ ts) =
    let rest = without_newest n ts in
    elim (newest n ts) [
      | some later ↦ (dead, t) ∷ rest
      | none ↦ if eq_bytes dead n then ts else (dead, t) ∷ ts
    ]

unfoldable pub peek_tombstone : SessionManager → SessionName → Option TerminationClass
unfolding newest
peek_tombstone m name = elim (newest name m.tombstones) [ none ↦ none | some t ↦ some t.class ]

unfoldable pub take_tombstone : SessionManager → SessionName → Option Tombstone × SessionManager
unfolding newest without_newest
take_tombstone m name =
    (newest name m.tombstones, record m { tombstones = without_newest name m.tombstones })

-- What replaces a session in the map after a step on it.
unfoldable pub with_session_state : SessionManager → SessionName → Session → SessionManager
with_session_state m name s = record m { sessions = insert name s m.sessions }
