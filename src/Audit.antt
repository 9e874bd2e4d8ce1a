-- ===== src/Audit.antt =====
-- runtime/src/audit.rs: audit events. The time stamp (`at`) is left out: no decision reads it.
use openab_pty.Base.{
  ℕ, ◌+◌, ◌-◌, ◌/◌, ◌%◌, Option, none, some, List, [], ◌∷◌, ◌++◌, ltb, if◌then◌else◌, take, codes,
}
use openab_pty.Crate.{SessionName, Generation}

pub data TerminationClass : Type 0 where
  admin_kill ttl_expired self_exit runtime_shutdown : TerminationClass

pub data AuditKind : Type 0 where
  attach detach session_create session_kill session_renew session_restart : AuditKind
  attach_auth_failure admin_auth_failure takeover_anomaly tier1_survivor_detected : AuditKind
  token_revoked tools_grant_minted tools_grant_revoked tools_auth_failure : AuditKind
  tools_attach tools_detach : AuditKind

pub record AuditEvent : Type 0 where
  pub kind : AuditKind
  pub session : Option SessionName
  pub generation : Option Generation
  pub credential_fingerprint : Option (List ℕ)
  pub source : Option (List ℕ)
  pub termination : Option TerminationClass
  pub detail : Option (List ℕ)

unfoldable pub new : AuditKind → AuditEvent
new kind = record {
  kind = kind;
  session = none;
  generation = none;
  credential_fingerprint = none;
  source = none;
  termination = none;
  detail = none;
}

unfoldable pub with_session : AuditEvent → SessionName → Generation → AuditEvent
with_session e session generation = record e {
  session = some session;
  generation = some generation;
}

unfoldable pub session_name : AuditEvent → SessionName → AuditEvent
session_name e session = record e { session = some session }

unfoldable pub with_fingerprint : AuditEvent → List ℕ → AuditEvent
with_fingerprint e fingerprint = record e { credential_fingerprint = some fingerprint }

unfoldable pub with_source : AuditEvent → List ℕ → AuditEvent
with_source e source = record e { source = some source }

unfoldable pub with_termination : AuditEvent → TerminationClass → AuditEvent
with_termination e class = record e { termination = some class }

unfoldable pub with_detail : AuditEvent → List ℕ → AuditEvent
with_detail e detail = record e { detail = some detail }

-- `format!("{byte:02x}")`, and `hex::encode`.
abbrev pub hex_digit : ℕ → ℕ
hex_digit n = if ltb n 10 then b'0' + n else b'a' + (n - 10)

unfoldable pub hex : List ℕ → List ℕ
hex [] = []
hex (b ∷ bs) = hex_digit (b / 16) ∷ hex_digit (b % 16) ∷ hex bs

-- The digest is a parameter.
unfoldable pub hash_fingerprint : (List ℕ → List ℕ) → List ℕ → List ℕ
hash_fingerprint sha256 hash = codes "h:" ++ hex (take 8 (sha256 hash))
