-- ===== src/Session/Attach/Ttl.antt =====
-- When `tick` ends or warns a session (runtime/src/session.rs).
use openab_pty.Base.{ℕ, ◌+◌, ◌*◌, ◌≤◌, ◌≡◌, ◌↔◌, ◌⊎◌, Bool, true, false, Option, none, some, arith}
use openab_pty.Session.Policy.{SessionPolicy}
use openab_pty.Session.Handle.{Session}
use openab_pty.Session.Attach.{TtlDecision, expire, warn, ttl_decision, idle_deadline}

-- Past its absolute lifetime, attached or not; or past its idle time and not attached.
abbrev pub IsExpired : SessionPolicy → Session → (now : ℕ) → Type 0
IsExpired p s now =
    (s.created_at + p.absolute_ttl ≤ now)
    ⊎ ((s.owner_conn ≡ 0) × (s.last_activity_ms * 1_000_000 + p.detached_idle_ttl ≤ now))

unfoldable pub is_expiry : Option TtlDecision → Bool
is_expiry none = false
is_expiry (some (expire absolute)) = true
is_expiry (some (warn absolute seconds)) = false

-- A tick ends a session exactly if it lives and one of its two lifetimes is over: the absolute
-- one, or the idle one without an owner.
pub ttl_decision_iff :
    (p : SessionPolicy) (s : Session) (now : ℕ)
    → (is_expiry (ttl_decision p s now).0 ≡ true) ↔ ((s.alive ≡ true) × IsExpired p s now)
unfolding is_expiry ttl_decision idle_deadline
ttl_decision_iff p s now = (λ h. ground arith, λ h. ground arith)
