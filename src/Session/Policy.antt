-- ===== src/Session/Policy.antt =====
-- Policy values and window sizes (runtime/src/session.rs). Durations are nanoseconds.
use openab_pty.Base.{ℕ, ◌*◌, ◌≤◌, ◌≡◌, ◌↔◌, ◌&&◌, ◌||◌, not, arith, ltb, leb, ◌==◌, if◌then◌else◌}
use openab_pty.Crate.{config, other, Result, ok, err}

abbrev pub secs : ℕ → ℕ
secs n = n * 1_000_000_000

abbrev pub ping_interval_default : ℕ
ping_interval_default = secs 20

abbrev pub missed_pings_default : ℕ
missed_pings_default = 3

abbrev pub ttl_warning_lead_default : ℕ
ttl_warning_lead_default = secs 30

abbrev pub max_takeovers_default : ℕ
max_takeovers_default = 3

abbrev pub takeover_window_default : ℕ
takeover_window_default = secs 60

abbrev pub teardown_grace_default : ℕ
teardown_grace_default = secs 5

pub record SessionPolicy : Type 0 where
  pub detached_idle_ttl : ℕ
  pub absolute_ttl : ℕ
  pub ping_interval : ℕ
  pub missed_pings_before_detached : ℕ
  pub ttl_warning_lead : ℕ
  pub max_takeovers_per_window : ℕ
  pub takeover_window : ℕ
  pub teardown_grace : ℕ

unfoldable pub default_policy : SessionPolicy
default_policy = record {
  detached_idle_ttl = secs (30 * 60);
  absolute_ttl = secs (12 * 60 * 60);
  ping_interval = ping_interval_default;
  missed_pings_before_detached = missed_pings_default;
  ttl_warning_lead = ttl_warning_lead_default;
  max_takeovers_per_window = max_takeovers_default;
  takeover_window = takeover_window_default;
  teardown_grace = teardown_grace_default;
}

-- The two lifetimes of the configuration.
unfoldable pub from_config : (detached_idle_ttl absolute_session_ttl : ℕ) → SessionPolicy
from_config detached_idle_ttl absolute_session_ttl = record default_policy {
  detached_idle_ttl = detached_idle_ttl;
  absolute_ttl = absolute_session_ttl;
}

-- The accepted policy is the policy itself.
unfoldable pub validate : SessionPolicy → Result SessionPolicy
validate p =
    if ltb p.ping_interval (secs 15) || ltb (secs 30) p.ping_interval
    then err (config "ping_interval must be between 15s and 30s")
    else if not (leb 2 p.missed_pings_before_detached && leb p.missed_pings_before_detached 3)
    then err (config "missed_pings_before_detached must be 2 or 3")
    else if (p.detached_idle_ttl == 0) || (p.absolute_ttl == 0)
    then err (config "TTLs must be non-zero")
    else if (p.max_takeovers_per_window == 0) || (p.takeover_window == 0)
    then err (config "takeover rate limit must permit at least one takeover per window")
    else ok p

-- The bands of the design: what `validate` promises the rest of the runtime.
pub record IsValid (p : SessionPolicy) : Type 0 where
  pub ping : (secs 15 ≤ p.ping_interval) × (p.ping_interval ≤ secs 30)
  pub missed : (2 ≤ p.missed_pings_before_detached) × (p.missed_pings_before_detached ≤ 3)
  pub lifetimes : (1 ≤ p.detached_idle_ttl) × (1 ≤ p.absolute_ttl)
  pub takeovers : (1 ≤ p.max_takeovers_per_window) × (1 ≤ p.takeover_window)

-- A policy is accepted, unchanged, exactly if every value is within its band.
pub validate_iff : (p : SessionPolicy) → (validate p ≡ ok p) ↔ IsValid p
unfolding validate
validate_iff p = (λ h. ground arith, λ v. ground arith)

-- A projection of the configuration is accepted exactly if both lifetimes are positive.
pub from_config-IsValid :
    (idle absolute : ℕ)
    → (validate (from_config idle absolute) ≡ ok (from_config idle absolute))
      ↔ ((1 ≤ idle) × (1 ≤ absolute))
unfolding from_config default_policy
from_config-IsValid idle absolute = (
  λ h. ((validate_iff (from_config idle absolute)).0 h).lifetimes,
  λ h. (validate_iff (from_config idle absolute)).1 (record {
    ping = (omega arith, omega arith);
    missed = (omega arith, omega arith);
    lifetimes = h;
    takeovers = (omega arith, omega arith);
  }),
)

pub record WindowSize : Type 0 where
  pub rows : ℕ
  pub cols : ℕ

abbrev pub default_size : WindowSize
default_size = record { rows = 24; cols = 80 }

-- `1..=1000`
unfoldable pub validated : ℕ → ℕ → Result WindowSize
validated rows cols =
    if not (leb 1 rows && leb rows 1000) || not (leb 1 cols && leb cols 1000)
    then err (other "resize out of bounds")
    else ok (record { rows = rows; cols = cols })
