-- ===== src/AdminAuth.antt =====
-- runtime/src/admin_auth.rs: admin authentication and its throttle per source. Instants and durations are
-- milliseconds. The digest (crate sha2) and the hexadecimal decoder (crate hex) are parameters; what the
-- system's generator returned and whether a verification permit was free are arguments.
pub mod Table
pub mod Blocks
pub mod Credential
mod Examples
use Prim.Native.String.{String}
use openab_pty.Base.{
  ℕ, zero, suc, ◌+◌, ◌-◌, ◌*◌, ◌^◌, ◌<◌, Bool, true, false, not, ◌&&◌, ◌||◌, Option, none, some,
  List, [], ◌∷◌, ◌++◌, min, length, ltb, leb, ◌==◌, if◌then◌else◌, eq_bytes, lookup, insert, remove,
  codes,
}
use openab_pty.Crate.{Error, config, Result, ok, err}
use openab_pty.Audit.{
  AuditEvent, admin_auth_failure, with_source, with_fingerprint, with_detail, hex,
}
use openab_pty.Audit
use openab_pty.Token.{zeroize}

abbrev pub max_admin_credential_bytes : ℕ
max_admin_credential_bytes = 1024

abbrev pub default_admin_failure_backoff : ℕ
default_admin_failure_backoff = 100

abbrev pub max_admin_failure_backoff : ℕ
max_admin_failure_backoff = 5000

abbrev pub max_tracked_admin_sources : ℕ
max_tracked_admin_sources = 256

abbrev pub admin_failure_memory : ℕ
admin_failure_memory = 60000

pub data AdminAuthFailure : Type 0 where
  invalid busy too_large : AdminAuthFailure
  throttled : (retry_after : ℕ) → AdminAuthFailure

pub record FailureState : Type 0 where
  pub consecutive_failures : ℕ
  pub blocked_until : Option ℕ
  pub last_seen : ℕ

abbrev pub Failures : Type 0
Failures = List (List ℕ × FailureState)

-- `audit` is the log, oldest first.
pub record AdminAuthenticator : Type 0 where
  pub verifier : List ℕ
  pub fingerprint : List ℕ
  pub failures : Failures
  pub max_inflight : ℕ
  pub base_backoff : ℕ
  pub audit : List AuditEvent

-- How long the source is still blocked.
unfoldable pub remaining : FailureState → (now : ℕ) → Option ℕ
remaining entry now = elim entry.blocked_until [
  | none ↦ none
  | some until ↦ if ltb now until then some (until - now) else none
]

unfoldable pub is_blocked : FailureState → (now : ℕ) → Bool
is_blocked entry now = elim entry.blocked_until [ none ↦ false | some until ↦ ltb now until ]

unfoldable pub source_key : Option (List ℕ) → List ℕ
source_key none = codes "unknown"
source_key (some source) = source

-- `get_mut` and a change of what it finds.
unfoldable pub modify : List ℕ → (FailureState → FailureState) → Failures → Failures
modify key f [] = []
modify key f ((k, entry) ∷ m) =
    let rest = modify key f m in if eq_bytes k key then (k, f entry) ∷ m else (k, entry) ∷ rest

unfoldable pub contains_key : List ℕ → Failures → Bool
contains_key key m = elim (lookup key m) [ none ↦ false | some entry ↦ true ]

unfoldable pub blocked_for : (key : List ℕ) (now : ℕ) → Failures → Option ℕ × Failures
unfolding modify remaining
blocked_for key now m = elim (lookup key m) [
  | none ↦ (none, m)
  | some entry ↦ (remaining entry now, modify key (λ e. record e { last_seen = now }) m)
]

unfoldable pub keep : FailureState → (now : ℕ) → Bool
unfolding is_blocked
keep entry now = is_blocked entry now || ltb (now - entry.last_seen) admin_failure_memory

unfoldable pub prune : (now : ℕ) → Failures → Failures
unfolding keep
prune now [] = []
prune now ((key, entry) ∷ m) =
    let rest = prune now m in if keep entry now then (key, entry) ∷ rest else rest

-- The first of two candidates that was seen least recently.
unfoldable pub older :
    (List ℕ × FailureState) → Option (List ℕ × FailureState) → List ℕ × FailureState
older first none = first
older first (some second) = if ltb second.1.last_seen first.1.last_seen then second else first

-- The least recently seen entry that is not blocked.
unfoldable pub victim : (now : ℕ) → Failures → Option (List ℕ × FailureState)
unfolding is_blocked older
victim now [] = none
victim now ((key, entry) ∷ m) =
    let rest = victim now m in if is_blocked entry now then rest else some (older (key, entry) rest)

unfoldable pub make_room : (now : ℕ) → Failures → Failures
unfolding victim
make_room now m =
    if ltb (length m) max_tracked_admin_sources
    then m
    else elim (victim now m) [ none ↦ m | some (key, entry) ↦ remove key m ]

-- `base_backoff * 2^min(n - 1, 10)`, at most the maximum. No product is large enough to saturate.
unfoldable pub delay_of : (base_backoff consecutive_failures : ℕ) → ℕ
delay_of base_backoff consecutive_failures =
    min (base_backoff * 2 ^ min (consecutive_failures - 1) 10) max_admin_failure_backoff

-- `u32::saturating_add(1)`.
unfoldable pub one_more : ℕ → ℕ
one_more n = min (n + 1) (2 ^ 32 - 1)

unfoldable pub failed_once_more : (base_backoff now : ℕ) → FailureState → FailureState
unfolding delay_of one_more
failed_once_more base_backoff now entry = record {
  consecutive_failures = one_more entry.consecutive_failures;
  blocked_until = some (now + delay_of base_backoff (one_more entry.consecutive_failures));
  last_seen = now;
}

abbrev pub no_failures : (now : ℕ) → FailureState
no_failures now = record { consecutive_failures = 0; blocked_until = none; last_seen = now }

-- Pruned, and with room for a source that is not in the map.
unfoldable pub roomy : (key : List ℕ) (now : ℕ) → Failures → Failures
unfolding prune contains_key make_room
roomy key now m =
    if contains_key key (prune now m) then prune now m else make_room now (prune now m)

-- The map after the failure, counted under its source if there is room.
unfoldable pub count_failure : (base_backoff : ℕ) (key : List ℕ) (now : ℕ) → Failures → Failures
unfolding roomy failed_once_more modify contains_key
count_failure base_backoff key now m =
    if contains_key key (roomy key now m)
    then modify key (failed_once_more base_backoff now) (roomy key now m)
    else if leb max_tracked_admin_sources (length (roomy key now m))
    then roomy key now m
    else insert key (failed_once_more base_backoff now (no_failures now)) (roomy key now m)

-- The durations in the details are left out of the audit events.
unfoldable pub audit_failure :
    Option (List ℕ) → (detail : List ℕ) → AdminAuthenticator → AdminAuthenticator
audit_failure source detail a = record a {
  audit =
      a.audit
      ++ (with_detail
            (with_source (with_fingerprint (Audit.new admin_auth_failure) a.fingerprint)
              (elim source [ none ↦ codes "unknown" | some s ↦ s ]))
            detail
          ∷ []);
}

unfoldable pub record_failure :
    Option (List ℕ) → (detail : List ℕ) (now : ℕ) → AdminAuthenticator → AdminAuthenticator
unfolding count_failure audit_failure
record_failure source detail now a =
    audit_failure source detail
      (record a { failures = count_failure a.base_backoff (source_key source) now a.failures })

-- `checked` and `counted` are the times at which the two locked sections read the clock.
unfoldable pub count_or_throttle :
    Option (List ℕ)
    → (detail : List ℕ) → AdminAuthFailure
    → (checked counted : ℕ) → AdminAuthenticator
    → AdminAuthFailure × AdminAuthenticator
unfolding blocked_for record_failure audit_failure
count_or_throttle source detail failure checked counted a =
    let (retry, seen) = blocked_for (source_key source) checked a.failures in
    elim retry [
      | some retry_after ↦ (
        throttled retry_after,
        audit_failure source (detail ++ codes "; throttled") (record a { failures = seen }),
      )
      | none ↦ (failure, record_failure source detail counted (record a { failures = seen }))
    ]

unfoldable pub reject_unauthenticated :
    Option (List ℕ)
    → (checked counted : ℕ) → AdminAuthenticator
    → AdminAuthFailure × AdminAuthenticator
unfolding count_or_throttle
reject_unauthenticated source checked counted a =
    count_or_throttle source (codes "missing_or_malformed_authorization_header") invalid checked
      counted a

-- The outcome (`none`: accepted), the presented bytes afterwards, and the authenticator. `permit` says
-- that fewer verifications than allowed were in flight.
unfoldable pub verify :
    (sha256 : List ℕ → List ℕ)
    → (presented : List ℕ) (source : Option (List ℕ)) (permit : Bool) (checked counted : ℕ)
    → AdminAuthenticator
    → Option AdminAuthFailure × List ℕ × AdminAuthenticator
unfolding count_or_throttle audit_failure
verify sha256 presented source permit checked counted a =
    if ltb max_admin_credential_bytes (length presented)
    then (some large.0, zeroize presented, large.1)
    else if not permit
    then (
      some busy,
      zeroize presented,
      audit_failure source (codes "verification_concurrency_cap") a,
    )
    else if eq_bytes (sha256 presented) a.verifier
    then (none, zeroize presented, record a { failures = remove (source_key source) a.failures })
    else (some wrong.0, zeroize presented, wrong.1)
  where
    large : AdminAuthFailure × AdminAuthenticator
    large = count_or_throttle source (codes "credential_too_large") too_large checked counted a

    wrong : AdminAuthFailure × AdminAuthenticator
    wrong = count_or_throttle source (codes "invalid_credential") invalid checked counted a

unfoldable pub is_lower_hex : ℕ → Bool
is_lower_hex b = (leb b'0' b && leb b b'9') || (leb b'a' b && leb b b'f')

unfoldable pub all_lower_hex : List ℕ → Bool
unfolding is_lower_hex
all_lower_hex [] = true
all_lower_hex (b ∷ bs) = is_lower_hex b && all_lower_hex bs

-- What `strip_prefix` leaves.
unfoldable pub strip_prefix : (prefix text : List ℕ) → Option (List ℕ)
strip_prefix [] text = some text
strip_prefix (p ∷ ps) [] = none
strip_prefix (p ∷ ps) (b ∷ bs) = let rest = strip_prefix ps bs in if p == b then rest else none

unfoldable pub parse_verifier_hash :
    (decode : List ℕ → Option (List ℕ)) → (value : List ℕ) → Result (List ℕ)
unfolding strip_prefix all_lower_hex
parse_verifier_hash decode value = elim (strip_prefix (codes "sha256:") value) [
  | none ↦ err (config "admin_credential_hash must start with sha256:")
  | some hex_hash ↦
      if not (length hex_hash == 64) || not (all_lower_hex hex_hash)
      then err (
          config
            "admin_credential_hash must be sha256: followed by exactly 64 lowercase hex characters")
      else elim (decode hex_hash) [
        | none ↦ err (config "invalid admin_credential_hash hex")
        | some decoded ↦
            if length decoded == 32
            then ok decoded
            else err (config "invalid admin_credential_hash length")
      ]
]

unfoldable pub from_verifier_hash :
    (sha256 : List ℕ → List ℕ) (decode : List ℕ → Option (List ℕ))
    → (verifier_hash : List ℕ) → Result AdminAuthenticator
unfolding parse_verifier_hash
from_verifier_hash sha256 decode verifier_hash = elim (parse_verifier_hash decode verifier_hash) [
  | err e ↦ err e
  | ok verifier ↦ ok (record {
    verifier = verifier;
    fingerprint = Audit.hash_fingerprint sha256 verifier;
    failures = [];
    max_inflight = 4;
    base_backoff = default_admin_failure_backoff;
    audit = [];
  })
]

unfoldable pub with_limits :
    (sha256 : List ℕ → List ℕ) (decode : List ℕ → Option (List ℕ))
    → (verifier_hash : List ℕ) (max_inflight base_backoff : ℕ) → Result AdminAuthenticator
unfolding from_verifier_hash
with_limits sha256 decode verifier_hash max_inflight base_backoff =
    if (max_inflight == 0) || (base_backoff == 0)
    then err (config "admin authentication limits must be non-zero")
    else elim (from_verifier_hash sha256 decode verifier_hash) [
      | err e ↦ err e
      | ok a ↦ ok (record a { max_inflight = max_inflight; base_backoff = base_backoff })
    ]

-- The plaintext and the verifier that `generate` makes of the system's random bytes.
unfoldable pub generate : (sha256 : List ℕ → List ℕ) (raw : List ℕ) → List ℕ × List ℕ
generate sha256 raw = (hex raw, codes "sha256:" ++ hex (sha256 (hex raw)))
