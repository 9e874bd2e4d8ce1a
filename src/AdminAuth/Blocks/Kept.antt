-- ===== src/AdminAuth/Blocks/Kept.antt =====
-- An attempt keeps the active blocks of runtime/src/admin_auth.rs.
use mathlib.Core.Path.{subst}
use openab_pty.Base.{
  ℕ, ◌-◌, ◌<◌, ◌≡◌, refl, sym, ◌∙◌, ap, true, false, Option, none, some, List, arith, length, leb,
  if◌then◌else◌, Bool-split, Option-split, eq_bytes, lookup, lookup-insert,
}
use openab_pty.AdminAuth.{
  AdminAuthFailure, throttled, FailureState, Failures, AdminAuthenticator, remaining, is_blocked,
  contains_key, blocked_for, keep, prune, failed_once_more, roomy, count_failure, source_key,
  count_or_throttle,
}
use openab_pty.AdminAuth.Blocks.Bounds.{blocked_for-IsBounded}
use openab_pty.AdminAuth.Table.{make_room_kept}
use openab_pty.AdminAuth.Table.Entries.{IsBounded, lookup-modify, prune_kept, prune-IsBounded}

-- An entry whose block lasts until `until`, after that many failures.
abbrev pub BlockedTill : (until failures : ℕ) → Option FailureState → Type 0
BlockedTill until failures none = ⊥
BlockedTill until failures (some e) =
    (e.blocked_until ≡ some until) × (e.consecutive_failures ≡ failures)

blocked_lem :
    (e : FailureState) (until now : ℕ)
    → e.blocked_until ≡ some until
    → now < until
    → (is_blocked e now ≡ true) × (remaining e now ≡ some (until - now))
unfolding is_blocked remaining
blocked_lem e until now b h = (ground (arith, b), ground (arith, b))

roomy_kept :
    (key k : List ℕ) (now : ℕ) (e : FailureState) (m : Failures)
    → IsBounded m
    → lookup k m ≡ some e
    → is_blocked e now ≡ true
    → lookup k (roomy key now m) ≡ some e
unfolding roomy keep
roomy_kept key k now e m b h blocked =
    let p = prune_kept now k e m h (kept e now blocked) in
    Bool-split (λ n. lookup k n ≡ some e) (contains_key key (prune now m)) (λ c. p)
      (λ c. make_room_kept now k e (prune now m) (prune-IsBounded now m b).distinct p blocked)
  where
    kept : (e : FailureState) (now : ℕ) → is_blocked e now ≡ true → keep e now ≡ true
    kept e now h = ground (arith, h)

-- A failure that is counted changes the entry of its own source only, if it is blocked.
count_failure_kept :
    (base : ℕ) (key k : List ℕ) (now : ℕ) (e : FailureState) (m : Failures)
    → IsBounded m
    → lookup k m ≡ some e
    → is_blocked e now ≡ true
    → eq_bytes key k ≡ false
    → lookup k (count_failure base key now m) ≡ some e
unfolding count_failure
count_failure_kept base key k now e m b h blocked apart =
    let r = roomy_kept key k now e m b h blocked in
    let other =
      λ (o : Option FailureState). ap (λ t. if t then o else lookup k (roomy key now m)) apart in
    Bool-split (λ n. lookup k n ≡ some e) (contains_key key (roomy key now m))
      (λ c. lookup-modify key k (failed_once_more base now) (roomy key now m) ∙ other _ ∙ r)
      (λ c.
        Bool-split (λ n. lookup k n ≡ some e) (leb 256 (length (roomy key now m))) (λ f. r)
          (λ f. lookup-insert key k _ (roomy key now m) ∙ other _ ∙ r))

pub blocked_for_kept :
    (key k : List ℕ) (now until failures : ℕ) (m : Failures)
    → BlockedTill until failures (lookup k m)
    → BlockedTill until failures (lookup k (blocked_for key now m).1)
unfolding blocked_for
blocked_for_kept key k now until failures m h =
    Option-split (λ (r : Option ℕ × Failures). BlockedTill until failures (lookup k r.1))
      (lookup key m) (λ e. h)
      (λ entry e.
        subst (BlockedTill until failures)
          (sym (lookup-modify key k (λ x. record x { last_seen = now }) m))
          (Bool-split (BlockedTill until failures) (eq_bytes key k) (λ same. seen (lookup k m) h)
            (λ apart. h)))
  where
    seen :
        (o : Option FailureState)
        → BlockedTill until failures o
        → BlockedTill until failures
            (elim o [ none ↦ none | some e ↦ some (record e { last_seen = now }) ])
    seen none h = h
    seen (some e) h = h

entry_of :
    (until failures : ℕ) (o : Option FailureState)
    → BlockedTill until failures o
    → (e : FailureState) × (o ≡ some e)
      × (e.blocked_until ≡ some until)
      × (e.consecutive_failures ≡ failures)
entry_of until failures none h = absurd h
entry_of until failures (some e) h = (e, refl, h.0, h.1)

pub own_block :
    (key : List ℕ) (checked until failures : ℕ) (m : Failures)
    → BlockedTill until failures (lookup key m)
    → checked < until
    → (blocked_for key checked m).0 ≡ some (until - checked)
unfolding blocked_for
own_block key checked until failures m h early =
    let (e, found, b, f) = entry_of until failures (lookup key m) h in
    ground (arith, found, (blocked_lem e until checked b early).1)

pub throttles :
    (source : Option (List ℕ)) (detail : List ℕ) (failure : AdminAuthFailure)
    (checked counted r : ℕ)
    → (a : AdminAuthenticator) → (blocked_for (source_key source) checked a.failures).0 ≡ some r
    → (count_or_throttle source detail failure checked counted a).0 ≡ throttled r
unfolding count_or_throttle
throttles source detail failure checked counted r a e = ground (arith, e)

pub counted_kept :
    (base : ℕ) (key k : List ℕ) (checked counted until failures : ℕ) (m : Failures)
    → IsBounded m
    → BlockedTill until failures (lookup k m)
    → counted < until
    → eq_bytes key k ≡ false
    → BlockedTill until failures
        (lookup k (count_failure base key counted (blocked_for key checked m).1))
counted_kept base key k checked counted until failures m b h early apart =
    let s = (blocked_for key checked m).1 in
    let kept = blocked_for_kept key k checked until failures m h in
    let (e, found, till, n) = entry_of until failures (lookup k s) kept in
    let blocked = (blocked_lem e until counted till early).0 in
    subst (BlockedTill until failures)
      (sym (
        count_failure_kept base key k counted e s (blocked_for-IsBounded key checked m b) found
          blocked apart))
      (till, n)
