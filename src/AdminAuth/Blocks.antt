-- ===== src/AdminAuth/Blocks.antt =====
-- What an attempt does to the blocks of runtime/src/admin_auth.rs.
pub mod Bounds
pub mod Kept
use mathlib.Core.Path.{subst}
use openab_pty.Base.{
  ℕ, ◌-◌, ◌<◌, ◌≡◌, refl, sym, ◌∙◌, ap, inl, inr, Bool, true, false, not, Option, none, some, List,
  [], ◌∷◌, arith, length, leb, ltb, if◌then◌else◌, Bool-cases, Bool-split, Option-cases,
  Option-split, eq_bytes, eq_bytes_iff, lookup, insert, lookup-insert,
}
use openab_pty.AdminAuth.{
  AdminAuthFailure, invalid, throttled, FailureState, Failures, AdminAuthenticator, remaining,
  is_blocked, contains_key, blocked_for, keep, prune, failed_once_more, roomy, count_failure,
  source_key, record_failure, audit_failure, count_or_throttle, reject_unauthenticated, verify,
}
use openab_pty.AdminAuth.Table.{make_room_kept, make_room-IsBounded}
use openab_pty.AdminAuth.Table.Entries.{
  IsBounded, lookup-modify, modify-IsBounded, prune_kept, prune-IsBounded, remove-IsBounded,
}
use openab_pty.AdminAuth.Blocks.Bounds.{after_failure, count_or_throttle-IsBounded}
use openab_pty.AdminAuth.Blocks.Kept.{
  BlockedTill, blocked_for_kept, own_block, throttles, counted_kept,
}

-- A request as the server makes it: with a credential, or without one.
pub data Request : Type 0 where
  presents :
      (presented : List ℕ) (source : Option (List ℕ)) (permit : Bool) (checked counted : ℕ)
      → Request
  omits : (source : Option (List ℕ)) (checked counted : ℕ) → Request

module _ (sha256 : List ℕ → List ℕ) where
  unfoldable pub serve : Request → AdminAuthenticator → AdminAuthenticator
  unfolding verify reject_unauthenticated
  serve (presents presented source permit checked counted) a =
      (verify sha256 presented source permit checked counted a).2
  serve (omits source checked counted) a = (reject_unauthenticated source checked counted a).1

  unfoldable pub serve_all : List Request → AdminAuthenticator → AdminAuthenticator
  unfolding serve
  serve_all [] a = a
  serve_all (r ∷ rs) a = serve_all rs (serve r a)

  abbrev Bounded : Option AdminAuthFailure × List ℕ × AdminAuthenticator → Type 0
  Bounded r = IsBounded r.2.failures

  serve-IsBounded :
      (r : Request) (a : AdminAuthenticator) → IsBounded a.failures → IsBounded (serve r a).failures
  unfolding serve reject_unauthenticated verify audit_failure
  serve-IsBounded (omits source checked counted) a b =
      count_or_throttle-IsBounded source _ invalid checked counted a b
  serve-IsBounded (presents presented source permit checked counted) a b =
      Bool-split Bounded (ltb 1024 (length presented))
        (λ e. count_or_throttle-IsBounded source _ _ checked counted a b)
        (λ e.
          Bool-split Bounded (not permit) (λ f. b)
            (λ f.
              Bool-split Bounded (eq_bytes (sha256 presented) a.verifier)
                (λ g. remove-IsBounded (source_key source) a.failures b)
                (λ g. count_or_throttle-IsBounded source _ _ checked counted a b)))

  -- From a bounded table, whatever requests are served, at most 256 sources are tracked, each by
  -- one entry.
  pub serve_all-IsBounded :
      (rs : List Request) (a : AdminAuthenticator)
      → IsBounded a.failures
      → IsBounded (serve_all rs a).failures
  unfolding serve_all
  serve_all-IsBounded [] a b = b
  serve_all-IsBounded (r ∷ rs) a b = serve_all-IsBounded rs (serve r a) (serve-IsBounded r a b)

-- On a bounded table, while a source is blocked at both clock readings of an attempt, the end of
-- its block and its count of failures stay what they are after a failed attempt from any source,
-- and an attempt from the source itself is throttled with the time that is left.
pub block_kept :
    (source : Option (List ℕ)) (detail : List ℕ) (failure : AdminAuthFailure) (checked counted : ℕ)
    → (a : AdminAuthenticator) (k : List ℕ) (until failures : ℕ) → IsBounded a.failures
    → BlockedTill until failures (lookup k a.failures)
    → checked < until
    → counted < until
    → BlockedTill until failures
        (lookup k (count_or_throttle source detail failure checked counted a).1.failures)
      × (source_key source ≡ k
          → (count_or_throttle source detail failure checked counted a).0
            ≡ throttled (until - checked))
block_kept source detail failure checked counted a k until failures b h early later =
    let key = source_key source in
    (
      subst (λ m. BlockedTill until failures (lookup k m))
          (sym (after_failure source detail failure checked counted a))
          (Option-split (λ m. BlockedTill until failures (lookup k m))
            (blocked_for key checked a.failures).0
            (λ e. elim (Bool-cases (eq_bytes key k)) [
              | inl same ↦
                  let own =
                    own_block key checked until failures a.failures
                      (subst (λ j. BlockedTill until failures (lookup j a.failures))
                        (sym ((eq_bytes_iff key k).0 same)) h)
                      early in
                  absurd (none_ne_some (sym e ∙ own))
              | inr apart ↦
                  counted_kept a.base_backoff key k checked counted until failures a.failures b h
                    later apart
            ])
            (λ r e. blocked_for_kept key k checked until failures a.failures h)),
      λ same. throttles source detail failure checked counted (until - checked) a (
          own_block key checked until failures a.failures
            (subst (λ j. BlockedTill until failures (lookup j a.failures)) (sym same) h) early),
    )
  where
    none_ne_some : {n : ℕ} → none ≡ some n → ⊥
    none_ne_some p = cc
