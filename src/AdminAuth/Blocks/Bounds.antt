-- ===== src/AdminAuth/Blocks/Bounds.antt =====
-- An attempt keeps the failure table of runtime/src/admin_auth.rs bounded.
use mathlib.Core.Path.{subst}
use openab_pty.Base.{
  insert-Distinct, length-insert, ℕ, ◌≡◌, sym, inl, inr, false, Option, none, some, List, arith,
  length, leb, Bool-split, Option-cases, Option-split, lookup, insert,
}
use openab_pty.AdminAuth.{
  AdminAuthFailure, FailureState, Failures, AdminAuthenticator, contains_key, blocked_for, prune,
  failed_once_more, roomy, count_failure, source_key, record_failure, audit_failure,
  count_or_throttle,
}
use openab_pty.AdminAuth.Table.{make_room-IsBounded}
use openab_pty.AdminAuth.Table.Entries.{IsBounded, modify-IsBounded, prune-IsBounded}

roomy-IsBounded :
    (key : List ℕ) (now : ℕ) (m : Failures) → IsBounded m → IsBounded (roomy key now m)
unfolding roomy
roomy-IsBounded key now m b =
    let p = prune-IsBounded now m b in
    Bool-split IsBounded (contains_key key (prune now m)) (λ e. p)
      (λ e. make_room-IsBounded now (prune now m) p)

absent : (key : List ℕ) (m : Failures) → contains_key key m ≡ false → lookup key m ≡ none
unfolding contains_key
absent key m h = elim (Option-cases (lookup key m)) [
  | inl e ↦ e
  | inr (entry, e) ↦ ground (arith, e)
]

insert-IsBounded :
    (key : List ℕ) (e : FailureState) (m : Failures)
    → contains_key key m ≡ false
    → leb 256 (length m) ≡ false
    → IsBounded m
    → IsBounded (insert key e m)
insert-IsBounded key e m n room b = record {
  distinct = insert-Distinct key e m (absent key m n) b.distinct;
  few = let few = b.few in ground (arith, length-insert key e m);
}

count_failure-IsBounded :
    (base : ℕ) (key : List ℕ) (now : ℕ) (m : Failures)
    → IsBounded m
    → IsBounded (count_failure base key now m)
unfolding count_failure
count_failure-IsBounded base key now m b =
    let r = roomy-IsBounded key now m b in
    Bool-split IsBounded (contains_key key (roomy key now m))
      (λ e. modify-IsBounded key (failed_once_more base now) (roomy key now m) r)
      (λ e.
        Bool-split IsBounded (leb 256 (length (roomy key now m))) (λ f. r)
          (λ f. insert-IsBounded key _ (roomy key now m) e f r))

pub blocked_for-IsBounded :
    (key : List ℕ) (now : ℕ) (m : Failures) → IsBounded m → IsBounded (blocked_for key now m).1
unfolding blocked_for
blocked_for-IsBounded key now m b =
    Option-split (λ (r : Option ℕ × Failures). IsBounded r.1) (lookup key m) (λ e. b)
      (λ entry e. modify-IsBounded key (λ x. record x { last_seen = now }) m b)

-- The table after an attempt that failed.
pub after_failure :
    (source : Option (List ℕ)) (detail : List ℕ) (failure : AdminAuthFailure) (checked counted : ℕ)
    → (a : AdminAuthenticator)
    → ((count_or_throttle source detail failure checked counted a).1.failures
        ≡ (elim (blocked_for (source_key source) checked a.failures).0 [
          | none ↦
              count_failure a.base_backoff
                (source_key source)
                counted
                (blocked_for (source_key source) checked a.failures).1
          | some retry ↦ (blocked_for (source_key source) checked a.failures).1
        ]))
unfolding count_or_throttle record_failure audit_failure
after_failure source detail failure checked counted a =
    elim (Option-cases (blocked_for (source_key source) checked a.failures).0) [
      | inl e ↦ ground (arith, e)
      | inr (r, e) ↦ ground (arith, e)
    ]

pub count_or_throttle-IsBounded :
    (source : Option (List ℕ)) (detail : List ℕ) (failure : AdminAuthFailure) (checked counted : ℕ)
    → (a : AdminAuthenticator) → IsBounded a.failures
    → IsBounded (count_or_throttle source detail failure checked counted a).1.failures
count_or_throttle-IsBounded source detail failure checked counted a b =
    let s = blocked_for-IsBounded (source_key source) checked a.failures b in
    subst IsBounded (sym (after_failure source detail failure checked counted a)) (
      Option-split IsBounded (blocked_for (source_key source) checked a.failures).0
        (λ e. count_failure-IsBounded a.base_backoff (source_key source) counted _ s)
        (λ retry e. s))
