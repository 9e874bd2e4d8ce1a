-- ===== src/Server/Limiter/Uses.antt =====
-- Sequences of uses of `UpgradeFailureLimiter` (runtime/src/server.rs): checks, failures and successes.
use mathlib.Core.Path.{subst}
use openab_pty.Base.{
  ℕ, ◌+◌, ◌-◌, ◌≤◌, ◌<◌, ◌≡◌, refl, ◌∙◌, ap, Bool, true, false, Option, none, some, List, [], ◌∷◌,
  arith, if◌then◌else◌, Option-split, eq_bytes, lookup, lookup-remove, Distinct, remove-Distinct,
  insert-Distinct,
}
use openab_pty.Server.Limiter.{
  Windows, UpgradeFailureLimiter, new_limiter, check_at, prune_windows, with_slot, first_seen,
  failed, count_on, recorded, record_failure_at, on_success,
}
use openab_pty.Server.Limiter.Kept.{update-Distinct, prune_windows-Distinct, with_slot-Distinct}
use openab_pty.Server.Limiter.Bans.{
  count_on-starts, check_banned, BannedTill, update_till, Bans, record_failure_at-Bans,
}

-- What connections do to the limiter, each at its time.
pub data Use : Type 0 where
  checks fails : (source : List ℕ) (now : ℕ) → Use
  succeeds : (source : List ℕ) → Use

unfoldable pub use_limiter : Use → UpgradeFailureLimiter → UpgradeFailureLimiter
use_limiter (checks source now) l = (check_at source now l).1
use_limiter (fails source now) l = (record_failure_at source now l).1
use_limiter (succeeds source) l = on_success source l

unfoldable pub use_all : List Use → UpgradeFailureLimiter → UpgradeFailureLimiter
unfolding use_limiter
use_all [] l = l
use_all (u ∷ us) l = use_all us (use_limiter u l)

-- Uses from `start` on and before `end`, no success of the source among them.
abbrev pub During : (source : List ℕ) (start end : ℕ) → List Use → Type 0
During source start end [] = Unit
During source start end (checks other now ∷ us) =
    (start ≤ now) × (now < end) × During source start end us
During source start end (fails other now ∷ us) =
    (start ≤ now) × (now < end) × During source start end us
During source start end (succeeds other ∷ us) =
    (eq_bytes other source ≡ false) × During source start end us

count_on-Distinct :
    (source : List ℕ) (limit window ban now : ℕ) (m : Windows)
    → Distinct m
    → Distinct (count_on source limit window ban now m).1
unfolding count_on
count_on-Distinct source limit window ban now m d =
    Option-split (λ (t : Bool × Windows). Distinct t.1) (lookup source m)
      (λ n. insert-Distinct source (failed limit window ban now (first_seen now)).1 m n d)
      (λ e f. update-Distinct source (λ e. (failed limit window ban now e).1) m d)

record_failure_at-Distinct :
    (source : List ℕ) (now : ℕ) (l : UpgradeFailureLimiter)
    → Distinct l.entries
    → Distinct (record_failure_at source now l).1.entries
unfolding record_failure_at recorded
record_failure_at-Distinct source now l d =
    counted (prune_windows-Distinct now l.window l.ban l.entries d)
      (with_slot source now (prune_windows now l.window l.ban l.entries)) refl
  where
    pruned : Windows
    pruned = prune_windows now l.window l.ban l.entries

    counted :
        Distinct pruned
        → (o : Option Windows) → with_slot source now pruned ≡ o
        → Distinct (recorded source now l pruned o).1.entries
    counted d none f = d
    counted d (some m) f =
        count_on-Distinct source l.limit l.window l.ban now m
          (with_slot-Distinct source now pruned m d f)

use_limiter-Distinct :
    (u : Use) (l : UpgradeFailureLimiter) → Distinct l.entries → Distinct (use_limiter u l).entries
unfolding use_limiter check_at on_success
use_limiter-Distinct (checks source now) l d =
    update-Distinct source (λ e. record e { last_seen = now }) l.entries d
use_limiter-Distinct (fails source now) l d = record_failure_at-Distinct source now l d
use_limiter-Distinct (succeeds source) l d = remove-Distinct source l.entries d

check_at-Bans :
    (other k : List ℕ) (now until : ℕ) (l : UpgradeFailureLimiter)
    → Bans k until l.entries
    → Bans k until (check_at other now l).1.entries
unfolding check_at
check_at-Bans other k now until l b = record {
  distinct = update-Distinct other (λ e. record e { last_seen = now }) l.entries b.distinct;
  till = update_till other k (λ e. record e { last_seen = now }) until l.entries (λ e h. h) b.till;
}

on_success-Bans :
    (other k : List ℕ) (until : ℕ) (l : UpgradeFailureLimiter)
    → eq_bytes other k ≡ false
    → Bans k until l.entries
    → Bans k until (on_success other l).entries
unfolding on_success
on_success-Bans other k until l apart b =
    let (e, found, long) = b.till in
    record {
      distinct = remove-Distinct other l.entries b.distinct;
      till = (
        e,
        lookup-remove other k l.entries
            ∙ ap (λ t. if t then none else lookup k l.entries) apart
            ∙ found,
        long,
      );
    }

ban-record_failure_at :
    (source : List ℕ) (now : ℕ) (l : UpgradeFailureLimiter)
    → (record_failure_at source now l).1.ban ≡ l.ban
unfolding record_failure_at recorded
ban-record_failure_at source now l = ground arith

ban-use_limiter : (u : Use) (l : UpgradeFailureLimiter) → (use_limiter u l).ban ≡ l.ban
unfolding use_limiter check_at on_success
ban-use_limiter (checks source now) l = refl
ban-use_limiter (fails source now) l = ban-record_failure_at source now l
ban-use_limiter (succeeds source) l = refl

-- After any uses, each source has one entry, and the length of a ban is as it was.
use_all_kept :
    (us : List Use) (l : UpgradeFailureLimiter)
    → Distinct l.entries
    → Distinct (use_all us l).entries × ((use_all us l).ban ≡ l.ban)
unfolding use_all
use_all_kept [] l d = (d, refl)
use_all_kept (u ∷ us) l d =
    let (d', e) = use_all_kept us (use_limiter u l) (use_limiter-Distinct u l d) in
    (d', e ∙ ban-use_limiter u l)

use_all-Bans :
    (source : List ℕ) (start ban : ℕ) (us : List Use) (l : UpgradeFailureLimiter)
    → l.ban ≡ ban
    → During source start (start + ban) us
    → Bans source (start + ban) l.entries
    → Bans source (start + ban) (use_all us l).entries
unfolding use_all use_limiter check_at on_success
use_all-Bans source start ban [] l e d b = b
use_all-Bans source start ban (checks other now ∷ us) l e d b =
    use_all-Bans source start ban us (check_at other now l).1 e d.2
      (check_at-Bans other source now (start + ban) l b)
use_all-Bans source start ban (fails other now ∷ us) l e d b =
    use_all-Bans source start ban us (record_failure_at other now l).1
      (ban-record_failure_at other now l ∙ e) d.2
      (record_failure_at-Bans other source now (start + ban) l d.1 (omega (arith, e)) b)
use_all-Bans source start ban (succeeds other ∷ us) l e d b =
    use_all-Bans source start ban us (on_success other l) e d.1
      (on_success-Bans other source (start + ban) l d.0 b)

starts-Bans :
    (source : List ℕ) (start : ℕ) (l : UpgradeFailureLimiter)
    → Distinct l.entries
    → (record_failure_at source start l).0 ≡ true
    → BannedTill (start + l.ban) (lookup source (record_failure_at source start l).1.entries)
unfolding record_failure_at recorded
starts-Bans source start l d =
    counted (with_slot source start (prune_windows start l.window l.ban l.entries))
  where
    contrary : false ≡ true → ⊥
    contrary h = cc

    pruned : Windows
    pruned = prune_windows start l.window l.ban l.entries

    counted :
        (o : Option Windows)
        → (recorded source start l pruned o).0 ≡ true
        → BannedTill (start + l.ban) (lookup source (recorded source start l pruned o).1.entries)
    counted none h = absurd (contrary h)
    counted (some m) h =
        let (entry, found, until) = count_on-starts source l.limit l.window l.ban start m h in
        (entry, found, (start + l.ban, until, omega arith))

refuses :
    (source : List ℕ) (until later : ℕ) (l : UpgradeFailureLimiter)
    → BannedTill until (lookup source l.entries)
    → later < until
    → (retry : ℕ) × ((check_at source later l).0 ≡ some retry) × (until - later ≤ retry)
refuses source until later l (e, found, (u, b, long)) lt =
    (u - later, check_banned source u later l e found b ∙ ground (arith, lt, long), omega arith)

-- A limiter that has seen any uses, and then a failed upgrade that starts a ban of its source:
-- until the ban is over a check refuses the source, for no less than the time that is left of the
-- ban, whatever checks and failures of any sources and successes of other sources have come in
-- between, at times from the failure on and before the ban is over.
pub ban_lasts :
    (limit window ban : ℕ) (before after : List Use) (source : List ℕ) (start later : ℕ)
    → (record_failure_at source start (use_all before (new_limiter limit window ban))).0 ≡ true
    → During source start (start + ban) after
    → later < start + ban
    → (retry : ℕ) × ((check_at source later (
          use_all after
            (record_failure_at source start (use_all before (new_limiter limit window ban))).1)).0
        ≡ some retry)
      × ((start + ban) - later ≤ retry)
unfolding new_limiter
ban_lasts limit window ban before after source start later h d lt =
    let l = use_all before (new_limiter limit window ban) in
    let (distinct, same) = use_all_kept before (new_limiter limit window ban) tt in
    let started : BannedTill (start + ban)
        (lookup source (record_failure_at source start l).1.entries) =
      subst
        (λ n. BannedTill (start + n) (lookup source (record_failure_at source start l).1.entries))
        same (starts-Bans source start l distinct h) in
    refuses source (start + ban) later (use_all after (record_failure_at source start l).1)
      (use_all-Bans source start ban after (record_failure_at source start l).1
        (ban-record_failure_at source start l ∙ same) d
        (record {
          distinct = record_failure_at-Distinct source start l distinct;
          till = started;
        })).till
      lt
