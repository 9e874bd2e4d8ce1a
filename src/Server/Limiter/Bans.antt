-- ===== src/Server/Limiter/Bans.antt =====
-- Bans (`UpgradeFailureLimiter` of runtime/src/server.rs): a source that is banned is refused until the ban
-- is over, whatever checks and failures of any sources come in between.
use openab_pty.Base.{
  ℕ, ◌+◌, ◌-◌, ◌≤◌, ◌<◌, ◌≡◌, refl, ◌∙◌, sym, ap, Bool, true, Option, none, some, List, arith, ltb,
  if◌then◌else◌, Bool-cases, ◌⊎◌, inl, inr, Option-split, eq_bytes, eq_bytes_iff, eq_bytes_refl,
  lookup, insert, lookup-insert_self, lookup-insert, Distinct, insert-Distinct,
}
use openab_pty.Server.Limiter.{
  FailureWindow, Windows, UpgradeFailureLimiter, is_banned, update, check_at, prune_windows,
  with_slot, first_seen, banned, windowed, one_failure_more, failed, count_on, recorded,
  record_failure_at,
}
use openab_pty.Server.Limiter.Kept.{
  lookup-update, update-Distinct, prune_windows-Distinct, prune_windows_kept, with_slot_kept,
}

updated_self :
    (k : List ℕ) (f : FailureWindow → FailureWindow) (m : Windows) (e : FailureWindow)
    → lookup k m ≡ some e
    → lookup k (update k f m) ≡ some (f e)
updated_self k f m e h = ground (arith, lookup-update k k f m, eq_bytes_refl k, h)

failed_banned :
    (limit window ban now : ℕ) (entry : FailureWindow)
    → (failed limit window ban now entry).0 ≡ true
    → (failed limit window ban now entry).1.banned_until ≡ some (now + ban)
unfolding failed banned
failed_banned limit window ban now entry h = ground (arith, h)

-- A failure that starts a ban leaves an entry that is banned until `now + ban`.
pub count_on-starts :
    (source : List ℕ) (limit window ban now : ℕ) (m : Windows)
    → (count_on source limit window ban now m).0 ≡ true
    → (entry : FailureWindow) × (lookup source (count_on source limit window ban now m).1
        ≡ some entry)
      × (entry.banned_until ≡ some (now + ban))
unfolding count_on
count_on-starts source limit window ban now m =
    Option-split Starts (lookup source m)
      (λ f h. (
        (failed limit window ban now (first_seen now)).1,
        lookup-insert_self source (failed limit window ban now (first_seen now)).1 m,
        failed_banned limit window ban now (first_seen now) h,
      ))
      (λ entry f h. (
        (failed limit window ban now entry).1,
        updated_self source (λ e. (failed limit window ban now e).1) m entry f,
        failed_banned limit window ban now entry h,
      ))
  where
    Starts : Bool × Windows → Type 0
    Starts t =
        t.0 ≡ true
        → (entry : FailureWindow) × (lookup source t.1 ≡ some entry)
          × (entry.banned_until ≡ some (now + ban))

pub check_banned :
    (source : List ℕ) (until now : ℕ) (l : UpgradeFailureLimiter) (entry : FailureWindow)
    → lookup source l.entries ≡ some entry
    → entry.banned_until ≡ some until
    → (check_at source now l).0 ≡ (if ltb now until then some (until - now) else none)
unfolding check_at
check_banned source until now l entry h b = ground (arith, h, b)

-- The source's entry says that it is banned until then, or for longer.
abbrev pub BannedTill : (until : ℕ) → Option FailureWindow → Type 0
BannedTill until o =
    (e : FailureWindow) × (o ≡ some e) × ((u : ℕ) × (e.banned_until ≡ some u) × (until ≤ u))

still_banned :
    (e : FailureWindow) (u until now : ℕ)
    → e.banned_until ≡ some u
    → until ≤ u
    → now < until
    → is_banned e now ≡ true
unfolding is_banned
still_banned e u until now b le lt = ground (arith, b)

failed_until :
    (limit window ban now : ℕ) (e : FailureWindow)
    → ((failed limit window ban now e).1.banned_until ≡ e.banned_until)
      ⊎ ((failed limit window ban now e).1.banned_until ≡ some (now + ban))
unfolding failed banned windowed one_failure_more
failed_until limit window ban now e = ground arith

failed_till :
    (limit window ban now until : ℕ) (e : FailureWindow)
    → until ≤ now + ban
    → ((u : ℕ) × (e.banned_until ≡ some u) × (until ≤ u))
    → (u : ℕ) × ((failed limit window ban now e).1.banned_until ≡ some u) × (until ≤ u)
failed_till limit window ban now until e le (u, b, h) = elim (failed_until limit window ban now e) [
  | inl same ↦ (u, same ∙ b, h)
  | inr longer ↦ (now + ban, longer, le)
]

insert_till :
    (source k : List ℕ) (until : ℕ) (entry : FailureWindow) (m : Windows)
    → lookup source m ≡ none
    → BannedTill until (lookup k m)
    → BannedTill until (lookup k (insert source entry m))
insert_till source k until entry m n (e, h, b) = elim (Bool-cases (eq_bytes source k)) [
  | inl same ↦ absurd (absent (sym n ∙ ap (λ j. lookup j m) ((eq_bytes_iff source k).0 same) ∙ h))
  | inr apart ↦ (
    e,
    lookup-insert source k entry m ∙ ap (λ t. if t then some entry else lookup k m) apart ∙ h,
    b,
  )
]
  where
    absent : none ≡ some e → ⊥
    absent q = cc

pub update_till :
    (source k : List ℕ) (f : FailureWindow → FailureWindow) (until : ℕ) (m : Windows)
    → ((e : FailureWindow)
        → ((u : ℕ) × (e.banned_until ≡ some u) × (until ≤ u))
        → (u : ℕ) × ((f e).banned_until ≡ some u) × (until ≤ u))
    → BannedTill until (lookup k m)
    → BannedTill until (lookup k (update source f m))
update_till source k f until m g (e, h, b) = elim (Bool-cases (eq_bytes source k)) [
  | inl same ↦ (f e, ground (arith, lookup-update source k f m, same, h), g e b)
  | inr apart ↦ (e, ground (arith, lookup-update source k f m, apart, h), b)
]

-- The state of the limiter while a source is banned.
pub record Bans (source : List ℕ) (until : ℕ) (m : Windows) : Type 0 where
  pub distinct : Distinct m
  pub till : BannedTill until (lookup source m)

count_on-Bans :
    (source k : List ℕ) (limit window ban now until : ℕ) (m : Windows)
    → until ≤ now + ban
    → Bans k until m
    → Bans k until (count_on source limit window ban now m).1
unfolding count_on
count_on-Bans source k limit window ban now until m le b =
    Option-split (λ (t : Bool × Windows). Bans k until t.1) (lookup source m)
      (λ n. record {
        distinct =
            insert-Distinct source (failed limit window ban now (first_seen now)).1 m n b.distinct;
        till =
            insert_till source k until (failed limit window ban now (first_seen now)).1 m n b.till;
      })
      (λ e f. record {
        distinct = update-Distinct source (λ e. (failed limit window ban now e).1) m b.distinct;
        till =
            update_till source k (λ e. (failed limit window ban now e).1) until m
              (λ e. failed_till limit window ban now until e le) b.till;
      })

pub record_failure_at-Bans :
    (source k : List ℕ) (now until : ℕ) (l : UpgradeFailureLimiter)
    → now < until
    → until ≤ now + l.ban
    → Bans k until l.entries
    → Bans k until (record_failure_at source now l).1.entries
unfolding record_failure_at recorded
record_failure_at-Bans source k now until l lt le b =
    let (e, found, (u, banned, longer)) = b.till in
    let holds = still_banned e u until now banned longer lt in
    counted e u banned longer holds (prune_windows-Distinct now l.window l.ban l.entries b.distinct)
      (prune_windows_kept now l.window l.ban k e l.entries found holds)
      (with_slot source now (prune_windows now l.window l.ban l.entries)) refl
  where
    pruned : Windows
    pruned = prune_windows now l.window l.ban l.entries

    counted :
        (e : FailureWindow) (u : ℕ)
        → e.banned_until ≡ some u
        → until ≤ u
        → is_banned e now ≡ true
        → Distinct pruned
        → lookup k pruned ≡ some e
        → (o : Option Windows) → with_slot source now pruned ≡ o
        → Bans k until (recorded source now l pruned o).1.entries
    counted e u banned longer holds d h none f = record {
      distinct = d;
      till = (e, h, (u, banned, longer));
    }
    counted e u banned longer holds d h (some m) f =
        let (d', h') = with_slot_kept source now k e pruned m d h holds f in
        count_on-Bans source k l.limit l.window l.ban now until m le
          (record { distinct = d'; till = (e, h', (u, banned, longer)) })
