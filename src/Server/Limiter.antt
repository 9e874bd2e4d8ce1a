-- ===== src/Server/Limiter.antt =====
-- `UpgradeFailureLimiter` of runtime/src/server.rs: failed upgrades are counted per source address. The
-- text of an address is its key; instants and durations are nanoseconds.
pub mod Size
pub mod Kept
pub mod Bans
pub mod Uses
use openab_pty.Base.{
  ℕ, zero, suc, ◌+◌, ◌-◌, ◌*◌, ◌^◌, Bool, true, false, not, ◌&&◌, ◌||◌, Option, none, some, List,
  [], ◌∷◌, min, max, length, ltb, leb, if◌then◌else◌, eq_bytes, lookup, insert, remove,
}
use openab_pty.Session.Policy.{secs}

abbrev pub upgrade_failure_limit : ℕ
upgrade_failure_limit = 5

abbrev pub upgrade_failure_window : ℕ
upgrade_failure_window = secs 60

abbrev pub upgrade_failure_ban : ℕ
upgrade_failure_ban = secs 60

abbrev pub max_tracked_sources : ℕ
max_tracked_sources = 4096

pub record FailureWindow : Type 0 where
  pub window_start : ℕ
  pub failures : ℕ
  pub banned_until : Option ℕ
  pub last_seen : ℕ

abbrev pub Windows : Type 0
Windows = List (List ℕ × FailureWindow)

pub record UpgradeFailureLimiter : Type 0 where
  pub limit : ℕ
  pub window : ℕ
  pub ban : ℕ
  pub entries : Windows

unfoldable pub new_limiter : (limit window ban : ℕ) → UpgradeFailureLimiter
new_limiter limit window ban = record { limit = limit; window = window; ban = ban; entries = [] }

unfoldable pub default_limiter : UpgradeFailureLimiter
unfolding new_limiter
default_limiter = new_limiter upgrade_failure_limit upgrade_failure_window upgrade_failure_ban

unfoldable pub is_banned : FailureWindow → (now : ℕ) → Bool
is_banned entry now = elim entry.banned_until [ none ↦ false | some until ↦ ltb now until ]

-- `get_mut` and a change of what it finds.
unfoldable pub update : List ℕ → (FailureWindow → FailureWindow) → Windows → Windows
update source f [] = []
update source f ((k, entry) ∷ m) =
    let rest = update source f m in
    if eq_bytes k source then (k, f entry) ∷ m else (k, entry) ∷ rest

-- How long the source is still banned (`Err(retry_after)`), and the limiter afterwards.
unfoldable pub check_at :
    List ℕ → (now : ℕ) → UpgradeFailureLimiter → Option ℕ × UpgradeFailureLimiter
unfolding update
check_at source now l = (
  elim (lookup source l.entries) [
    | none ↦ none
    | some entry ↦ elim entry.banned_until [
      | none ↦ none
      | some until ↦ if ltb now until then some (until - now) else none
    ]
  ],
  record l { entries = update source (λ e. record e { last_seen = now }) l.entries },
)

unfoldable pub retained : (now window ban : ℕ) → FailureWindow → Bool
unfolding is_banned
retained now window ban entry = is_banned entry now || ltb (now - entry.last_seen) (max window ban)

unfoldable pub prune_windows : (now window ban : ℕ) → Windows → Windows
unfolding retained
prune_windows now window ban [] = []
prune_windows now window ban ((source, entry) ∷ m) =
    let rest = prune_windows now window ban m in
    if retained now window ban entry then (source, entry) ∷ rest else rest

-- The one of two that was seen least recently, the first if there is no other.
unfoldable pub staler :
    List ℕ × FailureWindow → Option (List ℕ × FailureWindow) → List ℕ × FailureWindow
staler first none = first
staler first (some second) = if ltb second.1.last_seen first.1.last_seen then second else first

-- The least recently seen entry that is not banned.
unfoldable pub oldest : (now : ℕ) → Windows → Option (List ℕ × FailureWindow)
unfolding is_banned staler
oldest now [] = none
oldest now ((source, entry) ∷ m) =
    let rest = oldest now m in
    if is_banned entry now then rest else some (staler (source, entry) rest)

unfoldable pub is_tracked : List ℕ → Windows → Bool
is_tracked source m = elim (lookup source m) [ none ↦ false | some entry ↦ true ]

-- The map with room for the source, or none if every slot is under an active ban.
unfoldable pub with_slot : List ℕ → (now : ℕ) → Windows → Option Windows
unfolding oldest is_tracked
with_slot source now m =
    if leb max_tracked_sources (length m) && not (is_tracked source m)
    then elim (oldest now m) [ none ↦ none | some victim ↦ some (remove victim.0 m) ]
    else some m

abbrev pub first_seen : (now : ℕ) → FailureWindow
first_seen now = record { window_start = now; failures = 0; banned_until = none; last_seen = now }

-- The window that the failure falls in.
unfoldable pub windowed : (window now : ℕ) → FailureWindow → FailureWindow
windowed window now entry =
    if leb window (now - entry.window_start)
    then record entry { window_start = now; failures = 0; last_seen = now }
    else record entry { last_seen = now }

-- `u32::saturating_add(1)`.
unfoldable pub one_failure_more : FailureWindow → FailureWindow
one_failure_more entry = record entry { failures = min (entry.failures + 1) (2 ^ 32 - 1) }

unfoldable pub banned : (now ban : ℕ) → FailureWindow → FailureWindow
banned now ban entry = record entry {
  failures = 0;
  window_start = now;
  banned_until = some (now + ban);
}

-- The source's entry after the failure, and whether it starts a ban.
unfoldable pub failed : (limit window ban now : ℕ) → FailureWindow → Bool × FailureWindow
unfolding windowed one_failure_more banned
failed limit window ban now entry =
    let counted = one_failure_more (windowed window now entry) in
    if leb limit counted.failures then (true, banned now ban counted) else (false, counted)

-- `entry(source).or_insert(..)` and the change of it.
unfoldable pub count_on : List ℕ → (limit window ban now : ℕ) → Windows → Bool × Windows
unfolding failed update
count_on source limit window ban now m = elim (lookup source m) [
  | some entry ↦ (
    (failed limit window ban now entry).0,
    update source (λ e. (failed limit window ban now e).1) m,
  )
  | none ↦
      let (starts, entry) = failed limit window ban now (first_seen now) in
      (starts, insert source entry m)
]

-- The failure counted on the map with room, or not counted.
unfoldable pub recorded :
    List ℕ
    → (now : ℕ) (l : UpgradeFailureLimiter) (pruned : Windows) → Option Windows
    → Bool × UpgradeFailureLimiter
unfolding count_on
recorded source now l pruned none = (false, record l { entries = pruned })
recorded source now l pruned (some m) =
    let (starts, counted) = count_on source l.limit l.window l.ban now m in
    (starts, record l { entries = counted })

unfoldable pub record_failure_at :
    List ℕ → (now : ℕ) → UpgradeFailureLimiter → Bool × UpgradeFailureLimiter
unfolding prune_windows with_slot recorded
record_failure_at source now l =
    let pruned = prune_windows now l.window l.ban l.entries in
    recorded source now l pruned (with_slot source now pruned)

unfoldable pub on_success : List ℕ → UpgradeFailureLimiter → UpgradeFailureLimiter
on_success source l = record l { entries = remove source l.entries }
