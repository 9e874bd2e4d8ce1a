-- ===== src/Session/Takeover.antt =====
-- `TakeoverLimiter` of runtime/src/session.rs: the takeover budget of one session generation.
-- Instants are nanoseconds on a monotonic clock.
pub mod Budget
use openab_pty.Base.{ℕ, ◌+◌, ◌-◌, Bool, true, false, if◌then◌else◌, leb, ◌==◌, not}
use openab_pty.Session.Policy.{SessionPolicy}

pub record TakeoverLimiter : Type 0 where
  pub generation : ℕ
  pub window_start : ℕ
  pub count : ℕ
  pub first_attach_of_generation : Bool

unfoldable pub new : (generation now : ℕ) → TakeoverLimiter
new generation now = record {
  generation = generation;
  window_start = now;
  count = 0;
  first_attach_of_generation = true;
}

-- A new generation starts a new budget. `first` says this is its first attach.
unfoldable pub current : TakeoverLimiter → (generation now : ℕ) → TakeoverLimiter
unfolding new
current l generation now = if l.generation == generation then l else new generation now

-- A new window starts once the old one has run its length.
unfoldable pub roll : TakeoverLimiter → (now : ℕ) → SessionPolicy → TakeoverLimiter
roll l now policy =
    if leb policy.takeover_window (now - l.window_start)
    then record l { window_start = now; count = 0 }
    else l

unfoldable pub charge : TakeoverLimiter → SessionPolicy → Bool × TakeoverLimiter
charge l policy =
    if leb policy.max_takeovers_per_window l.count
    then (false, l)
    else (true, record l { count = l.count + 1 })

unfoldable pub allow :
    TakeoverLimiter → (generation now : ℕ) → SessionPolicy → Bool × TakeoverLimiter
unfolding current roll charge
allow l generation now policy =
    let l' = current l generation now in
    if l'.first_attach_of_generation
    then (true, record l' { first_attach_of_generation = false })
    else charge (roll l' now policy) policy
