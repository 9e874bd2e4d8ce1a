-- ===== src/Session/Attach.antt =====
-- What `attach_with_replay`, `renew`, `teardown` and `tick` of runtime/src/session.rs do to one session. What
-- stands under the session's lock is one function, and what follows its release another, so that
-- steps of other threads may stand between them. The physical split of the scrollback's `VecDeque` (`wrap`) and the
-- PTY's `resize` are parameters; `resize`'s result is ignored here, as in the source.
pub mod Cas
pub mod Steps
pub mod Queues
pub mod Handoff
pub mod Ttl
pub mod Calm
pub mod Takeovers
use openab_pty.Base.{
  ℕ, ◌+◌, ◌-◌, ◌*◌, ◌/◌, Bool, true, false, ◌&&◌, ◌||◌, not, Option, none, some, List, [], ◌∷◌,
  ◌++◌, length, ltb, leb, ◌==◌, if◌then◌else◌,
}
use openab_pty.Crate.{
  SessionName, Generation, Error, unauthorized, capacity_exceeded, other, Result, ok, err, takeover,
  renewed,
}
use openab_pty.Audit.{TerminationClass}
use openab_pty.RingBuf.Scrollback.{
  RingBuffer, Replay, contiguous, gap, read_since, retention_enabled, clear,
}
use openab_pty.CapProxy.Kitty.{CapabilityProxy}
use openab_pty.CapProxy.Inspect.{resync}
use openab_pty.Session.Policy.{SessionPolicy, WindowSize}
use openab_pty.Session.Outbound.{
  Outbound, ControlEvent, attach_notice, ttl_warning, close, push_bytes, push_control,
}
use openab_pty.Session.Outbound
use openab_pty.Session.Takeover.{allow}
use openab_pty.Session.Handle.{Session, touch, on_outbound, release}

-- How the critical section of an attach ends.
pub data Attempt : Type 0 where
  stale_generation rate_limited : Attempt
  won : (conn stream_offset : ℕ) (evicted : Option ℕ) (replay : Option Replay) → Attempt

unfoldable pub replay_of :
    (List ℕ → ℕ) → (scrollback_replay : Bool) → Session → (since : Option ℕ) → Option Replay
replay_of wrap scrollback_replay s (some offset) = some (read_since wrap s.buffer offset)
replay_of wrap scrollback_replay s none =
    if scrollback_replay && retention_enabled s.buffer
    then some (read_since wrap s.buffer 0)
    else none

-- The attach CAS: a new connection owns the session, and its queue is the subscriber. `next_conn` is a
-- u64 in the source, which wraps after 2^64 attaches.
unfoldable pub own : Session → (now : ℕ) → WindowSize → Session
unfolding Outbound.new
own s now size = record s {
  owner_conn = s.next_conn;
  next_conn = s.next_conn + 1;
  attached_since = some now;
  missed_pings = 0;
  size = size;
  io_owner = s.next_conn;
  subscriber = some s.next_conn;
  outbounds = Outbound.new s.next_conn s.backlog_bounds ∷ s.outbounds;
}

-- The budget is charged whether or not the attach evicts a connection.
unfoldable pub attach_locked :
    (List ℕ → ℕ)
    → (scrollback_replay : Bool) → SessionPolicy
    → Session
    → (generation : Generation) (size : WindowSize) (since : Option ℕ) (now : ℕ) → Attempt × Session
unfolding replay_of own
attach_locked wrap scrollback_replay policy s generation size since now =
    if not (s.generation == generation)
    then (stale_generation, s)
    else (let (allowed, takeovers) = allow s.takeovers generation now policy in
        let s' = record s { takeovers = takeovers } in
        if not (s.owner_conn == 0) && not allowed then (rate_limited, s') else (
          won s.next_conn s.buffer.written s.subscriber (replay_of wrap scrollback_replay s since),
          own s' now size,
        ))

-- The bytes that a client which starts fresh is fed, if it does.
unfoldable pub fed_fresh : (since : Option ℕ) → Option Replay → Option (List ℕ)
fed_fresh none none = some []
fed_fresh none (some (contiguous bytes at)) = some bytes
fed_fresh none (some (gap dropped bytes at)) = some bytes
fed_fresh (some offset) none = none
fed_fresh (some offset) (some (contiguous bytes at)) = none
fed_fresh (some offset) (some (gap dropped bytes at)) = some bytes

unfoldable pub resynced : Session → Option (List ℕ) → Session
resynced s none = s
resynced s (some fed) = record s {
  proxy = elim s.proxy [ none ↦ none | some p ↦ some (resync p fed) ];
}

unfoldable pub push_replay : Option Replay → Outbound → Outbound
push_replay none o = o
push_replay (some (contiguous bytes at)) o = push_bytes o bytes
push_replay (some (gap dropped bytes at)) o =
    push_bytes (push_control o (ControlEvent.gap dropped)) bytes

unfoldable pub is_subscriber : Session → (conn : ℕ) → Bool
is_subscriber s conn = elim s.subscriber [ none ↦ false | some c ↦ c == conn ]

-- After the locks: close the evicted queue, and fill the new one if it is still the subscriber.
unfoldable pub attach_deliver :
    Session
    → (conn : ℕ) (evicted : Option ℕ) (replay : Option Replay) (since : Option ℕ) (now : ℕ)
    → Result ℕ × Session
unfolding on_outbound is_subscriber push_replay resynced fed_fresh touch
attach_deliver s conn evicted replay since now =
    let s' = on_outbound evicted (λ o. close o takeover) s in
    if not (is_subscriber s' conn)
    then (err (other "attach lost the CAS immediately"), s')
    else (let noticed =
          on_outbound (some conn) (λ o. push_control o (attach_notice s.tier_best_effort)) s' in
        let synced = resynced noticed (fed_fresh since replay) in
        (ok conn, touch now (on_outbound (some conn) (push_replay replay) synced)))

-- `renew` under the lock; the token store is the manager's. The generation is a u64 in the source, which
-- differs after 2^64 renewals.
unfoldable pub renew_locked : Session → Option ℕ × Session
unfolding release
renew_locked s =
    let (subscriber, s') = release s in
    (subscriber, record s' { generation = s.generation + 1; missed_pings = 0 })

-- `teardown` under the lock: the subscriber, and whether the session was dead already.
unfoldable pub teardown_locked : Session → TerminationClass → Option ℕ × Bool × Session
teardown_locked s class = (
  s.subscriber,
  not s.alive,
  record s {
    alive = false;
    termination = some class;
    owner_conn = 0;
    io_alive = false;
    io_owner = 0;
    subscriber = none;
  },
)

unfoldable pub cleared : Session → Session
cleared s = record s { buffer = clear s.buffer }

-- `TtlDecision`.
pub data TtlDecision : Type 0 where
  expire : (absolute : Bool) → TtlDecision
  warn : (absolute : Bool) (seconds_remaining : ℕ) → TtlDecision

unfoldable pub idle_deadline : SessionPolicy → Session → Option ℕ
idle_deadline policy s =
    if s.owner_conn == 0
    then some (s.last_activity_ms * 1_000_000 + policy.detached_idle_ttl)
    else none

abbrev pub reached : Option ℕ → (now : ℕ) → Bool
reached none now = false
reached (some deadline) now = leb deadline now

-- Seconds from `now` to the deadline, 0 from the deadline on.
abbrev pub seconds_to : ℕ → (now : ℕ) → ℕ
seconds_to deadline now = (deadline - now) / 1_000_000_000

-- The decision of `tick` for one session, under its lock.
unfoldable pub ttl_decision : SessionPolicy → Session → (now : ℕ) → Option TtlDecision × Session
unfolding idle_deadline
ttl_decision policy s now =
    let absolute_deadline = s.created_at + policy.absolute_ttl in
    let idle = idle_deadline policy s in
    if not s.alive
    then (none, s)
    else if leb absolute_deadline now
    then (some (expire true), s)
    else if reached idle now
    then (some (expire false), s)
    else if not s.warned_absolute && leb absolute_deadline (now + policy.ttl_warning_lead)
    then (some (warn true (seconds_to absolute_deadline now)), record s { warned_absolute = true })
    else if not s.warned_idle && reached idle (now + policy.ttl_warning_lead)
    then (
      elim idle [ none ↦ none | some deadline ↦ some (warn false (seconds_to deadline now)) ],
      record s { warned_idle = true },
    )
    else (none, s)
