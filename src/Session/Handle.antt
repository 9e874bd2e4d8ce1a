-- ===== src/Session/Handle.antt =====
-- `Session`, its state, its I/O mirror and its connections (runtime/src/session.rs). Instants are
-- nanoseconds since the manager's epoch. An `Arc<Outbound>` is named by its connection, and
-- `outbounds` holds the queue of every connection there has been, so that an evicted client still
-- has its own. The PTY's `resize` (a trait object of crate portable-pty) is a parameter.
pub mod Fence
pub mod Pings
use openab_pty.Base.{
  ℕ, ◌+◌, ◌*◌, ◌/◌, Bool, true, false, ◌&&◌, ◌||◌, not, Option, none, some, List, [], ◌∷◌, ◌++◌,
  length, ltb, leb, ◌==◌, if◌then◌else◌,
}
use openab_pty.Crate.{SessionName, Generation, Error, unauthorized, Result, ok, err, takeover}
use openab_pty.Audit.{TerminationClass}
use openab_pty.RingBuf.Scrollback.{RingBuffer}
use openab_pty.RingBuf.Scrollback
use openab_pty.RingBuf.Queue.{QueueBounds}
use openab_pty.Scan.{Cow}
use openab_pty.Scan
use openab_pty.TermFilter.{TermFilter}
use openab_pty.TermFilter
use openab_pty.CapProxy.Kitty.{CapabilityProxy}
use openab_pty.CapProxy.Inspect
use openab_pty.CapProxy.Kitty
use openab_pty.Session.Takeover
use openab_pty.Session.Policy.{WindowSize}
use openab_pty.Session.Outbound.{Outbound, close, push_bytes}
use openab_pty.Session.Takeover.{TakeoverLimiter}

abbrev pub outbound_backlog_kib : ℕ
outbound_backlog_kib = 256

abbrev pub input_queue_chunks : ℕ
input_queue_chunks = 64

pub record InputChunk : Type 0 where
  pub conn : ℕ
  pub bytes : List ℕ
  pub runtime_originated : Bool

-- `Result<(), InputError>`.
pub data Written : Type 0 where
  written evicted backpressure : Written

pub record Session : Type 0 where
  pub name : SessionName
  -- SessionState
  pub generation : Generation
  pub owner_conn : ℕ
  pub next_conn : ℕ
  pub created_at : ℕ
  pub attached_since : Option ℕ
  pub missed_pings : ℕ
  pub alive : Bool
  pub termination : Option TerminationClass
  pub warned_absolute : Bool
  pub warned_idle : Bool
  pub size : WindowSize
  pub takeovers : TakeoverLimiter
  -- SessionIo
  pub io_owner : ℕ
  pub last_activity_ms : ℕ
  pub subscriber : Option ℕ
  pub buffer : RingBuffer
  pub io_alive : Bool
  -- the input channel: its chunks, and whether the writer thread still receives
  pub input : List InputChunk
  pub input_open : Bool
  pub filter : Option TermFilter
  pub proxy : Option CapabilityProxy
  pub backlog_bounds : QueueBounds
  pub tier_best_effort : Bool
  pub missed_ping_limit : ℕ
  pub outbounds : List Outbound

-- A session as `spawn_claimed` makes it.
unfoldable pub fresh :
    SessionName
    → Generation
    → WindowSize
    → (now scrollback_kib : ℕ) → (filter_terminal_responses best_effort : Bool)
    → (missed_ping_limit : ℕ) → Session
unfolding Takeover.new Scrollback.with_scrollback_kib TermFilter.new Kitty.new
fresh name generation size now scrollback_kib filter_terminal_responses best_effort limit = record {
  name = name;
  generation = generation;
  owner_conn = 0;
  next_conn = 1;
  created_at = now;
  attached_since = none;
  missed_pings = 0;
  alive = true;
  termination = none;
  warned_absolute = false;
  warned_idle = false;
  size = size;
  takeovers = Takeover.new generation now;
  io_owner = 0;
  last_activity_ms = now / 1_000_000;
  subscriber = none;
  buffer = Scrollback.with_scrollback_kib scrollback_kib;
  io_alive = true;
  input = [];
  input_open = true;
  filter = if filter_terminal_responses then some TermFilter.new else none;
  proxy = some Kitty.new;
  backlog_bounds = record {
    capacity_bytes = outbound_backlog_kib * 1024;
    max_dropped_bytes = some (outbound_backlog_kib * 1024 * 4);
  };
  tier_best_effort = best_effort;
  missed_ping_limit = limit;
  outbounds = [];
}

unfoldable pub touch : (now : ℕ) → Session → Session
touch now s = record s { last_activity_ms = now / 1_000_000 }

unfoldable pub on_conn : ℕ → (Outbound → Outbound) → List Outbound → List Outbound
on_conn conn f [] = []
on_conn conn f (o ∷ os) = (if o.conn == conn then f o else o) ∷ on_conn conn f os

unfoldable pub on_outbound : Option ℕ → (Outbound → Outbound) → Session → Session
unfolding on_conn
on_outbound none f s = s
on_outbound (some conn) f s = record s { outbounds = on_conn conn f s.outbounds }

-- `mpsc::Sender::try_send`.
pub data Sent : Type 0 where
  sent full closed : Sent

unfoldable pub try_send : Session → InputChunk → Sent × Session
try_send s chunk =
    if not s.input_open
    then (closed, s)
    else if leb input_queue_chunks (length s.input)
    then (full, s)
    else (sent, record s { input = s.input ++ (chunk ∷ []) })

-- A dropped answer is only logged.
unfoldable pub answer_child : Session → List ℕ → Session
unfolding try_send
answer_child s bytes =
    (try_send s (record { conn = s.io_owner; bytes = bytes; runtime_originated = true })).1

unfoldable pub filtered : Session → List ℕ → List ℕ × Session
unfolding TermFilter.filter
filtered s bytes = elim s.filter [
  | none ↦ (bytes, s)
  | some f ↦
      let (out, f') = TermFilter.filter f bytes in (Scan.bytes out, record s { filter = some f' })
]

unfoldable pub enqueue : Session → (conn now : ℕ) → List ℕ → Written × Session
unfolding try_send touch
enqueue s conn now [] = (written, s)
enqueue s conn now (b ∷ bs) =
    let (outcome, s') =
      try_send s (record { conn = conn; bytes = b ∷ bs; runtime_originated = false }) in
    elim outcome [
      | sent ↦ (written, touch now s')
      | full ↦ (backpressure, s')
      | closed ↦ (evicted, s')
    ]

unfoldable pub write_input : Session → (conn now : ℕ) → List ℕ → Written × Session
unfolding filtered enqueue
write_input s conn now bytes =
    if not s.io_alive || not (s.io_owner == conn)
    then (evicted, s)
    else (let (kept, s') = filtered s bytes in enqueue s' conn now kept)

-- What the child's PTY says to a new size.
unfoldable pub resize :
    (WindowSize → Result WindowSize)
    → Session
    → (conn : ℕ) → WindowSize
    → Result WindowSize × Session
resize control s conn size =
    if not (s.io_owner == conn)
    then (err unauthorized, s)
    else (control size, record s { size = size })

unfoldable pub on_pong : Session → (conn now : ℕ) → Session
unfolding touch
on_pong s conn now = touch now (if s.owner_conn == conn then record s { missed_pings = 0 } else s)

-- `owner_conn` goes to nobody; the subscriber is the result.
unfoldable pub release : Session → Option ℕ × Session
release s = (
  s.subscriber,
  record s { owner_conn = 0; attached_since = none; io_owner = 0; subscriber = none },
)

unfoldable pub on_missed_ping : Session → (conn : ℕ) → Bool × Session
unfolding release on_outbound
on_missed_ping s conn =
    if not (s.owner_conn == conn)
    then (true, s)
    else (let s' = record s { missed_pings = s.missed_pings + 1 } in
        if ltb s'.missed_pings s.missed_ping_limit
        then (false, s')
        else (let (subscriber, s'') = release s' in
            (true, on_outbound subscriber (λ o. close o takeover) s'')))

unfoldable pub detach : Session → (conn : ℕ) → Session
unfolding release
detach s conn =
    if not (s.owner_conn == conn)
    then s
    else (let (subscriber, s') = release s in record s' { missed_pings = 0 })

-- One turn of the writer thread: the bytes that reach the PTY master, if any.
unfoldable pub writer_turn : Session → Option (List ℕ) × Session
writer_turn s = elim s.input [
  | [] ↦ (none, s)
  | chunk ∷ rest ↦
      if not chunk.runtime_originated && not (s.io_owner == chunk.conn)
      then (none, record s { input = rest })
      else (some chunk.bytes, record s { input = rest })
]

unfoldable pub answered : Session → List ℕ → Session
unfolding answer_child
answered s [] = s
answered s (b ∷ bs) = answer_child s (b ∷ bs)

unfoldable pub proxied : Session → List ℕ → List ℕ × Session
unfolding answered
proxied s bytes = elim s.proxy [
  | none ↦ (bytes, s)
  | some p ↦
      let (stripped, response, p') = Inspect.process p bytes in
      (Scan.bytes stripped, answered (record s { proxy = some p' }) response)
]

-- One chunk that the child printed.
unfoldable pub on_output : Session → (now : ℕ) → List ℕ → Session
unfolding proxied touch on_outbound
on_output s now bytes =
    let (forwarded, s') = proxied s bytes in
    let (dropped, buffer) = Scrollback.write s'.buffer forwarded in
    let s'' = touch now (record s' { buffer = buffer }) in
    on_outbound s''.subscriber (λ o. push_bytes o forwarded) s''
