-- ===== src/Session/Outbound.antt =====
-- A connection's outbound queue: `Outbound` of runtime/src/session.rs. Waking the writer task
-- (`Notify`) is left out: it changes no state that is read here.
pub mod Pending
pub mod Drain
pub mod Slow
mod Examples
use openab_pty.Base.{
  ℕ, ◌*◌, Bool, true, false, Option, none, some, List, [], ◌∷◌, ◌++◌, if◌then◌else◌,
}
use openab_pty.RingBuf.Queue
use openab_pty.RingBuf.Queue.{
  ByteQueue, QueueBounds, Push, hard_watermark, take_bytes, take_unreported_gap,
}
use openab_pty.Crate.{slow_client}

abbrev pub read_chunk : ℕ
read_chunk = 16 * 1024

-- `enum ControlEvent`. The fixed texts and flags of `AttachNotice` and `ShuttingDown` are left out.
pub data ControlEvent : Type 0 where
  attach_notice : (teardown_best_effort : Bool) → ControlEvent
  gap : (bytes_dropped : ℕ) → ControlEvent
  ttl_warning : (seconds_remaining : ℕ) (absolute : Bool) → ControlEvent
  shutting_down : (seconds_remaining : ℕ) → ControlEvent

pub data OutboundItem : Type 0 where
  bytes : List ℕ → OutboundItem
  control : ControlEvent → OutboundItem
  close_with : ℕ → OutboundItem

pub record Outbound : Type 0 where
  pub conn : ℕ
  pub queue : ByteQueue
  pub controls : List ControlEvent
  pub close_code : Option ℕ
  pub close_emitted : Bool

unfoldable pub new : ℕ → QueueBounds → Outbound
unfolding Queue.new
new conn bounds = record {
  conn = conn;
  queue = Queue.new bounds;
  controls = [];
  close_code = none;
  close_emitted = false;
}

-- The first code stays.
unfoldable pub close : Outbound → ℕ → Outbound
close o code = elim o.close_code [ none ↦ record o { close_code = some code } | some earlier ↦ o ]

unfoldable pub push_bytes : Outbound → List ℕ → Outbound
unfolding close
push_bytes o chunk =
    let (outcome, queue) = Queue.push o.queue chunk in
    let o' = record o { queue = queue } in
    elim outcome [ hard_watermark dropped ↦ close o' slow_client | _ ↦ o' ]

unfoldable pub push_control : Outbound → ControlEvent → Outbound
push_control o event = record o { controls = o.controls ++ (event ∷ []) }

-- The last two steps of `try_next`: bytes, and then the close code, once.
unfoldable pub next_bytes : Outbound → Option OutboundItem × Outbound
next_bytes o =
    let (chunk, queue) = take_bytes o.queue read_chunk in
    let o' = record o { queue = queue } in
    elim chunk [
      | b ∷ bs ↦ (some (bytes (b ∷ bs)), o')
      | [] ↦ elim o.close_code [
        | none ↦ (none, o')
        | some code ↦
            if o.close_emitted
            then (none, o')
            else (some (close_with code), record o' { close_emitted = true })
      ]
    ]

unfoldable pub next_control : Outbound → Option OutboundItem × Outbound
unfolding next_bytes
next_control o = elim o.controls [
  | c ∷ cs ↦ (some (control c), record o { controls = cs })
  | [] ↦ next_bytes o
]

unfoldable pub try_next : Outbound → Option OutboundItem × Outbound
unfolding next_control
try_next o =
    let (dropped, queue) = take_unreported_gap o.queue in
    elim dropped [
      | some n ↦ (some (control (gap n)), record o { queue = queue })
      | none ↦ next_control (record o { queue = queue })
    ]

-- What `next` does: hand an item over, end, or wait to be woken.
pub data Next : Type 0 where
  item : OutboundItem → Next
  finished waits : Next

unfoldable pub next : Outbound → Next × Outbound
next o =
    let (found, o') = try_next o in
    elim found [
      | some i ↦ (item i, o')
      | none ↦ elim o'.close_code [ some code ↦ (finished, o') | none ↦ (waits, o') ]
    ]
