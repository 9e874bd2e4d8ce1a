-- ===== src/RingBuf/Queue.antt =====
-- `ByteQueue` of runtime/src/ringbuf.rs.
pub mod Stream
use openab_pty.Base.{
  ℕ, ◌-◌, min, Option, none, some, List, [], ◌++◌, length, take, drop, ltb, ◌==◌, if◌then◌else◌,
  saturating_add, add_word,
}

pub record QueueBounds : Type 0 where
  pub capacity_bytes : ℕ
  pub max_dropped_bytes : Option ℕ

-- `enum Push`.
pub data Push : Type 0 where
  accepted : Push
  dropped_oldest hard_watermark : ℕ → Push

pub record ByteQueue : Type 0 where
  pub buf : List ℕ
  pub bounds : QueueBounds
  pub dropped : ℕ
  pub unreported_dropped : ℕ

unfoldable pub new : QueueBounds → ByteQueue
new bounds = record { buf = []; bounds = bounds; dropped = 0; unreported_dropped = 0 }

unfoldable pub account_drop : ByteQueue → ℕ → ByteQueue
account_drop q n = record q {
  dropped = saturating_add q.dropped n;
  unreported_dropped = saturating_add q.unreported_dropped n;
}

unfoldable pub overflow_outcome : ByteQueue → ℕ → Push
overflow_outcome q bytes_dropped = elim q.bounds.max_dropped_bytes [
  | some limit ↦
      if ltb limit q.dropped then hard_watermark bytes_dropped else dropped_oldest bytes_dropped
  | none ↦ dropped_oldest bytes_dropped
]

unfoldable pub push : ByteQueue → List ℕ → Push × ByteQueue
unfolding account_drop overflow_outcome
push q bytes =
    if q.bounds.capacity_bytes == 0
    then (let q' = account_drop q n in (overflow_outcome q' n, q'))
    else if overflow == 0
    then (accepted, record q { buf = q.buf ++ bytes })
    else (let q' = account_drop (record q { buf = kept }) overflow in
        (overflow_outcome q' overflow, q'))
  where
    n : ℕ
    n = length bytes

    overflow : ℕ
    overflow = add_word (length q.buf) n - q.bounds.capacity_bytes

    from_retained : ℕ
    from_retained = min overflow (length q.buf)

    kept : List ℕ
    kept = drop from_retained q.buf ++ drop (overflow - from_retained) bytes

unfoldable pub take_bytes : ByteQueue → ℕ → List ℕ × ByteQueue
take_bytes q max_bytes = (take n q.buf, record q { buf = drop n q.buf })
  where
    n : ℕ
    n = min max_bytes (length q.buf)

unfoldable pub take_unreported_gap : ByteQueue → Option ℕ × ByteQueue
take_unreported_gap q =
    if q.unreported_dropped == 0
    then (none, q)
    else (some q.unreported_dropped, record q { unreported_dropped = 0 })
