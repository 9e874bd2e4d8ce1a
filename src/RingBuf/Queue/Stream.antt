-- ===== src/RingBuf/Queue/Stream.antt =====
-- A `ByteQueue` of runtime/src/ringbuf.rs against the stream of all bytes pushed to it.
use openab_pty.Base.{
  ℕ, ◌+◌, ◌-◌, ◌≤◌, ◌<◌, min, ◌≡◌, ap, inl, inr, List, [], ◌++◌, arith, Option, none, some, length,
  take, drop, ltb, ◌==◌, if◌then◌else◌, Bool-cases, u64_max, isize_max, length-append, length-drop,
  drop-drop, drop_all, drop-append_left, drop-append,
}
use openab_pty.RingBuf.Queue.{
  QueueBounds, accepted, dropped_oldest, hard_watermark, ByteQueue, new, push, take_bytes,
  take_unreported_gap,
}

-- `h` is every byte pushed, of which the first `p` have left the queue; `reported` of the dropped
-- ones have been reported as gaps. No 64-bit counter has met its maximum.
pub record Holds (h : List ℕ) (p reported : ℕ) (q : ByteQueue) : Type 0 where
  pub no_saturation : length h ≤ u64_max
  pub balance : p + length q.buf ≡ length h
  pub window : q.buf ≡ drop p h
  pub lost_le : q.dropped ≤ p
  pub reports : reported + q.unreported_dropped ≡ q.dropped
  pub fits : length q.buf ≤ q.bounds.capacity_bytes
  pub small : q.bounds.capacity_bytes ≤ isize_max

pub new-Holds : (b : QueueBounds) → b.capacity_bytes ≤ isize_max → Holds [] 0 0 (new b)
unfolding new
new-Holds b h = ground arith

-- The bytes that a push evicts.
abbrev pub lost : ByteQueue → List ℕ → ℕ
lost q bytes = length q.buf + length bytes - q.bounds.capacity_bytes

counters-push :
    {h : List ℕ} {p g : ℕ} {q : ByteQueue} (bytes : List ℕ)
    → Holds h p g q
    → length bytes ≤ isize_max
    → length h + length bytes ≤ u64_max
    → ((push q bytes).1.dropped ≡ q.dropped + lost q bytes)
      × ((push q bytes).1.unreported_dropped ≡ q.unreported_dropped + lost q bytes)
      × ((push q bytes).1.bounds ≡ q.bounds)
unfolding push
counters-push {h} {p} {g} {q} bytes v small room = ground arith

buf-push :
    {h : List ℕ} {p g : ℕ} {q : ByteQueue} (bytes : List ℕ)
    → Holds h p g q
    → length bytes ≤ isize_max
    → (push q bytes).1.buf ≡ drop (lost q bytes) (q.buf ++ bytes)
unfolding push
buf-push {q = q} bytes v small = elim (Bool-cases (q.bounds.capacity_bytes == 0)) [
  | inl off ↦
      ground (
        arith,
        drop_all 0 q.buf,
        drop_all (lost q bytes) (q.buf ++ bytes),
        length-append q.buf bytes,
      )
  | inr on ↦ ground (arith, drop-append (lost q bytes) q.buf bytes)
]

-- On a queue that holds the end of its stream, a push extends the stream, and evicts from its
-- oldest queued bytes only what does not fit, if no counter meets its maximum.
pub push-Holds :
    {h : List ℕ} {p g : ℕ} {q : ByteQueue} (bytes : List ℕ)
    → Holds h p g q
    → length bytes ≤ isize_max
    → length h + length bytes ≤ u64_max
    → Holds (h ++ bytes) (p + lost q bytes) g (push q bytes).1
push-Holds {h} {p} {g} {q} bytes v small room = ground (
  arith,
  counters-push bytes v small room,
  length-append h bytes,
  length-append q.buf bytes,
  length-drop (lost q bytes) (q.buf ++ bytes),
  buf-push bytes v small,
  drop-append_left p h bytes,
  drop-drop (lost q bytes) p (h ++ bytes),
)

-- What a push reports: nothing if all fitted, and otherwise the number of bytes evicted, with the
-- order to disconnect exactly if the drops of the queue's life now exceed the watermark.
pub push_outcome :
    {h : List ℕ} {p g : ℕ} {q : ByteQueue} (bytes : List ℕ)
    → Holds h p g q
    → length bytes ≤ isize_max
    → length h + length bytes ≤ u64_max
    → ((lost q bytes ≡ 0) → (0 < q.bounds.capacity_bytes) → (push q bytes).0 ≡ accepted)
      × ((0 < lost q bytes)
          → (limit : ℕ) → q.bounds.max_dropped_bytes ≡ some limit
          → (push q bytes).0 ≡ (
              if ltb limit (q.dropped + lost q bytes)
              then hard_watermark (lost q bytes)
              else dropped_oldest (lost q bytes)))
      × ((0 < lost q bytes)
          → q.bounds.max_dropped_bytes ≡ none
          → (push q bytes).0 ≡ dropped_oldest (lost q bytes))
unfolding push
push_outcome {h} {p} {g} {q} bytes v small room =
    (λ a b. ground arith, λ a limit e. ground arith, λ a e. ground arith)

-- On a queue that holds the end of its stream, taking hands over the next bytes of the stream, at
-- most as many as asked for.
pub take_bytes_lem :
    {h : List ℕ} {p g : ℕ} {q : ByteQueue} (m : ℕ)
    → Holds h p g q
    → ((take_bytes q m).0 ≡ take (min m (length q.buf)) (drop p h))
      × Holds h (p + min m (length q.buf)) g (take_bytes q m).1
unfolding take_bytes
take_bytes_lem {h} {p} {g} {q} m v = (
  ap (take (min m (length q.buf))) v.window,
  ground (arith, length-drop (min m (length q.buf)) q.buf, drop-drop (min m (length q.buf)) p h),
)

-- The gap report is the number of bytes dropped since the last one.
abbrev pub amount : Option ℕ → ℕ
amount none = 0
amount (some n) = n

pub take_unreported_gap_lem :
    {h : List ℕ} {p g : ℕ} {q : ByteQueue}
    → Holds h p g q
    → Holds h p (g + amount (take_unreported_gap q).0) (take_unreported_gap q).1
      × (g + amount (take_unreported_gap q).0 ≡ q.dropped)
      × ((take_unreported_gap (take_unreported_gap q).1).0 ≡ none)
unfolding take_unreported_gap
take_unreported_gap_lem {h} {p} {g} {q} v = (ground arith, ground arith, ground arith)
