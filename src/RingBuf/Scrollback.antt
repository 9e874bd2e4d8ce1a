-- ===== src/RingBuf/Scrollback.antt =====
-- `RingBuffer` of runtime/src/ringbuf.rs. A method that takes `&mut self` returns the new buffer
-- beside its result. `wrap` is where the storage of the deque wraps round (the length of the first
-- slice that `VecDeque::as_slices` returns): the standard library fixes only that the two slices in
-- order are the contents, so it is any function of them.
pub mod History
pub mod Resume
use openab_pty.Base.{
  ℕ, ◌-◌, min, Bool, List, [], ◌++◌, length, take, drop, ltb, leb, ◌==◌, if◌then◌else◌,
  saturating_add, saturating_mul, add_word,
}

pub record RingBuffer : Type 0 where
  pub buf : List ℕ
  pub capacity : ℕ
  pub written : ℕ
  pub dropped : ℕ

-- `enum Replay`.
pub data Replay : Type 0 where
  contiguous : List ℕ → ℕ → Replay
  gap : ℕ → List ℕ → ℕ → Replay

unfoldable pub new : ℕ → RingBuffer
new capacity_bytes = record { buf = []; capacity = capacity_bytes; written = 0; dropped = 0 }

unfoldable pub with_scrollback_kib : ℕ → RingBuffer
unfolding new
with_scrollback_kib kib = new (saturating_mul kib 1024)

unfoldable pub retention_enabled : RingBuffer → Bool
retention_enabled r = ltb 0 r.capacity

-- The subtraction saturates at 0, as `-` on ℕ does.
unfoldable pub overflow_of : List ℕ → ℕ → ℕ → ℕ
overflow_of buf n capacity = add_word (length buf) n - capacity

unfoldable pub write : RingBuffer → List ℕ → ℕ × RingBuffer
unfolding overflow_of
write r bytes =
    if r.capacity == 0
    then (n, record r { written = written'; dropped = saturating_add r.dropped n })
    else if overflow == 0
    then (0, record r { buf = r.buf ++ bytes; written = written' })
    else (
      overflow,
      record r {
        buf = drop from_retained r.buf ++ drop from_incoming bytes;
        written = written';
        dropped = saturating_add r.dropped overflow;
      },
    )
  where
    n : ℕ
    n = length bytes

    written' : ℕ
    written' = saturating_add r.written n

    overflow : ℕ
    overflow = overflow_of r.buf n r.capacity

    from_retained : ℕ
    from_retained = min overflow (length r.buf)

    from_incoming : ℕ
    from_incoming = overflow - from_retained

-- `self.written - self.buf.len() as u64`: it cannot go below 0, by `Scrollback.Holds`.
unfoldable pub earliest_offset : RingBuffer → ℕ
earliest_offset r = r.written - length r.buf

unfoldable pub clear : RingBuffer → RingBuffer
clear r = record r { buf = []; dropped = saturating_add r.dropped (length r.buf) }

unfoldable pub slice_from : (List ℕ → ℕ) → RingBuffer → ℕ → List ℕ
slice_from wrap r start =
    if leb (length r.buf) start
    then []
    else if ltb start (length a)
    then drop start a ++ b
    else drop (start - length a) b
  where
    a : List ℕ
    a = take (wrap r.buf) r.buf

    b : List ℕ
    b = drop (wrap r.buf) r.buf

unfoldable pub snapshot : (List ℕ → ℕ) → RingBuffer → List ℕ
unfolding slice_from
snapshot wrap r = slice_from wrap r 0

unfoldable pub read_since : (List ℕ → ℕ) → RingBuffer → ℕ → Replay
unfolding retention_enabled earliest_offset snapshot slice_from
read_since wrap r since =
    if retention_enabled r
    then (if ltb r.written since
        then gap 0 (snapshot wrap r) r.written
        else if leb earliest since
        then contiguous (slice_from wrap r (since - earliest)) r.written
        else gap (earliest - since) (snapshot wrap r) r.written)
    else gap (r.written - since) [] r.written
  where
    earliest : ℕ
    earliest = earliest_offset r
