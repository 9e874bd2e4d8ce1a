-- ===== src/RingBuf/Scrollback/History.antt =====
-- A scrollback buffer against the history of all bytes ever written to it
-- (`RingBuffer::write`, `clear`, `snapshot` of runtime/src/ringbuf.rs).
use openab_pty.Base.{
  ℕ, ◌+◌, ◌-◌, ◌≤◌, ◌≡◌, ap, inl, inr, List, [], ◌++◌, arith, length, take, drop, ◌==◌, Bool-cases,
  u64_max, isize_max, length-append, length-drop, drop-drop, drop_all, drop-append_left,
  drop-append_right, drop-append, take-append-drop,
}
use openab_pty.RingBuf.Scrollback.{RingBuffer, new, write, clear, slice_from}

-- `h` is every byte written so far, and none of the 64-bit counters has met its maximum.
pub record Holds (h : List ℕ) (r : RingBuffer) : Type 0 where
  pub cursor : r.written ≡ length h
  pub no_saturation : length h ≤ u64_max
  pub balance : r.dropped + length r.buf ≡ r.written
  pub window : r.buf ≡ drop r.dropped h
  pub fits : length r.buf ≤ r.capacity
  pub small : r.capacity ≤ isize_max

pub new-Holds : (cap : ℕ) → cap ≤ isize_max → Holds [] (new cap)
unfolding new
new-Holds cap h = ground arith

-- The two slices of the deque, cut at `start`, are the contents cut at `start`.
pub slice_from_lem :
    (wrap : List ℕ → ℕ) (r : RingBuffer) (start : ℕ) → slice_from wrap r start ≡ drop start r.buf
unfolding slice_from
slice_from_lem wrap r start = ground (
  arith,
  drop_all start r.buf,
  take-append-drop (wrap r.buf) r.buf,
  drop-append_left start (take (wrap r.buf) r.buf) (drop (wrap r.buf) r.buf),
  drop-append_right start (take (wrap r.buf) r.buf) (drop (wrap r.buf) r.buf),
)

-- What `clear` keeps: the cursor goes on, and everything written counts as dropped.
pub clear-Holds : {h : List ℕ} {r : RingBuffer} → Holds h r → Holds h (clear r)
unfolding clear
clear-Holds {h} {r} v = ground (arith, drop_all r.written h)

-- A write appends, and then cuts what it lost from the front.
buf-write :
    {h : List ℕ} {r : RingBuffer} (bytes : List ℕ)
    → Holds h r
    → length bytes ≤ isize_max
    → (write r bytes).1.buf ≡ drop (write r bytes).0 (r.buf ++ bytes)
unfolding write
buf-write {h} {r} bytes v small = elim (Bool-cases (r.capacity == 0)) [
  | inl off ↦
      ground (
        arith,
        drop_all 0 r.buf,
        drop_all (length bytes) (r.buf ++ bytes),
        length-append r.buf bytes,
      )
  | inr on ↦ ground (arith, drop-append (length r.buf + length bytes - r.capacity) r.buf bytes)
]

pub counters-write :
    {h : List ℕ} {r : RingBuffer} (bytes : List ℕ)
    → Holds h r
    → length bytes ≤ isize_max
    → length h + length bytes ≤ u64_max
    → ((write r bytes).1.written ≡ length h + length bytes)
      × ((write r bytes).1.dropped ≡ r.dropped + (write r bytes).0)
      × ((write r bytes).1.capacity ≡ r.capacity)
      × ((write r bytes).0 ≡ length r.buf + length bytes - r.capacity)
unfolding write
counters-write {h} {r} bytes v small room = ground arith

-- The number that `write` returns is what it lost: the bytes kept and the bytes lost are the bytes
-- there were and those written.
pub write_counts :
    {h : List ℕ} {r : RingBuffer} (bytes : List ℕ)
    → Holds h r
    → length bytes ≤ isize_max
    → length h + length bytes ≤ u64_max
    → length (write r bytes).1.buf + (write r bytes).0 ≡ length r.buf + length bytes
write_counts {h} {r} bytes v small room = omega (
  arith,
  ap length (buf-write bytes v small),
  counters-write bytes v small room,
  length-append r.buf bytes,
  length-drop (write r bytes).0 (r.buf ++ bytes),
)

-- A write appends its bytes to the history that a scrollback buffer retains the end of, with its
-- cursor, drop counter and capacity bound, if no counter meets its maximum.
pub write-Holds :
    {h : List ℕ} {r : RingBuffer} (bytes : List ℕ)
    → Holds h r
    → length bytes ≤ isize_max
    → length h + length bytes ≤ u64_max
    → Holds (h ++ bytes) (write r bytes).1
write-Holds {h} {r} bytes v small room = ground (
  arith,
  counters-write bytes v small room,
  write_counts bytes v small room,
  length-append h bytes,
  buf-write bytes v small,
  drop-append_left r.dropped h bytes,
  drop-drop (write r bytes).0 r.dropped (h ++ bytes),
)
