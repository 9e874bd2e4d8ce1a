-- ===== src/RingBuf/Scrollback/Resume.antt =====
-- What a client that comes back with a cursor gets (`RingBuffer::read_since` and `snapshot` of
-- runtime/src/ringbuf.rs).
use openab_pty.Base.{
  ℕ, ◌+◌, ◌-◌, ◌≤◌, ◌<◌, ◌≡◌, refl, sym, ◌∙◌, ap, ◌↔◌, List, [], ◌∷◌, ◌++◌, arith, length, drop,
  u64_max, isize_max, length-append, drop-drop, drop_all, append_assoc, append-nil,
}
use mathlib.Core.Path.{subst}
use mathlib.Core.List.{flatten}
use native.Mathlib.Decide.{dec_lt}
use openab_pty.RingBuf.Scrollback.{
  RingBuffer, Replay, contiguous, gap, new, write, snapshot, read_since,
}
use openab_pty.RingBuf.Scrollback.History.{
  Holds, new-Holds, write-Holds, slice_from_lem, counters-write,
}

-- The part of the history that the reply does not bring a client which has `take since h`.
abbrev pub missed : Replay → ℕ
missed (contiguous bytes to) = 0
missed (gap lost bytes to) = lost

abbrev pub bytes_of : Replay → List ℕ
bytes_of (contiguous bytes to) = bytes
bytes_of (gap lost bytes to) = bytes

abbrev pub to_offset : Replay → ℕ
to_offset (contiguous bytes to) = to
to_offset (gap lost bytes to) = to

abbrev pub IsContiguous : Replay → Type 0
IsContiguous (contiguous bytes to) = Unit
IsContiguous (gap lost bytes to) = ⊥

pub snapshot_lem : (wrap : List ℕ → ℕ) (r : RingBuffer) → snapshot wrap r ≡ r.buf
unfolding snapshot
snapshot_lem wrap r = slice_from_lem wrap r 0

-- The reply at each kind of cursor, in terms of the buffer's fields.
module _ (wrap : List ℕ → ℕ) {h : List ℕ} {r : RingBuffer} (since : ℕ) (v : Holds h r) where
  read_since_off : r.capacity ≡ 0 → read_since wrap r since ≡ gap (r.written - since) [] r.written
  unfolding read_since
  read_since_off off = ground arith

  read_since_covered :
      0 < r.capacity
      → r.dropped ≤ since
      → since ≤ length h
      → read_since wrap r since ≡ contiguous (drop (since - r.dropped) r.buf) r.written
  unfolding read_since
  read_since_covered on covered le = ground (arith, slice_from_lem wrap r (since - r.dropped))

  read_since_evicted :
      0 < r.capacity
      → since < r.dropped
      → read_since wrap r since ≡ gap (r.dropped - since) r.buf r.written
  unfolding read_since
  read_since_evicted on lost = ground (arith, slice_from_lem wrap r 0)

resumed :
    {h : List ℕ} {r : RingBuffer} (since : ℕ)
    → Holds h r
    → r.dropped ≤ since
    → drop (since - r.dropped) r.buf ≡ drop (since + 0) h
resumed {h} {r} since v le =
    let e : r.dropped + (since - r.dropped) ≡ since + 0 = omega arith in
    ap (drop (since - r.dropped)) v.window
    ∙ drop-drop (since - r.dropped) r.dropped h
    ∙ ap (λ k. drop k h) e

-- From a buffer that holds the end of its stream, a client that has the first bytes of the stream
-- is told how many of the next ones it has missed for good, and is sent all that come after those;
-- the reply is contiguous exactly if retention is on and nothing after the cursor was dropped, and
-- its offset is the stream's end.
pub read_since_lem :
    (wrap : List ℕ → ℕ) {h : List ℕ} {r : RingBuffer} (since : ℕ)
    → Holds h r
    → since ≤ length h
    → (bytes_of (read_since wrap r since) ≡ drop (since + missed (read_since wrap r since)) h)
      × (to_offset (read_since wrap r since) ≡ length h)
      × (IsContiguous (read_since wrap r since) ↔ ((0 < r.capacity) × (r.dropped ≤ since)))
read_since_lem wrap {h} {r} since v le = elim (dec_lt 0 r.capacity) [
  | no off ↦ rw (read_since_off wrap since v (omega arith)) (
    sym (drop_all (since + (r.written - since)) h (omega arith)),
    v.cursor,
    (λ c. absurd c, λ c. absurd (off c.0)),
  )
  | yes on ↦ elim (dec_lt since r.dropped) [
    | yes lost ↦ rw (read_since_evicted wrap since v on lost) (
      v.window ∙ ap (λ k. drop k h) (omega arith),
      v.cursor,
      (λ c. absurd c, λ c. absurd (omega arith)),
    )
    | no covered ↦
        rw (read_since_covered wrap since v on (omega arith) le)
          (resumed since v (omega arith), v.cursor, (λ c. (on, omega arith), λ c. tt))
  ]
]

-- The buffer after each chunk of a stream has been written to it.
pub write_all : RingBuffer → List (List ℕ) → RingBuffer
write_all r [] = r
write_all r (c ∷ cs) = write_all (write r c).1 cs

-- Each chunk is a slice, and the stream stays below the counters' maximum.
abbrev pub Fit : ℕ → List (List ℕ) → Type 0
Fit sofar [] = Unit
Fit sofar (c ∷ cs) =
    (length c ≤ isize_max) × (sofar + length c ≤ u64_max) × Fit (sofar + length c) cs

-- The buffer has never been cleared: it dropped only what did not fit.
abbrev Latest : List ℕ → ℕ → RingBuffer → Type 0
Latest h cap r = Holds h r × (r.capacity ≡ cap) × (r.dropped ≡ length h - cap)

new-Latest : (cap : ℕ) → cap ≤ isize_max → Latest [] cap (new cap)
unfolding new
new-Latest cap small = (new-Holds cap small, refl, omega arith)

write-Latest :
    (c : List ℕ) {h : List ℕ} {cap : ℕ} {r : RingBuffer}
    → Latest h cap r
    → length c ≤ isize_max
    → length h + length c ≤ u64_max
    → Latest (h ++ c) cap (write r c).1
write-Latest c {h} v small room =
    let n = counters-write c (v.0) small room in
    (write-Holds c (v.0) small room, n.2 ∙ v.1, omega (arith, n, length-append h c))

write_all-Latest :
    (cs : List (List ℕ)) {h : List ℕ} {cap : ℕ} {r : RingBuffer}
    → Latest h cap r
    → Fit (length h) cs
    → Latest (h ++ flatten cs) cap (write_all r cs)
unfolding write_all flatten
write_all-Latest [] {h} {cap} {r} v f = subst (λ k. Latest k cap r) (sym (append-nil h)) v
write_all-Latest (c ∷ cs) {h} {cap} {r} v f =
    subst (λ k. Latest k cap (write_all (write r c).1 cs)) (append_assoc h c (flatten cs))
      (write_all-Latest cs (write-Latest c v f.0 f.1) (rw (length-append h c) f.2))

-- After any chunks the retained bytes are the last ones of the whole stream, as many as the
-- capacity allows, whatever the chunk boundaries were and wherever the deque's storage wraps, if
-- the lengths fit the machine words.
pub snapshot-write_all :
    (wrap : List ℕ → ℕ) (cap : ℕ) (cs : List (List ℕ))
    → cap ≤ isize_max
    → Fit 0 cs
    → snapshot wrap (write_all (new cap) cs) ≡ drop (length (flatten cs) - cap) (flatten cs)
snapshot-write_all wrap cap cs small f =
    let v = write_all-Latest cs (new-Latest cap small) f in
    snapshot_lem wrap (write_all (new cap) cs) ∙ v.0.window ∙ ap (λ k. drop k (flatten cs)) (v.2)
