-- ===== src/Session/Outbound/Slow.antt =====
-- Slow clients: the bounds of an `Outbound` of runtime/src/session.rs under all of its operations.
use openab_pty.Base.{
  ℕ, ◌+◌, ◌-◌, ◌≤◌, min, ◌≡◌, ◌≢◌, refl, inl, inr, ◌⊎◌, Bool, true, none, some, List, [], ◌∷◌, ◌++◌,
  arith, length, drop, ltb, ◌==◌, Bool-cases, Option-cases, length-drop, length-append, isize_max,
  add_word,
}
use openab_pty.RingBuf.Queue.{
  ByteQueue, QueueBounds, Push, hard_watermark, accepted, dropped_oldest, take_bytes,
  take_unreported_gap, account_drop, overflow_outcome,
}
use openab_pty.RingBuf.Queue
use openab_pty.Session.Outbound.{
  read_chunk, ControlEvent, Outbound, new, close, push_bytes, push_control, next_bytes,
  next_control, try_next, next,
}

-- At most `capacity` bytes are buffered, and a connection that is not being closed has lost at most
-- `limit` bytes.
pub record IsBounded (capacity limit : ℕ) (o : Outbound) : Type 0 where
  pub bounds : o.queue.bounds ≡ record { capacity_bytes = capacity; max_dropped_bytes = some limit }
  pub buffered : length o.queue.buf ≤ capacity
  pub tolerated : (o.queue.dropped ≤ limit) ⊎ (o.close_code ≢ none)

-- A second close of a connection changes nothing: the first code stays.
pub close-close : (o : Outbound) (a b : ℕ) → close (close o a) b ≡ close o a
unfolding close
close-close o a b = elim (Option-cases o.close_code) [
  | inl e ↦ ground (arith, e)
  | inr e ↦ ground (arith, e.1)
]

new-IsBounded :
    (conn capacity limit : ℕ)
    → IsBounded capacity limit
        (new conn (record { capacity_bytes = capacity; max_dropped_bytes = some limit }))
unfolding new Queue.new
new-IsBounded conn capacity limit = ground arith

push_control-IsBounded :
    {c l : ℕ} (o : Outbound) (e : ControlEvent) → IsBounded c l o → IsBounded c l (push_control o e)
unfolding push_control
push_control-IsBounded o e v = ground arith

close-IsBounded :
    {c l : ℕ} (o : Outbound) (code : ℕ) → IsBounded c l o → IsBounded c l (close o code)
unfolding close
close-IsBounded o code v = elim (Option-cases o.close_code) [
  | inl e ↦ ground (arith, e)
  | inr e ↦ ground (arith, e.1)
]

-- What a push to a queue of watermark `l` says.
data Pushed (q : ByteQueue) (l : ℕ) (r : Push × ByteQueue) : Type 0 where
  all_fits : r.0 ≡ accepted → r.1.dropped ≡ q.dropped → Pushed q l r
  tolerates : (n : ℕ) → r.0 ≡ dropped_oldest n → r.1.dropped ≤ l → Pushed q l r
  disconnects : (n : ℕ) → r.0 ≡ hard_watermark n → Pushed q l r

overflowed :
    (q q' : ByteQueue) (n l : ℕ)
    → q'.bounds.max_dropped_bytes ≡ some l
    → Pushed q l (overflow_outcome q' n, q')
unfolding overflow_outcome
overflowed q q' n l e = elim (Bool-cases (ltb l q'.dropped)) [
  | inl t ↦ disconnects n (ground (arith, e, t))
  | inr t ↦ tolerates n (ground (arith, e, t)) (ground (arith, t))
]

push_cases :
    (q : ByteQueue) (l : ℕ) (chunk : List ℕ)
    → q.bounds.max_dropped_bytes ≡ some l
    → Pushed q l (Queue.push q chunk)
unfolding Queue.push account_drop
push_cases q l chunk e = elim (Bool-cases (q.bounds.capacity_bytes == 0)) [
  | inl off ↦ rw off (overflowed q _ _ l e)
  | inr on ↦
      rw on
        (elim (Bool-cases (add_word (length q.buf) (length chunk) - q.bounds.capacity_bytes == 0)) [
          | inl f ↦ rw f (all_fits refl refl)
          | inr f ↦ rw f (overflowed q _ _ l e)
        ])
]

add_small : {c : ℕ} (a b : ℕ) → a ≤ c → c ≤ isize_max → b ≤ isize_max → add_word a b ≡ a + b
add_small a b h k l = omega arith

kept_length :
    (overflow : ℕ) (xs ys : List ℕ)
    → length (drop (min overflow (length xs)) xs ++ drop (overflow - min overflow (length xs)) ys)
      ≡ (length xs + length ys) - overflow
kept_length overflow xs ys = ground (
  arith,
  length-append (drop (min overflow (length xs)) xs)
      (drop (overflow - min overflow (length xs)) ys),
  length-drop (min overflow (length xs)) xs,
  length-drop (overflow - min overflow (length xs)) ys,
)

push_buffered :
    (q : ByteQueue) (chunk : List ℕ)
    → q.bounds.capacity_bytes ≤ isize_max
    → length chunk ≤ isize_max
    → length q.buf ≤ q.bounds.capacity_bytes
    → (length (Queue.push q chunk).1.buf ≤ q.bounds.capacity_bytes)
      × ((Queue.push q chunk).1.bounds ≡ q.bounds)
unfolding Queue.push account_drop
push_buffered q chunk hc hn h =
    let a = add_small (length q.buf) (length chunk) h hc hn in
    elim (Bool-cases (q.bounds.capacity_bytes == 0)) [
      | inl off ↦ ground (arith, off, h)
      | inr on ↦
          elim (Bool-cases
            (add_word (length q.buf) (length chunk) - q.bounds.capacity_bytes == 0)) [
              | inl f ↦ ground (arith, on, f, a, length-append q.buf chunk)
              | inr f ↦ ground (
                arith,
                on,
                f,
                a,
                kept_length (add_word (length q.buf) (length chunk) - q.bounds.capacity_bytes) q.buf
                    chunk,
              )
            ]
    ]

push_bytes_close :
    (o : Outbound) (chunk : List ℕ) (l : ℕ)
    → o.queue.bounds.max_dropped_bytes ≡ some l
    → ((o.queue.dropped ≤ l) ⊎ (o.close_code ≢ none))
    → ((push_bytes o chunk).queue ≡ (Queue.push o.queue chunk).1)
      × (((Queue.push o.queue chunk).1.dropped ≤ l) ⊎ ((push_bytes o chunk).close_code ≢ none))
unfolding push_bytes close
push_bytes_close o chunk l e h = elim (push_cases o.queue l chunk e) [
  | all_fits f g ↦ ground (arith, f, g)
  | tolerates n f g ↦ ground (arith, f, g)
  | disconnects n f ↦ elim (Option-cases o.close_code) [
    | inl k ↦ ground (arith, f, k)
    | inr k ↦ ground (arith, f, k.1)
  ]
]

push_bytes-IsBounded :
    {c l : ℕ} (o : Outbound) (chunk : List ℕ)
    → c ≤ isize_max
    → length chunk ≤ isize_max
    → IsBounded c l o
    → IsBounded c l (push_bytes o chunk)
push_bytes-IsBounded {c} {l} o chunk hc hn v =
    let closes = push_bytes_close o chunk l (ground (arith, v.bounds)) v.tolerated in
    let queue =
      push_buffered o.queue chunk (ground (arith, hc, v.bounds)) hn
        (ground (arith, v.bounds, v.buffered)) in
    ground (arith, closes, queue)

take_bytes-IsBounded :
    {c l : ℕ} (o : Outbound) (emitted : Bool) (n : ℕ)
    → IsBounded c l o
    → IsBounded c l (record o { queue = (take_bytes o.queue n).1; close_emitted = emitted })
unfolding take_bytes
take_bytes-IsBounded o emitted n v =
    ground (arith, length-drop (min n (length o.queue.buf)) o.queue.buf)

next_bytes-IsBounded : {c l : ℕ} (o : Outbound) → IsBounded c l o → IsBounded c l (next_bytes o).1
unfolding next_bytes
next_bytes-IsBounded {c} {l} o v = ground (
  arith,
  take_bytes-IsBounded o true read_chunk v,
  take_bytes-IsBounded o o.close_emitted read_chunk v,
)

next-IsBounded : {c l : ℕ} (o : Outbound) → IsBounded c l o → IsBounded c l (next o).1
unfolding next try_next next_control take_unreported_gap
next-IsBounded {c} {l} o v = ground (arith, next_bytes-IsBounded o v)

-- The calls a connection's queue sees, from the session, the manager and the writer task.
pub data Call : Type 0 where
  bytes_call : List ℕ → Call
  control_call : ControlEvent → Call
  close_call : ℕ → Call
  next_call : Call

unfoldable pub perform : Outbound → Call → Outbound
perform o (bytes_call chunk) = push_bytes o chunk
perform o (control_call e) = push_control o e
perform o (close_call code) = close o code
perform o next_call = (next o).1

unfoldable pub performs : Outbound → List Call → Outbound
performs o [] = o
performs o (c ∷ cs) = performs (perform o c) cs

-- No chunk is longer than memory allows.
pub data AllSmall : List Call → Type 0 where
  no_calls : AllSmall []
  bytes_small :
      {chunk : List ℕ} {cs : List Call}
      → length chunk ≤ isize_max
      → AllSmall cs
      → AllSmall (bytes_call chunk ∷ cs)
  control_small : {e : ControlEvent} {cs : List Call} → AllSmall cs → AllSmall (control_call e ∷ cs)
  close_small : {code : ℕ} {cs : List Call} → AllSmall cs → AllSmall (close_call code ∷ cs)
  next_small : {cs : List Call} → AllSmall cs → AllSmall (next_call ∷ cs)

performs-keeps :
    {c l : ℕ} (o : Outbound) {cs : List Call}
    → c ≤ isize_max
    → AllSmall cs
    → IsBounded c l o
    → IsBounded c l (performs o cs)
unfolding performs perform
performs-keeps o h no_calls v = v
performs-keeps o h (bytes_small {chunk} k s) v =
    performs-keeps (push_bytes o chunk) h s (push_bytes-IsBounded o chunk h k v)
performs-keeps o h (control_small {e} s) v =
    performs-keeps (push_control o e) h s (push_control-IsBounded o e v)
performs-keeps o h (close_small {code} s) v =
    performs-keeps (close o code) h s (close-IsBounded o code v)
performs-keeps o h (next_small s) v = performs-keeps (next o).1 h s (next-IsBounded o v)

-- After any sequence of pushes, frames, closes and reads of a new connection, at most `capacity`
-- bytes are buffered, and more than `limit` bytes are lost only if a close code is set, if the
-- capacity and every chunk fit the address space.
pub performs-IsBounded :
    (conn capacity limit : ℕ) (cs : List Call)
    → capacity ≤ isize_max
    → AllSmall cs
    → IsBounded capacity limit (
        performs
          (new conn (record { capacity_bytes = capacity; max_dropped_bytes = some limit }))
          cs)
performs-IsBounded conn capacity limit cs h s =
    performs-keeps _ h s (new-IsBounded conn capacity limit)
