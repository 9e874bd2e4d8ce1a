-- ===== src/Session/Outbound/Pending.antt =====
-- What is still to be sent of an `Outbound` of runtime/src/session.rs, and what one call of `next` sends.
use openab_pty.Base.{
  ℕ, suc, ◌+◌, ◌≤◌, ◌<◌, min, ◌≡◌, refl, ◌∙◌, ap, inl, inr, ◌⊎◌, true, false, none, some, List, [],
  ◌∷◌, ◌++◌, arith, length, take, ltb, ◌==◌, if◌then◌else◌, Bool-cases, Option-cases, length-drop,
  take-append-drop, append-nil,
}
use openab_pty.RingBuf.Queue.{ByteQueue, take_bytes, take_unreported_gap}
use openab_pty.Session.Outbound.{
  read_chunk, ControlEvent, gap, OutboundItem, bytes, control, close_with, Outbound, next_bytes,
  next_control, try_next, item, finished, waits, next,
}

-- The parts of what a connection is sent.
unfoldable pub payload : List OutboundItem → List ℕ
payload [] = []
payload (bytes b ∷ is) = b ++ payload is
payload (control c ∷ is) = payload is
payload (close_with code ∷ is) = payload is

unfoldable pub events : List OutboundItem → List ControlEvent
events [] = []
events (bytes b ∷ is) = events is
events (control c ∷ is) = c ∷ events is
events (close_with code ∷ is) = events is

unfoldable pub closes : List OutboundItem → List ℕ
closes [] = []
closes (bytes b ∷ is) = closes is
closes (control c ∷ is) = closes is
closes (close_with code ∷ is) = code ∷ closes is

unfoldable pub rank : OutboundItem → ℕ
rank (control c) = 0
rank (bytes b) = 1
rank (close_with code) = 2

-- Control frames before bytes, bytes before the close code.
pub data InOrder : ℕ → List OutboundItem → Type 0 where
  done : {r : ℕ} → InOrder r []
  sent :
      {r : ℕ} {i : OutboundItem} {is : List OutboundItem}
      → r ≤ rank i
      → InOrder (rank i) is
      → InOrder r (i ∷ is)

-- What is still to be sent.
unfoldable pub pending_gap : Outbound → List ControlEvent
pending_gap o = if o.queue.unreported_dropped == 0 then [] else gap o.queue.unreported_dropped ∷ []

unfoldable pub pending_close : Outbound → List ℕ
pending_close o = elim o.close_code [
  | none ↦ []
  | some code ↦ if o.close_emitted then [] else code ∷ []
]

unfoldable pub remaining : Outbound → ℕ
remaining o =
    length (pending_gap o) + length o.controls + length o.queue.buf + length (pending_close o)

-- The phase that the next item is of.
unfoldable pub phase : Outbound → ℕ
phase o = elim (pending_gap o ++ o.controls) [
  | c ∷ cs ↦ 0
  | [] ↦ elim o.queue.buf [ b ∷ bs ↦ 1 | [] ↦ 2 ]
]

-- One call of `next`: an item, which is the head of what is pending, or nothing left.
pub record Sends (o : Outbound) (i : OutboundItem) (o' : Outbound) : Type 0 where
  pub payload_eq : o.queue.buf ≡ payload (i ∷ []) ++ o'.queue.buf
  pub events_eq : pending_gap o ++ o.controls ≡ events (i ∷ []) ++ (pending_gap o' ++ o'.controls)
  pub closes_eq : pending_close o ≡ closes (i ∷ []) ++ pending_close o'
  pub less : remaining o' < remaining o
  pub order : phase o ≤ rank i × rank i ≤ phase o'
  pub code_same : o'.close_code ≡ o.close_code

unfoldable pub Idle : Outbound → Type 0
Idle o = remaining o ≡ 0

next_gap :
    (o : Outbound)
    → 0 < o.queue.unreported_dropped
    → next o ≡ (
      item (control (gap o.queue.unreported_dropped)),
      record o { queue = record o.queue { unreported_dropped = 0 } },
    )
unfolding next try_next take_unreported_gap
next_gap o h = ground arith

next_event :
    (o : Outbound) (c : ControlEvent) (cs : List ControlEvent)
    → o.queue.unreported_dropped ≡ 0
    → o.controls ≡ c ∷ cs
    → next o ≡ (item (control c), record o { controls = cs })
unfolding next try_next take_unreported_gap next_control
next_event o c cs h e = ground arith

take_some :
    (q : ByteQueue) {b : ℕ} {bs : List ℕ}
    → q.buf ≡ b ∷ bs
    → (take_bytes q read_chunk).0 ≡ b ∷ take (min 16_383 (length bs)) bs
unfolding take_bytes
take_some q {b} {bs} e = rw (e, min_suc bs) refl
  where
    min_suc : (bs : List ℕ) → min read_chunk (length (b ∷ bs)) ≡ suc (min 16_383 (length bs))
    min_suc bs = ground arith

try_next_quiet :
    (o : Outbound) → o.queue.unreported_dropped ≡ 0 → o.controls ≡ [] → try_next o ≡ next_bytes o
unfolding try_next take_unreported_gap next_control
try_next_quiet o h e = ground arith

next_bytes-some :
    (o : Outbound) (b : ℕ) (bs : List ℕ)
    → (take_bytes o.queue read_chunk).0 ≡ b ∷ bs
    → next_bytes o ≡ (some (bytes (b ∷ bs)), record o { queue = (take_bytes o.queue read_chunk).1 })
unfolding next_bytes
next_bytes-some o b bs e = rw (next_bytes, e) refl

next_some : (o o' : Outbound) (i : OutboundItem) → try_next o ≡ (some i, o') → next o ≡ (item i, o')
unfolding next
next_some o o' i e = rw (next, e) (ap (λ p. (item i, p.1)) e)

next_chunk :
    (o : Outbound) (b : ℕ) (bs : List ℕ)
    → o.queue.unreported_dropped ≡ 0
    → o.controls ≡ []
    → o.queue.buf ≡ b ∷ bs
    → next o ≡ (
      item (bytes (b ∷ take (min 16_383 (length bs)) bs)),
      record o { queue = (take_bytes o.queue read_chunk).1 },
    )
next_chunk o b bs h e f =
    next_some o _ _ (try_next_quiet o h e ∙ next_bytes-some o _ _ (take_some o.queue f))

next_end :
    (o : Outbound)
    → o.queue.unreported_dropped ≡ 0
    → o.controls ≡ []
    → o.queue.buf ≡ []
    → next o ≡ elim o.close_code [
      | none ↦ (waits, o)
      | some code ↦
          if o.close_emitted
          then (finished, o)
          else (item (close_with code), record o { close_emitted = true })
    ]
unfolding next try_next take_unreported_gap next_control next_bytes take_bytes
next_end o h e f = ground arith

Sends-gap :
    (o : Outbound)
    → 0 < o.queue.unreported_dropped
    → Sends o
        (control (gap o.queue.unreported_dropped))
        (record o { queue = record o.queue { unreported_dropped = 0 } })
unfolding pending_gap pending_close remaining payload events closes rank phase
Sends-gap o h = ground arith

Sends-event :
    (o : Outbound) (c : ControlEvent) (cs : List ControlEvent)
    → o.queue.unreported_dropped ≡ 0
    → o.controls ≡ c ∷ cs
    → Sends o (control c) (record o { controls = cs })
unfolding pending_gap pending_close remaining payload events closes rank phase
Sends-event o c cs h e = ground arith

take_bytes_split :
    (q : ByteQueue) (b : ℕ) (bs : List ℕ)
    → q.buf ≡ b ∷ bs
    → ((take_bytes q read_chunk).0 ++ (take_bytes q read_chunk).1.buf ≡ q.buf)
      × (length (take_bytes q read_chunk).1.buf < length q.buf)
      × ((take_bytes q read_chunk).1.unreported_dropped ≡ q.unreported_dropped)
unfolding take_bytes
take_bytes_split q b bs e = (
  take-append-drop (min read_chunk (length q.buf)) q.buf,
  ground (arith, length-drop (min read_chunk (length q.buf)) q.buf),
  refl,
)

Sends-chunk :
    (o : Outbound) (b : ℕ) (bs : List ℕ)
    → o.queue.unreported_dropped ≡ 0
    → o.controls ≡ []
    → o.queue.buf ≡ b ∷ bs
    → Sends o
        (bytes (b ∷ take (min 16_383 (length bs)) bs))
        (record o { queue = (take_bytes o.queue read_chunk).1 })
unfolding pending_gap pending_close remaining payload events closes rank phase
Sends-chunk o b bs h e f = ground (
  arith,
  take_bytes_split o.queue b bs f,
  take_some o.queue f,
  append-nil (take (min 16_383 (length bs)) bs),
)

Sends-close :
    (o : Outbound) (code : ℕ)
    → o.queue.unreported_dropped ≡ 0
    → o.controls ≡ []
    → o.queue.buf ≡ []
    → o.close_code ≡ some code
    → o.close_emitted ≡ false
    → Sends o (close_with code) (record o { close_emitted = true })
unfolding pending_gap pending_close remaining payload events closes rank phase
Sends-close o code h e f g k = ground arith

-- The next call either sends the head of what is pending, or nothing is pending and it ends or waits,
-- as the connection is closed or not.
pub data Step (o : Outbound) : Type 0 where
  sends : (i : OutboundItem) (o' : Outbound) → next o ≡ (item i, o') → Sends o i o' → Step o
  ends : Idle o → next o ≡ (elim o.close_code [ some code ↦ finished | none ↦ waits ], o) → Step o

pub next_step : (o : Outbound) → Step o
unfolding Idle remaining pending_gap pending_close
next_step o = by_gap (Bool-cases (ltb 0 o.queue.unreported_dropped))
  where
    by_code :
        (Option-cases : (o.close_code ≡ none) ⊎ ((code : ℕ) × (o.close_code ≡ some code)))
        → o.queue.unreported_dropped ≡ 0
        → o.controls ≡ []
        → o.queue.buf ≡ []
        → Step o
    by_code (inl k) h e f = ends (ground arith) (next_end o h e f ∙ ground arith)
    by_code (inr (code, k)) h e f = elim (Bool-cases o.close_emitted) [
      | inl g ↦ ends (ground arith) (next_end o h e f ∙ ground arith)
      | inr g ↦
          sends (close_with code) _ (next_end o h e f ∙ ground arith) (Sends-close o code h e f k g)
    ]

    by_buf :
        (xs : List ℕ) → o.queue.buf ≡ xs → o.queue.unreported_dropped ≡ 0 → o.controls ≡ [] → Step o
    by_buf [] f h e = by_code (Option-cases o.close_code) h e f
    by_buf (b ∷ bs) f h e = sends _ _ (next_chunk o b bs h e f) (Sends-chunk o b bs h e f)

    by_controls :
        (cs : List ControlEvent) → o.controls ≡ cs → o.queue.unreported_dropped ≡ 0 → Step o
    by_controls [] e h = by_buf o.queue.buf refl h e
    by_controls (c ∷ cs) e h = sends _ _ (next_event o c cs h e) (Sends-event o c cs h e)

    by_gap :
        (ltb 0 o.queue.unreported_dropped ≡ true) ⊎ (ltb 0 o.queue.unreported_dropped ≡ false)
        → Step o
    by_gap (inl t) = sends _ _ (next_gap o (ground arith)) (Sends-gap o (ground arith))
    by_gap (inr f) = by_controls o.controls refl (ground arith)
