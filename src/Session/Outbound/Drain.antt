-- ===== src/Session/Outbound/Drain.antt =====
-- What the writer task reads from an `Outbound` of runtime/src/session.rs.
use openab_pty.Base.{
  ℕ, zero, suc, ◌≤◌, ◌<◌, ◌≡◌, refl, sym, ◌∙◌, ap, inl, inr, none, some, List, [], ◌∷◌, ◌++◌, arith,
  length, Option-cases, append-nil,
}
use openab_pty.Session.Outbound.{
  OutboundItem, bytes, control, close_with, Outbound, Next, item, finished, waits, next,
}
use openab_pty.Session.Outbound.Pending.{
  payload, events, closes, InOrder, done, sent, pending_gap, pending_close, remaining, phase, Sends,
  Idle, sends, ends, next_step,
}

-- The writer task: `next` until it ends or has to wait.
unfoldable pub drain : ℕ → Outbound → List OutboundItem × Outbound
drain zero o = ([], o)
drain (suc n) o =
    let rest = drain n (next o).1 in
    elim (next o).0 [
      | item i ↦ (i ∷ rest.0, rest.1)
      | finished ↦ ([], (next o).1)
      | waits ↦ ([], (next o).1)
    ]

-- What a drain from `o` yields, and where it leaves the queue.
pub record Drained (r : ℕ) (o : Outbound) (is : List OutboundItem) (o' : Outbound) : Type 0 where
  pub bytes_all : payload is ≡ o.queue.buf
  pub events_all : events is ≡ pending_gap o ++ o.controls
  pub close_last : closes is ≡ pending_close o
  pub in_order : InOrder r is
  pub nothing_left : remaining o' ≡ 0
  pub ended : (next o').0 ≡ elim o.close_code [ some code ↦ finished | none ↦ waits ]

drain_item :
    (n : ℕ) (o o' : Outbound) (i : OutboundItem)
    → next o ≡ (item i, o')
    → drain (suc n) o ≡ (i ∷ (drain n o').0, (drain n o').1)
unfolding drain
drain_item n o o' i e = ap (λ (p : Next × Outbound). after (drain n p.1) p) e
  where
    after : List OutboundItem × Outbound → Next × Outbound → List OutboundItem × Outbound
    after rest p = elim p.0 [
      | item i ↦ (i ∷ rest.0, rest.1)
      | finished ↦ ([], p.1)
      | waits ↦ ([], p.1)
    ]

drain_end :
    (n : ℕ) (o : Outbound)
    → next o ≡ (elim o.close_code [ some code ↦ finished | none ↦ waits ], o)
    → drain (suc n) o ≡ ([], o)
unfolding drain
drain_end n o e = elim (Option-cases o.close_code) [
  | inl k ↦ ground (arith, e, k)
  | inr k ↦ ground (arith, e, k.1)
]

length_zero {ℓ} : {A : Type ℓ} (xs : List A) → length xs ≡ 0 → xs ≡ []
length_zero [] h = refl
length_zero (x ∷ xs) h = ground arith

payload_cons :
    (i : OutboundItem) (is : List OutboundItem) → payload (i ∷ is) ≡ payload (i ∷ []) ++ payload is
unfolding payload
payload_cons (bytes b) is = rw (append-nil b) refl
payload_cons (control c) is = refl
payload_cons (close_with code) is = refl

events_cons :
    (i : OutboundItem) (is : List OutboundItem) → events (i ∷ is) ≡ events (i ∷ []) ++ events is
unfolding events
events_cons (bytes b) is = refl
events_cons (control c) is = refl
events_cons (close_with code) is = refl

closes_cons :
    (i : OutboundItem) (is : List OutboundItem) → closes (i ∷ is) ≡ closes (i ∷ []) ++ closes is
unfolding closes
closes_cons (bytes b) is = refl
closes_cons (control c) is = refl
closes_cons (close_with code) is = refl

Drained-nil :
    (o : Outbound)
    → Idle o
    → next o ≡ (elim o.close_code [ some code ↦ finished | none ↦ waits ], o)
    → Drained (phase o) o [] o
unfolding Idle remaining payload events closes
Drained-nil o h e = record {
  bytes_all = ground (arith, length_zero o.queue.buf);
  events_all = ground (arith, length_zero (pending_gap o), length_zero o.controls);
  close_last = ground (arith, length_zero (pending_close o));
  in_order = done;
  nothing_left = h;
  ended = ap (λ p. p.0) e;
}

weaken : {r r' : ℕ} {is : List OutboundItem} → r ≤ r' → InOrder r' is → InOrder r is
weaken h done = done
weaken h (sent k l) = sent (omega arith) l

Drained-item :
    (o o' last : Outbound) (i : OutboundItem) (is : List OutboundItem)
    → Sends o i o'
    → Drained (phase o') o' is last
    → Drained (phase o) o (i ∷ is) last
Drained-item o o' last i is s d = record {
  bytes_all = payload_cons i is ∙ ap (λ x. payload (i ∷ []) ++ x) d.bytes_all ∙ sym s.payload_eq;
  events_all = events_cons i is ∙ ap (λ x. events (i ∷ []) ++ x) d.events_all ∙ sym s.events_eq;
  close_last = closes_cons i is ∙ ap (λ x. closes (i ∷ []) ++ x) d.close_last ∙ sym s.closes_eq;
  in_order = sent s.order.0 (weaken s.order.1 d.in_order);
  nothing_left = d.nothing_left;
  ended = rw⁻¹ s.code_same d.ended;
}

drain_all :
    (n : ℕ) (o : Outbound) → remaining o < n → Drained (phase o) o (drain n o).0 (drain n o).1
drain_all zero o h = ground arith
drain_all (suc n) o h = elim (next_step o) [
  | sends i o' e s ↦
      let ih = drain_all n o' (omega (arith, s.less)) in
      rw (drain_item n o o' i e) (Drained-item o o' (drain n o').1 i (drain n o').0 s ih)
  | ends k e ↦ rw (drain_end n o e) (Drained-nil o k e)
]

-- Within as many calls as bytes and frames are pending, and one more, the writer task has sent the
-- gap report, every control frame, every queued byte and the close code once, in that order; then
-- `next` says the end if the connection is closed, and waits if not.
pub drain_lem : (n : ℕ) (o : Outbound) → remaining o < n → Drained 0 o (drain n o).0 (drain n o).1
drain_lem n o h = record {
  bytes_all = d.bytes_all;
  events_all = d.events_all;
  close_last = d.close_last;
  in_order = weaken (omega arith) d.in_order;
  nothing_left = d.nothing_left;
  ended = d.ended;
}
  where
    d : Drained (phase o) o (drain n o).0 (drain n o).1
    d = drain_all n o h
