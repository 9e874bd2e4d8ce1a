-- ===== src/Tools/Mux/Routing.antt =====
-- Who gets which answer of an attached Mac (`call` and `on_mac_frame` of runtime/src/tools.rs).
pub mod Steps
use mathlib.Core.Path.{subst}
use openab_pty.Base.{
  ◌++◌, ℕ, suc, ◌+◌, ◌≤◌, ◌<◌, ◌^◌, ◌≡◌, refl, sym, ◌∙◌, inl, inr, true, false, Option, none, some,
  List, [], ◌∷◌, length, arith, ◌==◌, leb, ap, codes, ltb, if◌then◌else◌, Bool-cases, Bool-split,
  Option-cases, add_word, ==_iff,
}
use openab_pty.Crate.{SessionName}
use openab_pty.Tools.{
  text, Json, Waiter, Attached, fresh, register, find_pending, remove_pending, send_request,
  withdraw, on_mac_frame, is_response, frame_id, and_then, answer, close, try_send, fail_pending,
}
use openab_pty.Tools.Mux.{
  Operation, Event, Mux, registered, answered, withdrawn, failed, register_call, send_call,
  expire_call, mac_frame, close_socket, writer_takes, writer_ends, step, run,
}
use openab_pty.Tools.Mux.Routing.Steps.{
  next, step-register, step-send, step-frame_other, step-frame_none, step-frame_unknown,
  step-frame_answer, step-close,
}

find-remove :
    (i j : ℕ) (ps : List (ℕ × Waiter))
    → find_pending j (remove_pending i ps) ≡ (if i == j then none else find_pending j ps)
unfolding find_pending remove_pending
find-remove i j [] = ground arith
find-remove i j ((k, w) ∷ ps) = ground (arith, find-remove i j ps)

length-remove : (i : ℕ) (ps : List (ℕ × Waiter)) → length (remove_pending i ps) ≤ length ps
unfolding remove_pending
length-remove i [] = omega arith
length-remove i ((k, w) ∷ ps) = ground (arith, length-remove i ps)

module _ {Value : Type 0} (json : Json Value) where
  -- The call that waits under an id, told by the log alone.
  abbrev pub outstanding : (id : ℕ) → List (Event Value) → Option Waiter
  outstanding id [] = none
  outstanding id (registered i w request ∷ log) =
      let rest = outstanding id log in if i == id then some w else rest
  outstanding id (answered w frame ∷ log) =
      let rest = outstanding id log in
      elim (frame_id json frame) [ none ↦ rest | some i ↦ if i == id then none else rest ]
  outstanding id (withdrawn i ∷ log) =
      let rest = outstanding id log in if i == id then none else rest
  outstanding id (failed ws ∷ log) = none

  -- No request so far has had this id or a later one.
  abbrev pub UnusedFrom : (id : ℕ) → List (Event Value) → Type 0
  UnusedFrom id [] = Unit
  UnusedFrom id (registered i w request ∷ log) = (i < id) × UnusedFrom id log
  UnusedFrom id (answered w frame ∷ log) = UnusedFrom id log
  UnusedFrom id (withdrawn i ∷ log) = UnusedFrom id log
  UnusedFrom id (failed ws ∷ log) = UnusedFrom id log

  -- Every request has an id above those before it, written into what is sent, and every answer went to
  -- the call that waited under the id that the answer carries.
  abbrev pub Routed : List (Event Value) → Type 0
  Routed [] = Unit
  Routed (registered i w request ∷ log) = UnusedFrom i log × Routed log
  Routed (answered w frame ∷ log) =
      ((id : ℕ) × (frame_id json frame ≡ some id) × (outstanding id log ≡ some w)) × Routed log
  Routed (withdrawn i ∷ log) = Routed log
  Routed (failed ws ∷ log) = Routed log

  -- The socket keeps what the log tells.
  pub record Refines (m : Mux Value) : Type 0 where
    pub routed : Routed m.log
    pub unused : UnusedFrom m.attached.next_id m.log
    pub same : (id : ℕ) → find_pending id m.attached.pending ≡ outstanding id m.log
    pub few : length m.attached.pending ≤ 64

  unused_later : (i : ℕ) (log : List (Event Value)) → UnusedFrom i log → UnusedFrom (i + 1) log
  unused_later i [] h = tt
  unused_later i (registered k w r ∷ log) h = (omega (arith, h.0), unused_later i log h.1)
  unused_later i (answered w f ∷ log) h = unused_later i log h
  unused_later i (withdrawn k ∷ log) h = unused_later i log h
  unused_later i (failed ws ∷ log) h = unused_later i log h

  answer_keeps :
      (frame : Value) (a : Attached Value)
      → ((answer json frame a).pending ≡ a.pending) × ((answer json frame a).next_id ≡ a.next_id)
  unfolding answer try_send
  answer_keeps frame a =
      elim (Option-cases (and_then (json.get frame (codes "method")) json.as_str)) [
        | inl e ↦ rw (e, answer) (refl, refl)
        | inr (method, e) ↦ elim (Option-cases (json.get frame (codes "id"))) [
          | inl f ↦ ground (arith, e, f)
          | inr (id, f) ↦ ground (arith, e, f)
        ]
      ]

  pub close_drops :
      (code : ℕ) (a : Attached Value)
      → a.closed ≡ false
      → ((close code a).1.pending ≡ []) × ((close code a).1.next_id ≡ a.next_id)
  unfolding close try_send fail_pending
  close_drops code a e = ground arith

  keeps :
      (m : Mux Value) (a : Attached Value)
      → a.pending ≡ m.attached.pending
      → a.next_id ≡ m.attached.next_id
      → Refines m
      → Refines (record m { attached = a })
  keeps m a p n r = record {
    routed = r.routed;
    unused = subst (λ k. UnusedFrom k m.log) (sym n) r.unused;
    same = λ j. ap (find_pending j) p ∙ r.same j;
    few = let l = ap (length {A = ℕ × Waiter}) p in let few = r.few in omega arith;
  }

  register_admits :
      (waiter : Waiter) (request : Value) (a : Attached Value)
      → leb 64 (length a.pending) ≡ false
      → register json waiter request a ≡ (
        some (a.next_id, json.insert request (codes "id") (json.number a.next_id)),
        next waiter request a,
      )
  unfolding register
  register_admits waiter request a e = rw e refl

  add_word_suc : (a : ℕ) → a + 1 < 2 ^ 64 → add_word a 1 ≡ a + 1
  add_word_suc a h = omega arith

  one_more : (n : ℕ) → leb 64 n ≡ false → suc n ≤ 64
  one_more n e = ground arith

  registered-Refines :
      (waiter : Waiter) (request sent : Value) (m : Mux Value)
      → m.attached.next_id + 1 < 2 ^ 64
      → leb 64 (length m.attached.pending) ≡ false
      → Refines m
      → Refines (record {
        log = registered m.attached.next_id waiter sent ∷ m.log;
        attached = next waiter request m.attached;
      })
  unfolding find_pending
  registered-Refines waiter request sent m small e r = record {
    routed = (r.unused, r.routed);
    unused =
        subst (λ n. UnusedFrom n (registered m.attached.next_id waiter sent ∷ m.log))
          (sym (add_word_suc m.attached.next_id small))
          (omega arith, unused_later m.attached.next_id m.log r.unused);
    same = λ id. ap (λ o. if m.attached.next_id == id then some waiter else o) (r.same id);
    few = one_more (length m.attached.pending) e;
  }

  register-Refines :
      (waiter : Waiter) (request : Value) (m : Mux Value)
      → m.attached.next_id + 1 < 2 ^ 64
      → Refines m
      → Refines (step json (register_call waiter request) m)
  register-Refines waiter request m small r = rw (step-register json waiter request m) (
      Bool-split Refines (leb 64 (length m.attached.pending)) (λ _. r)
        (λ e. registered-Refines waiter request _ m small e r))

  expire-Refines : (id : ℕ) (m : Mux Value) → Refines m → Refines (step json (expire_call id) m)
  unfolding step withdraw
  expire-Refines id m r = record {
    routed = r.routed;
    unused = r.unused;
    same =
        λ j. find-remove id j m.attached.pending ∙ ap (λ o. if id == j then none else o) (r.same j);
    few = let k = length-remove id m.attached.pending in let few = r.few in omega arith;
  }

  send-Refines :
      (id : ℕ) (request : Value) (m : Mux Value)
      → Refines m
      → Refines (step json (send_call id request) m)
  send-Refines id request m r = rw (step-send json id request m) (
      Bool-split Refines m.attached.receiver
        (λ _.
          Bool-split Refines (ltb (length m.attached.to_mac) 64)
            (λ _.
              keeps m (record m.attached { to_mac = m.attached.to_mac ++ (text request ∷ []) }) refl
                refl r)
            (λ _. r))
        (λ _. expire-Refines id m r))

  answered-Refines :
      (id : ℕ) (w : Waiter) (frame : Value) (m : Mux Value)
      → frame_id json frame ≡ some id
      → find_pending id m.attached.pending ≡ some w
      → Refines m
      → Refines (record { log = answered w frame ∷ m.log; attached = withdraw id m.attached })
  unfolding withdraw
  answered-Refines id w frame m e f r = record {
    routed = ((id, e, sym (r.same id) ∙ f), r.routed);
    unused = r.unused;
    same = λ j.
        rw (e, outstanding)
          (find-remove id j m.attached.pending ∙ ap (λ o. if id == j then none else o) (r.same j));
    few = let k = length-remove id m.attached.pending in let few = r.few in omega arith;
  }

  unknown-Refines :
      (id : ℕ) (m : Mux Value)
      → find_pending id m.attached.pending ≡ none
      → Refines m
      → Refines (record m { attached = withdraw id m.attached })
  unfolding withdraw
  unknown-Refines id m f r = record {
    routed = r.routed;
    unused = r.unused;
    same = λ j. ground (arith, find-remove id j m.attached.pending, r.same j, ==_iff id j, f);
    few = let k = length-remove id m.attached.pending in let few = r.few in omega arith;
  }

  close_open-Refines :
      (code : ℕ) (m : Mux Value)
      → m.attached.closed ≡ false
      → Refines m
      → Refines (record {
        log = failed (close code m.attached).0 ∷ m.log;
        attached = (close code m.attached).1;
      })
  unfolding find_pending
  close_open-Refines code m e r =
      let (p, n) = close_drops code m.attached e in
      record {
        routed = r.routed;
        unused = subst (λ k. UnusedFrom k m.log) (sym n) r.unused;
        same = λ j. ap (find_pending j) p;
        few = let l = ap (length {A = ℕ × Waiter}) p in omega arith;
      }

  frame-Refines :
      (frame : Value) (m : Mux Value) → Refines m → Refines (step json (mac_frame frame) m)
  frame-Refines frame m r = elim (Bool-cases (is_response json frame)) [
    | inl e ↦ elim (Option-cases (frame_id json frame)) [
      | inl f ↦ rw (step-frame_none json frame m e f) r
      | inr (id, f) ↦ elim (Option-cases (find_pending id m.attached.pending)) [
        | inl g ↦ rw (step-frame_unknown json id frame m e f g) (unknown-Refines id m g r)
        | inr (w, g) ↦
            rw (step-frame_answer json id w frame m e f g) (answered-Refines id w frame m f g r)
      ]
    ]
    | inr e ↦
        let (p, n) = answer_keeps frame m.attached in
        rw (step-frame_other json frame m e) (keeps m (answer json frame m.attached) p n r)
  ]

  close-Refines : (code : ℕ) (m : Mux Value) → Refines m → Refines (step json (close_socket code) m)
  close-Refines code m r =
      rw (step-close json code m)
        (Bool-split Refines m.attached.closed (λ _. r) (λ e. close_open-Refines code m e r))

  writer-Refines : (m : Mux Value) → Refines m → Refines (step json writer_ends m)
  unfolding step
  writer-Refines m r = record { routed = r.routed; unused = r.unused; same = r.same; few = r.few }

  takes-Refines : (m : Mux Value) → Refines m → Refines (step json writer_takes m)
  unfolding step
  takes-Refines m r = record { routed = r.routed; unused = r.unused; same = r.same; few = r.few }

  step-Refines :
      (op : Operation Value) (m : Mux Value)
      → m.attached.next_id + 1 < 2 ^ 64
      → Refines m
      → Refines (step json op m)
  step-Refines (register_call waiter request) m small r = register-Refines waiter request m small r
  step-Refines (send_call id request) m small r = send-Refines id request m r
  step-Refines (expire_call id) m small r = expire-Refines id m r
  step-Refines (mac_frame frame) m small r = frame-Refines frame m r
  step-Refines (close_socket code) m small r = close-Refines code m r
  step-Refines writer_takes m small r = takes-Refines m r
  step-Refines writer_ends m small r = writer-Refines m r

  frame_next_id :
      (frame : Value) (m : Mux Value)
      → (step json (mac_frame frame) m).attached.next_id ≤ m.attached.next_id + 1
  unfolding withdraw
  frame_next_id frame m = elim (Bool-cases (is_response json frame)) [
    | inl e ↦ elim (Option-cases (frame_id json frame)) [
      | inl f ↦ rw (step-frame_none json frame m e f) (omega arith)
      | inr (id, f) ↦ elim (Option-cases (find_pending id m.attached.pending)) [
        | inl g ↦ rw (step-frame_unknown json id frame m e f g) (omega arith)
        | inr (w, g) ↦ rw (step-frame_answer json id w frame m e f g) (omega arith)
      ]
    ]
    | inr e ↦
        let (p, n) = answer_keeps frame m.attached in
        rw (step-frame_other json frame m e) (omega arith)
  ]

  pub step-next_id :
      (op : Operation Value) (m : Mux Value)
      → m.attached.next_id + 1 < 2 ^ 64
      → (step json op m).attached.next_id ≤ m.attached.next_id + 1
  unfolding step register withdraw
  step-next_id (register_call waiter request) m small = ground arith
  step-next_id (send_call id request) m small = rw (step-send json id request m) (ground arith)
  step-next_id (expire_call id) m small = omega arith
  step-next_id (mac_frame frame) m small = frame_next_id frame m
  step-next_id (close_socket code) m small = ground (arith, close_drops code m.attached)
  step-next_id writer_takes m small = omega arith
  step-next_id writer_ends m small = omega arith

  run-Refines_from :
      (ops : List (Operation Value)) (m : Mux Value)
      → m.attached.next_id + length ops < 2 ^ 64
      → Refines m
      → Refines (run json ops m)
  unfolding run
  run-Refines_from [] m small r = r
  run-Refines_from (op ∷ ops) m small r =
      let n = step-next_id op m (omega arith) in
      run-Refines_from ops (step json op m) (omega arith) (step-Refines op m (omega arith) r)

  -- Fewer than 2^64 - 1 operations after the attach, in any order of callers, frames of the Mac,
  -- expiries, sends and closes: the ids of the forwarded requests increase, every answer went to
  -- the caller that waited under the id which the answer carries, the table of pending calls is
  -- what the log tells, and at most 64 calls are pending.
  pub run-Refines :
      (session : SessionName) (peer : List ℕ) (now : ℕ) (ops : List (Operation Value))
      → length ops + 1 < 2 ^ 64
      → Refines (run json ops (record { log = []; attached = fresh session peer now }))
  unfolding fresh find_pending
  run-Refines session peer now ops small =
      run-Refines_from ops (record { log = []; attached = fresh session peer now }) (omega arith)
        (record { routed = tt; unused = tt; same = λ id. refl; few = omega arith })
