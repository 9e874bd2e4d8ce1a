-- ===== src/Tools/Hub/Runs.antt =====
-- Whatever the admin plane, the Macs, the callers and the ticker do to a `ToolsHub`
-- (runtime/src/tools.rs), one step after the other.
use mathlib.Core.Path.{subst}
use openab_pty.Base.{
  ℕ, ◌≡◌, refl, sym, ◌∙◌, ap, inl, inr, Bool, false, Option, none, some, List, [], ◌∷◌, get_elem?,
  arith, leb, ltb, ◌==◌, Bool-cases, Bool-split, Option-cases, Option-split, lookup, length, codes,
  ◌+◌,
}
use openab_pty.Crate.{SessionName, Result}
use openab_pty.Tools.{
  Json, Waiter, find_pending, Attached, try_send, ping, withdraw, answer, is_response, frame_id,
  and_then,
}
use openab_pty.Tools.Mux.{
  Operation, Mux, register_call, send_call, expire_call, mac_frame, close_socket, writer_takes,
  writer_ends, step,
}
use openab_pty.Tools.Mux.Routing.Steps.{
  next, step-register, step-send, step-close, step-frame_other, step-frame_none, step-frame_unknown,
  step-frame_answer,
}
use openab_pty.Tools.Hub.{
  new, attached_for, mint_with_ttl, revoke, verify, issue_loopback_key, forget_session, install,
  ping_tick, finish, sweep, close_all, log_events,
}
use openab_pty.Tools.Hub.State.{MintedToolsAttach, ToolsHub, update}
use openab_pty.Tools.Hub.OneMac.{
  revoke-OneMac, install-OneMac, finish-OneMac, forget_session-OneMac, sweep-OneMac,
  close_all-OneMac, open_socket,
}
use openab_pty.Tools.Hub.OneMac.Sockets.{Later, OneMac, close-Later, updated_OneMac}

-- `socket_does` is a step of the calls on one socket, and `pings` a tick of its ping interval.
pub data HubOperation (Value : Type 0) : Type 0 where
  mints : SessionName → (ttl now : ℕ) (raw : Option (List ℕ)) → HubOperation Value
  revokes : SessionName → (code now : ℕ) → HubOperation Value
  verifies : SessionName → (presented source : List ℕ) (now : ℕ) → HubOperation Value
  issues_key : SessionName → (raw : Option (List ℕ)) → HubOperation Value
  forgets : SessionName → (now : ℕ) → HubOperation Value
  installs : SessionName → (peer : List ℕ) (now : ℕ) → HubOperation Value
  socket_does : (socket : ℕ) → Operation Value → HubOperation Value
  pings : (socket missed : ℕ) → HubOperation Value
  finishes : SessionName → (peer : List ℕ) (socket now : ℕ) → HubOperation Value
  sweeps : (session_exists : SessionName → Bool) (now : ℕ) → HubOperation Value
  closes_all : (code : ℕ) → HubOperation Value

none_ne_some {ℓ} : {A : Type ℓ} {x : A} → none ≡ some x → ⊥
none_ne_some e = cc

module _ {Value : Type 0} (json : Json Value) (sha256 : List ℕ → List ℕ) where
  -- A step of the calls on one socket, without its log.
  unfoldable pub on_socket : Operation Value → Attached Value → Attached Value
  unfolding step
  on_socket op a = (step json op (record { log = []; attached = a })).attached

  unfoldable pub hub_step : HubOperation Value → ToolsHub Value → ToolsHub Value
  unfolding mint_with_ttl revoke verify issue_loopback_key forget_session install on_socket
      ping_tick finish sweep close_all update
  hub_step (mints session ttl now raw) hub = (mint_with_ttl sha256 session ttl now raw hub).1
  hub_step (revokes session code now) hub = (revoke sha256 session code now hub).1
  hub_step (verifies session presented source now) hub =
      (verify sha256 session presented source now hub).2
  hub_step (issues_key session raw) hub = (issue_loopback_key session raw hub).1
  hub_step (forgets session now) hub = forget_session sha256 session now hub
  hub_step (installs session peer now) hub = (install session peer now hub).1
  hub_step (socket_does socket op) hub = record hub {
    sockets = update socket (on_socket op) hub.sockets;
  }
  hub_step (pings socket missed) hub = record hub {
    sockets = update socket (λ a. (ping_tick missed a).2) hub.sockets;
  }
  hub_step (finishes session peer socket now) hub = finish session peer socket now hub
  hub_step (sweeps session_exists now) hub = sweep sha256 session_exists now hub
  hub_step (closes_all code) hub = close_all code hub

  unfoldable pub hub_run : List (HubOperation Value) → ToolsHub Value → ToolsHub Value
  unfolding hub_step
  hub_run [] hub = hub
  hub_run (op ∷ ops) hub = hub_run ops (hub_step op hub)

  try_send-Later : (a : Attached Value) → Later a (try_send ping a)
  unfolding try_send
  try_send-Later a = record { same = ground arith; stays = λ e. ground arith }

  answer-Later : (frame : Value) (a : Attached Value) → Later a (answer json frame a)
  unfolding answer try_send
  answer-Later frame a =
      Option-split (Later a) (and_then (json.get frame (codes "method")) json.as_str)
        (λ e. record { same = refl; stays = λ c. c })
        (λ method e.
          Option-split (Later a) (json.get frame (codes "id"))
            (λ f. record { same = refl; stays = λ c. c })
            (λ id f. record { same = ground arith; stays = λ c. ground arith }))

  abbrev start : Attached Value → Mux Value
  start a = record { log = []; attached = a }

  abbrev LaterMux : Attached Value → Mux Value → Type 0
  LaterMux a m = Later a m.attached

  rewritten :
      (a : Attached Value) {m : Mux Value} (m' : Mux Value) → m ≡ m' → LaterMux a m' → LaterMux a m
  rewritten a m' e l = subst (LaterMux a) (sym e) l

  same-Later : (a : Attached Value) → Later a a
  same-Later a = record { same = refl; stays = λ c. c }

  next-Later : (a : Attached Value) (w : Waiter) (request : Value) → Later a (next w request a)
  next-Later a w request = record { same = refl; stays = λ c. c }

  on_socket-Later : (op : Operation Value) (a : Attached Value) → Later a (on_socket op a)
  unfolding on_socket withdraw step
  on_socket-Later (register_call waiter request) a =
      rewritten a _ (step-register json waiter request (start a)) (
        Bool-split (LaterMux a) (leb 64 (length a.pending)) (λ e. same-Later a)
          (λ e. next-Later a waiter request))
  on_socket-Later (send_call id request) a = rewritten a _ (step-send json id request (start a)) (
      Bool-split (LaterMux a) a.receiver
        (λ e.
          Bool-split (LaterMux a) (ltb (length a.to_mac) 64)
            (λ f. record { same = refl; stays = λ c. c }) (λ f. same-Later a))
        (λ e. record { same = refl; stays = λ c. c }))
  on_socket-Later (expire_call id) a = record { same = refl; stays = λ c. c }
  on_socket-Later (mac_frame frame) a = elim (Bool-cases (is_response json frame)) [
    | inl e ↦ elim (Option-cases (frame_id json frame)) [
      | inl f ↦ rewritten a _ (step-frame_none json frame (start a) e f) (same-Later a)
      | inr (id, f) ↦ elim (Option-cases (find_pending id a.pending)) [
        | inl g ↦
            rewritten a _ (step-frame_unknown json id frame (start a) e f g)
              (record { same = refl; stays = λ c. c })
        | inr (w, g) ↦
            rewritten a _ (step-frame_answer json id w frame (start a) e f g)
              (record { same = refl; stays = λ c. c })
      ]
    ]
    | inr e ↦ rewritten a _ (step-frame_other json frame (start a) e) (answer-Later frame a)
  ]
  on_socket-Later (close_socket code) a =
      rewritten a _ (step-close json code (start a))
        (Bool-split (LaterMux a) a.closed (λ e. same-Later a) (λ e. close-Later code a))
  on_socket-Later writer_takes a = record { same = refl; stays = λ c. c }
  on_socket-Later writer_ends a = record { same = refl; stays = λ c. c }

  ping-Later : (missed : ℕ) (a : Attached Value) → Later a (ping_tick missed a).2
  unfolding ping_tick
  ping-Later missed a =
      Bool-split (λ (r : Bool × ℕ × Attached Value). Later a r.2) a.closed
        (λ e. record { same = refl; stays = λ c. c })
        (λ e.
          Bool-split (λ (r : Bool × ℕ × Attached Value). Later a r.2) (ltb 3 (missed + 1))
            (λ f. close-Later 4011 a) (λ f. try_send-Later a))

  verify_keeps :
      (session : SessionName) (presented source : List ℕ) (now : ℕ) (hub : ToolsHub Value)
      → ((verify sha256 session presented source now hub).2.sockets ≡ hub.sockets)
        × ((verify sha256 session presented source now hub).2.attached ≡ hub.attached)
  unfolding verify log_events
  verify_keeps session presented source now hub = ground arith

  hub_step-OneMac :
      (op : HubOperation Value) (hub : ToolsHub Value) → OneMac hub → OneMac (hub_step op hub)
  unfolding hub_step mint_with_ttl verify issue_loopback_key log_events
  hub_step-OneMac (mints session ttl now raw) hub inv =
      Bool-split (λ (r : Result MintedToolsAttach × ToolsHub Value). OneMac r.1) (ttl == 0)
        (λ e. inv)
        (λ e.
          Bool-split (λ (r : Result MintedToolsAttach × ToolsHub Value). OneMac r.1)
            (ltb hub.max_ttl ttl) (λ f. inv)
            (λ f.
              Option-split (λ (r : Result MintedToolsAttach × ToolsHub Value). OneMac r.1) raw
                (λ g. inv) (λ bytes g. inv)))
  hub_step-OneMac (revokes session code now) hub inv = revoke-OneMac sha256 session code now hub inv
  hub_step-OneMac (verifies session presented source now) hub inv =
      let (same, kept) = verify_keeps session presented source now hub in
      λ j a at o. ap (lookup a.session) kept ∙ inv j a (sym (ap (λ xs. get_elem? xs j) same) ∙ at) o
  hub_step-OneMac (issues_key session none) hub inv = inv
  hub_step-OneMac (issues_key session (some raw)) hub inv = inv
  hub_step-OneMac (forgets session now) hub inv = forget_session-OneMac sha256 session now hub inv
  hub_step-OneMac (installs session peer now) hub inv = install-OneMac session peer now hub inv
  hub_step-OneMac (socket_does socket op) hub inv =
      updated_OneMac socket (on_socket op) hub (on_socket-Later op) inv
  hub_step-OneMac (pings socket missed) hub inv =
      updated_OneMac socket (λ a. (ping_tick missed a).2) hub (ping-Later missed) inv
  hub_step-OneMac (finishes session peer socket now) hub inv =
      finish-OneMac session peer socket now hub inv
  hub_step-OneMac (sweeps exists now) hub inv = sweep-OneMac sha256 exists now hub inv
  hub_step-OneMac (closes_all code) hub inv = close_all-OneMac code hub inv

  hub_run-OneMac :
      (ops : List (HubOperation Value)) (hub : ToolsHub Value)
      → OneMac hub
      → OneMac (hub_run ops hub)
  unfolding hub_run
  hub_run-OneMac [] hub inv = inv
  hub_run-OneMac (op ∷ ops) hub inv =
      hub_run-OneMac ops (hub_step op hub) (hub_step-OneMac op hub inv)

  -- After any sequence of mints, revocations, verifications, attaches, steps of calls, pings, ends
  -- of socket tasks, sweeps and shutdowns, every socket that is not closed is the one that the hub
  -- has for its session; so no session has two.
  pub hub_run-attached_for :
      (max_ttl : ℕ) (ops : List (HubOperation Value)) (socket : ℕ) (a : Attached Value)
      → get_elem? (hub_run ops (new max_ttl)).sockets socket ≡ some a
      → a.closed ≡ false
      → attached_for (hub_run ops (new max_ttl)) a.session ≡ some socket
  unfolding new attached_for
  hub_run-attached_for max_ttl ops socket a at o =
      let inv = hub_run-OneMac ops (new max_ttl) (λ i b e. absurd (none_ne_some e)) in
      let hub = hub_run ops (new max_ttl) in
      let e = inv socket a at o in let c = open_socket hub socket a at o in ground (arith, e, c)
