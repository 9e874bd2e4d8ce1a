-- ===== src/Tools/Mux.antt =====
-- The calls of one attached Mac as a sequence of steps (`Attached` of runtime/src/tools.rs), with a log of
-- what the loopback callers see, newest first. Any interleaving of callers, the Mac's frames, expiry
-- and the close is a list of operations.
pub mod Routing
pub mod Closing
use openab_pty.Base.{
  ℕ, Bool, true, false, Option, none, some, List, [], ◌∷◌, drop, ◌==◌, if◌then◌else◌,
}
use openab_pty.Tools.{
  Json, Waiter, Attached, register, send_request, withdraw, on_mac_frame, is_response, frame_id,
  close,
}

pub data Operation (Value : Type 0) : Type 0 where
  register_call : Waiter → (request : Value) → Operation Value
  send_call : (id : ℕ) (request : Value) → Operation Value
  expire_call : (id : ℕ) → Operation Value
  mac_frame : Value → Operation Value
  close_socket : (code : ℕ) → Operation Value
  writer_takes writer_ends : Operation Value

pub data Event (Value : Type 0) : Type 0 where
  registered : (id : ℕ) → Waiter → (request : Value) → Event Value
  answered : Waiter → (frame : Value) → Event Value
  withdrawn : (id : ℕ) → Event Value
  failed : List Waiter → Event Value

pub record Mux (Value : Type 0) : Type 0 where
  pub log : List (Event Value)
  pub attached : Attached Value

module _ {Value : Type 0} (json : Json Value) where
  unfoldable pub step : Operation Value → Mux Value → Mux Value
  unfolding register send_request withdraw on_mac_frame close
  step (register_call waiter request) m =
      let (outcome, a) = register json waiter request m.attached in
      elim outcome [
        | none ↦ m
        | some (id, sent) ↦ record { log = registered id waiter sent ∷ m.log; attached = a }
      ]
  step (send_call id request) m =
      let (outcome, a) = send_request id request m.attached in
      elim outcome [
        | some (some e) ↦ record { log = withdrawn id ∷ m.log; attached = a }
        | some none ↦ record m { attached = a }
        | none ↦ m
      ]
  step (expire_call id) m = record { log = withdrawn id ∷ m.log; attached = withdraw id m.attached }
  step (mac_frame frame) m =
      let (waiter, a) = on_mac_frame json frame m.attached in
      elim waiter [
        | none ↦ record m { attached = a }
        | some w ↦ record { log = answered w frame ∷ m.log; attached = a }
      ]
  step (close_socket code) m =
      let (dropped, a) = close code m.attached in
      if m.attached.closed then m else record { log = failed dropped ∷ m.log; attached = a }
  step writer_takes m = record m {
    attached = record m.attached { to_mac = drop 1 m.attached.to_mac };
  }
  step writer_ends m = record m { attached = record m.attached { receiver = false; to_mac = [] } }

  unfoldable pub run : List (Operation Value) → Mux Value → Mux Value
  unfolding step
  run [] m = m
  run (op ∷ ops) m = run ops (step op m)
