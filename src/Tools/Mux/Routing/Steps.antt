-- ===== src/Tools/Mux/Routing/Steps.antt =====
-- One step of an attached Mac, by cases (`call` and `on_mac_frame` of runtime/src/tools.rs).
use openab_pty.Base.{
  ◌++◌, ℕ, ◌≡◌, true, false, none, some, [], ◌∷◌, length, arith, leb, codes, ltb, if◌then◌else◌,
  add_word,
}
use openab_pty.Tools.{
  text, Json, Waiter, Attached, register, find_pending, send_request, withdraw, on_mac_frame,
  is_response, frame_id, answer, close,
}
use openab_pty.Tools.Mux.{
  Mux, registered, answered, failed, register_call, send_call, expire_call, mac_frame, close_socket,
  step,
}

module _ {Value : Type 0} where
  -- The socket after it has registered a call.
  abbrev pub next : Waiter → Value → Attached Value → Attached Value
  next waiter request a = record a {
    pending = (a.next_id, waiter) ∷ a.pending;
    next_id = add_word a.next_id 1;
  }

module _ {Value : Type 0} (json : Json Value) where
  pub step-register :
      (waiter : Waiter) (request : Value) (m : Mux Value)
      → step json (register_call waiter request) m ≡ (
          if leb 64 (length m.attached.pending) then m else record {
            log =
                registered m.attached.next_id waiter
                  (json.insert request (codes "id") (json.number m.attached.next_id))
                ∷ m.log;
            attached = next waiter request m.attached;
          })
  unfolding step register
  step-register waiter request m = ground arith

  pub step-send :
      (id : ℕ) (request : Value) (m : Mux Value)
      → step json (send_call id request) m ≡ (
          if m.attached.receiver
          then if ltb (length m.attached.to_mac) 64
            then record m {
              attached = record m.attached { to_mac = m.attached.to_mac ++ (text request ∷ []) };
            }
            else m
          else step json (expire_call id) m)
  unfolding step send_request withdraw
  step-send id request m = ground arith

  pub step-frame_other :
      (frame : Value) (m : Mux Value)
      → is_response json frame ≡ false
      → step json (mac_frame frame) m ≡ record m { attached = answer json frame m.attached }
  unfolding step on_mac_frame
  step-frame_other frame m e = ground arith

  pub step-frame_none :
      (frame : Value) (m : Mux Value)
      → is_response json frame ≡ true
      → frame_id json frame ≡ none
      → step json (mac_frame frame) m ≡ m
  unfolding step on_mac_frame
  step-frame_none frame m e f = ground (arith, e, f)

  pub step-frame_unknown :
      (id : ℕ) (frame : Value) (m : Mux Value)
      → is_response json frame ≡ true
      → frame_id json frame ≡ some id
      → find_pending id m.attached.pending ≡ none
      → step json (mac_frame frame) m ≡ record m { attached = withdraw id m.attached }
  unfolding step on_mac_frame
  step-frame_unknown id frame m e f g = ground (arith, e, f, g)

  pub step-frame_answer :
      (id : ℕ) (w : Waiter) (frame : Value) (m : Mux Value)
      → is_response json frame ≡ true
      → frame_id json frame ≡ some id
      → find_pending id m.attached.pending ≡ some w
      → step json (mac_frame frame) m
        ≡ record { log = answered w frame ∷ m.log; attached = withdraw id m.attached }
  unfolding step on_mac_frame
  step-frame_answer id w frame m e f g = ground (arith, e, f, g)

  pub step-close :
      (code : ℕ) (m : Mux Value)
      → step json (close_socket code) m ≡ (
          if m.attached.closed then m else record {
            log = failed (close code m.attached).0 ∷ m.log;
            attached = (close code m.attached).1;
          })
  unfolding step
  step-close code m = ground arith
