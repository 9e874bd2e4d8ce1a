-- ===== src/Tools/Mux/Closing.antt =====
-- A closed socket toward a Mac (`Attached::close` of runtime/src/tools.rs).
use mathlib.Core.Path.{subst}
use openab_pty.Base.{
  ℕ, ◌≤◌, ◌≡◌, refl, sym, ◌∙◌, ap, inl, inr, Bool, true, false, ◌&&◌, List, [], ◌∷◌, ◌++◌, length,
  drop, arith, leb, ltb, if◌then◌else◌, Bool-cases, Bool-split, Option-cases, Option-split, codes,
}
use openab_pty.Tools.{
  Json, Waiter, Message, text, ping, pong, Attached, close, close_frame, try_send, fail_pending,
  withdraw, answer, is_response, frame_id, and_then, find_pending, reply_to,
}
use openab_pty.Tools.Mux.{
  Operation, Mux, failed, register_call, send_call, expire_call, mac_frame, close_socket,
  writer_takes, writer_ends, step, run,
}
use openab_pty.Tools.Mux.Routing.Steps.{
  step-register, step-send, step-close, step-frame_other, step-frame_none, step-frame_unknown,
  step-frame_answer,
}

module _ {Value : Type 0} where
  -- Whether the queue holds a close frame.
  abbrev pub has_close : List (Message Value) → Bool
  has_close [] = false
  has_close (close_frame code ∷ rest) = true
  has_close (text v ∷ rest) = has_close rest
  has_close (ping ∷ rest) = has_close rest
  has_close (pong payload ∷ rest) = has_close rest

  -- What no step on a closed socket changes.
  pub record Shut (code : ℕ) (a : Attached Value) : Type 0 where
    pub closed : a.closed ≡ true
    pub code_kept : a.close_code ≡ code

  has_close-text :
      (v : Value) (xs : List (Message Value))
      → has_close xs ≡ false
      → has_close (xs ++ (text v ∷ [])) ≡ false
  has_close-text v [] h = refl
  has_close-text v (close_frame code ∷ xs) h = h
  has_close-text v (text w ∷ xs) h = has_close-text v xs h
  has_close-text v (ping ∷ xs) h = has_close-text v xs h
  has_close-text v (pong payload ∷ xs) h = has_close-text v xs h

  has_close-drop :
      (xs : List (Message Value)) → has_close xs ≡ false → has_close (drop 1 xs) ≡ false
  has_close-drop [] h = h
  has_close-drop (close_frame code ∷ xs) h = ground arith
  has_close-drop (text w ∷ xs) h = h
  has_close-drop (ping ∷ xs) h = h
  has_close-drop (pong payload ∷ xs) h = h

  -- A closed socket, without a close frame in its queue.
  pub record Silent (code : ℕ) (a : Attached Value) : Type 0 where
    pub shut : Shut code a
    pub no_frame : has_close a.to_mac ≡ false

  -- What holds of a closed socket whatever its calls are, and whatever but a close frame is sent.
  pub record Lasting (P : Attached Value → Type 0) : Type 1 where
    pub is_closed : (a : Attached Value) → P a → a.closed ≡ true
    pub calls :
        (a : Attached Value) (pending : List (ℕ × Waiter)) (next_id : ℕ)
        → P a
        → P (record a { pending = pending; next_id = next_id })
    pub sends :
        (a : Attached Value) (v : Value) → P a → P (record a { to_mac = a.to_mac ++ (text v ∷ []) })
    pub takes : (a : Attached Value) → P a → P (record a { to_mac = drop 1 a.to_mac })
    pub ends : (a : Attached Value) → P a → P (record a { receiver = false; to_mac = [] })

  Shut-lasting : (code : ℕ) → Lasting (Shut code)
  Shut-lasting code = record {
    is_closed = λ a h. h.closed;
    calls = λ a ps n h. record { closed = h.closed; code_kept = h.code_kept };
    sends = λ a v h. record { closed = h.closed; code_kept = h.code_kept };
    takes = λ a h. record { closed = h.closed; code_kept = h.code_kept };
    ends = λ a h. record { closed = h.closed; code_kept = h.code_kept };
  }

  Silent_lasting : (code : ℕ) → Lasting (Silent code)
  Silent_lasting code = record {
    is_closed = λ a h. h.shut.closed;
    calls = λ a ps n h. record {
      shut = (Shut-lasting code).calls a ps n h.shut;
      no_frame = h.no_frame;
    };
    sends = λ a v h. record {
      shut = (Shut-lasting code).sends a v h.shut;
      no_frame = has_close-text v a.to_mac h.no_frame;
    };
    takes = λ a h. record {
      shut = (Shut-lasting code).takes a h.shut;
      no_frame = has_close-drop a.to_mac h.no_frame;
    };
    ends = λ a h. record { shut = (Shut-lasting code).ends a h.shut; no_frame = refl };
  }

module _ {Value : Type 0} (json : Json Value) (P : Attached Value → Type 0)
    (lasting : Lasting P) where
  abbrev OfMux : Mux Value → Type 0
  OfMux m = P m.attached

  answer_keeps : (frame : Value) (a : Attached Value) → P a → P (answer json frame a)
  unfolding answer try_send
  answer_keeps frame a h =
      Option-split P (and_then (json.get frame (codes "method")) json.as_str) (λ e. h)
        (λ method e.
          Option-split P (json.get frame (codes "id")) (λ f. h)
            (λ id f.
              Bool-split P (a.receiver && ltb (length a.to_mac) 64)
                (λ g. lasting.sends a (reply_to json id method) h) (λ g. h)))

  step-close_closed :
      (code : ℕ) (m : Mux Value) → m.attached.closed ≡ true → step json (close_socket code) m ≡ m
  step-close_closed code m e =
      step-close json code m
      ∙ ap
          (λ t. if t then m else record {
            log = failed (close code m.attached).0 ∷ m.log;
            attached = (close code m.attached).1;
          })
          e

  step_keeps : (op : Operation Value) (m : Mux Value) → OfMux m → OfMux (step json op m)
  unfolding step withdraw
  step_keeps (register_call waiter request) m h =
      subst OfMux (sym (step-register json waiter request m)) (
        Bool-split OfMux (leb 64 (length m.attached.pending)) (λ e. h)
          (λ e. lasting.calls m.attached _ _ h))
  step_keeps (send_call id request) m h = subst OfMux (sym (step-send json id request m)) (
      Bool-split OfMux m.attached.receiver
        (λ e.
          Bool-split OfMux (ltb (length m.attached.to_mac) 64)
            (λ f. lasting.sends m.attached request h) (λ f. h))
        (λ e. lasting.calls m.attached _ _ h))
  step_keeps (expire_call id) m h = lasting.calls m.attached _ _ h
  step_keeps (mac_frame frame) m h = elim (Bool-cases (is_response json frame)) [
    | inl e ↦ elim (Option-cases (frame_id json frame)) [
      | inl f ↦ subst OfMux (sym (step-frame_none json frame m e f)) h
      | inr (id, f) ↦ elim (Option-cases (find_pending id m.attached.pending)) [
        | inl g ↦
            subst OfMux (sym (step-frame_unknown json id frame m e f g))
              (lasting.calls m.attached _ _ h)
        | inr (w, g) ↦
            subst OfMux (sym (step-frame_answer json id w frame m e f g))
              (lasting.calls m.attached _ _ h)
      ]
    ]
    | inr e ↦ subst OfMux (sym (step-frame_other json frame m e)) (answer_keeps frame m.attached h)
  ]
  step_keeps (close_socket code) m h =
      subst OfMux (sym (step-close_closed code m (lasting.is_closed m.attached h))) h
  step_keeps writer_takes m h = lasting.takes m.attached h
  step_keeps writer_ends m h = lasting.ends m.attached h

  run_keeps : (ops : List (Operation Value)) (m : Mux Value) → OfMux m → OfMux (run json ops m)
  unfolding run
  run_keeps [] m h = h
  run_keeps (op ∷ ops) m h = run_keeps ops (step json op m) (step_keeps op m h)

module _ {Value : Type 0} (json : Json Value) where
  shuts :
      (code : ℕ) (m : Mux Value)
      → m.attached.closed ≡ false
      → Shut code (step json (close_socket code) m).attached
  unfolding step close try_send fail_pending
  shuts code m e = record { closed = ground arith; code_kept = ground arith }

  silent :
      (code : ℕ) (m : Mux Value)
      → m.attached.closed ≡ false
      → 64 ≤ length m.attached.to_mac
      → has_close m.attached.to_mac ≡ false
      → has_close (step json (close_socket code) m).attached.to_mac ≡ false
  unfolding step close try_send fail_pending
  silent code m e full h = ground (arith, h)

  -- The first close decides: whatever happens afterwards, other closes included, the socket stays
  -- closed with the first code.
  pub close_first :
      (code : ℕ) (m : Mux Value) (ops : List (Operation Value))
      → m.attached.closed ≡ false
      → ((run json ops (step json (close_socket code) m)).attached.closed ≡ true)
        × ((run json ops (step json (close_socket code) m)).attached.close_code ≡ code)
  close_first code m ops fresh_close =
      let r = run_keeps json (Shut code) (Shut-lasting code) ops _ (shuts code m fresh_close) in
      (r.closed, r.code_kept)

  -- A socket that is closed while its queue holds 64 messages and no close frame never sends a
  -- close frame, whatever happens afterwards.
  pub close_full :
      (code : ℕ) (m : Mux Value) (ops : List (Operation Value))
      → m.attached.closed ≡ false
      → 64 ≤ length m.attached.to_mac
      → has_close m.attached.to_mac ≡ false
      → ((run json ops (step json (close_socket code) m)).attached.closed ≡ true)
        × (has_close (run json ops (step json (close_socket code) m)).attached.to_mac ≡ false)
  close_full code m ops fresh_close full none_yet =
      let r = run_keeps json (Silent code) (Silent_lasting code) ops _ (record {
        shut = shuts code m fresh_close;
        no_frame = silent code m fresh_close full none_yet;
      }) in
      (r.shut.closed, r.no_frame)
