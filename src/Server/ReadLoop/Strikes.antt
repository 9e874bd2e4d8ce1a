-- ===== src/Server/ReadLoop/Strikes.antt =====
-- The tolerance of `read_loop` of runtime/src/server.rs for malformed control frames.
use openab_pty.Base.{ℕ, ◌≤◌, ◌≡◌, ◌∙◌, sym, ◌⊎◌, inl, inr, Bool, none, some, List, [], ◌∷◌, arith}
use openab_pty.Crate.{Result}
use openab_pty.Session.Policy.{WindowSize}
use openab_pty.Server.{Parsed, frame_abuse}
use openab_pty.Server.ReadLoop.{
  binary, text_frame, pong_message, ping_message, close_message, Event, incoming, ping_tick, Reader,
  Turn, send, bump_oversize, on_binary, on_rejected, on_resize, on_text, on_message, on_tick,
  read_turn, read_loop, go_on_case,
}

-- Fewer than three malformed frames so far, or the third one has ended the loop.
abbrev pub Tolerates : Turn → Type 0
Tolerates t = (t.1.malformed ≤ 2) ⊎ ((t.1.malformed ≡ 3) × (t.0 ≡ some frame_abuse))

few : (t : Turn) → Tolerates t → t.0 ≡ none → t.1.malformed ≤ 2
few t (inl h) f = h
few t (inr h) f = absurd (running (sym f ∙ h.1))
  where
    running : none ≡ some frame_abuse → ⊥
    running e = cc

module _ (conn : ℕ) where
  on_binary-malformed :
      (now : ℕ) (bytes : List ℕ) (r : Reader)
      → (on_binary conn now bytes r).1.malformed ≡ r.malformed
  unfolding on_binary bump_oversize
  on_binary-malformed now bytes r = ground arith

  module _ (control : WindowSize → Result WindowSize) (parse : List ℕ → Parsed) where
    text_Tolerates :
        (now : ℕ) (takes : Bool) (text : List ℕ) (r : Reader)
        → r.malformed ≤ 2
        → Tolerates (on_text control parse conn now takes text r)
    unfolding on_text bump_oversize on_resize send on_rejected
    text_Tolerates now takes text r h = ground arith

    tick_Tolerates :
        (takes : Bool) (r : Reader)
        → r.malformed ≤ 2
        → Tolerates (on_tick control parse conn takes r)
    unfolding on_tick send
    tick_Tolerates takes r h = ground arith

    turn_Tolerates :
        (e : Event) (r : Reader) → r.malformed ≤ 2 → Tolerates (read_turn control parse conn e r)
    unfolding read_turn on_message
    turn_Tolerates (incoming none now takes) r h = inl h
    turn_Tolerates (incoming (some (binary bytes)) now takes) r h =
        inl (let e = on_binary-malformed now bytes r in omega arith)
    turn_Tolerates (incoming (some (text_frame text)) now takes) r h =
        text_Tolerates now takes text r h
    turn_Tolerates (incoming (some pong_message) now takes) r h = inl h
    turn_Tolerates (incoming (some ping_message) now takes) r h = inl h
    turn_Tolerates (incoming (some close_message) now takes) r h = inl h
    turn_Tolerates (ping_tick takes) r h = tick_Tolerates takes r h

    -- From a state with fewer than three malformed frames, whatever arrives: a loop that still reads
    -- has met fewer than three, and a third one has ended the loop as frame abuse.
    pub read_loop-Tolerates :
        (r : Reader) (es : List Event)
        → r.malformed ≤ 2
        → Tolerates (read_loop control parse conn r es)
    unfolding read_loop
    read_loop-Tolerates r [] h = inl h
    read_loop-Tolerates r (e ∷ es) h =
        let t = turn_Tolerates e r h in
        go_on_case Tolerates (read_turn control parse conn e r)
          (λ q. read_loop control parse conn q es)
          (λ f.
            read_loop-Tolerates (read_turn control parse conn e r).1 es
              (few (read_turn control parse conn e r) t f))
          (λ why f. ground (arith, t, f))
