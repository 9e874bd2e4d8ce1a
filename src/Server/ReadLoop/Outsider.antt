-- ===== src/Server/ReadLoop/Outsider.antt =====
-- `read_loop` of runtime/src/server.rs on a connection that does not own its session (any more).
use openab_pty.Base.{ℕ, ◌≡◌, ◌≢◌, refl, ◌∙◌, sym, ap, Bool, none, some, List, arith}
use openab_pty.Crate.{Result}
use openab_pty.Session.Policy.{WindowSize}
use openab_pty.Session.Handle.{Session, write_input, resize, on_pong, on_missed_ping, touch}
use openab_pty.Server.{Parsed}
use openab_pty.Server.ReadLoop.{
  binary, text_frame, pong_message, ping_message, close_message, Event, incoming, ping_tick, Reader,
  send, bump_oversize, on_binary, on_rejected, on_resize, on_text, on_message, on_tick, read_turn,
  read_loop, read_loop_keeps,
}

-- The sessions differ at most in the time of the last activity.
abbrev pub Unchanged : (before after : Session) → Type 0
Unchanged before after = after ≡ record before { last_activity_ms = after.last_activity_ms }

module _ (conn : ℕ) where
  pong_Unchanged : (s : Session) (now : ℕ) → s.owner_conn ≢ conn → Unchanged s (on_pong s conn now)
  unfolding on_pong touch
  pong_Unchanged s now h = ground arith

  binary_Unchanged :
      (now : ℕ) (bytes : List ℕ) (r : Reader)
      → r.session.io_owner ≢ conn
      → Unchanged r.session (on_binary conn now bytes r).1.session
  unfolding on_binary bump_oversize write_input
  binary_Unchanged now bytes r h = ground arith

  module _ (control : WindowSize → Result WindowSize) (parse : List ℕ → Parsed) where
    text_Unchanged :
        (now : ℕ) (takes : Bool) (text : List ℕ) (r : Reader)
        → r.session.owner_conn ≢ conn
        → r.session.io_owner ≢ conn
        → Unchanged r.session (on_text control parse conn now takes text r).1.session
    unfolding on_text bump_oversize on_resize send on_rejected resize on_pong touch
    text_Unchanged now takes text r h k = ground arith

    tick_Unchanged :
        (takes : Bool) (r : Reader)
        → r.session.owner_conn ≢ conn
        → Unchanged r.session (on_tick control parse conn takes r).1.session
    unfolding on_tick send on_missed_ping
    tick_Unchanged takes r h = ground arith

    turn_Unchanged :
        (e : Event) (r : Reader)
        → r.session.owner_conn ≢ conn
        → r.session.io_owner ≢ conn
        → Unchanged r.session (read_turn control parse conn e r).1.session
    unfolding read_turn on_message
    turn_Unchanged (incoming none now takes) r h k = refl
    turn_Unchanged (incoming (some (binary bytes)) now takes) r h k = binary_Unchanged now bytes r k
    turn_Unchanged (incoming (some (text_frame text)) now takes) r h k =
        text_Unchanged now takes text r h k
    turn_Unchanged (incoming (some pong_message) now takes) r h k = pong_Unchanged r.session now h
    turn_Unchanged (incoming (some ping_message) now takes) r h k = pong_Unchanged r.session now h
    turn_Unchanged (incoming (some close_message) now takes) r h k = refl
    turn_Unchanged (ping_tick takes) r h k = tick_Unchanged takes r h

    -- On a connection that neither owns the session nor its I/O, whatever the client sends and
    -- however long it is silent, the read loop changes nothing of the session but the time of its
    -- last activity.
    pub read_loop-Unchanged :
        (r : Reader) (es : List Event)
        → r.session.owner_conn ≢ conn
        → r.session.io_owner ≢ conn
        → Unchanged r.session (read_loop control parse conn r es).1.session
    read_loop-Unchanged r es h k =
        read_loop_keeps control parse conn (λ q. Unchanged r.session q.session)
          (λ e q u.
            turn_Unchanged e q (λ o. h (sym (ap (λ (s : Session). s.owner_conn) u) ∙ o))
              (λ o. k (sym (ap (λ (s : Session). s.io_owner) u) ∙ o))
            ∙ ap
                (λ (s : Session). record s {
                  last_activity_ms = (read_turn control parse conn e q).1.session.last_activity_ms;
                })
                u)
          r es refl
