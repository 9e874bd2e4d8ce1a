-- ===== src/Server/ReadLoop/Silence.antt =====
-- A silent client: `read_loop` of runtime/src/server.rs when only the ping interval passes.
use mathlib.Core.Path.{subst}
use openab_pty.Base.{
  ℕ, zero, suc, ◌+◌, ◌≤◌, ◌≡◌, refl, ◌∙◌, sym, ap, true, false, none, some, List, [], ◌∷◌, ◌++◌,
  arith,
}
use openab_pty.Crate.{Result}
use openab_pty.Session.Policy.{WindowSize}
use openab_pty.Session.Handle.Pings.{on_missed_ping_early, on_missed_ping_last, last_miss}
use openab_pty.Server.{Parsed, socket_gone}
use openab_pty.Server.ReadLoop.{
  Event, ping_tick, Reader, ping_sent, Turn, on_tick, read_turn, read_loop, read_on, read_end, send,
}

-- Ping intervals in which the writer task takes the ping.
unfoldable pub ticks : ℕ → List Event
ticks zero = []
ticks (suc k) = ping_tick true ∷ ticks k

-- The loop has ended, and the session has no owner and no subscriber.
abbrev pub Released : Turn → Type 0
Released t =
    (t.0 ≡ some socket_gone)
    × (t.1.session.owner_conn ≡ 0)
    × (t.1.session.io_owner ≡ 0)
    × (t.1.session.subscriber ≡ none)

module _ (control : WindowSize → Result WindowSize) (parse : List ℕ → Parsed) where
  missed : Reader → Reader
  missed r = record r {
    awaiting_pong = true;
    frames = r.frames ++ (ping_sent ∷ []);
    session = record r.session { missed_pings = r.session.missed_pings + 1 };
  }

  pinged : Reader → Reader
  pinged r = record r { awaiting_pong = true; frames = r.frames ++ (ping_sent ∷ []) }

  tick_early :
      (r : Reader)
      → r.awaiting_pong ≡ true
      → r.session.missed_pings + 2 ≤ r.session.missed_ping_limit
      → on_tick control parse r.session.owner_conn true r ≡ (none, missed r)
  unfolding on_tick missed
  tick_early r w h = ground (arith, w, on_missed_ping_early r.session (omega arith))

  tick_first :
      (r : Reader)
      → r.awaiting_pong ≡ false
      → on_tick control parse r.session.owner_conn true r ≡ (none, pinged r)
  unfolding on_tick send pinged
  tick_first r w = ground (arith, w)

  tick_last :
      (r : Reader)
      → r.awaiting_pong ≡ true
      → r.session.missed_ping_limit ≤ r.session.missed_pings + 1
      → Released (on_tick control parse r.session.owner_conn true r)
  unfolding on_tick
  tick_last r w h =
      ground
        (arith, w, last_miss r.session (omega arith), on_missed_ping_last r.session (omega arith))

  waits :
      (k : ℕ) (r : Reader)
      → r.awaiting_pong ≡ true
      → r.session.missed_pings + suc k ≡ r.session.missed_ping_limit
      → ((read_loop control parse r.session.owner_conn r (ticks k)).0 ≡ none)
        × Released (read_loop control parse r.session.owner_conn r (ticks (suc k)))
  unfolding ticks read_loop read_turn missed
  waits zero r w h =
      let last = tick_last r w (omega arith) in
      (
        refl,
        subst Released
            (sym (read_end control parse r.session.owner_conn r (ping_tick true) [] _ last.0))
            (refl, last.1, last.2, last.3),
      )
  waits (suc k) r w h =
      let early = tick_early r w (omega arith) in
      let (on, end) = waits k (missed r) refl (omega arith) in
      (
        ap (λ (t : Turn). t.0)
              (read_on control parse r.session.owner_conn r _ (ping_tick true) (ticks k) early)
            ∙ on,
        subst Released
            (sym (
              read_on control parse r.session.owner_conn r _ (ping_tick true) (ticks (suc k))
                early))
            end,
      )

  -- On the owner of a session that has missed fewer pings than the limit, from the start of the
  -- read loop: if nothing arrives from the client and the writer task takes every ping, the loop
  -- still reads after as many ping intervals as misses are left, and ends with the next one, with
  -- the session left without an owner and without a subscriber.
  pub silent :
      (r : Reader) (k : ℕ)
      → r.awaiting_pong ≡ false
      → r.session.missed_pings + suc k ≡ r.session.missed_ping_limit
      → ((read_loop control parse r.session.owner_conn r (ticks (suc k))).0 ≡ none)
        × Released (read_loop control parse r.session.owner_conn r (ticks (suc (suc k))))
  unfolding ticks read_turn pinged
  silent r k w h =
      let first = tick_first r w in
      let (on, end) = waits k (pinged r) refl h in
      (
        ap (λ (t : Turn). t.0)
              (read_on control parse r.session.owner_conn r _ (ping_tick true) (ticks k) first)
            ∙ on,
        subst Released
            (sym (
              read_on control parse r.session.owner_conn r _ (ping_tick true) (ticks (suc k))
                first))
            end,
      )
