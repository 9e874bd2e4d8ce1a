-- ===== src/Session/Attach/Steps.antt =====
-- Interleavings: a session under any sequence of the critical sections and I/O steps that threads and
-- handlers of runtime/src/session.rs perform on it.
use openab_pty.Base.{ℕ, ◌<◌, ◌≡◌, ◌≢◌, Bool, false, Option, none, List, [], ◌∷◌, arith}
use openab_pty.Crate.{Result, Generation, SessionName}
use openab_pty.Audit.{TerminationClass}
use openab_pty.RingBuf.Scrollback.{Replay}
use openab_pty.Session.Policy.{SessionPolicy, WindowSize}
use openab_pty.Session.Handle.{
  evicted, Session, InputChunk, fresh, write_input, resize, on_pong, on_missed_ping, detach,
  writer_turn, on_output,
}
use openab_pty.Session.Handle.Fence.{
  View, view, Moves, stays, charges, releases, renews, owns, dies, IsFenced, HasLost,
  Moves-IsFenced, Moves-HasLost, view-write_input, view-resize, view-on_pong, view-writer_turn,
  view-on_output, on_missed_ping-Moves, detach-Moves,
}
use openab_pty.Session.Attach.{
  attach_locked, attach_deliver, renew_locked, teardown_locked, cleared, ttl_decision,
}
use openab_pty.Session.Attach.Cas.{
  attach_locked-Moves, view-attach_deliver, renew_locked-Moves, view-cleared, teardown_locked-Moves,
  view-ttl_decision,
}

pub data Step : Type 0 where
  write_step : (conn now : ℕ) (bytes : List ℕ) → Step
  resize_step : (conn : ℕ) (size : WindowSize) → Step
  pong_step : (conn now : ℕ) → Step
  missed_ping_step detach_step : (conn : ℕ) → Step
  writer_step : Step
  output_step : (now : ℕ) (bytes : List ℕ) → Step
  attach_step : (generation : Generation) (size : WindowSize) (since : Option ℕ) (now : ℕ) → Step
  deliver_step :
      (conn : ℕ) (previous : Option ℕ) (replay : Option Replay) (since : Option ℕ) (now : ℕ) → Step
  renew_step : Step
  teardown_step : TerminationClass → Step
  clear_step : Step
  tick_step : (now : ℕ) → Step

fresh-IsFenced :
    (name : SessionName) (generation : Generation) (size : WindowSize) (now kib : ℕ)
    (filters best_effort : Bool) (limit : ℕ)
    → IsFenced (view (fresh name generation size now kib filters best_effort limit))
unfolding fresh view
fresh-IsFenced name generation size now kib filters best_effort limit = ground arith

Moves-loses :
    {v v' : View} → Moves v v' → IsFenced v → 0 < v.owner → v'.owner ≢ v.owner → HasLost v.owner v'
Moves-loses (stays e) f h k = ground (arith, e)
Moves-loses (charges l e) f h k = ground (arith, e)
Moves-loses (releases e) f h k = ground (arith, e)
Moves-loses (renews e) f h k = ground (arith, e)
Moves-loses (owns l e) f h k = ground (arith, e)
Moves-loses (dies e) f h k = ground (arith, e)

module _ (wrap : List ℕ → ℕ) (control : WindowSize → Result WindowSize) (scrollback_replay : Bool)
    (policy : SessionPolicy) where
  unfoldable pub perform : Session → Step → Session
  perform s (write_step conn now bytes) = (write_input s conn now bytes).1
  perform s (resize_step conn size) = (resize control s conn size).1
  perform s (pong_step conn now) = on_pong s conn now
  perform s (missed_ping_step conn) = (on_missed_ping s conn).1
  perform s (detach_step conn) = detach s conn
  perform s writer_step = (writer_turn s).1
  perform s (output_step now bytes) = on_output s now bytes
  perform s (attach_step g size since now) =
      (attach_locked wrap scrollback_replay policy s g size since now).1
  perform s (deliver_step conn previous replay since now) =
      (attach_deliver s conn previous replay since now).1
  perform s renew_step = (renew_locked s).1
  perform s (teardown_step class) = (teardown_locked s class).2
  perform s clear_step = cleared s
  perform s (tick_step now) = (ttl_decision policy s now).1

  unfoldable pub performs : Session → List Step → Session
  performs s [] = s
  performs s (e ∷ es) = performs (perform s e) es

  -- Every step is a move of the fence.
  pub perform-Moves : (s : Session) (e : Step) → Moves (view s) (view (perform s e))
  unfolding perform
  perform-Moves s (write_step conn now bytes) = stays (view-write_input s conn now bytes)
  perform-Moves s (resize_step conn size) = stays (view-resize control s conn size)
  perform-Moves s (pong_step conn now) = stays (view-on_pong s conn now)
  perform-Moves s (missed_ping_step conn) = on_missed_ping-Moves s conn
  perform-Moves s (detach_step conn) = detach-Moves s conn
  perform-Moves s writer_step = stays (view-writer_turn s)
  perform-Moves s (output_step now bytes) = stays (view-on_output s now bytes)
  perform-Moves s (attach_step g size since now) =
      attach_locked-Moves wrap scrollback_replay policy s g size since now
  perform-Moves s (deliver_step conn previous replay since now) =
      stays (view-attach_deliver s conn previous replay since now)
  perform-Moves s renew_step = renew_locked-Moves s
  perform-Moves s (teardown_step class) = teardown_locked-Moves s class
  perform-Moves s clear_step = stays (view-cleared s)
  perform-Moves s (tick_step now) = stays (view-ttl_decision policy s now)

  performs-keeps :
      (s : Session) (es : List Step) → IsFenced (view s) → IsFenced (view (performs s es))
  unfolding performs
  performs-keeps s [] f = f
  performs-keeps s (e ∷ es) f =
      performs-keeps (perform s e) es (Moves-IsFenced (perform-Moves s e) f)

  -- Through any interleaving of steps on a new session, the I/O mirror of the owner agrees with
  -- the owner, the subscriber is the owner's queue and nobody's without an owner, and the two
  -- flags of liveness agree.
  pub performs-IsFenced :
      (name : SessionName) (generation : Generation) (size : WindowSize) (now kib : ℕ)
      (filters best_effort : Bool) (limit : ℕ) (es : List Step)
      → IsFenced (view (performs (fresh name generation size now kib filters best_effort limit) es))
  performs-IsFenced name generation size now kib filters best_effort limit es =
      performs-keeps _ es (fresh-IsFenced name generation size now kib filters best_effort limit)

  performs-HasLost :
      (c : ℕ) (s : Session) (es : List Step) → HasLost c (view s) → HasLost c (view (performs s es))
  unfolding performs
  performs-HasLost c s [] h = h
  performs-HasLost c s (e ∷ es) h =
      performs-HasLost c (perform s e) es (Moves-HasLost (perform-Moves s e) h)

  displaced :
      (s : Session) (e : Step) (es : List Step)
      → IsFenced (view s)
      → 0 < s.owner_conn
      → (perform s e).owner_conn ≢ s.owner_conn
      → IsFenced (view (performs (perform s e) es))
        × HasLost s.owner_conn (view (performs (perform s e) es))
  unfolding view
  displaced s e es f h k = (
    performs-keeps (perform s e) es (Moves-IsFenced (perform-Moves s e) f),
    performs-HasLost s.owner_conn (perform s e) es (Moves-loses (perform-Moves s e) f h k),
  )

  -- Once a step has taken a session whose fence holds from its owner, the owner's writes are
  -- refused and change nothing, whatever steps of other threads follow.
  pub displaced_write :
      (s : Session) (e : Step) (es : List Step)
      → IsFenced (view s)
      → 0 < s.owner_conn
      → (perform s e).owner_conn ≢ s.owner_conn
      → (now : ℕ) (bytes : List ℕ)
      → write_input (performs (perform s e) es) s.owner_conn now bytes
        ≡ (evicted, performs (perform s e) es)
  unfolding write_input view
  displaced_write s e es f h k now bytes = let d = displaced s e es f h k in ground (arith, d)

  -- Once a step has taken a session whose fence holds from its owner, none of the owner's chunks
  -- that still wait in the input queue reaches the PTY, whatever steps follow.
  pub displaced_chunk :
      (s : Session) (e : Step) (es : List Step)
      → IsFenced (view s)
      → 0 < s.owner_conn
      → (perform s e).owner_conn ≢ s.owner_conn
      → (bytes : List ℕ) (rest : List InputChunk)
      → (performs (perform s e) es).input
        ≡ record { conn = s.owner_conn; bytes = bytes; runtime_originated = false } ∷ rest
      → (writer_turn (performs (perform s e) es)).0 ≡ none
  unfolding writer_turn view
  displaced_chunk s e es f h k bytes rest r = let d = displaced s e es f h k in ground (arith, d, r)
