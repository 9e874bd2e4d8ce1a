-- ===== src/Session/Handle/Fence.antt =====
-- The connection fence of a session (runtime/src/session.rs) as a small state machine.
use openab_pty.Base.{
  ℕ, ◌+◌, ◌<◌, ◌≡◌, ◌≢◌, refl, sym, ◌∙◌, ap, inl, inr, Bool, false, Option, none, some, List, [],
  ◌∷◌, arith, ltb, ◌==◌, if◌then◌else◌, Bool-cases, Option-cases,
}
use openab_pty.Crate.{takeover, Generation, Result}
use openab_pty.Session.Takeover.{TakeoverLimiter}
use openab_pty.CapProxy.Kitty.{CapabilityProxy}
use openab_pty.Session.Policy.{WindowSize}
use openab_pty.Session.Outbound.{Outbound, close, push_bytes}
use openab_pty.RingBuf.Scrollback.{RingBuffer, write}
use openab_pty.Session.Handle.{
  InputChunk, Session, touch, on_outbound, try_send, answer_child, filtered, enqueue, write_input,
  resize, on_pong, release, on_missed_ping, detach, writer_turn, answered, proxied, on_output,
}

-- What decides who may write: the owner under the lock, its mirror for the I/O threads, the next
-- connection's number, the subscriber, and the two flags of liveness; and what decides who may take
-- over: the generation and its budget.
pub record View : Type 0 where
  pub owner : ℕ
  pub mirror : ℕ
  pub next : ℕ
  pub subscriber : Option ℕ
  pub alive : Bool
  pub io_alive : Bool
  pub generation : Generation
  pub takeovers : TakeoverLimiter

unfoldable pub view : Session → View
view s = record {
  owner = s.owner_conn;
  mirror = s.io_owner;
  next = s.next_conn;
  subscriber = s.subscriber;
  alive = s.alive;
  io_alive = s.io_alive;
  generation = s.generation;
  takeovers = s.takeovers;
}

-- Nothing changes, the budget is charged in vain, the owner goes, the generation goes with its
-- owner, a new connection takes over, or the session ends.
pub data Moves (v v' : View) : Type 0 where
  stays : v' ≡ v → Moves v v'
  charges : (l : TakeoverLimiter) → v' ≡ record v { takeovers = l } → Moves v v'
  releases : v' ≡ record v { owner = 0; mirror = 0; subscriber = none } → Moves v v'
  renews :
      v' ≡ record v { owner = 0; mirror = 0; subscriber = none; generation = v.generation + 1 }
      → Moves v v'
  owns :
      (l : TakeoverLimiter)
      → v' ≡ record v {
        owner = v.next;
        mirror = v.next;
        next = v.next + 1;
        subscriber = some v.next;
        takeovers = l;
      }
      → Moves v v'
  dies :
      v' ≡ record v { owner = 0; mirror = 0; subscriber = none; alive = false; io_alive = false }
      → Moves v v'

-- The two views of the owner agree, the owner has been numbered, and its queue is the subscriber.
pub record IsFenced (v : View) : Type 0 where
  pub mirrors : v.mirror ≡ v.owner
  pub numbered : v.owner < v.next
  pub subscribes : v.subscriber ≡ (if v.owner == 0 then none else some v.owner)
  pub lives : v.io_alive ≡ v.alive

pub Moves-IsFenced : {v v' : View} → Moves v v' → IsFenced v → IsFenced v'
Moves-IsFenced (stays e) f = ground (arith, e)
Moves-IsFenced (charges l e) f = ground (arith, e)
Moves-IsFenced (releases e) f = ground (arith, e)
Moves-IsFenced (renews e) f = ground (arith, e)
Moves-IsFenced (owns l e) f = ground (arith, e)
Moves-IsFenced (dies e) f = ground (arith, e)

-- A connection that was numbered and is not the owner any more.
pub record HasLost (conn : ℕ) (v : View) : Type 0 where
  pub positive : 0 < conn
  pub given : conn < v.next
  pub not_owner : v.owner ≢ conn

-- No move brings it back.
pub Moves-HasLost : {c : ℕ} {v v' : View} → Moves v v' → HasLost c v → HasLost c v'
Moves-HasLost (stays e) h = ground (arith, e)
Moves-HasLost (charges l e) h = ground (arith, e)
Moves-HasLost (releases e) h = ground (arith, e)
Moves-HasLost (renews e) h = ground (arith, e)
Moves-HasLost (owns l e) h = ground (arith, e)
Moves-HasLost (dies e) h = ground (arith, e)

pub view-on_outbound :
    (c : Option ℕ) (f : Outbound → Outbound) (s : Session) → view (on_outbound c f s) ≡ view s
unfolding view on_outbound
view-on_outbound none f s = refl
view-on_outbound (some c) f s = refl

view-try_send : (s : Session) (chunk : InputChunk) → view (try_send s chunk).1 ≡ view s
unfolding view try_send
view-try_send s chunk = ground arith

view-filtered : (s : Session) (bytes : List ℕ) → view (filtered s bytes).1 ≡ view s
unfolding view filtered
view-filtered s bytes = elim (Option-cases s.filter) [
  | inl e ↦ ground (arith, e)
  | inr e ↦ ground (arith, e.1)
]

view-enqueue :
    (s : Session) (conn now : ℕ) (bytes : List ℕ) → view (enqueue s conn now bytes).1 ≡ view s
unfolding view enqueue touch try_send
view-enqueue s conn now [] = refl
view-enqueue s conn now (b ∷ bs) = ground arith

pub view-write_input :
    (s : Session) (conn now : ℕ) (bytes : List ℕ) → view (write_input s conn now bytes).1 ≡ view s
unfolding write_input
view-write_input s conn now bytes =
    let a = view-filtered s bytes in
    let b = view-enqueue (filtered s bytes).1 conn now (filtered s bytes).0 in ground (arith, a, b)

pub view-resize :
    (control : WindowSize → Result WindowSize) (s : Session) (conn : ℕ) (size : WindowSize)
    → view (resize control s conn size).1 ≡ view s
unfolding view resize
view-resize control s conn size = ground arith

pub view-on_pong : (s : Session) (conn now : ℕ) → view (on_pong s conn now) ≡ view s
unfolding view on_pong touch
view-on_pong s conn now = ground arith

abbrev pub released : View → View
released v = record v { owner = 0; mirror = 0; subscriber = none }

pub view-missed : (s : Session) (n : ℕ) → view (record s { missed_pings = n }) ≡ view s
unfolding view
view-missed s n = refl

pub view-release : (s : Session) → view (release s).1 ≡ released (view s)
unfolding view release
view-release s = refl

pub on_missed_ping-Moves :
    (s : Session) (conn : ℕ) → Moves (view s) (view (on_missed_ping s conn).1)
unfolding on_missed_ping
on_missed_ping-Moves s conn = elim (Bool-cases (s.owner_conn == conn)) [
  | inr f ↦ stays (ground (arith, f))
  | inl t ↦ elim (Bool-cases (ltb (s.missed_pings + 1) s.missed_ping_limit)) [
    | inl u ↦ stays (rw (t, u) (view-missed s (s.missed_pings + 1)))
    | inr u ↦ releases (
        rw (t, u)
          (view-on_outbound s.subscriber (λ o. close o takeover)
              (release (record s { missed_pings = s.missed_pings + 1 })).1
            ∙ view-release (record s { missed_pings = s.missed_pings + 1 })
            ∙ ap (λ (v : View). released v) (view-missed s (s.missed_pings + 1))))
  ]
]

pub detach-Moves : (s : Session) (conn : ℕ) → Moves (view s) (view (detach s conn))
unfolding detach release view
detach-Moves s conn = elim (Bool-cases (s.owner_conn == conn)) [
  | inr f ↦ stays (ground (arith, f))
  | inl t ↦ releases (ground (arith, t))
]

pub view-writer_turn : (s : Session) → view (writer_turn s).1 ≡ view s
unfolding view writer_turn
view-writer_turn s = ground arith

view-answered : (s : Session) (bytes : List ℕ) → view (answered s bytes) ≡ view s
unfolding answered answer_child
view-answered s [] = refl
view-answered s (b ∷ bs) = view-try_send s _

view-proxy : (s : Session) (p : Option CapabilityProxy) → view (record s { proxy = p }) ≡ view s
unfolding view
view-proxy s p = refl

pub view-proxied : (s : Session) (bytes : List ℕ) → view (proxied s bytes).1 ≡ view s
unfolding proxied
view-proxied s bytes = elim (Option-cases s.proxy) [
  | inl e ↦ rw e refl
  | inr e ↦ rw e.1 (view-answered _ _ ∙ view-proxy s _ ∙ sym (view-proxy s _))
]

view-buffer :
    (s : Session) (now : ℕ) (buffer : RingBuffer)
    → view (touch now (record s { buffer = buffer })) ≡ view s
unfolding view touch
view-buffer s now buffer = refl

pub view-on_output :
    (s : Session) (now : ℕ) (bytes : List ℕ) → view (on_output s now bytes) ≡ view s
unfolding on_output
view-on_output s now bytes =
    view-on_outbound (proxied s bytes).1.subscriber (λ o. push_bytes o (proxied s bytes).0)
      (touch now (record (proxied s bytes).1 {
        buffer = (write (proxied s bytes).1.buffer (proxied s bytes).0).1;
      }))
    ∙ view-buffer (proxied s bytes).1 now (write (proxied s bytes).1.buffer (proxied s bytes).0).1
    ∙ view-proxied s bytes
