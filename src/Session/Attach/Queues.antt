-- ===== src/Session/Attach/Queues.antt =====
-- What each step of an attach, and the output path, do to a connection's queue (runtime/src/session.rs).
use openab_pty.Base.{
  ℕ, ◌≡◌, ◌≢◌, refl, sym, ◌∙◌, ap, inl, inr, true, Option, none, some, List, [], ◌∷◌, arith, ◌==◌,
  if◌then◌else◌, Bool-cases, Option-cases, ==_refl,
}
use openab_pty.Crate.{takeover, slow_client}
use openab_pty.RingBuf.Scrollback.{Replay, contiguous, gap}
use openab_pty.RingBuf.Queue.{push}
use openab_pty.CapProxy.Inspect.{process}
use openab_pty.Session.Outbound.{
  Outbound, ControlEvent, close, push_bytes, push_control, attach_notice,
}
use openab_pty.Session.Handle.{
  Session, touch, on_conn, on_outbound, try_send, answer_child, answered, proxied, on_output,
}
use openab_pty.Session.Handle.Fence.{view, view-proxied, view-on_outbound}
use openab_pty.Session.Attach.{fed_fresh, resynced, push_replay, is_subscriber, attach_deliver}

-- The queue of a connection.
unfoldable pub queue_of : ℕ → List Outbound → Option Outbound
queue_of c [] = none
queue_of c (o ∷ os) = let rest = queue_of c os in if o.conn == c then some o else rest

conn-close : (code : ℕ) (o : Outbound) → (close o code).conn ≡ o.conn
unfolding close
conn-close code o = elim (Option-cases o.close_code) [
  | inl e ↦ ground (arith, e)
  | inr e ↦ ground (arith, e.1)
]

conn-push_bytes : (chunk : List ℕ) (o : Outbound) → (push_bytes o chunk).conn ≡ o.conn
unfolding push_bytes
conn-push_bytes chunk o =
    ground (arith, conn-close slow_client (record o { queue = (push o.queue chunk).1 }))

conn-push_control : (e : ControlEvent) (o : Outbound) → (push_control o e).conn ≡ o.conn
unfolding push_control
conn-push_control e o = refl

conn-push_replay : (r : Option Replay) (o : Outbound) → (push_replay r o).conn ≡ o.conn
unfolding push_replay
conn-push_replay none o = refl
conn-push_replay (some (contiguous bytes at)) o = conn-push_bytes bytes o
conn-push_replay (some (gap dropped bytes at)) o = conn-push_bytes bytes _ ∙ conn-push_control _ o

queue_of-on_conn :
    (c : ℕ) (f : Outbound → Outbound) (o : Outbound) (os : List Outbound)
    → ((o : Outbound) → (f o).conn ≡ o.conn)
    → queue_of c os ≡ some o
    → queue_of c (on_conn c f os) ≡ some (f o)
unfolding queue_of on_conn
queue_of-on_conn c f o [] k e = ground arith
queue_of-on_conn c f o (x ∷ os) k e = elim (Bool-cases (x.conn == c)) [
  | inl t ↦ ground (arith, t, k x, e)
  | inr t ↦ ground (arith, t, k x, e, queue_of-on_conn c f o os k)
]

queue_of-on_conn_other :
    (c d : ℕ) (f : Outbound → Outbound) (os : List Outbound)
    → ((o : Outbound) → (f o).conn ≡ o.conn)
    → c ≢ d
    → queue_of c (on_conn d f os) ≡ queue_of c os
unfolding queue_of on_conn
queue_of-on_conn_other c d f [] k n = refl
queue_of-on_conn_other c d f (x ∷ os) k n = elim (Bool-cases (x.conn == d)) [
  | inl t ↦ ground (arith, t, k x, queue_of-on_conn_other c d f os k n)
  | inr t ↦ ground (arith, t, queue_of-on_conn_other c d f os k n)
]

outbounds-answered : (s : Session) (bytes : List ℕ) → (answered s bytes).outbounds ≡ s.outbounds
unfolding answered answer_child try_send
outbounds-answered s [] = refl
outbounds-answered s (b ∷ bs) = ground arith

outbounds-proxied : (s : Session) (bytes : List ℕ) → (proxied s bytes).1.outbounds ≡ s.outbounds
unfolding proxied
outbounds-proxied s bytes = elim (Option-cases s.proxy) [
  | inl e ↦ rw e refl
  | inr e ↦
      rw e.1
        (outbounds-answered (record s { proxy = some (process e.0 bytes).2 }) (process e.0 bytes).1)
]

queue_of-on_outbound :
    (c : ℕ) (f : Outbound → Outbound) (s : Session) (o : Outbound)
    → ((o : Outbound) → (f o).conn ≡ o.conn)
    → queue_of c s.outbounds ≡ some o
    → queue_of c (on_outbound (some c) f s).outbounds ≡ some (f o)
unfolding on_outbound
queue_of-on_outbound c f s o k e = queue_of-on_conn c f o s.outbounds k e

queue_of-on_outbound_other :
    (c : ℕ) (d : Option ℕ) (f : Outbound → Outbound) (s : Session)
    → ((o : Outbound) → (f o).conn ≡ o.conn)
    → d ≢ some c
    → queue_of c (on_outbound d f s).outbounds ≡ queue_of c s.outbounds
unfolding on_outbound
queue_of-on_outbound_other c none f s k n = refl
queue_of-on_outbound_other c (some d) f s k n =
    queue_of-on_conn_other c d f s.outbounds k (λ e. n (ap some (sym e)))

pub view_subscriber : (s t : Session) → view s ≡ view t → s.subscriber ≡ t.subscriber
unfolding view
view_subscriber s t e = ap (λ v. v.subscriber) e

-- Where the output goes.
pub on_output-queue :
    (s : Session) (c now : ℕ) (chunk : List ℕ) (o : Outbound)
    → s.subscriber ≡ some c
    → queue_of c s.outbounds ≡ some o
    → queue_of c (on_output s now chunk).outbounds ≡ some (push_bytes o (proxied s chunk).0)
unfolding on_output touch on_outbound
on_output-queue s c now chunk o e k =
    rw (view_subscriber (proxied s chunk).1 s (view-proxied s chunk) ∙ e) (
      queue_of-on_conn c (λ o. push_bytes o (proxied s chunk).0) o (proxied s chunk).1.outbounds
        (conn-push_bytes (proxied s chunk).0)
        (ap (λ os. queue_of c os) (outbounds-proxied s chunk) ∙ k))

outbounds-resynced :
    (s : Session) (fed : Option (List ℕ)) → (resynced s fed).outbounds ≡ s.outbounds
unfolding resynced
outbounds-resynced s none = refl
outbounds-resynced s (some fed) = refl

is_subscriber-some : (s : Session) (c : ℕ) → s.subscriber ≡ some c → is_subscriber s c ≡ true
unfolding is_subscriber
is_subscriber-some s c e = rw (e, ==_refl c) refl

-- What the delivery adds to the new connection's queue.
pub attach_deliver-queue :
    (s : Session) (c now : ℕ) (d : Option ℕ) (r : Option Replay) (since : Option ℕ) (o : Outbound)
    → d ≢ some c
    → s.subscriber ≡ some c
    → queue_of c s.outbounds ≡ some o
    → queue_of c (attach_deliver s c d r since now).1.outbounds
      ≡ some (push_replay r (push_control o (attach_notice s.tier_best_effort)))
unfolding attach_deliver touch on_outbound
attach_deliver-queue s c now d r since o n e k =
    rw
      (is_subscriber-some closed c
        (view_subscriber closed s (view-on_outbound d (λ o. close o takeover) s) ∙ e))
      (queue_of-on_conn c (push_replay r) (push_control o notice) synced.outbounds
        (conn-push_replay r)
        (ap (λ os. queue_of c os) (outbounds-resynced noticed (fed_fresh since r))
          ∙ queue_of-on_outbound c (λ o. push_control o notice) closed o (conn-push_control notice)
              (queue_of-on_outbound_other c d (λ o. close o takeover) s (conn-close takeover) n
                ∙ k)))
  where
    notice : ControlEvent
    notice = attach_notice s.tier_best_effort

    closed : Session
    closed = on_outbound d (λ o. close o takeover) s

    noticed : Session
    noticed = on_outbound (some c) (λ o. push_control o notice) closed

    synced : Session
    synced = resynced noticed (fed_fresh since r)
