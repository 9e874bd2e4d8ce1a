-- ===== src/Session/Attach/Handoff.antt =====
-- The replay-to-live handoff of `attach_with_replay` (runtime/src/session.rs): what the new connection's
-- queue holds.
use openab_pty.Base.{
  ℕ, ◌+◌, ◌<◌, ◌≤◌, ◌≡◌, ◌≢◌, sym, ◌∙◌, ap, inl, inr, Bool, not, ◌&&◌, Option, none, some, List,
  ◌++◌, arith, ◌==◌, Bool-cases, length, isize_max,
}
use openab_pty.Crate.{Generation}
use openab_pty.RingBuf.Scrollback.{Replay, contiguous}
use openab_pty.RingBuf.Queue.{QueueBounds, ByteQueue, accepted, push}
use openab_pty.RingBuf.Queue
use openab_pty.Session.Policy.{SessionPolicy, WindowSize}
use openab_pty.Session.Outbound.{
  Outbound, ControlEvent, close, push_bytes, push_control, attach_notice,
}
use openab_pty.Session.Outbound
use openab_pty.Session.Takeover.{allow}
use openab_pty.Session.Handle.{Session, proxied, on_output}
use openab_pty.Session.Handle.Fence.{IsFenced, view, view-on_output}
use openab_pty.Session.Attach.Cas.{view-attach_deliver}
use openab_pty.Session.Attach.{Attempt, won, own, attach_locked, push_replay, attach_deliver}
use openab_pty.Session.Attach.Queues.{
  queue_of, view_subscriber, on_output-queue, attach_deliver-queue,
}

push-accepted :
    (q : ByteQueue) (bytes : List ℕ)
    → q.bounds.capacity_bytes ≤ isize_max
    → length q.buf + length bytes ≤ q.bounds.capacity_bytes
    → 0 < q.bounds.capacity_bytes
    → push q bytes ≡ (accepted, record q { buf = q.buf ++ bytes })
unfolding push
push-accepted q bytes h k z = ground arith

push_room :
    (o : Outbound) (bytes : List ℕ)
    → o.queue.bounds.capacity_bytes ≤ isize_max
    → length o.queue.buf + length bytes ≤ o.queue.bounds.capacity_bytes
    → 0 < o.queue.bounds.capacity_bytes
    → push_bytes o bytes ≡ record o { queue = record o.queue { buf = o.queue.buf ++ bytes } }
unfolding push_bytes
push_room o bytes h k z = ground (arith, push-accepted o.queue bytes h k z)

-- An attach that wins makes an empty queue the subscriber.
record Owns (s s' : Session) (c : ℕ) (d : Option ℕ) : Type 0 where
  numbered : c ≡ s.next_conn
  previous : d ≡ s.subscriber
  subscribes : s'.subscriber ≡ some c
  queued : queue_of c s'.outbounds ≡ some (Outbound.new c s.backlog_bounds)
  best_effort : s'.tier_best_effort ≡ s.tier_best_effort

attach_own :
    (wrap : List ℕ → ℕ) (b : Bool) (p : SessionPolicy) (s : Session) (g : Generation)
    (size : WindowSize) (since : Option ℕ) (now c at : ℕ) (d : Option ℕ) (r : Option Replay)
    → (attach_locked wrap b p s g size since now).0 ≡ won c at d r
    → Owns s (attach_locked wrap b p s g size since now).1 c d
unfolding attach_locked own Outbound.new queue_of
attach_own wrap b p s g size since now c at d r e = elim (Bool-cases (s.generation == g)) [
  | inr f ↦ ground (arith, f, e)
  | inl t ↦ elim (Bool-cases (not (s.owner_conn == 0) && not (allow s.takeovers g now p).0)) [
    | inl u ↦ ground (arith, t, u, e)
    | inr u ↦ ground (arith, t, u, e)
  ]
]

-- The bytes that wait for a connection.
unfoldable pub buffered : ℕ → Session → Option (List ℕ)
buffered c s = elim (queue_of c s.outbounds) [ none ↦ none | some o ↦ some o.queue.buf ]

buffered_some :
    (c : ℕ) (s : Session) (o : Outbound)
    → queue_of c s.outbounds ≡ some o
    → buffered c s ≡ some o.queue.buf
unfolding buffered
buffered_some c s o e = ground (arith, e)

replayed_first :
    (bounds : QueueBounds) (c : ℕ) (e : ControlEvent) (replay live : List ℕ) (at : ℕ)
    → bounds.capacity_bytes ≤ isize_max
    → 0 < bounds.capacity_bytes
    → length replay + length live ≤ bounds.capacity_bytes
    → (push_bytes
        (push_replay (some (contiguous replay at)) (push_control (Outbound.new c bounds) e))
        live).queue.buf
      ≡ replay ++ live
unfolding push_replay push_control Outbound.new Queue.new
replayed_first bounds c e replay live at h z k =
    let a = push_room (push_control (Outbound.new c bounds) e) replay h (omega arith) z in
    ap (λ o. (push_bytes o live).queue.buf) a ∙ ap (λ o. o.queue.buf) (push_room _ live h k z)

live_first :
    (bounds : QueueBounds) (c : ℕ) (e : ControlEvent) (replay live : List ℕ) (at : ℕ)
    → bounds.capacity_bytes ≤ isize_max
    → 0 < bounds.capacity_bytes
    → length live + length replay ≤ bounds.capacity_bytes
    → (push_replay
        (some (contiguous replay at))
        (push_control (push_bytes (Outbound.new c bounds) live) e)).queue.buf
      ≡ live ++ replay
unfolding push_replay push_control Outbound.new Queue.new
live_first bounds c e replay live at h z k =
    let a = push_room (Outbound.new c bounds) live h (omega arith) z in
    ap (λ o. (push_bytes (push_control o e) replay).queue.buf) a
    ∙ ap (λ o. o.queue.buf) (push_room _ replay h k z)

not_previous : (s : Session) → IsFenced (view s) → s.subscriber ≢ some s.next_conn
unfolding view
not_previous s f = elim (Bool-cases (s.owner_conn == 0)) [
  | inl t ↦ λ e. ground (arith, f, t, e)
  | inr t ↦ λ e. ground (arith, f, t, e)
]

not_evicted :
    (s s' : Session) (c : ℕ) (d : Option ℕ) → IsFenced (view s) → Owns s s' c d → d ≢ some c
not_evicted s s' c d f o e = not_previous s f (sym o.previous ∙ e ∙ ap some o.numbered)

module _ (wrap : List ℕ → ℕ) (b : Bool) (p : SessionPolicy) (s : Session) (g : Generation)
    (size : WindowSize) (since : Option ℕ) (now : ℕ) (c end at : ℕ) (d : Option ℕ)
    (replay chunk : List ℕ) where
  abbrev pub attempt : Attempt × Session
  attempt = attach_locked wrap b p s g size since now

  abbrev pub deliver_to : Session → Session
  deliver_to t = (attach_deliver t c d (some (contiguous replay at)) since now).1

  -- On a session whose fence holds: an attach with a contiguous replay, then its delivery, then
  -- output of the child: the client's queue holds exactly the replay and then the live bytes, if
  -- they fit the queue.
  pub handoff :
      IsFenced (view s)
      → attempt.0 ≡ won c end d (some (contiguous replay at))
      → s.backlog_bounds.capacity_bytes ≤ isize_max
      → 0 < s.backlog_bounds.capacity_bytes
      → length replay + length (proxied (deliver_to attempt.1) chunk).0
        ≤ s.backlog_bounds.capacity_bytes
      → buffered c (on_output (deliver_to attempt.1) now chunk)
        ≡ some (replay ++ (proxied (deliver_to attempt.1) chunk).0)
  handoff f e h z k =
      let o = attach_own wrap b p s g size since now c end d (some (contiguous replay at)) e in
      let n = not_evicted s attempt.1 c d f o in
      let q1 =
        attach_deliver-queue attempt.1 c now d (some (contiguous replay at)) since _ n o.subscribes
          o.queued in
      let u =
        view_subscriber _ attempt.1
          (view-attach_deliver attempt.1 c d (some (contiguous replay at)) since now) in
      let q2 = on_output-queue (deliver_to attempt.1) c now chunk _ (u ∙ o.subscribes) q1 in
      buffered_some c _ _ q2
      ∙ ap some (
          replayed_first s.backlog_bounds c (attach_notice attempt.1.tier_best_effort) replay
            (proxied (deliver_to attempt.1) chunk).0 at h z k)

  -- On a session whose fence holds, if output of the child comes between the attach's critical
  -- section and its delivery, the live bytes stand before the contiguous replay in the client's
  -- queue, if they fit the queue.
  pub handoff_race :
      IsFenced (view s)
      → attempt.0 ≡ won c end d (some (contiguous replay at))
      → s.backlog_bounds.capacity_bytes ≤ isize_max
      → 0 < s.backlog_bounds.capacity_bytes
      → length (proxied attempt.1 chunk).0 + length replay ≤ s.backlog_bounds.capacity_bytes
      → buffered c (deliver_to (on_output attempt.1 now chunk))
        ≡ some ((proxied attempt.1 chunk).0 ++ replay)
  handoff_race f e h z k =
      let o = attach_own wrap b p s g size since now c end d (some (contiguous replay at)) e in
      let n = not_evicted s attempt.1 c d f o in
      let q1 = on_output-queue attempt.1 c now chunk _ o.subscribes o.queued in
      let u = view_subscriber _ attempt.1 (view-on_output attempt.1 now chunk) in
      let q2 =
        attach_deliver-queue (on_output attempt.1 now chunk) c now d (some (contiguous replay at))
          since _ n (u ∙ o.subscribes) q1 in
      buffered_some c _ _ q2
      ∙ ap some (
          live_first s.backlog_bounds c
            (attach_notice (on_output attempt.1 now chunk).tier_best_effort) replay
            (proxied attempt.1 chunk).0 at h z k)
