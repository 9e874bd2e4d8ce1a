-- ===== src/Session/Attach/Calm.antt =====
-- Steps that leave a session's generation and takeover budget alone (runtime/src/session.rs).
use openab_pty.Base.{ℕ, ◌+◌, ◌≡◌, refl, ◌∙◌, ap, inl, inr, Bool, List, arith, ◌==◌, ltb, Bool-cases}
use openab_pty.Crate.{takeover, Result, Generation}
use openab_pty.Audit.{TerminationClass}
use openab_pty.Session.Policy.{SessionPolicy, WindowSize}
use openab_pty.Session.Outbound.{close}
use openab_pty.Session.Takeover.{TakeoverLimiter}
use openab_pty.Session.Handle.{Session, on_missed_ping, detach, release}
use openab_pty.Session.Handle.Fence.{
  View, view, view-write_input, view-resize, view-on_pong, view-writer_turn, view-on_output,
  view-on_outbound,
}
use openab_pty.Session.Attach.{teardown_locked}
use openab_pty.Session.Attach.Cas.{view-attach_deliver, view-cleared, view-ttl_decision}
use openab_pty.Session.Attach.Steps.{
  Step, write_step, resize_step, pong_step, missed_ping_step, detach_step, writer_step, output_step,
  attach_step, deliver_step, renew_step, teardown_step, clear_step, tick_step, perform,
}

-- The generation that may attach, and its budget.
abbrev pub Budget : Type 0
Budget = Generation × TakeoverLimiter

abbrev budget_of : View → Budget
budget_of v = (v.generation, v.takeovers)

abbrev budget : Session → Budget
budget s = (s.generation, s.takeovers)

-- Generation and budget stay, and a session without an owner gets none.
abbrev pub Calm : (before after : Session) → Type 0
Calm before after = (budget after ≡ budget before) × (before.owner_conn ≡ 0 → after.owner_conn ≡ 0)

of_view : (s s' : Session) → view s' ≡ view s → Calm s s'
unfolding view
of_view s s' e = (ap (λ (v : View). budget_of v) e, λ o. ap (λ (v : View). v.owner) e ∙ o)

on_missed_ping-Calm : (s : Session) (conn : ℕ) → Calm s (on_missed_ping s conn).1
unfolding on_missed_ping release
on_missed_ping-Calm s conn = elim (Bool-cases (s.owner_conn == conn)) [
  | inr f ↦ ground (arith, f)
  | inl t ↦ elim (Bool-cases (ltb (s.missed_pings + 1) s.missed_ping_limit)) [
    | inl u ↦ rw (t, u) (refl, λ o. o)
    | inr u ↦
        rw (t, u)
          (
            (of_view (release (record s { missed_pings = s.missed_pings + 1 })).1 _ (
                view-on_outbound s.subscriber (λ o. close o takeover)
                  (release (record s { missed_pings = s.missed_pings + 1 })).1)).0,
            λ o.
                (of_view (release (record s { missed_pings = s.missed_pings + 1 })).1 _ (
                    view-on_outbound s.subscriber (λ o. close o takeover)
                      (release (record s { missed_pings = s.missed_pings + 1 })).1)).1
                  refl,
          )
  ]
]

detach-Calm : (s : Session) (conn : ℕ) → Calm s (detach s conn)
unfolding detach release
detach-Calm s conn = ground arith

teardown_locked-Calm : (s : Session) (class : TerminationClass) → Calm s (teardown_locked s class).2
unfolding teardown_locked
teardown_locked-Calm s class = (refl, λ o. refl)

module _ (wrap : List ℕ → ℕ) (control : WindowSize → Result WindowSize) (scrollback_replay : Bool)
    (policy : SessionPolicy) where
  -- Every step but an attach and a renewal is calm.
  abbrev pub IsCalm : Session → Step → Type 0
  IsCalm s (attach_step g size since now) = Unit
  IsCalm s renew_step = Unit
  IsCalm s e = Calm s (perform wrap control scrollback_replay policy s e)

  pub perform-IsCalm : (s : Session) (e : Step) → IsCalm s e
  unfolding perform
  perform-IsCalm s (attach_step g size since now) = tt
  perform-IsCalm s renew_step = tt
  perform-IsCalm s (write_step conn now bytes) = of_view s _ (view-write_input s conn now bytes)
  perform-IsCalm s (resize_step conn size) = of_view s _ (view-resize control s conn size)
  perform-IsCalm s (pong_step conn now) = of_view s _ (view-on_pong s conn now)
  perform-IsCalm s (missed_ping_step conn) = on_missed_ping-Calm s conn
  perform-IsCalm s (detach_step conn) = detach-Calm s conn
  perform-IsCalm s writer_step = of_view s _ (view-writer_turn s)
  perform-IsCalm s (output_step now bytes) = of_view s _ (view-on_output s now bytes)
  perform-IsCalm s (deliver_step conn previous replay since now) =
      of_view s _ (view-attach_deliver s conn previous replay since now)
  perform-IsCalm s (teardown_step class) = teardown_locked-Calm s class
  perform-IsCalm s clear_step = of_view s _ (view-cleared s)
  perform-IsCalm s (tick_step now) = of_view s _ (view-ttl_decision policy s now)
