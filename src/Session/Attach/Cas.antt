-- ===== src/Session/Attach/Cas.antt =====
-- Attaches, renewals and teardowns as moves of the connection fence (runtime/src/session.rs).
use openab_pty.Base.{
  ℕ, ◌≡◌, refl, ◌∙◌, ◌⊎◌, inl, inr, Bool, true, false, not, ◌&&◌, Option, none, some, List, arith,
  ◌==◌, Bool-cases,
}
use openab_pty.Crate.{takeover, Generation}
use openab_pty.Audit.{TerminationClass}
use openab_pty.RingBuf.Scrollback.{Replay}
use openab_pty.Session.Policy.{SessionPolicy, WindowSize}
use openab_pty.Session.Outbound.{close, push_control, attach_notice}
use openab_pty.Session.Takeover.{allow}
use openab_pty.Session.Handle.{Session, touch, on_outbound, release}
use openab_pty.Session.Handle.Fence.{
  view, Moves, stays, charges, renews, owns, dies, view-on_outbound,
}
use openab_pty.Session.Attach.{
  own, attach_locked, fed_fresh, resynced, push_replay, is_subscriber, attach_deliver, renew_locked,
  teardown_locked, cleared, ttl_decision,
}

pub attach_locked-Moves :
    (wrap : List ℕ → ℕ) (b : Bool) (p : SessionPolicy) (s : Session) (g : Generation)
    (size : WindowSize) (since : Option ℕ) (now : ℕ)
    → Moves (view s) (view (attach_locked wrap b p s g size since now).1)
unfolding attach_locked view own
attach_locked-Moves wrap b p s g size since now = elim (Bool-cases (s.generation == g)) [
  | inr f ↦ stays (rw f refl)
  | inl t ↦ elim (Bool-cases (not (s.owner_conn == 0) && not (allow s.takeovers g now p).0)) [
    | inl u ↦ charges (allow s.takeovers g now p).1 (rw (t, u) refl)
    | inr u ↦ owns (allow s.takeovers g now p).1 (rw (t, u) refl)
  ]
]

view-resynced : (s : Session) (fed : Option (List ℕ)) → view (resynced s fed) ≡ view s
unfolding resynced view
view-resynced s none = refl
view-resynced s (some fed) = refl

pub view-touch : (s : Session) (now : ℕ) → view (touch now s) ≡ view s
unfolding touch view
view-touch s now = refl

pub view-attach_deliver :
    (s : Session) (conn : ℕ) (evicted : Option ℕ) (replay : Option Replay) (since : Option ℕ)
    (now : ℕ)
    → view (attach_deliver s conn evicted replay since now).1 ≡ view s
unfolding attach_deliver
view-attach_deliver s conn previous replay since now = by_cas (Bool-cases (is_subscriber s' conn))
  where
    s' : Session
    s' = on_outbound previous (λ o. close o takeover) s

    by_cas :
        (is_subscriber s' conn ≡ true) ⊎ (is_subscriber s' conn ≡ false)
        → view (attach_deliver s conn previous replay since now).1 ≡ view s
    by_cas (inr f) = rw f (view-on_outbound previous (λ o. close o takeover) s)
    by_cas (inl t) = rw t (
        view-touch _ now
        ∙ view-on_outbound (some conn) (push_replay replay) _
        ∙ view-resynced _ (fed_fresh since replay)
        ∙ view-on_outbound (some conn) (λ o. push_control o (attach_notice s.tier_best_effort)) s'
        ∙ view-on_outbound previous (λ o. close o takeover) s)

pub renew_locked-Moves : (s : Session) → Moves (view s) (view (renew_locked s).1)
unfolding renew_locked release view
renew_locked-Moves s = renews refl

pub teardown_locked-Moves :
    (s : Session) (class : TerminationClass) → Moves (view s) (view (teardown_locked s class).2)
unfolding teardown_locked view
teardown_locked-Moves s class = dies refl

pub view-ttl_decision :
    (p : SessionPolicy) (s : Session) (now : ℕ) → view (ttl_decision p s now).1 ≡ view s
unfolding ttl_decision view
view-ttl_decision p s now = ground arith

pub view-cleared : (s : Session) → view (cleared s) ≡ view s
unfolding cleared view
view-cleared s = refl
