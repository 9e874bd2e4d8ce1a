-- ===== src/Kill/Tracking.antt =====
-- The tracking budgets hold (`GlobalTracking` and `SessionKillDomain` of runtime/src/killdomain.rs): any
-- number of sessions open, track, lead and release.
pub mod Budget
use openab_pty.Base.{
  ℕ, zero, suc, ◌+◌, ◌^◌, ◌≤◌, ◌<◌, ◌≡◌, refl, ◌∙◌, ap, ap₂, min, inl, inr, Bool, Option, some,
  List, [], ◌∷◌, arith, length, length-append, leb, Bool-cases,
}
use openab_pty.Crate.{SessionName, Generation, Result}
use openab_pty.Kill.{
  GlobalTracking, SessionKillDomain, TrackingLimits, new_tracking, ceiling, reserve, release_slots,
  open_session, track, set_leader, release,
}
use openab_pty.Kill.Tracking.Budget.{
  TrackingStep, opens, tracks, leads, releases, Tracked, at_domain, states, tracking_step,
  tracking_run, total, Budgeted, Step, track_Step, release_Step, Others, ceiling_same,
}

at_domain_keeps :
    (f : GlobalTracking → SessionKillDomain → GlobalTracking × SessionKillDomain)
    → ((g : GlobalTracking) (d : SessionKillDomain)
        → g.tracked ≤ ceiling g
        → ceiling g < 2 ^ 64
        → length d.tracked ≤ g.tracked
        → length d.tracked ≤ g.limits.max_tracked_per_session
        → Step g (f g d).0 d (f g d).1)
    → (domain cap rest : ℕ) (g : GlobalTracking) (ds : List SessionKillDomain)
    → Others cap rest g ds
    → Others cap rest (at_domain f domain g ds).0 (at_domain f domain g ds).1
      × ((at_domain f domain g ds).0.limits ≡ g.limits)
      × ((at_domain f domain g ds).0.fd_budget ≡ g.fd_budget)
unfolding at_domain total ceiling
at_domain_keeps f keeps domain cap rest g [] o = (o, refl, refl)
at_domain_keeps f keeps zero cap rest g (d ∷ ds) o =
    let s = keeps g d o.1 o.2 (omega (arith, o.0)) (omega (arith, o.3, o.4)) in
    let c = ceiling_same g (f g d).0 s.same_limits s.same_fds in
    (
      (
        omega (arith, o.0, s.balance),
        omega (arith, s.under, c),
        omega (arith, o.2, c),
        ap (λ (l : TrackingLimits). l.max_tracked_per_session) s.same_limits ∙ o.3,
        (omega (arith, s.capped, o.3), o.4.1),
      ),
      s.same_limits,
      s.same_fds,
    )
at_domain_keeps f keeps (suc domain) cap rest g (d ∷ ds) o =
    let (kept, limits, fds) =
      at_domain_keeps f keeps domain cap (rest + length d.tracked) g ds
        (omega (arith, o.0), o.1, o.2, o.3, o.4.1) in
    ((omega (arith, kept.0), kept.1, kept.2, kept.3, (o.4.0, kept.4)), limits, fds)

-- `f` does a `Step` to any domain within its bounds.
abbrev Steps : (GlobalTracking → SessionKillDomain → GlobalTracking × SessionKillDomain) → Type 0
Steps f =
    (g : GlobalTracking) (d : SessionKillDomain)
    → g.tracked ≤ ceiling g
    → ceiling g < 2 ^ 64
    → length d.tracked ≤ g.tracked
    → length d.tracked ≤ g.limits.max_tracked_per_session
    → Step g (f g d).0 d (f g d).1

small_ceiling :
    (g : GlobalTracking) (limits : TrackingLimits)
    → g.limits ≡ limits
    → limits.max_tracked_global < 2 ^ 64
    → ceiling g < 2 ^ 64
unfolding ceiling
small_ceiling g limits e h =
    let k = ap (λ (l : TrackingLimits). l.max_tracked_global) e in omega arith

domain_Budgeted :
    (limits : TrackingLimits) (fd_budget : ℕ)
    → (f : GlobalTracking → SessionKillDomain → GlobalTracking × SessionKillDomain) → Steps f
    → limits.max_tracked_global < 2 ^ 64
    → (domain : ℕ) (s : Tracked) → Budgeted limits fd_budget s
    → Budgeted limits fd_budget (record {
      global = (at_domain f domain s.global s.domains).0;
      domains = (at_domain f domain s.global s.domains).1;
    })
domain_Budgeted limits fd_budget f steps h domain s b =
    let cap = ap (λ (l : TrackingLimits). l.max_tracked_per_session) b.limits_kept in
    let small = small_ceiling s.global limits b.limits_kept h in
    let counted = b.counted in
    let (kept, same_limits, same_fds) =
      at_domain_keeps f steps domain limits.max_tracked_per_session 0 s.global s.domains
        (omega arith, b.below, small, cap, b.each) in
    record {
      limits_kept = same_limits ∙ b.limits_kept;
      fd_budget_kept = same_fds ∙ b.fd_budget_kept;
      counted = omega (arith, kept.0);
      below = kept.1;
      each = kept.4;
    }

tracking_step-Budgeted :
    (limits : TrackingLimits) (fd_budget : ℕ)
    → limits.max_tracked_global < 2 ^ 64
    → (op : TrackingStep) (s : Tracked) → Budgeted limits fd_budget s
    → Budgeted limits fd_budget (tracking_step op s)
unfolding tracking_step set_leader total open_session
tracking_step-Budgeted limits fd_budget h (opens session generation) s b = record {
  limits_kept = b.limits_kept;
  fd_budget_kept = b.fd_budget_kept;
  counted = let counted = b.counted in omega arith;
  below = b.below;
  each = (omega arith, b.each);
}
tracking_step-Budgeted limits fd_budget h (tracks domain pid pidfd) s b =
    domain_Budgeted limits fd_budget (λ g d. states (track pid pidfd g d))
      (λ g d below small has cap. track_Step pid pidfd g d below cap) h domain s b
tracking_step-Budgeted limits fd_budget h (leads domain pid pidfd) s b =
    domain_Budgeted limits fd_budget (λ g d. states (set_leader pid pidfd g d))
      (λ g d below small has cap.
        let k = track_Step pid pidfd g (record d { leader_pgid = some pid }) below cap in
        record {
          same_limits = k.same_limits;
          same_fds = k.same_fds;
          balance = k.balance;
          under = k.under;
          capped = k.capped;
        })
      h domain s b
tracking_step-Budgeted limits fd_budget h (releases domain) s b =
    domain_Budgeted limits fd_budget release
      (λ g d below small has cap. release_Step g d below (omega arith) has) h domain s b

run_Budgeted :
    (limits : TrackingLimits) (fd_budget : ℕ)
    → limits.max_tracked_global < 2 ^ 64
    → (ops : List TrackingStep) (s : Tracked) → Budgeted limits fd_budget s
    → Budgeted limits fd_budget (tracking_run ops s)
unfolding tracking_run
run_Budgeted limits fd_budget h [] s b = b
run_Budgeted limits fd_budget h (op ∷ ops) s b =
    run_Budgeted limits fd_budget h ops (tracking_step op s)
      (tracking_step-Budgeted limits fd_budget h op s b)

-- If the global limit fits a machine word, then after any sequence of opens, tracks, leaders and
-- releases the count of tracked processes is that of all open domains together, at most the
-- ceiling, and no domain tracks more than a session may.
pub tracking_run-Budgeted :
    (limits : TrackingLimits) (soft : Option ℕ) (ops : List TrackingStep)
    → limits.max_tracked_global < 2 ^ 64
    → Budgeted limits
        (new_tracking limits soft).fd_budget
        (tracking_run ops (record { global = new_tracking limits soft; domains = [] }))
unfolding new_tracking total ceiling
tracking_run-Budgeted limits soft ops h =
    run_Budgeted limits (new_tracking limits soft).fd_budget h ops
      (record { global = new_tracking limits soft; domains = [] })
      (record {
        limits_kept = refl;
        fd_budget_kept = refl;
        counted = refl;
        below = omega arith;
        each = tt;
      })
