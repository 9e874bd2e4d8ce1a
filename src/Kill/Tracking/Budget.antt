-- ===== src/Kill/Tracking/Budget.antt =====
-- What a step of the tracking budgets does to the counts (runtime/src/killdomain.rs).
use openab_pty.Base.{
  ℕ, zero, suc, ◌+◌, ◌^◌, ◌≤◌, ◌<◌, ◌≡◌, refl, ap₂, min, inl, inr, Bool, List, [], ◌∷◌, arith,
  length, length-append, leb, Bool-cases,
}
use openab_pty.Crate.{SessionName, Generation, Result}
use openab_pty.Kill.{
  GlobalTracking, SessionKillDomain, TrackingLimits, ceiling, reserve, release_slots, open_session,
  track, set_leader, release,
}

-- What the sessions do; the number is that of the session's domain.
pub data TrackingStep : Type 0 where
  opens : SessionName → Generation → TrackingStep
  tracks leads : (domain pid : ℕ) (pidfd : Bool) → TrackingStep
  releases : (domain : ℕ) → TrackingStep

pub record Tracked : Type 0 where
  pub global : GlobalTracking
  pub domains : List SessionKillDomain

-- An operation on one of the domains; nothing happens to one that is not there.
unfoldable pub at_domain :
    (GlobalTracking → SessionKillDomain → GlobalTracking × SessionKillDomain)
    → (domain : ℕ) → GlobalTracking
    → List SessionKillDomain
    → GlobalTracking × List SessionKillDomain
at_domain f domain g [] = (g, [])
at_domain f zero g (d ∷ ds) = let (g', d') = f g d in (g', d' ∷ ds)
at_domain f (suc domain) g (d ∷ ds) = let (g', ds') = at_domain f domain g ds in (g', d ∷ ds')

-- Without the outcome of the call.
abbrev pub states :
    Result (Unit {0}) × GlobalTracking × SessionKillDomain → GlobalTracking × SessionKillDomain
states (outcome, g, d) = (g, d)

unfoldable pub tracking_step : TrackingStep → Tracked → Tracked
unfolding open_session track set_leader release at_domain
tracking_step (opens session generation) s = record s {
  domains = open_session session generation ∷ s.domains;
}
tracking_step (tracks domain pid pidfd) s =
    let (g, ds) = at_domain (λ g d. states (track pid pidfd g d)) domain s.global s.domains in
    record { global = g; domains = ds }
tracking_step (leads domain pid pidfd) s =
    let (g, ds) = at_domain (λ g d. states (set_leader pid pidfd g d)) domain s.global s.domains in
    record { global = g; domains = ds }
tracking_step (releases domain) s =
    let (g, ds) = at_domain release domain s.global s.domains in record { global = g; domains = ds }

unfoldable pub tracking_run : List TrackingStep → Tracked → Tracked
unfolding tracking_step
tracking_run [] s = s
tracking_run (op ∷ ops) s = tracking_run ops (tracking_step op s)

unfoldable pub total : List SessionKillDomain → ℕ
total [] = 0
total (d ∷ ds) = length d.tracked + total ds

abbrev pub AllWithin : ℕ → List SessionKillDomain → Type 0
AllWithin cap [] = Unit
AllWithin cap (d ∷ ds) = (length d.tracked ≤ cap) × AllWithin cap ds

pub record Budgeted (limits : TrackingLimits) (fd_budget : ℕ) (s : Tracked) : Type 0 where
  pub limits_kept : s.global.limits ≡ limits
  pub fd_budget_kept : s.global.fd_budget ≡ fd_budget
  pub counted : s.global.tracked ≡ total s.domains
  pub below : s.global.tracked ≤ ceiling s.global
  pub each : AllWithin limits.max_tracked_per_session s.domains

-- What an operation on one domain must do to the counts.
pub record Step (g g' : GlobalTracking) (d d' : SessionKillDomain) : Type 0 where
  pub same_limits : g'.limits ≡ g.limits
  pub same_fds : g'.fd_budget ≡ g.fd_budget
  pub balance : g'.tracked + length d.tracked ≡ g.tracked + length d'.tracked
  pub under : g'.tracked ≤ ceiling g
  pub capped : length d'.tracked ≤ g.limits.max_tracked_per_session

pub track_Step :
    (pid : ℕ) (pidfd : Bool) (g : GlobalTracking) (d : SessionKillDomain)
    → g.tracked ≤ ceiling g
    → length d.tracked ≤ g.limits.max_tracked_per_session
    → Step g (track pid pidfd g d).1 d (track pid pidfd g d).2
unfolding track reserve
track_Step pid pidfd g d below cap =
    elim (Bool-cases (leb g.limits.max_tracked_per_session (length d.tracked))) [
      | inl e ↦ record {
        same_limits = ground arith;
        same_fds = ground arith;
        balance = ground arith;
        under = ground arith;
        capped = ground arith;
      }
      | inr e ↦ elim (Bool-cases (leb (ceiling g) g.tracked)) [
        | inl f ↦ record {
          same_limits = ground arith;
          same_fds = ground arith;
          balance = ground arith;
          under = ground arith;
          capped = ground arith;
        }
        | inr f ↦
            let l = length-append d.tracked (record { pid = pid; pidfd = pidfd } ∷ []) in
            record {
              same_limits = ground arith;
              same_fds = ground arith;
              balance = ground (arith, l);
              under = ground arith;
              capped = ground (arith, l);
            }
      ]
    ]

pub release_Step :
    (g : GlobalTracking) (d : SessionKillDomain)
    → g.tracked ≤ ceiling g
    → g.tracked < 2 ^ 64
    → length d.tracked ≤ g.tracked
    → Step g (release g d).0 d (release g d).1
unfolding release release_slots
release_Step g d below small has = record {
  same_limits = refl;
  same_fds = refl;
  balance = omega arith;
  under = omega arith;
  capped = omega arith;
}

abbrev pub Others : ℕ → ℕ → GlobalTracking → List SessionKillDomain → Type 0
Others cap rest g ds =
    (g.tracked ≡ rest + total ds)
    × (g.tracked ≤ ceiling g)
    × (ceiling g < 2 ^ 64)
    × (g.limits.max_tracked_per_session ≡ cap)
    × AllWithin cap ds

pub ceiling_same :
    (g g' : GlobalTracking)
    → g'.limits ≡ g.limits
    → g'.fd_budget ≡ g.fd_budget
    → ceiling g' ≡ ceiling g
unfolding ceiling
ceiling_same g g' l f = ap₂ (λ (l : TrackingLimits) b. min l.max_tracked_global b) l f
