-- ===== src/Kill/Examples.antt =====
-- A teardown and the tracking budgets (runtime/src/killdomain.rs) at concrete states. The table of the
-- tests has one process, which takes a number of kills, and the clock.
use openab_pty.Base.{
  ℕ, ◌+◌, ◌-◌, ◌%◌, ◌^◌, ◌≡◌, ◌&&◌, ◌||◌, true, false, some, List, [], ◌∷◌, length, arith, ltb,
  codes,
}
use openab_pty.Crate.{SessionName}
use openab_pty.Audit.{AuditEvent}
use openab_pty.Kill.{
  Processes, Signal, term, kill, SessionKillDomain, GlobalTracking, TeardownOutcome, default_limits,
  new_tracking, escalate, terminate, contains, leader_alive,
}
use openab_pty.Kill.Tracking.{tracking_run-Budgeted}
use openab_pty.Kill.Tracking.Budget.{
  TrackingStep, Budgeted, opens, tracks, leads, releases, tracking_run,
}
use openab_pty.Kill.Wait.{ClockLaws}
use openab_pty.Kill.Teardown.{Escalated, escalate_ends, terminate_reports}
use openab_pty.Kill.Teardown

abbrev build : SessionName
build = codes "build"

-- A process that ignores SIGTERM: `lives` kills are left, and the time in milliseconds.
record Box : Type 0 where
  lives : ℕ
  time : ℕ

abbrev hit : Signal → Box → Box
hit term b = b
hit kill b = record b { lives = b.lives - 1 }

abbrev box : Processes Box
box = record {
  signal_group = λ pgid s b. hit s b;
  signal_pid = λ pid s b. hit s b;
  signal_pidfd = λ pid s b. hit s b;
  group_alive = λ pgid b. ltb 0 b.lives;
  pid_alive = λ pid b. ltb 0 b.lives;
  reap_nonblocking = λ pid b. b;
  sleep = λ ms b. record b { time = b.time + ms };
  clock = λ b. b.time;
}

box_laws : ClockLaws box
box_laws = record { sleep_later = λ ms b. omega arith; reap_later = λ pid b. omega arith }

abbrev domain : SessionKillDomain
domain = record {
  session = build;
  generation = 1;
  leader_pgid = some 7;
  tracked = record { pid = 7; pidfd = true } ∷ [];
}

abbrev global : GlobalTracking
global = record { tracked = 1; leaked = 0; limits = default_limits; fd_budget = 512 }

abbrev tough : Box
tough = record { lives = 2; time = 0 }

escalate_ends_example :
    (after : Box) × (escalate box 50 domain tough ≡ some after)
    × Escalated box 50 domain tough after
escalate_ends_example = escalate_ends box box_laws 50 domain tough

terminate_reports_example :
    (outcome : TeardownOutcome) × (g' : GlobalTracking) × (events : List AuditEvent) × (after : Box)
    × (terminate box 50 global domain tough ≡ some (outcome, g', events, after))
    × ((pid : ℕ)
        → contains pid outcome.survivors ≡ (
            (Teardown.tracks pid domain.tracked && ltb 0 after.lives)
            || (Teardown.leads pid domain.leader_pgid
                && leader_alive box domain.leader_pgid after)))
    × (g'.leaked ≡ (0 + length outcome.survivors) % 2 ^ 64)
    × (g'.tracked ≡ 1)
terminate_reports_example = terminate_reports box box_laws 50 global domain tough (omega arith)

abbrev steps : List TrackingStep
steps =
    opens build 1
    ∷ leads 0 7 true
    ∷ tracks 0 8 false
    ∷ opens (codes "test") 1
    ∷ leads 0 9 true
    ∷ releases 1
    ∷ []

tracking_run-Budgeted_example :
    Budgeted default_limits (new_tracking default_limits (some 1024)).fd_budget (
      tracking_run steps
        (record { global = new_tracking default_limits (some 1024); domains = [] }))
tracking_run-Budgeted_example = tracking_run-Budgeted default_limits (some 1024) steps (omega arith)
