-- ===== src/Kill.antt =====
-- runtime/src/killdomain.rs: Tier 1 teardown of a session's processes. The kernel's process table and
-- the signals into it (`ProcessSignals`, kill(2), pidfd, waitpid, /proc) are a parameter: a table is a
-- state, and each call gives the state after it. Durations and instants are milliseconds.
pub mod Tracking
pub mod Wait
pub mod Teardown
mod Examples
use openab_pty.Base.{
  ℕ, zero, suc, ◌+◌, ◌-◌, ◌/◌, ◌%◌, ◌^◌, Bool, true, false, not, ◌&&◌, ◌||◌, Option, none, some,
  List, [], ◌∷◌, ◌++◌, min, length, ltb, leb, ◌==◌, if◌then◌else◌, codes,
}
use openab_pty.Crate.{SessionName, Generation, Error, capacity_exceeded, config, Result, ok, err}
use openab_pty.Audit.{AuditEvent, tier1_survivor_detected, with_session, with_detail}
use openab_pty.Audit

abbrev pub tier1_poll_step : ℕ
tier1_poll_step = 25

abbrev pub tier1_kill_wait : ℕ
tier1_kill_wait = 500

pub data KillDomainTier : Type 0 where
  tier1_best_effort_process_group : KillDomainTier

pub data KillDomainRequirement : Type 0 where
  tier1_allowed tier2_required : KillDomainRequirement

unfoldable pub is_best_effort : KillDomainTier → Bool
is_best_effort tier1_best_effort_process_group = true

unfoldable pub label : KillDomainTier → List ℕ
label tier1_best_effort_process_group = codes "tier1-best-effort-process-group"

unfoldable pub resolve_tier : KillDomainRequirement → Result KillDomainTier
resolve_tier tier1_allowed = ok tier1_best_effort_process_group
resolve_tier tier2_required = err (
    config
      "kill_domain_tier = tier2-required, but Tier 2 (one cgroup per session, teardown via cgroup.kill) is NOT IMPLEMENTED in Phase 1: the PTY spawner cannot join a cgroup before execv, so the hard guarantee cannot be provided. Refusing to start rather than serving best-effort teardown under the name of a guarantee. Use kill_domain_tier = tier1 to accept best-effort teardown explicitly.")

pub record TrackingLimits : Type 0 where
  pub max_tracked_per_session : ℕ
  pub max_tracked_global : ℕ
  pub reserved_fd_headroom : ℕ

abbrev pub default_limits : TrackingLimits
default_limits = record {
  max_tracked_per_session = 64;
  max_tracked_global = 512;
  reserved_fd_headroom = 128;
}

pub record GlobalTracking : Type 0 where
  pub tracked : ℕ
  pub leaked : ℕ
  pub limits : TrackingLimits
  pub fd_budget : ℕ

-- `usize::MAX`.
abbrev pub usize_max : ℕ
usize_max = 2 ^ 64 - 1

-- `soft` is what `open_file_limit` read, if it could.
unfoldable pub new_tracking : TrackingLimits → (soft : Option ℕ) → GlobalTracking
new_tracking limits soft = record {
  tracked = 0;
  leaked = 0;
  limits = limits;
  fd_budget = elim soft [ none ↦ usize_max | some n ↦ n - limits.reserved_fd_headroom ];
}

unfoldable pub ceiling : GlobalTracking → ℕ
ceiling g = min g.limits.max_tracked_global g.fd_budget

-- One successful round of the compare-and-swap loop.
unfoldable pub reserve : GlobalTracking → Result (Unit {0}) × GlobalTracking
unfolding ceiling
reserve g =
    if leb (ceiling g) g.tracked
    then (err (capacity_exceeded (ceiling g)), g)
    else (ok tt, record g { tracked = g.tracked + 1 })

-- `fetch_sub`, which wraps in `usize`.
unfoldable pub release_slots : (n : ℕ) → GlobalTracking → GlobalTracking
release_slots n g = record g { tracked = (g.tracked + (2 ^ 64 - n)) % 2 ^ 64 }

-- `pidfd` says whether the kernel gave one for the child; signals through it cannot hit another
-- process.
pub record TrackedChild : Type 0 where
  pub pid : ℕ
  pub pidfd : Bool

pub record SessionKillDomain : Type 0 where
  pub session : SessionName
  pub generation : Generation
  pub leader_pgid : Option ℕ
  pub tracked : List TrackedChild

unfoldable pub open_session : SessionName → Generation → SessionKillDomain
open_session session generation = record {
  session = session;
  generation = generation;
  leader_pgid = none;
  tracked = [];
}

-- `pidfd`: whether `pidfd_open` gave a descriptor.
unfoldable pub track :
    (pid : ℕ) (pidfd : Bool)
    → GlobalTracking
    → SessionKillDomain
    → Result (Unit {0}) × GlobalTracking × SessionKillDomain
unfolding reserve
track pid pidfd g d =
    if leb g.limits.max_tracked_per_session (length d.tracked)
    then (err (capacity_exceeded g.limits.max_tracked_per_session), g, d)
    else let (reserved, g') = reserve g in
      elim reserved [
        | err e ↦ (err e, g', d)
        | ok _ ↦ (
          ok tt,
          g',
          record d { tracked = d.tracked ++ (record { pid = pid; pidfd = pidfd } ∷ []) },
        )
      ]

unfoldable pub set_leader :
    (pid : ℕ) (pidfd : Bool)
    → GlobalTracking
    → SessionKillDomain
    → Result (Unit {0}) × GlobalTracking × SessionKillDomain
unfolding track
set_leader pid pidfd g d = track pid pidfd g (record d { leader_pgid = some pid })

-- Also what the domain's `Drop` does: it leaves a domain that tracks nothing.
unfoldable pub release : GlobalTracking → SessionKillDomain → GlobalTracking × SessionKillDomain
unfolding release_slots
release g d = (release_slots (length d.tracked) g, record d { tracked = [] })

pub data Signal : Type 0 where
  term kill : Signal

-- `ProcessSignals` over a table of processes, with the signals through a pidfd and the passing of time.
-- The results of the signal calls are dropped by the code.
pub record Processes (Table : Type 0) : Type 0 where
  pub signal_group : (pgid : ℕ) → Signal → Table → Table
  pub signal_pid : (pid : ℕ) → Signal → Table → Table
  pub signal_pidfd : (pid : ℕ) → Signal → Table → Table
  pub group_alive : (pgid : ℕ) → Table → Bool
  pub pid_alive : (pid : ℕ) → Table → Bool
  pub reap_nonblocking : (pid : ℕ) → Table → Table
  pub sleep : (ms : ℕ) → Table → Table
  pub clock : Table → ℕ

pub record TeardownOutcome : Type 0 where
  pub tier : KillDomainTier
  pub survivors : List ℕ
  pub elapsed_ms : ℕ

-- `slice::contains`.
unfoldable pub contains : (pid : ℕ) → List ℕ → Bool
contains pid [] = false
contains pid (p ∷ ps) = (p == pid) || contains pid ps

module _ {Table : Type 0} (os : Processes Table) where
  unfoldable pub signal_tracked : List TrackedChild → Signal → Table → Table
  signal_tracked [] signal t = t
  signal_tracked (child ∷ rest) signal t =
      signal_tracked rest signal (
        if child.pidfd
        then os.signal_pidfd child.pid signal t
        else os.signal_pid child.pid signal t)

  unfoldable pub signal_leader : Option ℕ → Signal → Table → Table
  signal_leader none signal t = t
  signal_leader (some pgid) signal t = os.signal_group pgid signal t

  unfoldable pub reap_tracked : List TrackedChild → Table → Table
  reap_tracked [] t = t
  reap_tracked (child ∷ rest) t = reap_tracked rest (os.reap_nonblocking child.pid t)

  unfoldable pub any_alive : List TrackedChild → Table → Bool
  any_alive [] t = false
  any_alive (child ∷ rest) t = os.pid_alive child.pid t || any_alive rest t

  unfoldable pub leader_alive : Option ℕ → Table → Bool
  leader_alive none t = false
  leader_alive (some pgid) t = os.group_alive pgid t

  unfoldable pub visible : SessionKillDomain → Table → Bool
  unfolding any_alive leader_alive
  visible d t = any_alive d.tracked t || leader_alive d.leader_pgid t

  -- The loop of `wait_until_drained`, for `fuel` rounds; `none` says that they did not suffice.
  unfoldable pub wait_loop : (fuel deadline : ℕ) → SessionKillDomain → Table → Option (Bool × Table)
  unfolding reap_tracked visible
  wait_loop zero deadline d t = none
  wait_loop (suc fuel) deadline d t =
      let reaped = reap_tracked d.tracked t in
      let rest = wait_loop fuel deadline d (os.sleep tier1_poll_step reaped) in
      if not (visible d reaped)
      then some (true, reaped)
      else if leb deadline (os.clock reaped)
      then some (false, reaped)
      else rest

  -- The last poll comes at the first multiple of the step past the budget.
  unfoldable pub wait_until_drained :
      (budget : ℕ) → SessionKillDomain → Table → Option (Bool × Table)
  unfolding wait_loop
  wait_until_drained budget d t = wait_loop (budget / tier1_poll_step + 2) (os.clock t + budget) d t

  unfoldable pub alive_pids : List TrackedChild → Table → List ℕ
  alive_pids [] t = []
  alive_pids (child ∷ rest) t =
      let others = alive_pids rest t in
      if os.pid_alive child.pid t then child.pid ∷ others else others

  unfoldable pub with_leader : Option ℕ → Table → List ℕ → List ℕ
  unfolding contains
  with_leader none t survivors = survivors
  with_leader (some pgid) t survivors =
      if os.group_alive pgid t && not (contains pgid survivors)
      then survivors ++ (pgid ∷ [])
      else survivors

  unfoldable pub survivors_of : SessionKillDomain → Table → List ℕ
  unfolding with_leader alive_pids
  survivors_of d t = with_leader d.leader_pgid t (alive_pids d.tracked t)

  unfoldable pub signal_all : SessionKillDomain → Signal → Table → Table
  unfolding signal_leader signal_tracked
  signal_all d signal t = signal_tracked d.tracked signal (signal_leader d.leader_pgid signal t)

  -- The table when the escalation is over.
  unfoldable pub escalate : (grace : ℕ) → SessionKillDomain → Table → Option Table
  unfolding signal_all wait_until_drained
  escalate grace d t = elim (wait_until_drained grace d (signal_all d term t)) [
    | none ↦ none
    | some (true, drained) ↦ some drained
    | some (false, late) ↦ elim (wait_until_drained tier1_kill_wait d (signal_all d kill late)) [
      | none ↦ none
      | some (all_gone, after) ↦ some after
    ]
  ]

  unfoldable pub terminate_tier1 : (grace : ℕ) → SessionKillDomain → Table → Option (List ℕ × Table)
  unfolding escalate reap_tracked survivors_of
  terminate_tier1 grace d t = elim (escalate grace d t) [
    | none ↦ none
    | some after ↦ let reaped = reap_tracked d.tracked after in some (survivors_of d reaped, reaped)
  ]

  -- The detail of the audit event, which lists the survivors, is cut to the tier's label.
  unfoldable pub report_survivors :
      SessionKillDomain → List ℕ → GlobalTracking → GlobalTracking × List AuditEvent
  unfolding label
  report_survivors d [] g = (g, [])
  report_survivors d (pid ∷ pids) g = (
    record g { leaked = (g.leaked + length (pid ∷ pids)) % 2 ^ 64 },
    with_detail (with_session (Audit.new tier1_survivor_detected) d.session d.generation)
          (label tier1_best_effort_process_group)
        ∷ [],
  )

  unfoldable pub terminate :
      (grace : ℕ)
      → GlobalTracking
      → SessionKillDomain
      → Table
      → Option (TeardownOutcome × GlobalTracking × List AuditEvent × Table)
  unfolding terminate_tier1 report_survivors
  terminate grace g d t = elim (terminate_tier1 grace d t) [
    | none ↦ none
    | some (survivors, after) ↦
        let (g', events) = report_survivors d survivors g in
        some (
          record {
            tier = tier1_best_effort_process_group;
            survivors = survivors;
            elapsed_ms = os.clock after - os.clock t;
          },
          g',
          events,
          after,
        )
  ]

unfoldable pub converged : TeardownOutcome → Bool
converged outcome = elim outcome.survivors [ [] ↦ true | pid ∷ pids ↦ false ]
