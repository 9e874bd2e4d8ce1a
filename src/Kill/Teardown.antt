-- ===== src/Kill/Teardown.antt =====
-- What a teardown reports (`terminate` of runtime/src/killdomain.rs).
use openab_pty.Base.{
  ℕ, ◌+◌, ◌-◌, ◌≤◌, ◌<◌, ◌^◌, ◌%◌, ◌≡◌, refl, ◌∙◌, ap, ◌⊎◌, inl, inr, Bool, true, false, ◌&&◌, ◌||◌,
  Option, none, some, List, [], ◌∷◌, ◌++◌, arith, length, ◌==◌, Bool-cases, ==_iff,
}
use openab_pty.Audit.{AuditEvent}
use openab_pty.Kill.{
  Processes, SessionKillDomain, TrackedChild, GlobalTracking, TeardownOutcome,
  tier1_best_effort_process_group, term, kill, tier1_kill_wait, reap_tracked, leader_alive, visible,
  wait_until_drained, alive_pids, contains, with_leader, survivors_of, signal_all, escalate,
  terminate_tier1, report_survivors, terminate,
}
use openab_pty.Kill.Wait.{ClockLaws, Ends, wait_until_drained-Ends}

unfoldable pub tracks : (pid : ℕ) → List TrackedChild → Bool
tracks pid [] = false
tracks pid (child ∷ rest) = (child.pid == pid) || tracks pid rest

unfoldable pub leads : (pid : ℕ) → Option ℕ → Bool
leads pid none = false
leads pid (some pgid) = pgid == pid

contains-append :
    (pid : ℕ) (ps : List ℕ) (q : ℕ)
    → contains pid (ps ++ (q ∷ [])) ≡ (contains pid ps || (q == pid))
unfolding contains
contains-append pid [] q = ground arith
contains-append pid (p ∷ ps) q = ground (arith, contains-append pid ps q)

module _ {Table : Type 0} (os : Processes Table) where
  contains-alive_pids :
      (pid : ℕ) (children : List TrackedChild) (t : Table)
      → contains pid (alive_pids os children t) ≡ (tracks pid children && os.pid_alive pid t)
  unfolding contains alive_pids tracks
  contains-alive_pids pid [] t = refl
  contains-alive_pids pid (child ∷ rest) t = elim (Bool-cases (child.pid == pid)) [
    | inl e ↦
        let same : child.pid ≡ pid = (==_iff child.pid pid).0 e in
        ground (arith, contains-alive_pids pid rest t, ap (λ p. os.pid_alive p t) same, e)
    | inr e ↦ ground (arith, contains-alive_pids pid rest t, e)
  ]

  contains-with_leader :
      (pid : ℕ) (leader : Option ℕ) (t : Table) (ps : List ℕ)
      → contains pid (with_leader os leader t ps)
        ≡ (contains pid ps || (leads pid leader && leader_alive os leader t))
  unfolding with_leader leads leader_alive
  contains-with_leader pid none t ps = ground arith
  contains-with_leader pid (some pgid) t ps = elim (Bool-cases (pgid == pid)) [
    | inl e ↦
        let same : pgid ≡ pid = (==_iff pgid pid).0 e in
        ground (arith, contains-append pid ps pgid, ap (λ p. contains p ps) same, e)
    | inr e ↦ ground (arith, contains-append pid ps pgid, e)
  ]

  -- The survivors are the processes that are visibly alive: those tracked, and the leader's group.
  contains-survivors_of :
      (pid : ℕ) (d : SessionKillDomain) (t : Table)
      → contains pid (survivors_of os d t) ≡ (
          (tracks pid d.tracked && os.pid_alive pid t)
          || (leads pid d.leader_pgid && leader_alive os d.leader_pgid t))
  unfolding survivors_of
  contains-survivors_of pid d t =
      contains-with_leader pid d.leader_pgid t (alive_pids os d.tracked t)
      ∙ ap (λ b. b || (leads pid d.leader_pgid && leader_alive os d.leader_pgid t))
          (contains-alive_pids pid d.tracked t)

  -- How an escalation ends: drained within the grace period, or with a kill that was sent when the grace
  -- period was over and something was still visible.
  abbrev pub Escalated : (grace : ℕ) → SessionKillDomain → (before after : Table) → Type 0
  Escalated grace d before after =
      ((wait_until_drained os grace d (signal_all os d term before) ≡ some (true, after))
        × (visible os d after ≡ false))
      ⊎ ((late : Table) × (visible os d late ≡ true)
          × (os.clock (signal_all os d term before) + grace ≤ os.clock late)
          × ((gone : Bool) × (wait_until_drained os tier1_kill_wait d (signal_all os d kill late)
                ≡ some (gone, after))))

  module _ (laws : ClockLaws os) where
    wait_result :
        (budget : ℕ) (d : SessionKillDomain) (t : Table)
        → ((after : Table) × (wait_until_drained os budget d t ≡ some (true, after))
            × (visible os d after ≡ false))
          ⊎ ((after : Table) × (wait_until_drained os budget d t ≡ some (false, after))
              × (visible os d after ≡ true)
              × (os.clock t + budget ≤ os.clock after))
    wait_result budget d t =
        by_cases (wait_until_drained os budget d t) refl
          (wait_until_drained-Ends os laws budget d t)
      where
        by_cases :
            (o : Option (Bool × Table))
            → wait_until_drained os budget d t ≡ o
            → Ends os d (os.clock t + budget) o
            → ((after : Table) × (wait_until_drained os budget d t ≡ some (true, after))
                × (visible os d after ≡ false))
              ⊎ ((after : Table) × (wait_until_drained os budget d t ≡ some (false, after))
                  × (visible os d after ≡ true)
                  × (os.clock t + budget ≤ os.clock after))
        by_cases none e h = absurd h
        by_cases (some (true, after)) e h = inl (after, e, h)
        by_cases (some (false, after)) e h = inr (after, e, h.0, h.1)

    -- If the clock obeys its laws, the escalation ends: with nothing visible left after SIGTERM,
    -- or with SIGKILL sent when the grace period was over and something was still visible.
    pub escalate_ends :
        (grace : ℕ) (d : SessionKillDomain) (t : Table)
        → (after : Table) × (escalate os grace d t ≡ some after) × Escalated grace d t after
    unfolding escalate
    escalate_ends grace d t = elim (wait_result grace d (signal_all os d term t)) [
      | inl (after, e, v) ↦ (after, ground (arith, e), inl (e, v))
      | inr (late, e, v, c) ↦ elim (wait_result tier1_kill_wait d (signal_all os d kill late)) [
        | inl (after, f, w) ↦ (after, ground (arith, e, f), inr (late, v, c, (true, f)))
        | inr (after, f, w, past) ↦ (after, ground (arith, e, f), inr (late, v, c, (false, f)))
      ]
    ]

    report_counts :
        (d : SessionKillDomain) (survivors : List ℕ) (g : GlobalTracking)
        → g.leaked < 2 ^ 64
        → ((report_survivors os d survivors g).0.leaked ≡ (g.leaked + length survivors) % 2 ^ 64)
          × ((report_survivors os d survivors g).0.tracked ≡ g.tracked)
    unfolding report_survivors
    report_counts d [] g h = (omega arith, refl)
    report_counts d (pid ∷ pids) g h = (refl, refl)

    terminate_tier1-some :
        (grace : ℕ) (d : SessionKillDomain) (t : Table)
        → (after : Table) × (terminate_tier1 os grace d t ≡ some (survivors_of os d after, after))
    unfolding terminate_tier1
    terminate_tier1-some grace d t =
        let (end, e, how) = escalate_ends grace d t in
        (reap_tracked os d.tracked end, ground (arith, e))

    -- If the clock obeys its laws and the leak counter has not overflowed, a teardown returns for
    -- any grace period; its survivors are exactly the tracked processes and the leader's group
    -- that are alive at its end, the leak counter grows by their number, and the count of tracked
    -- processes stays.
    pub terminate_reports :
        (grace : ℕ) (g : GlobalTracking) (d : SessionKillDomain) (t : Table)
        → g.leaked < 2 ^ 64
        → (outcome : TeardownOutcome) × (g' : GlobalTracking) × (events : List AuditEvent)
          × (after : Table) × (terminate os grace g d t ≡ some (outcome, g', events, after))
          × ((pid : ℕ)
              → contains pid outcome.survivors ≡ (
                  (tracks pid d.tracked && os.pid_alive pid after)
                  || (leads pid d.leader_pgid && leader_alive os d.leader_pgid after)))
          × (g'.leaked ≡ (g.leaked + length outcome.survivors) % 2 ^ 64)
          × (g'.tracked ≡ g.tracked)
    unfolding terminate
    terminate_reports grace g d t h =
        let (after, e) = terminate_tier1-some grace d t in
        let survivors = survivors_of os d after in
        let reported = report_survivors os d survivors g in
        let (leaked, tracked) = report_counts d survivors g h in
        (
          record {
            tier = tier1_best_effort_process_group;
            survivors = survivors;
            elapsed_ms = os.clock after - os.clock t;
          },
          reported.0,
          reported.1,
          after,
          ground (arith, e),
          λ pid. contains-survivors_of pid d after,
          leaked,
          tracked,
        )
