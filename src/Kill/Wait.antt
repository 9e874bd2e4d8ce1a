-- ===== src/Kill/Wait.antt =====
-- The waits of a teardown end (`wait_until_drained` of runtime/src/killdomain.rs).
use mathlib.Core.Path.{subst}
use openab_pty.Base.{
  ℕ, zero, suc, ◌+◌, ◌*◌, ◌/◌, ◌≤◌, ◌≡◌, Bool, true, false, not, Option, none, some, List, [], ◌∷◌,
  arith, leb, Bool-split, leb→le,
}
use openab_pty.Kill.{
  Processes, SessionKillDomain, TrackedChild, reap_tracked, visible, wait_loop, wait_until_drained,
}

-- Time as the kernel and tokio promise it: a sleep takes at least its length, and no call turns the
-- clock back.
pub record ClockLaws {Table : Type 0} (os : Processes Table) : Type 0 where
  pub sleep_later : (ms : ℕ) (t : Table) → os.clock t + ms ≤ os.clock (os.sleep ms t)
  pub reap_later : (pid : ℕ) (t : Table) → os.clock t ≤ os.clock (os.reap_nonblocking pid t)

not-true : {b : Bool} → not b ≡ true → b ≡ false
not-true {b} h = ground arith

not-false : {b : Bool} → not b ≡ false → b ≡ true
not-false {b} h = ground arith

not_early :
    (deadline t reaped : ℕ) → deadline ≤ t + 25 * 0 → t ≤ reaped → leb deadline reaped ≡ false → ⊥
not_early deadline t reaped a b h = ground arith

rounds : (budget : ℕ) → suc (budget / 25 + 1) ≡ budget / 25 + 2
rounds budget = omega arith

module _ {Table : Type 0} (os : Processes Table) where
  -- How a wait ends: with nothing visible left, or past its deadline.
  abbrev pub Ends : SessionKillDomain → (deadline : ℕ) → Option (Bool × Table) → Type 0
  Ends d deadline none = ⊥
  Ends d deadline (some (true, t)) = visible os d t ≡ false
  Ends d deadline (some (false, t)) = (visible os d t ≡ true) × (deadline ≤ os.clock t)

  module _ (laws : ClockLaws os) where
    reap_tracked_later :
        (children : List TrackedChild) (t : Table)
        → os.clock t ≤ os.clock (reap_tracked os children t)
    unfolding reap_tracked
    reap_tracked_later [] t = omega arith
    reap_tracked_later (child ∷ rest) t =
        let a = laws.reap_later child.pid t in
        let b = reap_tracked_later rest (os.reap_nonblocking child.pid t) in omega arith

    wait_loop-Ends :
        (fuel deadline : ℕ) (d : SessionKillDomain) (t : Table)
        → deadline ≤ os.clock t + 25 * fuel
        → Ends d deadline (wait_loop os (suc fuel) deadline d t)
    unfolding wait_loop
    wait_loop-Ends zero deadline d t enough =
        let reaped = reap_tracked os d.tracked t in
        let past = reap_tracked_later d.tracked t in
        Bool-split (Ends d deadline) (not (visible os d reaped)) (λ gone. not-true gone)
          (λ seen.
            Bool-split (Ends d deadline) (leb deadline (os.clock reaped))
              (λ late. (not-false seen, leb→le deadline (os.clock reaped) late))
              (λ early.
                absurd (not_early deadline (os.clock t) (os.clock reaped) enough past early)))
    wait_loop-Ends (suc fuel) deadline d t enough =
        let reaped = reap_tracked os d.tracked t in
        Bool-split (Ends d deadline) (not (visible os d reaped)) (λ gone. not-true gone)
          (λ seen.
            Bool-split (Ends d deadline) (leb deadline (os.clock reaped))
              (λ late. (not-false seen, leb→le deadline (os.clock reaped) late))
              (λ early.
                let past = reap_tracked_later d.tracked t in
                let slept = laws.sleep_later 25 reaped in
                wait_loop-Ends fuel deadline d (os.sleep 25 reaped) (omega arith)))

    -- A wait ends for any budget: with nothing visible left, or with something and its budget over.
    pub wait_until_drained-Ends :
        (budget : ℕ) (d : SessionKillDomain) (t : Table)
        → Ends d (os.clock t + budget) (wait_until_drained os budget d t)
    unfolding wait_until_drained
    wait_until_drained-Ends budget d t =
        subst (λ n. Ends d (os.clock t + budget) (wait_loop os n (os.clock t + budget) d t))
          (rounds budget) (wait_loop-Ends (budget / 25 + 1) (os.clock t + budget) d t (omega arith))
