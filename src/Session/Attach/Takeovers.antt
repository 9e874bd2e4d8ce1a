-- ===== src/Session/Attach/Takeovers.antt =====
-- The takeovers that a session grants (`attach_with_replay` and `TakeoverLimiter` of runtime/src/session.rs).
use mathlib.Core.Path.{subst}
use openab_pty.Base.{
  ℕ, ◌+◌, ◌-◌, ◌*◌, ◌≤◌, ◌≡◌, refl, sym, ◌∙◌, ap, inl, inr, Bool, false, not, Option, List, [], ◌∷◌,
  arith, ◌==◌, if◌then◌else◌, Bool-cases, ==_iff, Bool-split,
}
use openab_pty.Crate.{Result, Generation, SessionName}
use openab_pty.Session.Policy.{SessionPolicy, WindowSize}
use openab_pty.Session.Takeover.{new, allow}
use openab_pty.Session.Takeover.Budget.{granted, Within, one_if, mul_mono, later, later_granted}
use openab_pty.Session.Handle.{Session, fresh}
use openab_pty.Session.Attach.{Attempt, stale_generation, rate_limited, won, own, attach_locked}
use openab_pty.Session.Attach.Steps.{Step, attach_step, renew_step, perform}
use openab_pty.Session.Attach.Calm.{Budget, Calm, perform-IsCalm}

-- An attach that takes a session from its owner.
unfoldable pub takes_over : Session → Attempt → Bool
takes_over s stale_generation = false
takes_over s rate_limited = false
takes_over s (won conn stream_offset evicted replay) = not (s.owner_conn == 0)

-- The times of the attaches under the generation, up to the next renewal.
unfoldable pub attach_times : Generation → List Step → List ℕ
attach_times g [] = []
attach_times g (renew_step ∷ es) = []
attach_times g (attach_step h size since now ∷ es) =
    let rest = attach_times g es in if h == g then now ∷ rest else rest
attach_times g (e ∷ es) = attach_times g es

module _ (wrap : List ℕ → ℕ) (control : WindowSize → Result WindowSize) (scrollback_replay : Bool)
    (policy : SessionPolicy) where
  -- How many takeovers are granted, up to the next renewal.
  unfoldable pub takeovers_granted : Session → List Step → ℕ
  unfolding takes_over perform
  takeovers_granted s [] = 0
  takeovers_granted s (renew_step ∷ es) = 0
  takeovers_granted s (attach_step g size since now ∷ es) =
      let (attempt, s') = attach_locked wrap scrollback_replay policy s g size since now in
      one_if (takes_over s attempt) + takeovers_granted s' es
  takeovers_granted s (e ∷ es) =
      takeovers_granted (perform wrap control scrollback_replay policy s e) es

  -- An attach under the generation costs the budget one verdict, and a takeover needs a good one.
  attach_costs :
      (s : Session) (g : Generation) (size : WindowSize) (since : Option ℕ) (now : ℕ)
      → s.generation ≡ g
      → ((attach_locked wrap scrollback_replay policy s g size since now).1.generation ≡ g)
        × ((attach_locked wrap scrollback_replay policy s g size since now).1.takeovers
            ≡ (allow s.takeovers g now policy).1)
        × (one_if (takes_over s (attach_locked wrap scrollback_replay policy s g size since now).0)
            ≤ one_if (allow s.takeovers g now policy).0)
  unfolding attach_locked own takes_over
  attach_costs s g size since now e = ground arith

  attach_stale :
      (s : Session) (g : Generation) (size : WindowSize) (since : Option ℕ) (now : ℕ)
      → (s.generation == g) ≡ false
      → attach_locked wrap scrollback_replay policy s g size since now ≡ (stale_generation, s)
  unfolding attach_locked
  attach_stale s g size since now h = rw h refl

  -- No more takeovers than good verdicts.
  abbrev Costs : Generation → List Step → Session → Type 0
  Costs g es s = takeovers_granted s es ≤ granted s.takeovers policy g (attach_times g es)

  quiet :
      (g : Generation) (es : List Step) (s s' : Session)
      → Calm s s'
      → s.generation ≡ g
      → (s'.generation ≡ g → Costs g es s')
      → takeovers_granted s' es ≤ granted s.takeovers policy g (attach_times g es)
  quiet g es s s' (b, o) e ih =
      subst (λ l. takeovers_granted s' es ≤ granted l policy g (attach_times g es))
        (ap (λ (c : Budget). c.1) b) (ih (ap (λ (c : Budget). c.0) b ∙ e))

  -- One attach under the generation, and the rest.
  in_time :
      (g : Generation) (now : ℕ) (es : List Step) (s : Session) (size : WindowSize)
      (since : Option ℕ)
      → s.generation ≡ g
      → ((s' : Session) → s'.generation ≡ g → Costs g es s')
      → one_if (takes_over s (attach_locked wrap scrollback_replay policy s g size since now).0)
          + takeovers_granted (attach_locked wrap scrollback_replay policy s g size since now).1 es
        ≤ granted s.takeovers policy g (now ∷ attach_times g es)
  unfolding granted
  in_time g now es s size since e ih =
      let s' = (attach_locked wrap scrollback_replay policy s g size since now).1 in
      let c = attach_costs s g size since now e in
      let rest =
        subst (λ l. takeovers_granted s' es ≤ granted l policy g (attach_times g es)) c.1
          (ih s' c.0) in
      omega (arith, rest, c.2)

  -- An attach under another generation takes nothing over.
  out_of_time :
      (g h : Generation) (now : ℕ) (es : List Step) (s : Session) (size : WindowSize)
      (since : Option ℕ)
      → (s.generation == h) ≡ false
      → Costs g es s
      → one_if (takes_over s (attach_locked wrap scrollback_replay policy s h size since now).0)
          + takeovers_granted (attach_locked wrap scrollback_replay policy s h size since now).1 es
        ≤ granted s.takeovers policy g (attach_times g es)
  unfolding takes_over
  out_of_time g h now es s size since apart c =
      subst
        (λ (a : Attempt × Session).
          one_if (takes_over s a.0) + takeovers_granted a.1 es
          ≤ granted s.takeovers policy g (attach_times g es))
        (sym (attach_stale s h size since now apart)) (omega (arith, c))

  at_times :
      (g h : Generation) (now : ℕ) (es : List Step) (s : Session) (size : WindowSize)
      (since : Option ℕ)
      → s.generation ≡ g
      → ((s' : Session) → s'.generation ≡ g → Costs g es s')
      → Costs g (attach_step h size since now ∷ es) s
  unfolding attach_times takeovers_granted
  at_times g h now es s size since e ih =
      Bool-split (Fits h) (h == g)
        (λ same.
          subst (λ n. Fits n (now ∷ attach_times g es)) (sym ((==_iff h g).0 same))
            (in_time g now es s size since e ih))
        (λ apart. out_of_time g h now es s size since (ground (arith, apart, e)) (ih s e))
    where
      Fits : Generation → List ℕ → Type 0
      Fits n ts =
          one_if (takes_over s (attach_locked wrap scrollback_replay policy s n size since now).0)
            + takeovers_granted (attach_locked wrap scrollback_replay policy s n size since now).1
                es
          ≤ granted s.takeovers policy g ts

  costs : (g : Generation) (es : List Step) (s : Session) → s.generation ≡ g → Costs g es s
  unfolding attach_times takeovers_granted granted
  costs g [] s e = omega arith
  costs g (renew_step ∷ es) s e = omega arith
  costs g (attach_step h size since now ∷ es) s e =
      at_times g h now es s size since e (λ s' f. costs g es s' f)
  costs g (step ∷ es) s e =
      quiet g es s _ (perform-IsCalm wrap control scrollback_replay policy s step) e (costs g es _)

  -- A session whose first attach under its generation is still to come.
  abbrev IsNew : Generation → (start : ℕ) → Session → Type 0
  IsNew g start s = (s.generation ≡ g) × (s.takeovers ≡ new g start) × (s.owner_conn ≡ 0)

  stays-IsNew :
      (g : Generation) (start : ℕ) (s s' : Session) → Calm s s' → IsNew g start s → IsNew g start s'
  stays-IsNew g start s s' (b, o) (e, l, u) =
      (ap (λ (c : Budget). c.0) b ∙ e, ap (λ (c : Budget). c.1) b ∙ l, o u)

  -- The first attach evicts nobody, and its verdict is free.
  first_attach :
      (g : Generation) (start : ℕ) (s : Session) (size : WindowSize) (since : Option ℕ) (now : ℕ)
      → IsNew g start s
      → ((attach_locked wrap scrollback_replay policy s g size since now).1.generation ≡ g)
        × ((attach_locked wrap scrollback_replay policy s g size since now).1.takeovers
            ≡ record (new g start) { first_attach_of_generation = false })
        × (takes_over s (attach_locked wrap scrollback_replay policy s g size since now).0 ≡ false)
  unfolding attach_locked own takes_over allow new
  first_attach g start s size since now (e, l, u) = ground (arith, e, l, u)

  -- What a new session grants from its first attach on.
  from_first :
      (g : Generation) (start end now : ℕ) (es : List Step) (s : Session) (size : WindowSize)
      (since : Option ℕ)
      → IsNew g start s
      → Within end start (now ∷ attach_times g es)
      → (one_if (takes_over s (attach_locked wrap scrollback_replay policy s g size since now).0)
            + takeovers_granted
                (attach_locked wrap scrollback_replay policy s g size since now).1
                es)
          * policy.takeover_window
        ≤ policy.max_takeovers_per_window * ((end - start) + policy.takeover_window)
  unfolding new
  from_first g start end now es s size since n (later le w) =
      let s' = (attach_locked wrap scrollback_replay policy s g size since now).1 in
      let l = record (new g start) { first_attach_of_generation = false } in
      let (e, b, free) = first_attach g start s size since now n in
      let c = mul_mono policy.takeover_window (
        subst (λ k. takeovers_granted s' es ≤ granted k policy g (attach_times g es)) b
          (costs g es s' e)) in
      let d = later_granted policy end l g now (attach_times g es) refl refl (omega arith) le w in
      subst
        (λ t.
          (one_if t + takeovers_granted s' es) * policy.takeover_window
          ≤ policy.max_takeovers_per_window * ((end - start) + policy.takeover_window))
        (sym free) (omega (arith, c, d))

  new_bound :
      (g : Generation) (start end : ℕ) (es : List Step) (s : Session)
      → IsNew g start s
      → Within end start (attach_times g es)
      → takeovers_granted s es * policy.takeover_window
        ≤ policy.max_takeovers_per_window * ((end - start) + policy.takeover_window)
  unfolding attach_times takeovers_granted takes_over
  new_bound g start end [] s n w = omega arith
  new_bound g start end (renew_step ∷ es) s n w = omega arith
  new_bound g start end (attach_step h size since now ∷ es) s n w = elim (Bool-cases (h == g)) [
    | inl same ↦
        subst
          (λ k.
            (one_if
                  (takes_over s (attach_locked wrap scrollback_replay policy s k size since now).0)
                + takeovers_granted
                    (attach_locked wrap scrollback_replay policy s k size since now).1 es)
              * policy.takeover_window
            ≤ policy.max_takeovers_per_window * ((end - start) + policy.takeover_window))
          (sym ((==_iff h g).0 same))
          (from_first g start end now es s size since n (
            subst (Within end start)
              (ap (λ t. if t then now ∷ attach_times g es else attach_times g es) same) w))
    | inr apart ↦
        let c = new_bound g start end es s n (
          subst (Within end start)
            (ap (λ t. if t then now ∷ attach_times g es else attach_times g es) apart) w) in
        subst
          (λ (a : Attempt × Session).
            (one_if (takes_over s a.0) + takeovers_granted a.1 es) * policy.takeover_window
            ≤ policy.max_takeovers_per_window * ((end - start) + policy.takeover_window))
          (sym (attach_stale s h size since now (ground (arith, apart, n)))) (omega (arith, c))
  ]
  new_bound g start end (step ∷ es) s n w =
      let s' = perform wrap control scrollback_replay policy s step in
      new_bound g start end es s'
        (stays-IsNew g start s s' (perform-IsCalm wrap control scrollback_replay policy s step) n) w

  -- A session from its start, through any interleaving of steps, its attaches at times in order up
  -- to some end: until the next renewal, the number of attaches that take it from an owner, times
  -- the window, is at most the maximum per window times the span from the start to that end and
  -- one window more.
  pub takeovers_bound :
      (name : SessionName) (generation : Generation) (size : WindowSize) (start kib : ℕ)
      (filters best_effort : Bool) (limit : ℕ) (es : List Step) (end : ℕ)
      → Within end start (attach_times generation es)
      → takeovers_granted (fresh name generation size start kib filters best_effort limit) es
          * policy.takeover_window
        ≤ policy.max_takeovers_per_window * ((end - start) + policy.takeover_window)
  unfolding fresh
  takeovers_bound name generation size start kib filters best_effort limit es end w =
      new_bound generation start end es
        (fresh name generation size start kib filters best_effort limit) (refl, refl, refl) w
