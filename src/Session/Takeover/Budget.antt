-- ===== src/Session/Takeover/Budget.antt =====
-- What the takeover budget (`TakeoverLimiter` of runtime/src/session.rs) allows.
use mathlib.Core.Path.{subst}
use openab_pty.Base.{
  ℕ, ◌+◌, ◌-◌, ◌*◌, ◌≤◌, ◌<◌, ◌≡◌, ◌∙◌, sym, ◌≢◌, ◌↔◌, inl, inr, List, [], ◌∷◌, arith, Bool, true,
  false, if◌then◌else◌, leb, Bool-cases,
}
use openab_pty.Session.Policy.{SessionPolicy}
use openab_pty.Session.Takeover.{TakeoverLimiter, roll, charge, allow}

-- The first attach under a new generation passes, whatever the old generation had used up.
pub allow_new_generation :
    (l : TakeoverLimiter) (generation now : ℕ) (policy : SessionPolicy)
    → l.generation ≢ generation
    → (allow l generation now policy).0 ≡ true
unfolding allow
allow_new_generation l generation now policy h = ground arith

-- Within its generation and after its first attach, a limiter whose budget is not zero refuses
-- exactly if the window of `now` is still the old one and has used the budget up.
pub allow_refuses :
    (l : TakeoverLimiter) (now : ℕ) (policy : SessionPolicy)
    → 1 ≤ policy.max_takeovers_per_window
    → l.first_attach_of_generation ≡ false
    → ((allow l l.generation now policy).0 ≡ false) ↔ (
        (now - l.window_start < policy.takeover_window)
        × (policy.max_takeovers_per_window ≤ l.count))
unfolding allow
allow_refuses l now policy h e = ground arith

-- How many verdicts of `allow` at the times `ts`, under one generation, are good. An attach that takes
-- the session from nobody ignores its verdict.
unfoldable pub granted : TakeoverLimiter → SessionPolicy → (generation : ℕ) → List ℕ → ℕ
granted l policy generation [] = 0
granted l policy generation (t ∷ ts) =
    (if (allow l generation t policy).0 then 1 else 0)
    + granted (allow l generation t policy).1 policy generation ts

-- Times in order, all from `start` to `end`.
pub data Within (end : ℕ) : (start : ℕ) → List ℕ → Type 0 where
  done : {start : ℕ} → start ≤ end → Within end start []
  later : {start t : ℕ} {ts : List ℕ} → start ≤ t → Within end t ts → Within end start (t ∷ ts)

abbrev pub one_if : Bool → ℕ
one_if b = if b then 1 else 0

charge_bound :
    (l : TakeoverLimiter) (policy : SessionPolicy)
    → l.count ≤ policy.max_takeovers_per_window
    → ((charge l policy).1.count ≡ l.count + one_if (charge l policy).0)
      × ((charge l policy).1.count ≤ policy.max_takeovers_per_window)
      × ((charge l policy).1.window_start ≡ l.window_start)
      × ((charge l policy).1.generation ≡ l.generation)
      × ((charge l policy).1.first_attach_of_generation ≡ l.first_attach_of_generation)
unfolding charge
charge_bound l policy h = ground arith

allow-charge :
    (l : TakeoverLimiter) (t g : ℕ) (policy : SessionPolicy)
    → l.generation ≡ g
    → l.first_attach_of_generation ≡ false
    → allow l g t policy ≡ charge (roll l t policy) policy
unfolding allow
allow-charge l t g policy e f = ground arith

pub mul_mono : {a b : ℕ} (c : ℕ) → a ≤ b → a * c ≤ b * c
mul_mono {a} {b} c h = grind arith

roll_arith :
    (w m c p q g b : ℕ)
    → w ≤ p
    → c ≤ m
    → (g + b) * w ≤ m * (q + w)
    → (b + g + c) * w ≤ m * ((p + q) + w)
roll_arith w m c p q g b hw hc h = omega (arith, mul_mono w hc, mul_mono m hw)

split_span : {s t e : ℕ} → s ≤ t → t ≤ e → (t - s) + (e - t) ≡ e - s
split_span h k = omega arith

le_end : {end start : ℕ} {ts : List ℕ} → Within end start ts → start ≤ end
le_end (done h) = h
le_end (later h r) = let k = le_end r in omega arith

roll_window :
    (w m c g b : ℕ) {s t e : ℕ}
    → s ≤ t
    → t ≤ e
    → w ≤ t - s
    → c ≤ m
    → (g + b) * w ≤ m * ((e - t) + w)
    → (b + g + c) * w ≤ m * ((e - s) + w)
roll_window w m c g b {s} {t} {e} hs ht hw hc h =
    subst (λ z. (b + g + c) * w ≤ m * (z + w)) (split_span hs ht)
      (roll_arith w m c (t - s) (e - t) g b hw hc h)

-- What one attach does to the window, and what it needs of the rest.
charged :
    (l : TakeoverLimiter) (policy : SessionPolicy) (t end g : ℕ)
    → l.count ≤ policy.max_takeovers_per_window
    → l.window_start ≤ t
    → t ≤ end
    → (g + (charge (roll l t policy) policy).1.count) * policy.takeover_window
      ≤ policy.max_takeovers_per_window
        * ((end - (charge (roll l t policy) policy).1.window_start) + policy.takeover_window)
    → (one_if (charge (roll l t policy) policy).0 + g + l.count) * policy.takeover_window
      ≤ policy.max_takeovers_per_window * ((end - l.window_start) + policy.takeover_window)
unfolding roll charge
charged l policy t end g hc hs he h =
    elim (Bool-cases (leb policy.takeover_window (t - l.window_start))) [
      | inl e ↦ elim (Bool-cases (leb policy.max_takeovers_per_window 0)) [
        | inl f ↦ ground (
          arith,
          roll_window policy.takeover_window policy.max_takeovers_per_window l.count g 0 hs he,
        )
        | inr f ↦ ground (
          arith,
          roll_window policy.takeover_window policy.max_takeovers_per_window l.count g 1 hs he,
        )
      ]
      | inr e ↦ elim (Bool-cases (leb policy.max_takeovers_per_window l.count)) [
        | inl f ↦ ground arith
        | inr f ↦ ground arith
      ]
    ]

roll-charge_stays :
    (l : TakeoverLimiter) (policy : SessionPolicy) (t : ℕ)
    → l.count ≤ policy.max_takeovers_per_window
    → l.window_start ≤ t
    → ((charge (roll l t policy) policy).1.count ≤ policy.max_takeovers_per_window)
      × ((charge (roll l t policy) policy).1.window_start ≤ t)
      × ((charge (roll l t policy) policy).1.generation ≡ l.generation)
      × ((charge (roll l t policy) policy).1.first_attach_of_generation
          ≡ l.first_attach_of_generation)
unfolding roll charge
roll-charge_stays l policy t h k = ground arith

abbrev pub Bound : (policy : SessionPolicy) (end : ℕ) → TakeoverLimiter → ℕ → Type 0
Bound policy end l n =
    (n + l.count) * policy.takeover_window
    ≤ policy.max_takeovers_per_window * ((end - l.window_start) + policy.takeover_window)

pub later_granted :
    (policy : SessionPolicy) (end : ℕ) (l : TakeoverLimiter) (g from : ℕ) (ts : List ℕ)
    → l.generation ≡ g
    → l.first_attach_of_generation ≡ false
    → l.count ≤ policy.max_takeovers_per_window
    → l.window_start ≤ from
    → Within end from ts
    → Bound policy end l (granted l policy g ts)
unfolding granted
later_granted policy end l g from [] gen e hc hs w =
    let b = mul_mono policy.takeover_window hc in omega arith
later_granted policy end l g from (t ∷ ts) gen e hc hs (later h w) =
    let s = roll-charge_stays l policy t hc (omega arith) in
    let n = charge (roll l t policy) policy in
    let r = later_granted policy end n.1 g t ts (s.2 ∙ gen) (s.3 ∙ e) s.0 s.1 w in
    subst
      (λ a.
        (one_if a.0 + granted a.1 policy g ts + l.count) * policy.takeover_window
        ≤ policy.max_takeovers_per_window * ((end - l.window_start) + policy.takeover_window))
      (sym (allow-charge l t g policy gen e))
      (charged l policy t end (granted n.1 policy g ts) hc (omega arith) (le_end w) r)
