-- ===== src/Scan/Inv.antt =====
-- Invariants of the loop of Scan, and of the recursion that it is equal to.
use mathlib.Core.Path.{subst}
use native.Mathlib.Decide.{dec_lt, ℕ_discrete}
use openab_pty.Base.{
  ℕ, zero, suc, ◌+◌, ◌≡◌, refl, sym, ap, inl, inr, Option, none, some, List, [], ◌∷◌, ◌++◌, length,
  take, drop, get_or, arith, Bool-cases,
}
use openab_pty.Scan.{
  esc, Verdict, cut, pass, unknown, Cow, borrowed, owned, contains, slice, or_empty, scan, finish,
  run,
}
use openab_pty.Scan.Spec.{spec, spec_plain, spec-look, scan_end, scan_plain, scan-look}
use openab_pty.Scan.Run.{strip}

module _ {S : Type 0} (look : S → List ℕ → S × Verdict) where
  -- A property of the copy and the state, kept by each kind of step.
  abbrev pub Kept : (Option (List ℕ) → S → Type 0) → Option (List ℕ) → S → Verdict → Type 0
  Kept Q out s (cut n) = (o : List ℕ) → Q (some o) s
  Kept Q out s (pass n) = Q out s
  Kept Q out s unknown = Q out s

  module _ (Q : Option (List ℕ) → S → Type 0)
      (step : (out : Option (List ℕ)) (s : S) (l : List ℕ)
        → Q out s
        → Kept Q out (look s l).0 (look s l).1) where
    abbrev Holds : ℕ × Option (List ℕ) × S → Type 0
    Holds r = Q r.1 r.2

    scan_inv :
        (f : ℕ) (chunk : List ℕ) (i c : ℕ) (out : Option (List ℕ)) (s : S)
        → Q out s
        → Holds (scan look f chunk i c out s)
    unfolding scan
    scan_inv zero chunk i c out s h = h
    scan_inv (suc f) chunk i c out s h = elim (dec_lt i (length chunk)) [
      | no done ↦ subst Holds (sym (scan_end look chunk f i c out s (omega arith))) h
      | yes more ↦ elim (ℕ_discrete (get_or chunk i 0) esc) [
        | no ne ↦
            subst Holds (sym (scan_plain look chunk f i c out s more ne))
              (scan_inv f chunk (i + 1) c out s h)
        | yes e ↦ subst Holds (sym (scan-look look chunk f i c out s _ _ more e refl)) (
            looked (look s (drop i chunk)).0 (look s (drop i chunk)).1 (step out s (drop i chunk) h)
              (scan_inv f chunk))
      ]
    ]
      where
        looked :
            (s' : S) (v : Verdict)
            → Kept Q out s' v
            → ((i c : ℕ) (out : Option (List ℕ)) (s : S)
                → Q out s
                → Holds (scan look f chunk i c out s))
            → Holds (elim v [
              | cut len ↦
                  scan look f chunk (i + len) (i + len) (some (or_empty out ++ slice chunk c i)) s'
              | pass len ↦ scan look f chunk (i + len) c out s'
              | unknown ↦ scan look f chunk (i + 1) c out s'
            ])
        looked s' (cut len) k ih = ih _ _ _ s' (k _)
        looked s' (pass len) k ih = ih _ _ _ s' k
        looked s' unknown k ih = ih _ _ _ s' k

    -- At the end: the state, and whether there is a copy.
    abbrev pub Result : Cow × S → Type 0
    Result (borrowed b, s) = Q none s
    Result (owned b, s) = (o : List ℕ) × Q (some o) s

    finished :
        (chunk : List ℕ) (c : ℕ) (out : Option (List ℕ)) (s : S)
        → Q out s
        → Result (finish look chunk (c, out, s))
    unfolding finish
    finished chunk c none s h = h
    finished chunk c (some out) s h = (out, h)

    pub run_inv : (chunk : List ℕ) (s : S) → Q none s → Result (run look chunk s)
    unfolding run
    run_inv chunk s h = elim (Bool-cases (contains esc chunk)) [
      | inl e ↦
          rw (e, run) (finished chunk _ _ _ (scan_inv (suc (length chunk)) chunk 0 0 none s h))
      | inr e ↦ rw (e, run) h
    ]

  -- Two states that no look tells apart leave the same bytes, and stay so related.
  module _ (R : S → S → Type 0)
      (step : (s t : S) (l : List ℕ)
        → R s t
        → R (look s l).0 (look t l).0 × ((look s l).1 ≡ (look t l).1)) where
    spec_rel :
        (f : ℕ) (l : List ℕ) (s t : S)
        → R s t
        → ((spec look f l s).0 ≡ (spec look f l t).0) × R (spec look f l s).1 (spec look f l t).1
    unfolding spec
    spec_rel zero l s t h = (refl, h)
    spec_rel (suc f) [] s t h = (refl, h)
    spec_rel (suc f) (x ∷ xs) s t h = elim (ℕ_discrete x esc) [
      | no ne ↦
          rw (spec_plain look f x xs s ne, spec_plain look f x xs t ne)
            (ap (◌∷◌ x) (spec_rel f xs s t h).0, (spec_rel f xs s t h).1)
      | yes e ↦
          let (r, q) = step s t (x ∷ xs) h in
          rw (spec-look look f x xs s _ _ e refl, spec-look look f x xs t _ _ e refl)
            (rw q
              (looked (look s (x ∷ xs)).0 (look t (x ∷ xs)).0 (look t (x ∷ xs)).1 r (spec_rel f)))
    ]
      where
        after : S → Verdict → List ℕ × S
        after s' v = elim v [
          | cut len ↦ spec look f (drop len (x ∷ xs)) s'
          | pass len ↦
              let (kept, s'') = spec look f (drop len (x ∷ xs)) s' in
              (take len (x ∷ xs) ++ kept, s'')
          | unknown ↦ let (kept, s'') = spec look f xs s' in (x ∷ kept, s'')
        ]

        looked :
            (s' t' : S) (v : Verdict)
            → R s' t'
            → ((l : List ℕ) (s t : S)
                → R s t
                → ((spec look f l s).0 ≡ (spec look f l t).0)
                  × R (spec look f l s).1 (spec look f l t).1)
            → ((after s' v).0 ≡ (after t' v).0) × R (after s' v).1 (after t' v).1
        looked s' t' (cut len) r ih = ih (drop len (x ∷ xs)) s' t' r
        looked s' t' (pass len) r ih =
            let (a, b) = ih (drop len (x ∷ xs)) s' t' r in (ap (◌++◌ (take len (x ∷ xs))) a, b)
        looked s' t' unknown r ih = let (a, b) = ih xs s' t' r in (ap (◌∷◌ x) a, b)

    pub strip_rel :
        (l : List ℕ) (s t : S)
        → R s t
        → ((strip look l s).0 ≡ (strip look l t).0) × R (strip look l s).1 (strip look l t).1
    unfolding strip
    strip_rel l s t h = spec_rel (suc (length l)) l s t h
