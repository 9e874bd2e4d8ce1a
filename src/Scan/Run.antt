-- ===== src/Scan/Run.antt =====
-- What a whole pass over a chunk leaves, for any recogniser that stays inside the slice.
use mathlib.Core.Path.{subst}
use native.Mathlib.Decide.{dec_lt, ℕ_discrete}
use openab_pty.Base.{
  ℕ, zero, suc, ◌+◌, ◌≤◌, ◌<◌, ◌≡◌, ◌≢◌, refl, sym, ap, ◌∙◌, inl, inr, false, Option, none, some,
  List, [], ◌∷◌, ◌++◌, length, take, drop, get_or, arith, length-drop, Bool-cases,
}
use openab_pty.Scan.{
  esc, Verdict, cut, pass, unknown, borrowed, bytes, contains, slice, or_empty, scan, finish, run,
}
use openab_pty.Scan.Spec.{
  Fits, spec, spec_plain, spec-look, kept, walks, scan_end, scan_plain, scan-look,
}

module _ {S : Type 0} (look : S → List ℕ → S × Verdict) where
  -- Nothing has been copied while there is no copy.
  abbrev Aligned : ℕ → Option (List ℕ) → Type 0
  Aligned c none = c ≡ 0
  Aligned c (some out) = Unit

  abbrev IsAligned : ℕ × Option (List ℕ) × S → Type 0
  IsAligned r = Aligned r.0 r.1

  scan-Aligned :
      (f : ℕ) (chunk : List ℕ) (i c : ℕ) (out : Option (List ℕ)) (s : S)
      → Aligned c out
      → IsAligned (scan look f chunk i c out s)
  unfolding scan
  scan-Aligned zero chunk i c out s h = h
  scan-Aligned (suc f) chunk i c out s h = elim (dec_lt i (length chunk)) [
    | no done ↦ subst IsAligned (sym (scan_end look chunk f i c out s (omega arith))) h
    | yes more ↦ elim (ℕ_discrete (get_or chunk i 0) esc) [
      | no ne ↦
          subst IsAligned (sym (scan_plain look chunk f i c out s more ne))
            (scan-Aligned f chunk (i + 1) c out s h)
      | yes e ↦
          subst IsAligned (sym (scan-look look chunk f i c out s _ _ more e refl))
            (looked (look s (drop i chunk)).0 (look s (drop i chunk)).1 (scan-Aligned f chunk))
    ]
  ]
    where
      looked :
          (s' : S) (v : Verdict)
          → ((i c : ℕ) (out : Option (List ℕ)) (s : S)
              → Aligned c out
              → IsAligned (scan look f chunk i c out s))
          → IsAligned (elim v [
            | cut len ↦
                scan look f chunk (i + len) (i + len) (some (or_empty out ++ slice chunk c i)) s'
            | pass len ↦ scan look f chunk (i + len) c out s'
            | unknown ↦ scan look f chunk (i + 1) c out s'
          ])
      looked s' (cut len) ih = ih _ _ _ s' tt
      looked s' (pass len) ih = ih _ _ _ s' h
      looked s' unknown ih = ih _ _ _ s' h

  finish_lem :
      (chunk : List ℕ) (c : ℕ) (out : Option (List ℕ)) (s : S)
      → Aligned c out
      → (bytes (finish look chunk (c, out, s)).0, (finish look chunk (c, out, s)).1)
        ≡ kept look chunk (c, out, s)
  unfolding finish
  finish_lem chunk c none s h = rw h
  finish_lem chunk c (some out) s h = refl

  -- A chunk without ESC is left alone.
  spec_no_esc : (f : ℕ) (l : List ℕ) (s : S) → contains esc l ≡ false → spec look f l s ≡ (l, s)
  unfolding contains spec
  spec_no_esc zero l s h = refl
  spec_no_esc (suc f) [] s h = refl
  spec_no_esc (suc f) (x ∷ xs) s h = ground (arith, spec_no_esc f xs s)

  module _ (sane : (s : S) (l : List ℕ) → Fits l (look s l).1) where
    -- What one pass leaves, lazily copied or not, is what the plain recursion keeps.
    pub run_lem :
        (chunk : List ℕ) (s : S)
        → (bytes (run look chunk s).0, (run look chunk s).1)
          ≡ spec look (suc (length chunk)) chunk s
    unfolding run
    run_lem chunk s = elim (Bool-cases (contains esc chunk)) [
      | inl e ↦ rw e (
          finish_lem chunk _ _ _ (scan-Aligned (suc (length chunk)) chunk 0 0 none s refl)
          ∙ walks look chunk sane (suc (length chunk)) 0 0 none s (omega arith) (omega arith)
              (omega arith))
      | inr e ↦ rw e (sym (spec_no_esc (suc (length chunk)) chunk s e))
    ]

    -- More rounds than bytes change nothing.
    pub spec_fuel :
        (f g : ℕ) (l : List ℕ) (s : S)
        → length l < f
        → length l < g
        → spec look f l s ≡ spec look g l s
    unfolding spec
    spec_fuel zero g l s a b = absurd (omega arith)
    spec_fuel (suc f) zero l s a b = absurd (omega arith)
    spec_fuel (suc f) (suc g) [] s a b = refl
    spec_fuel (suc f) (suc g) (x ∷ xs) s a b = elim (ℕ_discrete x esc) [
      | no ne ↦
          rw (spec_plain look f x xs s ne, spec_plain look g x xs s ne)
            (ap (λ r. (x ∷ r.0, r.1)) (spec_fuel f g xs s (omega arith) (omega arith)))
      | yes e ↦
          spec-look look f x xs s _ _ e refl
          ∙ looked (look s (x ∷ xs)).0 (look s (x ∷ xs)).1 (sane s (x ∷ xs)) (spec_fuel f g)
          ∙ sym (spec-look look g x xs s _ _ e refl)
    ]
      where
        looked :
            (s' : S) (v : Verdict)
            → Fits (x ∷ xs) v
            → ((l : List ℕ) (s : S)
                → length l < f
                → length l < g
                → spec look f l s ≡ spec look g l s)
            → ◌≡◌ {A = List ℕ × S}
                (elim v [
                  | cut len ↦ spec look f (drop len (x ∷ xs)) s'
                  | pass len ↦
                      let (kept, s'') = spec look f (drop len (x ∷ xs)) s' in
                      (take len (x ∷ xs) ++ kept, s'')
                  | unknown ↦ let (kept, s'') = spec look f xs s' in (x ∷ kept, s'')
                ])
                (elim v [
                  | cut len ↦ spec look g (drop len (x ∷ xs)) s'
                  | pass len ↦
                      let (kept, s'') = spec look g (drop len (x ∷ xs)) s' in
                      (take len (x ∷ xs) ++ kept, s'')
                  | unknown ↦ let (kept, s'') = spec look g xs s' in (x ∷ kept, s'')
                ])
        looked s' (cut len) fits ih =
            ih (drop len (x ∷ xs)) s' (omega (arith, length-drop len (x ∷ xs)))
              (omega (arith, length-drop len (x ∷ xs)))
        looked s' (pass len) fits ih =
            ap (λ r. (take len (x ∷ xs) ++ r.0, r.1))
              (ih (drop len (x ∷ xs)) s' (omega (arith, length-drop len (x ∷ xs)))
                (omega (arith, length-drop len (x ∷ xs))))
        looked s' unknown fits ih = ap (λ r. (x ∷ r.0, r.1)) (ih xs s' (omega arith) (omega arith))

-- One pass over a chunk as a recursion, with as many rounds as it takes.
unfoldable pub strip : {S : Type 0} (look : S → List ℕ → S × Verdict) → List ℕ → S → List ℕ × S
strip look l s = spec look (suc (length l)) l s

module _ {S : Type 0} (look : S → List ℕ → S × Verdict) where
  module _ (sane : (s : S) (l : List ℕ) → Fits l (look s l).1) where
    pub run-eq-strip :
        (chunk : List ℕ) (s : S)
        → (bytes (run look chunk s).0, (run look chunk s).1) ≡ strip look chunk s
    unfolding strip
    run-eq-strip chunk s = run_lem look sane chunk s

    pub strip_nil : (s : S) → strip look [] s ≡ ([], s)
    unfolding strip spec
    strip_nil s = refl

    pub strip_plain :
        (x : ℕ) (xs : List ℕ) (s : S)
        → x ≢ esc
        → strip look (x ∷ xs) s ≡ (x ∷ (strip look xs s).0, (strip look xs s).1)
    unfolding strip
    strip_plain x xs s ne = spec_plain look (suc (length xs)) x xs s ne

    pub strip_unknown :
        (x : ℕ) (xs : List ℕ) (s s' : S)
        → x ≡ esc
        → look s (x ∷ xs) ≡ (s', unknown)
        → strip look (x ∷ xs) s ≡ (x ∷ (strip look xs s').0, (strip look xs s').1)
    unfolding strip
    strip_unknown x xs s s' e l = spec-look look (suc (length xs)) x xs s s' unknown e l

    shorter :
        (n : ℕ) (x : ℕ) (xs : List ℕ) (s : S)
        → 1 ≤ n
        → spec look (suc (length xs)) (drop n (x ∷ xs)) s ≡ strip look (drop n (x ∷ xs)) s
    unfolding strip
    shorter n x xs s h =
        spec_fuel look sane (suc (length xs)) (suc (length (drop n (x ∷ xs)))) (drop n (x ∷ xs)) s
          (omega (arith, length-drop n (x ∷ xs))) (omega arith)

    pub strip_cut :
        (x : ℕ) (xs : List ℕ) (s s' : S) (n : ℕ)
        → x ≡ esc
        → look s (x ∷ xs) ≡ (s', cut n)
        → strip look (x ∷ xs) s ≡ strip look (drop n (x ∷ xs)) s'
    unfolding strip
    strip_cut x xs s s' n e l =
        spec-look look (suc (length xs)) x xs s s' (cut n) e l
        ∙ shorter n x xs s' (rw (ap (λ r. r.1) l) at (sane s (x ∷ xs))).0

    pub strip_pass :
        (x : ℕ) (xs : List ℕ) (s s' : S) (n : ℕ)
        → x ≡ esc
        → look s (x ∷ xs) ≡ (s', pass n)
        → strip look (x ∷ xs) s ≡ (
          take n (x ∷ xs) ++ (strip look (drop n (x ∷ xs)) s').0,
          (strip look (drop n (x ∷ xs)) s').1,
        )
    unfolding strip
    strip_pass x xs s s' n e l =
        spec-look look (suc (length xs)) x xs s s' (pass n) e l
        ∙ ap (λ r. (take n (x ∷ xs) ++ r.0, r.1))
            (shorter n x xs s' (rw (ap (λ r. r.1) l) at (sane s (x ∷ xs))).0)

  pub strip_no_esc : (l : List ℕ) (s : S) → contains esc l ≡ false → strip look l s ≡ (l, s)
  unfolding strip
  strip_no_esc l s h = spec_no_esc look (suc (length l)) l s h

  pub run_no_esc : (l : List ℕ) (s : S) → contains esc l ≡ false → run look l s ≡ (borrowed l, s)
  unfolding run
  run_no_esc l s h = rw h
