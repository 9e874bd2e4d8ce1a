-- ===== src/Scan/Spec.antt =====
-- The loop of Scan against a plain recursion on the chunk.
use native.Mathlib.Decide.{dec_lt, ℕ_discrete}
use openab_pty.Base.{
  ℕ, zero, suc, ◌+◌, ◌-◌, ◌≤◌, ◌<◌, ◌≡◌, ◌≢◌, refl, sym, ap, ◌∙◌, true, false, Option, some, List,
  [], ◌∷◌, ◌++◌, length, take, drop, get_or, ◌==◌, arith, drop_all, drop-drop, length-drop,
  append_assoc, append-nil, take-append-drop, take-add, drop-cons,
}
use openab_pty.Scan.{esc, Verdict, cut, pass, unknown, slice, or_empty, scan}

-- A recognised sequence has a byte at least, and does not reach past the slice.
abbrev pub Fits : List ℕ → Verdict → Type 0
Fits l (cut len) = (1 ≤ len) × (len ≤ length l)
Fits l (pass len) = (1 ≤ len) × (len ≤ length l)
Fits l unknown = Unit

slice_more :
    (xs : List ℕ) (c i n : ℕ)
    → c ≤ i
    → i ≤ length xs
    → slice xs c (i + n) ≡ slice xs c i ++ take n (drop i xs)
slice_more xs c i n a b =
    let e : i + n - c ≡ i - c + n = omega arith in
    let f : c + (i - c) ≡ i = omega arith in
    ap (λ k. take k (drop c xs)) e
    ∙ take-add (i - c) n (drop c xs)
    ∙ ap (λ l. slice xs c i ++ take n l) (drop-drop (i - c) c xs ∙ ap (λ k. drop k xs) f)

module _ {S : Type 0} (look : S → List ℕ → S × Verdict) where
  -- The same walk, as a recursion on what is left of the chunk.
  unfoldable pub spec : ℕ → List ℕ → S → List ℕ × S
  spec zero rest s = (rest, s)
  spec (suc fuel) [] s = ([], s)
  spec (suc fuel) (x ∷ xs) s = elim (x == esc) [
    | false ↦ let (kept, s') = spec fuel xs s in (x ∷ kept, s')
    | true ↦
        let (s', v) = look s (x ∷ xs) in
        elim v [
          | cut len ↦ spec fuel (drop len (x ∷ xs)) s'
          | pass len ↦
              let (kept, s'') = spec fuel (drop len (x ∷ xs)) s' in (take len (x ∷ xs) ++ kept, s'')
          | unknown ↦ let (kept, s'') = spec fuel xs s' in (x ∷ kept, s'')
        ]
  ]

  -- What the loop has kept, with what it has not copied yet.
  abbrev pub kept : List ℕ → ℕ × Option (List ℕ) × S → List ℕ × S
  kept chunk (c, out, s) = (or_empty out ++ drop c chunk, s)

  module _ (chunk : List ℕ) where
    pub scan_end :
        (f i c : ℕ) (out : Option (List ℕ)) (s : S)
        → length chunk ≤ i
        → scan look (suc f) chunk i c out s ≡ (c, out, s)
    unfolding scan
    scan_end f i c out s h = ground arith

    pub scan_plain :
        (f i c : ℕ) (out : Option (List ℕ)) (s : S)
        → i < length chunk
        → get_or chunk i 0 ≢ esc
        → scan look (suc f) chunk i c out s ≡ scan look f chunk (i + 1) c out s
    unfolding scan
    scan_plain f i c out s h ne = ground arith

    pub scan-look :
        (f i c : ℕ) (out : Option (List ℕ)) (s s' : S) (v : Verdict)
        → i < length chunk
        → get_or chunk i 0 ≡ esc
        → look s (drop i chunk) ≡ (s', v)
        → scan look (suc f) chunk i c out s ≡ elim v [
          | cut len ↦
              scan look f chunk (i + len) (i + len) (some (or_empty out ++ slice chunk c i)) s'
          | pass len ↦ scan look f chunk (i + len) c out s'
          | unknown ↦ scan look f chunk (i + 1) c out s'
        ]
    unfolding scan
    scan-look f i c out s s' (cut len) h e l = ground arith
    scan-look f i c out s s' (pass len) h e l = ground arith
    scan-look f i c out s s' unknown h e l = ground arith

  pub spec_plain :
      (f x : ℕ) (xs : List ℕ) (s : S)
      → x ≢ esc
      → spec (suc f) (x ∷ xs) s ≡ ((x ∷ (spec f xs s).0), (spec f xs s).1)
  unfolding spec
  spec_plain f x xs s ne = ground arith

  pub spec-look :
      (f x : ℕ) (xs : List ℕ) (s s' : S) (v : Verdict)
      → x ≡ esc
      → look s (x ∷ xs) ≡ (s', v)
      → spec (suc f) (x ∷ xs) s ≡ elim v [
        | cut len ↦ spec f (drop len (x ∷ xs)) s'
        | pass len ↦
            let (kept, s'') = spec f (drop len (x ∷ xs)) s' in (take len (x ∷ xs) ++ kept, s'')
        | unknown ↦ let (kept, s'') = spec f xs s' in (x ∷ kept, s'')
      ]
  unfolding spec
  spec-look f x xs s s' (cut len) e l = ground arith
  spec-look f x xs s s' (pass len) e l = ground arith
  spec-look f x xs s s' unknown e l = ground arith

slice_rest : (xs : List ℕ) (c i : ℕ) → c ≤ i → slice xs c i ++ drop i xs ≡ drop c xs
slice_rest xs c i h =
    let f : c + (i - c) ≡ i = omega arith in
    ap (λ l. slice xs c i ++ l) (sym (drop-drop (i - c) c xs ∙ ap (λ k. drop k xs) f))
    ∙ take-append-drop (i - c) (drop c xs)

-- Passing over `n` bytes moves them from what is left to what is kept.
advance :
    (out xs rest : List ℕ) (c i n : ℕ)
    → c ≤ i
    → i ≤ length xs
    → (out ++ slice xs c (i + n)) ++ rest ≡ (out ++ slice xs c i) ++ (take n (drop i xs) ++ rest)
advance out xs rest c i n a b = rw (slice_more xs c i n a b) (simp append_assoc)

slice_self : (xs : List ℕ) (i : ℕ) → slice xs i i ≡ []
slice_self xs i = let e : i - i ≡ 0 = omega arith in ap (λ k. take k (drop i xs)) e

module _ {S : Type 0} (look : S → List ℕ → S × Verdict) (chunk : List ℕ) where
  abbrev pub Same : ℕ → ℕ → ℕ → Option (List ℕ) → S → Type 0
  Same f i c out s = kept look chunk (scan look f chunk i c out s) ≡ (
    (or_empty out ++ slice chunk c i) ++ (spec look f (drop i chunk) s).0,
    (spec look f (drop i chunk) s).1,
  )

  -- The statement for all positions that `f` rounds can walk from.
  abbrev pub Walks : ℕ → Type 0
  Walks f =
      (i c : ℕ) (out : Option (List ℕ)) (s : S)
      → c ≤ i
      → i ≤ length chunk
      → length chunk < i + f
      → Same f i c out s

  Same-end :
      (f i c : ℕ) (out : Option (List ℕ)) (s : S)
      → c ≤ i
      → length chunk ≤ i
      → Same (suc f) i c out s
  unfolding spec
  Same-end f i c out s a b = ground (
    arith,
    scan_end look chunk f i c out s b,
    drop_all i chunk b,
    slice_rest chunk c i a,
    append-nil (slice chunk c i),
    append-nil (or_empty out ++ slice chunk c i),
  )

  Same-plain :
      (f : ℕ)
      → Walks f
      → (i c : ℕ) (out : Option (List ℕ)) (s : S) → c ≤ i
      → i < length chunk
      → length chunk < i + suc f
      → get_or chunk i 0 ≢ esc
      → Same (suc f) i c out s
  Same-plain f ih i c out s a b room ne = ground (
    arith,
    scan_plain look chunk f i c out s b ne,
    ih (i + 1) c out s (omega arith) (omega arith) (omega arith),
    drop-cons i chunk b,
    spec_plain look f (get_or chunk i 0) (drop (i + 1) chunk) s ne,
    advance (or_empty out) chunk (spec look f (drop (i + 1) chunk) s).0 c i 1 a (omega arith),
  )

  Same-look :
      (f : ℕ)
      → Walks f
      → (i c : ℕ) (out : Option (List ℕ)) (s s' : S) (v : Verdict) → c ≤ i
      → i < length chunk
      → length chunk < i + suc f
      → get_or chunk i 0 ≡ esc
      → Fits (drop i chunk) v
      → look s (drop i chunk) ≡ (s', v)
      → Same (suc f) i c out s
  Same-look f ih i c out s s' (cut len) a b room e fits l =
      let n : i + len ≤ length chunk = omega (arith, length-drop i chunk) in
      ground (
        arith,
        scan-look look chunk f i c out s s' (cut len) b e l,
        ih (i + len) (i + len) (some (or_empty out ++ slice chunk c i)) s' (omega arith) n
            (omega arith),
        drop-cons i chunk b,
        spec-look look f (get_or chunk i 0) (drop (i + 1) chunk) s s' (cut len) e,
        drop-drop len i chunk,
        slice_self chunk (i + len),
        append-nil (or_empty out ++ slice chunk c i),
      )
  Same-look f ih i c out s s' (pass len) a b room e fits l =
      let n : i + len ≤ length chunk = omega (arith, length-drop i chunk) in
      ground (
        arith,
        scan-look look chunk f i c out s s' (pass len) b e l,
        ih (i + len) c out s' (omega arith) n (omega arith),
        drop-cons i chunk b,
        spec-look look f (get_or chunk i 0) (drop (i + 1) chunk) s s' (pass len) e,
        drop-drop len i chunk,
        advance (or_empty out) chunk (spec look f (drop (i + len) chunk) s').0 c i len a
            (omega arith),
      )
  Same-look f ih i c out s s' unknown a b room e fits l = ground (
    arith,
    scan-look look chunk f i c out s s' unknown b e l,
    ih (i + 1) c out s' (omega arith) (omega arith) (omega arith),
    drop-cons i chunk b,
    spec-look look f (get_or chunk i 0) (drop (i + 1) chunk) s s' unknown e,
    advance (or_empty out) chunk (spec look f (drop (i + 1) chunk) s').0 c i 1 a (omega arith),
  )

  module _ (sane : (s : S) (l : List ℕ) → Fits l (look s l).1) where
    pub walks : (f : ℕ) → Walks f
    walks zero i c out s a b room = absurd (omega arith)
    walks (suc f) i c out s a b room = elim (dec_lt i (length chunk)) [
      | no done ↦ Same-end f i c out s a (omega arith)
      | yes more ↦ elim (ℕ_discrete (get_or chunk i 0) esc) [
        | no ne ↦ Same-plain f (walks f) i c out s a more room ne
        | yes e ↦
            Same-look f (walks f) i c out s (look s (drop i chunk)).0 (look s (drop i chunk)).1 a
              more room e (sane s (drop i chunk)) refl
      ]
    ]
