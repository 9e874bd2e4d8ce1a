-- ===== src/TermFilter/Pass.antt =====
-- What one call of `TermFilter::filter` (runtime/src/termfilter.rs) lets through.
use openab_pty.Base.{
  ℕ, zero, suc, ◌+◌, ◌≤◌, ◌≡◌, ◌≢◌, refl, ap, inl, inr, false, none, some, List, [], ◌∷◌, length,
  drop, arith, Option-cases, length-append, length-drop, u64_max,
}
use native.Mathlib.Decide.{ℕ_discrete}
use openab_pty.Scan.{esc, bytes, cut, unknown, contains, borrowed, run}
use openab_pty.Scan.Spec.{Fits}
use openab_pty.Scan.Run.{
  strip, run-eq-strip, strip_nil, strip_plain, strip_cut, strip_unknown, run_no_esc,
}
use openab_pty.TermFilter.{TermFilter, classify, look, filter}
use openab_pty.TermFilter.Csi.{CsiReply}
use openab_pty.TermFilter.Strings.{string_sequence_bounds}
use openab_pty.TermFilter.Replies.{Reply, classify_iff}

csi_bounds : (a b : ℕ) (l : List ℕ) (n : ℕ) → CsiReply l n → (3 ≤ n) × (n ≤ length (a ∷ b ∷ l))
csi_bounds a b l n (ps, fin, rest, e, all, r, reach, k) =
    omega (arith, ap length e, length-append ps (fin ∷ rest))

Reply-bounds : (a b : ℕ) (l : List ℕ) (n : ℕ) → Reply b l n → (3 ≤ n) × (n ≤ length (a ∷ b ∷ l))
Reply-bounds a b l n (inl (e, r)) = csi_bounds a b l n r
Reply-bounds a b l n (inr (inl (e, (p, q, r)))) = string_sequence_bounds a b l p n q
Reply-bounds a b l n (inr (inr (e, (p, q, r)))) = string_sequence_bounds a b l p n q

-- A sequence that `classify` recognises lies inside the slice.
classify_bounds : (s : List ℕ) (n : ℕ) → classify s ≡ some n → (1 ≤ n) × (n ≤ length s)
unfolding classify
classify_bounds [] n h = absurd (ground arith)
classify_bounds (a ∷ []) n h = absurd (ground arith)
classify_bounds (a ∷ b ∷ l) n h = omega (arith, Reply-bounds a b l n ((classify_iff a b l n).0 h))

look-Fits : (f : TermFilter) (s : List ℕ) → Fits s (look f s).1
unfolding look
look-Fits f s = elim (Option-cases (classify s)) [
  | inl e ↦ rw (e, look) tt
  | inr (n, e) ↦ rw (e, look) (classify_bounds s n e)
]

-- A reply stands at the front of the list, `n` bytes long.
abbrev pub ReplyAt : List ℕ → ℕ → Type 0
ReplyAt [] n = ⊥
ReplyAt (a ∷ []) n = ⊥
ReplyAt (a ∷ b ∷ l) n = (a ≡ esc) × Reply b l n

-- Read from the left: `k` replies go, and every other byte stays in its place.
pub data Passes : List ℕ → List ℕ → ℕ → Type 0 where
  done : Passes [] [] 0
  keep :
      {x k : ℕ} {xs ys : List ℕ}
      → ((n : ℕ) → ¬ ReplyAt (x ∷ xs) n)
      → Passes xs ys k
      → Passes (x ∷ xs) (x ∷ ys) k
  remove :
      {xs ys : List ℕ} {k : ℕ} (n : ℕ)
      → ReplyAt xs n
      → Passes (drop n xs) ys k
      → Passes xs ys (suc k)

at_reply : (x : ℕ) (xs : List ℕ) (n : ℕ) → x ≡ esc → classify (x ∷ xs) ≡ some n → ReplyAt (x ∷ xs) n
unfolding classify
at_reply x [] n e h = absurd (ground arith)
at_reply x (b ∷ l) n e h = (e, (classify_iff x b l n).0 h)

no_reply : (x : ℕ) (xs : List ℕ) (n : ℕ) → classify (x ∷ xs) ≡ none → ¬ ReplyAt (x ∷ xs) n
no_reply x [] n h r = r
no_reply x (b ∷ l) n h r = cc (h, (classify_iff x b l n).1 r.1)

head_esc : (x : ℕ) (xs : List ℕ) (n : ℕ) → ReplyAt (x ∷ xs) n → x ≡ esc
head_esc x [] n r = absurd r
head_esc x (b ∷ l) n r = r.0

look-none : (f : TermFilter) (s : List ℕ) → classify s ≡ none → look f s ≡ (f, unknown)
unfolding look
look-none f s e = ground arith

-- The counters after `k` replies of `m` bytes together, if no counter wraps.
abbrev Counted : TermFilter → ℕ → ℕ → TermFilter → Type 0
Counted f k m g =
    (g.stripped_sequences ≡ f.stripped_sequences + k) × (g.stripped_bytes ≡ f.stripped_bytes + m)

look-some :
    (f : TermFilter) (s : List ℕ) (n : ℕ)
    → classify s ≡ some n
    → f.stripped_sequences + 1 ≤ u64_max
    → f.stripped_bytes + n ≤ u64_max
    → (g : TermFilter) × (look f s ≡ (g, cut n)) × Counted f 1 n g
unfolding look
look-some f s n e a b = ((look f s).0, ground arith, (ground arith, ground arith))

abbrev Passed : List ℕ → TermFilter → List ℕ × TermFilter → Type 0
Passed l f r = (k m : ℕ) × Passes l r.0 k × (m + length r.0 ≡ length l) × Counted f k m r.1

strip-Passed :
    (fuel : ℕ) (l : List ℕ) (f : TermFilter)
    → length l ≤ fuel
    → f.stripped_sequences + length l ≤ u64_max
    → f.stripped_bytes + length l ≤ u64_max
    → Passed l f (strip look l f)
strip-Passed fuel [] f h a b =
    rw (strip_nil look look-Fits f) (0, 0, done, refl, (omega arith, omega arith))
strip-Passed zero (x ∷ xs) f h a b = absurd (omega arith)
strip-Passed (suc fuel) (x ∷ xs) f h a b = elim (ℕ_discrete x esc) [
  | no ne ↦ rw (strip_plain look look-Fits x xs f ne) (
      kept (λ n r. not_esc n ne r)
        (strip-Passed fuel xs f (omega arith) (omega arith) (omega arith)))
  | yes e ↦ elim (Option-cases (classify (x ∷ xs))) [
    | inl q ↦ rw (strip_unknown look look-Fits x xs f f e (look-none f (x ∷ xs) q)) (
        kept (λ n r. no_reply x xs n q r)
          (strip-Passed fuel xs f (omega arith) (omega arith) (omega arith)))
    | inr (n, q) ↦
        let (g, u, c) =
          look-some f (x ∷ xs) n q (omega arith) (omega (arith, classify_bounds (x ∷ xs) n q)) in
        let w = classify_bounds (x ∷ xs) n q in
        rw (strip_cut look look-Fits x xs f g n e u) (
          removed n g (at_reply x xs n e q) w c (
            strip-Passed fuel (drop n (x ∷ xs)) g (omega (arith, length-drop n (x ∷ xs), w))
              (omega (arith, length-drop n (x ∷ xs), w, c))
              (omega (arith, length-drop n (x ∷ xs), w, c))))
  ]
]
  where
    not_esc : (n : ℕ) → x ≢ esc → ReplyAt (x ∷ xs) n → ⊥
    not_esc n ne r = ne (head_esc x xs n r)

    removed :
        (n : ℕ) (g : TermFilter)
        → ReplyAt (x ∷ xs) n
        → (1 ≤ n) × (n ≤ length (x ∷ xs))
        → Counted f 1 n g
        → Passed (drop n (x ∷ xs)) g (strip look (drop n (x ∷ xs)) g)
        → Passed (x ∷ xs) f (strip look (drop n (x ∷ xs)) g)
    removed n g r w c (k, m, p, e, d) = (
      suc k,
      n + m,
      remove n r p,
      omega (arith, length-drop n (x ∷ xs)),
      (omega arith, omega arith),
    )

    kept :
        ((n : ℕ) → ¬ ReplyAt (x ∷ xs) n)
        → Passed xs f (strip look xs f)
        → Passed (x ∷ xs) f (x ∷ (strip look xs f).0, (strip look xs f).1)
    kept nr (k, m, p, e, c) = (k, m, keep nr p, omega arith, c)

-- One call of the filter removes exactly the replies that a reading from the left meets, and keeps
-- every other byte in its place; the counters go up by the number of replies and of their bytes,
-- if they have room for the chunk.
pub filter-Passes :
    (f : TermFilter) (chunk : List ℕ)
    → f.stripped_sequences + length chunk ≤ u64_max
    → f.stripped_bytes + length chunk ≤ u64_max
    → (k : ℕ) × Passes chunk (bytes (filter f chunk).0) k
      × ((filter f chunk).1.stripped_sequences ≡ f.stripped_sequences + k)
      × ((filter f chunk).1.stripped_bytes + length (bytes (filter f chunk).0)
          ≡ f.stripped_bytes + length chunk)
unfolding filter
filter-Passes f chunk a b =
    let e = run-eq-strip look look-Fits chunk f in
    let (k, m, p, q, c) = strip-Passed (length chunk) chunk f (omega arith) a b in
    let o : bytes (run look chunk f).0 ≡ (strip look chunk f).0 = ap (λ r. r.0) e in
    let g : (run look chunk f).1 ≡ (strip look chunk f).1 = ap (λ r. r.1) e in
    (k, rw o p, rw g c.0, rw (o, g) (omega (arith, q, c)))

-- A chunk in which no ESC stands is handed on as it is, without a copy.
pub filter_no_esc :
    (f : TermFilter) (chunk : List ℕ)
    → contains esc chunk ≡ false
    → filter f chunk ≡ (borrowed chunk, f)
unfolding filter
filter_no_esc f chunk h = run_no_esc look chunk f h
