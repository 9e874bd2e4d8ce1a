-- ===== src/TermFilter/Strings.antt =====
-- Which string-terminated sequences `string_sequence` of runtime/src/termfilter.rs finds, and the
-- OSC and DCS replies that are made of them.
use openab_pty.Base.{
  ℕ, zero, suc, ◌+◌, ◌-◌, ◌≤◌, ◌<◌, ◌≡◌, refl, ◌∙◌, ap, ap₂, ◌⊎◌, inl, inr, ◌↔◌, true, false, ◌&&◌,
  some, List, [], ◌∷◌, ◌++◌, length, take, drop, get_elem?, get_or, ltb, leb, ◌==◌, arith, at_drop,
  drop-cons, Bool-cases, length-append,
}
use openab_pty.Scan.{esc, bel, slice}
use openab_pty.TermFilter.{max_sequence_len, backslash, is_byte, string_from, string_sequence}

-- A payload byte does not end the sequence: it is no BEL, and no ESC before a `\`.
abbrev pub Plain : List ℕ → Type 0
Plain [] = Unit
Plain (x ∷ xs) =
    ((x == bel) ≡ false) × (((x == esc) && is_byte (get_elem? xs 0) backslash) ≡ false) × Plain xs

-- The terminator: BEL, or ESC `\`; `m` is its length.
abbrev pub Ends : ℕ → List ℕ → ℕ → Type 0
Ends t rest m =
    ((t ≡ bel) × (m ≡ 1)) ⊎ ((t ≡ esc) × (is_byte (get_elem? rest 0) backslash ≡ true) × (m ≡ 2))

-- `l` begins with a terminated string of this payload; `n` counts the two bytes before `l` as well.
abbrev pub StringSeq : List ℕ → List ℕ → ℕ → Type 0
StringSeq l payload n =
    (t : ℕ) × (rest : List ℕ) × (m : ℕ) × (l ≡ payload ++ t ∷ rest)
    × Plain payload
    × Ends t rest m
    × (length payload ≤ 254)
    × (n ≡ length payload + m + 2)

get_elem?-drop : (i : ℕ) (s : List ℕ) → get_elem? s i ≡ get_elem? (drop i s) 0
get_elem?-drop zero [] = refl
get_elem?-drop zero (x ∷ xs) = refl
get_elem?-drop (suc i) [] = refl
get_elem?-drop (suc i) (x ∷ xs) = get_elem?-drop i xs

-- The byte after a payload byte is a `\` only if it is in the payload.
next_byte :
    (xs : List ℕ) (t : ℕ) (rest : List ℕ) {m : ℕ}
    → Ends t rest m
    → is_byte (get_elem? (xs ++ t ∷ rest) 0) backslash ≡ is_byte (get_elem? xs 0) backslash
next_byte [] t rest h = ground arith
next_byte (x ∷ xs) t rest h = refl

string_from_complete :
    (f : ℕ) (s : List ℕ) (body i : ℕ) (todo : List ℕ) (t : ℕ) (rest : List ℕ) (m : ℕ)
    → drop i s ≡ todo ++ t ∷ rest
    → Plain todo
    → Ends t rest m
    → i + length todo ≤ max_sequence_len
    → max_sequence_len < f + i
    → string_from f s body i ≡ some (slice s body (i + length todo), i + length todo + m)
unfolding string_from
string_from_complete zero s body i todo t rest m e ps en reach fuel = absurd (omega arith)
string_from_complete (suc f) s body i [] t rest m e ps en reach fuel =
    let z : i + 0 ≡ i = omega arith in
    let d = at_drop i s e in let g = get_elem?-drop (i + 1) s in rw z (ground (arith, d, g))
string_from_complete (suc f) s body i (x ∷ xs) t rest m e ps en reach fuel =
    let z : i + 1 + length xs ≡ i + suc (length xs) = omega arith in
    ground (
      arith,
      at_drop i s e,
      get_elem?-drop (i + 1) s,
      next_byte xs t rest en,
      string_from_complete f s body (i + 1) xs t rest m (at_drop i s e).2 ps.2 en (omega arith)
          (omega arith),
    )

-- A terminated string that the scan found from `i` on.
abbrev FoundFrom : List ℕ → ℕ → ℕ → List ℕ → ℕ → Type 0
FoundFrom s body i p n =
    (todo : List ℕ) × (t : ℕ) × (rest : List ℕ) × (m : ℕ) × (drop i s ≡ todo ++ t ∷ rest)
    × Plain todo
    × Ends t rest m
    × (i + length todo ≤ max_sequence_len)
    × (p ≡ slice s body (i + length todo))
    × (n ≡ i + length todo + m)

found_here :
    (s : List ℕ) (body i : ℕ) (p : List ℕ) (n m : ℕ)
    → i < length s
    → i ≤ max_sequence_len
    → Ends (get_or s i 0) (drop (i + 1) s) m
    → p ≡ slice s body i
    → n ≡ i + m
    → FoundFrom s body i p n
found_here s body i p n m inside reach en e k =
    let z : i ≡ i + 0 = omega arith in
    (
      [],
      get_or s i 0,
      drop (i + 1) s,
      m,
      drop-cons i s inside,
      tt,
      en,
      omega arith,
      e ∙ ap (slice s body) z,
      omega arith,
    )

found_later :
    (s : List ℕ) (body i : ℕ) (p : List ℕ) (n : ℕ)
    → i < length s
    → (get_or s i 0 == bel) ≡ false
    → ((get_or s i 0 == esc) && is_byte (get_elem? s (i + 1)) backslash) ≡ false
    → FoundFrom s body (i + 1) p n
    → FoundFrom s body i p n
found_later s body i p n inside nb ne (todo, t, rest, m, e, ps, en, reach, k, w) =
    let z : i + 1 + length todo ≡ i + suc (length todo) = omega arith in
    let b : is_byte (get_elem? s (i + 1)) backslash ≡ is_byte (get_elem? todo 0) backslash =
      ap (λ o. is_byte o backslash) (get_elem?-drop (i + 1) s ∙ ap (λ l. get_elem? l 0) e)
      ∙ next_byte todo t rest en in
    (
      get_or s i 0 ∷ todo,
      t,
      rest,
      m,
      drop-cons i s inside ∙ ap (◌∷◌ (get_or s i 0)) e,
      (nb, rw b at ne, ps),
      en,
      omega arith,
      k ∙ ap (slice s body) z,
      omega arith,
    )

string_from_sound :
    (f : ℕ) (s : List ℕ) (body i : ℕ) (p : List ℕ) (n : ℕ)
    → string_from f s body i ≡ some (p, n)
    → FoundFrom s body i p n
unfolding string_from
string_from_sound zero s body i p n h = cc
string_from_sound (suc f) s body i p n h =
    elim (Bool-cases (ltb i (length s) && leb i max_sequence_len)) [
      | inr out ↦ absurd (ground arith)
      | inl inside ↦ elim (Bool-cases (get_or s i 0 == bel)) [
        | inl b ↦
            found_here s body i p n 1 (ground arith) (ground arith) (inl (ground arith, refl))
              (ground arith) (ground arith)
        | inr nb ↦
            elim (Bool-cases ((get_or s i 0 == esc) && is_byte (get_elem? s (i + 1)) backslash)) [
              | inl e ↦
                  found_here s body i p n 2 (ground arith) (ground arith)
                    (inr (ground arith, ground (arith, get_elem?-drop (i + 1) s), refl))
                    (ground arith) (ground arith)
              | inr ne ↦
                  found_later s body i p n (ground arith) nb ne
                    (string_from_sound f s body (i + 1) p n (ground arith))
            ]
      ]
    ]

take-append : (ps : List ℕ) (ys : List ℕ) (n : ℕ) → n ≡ length ps → take n (ps ++ ys) ≡ ps
take-append [] ys n e = rw e
take-append (p ∷ ps) ys n e = rw e (ap (◌∷◌ p) (take-append ps ys (length ps) refl))

-- `string_sequence` finds exactly the terminated strings whose terminator starts within
-- `MAX_SEQUENCE_LEN`, with their payload and their whole length.
pub string_sequence_iff :
    (a b : ℕ) (l payload : List ℕ) (n : ℕ)
    → (string_sequence (a ∷ b ∷ l) 2 ≡ some (payload, n)) ↔ StringSeq l payload n
unfolding string_sequence
string_sequence_iff a b l payload n = (sound, complete)
  where
    sound :
        string_from (suc max_sequence_len) (a ∷ b ∷ l) 2 2 ≡ some (payload, n)
        → StringSeq l payload n
    sound h =
        let (todo, t, rest, m, e, ps, en, reach, k, w) =
          string_from_sound (suc max_sequence_len) _ 2 2 payload n h in
        let same : payload ≡ todo =
          k
          ∙ ap (take (2 + length todo - 2)) e
          ∙ take-append todo (t ∷ rest) (2 + length todo - 2) (omega arith) in
        (t, rest, m, rw same e, rw same ps, en, rw same (omega arith), rw same (omega arith))

    complete :
        StringSeq l payload n
        → string_from (suc max_sequence_len) (a ∷ b ∷ l) 2 2 ≡ some (payload, n)
    complete (t, rest, m, e, ps, en, reach, w) =
        string_from_complete (suc max_sequence_len) (a ∷ b ∷ l) 2 2 payload t rest m e ps en
          (omega arith) (omega arith)
        ∙ ap₂ (λ p k. some (p, k))
            (ap (take (2 + length payload - 2)) e
              ∙ take-append payload (t ∷ rest) (2 + length payload - 2) (omega arith))
            (omega arith)

-- A sequence found lies inside the slice.
pub string_sequence_bounds :
    (a b : ℕ) (l payload : List ℕ) (n : ℕ)
    → StringSeq l payload n
    → (3 ≤ n) × (n ≤ length (a ∷ b ∷ l))
string_sequence_bounds a b l payload n (t, rest, m, e, ps, inl (q, k), reach, w) =
    omega (arith, ap length e, length-append payload (t ∷ rest))
string_sequence_bounds a b l payload n (t, [], m, e, ps, inr (q, r, k), reach, w) =
    absurd (ground arith)
string_sequence_bounds a b l payload n (t, c ∷ rest, m, e, ps, inr (q, r, k), reach, w) =
    omega (arith, ap length e, length-append payload (t ∷ c ∷ rest))
