-- ===== src/TermFilter/Csi.antt =====
-- Which CSI sequences `classify_csi` of runtime/src/termfilter.rs takes for replies.
use openab_pty.Base.{
  ℕ, zero, suc, ◌+◌, ◌-◌, ◌≤◌, ◌<◌, ◌≡◌, refl, ◌∙◌, ap, ◌⊎◌, inl, inr, ◌↔◌, true, ◌&&◌, none, some,
  List, [], ◌∷◌, ◌++◌, length, take, drop, get_elem?, get_or, ltb, leb, if◌then◌else◌, arith,
  at_drop, drop-cons, Bool-cases,
}
use openab_pty.Scan.{contains}
use openab_pty.TermFilter.{
  max_sequence_len, is_byte, is_param, is_final, is_reply, csi_from, classify_csi,
}

abbrev pub AllParams : List ℕ → Type 0
AllParams [] = Unit
AllParams (b ∷ bs) = (is_param b ≡ true) × AllParams bs

-- With parameter bytes before it, the scan finds a final byte within reach and judges it.
csi_from_complete :
    (f : ℕ) (s : List ℕ) (i : ℕ) (todo : List ℕ) (fin : ℕ) (rest : List ℕ)
    → drop i s ≡ todo ++ fin ∷ rest
    → AllParams todo
    → is_final fin ≡ true
    → i + length todo ≤ max_sequence_len
    → max_sequence_len < f + i
    → csi_from f s i
      ≡ (if is_reply s (i + length todo) fin then some (i + length todo + 1) else none)
unfolding csi_from
csi_from_complete zero s i todo fin rest e ps fi reach fuel = absurd (omega arith)
csi_from_complete (suc f) s i [] fin rest e ps fi reach fuel =
    let z : i + 0 ≡ i = omega arith in ground (arith, at_drop i s e)
csi_from_complete (suc f) s i (x ∷ xs) fin rest e ps fi reach fuel =
    let z : i + 1 + length xs ≡ i + suc (length xs) = omega arith in
    ground (
      arith,
      at_drop i s e,
      csi_from_complete f s (i + 1) xs fin rest (at_drop i s e).2 ps.1 fi (omega arith)
          (omega arith),
    )

-- A reply that the scan found.
abbrev pub FoundFrom : List ℕ → ℕ → ℕ → Type 0
FoundFrom s i n =
    (todo : List ℕ) × (fin : ℕ) × (rest : List ℕ) × (drop i s ≡ todo ++ fin ∷ rest)
    × AllParams todo
    × (is_final fin ≡ true)
    × (i + length todo ≤ max_sequence_len)
    × (is_reply s (i + length todo) fin ≡ true)
    × (n ≡ i + length todo + 1)

found_here :
    (s : List ℕ) (i n : ℕ)
    → i < length s
    → i ≤ max_sequence_len
    → is_final (get_or s i 0) ≡ true
    → is_reply s i (get_or s i 0) ≡ true
    → n ≡ i + 1
    → FoundFrom s i n
found_here s i n inside reach fi r e =
    let z : i + 0 ≡ i = omega arith in
    (
      [],
      get_or s i 0,
      drop (i + 1) s,
      drop-cons i s inside,
      tt,
      fi,
      omega arith,
      rw z r,
      omega arith,
    )

found_later :
    (s : List ℕ) (i n : ℕ)
    → i < length s
    → is_param (get_or s i 0) ≡ true
    → FoundFrom s (i + 1) n
    → FoundFrom s i n
found_later s i n inside p (todo, fin, rest, e, ps, fi, reach, r, m) =
    let z : i + suc (length todo) ≡ i + 1 + length todo = omega arith in
    (
      get_or s i 0 ∷ todo,
      fin,
      rest,
      drop-cons i s inside ∙ ap (◌∷◌ (get_or s i 0)) e,
      (p, ps),
      fi,
      omega arith,
      rw z r,
      omega arith,
    )

csi_from_sound : (f : ℕ) (s : List ℕ) (i n : ℕ) → csi_from f s i ≡ some n → FoundFrom s i n
unfolding csi_from
csi_from_sound zero s i n h = cc
csi_from_sound (suc f) s i n h = elim (Bool-cases (ltb i (length s) && leb i max_sequence_len)) [
  | inr out ↦ absurd (ground arith)
  | inl inside ↦ elim (Bool-cases (is_param (get_or s i 0))) [
    | inl p ↦ found_later s i n (ground arith) p (csi_from_sound f s (i + 1) n (ground arith))
    | inr np ↦
        found_here s i n (ground arith) (ground arith) (ground arith) (ground arith) (ground arith)
  ]
]

-- A CSI reply, by its shape: `ESC [`, at most 254 parameter or intermediate bytes, and a final `c`
-- or `n`, or `u` behind a leading `?`, or `{` behind a `*` somewhere.
abbrev pub ReplyFinal : List ℕ → ℕ → Type 0
ReplyFinal ps fin =
    (fin ≡ b'c')
    ⊎ (fin ≡ b'n')
    ⊎ ((fin ≡ b'u') × (is_byte (get_elem? ps 0) b'?' ≡ true))
    ⊎ ((fin ≡ b'{') × (contains b'*' ps ≡ true))

abbrev pub CsiReply : List ℕ → ℕ → Type 0
CsiReply l n =
    (ps : List ℕ) × (fin : ℕ) × (rest : List ℕ) × (l ≡ ps ++ fin ∷ rest)
    × AllParams ps
    × ReplyFinal ps fin
    × (length ps ≤ 254)
    × (n ≡ length ps + 3)

take-append : (ps : List ℕ) (ys : List ℕ) (n : ℕ) → n ≡ length ps → take n (ps ++ ys) ≡ ps
take-append [] ys n e = rw e
take-append (p ∷ ps) ys n e = rw e (ap (◌∷◌ p) (take-append ps ys (length ps) refl))

-- A leading byte of the sequence is a leading parameter byte, unless there are none.
lead :
    (ps : List ℕ) (rest : List ℕ)
    → is_byte (get_elem? (ps ++ b'u' ∷ rest) 0) b'?' ≡ is_byte (get_elem? ps 0) b'?'
lead [] rest = refl
lead (p ∷ ps) rest = refl

is_reply_iff :
    (a b : ℕ) (ps : List ℕ) (fin : ℕ) (rest : List ℕ) (i : ℕ)
    → i ≡ 2 + length ps
    → (is_reply (a ∷ b ∷ (ps ++ fin ∷ rest)) i fin ≡ true) ↔ ReplyFinal ps fin
unfolding is_reply
is_reply_iff a b ps fin rest i e =
    let t = take-append ps (fin ∷ rest) (i - 2) (omega arith) in
    (λ h. ground (arith, t, lead ps rest), λ h. ground (arith, t, lead ps rest))

reply-is_final : (ps : List ℕ) (fin : ℕ) → ReplyFinal ps fin → is_final fin ≡ true
reply-is_final ps fin h = ground arith

-- `classify_csi` takes exactly the CSI replies, with their whole length.
pub classify_csi_iff :
    (a b : ℕ) (l : List ℕ) (n : ℕ) → (classify_csi (a ∷ b ∷ l) ≡ some n) ↔ CsiReply l n
unfolding classify_csi
classify_csi_iff a b l n = (sound, complete)
  where
    sound : csi_from max_sequence_len (a ∷ b ∷ l) 2 ≡ some n → CsiReply l n
    sound h =
        let (ps, fin, rest, e, all, fi, reach, r, m) = csi_from_sound max_sequence_len _ 2 n h in
        (
          ps,
          fin,
          rest,
          e,
          all,
          (is_reply_iff a b ps fin rest (2 + length ps) refl).0 (rw e at r),
          omega arith,
          omega arith,
        )

    complete : CsiReply l n → csi_from max_sequence_len (a ∷ b ∷ l) 2 ≡ some n
    complete (ps, fin, rest, e, all, r, reach, m) =
        rw (e, m)
          (csi_from_complete max_sequence_len (a ∷ b ∷ (ps ++ fin ∷ rest)) 2 ps fin rest refl all
              (reply-is_final ps fin r) (omega arith) (omega arith)
            ∙ rw ((is_reply_iff a b ps fin rest (2 + length ps) refl).1 r) (ap some (omega arith)))
