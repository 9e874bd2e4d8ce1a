-- ===== src/TermFilter/Replies.antt =====
-- The replies that `classify` of runtime/src/termfilter.rs recognises, by their shapes.
use openab_pty.Base.{
  ℕ, ◌≡◌, refl, sym, ◌∙◌, ap, ◌⊎◌, inl, inr, ◌↔◌, Bool, true, ◌&&◌, ◌||◌, not, some, List, [], ◌∷◌,
  ◌++◌, take, drop, get_elem?, ◌==◌, arith, Bool-cases, Option-cases, codes, eq_bytes, eq_bytes_eq,
  take-append-drop,
}
use openab_pty.Crate.{is_ascii_digit}
use openab_pty.TermFilter.{
  is_byte, digits, starts_with, is_colour_code, string_sequence, classify_osc, classify_dcs,
  classify,
}
use openab_pty.TermFilter.Csi.{CsiReply, classify_csi_iff}
use openab_pty.TermFilter.Strings.{StringSeq, string_sequence_iff}

pub starts_with_sound : (p s : List ℕ) → starts_with p s ≡ true → (rest : List ℕ) × (s ≡ p ++ rest)
unfolding starts_with
starts_with_sound [] s h = (s, refl)
starts_with_sound (p ∷ ps) [] h = cc
starts_with_sound (p ∷ ps) (b ∷ bs) h =
    let (rest, e) = starts_with_sound ps bs (ground arith) in (rest, ground arith)

-- `OSC 10|11|12 ; rgb: …` or `; rgba: …`: the payload of a colour report.
abbrev pub ColourReport : List ℕ → Type 0
ColourReport payload =
    (code kind rest : List ℕ) × (payload ≡ code ++ (kind ++ rest))
    × ((code ≡ codes "10") ⊎ (code ≡ codes "11") ⊎ (code ≡ codes "12"))
    × ((kind ≡ codes ";rgb:") ⊎ (kind ≡ codes ";rgba:"))

abbrev pub OscReply : List ℕ → ℕ → Type 0
OscReply l n = (payload : List ℕ) × StringSeq l payload n × ColourReport payload

-- `DCS <digits> ! ~ …`: the payload of a macro checksum report.
abbrev pub DcsReply : List ℕ → ℕ → Type 0
DcsReply l n =
    (payload : List ℕ) × StringSeq l payload n
    × ((rest : List ℕ) × (drop (digits payload) payload ≡ codes "!~" ++ rest))

colour_code_sound :
    (ps : List ℕ)
    → is_colour_code ps ≡ true
    → (ps ≡ codes "10") ⊎ (ps ≡ codes "11") ⊎ (ps ≡ codes "12")
unfolding is_colour_code
colour_code_sound ps h = elim (Bool-cases (eq_bytes ps (codes "10"))) [
  | inl a ↦ inl (eq_bytes_eq ps _ a)
  | inr na ↦ elim (Bool-cases (eq_bytes ps (codes "11"))) [
    | inl b ↦ inr (inl (eq_bytes_eq ps _ b))
    | inr nb ↦ inr (inr (eq_bytes_eq ps _ (ground arith)))
  ]
]

-- The test of `classify_osc` on a payload.
abbrev osc_test : List ℕ → Bool
osc_test p =
    not ((digits p == 0) || not (is_byte (get_elem? p (digits p)) b';'))
    && (is_colour_code (take (digits p) p)
        && (starts_with (codes ";rgb:") (drop (digits p) p)
            || starts_with (codes ";rgba:") (drop (digits p) p)))

osc_kind :
    (s : List ℕ)
    → (starts_with (codes ";rgb:") s || starts_with (codes ";rgba:") s) ≡ true
    → (kind rest : List ℕ) × (s ≡ kind ++ rest) × ((kind ≡ codes ";rgb:") ⊎ (kind ≡ codes ";rgba:"))
osc_kind s h = elim (Bool-cases (starts_with (codes ";rgb:") s)) [
  | inl a ↦
      let (rest, e) = starts_with_sound (codes ";rgb:") s a in (codes ";rgb:", rest, e, inl refl)
  | inr na ↦
      let (rest, e) = starts_with_sound (codes ";rgba:") s (ground arith) in
      (codes ";rgba:", rest, e, inr refl)
]

osc_test_sound : (p : List ℕ) → osc_test p ≡ true → ColourReport p
osc_test_sound p h =
    let (kind, rest, e, k) = osc_kind (drop (digits p) p) (ground arith) in
    (
      take (digits p) p,
      kind,
      rest,
      sym (take-append-drop (digits p) p) ∙ ap (λ t. take (digits p) p ++ t) e,
      colour_code_sound (take (digits p) p) (ground arith),
      k,
    )

osc_test_complete : (p : List ℕ) → ColourReport p → osc_test p ≡ true
unfolding digits starts_with is_colour_code is_ascii_digit eq_bytes
osc_test_complete p (code, kind, rest, e, c, k) = rw e (go c k)
  where
    go :
        (code ≡ codes "10") ⊎ (code ≡ codes "11") ⊎ (code ≡ codes "12")
        → (kind ≡ codes ";rgb:") ⊎ (kind ≡ codes ";rgba:")
        → osc_test (code ++ (kind ++ rest)) ≡ true
    go (inl c) (inl k) = rw (c, k)
    go (inl c) (inr k) = rw (c, k)
    go (inr (inl c)) (inl k) = rw (c, k)
    go (inr (inl c)) (inr k) = rw (c, k)
    go (inr (inr c)) (inl k) = rw (c, k)
    go (inr (inr c)) (inr k) = rw (c, k)

osc_some :
    (s : List ℕ) (n : ℕ)
    → classify_osc s ≡ some n
    → (p : List ℕ) × (string_sequence s 2 ≡ some (p, n)) × (osc_test p ≡ true)
unfolding classify_osc
osc_some s n h = elim (Option-cases (string_sequence s 2)) [
  | inl e ↦ absurd (ground arith)
  | inr ((p, m), e) ↦ (p, ground arith, ground arith)
]

osc_of_test :
    (s p : List ℕ) (n : ℕ)
    → string_sequence s 2 ≡ some (p, n)
    → osc_test p ≡ true
    → classify_osc s ≡ some n
unfolding classify_osc
osc_of_test s p n e h = ground arith

dcs_some :
    (s : List ℕ) (n : ℕ)
    → classify_dcs s ≡ some n
    → (p : List ℕ) × (string_sequence s 2 ≡ some (p, n))
      × (starts_with (codes "!~") (drop (digits p) p) ≡ true)
unfolding classify_dcs
dcs_some s n h = elim (Option-cases (string_sequence s 2)) [
  | inl e ↦ absurd (ground arith)
  | inr ((p, m), e) ↦ (p, ground arith, ground arith)
]

dcs_of_test :
    (s p rest : List ℕ) (n : ℕ)
    → string_sequence s 2 ≡ some (p, n)
    → drop (digits p) p ≡ codes "!~" ++ rest
    → classify_dcs s ≡ some n
unfolding classify_dcs starts_with
dcs_of_test s p rest n e h =
    let t : starts_with (codes "!~") (drop (digits p) p) ≡ true = rw h refl in ground arith

classify_osc_iff :
    (a b : ℕ) (l : List ℕ) (n : ℕ) → (classify_osc (a ∷ b ∷ l) ≡ some n) ↔ OscReply l n
classify_osc_iff a b l n = (
  λ h.
      let (p, e, t) = osc_some (a ∷ b ∷ l) n h in
      (p, (string_sequence_iff a b l p n).0 e, osc_test_sound p t),
  λ (p, q, r).
      osc_of_test (a ∷ b ∷ l) p n ((string_sequence_iff a b l p n).1 q) (osc_test_complete p r),
)

classify_dcs_iff :
    (a b : ℕ) (l : List ℕ) (n : ℕ) → (classify_dcs (a ∷ b ∷ l) ≡ some n) ↔ DcsReply l n
classify_dcs_iff a b l n = (
  λ h.
      let (p, e, t) = dcs_some (a ∷ b ∷ l) n h in
      (p, (string_sequence_iff a b l p n).0 e, starts_with_sound (codes "!~") _ t),
  λ (p, q, r). dcs_of_test (a ∷ b ∷ l) p r.0 n ((string_sequence_iff a b l p n).1 q) r.1,
)

-- A reply, by the byte behind the ESC.
abbrev pub Reply : ℕ → List ℕ → ℕ → Type 0
Reply b l n =
    ((b ≡ b'[') × CsiReply l n) ⊎ ((b ≡ b']') × OscReply l n) ⊎ ((b ≡ b'P') × DcsReply l n)

-- `classify` recognises exactly the documented reply shapes, each with its whole length.
pub classify_iff : (a b : ℕ) (l : List ℕ) (n : ℕ) → (classify (a ∷ b ∷ l) ≡ some n) ↔ Reply b l n
unfolding classify
classify_iff a b l n = (sound, complete)
  where
    sound : classify (a ∷ b ∷ l) ≡ some n → Reply b l n
    sound h = elim (Bool-cases (b == b'[')) [
      | inl e ↦ inl (ground arith, (classify_csi_iff a b l n).0 (ground arith))
      | inr ne ↦ elim (Bool-cases (b == b']')) [
        | inl e ↦ inr (inl (ground arith, (classify_osc_iff a b l n).0 (ground arith)))
        | inr ne' ↦ inr (inr (ground arith, (classify_dcs_iff a b l n).0 (ground arith)))
      ]
    ]

    complete : Reply b l n → classify (a ∷ b ∷ l) ≡ some n
    complete (inl (e, r)) = rw e ((classify_csi_iff a b'[' l n).1 r)
    complete (inr (inl (e, r))) = rw e ((classify_osc_iff a b']' l n).1 r)
    complete (inr (inr (e, r))) = rw e ((classify_dcs_iff a b'P' l n).1 r)
