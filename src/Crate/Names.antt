-- ===== src/Crate/Names.antt =====
-- What `SessionName::parse` of runtime/src/lib.rs accepts.
use openab_pty.Base.{
  ℕ, suc, ◌≤◌, ◌≡◌, ◌≢◌, refl, sym, ◌∙◌, ◌⊎◌, ◌↔◌, inl, inr, true, ◌&&◌, List, [], ◌∷◌, arith,
  length, leb, Bool-cases,
}
use openab_pty.Crate.{invalid_session_name, ok, err, all, is_name_byte, parse}

-- `[a-z0-9-]`
abbrev pub NameByte : ℕ → Type 0
NameByte b = ((b'a' ≤ b) × (b ≤ b'z')) ⊎ ((b'0' ≤ b) × (b ≤ b'9')) ⊎ (b ≡ b'-')

abbrev pub AllNameBytes : List ℕ → Type 0
AllNameBytes [] = Unit
AllNameBytes (b ∷ bs) = NameByte b × AllNameBytes bs

-- `[a-z0-9-]{1,32}`
abbrev pub IsName : List ℕ → Type 0
IsName s = (1 ≤ length s) × (length s ≤ 32) × AllNameBytes s

is_name_byte_iff : (b : ℕ) → (is_name_byte b ≡ true) ↔ NameByte b
unfolding is_name_byte
is_name_byte_iff b = (λ h. ground arith, λ h. ground arith)

all_iff : (s : List ℕ) → (all is_name_byte s ≡ true) ↔ AllNameBytes s
unfolding all
all_iff [] = (λ h. tt, λ h. refl)
all_iff (b ∷ bs) = (
  λ h. ground (arith, is_name_byte_iff b, all_iff bs),
  λ h. ground (arith, is_name_byte_iff b, all_iff bs),
)

accepted :
    (b : ℕ) (bs : List ℕ)
    → (leb (suc (length bs)) 32 && all is_name_byte (b ∷ bs)) ≡ true
    → IsName (b ∷ bs)
accepted b bs e = (omega arith, ground arith, (all_iff (b ∷ bs)).0 (ground arith))

parse_cases :
    (s : List ℕ)
    → (IsName s → parse s ≡ ok s) × (¬ IsName s → parse s ≡ err (invalid_session_name s))
unfolding parse
parse_cases [] = (λ h. absurd (omega arith), λ h. refl)
parse_cases (b ∷ bs) = (
  λ h. ground (arith, all_iff (b ∷ bs)),
  λ h. elim (Bool-cases (leb (suc (length bs)) 32 && all is_name_byte (b ∷ bs))) [
    | inl e ↦ absurd (h (accepted b bs e))
    | inr e ↦ ground arith
  ],
)

accepts : (s : List ℕ) → parse s ≡ ok s → IsName s
unfolding parse
accepts [] h = ground arith
accepts (b ∷ bs) h = elim (Bool-cases (leb (suc (length bs)) 32 && all is_name_byte (b ∷ bs))) [
  | inl e ↦ accepted b bs e
  | inr e ↦ ground arith
]

different : (s : List ℕ) → parse s ≡ ok s → parse s ≢ err (invalid_session_name s)
different s h k = let e : ok s ≡ err (invalid_session_name s) = sym h ∙ k in ground (arith, e)

-- `parse` accepts exactly the names `[a-z0-9-]{1,32}`, unchanged, and refuses exactly the other
-- texts, with the text in the error.
pub parse_iff :
    (s : List ℕ)
    → ((parse s ≡ ok s) ↔ IsName s) × ((parse s ≡ err (invalid_session_name s)) ↔ (¬ IsName s))
parse_iff s = (
  (accepts s, (parse_cases s).0),
  (λ h n. different s ((parse_cases s).0 n) h, (parse_cases s).1),
)
