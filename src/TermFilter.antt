-- ===== src/TermFilter.antt =====
-- runtime/src/termfilter.rs: strips terminal-capability responses from what a client sends.
pub mod Csi
pub mod Strings
pub mod Replies
pub mod Pass
mod Examples
use openab_pty.Base.{
  ℕ, zero, suc, ◌+◌, Bool, true, false, ◌&&◌, ◌||◌, Option, none, some, List, [], ◌∷◌, length, take,
  drop, get_elem?, get_or, ltb, leb, ◌==◌, if◌then◌else◌, not, eq_bytes, codes, add_word,
}
use openab_pty.Scan.{esc, bel, Verdict, cut, unknown, Cow, contains, slice, run}
use openab_pty.Crate.{is_ascii_digit}

abbrev pub backslash : ℕ
backslash = 0x5c

abbrev pub max_sequence_len : ℕ
max_sequence_len = 256

pub record TermFilter : Type 0 where
  pub stripped_sequences : ℕ
  pub stripped_bytes : ℕ

-- `TermFilter::new`.
unfoldable pub new : TermFilter
new = record { stripped_sequences = 0; stripped_bytes = 0 }

-- `opt == Some(&b)`.
abbrev pub is_byte : Option ℕ → ℕ → Bool
is_byte none b = false
is_byte (some a) b = a == b

-- 0x20..=0x3f, 0x40..=0x7e
abbrev pub is_param : ℕ → Bool
is_param b = leb 0x20 b && leb b 0x3f

abbrev pub is_final : ℕ → Bool
is_final b = leb 0x40 b && leb b 0x7e

-- Which finals answer a query: `c`, `n`, `u` behind `?`, and `{` behind a `*`.
unfoldable pub is_reply : List ℕ → ℕ → ℕ → Bool
is_reply s i b =
    (b == b'c')
    || (b == b'n')
    || ((b == b'u') && is_byte (get_elem? s 2) b'?')
    || ((b == b'{') && contains b'*' (slice s 2 i))

-- The scan for the final byte, on fuel.
unfoldable pub csi_from : ℕ → List ℕ → ℕ → Option ℕ
csi_from zero s i = none
csi_from (suc fuel) s i =
    let next = csi_from fuel s (i + 1) in
    let b = get_or s i 0 in
    if ltb i (length s) && leb i max_sequence_len
    then (if is_param b
        then next
        else if is_final b
        then (if is_reply s i b then some (i + 1) else none)
        else none)
    else none

-- It ends after index `max_sequence_len`, so that many rounds are enough.
unfoldable pub classify_csi : List ℕ → Option ℕ
classify_csi s = csi_from max_sequence_len s 2

-- The scan for BEL or ESC `\`, on fuel; `body` is where the payload starts.
unfoldable pub string_from : ℕ → List ℕ → ℕ → ℕ → Option (List ℕ × ℕ)
string_from zero s body i = none
string_from (suc fuel) s body i =
    let next = string_from fuel s body (i + 1) in
    if ltb i (length s) && leb i max_sequence_len
    then (if get_or s i 0 == bel
        then some (slice s body i, i + 1)
        else if (get_or s i 0 == esc) && is_byte (get_elem? s (i + 1)) backslash
        then some (slice s body i, i + 2)
        else next)
    else none

unfoldable pub string_sequence : List ℕ → ℕ → Option (List ℕ × ℕ)
string_sequence s body = string_from (suc max_sequence_len) s body body

-- The number of leading digits.
unfoldable pub digits : List ℕ → ℕ
digits [] = 0
digits (b ∷ bs) = let more = suc (digits bs) in if is_ascii_digit b then more else 0

unfoldable pub starts_with : List ℕ → List ℕ → Bool
starts_with [] s = true
starts_with (p ∷ ps) [] = false
starts_with (p ∷ ps) (b ∷ bs) = (p == b) && starts_with ps bs

unfoldable pub is_colour_code : List ℕ → Bool
is_colour_code ps = eq_bytes ps (codes "10") || eq_bytes ps (codes "11") || eq_bytes ps (codes "12")

unfoldable pub classify_osc : List ℕ → Option ℕ
classify_osc s = elim (string_sequence s 2) [
  | none ↦ none
  | some (payload, len) ↦
      let j = digits payload in
      if (j == 0) || not (is_byte (get_elem? payload j) b';')
      then none
      else if is_colour_code (take j payload)
          && (starts_with (codes ";rgb:") (drop j payload)
              || starts_with (codes ";rgba:") (drop j payload))
      then some len
      else none
]

unfoldable pub classify_dcs : List ℕ → Option ℕ
classify_dcs s = elim (string_sequence s 2) [
  | none ↦ none
  | some (payload, len) ↦
      if starts_with (codes "!~") (drop (digits payload) payload) then some len else none
]

unfoldable pub classify : List ℕ → Option ℕ
classify s = elim (get_elem? s 1) [
  | none ↦ none
  | some b ↦
      if b == b'['
      then classify_csi s
      else if b == b']'
      then classify_osc s
      else if b == b'P'
      then classify_dcs s
      else none
]

-- One round's look at an ESC-led slice.
unfoldable pub look : TermFilter → List ℕ → TermFilter × Verdict
look f s = elim (classify s) [
  | some len ↦ (
    record f {
      stripped_sequences = add_word f.stripped_sequences 1;
      stripped_bytes = add_word f.stripped_bytes len;
    },
    cut len,
  )
  | none ↦ (f, unknown)
]

unfoldable pub filter : TermFilter → List ℕ → Cow × TermFilter
filter f chunk = run look chunk f
