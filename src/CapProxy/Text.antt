-- ===== src/CapProxy/Text.antt =====
-- Splitting, numbers and colours in the text of a sequence (runtime/src/capproxy.rs).
use openab_pty.Base.{
  ℕ, zero, suc, ◌+◌, ◌-◌, ◌*◌, ◌/◌, ◌%◌, min, Bool, true, false, not, ◌&&◌, ◌||◌, Option, none,
  some, List, [], ◌∷◌, length, get_or, ltb, leb, ◌==◌, if◌then◌else◌, codes,
}
use mathlib.Core.Option
use openab_pty.Crate.{is_ascii_digit}
use openab_pty.TermFilter.{starts_with}

abbrev cons_first : ℕ → List (List ℕ) → List (List ℕ)
cons_first x [] = (x ∷ []) ∷ []
cons_first x (g ∷ gs) = (x ∷ g) ∷ gs

-- `slice::split`: the groups between the separators, at least one.
unfoldable pub split : (ℕ → Bool) → List ℕ → List (List ℕ)
split sep [] = [] ∷ []
split sep (x ∷ xs) = let rest = split sep xs in if sep x then [] ∷ rest else cons_first x rest

abbrev pub u16_max : ℕ
u16_max = 65535

-- One parameter: its digits, saturating at 65535.
unfoldable pub value_from : ℕ → List ℕ → ℕ
value_from value [] = value
value_from value (digit ∷ group) = value_from (min (value * 10 + (digit - b'0')) u16_max) group

abbrev pub max_params : ℕ
max_params = 24

unfoldable pub parse_groups : ℕ → List (List ℕ) → Option (List ℕ)
parse_groups count [] = some []
parse_groups count (group ∷ groups) =
    let rest = parse_groups (count + 1) groups in
    if count == max_params then none else Option.map (◌∷◌ (value_from 0 group)) rest

-- The slots that were filled, in order; the rest of the source's array is 0.
unfoldable pub parse_params : List ℕ → Option (List ℕ)
parse_params params = parse_groups 0 (split (λ b. (b == b';') || (b == b':')) params)

abbrev pub u32_max : ℕ
u32_max = 4294967295

-- `checked_mul` and `checked_add` on `u32`.
unfoldable pub decimal_from : ℕ → List ℕ → Option ℕ
decimal_from value [] = some value
decimal_from value (b ∷ bs) =
    let next = value * 10 + (b - b'0') in
    let rest = decimal_from next bs in
    if not (is_ascii_digit b) then none else if leb next u32_max then rest else none

unfoldable pub parse_decimal : List ℕ → Option ℕ
parse_decimal [] = none
parse_decimal (b ∷ bs) = decimal_from 0 (b ∷ bs)

-- `write!(…, "{n}")` for an unsigned number, on fuel; ten digits are enough for 32 bits.
unfoldable pub show_from : ℕ → ℕ → List ℕ → List ℕ
show_from zero n acc = acc
show_from (suc fuel) n acc =
    let more = show_from fuel (n / 10) ((b'0' + n % 10) ∷ acc) in
    if ltb n 10 then (b'0' + n) ∷ acc else more

unfoldable pub show : ℕ → List ℕ
unfolding show_from
show n = show_from 10 n []

unfoldable pub is_ascii_hexdigit : ℕ → Bool
is_ascii_hexdigit b = is_ascii_digit b || (leb b'a' b && leb b b'f') || (leb b'A' b && leb b b'F')

-- `while count < 4 && *idx < data.len()`, on the rounds left; the digit that stops it is consumed.
unfoldable pub hex_run : ℕ → List ℕ → ℕ → ℕ → ℕ × ℕ
hex_run zero bytes idx count = (count, idx)
hex_run (suc rounds) bytes idx count =
    let more = hex_run rounds bytes (idx + 1) (count + 1) in
    if not (ltb idx (length bytes))
    then (count, idx)
    else if is_ascii_hexdigit (get_or bytes idx 0)
    then more
    else (count, idx + 1)

-- The digit count, and where the index stands then.
unfoldable pub hex_digits : List ℕ → ℕ → ℕ × ℕ
hex_digits bytes start =
    let (count, idx) = hex_run 4 bytes start 0 in
    if ltb idx (length bytes) && (get_or bytes idx 0 == b'/')
    then (count, idx + 1)
    else (count, idx)

-- `for _ in 0..3`, on the rounds left.
unfoldable pub any_hex : ℕ → List ℕ → ℕ → Bool
any_hex zero bytes idx = false
any_hex (suc rounds) bytes idx =
    let r = hex_digits bytes idx in
    let more = any_hex rounds bytes r.1 in if ltb 0 r.0 then true else more

unfoldable pub is_colour : List ℕ → Bool
is_colour spec =
    if starts_with (codes "#") spec
    then (let n = length spec - 1 in (n == 3) || (n == 6) || (n == 9) || (n == 12))
    else if starts_with (codes "rgb:") spec
    then any_hex 3 spec 4
    else false
