-- ===== src/Config/Fields.antt =====
-- The fields of a projection, with their defaults, and durations (runtime/src/config.rs).
use openab_pty.Base.{
  ℕ, ◌+◌, ◌-◌, ◌*◌, Bool, Option, none, some, List, [], ◌∷◌, leb, ◌==◌, if◌then◌else◌, eq_bytes,
  codes, u64_max,
}
use openab_pty.Crate.{config, Result, ok, err, ◌>>=◌, is_ascii_digit}
use openab_pty.Kill.{KillDomainRequirement, tier1_allowed, tier2_required}
use openab_pty.Session.Policy.{secs}
use openab_pty.Config.{Table, string, integer, boolean, get}

unfoldable pub required_string : Table → (key : List ℕ) → Result (List ℕ)
unfolding get
required_string es key = elim (get key es) [
  | some (string text) ↦ ok text
  | other ↦ err (config "[pty] key must be a string and is required")
]

unfoldable pub string_with_default : Table → (key default : List ℕ) → Result (List ℕ)
unfolding get
string_with_default es key default = elim (get key es) [
  | none ↦ ok default
  | some (string text) ↦ ok text
  | some other ↦ err (config "[pty] key must be a string")
]

unfoldable pub bool_with_default : Table → (key : List ℕ) (default : Bool) → Result Bool
unfolding get
bool_with_default es key default = elim (get key es) [
  | none ↦ ok default
  | some (boolean b) ↦ ok b
  | some other ↦ err (config "[pty] key must be a boolean")
]

-- An `i64` that is not negative fits a `usize`.
unfoldable pub usize_with_default : Table → (key : List ℕ) (default : ℕ) → Result ℕ
unfolding get
usize_with_default es key default = elim (get key es) [
  | none ↦ ok default
  | some (integer n) ↦ ok n
  | some other ↦ err (config "[pty] key must be a non-negative integer")
]

-- The digits that a text starts with, and the rest.
unfoldable pub split_digits : List ℕ → List ℕ × List ℕ
split_digits [] = ([], [])
split_digits (b ∷ bs) =
    let (number, unit) = split_digits bs in
    if is_ascii_digit b then (b ∷ number, unit) else ([], b ∷ bs)

-- `str::parse::<u64>` of digits, with what was read before.
unfoldable pub parse_from : (acc : ℕ) → List ℕ → Option ℕ
parse_from acc [] = some acc
parse_from acc (b ∷ bs) =
    let next = acc * 10 + (b - b'0') in
    let rest = parse_from next bs in if leb next u64_max then rest else none

unfoldable pub parse_u64 : List ℕ → Option ℕ
unfolding parse_from
parse_u64 [] = none
parse_u64 (b ∷ bs) = parse_from 0 (b ∷ bs)

-- The seconds of a unit.
unfoldable pub unit_seconds : List ℕ → Option ℕ
unit_seconds unit =
    if eq_bytes unit (codes "s")
    then some 1
    else if eq_bytes unit (codes "m")
    then some 60
    else if eq_bytes unit (codes "h")
    then some (60 * 60)
    else if eq_bytes unit (codes "d")
    then some (24 * 60 * 60)
    else none

unfoldable pub amount_in : (amount : ℕ) (unit : List ℕ) → Result ℕ
unfolding unit_seconds
amount_in amount unit =
    if amount == 0
    then err (config "duration must be greater than zero")
    else elim (unit_seconds unit) [
      | none ↦ err (config "duration unit must be s, m, h, or d")
      | some seconds ↦
          if leb (amount * seconds) u64_max
          then ok (secs (amount * seconds))
          else err (config "duration overflows")
    ]

unfoldable pub parse_duration : List ℕ → Result ℕ
unfolding split_digits parse_u64 amount_in
parse_duration text =
    let (number, unit) = split_digits text in
    elim unit [
      | [] ↦ err (config "duration needs a unit (s, m, h, d)")
      | b ∷ bs ↦ elim (parse_u64 number) [
        | none ↦ err (config "duration must be a positive integer duration")
        | some amount ↦ amount_in amount (b ∷ bs)
      ]
    ]

unfoldable pub duration_with_default : Table → (key default : List ℕ) → Result ℕ
unfolding string_with_default parse_duration
duration_with_default es key default = string_with_default es key default >>= parse_duration

unfoldable pub parse_kill_domain : List ℕ → Result KillDomainRequirement
parse_kill_domain text =
    if eq_bytes text (codes "tier1")
    then ok tier1_allowed
    else if eq_bytes text (codes "tier2-required")
    then ok tier2_required
    else err (config "kill_domain_tier must be tier1 or tier2-required")
