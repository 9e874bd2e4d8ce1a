-- ===== src/CapProxy/Osc.antt =====
-- Colour queries `OSC 10`, `OSC 11` and `OSC 12` (runtime/src/capproxy.rs).
use openab_pty.Base.{
  ℕ, zero, suc, ◌+◌, ◌-◌, ◌&&◌, Option, none, some, List, [], ◌∷◌, ◌++◌, length, take, drop, get_or,
  get_elem?, ltb, leb, ◌==◌, if◌then◌else◌, codes,
}
use mathlib.Core.Option
use openab_pty.Scan.{esc, bel, slice}
use openab_pty.TermFilter.{max_sequence_len, backslash, is_byte, starts_with}
use openab_pty.CapProxy.Text.{split, parse_decimal, show, is_colour}

-- `struct Match`.
pub record Match : Type 0 where
  pub consume : ℕ
  pub response : List ℕ

abbrev pub answer : ℕ → List ℕ → Match
answer consume response = record { consume = consume; response = response }

-- The scan for the terminator, on fuel.
unfoldable pub string_from : ℕ → List ℕ → ℕ → ℕ → Option (List ℕ × ℕ)
string_from zero s code_offset i = none
string_from (suc fuel) s code_offset i =
    let next = string_from fuel s code_offset (i + 1) in
    if ltb i (length s) && leb i max_sequence_len
    then (if get_or s i 0 == bel
        then some (slice s code_offset i, i + 1)
        else if get_or s i 0 == esc
        then (if is_byte (get_elem? s (i + 1)) backslash
            then some (slice s code_offset i, i + 2)
            else next)
        else next)
    else none

unfoldable pub string_sequence : List ℕ → ℕ → Option (List ℕ × ℕ)
string_sequence s code_offset = string_from (suc max_sequence_len) s code_offset code_offset

abbrev pub fg_colour : List ℕ
fg_colour = codes "rgb:c7c7/c7c7/c7c7"

abbrev pub bg_colour : List ℕ
bg_colour = codes "rgb:1e1e/1e1e/1e1e"

abbrev pub cursor_colour : List ℕ
cursor_colour = fg_colour

unfoldable pub push_colour_report : List ℕ → ℕ → List ℕ → List ℕ → List ℕ
push_colour_report out code colour terminator =
    out ++ (esc ∷ b']' ∷ (show code ++ (b';' ∷ (colour ++ terminator))))

unfoldable pub colour_of : ℕ → Option (List ℕ)
colour_of target =
    if target == 0
    then some fg_colour
    else if target == 1
    then some bg_colour
    else if target == 2
    then some cursor_colour
    else none

-- The groups that are not empty.
unfoldable pub non_empty : List (List ℕ) → List (List ℕ)
non_empty [] = []
non_empty ([] ∷ gs) = non_empty gs
non_empty ((x ∷ g) ∷ gs) = (x ∷ g) ∷ non_empty gs

-- The loop over the groups: `target` is `base + offset`; `none` is the early return.
unfoldable pub walk_groups : List (List ℕ) → ℕ → List ℕ → List ℕ → Option (List ℕ)
walk_groups [] target terminator response = some response
walk_groups (group ∷ groups) target terminator response =
    let skipped = walk_groups groups (target + 1) terminator response in
    if starts_with (codes "?") group
    then elim (colour_of target) [
      | none ↦ skipped
      | some colour ↦
          walk_groups groups (target + 1) terminator
            (push_colour_report response (10 + target) colour terminator)
    ]
    else if leb target 2 && is_colour group
    then none
    else skipped

unfoldable pub osc_face_colour : ℕ → List ℕ → ℕ → List ℕ → Option Match
osc_face_colour base rest len terminator =
    elim (walk_groups (non_empty (split (λ b. b == b';') rest)) base terminator []) [
      | none ↦ none
      | some response ↦ some (answer len response)
    ]

-- `iter().position(|&b| b == b';')`.
unfoldable pub position : ℕ → List ℕ → Option ℕ
position b [] = none
position b (x ∷ xs) = let rest = Option.map suc (position b xs) in if x == b then some 0 else rest

unfoldable pub osc_query : List ℕ → List ℕ → ℕ → Option Match
osc_query s payload len = elim (position b';' payload) [
  | none ↦ none
  | some sep ↦ elim (parse_decimal (take sep payload)) [
    | none ↦ none
    | some ps ↦
        if leb 10 ps && leb ps 12
        then osc_face_colour (ps - 10) (drop (sep + 1) payload) len terminator
        else none
  ]
]
  where
    terminator : List ℕ
    terminator = if get_or s (len - 1) 0 == bel then bel ∷ [] else esc ∷ backslash ∷ []

unfoldable pub classify_osc_query : List ℕ → Option Match
classify_osc_query s = elim (string_sequence s 2) [
  | none ↦ none
  | some (payload, len) ↦ osc_query s payload len
]
