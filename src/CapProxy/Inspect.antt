-- ===== src/CapProxy/Inspect.antt =====
-- Looking at one ESC-led slice, and the pass over a chunk (runtime/src/capproxy.rs).
use openab_pty.Base.{
  ℕ, zero, suc, ◌+◌, Bool, true, false, ◌&&◌, ◌||◌, Option, none, some, List, [], ◌∷◌, ◌++◌, length,
  get_or, get_elem?, ltb, leb, ◌==◌, if◌then◌else◌, codes, add_word,
}
use openab_pty.Scan.{esc, slice, Verdict, cut, pass, Cow, borrowed, owned, run}
use openab_pty.TermFilter.{max_sequence_len, is_byte, is_final}
use openab_pty.CapProxy.Text.{parse_params, show}
use openab_pty.CapProxy.Kitty.{
  CapabilityProxy, kitty_screen, kitty_push, kitty_set, kitty_pop, buffer_modes,
  reset_emulator_model,
}
use openab_pty.CapProxy.Osc.{Match, answer, classify_osc_query}

pub data Inspection : Type 0 where
  answers : Match → Inspection
  observed : ℕ → Inspection
  unknown : Inspection

abbrev pub csi : List ℕ → List ℕ
csi l = esc ∷ b'[' ∷ l

-- The macro checksum report, `ESC P id ! ~ 0000 ESC \`.
unfoldable pub checksum : ℕ → List ℕ
checksum id = esc ∷ b'P' ∷ (show id ++ (codes "!~0000" ++ (esc ∷ 0x5c ∷ [])))

-- The fixed private status reports.
unfoldable pub dsr_response : ℕ → ℕ → Option (List ℕ)
dsr_response p0 id =
    if p0 == 15
    then some (csi (codes "?10n"))
    else if p0 == 25
    then some (csi (codes "?21n"))
    else if p0 == 26
    then some (csi (codes "?27;1;0;0n"))
    else if p0 == 55
    then some (csi (codes "?53n"))
    else if p0 == 56
    then some (csi (codes "?57;1n"))
    else if p0 == 62
    then some (csi (codes "0*{"))
    else if p0 == 63
    then some (checksum id)
    else if p0 == 75
    then some (csi (codes "?70n"))
    else if p0 == 85
    then some (csi (codes "?83n"))
    else none

unfoldable pub dsr_private : List ℕ → ℕ → Inspection
dsr_private pars len = elim (dsr_response (get_or pars 0 0) (get_or pars 1 0)) [
  | some response ↦ answers (answer len response)
  | none ↦ observed len
]

abbrev pub primary_da : List ℕ
primary_da = csi (codes "?65;4;1;2;6;21;22;17;28c")

abbrev pub secondary_da : List ℕ
secondary_da = csi (codes ">65;20;1c")

unfoldable pub kitty_report : ℕ → List ℕ
kitty_report flags = csi (b'?' ∷ (show flags ++ codes "u"))

-- The dispatch with no private marker, with `?`, with `>`, with `=` and with `<`.
unfoldable pub dispatch_plain : CapabilityProxy → ℕ → ℕ → ℕ → CapabilityProxy × Inspection
dispatch_plain p p0 final_byte len =
    if (final_byte == b'c') && (p0 == 0)
    then (p, answers (answer len primary_da))
    else if (final_byte == b'n') && (p0 == 5)
    then (p, answers (answer len (csi (codes "0n"))))
    else (p, observed len)

unfoldable pub dispatch_question : CapabilityProxy → List ℕ → ℕ → ℕ → CapabilityProxy × Inspection
dispatch_question p pars final_byte len =
    if final_byte == b'n'
    then (p, dsr_private pars len)
    else if final_byte == b'u'
    then (let screen = kitty_screen p in (p, answers (answer len (kitty_report screen.flags))))
    else if final_byte == b'h'
    then (buffer_modes p pars true, observed len)
    else if final_byte == b'l'
    then (buffer_modes p pars false, observed len)
    else (p, observed len)

unfoldable pub dispatch_marked : CapabilityProxy → ℕ → List ℕ → ℕ → ℕ → CapabilityProxy × Inspection
dispatch_marked p marker pars final_byte len =
    if (marker == b'>') && (final_byte == b'c') && (p0 == 0)
    then (p, answers (answer len secondary_da))
    else if (marker == b'>') && (final_byte == b'u')
    then (kitty_push p p0, observed len)
    else if (marker == b'=') && (final_byte == b'u')
    then (kitty_set p p0 (if ltb 1 (length pars) then get_or pars 1 0 else 1), observed len)
    else if (marker == b'<') && (final_byte == b'u')
    then (kitty_pop p p0, observed len)
    else (p, observed len)
  where
    p0 : ℕ
    p0 = get_or pars 0 0

unfoldable pub dispatch_csi :
    CapabilityProxy → Option ℕ → List ℕ → ℕ → ℕ → CapabilityProxy × Inspection
dispatch_csi p private_marker params final_byte len = elim (parse_params params) [
  | none ↦ (p, observed len)
  | some pars ↦ elim private_marker [
    | none ↦ dispatch_plain p (get_or pars 0 0) final_byte len
    | some marker ↦
        if marker == b'?'
        then dispatch_question p pars final_byte len
        else dispatch_marked p marker pars final_byte len
  ]
]

-- The scan for the final byte, on fuel: its index.
unfoldable pub final_from : ℕ → List ℕ → ℕ → Option ℕ
final_from zero s i = none
final_from (suc fuel) s i =
    let next = final_from fuel s (i + 1) in
    let b = get_or s i 0 in
    if ltb i (length s) && leb i max_sequence_len
    then (if leb 0x30 b && leb b 0x3b then next else if is_final b then some i else none)
    else none

abbrev pub is_marker : ℕ → Bool
is_marker b = (b == b'?') || (b == b'>') || (b == b'=') || (b == b'<')

unfoldable pub private_of : List ℕ → Option ℕ
private_of s = elim (get_elem? s 2) [ none ↦ none | some b ↦ if is_marker b then some b else none ]

abbrev pub is_none : Option ℕ → Bool
is_none none = true
is_none (some b) = false

abbrev pub params_start : Option ℕ → ℕ
params_start none = 2
params_start (some b) = 3

unfoldable pub inspect_csi : CapabilityProxy → List ℕ → CapabilityProxy × Inspection
inspect_csi p s =
    if is_none private_marker && is_byte (get_elem? s 2) b':'
    then (p, unknown)
    else elim (final_from max_sequence_len s start) [
      | none ↦ (p, unknown)
      | some i ↦ dispatch_csi p private_marker (slice s start i) (get_or s i 0) (i + 1)
    ]
  where
    private_marker : Option ℕ
    private_marker = private_of s

    start : ℕ
    start = params_start private_marker

unfoldable pub inspect : CapabilityProxy → List ℕ → CapabilityProxy × Inspection
inspect p s = elim (get_elem? s 1) [
  | none ↦ (p, unknown)
  | some b ↦
      if b == b'['
      then inspect_csi p s
      else if b == b']'
      then elim (classify_osc_query s) [ none ↦ (p, unknown) | some m ↦ (p, answers m) ]
      else if b == b'c'
      then (reset_emulator_model p, observed 2)
      else (p, unknown)
]

-- One round of `process`: the proxy with the responses so far.
abbrev pub after_look : List ℕ → CapabilityProxy × Inspection → (CapabilityProxy × List ℕ) × Verdict
after_look responses (p, answers m) =
    ((record p { answered = add_word p.answered 1 }, responses ++ m.response), cut m.consume)
after_look responses (p, observed len) = ((p, responses), pass len)
after_look responses (p, unknown) = ((p, responses), Verdict.unknown)

unfoldable pub look : CapabilityProxy × List ℕ → List ℕ → (CapabilityProxy × List ℕ) × Verdict
look (p, responses) s = after_look responses (inspect p s)

-- `match out`: without a copy there was no answer.
abbrev pub conclude : Cow → CapabilityProxy × List ℕ → Cow × List ℕ × CapabilityProxy
conclude (borrowed b) s = (borrowed b, [], s.0)
conclude (owned b) s = (owned b, s.1, s.0)

-- What is kept of the chunk, the bytes to write back to the child, and the proxy.
unfoldable pub process : CapabilityProxy → List ℕ → Cow × List ℕ × CapabilityProxy
process p chunk = let (out, s) = run look chunk (p, []) in conclude out s

unfoldable pub resync : CapabilityProxy → List ℕ → CapabilityProxy
resync p replay =
    let p' = reset_emulator_model p in
    let (out, responses, p'') = process p' replay in record p'' { answered = p'.answered }
