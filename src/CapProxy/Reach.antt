-- ===== src/CapProxy/Reach.antt =====
-- How far one look of the proxy reaches (runtime/src/capproxy.rs), and what a pass keeps.
use openab_pty.Base.{
  ℕ, zero, suc, ◌+◌, ◌≤◌, ◌<◌, ◌≡◌, refl, sym, ap, ◌∙◌, inl, inr, ◌&&◌, Option, none, some, List,
  [], ◌∷◌, length, get_or, get_elem?, ◌==◌, arith, Bool-cases, Option-cases,
}
use openab_pty.Scan.{bytes, Verdict, cut, pass, Cow, borrowed, owned, run, slice}
use openab_pty.Scan.Spec.{Fits}
use openab_pty.Scan.Run.{strip, run-eq-strip}
use openab_pty.Scan.Inv.{Kept, Result, run_inv}
use openab_pty.TermFilter
use openab_pty.TermFilter.{max_sequence_len, is_byte, is_final, backslash}
use openab_pty.TermFilter.Strings.{string_sequence_iff, string_sequence_bounds}
use openab_pty.CapProxy.Osc
use openab_pty.CapProxy.Kitty.{CapabilityProxy}
use openab_pty.CapProxy.Osc.{Match, osc_query, osc_face_colour, classify_osc_query}
use openab_pty.CapProxy.Inspect.{
  Inspection, answers, observed, unknown, dsr_private, dispatch_plain, dispatch_question,
  dispatch_marked, dispatch_csi, final_from, private_of, params_start, is_none, inspect_csi,
  inspect, after_look, look, conclude, process,
}

string_from-eq :
    (f : ℕ) (s : List ℕ) (body i : ℕ)
    → Osc.string_from f s body i ≡ TermFilter.string_from f s body i
unfolding Osc.string_from TermFilter.string_from
string_from-eq zero s body i = refl
string_from-eq (suc f) s body i = ground (arith, string_from-eq f s body (i + 1))

-- The proxy and the filter find the same string-terminated sequences, though each has its own scan.
pub string_sequence-eq :
    (s : List ℕ) (body : ℕ) → Osc.string_sequence s body ≡ TermFilter.string_sequence s body
unfolding Osc.string_sequence TermFilter.string_sequence
string_sequence-eq s body = string_from-eq (suc max_sequence_len) s body body

-- What a look recognises: at least a byte, and nothing past the slice.
abbrev pub Within : List ℕ → Inspection → Type 0
Within s (answers m) = (1 ≤ m.consume) × (m.consume ≤ length s)
Within s (observed len) = (1 ≤ len) × (len ≤ length s)
Within s unknown = Unit

osc_query_consume :
    (s payload : List ℕ) (len : ℕ) {m : Match} → osc_query s payload len ≡ some m → m.consume ≡ len
unfolding osc_query osc_face_colour
osc_query_consume s payload len h = ground arith

dispatch-Within :
    (p : CapabilityProxy) (marker : Option ℕ) (params s : List ℕ) (b len : ℕ)
    → 1 ≤ len
    → len ≤ length s
    → Within s (dispatch_csi p marker params b len).1
unfolding dispatch_csi dispatch_plain dispatch_question dispatch_marked dsr_private
dispatch-Within p marker params s b len h k = ground arith

final_from_bounds :
    (f : ℕ) (s : List ℕ) (i j : ℕ) → final_from f s i ≡ some j → (i ≤ j) × (j < length s)
unfolding final_from
final_from_bounds zero s i j h = absurd (ground arith)
final_from_bounds (suc f) s i j h = ground (arith, final_from_bounds f s (i + 1) j)

csi-Within : (p : CapabilityProxy) (s : List ℕ) → Within s (inspect_csi p s).1
unfolding inspect_csi
csi-Within p s = elim (Bool-cases (is_none (private_of s) && is_byte (get_elem? s 2) b':')) [
  | inl e ↦ rw (e, inspect_csi) tt
  | inr e ↦ elim (Option-cases (final_from max_sequence_len s (params_start (private_of s)))) [
    | inl n ↦ rw (e, n, inspect_csi) tt
    | inr (i, q) ↦
        let w = final_from_bounds max_sequence_len s (params_start (private_of s)) i q in
        rw (e, q, inspect_csi)
          (dispatch-Within p (private_of s) (slice s (params_start (private_of s)) i) s
            (get_or s i 0) (i + 1) (omega arith) (omega (arith, w)))
  ]
]

osc_bounds :
    (a b : ℕ) (l : List ℕ) (m : Match)
    → classify_osc_query (a ∷ b ∷ l) ≡ some m
    → (1 ≤ m.consume) × (m.consume ≤ length (a ∷ b ∷ l))
unfolding classify_osc_query
osc_bounds a b l m h = elim (Option-cases (Osc.string_sequence (a ∷ b ∷ l) 2)) [
  | inl e ↦ absurd (ground arith)
  | inr ((p, n), e) ↦
      let q = (string_sequence_iff a b l p n).0 (sym (string_sequence-eq (a ∷ b ∷ l) 2) ∙ e) in
      let c : m.consume ≡ n = osc_query_consume (a ∷ b ∷ l) p n {m = m} (ground arith) in
      omega (arith, string_sequence_bounds a b l p n q)
]

osc-Within :
    (p : CapabilityProxy) (a b : ℕ) (l : List ℕ) (o : Option Match)
    → classify_osc_query (a ∷ b ∷ l) ≡ o
    → Within
        (a ∷ b ∷ l)
        (elim o as (λ _. CapabilityProxy × Inspection) [
          | none ↦ (p, unknown)
          | some m ↦ (p, answers m)
        ]).1
osc-Within p a b l none e = tt
osc-Within p a b l (some m) e = osc_bounds a b l m e

pub inspect-Within : (p : CapabilityProxy) (s : List ℕ) → Within s (inspect p s).1
unfolding inspect
inspect-Within p [] = tt
inspect-Within p (a ∷ []) = tt
inspect-Within p (a ∷ b ∷ l) = elim (Bool-cases (b == b'[')) [
  | inl e ↦ rw (e, inspect) (csi-Within p (a ∷ b ∷ l))
  | inr ne ↦ elim (Bool-cases (b == b']')) [
    | inl e ↦ rw (ne, e, inspect) (osc-Within p a b l (classify_osc_query (a ∷ b ∷ l)) refl)
    | inr ne' ↦ ground arith
  ]
]

pub look-Fits : (p : CapabilityProxy × List ℕ) (s : List ℕ) → Fits s (look p s).1
unfolding look
look-Fits (p, responses) s = fits (inspect p s) (inspect-Within p s)
  where
    fits : (r : CapabilityProxy × Inspection) → Within s r.1 → Fits s (after_look responses r).1
    fits (q, answers m) w = w
    fits (q, observed len) w = w
    fits (q, unknown) w = tt

-- Without a copy there has been no answer.
abbrev Silent : Option (List ℕ) → CapabilityProxy × List ℕ → Type 0
Silent none s = s.1 ≡ []
Silent (some o) s = Unit

step-Silent :
    (out : Option (List ℕ)) (s : CapabilityProxy × List ℕ) (l : List ℕ)
    → Silent out s
    → Kept look Silent out (look s l).0 (look s l).1
unfolding look
step-Silent none s l h = by_case (inspect s.0 l)
  where
    by_case :
        (r : CapabilityProxy × Inspection)
        → Kept look Silent none (after_look s.1 r).0 (after_look s.1 r).1
    by_case (q, answers m) = λ o. tt
    by_case (q, observed len) = h
    by_case (q, unknown) = h
step-Silent (some o) s l h = any (look s l).0 (look s l).1
  where
    any : (t : CapabilityProxy × List ℕ) (v : Verdict) → Kept look Silent (some o) t v
    any t (cut n) = λ o. tt
    any t (pass n) = tt
    any t Verdict.unknown = tt

concluded :
    (c : Cow) (s : CapabilityProxy × List ℕ)
    → Result look Silent step-Silent (c, s)
    → ◌≡◌ {A = List ℕ × (CapabilityProxy × List ℕ)}
        (bytes (conclude c s).0, ((conclude c s).2, (conclude c s).1))
        (bytes c, s)
concluded (borrowed b) s r = ap (λ l. (b, (s.0, l))) (sym r)
concluded (owned b) s r = refl

-- A pass keeps the bytes of the plain recursion, and its answers and its state are that recursion's,
-- whether the chunk was copied or not.
pub process_lem :
    (p : CapabilityProxy) (chunk : List ℕ)
    → (bytes (process p chunk).0, ((process p chunk).2, (process p chunk).1))
      ≡ strip look chunk (p, [])
unfolding process
process_lem p chunk =
    concluded (run look chunk (p, [])).0 (run look chunk (p, [])).1
      (run_inv look Silent step-Silent chunk (p, []) refl)
    ∙ run-eq-strip look look-Fits chunk (p, [])
