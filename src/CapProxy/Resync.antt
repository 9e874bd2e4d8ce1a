-- ===== src/CapProxy/Resync.antt =====
-- What `CapabilityProxy::resync` (runtime/src/capproxy.rs) leaves.
use openab_pty.Base.{
  ℕ, add_word, ◌+◌, ◌≡◌, refl, sym, ap, ◌∙◌, inl, inr, ◌&&◌, Option, none, some, List, [], ◌∷◌,
  get_or, get_elem?, ◌==◌, if◌then◌else◌, arith, Bool-cases, Option-cases,
}
use openab_pty.Scan.Inv.{strip_rel}
use openab_pty.TermFilter.{is_byte, max_sequence_len}
use openab_pty.CapProxy.Text.{parse_params}
use openab_pty.CapProxy.Kitty.{
  CapabilityProxy, new, kitty_screen, kitty_push, kitty_set, kitty_pop, buffer_modes,
  reset_emulator_model,
}
use openab_pty.CapProxy.Inspect.{
  Inspection, answers, observed, unknown, dispatch_plain, dispatch_question, dispatch_marked,
  dispatch_csi, final_from, private_of, params_start, is_none, inspect_csi, inspect, after_look,
  look, process, resync,
}
use openab_pty.CapProxy.Reach.{process_lem}

-- The same kitty model with another count of answers.
abbrev pub relabel : ℕ → CapabilityProxy → CapabilityProxy
relabel k p = record p { answered = k }

-- A result on the relabelled proxy.
abbrev relabel_first : ℕ → CapabilityProxy × Inspection → CapabilityProxy × Inspection
relabel_first k r = (relabel k r.0, r.1)

-- A look neither reads nor writes the count.
module _ (k : ℕ) (p : CapabilityProxy) where
  marked-relabel :
      (m : ℕ) (pars : List ℕ) (b len : ℕ)
      → dispatch_marked (relabel k p) m pars b len
        ≡ relabel_first k (dispatch_marked p m pars b len)
  unfolding dispatch_marked kitty_push kitty_set kitty_pop
  marked-relabel m pars b len = ground arith

  question-relabel :
      (pars : List ℕ) (b len : ℕ)
      → dispatch_question (relabel k p) pars b len
        ≡ relabel_first k (dispatch_question p pars b len)
  unfolding dispatch_question buffer_modes kitty_screen
  question-relabel pars b len = ground arith

  plain-relabel :
      (p0 b len : ℕ)
      → dispatch_plain (relabel k p) p0 b len ≡ relabel_first k (dispatch_plain p p0 b len)
  unfolding dispatch_plain
  plain-relabel p0 b len = ground arith

  dispatch-relabel :
      (marker : Option ℕ) (params : List ℕ) (b len : ℕ)
      → dispatch_csi (relabel k p) marker params b len
        ≡ relabel_first k (dispatch_csi p marker params b len)
  unfolding dispatch_csi
  dispatch-relabel marker params b len = elim (Option-cases (parse_params params)) [
    | inl e ↦ rw (e, dispatch_csi) refl
    | inr (pars, e) ↦ rw (e, dispatch_csi) (by_marker pars marker)
  ]
    where
      on : CapabilityProxy → List ℕ → Option ℕ → CapabilityProxy × Inspection
      on q pars marker = elim marker [
        | none ↦ dispatch_plain q (get_or pars 0 0) b len
        | some m ↦
            if m == b'?' then dispatch_question q pars b len else dispatch_marked q m pars b len
      ]

      by_marker :
          (pars : List ℕ) (marker : Option ℕ)
          → on (relabel k p) pars marker ≡ relabel_first k (on p pars marker)
      by_marker pars none = plain-relabel (get_or pars 0 0) b len
      by_marker pars (some m) = elim (Bool-cases (m == b'?')) [
        | inl e ↦ rw e (question-relabel pars b len)
        | inr e ↦ rw e (marked-relabel m pars b len)
      ]

  csi-relabel : (s : List ℕ) → inspect_csi (relabel k p) s ≡ relabel_first k (inspect_csi p s)
  unfolding inspect_csi
  csi-relabel s = elim (Bool-cases (is_none (private_of s) && is_byte (get_elem? s 2) b':')) [
    | inl e ↦ rw (e, inspect_csi) refl
    | inr e ↦ elim (Option-cases (final_from max_sequence_len s (params_start (private_of s)))) [
      | inl n ↦ rw (e, n, inspect_csi) refl
      | inr (i, q) ↦
          rw (e, q, inspect_csi) (dispatch-relabel (private_of s) _ (get_or s i 0) (i + 1))
    ]
  ]

  inspect-relabel : (s : List ℕ) → inspect (relabel k p) s ≡ relabel_first k (inspect p s)
  unfolding inspect reset_emulator_model
  inspect-relabel [] = refl
  inspect-relabel (a ∷ []) = refl
  inspect-relabel (a ∷ b ∷ l) = ground (arith, csi-relabel (a ∷ b ∷ l))

-- Two states of the pass with the same kitty model.
abbrev Alike : CapabilityProxy × List ℕ → CapabilityProxy × List ℕ → Type 0
Alike s t = (k : ℕ) × (s.0 ≡ relabel k t.0)

look-Alike :
    (s t : CapabilityProxy × List ℕ) (l : List ℕ)
    → Alike s t
    → Alike (look s l).0 (look t l).0 × ((look s l).1 ≡ (look t l).1)
unfolding look
look-Alike s t l (k, e) =
    rw (ap (λ q. inspect q l) e ∙ inspect-relabel k t.0 l) (by_case s.1 t.1 (inspect t.0 l))
  where
    by_case :
        (r r' : List ℕ) (i : CapabilityProxy × Inspection)
        → Alike (after_look r (relabel_first k i)).0 (after_look r' i).0
          × ((after_look r (relabel_first k i)).1 ≡ (after_look r' i).1)
    by_case r r' (q, answers m) = ((add_word k 1, refl), refl)
    by_case r r' (q, observed len) = ((k, refl), refl)
    by_case r r' (q, unknown) = ((k, refl), refl)

process-relabel :
    (k : ℕ) (p : CapabilityProxy) (chunk : List ℕ)
    → (j : ℕ) × ((process (relabel k p) chunk).2 ≡ relabel j (process p chunk).2)
process-relabel k p chunk =
    let (_, (j, e)) = strip_rel look Alike look-Alike chunk (relabel k p, []) (p, []) (k, refl) in
    (
      j,
      ap (λ r. r.1.0) (process_lem (relabel k p) chunk)
          ∙ e
          ∙ sym (ap (λ r. relabel j r.1.0) (process_lem p chunk)),
    )

-- After `resync` the kitty model is that of a new proxy which has seen exactly the replay,
-- whatever the model was before, and the count of answers is unchanged.
pub resync_lem :
    (p : CapabilityProxy) (replay : List ℕ)
    → resync p replay ≡ record (process new replay).2 { answered = p.answered }
unfolding resync reset_emulator_model new
resync_lem p replay =
    let (j, e) = process-relabel p.answered new replay in ap (relabel p.answered) e
