-- ===== src/CapProxy/Model.antt =====
-- The kitty model's bounds, and how it is brought in line with a client (runtime/src/capproxy.rs).
use Prim.Native.Nat.{bit_and, bit_or, bit_xor}
use openab_pty.Base.{
  ℕ, zero, suc, ◌+◌, ◌-◌, ◌≤◌, ◌<◌, ◌≡◌, refl, inl, inr, true, ◌&&◌, Option, none, some, List, [],
  ◌∷◌, length, take, max, get_or, get_elem?, ltb, ltb→lt, ◌%◌, ◌==◌, if◌then◌else◌, arith,
  Bool-cases, Option-cases, every, every-at, length-take,
}
use openab_pty.Scan.{slice, run, borrowed, owned, Cow}
use openab_pty.Scan.Inv.{Kept, Result, run_inv}
use openab_pty.TermFilter.{is_byte, max_sequence_len}
use openab_pty.CapProxy.Text.{parse_params}
use openab_pty.CapProxy.Kitty.{
  KittyScreen, default_screen, CapabilityProxy, kitty_screen, set_screen, push_screen, kitty_push,
  set_flags, kitty_set, pop_times, pop_screen, kitty_pop, buffer_modes, reset_emulator_model,
  kitty_stack_limit,
}
use openab_pty.CapProxy.Inspect.{
  Inspection, answers, observed, unknown, dispatch_plain, dispatch_question, dispatch_marked,
  dispatch_csi, final_from, private_of, params_start, is_none, inspect_csi, inspect, after_look,
  look, conclude, process, resync,
}

or_table : every 0 32 (λ a. every 0 32 (λ b. ltb (bit_or a b) 32)) ≡ true
unfolding every
or_table = refl

without_table : every 0 32 (λ a. every 0 32 (λ b. ltb (bit_and a (bit_xor b 0xffff)) 32)) ≡ true
unfolding every
without_table = refl

or-lt : (a b : ℕ) → a < 32 → b < 32 → bit_or a b < 32
or-lt a b h k = ltb→lt _ _ (
    every-at 0 32 (λ b. ltb (bit_or a b) 32)
      (every-at 0 32 (λ a. every 0 32 (λ b. ltb (bit_or a b) 32)) or_table a (omega arith) h) b
      (omega arith) k)

without-lt : (a b : ℕ) → a < 32 → b < 32 → bit_and a (bit_xor b 0xffff) < 32
without-lt a b h k = ltb→lt _ _ (
    every-at 0 32 (λ b. ltb (bit_and a (bit_xor b 0xffff)) 32)
      (every-at 0 32 (λ a. every 0 32 (λ b. ltb (bit_and a (bit_xor b 0xffff)) 32)) without_table a
        (omega arith) h)
      b (omega arith) k)

abbrev pub AllKnown : List ℕ → Type 0
AllKnown [] = Unit
AllKnown (f ∷ fs) = (f < 32) × AllKnown fs

-- One screen: five known flag bits, now and in every saved entry, and at most 16 entries.
pub record ScreenIsValid (s : KittyScreen) : Type 0 where
  pub known : s.flags < 32
  pub saved : AllKnown s.stack
  pub bounded : length s.stack ≤ kitty_stack_limit

pub record IsValid (p : CapabilityProxy) : Type 0 where
  pub normal : ScreenIsValid p.normal
  pub alternate : ScreenIsValid p.alternate

AllKnown-take : (n : ℕ) (fs : List ℕ) → AllKnown fs → AllKnown (take n fs)
AllKnown-take zero fs h = tt
AllKnown-take (suc n) [] h = tt
AllKnown-take (suc n) (f ∷ fs) h = (h.0, AllKnown-take n fs h.1)

push-ScreenIsValid :
    (s : KittyScreen) (raw : ℕ) → ScreenIsValid s → ScreenIsValid (push_screen s raw)
unfolding push_screen
push-ScreenIsValid s raw v =
    ground
      (arith, AllKnown-take (length s.stack - 1) s.stack, length-take (length s.stack - 1) s.stack)

set-ScreenIsValid :
    (s : KittyScreen) (raw mode : ℕ) → ScreenIsValid s → ScreenIsValid (set_flags s raw mode)
unfolding set_flags
set-ScreenIsValid s raw mode v =
    ground (arith, or-lt s.flags (raw % 32), without-lt s.flags (raw % 32))

pop_times-ScreenIsValid :
    (n flags : ℕ) (stack : List ℕ)
    → flags < 32
    → AllKnown stack
    → length stack ≤ kitty_stack_limit
    → ScreenIsValid (pop_times n flags stack)
unfolding pop_times
pop_times-ScreenIsValid zero flags stack a b c = record { known = a; saved = b; bounded = c }
pop_times-ScreenIsValid (suc n) flags [] a b c = pop_times-ScreenIsValid n flags [] a b c
pop_times-ScreenIsValid (suc n) flags (t ∷ ts) a b c =
    pop_times-ScreenIsValid n t ts b.0 b.1 (omega arith)

pop-ScreenIsValid : (s : KittyScreen) (n : ℕ) → ScreenIsValid s → ScreenIsValid (pop_screen s n)
unfolding pop_screen
pop-ScreenIsValid s n v =
    ground (arith, pop_times-ScreenIsValid (max n 1) s.flags s.stack v.known v.saved v.bounded)

screen-IsValid : (p : CapabilityProxy) → IsValid p → ScreenIsValid (kitty_screen p)
unfolding kitty_screen
screen-IsValid p v = ground arith

set_screen-IsValid :
    (p : CapabilityProxy) (s : KittyScreen) → IsValid p → ScreenIsValid s → IsValid (set_screen p s)
unfolding set_screen
set_screen-IsValid p s v w = ground arith

module _ (p : CapabilityProxy) (v : IsValid p) where
  marked-IsValid :
      (marker : ℕ) (pars : List ℕ) (b len : ℕ) → IsValid (dispatch_marked p marker pars b len).0
  unfolding dispatch_marked kitty_push kitty_set kitty_pop
  marked-IsValid marker pars b len =
      let p0 = get_or pars 0 0 in
      let s = kitty_screen p in
      let w = screen-IsValid p v in
      ground (
        arith,
        set_screen-IsValid p (push_screen s p0) v (push-ScreenIsValid s p0 w),
        set_screen-IsValid p (set_flags s p0 (get_or pars 1 0)) v
            (set-ScreenIsValid s p0 (get_or pars 1 0) w),
        set_screen-IsValid p (set_flags s p0 1) v (set-ScreenIsValid s p0 1 w),
        set_screen-IsValid p (pop_screen s p0) v (pop-ScreenIsValid s p0 w),
      )

  question-IsValid : (pars : List ℕ) (b len : ℕ) → IsValid (dispatch_question p pars b len).0
  unfolding dispatch_question buffer_modes
  question-IsValid pars b len = ground arith

  plain-IsValid : (p0 b len : ℕ) → IsValid (dispatch_plain p p0 b len).0
  unfolding dispatch_plain
  plain-IsValid p0 b len = ground arith

  dispatch-IsValid :
      (marker : Option ℕ) (params : List ℕ) (b len : ℕ)
      → IsValid (dispatch_csi p marker params b len).0
  unfolding dispatch_csi
  dispatch-IsValid marker params b len = by_case (parse_params params) marker
    where
      by_case :
          (o : Option (List ℕ)) (marker : Option ℕ)
          → IsValid
              (elim o as (λ _. CapabilityProxy × Inspection) [
                | none ↦ (p, observed len)
                | some pars ↦ elim marker [
                  | none ↦ dispatch_plain p (get_or pars 0 0) b len
                  | some marker ↦
                      if marker == b'?'
                      then dispatch_question p pars b len
                      else dispatch_marked p marker pars b len
                ]
              ]).0
      by_case none marker = v
      by_case (some pars) none = plain-IsValid (get_or pars 0 0) b len
      by_case (some pars) (some m) = elim (Bool-cases (m == b'?')) [
        | inl e ↦ rw e (question-IsValid pars b len)
        | inr e ↦ rw e (marked-IsValid m pars b len)
      ]

  csi-IsValid : (s : List ℕ) → IsValid (inspect_csi p s).0
  unfolding inspect_csi
  csi-IsValid s = elim (Bool-cases (is_none (private_of s) && is_byte (get_elem? s 2) b':')) [
    | inl e ↦ rw (e, inspect_csi) v
    | inr e ↦ elim (Option-cases (final_from max_sequence_len s (params_start (private_of s)))) [
      | inl n ↦ rw (e, n, inspect_csi) v
      | inr (i, q) ↦
          rw (e, q, inspect_csi)
            (dispatch-IsValid (private_of s) (slice s (params_start (private_of s)) i)
              (get_or s i 0) (i + 1))
    ]
  ]

  inspect-IsValid : (s : List ℕ) → IsValid (inspect p s).0
  unfolding inspect reset_emulator_model
  inspect-IsValid [] = v
  inspect-IsValid (a ∷ []) = v
  inspect-IsValid (a ∷ b ∷ l) = elim (Bool-cases (b == b'[')) [
    | inl e ↦ rw (e, inspect) (csi-IsValid (a ∷ b ∷ l))
    | inr ne ↦ ground arith
  ]

abbrev Valid : Option (List ℕ) → CapabilityProxy × List ℕ → Type 0
Valid out s = IsValid s.0

look-IsValid :
    (out : Option (List ℕ)) (s : CapabilityProxy × List ℕ) (l : List ℕ)
    → IsValid s.0
    → Kept look Valid out (look s l).0 (look s l).1
unfolding look
look-IsValid out s l h = by_case (inspect s.0 l) (inspect-IsValid s.0 h l)
  where
    by_case :
        (r : CapabilityProxy × Inspection)
        → IsValid r.0
        → Kept look Valid out (after_look s.1 r).0 (after_look s.1 r).1
    by_case (q, answers m) w = λ o. record { normal = w.normal; alternate = w.alternate }
    by_case (q, observed len) w = w
    by_case (q, unknown) w = w

run-IsValid :
    (c : Cow) (s : CapabilityProxy × List ℕ)
    → Result look Valid look-IsValid (c, s)
    → IsValid (conclude c s).2
run-IsValid (borrowed b) s r = r
run-IsValid (owned b) s r = r.1

-- Whatever the child writes, both kitty screens of a valid model keep at most 16 saved entries and
-- only the five known flag bits, in the flags and in every saved entry.
pub process-IsValid :
    (p : CapabilityProxy) (chunk : List ℕ) → IsValid p → IsValid (process p chunk).2
unfolding process
process-IsValid p chunk v =
    run-IsValid (run look chunk (p, [])).0 (run look chunk (p, [])).1
      (run_inv look Valid look-IsValid chunk (p, []) v)

-- The same holds after a `resync`, from any model at all.
pub resync-IsValid : (p : CapabilityProxy) (replay : List ℕ) → IsValid (resync p replay)
unfolding resync reset_emulator_model
resync-IsValid p replay =
    let w = process-IsValid (reset_emulator_model p) replay fresh in
    record { normal = w.normal; alternate = w.alternate }
  where
    default-ScreenIsValid : ScreenIsValid default_screen
    default-ScreenIsValid = record { known = omega arith; saved = tt; bounded = omega arith }

    fresh : IsValid (reset_emulator_model p)
    fresh = record { normal = default-ScreenIsValid; alternate = default-ScreenIsValid }
