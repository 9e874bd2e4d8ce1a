-- ===== src/AdminAuth/Table.antt =====
-- The failure table of runtime/src/admin_auth.rs: bounded, and no eviction touches an active block.
pub mod Entries
use mathlib.Core.Path.{subst}
use openab_pty.Base.{
  Distinct, later_found, apart_keys, ℕ, ◌+◌, ◌≤◌, ◌≡◌, refl, sym, ◌∙◌, ap, ◌⊎◌, inl, inr, true,
  false, Option, none, some, List, [], ◌∷◌, arith, length, ltb, if◌then◌else◌, Bool-cases,
  Bool-split, Option-split, eq_bytes, eq_bytes_iff, eq_bytes_refl, lt_bytes, lookup, insert, remove,
  lookup-insert, lookup-remove,
}
use openab_pty.AdminAuth.{
  FailureState, Failures, is_blocked, modify, keep, prune, older, victim, make_room,
}
use openab_pty.AdminAuth.Table.Entries.{IsBounded, remove-IsBounded}

older_case :
    (first : List ℕ × FailureState) (o : Option (List ℕ × FailureState))
    → (older first o ≡ first) ⊎ (o ≡ some (older first o))
unfolding older
older_case first none = inl refl
older_case first (some second) = ground arith

some_inj : {a b : List ℕ × FailureState} → some a ≡ some b → a ≡ b
some_inj p = cc

-- A victim has an entry of its own, which is not blocked.
victim_found :
    (now : ℕ) (m : Failures) (v : List ℕ × FailureState)
    → Distinct m
    → victim now m ≡ some v
    → (lookup v.0 m ≡ some v.1) × (is_blocked v.1 now ≡ false)
unfolding victim lookup
victim_found now [] v h e = absurd (none_ne_some e)
  where
    none_ne_some : {a : List ℕ × FailureState} → none ≡ some a → ⊥
    none_ne_some p = cc
victim_found now ((i, entry) ∷ m) v h e = elim (Bool-cases (is_blocked entry now)) [
  | inl blocked ↦
      let e' : victim now m ≡ some v =
        sym (ap (λ t. if t then victim now m else some (older (i, entry) (victim now m))) blocked)
        ∙ e in
      let (found, free) = victim_found now m v h.1 e' in
      (later_found i v.0 entry v.1 m h.0 found, free)
  | inr free ↦
      let e' : older (i, entry) (victim now m) ≡ v = some_inj (
        sym (ap (λ t. if t then victim now m else some (older (i, entry) (victim now m))) free)
        ∙ e) in
      elim (older_case (i, entry) (victim now m)) [
        | inl this ↦
            subst
              (λ (w : List ℕ × FailureState).
                (lookup w.0 ((i, entry) ∷ m) ≡ some w.1) × (is_blocked w.1 now ≡ false))
              (sym this ∙ e')
              (ap (λ t. if t then some entry else lookup i m) (eq_bytes_refl i), free)
        | inr that ↦
            let (found, free') = victim_found now m v h.1 (that ∙ ap some e') in
            (later_found i v.0 entry v.1 m h.0 found, free')
      ]
]

-- A blocked entry and one that is not have different keys.
unlike :
    (now : ℕ) (i k : List ℕ) (e f : FailureState) (m : Failures)
    → lookup i m ≡ some f
    → lookup k m ≡ some e
    → is_blocked f now ≡ false
    → is_blocked e now ≡ true
    → eq_bytes i k ≡ false
unlike now i k e f m found h free b =
    apart_keys i k f e m found h (λ s. contrary (sym b ∙ ap (λ x. is_blocked x now) (sym s) ∙ free))
  where
    contrary : true ≡ false → ⊥
    contrary p = cc

-- Making room takes no blocked entry.
pub make_room_kept :
    (now : ℕ) (k : List ℕ) (e : FailureState) (m : Failures)
    → Distinct m
    → lookup k m ≡ some e
    → is_blocked e now ≡ true
    → lookup k (make_room now m) ≡ some e
unfolding make_room
make_room_kept now k e m d h b =
    Bool-split (λ n. lookup k n ≡ some e) (ltb (length m) 256) (λ f. h)
      (λ f.
        Option-split (λ n. lookup k n ≡ some e) (victim now m) (λ g. h)
          (λ v g.
            let (found, free) = victim_found now m v d g in
            lookup-remove v.0 k m
            ∙ ap (λ t. if t then none else lookup k m) (unlike now v.0 k e v.1 m found h free b)
            ∙ h))

pub make_room-IsBounded : (now : ℕ) (m : Failures) → IsBounded m → IsBounded (make_room now m)
unfolding make_room
make_room-IsBounded now m b =
    Bool-split IsBounded (ltb (length m) 256) (λ e. b)
      (λ e. Option-split IsBounded (victim now m) (λ f. b) (λ v f. remove-IsBounded v.0 m b))
