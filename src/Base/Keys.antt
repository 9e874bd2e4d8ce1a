-- ===== src/Base/Keys.antt =====
-- Maps keyed by bytes that have one entry for each key.
use mathlib.Core.Path.{◌≡◌, refl, sym, ap, ◌∙◌}
use mathlib.Core.Logic.{◌≢◌, inl, inr}
use mathlib.Core.Bool.{false}
use mathlib.Core.Option.{none, some}
use mathlib.Core.List.{List, [], ◌∷◌}
use native.Mathlib.Omega.{arith}
use Prim.Native.Nat.{ℕ, ◌+◌, ◌≤◌}
use openab_pty.Base.Tests.{if◌then◌else◌, Bool-cases, Bool-split}
use openab_pty.Base.Lists.{length}
use openab_pty.Base.Maps.{
  eq_bytes, eq_bytes_iff, lt_bytes, lookup, insert, remove, lookup-insert, lookup-remove,
}

module _ {ℓ} {V : Type ℓ} where
  -- No key has two entries.
  abbrev pub Distinct : List (List ℕ × V) → Type ℓ
  Distinct [] = Unit
  Distinct ((key, entry) ∷ m) = (lookup key m ≡ none) × Distinct m

  remove-none :
      (k j : List ℕ) (m : List (List ℕ × V)) → lookup j m ≡ none → lookup j (remove k m) ≡ none
  remove-none k j m h = ground (arith, lookup-remove k j m, h)

  pub remove-Distinct : (k : List ℕ) (m : List (List ℕ × V)) → Distinct m → Distinct (remove k m)
  unfolding remove
  remove-Distinct k [] h = tt
  remove-Distinct k ((i, e) ∷ m) h =
      Bool-split Distinct (eq_bytes i k) (λ b. remove-Distinct k m h.1)
        (λ b. (remove-none k i m h.0, remove-Distinct k m h.1))

  pub length-remove : (k : List ℕ) (m : List (List ℕ × V)) → length (remove k m) ≤ length m
  unfolding remove
  length-remove k [] = omega arith
  length-remove k ((i, e) ∷ m) = ground (arith, length-remove k m)

  insert_none :
      (k j : List ℕ) (e : V) (m : List (List ℕ × V))
      → lookup j m ≡ none
      → eq_bytes k j ≡ false
      → lookup j (insert k e m) ≡ none
  insert_none k j e m h apart = ground (arith, lookup-insert k j e m, h, apart)

  absent_after :
      (k i : List ℕ) (e : V) (m : List (List ℕ × V))
      → lookup k ((i, e) ∷ m) ≡ none
      → (eq_bytes k i ≡ false) × (lookup k m ≡ none)
  unfolding lookup
  absent_after k i e m n = elim (Bool-cases (eq_bytes i k)) [
    | inl same ↦ absurd (some_ne_none (sym (ap (λ t. if t then some e else lookup k m) same) ∙ n))
    | inr apart ↦ (
      ground (arith, eq_bytes_iff i k, eq_bytes_iff k i, apart),
      sym (ap (λ t. if t then some e else lookup k m) apart) ∙ n,
    )
  ]
    where
      some_ne_none : {a : V} → some a ≡ none → ⊥
      some_ne_none p = cc

  pub insert-Distinct :
      (k : List ℕ) (e : V) (m : List (List ℕ × V))
      → lookup k m ≡ none
      → Distinct m
      → Distinct (insert k e m)
  unfolding insert lookup
  insert-Distinct k e [] n h = (refl, tt)
  insert-Distinct k e ((i, e') ∷ m) n h =
      let (apart, later) = absent_after k i e' m n in
      Bool-split Distinct (eq_bytes i k) (λ b. (later, h.1))
        (λ b.
          Bool-split Distinct (lt_bytes k i) (λ c. (n, h))
            (λ c. (insert_none k i e m h.0 apart, insert-Distinct k e m later h.1)))

  pub length-insert :
      (k : List ℕ) (e : V) (m : List (List ℕ × V)) → length (insert k e m) ≤ length m + 1
  unfolding insert
  length-insert k e [] = omega arith
  length-insert k e ((i, e') ∷ m) = ground (arith, length-insert k e m)

  pub later_found :
      (i k : List ℕ) (entry e : V) (m : List (List ℕ × V))
      → lookup i m ≡ none
      → lookup k m ≡ some e
      → lookup k ((i, entry) ∷ m) ≡ some e
  unfolding lookup
  later_found i k entry e m n h = elim (Bool-cases (eq_bytes i k)) [
    | inl same ↦
        let s = ap (λ j. lookup j m) ((eq_bytes_iff i k).0 same) in absurd (none_ne (sym n ∙ s ∙ h))
    | inr apart ↦ ap (λ t. if t then some entry else lookup k m) apart ∙ h
  ]
    where
      none_ne : {a : V} → none ≡ some a → ⊥
      none_ne p = cc

  -- Two keys with different entries are different.
  pub apart_keys :
      (i k : List ℕ) (f e : V) (m : List (List ℕ × V))
      → lookup i m ≡ some f
      → lookup k m ≡ some e
      → f ≢ e
      → eq_bytes i k ≡ false
  apart_keys i k f e m found h ne = elim (Bool-cases (eq_bytes i k)) [
    | inl same ↦
        absurd (ne (entry_inj (sym found ∙ ap (λ j. lookup j m) ((eq_bytes_iff i k).0 same) ∙ h)))
    | inr apart ↦ apart
  ]
    where
      entry_inj : {a b : V} → some a ≡ some b → a ≡ b
      entry_inj q = cc
