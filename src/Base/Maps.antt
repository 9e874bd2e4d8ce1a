-- ===== src/Base/Maps.antt =====
-- Byte strings with their tests, and maps keyed by them (`HashMap`, `BTreeMap`) as association
-- lists in the order of their keys, which is the order in which a `BTreeMap` is walked.
use Prim.Native.Char.{code}
use Prim.Native.String.{String}
use Prim.Native.Nat.{ℕ}
use mathlib.Core.Path.{◌≡◌, refl}
use mathlib.Core.Logic.{◌↔◌}
use mathlib.Core.Bool.{Bool, true, false, ◌&&◌}
use mathlib.Core.Option.{Option, none, some}
use mathlib.Core.List.{List, [], ◌∷◌}
use native.Mathlib.Omega.{arith}
use openab_pty.Base.Tests.{ltb, ◌==◌, if◌then◌else◌, ==_refl}

-- The bytes of an ASCII text.
abbrev pub codes : String → List ℕ
codes (String.◌∷◌ letter text) = code letter ∷ codes text
codes String.[] = []

unfoldable pub eq_bytes : List ℕ → List ℕ → Bool
eq_bytes [] [] = true
eq_bytes [] (y ∷ ys) = false
eq_bytes (x ∷ xs) [] = false
eq_bytes (x ∷ xs) (y ∷ ys) = (x == y) && eq_bytes xs ys

-- Byte strings are compared lexicographically.
unfoldable pub lt_bytes : List ℕ → List ℕ → Bool
lt_bytes xs [] = false
lt_bytes [] (y ∷ ys) = true
lt_bytes (x ∷ xs) (y ∷ ys) =
    let rest = lt_bytes xs ys in if ltb x y then true else if ltb y x then false else rest

pub eq_bytes_refl : (xs : List ℕ) → eq_bytes xs xs ≡ true
unfolding eq_bytes
eq_bytes_refl [] = refl
eq_bytes_refl (x ∷ xs) = rw (==_refl x, eq_bytes_refl xs)

pub eq_bytes_eq : (xs ys : List ℕ) → eq_bytes xs ys ≡ true → xs ≡ ys
unfolding eq_bytes
eq_bytes_eq [] [] h = refl
eq_bytes_eq [] (y ∷ ys) h = cc
eq_bytes_eq (x ∷ xs) [] h = cc
eq_bytes_eq (x ∷ xs) (y ∷ ys) h = ground (arith, eq_bytes_eq xs ys)

pub eq_bytes_iff : (xs ys : List ℕ) → (eq_bytes xs ys ≡ true) ↔ (xs ≡ ys)
eq_bytes_iff xs ys = (eq_bytes_eq xs ys, λ e. rw e (eq_bytes_refl ys))

module _ {ℓ} {V : Type ℓ} where
  unfoldable pub lookup : List ℕ → List (List ℕ × V) → Option V
  lookup k [] = none
  lookup k ((j, v) ∷ m) = if eq_bytes j k then some v else lookup k m

  unfoldable pub insert : List ℕ → V → List (List ℕ × V) → List (List ℕ × V)
  insert k v [] = (k, v) ∷ []
  insert k v ((j, w) ∷ m) =
      let rest = insert k v m in
      if eq_bytes j k
      then (k, v) ∷ m
      else if lt_bytes k j
      then (k, v) ∷ (j, w) ∷ m
      else (j, w) ∷ rest

  -- Every entry under the key goes; a map that `insert` built has one at most.
  unfoldable pub remove : List ℕ → List (List ℕ × V) → List (List ℕ × V)
  remove k [] = []
  remove k ((j, w) ∷ m) = let rest = remove k m in if eq_bytes j k then rest else (j, w) ∷ rest

  pub lookup-insert :
      (k j : List ℕ) (v : V) (m : List (List ℕ × V))
      → lookup j (insert k v m) ≡ (if eq_bytes k j then some v else lookup j m)
  unfolding lookup insert
  lookup-insert k j v ((key, old) ∷ rest) =
      ground
        (arith, eq_bytes_iff key j, eq_bytes_iff key k, eq_bytes_iff k j, lookup-insert k j v rest)
  lookup-insert k j v [] = refl

  pub lookup-remove :
      (k j : List ℕ) (m : List (List ℕ × V))
      → lookup j (remove k m) ≡ (if eq_bytes k j then none else lookup j m)
  unfolding lookup remove
  lookup-remove k j [] = ground arith
  lookup-remove k j ((i, w) ∷ m) =
      ground (arith, eq_bytes_iff k j, eq_bytes_iff i k, eq_bytes_iff i j, lookup-remove k j m)

  pub lookup-insert_self :
      (k : List ℕ) (v : V) (m : List (List ℕ × V)) → lookup k (insert k v m) ≡ some v
  lookup-insert_self k v m = rw (lookup-insert k k v m, eq_bytes_refl k)

  pub lookup-remove_self : (k : List ℕ) (m : List (List ℕ × V)) → lookup k (remove k m) ≡ none
  lookup-remove_self k m = rw (lookup-remove k k m, eq_bytes_refl k)
