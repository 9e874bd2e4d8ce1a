-- ===== src/Base/Lists.antt =====
-- Lists measured and cut by native numbers, under the library's names.
use Prim.Native.Nat.{ℕ, zero, suc, ◌+◌, ◌-◌, ◌≤◌, ◌<◌, min}
use mathlib.Core.Path.{◌≡◌, refl, sym, ap, ap₂, ◌∙◌}
use mathlib.Core.List.{List, [], ◌∷◌, ◌++◌}
use mathlib.Core.Option.{Option, none, some}
use native.Mathlib.Omega.{arith}

module _ {ℓ} {A : Type ℓ} where
  abbrev pub length : List A → ℕ
  length [] = 0
  length (x ∷ xs) = suc (length xs)

  abbrev pub get_elem? : List A → ℕ → Option A
  get_elem? [] i = none
  get_elem? (x ∷ xs) zero = some x
  get_elem? (x ∷ xs) (suc i) = get_elem? xs i

  abbrev pub get_or : List A → ℕ → A → A
  get_or [] i d = d
  get_or (x ∷ xs) zero d = x
  get_or (x ∷ xs) (suc i) d = get_or xs i d

  abbrev pub take : ℕ → List A → List A
  take zero xs = []
  take (suc n) [] = []
  take (suc n) (x ∷ xs) = x ∷ take n xs

  abbrev pub drop : ℕ → List A → List A
  drop zero xs = xs
  drop (suc n) [] = []
  drop (suc n) (x ∷ xs) = drop n xs

module _ {ℓ} {A : Type ℓ} where
  pub length-append : (xs ys : List A) → length (xs ++ ys) ≡ length xs + length ys
  length-append [] ys = omega arith
  length-append (x ∷ xs) ys = omega (arith, length-append xs ys)

  pub take-append-drop : (n : ℕ) (xs : List A) → take n xs ++ drop n xs ≡ xs
  take-append-drop zero xs = refl
  take-append-drop (suc n) [] = refl
  take-append-drop (suc n) (x ∷ xs) = rw (take-append-drop n xs)

  pub length-take : (n : ℕ) (xs : List A) → length (take n xs) ≡ min n (length xs)
  length-take zero xs = omega arith
  length-take (suc n) [] = omega arith
  length-take (suc n) (x ∷ xs) = omega (arith, length-take n xs)

  pub length-drop : (n : ℕ) (xs : List A) → length (drop n xs) ≡ length xs - n
  length-drop zero xs = omega arith
  length-drop (suc n) [] = omega arith
  length-drop (suc n) (x ∷ xs) = omega (arith, length-drop n xs)

  pub drop-nil : (n : ℕ) → drop {A = A} n [] ≡ []
  drop-nil zero = refl
  drop-nil (suc n) = refl

  pub drop-drop : (n m : ℕ) (xs : List A) → drop n (drop m xs) ≡ drop (m + n) xs
  drop-drop n zero xs = ap (λ k. drop k xs) (omega arith)
  drop-drop n (suc m) [] = drop-nil n ∙ sym (drop-nil (suc m + n))
  drop-drop n (suc m) (x ∷ xs) = drop-drop n m xs ∙ ap (λ k. drop k (x ∷ xs)) (eq_suc m n)
    where
      eq_suc : (m n : ℕ) → suc (m + n) ≡ suc m + n
      eq_suc m n = omega arith

  pub drop_all : (n : ℕ) (xs : List A) → length xs ≤ n → drop n xs ≡ []
  drop_all zero [] h = refl
  drop_all zero (x ∷ xs) h = absurd (omega arith)
  drop_all (suc n) [] h = refl
  drop_all (suc n) (x ∷ xs) h = drop_all n xs (omega arith)

  -- Cutting inside the first part, and past it.
  pub drop-append_left :
      (n : ℕ) (xs ys : List A) → n ≤ length xs → drop n (xs ++ ys) ≡ drop n xs ++ ys
  drop-append_left zero xs ys h = refl
  drop-append_left (suc n) [] ys h = absurd (omega arith)
  drop-append_left (suc n) (x ∷ xs) ys h = drop-append_left n xs ys (omega arith)

  pub drop-append_right :
      (n : ℕ) (xs ys : List A) → length xs ≤ n → drop n (xs ++ ys) ≡ drop (n - length xs) ys
  drop-append_right n [] ys h = ap (λ k. drop k ys) (omega arith)
  drop-append_right zero (x ∷ xs) ys h = absurd (omega arith)
  drop-append_right (suc n) (x ∷ xs) ys h = ground (arith, drop-append_right n xs ys (omega arith))

  -- A cut of two parts, as both are cut in place.
  pub drop-append :
      (n : ℕ) (xs ys : List A)
      → drop (min n (length xs)) xs ++ drop (n - min n (length xs)) ys ≡ drop n (xs ++ ys)
  drop-append n [] ys =
      let a : min n 0 ≡ 0 = omega arith in
      let b : n - min n 0 ≡ n = omega arith in ap₂ (λ i j. drop {A = A} i [] ++ drop j ys) a b
  drop-append zero (x ∷ xs) ys =
      let a : min 0 (suc (length xs)) ≡ 0 = omega arith in
      ap (λ i. drop i (x ∷ xs) ++ drop (0 - i) ys) a
  drop-append (suc n) (x ∷ xs) ys =
      let a : min (suc n) (suc (length xs)) ≡ suc (min n (length xs)) = omega arith in
      let b : suc n - min (suc n) (suc (length xs)) ≡ n - min n (length xs) = omega arith in
      ap₂ (λ i j. drop i (x ∷ xs) ++ drop j ys) a b ∙ drop-append n xs ys

  pub take-nil : (n : ℕ) → take {A = A} n [] ≡ []
  take-nil zero = refl
  take-nil (suc n) = refl

  pub take-add : (m n : ℕ) (xs : List A) → take (m + n) xs ≡ take m xs ++ take n (drop m xs)
  take-add zero n xs = let e : 0 + n ≡ n = omega arith in ap (λ k. take k xs) e
  take-add (suc m) n [] = take-nil (suc m + n) ∙ sym (take-nil n)
  take-add (suc m) n (x ∷ xs) =
      let e : suc m + n ≡ suc (m + n) = omega arith in
      ap (λ k. take k (x ∷ xs)) e ∙ ap (◌∷◌ x) (take-add m n xs)

pub drop-cons : (i : ℕ) (xs : List ℕ) → i < length xs → drop i xs ≡ get_or xs i 0 ∷ drop (i + 1) xs
drop-cons i [] h = absurd (omega arith)
drop-cons zero (x ∷ xs) h = refl
drop-cons (suc i) (x ∷ xs) h =
    let e : suc (i + 1) ≡ suc i + 1 = omega arith in
    drop-cons i xs (omega arith) ∙ ap (λ k. get_or xs i 0 ∷ drop k (x ∷ xs)) e

-- What stands at `i`, from what is left there.
pub at_drop :
    (i : ℕ) (xs : List ℕ) {y : ℕ} {ys : List ℕ}
    → drop i xs ≡ y ∷ ys
    → (i < length xs) × (get_or xs i 0 ≡ y) × (drop (i + 1) xs ≡ ys)
at_drop i [] h = absurd (cons_ne_nil (sym h ∙ drop-nil i))
  where
    cons_ne_nil : {y : ℕ} {ys : List ℕ} → y ∷ ys ≡ [] → ⊥
    cons_ne_nil e = cc
at_drop zero (x ∷ xs) h = (omega arith, ground arith, ground arith)
at_drop (suc i) (x ∷ xs) {y} {ys} h =
    let (a, b, c) = at_drop i xs h in
    let e : suc i + 1 ≡ suc (i + 1) = omega arith in
    (omega arith, b, ap (λ k. drop k (x ∷ xs)) e ∙ c)
