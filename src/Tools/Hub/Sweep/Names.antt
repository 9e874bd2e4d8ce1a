-- ===== src/Tools/Hub/Sweep/Names.antt =====
-- Lists of sessions and maps keyed by them (runtime/src/tools.rs).
use openab_pty.Base.{
  ◌≡◌, refl, ap, Bool, true, false, ◌||◌, Option, none, List, [], ◌∷◌, ◌++◌, arith, if◌then◌else◌,
  eq_bytes, eq_bytes_iff, eq_bytes_refl, lookup, insert, remove, lookup-remove,
}
use openab_pty.Crate.{SessionName}
use openab_pty.Tools.Hub.State.{keys, name_set}

unfoldable pub contains : SessionName → List SessionName → Bool
contains name [] = false
contains name (n ∷ ns) = eq_bytes n name || contains name ns

module _ {ℓ} {V : Type ℓ} where
  pub lookup-contains :
      (name : SessionName) (m : List (SessionName × V))
      → contains name (keys m) ≡ false
      → lookup name m ≡ none
  unfolding contains keys lookup
  lookup-contains name [] h = refl
  lookup-contains name ((n, v) ∷ m) h = ground (arith, lookup-contains name m)

  pub removed_none :
      (session name : SessionName) (m : List (SessionName × V))
      → lookup name m ≡ none
      → lookup name (remove session m) ≡ none
  removed_none session name m h = ground (arith, lookup-remove session name m)

pub own {ℓ} :
    {A : Type ℓ} (name : SessionName) (o : Option A)
    → (if eq_bytes name name then none else o) ≡ none
own name o = ap (λ t. if t then none else o) (eq_bytes_refl name)

pub other {ℓ} :
    {A : Type ℓ} (a b : SessionName)
    → eq_bytes a b ≡ false
    → (o : Option A) → (if eq_bytes a b then none else o) ≡ o
other a b e o = ap (λ t. if t then none else o) e

pub contrary : true ≡ false → ⊥
contrary e = cc

pub contains-append :
    (name : SessionName) (xs ys : List SessionName)
    → contains name (xs ++ ys) ≡ (contains name xs || contains name ys)
unfolding contains
contains-append name [] ys = refl
contains-append name (x ∷ xs) ys = ground (arith, contains-append name xs ys)

contains-keys-insert :
    (name n : SessionName) (m : List (SessionName × Bool))
    → contains name (keys (insert n true m)) ≡ (eq_bytes n name || contains name (keys m))
unfolding contains keys insert
contains-keys-insert name n [] = refl
contains-keys-insert name n ((j, w) ∷ m) =
    ground (arith, contains-keys-insert name n m, eq_bytes_iff j n)

pub contains-name_set :
    (name : SessionName) (names : List SessionName)
    → contains name (keys (name_set names)) ≡ contains name names
unfolding contains name_set keys
contains-name_set name [] = refl
contains-name_set name (n ∷ ns) =
    ground (arith, contains-keys-insert name n (name_set ns), contains-name_set name ns)
