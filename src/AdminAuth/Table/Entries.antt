-- ===== src/AdminAuth/Table/Entries.antt =====
-- The failure table of runtime/src/admin_auth.rs stays bounded, with one entry for each source.
use openab_pty.Base.{
  Distinct, remove-Distinct, length-remove, ℕ, ◌≤◌, ◌≡◌, refl, sym, ◌∙◌, ap, inl, inr, true, none,
  some, List, [], ◌∷◌, arith, length, if◌then◌else◌, Bool-cases, Bool-split, eq_bytes, eq_bytes_iff,
  lookup, remove,
}
use openab_pty.AdminAuth.{FailureState, Failures, modify, keep, prune}

-- At most 256 sources are tracked.
pub record IsBounded (m : Failures) : Type 0 where
  pub distinct : Distinct m
  pub few : length m ≤ 256

pub lookup-modify :
    (k j : List ℕ) (f : FailureState → FailureState) (m : Failures)
    → lookup j (modify k f m) ≡ (
        if eq_bytes k j
        then (elim (lookup j m) [ none ↦ none | some e ↦ some (f e) ])
        else lookup j m)
unfolding lookup modify
lookup-modify k j f [] = ground arith
lookup-modify k j f ((i, e) ∷ m) =
    ground (arith, lookup-modify k j f m, eq_bytes_iff i k, eq_bytes_iff i j, eq_bytes_iff k j)

modify-none :
    (k j : List ℕ) (f : FailureState → FailureState) (m : Failures)
    → lookup j m ≡ none
    → lookup j (modify k f m) ≡ none
modify-none k j f m h = ground (arith, lookup-modify k j f m, h)

length-modify :
    (k : List ℕ) (f : FailureState → FailureState) (m : Failures) → length (modify k f m) ≡ length m
unfolding modify
length-modify k f [] = refl
length-modify k f ((i, e) ∷ m) = ground (arith, length-modify k f m)

modify-Distinct :
    (k : List ℕ) (f : FailureState → FailureState) (m : Failures)
    → Distinct m
    → Distinct (modify k f m)
unfolding modify
modify-Distinct k f [] h = tt
modify-Distinct k f ((i, e) ∷ m) h =
    Bool-split Distinct (eq_bytes i k) (λ b. (h.0, h.1))
      (λ b. (modify-none k i f m h.0, modify-Distinct k f m h.1))

pub modify-IsBounded :
    (k : List ℕ) (f : FailureState → FailureState) (m : Failures)
    → IsBounded m
    → IsBounded (modify k f m)
modify-IsBounded k f m b = record {
  distinct = modify-Distinct k f m b.distinct;
  few = let few = b.few in omega (arith, length-modify k f m);
}

prune-none :
    (now : ℕ) (k : List ℕ) (m : Failures) → lookup k m ≡ none → lookup k (prune now m) ≡ none
unfolding lookup prune
prune-none now k [] h = refl
prune-none now k ((i, e) ∷ m) h = ground (arith, prune-none now k m)

pub prune_kept :
    (now : ℕ) (k : List ℕ) (e : FailureState) (m : Failures)
    → lookup k m ≡ some e
    → keep e now ≡ true
    → lookup k (prune now m) ≡ some e
unfolding lookup prune
prune_kept now k e [] h b = h
prune_kept now k e ((i, e') ∷ m) h b = elim (Bool-cases (eq_bytes i k)) [
  | inl same ↦
      let s : e' ≡ e = some_inj (sym (ap (λ t. if t then some e' else lookup k m) same) ∙ h) in
      ground (arith, same, ap (λ x. keep x now) s, ap (λ (x : FailureState). some x) s, b)
  | inr apart ↦ ground (arith, apart, prune_kept now k e m, h, b)
]
  where
    some_inj : {a b : FailureState} → some a ≡ some b → a ≡ b
    some_inj p = cc

prune-Distinct : (now : ℕ) (m : Failures) → Distinct m → Distinct (prune now m)
unfolding prune
prune-Distinct now [] h = tt
prune-Distinct now ((i, e) ∷ m) h =
    Bool-split Distinct (keep e now) (λ b. (prune-none now i m h.0, prune-Distinct now m h.1))
      (λ b. prune-Distinct now m h.1)

length-prune : (now : ℕ) (m : Failures) → length (prune now m) ≤ length m
unfolding prune
length-prune now [] = omega arith
length-prune now ((i, e) ∷ m) = ground (arith, length-prune now m)

pub prune-IsBounded : (now : ℕ) (m : Failures) → IsBounded m → IsBounded (prune now m)
prune-IsBounded now m b = record {
  distinct = prune-Distinct now m b.distinct;
  few = let few = b.few in omega (arith, length-prune now m);
}

pub remove-IsBounded : (k : List ℕ) (m : Failures) → IsBounded m → IsBounded (remove k m)
remove-IsBounded k m b = record {
  distinct = remove-Distinct k m b.distinct;
  few = let few = b.few in omega (arith, length-remove k m);
}
