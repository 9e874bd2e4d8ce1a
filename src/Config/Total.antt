-- ===== src/Config/Total.antt =====
-- The validation of a projection returns (`interpolate_env` of runtime/src/config.rs loops until no
-- interpolation is left).
use openab_pty.Base.{
  ℕ, zero, suc, ◌+◌, ◌≤◌, ◌<◌, ◌≡◌, Option, none, some, List, [], ◌∷◌, ◌++◌, arith, length, take,
  drop, length-drop, Option-split, Bool-split, Bool, eq_bytes, codes,
}
use openab_pty.Crate.{Result, ok, err}
use openab_pty.Config.{
  Value, Table, string, integer, negative, boolean, float, datetime, array, table, no_entries,
  entry, find_text, starts_with,
}
use openab_pty.Config.Env.{
  env_value, interpolate, interpolate_env, interpolate_value, interpolate_table,
}
use openab_pty.Config.Validate.{after_table, after_read, read_pty, validate_projection}

-- There is a result.
abbrev pub Returns {ℓ} : {A : Type ℓ} → Option A → Type 0
Returns none = ⊥
Returns (some a) = Unit

-- A text in which the opening was found is not empty.
found_in : (text : List ℕ) (at : ℕ) → find_text (codes "${") text ≡ some at → 1 ≤ length text
unfolding find_text starts_with
found_in [] at h = absurd (no h)
  where
    no : {n : ℕ} → none ≡ some n → ⊥
    no e = cc
found_in (b ∷ bs) at h = omega arith

interpolate-Returns :
    (fuel : ℕ) (env : List ℕ → Option (List ℕ)) (output remainder : List ℕ)
    → length remainder < fuel
    → Returns (interpolate fuel env output remainder)
unfolding interpolate
interpolate-Returns zero env output remainder h = absurd (omega arith)
interpolate-Returns (suc fuel) env output remainder h =
    Option-split Returns (find_text (codes "${") remainder) (λ e. tt)
      (λ start e.
        let after_open = drop (start + 2) remainder in
        Option-split Returns (find_text (codes "}") after_open) (λ f. tt)
          (λ end f.
            next start end (env_value env (take end after_open)) (found_in remainder start e)
              (interpolate-Returns fuel env)))
  where
    shorter :
        (start end : ℕ)
        → 1 ≤ length remainder
        → length (drop (end + 1) (drop (start + 2) remainder)) < fuel
    shorter start end k =
        let a = length-drop (start + 2) remainder in
        let b = length-drop (end + 1) (drop (start + 2) remainder) in omega arith

    next :
        (start end : ℕ) (r : Result (List ℕ))
        → 1 ≤ length remainder
        → ((output rest : List ℕ) → length rest < fuel → Returns (interpolate fuel env output rest))
        → Returns (elim r as (λ _. Option (Result (List ℕ))) [
          | err e ↦ some (err e)
          | ok v ↦
              interpolate fuel env
                (output ++ (take start remainder ++ v))
                (drop (end + 1) (drop (start + 2) remainder))
        ])
    next start end (err e) k rounds = tt
    next start end (ok v) k rounds =
        rounds (output ++ (take start remainder ++ v)) (drop (end + 1) (drop (start + 2) remainder))
          (shorter start end k)

interpolate_value-Returns :
    (env : List ℕ → Option (List ℕ)) (key : List ℕ) (v : Value)
    → Returns (interpolate_value env key v)
unfolding interpolate_value interpolate_env
interpolate_value-Returns env key (string text) =
    Bool-split Returns (eq_bytes key (codes "admin_credential_hash")) (λ e. tt)
      (λ e.
        expanded (interpolate (suc (length text)) env [] text)
          (interpolate-Returns (suc (length text)) env [] text (omega arith)))
  where
    expanded :
        (o : Option (Result (List ℕ)))
        → Returns o
        → Returns (elim o as (λ _. Option (Result Value)) [
          | none ↦ none
          | some (err e) ↦ some (err e)
          | some (ok text) ↦ some (ok (string text))
        ])
    expanded none h = h
    expanded (some (err e)) h = tt
    expanded (some (ok text)) h = tt
interpolate_value-Returns env key (integer n) = tt
interpolate_value-Returns env key (negative n) = tt
interpolate_value-Returns env key (boolean b) = tt
interpolate_value-Returns env key float = tt
interpolate_value-Returns env key datetime = tt
interpolate_value-Returns env key (array vs) = tt
interpolate_value-Returns env key (table es) = tt

interpolate_table-Returns :
    (env : List ℕ → Option (List ℕ)) (es : Table) → Returns (interpolate_table env es)
unfolding interpolate_table
interpolate_table-Returns env no_entries = tt
interpolate_table-Returns env (entry key v es) =
    first (interpolate_value env key v) (interpolate_table env es)
      (interpolate_value-Returns env key v) (interpolate_table-Returns env es)
  where
    later :
        (v : Value) (o : Option (Result Table))
        → Returns o
        → Returns (elim o as (λ _. Option (Result Table)) [
          | none ↦ none
          | some (err e) ↦ some (err e)
          | some (ok others) ↦ some (ok (entry key v others))
        ])
    later v none h = h
    later v (some (err e)) h = tt
    later v (some (ok others)) h = tt

    first :
        (o : Option (Result Value)) (rest : Option (Result Table))
        → Returns o
        → Returns rest
        → Returns (elim o as (λ _. Option (Result Table)) [
          | none ↦ none
          | some (err e) ↦ some (err e)
          | some (ok expanded) ↦ elim rest as (λ _. Option (Result Table)) [
            | none ↦ none
            | some (err e) ↦ some (err e)
            | some (ok others) ↦ some (ok (entry key expanded others))
          ]
        ])
    first none rest h k = h
    first (some (err e)) rest h k = tt
    first (some (ok expanded)) rest h k = later expanded rest k

-- The validation of a projection returns a configuration or an error, whatever is delivered and
-- whatever the environment is.
pub validate_projection-Returns :
    (env : List ℕ → Option (List ℕ)) (decode : List ℕ → Option (List ℕ))
    (parse_ip : List ℕ → Option Bool)
    → (parsed : Option Value) → Returns (validate_projection env decode parse_ip parsed)
unfolding validate_projection after_read after_table
validate_projection-Returns env decode parse_ip none = tt
validate_projection-Returns env decode parse_ip (some root) = read (read_pty decode root)
  where
    expanded :
        (hash : List ℕ) (o : Option (Result Table))
        → Returns o
        → Returns (after_table parse_ip hash o)
    expanded hash none h = h
    expanded hash (some (err e)) h = tt
    expanded hash (some (ok es)) h = tt

    read : (r : Result (Table × List ℕ)) → Returns (after_read env parse_ip r)
    read (err e) = tt
    read (ok (pty, hash)) =
        expanded hash (interpolate_table env pty) (interpolate_table-Returns env pty)
