-- ===== src/Config/Env.antt =====
-- The interpolation of environment values (`interpolate_env` of runtime/src/config.rs).
use openab_pty.Base.{
  ℕ, zero, suc, ◌+◌, Bool, true, false, not, ◌&&◌, ◌||◌, Option, none, some, List, [], ◌∷◌, ◌++◌,
  length, take, drop, leb, ◌==◌, if◌then◌else◌, eq_bytes, codes,
}
use openab_pty.Crate.{config, Result, ok, err, is_ascii_lowercase, is_ascii_digit}
use openab_pty.Config.{Value, Table, string, no_entries, entry, contains_text, find_text}

unfoldable pub is_ascii_alphabetic : ℕ → Bool
is_ascii_alphabetic b = (leb b'A' b && leb b b'Z') || is_ascii_lowercase b

unfoldable pub all_name_bytes : List ℕ → Bool
unfolding is_ascii_alphabetic
all_name_bytes [] = true
all_name_bytes (b ∷ bs) =
    (is_ascii_alphabetic b || is_ascii_digit b || (b == b'_')) && all_name_bytes bs

unfoldable pub is_env_name : List ℕ → Bool
unfolding all_name_bytes
is_env_name [] = false
is_env_name (b ∷ bs) = (is_ascii_alphabetic b || (b == b'_')) && all_name_bytes bs

-- What a variable brings in.
unfoldable pub env_value : (env : List ℕ → Option (List ℕ)) → (name : List ℕ) → Result (List ℕ)
unfolding is_env_name contains_text
env_value env name =
    if not (is_env_name name)
    then err (config "invalid interpolation; only ${VAR} environment values are allowed")
    else elim (env name) [
      | none ↦ err (config "environment variable required by PTY projection is unset")
      | some v ↦
          if contains_text (codes "://") v || contains_text (codes "${secrets.") v
          then err (config "environment value resolves to a forbidden remote/cloud reference")
          else ok v
    ]

-- The loop of `interpolate_env`, for `fuel` rounds; each takes at least three bytes.
unfoldable pub interpolate :
    (fuel : ℕ) (env : List ℕ → Option (List ℕ)) (output remainder : List ℕ)
    → Option (Result (List ℕ))
unfolding find_text env_value
interpolate zero env output remainder = none
interpolate (suc fuel) env output remainder = elim (find_text (codes "${") remainder) [
  | none ↦ some (ok (output ++ remainder))
  | some start ↦
      let after_open = drop (start + 2) remainder in
      elim (find_text (codes "}") after_open) [
        | none ↦ some (err (config "unterminated ${VAR} interpolation"))
        | some end ↦ elim (env_value env (take end after_open)) [
          | err e ↦ some (err e)
          | ok v ↦
              interpolate fuel env (output ++ (take start remainder ++ v))
                (drop (end + 1) after_open)
        ]
      ]
]

-- The fuel is above the length, which every round shortens.
unfoldable pub interpolate_env :
    (env : List ℕ → Option (List ℕ)) (input : List ℕ) → Option (Result (List ℕ))
unfolding interpolate
interpolate_env env input = interpolate (suc (length input)) env [] input

unfoldable pub interpolate_value :
    (env : List ℕ → Option (List ℕ)) (key : List ℕ) → Value → Option (Result Value)
unfolding interpolate_env
interpolate_value env key (string text) =
    if eq_bytes key (codes "admin_credential_hash")
    then some (ok (string text))
    else elim (interpolate_env env text) [
      | none ↦ none
      | some (err e) ↦ some (err e)
      | some (ok expanded) ↦ some (ok (string expanded))
    ]
interpolate_value env key other = some (ok other)

unfoldable pub interpolate_table : (env : List ℕ → Option (List ℕ)) → Table → Option (Result Table)
unfolding interpolate_value
interpolate_table env no_entries = some (ok no_entries)
interpolate_table env (entry key v es) =
    let rest = interpolate_table env es in
    elim (interpolate_value env key v) [
      | none ↦ none
      | some (err e) ↦ some (err e)
      | some (ok expanded) ↦ elim rest [
        | none ↦ none
        | some (err e) ↦ some (err e)
        | some (ok others) ↦ some (ok (entry key expanded others))
      ]
    ]
