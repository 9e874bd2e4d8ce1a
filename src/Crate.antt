-- ===== src/Crate.antt =====
-- runtime/src/lib.rs: session names, generations, close codes and errors. A `str` is its bytes.
pub mod Names
mod Examples
use Prim.Native.String.{String}
use openab_pty.Base.{
  ℕ, ◌≡◌, refl, Bool, true, false, ◌&&◌, ◌||◌, not, List, [], ◌∷◌, length, leb, ◌==◌, if◌then◌else◌,
}

abbrev pub SessionName : Type 0
SessionName = List ℕ

abbrev pub Generation : Type 0
Generation = ℕ

-- `enum Error`; an `io::Error` is its code.
pub data Error : Type 0 where
  invalid_session_name : List ℕ → Error
  not_found already_exists session_dead : SessionName → Error
  capacity_exceeded : ℕ → Error
  unauthorized : Error
  config other : String → Error
  io : ℕ → Error

-- `Result<T, Error>`.
pub data Result {ℓ} (A : Type ℓ) : Type ℓ where
  ok : A → Result A
  err : Error → Result A

-- The `?` operator: what follows a call that may fail.
module _ {ℓ κ} {T : Type ℓ} {U : Type κ} where
  abbrev and_then : (rest : T → Result U) (call : Result T) → Result U
  and_then rest (err cause) = err cause
  and_then rest (ok value) = rest value

  infixl 5 ◌>>=◌
  abbrev pub ◌>>=◌ : (call : Result T) (rest : T → Result U) → Result U
  call >>= rest = and_then rest call

  pub >>=-eq-ok :
      (call : Result T) (rest : T → Result U) {result : U}
      → (call >>= rest) ≡ ok result
      → (value : T) × (rest value ≡ ok result) × (call ≡ ok value)
  >>=-eq-ok (err cause) rest h = cc
  >>=-eq-ok (ok value) rest h = (value, h, refl)

infixl 5 ◌>>◌
abbrev pub ◌>>◌ {ℓ} : {U : Type ℓ} (call : Result (Unit {0})) (rest : Result U) → Result U
call >> rest = call >>= λ done. rest

unfoldable pub all : (ℕ → Bool) → List ℕ → Bool
all p [] = true
all p (b ∷ bs) = p b && all p bs

unfoldable pub is_ascii_lowercase : ℕ → Bool
is_ascii_lowercase b = leb b'a' b && leb b b'z'

unfoldable pub is_ascii_digit : ℕ → Bool
is_ascii_digit b = leb b'0' b && leb b b'9'

unfoldable pub is_name_byte : ℕ → Bool
unfolding is_ascii_lowercase is_ascii_digit
is_name_byte b = is_ascii_lowercase b || is_ascii_digit b || (b == b'-')

is_empty : List ℕ → Bool
is_empty [] = true
is_empty (b ∷ bs) = false

unfoldable pub parse : List ℕ → Result SessionName
unfolding all is_name_byte is_empty
parse s =
    if not (is_empty s) && leb (length s) 32 && all is_name_byte s
    then ok s
    else err (invalid_session_name s)

-- `mod close_code`.
abbrev pub ttl_expired : ℕ
ttl_expired = 4001

abbrev pub takeover : ℕ
takeover = 4002

abbrev pub renewed : ℕ
renewed = 4003

abbrev pub session_ended : ℕ
session_ended = 4004

abbrev pub slow_client : ℕ
slow_client = 4005

abbrev pub runtime_replaced : ℕ
runtime_replaced = 4006

abbrev pub capacity : ℕ
capacity = 4007

abbrev pub admin_kill : ℕ
admin_kill = 4008

abbrev pub internal_error : ℕ
internal_error = 4009

abbrev pub tools_revoked : ℕ
tools_revoked = 4010

abbrev pub liveness_timeout : ℕ
liveness_timeout = 4011
