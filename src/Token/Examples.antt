-- ===== src/Token/Examples.antt =====
-- Concrete tokens (runtime/src/token.rs).
use openab_pty.Base.{ℕ, ◌≡◌, ◌↔◌, refl, none, some, List, [], ◌∷◌, arith, codes, lookup, eq_bytes}
use openab_pty.Crate.{SessionName, ok}
use openab_pty.Audit.{hex}
use openab_pty.Token.{TokenStore, StoredAttachToken, attach_only, mint_for_session, verify, new}
use openab_pty.Token.Laws.{Opens}
use openab_pty.Token.Acceptance.{grant_of, verify_iff}
use openab_pty.Token.Mint.{mint-verify}

abbrev digest : List ℕ → List ℕ
digest d = d

abbrev name_one : SessionName
name_one = codes "one"

abbrev stored_one : StoredAttachToken
stored_one = record { hash = codes "0102"; generation = 1; scope = attach_only; expires_at = 9 }

abbrev store_one : TokenStore
store_one = record { entries = (name_one, stored_one) ∷ []; ttl = 9 }

stored_found : lookup name_one store_one.entries ≡ some stored_one
unfolding lookup eq_bytes
stored_found = refl

verify_iff_example :
    ((verify digest store_one name_one 1 (codes "0102") none 5).0
      ≡ ok (grant_of name_one 1 stored_one))
    ↔ ((stored : StoredAttachToken) × (lookup name_one store_one.entries ≡ some stored)
        × Opens digest stored 1 (codes "0102") 5
        × (grant_of name_one 1 stored ≡ grant_of name_one 1 stored_one))
verify_iff_example =
    verify_iff digest store_one name_one 1 (codes "0102") none 5 (grant_of name_one 1 stored_one)

no_entry :
    (stored : StoredAttachToken)
    → lookup name_one [] ≡ some stored
    → ¬ Opens digest stored 1 (codes "0102") 5
unfolding lookup
no_entry stored e o = ground arith

mint-verify_example :
    (verify digest
      (mint_for_session digest (new 9) name_one 1 0 (some (1 ∷ 2 ∷ []))).1
      name_one
      1
      (hex (1 ∷ 2 ∷ []))
      none
      5).0
    ≡ ok (record { session = name_one; generation = 1; scope = attach_only; expires_at = 9 })
unfolding new
mint-verify_example =
    mint-verify digest (new 9) name_one 1 0 (1 ∷ 2 ∷ []) none 5 (λ e. omega arith) (omega arith)
