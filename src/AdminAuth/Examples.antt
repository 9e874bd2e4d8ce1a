-- ===== src/AdminAuth/Examples.antt =====
-- Admin authentication (runtime/src/admin_auth.rs) at concrete states. The digest of the tests is the
-- first 32 bytes.
use openab_pty.Base.{
  ℕ, zero, suc, ◌≡◌, refl, true, none, some, List, [], ◌∷◌, arith, take, eq_bytes, lookup, codes,
}
use openab_pty.Crate.{ok}
use openab_pty.Audit.{hex}
use openab_pty.AdminAuth.{
  invalid, throttled, FailureState, AdminAuthenticator, count_or_throttle, verify, source_key,
  generate, from_verifier_hash,
}
use openab_pty.AdminAuth.Table.Entries.{IsBounded}
use openab_pty.AdminAuth.Blocks.{
  Request, presents, omits, serve_all, serve_all-IsBounded, block_kept,
}
use openab_pty.AdminAuth.Blocks.Kept.{BlockedTill}
use openab_pty.AdminAuth.Credential.{generate-verify}

abbrev first_bytes : List ℕ → List ℕ
first_bytes bytes = take 32 bytes

abbrev zeros : ℕ → List ℕ
zeros zero = []
zeros (suc n) = 0 ∷ zeros n

abbrev pod : List ℕ
pod = codes "10.0.0.1"

abbrev entry : FailureState
entry = record { consecutive_failures = 2; blocked_until = some 900; last_seen = 700 }

abbrev auth : AdminAuthenticator
auth = record {
  verifier = codes "secret";
  fingerprint = [];
  failures = (pod, entry) ∷ [];
  max_inflight = 4;
  base_backoff = 100;
  audit = [];
}

auth-IsBounded : IsBounded auth.failures
unfolding lookup
auth-IsBounded = record { distinct = (refl, tt); few = omega arith }

abbrev requests : List Request
requests =
    presents (codes "guess") (some pod) true 800 800
    ∷ omits (some (codes "10.0.0.2")) 810 811
    ∷ presents (codes "secret") (some pod) true 820 821
    ∷ []

serve_all-IsBounded_example : IsBounded (serve_all first_bytes requests auth).failures
serve_all-IsBounded_example = serve_all-IsBounded first_bytes requests auth auth-IsBounded

block_kept_example :
    BlockedTill 900 2 (
      lookup pod
        (count_or_throttle (some pod) (codes "invalid_credential") invalid 800 801 auth).1.failures)
    × (source_key (some pod) ≡ pod
        → (count_or_throttle (some pod) (codes "invalid_credential") invalid 800 801 auth).0
          ≡ throttled 100)
unfolding lookup eq_bytes
block_kept_example =
    block_kept (some pod) (codes "invalid_credential") invalid 800 801 auth pod 900 2 auth-IsBounded
      (refl, refl) (omega arith) (omega arith)

generate-verify_example :
    (a : AdminAuthenticator) × (from_verifier_hash first_bytes
        (λ text. some (first_bytes (hex (zeros 32))))
        (generate first_bytes (zeros 32)).1
      ≡ ok a)
    × ((verify first_bytes (generate first_bytes (zeros 32)).0 (some pod) true 5 5 a).0 ≡ none)
unfolding hex
generate-verify_example =
    generate-verify first_bytes (λ text. some (first_bytes (hex (zeros 32)))) (zeros 32) (some pod)
      5 5 (omega arith) (omega arith) (omega arith) (omega arith) refl
