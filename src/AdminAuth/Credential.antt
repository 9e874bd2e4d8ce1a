-- ===== src/AdminAuth/Credential.antt =====
-- Which credential runtime/src/admin_auth.rs accepts.
use openab_pty.Base.{
  ℕ, ◌/◌, ◌%◌, ◌≤◌, ◌<◌, ◌≡◌, refl, ◌↔◌, Bool, true, Option, none, some, List, [], ◌∷◌, ◌++◌, arith,
  length, if◌then◌else◌, eq_bytes, eq_bytes_iff, lookup, lookup-remove, codes,
}
use openab_pty.Crate.{ok}
use openab_pty.Audit.{hex, hex_digit, hash_fingerprint}
use openab_pty.Token.{zeroize}
use openab_pty.Token.Laws.{AllBytes, hex_lem}
use openab_pty.AdminAuth.{
  AdminAuthenticator, verify, source_key, generate, parse_verifier_hash, strip_prefix,
  all_lower_hex, is_lower_hex, from_verifier_hash,
}

module _ (sha256 : List ℕ → List ℕ) where
  -- A credential of the right digest, no longer than the bound, is accepted if a permit is free,
  -- whatever blocks there are: its bytes are zeroed, the source's own entry goes, the others stay, and
  -- nothing is audited.
  pub verify_correct :
      (presented : List ℕ) (source : Option (List ℕ)) (checked counted : ℕ) (a : AdminAuthenticator)
      → length presented ≤ 1024
      → sha256 presented ≡ a.verifier
      → ((verify sha256 presented source true checked counted a).0 ≡ none)
        × ((verify sha256 presented source true checked counted a).1 ≡ zeroize presented)
        × ((verify sha256 presented source true checked counted a).2.audit ≡ a.audit)
        × ((k : List ℕ)
            → lookup k (verify sha256 presented source true checked counted a).2.failures
              ≡ (if eq_bytes (source_key source) k then none else lookup k a.failures))
  unfolding verify
  verify_correct presented source checked counted a short e =
      let same = (eq_bytes_iff (sha256 presented) a.verifier).1 e in
      (
        ground (arith, same),
        ground (arith, same),
        ground (arith, same),
        λ k. ground (arith, same, lookup-remove (source_key source) k a.failures),
      )

  -- Only a credential of the right digest is accepted, and none that is too long or comes without a
  -- free permit.
  pub verify_accepts :
      (presented : List ℕ) (source : Option (List ℕ)) (permit : Bool) (checked counted : ℕ)
      → (a : AdminAuthenticator)
      → ((verify sha256 presented source permit checked counted a).0 ≡ none)
        ↔ ((length presented ≤ 1024) × (permit ≡ true) × (sha256 presented ≡ a.verifier))
  unfolding verify
  verify_accepts presented source permit checked counted a = (
    λ h. ground (arith, eq_bytes_iff (sha256 presented) a.verifier),
    λ h. ground (arith, eq_bytes_iff (sha256 presented) a.verifier),
  )

strip_prefix-append : (prefix text : List ℕ) → strip_prefix prefix (prefix ++ text) ≡ some text
unfolding strip_prefix
strip_prefix-append [] text = refl
strip_prefix-append (p ∷ ps) text = ground (arith, strip_prefix-append ps text)

all_lower_hex-hex :
    (bytes : List ℕ) → AllBytes (λ b. b < 256) bytes → all_lower_hex (hex bytes) ≡ true
unfolding all_lower_hex hex is_lower_hex
all_lower_hex-hex [] h = refl
all_lower_hex-hex (b ∷ bs) h =
    ground
      (arith, all_lower_hex-hex bs h.1, digit (b / 16) (omega arith), digit (b % 16) (omega arith))
  where
    digit : (n : ℕ) → n < 16 → is_lower_hex (hex_digit n) ≡ true
    digit n h = ground arith

module _ (sha256 : List ℕ → List ℕ) (decode : List ℕ → Option (List ℕ)) where
  parse-hex :
      (digest : List ℕ)
      → decode (hex digest) ≡ some digest
      → AllBytes (λ b. b < 256) digest
      → length digest ≡ 32
      → parse_verifier_hash decode (codes "sha256:" ++ hex digest) ≡ ok digest
  unfolding parse_verifier_hash
  parse-hex digest d bytes n =
      let l = (hex_lem digest bytes).0 in
      ground (
        arith,
        strip_prefix-append (codes "sha256:") (hex digest),
        all_lower_hex-hex digest bytes,
        l,
        d,
        n,
      )

  -- If the digest is 32 bytes and the decoder inverts its hexadecimal form, the verifier that is
  -- generated from 32 random bytes is accepted as configuration, and the authenticator made of it
  -- accepts the generated credential.
  pub generate-verify :
      (raw : List ℕ) (source : Option (List ℕ)) (checked counted : ℕ)
      → AllBytes (λ b. b < 256) raw
      → length raw ≡ 32
      → AllBytes (λ b. b < 256) (sha256 (hex raw))
      → length (sha256 (hex raw)) ≡ 32
      → decode (hex (sha256 (hex raw))) ≡ some (sha256 (hex raw))
      → (a : AdminAuthenticator) × (from_verifier_hash sha256 decode (generate sha256 raw).1 ≡ ok a)
        × ((verify sha256 (generate sha256 raw).0 source true checked counted a).0 ≡ none)
  unfolding generate from_verifier_hash
  generate-verify raw source checked counted bytes n digest m d =
      let a : AdminAuthenticator = record {
        verifier = sha256 (hex raw);
        fingerprint = hash_fingerprint sha256 (sha256 (hex raw));
        failures = [];
        max_inflight = 4;
        base_backoff = 100;
        audit = [];
      } in
      let l = (hex_lem raw bytes).0 in
      (
        a,
        ground (arith, parse-hex (sha256 (hex raw)) d digest m),
        (verify_correct sha256 (hex raw) source checked counted a (omega (arith, l, n)) refl).0,
      )
