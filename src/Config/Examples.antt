-- ===== src/Config/Examples.antt =====
-- A projection (runtime/src/config.rs) that leaves all to the defaults but the command, which it takes from
-- the environment.
use openab_pty.Base.{
  ℕ, zero, suc, ◌*◌, ◌≡◌, refl, Bool, true, false, Option, none, some, List, [], ◌∷◌, ◌++◌, codes,
  eq_bytes, if◌then◌else◌,
}
use openab_pty.Crate.{ok, is_ascii_digit}
use openab_pty.AdminAuth.{parse_verifier_hash}
use openab_pty.Kill.{tier1_allowed}
use openab_pty.Session.Policy.{secs}
use openab_pty.Config.{Value, string, table, no_entries, entry, PtyConfig}
use openab_pty.Config.Validate.{validate_projection}
use openab_pty.Config.Accepted.{Accepted, validate_projection-Accepted}
use openab_pty.Config.Accepted.Texts.{Safe}
use openab_pty.Config.Total.{Returns, validate_projection-Returns}

abbrev same_digits : ℕ → ℕ → List ℕ
same_digits zero digit = []
same_digits (suc n) digit = digit ∷ same_digits n digit

abbrev hash : List ℕ
hash = codes "sha256:" ++ same_digits 64 b'0'

abbrev decode : List ℕ → Option (List ℕ)
decode text = some (same_digits 32 0)

abbrev env : List ℕ → Option (List ℕ)
env name = if eq_bytes name (codes "SHELL") then some (codes "/bin/zsh") else none

abbrev parse_ip : List ℕ → Option Bool
parse_ip text = none

abbrev delivered : Value
delivered = table (
    entry (codes "pty")
      (table (
        entry (codes "admin_credential_hash") (string hash)
          (entry (codes "command") (string (codes "${SHELL}")) no_entries)))
      no_entries)

abbrev read : PtyConfig
read = record {
  enabled = false;
  listen = codes "0.0.0.0:8090";
  tls_terminated_upstream = true;
  command = codes "/bin/zsh";
  max_sessions = 4;
  absolute_session_ttl = secs (12 * 3600);
  attach_token_ttl = secs (15 * 60);
  detached_idle_ttl = secs (30 * 60);
  scrollback_kib = 1024;
  scrollback_replay = false;
  filter_terminal_responses = true;
  admin_credential_hash = hash;
  kill_domain_requirement = tier1_allowed;
  seed_dir = [];
  tools_listen = [];
  tools_attach_ttl = secs (24 * 3600);
}

delivered-read : validate_projection env decode parse_ip (some delivered) ≡ some (ok read)
unfolding validate_projection eq_bytes parse_verifier_hash is_ascii_digit
delivered-read = refl

validate_projection-Accepted_example : Accepted decode parse_ip read × Safe delivered
validate_projection-Accepted_example =
    validate_projection-Accepted env decode parse_ip delivered read delivered-read

validate_projection-Returns_example :
    Returns (validate_projection env decode parse_ip (some delivered))
validate_projection-Returns_example =
    validate_projection-Returns env decode parse_ip (some delivered)
