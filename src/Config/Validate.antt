-- ===== src/Config/Validate.antt =====
-- `validate_projection` of runtime/src/config.rs, and `bind_is_loopback` of runtime/src/server.rs.
use Prim.Native.String.{String}
use openab_pty.Base.{
  ℕ, ◌+◌, ◌*◌, Bool, true, false, not, ◌&&◌, ◌||◌, Option, none, some, List, [], ◌∷◌, ltb, leb,
  ◌==◌, if◌then◌else◌, eq_bytes, codes,
}
use openab_pty.Crate.{Error, config, Result, ok, err, ◌>>=◌, ◌>>◌}
use openab_pty.AdminAuth.{parse_verifier_hash}
use openab_pty.Session.Policy.{
  secs, ping_interval_default, missed_pings_default, ttl_warning_lead_default,
}
use openab_pty.Config.{Value, Table, PtyConfig, contains_text, reject_unsafe_values, pty_section}
use openab_pty.Config.Env.{interpolate_table}
use openab_pty.Config.Fields.{
  required_string, string_with_default, bool_with_default, usize_with_default,
  duration_with_default, parse_kill_domain,
}

-- The text before the last colon, if there is one.
unfoldable pub before_last_colon : List ℕ → Option (List ℕ)
before_last_colon [] = none
before_last_colon (b ∷ bs) = elim (before_last_colon bs) [
  | some host ↦ some (b ∷ host)
  | none ↦ if b == b':' then some [] else none
]

unfoldable pub is_bracket : ℕ → Bool
is_bracket b = (b == b'[') || (b == b']')

unfoldable pub trim_start : List ℕ → List ℕ
unfolding is_bracket
trim_start [] = []
trim_start (b ∷ bs) = let rest = trim_start bs in if is_bracket b then rest else b ∷ bs

unfoldable pub trim_end : List ℕ → List ℕ
unfolding is_bracket
trim_end [] = []
trim_end (b ∷ bs) = elim (trim_end bs) [
  | [] ↦ if is_bracket b then [] else b ∷ []
  | c ∷ cs ↦ b ∷ c ∷ cs
]

unfoldable pub lowercase : List ℕ → List ℕ
lowercase [] = []
lowercase (b ∷ bs) = (if leb b'A' b && leb b b'Z' then b + 32 else b) ∷ lowercase bs

-- `parse_ip` says of the text of an address whether it is a loopback address.
unfoldable pub bind_is_loopback : (parse_ip : List ℕ → Option Bool) → (listen_addr : List ℕ) → Bool
unfolding before_last_colon trim_start trim_end lowercase
bind_is_loopback parse_ip listen_addr =
    let host = trim_end (
      trim_start
        (elim (before_last_colon listen_addr) [ none ↦ listen_addr | some host ↦ host ])) in
    if eq_bytes (lowercase host) (codes "localhost")
    then true
    else elim (parse_ip host) [ none ↦ false | some loopback ↦ loopback ]

abbrev pub default_tools_attach_max_ttl : ℕ
default_tools_attach_max_ttl = secs (24 * 60 * 60)

abbrev pub guard : Bool → String → Result (Unit {0})
guard true message = err (config message)
guard false message = ok tt

unfoldable pub validate_lifecycle :
    (parse_ip : List ℕ → Option Bool) → PtyConfig → Result (Unit {0})
unfolding bind_is_loopback
validate_lifecycle parse_ip c = do
  guard (leb c.detached_idle_ttl (ping_interval_default * missed_pings_default))
      "detached_idle_ttl must be longer than the fixed ping interval × missed-ping budget so half-open sockets detach before idle teardown"
  guard (leb c.detached_idle_ttl ttl_warning_lead_default)
      "detached_idle_ttl must be longer than the fixed TTL warning lead so the expiry warning precedes teardown"
  guard (ltb c.absolute_session_ttl c.attach_token_ttl)
      "attach_token_ttl must not exceed absolute_session_ttl: a token that outlives every session it could attach to only widens theft exposure"
  guard (ltb c.absolute_session_ttl c.detached_idle_ttl)
      "absolute_session_ttl must not be shorter than detached_idle_ttl"
  guard (c.tools_attach_ttl == 0) "tools_attach_ttl must be non-zero"
  guard (ltb default_tools_attach_max_ttl c.tools_attach_ttl)
      "tools_attach_ttl must not exceed the hard 24h lease maximum"
  guard (not (eq_bytes c.tools_listen []) && not (bind_is_loopback parse_ip c.tools_listen))
      "tools_listen must bind loopback: the tools MCP surface is unauthenticated and may only be reachable from inside the pod"

unfoldable pub is_absolute : List ℕ → Bool
is_absolute [] = false
is_absolute (b ∷ bs) = b == b'/'

unfoldable pub validate_admission : PtyConfig → Result (Unit {0})
unfolding is_absolute
validate_admission c = do
  guard (c.max_sessions == 0) "max_sessions must be non-zero"
  guard (not (is_absolute c.command)) "command must be a non-empty absolute local path"

-- The verifier, read before the interpolation.
unfoldable pub raw_hash_of : (decode : List ℕ → Option (List ℕ)) → Table → Result (List ℕ)
unfolding required_string contains_text
raw_hash_of decode pty = do
  raw_hash ← required_string pty (codes "admin_credential_hash")
  guard (eq_bytes raw_hash [] || contains_text (codes "${") raw_hash)
      "admin_credential_hash must be a non-empty literal verifier hash; interpolation is forbidden"
  digest ← parse_verifier_hash decode raw_hash
  ok raw_hash

unfoldable pub read_config : Table → (raw_hash : List ℕ) → Result PtyConfig
unfolding bool_with_default string_with_default usize_with_default duration_with_default
    parse_kill_domain
read_config pty raw_hash = do
  enabled ← bool_with_default pty (codes "enabled") false
  listen ← string_with_default pty (codes "listen") (codes "0.0.0.0:8090")
  tls ← bool_with_default pty (codes "tls_terminated_upstream") true
  command ← string_with_default pty (codes "command") (codes "/bin/bash")
  max_sessions ← usize_with_default pty (codes "max_sessions") 4
  absolute ← duration_with_default pty (codes "absolute_session_ttl") (codes "12h")
  token ← duration_with_default pty (codes "attach_token_ttl") (codes "15m")
  idle ← duration_with_default pty (codes "detached_idle_ttl") (codes "30m")
  kib ← usize_with_default pty (codes "scrollback_kib") 1024
  replay ← bool_with_default pty (codes "scrollback_replay") false
  filter ← bool_with_default pty (codes "filter_terminal_responses") true
  seed_dir ← string_with_default pty (codes "seed_dir") []
  tools_listen ← string_with_default pty (codes "tools_listen") []
  tools_ttl ← duration_with_default pty (codes "tools_attach_ttl") (codes "24h")
  tier ← string_with_default pty (codes "kill_domain_tier") (codes "tier1")
  requirement ← parse_kill_domain tier
  ok (record {
    enabled = enabled;
    listen = listen;
    tls_terminated_upstream = tls;
    command = command;
    max_sessions = max_sessions;
    absolute_session_ttl = absolute;
    attach_token_ttl = token;
    detached_idle_ttl = idle;
    scrollback_kib = kib;
    scrollback_replay = replay;
    filter_terminal_responses = filter;
    admin_credential_hash = raw_hash;
    kill_domain_requirement = requirement;
    seed_dir = seed_dir;
    tools_listen = tools_listen;
    tools_attach_ttl = tools_ttl;
  })

-- An error, if the check found one.
abbrev pub refuse : Option Error → Result (Unit {0})
refuse none = ok tt
refuse (some e) = err e

-- What is checked before the interpolation: the section and its verifier.
unfoldable pub read_pty : (decode : List ℕ → Option (List ℕ)) → Value → Result (Table × List ℕ)
unfolding reject_unsafe_values pty_section raw_hash_of
read_pty decode root = do
  refuse (reject_unsafe_values root)
  pty ← pty_section root
  raw_hash ← raw_hash_of decode pty
  ok (pty, raw_hash)

unfoldable pub finish :
    (parse_ip : List ℕ → Option Bool) → Table → (raw_hash : List ℕ) → Result PtyConfig
unfolding read_config validate_lifecycle validate_admission
finish parse_ip pty raw_hash = do
  c ← read_config pty raw_hash
  validate_lifecycle parse_ip c
  validate_admission c
  ok c

-- The rest of the validation, after the interpolation. `none`: it ran out of fuel.
unfoldable pub after_table :
    (parse_ip : List ℕ → Option Bool) (raw_hash : List ℕ)
    → Option (Result Table)
    → Option (Result PtyConfig)
unfolding finish
after_table parse_ip raw_hash none = none
after_table parse_ip raw_hash (some (err e)) = some (err e)
after_table parse_ip raw_hash (some (ok expanded)) = some (finish parse_ip expanded raw_hash)

unfoldable pub after_read :
    (env : List ℕ → Option (List ℕ)) (parse_ip : List ℕ → Option Bool)
    → Result (Table × List ℕ)
    → Option (Result PtyConfig)
unfolding interpolate_table after_table
after_read env parse_ip (err e) = some (err e)
after_read env parse_ip (ok (pty, raw_hash)) =
    after_table parse_ip raw_hash (interpolate_table env pty)

-- `parsed` is what the TOML parser made of the projection.
unfoldable pub validate_projection :
    (env : List ℕ → Option (List ℕ)) (decode : List ℕ → Option (List ℕ))
    (parse_ip : List ℕ → Option Bool)
    → (parsed : Option Value) → Option (Result PtyConfig)
unfolding read_pty after_read
validate_projection env decode parse_ip none = some (err (config "invalid TOML projection"))
validate_projection env decode parse_ip (some root) = after_read env parse_ip (read_pty decode root)
