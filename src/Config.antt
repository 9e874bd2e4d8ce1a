-- ===== src/Config.antt =====
-- runtime/src/config.rs: the delivered `[pty]` projection and its validation. A TOML value is the public
-- enum of crate toml, whose parser is a parameter, as are the environment, the hexadecimal decoder and
-- the standard library's parser of IP addresses. Durations are nanoseconds. Error texts leave out the names and
-- values that the code formats into them.
pub mod Env
pub mod Fields
pub mod Validate
pub mod Total
pub mod Accepted
mod Examples
use Prim.Native.String.{String}
use openab_pty.Base.{
  ℕ, zero, suc, ◌+◌, ◌-◌, ◌*◌, ◌^◌, Bool, true, false, not, ◌&&◌, ◌||◌, Option, none, some, List,
  [], ◌∷◌, ◌++◌, length, take, drop, ltb, leb, ◌==◌, if◌then◌else◌, eq_bytes, codes, u64_max,
}
use openab_pty.Crate.{
  Error, config, Result, ok, err, ◌>>=◌, ◌>>◌, is_ascii_lowercase, is_ascii_digit,
}
use openab_pty.Kill.{KillDomainRequirement, tier1_allowed, tier2_required}
use openab_pty.AdminAuth.{parse_verifier_hash}
use openab_pty.Session.Policy.{
  secs, ping_interval_default, missed_pings_default, ttl_warning_lead_default,
}

mutual
  pub data Value : Type 0 where
    string : List ℕ → Value
    integer negative : ℕ → Value
    boolean : Bool → Value
    float datetime : Value
    array : Values → Value
    table : Table → Value

  pub data Values : Type 0 where
    no_values : Values
    value : Value → Values → Values

  pub data Table : Type 0 where
    no_entries : Table
    entry : (key : List ℕ) → Value → Table → Table

pub record PtyConfig : Type 0 where
  pub enabled : Bool
  pub listen : List ℕ
  pub tls_terminated_upstream : Bool
  pub command : List ℕ
  pub max_sessions : ℕ
  pub absolute_session_ttl : ℕ
  pub attach_token_ttl : ℕ
  pub detached_idle_ttl : ℕ
  pub scrollback_kib : ℕ
  pub scrollback_replay : Bool
  pub filter_terminal_responses : Bool
  pub admin_credential_hash : List ℕ
  pub kill_domain_requirement : KillDomainRequirement
  pub seed_dir : List ℕ
  pub tools_listen : List ℕ
  pub tools_attach_ttl : ℕ

unfoldable pub as_config_value : KillDomainRequirement → List ℕ
as_config_value tier1_allowed = codes "tier1"
as_config_value tier2_required = codes "tier2-required"

abbrev pub pty_keys : List (List ℕ)
pty_keys =
    codes "enabled"
    ∷ codes "listen"
    ∷ codes "tls_terminated_upstream"
    ∷ codes "command"
    ∷ codes "max_sessions"
    ∷ codes "absolute_session_ttl"
    ∷ codes "attach_token_ttl"
    ∷ codes "detached_idle_ttl"
    ∷ codes "scrollback_kib"
    ∷ codes "scrollback_replay"
    ∷ codes "filter_terminal_responses"
    ∷ codes "admin_credential_hash"
    ∷ codes "kill_domain_tier"
    ∷ codes "seed_dir"
    ∷ codes "tools_listen"
    ∷ codes "tools_attach_ttl"
    ∷ []

unfoldable pub starts_with : (prefix text : List ℕ) → Bool
starts_with [] text = true
starts_with (p ∷ ps) [] = false
starts_with (p ∷ ps) (b ∷ bs) = (p == b) && starts_with ps bs

-- `str::contains` and `str::find`.
unfoldable pub contains_text : (pattern text : List ℕ) → Bool
unfolding starts_with
contains_text pattern [] = starts_with pattern []
contains_text pattern (b ∷ bs) = starts_with pattern (b ∷ bs) || contains_text pattern bs

unfoldable pub find_text : (pattern text : List ℕ) → Option ℕ
unfolding starts_with
find_text pattern [] = if starts_with pattern [] then some 0 else none
find_text pattern (b ∷ bs) =
    let rest = find_text pattern bs in
    if starts_with pattern (b ∷ bs)
    then some 0
    else elim rest [ none ↦ none | some at ↦ some (at + 1) ]

unfoldable pub unsafe_text : List ℕ → Option Error
unfolding contains_text
unsafe_text text =
    if contains_text (codes "${secrets.") text
    then some (config "${secrets.*} interpolation is forbidden in a PTY projection")
    else if contains_text (codes "://") text
    then some (config "remote/cloud URI references are forbidden in a PTY projection")
    else none

-- The first error of two checks.
unfoldable pub first_error : Option Error → Option Error → Option Error
first_error none later = later
first_error (some e) later = some e

unfoldable mutual
  unfolding unsafe_text first_error

  -- `none`: nothing unsafe.
  pub reject_unsafe_values : Value → Option Error
  reject_unsafe_values (string text) = unsafe_text text
  reject_unsafe_values (integer n) = none
  reject_unsafe_values (negative n) = none
  reject_unsafe_values (boolean b) = none
  reject_unsafe_values float = none
  reject_unsafe_values datetime = none
  reject_unsafe_values (array vs) = reject_unsafe_list vs
  reject_unsafe_values (table es) = reject_unsafe_table es

  pub reject_unsafe_list : Values → Option Error
  reject_unsafe_list no_values = none
  reject_unsafe_list (value v vs) = first_error (reject_unsafe_values v) (reject_unsafe_list vs)

  pub reject_unsafe_table : Table → Option Error
  reject_unsafe_table no_entries = none
  reject_unsafe_table (entry key v es) =
      first_error (reject_unsafe_values v) (reject_unsafe_table es)

unfoldable pub get : (key : List ℕ) → Table → Option Value
get key no_entries = none
get key (entry k v es) = if eq_bytes k key then some v else get key es

unfoldable pub is_member : List ℕ → List (List ℕ) → Bool
is_member key [] = false
is_member key (k ∷ ks) = eq_bytes k key || is_member key ks

unfoldable pub only_known : Table → Bool
unfolding is_member
only_known no_entries = true
only_known (entry key v es) = is_member key pty_keys && only_known es

-- Every section is `[pty]`, and there is one.
unfoldable pub only_pty : Table → Bool
only_pty no_entries = true
only_pty (entry key v es) = eq_bytes key (codes "pty") && only_pty es

unfoldable pub has_key : (key : List ℕ) → Table → Bool
unfolding get
has_key key es = elim (get key es) [ none ↦ false | some v ↦ true ]

unfoldable pub pty_section : (root : Value) → Result Table
unfolding has_key only_pty get only_known
pty_section (table es) =
    if has_key (codes "secrets") es
    then err (config "[secrets.refs] is forbidden in a delivered PTY projection")
    else if not (only_pty es && has_key (codes "pty") es)
    then err (config "PTY projection may contain only [pty]")
    else elim (get (codes "pty") es) [
      | some (table pty) ↦ if only_known pty then ok pty else err (config "unknown [pty] key")
      | other ↦ err (config "[pty] must be a table")
    ]
pty_section other = err (config "PTY projection root must be a TOML table")
