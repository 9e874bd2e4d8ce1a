-- ===== src/Config/Accepted.antt =====
-- What an accepted projection promises (`validate_projection` of runtime/src/config.rs).
pub mod Bands
pub mod Texts
use mathlib.Core.Path.{subst}
use Prim.Native.String.{String}
use openab_pty.Base.{
  ℕ, ◌*◌, ◌≤◌, ◌<◌, ◌≡◌, refl, sym, ◌∙◌, ap, ◌⊎◌, Bool, true, false, not, ◌&&◌, Option, none, some,
  List, [], arith, leb, ltb, ◌==◌, eq_bytes, eq_bytes_iff, codes,
}
use openab_pty.Crate.{Error, Result, ok, err, ◌>>=◌, ◌>>◌, >>=-eq-ok}
use openab_pty.AdminAuth.{parse_verifier_hash}
use openab_pty.Session.Policy.{
  secs, from_config, from_config-IsValid, validate_iff, IsValid, ping_interval_default,
  missed_pings_default, ttl_warning_lead_default, default_policy,
}
use openab_pty.Config.{
  Value, Values, Table, string, integer, negative, boolean, float, datetime, array, table,
  no_values, value, no_entries, entry, PtyConfig, reject_unsafe_values, reject_unsafe_list,
  reject_unsafe_table, unsafe_text, first_error, pty_section, contains_text,
}
use openab_pty.Config.Env.{interpolate_table}
use openab_pty.Config.Fields.{
  required_string, string_with_default, bool_with_default, usize_with_default,
  duration_with_default, parse_kill_domain,
}
use openab_pty.Config.Validate.{
  bind_is_loopback, guard, refuse, is_absolute, validate_lifecycle, validate_admission, raw_hash_of,
  read_pty, read_config, finish, after_table, after_read, validate_projection,
}
use openab_pty.Config.Accepted.Bands.{guard_passes, Gives, read_config-Gives}
use openab_pty.Config.Accepted.Texts.{Safe, reject_unsafe_values-Safe}

-- The lifetimes in order and within their bounds, a tools listener that is off or on loopback, room for a
-- session, an absolute command, a verifier, and a session policy within its bands.
pub record Accepted (decode : List ℕ → Option (List ℕ)) (parse_ip : List ℕ → Option Bool)
    (c : PtyConfig) : Type 0 where
  pub detaches_first : ping_interval_default * missed_pings_default < c.detached_idle_ttl
  pub warns_first : ttl_warning_lead_default < c.detached_idle_ttl
  pub token_within : c.attach_token_ttl ≤ c.absolute_session_ttl
  pub idle_within : c.detached_idle_ttl ≤ c.absolute_session_ttl
  pub tools_ttl : (1 ≤ c.tools_attach_ttl) × (c.tools_attach_ttl ≤ secs (24 * 60 * 60))
  pub tools_loopback : (c.tools_listen ≡ []) ⊎ (bind_is_loopback parse_ip c.tools_listen ≡ true)
  pub room : 1 ≤ c.max_sessions
  pub command_absolute : is_absolute c.command ≡ true
  pub verifier :
      (digest : List ℕ) × (parse_verifier_hash decode c.admin_credential_hash ≡ ok digest)
  pub policy : IsValid (from_config c.detached_idle_ttl c.absolute_session_ttl)

-- The checks that both validations pass.
abbrev Lifecycle : (parse_ip : List ℕ → Option Bool) → PtyConfig → Type 0
Lifecycle parse_ip c =
    (leb c.detached_idle_ttl (ping_interval_default * missed_pings_default) ≡ false)
    × (leb c.detached_idle_ttl ttl_warning_lead_default ≡ false)
    × (ltb c.absolute_session_ttl c.attach_token_ttl ≡ false)
    × (ltb c.absolute_session_ttl c.detached_idle_ttl ≡ false)
    × ((c.tools_attach_ttl == 0) ≡ false)
    × (ltb (secs (24 * 60 * 60)) c.tools_attach_ttl ≡ false)
    × ((not (eq_bytes c.tools_listen []) && not (bind_is_loopback parse_ip c.tools_listen)) ≡ false)

Lifecycle-passes :
    (parse_ip : List ℕ → Option Bool) (c : PtyConfig) {u : Unit {0}}
    → validate_lifecycle parse_ip c ≡ ok u
    → Lifecycle parse_ip c
unfolding validate_lifecycle
Lifecycle-passes parse_ip c h =
    let (a, h) = guard_passes _ _ _ h in
    let (b, h) = guard_passes _ _ _ h in
    let (d, h) = guard_passes _ _ _ h in
    let (e, h) = guard_passes _ _ _ h in
    let (f, h) = guard_passes _ _ _ h in
    let (g, h) = guard_passes _ _ _ h in (a, b, d, e, f, g, ground (arith, h))

admission_passes :
    (c : PtyConfig) {u : Unit {0}}
    → validate_admission c ≡ ok u
    → ((c.max_sessions == 0) ≡ false) × (is_absolute c.command ≡ true)
unfolding validate_admission
admission_passes c h = let (a, h) = guard_passes _ _ _ h in (a, ground (arith, h))

raw_hash_passes :
    (decode : List ℕ → Option (List ℕ)) (pty : Table) (hash : List ℕ)
    → raw_hash_of decode pty ≡ ok hash
    → (digest : List ℕ) × (parse_verifier_hash decode hash ≡ ok digest)
unfolding raw_hash_of
raw_hash_passes decode pty hash h =
    let (raw, h, a) = >>=-eq-ok (required_string pty (codes "admin_credential_hash")) _ h in
    let (b, h) = guard_passes _ _ _ h in
    let (digest, h, d) = >>=-eq-ok (parse_verifier_hash decode raw) _ h in
    (digest, ap (parse_verifier_hash decode) (sym (ok_inj h)) ∙ d)
  where
    ok_inj : {a b : List ℕ} → ok a ≡ ok b → a ≡ b
    ok_inj e = cc

config_inj : {a b : PtyConfig} → ok a ≡ ok b → a ≡ b
config_inj e = cc

gives_ok :
    (Q : PtyConfig → Type 0) (r : Result PtyConfig) (c : PtyConfig) → r ≡ ok c → Gives Q r → Q c
gives_ok Q r c e h = subst (Gives Q) e h

accepted :
    (decode : List ℕ → Option (List ℕ)) (parse_ip : List ℕ → Option Bool) (c : PtyConfig)
    → Lifecycle parse_ip c
    → ((c.max_sessions == 0) ≡ false) × (is_absolute c.command ≡ true)
    → ((digest : List ℕ) × (parse_verifier_hash decode c.admin_credential_hash ≡ ok digest))
    → Accepted decode parse_ip c
unfolding from_config default_policy
accepted decode parse_ip c l a verified = record {
  detaches_first = ground (arith, l.0);
  warns_first = ground (arith, l.1);
  token_within = ground (arith, l.2);
  idle_within = ground (arith, l.3);
  tools_ttl = (ground (arith, l.4), ground (arith, l.5));
  tools_loopback = ground (arith, l.6, eq_bytes_iff c.tools_listen []);
  room = ground (arith, a.0);
  command_absolute = a.1;
  verifier = verified;
  policy = (validate_iff (from_config c.detached_idle_ttl c.absolute_session_ttl)).0 (
      (from_config-IsValid c.detached_idle_ttl c.absolute_session_ttl).1
        (ground (arith, l.0), ground (arith, l.0, l.3)));
}

finish-Accepted :
    (decode : List ℕ → Option (List ℕ)) (parse_ip : List ℕ → Option Bool) (pty : Table)
    → (hash : List ℕ) (c : PtyConfig)
    → ((digest : List ℕ) × (parse_verifier_hash decode hash ≡ ok digest))
    → finish parse_ip pty hash ≡ ok c
    → Accepted decode parse_ip c
unfolding finish from_config default_policy
finish-Accepted decode parse_ip pty hash c verified h =
    let (c', h, read) = >>=-eq-ok (read_config pty hash) _ h in
    let (u, h, l) = >>=-eq-ok (validate_lifecycle parse_ip c') _ h in
    let (v, h, a) = >>=-eq-ok (validate_admission c') _ h in
    let same : c' ≡ c = config_inj h in
    let kept =
      gives_ok (λ (c : PtyConfig). c.admin_credential_hash ≡ hash) (read_config pty hash) c' read
        (read_config-Gives pty hash) in
    subst (Accepted decode parse_ip) same (
      accepted decode parse_ip c' (Lifecycle-passes parse_ip c' l) (admission_passes c' a)
        (verified.0, ap (parse_verifier_hash decode) kept ∙ verified.1))

refuse_passes :
    (o : Option Error) {A : Type 0} (k : Result A) {a : A}
    → (refuse o >> k) ≡ ok a
    → (o ≡ none) × (k ≡ ok a)
refuse_passes none k h = (refl, h)
refuse_passes (some e) k h = cc

pair_inj :
    {a b : Table} {c d : List ℕ} → ◌≡◌ {A = Result (Table × List ℕ)} (ok (a, c)) (ok (b, d)) → c ≡ d
pair_inj e = cc

read_pty_passes :
    (decode : List ℕ → Option (List ℕ)) (root : Value) (pty : Table) (hash : List ℕ)
    → read_pty decode root ≡ ok (pty, hash)
    → Safe root × ((digest : List ℕ) × (parse_verifier_hash decode hash ≡ ok digest))
unfolding read_pty
read_pty_passes decode root pty hash h =
    let (safe, h) = refuse_passes (reject_unsafe_values root) _ h in
    let (pty', h, a) = >>=-eq-ok (pty_section root) _ h in
    let (raw, h, b) = >>=-eq-ok (raw_hash_of decode pty') _ h in
    let same : raw ≡ hash = pair_inj h in
    (reject_unsafe_values-Safe root safe, raw_hash_passes decode pty' hash (b ∙ ap ok same))

-- An accepted projection has its lifetimes in order and within their bounds, a tools listener that
-- is off or on loopback, room for a session, an absolute command, a well-formed verifier, and a
-- session policy within its bands; and no text of what was delivered names a secret or a remote
-- place.
pub validate_projection-Accepted :
    (env : List ℕ → Option (List ℕ)) (decode : List ℕ → Option (List ℕ))
    (parse_ip : List ℕ → Option Bool)
    → (root : Value) (c : PtyConfig)
    → validate_projection env decode parse_ip (some root) ≡ some (ok c)
    → Accepted decode parse_ip c × Safe root
unfolding validate_projection after_read after_table
validate_projection-Accepted env decode parse_ip root c h = by_read (read_pty decode root) refl h
  where
    no_err : {e : Error} → some (err e) ≡ some (ok c) → ⊥
    no_err p = cc

    no_fuel : none ≡ some (ok c) → ⊥
    no_fuel p = cc

    some_inj : {r : Result PtyConfig} → some r ≡ some (ok c) → r ≡ ok c
    some_inj p = cc

    by_table :
        (pty : Table) (hash : List ℕ)
        → read_pty decode root ≡ ok (pty, hash)
        → (o : Option (Result Table)) → after_table parse_ip hash o ≡ some (ok c)
        → Accepted decode parse_ip c × Safe root
    by_table pty hash read none h = absurd (no_fuel h)
    by_table pty hash read (some (err x)) h = absurd (no_err h)
    by_table pty hash read (some (ok expanded)) h =
        let (safe, verified) = read_pty_passes decode root pty hash read in
        (finish-Accepted decode parse_ip expanded hash c verified (some_inj h), safe)

    by_read :
        (r : Result (Table × List ℕ))
        → read_pty decode root ≡ r
        → after_read env parse_ip r ≡ some (ok c)
        → Accepted decode parse_ip c × Safe root
    by_read (err x) e h = absurd (no_err h)
    by_read (ok (pty, hash)) e h = by_table pty hash e (interpolate_table env pty) h
