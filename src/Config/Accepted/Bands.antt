-- ===== src/Config/Accepted/Bands.antt =====
-- The numeric fields of an accepted projection (runtime/src/config.rs).
use Prim.Native.String.{String}
use openab_pty.Base.{ℕ, ◌≡◌, refl, Bool, true, false, List, [], codes}
use openab_pty.Crate.{Result, ok, err, ◌>>=◌, ◌>>◌}
use openab_pty.Config.{Table, PtyConfig}
use openab_pty.Config.Fields.{
  string_with_default, bool_with_default, usize_with_default, duration_with_default,
  parse_kill_domain,
}
use openab_pty.Config.Validate.{guard, read_config}

pub guard_passes :
    {A : Type 0} (b : Bool) (message : String) (k : Result A) {a : A}
    → (guard b message >> k) ≡ ok a
    → (b ≡ false) × (k ≡ ok a)
guard_passes true message k h = cc
guard_passes false message k h = (refl, h)

-- What holds of a value, if there is one.
abbrev pub Gives {ℓ} : {A : Type ℓ} → (A → Type 0) → Result A → Type 0
Gives Q (ok a) = Q a
Gives Q (err e) = Unit

bind-Gives :
    {A B : Type 0} (Q : B → Type 0) (m : Result A) (f : A → Result B)
    → ((a : A) → Gives Q (f a))
    → Gives Q (m >>= f)
bind-Gives Q (ok a) f h = h a
bind-Gives Q (err e) f h = tt

module _ (pty : Table) (hash : List ℕ) where
  -- The verifier of the configuration is the one that was checked.
  pub read_config-Gives :
      Gives (λ (c : PtyConfig). c.admin_credential_hash ≡ hash) (read_config pty hash)
  unfolding read_config
  read_config-Gives = bind-Gives Keeps (bool_with_default pty (codes "enabled") false) _ λ a.
      bind-Gives Keeps (string_with_default pty (codes "listen") (codes "0.0.0.0:8090")) _ λ b.
        bind-Gives Keeps (bool_with_default pty (codes "tls_terminated_upstream") true) _ λ c.
          bind-Gives Keeps (string_with_default pty (codes "command") (codes "/bin/bash")) _ λ d.
            bind-Gives Keeps (usize_with_default pty (codes "max_sessions") 4) _ λ e.
              bind-Gives Keeps
                (duration_with_default pty (codes "absolute_session_ttl") (codes "12h")) _
                λ f.
                  bind-Gives Keeps
                    (duration_with_default pty (codes "attach_token_ttl") (codes "15m")) _
                    λ g.
                      bind-Gives Keeps
                        (duration_with_default pty (codes "detached_idle_ttl") (codes "30m")) _
                        λ h.
                          bind-Gives Keeps (usize_with_default pty (codes "scrollback_kib") 1024) _
                            λ i.
                              bind-Gives Keeps
                                (bool_with_default pty (codes "scrollback_replay") false) _
                                λ j.
                                  bind-Gives Keeps
                                    (bool_with_default pty (codes "filter_terminal_responses") true)
                                    _
                                    λ k.
                                      bind-Gives Keeps
                                        (string_with_default pty (codes "seed_dir") []) _
                                        λ l.
                                          bind-Gives Keeps
                                            (string_with_default pty (codes "tools_listen") []) _
                                            λ m.
                                              bind-Gives Keeps
                                                (duration_with_default pty
                                                  (codes "tools_attach_ttl") (codes "24h"))
                                                _
                                                λ n.
                                                  bind-Gives Keeps
                                                    (string_with_default pty
                                                      (codes "kill_domain_tier") (codes "tier1"))
                                                    _
                                                    λ o.
                                                      bind-Gives Keeps (parse_kill_domain o) _
                                                        λ p. refl
    where
      Keeps : PtyConfig → Type 0
      Keeps c = c.admin_credential_hash ≡ hash
