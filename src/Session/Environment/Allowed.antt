-- ===== src/Session/Environment/Allowed.antt =====
-- Which variables reach a child (`child_env` of runtime/src/session.rs).
use openab_pty.Base.{ℕ, ◌≡◌, ◌≢◌, ◌⊎◌, true, false, List, [], ◌∷◌, ◌++◌}
use openab_pty.Session.Environment.{Variables, env_forward_prefix, is_allowed, has_name}

-- The operator has named the variable: it is forwarded, has a name and replaces no allowlisted one.
pub record IsForwarded (source : Variables) (key : List ℕ) : Type 0 where
  pub named : key ≢ []
  pub not_allowed : is_allowed key ≡ false
  pub declared : has_name (env_forward_prefix ++ key) source ≡ true

abbrev pub MayReach : Variables → List ℕ → Type 0
MayReach source key = (is_allowed key ≡ true) ⊎ IsForwarded source key

pub data AllReach (source : Variables) : Variables → Type 0 where
  no_variables : AllReach source []
  variable :
      {key value : List ℕ} {env : Variables}
      → MayReach source key
      → AllReach source env
      → AllReach source ((key, value) ∷ env)
