-- ===== src/Session/Environment/Examples.antt =====
-- A concrete container environment (runtime/src/session.rs).
use openab_pty.Base.{[], ◌∷◌, codes}
use openab_pty.Session.Environment.{Variables}

abbrev container : Variables
container =
    (codes "OPENAB_KEY", codes "s")
    ∷ (codes "PTY_FORWARD_API_KEY", codes "k")
    ∷ (codes "PATH", codes "/bin")
    ∷ []
