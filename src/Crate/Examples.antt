-- ===== src/Crate/Examples.antt =====
-- Concrete session names (runtime/src/lib.rs).
use openab_pty.Base.{◌≡◌, ◌↔◌, codes}
use openab_pty.Crate.{parse, ok, err, invalid_session_name}
use openab_pty.Crate.Names.{IsName, parse_iff}

parse_iff_example :
    ((parse (codes "a-1") ≡ ok (codes "a-1")) ↔ IsName (codes "a-1"))
    × ((parse (codes "a-1") ≡ err (invalid_session_name (codes "a-1"))) ↔ (¬ IsName (codes "a-1")))
parse_iff_example = parse_iff (codes "a-1")
