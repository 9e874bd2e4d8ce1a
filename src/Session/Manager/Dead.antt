-- ===== src/Session/Manager/Dead.antt =====
-- Tombstones: how a name's end is remembered (runtime/src/session.rs).
use openab_pty.Base.{
  ℕ, ◌+◌, ◌-◌, ◌≤◌, ◌≡◌, refl, ◌∙◌, ap, none, some, List, [], ◌∷◌, ◌++◌, arith, length, drop,
  eq_bytes_refl, lookup, lookup-remove_self, length-append, length-drop, drop-append_left,
}
use openab_pty.Crate.{SessionName, Generation, Result, ok, err, session_dead}
use openab_pty.Crate
use openab_pty.Audit.{TerminationClass}
use openab_pty.Audit
use openab_pty.Session.Handle.{Session}
use openab_pty.Session.Manager.{
  SessionManager, Tombstone, max_tombstones, last_of, remember_dead, newest, peek_tombstone,
  take_tombstone, forget,
}
use openab_pty.Session.Manager.Admin.{teardown, bury, kill, retire}
use openab_pty.Session.Manager.Client.{missing}

-- The table of tombstones never holds more than its bound after a death is remembered.
pub remember_dead-length :
    (m : SessionManager) (name : SessionName) (g : Generation) (c : TerminationClass)
    → length (remember_dead m name g c).tombstones ≤ max_tombstones
unfolding remember_dead last_of
remember_dead-length m name g c =
    let ts = m.tombstones ++ ((name, record { generation = g; class = c }) ∷ []) in
    let h = length-drop (length ts - 32) ts in omega arith

newest-append :
    (n : SessionName) (t : Tombstone) (xs : List (SessionName × Tombstone))
    → newest n (xs ++ ((n, t) ∷ [])) ≡ some t
unfolding newest
newest-append n t [] = rw (eq_bytes_refl n) refl
newest-append n t ((k, u) ∷ xs) = rw (newest-append n t xs) refl

-- A death is remembered over every earlier one of the name.
pub newest-remember_dead :
    (m : SessionManager) (name : SessionName) (g : Generation) (c : TerminationClass)
    → newest name (remember_dead m name g c).tombstones
      ≡ some (record { generation = g; class = c })
unfolding remember_dead last_of
newest-remember_dead m name g c =
    let t : Tombstone = record { generation = g; class = c } in
    let h = length-append m.tombstones ((name, t) ∷ []) in
    ap (newest name) (
      drop-append_left (length (m.tombstones ++ ((name, t) ∷ [])) - 32) m.tombstones
        ((name, t) ∷ []) (omega arith))
    ∙ newest-append name t (drop (length (m.tombstones ++ ((name, t) ∷ [])) - 32) m.tombstones)

forgotten : (m : SessionManager) (name : SessionName) → lookup name (forget m name).sessions ≡ none
unfolding forget
forgotten m name = lookup-remove_self name m.sessions

remembered_sessions :
    (m : SessionManager) (name : SessionName) (g : Generation) (c : TerminationClass)
    → lookup name (remember_dead m name g c).sessions ≡ lookup name m.sessions
unfolding remember_dead
remembered_sessions m name g c = refl

dead_missing :
    (m : SessionManager) (name : SessionName) (t : Tombstone)
    → newest name m.tombstones ≡ some t
    → missing m name ≡ session_dead name
unfolding missing peek_tombstone
dead_missing m name t e = ground (arith, e)

dead_retire :
    (sha256 : List ℕ → List ℕ) (m : SessionManager) (name : SessionName) (t : Tombstone)
    → lookup name m.sessions ≡ none
    → newest name m.tombstones ≡ some t
    → (retire sha256 m name).0 ≡ some (t.generation + 1)
unfolding retire take_tombstone
dead_retire sha256 m name t e f = ground (arith, e, f)

module _ (sha256 : List ℕ → List ℕ) where
  pub kill-bury :
      (m : SessionManager) (name : SessionName) (s : Session)
      → lookup name m.sessions ≡ some s
      → (kill sha256 m name).1 ≡ bury sha256 m name s Audit.admin_kill Crate.admin_kill
  unfolding kill
  kill-bury m name s e = rw (kill, e) refl

  buried :
      (m : SessionManager) (name : SessionName) (s : Session) (c : TerminationClass) (code : ℕ)
      → (lookup name (bury sha256 m name s c code).sessions ≡ none)
        × (newest name (bury sha256 m name s c code).tombstones
            ≡ some (record { generation = s.generation; class = c }))
  unfolding bury
  buried m name s c code = (
    remembered_sessions (forget (teardown sha256 m name s c code) name) name s.generation c
        ∙ forgotten (teardown sha256 m name s c code) name,
    newest-remember_dead (forget (teardown sha256 m name s c code) name) name s.generation c,
  )

  -- A killed session is gone from the map and reported as dead, and a restart of its name takes
  -- the next generation.
  pub kill_lem :
      (m : SessionManager) (name : SessionName) (s : Session)
      → lookup name m.sessions ≡ some s
      → (lookup name (kill sha256 m name).1.sessions ≡ none)
        × (missing (kill sha256 m name).1 name ≡ session_dead name)
        × ((retire sha256 (kill sha256 m name).1 name).0 ≡ some (s.generation + 1))
  kill_lem m name s e = rw (kill-bury m name s e) (
      let b = buried m name s Audit.admin_kill Crate.admin_kill in
      let dead = bury sha256 m name s Audit.admin_kill Crate.admin_kill in
      (b.0, dead_missing dead name _ b.1, dead_retire sha256 dead name _ b.0 b.1))
