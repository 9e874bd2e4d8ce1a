-- ===== src/Session/Manager/Admission.antt =====
-- Capacity and names: the admission of sessions (runtime/src/session.rs).
use openab_pty.Base.{
  ℕ, ◌+◌, ◌≤◌, ◌<◌, ◌≡◌, ◌↔◌, inl, inr, true, false, none, List, [], ◌∷◌, arith, length,
  if◌then◌else◌, eq_bytes, eq_bytes_refl, eq_bytes_iff, lookup, insert, remove, Option-cases,
}
use openab_pty.Crate.{SessionName, ok, err, already_exists}
use openab_pty.Session.Handle.{Session}
use openab_pty.Session.Manager.{
  SessionManager, contains_name, remove_name, alive_count, taken, claim_name, release_claim,
  publish, forget,
}

-- Live sessions and spawns in flight are within the configured number.
unfoldable pub HasRoom : SessionManager → Type 0
HasRoom m = alive_count m.sessions + length m.claimed ≤ m.config.max_sessions

pub claim_name-HasRoom :
    (m : SessionManager) (name : SessionName) → HasRoom m → HasRoom (claim_name m name).1
unfolding HasRoom claim_name
claim_name-HasRoom m name h = ground arith

length-remove_name :
    (n : SessionName) (xs : List SessionName) → length (remove_name n xs) ≤ length xs
unfolding remove_name
length-remove_name n [] = omega arith
length-remove_name n (x ∷ xs) = let h = length-remove_name n xs in ground arith

length-remove_claimed :
    (n : SessionName) (xs : List SessionName)
    → contains_name n xs ≡ true
    → length (remove_name n xs) < length xs
unfolding remove_name contains_name
length-remove_claimed n [] h = ground arith
length-remove_claimed n (x ∷ xs) h =
    ground (arith, length-remove_name n xs, length-remove_claimed n xs)

alive-remove :
    (n : SessionName) (m : List (SessionName × Session)) → alive_count (remove n m) ≤ alive_count m
unfolding remove alive_count
alive-remove n [] = omega arith
alive-remove n ((k, s) ∷ m) = let h = alive-remove n m in ground arith

abbrev alive_one : Session → ℕ
alive_one s = if s.io_alive then 1 else 0

alive-insert :
    (n : SessionName) (s : Session) (m : List (SessionName × Session))
    → alive_count (insert n s m) ≤ alive_count m + alive_one s
unfolding insert alive_count
alive-insert n s [] = omega arith
alive-insert n s ((k, t) ∷ m) = let h = alive-insert n s m in ground arith

pub release_claim-HasRoom :
    (m : SessionManager) (name : SessionName) → HasRoom m → HasRoom (release_claim m name)
unfolding HasRoom release_claim
release_claim-HasRoom m name h = let k = length-remove_name name m.claimed in omega arith

pub publish-HasRoom :
    (m : SessionManager) (name : SessionName) (s : Session)
    → contains_name name m.claimed ≡ true
    → HasRoom m
    → HasRoom (publish m name s).1
unfolding HasRoom publish
publish-HasRoom m name s c h =
    let k = length-remove_claimed name m.claimed c in
    let a = alive-insert name s m.sessions in ground arith

pub forget-HasRoom : (m : SessionManager) (name : SessionName) → HasRoom m → HasRoom (forget m name)
unfolding HasRoom forget
forget-HasRoom m name h = let k = alive-remove name m.sessions in omega arith

-- A name is claimed exactly if no session and no other spawn has it, and there is room for one
-- more.
pub claim_name_iff :
    (m : SessionManager) (name : SessionName)
    → ((claim_name m name).0 ≡ ok name) ↔ (
        (lookup name m.sessions ≡ none)
        × (contains_name name m.claimed ≡ false)
        × (alive_count m.sessions + length m.claimed < m.config.max_sessions))
unfolding claim_name taken
claim_name_iff m name = elim (Option-cases (lookup name m.sessions)) [
  | inl e ↦ (λ h. ground (arith, e), λ h. ground (arith, e))
  | inr e ↦ (λ h. ground (arith, e.1), λ h. ground (arith, e.1))
]

-- The critical sections that admission consists of.
pub data AdmissionStep : Type 0 where
  claim_step release_step forget_step : SessionName → AdmissionStep
  publish_step : SessionName → Session → AdmissionStep

unfoldable pub perform : SessionManager → AdmissionStep → SessionManager
perform m (claim_step n) = (claim_name m n).1
perform m (release_step n) = release_claim m n
perform m (forget_step n) = forget m n
perform m (publish_step n s) = (publish m n s).1

unfoldable pub performs : SessionManager → List AdmissionStep → SessionManager
performs m [] = m
performs m (e ∷ es) = performs (perform m e) es

-- Only a spawn that holds its claim publishes.
pub data AreAllowed : SessionManager → List AdmissionStep → Type 0 where
  no_steps : {m : SessionManager} → AreAllowed m []
  claims :
      {m : SessionManager} {n : SessionName} {es : List AdmissionStep}
      → AreAllowed (claim_name m n).1 es
      → AreAllowed m (claim_step n ∷ es)
  releases :
      {m : SessionManager} {n : SessionName} {es : List AdmissionStep}
      → AreAllowed (release_claim m n) es
      → AreAllowed m (release_step n ∷ es)
  forgets :
      {m : SessionManager} {n : SessionName} {es : List AdmissionStep}
      → AreAllowed (forget m n) es
      → AreAllowed m (forget_step n ∷ es)
  publishes :
      {m : SessionManager} {n : SessionName} {s : Session} {es : List AdmissionStep}
      → contains_name n m.claimed ≡ true
      → AreAllowed (publish m n s).1 es
      → AreAllowed m (publish_step n s ∷ es)

-- However the critical sections of concurrent spawns and endings interleave, live sessions and
-- spawns in flight never exceed the configured number, if every publishing spawn holds its claim.
pub performs-HasRoom :
    (m : SessionManager) (es : List AdmissionStep)
    → AreAllowed m es
    → HasRoom m
    → HasRoom (performs m es)
unfolding performs perform
performs-HasRoom m [] no_steps h = h
performs-HasRoom m (claim_step n ∷ es) (claims a) h =
    performs-HasRoom (claim_name m n).1 es a (claim_name-HasRoom m n h)
performs-HasRoom m (release_step n ∷ es) (releases a) h =
    performs-HasRoom (release_claim m n) es a (release_claim-HasRoom m n h)
performs-HasRoom m (forget_step n ∷ es) (forgets a) h =
    performs-HasRoom (forget m n) es a (forget-HasRoom m n h)
performs-HasRoom m (publish_step n s ∷ es) (publishes c a) h =
    performs-HasRoom (publish m n s).1 es a (publish-HasRoom m n s c h)

unfoldable pub name_of : AdmissionStep → SessionName
name_of (claim_step n) = n
name_of (release_step n) = n
name_of (forget_step n) = n
name_of (publish_step n s) = n

pub data AllOthers (n : SessionName) : List AdmissionStep → Type 0 where
  no_others : AllOthers n []
  other :
      {e : AdmissionStep} {es : List AdmissionStep}
      → eq_bytes (name_of e) n ≡ false
      → AllOthers n es
      → AllOthers n (e ∷ es)

contains-remove_other :
    (n k : SessionName) (xs : List SessionName)
    → eq_bytes k n ≡ false
    → contains_name n xs ≡ true
    → contains_name n (remove_name k xs) ≡ true
unfolding contains_name remove_name
contains-remove_other n k [] h c = c
contains-remove_other n k (x ∷ xs) h c =
    ground
      (arith, eq_bytes_iff x k, eq_bytes_iff x n, eq_bytes_iff k n, contains-remove_other n k xs h)

perform-holds :
    (m : SessionManager) (n : SessionName) (e : AdmissionStep)
    → eq_bytes (name_of e) n ≡ false
    → contains_name n m.claimed ≡ true
    → contains_name n (perform m e).claimed ≡ true
unfolding perform name_of claim_name contains_name release_claim forget publish
perform-holds m n (claim_step k) h c = ground arith
perform-holds m n (release_step k) h c = contains-remove_other n k m.claimed h c
perform-holds m n (forget_step k) h c = c
perform-holds m n (publish_step k s) h c = contains-remove_other n k m.claimed h c

performs-holds :
    (m : SessionManager) (n : SessionName) (es : List AdmissionStep)
    → AllOthers n es
    → contains_name n m.claimed ≡ true
    → contains_name n (performs m es).claimed ≡ true
unfolding performs
performs-holds m n [] a c = c
performs-holds m n (e ∷ es) (other h a) c =
    performs-holds (perform m e) n es a (perform-holds m n e h c)

claimed_now :
    (m : SessionManager) (n : SessionName)
    → (claim_name m n).0 ≡ ok n
    → contains_name n (claim_name m n).1.claimed ≡ true
unfolding claim_name contains_name
claimed_now m n h = ground (arith, eq_bytes_refl n)

refused :
    (m : SessionManager) (n : SessionName)
    → contains_name n m.claimed ≡ true
    → (claim_name m n).0 ≡ err (already_exists n)
unfolding claim_name taken
refused m n h = elim (Option-cases (lookup n m.sessions)) [
  | inl e ↦ ground (arith, e, h)
  | inr e ↦ ground (arith, e.1, h)
]

-- While a spawn holds the claim of a name, whatever spawns and endings of other names go on, a
-- second spawn of the name is refused.
pub claim_exclusive :
    (m : SessionManager) (n : SessionName) (es : List AdmissionStep)
    → (claim_name m n).0 ≡ ok n
    → AllOthers n es
    → (claim_name (performs (claim_name m n).1 es) n).0 ≡ err (already_exists n)
claim_exclusive m n es h a =
    refused _ n (performs-holds (claim_name m n).1 n es a (claimed_now m n h))
