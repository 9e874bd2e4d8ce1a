-- ===== src/Session/Manager/Examples.antt =====
-- Concrete inputs (runtime/src/session.rs).
use openab_pty.Base.{
  ℕ, ◌+◌, ◌≡◌, refl, true, false, none, some, List, [], ◌∷◌, arith, codes, lookup, eq_bytes,
}
use openab_pty.Crate.{ok, err, SessionName, unauthorized, already_exists, session_dead}
use openab_pty.Token
use openab_pty.Token.{verify}
use openab_pty.Session.Policy.{default_size, default_policy}
use openab_pty.Session.Handle.{Session, fresh}
use openab_pty.Session.Manager.{SessionManager, claim_name, contains_name, alive_count, taken}
use openab_pty.Session.Manager.Admin.{renew, kill, retire}
use openab_pty.Session.Manager.Client.{missing}
use openab_pty.Session.Manager.Admission
use openab_pty.Session.Manager.Admission.{
  HasRoom, claim_name_iff, AdmissionStep, name_of, claim_step, publish_step, AreAllowed, claims,
  publishes, no_steps, performs-HasRoom, AllOthers, other, no_others, claim_exclusive,
}
use openab_pty.Session.Manager.Dead.{kill_lem}
use openab_pty.Session.Manager.Revoke.{renew-verify, kill-verify}

abbrev name_one : SessionName
name_one = codes "one"

abbrev name_two : SessionName
name_two = codes "two"

abbrev digest : List ℕ → List ℕ
digest d = d

abbrev session_one : Session
session_one = fresh name_one 1 default_size 0 64 false false 3

abbrev empty_manager : SessionManager
empty_manager = record {
  sessions = [];
  claimed = [];
  tombstones = [];
  config = record {
    max_sessions = 1;
    scrollback_kib = 64;
    scrollback_replay = true;
    filter_terminal_responses = false;
  };
  policy = default_policy;
  tokens = Token.new 1_000;
  best_effort = true;
  metrics = record {
    sessions_created = 0;
    admission_rejected = 0;
    takeovers = 0;
    takeovers_rate_limited = 0;
    ttl_expired = 0;
    self_exits = 0;
  };
  audit = [];
}

abbrev manager_one : SessionManager
manager_one = record empty_manager { sessions = (name_one, session_one) ∷ [] }

found : lookup name_one manager_one.sessions ≡ some session_one
unfolding lookup eq_bytes
found = refl

lives : (session_one.io_alive ≡ true) × (session_one.alive ≡ true)
unfolding fresh
lives = (refl, refl)

renew-verify_example :
    (verify digest
      (renew digest manager_one name_one 5 (some (1 ∷ 2 ∷ []))).1.tokens
      name_one
      session_one.generation
      (codes "0102")
      none
      6).0
    ≡ err unauthorized
renew-verify_example =
    renew-verify digest manager_one name_one session_one 5 (some (1 ∷ 2 ∷ [])) (codes "0102") none 6
      found lives.0

kill-verify_example :
    (verify digest (kill digest manager_one name_one).1.tokens name_one 1 (codes "0102") none 6).0
    ≡ err unauthorized
kill-verify_example =
    kill-verify digest manager_one name_one session_one 1 (codes "0102") none 6 found lives.1

kill_lem_example :
    (lookup name_one (kill digest manager_one name_one).1.sessions ≡ none)
    × (missing (kill digest manager_one name_one).1 name_one ≡ session_dead name_one)
    × ((retire digest (kill digest manager_one name_one).1 name_one).0
        ≡ some (session_one.generation + 1))
kill_lem_example = kill_lem digest manager_one name_one session_one found

has_room : HasRoom empty_manager
unfolding HasRoom alive_count
has_room = ground arith

holds_claim : contains_name name_one (claim_name empty_manager name_one).1.claimed ≡ true
unfolding claim_name lookup eq_bytes taken contains_name
holds_claim = refl

performs-HasRoom_example : HasRoom (
    Admission.performs empty_manager
      (claim_step name_one ∷ publish_step name_one session_one ∷ claim_step name_two ∷ []))
performs-HasRoom_example =
    performs-HasRoom empty_manager
      (claim_step name_one ∷ publish_step name_one session_one ∷ claim_step name_two ∷ [])
      (claims (publishes holds_claim (claims no_steps))) has_room

claims_one : (claim_name empty_manager name_one).0 ≡ ok name_one
unfolding claim_name lookup eq_bytes taken contains_name alive_count
claims_one = refl

names_differ : eq_bytes (name_of (claim_step name_two)) name_one ≡ false
unfolding eq_bytes name_of
names_differ = refl

claim_exclusive_example :
    (claim_name
      (Admission.performs (claim_name empty_manager name_one).1 (claim_step name_two ∷ []))
      name_one).0
    ≡ err (already_exists name_one)
claim_exclusive_example =
    claim_exclusive empty_manager name_one (claim_step name_two ∷ []) claims_one
      (other names_differ no_others)
