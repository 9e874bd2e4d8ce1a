-- ===== src/Tools/Hub/State.antt =====
-- The state of `ToolsHub` (runtime/src/tools.rs), and how it looks things up.
use openab_pty.Base.{
  ℕ, zero, suc, ◌*◌, Bool, true, false, ◌&&◌, Option, none, some, List, [], ◌∷◌, ltb, leb, ◌==◌,
  if◌then◌else◌, eq_bytes, insert, codes,
}
use openab_pty.Crate.{
  SessionName, session_ended, ttl_expired, takeover, liveness_timeout, tools_revoked,
  runtime_replaced,
}
use openab_pty.Audit.{AuditEvent}
use openab_pty.Tools.{Attached}

abbrev pub second : ℕ
second = 1_000_000_000

abbrev pub default_tools_attach_ttl : ℕ
default_tools_attach_ttl = 3600 * second

pub record Grant : Type 0 where
  pub hash : List ℕ
  pub expires_at : ℕ

pub record Detach : Type 0 where
  pub code : ℕ
  pub at : ℕ

pub record MintedToolsAttach : Type 0 where
  pub plaintext : List ℕ
  pub verifier : List ℕ
  pub expires_at : ℕ

-- `audit` is the log, oldest first.
pub record ToolsHub (Value : Type 0) : Type 0 where
  pub grants : List (SessionName × Grant)
  pub loopback_keys : List (SessionName × List ℕ)
  pub attached : List (SessionName × ℕ)
  pub last_detach : List (SessionName × Detach)
  pub max_ttl : ℕ
  pub ping_interval : ℕ
  pub audit : List AuditEvent
  pub sockets : List (Attached Value)

unfoldable pub close_reason : ℕ → List ℕ
close_reason code =
    if code == ttl_expired
    then codes "tools grant expired"
    else if code == takeover
    then codes "replaced by a newer attach for this session"
    else if code == session_ended
    then codes "session ended"
    else if code == runtime_replaced
    then codes "runtime replaced"
    else if code == tools_revoked
    then codes "tools grant revoked by the admin plane"
    else if code == liveness_timeout
    then codes "liveness timeout: no frame within the ping budget; redial"
    else if code == 1000
    then codes "normal closure"
    else codes "closed"

unfoldable pub update {ℓ} : {A : Type ℓ} → ℕ → (A → A) → List A → List A
update i f [] = []
update zero f (x ∷ xs) = f x ∷ xs
update (suc i) f (x ∷ xs) = x ∷ update i f xs

unfoldable pub keys {ℓ} : {V : Type ℓ} → List (SessionName × V) → List SessionName
keys [] = []
keys ((name, v) ∷ m) = name ∷ keys m

-- The names, sorted and each of them once.
unfoldable pub name_set : List SessionName → List (SessionName × Bool)
name_set [] = []
name_set (name ∷ names) = insert name true (name_set names)

-- `Arc::ptr_eq` with what the map has, if it has something.
unfoldable pub same_socket : Option ℕ → ℕ → Bool
same_socket none i = false
same_socket (some j) i = j == i

unfoldable pub grant_opens : Option Grant → (presented_hash : List ℕ) → (now : ℕ) → Bool
grant_opens none presented_hash now = false
grant_opens (some grant) presented_hash now =
    ltb now grant.expires_at && eq_bytes presented_hash grant.hash

unfoldable pub grant_expired : Option Grant → (now : ℕ) → Bool
grant_expired none now = false
grant_expired (some grant) now = leb grant.expires_at now

unfoldable pub last_match :
    (bytes : List ℕ) → List (SessionName × List ℕ) → Option SessionName → Option SessionName
last_match bytes [] found = found
last_match bytes ((session, expected) ∷ rest) found =
    last_match bytes rest (if eq_bytes bytes expected then some session else found)

unfoldable pub expired : List (SessionName × Grant) → (now : ℕ) → List SessionName
expired [] now = []
expired ((name, grant) ∷ rest) now =
    let later = expired rest now in if leb grant.expires_at now then name ∷ later else later
