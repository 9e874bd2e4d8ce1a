-- ===== src/Tools/Hub.antt =====
-- `ToolsHub` of runtime/src/tools.rs. An `Arc<Attached>` is the number of its socket in `sockets`, which
-- holds every socket ever attached; equal numbers are equal pointers. The digest (crate sha2) is the
-- section's parameter, as are the bytes that the operating system's generator returned (`none`: it
-- failed) and, for a presented key, its decoding (crate hex). Instants are nanoseconds.
pub mod State
pub mod OneMac
pub mod Runs
pub mod Sweep
pub mod Keys
use openab_pty.Base.{
  ℕ, zero, suc, ◌+◌, ◌*◌, ◌/◌, Bool, true, false, not, ◌&&◌, ◌||◌, Option, none, some, List, [],
  ◌∷◌, ◌++◌, min, length, get_elem?, ltb, leb, ◌==◌, if◌then◌else◌, eq_bytes, lookup, insert,
  remove, codes,
}
use openab_pty.Crate.{
  SessionName, Error, unauthorized, other, Result, ok, err, session_ended, ttl_expired, takeover,
  liveness_timeout, tools_revoked, runtime_replaced,
}
use openab_pty.Audit.{
  AuditEvent, tools_grant_minted, tools_grant_revoked, tools_auth_failure, tools_attach,
  tools_detach, session_name, with_source, with_fingerprint, with_detail, hex, hash_fingerprint,
}
use openab_pty.Audit
use openab_pty.Token.{zeroize}
use openab_pty.Tools.{Message, ping, Attached, fresh, close, try_send, max_missed_pings, is_some}
use openab_pty.Tools.Hub.State.{
  second, default_tools_attach_ttl, MintedToolsAttach, ToolsHub, close_reason, update, keys,
  name_set, same_socket, grant_opens, grant_expired, last_match, expired,
}

module _ {Value : Type 0} where
  unfoldable pub new : (max_ttl : ℕ) → ToolsHub Value
  new max_ttl = record {
    grants = [];
    loopback_keys = [];
    attached = [];
    last_detach = [];
    max_ttl = max_ttl;
    ping_interval = 20 * second;
    audit = [];
    sockets = [];
  }

  unfoldable pub log_events : List AuditEvent → ToolsHub Value → ToolsHub Value
  log_events es hub = record hub { audit = hub.audit ++ es }

  unfoldable pub close_socket : (socket : ℕ) (code : ℕ) → ToolsHub Value → ToolsHub Value
  unfolding update close
  close_socket socket code hub = record hub {
    sockets = update socket (λ a. (close code a).1) hub.sockets;
  }

  unfoldable pub record_detach : SessionName → (code now : ℕ) → ToolsHub Value → ToolsHub Value
  record_detach session code now hub = record hub {
    last_detach = insert session (record { code = code; at = now }) hub.last_detach;
  }

  unfoldable pub is_closed : ToolsHub Value → (socket : ℕ) → Bool
  is_closed hub socket = elim (get_elem? hub.sockets socket) [ none ↦ true | some a ↦ a.closed ]

  -- The socket that the map has for a session, unless it is closed.
  unfoldable pub attached_for : ToolsHub Value → SessionName → Option ℕ
  unfolding is_closed
  attached_for hub session = elim (lookup session hub.attached) [
    | none ↦ none
    | some socket ↦ if is_closed hub socket then none else some socket
  ]

  unfoldable pub is_attached : ToolsHub Value → SessionName → Bool
  unfolding attached_for
  is_attached hub session = is_some (attached_for hub session)

  unfoldable pub grant_expiry : ToolsHub Value → SessionName → Option ℕ
  grant_expiry hub session = elim (lookup session hub.grants) [
    | none ↦ none
    | some grant ↦ some grant.expires_at
  ]

  -- The detail of the audit event says `ttl_secs`, which is left out.
  unfoldable pub mint_with_ttl :
      (sha256 : List ℕ → List ℕ)
      → SessionName
      → (ttl now : ℕ) (raw : Option (List ℕ)) → ToolsHub Value
      → Result MintedToolsAttach × ToolsHub Value
  unfolding log_events
  mint_with_ttl sha256 session ttl now raw hub =
      if ttl == 0
      then (err (other "tools attach TTL must be non-zero"), hub)
      else if ltb hub.max_ttl ttl
      then (err (other "tools attach TTL exceeds configured maximum"), hub)
      else elim raw [
        | none ↦ (err (other "OS RNG failed while minting a tools attach secret"), hub)
        | some bytes ↦
            let hash = sha256 (hex bytes) in
            (
              ok (record {
                plaintext = hex bytes;
                verifier = codes "sha256:" ++ hex hash;
                expires_at = now + ttl;
              }),
              log_events
                  (with_fingerprint (session_name (Audit.new tools_grant_minted) session)
                      (hash_fingerprint sha256 hash)
                    ∷ [])
                  (record hub {
                    grants =
                        insert session (record { hash = hash; expires_at = now + ttl }) hub.grants;
                  }),
            )
      ]

  unfoldable pub mint :
      (sha256 : List ℕ → List ℕ)
      → SessionName
      → (now : ℕ) (raw : Option (List ℕ)) → ToolsHub Value
      → Result MintedToolsAttach × ToolsHub Value
  unfolding mint_with_ttl
  mint sha256 session now raw hub =
      mint_with_ttl sha256 session (min default_tools_attach_ttl hub.max_ttl) now raw hub

  -- The grant of a session goes, with its audit event.
  unfoldable pub drop_grant :
      (sha256 : List ℕ → List ℕ) → SessionName → (code : ℕ) → ToolsHub Value → Bool × ToolsHub Value
  unfolding log_events
  drop_grant sha256 session code hub = elim (lookup session hub.grants) [
    | none ↦ (false, hub)
    | some grant ↦ (
      true,
      log_events
          (with_detail
              (with_fingerprint (session_name (Audit.new tools_grant_revoked) session)
                (hash_fingerprint sha256 grant.hash))
              (close_reason code)
            ∷ [])
          (record hub { grants = remove session hub.grants }),
    )
  ]

  -- The socket of a session leaves the map, and is closed.
  unfoldable pub drop_attached : SessionName → (code : ℕ) → ToolsHub Value → Bool × ToolsHub Value
  unfolding close_socket
  drop_attached session code hub = elim (lookup session hub.attached) [
    | none ↦ (false, hub)
    | some socket ↦
        (true, close_socket socket code (record hub { attached = remove session hub.attached }))
  ]

  unfoldable pub revoke :
      (sha256 : List ℕ → List ℕ)
      → SessionName
      → (code now : ℕ) → ToolsHub Value
      → Bool × ToolsHub Value
  unfolding drop_grant drop_attached record_detach
  revoke sha256 session code now hub =
      let (granted, without_grant) = drop_grant sha256 session code hub in
      let (mapped, without_socket) = drop_attached session code without_grant in
      if granted || mapped
      then (true, record_detach session code now without_socket)
      else (false, without_socket)

  -- The outcome, the presented bytes afterwards, and the hub.
  unfoldable pub verify :
      (sha256 : List ℕ → List ℕ)
      → SessionName
      → (presented source : List ℕ) (now : ℕ) → ToolsHub Value
      → Result (Unit {0}) × List ℕ × ToolsHub Value
  unfolding grant_opens grant_expired log_events
  verify sha256 session presented source now hub =
      if grant_opens (lookup session hub.grants) (sha256 presented) now
      then (ok tt, zeroize presented, hub)
      else (
        err unauthorized,
        zeroize presented,
        log_events
            (with_detail (with_source (session_name (Audit.new tools_auth_failure) session) source)
                (codes "invalid_or_expired_tools_attach_secret")
              ∷ [])
            (if grant_expired (lookup session hub.grants) now
              then record hub { grants = remove session hub.grants }
              else hub),
      )

  unfoldable pub issue_loopback_key :
      SessionName → (raw : Option (List ℕ)) → ToolsHub Value → List ℕ × ToolsHub Value
  issue_loopback_key session none hub =
      ([], record hub { loopback_keys = remove session hub.loopback_keys })
  issue_loopback_key session (some raw) hub =
      (hex raw, record hub { loopback_keys = insert session raw hub.loopback_keys })

  -- `decoded` is what `hex::decode` made of the presented text.
  unfoldable pub check_loopback_key :
      ToolsHub Value → SessionName → (decoded : Option (List ℕ)) → Bool
  check_loopback_key hub session none = false
  check_loopback_key hub session (some bytes) = elim (lookup session hub.loopback_keys) [
    | none ↦ false
    | some expected ↦ (length bytes == length expected) && eq_bytes bytes expected
  ]

  unfoldable pub session_for_loopback_key :
      ToolsHub Value → (decoded : Option (List ℕ)) → Option SessionName
  unfolding last_match
  session_for_loopback_key hub none = none
  session_for_loopback_key hub (some bytes) =
      if length bytes == 32 then last_match bytes hub.loopback_keys none else none

  unfoldable pub forget_session :
      (sha256 : List ℕ → List ℕ) → SessionName → (now : ℕ) → ToolsHub Value → ToolsHub Value
  unfolding revoke
  forget_session sha256 session now hub =
      let (revoked, ended) =
        revoke sha256 session session_ended now
          (record hub { loopback_keys = remove session hub.loopback_keys }) in
      record ended { last_detach = remove session ended.last_detach }

  -- `serve_attached` up to its loop: the new socket's number, and the hub. One step here; the source
  -- closes the incumbent after it has released the map.
  unfoldable pub install :
      SessionName → (peer : List ℕ) (now : ℕ) → ToolsHub Value → ℕ × ToolsHub Value
  unfolding log_events close_socket fresh
  install session peer now hub =
      let mapped = record hub {
        sockets = hub.sockets ++ (fresh session peer now ∷ []);
        attached = insert session (length hub.sockets) hub.attached;
      } in
      (
        length hub.sockets,
        log_events (with_source (session_name (Audit.new tools_attach) session) peer ∷ [])
            (elim (lookup session hub.attached) [
              | none ↦ mapped
              | some incumbent ↦ close_socket incumbent takeover mapped
            ]),
      )

  -- A tick of the ping interval: whether the loop goes on, the count of missed pings, and the socket.
  unfoldable pub ping_tick : (missed : ℕ) → Attached Value → Bool × ℕ × Attached Value
  unfolding close try_send
  ping_tick missed a =
      if a.closed
      then (false, missed, a)
      else if ltb max_missed_pings (missed + 1)
      then (false, missed + 1, (close liveness_timeout a).1)
      else (true, missed + 1, try_send ping a)

  -- The map and the record of the detach, as the socket's task leaves them.
  unfoldable pub detach_current :
      SessionName → (socket code now : ℕ) → ToolsHub Value → ToolsHub Value
  unfolding record_detach
  detach_current session socket code now hub =
      if same_socket (lookup session hub.attached) socket
      then record_detach session code now (record hub { attached = remove session hub.attached })
      else hub

  unfoldable pub code_of : ToolsHub Value → (socket : ℕ) → ℕ
  code_of hub socket = elim (get_elem? hub.sockets socket) [ none ↦ 0 | some a ↦ a.close_code ]

  -- `serve_attached` after its loop.
  unfoldable pub finish :
      SessionName → (peer : List ℕ) (socket now : ℕ) → ToolsHub Value → ToolsHub Value
  unfolding close_socket code_of detach_current log_events
  finish session peer socket now hub =
      let shut = close_socket socket 1000 hub in
      log_events
        (with_detail (with_source (session_name (Audit.new tools_detach) session) peer)
            (close_reason (code_of shut socket))
          ∷ [])
        (detach_current session socket (code_of shut socket) now shut)

  unfoldable pub revoke_all :
      (sha256 : List ℕ → List ℕ)
      → List SessionName
      → (code now : ℕ) → ToolsHub Value
      → ToolsHub Value
  unfolding revoke
  revoke_all sha256 [] code now hub = hub
  revoke_all sha256 (name ∷ names) code now hub =
      revoke_all sha256 names code now (revoke sha256 name code now hub).1

  unfoldable pub known : ToolsHub Value → List SessionName
  unfolding keys name_set
  known hub = keys (
      name_set (
        keys hub.grants ++ (keys hub.attached ++ (keys hub.loopback_keys ++ keys hub.last_detach))))

  unfoldable pub forget_missing :
      (sha256 : List ℕ → List ℕ)
      → (session_exists : SessionName → Bool) → List SessionName
      → (now : ℕ) → ToolsHub Value
      → ToolsHub Value
  unfolding forget_session
  forget_missing sha256 session_exists [] now hub = hub
  forget_missing sha256 session_exists (name ∷ names) now hub =
      forget_missing sha256 session_exists names now
        (if session_exists name then hub else forget_session sha256 name now hub)

  unfoldable pub without_closed : ToolsHub Value → List (SessionName × ℕ) → List (SessionName × ℕ)
  unfolding is_closed
  without_closed hub [] = []
  without_closed hub ((name, socket) ∷ rest) =
      let kept = without_closed hub rest in
      if is_closed hub socket then kept else (name, socket) ∷ kept

  -- One step here; the source releases the map between finding closed sockets and removing them.
  unfoldable pub sweep :
      (sha256 : List ℕ → List ℕ)
      → (session_exists : SessionName → Bool) → (now : ℕ) → ToolsHub Value
      → ToolsHub Value
  unfolding expired revoke_all known forget_missing without_closed
  sweep sha256 session_exists now hub =
      let current = revoke_all sha256 (expired hub.grants now) ttl_expired now hub in
      let swept = forget_missing sha256 session_exists (known current) now current in
      record swept { attached = without_closed swept swept.attached }

  unfoldable pub close_each : List (SessionName × ℕ) → (code : ℕ) → ToolsHub Value → ToolsHub Value
  unfolding close_socket
  close_each [] code hub = hub
  close_each ((name, socket) ∷ rest) code hub = close_each rest code (close_socket socket code hub)

  unfoldable pub close_all : (code : ℕ) → ToolsHub Value → ToolsHub Value
  unfolding close_each
  close_all code hub = close_each hub.attached code (record hub { attached = [] })
