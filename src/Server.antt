-- ===== src/Server.antt =====
-- runtime/src/server.rs: what the WebSocket listener accepts and says. The header map (crate http) is the
-- function from a header's name to its text, JSON (crate serde_json) and its parser are parameters.
pub mod Limiter
pub mod ReadLoop
mod Examples
use Prim.Native.String.{String}
use openab_pty.Base.{
  ℕ, ◌+◌, ◌*◌, ◌^◌, Bool, true, false, not, ◌||◌, Option, none, some, List, [], ◌∷◌, length,
  eq_bytes, ltb, ◌==◌, if◌then◌else◌, codes,
}
use openab_pty.Crate.{
  Error, invalid_session_name, not_found, already_exists, session_dead, capacity_exceeded,
  unauthorized, config, other, io, Result, ok, err, ttl_expired, takeover, renewed, session_ended,
  slow_client, runtime_replaced, capacity, admin_kill, internal_error,
}
use openab_pty.AdminAuth.{max_admin_credential_bytes, strip_prefix}
use openab_pty.Session.Policy.{WindowSize, validated}
use openab_pty.Config.Validate.{bind_is_loopback}
use openab_pty.Tools.{Json}

abbrev pub control_schema_version : ℕ
control_schema_version = 1

abbrev pub max_input_frame_bytes : ℕ
max_input_frame_bytes = 64 * 1024

abbrev pub max_control_frame_bytes : ℕ
max_control_frame_bytes = 4 * 1024

abbrev pub max_malformed_frames : ℕ
max_malformed_frames = 3

abbrev pub ws_normal_closure : ℕ
ws_normal_closure = 1000

abbrev pub ws_policy_violation : ℕ
ws_policy_violation = 1008

pub data ClientControl : Type 0 where
  resize_control : WindowSize → ClientControl
  ping_control detach_control : ClientControl

pub data FrameReject : Type 0 where
  oversize not_json version unknown_type resize_bounds : FrameReject

-- `Result<ClientControl, FrameReject>`.
pub data Parsed : Type 0 where
  accepted : ClientControl → Parsed
  rejected : FrameReject → Parsed

-- `u16::try_from` of both, then `WindowSize::validated`.
unfoldable pub resize_of : (rows cols : ℕ) → Parsed
resize_of rows cols =
    if not (ltb rows (2 ^ 16)) || not (ltb cols (2 ^ 16))
    then rejected resize_bounds
    else elim (validated rows cols) [
      | ok size ↦ accepted (resize_control size)
      | err e ↦ rejected resize_bounds
    ]

module _ {Value : Type 0} (json : Json Value) (from_str : List ℕ → Option Value)
    (is_object : Value → Bool) where
  unfoldable pub get_u64 : Value → (key : List ℕ) → Option ℕ
  get_u64 value key = elim (json.get value key) [ none ↦ none | some v ↦ json.as_u64 v ]

  unfoldable pub get_str : Value → (key : List ℕ) → Option (List ℕ)
  get_str value key = elim (json.get value key) [ none ↦ none | some v ↦ json.as_str v ]

  unfoldable pub parse_resize : Value → Parsed
  unfolding get_u64 resize_of
  parse_resize value = elim (get_u64 value (codes "rows")) [
    | none ↦ rejected resize_bounds
    | some rows ↦ elim (get_u64 value (codes "cols")) [
      | none ↦ rejected resize_bounds
      | some cols ↦ resize_of rows cols
    ]
  ]

  unfoldable pub parse_type : Value → (type : List ℕ) → Parsed
  unfolding parse_resize
  parse_type value type =
      if eq_bytes type (codes "resize")
      then parse_resize value
      else if eq_bytes type (codes "ping")
      then accepted ping_control
      else if eq_bytes type (codes "detach")
      then accepted detach_control
      else rejected unknown_type

  unfoldable pub parse_object : Value → Parsed
  unfolding get_u64 get_str parse_type
  parse_object value =
      if not
        (elim (get_u64 value (codes "v")) [ none ↦ false | some v ↦ v == control_schema_version ])
      then rejected version
      else elim (get_str value (codes "type")) [
        | none ↦ rejected unknown_type
        | some type ↦ parse_type value type
      ]

  unfoldable pub parse_client_control : (text : List ℕ) → Parsed
  unfolding parse_object
  parse_client_control text =
      if ltb max_control_frame_bytes (length text)
      then rejected oversize
      else elim (from_str text) [
        | none ↦ rejected not_json
        | some value ↦ if not (is_object value) then rejected not_json else parse_object value
      ]

  unfoldable pub insert_all : List (List ℕ × Value) → Value → Value
  insert_all [] value = value
  insert_all ((key, extra) ∷ rest) value = insert_all rest (json.insert value key extra)

  -- `event` is the serialised event.
  unfoldable pub control_frame : (event : Value) (extra : List (List ℕ × Value)) → Value
  unfolding insert_all
  control_frame event extra =
      insert_all extra (json.insert event (codes "v") (json.number control_schema_version))

  unfoldable pub pong_frame : Value
  pong_frame = json.object (
      (codes "v", json.number control_schema_version)
      ∷ (codes "type", json.text (codes "pong"))
      ∷ [])

unfoldable pub split_commas : List ℕ → List (List ℕ)
split_commas [] = [] ∷ []
split_commas (b ∷ bs) = elim (split_commas bs) [
  | [] ↦ (b ∷ []) ∷ []
  | entry ∷ rest ↦ if b == b',' then [] ∷ entry ∷ rest else (b ∷ entry) ∷ rest
]

-- The whitespace that the text of a header can have: the space and the tab.
unfoldable pub is_space : ℕ → Bool
is_space b = (b == b' ') || (b == 9)

unfoldable pub trim_front : List ℕ → List ℕ
unfolding is_space
trim_front [] = []
trim_front (b ∷ bs) = let rest = trim_front bs in if is_space b then rest else b ∷ bs

unfoldable pub trim_back : List ℕ → List ℕ
unfolding is_space
trim_back [] = []
trim_back (b ∷ bs) = elim (trim_back bs) [
  | [] ↦ if is_space b then [] else b ∷ []
  | c ∷ cs ↦ b ∷ c ∷ cs
]

-- `find_map` of the bearer prefix over the trimmed entries.
unfoldable pub find_bearer : List (List ℕ) → Option (List ℕ)
unfolding trim_front trim_back
find_bearer [] = none
find_bearer (entry ∷ rest) =
    elim (strip_prefix (codes "openab.bearer.") (trim_back (trim_front entry))) [
      | some token ↦ some token
      | none ↦ find_bearer rest
    ]

module _ (headers : (name : List ℕ) → Option (List ℕ)) where
  unfoldable pub subprotocol_token : Option (List ℕ)
  unfolding split_commas find_bearer
  subprotocol_token = elim (headers (codes "sec-websocket-protocol")) [
    | none ↦ none
    | some list ↦ find_bearer (split_commas list)
  ]

  unfoldable pub authorization_bearer : Option (List ℕ)
  authorization_bearer = elim (headers (codes "authorization")) [
    | none ↦ none
    | some value ↦ strip_prefix (codes "Bearer ") value
  ]

  unfoldable pub ws_bearer_token : Option (List ℕ)
  unfolding authorization_bearer subprotocol_token
  ws_bearer_token = elim authorization_bearer [ some token ↦ some token | none ↦ subprotocol_token ]

  unfoldable pub admin_credential : Option (List ℕ)
  unfolding authorization_bearer
  admin_credential = elim authorization_bearer [
    | none ↦ none
    | some raw ↦
        if (length raw == 0) || ltb max_admin_credential_bytes (length raw) then none else some raw
  ]

-- `Result<(), String>`; why a bind is refused, without the address.
pub data Guarded : Type 0 where
  bind_allowed no_admin_hash no_upstream_tls : Guarded

unfoldable pub listener_guard :
    (parse_ip : List ℕ → Option Bool)
    → (listen_addr admin_credential_hash : List ℕ) (tls_terminated_upstream : Bool) → Guarded
listener_guard parse_ip listen_addr admin_credential_hash tls_terminated_upstream =
    if bind_is_loopback parse_ip listen_addr
    then bind_allowed
    else if length admin_credential_hash == 0
    then no_admin_hash
    else if not tls_terminated_upstream
    then no_upstream_tls
    else bind_allowed

unfoldable pub attach_failure_close_code : Error → ℕ
attach_failure_close_code (session_dead name) = session_ended
attach_failure_close_code (not_found name) = session_ended
attach_failure_close_code unauthorized = renewed
attach_failure_close_code (capacity_exceeded limit) = capacity
attach_failure_close_code (io code) = internal_error
attach_failure_close_code (config message) = internal_error
attach_failure_close_code (other message) = internal_error
attach_failure_close_code (invalid_session_name name) = internal_error
attach_failure_close_code (already_exists name) = internal_error

pub data ReadExit : Type 0 where
  detached socket_gone input_backpressure frame_abuse : ReadExit

unfoldable pub exit_close_code : ReadExit → ℕ
exit_close_code detached = ws_normal_closure
exit_close_code socket_gone = ws_normal_closure
exit_close_code input_backpressure = capacity
exit_close_code frame_abuse = ws_policy_violation

abbrev pub exit_label : ReadExit → String
exit_label detached = "client_detach"
exit_label socket_gone = "socket_closed"
exit_label input_backpressure = "input_backpressure_disconnect"
exit_label frame_abuse = "frame_abuse_disconnect"

unfoldable pub close_reason : ℕ → String
close_reason code =
    if code == ttl_expired
    then "session expired"
    else if code == admin_kill
    then "session killed by an operator"
    else if code == internal_error
    then "runtime error: not retryable by re-creating"
    else if code == takeover
    then "another connection took over"
    else if code == renewed
    then "attach token renewed"
    else if code == session_ended
    then "session ended"
    else if code == slow_client
    then "client could not keep up"
    else if code == runtime_replaced
    then "runtime replaced; ephemeral workspace was reset"
    else if code == capacity
    then "capacity or admission bound reached"
    else if code == ws_policy_violation
    then "protocol violation"
    else "closed"
