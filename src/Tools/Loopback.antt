-- ===== src/Tools/Loopback.antt =====
-- The loopback surface of `ToolsHub` (runtime/src/tools.rs): what a session's CLI is answered. `answer` is
-- what `Attached::call` came to for the forwarded request, and `version` the crate's.
pub mod Answers
use openab_pty.Base.{
  ℕ, ◌-◌, ◌/◌, Bool, true, false, not, ◌&&◌, ◌||◌, Option, none, some, List, [], ◌∷◌, ◌++◌, length,
  get_elem?, ◌==◌, if◌then◌else◌, eq_bytes, lookup, codes, map,
}
use openab_pty.Crate.{
  SessionName, ttl_expired, takeover, session_ended, runtime_replaced, tools_revoked,
  liveness_timeout,
}
use openab_pty.Tools.{
  Json, Attached, CallError, not_attached, rpc_code, message, rpc_error, and_then, is_some,
}
use openab_pty.Tools.Hub.{attached_for, is_attached, grant_expiry}
use openab_pty.Tools.Hub.State.{Detach, ToolsHub, second}

-- What a forwarded call came to.
pub data Answer (Value : Type 0) : Type 0 where
  answered : Value → Answer Value
  failed : CallError → Answer Value

abbrev pub redial_hint : List ℕ
redial_hint =
    codes
      "No Mac is attached right now, but its grant is still valid: the Mac redials on its own, normally within 30 s. Wait, call instance_status again, then retry; ask the human to lend it again only if it stays detached for several minutes."

abbrev pub liveness_hint : List ℕ
liveness_hint =
    codes
      "Liveness timeout: the Mac stopped answering pings (usually because one tool call blocked it for over a minute) and the runtime closed the socket. The grant is still valid and the Mac redials on its own, normally within 30 s. Wait, call instance_status again, then retry; keep each call short and start long work as a background job (e.g. exec_start) instead of blocking in one call."

unfoldable pub detach_reason : ℕ → List ℕ
detach_reason code =
    if code == liveness_timeout
    then codes "liveness_timeout"
    else if code == tools_revoked
    then codes "revoked"
    else if code == ttl_expired
    then codes "ttl_expired"
    else if code == takeover
    then codes "takeover"
    else if code == session_ended
    then codes "session_ended"
    else if code == runtime_replaced
    then codes "runtime_replaced"
    else codes "closed"

-- The hint of a detached session: whether a grant waits, and why the last Mac went.
unfoldable pub hint : (grant_pending : Bool) → (last : Option Detach) → List ℕ
hint false last = message not_attached
hint true none = redial_hint
hint true (some detach) = if detach.code == liveness_timeout then liveness_hint else redial_hint

unfoldable pub unwrap_or {ℓ} : {A : Type ℓ} → Option A → A → A
unwrap_or none fallback = fallback
unwrap_or (some a) fallback = a

module _ {Value : Type 0} (json : Json Value) where
  abbrev pub mcp_protocol_version : List ℕ
  mcp_protocol_version = codes "2025-06-18"

  abbrev pub status_tool_name : List ℕ
  status_tool_name = codes "instance_status"

  -- `json!(option)`.
  unfoldable pub nullable {ℓ} : {A : Type ℓ} → (A → Value) → Option A → Value
  nullable f none = json.null
  nullable f (some a) = f a

  unfoldable pub rpc_result : (id result : Value) → Value
  rpc_result id result = json.object (
      (codes "jsonrpc", json.text (codes "2.0")) ∷ (codes "id", id) ∷ (codes "result", result) ∷ [])

  unfoldable pub tool_error_result : (id : Value) (text : List ℕ) → Value
  unfolding rpc_result
  tool_error_result id text = rpc_result id (
      json.object (
        (
          codes "content",
          json.array (
              json.object
                ((codes "type", json.text (codes "text")) ∷ (codes "text", json.text text) ∷ [])
              ∷ []),
        )
        ∷ (codes "isError", json.bool true)
        ∷ []))

  -- `forward`: the Mac's answer with the caller's own id, or the error.
  unfoldable pub forward : (id : Value) → Answer Value → Value
  forward id (answered response) = json.insert response (codes "id") id
  forward id (failed error) = rpc_error json id (rpc_code error) (message error)

  unfoldable pub offered_version : (request : Value) → List ℕ
  unfolding and_then unwrap_or
  offered_version request =
      unwrap_or
        (and_then
          (and_then (json.get request (codes "params")) (λ p. json.get p (codes "protocolVersion")))
          json.as_str)
        mcp_protocol_version

  unfoldable pub spoken_version : (offered : List ℕ) → List ℕ
  spoken_version offered =
      if eq_bytes offered mcp_protocol_version || eq_bytes offered (codes "2025-03-26")
      then offered
      else mcp_protocol_version

  unfoldable pub local_initialize :
      (version : List ℕ) → ToolsHub Value → SessionName → (id request : Value) → Value
  unfolding rpc_result offered_version spoken_version is_attached
  local_initialize version hub session id request = rpc_result id (
      json.object (
        (codes "protocolVersion", json.text (spoken_version (offered_version request)))
        ∷ (
          codes "capabilities",
          json.object
              ((codes "tools", json.object ((codes "listChanged", json.bool true) ∷ [])) ∷ []),
        )
        ∷ (
          codes "serverInfo",
          json.object (
              (codes "name", json.text (codes "openab-pty-tools"))
              ∷ (codes "version", json.text version)
              ∷ []),
        )
        ∷ (
          codes "instructions",
          json.text (
              if is_attached hub session
              then codes
                  "A Mac is currently lent to this session. Its tools are listed under tools/list alongside instance_status. The grant is time-bounded; call instance_status if a tool starts failing."
              else codes
                  "No Mac is attached to this session right now. Only instance_status is available; ask the human to lend a Mac from OpenAB Connect or Remote, then call tools/list again."),
        )
        ∷ []))

  unfoldable pub status_tool : Value
  status_tool = json.object (
      (codes "name", json.text status_tool_name)
      ∷ (
        codes "description",
        json.text (
            codes
              "Whether a Mac is attached to this PTY session through openab-pty, and for how long the grant lasts. Answered by the runtime itself; works even when nothing is attached."),
      )
      ∷ (
        codes "inputSchema",
        json.object (
            (codes "type", json.text (codes "object"))
            ∷ (codes "properties", json.object [])
            ∷ (codes "additionalProperties", json.bool false)
            ∷ []),
      )
      ∷ [])

  unfoldable pub has_name : (name : List ℕ) → (tool : Value) → Bool
  unfolding and_then
  has_name name tool = elim (and_then (json.get tool (codes "name")) json.as_str) [
    | none ↦ false
    | some n ↦ eq_bytes n name
  ]

  -- `tools.retain(..)`.
  unfoldable pub without_status : List Value → List Value
  unfolding has_name
  without_status [] = []
  without_status (tool ∷ tools) =
      let rest = without_status tools in
      if has_name status_tool_name tool then rest else tool ∷ rest

  -- The tools of a response, if it has the shape of a list.
  unfoldable pub listed : Value → Option (List Value)
  unfolding and_then
  listed response =
      and_then (and_then (json.get response (codes "result")) (λ r. json.get r (codes "tools")))
        json.as_array

  -- The response in which the list of tools was changed in place.
  unfoldable pub with_tools : (response : Value) (tools : List Value) → Value
  with_tools response tools = elim (json.get response (codes "result")) [
    | none ↦ response
    | some r ↦
        json.insert response (codes "result") (json.insert r (codes "tools") (json.array tools))
  ]

  unfoldable pub only_status : (id : Value) → Value
  unfolding rpc_result status_tool
  only_status id = rpc_result id (json.object ((codes "tools", json.array (status_tool ∷ [])) ∷ []))

  unfoldable pub tools_list : ToolsHub Value → SessionName → (id : Value) → Answer Value → Value
  unfolding forward listed with_tools without_status only_status is_attached
  tools_list hub session id answer =
      if is_attached hub session
      then elim (listed (forward id answer)) [
        | some tools ↦ with_tools (forward id answer) (without_status tools ++ (status_tool ∷ []))
        | none ↦ only_status id
      ]
      else only_status id

  unfoldable pub detached_status : ToolsHub Value → SessionName → (now : ℕ) → Value
  unfolding hint nullable detach_reason grant_expiry
  detached_status hub session now =
      let last = lookup session hub.last_detach in
      let grant_pending = is_some (grant_expiry hub session) in
      json.object (
        (codes "attached", json.bool false)
        ∷ (codes "session", json.text session)
        ∷ (codes "grant_pending", json.bool grant_pending)
        ∷ (codes "last_detach_reason", nullable (λ d. json.text (detach_reason d.code)) last)
        ∷ (codes "last_detach_close_code", nullable (λ d. json.number d.code) last)
        ∷ (codes "last_detach_secs_ago", nullable (λ d. json.number ((now - d.at) / second)) last)
        ∷ (codes "hint", json.text (hint grant_pending last))
        ∷ [])

  unfoldable pub status : Attached Value → (grant_expires_at : Option ℕ) (now : ℕ) → Value
  unfolding nullable
  status a grant_expires_at now = json.object (
      (codes "attached", json.bool true)
      ∷ (codes "session", json.text a.session)
      ∷ (codes "peer", json.text a.peer)
      ∷ (codes "attached_for_secs", json.number ((now - a.since) / second))
      ∷ (codes "in_flight", json.number (length a.pending))
      ∷ (codes "server", nullable (λ v. v) a.server_info)
      ∷ (
        codes "grant_expires_in_secs",
        nullable (λ at. json.number ((at - now) / second)) grant_expires_at,
      )
      ∷ [])

  unfoldable pub current_status : ToolsHub Value → SessionName → (now : ℕ) → Value
  unfolding status detached_status attached_for and_then
  current_status hub session now =
      elim (and_then (attached_for hub session) (λ socket. get_elem? hub.sockets socket)) [
        | some a ↦ status a (grant_expiry hub session) now
        | none ↦ detached_status hub session now
      ]

  unfoldable pub tool_name : (request : Value) → List ℕ
  unfolding and_then unwrap_or
  tool_name request =
      unwrap_or
        (and_then (and_then (json.get request (codes "params")) (λ p. json.get p (codes "name")))
          json.as_str)
        []

  -- `to_string` is the text of a value.
  unfoldable pub status_result : (to_string : Value → List ℕ) → (id status : Value) → Value
  unfolding rpc_result
  status_result to_string id status = rpc_result id (
      json.object (
        (
          codes "content",
          json.array (
              json.object (
                (codes "type", json.text (codes "text"))
                ∷ (codes "text", json.text (to_string status))
                ∷ [])
              ∷ []),
        )
        ∷ (codes "structuredContent", status)
        ∷ (codes "isError", json.bool false)
        ∷ []))

  unfoldable pub tools_call :
      (to_string : Value → List ℕ)
      → ToolsHub Value
      → SessionName
      → (id request : Value) → Answer Value
      → (now : ℕ) → Value
  unfolding tool_name current_status status_result forward tool_error_result is_attached
  tools_call to_string hub session id request answer now =
      if eq_bytes (tool_name request) status_tool_name
      then status_result to_string id (current_status hub session now)
      else if is_attached hub session
      then forward id answer
      else if is_some (grant_expiry hub session)
      then tool_error_result id redial_hint
      else tool_error_result id (message not_attached)

  unfoldable pub method_of : (request : Value) → List ℕ
  unfolding and_then unwrap_or
  method_of request = unwrap_or (and_then (json.get request (codes "method")) json.as_str) []

  unfoldable pub answer_method :
      (to_string : Value → List ℕ) (version : List ℕ)
      → ToolsHub Value
      → SessionName
      → (id request : Value) → Answer Value
      → (now : ℕ) → Value
  unfolding method_of local_initialize rpc_result tools_list tools_call forward is_attached
  answer_method to_string version hub session id request answer now =
      if eq_bytes (method_of request) (codes "initialize")
      then local_initialize version hub session id request
      else if eq_bytes (method_of request) (codes "ping")
      then rpc_result id (json.object [])
      else if eq_bytes (method_of request) (codes "tools/list")
      then tools_list hub session id answer
      else if eq_bytes (method_of request) (codes "tools/call")
      then tools_call to_string hub session id request answer now
      else if is_attached hub session
      then forward id answer
      else rpc_error json id 32601
          (codes "method not available: no Mac is attached to this session")

  -- `none`: a notification, which is not answered.
  unfoldable pub handle_loopback :
      (to_string : Value → List ℕ) (version : List ℕ)
      → ToolsHub Value
      → SessionName
      → (request : Value) → Answer Value
      → (now : ℕ) → Option Value
  unfolding answer_method
  handle_loopback to_string version hub session request answer now =
      elim (json.get request (codes "id")) [
        | none ↦ none
        | some id ↦ some (answer_method to_string version hub session id request answer now)
      ]
