-- ===== src/Tools/Loopback/Answers.antt =====
-- How the loopback surface answers (runtime/src/tools.rs).
use openab_pty.Base.{
  ℕ, ◌≡◌, refl, ◌∙◌, ap, inl, inr, true, false, some, List, arith, if◌then◌else◌, Bool-cases,
  Bool-split, Option-split, eq_bytes, lookup, codes,
}
use openab_pty.Crate.{SessionName}
use openab_pty.Tools.{Json, rpc_error, is_response, is_some, rpc_code, message}
use openab_pty.Tools.Hub.{is_attached, grant_expiry}
use openab_pty.Tools.Hub.State.{ToolsHub}
use openab_pty.Tools.Loopback.{
  Answer, answered, failed, forward, rpc_result, listed, with_tools, only_status, status_result,
  tool_error_result, tools_list, tools_call, local_initialize, answer_method, handle_loopback,
  method_of, tool_name, status_tool_name,
}

-- What JSON values do: reading a member of an object that was written out, and of a value with some
-- member after `insert`.
pub record JsonLaws {Value : Type 0} (json : Json Value) : Type 0 where
  pub get-object :
      (fields : List (List ℕ × Value)) (key : List ℕ)
      → json.get (json.object fields) key ≡ lookup key fields
  pub get-insert :
      (v : Value) (key : List ℕ) (x : Value) (other : List ℕ)
      → is_some (json.get v other) ≡ true
      → (k : List ℕ)
      → json.get (json.insert v key x) k ≡ (if eq_bytes key k then some x else json.get v k)

module _ {Value : Type 0} (json : Json Value) (laws : JsonLaws json) where
  abbrev pub HasId : Value → Value → Type 0
  HasId id response = json.get response (codes "id") ≡ some id

  -- An answer that `on_mac_frame` gave a waiting call, or an error.
  abbrev pub IsAnswer : Answer Value → Type 0
  IsAnswer (answered v) = is_response json v ≡ true
  IsAnswer (failed error) = Unit

  rpc_result-HasId : (id result : Value) → HasId id (rpc_result json id result)
  unfolding rpc_result lookup eq_bytes
  rpc_result-HasId id result = laws.get-object _ (codes "id") ∙ refl

  rpc_error-HasId : (id : Value) (code : ℕ) (text : List ℕ) → HasId id (rpc_error json id code text)
  unfolding rpc_error lookup eq_bytes
  rpc_error-HasId id code text = laws.get-object _ (codes "id") ∙ refl

  inserted_id :
      (v id : Value) (other : List ℕ)
      → is_some (json.get v other) ≡ true
      → HasId id (json.insert v (codes "id") id)
  unfolding eq_bytes
  inserted_id v id other h = laws.get-insert v (codes "id") id other h (codes "id") ∙ refl

  forward-HasId :
      (id : Value) (answer : Answer Value) → IsAnswer answer → HasId id (forward json id answer)
  unfolding forward is_response
  forward-HasId id (failed error) h = rpc_error-HasId id (rpc_code error) (message error)
  forward-HasId id (answered v) h = elim (Bool-cases (is_some (json.get v (codes "result")))) [
    | inl e ↦ inserted_id v id (codes "result") e
    | inr e ↦ inserted_id v id (codes "error") (ground (arith, h, e))
  ]

  with_tools-HasId :
      (id response : Value) (tools : List Value)
      → HasId id response
      → HasId id (with_tools json response tools)
  unfolding with_tools is_some eq_bytes
  with_tools-HasId id response tools h =
      Option-split (HasId id) (json.get response (codes "result")) (λ e. h)
        (λ r e.
          laws.get-insert response (codes "result") _ (codes "id") (ap is_some h) (codes "id") ∙ h)

  tools_list-HasId :
      (hub : ToolsHub Value) (session : SessionName) (id : Value) (answer : Answer Value)
      → IsAnswer answer
      → HasId id (tools_list json hub session id answer)
  unfolding tools_list only_status
  tools_list-HasId hub session id answer h =
      Bool-split (HasId id) (is_attached hub session)
        (λ a.
          Option-split (HasId id) (listed json (forward json id answer))
            (λ e. rpc_result-HasId id _)
            (λ tools e. with_tools-HasId id _ _ (forward-HasId id answer h)))
        (λ d. rpc_result-HasId id _)

  tools_call-HasId :
      (to_string : Value → List ℕ) (hub : ToolsHub Value) (session : SessionName)
      → (id request : Value) (answer : Answer Value) (now : ℕ) → IsAnswer answer
      → HasId id (tools_call json to_string hub session id request answer now)
  unfolding tools_call status_result tool_error_result
  tools_call-HasId to_string hub session id request answer now h =
      Bool-split (HasId id) (eq_bytes (tool_name json request) (status_tool_name json))
        (λ e. rpc_result-HasId id _)
        (λ e.
          Bool-split (HasId id) (is_attached hub session) (λ a. forward-HasId id answer h)
            (λ d.
              Bool-split (HasId id) (is_some (grant_expiry hub session))
                (λ g. rpc_result-HasId id _) (λ g. rpc_result-HasId id _)))

  -- If JSON values obey their laws and the forwarded call came to an answer or an error, a request
  -- of the CLI with an id is answered under this id, whatever its method and the hub's state.
  pub handle_loopback-HasId :
      (to_string : Value → List ℕ) (version : List ℕ) (hub : ToolsHub Value) (session : SessionName)
      → (request id : Value) (answer : Answer Value) (now : ℕ)
      → json.get request (codes "id") ≡ some id
      → IsAnswer answer
      → (response : Value) × (handle_loopback json to_string version hub session request answer now
          ≡ some response)
        × HasId id response
  unfolding handle_loopback answer_method local_initialize
  handle_loopback-HasId to_string version hub session request id answer now e h =
      let m = method_of json request in
      (
        answer_method json to_string version hub session id request answer now,
        ground (arith, e),
        Bool-split (HasId id) (eq_bytes m (codes "initialize")) (λ f. rpc_result-HasId id _)
            (λ f.
              Bool-split (HasId id) (eq_bytes m (codes "ping")) (λ g. rpc_result-HasId id _)
                (λ g.
                  Bool-split (HasId id) (eq_bytes m (codes "tools/list"))
                    (λ k. tools_list-HasId hub session id answer h)
                    (λ k.
                      Bool-split (HasId id) (eq_bytes m (codes "tools/call"))
                        (λ l. tools_call-HasId to_string hub session id request answer now h)
                        (λ l.
                          Bool-split (HasId id) (is_attached hub session)
                            (λ a. forward-HasId id answer h) (λ d. rpc_error-HasId id _ _))))),
      )

module _ {Value : Type 0} (json : Json Value) where
  -- Without an attached Mac, what the CLI is answered depends on the request and the hub alone.
  pub handle_loopback_detached :
      (to_string : Value → List ℕ) (version : List ℕ) (hub : ToolsHub Value) (session : SessionName)
      → (request : Value) (answer other : Answer Value) (now : ℕ) → is_attached hub session ≡ false
      → handle_loopback json to_string version hub session request answer now
        ≡ handle_loopback json to_string version hub session request other now
  unfolding handle_loopback answer_method tools_list tools_call
  handle_loopback_detached to_string version hub session request answer other now d =
      ground (arith, d)
