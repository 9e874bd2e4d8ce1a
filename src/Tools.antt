-- ===== src/Tools.antt =====
-- runtime/src/tools.rs: the reverse tools plane. One attached Mac is a socket with its queue toward the
-- Mac and the calls that wait for an answer; the loopback callers share it. JSON values (crate
-- serde_json) are a parameter, and so is what the code reads and writes in one.
pub mod Mux
pub mod Hub
pub mod Loopback
mod Examples
use openab_pty.Base.{
  ℕ, ◌+◌, Bool, true, false, ◌&&◌, ◌||◌, Option, none, some, List, [], ◌∷◌, ◌++◌, length, eq_bytes,
  ltb, leb, ◌==◌, if◌then◌else◌, codes, add_word,
}
use openab_pty.Crate.{SessionName}

abbrev pub max_inflight_per_session : ℕ
max_inflight_per_session = 64

abbrev pub to_mac_queue : ℕ
to_mac_queue = 64

abbrev pub max_missed_pings : ℕ
max_missed_pings = 3

-- What the code uses of a `serde_json::Value`. `insert` on a value that is no object leaves it.
pub record Json (Value : Type 0) : Type 0 where
  pub get : Value → (key : List ℕ) → Option Value
  pub as_u64 : Value → Option ℕ
  pub as_str : Value → Option (List ℕ)
  pub as_array : Value → Option (List Value)
  pub insert : Value → (key : List ℕ) → Value → Value
  pub null : Value
  pub bool : Bool → Value
  pub number : ℕ → Value
  pub negative : ℕ → Value
  pub text : List ℕ → Value
  pub array : List Value → Value
  pub object : List (List ℕ × Value) → Value

-- A WebSocket message toward the Mac.
pub data Message (Value : Type 0) : Type 0 where
  text : Value → Message Value
  ping : Message Value
  pong : (payload : List ℕ) → Message Value
  close_frame : (code : ℕ) → Message Value

-- The waiting end of a forwarded request (`oneshot::Sender`).
abbrev pub Waiter : Type 0
Waiter = ℕ

-- `receiver` says that the writer task still holds its end of the queue.
pub record Attached (Value : Type 0) : Type 0 where
  pub session : SessionName
  pub peer : List ℕ
  pub since : ℕ
  pub to_mac : List (Message Value)
  pub receiver : Bool
  pub pending : List (ℕ × Waiter)
  pub next_id : ℕ
  pub closed : Bool
  pub close_code : ℕ
  pub server_info : Option Value

pub data CallError : Type 0 where
  not_attached too_many_in_flight timeout : CallError

unfoldable pub waiters : List (ℕ × Waiter) → List Waiter
waiters [] = []
waiters ((id, waiter) ∷ rest) = waiter ∷ waiters rest

unfoldable pub find_pending : ℕ → List (ℕ × Waiter) → Option Waiter
find_pending id [] = none
find_pending id ((i, waiter) ∷ rest) = if i == id then some waiter else find_pending id rest

unfoldable pub remove_pending : ℕ → List (ℕ × Waiter) → List (ℕ × Waiter)
remove_pending id [] = []
remove_pending id ((i, waiter) ∷ rest) =
    let kept = remove_pending id rest in if i == id then kept else (i, waiter) ∷ kept

module _ {Value : Type 0} where
  -- The socket as `serve_attached` makes it.
  unfoldable pub fresh : SessionName → (peer : List ℕ) → (now : ℕ) → Attached Value
  fresh session peer now = record {
    session = session;
    peer = peer;
    since = now;
    to_mac = [];
    receiver = true;
    pending = [];
    next_id = 1;
    closed = false;
    close_code = 0;
    server_info = none;
  }

  -- `try_send`: a message that finds the queue full, or the writer gone, is lost.
  unfoldable pub try_send : Message Value → Attached Value → Attached Value
  try_send message a =
      if a.receiver && ltb (length a.to_mac) to_mac_queue
      then record a { to_mac = a.to_mac ++ (message ∷ []) }
      else a

  -- The waiters that are dropped, and the socket without them.
  unfoldable pub fail_pending : Attached Value → List Waiter × Attached Value
  unfolding waiters
  fail_pending a = (waiters a.pending, record a { pending = [] })

  unfoldable pub close : (code : ℕ) → Attached Value → List Waiter × Attached Value
  unfolding try_send fail_pending
  close code a =
      if a.closed
      then ([], a)
      else fail_pending
          (try_send (close_frame code) (record a { closed = true; close_code = code }))

  unfoldable pub withdraw : ℕ → Attached Value → Attached Value
  unfolding remove_pending
  withdraw id a = record a { pending = remove_pending id a.pending }

  -- `call` up to its first wait: a slot, an id, and the request with this id.
  unfoldable pub register :
      Json Value → Waiter → (request : Value) → Attached Value → Option (ℕ × Value) × Attached Value
  register json waiter request a =
      if leb max_inflight_per_session (length a.pending) then (none, a) else (
        some (a.next_id, json.insert request (codes "id") (json.number a.next_id)),
        record a { pending = (a.next_id, waiter) ∷ a.pending; next_id = add_word a.next_id 1 },
      )

  -- The call gives its request to the writer once there is room. `none`: it still waits for room.
  unfoldable pub send_request :
      (id : ℕ) (request : Value) → Attached Value → Option (Option CallError) × Attached Value
  unfolding withdraw
  send_request id request a =
      if a.receiver
      then if ltb (length a.to_mac) to_mac_queue
        then (some none, record a { to_mac = a.to_mac ++ (text request ∷ []) })
        else (none, a)
      else (some (some not_attached), withdraw id a)

  -- What a call finds when it does not even get an id.
  unfoldable pub refused : Attached Value → Option CallError
  refused a =
      if a.closed
      then some not_attached
      else if leb max_inflight_per_session (length a.pending)
      then some too_many_in_flight
      else none

unfoldable pub is_some {ℓ} : {A : Type ℓ} → Option A → Bool
is_some none = false
is_some (some a) = true

-- `opt.and_then(f)`.
unfoldable pub and_then {ℓ κ} : {A : Type ℓ} {B : Type κ} → Option A → (A → Option B) → Option B
and_then none f = none
and_then (some a) f = f a

-- `rpc_code` and `message`; the code is the number below zero.
unfoldable pub rpc_code : CallError → ℕ
rpc_code not_attached = 32001
rpc_code too_many_in_flight = 32002
rpc_code timeout = 32003

unfoldable pub message : CallError → List ℕ
message not_attached =
    codes
      "no Mac is attached to this session (ask the human to lend one from OpenAB Connect / Remote)"
message too_many_in_flight = codes "too many requests in flight toward the attached Mac"
message timeout = codes "the attached Mac did not answer in time"

module _ {Value : Type 0} (json : Json Value) where
  unfoldable pub rpc_error : (id : Value) (code : ℕ) (message : List ℕ) → Value
  rpc_error id code message = json.object (
      (codes "jsonrpc", json.text (codes "2.0"))
      ∷ (codes "id", id)
      ∷ (
        codes "error",
        json.object
            ((codes "code", json.negative code) ∷ (codes "message", json.text message) ∷ []),
      )
      ∷ [])

  unfoldable pub is_response : Value → Bool
  unfolding is_some
  is_response frame =
      is_some (json.get frame (codes "result")) || is_some (json.get frame (codes "error"))

  unfoldable pub frame_id : Value → Option ℕ
  unfolding and_then
  frame_id frame = and_then (json.get frame (codes "id")) json.as_u64

  -- The reply to a request of the Mac's own.
  unfoldable pub reply_to : (id : Value) (method : List ℕ) → Value
  unfolding rpc_error
  reply_to id method =
      if eq_bytes method (codes "ping")
      then json.object (
          (codes "jsonrpc", json.text (codes "2.0"))
          ∷ (codes "id", id)
          ∷ (codes "result", json.object [])
          ∷ [])
      else rpc_error id 32601 (codes "method not supported by the openab-pty mux")

  unfoldable pub answer : Value → Attached Value → Attached Value
  unfolding reply_to and_then try_send
  answer frame a = elim (and_then (json.get frame (codes "method")) json.as_str) [
    | none ↦ a
    | some method ↦ elim (json.get frame (codes "id")) [
      | none ↦ a
      | some id ↦ try_send (text (reply_to id method)) a
    ]
  ]

  -- The waiter that gets the frame, if it is the answer to a call that still waits.
  unfoldable pub on_mac_frame : Value → Attached Value → Option Waiter × Attached Value
  unfolding is_response frame_id answer find_pending withdraw
  on_mac_frame frame a =
      if is_response frame
      then elim (frame_id frame) [
        | none ↦ (none, a)
        | some id ↦ (find_pending id a.pending, withdraw id a)
      ]
      else (none, answer frame a)
