-- ===== src/Server/ReadLoop.antt =====
-- `read_loop` of runtime/src/server.rs: one turn for each message of the client and each ping interval, on
-- the session that the connection is attached to. Whether the writer task still takes frames is said with
-- the event.
pub mod Silence
pub mod Strikes
pub mod Outsider
use openab_pty.Base.{
  ℕ, zero, suc, ◌+◌, ◌≤◌, ◌≡◌, ◌≢◌, refl, ◌∙◌, sym, ap, ◌⊎◌, inl, inr, Bool, true, false, ◌&&◌,
  Option, none, some, List, [], ◌∷◌, ◌++◌, length, arith, ltb, leb, if◌then◌else◌, add_word,
}
use openab_pty.Crate.{Result, ok, err}
use openab_pty.Session.Policy.{WindowSize}
use openab_pty.Session.Handle.{
  written, evicted, backpressure, Session, write_input, resize, on_pong, on_missed_ping,
}
use openab_pty.Server.{
  max_input_frame_bytes, max_control_frame_bytes, max_malformed_frames, resize_control,
  ping_control, detach_control, Parsed, accepted, rejected, ReadExit, detached, socket_gone,
  input_backpressure, frame_abuse,
}

pub record AbuseMetrics : Type 0 where
  pub malformed_frames : ℕ
  pub oversize_frames : ℕ
  pub upgrade_failures : ℕ
  pub upgrade_bans : ℕ
  pub input_backpressure_disconnects : ℕ
  pub admin_auth_failures : ℕ

-- `fetch_add` wraps around.
unfoldable pub bump : ℕ → ℕ
bump counter = add_word counter 1

pub data WsMessage : Type 0 where
  binary text_frame : List ℕ → WsMessage
  pong_message ping_message close_message : WsMessage

-- What the writer task is given: `pong_frame()`, or a ping.
pub data Sent : Type 0 where
  pong_sent ping_sent : Sent

-- `incoming none` is the end of the stream, or an error.
pub data Event : Type 0 where
  incoming : Option WsMessage → (now : ℕ) (writer_takes : Bool) → Event
  ping_tick : (writer_takes : Bool) → Event

pub record Reader : Type 0 where
  pub malformed : ℕ
  pub awaiting_pong : Bool
  pub frames : List Sent
  pub abuse : AbuseMetrics
  pub session : Session

unfoldable pub reading : AbuseMetrics → Session → Reader
reading abuse session = record {
  malformed = 0;
  awaiting_pong = false;
  frames = [];
  abuse = abuse;
  session = session;
}

-- Why the loop ends with this turn, if it does, and the state after it.
abbrev pub Turn : Type 0
Turn = Option ReadExit × Reader

unfoldable pub send : (writer_takes : Bool) → Sent → Reader → Turn
send writer_takes frame r =
    if writer_takes
    then (none, record r { frames = r.frames ++ (frame ∷ []) })
    else (some socket_gone, r)

unfoldable pub bump_oversize : Reader → Reader
unfolding bump
bump_oversize r = record r {
  abuse = record r.abuse { oversize_frames = bump r.abuse.oversize_frames };
}

unfoldable pub on_binary : (conn now : ℕ) → List ℕ → Reader → Turn
unfolding bump bump_oversize
on_binary conn now bytes r =
    if ltb max_input_frame_bytes (length bytes)
    then (some frame_abuse, bump_oversize r)
    else (let (outcome, session) = write_input r.session conn now bytes in
        let r' = record r { session = session } in
        elim outcome [
          | written ↦ (none, r')
          | evicted ↦ (some socket_gone, r')
          | backpressure ↦ (
            some input_backpressure,
            record r' {
              abuse = record r'.abuse {
                input_backpressure_disconnects = bump r'.abuse.input_backpressure_disconnects;
              };
            },
          )
        ])

unfoldable pub on_rejected : Reader → Turn
unfolding bump
on_rejected r =
    let r' = record r {
      malformed = r.malformed + 1;
      abuse = record r.abuse { malformed_frames = bump r.abuse.malformed_frames };
    } in
    (if leb max_malformed_frames r'.malformed then some frame_abuse else none, r')

unfoldable pub go_on : Turn → (rest : Reader → Turn) → Turn
go_on (none, r) rest = rest r
go_on (some why, r) rest = (some why, r)

pub go_on_case :
    (P : Turn → Type 0) (t : Turn) (rest : Reader → Turn)
    → (t.0 ≡ none → P (rest t.1))
    → ((why : ReadExit) → t.0 ≡ some why → P (some why, t.1))
    → P (go_on t rest)
unfolding go_on
go_on_case P (none, r) rest on ends = on refl
go_on_case P (some why, r) rest on ends = ends why refl

go_on-some :
    (t : Turn) (rest : Reader → Turn) (why : ReadExit)
    → t.0 ≡ some why
    → go_on t rest ≡ (some why, t.1)
go_on-some t rest why h = go_on_case (λ u. u ≡ (some why, t.1)) t rest (λ f. cc) (λ other f. cc)

module _ (control : WindowSize → Result WindowSize) (parse : List ℕ → Parsed) (conn : ℕ) where
  unfoldable pub on_resize : WindowSize → Reader → Turn
  on_resize size r =
      let (outcome, session) = resize control r.session conn size in
      (
        elim outcome [ ok applied ↦ none | err e ↦ some socket_gone ],
        record r { session = session },
      )

  unfoldable pub on_text : (now : ℕ) (writer_takes : Bool) → List ℕ → Reader → Turn
  unfolding bump_oversize on_resize send on_rejected
  on_text now writer_takes text r =
      if ltb max_control_frame_bytes (length text)
      then (some frame_abuse, bump_oversize r)
      else elim (parse text) [
        | rejected why ↦ on_rejected r
        | accepted (resize_control size) ↦ on_resize size r
        | accepted ping_control ↦
            send writer_takes pong_sent (record r { session = on_pong r.session conn now })
        | accepted detach_control ↦ (some detached, r)
      ]

  unfoldable pub on_message : (now : ℕ) (writer_takes : Bool) → WsMessage → Reader → Turn
  unfolding on_binary on_text
  on_message now writer_takes (binary bytes) r = on_binary conn now bytes r
  on_message now writer_takes (text_frame text) r = on_text now writer_takes text r
  on_message now writer_takes pong_message r =
      (none, record r { awaiting_pong = false; session = on_pong r.session conn now })
  on_message now writer_takes ping_message r =
      (none, record r { session = on_pong r.session conn now })
  on_message now writer_takes close_message r = (some detached, r)

  unfoldable pub on_tick : (writer_takes : Bool) → Reader → Turn
  unfolding send
  on_tick writer_takes r =
      let (gone, session) =
        if r.awaiting_pong then on_missed_ping r.session conn else (false, r.session) in
      if gone
      then (some socket_gone, record r { session = session })
      else send writer_takes ping_sent (record r { awaiting_pong = true; session = session })

  unfoldable pub read_turn : Event → Reader → Turn
  unfolding on_message on_tick
  read_turn (incoming none now writer_takes) r = (some socket_gone, r)
  read_turn (incoming (some message) now writer_takes) r = on_message now writer_takes message r
  read_turn (ping_tick writer_takes) r = on_tick writer_takes r

  -- The loop on a sequence of events; `none` if it still reads after the last one.
  unfoldable pub read_loop : Reader → List Event → Turn
  unfolding go_on
  read_loop r [] = (none, r)
  read_loop r (e ∷ es) = go_on (read_turn e r) (λ r'. read_loop r' es)

  pub read_on :
      (r r' : Reader) (e : Event) (es : List Event)
      → read_turn e r ≡ (none, r')
      → read_loop r (e ∷ es) ≡ read_loop r' es
  unfolding read_loop go_on
  read_on r r' e es h = ap (λ t. go_on t (λ q. read_loop q es)) h

  pub read_end :
      (r : Reader) (e : Event) (es : List Event) (why : ReadExit)
      → (read_turn e r).0 ≡ some why
      → read_loop r (e ∷ es) ≡ (some why, (read_turn e r).1)
  unfolding read_loop
  read_end r e es why h = go_on-some (read_turn e r) (λ q. read_loop q es) why h

  -- What every turn keeps on a state where it holds holds after the loop.
  pub read_loop_keeps :
      (P : Reader → Type 0)
      → ((e : Event) (r : Reader) → P r → P (read_turn e r).1)
      → (r : Reader) (es : List Event) → P r
      → P (read_loop r es).1
  unfolding read_loop
  read_loop_keeps P step r [] h = h
  read_loop_keeps P step r (e ∷ es) h =
      go_on_case (λ t. P t.1) (read_turn e r) (λ q. read_loop q es)
        (λ f. read_loop_keeps P step (read_turn e r).1 es (step e r h)) (λ why f. step e r h)
