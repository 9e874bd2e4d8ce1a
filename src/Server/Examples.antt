-- ===== src/Server/Examples.antt =====
-- The listener (runtime/src/server.rs) at concrete states.
use openab_pty.Base.{
  ℕ, ◌+◌, ◌-◌, ◌≡◌, ◌≤◌, refl, true, false, none, some, List, [], ◌∷◌, arith, if◌then◌else◌, codes,
  eq_bytes, lookup,
}
use openab_pty.Crate.{Result, ok}
use openab_pty.Session.Policy.{WindowSize, default_size}
use openab_pty.Session.Handle.{Session, fresh}
use openab_pty.Server.{
  resize_control, unknown_type, Parsed, accepted, rejected, subprotocol_token, frame_abuse,
  split_commas, find_bearer, trim_front, trim_back, is_space,
}
use openab_pty.AdminAuth.{strip_prefix}
use openab_pty.Server.Limiter.{
  new_limiter, check_at, record_failure_at, prune_windows, with_slot, is_tracked, recorded,
  count_on, failed, windowed, one_failure_more,
}
use openab_pty.Server.Limiter.Uses.{Use, checks, fails, succeeds, use_all, ban_lasts}
use openab_pty.Server.ReadLoop.{
  AbuseMetrics, binary, text_frame, pong_message, Event, incoming, ping_tick, Reader, reading,
  read_loop, go_on, read_turn, on_message, on_text, on_rejected,
}
use openab_pty.Server.ReadLoop.Silence.{ticks, Released, silent}
use openab_pty.Server.ReadLoop.Outsider.{Unchanged, read_loop-Unchanged}

abbrev accept : WindowSize → Result WindowSize
accept size = ok size

-- A parser that takes every text for a resize but the empty one.
abbrev parse_any : List ℕ → Parsed
parse_any [] = rejected unknown_type
parse_any (b ∷ bs) = accepted (resize_control default_size)

abbrev no_abuse : AbuseMetrics
no_abuse = record {
  malformed_frames = 0;
  oversize_frames = 0;
  upgrade_failures = 0;
  upgrade_bans = 0;
  input_backpressure_disconnects = 0;
  admin_auth_failures = 0;
}

abbrev owned : Session
owned = record (fresh (codes "one") 1 default_size 0 64 false false 3) {
  owner_conn = 1;
  io_owner = 1;
}

abbrev quiet : Reader
quiet = reading no_abuse owned

silent_example :
    ((read_loop accept parse_any quiet.session.owner_conn quiet (ticks 3)).0 ≡ none)
    × Released (read_loop accept parse_any quiet.session.owner_conn quiet (ticks 4))
unfolding reading fresh
silent_example = silent accept parse_any quiet 2 refl refl

abbrev intrusion : List Event
intrusion =
    incoming (some pong_message) 5 true
    ∷ incoming (some (text_frame [])) 6 true
    ∷ incoming (some (binary (codes "rm -r x"))) 7 true
    ∷ ping_tick true
    ∷ []

read_loop-Unchanged_example :
    Unchanged quiet.session (read_loop accept parse_any 2 quiet intrusion).1.session
unfolding reading fresh
read_loop-Unchanged_example =
    read_loop-Unchanged 2 accept parse_any quiet intrusion (λ e. omega (arith, e))
      (λ e. omega (arith, e))

three_strikes :
    (read_loop accept parse_any 1 quiet (
      incoming (some (text_frame [])) 1 true
      ∷ incoming (some (text_frame [])) 2 true
      ∷ incoming (some (text_frame [])) 3 true
      ∷ [])).0
    ≡ some frame_abuse
unfolding read_loop go_on read_turn on_message on_text on_rejected reading
three_strikes = refl

offered_token :
    subprotocol_token (λ name.
      if eq_bytes name (codes "authorization")
      then none
      else some (codes "openab.pty.v1, openab.bearer.s3cret"))
    ≡ some (codes "s3cret")
unfolding subprotocol_token split_commas find_bearer trim_front trim_back is_space strip_prefix
    eq_bytes
offered_token = refl

once_bans :
    (record_failure_at (codes "10.0.0.9") 10 (use_all [] (new_limiter 1 60000 60000))).0 ≡ true
unfolding use_all new_limiter record_failure_at prune_windows with_slot is_tracked recorded count_on
    failed windowed one_failure_more lookup
once_bans = refl

-- Others fail, and the banned source knocks, while the ban lasts.
abbrev meanwhile : List Use
meanwhile =
    checks (codes "10.0.0.9") 20
    ∷ fails (codes "10.0.0.7") 30
    ∷ succeeds (codes "10.0.0.8")
    ∷ fails (codes "10.0.0.9") 40
    ∷ []

neighbour_apart : eq_bytes (codes "10.0.0.8") (codes "10.0.0.9") ≡ false
unfolding eq_bytes
neighbour_apart = refl

ban_lasts_example :
    (retry : ℕ) × ((check_at (codes "10.0.0.9") 50 (
        use_all meanwhile
          (record_failure_at (codes "10.0.0.9") 10 (use_all [] (new_limiter 1 60000 60000))).1)).0
      ≡ some retry)
    × ((10 + 60000) - 50 ≤ retry)
ban_lasts_example =
    ban_lasts 1 60000 60000 [] meanwhile (codes "10.0.0.9") 10 50 once_bans
      (
        omega arith,
        omega arith,
        (omega arith, omega arith, (neighbour_apart, (omega arith, omega arith, tt))),
      )
      (omega arith)
