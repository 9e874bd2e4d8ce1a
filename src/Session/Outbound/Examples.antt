-- ===== src/Session/Outbound/Examples.antt =====
-- Concrete inputs (runtime/src/session.rs).
use openab_pty.Base.{◌<◌, true, false, some, [], ◌∷◌, arith, codes}
use openab_pty.Session.Outbound.{Outbound, attach_notice, bytes, control, push_bytes, close}
use openab_pty.Session.Outbound
use openab_pty.Session.Outbound.Pending.{remaining, pending_gap, pending_close}
use openab_pty.Session.Outbound.Drain.{drain, Drained, drain_lem}
use openab_pty.Session.Outbound.Slow.{
  Call, bytes_call, next_call, AllSmall, no_calls, bytes_small, next_small, IsBounded,
  performs-IsBounded, close-close,
}
use openab_pty.Session.Outbound.Slow

abbrev small : Outbound
small = record {
  conn = 1;
  queue = record {
    buf = codes "ab";
    bounds = record { capacity_bytes = 8; max_dropped_bytes = some 16 };
    dropped = 3;
    unreported_dropped = 3;
  };
  controls = attach_notice true ∷ [];
  close_code = some 4002;
  close_emitted = false;
}

pending : remaining small < 6
unfolding remaining pending_gap pending_close
pending = omega arith

drain_lem_example : Drained 0 small (drain 6 small).0 (drain 6 small).1
drain_lem_example = drain_lem 6 small pending

performs-IsBounded_example : IsBounded 4 2 (
    Slow.performs
      (Outbound.new 1 (record { capacity_bytes = 4; max_dropped_bytes = some 2 }))
      (bytes_call (codes "abcdefgh") ∷ next_call ∷ []))
performs-IsBounded_example =
    performs-IsBounded 1 4 2 (bytes_call (codes "abcdefgh") ∷ next_call ∷ []) (omega arith)
      (bytes_small (omega arith) (next_small no_calls))
