-- ===== src/Session/Handle/Pings.antt =====
-- Liveness: missed pings and pongs of a session's owner (runtime/src/session.rs).
use openab_pty.Base.{
  ℕ, zero, suc, ◌+◌, ◌<◌, ◌≤◌, ◌≡◌, refl, ◌∙◌, ap, Bool, true, false, none, arith,
}
use openab_pty.Crate.{takeover}
use openab_pty.Session.Outbound.{close}
use openab_pty.Session.Handle.{Session, on_outbound, release, on_missed_ping}

-- `k` pings missed in a row by one connection.
unfoldable pub miss : ℕ → Session → (conn : ℕ) → Session
miss zero s conn = s
miss (suc k) s conn = miss k (on_missed_ping s conn).1 conn

pub on_missed_ping_early :
    (s : Session)
    → s.missed_pings + 1 < s.missed_ping_limit
    → on_missed_ping s s.owner_conn ≡ (false, record s { missed_pings = s.missed_pings + 1 })
unfolding on_missed_ping
on_missed_ping_early s h = ground arith

pub on_missed_ping_last :
    (s : Session)
    → s.missed_ping_limit ≤ s.missed_pings + 1
    → on_missed_ping s s.owner_conn ≡ (
      true,
      on_outbound s.subscriber
          (λ o. close o takeover)
          (release (record s { missed_pings = s.missed_pings + 1 })).1,
    )
unfolding on_missed_ping release
on_missed_ping_last s h = ground arith

-- An owner that misses fewer pings in a row than the limit keeps the session, and nothing but the
-- count changes.
pub miss_early :
    (k : ℕ) (s : Session)
    → s.missed_pings + k < s.missed_ping_limit
    → miss k s s.owner_conn ≡ record s { missed_pings = s.missed_pings + k }
unfolding miss
miss_early zero s h =
    let e : s.missed_pings ≡ s.missed_pings + 0 = omega arith in
    ap (λ n. record s { missed_pings = n }) e
miss_early (suc k) s h =
    let e : (s.missed_pings + 1) + k ≡ s.missed_pings + suc k = omega arith in
    let first = on_missed_ping_early s (omega arith) in
    ap (λ (r : Bool × Session). miss k r.1 s.owner_conn) first
    ∙ miss_early k (record s { missed_pings = s.missed_pings + 1 }) (omega arith)
    ∙ ap (λ n. record s { missed_pings = n }) e

miss_snoc :
    (k : ℕ) (s : Session) (conn : ℕ) → miss (suc k) s conn ≡ (on_missed_ping (miss k s conn) conn).1
unfolding miss
miss_snoc zero s conn = refl
miss_snoc (suc k) s conn = miss_snoc k (on_missed_ping s conn).1 conn

pub last_miss :
    (s : Session)
    → s.missed_ping_limit ≤ s.missed_pings + 1
    → ((on_missed_ping s s.owner_conn).0 ≡ true)
      × ((on_missed_ping s s.owner_conn).1.owner_conn ≡ 0)
      × ((on_missed_ping s s.owner_conn).1.io_owner ≡ 0)
      × ((on_missed_ping s s.owner_conn).1.subscriber ≡ none)
unfolding on_outbound release
last_miss s h = ground (arith, on_missed_ping_last s h)

-- After misses in a row, the ping that meets the limit detaches the owner: nobody owns the session
-- then, and it has no subscriber.
pub miss_last :
    (k : ℕ) (s : Session)
    → s.missed_pings + suc k ≡ s.missed_ping_limit
    → ((on_missed_ping (miss k s s.owner_conn) s.owner_conn).0 ≡ true)
      × ((miss (suc k) s s.owner_conn).owner_conn ≡ 0)
      × ((miss (suc k) s s.owner_conn).io_owner ≡ 0)
      × ((miss (suc k) s s.owner_conn).subscriber ≡ none)
miss_last k s h =
    rw (miss_snoc k s s.owner_conn, miss_early k s (omega arith))
      (last_miss (record s { missed_pings = s.missed_pings + k }) (omega arith))
