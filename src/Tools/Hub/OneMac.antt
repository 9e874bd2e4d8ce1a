-- ===== src/Tools/Hub/OneMac.antt =====
-- One Mac for each session (`ToolsHub` of runtime/src/tools.rs): every socket that is still open is the
-- one that the hub has for its session, whatever the hub, the Macs and the callers do.
pub mod Sockets
use mathlib.Core.Path.{subst}
use openab_pty.Base.{
  ℕ, zero, suc, ◌≡◌, ◌≢◌, refl, sym, ◌∙◌, ap, ◌⊎◌, inl, inr, Bool, true, false, Option, none, some,
  List, [], ◌∷◌, ◌++◌, length, get_elem?, arith, ◌==◌, if◌then◌else◌, Bool-cases, Bool-split,
  Option-split, eq_bytes, eq_bytes_iff, lookup, insert, remove, lookup-insert, lookup-remove,
}
use openab_pty.Crate.{SessionName, session_ended, ttl_expired, takeover}
use openab_pty.Tools.{Attached, fresh, close, try_send, fail_pending}
use openab_pty.Tools.Hub.{
  close_socket, log_events, record_detach, is_closed, drop_grant, drop_attached, revoke,
  forget_session, install, detach_current, code_of, finish, revoke_all, known, forget_missing,
  without_closed, sweep, close_each, close_all,
}
use openab_pty.Tools.Hub.State.{ToolsHub, update, same_socket, expired}
use openab_pty.Tools.Hub.OneMac.Sockets.{
  appended, none_ne_some, some_inj, apart_ne, removed_keeps, same_socket_lem, OneMac,
  open_after_close, closed_OneMac,
}

module _ {Value : Type 0} where
  drop_attached-OneMac :
      (session : SessionName) (code : ℕ) (hub : ToolsHub Value)
      → OneMac hub
      → OneMac (drop_attached session code hub).1
  unfolding drop_attached
  drop_attached-OneMac session code hub inv =
      Option-split (λ (r : Bool × ToolsHub Value). OneMac r.1) (lookup session hub.attached)
        (λ e. inv)
        (λ i e.
          closed_OneMac i code (record hub { attached = remove session hub.attached })
            (λ j a at o apart.
              removed_keeps session i hub.attached e a.session j (inv j a at o) apart))

  pub revoke-OneMac :
      (sha256 : List ℕ → List ℕ) (session : SessionName) (code now : ℕ) (hub : ToolsHub Value)
      → OneMac hub
      → OneMac (revoke sha256 session code now hub).1
  unfolding revoke drop_grant log_events record_detach
  revoke-OneMac sha256 session code now hub inv =
      let granted =
        Option-split (λ (r : Bool × ToolsHub Value). OneMac r.1) (lookup session hub.grants)
          (λ e. inv) (λ grant e. inv) in
      let dropped =
        drop_attached-OneMac session code (drop_grant sha256 session code hub).1 granted in
      Bool-split (λ (r : Bool × ToolsHub Value). OneMac r.1) _ (λ e. dropped) (λ e. dropped)

  abbrev mapped : SessionName → Attached Value → ToolsHub Value → ToolsHub Value
  mapped session new_socket hub = record hub {
    attached = insert session (length hub.sockets) hub.attached;
    sockets = hub.sockets ++ (new_socket ∷ []);
  }

  -- With the socket that an attach adds, the map has every open socket but the incumbent.
  added :
      (session : SessionName) (new_socket : Attached Value) (hub : ToolsHub Value)
      → new_socket.session ≡ session
      → OneMac hub
      → (j : ℕ) (b : Attached Value) → get_elem? (hub.sockets ++ (new_socket ∷ [])) j ≡ some b
      → b.closed ≡ false
      → ((lookup session hub.attached ≡ some j)
          ⊎ (lookup b.session (insert session (length hub.sockets) hub.attached) ≡ some j))
  added session new_socket hub e inv j b h o = elim (appended hub.sockets new_socket j b h) [
    | inl old ↦ elim (Bool-cases (eq_bytes session b.session)) [
      | inl same ↦ inl (
          ap (λ s. lookup s hub.attached) ((eq_bytes_iff session b.session).0 same) ∙ inv j b old o)
      | inr apart ↦ inr (
          lookup-insert session b.session (length hub.sockets) hub.attached
          ∙ ap (λ t. if t then some (length hub.sockets) else lookup b.session hub.attached) apart
          ∙ inv j b old o)
    ]
    | inr (last, is_new) ↦
        let same : eq_bytes session b.session ≡ true =
          (eq_bytes_iff session b.session).1
            (sym (ap (λ (c : Attached Value). c.session) is_new ∙ e)) in
        inr (
          lookup-insert session b.session (length hub.sockets) hub.attached
          ∙ ap (λ t. if t then some (length hub.sockets) else lookup b.session hub.attached) same
          ∙ ap some (sym last))
  ]

  pub install-OneMac :
      (session : SessionName) (peer : List ℕ) (now : ℕ) (hub : ToolsHub Value)
      → OneMac hub
      → OneMac (install session peer now hub).1
  unfolding install log_events fresh
  install-OneMac session peer now hub inv =
      Option-split OneMac (lookup session hub.attached)
        (λ none_before j b h o. elim (added session (fresh session peer now) hub refl inv j b h o) [
          | inl had ↦ absurd (none_ne_some (sym none_before ∙ had))
          | inr has ↦ has
        ])
        (λ i before.
          closed_OneMac i takeover (mapped session (fresh session peer now) hub) (λ j b h o apart.
            elim (added session (fresh session peer now) hub refl inv j b h o) [
              | inl had ↦ absurd (apart_ne i j apart (some_inj (sym before ∙ had)))
              | inr has ↦ has
            ]))

  pub finish-OneMac :
      (session : SessionName) (peer : List ℕ) (socket now : ℕ) (hub : ToolsHub Value)
      → OneMac hub
      → OneMac (finish session peer socket now hub)
  unfolding finish detach_current log_events record_detach
  finish-OneMac session peer socket now hub inv =
      let code = code_of (close_socket socket 1000 hub) socket in
      Bool-split OneMac (same_socket (lookup session hub.attached) socket)
        (λ current.
          closed_OneMac socket 1000 (record hub { attached = remove session hub.attached })
            (λ j a at o apart.
              removed_keeps session socket hub.attached
                (same_socket_lem (lookup session hub.attached) socket current) a.session j
                (inv j a at o) apart))
        (λ other. closed_OneMac socket 1000 hub (λ j a at o apart. inv j a at o))

  without_closed-keeps :
      (hub : ToolsHub Value) (m : List (SessionName × ℕ)) (s : SessionName) (j : ℕ)
      → lookup s m ≡ some j
      → is_closed hub j ≡ false
      → lookup s (without_closed hub m) ≡ some j
  unfolding lookup without_closed
  without_closed-keeps hub [] s j e o = e
  without_closed-keeps hub ((name, i) ∷ m) s j e o =
      ground (arith, without_closed-keeps hub m s j, e, o)

  revoke_all-OneMac :
      (sha256 : List ℕ → List ℕ) (names : List SessionName) (code now : ℕ) (hub : ToolsHub Value)
      → OneMac hub
      → OneMac (revoke_all sha256 names code now hub)
  unfolding revoke_all
  revoke_all-OneMac sha256 [] code now hub inv = inv
  revoke_all-OneMac sha256 (name ∷ names) code now hub inv =
      revoke_all-OneMac sha256 names code now (revoke sha256 name code now hub).1
        (revoke-OneMac sha256 name code now hub inv)

  pub forget_session-OneMac :
      (sha256 : List ℕ → List ℕ) (session : SessionName) (now : ℕ) (hub : ToolsHub Value)
      → OneMac hub
      → OneMac (forget_session sha256 session now hub)
  unfolding forget_session
  forget_session-OneMac sha256 session now hub inv =
      revoke-OneMac sha256 session session_ended now
        (record hub { loopback_keys = remove session hub.loopback_keys }) inv

  forget_missing-OneMac :
      (sha256 : List ℕ → List ℕ) (exists : SessionName → Bool) (names : List SessionName) (now : ℕ)
      → (hub : ToolsHub Value) → OneMac hub
      → OneMac (forget_missing sha256 exists names now hub)
  unfolding forget_missing
  forget_missing-OneMac sha256 exists [] now hub inv = inv
  forget_missing-OneMac sha256 exists (name ∷ names) now hub inv =
      forget_missing-OneMac sha256 exists names now _ (
        Bool-split OneMac (exists name) (λ e. inv)
          (λ e. forget_session-OneMac sha256 name now hub inv))

  pub open_socket :
      (hub : ToolsHub Value) (i : ℕ) (a : Attached Value)
      → get_elem? hub.sockets i ≡ some a
      → a.closed ≡ false
      → is_closed hub i ≡ false
  unfolding is_closed
  open_socket hub i a e o = ground (arith, e, o)

  pub sweep-OneMac :
      (sha256 : List ℕ → List ℕ) (exists : SessionName → Bool) (now : ℕ) (hub : ToolsHub Value)
      → OneMac hub
      → OneMac (sweep sha256 exists now hub)
  unfolding sweep
  sweep-OneMac sha256 exists now hub inv =
      let current = revoke_all sha256 (expired hub.grants now) ttl_expired now hub in
      let swept = forget_missing sha256 exists (known current) now current in
      let kept =
        forget_missing-OneMac sha256 exists (known current) now current
          (revoke_all-OneMac sha256 (expired hub.grants now) ttl_expired now hub inv) in
      λ j a at o.
        without_closed-keeps swept swept.attached a.session j (kept j a at o)
          (open_socket swept j a at o)

  -- The sockets of `m` are closed one after the other.
  close_each-OneMac :
      (m : List (SessionName × ℕ)) (code : ℕ) (hub : ToolsHub Value)
      → ((j : ℕ) (a : Attached Value)
          → get_elem? hub.sockets j ≡ some a
          → a.closed ≡ false
          → lookup a.session m ≡ some j)
      → OneMac (close_each m code hub)
  unfolding close_each lookup
  close_each-OneMac [] code hub h = λ j a at o. absurd (none_ne_some (h j a at o))
  close_each-OneMac ((name, i) ∷ m) code hub h =
      close_each-OneMac m code (close_socket i code hub) (λ j a at o.
        let (apart, at') = open_after_close i code hub j a at o in
        let e = h j a at' o in ground (arith, e, apart))

  pub close_all-OneMac :
      (code : ℕ) (hub : ToolsHub Value) → OneMac hub → OneMac (close_all code hub)
  unfolding close_all
  close_all-OneMac code hub inv =
      close_each-OneMac hub.attached code (record hub { attached = [] }) inv
