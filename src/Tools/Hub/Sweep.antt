-- ===== src/Tools/Hub/Sweep.antt =====
-- What the ticker's sweep leaves of a session that is gone (`ToolsHub` of runtime/src/tools.rs).
pub mod Names
use mathlib.Core.Path.{subst}
use openab_pty.Base.{
  ℕ, ◌≡◌, refl, sym, ◌∙◌, ap, inl, inr, Bool, true, false, ◌||◌, Option, none, some, List, [], ◌∷◌,
  ◌++◌, arith, if◌then◌else◌, Bool-cases, Bool-split, Option-cases, eq_bytes, eq_bytes_iff,
  eq_bytes_refl, lookup, insert, remove, lookup-insert, lookup-remove, lookup-remove_self,
}
use openab_pty.Crate.{SessionName, session_ended, ttl_expired}
use openab_pty.Tools.Hub.{
  drop_grant, drop_attached, close_socket, log_events, record_detach, revoke, forget_session,
  revoke_all, known, forget_missing, without_closed, sweep,
}
use openab_pty.Tools.Hub.State.{ToolsHub, keys, name_set, expired}
use openab_pty.Tools.Hub.Sweep.Names.{
  contains, lookup-contains, removed_none, own, other, contrary, contains-append, contains-name_set,
}

-- A session of which the hub knows nothing.
pub record Forgotten {Value : Type 0} (session : SessionName) (hub : ToolsHub Value) : Type 0 where
  pub no_grant : lookup session hub.grants ≡ none
  pub no_key : lookup session hub.loopback_keys ≡ none
  pub no_socket : lookup session hub.attached ≡ none
  pub no_detach : lookup session hub.last_detach ≡ none

module _ {Value : Type 0} (sha256 : List ℕ → List ℕ) where
  abbrev test : SessionName → (code : ℕ) → ToolsHub Value → Bool
  test session code hub =
      (drop_grant sha256 session code hub).0
      || (drop_attached session code (drop_grant sha256 session code hub).1).0

  lookup-drop_grant :
      (session name : SessionName) (code : ℕ) (hub : ToolsHub Value)
      → lookup name (drop_grant sha256 session code hub).1.grants
        ≡ (if eq_bytes session name then none else lookup name hub.grants)
  unfolding drop_grant log_events
  lookup-drop_grant session name code hub = elim (Option-cases (lookup session hub.grants)) [
    | inl e ↦ ground (arith, e, eq_bytes_iff session name)
    | inr (grant, e) ↦ ground (arith, e, lookup-remove session name hub.grants)
  ]

  lookup-drop_attached :
      (session name : SessionName) (code : ℕ) (hub : ToolsHub Value)
      → lookup name (drop_attached session code hub).1.attached
        ≡ (if eq_bytes session name then none else lookup name hub.attached)
  unfolding drop_attached close_socket
  lookup-drop_attached session name code hub = elim (Option-cases (lookup session hub.attached)) [
    | inl e ↦ ground (arith, e, eq_bytes_iff session name)
    | inr (i, e) ↦ ground (arith, e, lookup-remove session name hub.attached)
  ]

  -- The hub of `revoke` but for the detach that it may record.
  abbrev bare : SessionName → (code : ℕ) → ToolsHub Value → ToolsHub Value
  bare session code hub = (drop_attached session code (drop_grant sha256 session code hub).1).1

  drop_grant_rest :
      (session : SessionName) (code : ℕ) (hub : ToolsHub Value)
      → ((drop_grant sha256 session code hub).1.attached ≡ hub.attached)
        × ((drop_grant sha256 session code hub).1.loopback_keys ≡ hub.loopback_keys)
        × ((drop_grant sha256 session code hub).1.last_detach ≡ hub.last_detach)
  unfolding drop_grant log_events
  drop_grant_rest session code hub = elim (Option-cases (lookup session hub.grants)) [
    | inl e ↦ ground (arith, e)
    | inr (grant, e) ↦ ground (arith, e)
  ]

  drop_attached_rest :
      (session : SessionName) (code : ℕ) (hub : ToolsHub Value)
      → ((drop_attached session code hub).1.grants ≡ hub.grants)
        × ((drop_attached session code hub).1.loopback_keys ≡ hub.loopback_keys)
        × ((drop_attached session code hub).1.last_detach ≡ hub.last_detach)
  unfolding drop_attached close_socket
  drop_attached_rest session code hub = elim (Option-cases (lookup session hub.attached)) [
    | inl e ↦ ground (arith, e)
    | inr (i, e) ↦ ground (arith, e)
  ]

  revoke-bare :
      (session name : SessionName) (code now : ℕ) (hub : ToolsHub Value)
      → ((revoke sha256 session code now hub).1.grants ≡ (bare session code hub).grants)
        × ((revoke sha256 session code now hub).1.attached ≡ (bare session code hub).attached)
        × ((revoke sha256 session code now hub).1.loopback_keys
            ≡ (bare session code hub).loopback_keys)
        × (eq_bytes session name ≡ false
            → lookup name (revoke sha256 session code now hub).1.last_detach
              ≡ lookup name (bare session code hub).last_detach)
  unfolding revoke record_detach
  revoke-bare session name code now hub = (
    Bool-split (λ (r : Bool × ToolsHub Value). r.1.grants ≡ (bare session code hub).grants)
        (test session code hub) (λ e. refl) (λ e. refl),
    Bool-split (λ (r : Bool × ToolsHub Value). r.1.attached ≡ (bare session code hub).attached)
        (test session code hub) (λ e. refl) (λ e. refl),
    Bool-split
        (λ (r : Bool × ToolsHub Value). r.1.loopback_keys ≡ (bare session code hub).loopback_keys)
        (test session code hub) (λ e. refl) (λ e. refl),
    λ apart.
        Bool-split
          (λ (r : Bool × ToolsHub Value).
            lookup name r.1.last_detach ≡ lookup name (bare session code hub).last_detach)
          (test session code hub)
          (λ e.
            lookup-insert session name (record { code = code; at = now })
              (bare session code hub).last_detach
            ∙ ap
                (λ t.
                  if t
                  then some (record { code = code; at = now })
                  else lookup name (bare session code hub).last_detach)
                apart)
          (λ e. refl),
  )

  revoke-lookup :
      (session name : SessionName) (code now : ℕ) (hub : ToolsHub Value)
      → (lookup name (revoke sha256 session code now hub).1.grants
          ≡ (if eq_bytes session name then none else lookup name hub.grants))
        × (lookup name (revoke sha256 session code now hub).1.attached
            ≡ (if eq_bytes session name then none else lookup name hub.attached))
        × ((revoke sha256 session code now hub).1.loopback_keys ≡ hub.loopback_keys)
        × (eq_bytes session name ≡ false
            → lookup name (revoke sha256 session code now hub).1.last_detach
              ≡ lookup name hub.last_detach)
  revoke-lookup session name code now hub =
      let granted = (drop_grant sha256 session code hub).1 in
      let r = revoke-bare session name code now hub in
      let d = drop_attached_rest session code granted in
      let g = drop_grant_rest session code hub in
      (
        ap (lookup name) (r.0 ∙ d.0) ∙ lookup-drop_grant session name code hub,
        ap (lookup name) r.1
            ∙ lookup-drop_attached session name code granted
            ∙ ap (λ m. if eq_bytes session name then none else lookup name m) g.0,
        r.2 ∙ d.1 ∙ g.1,
        λ apart. r.3 apart ∙ ap (lookup name) (d.2 ∙ g.2),
      )

  forget_session-Forgotten :
      (session : SessionName) (now : ℕ) (hub : ToolsHub Value)
      → Forgotten session (forget_session sha256 session now hub)
  unfolding forget_session
  forget_session-Forgotten session now hub =
      let hub' = record hub { loopback_keys = remove session hub.loopback_keys } in
      let r = revoke-lookup session session session_ended now hub' in
      record {
        no_grant = r.0 ∙ own session (lookup session hub.grants);
        no_key = ap (lookup session) r.2 ∙ lookup-remove_self session hub.loopback_keys;
        no_socket = r.1 ∙ own session (lookup session hub.attached);
        no_detach =
            lookup-remove_self session (revoke sha256 session session_ended now hub').1.last_detach;
      }

  forget_session_stays :
      (session name : SessionName) (now : ℕ) (hub : ToolsHub Value)
      → Forgotten name hub
      → Forgotten name (forget_session sha256 session now hub)
  unfolding forget_session
  forget_session_stays session name now hub f = elim (Bool-cases (eq_bytes session name)) [
    | inl e ↦
        subst (λ n. Forgotten n (forget_session sha256 session now hub))
          ((eq_bytes_iff session name).0 e) (forget_session-Forgotten session now hub)
    | inr e ↦
        let hub' = record hub { loopback_keys = remove session hub.loopback_keys } in
        let r = revoke-lookup session name session_ended now hub' in
        record {
          no_grant = r.0 ∙ other session name e (lookup name hub.grants) ∙ f.no_grant;
          no_key = ap (lookup name) r.2 ∙ removed_none session name hub.loopback_keys f.no_key;
          no_socket = r.1 ∙ other session name e (lookup name hub.attached) ∙ f.no_socket;
          no_detach =
              removed_none session name (revoke sha256 session session_ended now hub').1.last_detach
                (r.3 e ∙ f.no_detach);
        }
  ]

  forget_missing_stays :
      (session_exists : SessionName → Bool) (names : List SessionName) (name : SessionName)
      (now : ℕ)
      → (hub : ToolsHub Value) → Forgotten name hub
      → Forgotten name (forget_missing sha256 session_exists names now hub)
  unfolding forget_missing
  forget_missing_stays exists [] name now hub f = f
  forget_missing_stays exists (n ∷ ns) name now hub f =
      forget_missing_stays exists ns name now _ (
        Bool-split (Forgotten name) (exists n) (λ e. f)
          (λ e. forget_session_stays n name now hub f))

  forget_missing-Forgotten :
      (session_exists : SessionName → Bool) (names : List SessionName) (name : SessionName)
      (now : ℕ)
      → (hub : ToolsHub Value) → session_exists name ≡ false
      → contains name names ≡ true
      → Forgotten name (forget_missing sha256 session_exists names now hub)
  unfolding forget_missing contains
  forget_missing-Forgotten exists [] name now hub gone h = absurd (no h)
    where
      no : false ≡ true → ⊥
      no e = cc
  forget_missing-Forgotten exists (n ∷ ns) name now hub gone h =
      elim (Bool-cases (eq_bytes n name)) [
        | inl e ↦
            let same = (eq_bytes_iff n name).0 e in
            forget_missing_stays exists ns name now _ (
              Bool-split (Forgotten name) (exists n)
                (λ there. absurd (contrary (sym there ∙ ap exists same ∙ gone)))
                (λ missing.
                  subst (λ m. Forgotten m (forget_session sha256 n now hub)) same
                    (forget_session-Forgotten n now hub)))
        | inr e ↦
            forget_missing-Forgotten exists ns name now _ gone
              (sym (ap (λ t. t || contains name ns) e) ∙ h)
      ]

  without_closed-none :
      (hub : ToolsHub Value) (m : List (SessionName × ℕ)) (name : SessionName)
      → lookup name m ≡ none
      → lookup name (without_closed hub m) ≡ none
  unfolding lookup without_closed
  without_closed-none hub [] name h = refl
  without_closed-none hub ((n, i) ∷ m) name h = ground (arith, without_closed-none hub m name)

  unknown-Forgotten :
      (hub : ToolsHub Value) (name : SessionName)
      → contains name (known hub) ≡ false
      → Forgotten name hub
  unfolding known
  unknown-Forgotten hub name h =
      let e =
        sym (
          contains-name_set name (
            keys hub.grants
            ++ (keys hub.attached ++ (keys hub.loopback_keys ++ keys hub.last_detach))))
        ∙ h in
      let a =
        contains-append name (keys hub.grants)
          (keys hub.attached ++ (keys hub.loopback_keys ++ keys hub.last_detach)) in
      let b =
        contains-append name (keys hub.attached) (keys hub.loopback_keys ++ keys hub.last_detach) in
      let c = contains-append name (keys hub.loopback_keys) (keys hub.last_detach) in
      record {
        no_grant = lookup-contains name hub.grants (ground (arith, a, e));
        no_key = lookup-contains name hub.loopback_keys (ground (arith, a, b, c, e));
        no_socket = lookup-contains name hub.attached (ground (arith, a, b, e));
        no_detach = lookup-contains name hub.last_detach (ground (arith, a, b, c, e));
      }

  -- After a sweep the hub has no grant, loopback key, attached socket or detach record of a
  -- session that no longer exists.
  pub sweep-Forgotten :
      (session_exists : SessionName → Bool) (now : ℕ) (hub : ToolsHub Value) (name : SessionName)
      → session_exists name ≡ false
      → Forgotten name (sweep sha256 session_exists now hub)
  unfolding sweep
  sweep-Forgotten exists now hub name gone =
      let current = revoke_all sha256 (expired hub.grants now) ttl_expired now hub in
      let swept = forget_missing sha256 exists (known current) now current in
      let f : Forgotten name swept = elim (Bool-cases (contains name (known current))) [
        | inl e ↦ forget_missing-Forgotten exists (known current) name now current gone e
        | inr e ↦
            forget_missing_stays exists (known current) name now current
              (unknown-Forgotten current name e)
      ] in
      record {
        no_grant = f.no_grant;
        no_key = f.no_key;
        no_socket = without_closed-none swept swept.attached name f.no_socket;
        no_detach = f.no_detach;
      }
