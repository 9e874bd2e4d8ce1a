-- ===== src/Tools/Hub/OneMac/Sockets.antt =====
-- Sockets that are added, updated and closed (`ToolsHub` of runtime/src/tools.rs).
use mathlib.Core.Path.{subst}
use openab_pty.Base.{
  ℕ, zero, suc, ◌≡◌, ◌≢◌, refl, sym, ◌∙◌, ap, ◌⊎◌, inl, inr, true, false, Option, none, some, List,
  [], ◌∷◌, ◌++◌, length, get_elem?, arith, ◌==◌, if◌then◌else◌, Bool-cases, Bool-split,
  eq_bytes_iff, lookup, remove, lookup-remove,
}
use openab_pty.Crate.{SessionName}
use openab_pty.Tools.{Attached, close, try_send, fail_pending}
use openab_pty.Tools.Hub.{close_socket}
use openab_pty.Tools.Hub.State.{ToolsHub, update, same_socket}

module _ {ℓ} {A : Type ℓ} where
  update-at :
      (i j : ℕ) (f : A → A) (xs : List A)
      → get_elem? (update i f xs) j ≡ (
          if i == j
          then (elim (get_elem? xs j) [ none ↦ none | some x ↦ some (f x) ])
          else get_elem? xs j)
  unfolding update
  update-at i j f [] = ground arith
  update-at zero zero f (x ∷ xs) = refl
  update-at zero (suc j) f (x ∷ xs) = ground arith
  update-at (suc i) zero f (x ∷ xs) = ground arith
  update-at (suc i) (suc j) f (x ∷ xs) = update-at i j f xs ∙ ground arith

  -- What stands in an updated list was there, or is what the update made.
  updated :
      (i j : ℕ) (f : A → A) (xs : List A) (y : A)
      → get_elem? (update i f xs) j ≡ some y
      → (x : A) × (get_elem? xs j ≡ some x) × (y ≡ (if i == j then f x else x))
  unfolding update
  updated i j f [] y h = absurd (nothing h)
    where
      nothing : {y : A} → none ≡ some y → ⊥
      nothing e = cc
  updated zero zero f (x ∷ xs) y h = (x, refl, cc)
  updated zero (suc j) f (x ∷ xs) y h = (y, h, ground arith)
  updated (suc i) zero f (x ∷ xs) y h = (x, refl, ground arith)
  updated (suc i) (suc j) f (x ∷ xs) y h =
      let (z, a, b) = updated i j f xs y h in (z, a, ground (arith, b))

  pub appended :
      (xs : List A) (x : A) (j : ℕ) (y : A)
      → get_elem? (xs ++ (x ∷ [])) j ≡ some y
      → (get_elem? xs j ≡ some y) ⊎ ((j ≡ length xs) × (y ≡ x))
  appended [] x zero y h = inr (refl, cc)
  appended [] x (suc j) y h = ground arith
  appended (z ∷ xs) x zero y h = inl h
  appended (z ∷ xs) x (suc j) y h = ground (arith, appended xs x j y)

pub none_ne_some : {j : ℕ} → none ≡ some j → ⊥
none_ne_some e = cc

pub some_inj : {i j : ℕ} → some i ≡ some j → i ≡ j
some_inj e = cc

pub apart_ne : (i j : ℕ) → (i == j) ≡ false → i ≢ j
apart_ne i j apart e = ground arith

true_ne_false : true ≡ false → ⊥
true_ne_false e = cc

pub removed_keeps :
    (session : SessionName) (i : ℕ) (m : List (SessionName × ℕ))
    → lookup session m ≡ some i
    → (s : SessionName) (j : ℕ) → lookup s m ≡ some j
    → (i == j) ≡ false
    → lookup s (remove session m) ≡ some j
removed_keeps session i m e s j f apart =
    ground (arith, lookup-remove session s m, eq_bytes_iff session s, e, f, apart)

pub same_socket_lem : (o : Option ℕ) (i : ℕ) → same_socket o i ≡ true → o ≡ some i
unfolding same_socket
same_socket_lem none i h = cc
same_socket_lem (some j) i h = ground arith

module _ {Value : Type 0} where
  -- What a socket is for: its session, which never changes, and whether it is closed, for good.
  pub record Later (a b : Attached Value) : Type 0 where
    pub same : b.session ≡ a.session
    pub stays : a.closed ≡ true → b.closed ≡ true

  abbrev pub OneMac : ToolsHub Value → Type 0
  OneMac hub =
      (i : ℕ) (a : Attached Value)
      → get_elem? hub.sockets i ≡ some a
      → a.closed ≡ false
      → lookup a.session hub.attached ≡ some i

  pub close-Later : (code : ℕ) (a : Attached Value) → Later a (close code a).1
  unfolding close try_send fail_pending
  close-Later code a = record { same = ground arith; stays = λ e. ground arith }

  close_closed : (code : ℕ) (a : Attached Value) → (close code a).1.closed ≡ true
  unfolding close try_send fail_pending
  close_closed code a = ground arith

  still_open : (a b : Attached Value) → Later a b → b.closed ≡ false → a.closed ≡ false
  still_open a b l e = elim (Bool-cases a.closed) [
    | inl f ↦ absurd (true_ne_false (sym (l.stays f) ∙ e))
    | inr f ↦ f
  ]

  -- An update of one socket that keeps it what it is for.
  pub updated_OneMac :
      (i : ℕ) (f : Attached Value → Attached Value) (hub : ToolsHub Value)
      → ((a : Attached Value) → Later a (f a))
      → OneMac hub
      → OneMac (record hub { sockets = update i f hub.sockets })
  updated_OneMac i f hub later inv j b h o =
      let (a, at, e) = updated i j f hub.sockets b h in
      let l =
        Bool-split (Later a) (i == j) (λ _. later a)
          (λ _. record { same = refl; stays = λ c. c }) in
      let l' : Later a b = subst (Later a) (sym e) l in
      ap (λ s. lookup s hub.attached) l'.same ∙ inv j a at (still_open a b l' o)

  -- A socket that is open after one was closed is another one, and was open before.
  pub open_after_close :
      (i code : ℕ) (hub : ToolsHub Value) (j : ℕ) (b : Attached Value)
      → get_elem? (close_socket i code hub).sockets j ≡ some b
      → b.closed ≡ false
      → ((i == j) ≡ false) × (get_elem? hub.sockets j ≡ some b)
  unfolding close_socket
  open_after_close i code hub j b h o =
      let (a, at, e) = updated i j (λ a. (close code a).1) hub.sockets b h in
      elim (Bool-cases (i == j)) [
        | inl same ↦
            let e' : b ≡ (close code a).1 = e ∙ ap (λ t. if t then (close code a).1 else a) same in
            absurd (
              true_ne_false
                (sym (close_closed code a) ∙ ap (λ (c : Attached Value). c.closed) (sym e') ∙ o))
        | inr apart ↦
            let e' : b ≡ a = e ∙ ap (λ t. if t then (close code a).1 else a) apart in
            (apart, at ∙ ap some (sym e'))
      ]

  -- The map has every open socket but one, which is closed.
  pub closed_OneMac :
      (i code : ℕ) (hub : ToolsHub Value)
      → ((j : ℕ) (a : Attached Value)
          → get_elem? hub.sockets j ≡ some a
          → a.closed ≡ false
          → (i == j) ≡ false
          → lookup a.session hub.attached ≡ some j)
      → OneMac (close_socket i code hub)
  unfolding close_socket
  closed_OneMac i code hub others j b h o =
      let (apart, at) = open_after_close i code hub j b h o in others j b at o apart
