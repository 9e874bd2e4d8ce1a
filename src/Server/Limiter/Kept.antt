-- ===== src/Server/Limiter/Kept.antt =====
-- Entries of `UpgradeFailureLimiter` (runtime/src/server.rs): each source has one, and neither pruning nor
-- eviction takes one that is banned.
use mathlib.Core.Path.{subst}
use openab_pty.Base.{
  ℕ, ◌≡◌, refl, ◌∙◌, sym, ap, true, false, not, ◌&&◌, Option, none, some, List, [], ◌∷◌, arith,
  length, leb, if◌then◌else◌, Bool-cases, inl, inr, Bool-split, Option-split, eq_bytes,
  eq_bytes_iff, eq_bytes_refl, lookup, remove, lookup-remove, Distinct, remove-Distinct,
  later_found, apart_keys,
}
use openab_pty.Server.Limiter.{
  FailureWindow, Windows, is_banned, update, retained, prune_windows, oldest, is_tracked, with_slot,
}
use openab_pty.Server.Limiter.Size.{oldest_cons}

pub lookup-update :
    (k j : List ℕ) (f : FailureWindow → FailureWindow) (m : Windows)
    → lookup j (update k f m) ≡ (
        if eq_bytes k j
        then (elim (lookup j m) [ none ↦ none | some e ↦ some (f e) ])
        else lookup j m)
unfolding lookup update
lookup-update k j f [] = ground arith
lookup-update k j f ((i, e) ∷ m) =
    ground (arith, lookup-update k j f m, eq_bytes_iff i k, eq_bytes_iff i j, eq_bytes_iff k j)

pub update-Distinct :
    (k : List ℕ) (f : FailureWindow → FailureWindow) (m : Windows)
    → Distinct m
    → Distinct (update k f m)
unfolding update
update-Distinct k f [] h = tt
update-Distinct k f ((i, e) ∷ m) h =
    Bool-split Distinct (eq_bytes i k) (λ b. (h.0, h.1))
      (λ b. (ground (arith, lookup-update k i f m, h.0), update-Distinct k f m h.1))

prune_windows-none :
    (now window ban : ℕ) (k : List ℕ) (m : Windows)
    → lookup k m ≡ none
    → lookup k (prune_windows now window ban m) ≡ none
unfolding lookup prune_windows
prune_windows-none now window ban k [] h = refl
prune_windows-none now window ban k ((i, e) ∷ m) h =
    ground (arith, prune_windows-none now window ban k m)

pub prune_windows-Distinct :
    (now window ban : ℕ) (m : Windows) → Distinct m → Distinct (prune_windows now window ban m)
unfolding prune_windows
prune_windows-Distinct now window ban [] h = tt
prune_windows-Distinct now window ban ((i, e) ∷ m) h =
    Bool-split Distinct (retained now window ban e)
      (λ b.
        (prune_windows-none now window ban i m h.0, prune_windows-Distinct now window ban m h.1))
      (λ b. prune_windows-Distinct now window ban m h.1)

banned-retained :
    (now window ban : ℕ) (e : FailureWindow)
    → is_banned e now ≡ true
    → retained now window ban e ≡ true
unfolding retained
banned-retained now window ban e h = ground (arith, h)

-- Pruning keeps a banned entry.
pub prune_windows_kept :
    (now window ban : ℕ) (k : List ℕ) (e : FailureWindow) (m : Windows)
    → lookup k m ≡ some e
    → is_banned e now ≡ true
    → lookup k (prune_windows now window ban m) ≡ some e
unfolding lookup prune_windows
prune_windows_kept now window ban k e [] h b = h
prune_windows_kept now window ban k e ((i, e') ∷ m) h b = elim (Bool-cases (eq_bytes i k)) [
  | inl same ↦
      let s : e' ≡ e = some_inj (sym (ap (λ t. if t then some e' else lookup k m) same) ∙ h) in
      let r : retained now window ban e' ≡ true =
        banned-retained now window ban e' (ap (λ x. is_banned x now) s ∙ b) in
      ground (arith, same, r, ap (λ (x : FailureWindow). some x) s)
  | inr apart ↦ ground (arith, apart, prune_windows_kept now window ban k e m, h, b)
]
  where
    some_inj : {a b : FailureWindow} → some a ≡ some b → a ≡ b
    some_inj p = cc

-- The entry that is evicted is one of the map, and not banned.
oldest_found :
    (now : ℕ) (m : Windows) (v : List ℕ × FailureWindow)
    → Distinct m
    → oldest now m ≡ some v
    → (lookup v.0 m ≡ some v.1) × (is_banned v.1 now ≡ false)
unfolding oldest lookup
oldest_found now [] v d h = absurd (none_ne_some h)
  where
    none_ne_some : {a : List ℕ × FailureWindow} → none ≡ some a → ⊥
    none_ne_some p = cc
oldest_found now ((i, e) ∷ m) v d h = elim (oldest_cons now i e m v h) [
  | inl later ↦
      let (found, free) = oldest_found now m v d.1 later in
      (later_found i v.0 e v.1 m d.0 found, free)
  | inr (this, free) ↦
      subst
        (λ (w : List ℕ × FailureWindow).
          (lookup w.0 ((i, e) ∷ m) ≡ some w.1) × (is_banned w.1 now ≡ false))
        this (ap (λ t. if t then some e else lookup i m) (eq_bytes_refl i), free)
]

-- Room for a source is made without a banned entry.
pub with_slot_kept :
    (source : List ℕ) (now : ℕ) (k : List ℕ) (e : FailureWindow) (m m' : Windows)
    → Distinct m
    → lookup k m ≡ some e
    → is_banned e now ≡ true
    → with_slot source now m ≡ some m'
    → Distinct m' × (lookup k m' ≡ some e)
unfolding with_slot
with_slot_kept source now k e m m' d h b =
    Bool-split Keeps (leb 4096 (length m) && not (is_tracked source m))
      (λ t. Option-split Keeps (oldest now m) (λ f q. absurd (none_ne_some q)) evicted)
      (λ f q. subst Kept (some_inj q) (d, h))
  where
    Kept : Windows → Type 0
    Kept n = Distinct n × (lookup k n ≡ some e)

    Keeps : Option Windows → Type 0
    Keeps o = o ≡ some m' → Kept m'

    none_ne_some : none ≡ some m' → ⊥
    none_ne_some q = cc

    some_inj : {a b : Windows} → some a ≡ some b → a ≡ b
    some_inj q = cc

    contrary : true ≡ false → ⊥
    contrary q = cc

    evicted : (v : List ℕ × FailureWindow) → oldest now m ≡ some v → Keeps (some (remove v.0 m))
    evicted v f q =
        let (found, free) = oldest_found now m v d f in
        let apart =
          apart_keys v.0 k v.1 e m found h
            (λ s. contrary (sym b ∙ ap (λ x. is_banned x now) (sym s) ∙ free)) in
        subst Kept (some_inj q) (
          remove-Distinct v.0 m d,
          lookup-remove v.0 k m ∙ ap (λ t. if t then none else lookup k m) apart ∙ h,
        )

pub with_slot-Distinct :
    (source : List ℕ) (now : ℕ) (m m' : Windows)
    → Distinct m
    → with_slot source now m ≡ some m'
    → Distinct m'
unfolding with_slot
with_slot-Distinct source now m m' d =
    Bool-split Stays (leb 4096 (length m) && not (is_tracked source m))
      (λ t.
        Option-split Stays (oldest now m) (λ f q. absurd (none_ne_some q))
          (λ v f q. subst Distinct (some_inj q) (remove-Distinct v.0 m d)))
      (λ f q. subst Distinct (some_inj q) d)
  where
    Stays : Option Windows → Type 0
    Stays o = o ≡ some m' → Distinct m'

    none_ne_some : none ≡ some m' → ⊥
    none_ne_some q = cc

    some_inj : {a b : Windows} → some a ≡ some b → a ≡ b
    some_inj q = cc
