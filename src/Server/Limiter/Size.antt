-- ===== src/Server/Limiter/Size.antt =====
-- The bound on tracked sources (`UpgradeFailureLimiter` of runtime/src/server.rs).
use mathlib.Core.Path.{subst}
use openab_pty.Base.{
  ℕ, suc, ◌+◌, ◌≤◌, ◌≡◌, refl, ◌∙◌, sym, ap, Bool, false, not, ◌&&◌, Option, none, some, List, [],
  ◌∷◌, arith, length, ltb, leb, if◌then◌else◌, Bool-cases, ◌⊎◌, inl, inr, Bool-split, Option-split,
  eq_bytes_refl, remove, length-remove, length-insert,
}
use openab_pty.Server.Limiter.{
  FailureWindow, Windows, UpgradeFailureLimiter, is_banned, update, prune_windows, staler, oldest,
  is_tracked, with_slot, first_seen, failed, count_on, recorded, record_failure_at,
}

length-update :
    (k : List ℕ) (f : FailureWindow → FailureWindow) (m : Windows)
    → length (update k f m) ≡ length m
unfolding update
length-update k f [] = refl
length-update k f ((i, e) ∷ m) = ground (arith, length-update k f m)

length-prune_windows :
    (now window ban : ℕ) (m : Windows) → length (prune_windows now window ban m) ≤ length m
unfolding prune_windows
length-prune_windows now window ban [] = omega arith
length-prune_windows now window ban ((i, e) ∷ m) =
    ground (arith, length-prune_windows now window ban m)

pub oldest_cons :
    (now : ℕ) (i : List ℕ) (e : FailureWindow) (m : Windows) (v : List ℕ × FailureWindow)
    → oldest now ((i, e) ∷ m) ≡ some v
    → (oldest now m ≡ some v) ⊎ (((i, e) ≡ v) × (is_banned e now ≡ false))
unfolding oldest staler
oldest_cons now i e m v h = elim (Bool-cases (is_banned e now)) [
  | inl held ↦ inl (sym (ap branch held) ∙ h)
  | inr free ↦ from_staler free (oldest now m) (some_inj (sym (ap branch free) ∙ h))
]
  where
    branch : Bool → Option (List ℕ × FailureWindow)
    branch t = if t then oldest now m else some (staler (i, e) (oldest now m))

    some_inj : {a b : List ℕ × FailureWindow} → some a ≡ some b → a ≡ b
    some_inj q = cc

    from_staler :
        is_banned e now ≡ false
        → (o : Option (List ℕ × FailureWindow)) → staler (i, e) o ≡ v
        → (o ≡ some v) ⊎ (((i, e) ≡ v) × (is_banned e now ≡ false))
    from_staler free none q = inr (q, free)
    from_staler free (some w) q = elim (Bool-cases (ltb w.1.last_seen e.last_seen)) [
      | inl less ↦ inl (ap some (sym (ap (λ t. if t then w else (i, e)) less) ∙ q))
      | inr more ↦ inr (sym (ap (λ t. if t then w else (i, e)) more) ∙ q, free)
    ]

remove_one :
    (k i : List ℕ) (e : FailureWindow) (m : Windows)
    → length (remove k ((i, e) ∷ m)) ≤ length (remove k m) + 1
unfolding remove
remove_one k i e m = ground arith

remove_head :
    (i : List ℕ) (e : FailureWindow) (m : Windows) → length (remove i ((i, e) ∷ m)) ≤ length m
unfolding remove
remove_head i e m = ground (arith, eq_bytes_refl i, length-remove i m)

remove-oldest :
    (now : ℕ) (m : Windows) (v : List ℕ × FailureWindow)
    → oldest now m ≡ some v
    → length (remove v.0 m) + 1 ≤ length m
unfolding oldest
remove-oldest now [] v h = ground (arith, h)
remove-oldest now ((i, e) ∷ m) v h = elim (oldest_cons now i e m v h) [
  | inl later ↦ omega (arith, remove_one v.0 i e m, remove-oldest now m v later)
  | inr (this, free) ↦
      subst (λ (w : List ℕ × FailureWindow). length (remove w.0 ((i, e) ∷ m)) + 1 ≤ suc (length m))
        this (omega (arith, remove_head i e m))
]

-- At most 4096 entries, and fewer if the source is not among them.
abbrev pub HasSlot : List ℕ → Windows → Type 0
HasSlot source m = (length m ≤ 4096) × ((is_tracked source m ≡ false) → length m ≤ 4095)

with_slot-HasSlot :
    (source : List ℕ) (now : ℕ) (m m' : Windows)
    → length m ≤ 4096
    → with_slot source now m ≡ some m'
    → HasSlot source m'
unfolding with_slot
with_slot-HasSlot source now m m' h e =
    Bool-split Fits (leb 4096 (length m) && not (is_tracked source m))
      (λ t. Option-split Fits (oldest now m) (λ f q. absurd (none_ne_some q)) evicted)
      (λ f q. subst (HasSlot source) (some_inj q) (h, λ n. ground (arith, f, n))) e
  where
    Fits : Option Windows → Type 0
    Fits o = o ≡ some m' → HasSlot source m'

    none_ne_some : none ≡ some m' → ⊥
    none_ne_some q = cc

    some_inj : {a b : Windows} → some a ≡ some b → a ≡ b
    some_inj q = cc

    evicted : (v : List ℕ × FailureWindow) → oldest now m ≡ some v → Fits (some (remove v.0 m))
    evicted v f q =
        let shorter = remove-oldest now m v f in
        subst (HasSlot source) (some_inj q) (omega arith, λ n. omega arith)

length-count_on :
    (source : List ℕ) (limit window ban now : ℕ) (m : Windows)
    → HasSlot source m
    → length (count_on source limit window ban now m).1 ≤ 4096
unfolding count_on is_tracked
length-count_on source limit window ban now m h = ground (
  arith,
  h,
  length-update source (λ e. (failed limit window ban now e).1) m,
  length-insert source (failed limit window ban now (first_seen now)).1 m,
)

-- The limiter never tracks more than 4096 sources, whatever the failures.
pub record_failure_at-Fits :
    (source : List ℕ) (now : ℕ) (l : UpgradeFailureLimiter)
    → length l.entries ≤ 4096
    → length (record_failure_at source now l).1.entries ≤ 4096
unfolding record_failure_at recorded
record_failure_at-Fits source now l h =
    fits (with_slot source now (prune_windows now l.window l.ban l.entries)) refl
  where
    few : length (prune_windows now l.window l.ban l.entries) ≤ 4096
    few = omega (arith, length-prune_windows now l.window l.ban l.entries)

    fits :
        (o : Option Windows)
        → with_slot source now (prune_windows now l.window l.ban l.entries) ≡ o
        → length (recorded source now l (prune_windows now l.window l.ban l.entries) o).1.entries
          ≤ 4096
    fits none f = few
    fits (some m) f =
        length-count_on source l.limit l.window l.ban now m
          (with_slot-HasSlot source now (prune_windows now l.window l.ban l.entries) m few f)
