-- ===== src/Scan.antt =====
-- The loop that `TermFilter::filter` (runtime/src/termfilter.rs) and `CapabilityProxy::process`
-- (runtime/src/capproxy.rs) share: walk a chunk, look at each ESC-led rest, and cut out what is
-- recognised. What is kept is copied lazily: `out` is created at the first cut, and `copied_upto`
-- is how much of the chunk is already in it.
pub mod Spec
pub mod Run
pub mod Inv
use openab_pty.Base.{
  ℕ, zero, suc, ◌+◌, ◌-◌, Bool, true, false, not, ◌||◌, Option, none, some, List, [], ◌∷◌, ◌++◌,
  length, take, drop, get_or, leb, ◌==◌, if◌then◌else◌,
}

abbrev pub esc : ℕ
esc = 0x1b

abbrev pub bel : ℕ
bel = 0x07

-- What the look at an ESC-led slice found: a sequence to cut out, one to pass over, or none.
pub data Verdict : Type 0 where
  cut pass : ℕ → Verdict
  unknown : Verdict

-- `Cow<[u8]>`: the chunk itself, or a copy.
pub data Cow : Type 0 where
  borrowed owned : List ℕ → Cow

abbrev pub bytes : Cow → List ℕ
bytes (borrowed b) = b
bytes (owned b) = b

unfoldable pub contains : ℕ → List ℕ → Bool
contains b [] = false
contains b (x ∷ xs) = (x == b) || contains b xs

-- The bytes from `i` up to `j`.
abbrev pub slice : List ℕ → ℕ → ℕ → List ℕ
slice s i j = take (j - i) (drop i s)

abbrev pub or_empty : Option (List ℕ) → List ℕ
or_empty none = []
or_empty (some out) = out

module _ {S : Type 0} (look : S → List ℕ → S × Verdict) where
  -- `while i < chunk.len()`, on fuel; the state of the loop is returned when it ends.
  unfoldable pub scan : ℕ → List ℕ → ℕ → ℕ → Option (List ℕ) → S → ℕ × Option (List ℕ) × S
  scan zero chunk i copied_upto out s = (copied_upto, out, s)
  scan (suc fuel) chunk i copied_upto out s = elim (leb (length chunk) i) [
    | true ↦ (copied_upto, out, s)
    | false ↦ elim (get_or chunk i 0 == esc) [
      | false ↦ scan fuel chunk (i + 1) copied_upto out s
      | true ↦
          let (s', v) = look s (drop i chunk) in
          elim v [
            | cut len ↦
                scan fuel chunk (i + len) (i + len)
                  (some (or_empty out ++ slice chunk copied_upto i)) s'
            | pass len ↦ scan fuel chunk (i + len) copied_upto out s'
            | unknown ↦ scan fuel chunk (i + 1) copied_upto out s'
          ]
    ]
  ]

  finish : List ℕ → ℕ × Option (List ℕ) × S → Cow × S
  finish chunk (copied_upto, none, s) = (borrowed chunk, s)
  finish chunk (copied_upto, some out, s) = (owned (out ++ drop copied_upto chunk), s)

  -- Every round moves on by a byte at least, so a round for each byte is enough.
  unfoldable pub run : List ℕ → S → Cow × S
  unfolding scan finish contains
  run chunk s =
      if not (contains esc chunk)
      then (borrowed chunk, s)
      else finish chunk (scan (suc (length chunk)) chunk 0 0 none s)
