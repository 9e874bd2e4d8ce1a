-- ===== src/TermFilter/Examples.antt =====
-- Concrete input chunks (runtime/src/termfilter.rs).
use openab_pty.Base.{ℕ, ◌+◌, ◌≡◌, ◌↔◌, some, List, [], ◌∷◌, arith, length}
use openab_pty.Scan.{esc, bytes}
use openab_pty.TermFilter.{new, filter, classify}
use openab_pty.TermFilter.Replies.{Reply, classify_iff}
use openab_pty.TermFilter.Pass.{Passes, filter-Passes}

-- `ESC [ c` between two letters.
abbrev reply_chunk : List ℕ
reply_chunk = b'a' ∷ esc ∷ b'[' ∷ b'c' ∷ b'b' ∷ []

filter-Passes_example :
    (k : ℕ) × Passes reply_chunk (bytes (filter new reply_chunk).0) k
    × ((filter new reply_chunk).1.stripped_sequences ≡ new.stripped_sequences + k)
    × ((filter new reply_chunk).1.stripped_bytes + length (bytes (filter new reply_chunk).0)
        ≡ new.stripped_bytes + length reply_chunk)
unfolding new
filter-Passes_example = filter-Passes new reply_chunk (omega arith) (omega arith)

classify_iff_example : (classify (esc ∷ b'[' ∷ b'c' ∷ []) ≡ some 3) ↔ Reply b'[' (b'c' ∷ []) 3
classify_iff_example = classify_iff esc b'[' (b'c' ∷ []) 3
