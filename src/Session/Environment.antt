-- ===== src/Session/Environment.antt =====
-- The environment of a child: `child_env` of runtime/src/session.rs. Names and values are byte strings;
-- the warnings and notes that it logs are left out.
pub mod Allowed
mod Examples
use openab_pty.Base.{
  ℕ, Bool, true, false, ◌&&◌, ◌||◌, Option, none, some, List, [], ◌∷◌, ◌++◌, ◌==◌, if◌then◌else◌,
  eq_bytes, lt_bytes, codes,
}

abbrev pub Variables : Type 0
Variables = List (List ℕ × List ℕ)

abbrev pub env_allowlist : List (List ℕ)
env_allowlist =
    codes "TERM" ∷ codes "LANG" ∷ codes "PATH" ∷ codes "HOME" ∷ codes "USER" ∷ codes "SHELL" ∷ []

abbrev pub locale_prefix : List ℕ
locale_prefix = codes "LC_"

abbrev pub env_forward_prefix : List ℕ
env_forward_prefix = codes "PTY_FORWARD_"

abbrev pub default_term : List ℕ
default_term = codes "xterm-256color"

unfoldable pub strip_prefix : List ℕ → List ℕ → Option (List ℕ)
strip_prefix [] key = some key
strip_prefix (p ∷ ps) [] = none
strip_prefix (p ∷ ps) (k ∷ ks) = let rest = strip_prefix ps ks in if p == k then rest else none

unfoldable pub lists : List ℕ → List (List ℕ) → Bool
lists key [] = false
lists key (n ∷ ns) = eq_bytes n key || lists key ns

unfoldable pub is_allowed : List ℕ → Bool
unfolding lists strip_prefix
is_allowed key =
    lists key env_allowlist
    || elim (strip_prefix locale_prefix key) [ some _ ↦ true | none ↦ false ]

unfoldable pub inherited : Variables → Variables
unfolding is_allowed
inherited [] = []
inherited ((key, value) ∷ source) =
    let rest = inherited source in if is_allowed key then (key, value) ∷ rest else rest

-- A forward with no name, and one that would replace an allowlisted variable, are refused.
unfoldable pub with_forward : List ℕ → (value : List ℕ) → Variables → Variables
unfolding is_allowed
with_forward [] value rest = rest
with_forward (n ∷ ns) value rest = if is_allowed (n ∷ ns) then rest else (n ∷ ns, value) ∷ rest

unfoldable pub forwards : Variables → Variables
unfolding strip_prefix with_forward
forwards [] = []
forwards ((key, value) ∷ source) =
    let rest = forwards source in
    elim (strip_prefix env_forward_prefix key) [
      | none ↦ rest
      | some name ↦ with_forward name value rest
    ]

-- Pairs are in the order of their names and then of their values.
unfoldable pub before : List ℕ × List ℕ → List ℕ × List ℕ → Bool
before (k, v) (j, w) = lt_bytes k j || (eq_bytes k j && lt_bytes v w)

unfoldable pub insert_sorted : List ℕ × List ℕ → Variables → Variables
unfolding before
insert_sorted x [] = x ∷ []
insert_sorted x (y ∷ ys) =
    let rest = insert_sorted x ys in if before y x then y ∷ rest else x ∷ y ∷ ys

unfoldable pub sort : Variables → Variables
unfolding insert_sorted
sort [] = []
sort (x ∷ xs) = insert_sorted x (sort xs)

-- Of neighbours with one name the first stays.
unfoldable pub without_repeats : List ℕ → Variables → Variables
without_repeats key [] = []
without_repeats key ((j, w) ∷ xs) =
    let same = without_repeats key xs in
    let other = without_repeats j xs in if eq_bytes j key then same else (j, w) ∷ other

unfoldable pub dedup : Variables → Variables
unfolding without_repeats
dedup [] = []
dedup ((k, v) ∷ xs) = (k, v) ∷ without_repeats k xs

unfoldable pub has_name : List ℕ → Variables → Bool
has_name key [] = false
has_name key ((k, v) ∷ xs) = eq_bytes k key || has_name key xs

unfoldable pub with_default : List ℕ → (value : List ℕ) → Variables → Variables
unfolding has_name
with_default key value env = if has_name key env then env else env ++ ((key, value) ∷ [])

unfoldable pub child_env : Variables → (home : List ℕ) → (size_term : Option (List ℕ)) → Variables
unfolding inherited forwards sort dedup with_default
child_env source home size_term = with_default (codes "HOME") home (
    with_default (codes "TERM") (elim size_term [ some term ↦ term | none ↦ default_term ])
      (dedup (sort (inherited source ++ forwards source))))
