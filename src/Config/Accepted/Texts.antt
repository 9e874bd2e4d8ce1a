-- ===== src/Config/Accepted/Texts.antt =====
-- Texts that name a secret or a remote place (runtime/src/config.rs).
use openab_pty.Base.{ℕ, ◌≡◌, refl, false, Option, none, some, List, arith, codes}
use openab_pty.Crate.{Error}
use openab_pty.Config.{
  Value, Values, Table, string, integer, negative, boolean, float, datetime, array, table,
  no_values, value, no_entries, entry, reject_unsafe_values, reject_unsafe_list,
  reject_unsafe_table, unsafe_text, first_error, contains_text,
}

-- No text in the value names a secret or a remote place.
abbrev mutual
  pub Safe : Value → Type 0
  Safe (string text) =
      (contains_text (codes "${secrets.") text ≡ false) × (contains_text (codes "://") text ≡ false)
  Safe (array vs) = SafeList vs
  Safe (table es) = SafeTable es
  Safe (integer n) = Unit
  Safe (negative n) = Unit
  Safe (boolean b) = Unit
  Safe float = Unit
  Safe datetime = Unit

  pub SafeList : Values → Type 0
  SafeList no_values = Unit
  SafeList (value v vs) = Safe v × SafeList vs

  pub SafeTable : Table → Type 0
  SafeTable no_entries = Unit
  SafeTable (entry key v es) = Safe v × SafeTable es

unsafe_text-none :
    (text : List ℕ)
    → unsafe_text text ≡ none
    → (contains_text (codes "${secrets.") text ≡ false) × (contains_text (codes "://") text ≡ false)
unfolding unsafe_text
unsafe_text-none text h = ground arith

first_error-none : (a b : Option Error) → first_error a b ≡ none → (a ≡ none) × (b ≡ none)
unfolding first_error
first_error-none none b h = (refl, h)
first_error-none (some e) b h = cc

mutual
  unfolding reject_unsafe_values reject_unsafe_list reject_unsafe_table

  pub reject_unsafe_values-Safe : (v : Value) → reject_unsafe_values v ≡ none → Safe v
  reject_unsafe_values-Safe (string text) h = unsafe_text-none text h
  reject_unsafe_values-Safe (array vs) h = reject_unsafe_list-Safe vs h
  reject_unsafe_values-Safe (table es) h = reject_unsafe_table-Safe es h
  reject_unsafe_values-Safe (integer n) h = tt
  reject_unsafe_values-Safe (negative n) h = tt
  reject_unsafe_values-Safe (boolean b) h = tt
  reject_unsafe_values-Safe float h = tt
  reject_unsafe_values-Safe datetime h = tt

  reject_unsafe_list-Safe : (vs : Values) → reject_unsafe_list vs ≡ none → SafeList vs
  reject_unsafe_list-Safe no_values h = tt
  reject_unsafe_list-Safe (value v vs) h =
      let (a, b) = first_error-none (reject_unsafe_values v) (reject_unsafe_list vs) h in
      (reject_unsafe_values-Safe v a, reject_unsafe_list-Safe vs b)

  reject_unsafe_table-Safe : (es : Table) → reject_unsafe_table es ≡ none → SafeTable es
  reject_unsafe_table-Safe no_entries h = tt
  reject_unsafe_table-Safe (entry key v es) h =
      let (a, b) = first_error-none (reject_unsafe_values v) (reject_unsafe_table es) h in
      (reject_unsafe_values-Safe v a, reject_unsafe_table-Safe es b)
