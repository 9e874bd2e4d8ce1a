-- ===== src/CapProxy/Kitty.antt =====
-- The kitty keyboard state that the proxy mirrors (runtime/src/capproxy.rs). The head of a screen's
-- stack is its top, so that the source's `stack.remove(0)` takes away the last entry of the list.
use openab_pty.Base.{
  ℕ, zero, suc, ◌-◌, ◌%◌, Bool, false, ◌||◌, List, [], ◌∷◌, length, take, max, ltb, leb, ◌==◌,
  if◌then◌else◌,
}
use Prim.Native.Nat.{bit_and, bit_or, bit_xor}

abbrev pub kitty_stack_limit : ℕ
kitty_stack_limit = 16

-- `& KITTY_KNOWN_MASK`, with the mask 0x1f: the five low bits.
abbrev pub known_bits : ℕ → ℕ
known_bits raw = raw % 32

pub record KittyScreen : Type 0 where
  pub flags : ℕ
  pub stack : List ℕ

abbrev pub default_screen : KittyScreen
default_screen = record { flags = 0; stack = [] }

pub record CapabilityProxy : Type 0 where
  pub answered : ℕ
  pub normal : KittyScreen
  pub alternate : KittyScreen
  pub alt_active : Bool

unfoldable pub new : CapabilityProxy
new = record {
  answered = 0;
  normal = default_screen;
  alternate = default_screen;
  alt_active = false;
}

unfoldable pub kitty_screen : CapabilityProxy → KittyScreen
kitty_screen p = if p.alt_active then p.alternate else p.normal

-- A write through the reference that `kitty_screen` returns.
unfoldable pub set_screen : CapabilityProxy → KittyScreen → CapabilityProxy
set_screen p screen =
    if p.alt_active then record p { alternate = screen } else record p { normal = screen }

unfoldable pub push_screen : KittyScreen → ℕ → KittyScreen
push_screen s raw_flags = record {
  flags = known_bits raw_flags;
  stack =
      s.flags
      ∷ (if leb kitty_stack_limit (length s.stack)
          then take (length s.stack - 1) s.stack
          else s.stack);
}

unfoldable pub kitty_push : CapabilityProxy → ℕ → CapabilityProxy
unfolding kitty_screen set_screen push_screen
kitty_push p raw_flags = set_screen p (push_screen (kitty_screen p) raw_flags)

unfoldable pub set_flags : KittyScreen → ℕ → ℕ → KittyScreen
set_flags s raw_flags mode =
    if mode == 1
    then record s { flags = new_flags }
    else if mode == 2
    then record s { flags = bit_or s.flags new_flags }
    else if mode == 3
    then record s { flags = bit_and s.flags (bit_xor new_flags 0xffff) }
    else s
  where
    new_flags : ℕ
    new_flags = known_bits raw_flags

unfoldable pub kitty_set : CapabilityProxy → ℕ → ℕ → CapabilityProxy
unfolding kitty_screen set_screen set_flags
kitty_set p raw_flags mode = set_screen p (set_flags (kitty_screen p) raw_flags mode)

-- `for _ in 0..count`, each round taking the top entry if there is one.
unfoldable pub pop_times : ℕ → ℕ → List ℕ → KittyScreen
pop_times zero flags stack = record { flags = flags; stack = stack }
pop_times (suc rounds) flags [] = pop_times rounds flags []
pop_times (suc rounds) flags (top ∷ stack) = pop_times rounds top stack

unfoldable pub pop_screen : KittyScreen → ℕ → KittyScreen
pop_screen s raw_count =
    let count = max raw_count 1 in
    if ltb (length s.stack) count then default_screen else pop_times count s.flags s.stack

unfoldable pub kitty_pop : CapabilityProxy → ℕ → CapabilityProxy
unfolding kitty_screen set_screen pop_screen
kitty_pop p count = set_screen p (pop_screen (kitty_screen p) count)

unfoldable pub any_switch : List ℕ → Bool
any_switch [] = false
any_switch (m ∷ ms) = (m == 47) || (m == 1047) || (m == 1049) || any_switch ms

unfoldable pub buffer_modes : CapabilityProxy → List ℕ → Bool → CapabilityProxy
unfolding any_switch
buffer_modes p pars on = if any_switch pars then record p { alt_active = on } else p

unfoldable pub reset_emulator_model : CapabilityProxy → CapabilityProxy
reset_emulator_model p = record p {
  normal = default_screen;
  alternate = default_screen;
  alt_active = false;
}
