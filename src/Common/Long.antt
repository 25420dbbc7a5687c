-- ===== src/Common/Long.antt =====
-- Java's `long`: the number below 2 ^ 64 that its bits spell, so that a negative number n is 2 ^ 64 + n.
use Prim.Native.Nat.{ℕ, ◌+◌, ◌-◌, ◌%◌, ◌^◌}
use im_single.Base.{ltb, Bool}

-- `a - b`
unfoldable pub subtract : ℕ → ℕ → ℕ
subtract a b = (a + (2 ^ 64 - b % 2 ^ 64)) % 2 ^ 64

-- `a < b` for `long`
abbrev pub less_signed : ℕ → ℕ → Bool
less_signed a b = ltb ((a + 2 ^ 63) % 2 ^ 64) ((b + 2 ^ 63) % 2 ^ 64)
