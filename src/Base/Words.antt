-- ===== src/Base/Words.antt =====
-- Machine words: the 32-bit arithmetic that the C code does on its values.
use Prim.Native.Nat.{ℕ, zero, suc, ◌+◌, ◌-◌, ◌%◌, ◌^◌, ◌<◌}
use mathlib.Core.Path.{◌≡◌}
use mathlib.Core.Bool.{Bool, true, ◌&&◌}
use native.Mathlib.Omega.{arith}
use nano_vna_x.Base.Ints.{ℤ, pos, negsuc}
use nano_vna_x.Base.Tests.{leb, if◌then◌else◌}

-- (uint32_t)x
abbrev pub u32 : ℕ → ℕ
u32 x = x % 2 ^ 32

-- a - b of uint32_t operands
abbrev pub sub32 : ℕ → ℕ → ℕ
sub32 a b = (a + 2 ^ 32 - b) % 2 ^ 32

-- (int32_t)w of a bit pattern below 2 ^ 32
abbrev pub int32_of : ℕ → ℤ
int32_of bits = if leb (2 ^ 31) bits then negsuc (2 ^ 32 - 1 - bits) else pos bits

-- A table check: the test holds at every number below the bound.
unfoldable pub holds_below : ℕ → (ℕ → Bool) → Bool
holds_below zero test = true
holds_below (suc bound) test = holds_below bound test && test bound

pub holds_below_lem :
    (test : ℕ → Bool) (bound : ℕ)
    → holds_below bound test ≡ true
    → (k : ℕ) → k < bound
    → test k ≡ true
unfolding holds_below
holds_below_lem test zero all k small = absurd (omega arith)
holds_below_lem test (suc bound) all k small = ground (arith, holds_below_lem test bound _ k)
