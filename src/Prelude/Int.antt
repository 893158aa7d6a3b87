-- ===== src/Prelude/Int.antt =====
-- Signed integers over the native numbers: `negsuc n` is -(n + 1).
use Prim.Native.Nat.{ℕ, suc, ◌+◌, ◌-◌, ◌%◌, ◌^◌}
use hcloud_csi_rwx.Prelude.Tests.{ltb, leb, if◌then◌else◌}

pub data ℤ : Type 0 where
  pos : ℕ → ℤ
  negsuc : ℕ → ℤ

abbrev pub pos_part : ℤ → ℕ
pos_part (pos n) = n
pos_part (negsuc n) = 0

abbrev pub neg_part : ℤ → ℕ
neg_part (pos n) = 0
neg_part (negsuc n) = suc n

-- a - b, as an integer.
abbrev pub sub_ℕ : ℕ → ℕ → ℤ
sub_ℕ a b = if leb b a then pos (a - b) else negsuc (b - a - 1)

abbrev pub i64_mod : ℕ
i64_mod = 2 ^ 64

abbrev pub i64_min_abs : ℕ
i64_min_abs = 2 ^ 63

-- The `i64` of a bit pattern below 2^64.
abbrev pub of_bits : ℕ → ℤ
of_bits n = if ltb n i64_min_abs then pos n else negsuc (i64_mod - n - 1)

-- The bit pattern of the integer `a - b`, where `b` is at most 2^64.
abbrev pub wrap_i64 : ℕ → ℕ → ℤ
wrap_i64 a b = of_bits ((a + (i64_mod - b)) % i64_mod)
