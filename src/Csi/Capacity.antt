-- ===== src/Csi/Capacity.antt =====
-- `requested_gib` of src/csi.rs: the requested bytes in whole GiB, on `i64` as it wraps in a release
-- build.
use hcloud_csi_rwx.Prelude.{
  ℕ, suc, ◌+◌, ◌-◌, ◌*◌, ◌/◌, ◌%◌, ◌≤◌, ◌<◌, ◌≡◌, Option, some, unwrap_or, option_map, arith, ltb,
  Bool, false, option_filter, ap,
}
use hcloud_csi_rwx.Prelude.Int.{ℤ, pos, negsuc, sub_ℕ, i64_mod, i64_min_abs, of_bits}

abbrev pub gib : ℕ
gib = 1073741824

abbrev is_positive : ℤ → Bool
is_positive (pos n) = ltb 0 n
is_positive (negsuc n) = false

-- `a / d` on integers rounds towards zero.
abbrev div_trunc : ℤ → ℕ → ℤ
div_trunc (pos n) d = pos (n / d)
div_trunc (negsuc n) d = sub_ℕ 0 (suc n / d)

-- The bit pattern of an `i64`.
abbrev bits : ℤ → ℕ
bits (pos n) = n
bits (negsuc n) = i64_mod - suc n

-- `(b + GIB - 1) / GIB`: the sum is taken modulo 2^64.
unfoldable pub round_up : ℤ → ℤ
round_up b = div_trunc (of_bits ((bits b + (gib + i64_mod - 1)) % i64_mod)) gib

unfoldable pub requested_gib : Option ℤ → ℤ
unfolding round_up
requested_gib capacity =
    unwrap_or (option_map round_up (option_filter is_positive capacity)) (pos 10)

-- `gib * GIB`, which is in range for every number of GiB that `requested_gib` answers.
unfoldable pub gib_bytes : ℤ → ℤ
gib_bytes (pos n) = pos (n * gib)
gib_bytes (negsuc n) = negsuc (suc n * gib - 1)

round_up_small :
    (n : ℕ) → 0 < n → n ≤ i64_min_abs - gib → round_up (pos n) ≡ pos ((n + gib - 1) / gib)
unfolding round_up
round_up_small n p h =
    let e : (n + (gib + i64_mod - 1)) % i64_mod ≡ n + gib - 1 = omega arith in
    let low : n + gib - 1 < i64_min_abs = omega arith in rw e (ground arith)

-- The answer to a request whose sum wraps is 2^33 less than the exact quotient, or nearly so.
abbrev wrapped : ℕ → ℕ
wrapped n = (i64_mod - (n + gib - 1)) / gib - 1

round_up_big :
    (n : ℕ) → i64_min_abs - gib < n → n < i64_min_abs → round_up (pos n) ≡ negsuc (wrapped n)
unfolding round_up
round_up_big n p h =
    let e : (n + (gib + i64_mod - 1)) % i64_mod ≡ n + gib - 1 = omega arith in
    let high : i64_min_abs ≤ n + gib - 1 = omega arith in
    let some_gib : 1 ≤ (i64_mod - (n + gib - 1)) / gib = omega arith in
    let not_low : ltb (n + gib - 1) i64_min_abs ≡ false = ground arith in
    let magnitude : suc (i64_mod - (n + gib - 1) - 1) ≡ i64_mod - (n + gib - 1) = omega arith in
    rw (e, not_low, magnitude) (ground arith)

-- For a request of at least one and at most 2^63 - 2^30 bytes, the answer is the least number of
-- GiB that holds it, and its bytes are in the range of an `i64`.
pub requested_gib_rounds_up :
    (n : ℕ)
    → 0 < n
    → n ≤ i64_min_abs - gib
    → (g : ℕ) × (requested_gib (some (pos n)) ≡ pos g)
      × (n ≤ g * gib)
      × (g * gib < n + gib)
      × (gib_bytes (requested_gib (some (pos n))) ≡ pos (g * gib))
      × (g * gib < i64_min_abs)
unfolding requested_gib gib_bytes
requested_gib_rounds_up n positive small =
    let answer : requested_gib (some (pos n)) ≡ pos ((n + gib - 1) / gib) =
      ground (arith, round_up_small n positive small) in
    ((n + gib - 1) / gib, answer, omega arith, omega arith, ap gib_bytes answer, omega arith)

-- For a request of more than 2^63 - 2^30 and less than 2^63 bytes, the rounding up wraps and the
-- answer is negative.
pub requested_gib_wraps :
    (n : ℕ)
    → i64_min_abs - gib < n
    → n < i64_min_abs
    → (g : ℕ) × (requested_gib (some (pos n)) ≡ negsuc g)
unfolding requested_gib
requested_gib_wraps n big fits = (wrapped n, ground (arith, round_up_big n big fits))
