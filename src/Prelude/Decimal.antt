-- ===== src/Prelude/Decimal.antt =====
-- The decimal digits of a number, as `format!` prints it.
use Prim.Native.Nat.{ℕ, zero, suc, ◌/◌, ◌%◌}
use Prim.Native.Char.{Char}
use Prim.Native.String.{String}
use Prim.Native.String as S
use hcloud_csi_rwx.Prelude.Tests.{ltb, if◌then◌else◌}
use hcloud_csi_rwx.Prelude.Int.{ℤ, pos, negsuc}

digit : ℕ → Char
digit zero = "0"
digit (suc zero) = "1"
digit (suc (suc zero)) = "2"
digit (suc (suc (suc zero))) = "3"
digit (suc (suc (suc (suc zero)))) = "4"
digit (suc (suc (suc (suc (suc zero))))) = "5"
digit (suc (suc (suc (suc (suc (suc zero)))))) = "6"
digit (suc (suc (suc (suc (suc (suc (suc zero))))))) = "7"
digit (suc (suc (suc (suc (suc (suc (suc (suc zero)))))))) = "8"
digit (suc (suc (suc (suc (suc (suc (suc (suc (suc n))))))))) = "9"

-- The digits before those of `acc`; a number has at most as many digits as it has units, and one more.
print_loop : ℕ → ℕ → String → String
print_loop zero n acc = acc
print_loop (suc fuel) n acc =
    let acc' = S.◌∷◌ (digit (n % 10)) acc in
    let rest = print_loop fuel (n / 10) acc' in if ltb n 10 then acc' else rest

unfoldable pub show_ℕ : ℕ → String
unfolding print_loop digit
show_ℕ n = print_loop (suc n) n ""

unfoldable pub show_ℤ : ℤ → String
unfolding show_ℕ
show_ℤ (pos n) = show_ℕ n
show_ℤ (negsuc n) = S.◌++◌ "-" (show_ℕ (suc n))
