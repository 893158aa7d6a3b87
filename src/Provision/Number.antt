-- ===== src/Provision/Number.antt =====
-- `str::parse::<i64>`, which `share_pod_json` applies to the metrics port.
use Prim.Native.Char.{code}
use Prim.Native.String as S
use hcloud_csi_rwx.Prelude.{
  ℕ, zero, suc, ◌+◌, ◌-◌, ◌*◌, String, Bool, true, false, ◌&&◌, Option, none, some, ltb, leb, ◌==◌,
  if◌then◌else◌,
}
use hcloud_csi_rwx.Prelude.Int.{ℤ, pos, negsuc, i64_min_abs}

digits : ℕ → String → Option ℕ
digits n S.[] = some n
digits n (S.◌∷◌ c s) =
    let rest = digits (n * 10 + (code c - 48)) s in
    if leb 48 (code c) && leb (code c) 57 then rest else none

abbrev signed : Bool → Option ℕ → Option ℤ
signed minus none = none
signed false (some n) = if ltb n i64_min_abs then some (pos n) else none
signed true (some zero) = some (pos 0)
signed true (some (suc n)) = if ltb n i64_min_abs then some (negsuc n) else none

-- `str::parse::<i64>().ok()`: an optional sign, then one digit or more, within the range.
unfoldable pub parse_i64 : String → Option ℤ
unfolding digits
parse_i64 S.[] = none
parse_i64 (S.◌∷◌ c S.[]) = signed false (digits 0 (S.◌∷◌ c S.[]))
parse_i64 (S.◌∷◌ c (S.◌∷◌ d s)) =
    if code c == b'-'
    then signed true (digits 0 (S.◌∷◌ d s))
    else if code c == b'+'
    then signed false (digits 0 (S.◌∷◌ d s))
    else signed false (digits 0 (S.◌∷◌ c (S.◌∷◌ d s)))
