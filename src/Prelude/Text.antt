-- ===== src/Prelude/Text.antt =====
-- Texts: Rust's `==`, `format!`, `contains` on a vector of texts, and Kubernetes' empty name.
use Prim.Native.String.{String}
use Prim.Native.String as S
use mathlib.Core.Path.{◌≡◌}
use mathlib.Core.Bool.{Bool, true, false, ◌||◌}
use mathlib.Core.List.{List, [], ◌∷◌}
use text.Mathlib.Text
use text.Mathlib.TextEquality.{eq_iff}

-- `a == b` on texts
abbrev pub str_eq : String → String → Bool
str_eq = Text.◌==◌

pub str_eq_iff : (s t : String) → (str_eq s t ≡ true → s ≡ t) × (s ≡ t → str_eq s t ≡ true)
str_eq_iff s t = eq_iff s t

-- `format!`: the pieces one after the other
abbrev pub format : List String → String
format [] = ""
format (s ∷ ss) = S.◌++◌ s (format ss)

-- `is_empty`
abbrev pub is_empty : String → Bool
is_empty s = str_eq s ""

-- `contains` of a vector of texts
abbrev pub contains : List String → String → Bool
contains [] s = false
contains (x ∷ xs) s = str_eq x s || contains xs s
