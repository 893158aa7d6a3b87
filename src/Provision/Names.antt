-- ===== src/Provision/Names.antt =====
-- The names of the objects of a volume.
use Prim.Native.Char.{Char, code}
use Prim.Native.String as S
use hcloud_csi_rwx.Prelude.{
  String, ◌≡◌, refl, false, [], ◌∷◌, ◌||◌, ◌==◌, format, if◌then◌else◌, Bool, Bool-cases, inl, inr,
}

abbrev dash : Char
dash = "-"

-- The characters that stand in no Kubernetes name: `.` and `_`.
abbrev pub is_separator : Char → Bool
is_separator c = code c == b'.' || code c == b'_'

-- `pvc.replace(['.', '_'], "-")`
unfoldable pub volume_name : String → String
volume_name S.[] = S.[]
volume_name (S.◌∷◌ c s) = S.◌∷◌ (if is_separator c then dash else c) (volume_name s)

unfoldable pub backing_pvc_name : String → String
backing_pvc_name vn = format (vn ∷ "-backing" ∷ [])

unfoldable pub share_pod_name : String → String
share_pod_name vn = format ("share-manager-" ∷ vn ∷ [])

unfoldable pub state_cm_name : String → String
state_cm_name vn = format ("state-" ∷ vn ∷ [])

-- A text with no dot and no underscore.
abbrev pub IsPlain : String → Type 0
IsPlain S.[] = Unit {0}
IsPlain (S.◌∷◌ c s) = (is_separator c ≡ false) × IsPlain s

replaced : (c : Char) → is_separator (if is_separator c then dash else c) ≡ false
replaced c = elim (Bool-cases (is_separator c)) [ inl e ↦ rw e | inr e ↦ rw e e ]

-- A sanitized name has no dot and no underscore.
pub volume_name-IsPlain : (s : String) → IsPlain (volume_name s)
unfolding volume_name
volume_name-IsPlain S.[] = tt
volume_name-IsPlain (S.◌∷◌ c s) = (replaced c, volume_name-IsPlain s)

-- A name with none of them is left alone.
pub volume_name_plain : (s : String) → IsPlain s → volume_name s ≡ s
unfolding volume_name
volume_name_plain S.[] h = refl
volume_name_plain (S.◌∷◌ c s) h = rw (h.0, volume_name_plain s h.1)

-- Sanitizing the name of a volume twice is sanitizing it once.
pub volume_name_idem : (s : String) → volume_name (volume_name s) ≡ volume_name s
volume_name_idem s = volume_name_plain (volume_name s) (volume_name-IsPlain s)
