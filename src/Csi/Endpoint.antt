-- ===== src/Csi/Endpoint.antt =====
-- NFS endpoints `server:path`, as src/csi.rs takes them apart.
use Prim.Native.Char.{Char, code}
use Prim.Native.String as S
use text.Mathlib.TextLemmas.{nil-append, cons-append}
use hcloud_csi_rwx.Prelude.{
  ℕ, zero, suc, String, ◌≡◌, refl, false, List, [], ◌∷◌, ◌==◌, if◌then◌else◌,
}

abbrev onto_first : Char → List String → List String
onto_first c [] = S.◌∷◌ c "" ∷ []
onto_first c (t ∷ ts) = S.◌∷◌ c t ∷ ts

-- `endpoint.split(':')`
unfoldable pub split_colon : String → List String
split_colon S.[] = "" ∷ []
split_colon (S.◌∷◌ c s) =
    let rest = split_colon s in if code c == b':' then "" ∷ rest else onto_first c rest

-- `.nth(n).unwrap_or("")`
abbrev pub nth_or_empty : List String → ℕ → String
nth_or_empty [] n = ""
nth_or_empty (t ∷ ts) zero = t
nth_or_empty (t ∷ ts) (suc n) = nth_or_empty ts n

-- A text with no colon.
abbrev pub HasNoColon : String → Type 0
HasNoColon S.[] = Unit {0}
HasNoColon (S.◌∷◌ c s) = ((code c == b':') ≡ false) × HasNoColon s

split_colon_plain : (t : String) → HasNoColon t → split_colon t ≡ t ∷ []
unfolding split_colon
split_colon_plain S.[] h = refl
split_colon_plain (S.◌∷◌ c t) h = rw (h.0, split_colon_plain t h.1)

-- A text with a colon is taken apart at its first one.
pub split_colon-append :
    (s t : String) → HasNoColon s → split_colon (S.◌++◌ s (S.◌∷◌ ":" t)) ≡ s ∷ split_colon t
unfolding split_colon
split_colon-append S.[] t h = rw nil-append
split_colon-append (S.◌∷◌ c s) t h =
    rw (cons-append c s (S.◌∷◌ ":" t), h.0, split_colon-append s t h.1)

-- An endpoint of a server and a path without colons is taken apart into these.
pub split_endpoint :
    (server path : String)
    → HasNoColon server
    → HasNoColon path
    → let parts = split_colon (S.◌++◌ server (S.◌∷◌ ":" path)) in
      (nth_or_empty parts 0 ≡ server) × (nth_or_empty parts 1 ≡ path)
split_endpoint server path hs hp =
    rw (split_colon-append server path hs, split_colon_plain path hp) (refl, refl)
