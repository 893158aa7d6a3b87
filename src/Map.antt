-- ===== src/Map.antt =====
-- Rust's `BTreeMap<String, V>`, as the association list of its entries in the order of the keys.
-- `remove` drops every entry of the key, which is the one entry where the keys are distinct.
use Prim.Native.Nat.{Ordering}
use Prim.Native.String.{compare}
use text.Mathlib.TextPositions.{eq_refl}
use hcloud_csi_rwx.Prelude.{
  String, ◌≡◌, refl, Option, none, some, List, [], ◌∷◌, arith, str_eq, str_eq_iff, if◌then◌else◌,
}

abbrev pub Map {ℓ} : Type ℓ → Type ℓ
Map V = List (String × V)

module _ {ℓ} {V : Type ℓ} where
  unfoldable pub lookup : String → Map V → Option V
  lookup k [] = none
  lookup k ((j, v) ∷ m) = if str_eq k j then some v else lookup k m

  unfoldable pub insert : String → V → Map V → Map V
  insert k v [] = (k, v) ∷ []
  insert k v ((j, w) ∷ m) = elim (compare k j) [
    | Ordering.lt ↦ (k, v) ∷ (j, w) ∷ m
    | Ordering.eq ↦ (k, v) ∷ m
    | Ordering.gt ↦ (j, w) ∷ insert k v m
  ]

  unfoldable pub remove : String → Map V → Map V
  remove k [] = []
  remove k ((j, v) ∷ m) = let rest = remove k m in if str_eq k j then rest else (j, v) ∷ rest

  -- `entry(k).or_insert(v)`
  unfoldable pub or_insert : String → V → Map V → Map V
  or_insert k v m = elim (lookup k m) [ none ↦ insert k v m | some w ↦ m ]

  abbrev pub keys : Map V → List String
  keys [] = []
  keys ((k, v) ∷ m) = k ∷ keys m

  -- All entries of the first map put into the second.
  unfoldable pub extend : Map V → Map V → Map V
  extend [] m = m
  extend ((k, v) ∷ p) m = insert k v (extend p m)

  pub lookup-insert :
      (j k : String) (v : V) (m : Map V)
      → lookup j (insert k v m) ≡ (if str_eq j k then some v else lookup j m)
  unfolding lookup insert
  lookup-insert j k v [] = refl
  lookup-insert j k v ((i, w) ∷ m) =
      ground (arith, str_eq_iff j k, str_eq_iff k i, str_eq_iff j i, lookup-insert j k v m)

  pub lookup-remove :
      (j k : String) (m : Map V) → lookup j (remove k m) ≡ (if str_eq j k then none else lookup j m)
  unfolding lookup remove
  lookup-remove j k [] = ground arith
  lookup-remove j k ((i, w) ∷ m) =
      ground (arith, str_eq_iff j k, str_eq_iff k i, str_eq_iff j i, lookup-remove j k m)

  pub lookup-or_insert :
      (j k : String) (v : V) (m : Map V)
      → lookup j (or_insert k v m)
        ≡ (if str_eq j k then some (elim (lookup k m) [ none ↦ v | some w ↦ w ]) else lookup j m)
  unfolding or_insert
  lookup-or_insert j k v m = ground (arith, lookup-insert j k v m, str_eq_iff j k)

  pub lookup-extend :
      (j : String) (p m : Map V)
      → lookup j (extend p m) ≡ elim (lookup j p) [ none ↦ lookup j m | some v ↦ some v ]
  unfolding lookup extend
  lookup-extend j [] m = refl
  lookup-extend j ((k, v) ∷ p) m =
      ground (arith, lookup-insert j k v (extend p m), lookup-extend j p m)

pub ruleset map_laws = (lookup-insert, lookup-remove, lookup-or_insert, eq_refl)
