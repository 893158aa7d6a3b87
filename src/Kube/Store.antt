-- ===== src/Kube/Store.antt =====
-- What the recovery backend relies on of a healthy API server, for ConfigMaps: objects are found by
-- name, a creation answers 409 for a name that is taken, a request for a missing name answers 404,
-- and a merge patch sets the keys that it names and leaves every other key (RFC 7386).
use hcloud_csi_rwx.Prelude.{
  String, ◌≡◌, refl, Option, none, some, [], str_eq, unwrap_or, if◌then◌else◌, and_then, arith,
}
use hcloud_csi_rwx.Map.{Map, lookup, insert, extend, lookup-insert, lookup-extend}
use hcloud_csi_rwx.Kube.{api, ok, err, ConfigMap, MergePatch, Api}

abbrev pub merge_map : Option (Map String) → Option (Map String) → Option (Map String)
merge_map none old = old
merge_map (some p) old = some (extend p (unwrap_or old []))

abbrev pub merge : MergePatch → ConfigMap → ConfigMap
merge p cm = record cm {
  annotations = merge_map p.annotations cm.annotations;
  entries = merge_map p.entries cm.entries;
}

pub lookup-unwrap_or :
    (v : String) (old : Option (Map String)) → lookup v (unwrap_or old []) ≡ and_then old (lookup v)
unfolding lookup
lookup-unwrap_or v none = refl
lookup-unwrap_or v (some m) = refl

-- A key after a merge: what the patch sets it to, or what it was.
pub lookup-merge_map :
    (v : String) (p : Map String) (old : Option (Map String))
    → and_then (merge_map (some p) old) (lookup v)
      ≡ elim (lookup v p) [ none ↦ and_then old (lookup v) | some x ↦ some x ]
unfolding lookup
lookup-merge_map v p none = lookup-extend v p []
lookup-merge_map v p (some m) = lookup-extend v p m

-- A key after setting one key in the map and merging the whole map back.
pub lookup-put :
    (v k x : String) (old : Option (Map String))
    → and_then (merge_map (some (insert k x (unwrap_or old []))) old) (lookup v)
      ≡ (if str_eq v k then some x else and_then old (lookup v))
unfolding lookup
lookup-put v k x none =
    rw (lookup-extend v (insert k x []) [], lookup-insert v k x []) (ground arith)
lookup-put v k x (some m) =
    rw (lookup-extend v (insert k x m) m, lookup-insert v k x m) (ground arith)

pub record Store {W : Type 0} (a : Api W ConfigMap) : Type 0 where
  pub find : W → String → Option ConfigMap
  pub gone : String → String
  pub taken : String → String
  pub get_found :
      (w : W) (n : String) (cm : ConfigMap) → find w n ≡ some cm → a.get n w ≡ (ok cm, w)
  pub get_gone : (w : W) (n : String) → find w n ≡ none → a.get n w ≡ (err (api 404 (gone n)), w)
  pub create_new :
      (w : W) (n : String) (cm : ConfigMap)
      → cm.name ≡ some n
      → find w n ≡ none
      → ((a.create cm w).0 ≡ ok cm)
        × ((m : String) → find (a.create cm w).1 m ≡ (if str_eq m n then some cm else find w m))
  pub create_taken :
      (w : W) (n : String) (cm old : ConfigMap)
      → cm.name ≡ some n
      → find w n ≡ some old
      → a.create cm w ≡ (err (api 409 (taken n)), w)
  pub patch_found :
      (w : W) (n : String) (p : MergePatch) (cm : ConfigMap)
      → find w n ≡ some cm
      → ((a.patch n p w).0 ≡ ok (merge p cm))
        × ((m : String)
            → find (a.patch n p w).1 m ≡ (if str_eq m n then some (merge p cm) else find w m))
