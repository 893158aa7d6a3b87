-- ===== src/Json.antt =====
-- `serde_json::Value`, as the `json!` macro builds it, and the access to its parts.
use Prim.Native.Nat.{zero, suc}
use hcloud_csi_rwx.Prelude.{
  String, Bool, List, [], ◌∷◌, Option, ℕ, none, some, suc, if◌then◌else◌, and_then, str_eq,
}
use hcloud_csi_rwx.Prelude.Int.{ℤ}

mutual
  pub data Value : Type 0 where
    obj : Fields → Value
    arr : Items → Value
    str : String → Value
    num : ℤ → Value
    bool : Bool → Value
    null : Value

  pub data Fields : Type 0 where
    no_field : Fields
    field : String → Value → Fields → Fields

  pub data Items : Type 0 where
    no_item : Items
    item : Value → Items → Items

abbrev items_of : List Value → Items
items_of [] = no_item
items_of (v ∷ vs) = item v (items_of vs)

abbrev fields_of : List (String × Value) → Fields
fields_of [] = no_field
fields_of ((k, v) ∷ vs) = field k v (fields_of vs)

abbrev pub array : List Value → Value
array l = arr (items_of l)

abbrev pub object : List (String × Value) → Value
object l = obj (fields_of l)

-- `value[key]` where the value is an object that has the key.
abbrev pub find_field : String → Fields → Option Value
find_field k no_field = none
find_field k (field j v fs) = if str_eq j k then some v else find_field k fs

abbrev pub field_at : String → Value → Option Value
field_at k (obj fs) = find_field k fs
field_at k null = none
field_at k (bool b) = none
field_at k (num n) = none
field_at k (str s) = none
field_at k (arr xs) = none

-- `value[index]` where the value is an array that is long enough.
abbrev find_item : ℕ → Items → Option Value
find_item i no_item = none
find_item zero (item v vs) = some v
find_item (suc i) (item v vs) = find_item i vs

abbrev pub item_at : ℕ → Value → Option Value
item_at i (arr xs) = find_item i xs
item_at i null = none
item_at i (bool b) = none
item_at i (num n) = none
item_at i (str s) = none
item_at i (obj fs) = none

-- The value at the end of a path of keys.
abbrev pub value_at : List String → Value → Option Value
value_at [] v = some v
value_at (k ∷ ks) v = and_then (field_at k v) (value_at ks)
