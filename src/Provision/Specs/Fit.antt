-- ===== src/Provision/Specs/Fit.antt =====
-- The specs of one volume against each other.
use hcloud_csi_rwx.Prelude.{
  String, ◌≡◌, refl, Bool, true, false, Option, none, some, List, [], ◌∷◌, ◌&&◌, ◌||◌, ◌==◌, not,
  str_eq, str_eq_iff,
}
use hcloud_csi_rwx.Prelude.Int.{pos}
use hcloud_csi_rwx.Json.{
  Value, obj, arr, str, num, Fields, no_field, field, Items, no_item, item, find_field, field_at,
  value_at, item_at,
}
use hcloud_csi_rwx.Provision.Config.{Env}
use hcloud_csi_rwx.Provision.Names.{volume_name, backing_pvc_name}
use hcloud_csi_rwx.Provision.Specs.{share_pod_json, service_json, backing_pvc_json, pod_ports}

-- Two texts that are there and equal.
abbrev same_text : Option Value → Option Value → Bool
same_text (some (str s)) (some (str t)) = str_eq s t
same_text _ _ = false

abbrev fields_at : List String → Value → Fields
fields_at path v = elim (value_at path v) [ some (obj fs) ↦ fs | _ ↦ no_field ]

abbrev items_at : List String → Value → Items
items_at path v = elim (value_at path v) [ some (arr vs) ↦ vs | _ ↦ no_item ]

-- Every field of a selector is a label with the same text.
abbrev all_labelled : Fields → Fields → Bool
all_labelled no_field labels = true
all_labelled (field k v fs) labels =
    same_text (some v) (find_field k labels) && all_labelled fs labels

abbrev is_empty_selector : Fields → Bool
is_empty_selector no_field = true
is_empty_selector (field k v fs) = false

-- A service selects a pod: it has a selector, and the pod has all the labels of it.
abbrev pub selects : Value → Value → Bool
selects service pod =
    let selector = fields_at ("spec" ∷ "selector" ∷ []) service in
    not (is_empty_selector selector)
    && all_labelled selector (fields_at ("metadata" ∷ "labels" ∷ []) pod)

abbrev same_number : Option Value → Option Value → Bool
same_number (some (num (pos m))) (some (num (pos n))) = m == n
same_number _ _ = false

abbrev has_port : Option Value → Items → Bool
has_port target no_item = false
has_port target (item v vs) = same_number target (field_at "containerPort" v) || has_port target vs

abbrev all_open : Items → Items → Bool
all_open no_item ports = true
all_open (item v vs) ports = has_port (field_at "targetPort" v) ports && all_open vs ports

-- Every port of a service leads to a port of the first container of a pod.
abbrev pub reaches : Value → Value → Bool
reaches service pod =
    all_open (items_at ("spec" ∷ "ports" ∷ []) service)
      (elim (item_at 0 (arr (items_at ("spec" ∷ "containers" ∷ []) pod))) [
        | none ↦ no_item
        | some c ↦ items_at ("ports" ∷ []) c
      ])

abbrev claim_name_of : Value → Option Value
claim_name_of v = value_at ("persistentVolumeClaim" ∷ "claimName" ∷ []) v

abbrev has_claim : Option Value → Items → Bool
has_claim name no_item = false
has_claim name (item v vs) = same_text name (claim_name_of v) || has_claim name vs

-- A pod mounts a claim by its name, in the claim's namespace.
abbrev pub mounts : Value → Value → Bool
mounts pod claim =
    has_claim (value_at ("metadata" ∷ "name" ∷ []) claim) (items_at ("spec" ∷ "volumes" ∷ []) pod)
    && same_text (value_at ("metadata" ∷ "namespace" ∷ []) pod)
        (value_at ("metadata" ∷ "namespace" ∷ []) claim)

abbrev pub Fit : Value → Value → Value → Type 0
Fit pod service claim =
    (selects service pod ≡ true)
    × (same_text (value_at ("metadata" ∷ "namespace" ∷ []) service)
          (value_at ("metadata" ∷ "namespace" ∷ []) pod)
        ≡ true)
    × (reaches service pod ≡ true)
    × (mounts pod claim ≡ true)

same : (s : String) → str_eq s s ≡ true
same s = (str_eq_iff s s).1 refl

-- The specs of one volume fit together, whatever the configuration: the service has a selector, every
-- label of which the pod has with the same value, it is in the namespace of the pod, and each of its
-- ports leads to a port of the container; and a volume of the pod is the backing claim by its name,
-- in the namespace of both.
pub specs-Fit :
    (env : Env) (volume node pvc_name pvc_namespace size sc : String)
    → Fit
        (share_pod_json env volume node pvc_name pvc_namespace)
        (service_json env volume)
        (backing_pvc_json env volume size sc)
unfolding share_pod_json service_json backing_pvc_json pod_ports
specs-Fit env volume node pvc_name pvc_namespace size sc = (
  rw (same volume) refl,
  rw (same _) refl,
  refl,
  rw (same (backing_pvc_name (volume_name volume)), same _) refl,
)
