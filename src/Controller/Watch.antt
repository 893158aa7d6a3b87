-- ===== src/Controller/Watch.antt =====
-- Which claim an event of a share-manager's pod wakes: `pod_mapper` of main in src/controller.rs, and the
-- labels that it reads.
use hcloud_csi_rwx.Prelude.{
  false, String, ◌≡◌, refl, Bool, true, Option, none, some, [], ◌∷◌, ◌||◌, ◌&&◌, is_empty, is_some,
  str_eq, unwrap_or, option_map, and_then, if◌then◌else◌,
}
use hcloud_csi_rwx.Map.{lookup}
use hcloud_csi_rwx.Json.{Value, str, value_at}
use hcloud_csi_rwx.Kube.{Pod}
use hcloud_csi_rwx.Provision.Config.{Env, driver_name}
use hcloud_csi_rwx.Provision.Specs.{share_pod_json}

-- The name and the namespace of a claim.
abbrev pub ObjectRef : Type 0
ObjectRef = String × String

abbrev pub label : String → Pod → Option String
label key pod = and_then pod.labels (lookup key)

unfoldable pub pod_mapper : Pod → Option ObjectRef
pod_mapper pod =
    let name = unwrap_or (label "rwx-pvc-name" pod) "" in
    let ns = unwrap_or (label "rwx-pvc-namespace" pod) "" in
    if is_empty name || is_empty ns then none else some (name, ns)

-- The selector `app=hcloud-csi-rwx,rwx-volume` of the watched pods.
unfoldable pub is_watched : Pod → Bool
is_watched pod =
    unwrap_or (option_map (λ app. str_eq app driver_name) (label "app" pod)) false
    && is_some (label "rwx-volume" pod)

-- A pod with the labels of a spec.
abbrev pub HasLabels : Value → Pod → Type 0
HasLabels spec pod =
    (key : String)
    → option_map str (label key pod) ≡ value_at ("metadata" ∷ "labels" ∷ key ∷ []) spec

text_of : (o : Option String) (t : String) → option_map str o ≡ some (str t) → o ≡ some t
text_of none t h = cc h
text_of (some s) t h = cc h

module _ (env : Env) (volume node pvc_name pvc_ns : String) (pod : Pod)
    (labels : HasLabels (share_pod_json env volume node pvc_name pvc_ns) pod) where
  -- The pod that is made for a share, whatever else it has: its events are watched, and they wake the
  -- claim that the pod was made for; they wake none where the name or the namespace of the claim was
  -- not known.
  pub pod_mapper-share_pod_json :
      (is_watched pod ≡ true)
      × (pod_mapper pod
          ≡ (if is_empty pvc_name || is_empty pvc_ns then none else some (pvc_name, pvc_ns)))
  unfolding is_watched pod_mapper share_pod_json
  pod_mapper-share_pod_json =
      let app = text_of (label "app" pod) driver_name (labels "app") in
      let watched = text_of (label "rwx-volume" pod) volume (labels "rwx-volume") in
      let name = text_of (label "rwx-pvc-name" pod) pvc_name (labels "rwx-pvc-name") in
      let ns = text_of (label "rwx-pvc-namespace" pod) pvc_ns (labels "rwx-pvc-namespace") in
      (rw (app, watched) refl, rw (name, ns) refl)
