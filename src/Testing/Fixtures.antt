-- ===== src/Testing/Fixtures.antt =====
-- The objects of the tests as JSON: the builders of src/testing.rs.
use hcloud_csi_rwx.Prelude.{
  String, Bool, true, Option, none, some, List, [], ◌∷◌, ◌++◌, map, if◌then◌else◌,
}
use hcloud_csi_rwx.Json.{Value, str, bool, array, object}

unfoldable pub node_value : String → Bool → Value
node_value name ready = object (
    ("apiVersion", str "v1")
    ∷ ("kind", str "Node")
    ∷ ("metadata", object (("name", str name) ∷ []))
    ∷ (
      "status",
      object (
          (
            "conditions",
            array (
                object
                  (("type", str "Ready") ∷ ("status", str (if ready then "True" else "False")) ∷ [])
                ∷ []),
          )
          ∷ []),
    )
    ∷ [])

abbrev list_value : String → String → List Value → Value
list_value api_version kind items = object (
    ("apiVersion", str api_version)
    ∷ ("kind", str kind)
    ∷ ("metadata", object (("resourceVersion", str "1") ∷ []))
    ∷ ("items", array items)
    ∷ [])

unfoldable pub node_list : List (String × Bool) → Value
unfolding node_value
node_list nodes = list_value "v1" "NodeList" (map (λ n. node_value n.0 n.1) nodes)

unfoldable pub pod_value : String → String → String → Value
pod_value name node_name phase = object (
    ("apiVersion", str "v1")
    ∷ ("kind", str "Pod")
    ∷ (
      "metadata",
      object (
          ("name", str name)
          ∷ ("namespace", str "hcloud-csi-rwx")
          ∷ ("labels", object (("app", str "hcloud-csi-rwx") ∷ ("rwx-volume", str "vol") ∷ []))
          ∷ []),
    )
    ∷ ("spec", object (("nodeName", str node_name) ∷ []))
    ∷ ("status", object (("phase", str phase) ∷ ("podIP", str "10.255.0.1") ∷ []))
    ∷ [])

unfoldable pub pod_list : List Value → Value
pod_list pods = list_value "v1" "PodList" pods

unfoldable pub empty_list : String → Value
empty_list kind = list_value "v1" kind []

abbrev volume_field : Option String → List (String × Value)
volume_field none = []
volume_field (some v) = ("volumeName", str v) ∷ []

unfoldable pub pvc : String → String → String → List String → Option String → Value
pvc name ns sc modes volume_name = object (
    ("apiVersion", str "v1")
    ∷ ("kind", str "PersistentVolumeClaim")
    ∷ ("metadata", object (("name", str name) ∷ ("namespace", str ns) ∷ []))
    ∷ (
      "spec",
      object (
          (("storageClassName", str sc)
            ∷ ("accessModes", array (map (λ m. str m) modes))
            ∷ ("resources", object (("requests", object (("storage", str "10Gi") ∷ [])) ∷ []))
            ∷ [])
          ++ volume_field volume_name),
    )
    ∷ ("status", object (("phase", str "Bound") ∷ []))
    ∷ [])

unfoldable pub state_cm_value : String → String → Value
state_cm_value name state_json = object (
    ("apiVersion", str "v1")
    ∷ ("kind", str "ConfigMap")
    ∷ ("metadata", object (("name", str name) ∷ ("namespace", str "hcloud-csi-rwx") ∷ []))
    ∷ ("data", object (("state.json", str state_json) ∷ []))
    ∷ [])

unfoldable pub service_value : String → String → Value
service_value name cluster_ip = object (
    ("apiVersion", str "v1")
    ∷ ("kind", str "Service")
    ∷ ("metadata", object (("name", str name) ∷ ("namespace", str "hcloud-csi-rwx") ∷ []))
    ∷ ("spec", object (("clusterIP", str cluster_ip) ∷ ("type", str "ClusterIP") ∷ []))
    ∷ [])

unfoldable pub volume_attachment : String → String → Value
volume_attachment name pv = object (
    ("apiVersion", str "storage.k8s.io/v1")
    ∷ ("kind", str "VolumeAttachment")
    ∷ ("metadata", object (("name", str name) ∷ []))
    ∷ (
      "spec",
      object (
          ("attacher", str "csi.hetzner.cloud")
          ∷ ("nodeName", str "n1")
          ∷ ("source", object (("persistentVolumeName", str pv) ∷ []))
          ∷ []),
    )
    ∷ ("status", object (("attached", bool true) ∷ []))
    ∷ [])

unfoldable pub va_list : List Value → Value
va_list items = list_value "storage.k8s.io/v1" "VolumeAttachmentList" items
