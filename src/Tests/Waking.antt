-- ===== src/Tests/Waking.antt =====
-- A pod with the labels of its spec.
use hcloud_csi_rwx.Prelude.{
  ◌≡◌, refl, true, none, some, [], ◌∷◌, ◌||◌, is_empty, if◌then◌else◌, Bool-cases, inl, inr, str_eq,
  String, arith, str_eq_iff,
}
use hcloud_csi_rwx.Map.{lookup}
use hcloud_csi_rwx.Kube.{Pod}
use hcloud_csi_rwx.Provision.Config.{Env}
use hcloud_csi_rwx.Provision.Specs.{share_pod_json}
use hcloud_csi_rwx.Controller.Watch.{HasLabels, pod_mapper, is_watched, pod_mapper-share_pod_json}

abbrev bare : Env
bare name = none

abbrev labelled : Pod
labelled = record {
  name = some "share-manager-pvc-1";
  labels = some (
      ("app", "hcloud-csi-rwx")
      ∷ ("rwx-volume", "pvc-1")
      ∷ ("rwx-pvc-name", "data")
      ∷ ("rwx-pvc-namespace", "default")
      ∷ []);
  spec = none;
  status = none;
}

str_eq_comm : (s t : String) → str_eq s t ≡ str_eq t s
str_eq_comm s t = ground (arith, str_eq_iff s t, str_eq_iff t s)

labelled-HasLabels : HasLabels (share_pod_json bare "pvc-1" "a" "data" "default") labelled
unfolding share_pod_json lookup
labelled-HasLabels key =
    rw
      (
        str_eq_comm "app" key,
        str_eq_comm "rwx-volume" key,
        str_eq_comm "rwx-pvc-name" key,
        str_eq_comm "rwx-pvc-namespace" key,
      )
      (elim (Bool-cases (str_eq key "app")) [
        | inl e ↦ rw e refl
        | inr a ↦ elim (Bool-cases (str_eq key "rwx-volume")) [
          | inl e ↦ rw (a, e) refl
          | inr b ↦ elim (Bool-cases (str_eq key "rwx-pvc-name")) [
            | inl e ↦ rw (a, b, e) refl
            | inr d ↦ elim (Bool-cases (str_eq key "rwx-pvc-namespace")) [
              | inl e ↦ rw (a, b, d, e) refl
              | inr e ↦ rw (a, b, d, e) refl
            ]
          ]
        ]
      ])

pod_mapper-share_pod_json_example :
    (is_watched labelled ≡ true)
    × (pod_mapper labelled
        ≡ (if is_empty "data" || is_empty "default" then none else some ("data", "default")))
pod_mapper-share_pod_json_example =
    pod_mapper-share_pod_json bare "pvc-1" "a" "data" "default" labelled labelled-HasLabels
