-- ===== src/Provision/Specs.antt =====
-- The JSON specs of the objects of a volume.
pub mod Fit
pub mod Schema
use hcloud_csi_rwx.Provision.Number.{parse_i64}
use Prim.Native.Char.{code}
use Prim.Native.String as S
use hcloud_csi_rwx.Prelude.{
  ℕ, zero, suc, ◌+◌, ◌-◌, ◌*◌, String, ◌≡◌, refl, Bool, true, false, not, ◌&&◌, Option, none, some,
  List, [], ◌∷◌, ltb, leb, ◌==◌, is_empty, str_eq, option_filter, if◌then◌else◌, and_then,
}
use hcloud_csi_rwx.Prelude.Int.{ℤ, pos, negsuc, i64_min_abs}
use hcloud_csi_rwx.Json.{Value, bool, num, str, array, object, value_at, item_at}
use hcloud_csi_rwx.Provision.Config.{
  Env, driver_name, recovery_token_secret, share_namespace, image, pull_policy, nfs_allowed_clients,
  lease_lifetime, grace_period, export_mode, monitoring_port,
}
use hcloud_csi_rwx.Provision.Names.{volume_name, backing_pvc_name, share_pod_name}

abbrev pair : String → String → Value
pair name value = object (("name", str name) ∷ ("value", str value) ∷ [])

abbrev port : ℤ → String → Value
port number name = object (("containerPort", num number) ∷ ("name", str name) ∷ [])

module _ (env : Env) where
  unfoldable pub backing_pvc_json : String → String → String → Value
  backing_pvc_json volume size backing_sc =
      let vn = volume_name volume in
      object (
        ("apiVersion", str "v1")
        ∷ ("kind", str "PersistentVolumeClaim")
        ∷ (
          "metadata",
          object (
              ("name", str (backing_pvc_name vn))
              ∷ ("namespace", str (share_namespace env))
              ∷ ("labels", object (("app", str driver_name) ∷ ("rwx-volume", str volume) ∷ []))
              ∷ []),
        )
        ∷ (
          "spec",
          object (
              ("accessModes", array (str "ReadWriteOnce" ∷ []))
              ∷ ("storageClassName", str backing_sc)
              ∷ ("volumeMode", str "Filesystem")
              ∷ ("resources", object (("requests", object (("storage", str size) ∷ [])) ∷ []))
              ∷ []),
        )
        ∷ [])

  unfoldable pub service_json : String → Value
  service_json volume =
      let vn = volume_name volume in
      object (
        ("apiVersion", str "v1")
        ∷ ("kind", str "Service")
        ∷ (
          "metadata",
          object (
              ("name", str vn)
              ∷ ("namespace", str (share_namespace env))
              ∷ ("labels", object (("app", str driver_name) ∷ ("rwx-volume", str volume) ∷ []))
              ∷ []),
        )
        ∷ (
          "spec",
          object (
              ("type", str "ClusterIP")
              ∷ ("selector", object (("app", str driver_name) ∷ ("rwx-volume", str volume) ∷ []))
              ∷ (
                "ports",
                array (
                    object (
                      ("port", num (pos 2049))
                      ∷ ("name", str "nfs")
                      ∷ ("targetPort", num (pos 2049))
                      ∷ [])
                    ∷ object (
                        ("port", num (pos 9500))
                        ∷ ("name", str "api")
                        ∷ ("targetPort", num (pos 9500))
                        ∷ [])
                    ∷ []),
              )
              ∷ []),
        )
        ∷ [])

  abbrev recovery_url : List Value
  recovery_url =
      elim (option_filter (λ url. not (is_empty url)) (env "HCLOUD_RECOVERY_BACKEND_URL")) [
        | none ↦ []
        | some url ↦ pair "HCLOUD_RECOVERY_BACKEND_URL" url ∷ []
      ]

  -- `env` of `share_pod_json`
  unfoldable pub pod_env : List Value
  pod_env =
      object (
        ("name", str "NFS_SVC_IP")
        ∷ ("valueFrom", object (("fieldRef", object (("fieldPath", str "status.podIP") ∷ [])) ∷ []))
        ∷ [])
      ∷ pair "LEASE_LIFETIME" (lease_lifetime env)
      ∷ pair "GRACE_PERIOD" (grace_period env)
      ∷ pair "NFS_ALLOWED_CLIENTS" (nfs_allowed_clients env)
      ∷ pair "EXPORT_MODE" (export_mode env)
      ∷ pair "MONITORING_PORT" (monitoring_port env)
      ∷ object (
          ("name", str "RECOVERY_BACKEND_TOKEN")
          ∷ (
            "valueFrom",
            object (
                (
                  "secretKeyRef",
                  object (
                      ("name", str recovery_token_secret)
                      ∷ ("key", str "token")
                      ∷ ("optional", bool true)
                      ∷ []),
                )
                ∷ []),
          )
          ∷ [])
      ∷ recovery_url

  -- The metrics port, where `MONITORING_PORT` is a number and not the text `0`.
  unfoldable pub metrics_port : Option ℤ
  metrics_port =
      if not (str_eq (monitoring_port env) "0") then parse_i64 (monitoring_port env) else none

  unfoldable pub pod_ports : List Value
  pod_ports =
      port (pos 9500) "api"
      ∷ port (pos 2049) "nfs"
      ∷ elim metrics_port [ none ↦ [] | some p ↦ port p "metrics" ∷ [] ]

  unfoldable pub pod_annotations : List (String × Value)
  pod_annotations = elim metrics_port [
    | none ↦ []
    | some p ↦
        ("prometheus.io/scrape", str "true")
        ∷ ("prometheus.io/port", str (monitoring_port env))
        ∷ ("prometheus.io/path", str "/metrics")
        ∷ []
  ]

  unfoldable pub share_pod_json : String → String → String → String → Value
  share_pod_json volume node pvc_name pvc_namespace =
      let vn = volume_name volume in
      object (
        ("apiVersion", str "v1")
        ∷ ("kind", str "Pod")
        ∷ (
          "metadata",
          object (
              ("name", str (share_pod_name vn))
              ∷ ("namespace", str (share_namespace env))
              ∷ ("annotations", object pod_annotations)
              ∷ (
                "labels",
                object (
                    ("app", str driver_name)
                    ∷ ("rwx-volume", str volume)
                    ∷ ("rwx-pvc-name", str pvc_name)
                    ∷ ("rwx-pvc-namespace", str pvc_namespace)
                    ∷ []),
              )
              ∷ []),
        )
        ∷ (
          "spec",
          object (
              ("hostNetwork", bool true)
              ∷ ("dnsPolicy", str "ClusterFirstWithHostNet")
              ∷ ("nodeSelector", object (("kubernetes.io/hostname", str node) ∷ []))
              ∷ ("restartPolicy", str "Never")
              ∷ (
                "containers",
                array (
                    object (
                      ("name", str "share-manager")
                      ∷ ("image", str (image env))
                      ∷ ("imagePullPolicy", str (pull_policy env))
                      ∷ ("securityContext", object (("privileged", bool true) ∷ []))
                      ∷ (
                        "args",
                        array (
                            str "run"
                            ∷ str "--device"
                            ∷ str "/export"
                            ∷ str "--volume"
                            ∷ str volume
                            ∷ str "--mount-point"
                            ∷ str "/export"
                            ∷ str "--api-listen"
                            ∷ str "0.0.0.0:9500"
                            ∷ str "--skip-mount"
                            ∷ []),
                      )
                      ∷ ("env", array pod_env)
                      ∷ ("ports", array pod_ports)
                      ∷ (
                        "volumeMounts",
                        array (
                            object (
                              ("name", str "block-dev")
                              ∷ ("mountPath", str "/export")
                              ∷ ("mountPropagation", str "Bidirectional")
                              ∷ [])
                            ∷ []),
                      )
                      ∷ [])
                    ∷ []),
              )
              ∷ (
                "volumes",
                array (
                    object (
                      ("name", str "block-dev")
                      ∷ (
                        "persistentVolumeClaim",
                        object (("claimName", str (backing_pvc_name vn)) ∷ []),
                      )
                      ∷ [])
                    ∷ []),
              )
              ∷ []),
        )
        ∷ [])
