-- ===== src/Provision/Specs/Schema.antt =====
-- The types of the fields of the objects of a volume: what the Kubernetes API documents for those that
-- the specs give, and no other field.
use hcloud_csi_rwx.Prelude.Int.{ℤ, pos, negsuc}
use hcloud_csi_rwx.Prelude.{
  leb, Bool-cases, String, ◌≡◌, refl, Bool, true, false, Option, none, some, ◌&&◌, ◌||◌, str_eq,
  Option-cases, inl, inr, not, option_filter, is_empty,
}
use hcloud_csi_rwx.Json.{
  Value, obj, arr, str, num, bool, Fields, no_field, field, Items, no_item, item, find_field,
}
use hcloud_csi_rwx.Provision.Config.{Env}
use hcloud_csi_rwx.Provision.Specs.{
  backing_pvc_json, service_json, share_pod_json, pod_env, pod_ports, pod_annotations, metrics_port,
}

mutual
  pub data Schema : Type 0 where
    text port flag : Schema
    list : Schema → Schema
    map_of : Schema → Schema
    struct : Members → Schema

  -- The fields of an object, each of them required or optional.
  pub data Members : Type 0 where
    no_other : Members
    required : String → Schema → Members → Members
    optional : String → Schema → Members → Members

abbrev every_item : (Value → Bool) → Items → Bool
every_item p no_item = true
every_item p (item v vs) = p v && every_item p vs

abbrev every_field : (String → Value → Bool) → Fields → Bool
every_field p no_field = true
every_field p (field k v fs) = p k v && every_field p fs

abbrev is_member : Members → String → Bool
is_member no_other k = false
is_member (required j σ ms) k = str_eq j k || is_member ms k
is_member (optional j σ ms) k = str_eq j k || is_member ms k

abbrev given : Bool → (Value → Bool) → Option Value → Bool
given absent p none = absent
given absent p (some v) = p v

abbrev is_text : Value → Bool
is_text (str s) = true
is_text _ = false

-- A port: the API takes 1 to 65535.
abbrev is_port : ℤ → Bool
is_port (pos n) = leb 1 n && leb n 65535
is_port (negsuc n) = false

abbrev is_port_number : Value → Bool
is_port_number (num n) = is_port n
is_port_number _ = false

abbrev pub port_fits : Option ℤ → Bool
port_fits none = true
port_fits (some n) = is_port n

abbrev is_flag : Value → Bool
is_flag (bool b) = true
is_flag _ = false

abbrev items_are : (Value → Bool) → Value → Bool
items_are p (arr xs) = every_item p xs
items_are p _ = false

abbrev fields_are : (Fields → Bool) → Value → Bool
fields_are p (obj fs) = p fs
fields_are p _ = false

unfoldable mutual
  -- Whether a value is of a schema: the required fields are there, those that are there have their
  -- types, and there are no others.
  pub conforms : Schema → Value → Bool
  conforms text v = is_text v
  conforms port v = is_port_number v
  conforms flag v = is_flag v
  conforms (list σ) v = items_are (conforms σ) v
  conforms (map_of σ) v = fields_are (every_field (λ k. conforms σ)) v
  conforms (struct ms) v =
      fields_are (λ fs. has_members ms fs && every_field (λ k v. is_member ms k) fs) v

  pub has_members : Members → Fields → Bool
  has_members no_other fs = true
  has_members (required k σ ms) fs = given false (conforms σ) (find_field k fs) && has_members ms fs
  has_members (optional k σ ms) fs = given true (conforms σ) (find_field k fs) && has_members ms fs

abbrev meta_schema : Schema
meta_schema = struct (
    required "name" text (
      required "namespace" text
        (optional "labels" (map_of text) (optional "annotations" (map_of text) no_other))))

abbrev object_schema : Schema → Schema
object_schema spec = struct (
    required "apiVersion" text
      (required "kind" text (required "metadata" meta_schema (required "spec" spec no_other))))

abbrev pub claim_schema : Schema
claim_schema = object_schema (
    struct (
      required "accessModes" (list text) (
        optional "storageClassName" text (
          optional "volumeMode" text (
            required "resources" (struct (required "requests" (map_of text) no_other)) no_other)))))

abbrev service_port_schema : Schema
service_port_schema =
    struct (required "port" port (optional "name" text (optional "targetPort" port no_other)))

abbrev pub service_schema : Schema
service_schema = object_schema (
    struct (
      optional "type" text
        (required "selector" (map_of text) (required "ports" (list service_port_schema) no_other))))

-- An entry of an environment: its value is a text, never a number.
abbrev env_schema : Schema
env_schema = struct (
    required "name" text (
      optional "value" text (
        optional "valueFrom"
          (struct (
            optional "fieldRef" (struct (required "fieldPath" text no_other)) (
              optional "secretKeyRef"
                (struct
                  (required "name" text (required "key" text (optional "optional" flag no_other))))
                no_other)))
          no_other)))

abbrev container_schema : Schema
container_schema = struct (
    required "name" text (
      required "image" text (
        optional "imagePullPolicy" text (
          optional "securityContext" (struct (optional "privileged" flag no_other)) (
            optional "args" (list text) (
              optional "env" (list env_schema) (
                optional "ports"
                  (list (struct (required "containerPort" port (optional "name" text no_other))))
                  (optional "volumeMounts"
                    (list (
                      struct (
                        required "name" text
                          (required "mountPath" text (optional "mountPropagation" text no_other)))))
                    no_other))))))))

abbrev pub pod_schema : Schema
pod_schema = object_schema (
    struct (
      optional "hostNetwork" flag (
        optional "dnsPolicy" text (
          optional "nodeSelector" (map_of text) (
            optional "restartPolicy" text (
              required "containers" (list container_schema) (
                optional "volumes"
                  (list (
                    struct (
                      required "name" text (
                        optional "persistentVolumeClaim"
                          (struct (required "claimName" text no_other)) no_other))))
                  no_other)))))))

abbrev backend_url : Env → Option String
backend_url env = option_filter (λ url. not (is_empty url)) (env "HCLOUD_RECOVERY_BACKEND_URL")

module _ (env : Env) (volume : String) where
  backing_pvc_json-conforms :
      (size backing_sc : String)
      → conforms claim_schema (backing_pvc_json env volume size backing_sc) ≡ true
  unfolding conforms backing_pvc_json
  backing_pvc_json-conforms size backing_sc = refl

  service_json-conforms : conforms service_schema (service_json env volume) ≡ true
  unfolding conforms service_json
  service_json-conforms = refl

  share_pod_json-conforms :
      (node pvc_name pvc_namespace : String)
      → conforms pod_schema (share_pod_json env volume node pvc_name pvc_namespace)
        ≡ port_fits (metrics_port env)
  unfolding conforms share_pod_json pod_env pod_ports pod_annotations
  share_pod_json-conforms node pvc_name pvc_namespace = elim (Option-cases (metrics_port env)) [
    | inl m ↦ elim (Option-cases (backend_url env)) [
      | inl u ↦ rw (m, u, pod_env, pod_ports, pod_annotations) refl
      | inr (url, u) ↦ rw (m, u, pod_env, pod_ports, pod_annotations) refl
    ]
    | inr (p, m) ↦ elim (Option-cases (backend_url env)) [
      | inl u ↦ elim (Bool-cases (is_port p)) [
        | inl f ↦ rw (m, u, pod_env, pod_ports, pod_annotations, f) refl
        | inr f ↦ rw (m, u, pod_env, pod_ports, pod_annotations, f) refl
      ]
      | inr (url, u) ↦ elim (Bool-cases (is_port p)) [
        | inl f ↦ rw (m, u, pod_env, pod_ports, pod_annotations, f) refl
        | inr f ↦ rw (m, u, pod_env, pod_ports, pod_annotations, f) refl
      ]
    ]
  ]

  -- Whatever the environment, the volume, the node and the claim: the spec of the backing claim and
  -- of the service are objects of the Kubernetes API's types, with every required field, every value
  -- of its field's type (a text, a flag, or a port from 1 to 65535) and no field that is not
  -- documented. So is the spec of the pod if and only if the metrics port that `MONITORING_PORT`
  -- gives, where it gives one, is from 1 to 65535.
  pub specs-conform :
      (size backing_sc node pvc_name pvc_namespace : String)
      → (conforms claim_schema (backing_pvc_json env volume size backing_sc) ≡ true)
        × (conforms service_schema (service_json env volume) ≡ true)
        × (conforms pod_schema (share_pod_json env volume node pvc_name pvc_namespace)
            ≡ port_fits (metrics_port env))
  specs-conform size backing_sc node pvc_name pvc_namespace = (
    backing_pvc_json-conforms size backing_sc,
    service_json-conforms,
    share_pod_json-conforms node pvc_name pvc_namespace,
  )
