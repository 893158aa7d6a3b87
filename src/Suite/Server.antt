-- ===== src/Suite/Server.antt =====
-- A client of the fake API server: requests as kube writes them, and answers read as serde reads them,
-- with the fields that the program uses.
use Prim.Native.Char.{code}
use hcloud_csi_rwx.Prelude.{
  ℕ, String, ◌==◌, Option, none, some, List, [], ◌∷◌, map, ltb, format, and_then, option_map,
  unwrap_or, filter_map, if◌then◌else◌,
}
use hcloud_csi_rwx.Map.{Map}
use hcloud_csi_rwx.Json.{
  Value, Fields, no_field, field, Items, no_item, item, obj, arr, str, value_at,
}
use hcloud_csi_rwx.Kube.{
  KubeError, api, other, Result, ok, err, Volume, Pod, PodSpec, PodStatus, Condition, Node,
  NodeStatus, PersistentVolumeClaim, ClaimSpec, Service, ServiceSpec, VolumeAttachment, ConfigMap,
  Api, Client,
}
use hcloud_csi_rwx.Kube.Session.{Session}
use hcloud_csi_rwx.Provision.Config.{Env}
use hcloud_csi_rwx.Provision.Nodes.{AnyError, kube, message}
use hcloud_csi_rwx.Testing.{FakeApi, Reply, call}

abbrev as_text : Value → Option String
as_text (str t) = some t
as_text _ = none

abbrev pub text_at : List String → Value → Option String
text_at path v = and_then (value_at path v) as_text

abbrev elements : Items → List Value
elements no_item = []
elements (item v vs) = v ∷ elements vs

abbrev as_list : Value → Option (List Value)
as_list (arr xs) = some (elements xs)
as_list _ = none

abbrev pub list_at : List String → Value → Option (List Value)
list_at path v = and_then (value_at path v) as_list

abbrev keyed : String → Option String → Map String → Map String
keyed k none m = m
keyed k (some t) m = (k, t) ∷ m

abbrev text_fields : Fields → Map String
text_fields no_field = []
text_fields (field k v fs) = keyed k (as_text v) (text_fields fs)

abbrev as_map : Value → Option (Map String)
as_map (obj fs) = some (text_fields fs)
as_map _ = none

abbrev map_at : List String → Value → Option (Map String)
map_at path v = and_then (value_at path v) as_map

abbrev name_of : Value → Option String
name_of = text_at ("metadata" ∷ "name" ∷ [])

abbrev volume_of : Value → Volume
volume_of v = record { claim_name = text_at ("persistentVolumeClaim" ∷ "claimName" ∷ []) v }

abbrev pod_spec_of : Value → PodSpec
pod_spec_of v = record {
  node_name = text_at ("nodeName" ∷ []) v;
  volumes = option_map (map volume_of) (list_at ("volumes" ∷ []) v);
}

abbrev pod_status_of : Value → PodStatus
pod_status_of v = record { phase = text_at ("phase" ∷ []) v; pod_ip = text_at ("podIP" ∷ []) v }

abbrev pub pod_of : Value → Pod
pod_of v = record {
  name = name_of v;
  labels = map_at ("metadata" ∷ "labels" ∷ []) v;
  spec = option_map pod_spec_of (value_at ("spec" ∷ []) v);
  status = option_map pod_status_of (value_at ("status" ∷ []) v);
}

abbrev condition_of : Value → Condition
condition_of v = record {
  type_ = unwrap_or (text_at ("type" ∷ []) v) "";
  status = unwrap_or (text_at ("status" ∷ []) v) "";
}

abbrev node_status_of : Value → NodeStatus
node_status_of v = record {
  conditions = option_map (map condition_of) (list_at ("conditions" ∷ []) v);
}

abbrev node_of : Value → Node
node_of v = record {
  name = name_of v;
  status = option_map node_status_of (value_at ("status" ∷ []) v);
}

abbrev claim_spec_of : Value → ClaimSpec
claim_spec_of v = record {
  storage_class_name = text_at ("storageClassName" ∷ []) v;
  access_modes = option_map (filter_map as_text) (list_at ("accessModes" ∷ []) v);
  volume_name = text_at ("volumeName" ∷ []) v;
}

abbrev pub claim_of : Value → PersistentVolumeClaim
claim_of v = record {
  name = name_of v;
  namespace = text_at ("metadata" ∷ "namespace" ∷ []) v;
  deletion_timestamp = text_at ("metadata" ∷ "deletionTimestamp" ∷ []) v;
  spec = option_map claim_spec_of (value_at ("spec" ∷ []) v);
}

abbrev service_spec_of : Value → ServiceSpec
service_spec_of v = record { cluster_ip = text_at ("clusterIP" ∷ []) v }

abbrev pub service_of : Value → Service
service_of v = record {
  name = name_of v;
  spec = option_map service_spec_of (value_at ("spec" ∷ []) v);
}

abbrev attachment_of : Value → VolumeAttachment
attachment_of v = record {
  name = name_of v;
  persistent_volume_name = text_at ("spec" ∷ "source" ∷ "persistentVolumeName" ∷ []) v;
}

abbrev config_map_of : Value → ConfigMap
config_map_of v = record {
  name = name_of v;
  namespace = text_at ("metadata" ∷ "namespace" ∷ []) v;
  annotations = map_at ("metadata" ∷ "annotations" ∷ []) v;
  entries = map_at ("data" ∷ []) v;
}

abbrev answer : {A : Type 0} → (Value → A) → Reply → Result KubeError A
answer read (status, v) =
    if ltb status 300
    then ok (read v)
    else err (api status (unwrap_or (text_at ("message" ∷ []) v) ""))

abbrev selected : Option String → String
selected none = ""
selected (some selector) = format ("&labelSelector=" ∷ selector ∷ [])

-- Texts of entries one after the other, for the bodies of requests.
abbrev written : Option (Map String) → String
written none = ""
written (some []) = ""
written (some ((k, t) ∷ m)) = format (k ∷ ":" ∷ t ∷ written (some m) ∷ [])

module _ {K : Type 0} (prefix : String) (read : Value → K) (body : K → String) where
  abbrev asked :
      {A : Type 0} → (Value → A) → String → String → String → FakeApi → Result KubeError A × FakeApi
  asked reading method path text f =
      let (r, f') = call (record { method = method; path = path; body = text }) f in
      (answer reading r, f')

  abbrev at_name : String → String
  at_name name = format (prefix ∷ "/" ∷ name ∷ [])

  abbrev rows_of : Value → List K
  rows_of v = map read (unwrap_or (list_at ("items" ∷ []) v) [])

  abbrev routed : Api FakeApi K
  routed = record {
    get = λ name. asked read "GET" (at_name name) "";
    list = λ selector. asked rows_of "GET" (format (prefix ∷ "?" ∷ selected selector ∷ [])) "";
    create = λ k. asked read "POST" (format (prefix ∷ "?" ∷ [])) (body k);
    patch = λ name p.
        asked read "PATCH" (format (at_name name ∷ "?" ∷ []))
          (format (written p.annotations ∷ written p.entries ∷ []));
    delete = λ name. asked (λ v. tt) "DELETE" (format (at_name name ∷ "?" ∷ [])) "";
  }

abbrev within : String → String → String
within ns kind = format ("/api/v1/namespaces/" ∷ ns ∷ "/" ∷ kind ∷ [])

abbrev config_map_text : ConfigMap → String
config_map_text k = format (unwrap_or k.name "" ∷ written k.annotations ∷ written k.entries ∷ [])

abbrev claim_text : PersistentVolumeClaim → String
claim_text k = unwrap_or (and_then k.spec (λ s. s.storage_class_name)) ""

abbrev pub client : Client FakeApi
client = record {
  pods = λ ns. routed (within ns "pods") pod_of (λ k. written k.labels);
  config_maps = λ ns. routed (within ns "configmaps") config_map_of config_map_text;
  claims = λ ns. routed (within ns "persistentvolumeclaims") claim_of claim_text;
  services = λ ns. routed (within ns "services") service_of (λ k. "");
  nodes = routed "/api/v1/nodes" node_of (λ k. "");
  attachments = routed "/apis/storage.k8s.io/v1/volumeattachments" attachment_of (λ k. "");
  sleep = λ secs f. f;
}

abbrev pub on_api : FakeApi → Session FakeApi
on_api f = record { world = f; calls = [] }

abbrev pub api_after : {A : Type 0} → A × Session FakeApi → FakeApi
api_after (a, s) = s.world

-- No variable of the environment is set.
abbrev pub env : Env
env name = none

abbrev pub any_to_string : AnyError → String
any_to_string (kube (api code m)) = m
any_to_string (kube (other m)) = m
any_to_string (message m) = m

-- `canonical_reason` of the codes that the tests use.
abbrev pub reason : ℕ → Option String
reason code =
    if code == 404
    then some "Not Found"
    else if code == 409
    then some "Conflict"
    else if code == 500
    then some "Internal Server Error"
    else none
