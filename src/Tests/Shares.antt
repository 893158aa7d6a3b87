-- ===== src/Tests/Shares.antt =====
-- The controller on a cluster in memory: the share `pvc-1`, which stood on the node `a`, with `b` Ready.
use hcloud_csi_rwx.Prelude.{
  String, ◌≡◌, refl, false, Option, none, some, List, [], ◌∷◌, ◌⊎◌, str_eq, onto, All,
}
use hcloud_csi_rwx.Map.{lookup}
use hcloud_csi_rwx.Kube.{
  Result, ok, err, ConfigMap, Pod, Node, PersistentVolumeClaim, VolumeAttachment,
}
use hcloud_csi_rwx.Kube.Session.{Session, get, list, pods, claims, attachments}
use hcloud_csi_rwx.Provision.Config.{Env, share_namespace}
use hcloud_csi_rwx.Provision.Names.{volume_name, state_cm_name, backing_pvc_name}
use hcloud_csi_rwx.Provision.Nodes.{message, pick_node, occupied_by, suitable}
use hcloud_csi_rwx.Provision.Nodes.Choice.{IsFirst, pick_node_lem}
use hcloud_csi_rwx.Controller.State.{Codec, ShareState, save_state, load_or_create_state}
use hcloud_csi_rwx.Controller.State.Persistence.{StateCodec, load-save}
use hcloud_csi_rwx.Controller.Detach.{force_detach_backing_pvc}
use hcloud_csi_rwx.Controller.Detach.Exact.{detachments, force_detach-exact}
use hcloud_csi_rwx.Controller.Evict.{evict_workload_pods}
use hcloud_csi_rwx.Controller.Evict.Exact.{evictions, evict-exact}
use hcloud_csi_rwx.Tests.Clients.{write_clients, read_clients, read-write_clients}
use hcloud_csi_rwx.Tests.Cluster.{Cluster, cluster, map_store}
use hcloud_csi_rwx.Recovery.Types.{Clients}

abbrev pub env : Env
env = λ name. none

abbrev pub as_clients : ShareState → Clients
as_clients st =
    ("node", elim st.node [ none ↦ [] | some n ↦ n ∷ [] ])
    ∷ ("prior_nodes", st.prior_nodes)
    ∷ ("state", st.state ∷ [])
    ∷ ("volume", st.volume ∷ [])
    ∷ []

abbrev pub of_clients : Clients → Result String ShareState
of_clients ((_, []) ∷ (_, prior) ∷ (_, state ∷ []) ∷ (_, volume ∷ []) ∷ []) =
    ok (record { volume = volume; node = none; prior_nodes = prior; state = state })
of_clients ((_, n ∷ []) ∷ (_, prior) ∷ (_, state ∷ []) ∷ (_, volume ∷ []) ∷ []) =
    ok (record { volume = volume; node = some n; prior_nodes = prior; state = state })
of_clients _ = err "missing field"

abbrev pub decoded : Result String Clients → Result String ShareState
decoded (ok m) = of_clients m
decoded (err e) = err e

abbrev pub pod_of : Option String → Pod
pod_of name = record { name = name; labels = none; spec = none; status = none }

abbrev pub codec : Codec
codec = record {
  state_from_str = λ t. decoded (read_clients t);
  state_to_string = λ st. ok (write_clients (as_clients st));
  pod_from_value = λ v. ok (pod_of (some "share-manager-pvc-1"));
  service_from_value = λ v. ok (record { name = some "pvc-1"; spec = none });
  to_string = λ e. "error";
}

pub of-as_fields :
    (volume state : String) (prior : List String) (host : Option String)
    → of_clients
        (as_clients (record { volume = volume; node = host; prior_nodes = prior; state = state }))
      ≡ ok (record { volume = volume; node = host; prior_nodes = prior; state = state })
of-as_fields volume state prior none = refl
of-as_fields volume state prior (some n) = refl

pub of-as_clients : (st : ShareState) → of_clients (as_clients st) ≡ ok st
of-as_clients st = of-as_fields st.volume st.state st.prior_nodes st.node

abbrev pub law : StateCodec codec
law = record {
  text = λ st. write_clients (as_clients st);
  write = λ st. refl;
  read = λ st. rw (read-write_clients (as_clients st)) (of-as_clients st);
}

abbrev pub node_of : String → Node
node_of name = record {
  name = some name;
  status = some (record { conditions = some (record { type_ = "Ready"; status = "True" } ∷ []) });
}

abbrev pub volume_claim : PersistentVolumeClaim
volume_claim = record {
  name = some "pvc-1-backing";
  namespace = some "hcloud-csi-rwx";
  deletion_timestamp = none;
  spec =
      some (record { storage_class_name = none; access_modes = none; volume_name = some "pv-7" });
}

abbrev pub attachment_of : String → VolumeAttachment
attachment_of name = record { name = some name; persistent_volume_name = some "pv-7" }

abbrev pub workload : Pod
workload = record {
  name = some "web-0";
  labels = none;
  spec =
      some (record {
        node_name = some "a";
        volumes = some (record { claim_name = some "data" } ∷ []);
      });
  status = none;
}

abbrev pub st : ShareState
st = record { volume = "pvc-1"; node = some "a"; prior_nodes = []; state = "running" }

abbrev pub marked : ShareState
marked = record st { state = "failing_over" }

abbrev pub state_map : ConfigMap
state_map = record {
  name = some "state-pvc-1";
  namespace = some "hcloud-csi-rwx";
  annotations = none;
  entries = some (("state.json", write_clients (as_clients st)) ∷ []);
}

abbrev pub session : Session Cluster
session = record {
  world = record {
    pods = ("web-0", workload) ∷ [];
    config_maps = ("state-pvc-1", state_map) ∷ [];
    claims = ("pvc-1-backing", volume_claim) ∷ [];
    services = [];
    nodes = ("a", node_of "a") ∷ ("b", node_of "b") ∷ [];
    attachments = ("csi-1", attachment_of "csi-1") ∷ [];
  };
  calls = [];
}

pub stored : map_store.find session.world (state_cm_name (volume_name "pvc-1")) ≡ some state_map
unfolding lookup state_cm_name volume_name
stored = refl

elsewhere : str_eq "state-pvc-2" (state_cm_name (volume_name "pvc-1")) ≡ false
unfolding state_cm_name volume_name
elsewhere = refl

load-save_example :
    ((save_state cluster env codec marked session).0 ≡ ok tt)
    × ((load_or_create_state cluster env codec "pvc-1"
          (save_state cluster env codec marked session).1).0
        ≡ ok marked)
    × (map_store.find (save_state cluster env codec marked session).1.world "state-pvc-2"
        ≡ map_store.find session.world "state-pvc-2")
load-save_example =
    load-save cluster env codec law map_store marked state_map "state-pvc-2" session stored
      elsewhere

claim_found :
    ((cluster.claims (share_namespace env)).get (backing_pvc_name "pvc-1") session.world).0
    ≡ ok volume_claim
unfolding lookup backing_pvc_name
claim_found = refl

force_detach-exact_example :
    ((force_detach_backing_pvc cluster env "pvc-1" session).0 ≡ ok tt)
    × ((force_detach_backing_pvc cluster env "pvc-1" session).1.calls
        ≡ onto
            (get (claims (share_namespace env)) (backing_pvc_name "pvc-1")
              ∷ list attachments
              ∷ detachments "pv-7" (attachment_of "csi-1" ∷ []))
            [])
force_detach-exact_example =
    force_detach-exact cluster env "pvc-1" session volume_claim "pv-7" (attachment_of "csi-1" ∷ [])
      claim_found refl refl

evict-exact_example :
    ((evict_workload_pods cluster "data" "default" session).0 ≡ ok tt)
    × ((evict_workload_pods cluster "data" "default" session).1.calls
        ≡ onto (list (pods "default") ∷ evictions "data" "default" (workload ∷ [])) [])
evict-exact_example = evict-exact cluster "data" "default" (workload ∷ []) session refl refl

pick_node_lem_example :
    ((name : String) × ((pick_node cluster env ("a" ∷ []) session).0 ≡ ok name)
      × IsFirst ("a" ∷ []) (occupied_by (workload ∷ [])) (node_of "a" ∷ node_of "b" ∷ []) name)
    ⊎ (((pick_node cluster env ("a" ∷ []) session).0 ≡ err (message "no suitable node found"))
        × All
            (λ n. suitable ("a" ∷ []) (occupied_by (workload ∷ [])) n ≡ false)
            (node_of "a" ∷ node_of "b" ∷ []))
pick_node_lem_example =
    pick_node_lem cluster env ("a" ∷ []) session (workload ∷ []) (node_of "a" ∷ node_of "b" ∷ [])
      refl refl
