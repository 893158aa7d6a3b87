-- ===== src/Tests/Calm.antt =====
-- A round of the controller on a cluster in memory where nothing is in the way: the share `pvc-1` has no
-- pod, and its volume is attached nowhere.
use hcloud_csi_rwx.Prelude.{String, ◌≡◌, refl, none, some, Option, [], ◌∷◌}
use hcloud_csi_rwx.Map.{lookup}
use hcloud_csi_rwx.Kube.{ConfigMap, ok, Service, Pod}
use hcloud_csi_rwx.Kube.Session.{Session}
use hcloud_csi_rwx.Kube.Store.{merge}
use hcloud_csi_rwx.Provision.Config.{share_namespace}
use hcloud_csi_rwx.Provision.Names.{volume_name, state_cm_name, share_pod_name, backing_pvc_name}
use hcloud_csi_rwx.Provision.Nodes.{choose, occupied_by, suitable, ready}
use hcloud_csi_rwx.Controller.State.{state_of}
use hcloud_csi_rwx.Controller.Reconcile.{reconcile_bound, retire_node}
use hcloud_csi_rwx.Controller.Reconcile.Healthy.{Healthy}
use hcloud_csi_rwx.Controller.Reconcile.Progress.{Creates, reconcile_bound-Creates}
use hcloud_csi_rwx.Tests.Clients.{read_clients}
use hcloud_csi_rwx.Tests.Cluster.{Cluster, cluster, map_store, pod_table, deleted}
use hcloud_csi_rwx.Tests.Shares.{env, codec, state_map, volume_claim, node_of, pod_of}

abbrev entry : Service
entry = record { name = some "pvc-1"; spec = none }

-- The ConfigMap of the share is there, with whatever content, and the rest stands as it is.
abbrev IsCalm : Cluster → Type 0
IsCalm w =
    (w.pods ≡ [])
    × (w.claims ≡ ("pvc-1-backing", volume_claim) ∷ [])
    × (w.services ≡ ("pvc-1", entry) ∷ [])
    × (w.nodes ≡ ("a", node_of "a") ∷ ("b", node_of "b") ∷ [])
    × (w.attachments ≡ [])
    × ((cm : ConfigMap) × (lookup "state-pvc-1" w.config_maps ≡ some cm))

deleted-IsCalm :
    (n : String) (w : Cluster) (old : Option Pod)
    → old ≡ none
    → IsCalm w
    → IsCalm (deleted pod_table n w old).1
deleted-IsCalm n w none e h = h
deleted-IsCalm n w (some pod) e h = cc e

calm : Healthy cluster env "pvc-1" "pvc-1" "default" IsCalm
unfolding lookup volume_name state_cm_name share_pod_name backing_pvc_name
calm = record {
  claim = volume_claim;
  service = entry;
  pods = [];
  nodes = node_of "a" ∷ node_of "b" ∷ [];
  gone = "share-manager-pvc-1";
  keeps_state = λ n w h. h;
  saves = λ p w h.
      let (pods, claims, services, nodes, attachments, (cm, there)) = h in
      let (done, after) = map_store.patch_found w "state-pvc-1" p cm there in
      (
        merge p cm,
        done,
        rw there (
          pods,
          claims,
          services,
          nodes,
          attachments,
          (merge p cm, rw there at (after "state-pvc-1")),
        ),
      );
  reads_service = λ w h. (rw h.2 refl, h);
  no_pod = λ w h. (rw h.0 refl, h);
  reads_claim = λ w h. (rw h.1 refl, h);
  lists_attachments = λ w h. ([], rw h.4 refl, h, λ pv e. refl);
  lists_pods = λ w h. (rw h.0 refl, h);
  lists_nodes = λ w h. (rw h.3 refl, h);
  lists_workload = λ w h. ([], rw h.0 refl, h);
  evicts = λ n w h. deleted-IsCalm n w (lookup n w.pods) (rw h.0 refl) h;
  creates = λ pod w h. rw h.0 refl;
}

abbrev start : Session Cluster
start = record {
  world = record {
    pods = [];
    config_maps = ("state-pvc-1", state_map) ∷ [];
    claims = ("pvc-1-backing", volume_claim) ∷ [];
    services = ("pvc-1", entry) ∷ [];
    nodes = ("a", node_of "a") ∷ ("b", node_of "b") ∷ [];
    attachments = [];
  };
  calls = [];
}

start-IsCalm : IsCalm start.world
unfolding lookup
start-IsCalm = (refl, refl, refl, refl, refl, (state_map, refl))

there :
    ((cluster.config_maps (share_namespace env)).get
      (state_cm_name (volume_name "pvc-1"))
      start.world).0
    ≡ ok state_map
unfolding lookup volume_name state_cm_name
there = refl

named : (state_of codec "pvc-1" state_map).volume ≡ "pvc-1"
unfolding state_of lookup read_clients
named = refl

chosen :
    choose
      (retire_node (state_of codec "pvc-1" state_map)).prior_nodes
      (occupied_by [])
      (node_of "a" ∷ node_of "b" ∷ [])
    ≡ some "b"
unfolding state_of lookup read_clients retire_node choose occupied_by suitable ready
chosen = refl

reconcile_bound-Creates_example :
    Creates cluster env codec "pvc-1" "pvc-1" "default" IsCalm calm "data"
      (pod_of (some "share-manager-pvc-1"))
      (reconcile_bound cluster env codec "pvc-1" "data" "default" start)
unfolding calm
reconcile_bound-Creates_example =
    reconcile_bound-Creates cluster env codec "pvc-1" "pvc-1" "default" IsCalm calm "data" state_map
      "b" (pod_of (some "share-manager-pvc-1")) start start-IsCalm there named chosen refl
