-- ===== src/Tests/Cluster.antt =====
-- A cluster in memory that answers every request, in the place of the API server.
use hcloud_csi_rwx.Kube.Keeps.{Quiet}
use hcloud_csi_rwx.Controller.Reconcile.Requests.{Quiets}
use hcloud_csi_rwx.Prelude.{
  ◌∙◌, [], String, ◌≡◌, ◌⊎◌, inl, inr, ap, arith, str_eq, str_eq_iff, Bool-cases, refl, Option,
  none, some, unwrap_or, map,
}
use hcloud_csi_rwx.Map.{Map, lookup, insert, remove, lookup-insert}
use hcloud_csi_rwx.Kube.{
  KubeError, api, Result, ok, err, Pod, Node, PersistentVolumeClaim, Service, VolumeAttachment,
  ConfigMap, MergePatch, Api, Client,
}
use hcloud_csi_rwx.Controller.Reconcile.Stored.{Leaves, Server}
use hcloud_csi_rwx.Provision.Config.{Env}
use hcloud_csi_rwx.Kube.Store.{Store, merge}

pub record Cluster : Type 0 where
  pub pods : Map Pod
  pub config_maps : Map ConfigMap
  pub claims : Map PersistentVolumeClaim
  pub services : Map Service
  pub nodes : Map Node
  pub attachments : Map VolumeAttachment

-- Where the objects of a kind stand in the world, and how they are named and patched.
pub record Table (W K : Type 0) : Type 0 where
  pub rows : W → Map K
  pub store : Map K → W → W
  pub name : K → Option String
  pub patched : MergePatch → K → K

module _ {W K : Type 0} (t : Table W K) where
  abbrev got : String → Option K → Result KubeError K
  got n none = err (api 404 n)
  got n (some k) = ok k

  abbrev pub created : String → K → W → Option K → Result KubeError K × W
  created n k w none = (ok k, t.store (insert n k (t.rows w)) w)
  created n k w (some old) = (err (api 409 n), w)

  abbrev pub patched : String → MergePatch → W → Option K → Result KubeError K × W
  patched n p w none = (err (api 404 n), w)
  patched n p w (some k) = (ok (t.patched p k), t.store (insert n (t.patched p k) (t.rows w)) w)

  abbrev pub deleted : String → W → Option K → Result KubeError (Unit {0}) × W
  deleted n w none = (err (api 404 n), w)
  deleted n w (some k) = (ok tt, t.store (remove n (t.rows w)) w)

  abbrev pub table_api : Api W K
  table_api = record {
    get = λ n w. (got n (lookup n (t.rows w)), w);
    list = λ selector w. (ok (map (λ e. e.1) (t.rows w)), w);
    create =
        λ k w. created (unwrap_or (t.name k) "") k w (lookup (unwrap_or (t.name k) "") (t.rows w));
    patch = λ n p w. patched n p w (lookup n (t.rows w));
    delete = λ n w. deleted n w (lookup n (t.rows w));
  }

abbrev pub map_table : Table Cluster ConfigMap
map_table = record {
  rows = λ w. w.config_maps;
  store = λ m w. record w { config_maps = m };
  name = λ k. k.name;
  patched = merge;
}

abbrev pub pod_table : Table Cluster Pod
pod_table = record {
  rows = λ w. w.pods;
  store = λ m w. record w { pods = m };
  name = λ k. k.name;
  patched = λ p k. k;
}

abbrev pub claim_table : Table Cluster PersistentVolumeClaim
claim_table = record {
  rows = λ w. w.claims;
  store = λ m w. record w { claims = m };
  name = λ k. k.name;
  patched = λ p k. k;
}

abbrev pub service_table : Table Cluster Service
service_table = record {
  rows = λ w. w.services;
  store = λ m w. record w { services = m };
  name = λ k. k.name;
  patched = λ p k. k;
}

abbrev pub node_table : Table Cluster Node
node_table = record {
  rows = λ w. w.nodes;
  store = λ m w. record w { nodes = m };
  name = λ k. k.name;
  patched = λ p k. k;
}

abbrev pub attachment_table : Table Cluster VolumeAttachment
attachment_table = record {
  rows = λ w. w.attachments;
  store = λ m w. record w { attachments = m };
  name = λ k. k.name;
  patched = λ p k. k;
}

abbrev pub cluster : Client Cluster
cluster = record {
  pods = λ ns. table_api pod_table;
  config_maps = λ ns. table_api map_table;
  claims = λ ns. table_api claim_table;
  services = λ ns. table_api service_table;
  nodes = table_api node_table;
  attachments = table_api attachment_table;
  sleep = λ n w. w;
}

abbrev pub map_store : Store (table_api map_table)
map_store = record {
  find = λ w n. lookup n w.config_maps;
  gone = λ n. n;
  taken = λ n. n;
  get_found = λ w n cm h. rw h refl;
  get_gone = λ w n h. rw h refl;
  create_new = λ w n cm e h.
      rw (e, h) (refl, λ m. lookup-insert m n (record cm { name = some n }) w.config_maps);
  create_taken = λ w n cm old e h. rw (e, h) refl;
  patch_found = λ w n p cm h. rw h (refl, λ m. lookup-insert m n (merge p cm) w.config_maps);
}

abbrev pub empty_cluster : Cluster
empty_cluster = record {
  pods = [];
  config_maps = [];
  claims = [];
  services = [];
  nodes = [];
  attachments = [];
}

abbrev find : Cluster → String → Option ConfigMap
find w n = lookup n w.config_maps

-- Tables whose rows are not the ConfigMaps.
module _ {K : Type 0} (t : Table Cluster K)
    (apart : (m : Map K) (w : Cluster) → (t.store m w).config_maps ≡ w.config_maps) where
  pub created-apart :
      (n : String) (o : K) (w : Cluster) (old : Option K)
      → (created t n o w old).1.config_maps ≡ w.config_maps
  created-apart n o w none = apart _ w
  created-apart n o w (some k) = refl

  pub deleted-apart :
      (n : String) (w : Cluster) (old : Option K)
      → (deleted t n w old).1.config_maps ≡ w.config_maps
  deleted-apart n w none = refl
  deleted-apart n w (some k) = apart _ w

  abbrev leaves : Leaves find (table_api t)
  leaves = record {
    get = λ n w m. refl;
    list = λ l w m. refl;
    create = λ o w m. ap (lookup m) (created-apart _ o w _);
    delete = λ n w m. ap (lookup m) (deleted-apart n w _);
  }

pub found :
    (n : String) (cm : ConfigMap) (o : Option ConfigMap) → got map_table n o ≡ ok cm → o ≡ some cm
found n cm none h = cc h
found n cm (some k) h = cc h

pub created_map :
    (cm : ConfigMap) (w : Cluster) (key n m : String) (old : Option ConfigMap)
    → key ≡ n
    → let after = find (created map_table key cm w old).1 m in
      (after ≡ find w m) ⊎ ((m ≡ n) × (after ≡ some cm))
created_map cm w key n m (some k) same = inl refl
created_map cm w key n m none same = elim (Bool-cases (str_eq m key)) [
  | inl e ↦
      inr (
        ground (arith, str_eq_iff m key, e, same),
        rw (lookup-insert m key cm w.config_maps, e) refl,
      )
  | inr e ↦ inl (rw (lookup-insert m key cm w.config_maps, e) refl)
]

pub patched_map :
    (n : String) (p : MergePatch) (w : Cluster) (m : String) (old : Option ConfigMap)
    → let after = find (patched map_table n p w old).1 m in
      (after ≡ find w m) ⊎ ((m ≡ n) × ((k : ConfigMap) × (after ≡ some (merge p k))))
patched_map n p w m none = inl refl
patched_map n p w m (some k) = elim (Bool-cases (str_eq m n)) [
  | inl e ↦ inr (
    ground (arith, str_eq_iff m n, e),
    (k, rw (lookup-insert m n (merge p k) w.config_maps, e) refl),
  )
  | inr e ↦ inl (rw (lookup-insert m n (merge p k) w.config_maps, e) refl)
]

abbrev pub map_server : (env : Env) → Server cluster env
map_server env = record {
  find = find;
  pods = λ ns. leaves pod_table (λ m w. refl);
  claims = λ ns. leaves claim_table (λ m w. refl);
  services = λ ns. leaves service_table (λ m w. refl);
  nodes = leaves node_table (λ m w. refl);
  attachments = leaves attachment_table (λ m w. refl);
  get = λ n w m. refl;
  answered = λ n w cm h. found n cm (lookup n w.config_maps) h;
  create = λ n cm w m e.
      created_map cm w (unwrap_or cm.name "") n m (lookup (unwrap_or cm.name "") w.config_maps)
        (ap (λ o. unwrap_or o "") e);
  patch = λ n p w m. patched_map n p w m (lookup n w.config_maps);
}

leaves-Quiet :
    {K : Type 0} (a : Api Cluster K)
    → Leaves find a
    → (n : String) (cm : ConfigMap) → Quiet (λ w. find w n ≡ some cm) a
leaves-Quiet a l n cm = record {
  get = λ m w h. l.get m w n ∙ h;
  list = λ o w h. l.list o w n ∙ h;
  create = λ o w h. l.create o w n ∙ h;
  delete = λ m w h. l.delete m w n ∙ h;
}

-- Requests for other objects leave the ConfigMaps alone.
pub others : (n : String) (cm : ConfigMap) → Quiets cluster (λ w. map_store.find w n ≡ some cm)
others n cm =
    let server = map_server (λ name. none) in
    record {
      pods = λ ns. leaves-Quiet _ (server.pods ns) n cm;
      claims = λ ns. leaves-Quiet _ (server.claims ns) n cm;
      services = λ ns. leaves-Quiet _ (server.services ns) n cm;
      nodes = leaves-Quiet _ server.nodes n cm;
      attachments = leaves-Quiet _ server.attachments n cm;
    }
