-- ===== src/Kube/Session.antt =====
-- Requests to the Kubernetes API in sequence: the state is the world and the requests sent so far,
-- the latest first; a step answers with a `Result`, as the source's `async fn`s do.
use hcloud_csi_rwx.Prelude.{ℕ, String, Option, none, some, List, ◌∷◌}
use hcloud_csi_rwx.Kube.{
  KubeError, Result, ok, err, Pod, Node, PersistentVolumeClaim, Service, VolumeAttachment,
  ConfigMap, MergePatch, Api, Client,
}

-- The collection that a request goes to, with its namespace where it has one.
pub data Kind : Type 0 where
  pods config_maps claims services : String → Kind
  nodes attachments : Kind

pub data Object : Type 0 where
  pod : Pod → Object
  config_map : ConfigMap → Object
  claim : PersistentVolumeClaim → Object
  service : Service → Object
  node : Node → Object
  attachment : VolumeAttachment → Object

pub data Call : Type 0 where
  get : Kind → String → Call
  list : Kind → Call
  create : Kind → Object → Call
  patch : Kind → String → MergePatch → Call
  delete : Kind → String → Call
  sleep : ℕ → Call
  http_get : String → Call
  create_dir : String → Call
  run : String → List String → ℕ → Call
  exec : String → List String → Call
  spawn : String → List String → Call
  write_file : String → String → Call

pub record Session (W : Type 0) : Type 0 where
  pub world : W
  pub calls : List Call

abbrev pub Try : Type 0 → Type 0 → Type 0 → Type 0
Try W E A = Session W → Result E A × Session W

abbrev pub recode : {E F A : Type 0} → (E → F) → Result E A → Result F A
recode f (ok a) = ok a
recode f (err e) = err (f e)

module _ {W E A : Type 0} where
  unfoldable pub pure : A → Try W E A
  pure a s = (ok a, s)

  unfoldable pub fail : E → Try W E A
  fail e s = (err e, s)

  unfoldable pub or_fail : Option A → E → Try W E A
  unfolding pure fail
  or_fail none e = fail e
  or_fail (some a) e = pure a

  unfoldable pub lift : Result E A → Try W E A
  lift r s = (r, s)

  -- The `Result` of a step as a value, which the source matches on or drops.
  unfoldable pub attempt : {F : Type 0} → Try W E A → Try W F (Result E A)
  attempt m s = let (r, s') = m s in (ok r, s')

  unfoldable pub map_err : {F : Type 0} → (E → F) → Try W E A → Try W F A
  map_err f m s = let (r, s') = m s in (recode f r, s')

  -- A request: it is noted, and the API answers.
  unfoldable pub send : Call → (W → Result E A × W) → Try W E A
  send c request s = let (r, w) = request s.world in (r, record { world = w; calls = c ∷ s.calls })

module _ {W E A B : Type 0} where
  abbrev pub continue : Result E A → (A → Try W E B) → Try W E B
  continue (ok a) f s = f a s
  continue (err e) f s = (err e, s)

  infixl 5 ◌>>=◌ ◌>>◌
  -- Opening this opens every way to build a step.
  unfoldable pub ◌>>=◌ : Try W E A → (A → Try W E B) → Try W E B
  unfolding pure fail or_fail lift attempt map_err send
  ◌>>=◌ m f before = let (answer, after) = m before in continue answer f after

  abbrev pub ◌>>◌ : Try W E A → Try W E B → Try W E B
  m >> k = m >>= λ _. k

-- `Api::namespaced` and `Api::all`: an API with the name of its collection.
pub record Handle (W K : Type 0) : Type 0 where
  pub kind : Kind
  pub object : K → Object
  pub api : Api W K

module _ {W : Type 0} where
  abbrev pub pods_in : Client W → String → Handle W Pod
  pods_in c ns = record { kind = pods ns; object = pod; api = c.pods ns }

  abbrev pub config_maps_in : Client W → String → Handle W ConfigMap
  config_maps_in c ns = record {
    kind = config_maps ns;
    object = config_map;
    api = c.config_maps ns;
  }

  abbrev pub claims_in : Client W → String → Handle W PersistentVolumeClaim
  claims_in c ns = record { kind = claims ns; object = claim; api = c.claims ns }

  abbrev pub services_in : Client W → String → Handle W Service
  services_in c ns = record { kind = services ns; object = service; api = c.services ns }

  abbrev pub all_nodes : Client W → Handle W Node
  all_nodes c = record { kind = nodes; object = node; api = c.nodes }

  abbrev pub all_attachments : Client W → Handle W VolumeAttachment
  all_attachments c = record { kind = attachments; object = attachment; api = c.attachments }

  unfoldable pub wait : {E : Type 0} → Client W → ℕ → Try W E (Unit {0})
  unfolding send
  wait c n = send (sleep n) (λ w. (ok tt, c.sleep n w))

module _ {W K : Type 0} (h : Handle W K) where
  unfoldable pub get_object : String → Try W KubeError K
  unfolding send
  get_object name = send (get h.kind name) (h.api.get name)

  unfoldable pub list_objects : Option String → Try W KubeError (List K)
  unfolding send
  list_objects selector = send (list h.kind) (h.api.list selector)

  unfoldable pub create_object : K → Try W KubeError K
  unfolding send
  create_object k = send (create h.kind (h.object k)) (h.api.create k)

  unfoldable pub patch_object : String → MergePatch → Try W KubeError K
  unfolding send
  patch_object name p = send (patch h.kind name p) (h.api.patch name p)

  unfoldable pub delete_object : String → Try W KubeError (Unit {0})
  unfolding send
  delete_object name = send (delete h.kind name) (h.api.delete name)
