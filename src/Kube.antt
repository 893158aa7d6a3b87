-- ===== src/Kube.antt =====
-- The objects of the Kubernetes API that the program reads and writes, with the fields that it uses,
-- and the API itself (`kube::Api`), which is not part of the repository and enters as a record of
-- functions over an unknown world.
pub mod Session
pub mod Store
pub mod Avoids
pub mod Keeps
pub mod Yields
use hcloud_csi_rwx.Prelude.{ℕ, String, refl, Option, List, ◌≡◌, ◌⊎◌, inr, inl}
use hcloud_csi_rwx.Map.{Map}

-- `kube::Error`: an answer of the API server with its code, or any other failure.
pub data KubeError : Type 0 where
  api : ℕ → String → KubeError
  other : String → KubeError

pub data Result (E A : Type 0) : Type 0 where
  ok : A → Result E A
  err : E → Result E A

pub record Volume : Type 0 where
  pub claim_name : Option String

pub Result-cases :
    {E A : Type 0} (r : Result E A) → ((e : E) × (r ≡ err e)) ⊎ ((a : A) × (r ≡ ok a))
Result-cases (ok a) = inr (a, refl)
Result-cases (err e) = inl (e, refl)

pub record PodSpec : Type 0 where
  pub node_name : Option String
  pub volumes : Option (List Volume)

pub record PodStatus : Type 0 where
  pub phase : Option String
  pub pod_ip : Option String

pub record Pod : Type 0 where
  pub name : Option String
  pub labels : Option (Map String)
  pub spec : Option PodSpec
  pub status : Option PodStatus

pub record Condition : Type 0 where
  pub type_ : String
  pub status : String

pub record NodeStatus : Type 0 where
  pub conditions : Option (List Condition)

pub record Node : Type 0 where
  pub name : Option String
  pub status : Option NodeStatus

pub record ClaimSpec : Type 0 where
  pub storage_class_name : Option String
  pub access_modes : Option (List String)
  pub volume_name : Option String

pub record PersistentVolumeClaim : Type 0 where
  pub name : Option String
  pub namespace : Option String
  pub deletion_timestamp : Option String
  pub spec : Option ClaimSpec

pub record ServiceSpec : Type 0 where
  pub cluster_ip : Option String

pub record Service : Type 0 where
  pub name : Option String
  pub spec : Option ServiceSpec

pub record VolumeAttachment : Type 0 where
  pub name : Option String
  pub persistent_volume_name : Option String

pub record ConfigMap : Type 0 where
  pub name : Option String
  pub namespace : Option String
  pub annotations : Option (Map String)
  pub entries : Option (Map String)

-- The body of a `Patch::Merge` for a ConfigMap: the annotations and the data that it sets.
pub record MergePatch : Type 0 where
  pub annotations : Option (Map String)
  pub entries : Option (Map String)

-- `kube::Api<K>` over the world `W`: the answer to each request, and what is left of the world.
pub record Api (W K : Type 0) : Type 0 where
  pub get : String → W → Result KubeError K × W
  pub list : Option String → W → Result KubeError (List K) × W
  pub create : K → W → Result KubeError K × W
  pub patch : String → MergePatch → W → Result KubeError K × W
  pub delete : String → W → Result KubeError (Unit {0}) × W

-- `kube::Client`, with the wait between two polls, during which others act on the world.
pub record Client (W : Type 0) : Type 0 where
  pub pods : String → Api W Pod
  pub config_maps : String → Api W ConfigMap
  pub claims : String → Api W PersistentVolumeClaim
  pub services : String → Api W Service
  pub nodes : Api W Node
  pub attachments : Api W VolumeAttachment
  pub sleep : ℕ → W → W
