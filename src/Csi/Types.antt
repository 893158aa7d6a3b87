-- ===== src/Csi/Types.antt =====
-- Requests, answers and errors of the CSI driver, and what it calls outside the cluster's API.
use hcloud_csi_rwx.Prelude.{ℕ, String, Bool, Option, List}
use hcloud_csi_rwx.Prelude.Int.{ℤ}
use hcloud_csi_rwx.Map.{Map}
use hcloud_csi_rwx.Json.{Value}
use hcloud_csi_rwx.Kube.{Result, KubeError, PersistentVolumeClaim, Service, Pod}
use hcloud_csi_rwx.Provision.Nodes.{AnyError}

-- `tonic::Status`
pub data Status : Type 0 where
  internal deadline_exceeded unavailable invalid_argument unimplemented : String → Status

pub record CreateVolumeRequest : Type 0 where
  pub name : String
  pub required_bytes : Option ℤ
  pub parameters : Map String

pub record CreateVolumeResponse : Type 0 where
  pub volume_id : String
  pub capacity_bytes : ℤ
  pub volume_context : Map String

-- serde_json, and the texts of errors.
pub record Codec : Type 0 where
  pub claim_from_value : Value → Result String PersistentVolumeClaim
  pub service_from_value : Value → Result String Service
  pub pod_from_value : Value → Result String Pod
  pub kube_to_string : KubeError → String
  pub any_to_string : AnyError → String

-- How a command ended.
pub data Exit : Type 0 where
  timed_out : Exit
  not_run : String → Exit
  finished : Bool → String → Exit

-- The node's own system: `reqwest`, `std::fs::create_dir_all` and `tokio::process` with a timeout.
pub record Host (W : Type 0) : Type 0 where
  pub http_get : String → W → Result String Value × W
  pub create_dir_all : String → W → Result String (Unit {0}) × W
  pub run : String → List String → ℕ → W → Exit × W
