-- ===== src/Provision/Config.antt =====
-- The configuration of src/provision.rs, read from the environment.
use hcloud_csi_rwx.Prelude.{String, Option, unwrap_or, option_filter, is_empty, not}

-- `std::env::var(name).ok()`: none where the variable is not set or not text.
abbrev pub Env : Type 0
Env = String → Option String

abbrev pub driver_name : String
driver_name = "hcloud-csi-rwx"

abbrev pub recovery_token_secret : String
recovery_token_secret = "hcloud-csi-rwx-recovery-token"

unfoldable pub env_or : Env → String → String → String
env_or env name default = unwrap_or (option_filter (λ v. not (is_empty v)) (env name)) default

module _ (env : Env) where
  unfoldable pub share_namespace : String
  unfolding env_or
  share_namespace = env_or env "SHARE_MANAGER_NAMESPACE" "hcloud-csi-rwx"

  -- The default names the version of Cargo.toml.
  unfoldable pub image : String
  unfolding env_or
  image = env_or env "SHARE_MANAGER_IMAGE" "ghcr.io/mrhein/hcloud-csi-rwx:v0.2.2"

  unfoldable pub pull_policy : String
  unfolding env_or
  pull_policy = env_or env "SHARE_MANAGER_PULL_POLICY" "IfNotPresent"

  unfoldable pub backing_storage_class : String
  unfolding env_or
  backing_storage_class = env_or env "BACKING_STORAGE_CLASS" "hcloud-volumes"

  unfoldable pub nfs_allowed_clients : String
  unfolding env_or
  nfs_allowed_clients = env_or env "NFS_ALLOWED_CLIENTS" "10.0.0.0/8, 172.16.0.0/12, 192.168.0.0/16"

  unfoldable pub lease_lifetime : String
  unfolding env_or
  lease_lifetime = env_or env "LEASE_LIFETIME" "60"

  unfoldable pub grace_period : String
  unfolding env_or
  grace_period = env_or env "GRACE_PERIOD" "90"

  unfoldable pub export_mode : String
  unfolding env_or
  export_mode = env_or env "EXPORT_MODE" "0777"

  unfoldable pub monitoring_port : String
  unfolding env_or
  monitoring_port = env_or env "MONITORING_PORT" "9587"
