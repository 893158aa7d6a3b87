-- ===== src/Csi/Mounts.antt =====
-- The node service of src/csi.rs: resolving the endpoint of a volume, mounting and unmounting it.
pub mod Publish
pub mod Served
use hcloud_csi_rwx.Prelude.{
  ℕ, String, true, false, Option, none, some, List, [], ◌∷◌, ◌&&◌, ◌||◌, not, and_then,
  option_filter, is_empty, str_eq, format, if◌then◌else◌,
}
use hcloud_csi_rwx.Prelude.Decimal.{show_ℕ}
use hcloud_csi_rwx.Json.{Value, null, bool, num, str, arr, obj, field_at}
use hcloud_csi_rwx.Kube.{Result, ok, err, Service, Client}
use hcloud_csi_rwx.Kube.Session.{
  Try, pure, fail, or_fail, attempt, map_err, send, http_get, create_dir, run, ◌>>=◌, ◌>>◌,
  services_in, get_object,
}
use hcloud_csi_rwx.Provision.Config.{Env, share_namespace}
use hcloud_csi_rwx.Provision.Names.{volume_name}
use hcloud_csi_rwx.Provision.Nodes.{AnyError, kube, message}
use hcloud_csi_rwx.Csi.Types.{
  Status, internal, deadline_exceeded, unavailable, invalid_argument, Codec, Exit, timed_out,
  not_run, finished, Host,
}
use hcloud_csi_rwx.Csi.Endpoint.{split_colon, nth_or_empty}

-- The cluster IP of a service, unless it is empty or the text `None`.
abbrev pub usable_ip : Service → Option String
usable_ip svc =
    option_filter (λ ip. not (is_empty ip) && not (str_eq ip "None"))
      (and_then svc.spec (λ s. s.cluster_ip))

abbrev as_str : Value → Option String
as_str (str s) = some s
as_str null = none
as_str (bool b) = none
as_str (num n) = none
as_str (arr xs) = none
as_str (obj fs) = none

-- The endpoint that a share-manager reports, unless it is empty.
abbrev pub reported_endpoint : Value → Option String
reported_endpoint resp =
    option_filter (λ e. not (is_empty e)) (and_then (field_at "endpoint" resp) as_str)

abbrev mount_args : String → String → String → List String
mount_args server path target =
    "-t"
    ∷ "nfs4"
    ∷ "-o"
    ∷ "vers=4,hard,timeo=30,retrans=3"
    ∷ format (server ∷ ":" ∷ path ∷ [])
    ∷ target
    ∷ []

module _ {W : Type 0} (k : Client W) (host : Host W) (env : Env) (c : Codec) where
  unfoldable pub resolve_current_endpoint : String → Try W AnyError String
  resolve_current_endpoint volume_id = do
    svc ← map_err kube (get_object (services_in k (share_namespace env)) (volume_name volume_id))
    cluster_ip ← or_fail (usable_ip svc) (message "service has no cluster IP")
    let url = format ("http://" ∷ cluster_ip ∷ ":9500/endpoint" ∷ [])
    resp ← map_err message (send (http_get url) (host.http_get url))
    or_fail (reported_endpoint resp) (message "share-manager reported no endpoint")

  abbrev pub exit_status : String → ℕ → Exit → Result Status (Unit {0})
  exit_status program secs timed_out =
      err (deadline_exceeded (format (program ∷ " timed out after " ∷ show_ℕ secs ∷ "s" ∷ [])))
  exit_status program secs (not_run e) = err (internal e)
  exit_status program secs (finished true text) = ok tt
  exit_status program secs (finished false text) =
      err (internal (format (program ∷ " failed: " ∷ text ∷ [])))

  -- The timeout kills the command.
  unfoldable pub run_command : String → List String → ℕ → Try W Status (Unit {0})
  run_command program args timeout_secs = send (run program args timeout_secs) (λ w.
      let (e, w') = host.run program args timeout_secs w in
      (exit_status program timeout_secs e, w'))

  unfoldable pub node_publish_volume : String → String → Try W Status (Unit {0})
  node_publish_volume volume_id target = do
    endpoint ←
        map_err
          (λ e. unavailable (format ("NFS endpoint not resolvable: " ∷ c.any_to_string e ∷ [])))
          (resolve_current_endpoint volume_id)
    map_err internal (send (create_dir target) (host.create_dir_all target))
    let server = nth_or_empty (split_colon endpoint) 0
    let path = nth_or_empty (split_colon endpoint) 1
    if is_empty server || is_empty path
        then fail (invalid_argument (format ("malformed NFS endpoint " ∷ endpoint ∷ [])))
        else run_command "mount" (mount_args server path target) 30

  unfoldable pub unmounted : String → Result Status (Unit {0}) → Try W Status (Unit {0})
  unmounted target (ok _) = pure tt
  unmounted target (err _) = do
    attempt {F = Status} (run_command "umount" ("-l" ∷ target ∷ []) 10)
    pure tt

  unfoldable pub node_unpublish_volume : String → Try W Status (Unit {0})
  unfolding unmounted
  node_unpublish_volume target = do
    r ← attempt (run_command "umount" (target ∷ []) 20)
    unmounted target r
