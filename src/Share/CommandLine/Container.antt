-- ===== src/Share/CommandLine/Container.antt =====
-- The container of a share's pod starts the program with the settings of the volume: src/provision.rs
-- with src/main.rs.
use Prim.Native.Char.{code}
use Prim.Native.String as S
use hcloud_csi_rwx.Prelude.{
  ℕ, String, ◌≡◌, refl, Bool, true, false, Option, none, some, [], ◌∷◌, and_then, str_eq,
  if◌then◌else◌, format, is_some, not, ◌||◌, unwrap_or, option_filter, ◌==◌, Option-cases, is_empty,
  inl, inr,
}
use hcloud_csi_rwx.Json.{
  Value, Items, no_item, item, obj, arr, str, num, bool, null, field_at, item_at,
}
use hcloud_csi_rwx.Kube.{Result, ok}
use hcloud_csi_rwx.Provision.Config.{
  Env, nfs_allowed_clients, lease_lifetime, grace_period, export_mode, monitoring_port,
}
use hcloud_csi_rwx.Provision.Specs.{share_pod_json, pod_env}
use hcloud_csi_rwx.Share.CommandLine.{Clap, start, parse_cli, parse_run}

abbrev as_text : Value → Option String
as_text (str s) = some s
as_text null = none
as_text (bool b) = none
as_text (num n) = none
as_text (arr xs) = none
as_text (obj fs) = none

abbrev items : Option Value → Items
items (some (arr xs)) = xs
items _ = no_item

-- The first container of a pod, and a list of it.
abbrev container_list : String → Value → Items
container_list key pod = items (
    and_then (and_then (and_then (field_at "spec" pod) (field_at "containers")) (item_at 0))
      (field_at key))

-- A text that clap takes as the value of a flag.
abbrev pub is_value : String → Bool
is_value S.[] = true
is_value (S.◌∷◌ c s) = not (code c == b'-')

abbrev value_of : Value → Option String
value_of v = option_filter is_value (as_text v)

abbrev is_text : String → Value → Bool
is_text s v = str_eq (unwrap_or (as_text v) "") s

-- The value of a flag in the arguments after the subcommand, where `--skip-mount` is the one switch.
abbrev flag_value : String → Items → Option String
flag_value flag no_item = none
flag_value flag (item f no_item) = none
flag_value flag (item f (item v rest)) =
    if is_text "--skip-mount" f
    then flag_value flag (item v rest)
    else if is_text flag f
    then value_of v
    else flag_value flag rest

abbrev has_item : String → Items → Bool
has_item s no_item = false
has_item s (item v vs) = has_item s vs || is_text s v

-- What an entry of the environment gives: its text, or the address of the pod.
abbrev env_entry : String → Value → Option String
env_entry ip v = elim (and_then (field_at "value" v) as_text) [
  | some t ↦ some t
  | none ↦
      if is_some (and_then (field_at "valueFrom" v) (field_at "fieldRef")) then some ip else none
]

abbrev env_value : String → String → Items → Option String
env_value ip name no_item = none
env_value ip name (item v vs) =
    if str_eq (unwrap_or (and_then (field_at "name" v) as_text) "") name
    then env_entry ip v
    else env_value ip name vs

abbrev after_first : Items → Items
after_first no_item = no_item
after_first (item v vs) = vs

abbrev flag_or_env : Option String → Option String → Option String
flag_or_env (some t) o = some t
flag_or_env none o = o

-- clap in the container of a pod with the address `ip`: a flag comes before its variable.
abbrev pub container_clap : Value → String → (ℕ → String → Result String ℕ) → Clap
container_clap pod ip number = record {
  subcommand = and_then (item_at 0 (arr (container_list "args" pod))) as_text;
  given = λ long env.
      flag_or_env (flag_value (format ("--" ∷ long ∷ [])) (after_first (container_list "args" pod)))
        (and_then env (λ name. env_value ip name (container_list "env" pod)));
  number = number;
  switch = λ long env. ok (has_item (format ("--" ∷ long ∷ [])) (container_list "args" pod));
  missing = λ long. format ("the argument --" ∷ long ∷ " was not provided" ∷ []);
  unrecognized = λ name. format ("unrecognized subcommand '" ∷ name ∷ "'" ∷ []);
}

-- The container of the pod that is made for a share parses as the subcommand that starts the
-- share-manager on the mounted volume, under the name of the volume and the address of the pod, with
-- the configuration of who made the pod: where the name of the volume does not begin with a dash, and
-- clap reads the numbers of that configuration.
pub parse_cli-share_pod_json :
    (env : Env) (number : ℕ → String → Result String ℕ) (volume host pvc_name pvc_ns ip : String)
    (lease grace monitoring : ℕ)
    → is_value volume ≡ true
    → number 32 (lease_lifetime env) ≡ ok lease
    → number 32 (grace_period env) ≡ ok grace
    → number 16 (monitoring_port env) ≡ ok monitoring
    → parse_cli (container_clap (share_pod_json env volume host pvc_name pvc_ns) ip number)
      ≡ ok (
          some (
            start (record {
              device = "/export";
              volume = volume;
              mount_point = "/export";
              api_listen = "0.0.0.0:9500";
              svc_ip = ip;
              ganesha_dir = "/var/run/ganesha";
              device_timeout = 120;
              skip_mount = true;
              lease_lifetime = lease;
              grace_period = grace;
              allowed_clients = nfs_allowed_clients env;
              export_mode = export_mode env;
              monitoring_port = monitoring;
            })))
unfolding parse_cli parse_run share_pod_json pod_env
parse_cli-share_pod_json env number volume host pvc_name pvc_ns ip lease grace monitoring v l g p =
    elim (Option-cases
      (option_filter (λ url. not (is_empty url)) (env "HCLOUD_RECOVERY_BACKEND_URL"))) [
        | inl e ↦ rw (e, v, l, g, p) refl
        | inr (url, e) ↦ rw (e, v, l, g, p) refl
      ]
