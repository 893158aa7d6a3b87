-- ===== src/Share/Config.antt =====
-- The configuration of ganesha: `ExportConfig` and `validate_config_value` of src/nfs.rs.
pub mod Injection
use Prim.Native.Char.{Char, code}
use Prim.Native.String as S
use hcloud_csi_rwx.Prelude.{
  ℕ, String, List, Bool, true, false, [], ◌∷◌, ◌&&◌, ◌||◌, not, leb, ◌==◌, str_eq, is_empty, format,
  if◌then◌else◌,
}
use hcloud_csi_rwx.Prelude.Decimal.{show_ℕ}
use hcloud_csi_rwx.Kube.{Result, ok, err}

abbrev between : ℕ → Char → ℕ → Bool
between low c high = leb low (code c) && leb (code c) high

abbrev pub every_char : (Char → Bool) → String → Bool
every_char p S.[] = true
every_char p (S.◌∷◌ c s) = p c && every_char p s

abbrev pub is_octal : Char → Bool
is_octal c = between b'0' c b'7'

-- The characters that may stand in a value.
unfoldable pub is_config_char : Char → Bool
is_config_char c =
    between b'0' c b'9'
    || between b'A' c b'Z'
    || between b'a' c b'z'
    || code c == b'-'
    || code c == b'_'
    || code c == b'.'
    || code c == b'/'
    || code c == b','
    || code c == b' '
    || code c == b'*'
    || code c == b':'

unfoldable pub validate_config_value : String → Result String (Unit {0})
validate_config_value value =
    if is_empty value
    then err "empty value not allowed in ganesha config"
    else if not (every_char is_config_char value)
    then err (format ("invalid character in ganesha config value: " ∷ value ∷ []))
    else ok tt

pub record ExportConfig : Type 0 where
  pub export_id : ℕ
  pub export_path : String
  pub pseudo_path : String
  pub lease_lifetime : ℕ
  pub grace_period : ℕ
  pub allowed_clients : String
  pub monitoring_port : ℕ

abbrev pub default_config : ExportConfig
default_config = record {
  export_id = 1;
  export_path = "/export";
  pseudo_path = "/";
  lease_lifetime = 60;
  grace_period = 90;
  allowed_clients = "10.0.0.0/8, 172.16.0.0/12, 192.168.0.0/16";
  monitoring_port = 9587;
}

-- `char::is_whitespace`
abbrev is_whitespace : Char → Bool
is_whitespace c =
    between 9 c 13
    || code c == 32
    || code c == 133
    || code c == 160
    || code c == 5760
    || between 8192 c 8202
    || code c == 8232
    || code c == 8233
    || code c == 8239
    || code c == 8287
    || code c == 12288

abbrev trim_end : String → String
trim_end S.[] = ""
trim_end (S.◌∷◌ c s) =
    let rest = trim_end s in if is_empty rest && is_whitespace c then "" else S.◌∷◌ c rest

abbrev trim_start : String → String
trim_start S.[] = ""
trim_start (S.◌∷◌ c s) = let rest = trim_start s in if is_whitespace c then rest else S.◌∷◌ c s

abbrev pub trim : String → String
trim s = trim_end (trim_start s)

-- No restriction to some clients.
unfoldable pub open_clients : String → Bool
open_clients clients = str_eq (trim clients) "*" || str_eq (trim clients) "0.0.0.0/0"

abbrev export_access : Bool → String
export_access is_open = if is_open then "RW" else "None"

abbrev pub client_pieces : String → List String
client_pieces clients =
    "    CLIENT {\n        Clients = " ∷ clients
    ∷ ";\n        Access_Type = RW;\n        Squash = None;\n        SecType = sys;\n    }\n" ∷ []

abbrev pub client_block_of : Bool → String → String
client_block_of true clients = ""
client_block_of false clients = format (client_pieces clients)

abbrev metrics_block : ExportConfig → String
metrics_block cfg =
    if cfg.monitoring_port == 0
    then ""
    else format (
        "    Enable_Metrics = true;\n    Monitoring_Port = "
        ∷ show_ℕ cfg.monitoring_port
        ∷ ";\n"
        ∷ [])

-- The pieces of the rendered text, one after the other.
abbrev pub pieces : ExportConfig → List String
pieces cfg =
    "NFS_Core_Param\n{\n    Enable_UDP = false;\n    fsid_device = false;\n    Bind_addr = 0.0.0.0;\n    Protocols = 4;\n"
    ∷ metrics_block cfg
    ∷ "}\n\nLOG {\n    Default_Log_Level = INFO;\n    Facility {\n        name = FILE;\n        destination = \"/proc/1/fd/1\";\n        enable = active;\n    }\n}\n\n"
    ∷ "NFSV4\n{\n    Lease_Lifetime = "
    ∷ show_ℕ cfg.lease_lifetime
    ∷ ";\n    Grace_Period = "
    ∷ show_ℕ cfg.grace_period
    ∷ ";\n    Minor_Versions = 0, 1, 2;\n    RecoveryBackend = hcloud;\n    Only_Numeric_Owners = true;\n}\n\n"
    ∷ "Export_Defaults\n{\n    Protocols = 4;\n    Transports = TCP;\n    Access_Type = None;\n    SecType = sys;\n    Squash = None;\n}\n\n"
    ∷ "EXPORT\n{\n    Export_Id = "
    ∷ show_ℕ cfg.export_id
    ∷ ";\n    Path = "
    ∷ cfg.export_path
    ∷ ";\n    Pseudo = "
    ∷ cfg.pseudo_path
    ∷ ";\n    Protocols = 4;\n    Transports = TCP;\n    Access_Type = "
    ∷ export_access (open_clients cfg.allowed_clients)
    ∷ ";\n    Squash = None;\n    SecType = sys;\n    Filesystem_id = "
    ∷ show_ℕ cfg.export_id
    ∷ ".0;\n"
    ∷ client_block_of (open_clients cfg.allowed_clients) cfg.allowed_clients
    ∷ "    FSAL {\n        Name = VFS;\n    }\n}\n"
    ∷ []

unfoldable pub render : ExportConfig → String
render cfg = format (pieces cfg)

-- `endpoint`
unfoldable pub nfs_endpoint : String → String → String
nfs_endpoint svc_ip pseudo_path = format (svc_ip ∷ ":" ∷ pseudo_path ∷ [])
