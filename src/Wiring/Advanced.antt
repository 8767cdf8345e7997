-- ===== src/Wiring/Advanced.antt =====
-- `applyAdvanced`: the metrics endpoint, the syslog target and the object-storage repository.
use autodeploy_web.Base.{
  true, false, not, List, [], ◌∷◌, ◌++◌, Option, none, some, Text, text, text_eq, is_empty, ◌&&◌,
  if◌then◌else◌,
}
use autodeploy_web.Deploy.Run.{NodeDeploy}
use autodeploy_web.Wiring.Program.{
  S3RepoSpec, find_managed_server_by_name, set_node_exporter, set_syslog, create_cloud_credentials,
  new_s3_compatible_folder, add_s3_repository, ok, err, Program, ret, ◌>>=◌, ◌>>◌, ask, attempt,
  wrap,
}
use autodeploy_web.Wiring.Settings.{Settings, S3Config, is_vsa}
use autodeploy_web.Wiring.Retry.{
  wait, retry_s3, max_s3_retries, create_with_components, max_component_retries,
}

-- The id of the managed server with the address, or nothing.
unfoldable pub known_server : Text → Program Text
known_server ip = do
  found ← attempt (ask (find_managed_server_by_name ip))
  elim found [ err _ ↦ ret [] | ok id ↦ ret id ]

-- The first node with the name.
unfoldable pub named_node : List NodeDeploy → Text → Option NodeDeploy
named_node [] name = none
named_node (n ∷ ns) name = if text_eq n.name name then some n else named_node ns name

unfoldable pub node_server : Option NodeDeploy → Program Text
node_server none = ret []
node_server (some n) = elim (is_empty n.ip) [ true ↦ ret [] | false ↦ known_server n.ip ]

-- The pinned mount server of the object storage, which a failure leaves unset.
unfoldable pub s3_mount_server : S3Config → List NodeDeploy → Program Text
s3_mount_server s nodes = elim (is_empty s.mount_server_node) [
  | true ↦ ret []
  | false ↦ node_server (named_node nodes s.mount_server_node)
]

-- The folder is created first; an error is only logged.
unfoldable pub ensure_folder : S3Config → Text → Program (Unit {0})
ensure_folder s credentials = elim (s.compatible && not (is_empty s.folder)) [
  | false ↦ ret tt
  | true ↦ do
    attempt (
        retry_s3 max_s3_retries
          (ask (new_s3_compatible_folder credentials s.service_point s.region s.bucket s.folder)))
    ret tt
]

-- The host whose components are updated: the pinned one, or the first VSA that has an address.
unfoldable pub first_vsa : List NodeDeploy → Program Text
first_vsa [] = ret []
first_vsa (n ∷ ns) = elim (is_vsa n.role && not (is_empty n.ip)) [
  | true ↦ known_server n.ip
  | false ↦ first_vsa ns
]

unfoldable pub component_host : List NodeDeploy → Text → Program Text
component_host nodes mount = elim (is_empty mount) [ true ↦ first_vsa nodes | false ↦ ret mount ]

unfoldable pub s3_repo_spec : S3Config → Text → Text → S3RepoSpec
s3_repo_spec s credentials mount = record {
  name = s.name;
  description = text "autodeploy object storage";
  credentials_id = credentials;
  compatible = s.compatible;
  service_point = s.service_point;
  region_id = s.region;
  bucket = s.bucket;
  folder = s.folder;
  immutable_days = s.immutable_days;
  mount_server_id = mount;
  overwrite_owner = s.overwrite_owner;
}

-- The creation, on its own or with the updates of the components: the session's id.
unfoldable pub create_s3 : Settings → S3Config → Text → Text → Text → Program Text
create_s3 cfg s credentials mount host =
    let create =
      retry_s3 max_s3_retries (ask (add_s3_repository (s3_repo_spec s credentials mount))) in
    elim (is_empty host) [
      | true ↦ create
      | false ↦ create_with_components max_component_retries cfg host create
    ]

unfoldable pub add_object_storage : Settings → S3Config → List NodeDeploy → Program (Unit {0})
add_object_storage cfg s nodes = do
  credentials ←
      wrap (text "S3 credentials: ")
        (ask (create_cloud_credentials s.access_key s.secret_key (text "autodeploy S3 " ++ s.name)))
  mount ← s3_mount_server s nodes
  ensure_folder s credentials
  host ← component_host nodes mount
  wrap (text "S3 repository: ")
      (create_s3 cfg s credentials mount host >>= λ sess. wait cfg sess 10)

unfoldable pub add_optional_storage :
    Settings → Option S3Config → List NodeDeploy → Program (Unit {0})
add_optional_storage cfg none nodes = ret tt
add_optional_storage cfg (some s) nodes = add_object_storage cfg s nodes

unfoldable pub exporter_step : Settings → Program (Unit {0})
exporter_step cfg = elim cfg.node_exporter [
  | false ↦ ret tt
  | true ↦ wrap (text "node_exporter: ") (
      ask (
        set_node_exporter true cfg.node_exporter_tls cfg.node_exporter_user cfg.node_exporter_pass))
]

unfoldable pub syslog_step : Settings → Program (Unit {0})
syslog_step cfg = elim (is_empty cfg.syslog_server) [
  | true ↦ ret tt
  | false ↦
      wrap (text "syslog: ")
        (ask (set_syslog cfg.syslog_server cfg.syslog_port cfg.syslog_protocol))
]

-- `applyAdvanced`.
unfoldable pub apply_advanced : Settings → List NodeDeploy → Program (Unit {0})
apply_advanced cfg nodes = do
  exporter_step cfg
  syslog_step cfg
  add_optional_storage cfg cfg.s3 nodes
