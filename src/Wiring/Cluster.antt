-- ===== src/Wiring/Cluster.antt =====
-- `installLicense`, `removeDefaultRepository` and `createHA`.
use autodeploy_web.Base.{ℕ, true, false, List, [], ◌∷◌, ◌++◌, Text, text, is_empty}
use autodeploy_web.Job.Naming.{equal_fold}
use autodeploy_web.Deploy.Run.{NodeDeploy}
use autodeploy_web.Wiring.Program.{
  find_repository_by_name, list_backups, delete_backup, delete_repository, get_license, read_file,
  install_license, create_credentials, connection_certificate, create_ha_cluster, ok, err, Program,
  ret, fail, ◌>>=◌, ◌>>◌, ask, attempt, wrap,
}
use autodeploy_web.Wiring.Settings.{Settings, text_or, quoted}
use autodeploy_web.Wiring.Retry.{wait, wait_node_up}

unfoldable pub push_license : Settings → Program (Unit {0})
push_license cfg = do
  data' ←
      wrap (text "read license file " ++ cfg.license_path ++ text ": ")
        (ask (read_file cfg.license_path))
  ask (install_license data')

-- `installLicense`: nothing is installed over a valid license.
unfoldable pub install : Settings → Program (Unit {0})
install cfg = do
  cur ← attempt (ask get_license)
  elim cur [
    | err _ ↦ push_license cfg
    | ok status ↦ elim (equal_fold status (text "Valid")) [
      | true ↦ ret tt
      | false ↦ push_license cfg
    ]
  ]

unfoldable pub delete_backups : Settings → List Text → Program (Unit {0})
delete_backups cfg [] = ret tt
delete_backups cfg (b ∷ bs) = do
  wrap (text "delete backup " ++ b ++ text ": ") (do
    sess ← ask (delete_backup b)
    elim (is_empty sess) [ true ↦ ret tt | false ↦ wait cfg sess 10 ])
  delete_backups cfg bs

unfoldable pub default_repository : Text
default_repository = text "Default Backup Repository"

-- `removeDefaultRepository`.
unfoldable pub remove_default_repository : Settings → Program (Unit {0})
remove_default_repository cfg = do
  id ← ask (find_repository_by_name default_repository)
  elim (is_empty id) [
    | true ↦ ret tt
    | false ↦ do
      backups ← ask (list_backups id)
      delete_backups cfg backups
      ask (delete_repository id)
  ]

-- The end of `createHA`, once the certificate is there.
unfoldable pub form_cluster : Settings → NodeDeploy → NodeDeploy → Text → Text → Program (Unit {0})
form_cluster cfg primary secondary credentials certificate = elim (is_empty cfg.cluster_endpoint) [
  | true ↦
      fail (text "HA cluster endpoint (floating VIP IP) is required — set the 'Cluster IP' field")
  | false ↦ do
    sess ← wrap (text "create HA cluster: ") (
        ask (
          create_ha_cluster record {
            primary_node_ip = primary.ip;
            secondary_node_ip = secondary.ip;
            secondary_credentials_id = credentials;
            cluster_dns_name = text_or cfg.cluster_dns_name primary.name;
            cluster_endpoint = cfg.cluster_endpoint;
            certificate_pem_base64 = certificate;
          }))
    wrap (text "HA cluster: ") (wait cfg sess 15)
]

-- `createHA`.
unfoldable pub create_ha : ℕ → Settings → NodeDeploy → NodeDeploy → Program (Unit {0})
create_ha rounds cfg primary secondary = elim (is_empty secondary.ip) [
  | true ↦ fail (text "secondary VSA " ++ quoted secondary.name ++ text " has no IP")
  | false ↦ do
    wrap (text "secondary VSA not reachable: ") (wait_node_up rounds secondary.ip)
    credentials ←
        wrap (text "HA credentials: ")
          (ask (create_credentials cfg.username cfg.password (text "HA secondary node")))
    certificate ←
        wrap (text "HA secondary certificate: ")
          (ask (connection_certificate secondary.ip credentials))
    form_cluster cfg primary secondary credentials certificate
]
