-- ===== src/Wiring/Calls/Advanced.antt =====
-- Which calls `applyAdvanced` makes.
use autodeploy_web.Base.{
  Text, Bool, ◌&&◌, not, List, [], ◌∷◌, Option, none, some, is_empty, Bool-cases, inl, inr, ℤ,
}
use autodeploy_web.Deploy.Run.{NodeDeploy}
use autodeploy_web.Wiring.Program.{
  Call, S3RepoSpec, find_managed_server_by_name, set_node_exporter, set_syslog,
  create_cloud_credentials, new_s3_compatible_folder, add_s3_repository,
}
use autodeploy_web.Wiring.Settings.{Settings, S3Config, is_vsa}
use autodeploy_web.Wiring.Retry.{max_s3_retries, max_component_retries}
use autodeploy_web.Wiring.Advanced.{
  known_server, named_node, node_server, exporter_step, syslog_step, s3_mount_server, ensure_folder,
  first_vsa, component_host, create_s3, add_object_storage, add_optional_storage, apply_advanced,
}
use autodeploy_web.Wiring.Calls.{
  Only, ret-Only, ask-Only, bind-Only, then-Only, attempt-Only, cases-Only, wrap-Only,
}
use autodeploy_web.Wiring.Calls.Loops.{
  WaitsCalls, UpdatesCalls, wait-Only, retry_s3-Only, create_with_components-Only,
}

pub record AdvancedCalls (P : Call → Type 0) : Type 0 where
  pub waits : WaitsCalls P
  pub updates : UpdatesCalls P
  pub finding : (t : Text) → P (find_managed_server_by_name t)
  pub exporting : (on tls : Bool) (user pass : Text) → P (set_node_exporter on tls user pass)
  pub forwarding : (server : Text) (port : ℤ) (proto : Text) → P (set_syslog server port proto)
  pub crediting : (key secret about : Text) → P (create_cloud_credentials key secret about)
  pub opening :
      (id point region bucket folder : Text)
      → P (new_s3_compatible_folder id point region bucket folder)
  pub storing : (spec : S3RepoSpec) → P (add_s3_repository spec)

module _ {P : Call → Type 0} (find : (t : Text) → P (find_managed_server_by_name t)) where
  known_server-Only : (ip : Text) → Only P (known_server ip)
  unfolding known_server
  known_server-Only ip = cases-Only _ (ask-Only _ (find ip)) ret-Only (λ _. ret-Only [])

  node_server-Only : (n : Option NodeDeploy) → Only P (node_server n)
  unfolding node_server
  node_server-Only none = ret-Only []
  node_server-Only (some n) = elim (Bool-cases (is_empty n.ip)) [
    | inl h ↦ rw (node_server, h) (ret-Only [])
    | inr h ↦ rw (node_server, h) (known_server-Only n.ip)
  ]

  pub s3_mount_server-Only :
      (s : S3Config) (nodes : List NodeDeploy) → Only P (s3_mount_server s nodes)
  unfolding s3_mount_server
  s3_mount_server-Only s nodes = elim (Bool-cases (is_empty s.mount_server_node)) [
    | inl h ↦ rw (s3_mount_server, h) (ret-Only [])
    | inr h ↦ rw (s3_mount_server, h) (node_server-Only (named_node nodes s.mount_server_node))
  ]

  first_vsa-Only : (nodes : List NodeDeploy) → Only P (first_vsa nodes)
  unfolding first_vsa
  first_vsa-Only [] = ret-Only []
  first_vsa-Only (n ∷ ns) = elim (Bool-cases (is_vsa n.role && not (is_empty n.ip))) [
    | inl h ↦ rw (first_vsa, h) (known_server-Only n.ip)
    | inr h ↦ rw (first_vsa, h) (first_vsa-Only ns)
  ]

  pub component_host-Only :
      (nodes : List NodeDeploy) (mount : Text) → Only P (component_host nodes mount)
  unfolding component_host
  component_host-Only nodes mount = elim (Bool-cases (is_empty mount)) [
    | inl h ↦ rw (component_host, h) (first_vsa-Only nodes)
    | inr h ↦ rw (component_host, h) (ret-Only mount)
  ]

module _ {P : Call → Type 0} where
  pub ensure_folder-Only :
      WaitsCalls P
      → (s : S3Config)
      → ((id point region bucket folder : Text)
          → P (new_s3_compatible_folder id point region bucket folder))
      → (id : Text) → Only P (ensure_folder s id)
  unfolding ensure_folder
  ensure_folder-Only w s open' id = elim (Bool-cases (s.compatible && not (is_empty s.folder))) [
    | inl h ↦
        rw (ensure_folder, h)
          (then-Only
            (attempt-Only (
              retry_s3-Only w max_s3_retries
                (ask-Only _ (open' id s.service_point s.region s.bucket s.folder))))
            (ret-Only tt))
    | inr h ↦ rw (ensure_folder, h) (ret-Only tt)
  ]

module _ {P : Call → Type 0} (f : AdvancedCalls P) (cfg : Settings) where
  create_s3-Only : (s : S3Config) (id mount host : Text) → Only P (create_s3 cfg s id mount host)
  unfolding create_s3
  create_s3-Only s id mount host =
      let create = retry_s3-Only f.waits max_s3_retries (ask-Only _ (f.storing _)) in
      elim (Bool-cases (is_empty host)) [
        | inl h ↦ rw (create_s3, h) create
        | inr h ↦
            rw (create_s3, h)
              (create_with_components-Only f.updates cfg max_component_retries host create)
      ]

  add_object_storage-Only :
      (s : S3Config) (nodes : List NodeDeploy) → Only P (add_object_storage cfg s nodes)
  unfolding add_object_storage
  add_object_storage-Only s nodes = bind-Only (wrap-Only _ (ask-Only _ (f.crediting _ _ _))) λ id.
      bind-Only (s3_mount_server-Only f.finding s nodes) λ mount.
        then-Only (ensure_folder-Only f.waits s f.opening id) (
          bind-Only (component_host-Only f.finding nodes mount) λ host.
            wrap-Only _
              (bind-Only (create_s3-Only s id mount host) λ sess. wait-Only f.updates cfg sess 10))

  add_optional_storage-Only :
      (s : Option S3Config) (nodes : List NodeDeploy) → Only P (add_optional_storage cfg s nodes)
  unfolding add_optional_storage
  add_optional_storage-Only none nodes = ret-Only tt
  add_optional_storage-Only (some s) nodes = add_object_storage-Only s nodes

  exporter_step-Only : Only P (exporter_step cfg)
  unfolding exporter_step
  exporter_step-Only = elim (Bool-cases cfg.node_exporter) [
    | inl h ↦ rw (exporter_step, h) (wrap-Only _ (ask-Only _ (f.exporting _ _ _ _)))
    | inr h ↦ rw (exporter_step, h) (ret-Only tt)
  ]

  syslog_step-Only : Only P (syslog_step cfg)
  unfolding syslog_step
  syslog_step-Only = elim (Bool-cases (is_empty cfg.syslog_server)) [
    | inl h ↦ rw (syslog_step, h) (ret-Only tt)
    | inr h ↦ rw (syslog_step, h) (wrap-Only _ (ask-Only _ (f.forwarding _ _ _)))
  ]

  pub apply_advanced-Only : (nodes : List NodeDeploy) → Only P (apply_advanced cfg nodes)
  unfolding apply_advanced
  apply_advanced-Only nodes =
      then-Only exporter_step-Only
        (then-Only syslog_step-Only (add_optional_storage-Only cfg.s3 nodes))
