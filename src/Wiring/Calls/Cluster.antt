-- ===== src/Wiring/Calls/Cluster.antt =====
-- Which calls the license and the HA block make.
use autodeploy_web.Base.{
  ℕ, Text, text, false, List, [], ◌∷◌, is_empty, Bool-cases, inl, inr, ◌≡◌, ℤ,
}
use autodeploy_web.Job.Naming.{equal_fold}
use autodeploy_web.Deploy.Run.{NodeDeploy}
use autodeploy_web.Wiring.Program.{
  Call, wait_session, get_license, read_file, install_license, redirect_config_backup,
  find_repository_by_name, list_backups, delete_backup, delete_repository, create_credentials,
  connection_certificate, create_ha_cluster, HaSpec,
}
use autodeploy_web.Wiring.Settings.{Settings}
use autodeploy_web.Wiring.Cluster.{
  push_license, install, delete_backups, remove_default_repository, default_repository,
  form_cluster, create_ha,
}
use autodeploy_web.Wiring.Topology.{license_step, free_default_repository, ha_step}
use autodeploy_web.Wiring.Retry.{wait}
use autodeploy_web.Wiring.Calls.Loops.{WaitsCalls, wait_node_up-Only}
use autodeploy_web.Wiring.Calls.{
  Only, ret-Only, fail-Only, ask-Only, bind-Only, then-Only, cases-Only, wrap-Only,
}

pub record LicenseCalls (P : Call → Type 0) : Type 0 where
  pub querying : P get_license
  pub reading : (path : Text) → P (read_file path)
  pub installing : (bytes : Text) → P (install_license bytes)

module _ {P : Call → Type 0} (f : LicenseCalls P) (cfg : Settings) where
  push_license-Only : Only P (push_license cfg)
  unfolding push_license
  push_license-Only =
      bind-Only (wrap-Only _ (ask-Only _ (f.reading _))) λ bytes. ask-Only _ (f.installing bytes)

  install-Only : Only P (install cfg)
  unfolding install
  install-Only =
      cases-Only _ (ask-Only _ f.querying)
        (λ status. elim (Bool-cases (equal_fold status (text "Valid"))) [
          | inl h ↦ rw h (ret-Only tt)
          | inr h ↦ rw h push_license-Only
        ])
        (λ _. push_license-Only)

  pub license_step-Only : Only P (license_step cfg)
  unfolding license_step
  license_step-Only = elim (Bool-cases (is_empty cfg.license_path)) [
    | inl h ↦ rw (license_step, h) (ret-Only tt)
    | inr h ↦ rw (license_step, h) (wrap-Only _ install-Only)
  ]

pub record ClusterCalls (P : Call → Type 0) : Type 0 where
  pub waits : WaitsCalls P
  pub waiting : (id : Text) (poll : ℕ) (t : ℤ) → P (wait_session id poll t)
  pub crediting : (user pass about : Text) → P (create_credentials user pass about)
  pub certifying : (ip id : Text) → P (connection_certificate ip id)
  pub clustering :
      (spec : HaSpec)
      → is_empty spec.cluster_endpoint ≡ false
      → is_empty spec.secondary_node_ip ≡ false
      → P (create_ha_cluster spec)

pub record HaCalls (P : Call → Type 0) : Type 0 where
  pub cluster : ClusterCalls P
  pub redirecting : (id : Text) → P (redirect_config_backup id)
  pub finding : (name : Text) → P (find_repository_by_name name)
  pub listing : (id : Text) → P (list_backups id)
  pub deleting_backup : (id : Text) → P (delete_backup id)
  pub deleting : (id : Text) → P (delete_repository id)

module _ {P : Call → Type 0} (f : ClusterCalls P) (cfg : Settings) where
  session_wait-Only : (id : Text) (poll : ℕ) → Only P (wait cfg id poll)
  unfolding wait
  session_wait-Only id poll = ask-Only _ (f.waiting id poll cfg.session_timeout)

  form_cluster-Only :
      (primary secondary : NodeDeploy) (id cert : Text)
      → is_empty secondary.ip ≡ false
      → Only P (form_cluster cfg primary secondary id cert)
  unfolding form_cluster
  form_cluster-Only primary secondary id cert i =
      elim (Bool-cases (is_empty cfg.cluster_endpoint)) [
        | inl h ↦ rw (form_cluster, h) (fail-Only _)
        | inr h ↦
            rw (form_cluster, h)
              (bind-Only (wrap-Only _ (ask-Only _ (f.clustering _ h i)))
                λ sess. wrap-Only _ (session_wait-Only sess 15))
      ]

  pub create_ha-Only :
      (rounds : ℕ) (primary secondary : NodeDeploy)
      → Only P (create_ha rounds cfg primary secondary)
  unfolding create_ha
  create_ha-Only rounds primary secondary = elim (Bool-cases (is_empty secondary.ip)) [
    | inl h ↦ rw (create_ha, h) (fail-Only _)
    | inr h ↦
        rw (create_ha, h)
          (then-Only (wrap-Only _ (wait_node_up-Only f.waits rounds secondary.ip)) (
            bind-Only (wrap-Only _ (ask-Only _ (f.crediting _ _ _))) λ id.
              bind-Only (wrap-Only _ (ask-Only _ (f.certifying secondary.ip id)))
                λ cert. form_cluster-Only primary secondary id cert h))
  ]

module _ {P : Call → Type 0} (f : HaCalls P) (cfg : Settings) where
  delete_backups-Only : (bs : List Text) → Only P (delete_backups cfg bs)
  unfolding delete_backups
  delete_backups-Only [] = ret-Only tt
  delete_backups-Only (b ∷ bs) =
      then-Only
        (wrap-Only _ (
          bind-Only (ask-Only _ (f.deleting_backup b)) λ sess. elim (Bool-cases (is_empty sess)) [
            | inl h ↦ rw h (ret-Only tt)
            | inr h ↦ rw h (session_wait-Only f.cluster cfg sess 10)
          ]))
        (delete_backups-Only bs)

  remove_default_repository-Only : Only P (remove_default_repository cfg)
  unfolding remove_default_repository
  remove_default_repository-Only = bind-Only (ask-Only _ (f.finding default_repository)) λ id.
      elim (Bool-cases (is_empty id)) [
        | inl h ↦ rw h (ret-Only tt)
        | inr h ↦ rw h (
            bind-Only (ask-Only _ (f.listing id))
              λ bs. then-Only (delete_backups-Only bs) (ask-Only _ (f.deleting id)))
      ]

  free_default_repository-Only : (id : Text) → Only P (free_default_repository cfg id)
  unfolding free_default_repository
  free_default_repository-Only id = elim (Bool-cases (is_empty id)) [
    | inl h ↦ rw (free_default_repository, h) (ret-Only tt)
    | inr h ↦
        rw (free_default_repository, h)
          (then-Only (wrap-Only _ (ask-Only _ (f.redirecting id)))
            (wrap-Only _ remove_default_repository-Only))
  ]

  pub ha_step-Only :
      (rounds : ℕ) (primary : NodeDeploy) (others : List NodeDeploy) (id : Text)
      → Only P (ha_step rounds cfg primary others id)
  unfolding ha_step
  ha_step-Only rounds primary [] id = ret-Only tt
  ha_step-Only rounds primary (secondary ∷ others) id =
      then-Only (free_default_repository-Only id)
        (create_ha-Only f.cluster cfg rounds primary secondary)
