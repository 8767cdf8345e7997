-- ===== src/Wiring/Calls/Nodes.antt =====
-- Which calls the goroutine of a node, the search of the mount server and `applyAdvanced` make.
use autodeploy_web.Base.{ℕ, Text, List, [], ◌∷◌, none, some, is_empty, Bool-cases, inl, inr}
use autodeploy_web.Deploy.Run.{NodeDeploy}
use autodeploy_web.Wiring.Program.{
  Call, HardenedSpec, find_managed_server_by_name, find_repository_by_name, find_proxy_by_host,
  add_linux_host, add_hardened_repository, add_vmware_proxy,
}
use autodeploy_web.Wiring.Settings.{Settings, is_hr, is_proxy}
use autodeploy_web.Wiring.Nodes.{
  resolve_mount_server, add_host, resolve_host, create_repository, wire_repository, wire_proxy,
  wire_role, wire_node, repo_name,
}
use autodeploy_web.Wiring.Retry.{max_component_retries}
use autodeploy_web.Wiring.Calls.{
  Only, ret-Only, fail-Only, ask-Only, bind-Only, then-Only, cases-Only, wrap-Only,
}
use autodeploy_web.Wiring.Calls.Loops.{
  WaitsCalls, UpdatesCalls, wait_node_up-Only, wait-Only, create_with_components-Only,
}

pub record NodesCalls (P : Call → Type 0) : Type 0 where
  pub waits : WaitsCalls P
  pub updates : UpdatesCalls P
  pub finding : (t : Text) → P (find_managed_server_by_name t)
  pub finding_repository : (t : Text) → P (find_repository_by_name t)
  pub finding_proxy : (t : Text) → P (find_proxy_by_host t)
  pub adding : (ip role code print : Text) → P (add_linux_host ip role code print)
  pub storing : (spec : HardenedSpec) → P (add_hardened_repository spec)
  pub proxying : (id : Text) (n : ℕ) → P (add_vmware_proxy id n)

module _ {P : Call → Type 0} (find : (t : Text) → P (find_managed_server_by_name t)) where
  pub resolve_mount_server-Only : (ts : List Text) → Only P (resolve_mount_server ts)
  unfolding resolve_mount_server
  resolve_mount_server-Only [] = ret-Only []
  resolve_mount_server-Only (cand ∷ rest) = elim (Bool-cases (is_empty cand)) [
    | inl h ↦ rw (resolve_mount_server, h) (resolve_mount_server-Only rest)
    | inr h ↦
        rw (resolve_mount_server, h)
          (cases-Only _ (ask-Only _ (find cand))
            (λ id. elim (Bool-cases (is_empty id)) [
              | inl e ↦ rw e (resolve_mount_server-Only rest)
              | inr e ↦ rw e (ret-Only id)
            ])
            (λ _. resolve_mount_server-Only rest))
  ]

module _ {P : Call → Type 0} (f : NodesCalls P) (cfg : Settings) where
  add_host-Only : (n : NodeDeploy) → Only P (add_host cfg n)
  unfolding add_host
  add_host-Only n =
      then-Only
        (wrap-Only _ (bind-Only (ask-Only _ (f.adding _ _ _ _)) λ s. wait-Only f.updates cfg s 10))
        (bind-Only (wrap-Only _ (ask-Only _ (f.finding n.ip))) λ id.
          elim (Bool-cases (is_empty id)) [
            | inl e ↦ rw e (fail-Only _)
            | inr e ↦ rw e (ret-Only id)
          ])

  resolve_host-Only : (n : NodeDeploy) → Only P (resolve_host cfg n)
  unfolding resolve_host
  resolve_host-Only n = bind-Only (wrap-Only _ (ask-Only _ (f.finding n.ip))) λ id.
      elim (Bool-cases (is_empty id)) [
        | inl e ↦ rw e (add_host-Only n)
        | inr e ↦ rw e (ret-Only id)
      ]

  create_repository-Only :
      (n : NodeDeploy) (repo host mount : Text) → Only P (create_repository cfg n repo host mount)
  unfolding create_repository
  create_repository-Only n repo host mount = wrap-Only _ (
      create_with_components-Only f.updates cfg max_component_retries host
        (bind-Only (ask-Only _ (f.storing _)) λ s. wait-Only f.updates cfg s 10))

  wire_repository-Only :
      (n : NodeDeploy) (repo host mount : Text) → Only P (wire_repository cfg n repo host mount)
  unfolding wire_repository
  wire_repository-Only n repo host mount =
      bind-Only (wrap-Only _ (ask-Only _ (f.finding_repository repo))) λ id.
        elim (Bool-cases (is_empty id)) [
          | inl e ↦ rw e (
              then-Only (create_repository-Only n repo host mount)
                (wrap-Only _ (ask-Only _ (f.finding_repository repo))))
          | inr e ↦ rw e (ret-Only id)
        ]

  wire_proxy-Only : (n : NodeDeploy) (host : Text) → Only P (wire_proxy cfg n host)
  unfolding wire_proxy
  wire_proxy-Only n host = bind-Only (wrap-Only _ (ask-Only _ (f.finding_proxy host))) λ id.
      elim (Bool-cases (is_empty id)) [
        | inl e ↦ rw e (
            wrap-Only _ (
              create_with_components-Only f.updates cfg max_component_retries host
                (bind-Only (ask-Only _ (f.proxying host 4)) λ s. wait-Only f.updates cfg s 10)))
        | inr e ↦ rw e (ret-Only tt)
      ]

  wire_role-Only :
      (vias : List NodeDeploy) (n : NodeDeploy) (host mount : Text)
      → Only P (wire_role cfg vias n host mount)
  unfolding wire_role
  wire_role-Only vias n host mount = elim (Bool-cases (is_hr n.role)) [
    | inl h ↦
        rw (wire_role, h)
          (bind-Only (wire_repository-Only n (repo_name vias n) host mount)
            λ id. ret-Only (some id))
    | inr h ↦ elim (Bool-cases (is_proxy n.role)) [
      | inl p ↦ rw (wire_role, h, p) (then-Only (wire_proxy-Only n host) (ret-Only none))
      | inr p ↦ rw (wire_role, h, p) (ret-Only none)
    ]
  ]

  pub wire_node-Only :
      (rounds : ℕ) (vias : List NodeDeploy) (mount : Text) (n : NodeDeploy)
      → Only P (wire_node rounds cfg vias mount n)
  unfolding wire_node
  wire_node-Only rounds vias mount n = elim (Bool-cases (is_empty n.ip)) [
    | inl h ↦ rw (wire_node, h) (fail-Only _)
    | inr h ↦
        rw (wire_node, h)
          (then-Only (wrap-Only _ (wait_node_up-Only f.waits rounds n.ip))
            (bind-Only (resolve_host-Only n) λ host. wire_role-Only vias n host mount))
  ]
