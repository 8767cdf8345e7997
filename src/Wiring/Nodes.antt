-- ===== src/Wiring/Nodes.antt =====
-- The goroutine of `wireVIANodes` for one node, and `resolveMountServer`.
use autodeploy_web.Base.{
  ℕ, true, false, List, [], ◌∷◌, ◌++◌, Option, none, some, Text, text, text_eq, is_empty, ltb, ◌&&◌,
  if◌then◌else◌, length, keep_if,
}
use autodeploy_web.Deploy.Run.{NodeDeploy}
use autodeploy_web.Wiring.Program.{
  HardenedSpec, find_managed_server_by_name, find_repository_by_name, find_proxy_by_host,
  add_linux_host, add_hardened_repository, add_vmware_proxy, ok, err, Program, ret, fail, ◌>>=◌,
  ◌>>◌, ask, attempt, wrap,
}
use autodeploy_web.Wiring.Settings.{Settings, is_hr, is_proxy, pairing, quoted}
use autodeploy_web.Wiring.Retry.{wait, wait_node_up, create_with_components, max_component_retries}

-- `resolveMountServer`.
unfoldable pub resolve_mount_server : List Text → Program Text
resolve_mount_server [] = ret []
resolve_mount_server (cand ∷ rest) = elim (is_empty cand) [
  | true ↦ resolve_mount_server rest
  | false ↦ do
    found ← attempt (ask (find_managed_server_by_name cand))
    elim found [
      | err _ ↦ resolve_mount_server rest
      | ok id ↦ elim (is_empty id) [ true ↦ resolve_mount_server rest | false ↦ ret id ]
    ]
]

-- `hrNameCount[name]`.
unfoldable pub hr_name_count : List NodeDeploy → Text → ℕ
hr_name_count vias name =
    length (keep_if (λ (n : NodeDeploy). is_hr n.role && text_eq n.name name) vias)

unfoldable pub repo_name : List NodeDeploy → NodeDeploy → Text
repo_name vias n =
    let base = text "HR-" ++ n.name in
    if ltb 1 (hr_name_count vias n.name) then base ++ text "-" ++ n.ip else base

-- The host's id, added when it is not known.
unfoldable pub add_host : Settings → NodeDeploy → Program Text
add_host cfg n = do
  wrap (text "add host " ++ n.ip ++ text ": ")
      (ask (add_linux_host n.ip n.role (pairing n) []) >>= λ sess. wait cfg sess 10)
  id ←
      wrap (text "resolve managed server " ++ n.ip ++ text ": ")
        (ask (find_managed_server_by_name n.ip))
  elim (is_empty id) [
    | true ↦ fail (text "resolve managed server " ++ n.ip ++ text ": <nil>")
    | false ↦ ret id
  ]

unfoldable pub resolve_host : Settings → NodeDeploy → Program Text
resolve_host cfg n = do
  id ←
      wrap (text "lookup managed server " ++ n.ip ++ text ": ")
        (ask (find_managed_server_by_name n.ip))
  elim (is_empty id) [ true ↦ add_host cfg n | false ↦ ret id ]

unfoldable pub hardened_spec : Settings → Text → Text → Text → HardenedSpec
hardened_spec cfg repo host mount = record {
  name = repo;
  host_id = host;
  path = cfg.repo_path;
  xfs_fast_clone = true;
  immutable_days = cfg.immutable_days;
  mount_server_id = mount;
}

unfoldable pub create_repository : Settings → NodeDeploy → Text → Text → Text → Program (Unit {0})
create_repository cfg n repo host mount = wrap (text "add hardened repo " ++ n.ip ++ text ": ") (
    create_with_components max_component_retries cfg host (
      ask (add_hardened_repository (hardened_spec cfg repo host mount)) >>= λ sess.
      wait cfg sess 10))

-- The case of a hardened repository, with the repository's name: its id.
unfoldable pub wire_repository : Settings → NodeDeploy → Text → Text → Text → Program Text
wire_repository cfg n repo host mount = do
  id ← wrap (text "lookup repo " ++ repo ++ text ": ") (ask (find_repository_by_name repo))
  elim (is_empty id) [
    | true ↦ do
      create_repository cfg n repo host mount
      wrap (text "resolve repo " ++ repo ++ text ": ") (ask (find_repository_by_name repo))
    | false ↦ ret id
  ]

unfoldable pub wire_proxy : Settings → NodeDeploy → Text → Program (Unit {0})
wire_proxy cfg n host = do
  existing ← wrap (text "lookup proxy " ++ n.ip ++ text ": ") (ask (find_proxy_by_host host))
  elim (is_empty existing) [
    | false ↦ ret tt
    | true ↦ wrap (text "add proxy " ++ n.ip ++ text ": ") (
        create_with_components max_component_retries cfg host
          (ask (add_vmware_proxy host 4) >>= λ sess. wait cfg sess 10))
  ]

-- What a host becomes, by the node's role: the id of its hardened repository, if it has one.
unfoldable pub wire_role :
    Settings → List NodeDeploy → NodeDeploy → Text → Text → Program (Option Text)
wire_role cfg vias n host mount = elim (is_hr n.role) [
  | true ↦ wire_repository cfg n (repo_name vias n) host mount >>= λ id. ret (some id)
  | false ↦ elim (is_proxy n.role) [ true ↦ wire_proxy cfg n host >> ret none | false ↦ ret none ]
]

unfoldable pub wire_node :
    ℕ → Settings → List NodeDeploy → Text → NodeDeploy → Program (Option Text)
wire_node rounds cfg vias mount n = elim (is_empty n.ip) [
  | true ↦ fail (text "node " ++ quoted n.name ++ text " (" ++ n.role ++ text ") has no IP")
  | false ↦ do
    wrap (text "node " ++ n.ip ++ text " not reachable: ") (wait_node_up rounds n.ip)
    host ← resolve_host cfg n
    wire_role cfg vias n host mount
]
