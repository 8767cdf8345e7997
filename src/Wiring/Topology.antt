-- ===== src/Wiring/Topology.antt =====
-- `Wirer.Wire`.
use autodeploy_web.Base.{
  ℕ, true, false, not, List, [], ◌∷◌, ◌++◌, Text, text, is_empty, keep_if, pos,
}
use autodeploy_web.Base.Decimal.{format_int}
use autodeploy_web.Deploy.Run.{NodeDeploy}
use autodeploy_web.Wiring.Program.{
  Server, redirect_config_backup, Program, ret, fail, ◌>>=◌, ◌>>◌, ask, wrap, finally_logout,
}
use autodeploy_web.Wiring.Settings.{Settings, is_vsa, text_or, positive_or, quoted}
use autodeploy_web.Wiring.Retry.{wait_ready}
use autodeploy_web.Wiring.Nodes.{resolve_mount_server}
use autodeploy_web.Wiring.Pool.{Turn, wire_via_nodes}
use autodeploy_web.Wiring.Cluster.{install, remove_default_repository, create_ha}
use autodeploy_web.Wiring.Advanced.{apply_advanced}

unfoldable pub vsa_nodes : List NodeDeploy → List NodeDeploy
vsa_nodes nodes = keep_if (λ (n : NodeDeploy). is_vsa n.role) nodes

unfoldable pub via_nodes : List NodeDeploy → List NodeDeploy
via_nodes nodes = keep_if (λ (n : NodeDeploy). not (is_vsa n.role)) nodes

-- The existing VBR of a topology without a VSA.
unfoldable pub target_server : Settings → Server
target_server cfg =
    let t = cfg.target_vbr in
    record {
      base_url =
          text "https://" ++ t.address ++ text ":" ++ format_int (positive_or t.port (pos 9419));
      username = text_or t.username (text "veeamadmin");
      password = t.password;
      insecure = t.insecure;
    }

unfoldable pub primary_server : Settings → NodeDeploy → Server
primary_server cfg primary = record {
  base_url = text "https://" ++ primary.ip ++ text ":9419";
  username = cfg.username;
  password = cfg.password;
  insecure = cfg.insecure;
}

-- What is done once the REST service has answered.
unfoldable pub standalone_steps : List Turn → ℕ → Settings → List NodeDeploy → Program (Unit {0})
standalone_steps ts rounds cfg nodes = do
  mount ← resolve_mount_server (cfg.target_vbr.address ∷ [])
  wire_via_nodes ts rounds cfg (via_nodes nodes) mount
  apply_advanced cfg nodes

unfoldable pub wire_standalone : List Turn → ℕ → Settings → List NodeDeploy → Program (Unit {0})
wire_standalone ts rounds cfg nodes = elim (is_empty cfg.target_vbr.address) [
  | true ↦ fail (text "no VSA node in topology and no target VBR address configured — cannot wire")
  | false ↦ do
    wait_ready rounds (target_server cfg)
    finally_logout (standalone_steps ts rounds cfg nodes)
]

unfoldable pub license_step : Settings → Program (Unit {0})
license_step cfg = elim (is_empty cfg.license_path) [
  | true ↦ ret tt
  | false ↦ wrap (text "install license: ") (install cfg)
]

-- The configuration backup moves to the hardened repository before the default one is removed.
unfoldable pub free_default_repository : Settings → Text → Program (Unit {0})
free_default_repository cfg hardened = elim (is_empty hardened) [
  | true ↦ ret tt
  | false ↦ do
    wrap (text "redirect config backup: ") (ask (redirect_config_backup hardened))
    wrap (text "remove default repository: ") (remove_default_repository cfg)
]

-- The HA block, with the VSA nodes after the first.
unfoldable pub ha_step : ℕ → Settings → NodeDeploy → List NodeDeploy → Text → Program (Unit {0})
ha_step rounds cfg primary [] hardened = ret tt
ha_step rounds cfg primary (secondary ∷ _) hardened = do
  free_default_repository cfg hardened
  create_ha rounds cfg primary secondary

unfoldable pub primary_steps :
    List Turn → ℕ → Settings → List NodeDeploy → NodeDeploy → List NodeDeploy → Program (Unit {0})
primary_steps ts rounds cfg nodes primary others = do
  license_step cfg
  mount ← resolve_mount_server (primary.ip ∷ primary.name ∷ [])
  hardened ← wire_via_nodes ts rounds cfg (via_nodes nodes) mount
  ha_step rounds cfg primary others hardened
  apply_advanced cfg nodes

unfoldable pub wire_primary :
    List Turn → ℕ → Settings → List NodeDeploy → NodeDeploy → List NodeDeploy → Program (Unit {0})
wire_primary ts rounds cfg nodes primary others = elim (is_empty primary.ip) [
  | true ↦ fail (text "VSA node " ++ quoted primary.name ++ text " has no IP")
  | false ↦ do
    wait_ready rounds (primary_server cfg primary)
    finally_logout (primary_steps ts rounds cfg nodes primary others)
]

abbrev pub by_vsas :
    List Turn → ℕ → Settings → List NodeDeploy → List NodeDeploy → Program (Unit {0})
by_vsas ts rounds cfg nodes [] = wire_standalone ts rounds cfg nodes
by_vsas ts rounds cfg nodes (primary ∷ others) = wire_primary ts rounds cfg nodes primary others

-- The schedule of the goroutines and the rounds of the waits come first.
unfoldable pub wire : List Turn → ℕ → Settings → List NodeDeploy → Program (Unit {0})
unfolding vsa_nodes
wire ts rounds cfg nodes = by_vsas ts rounds cfg nodes (vsa_nodes nodes)
