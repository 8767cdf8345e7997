-- ===== src/Wiring/Scope.antt =====
-- The calls that `Wire` may and may not make.
use autodeploy_web.Base.{ℕ, Bool, true, false, List, is_empty, ◌≡◌}
use autodeploy_web.Deploy.Run.{NodeDeploy}
use autodeploy_web.Wiring.Program.{
  Call, get_license, install_license, redirect_config_backup, list_backups, delete_backup,
  delete_repository, create_credentials, connection_certificate, create_ha_cluster,
}
use autodeploy_web.Wiring.Settings.{Settings}
use autodeploy_web.Wiring.Pool.{Turn}
use autodeploy_web.Wiring.Topology.{wire}
use autodeploy_web.Wiring.Calls.{Only}
use autodeploy_web.Wiring.Calls.Loops.{WaitsCalls, UpdatesCalls}
use autodeploy_web.Wiring.Calls.Nodes.{NodesCalls}
use autodeploy_web.Wiring.Calls.Advanced.{AdvancedCalls}
use autodeploy_web.Wiring.Calls.Cluster.{LicenseCalls, ClusterCalls, HaCalls}
use autodeploy_web.Wiring.Calls.Whole.{wire-Only}

-- The calls that only a server of the topology's own gets: those on the license, the configuration
-- backup, the backups, the removal of repositories and the cluster.
abbrev pub on_server : Call → Bool
on_server get_license = true
on_server (install_license _) = true
on_server (redirect_config_backup _) = true
on_server (list_backups _) = true
on_server (delete_backup _) = true
on_server (delete_repository _) = true
on_server (create_credentials _ _ _) = true
on_server (connection_certificate _ _) = true
on_server (create_ha_cluster _) = true
on_server _ = false

abbrev Elsewhere : Call → Type 0
Elsewhere c = on_server c ≡ false

-- The creation of a cluster has a floating address and a second node with an address.
abbrev pub ClusterReady : Call → Type 0
ClusterReady (create_ha_cluster s) =
    (is_empty s.cluster_endpoint ≡ false) × (is_empty s.secondary_node_ip ≡ false)
ClusterReady _ = Unit

ready_waits : WaitsCalls ClusterReady
ready_waits = record { dialing = λ _ _. tt; pausing = λ _. tt }

ready_updates : UpdatesCalls ClusterReady
ready_updates = record { waiting = λ _ _ _. tt; updating = λ _. tt }

-- A wiring never asks for a cluster without a floating address or without the address of the
-- second node.
pub wire-ClusterReady :
    (ts : List Turn) (rounds : ℕ) (cfg : Settings) (nodes : List NodeDeploy)
    → Only ClusterReady (wire ts rounds cfg nodes)
wire-ClusterReady ts rounds cfg nodes =
    wire-Only nodes_ready advanced_ready cfg rounds ts license_ready ha_ready (λ _. tt) tt tt nodes
  where
    nodes_ready : NodesCalls ClusterReady
    nodes_ready = record {
      waits = ready_waits;
      updates = ready_updates;
      finding = λ _. tt;
      finding_repository = λ _. tt;
      finding_proxy = λ _. tt;
      adding = λ _ _ _ _. tt;
      storing = λ _. tt;
      proxying = λ _ _. tt;
    }

    advanced_ready : AdvancedCalls ClusterReady
    advanced_ready = record {
      waits = ready_waits;
      updates = ready_updates;
      finding = λ _. tt;
      exporting = λ _ _ _ _. tt;
      forwarding = λ _ _ _. tt;
      crediting = λ _ _ _. tt;
      opening = λ _ _ _ _ _. tt;
      storing = λ _. tt;
    }

    license_ready : LicenseCalls ClusterReady
    license_ready = record { querying = tt; reading = λ _. tt; installing = λ _. tt }

    cluster_ready : ClusterCalls ClusterReady
    cluster_ready = record {
      waits = ready_waits;
      waiting = λ _ _ _. tt;
      crediting = λ _ _ _. tt;
      certifying = λ _ _. tt;
      clustering = λ s e i. (e, i);
    }

    ha_ready : HaCalls ClusterReady
    ha_ready = record {
      cluster = cluster_ready;
      redirecting = λ _. tt;
      finding = λ _. tt;
      listing = λ _. tt;
      deleting_backup = λ _. tt;
      deleting = λ _. tt;
    }
