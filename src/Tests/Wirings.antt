-- ===== src/Tests/Wirings.antt =====
-- The wiring of a topology at concrete inputs (internal/wiring/wiring.go).
use autodeploy_web.Base.{◌+◌, ◌*◌, ◌≡◌, ◌≢◌, true, false, [], ◌∷◌, some, none, Text, text, All, pos}
use autodeploy_web.Deploy.Run.{NodeDeploy}
use autodeploy_web.Wiring.Program.{ret}
use autodeploy_web.Wiring.Guarded.{Guarded}
use autodeploy_web.Wiring.Settings.{Settings, S3Config}
use autodeploy_web.Wiring.Retry.{wait_node_up}
use autodeploy_web.Wiring.Nodes.{wire_node}
use autodeploy_web.Wiring.Pool.{
  advance, context_ends, take_turns, run_pool, start_pool, wire_via_nodes, lowest, canceled,
}
use autodeploy_web.Wiring.Pool.Tokens.{Bounded, take_turns-Bounded}
use autodeploy_web.Wiring.Pool.Ends.{Ended}
use autodeploy_web.Wiring.Pool.Reports.{first_report, Unharmed, run_pool-settles}
use autodeploy_web.Wiring.Pool.Lost.{wire_via_nodes-lost}
use autodeploy_web.Wiring.Topology.{wire}
use autodeploy_web.Wiring.Calls.{Only}
use autodeploy_web.Wiring.Calls.Pool.{calls}
use autodeploy_web.Wiring.Session.{sessions, closed, opened, left, wire-session}
use autodeploy_web.Wiring.Scope.{ClusterReady, wire-ClusterReady}
use autodeploy_web.Wiring.Once.{lookups, wire_node-OnlyMissing}
use autodeploy_web.Wiring.Deletion.{removal, idle}
use autodeploy_web.Wiring.Deletion.Whole.{wire-InOrder}
use autodeploy_web.Wiring.Bounds.{Costs, is_dial, wait_node_up-dials}

abbrev node : Text → Text → Text → NodeDeploy
node name role ip = record {
  name = name;
  role = role;
  cpus = 0;
  memory_mib = 0;
  single_disk = false;
  iso_path = [];
  disks = [];
  ip = ip;
  gateway = [];
  netmask = [];
  pairing_code = [];
  ks_url = [];
  base_iso_path = [];
  boot_command = [];
  ref = [];
}

abbrev storage : S3Config
storage = record {
  name = text "s3";
  compatible = true;
  service_point = text "https://s3.example.com";
  region = text "eu";
  bucket = text "b";
  folder = text "f";
  access_key = text "k";
  secret_key = text "s";
  immutable_days = pos 7;
  mount_server_node = text "proxy";
  overwrite_owner = false;
}

abbrev settings : Settings
settings = record {
  username = text "veeamadmin";
  password = text "pw";
  insecure = true;
  cluster_dns_name = [];
  cluster_endpoint = text "10.0.0.9";
  repo_path = text "/repo";
  immutable_days = pos 7;
  session_timeout = pos 900_000_000_000;
  license_path = text "/data/a.lic";
  target_vbr = record {
    address = text "10.0.0.8";
    port = pos 9419;
    username = [];
    password = [];
    insecure = true;
  };
  node_exporter = true;
  node_exporter_tls = false;
  node_exporter_user = [];
  node_exporter_pass = [];
  syslog_server = text "10.0.0.7";
  syslog_port = pos 514;
  syslog_protocol = text "Udp";
  s3 = some storage;
}

abbrev proxy : NodeDeploy
proxy = node (text "proxy") (text "VIA-Proxy") (text "10.0.0.3")

abbrev repository : NodeDeploy
repository = node (text "repo") (text "VIA-HR") (text "10.0.0.4")

abbrev pair : NodeDeploy
pair = node (text "vsa2") (text "VSA") (text "10.0.0.2")

wire-session_example :
    Guarded sessions
      (λ s _. s ≡ left)
      (λ s _. s ≢ opened)
      (wire
        (advance 1 ∷ advance 0 ∷ [])
        3
        settings
        (node (text "vsa1") (text "VSA") (text "10.0.0.1") ∷ pair ∷ proxy ∷ repository ∷ []))
      closed
wire-session_example =
    wire-session (advance 1 ∷ advance 0 ∷ []) 3 settings
      (node (text "vsa1") (text "VSA") (text "10.0.0.1") ∷ pair ∷ proxy ∷ repository ∷ [])

wire-InOrder_example :
    Guarded removal
      (λ _ _. Unit {0})
      (λ _ _. Unit {0})
      (wire
        (advance 1 ∷ [])
        3
        settings
        (node (text "vsa1") (text "VSA") (text "10.0.0.1") ∷ pair ∷ repository ∷ []))
      idle
wire-InOrder_example =
    wire-InOrder (advance 1 ∷ []) 3 settings
      (node (text "vsa1") (text "VSA") (text "10.0.0.1") ∷ pair ∷ repository ∷ [])

wire-ClusterReady_example : Only ClusterReady (
    wire [] 3 settings (node (text "vsa1") (text "VSA") (text "10.0.0.1") ∷ pair ∷ repository ∷ []))
wire-ClusterReady_example =
    wire-ClusterReady [] 3 settings
      (node (text "vsa1") (text "VSA") (text "10.0.0.1") ∷ pair ∷ repository ∷ [])

wire_node-OnlyMissing_example :
    Guarded lookups
      (λ _ _. Unit {0})
      (λ _ _. Unit {0})
      (wire_node 3 settings (proxy ∷ repository ∷ []) (text "ms") repository)
      (record { server = none; repository = none; proxy = none })
wire_node-OnlyMissing_example =
    wire_node-OnlyMissing 3 settings (proxy ∷ repository ∷ []) (text "ms") repository
      (record { server = none; repository = none; proxy = none })

run_pool-settles_example :
    Guarded
      (calls (λ _. Unit {0}))
      (λ _ s.
        All Ended s.workers
        × (lowest none s.hr_results ≡ first_report 0 s.workers)
        × (canceled s ≡ false → All Unharmed s.workers))
      (λ _ _. ⊥)
      (run_pool
        (advance 1 ∷ advance 1 ∷ advance 0 ∷ [])
        (start_pool (ret (some (text "a")) ∷ ret (some (text "b")) ∷ []) false))
      tt
run_pool-settles_example =
    run_pool-settles (advance 1 ∷ advance 1 ∷ advance 0 ∷ [])
      (ret (some (text "a")) ∷ ret (some (text "b")) ∷ []) false

take_turns-Bounded_example :
    Guarded
      (calls (λ _. Unit {0}))
      (λ _ s. Bounded s)
      (λ _ _. ⊥)
      (take_turns
        (advance 0 ∷ advance 1 ∷ context_ends ∷ [])
        (start_pool (ret none ∷ ret (some (text "b")) ∷ []) false))
      tt
take_turns-Bounded_example =
    take_turns-Bounded (advance 0 ∷ advance 1 ∷ context_ends ∷ [])
      (ret none ∷ ret (some (text "b")) ∷ []) false

wire_via_nodes-lost_example :
    Guarded
      (calls (λ _. ⊥))
      (λ _ (id : Text). id ≡ [])
      (λ _ _. ⊥)
      (wire_via_nodes
        (context_ends ∷ advance 0 ∷ [])
        3
        settings
        (proxy ∷ repository ∷ [])
        (text "ms"))
      tt
wire_via_nodes-lost_example =
    wire_via_nodes-lost (advance 0 ∷ []) 3 settings (proxy ∷ repository ∷ []) (text "ms")

wait_node_up-dials_example : Costs is_dial (3 * (2 + 1)) (wait_node_up 2 (text "10.0.0.3"))
wait_node_up-dials_example = wait_node_up-dials 2 (text "10.0.0.3")
