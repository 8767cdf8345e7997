-- ===== src/Tests/Deploys.antt =====
-- A deployment of two nodes on a concrete hypervisor, which refuses the second VM, and the
-- topologies (internal/deploy/deploy.go, internal/topology/topology.go).
use autodeploy_web.Base.{◌≡◌, refl, true, false, [], ◌∷◌, none, Text, text, if◌then◌else◌, text_eq}
use autodeploy_web.Base.{ℕ, ◌≢◌, ◌↔◌, ◌⊎◌, List, keep_if, pos}
use autodeploy_web.Base.{All}
use autodeploy_web.Base.Registry.{Distinct}
use autodeploy_web.Base.Registry.Laws.{Pruned}
use autodeploy_web.Deploy.Run.{State, pending, running, done, failed}
use autodeploy_web.Base.{some, map, ◌<◌, arith}
use autodeploy_web.Deploy.BootCommand.{keys_for_text}
use autodeploy_web.Deploy.BootCommand.Typing.{types, typable, keys_for_text-types}
use autodeploy_web.Deploy.Manager.{
  DeploySpec, Deployment, Manager, deployment_id, completed, age_key, prune_completed, start_error,
  request_stop, begin_run, delete,
}
use autodeploy_web.Deploy.Manager.Stop.{Ready, start_error-Ready, request_stops, early-stop_lost}
use autodeploy_web.Deploy.Manager.Registry.{Deletion, prune_completed_lem, delete_lem}
use autodeploy_web.Deploy.Run.{
  NodeDeploy, NodeStatus, queued, ok, err, Hypervisor, Spec, World, run,
}
use autodeploy_web.Deploy.Run.Ends.{RunEnd, run-RunEnd}

abbrev full_hypervisor : Hypervisor
full_hypervisor = record {
  find = λ cs t. ok t;
  upload = λ cs t. ok t;
  create = λ cs v. if text_eq v.name (text "hr") then err (text "no space") else ok (text "101");
  attach = λ cs vm iso. none;
  set_boot = λ cs vm. none;
  power = λ cs vm. none;
  boot_wait = λ cs. none;
  keys = λ cs vm ks. none;
  arrivals = λ cs is. [];
  wiring = λ cs ns. none;
  stop_requested = λ cs. false;
}

abbrev node : Text → NodeDeploy
node n = record {
  name = n;
  role = text "VSA";
  cpus = 0;
  memory_mib = 0;
  single_disk = false;
  iso_path = text "/data/output/a.iso";
  disks = 256 ∷ [];
  ip = text "10.0.0.1";
  gateway = text "10.0.0.254";
  netmask = text "255.255.255.0";
  pairing_code = [];
  ks_url = [];
  base_iso_path = [];
  boot_command = [];
  ref = [];
}

abbrev status : Text → NodeStatus
status n = record {
  hostname = n;
  role = text "VSA";
  step = queued;
  vm_id = [];
  ip = [];
  error = [];
}

abbrev two_nodes : World
two_nodes = record {
  trace = [];
  nodes = status (text "vsa") ∷ status (text "hr") ∷ [];
  targets = node (text "vsa") ∷ node (text "hr") ∷ [];
}

abbrev left_off : Spec
left_off = record { cpus = 4; memory_mib = 8192; power_on = false; has_wirer = true }

run-RunEnd_example :
    RunEnd full_hypervisor two_nodes
      (run full_hypervisor left_off two_nodes).0
      (run full_hypervisor left_off two_nodes).1
run-RunEnd_example = run-RunEnd full_hypervisor left_off two_nodes

abbrev request : DeploySpec
request = record {
  label = text "vsa+hr";
  nodes = node (text "vsa") ∷ node (text "hr") ∷ [];
  has_hypervisor = true;
  power_on = true;
  has_wirer = false;
  wire_timeout = pos 0;
  retried_from = [];
}

start_error-Ready_example :
    (start_error request ≡ none) ↔ ((request.nodes ≢ []) × (true ≡ true) × All Ready request.nodes)
start_error-Ready_example = start_error-Ready request

abbrev deployment : Text → State → ℕ → Deployment
deployment id state at = record {
  id = id;
  kind = text "vsa+hr";
  state = state;
  nodes = [];
  created_at = at;
  finished_at = 0;
  spec = request;
  cancel_stored = false;
  context_ended = false;
  stop_requested = false;
}

abbrev three : Manager
three = record {
  deployments =
      deployment (text "a") failed 7
      ∷ deployment (text "b") running 5
      ∷ deployment (text "c") done 3
      ∷ [];
  keep_completed = 1;
}

three_differ : Distinct deployment_id three.deployments
unfolding text text_eq
three_differ = ((refl, (refl, tt)), ((refl, tt), (tt, tt)))

prune_completed_lem_example :
    ((three.keep_completed ≡ 0) × ((prune_completed three).deployments ≡ three.deployments))
    ⊎ ((three.keep_completed ≢ 0)
        × Pruned deployment_id completed age_key 1 three.deployments
            (prune_completed three).deployments)
prune_completed_lem_example = prune_completed_lem 1 three three_differ refl

delete_lem_example :
    Deletion
      (some (text "locked"))
      (text "b")
      three
      (delete (some (text "locked")) (text "b") three)
delete_lem_example = delete_lem (some (text "locked")) (text "b") three

abbrev two_vms : List NodeStatus
two_vms =
    record (status (text "vsa")) { vm_id = text "101" }
    ∷ status (text "proxy")
    ∷ record (status (text "hr")) { vm_id = text "102" }
    ∷ []

abbrev fresh : Deployment
fresh = deployment (text "a") pending 7

early-stop_lost_example : (request_stops 2 (begin_run (request_stop fresh))).context_ended ≡ false
early-stop_lost_example = early-stop_lost 2 fresh refl refl refl

abbrev argument : Text
argument = text "ip=::"

argument_ascii : All (λ c. c < 128) argument
unfolding text
argument_ascii = (omega arith, (omega arith, (omega arith, (omega arith, (omega arith, tt)))))

keys_for_text-types_example :
    map types (keys_for_text argument) ≡ map some (keep_if typable argument)
keys_for_text-types_example = keys_for_text-types argument argument_ascii
