-- ===== src/Deploy/Manager.antt =====
-- The manager of deployments (internal/deploy/deploy.go): the registry with its pruning, the checks of
-- a start, the stop of a run, the removal, the retries and the deletion. The map of deployments is
-- a list keyed by the id. A specification is copied with its nodes, and the store is left out.
pub mod Registry
pub mod Stop
use mathlib.Core.List.{reverse}
use autodeploy_web.Base.{
  ℕ, zero, suc, ◌+◌, Bool, true, false, not, List, [], ◌∷◌, ◌++◌, map, Option, none, some, Text,
  text, is_empty, leb, if◌then◌else◌, ◌&&◌, ◌||◌, ℤ, pos, pos_part, leb_ℤ, sort_by, any,
}
use autodeploy_web.Base.Registry.{lookup, put, remove, remove_each, excess}
use autodeploy_web.Deploy.Run.{
  State, pending, running, done, failed, canceled, removed, NodeDeploy, kickstart, NodeStatus, Step,
  queued, ready,
}

pub record DeploySpec : Type 0 where
  pub label : Text
  pub nodes : List NodeDeploy
  pub has_hypervisor : Bool
  pub power_on : Bool
  pub has_wirer : Bool
  pub wire_timeout : ℤ
  pub retried_from : Text

-- `cancel_stored` tells whether the run has stored its cancel function, and `context_ended` whether
-- it was called.
pub record Deployment : Type 0 where
  pub id : Text
  pub kind : Text
  pub state : State
  pub nodes : List NodeStatus
  pub created_at : ℕ
  pub finished_at : ℕ
  pub spec : DeploySpec
  pub cancel_stored : Bool
  pub context_ended : Bool
  pub stop_requested : Bool

abbrev pub deployment_id : Deployment → Text
deployment_id d = d.id

-- A cap of 0 is no cap.
pub record Manager : Type 0 where
  pub deployments : List Deployment
  pub keep_completed : ℕ

unfoldable pub is_completed : State → Bool
is_completed pending = false
is_completed running = false
is_completed _ = true

abbrev pub completed : Deployment → Bool
completed d = is_completed d.state

abbrev pub age_key : Deployment → ℕ
age_key d = d.created_at

-- `pruneCompleted`.
unfoldable pub prune_completed : Manager → Manager
prune_completed m = elim m.keep_completed [
  | zero ↦ m
  | suc k ↦ record m {
    deployments =
        remove_each deployment_id (excess completed age_key (suc k) m.deployments) m.deployments;
  }
]

unfoldable pub set_keep_completed : ℤ → Manager → Manager
set_keep_completed n m =
    if leb_ℤ n (pos 0) then m else prune_completed (record m { keep_completed = pos_part n })

pub data StartError : Type 0 where
  no_nodes no_hypervisor : StartError
  no_base_iso no_iso : ℕ → Text → StartError

unfoldable pub node_error : ℕ → NodeDeploy → Option StartError
node_error i n =
    if kickstart n
    then (if is_empty n.base_iso_path then some (no_base_iso i n.name) else none)
    else if is_empty n.iso_path
    then some (no_iso i n.name)
    else none

unfoldable pub node_errors : ℕ → List NodeDeploy → Option StartError
unfolding node_error
node_errors i [] = none
node_errors i (n ∷ ns) = elim (node_error i n) [ some e ↦ some e | none ↦ node_errors (suc i) ns ]

-- The checks of `Start`.
unfoldable pub start_error : DeploySpec → Option StartError
unfolding node_errors
start_error s = elim s.nodes [
  | [] ↦ some no_nodes
  | n ∷ ns ↦ if s.has_hypervisor then node_errors 0 (n ∷ ns) else some no_hypervisor
]

abbrev first_status : NodeDeploy → NodeStatus
first_status n = record {
  hostname = n.name;
  role = n.role;
  step = queued;
  vm_id = [];
  ip = n.ip;
  error = [];
}

unfoldable pub new_deployment : Text → ℕ → DeploySpec → Text → List NodeStatus → Deployment
new_deployment id now s kind nodes = record {
  id = id;
  kind = kind;
  state = pending;
  nodes = nodes;
  created_at = now;
  finished_at = 0;
  spec = s;
  cancel_stored = false;
  context_ended = false;
  stop_requested = false;
}

pub data StartResult : Type 0 where
  rejected : StartError → StartResult
  started : Deployment → Manager → StartResult

unfoldable pub register : Deployment → Manager → Manager
register d m = record m { deployments = put deployment_id d m.deployments }

-- `Start`, with the new id and the clock.
unfoldable pub start : Text → ℕ → DeploySpec → Manager → StartResult
unfolding start_error new_deployment register
start id now s m = elim (start_error s) [
  | some e ↦ rejected e
  | none ↦
      let d = new_deployment id now s s.label (map first_status s.nodes) in started d (register d m)
]

-- The beginning of `run`: the state, and then the cancel function.
unfoldable pub begin_run : Deployment → Deployment
begin_run d = record d { state = running; cancel_stored = true }

-- What `Cancel` does to the deployment that it found.
unfoldable pub request_stop : Deployment → Deployment
request_stop d =
    if d.stop_requested
    then d
    else record d { stop_requested = true; context_ended = d.context_ended || d.cancel_stored }

unfoldable pub cancel : Text → Manager → Bool × Manager
unfolding request_stop
cancel id m = elim (lookup deployment_id id m.deployments) [
  | none ↦ (false, m)
  | some d ↦ (true, record m { deployments = put deployment_id (request_stop d) m.deployments })
]

abbrev clear_node : NodeStatus → NodeStatus
clear_node n = record n { step = Step.removed; vm_id = [] }

-- The loop of `Remove` over the created VMs: how many were destroyed, of those asked for.
unfoldable pub destroy_each : (Text → Bool) → List NodeStatus → ℕ × List Text
destroy_each gone [] = (0, [])
destroy_each gone (n ∷ ns) =
    let (k, asked) = destroy_each gone ns in
    if is_empty n.vm_id
    then (k, asked)
    else if gone n.vm_id
    then (suc k, n.vm_id ∷ asked)
    else (k, n.vm_id ∷ asked)

-- `Remove` once the run has ended or the wait is over: the VMs destroyed, those asked for, and the
-- record that is kept.
unfoldable pub remove_vms : (Text → Bool) → Deployment → (ℕ × List Text) × Deployment
unfolding destroy_each
remove_vms gone d = (
  (if d.spec.has_hypervisor then destroy_each gone d.nodes else (0, [])),
  record d { state = removed; nodes = map clear_node d.nodes },
)

pub data Refusal : Type 0 where
  not_found still_running no_spec no_wirer no_vms : Refusal

unfoldable pub retry_spec : Text → Manager → Option DeploySpec
retry_spec id m = elim (lookup deployment_id id m.deployments) [
  | none ↦ none
  | some d ↦ elim d.spec.nodes [
    | [] ↦ none
    | _ ∷ _ ↦ if d.spec.has_hypervisor then some (record d.spec { retried_from = id }) else none
  ]
]

pub data WireSpec : Type 0 where
  refused : Refusal → WireSpec
  accepted : DeploySpec → WireSpec

abbrev pub is_running : State → Bool
is_running running = true
is_running _ = false

-- 45 minutes.
abbrev pub default_wire_timeout : ℤ
default_wire_timeout = pos 2700000000000

abbrev pub timeout_for : ℤ → ℤ → ℤ
timeout_for given kept =
    if leb_ℤ given (pos 0)
    then (if leb_ℤ kept (pos 0) then default_wire_timeout else kept)
    else given

-- `RetryWire`, up to the start of the new run.
unfoldable pub retry_wire_spec : Text → ℤ → Manager → WireSpec
retry_wire_spec id given m = elim (lookup deployment_id id m.deployments) [
  | none ↦ refused not_found
  | some d ↦
      if is_running d.state
      then refused still_running
      else if not d.spec.has_wirer
      then refused no_wirer
      else if not (any (λ (n : NodeDeploy). not (is_empty n.ref)) d.spec.nodes)
      then refused no_vms
      else accepted (record d.spec {
        wire_timeout = timeout_for given d.spec.wire_timeout;
        retried_from = id;
      })
]

abbrev wired_status : NodeDeploy → NodeStatus
wired_status n = record {
  hostname = n.name;
  role = n.role;
  step = ready;
  vm_id = n.ref;
  ip = n.ip;
  error = [];
}

-- `startWireOnly`.
unfoldable pub start_wire_only : Text → ℕ → DeploySpec → Manager → Deployment × Manager
unfolding new_deployment register
start_wire_only id now s m =
    let d = new_deployment id now s (s.label ++ text " — wire retry") (map wired_status s.nodes) in
    (d, register d m)

pub data DeleteResult : Type 0 where
  kept : Refusal → DeleteResult
  deleted : Manager → (store_error : Option Text) → DeleteResult

-- `Delete`, with the error of the store's `Delete`, none where there is no store.
unfoldable pub delete : Option Text → Text → Manager → DeleteResult
delete store_error id m = elim (lookup deployment_id id m.deployments) [
  | none ↦ kept not_found
  | some d ↦
      if is_completed d.state
      then deleted (record m { deployments = remove deployment_id id m.deployments }) store_error
      else kept still_running
]

-- The deferred end of `run` and `runWireOnly`, once the run has set its state.
unfoldable pub end_run : ℕ → State → Deployment → Manager → Manager
unfolding register prune_completed
end_run now state d m = prune_completed (register (record d { state = state; finished_at = now }) m)

unfoldable pub get : Text → Manager → Option Deployment
get id m = lookup deployment_id id m.deployments

-- `List`: newest first.
unfoldable pub list : Manager → List Deployment
list m = reverse (sort_by age_key m.deployments)
