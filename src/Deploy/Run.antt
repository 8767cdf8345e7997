-- ===== src/Deploy/Run.antt =====
-- The run of a deployment (`run`, `deployNode`, `resolveNodeIPs`, `runWireOnly` of
-- internal/deploy/deploy.go). The hypervisor and the wirer are outside: an oracle answers each
-- call from the calls before it, and says whether a stop was requested by then. The statuses of the
-- nodes, the specification's nodes and the calls (newest first) are the state; the human text of
-- the log is left out.
pub mod Calls
pub mod Outcome
pub mod Ends
use mathlib.Core.List.{reverse}
use autodeploy_web.Base.{
  ℕ, zero, suc, ◌+◌, Bool, true, false, not, List, [], ◌∷◌, ◌++◌, map, Option, none, some, Text,
  text, is_empty, ltb, ◌==◌, if◌then◌else◌, ◌&&◌, ◌||◌, length, get_elem?, set,
}
use autodeploy_web.Deploy.BootCommand.{
  ip_kernel_arg, boot_command_keys, boot_command_keys_from_text,
}

pub data State : Type 0 where
  pending running done failed canceled removed : State

pub data Step : Type 0 where
  queued uploading creating_vm attaching booting kickstarting created installing ready failed
        canceled removed :
      Step

pub record NodeDeploy : Type 0 where
  pub name : Text
  pub role : Text
  pub cpus : ℕ
  pub memory_mib : ℕ
  pub single_disk : Bool
  pub iso_path : Text
  pub disks : List ℕ
  pub ip : Text
  pub gateway : Text
  pub netmask : Text
  pub pairing_code : Text
  pub ks_url : Text
  pub base_iso_path : Text
  pub boot_command : Text
  pub ref : Text

abbrev pub kickstart : NodeDeploy → Bool
kickstart n = not (is_empty n.ks_url)

pub record NodeStatus : Type 0 where
  pub hostname : Text
  pub role : Text
  pub step : Step
  pub vm_id : Text
  pub ip : Text
  pub error : Text

pub record VmSpec : Type 0 where
  pub name : Text
  pub disks : List ℕ
  pub cpus : ℕ
  pub memory_mib : ℕ

pub data Call : Type 0 where
  find_iso upload_iso : Text → Call
  create_vm : VmSpec → Call
  attach_iso : Text → Text → Call
  set_boot_disk_then_cd power_on : Text → Call
  send_keys : Text → List Text → Call
  wire : List NodeDeploy → Call

pub data Answer (A : Type 0) : Type 0 where
  ok : A → Answer A
  err : Text → Answer A

-- What the goroutines that poll `GetVMIP` deliver, and the end of the context.
pub data Arrival : Type 0 where
  resolved : ℕ → Text → Arrival
  poll_failed expired : Text → Arrival

pub record Hypervisor : Type 0 where
  pub find : List Call → Text → Answer Text
  pub upload : List Call → Text → Answer Text
  pub create : List Call → VmSpec → Answer Text
  pub attach : List Call → Text → Text → Option Text
  pub set_boot : List Call → Text → Option Text
  pub power : List Call → Text → Option Text
  pub boot_wait : List Call → Option Text
  pub keys : List Call → Text → List Text → Option Text
  pub arrivals : List Call → List ℕ → List Arrival
  pub wiring : List Call → List NodeDeploy → Option Text
  pub stop_requested : List Call → Bool

pub record Spec : Type 0 where
  pub cpus : ℕ
  pub memory_mib : ℕ
  pub power_on : Bool
  pub has_wirer : Bool

pub record World : Type 0 where
  pub trace : List Call
  pub nodes : List NodeStatus
  pub targets : List NodeDeploy

abbrev pub Result : Type 0 → Type 0
Result A = Answer A × World

unfoldable pub and_then : {A B : Type 0} → Result A → (A → World → Result B) → Result B
and_then (ok a, w) k = k a w
and_then (err e, w) k = (err e, w)

unfoldable pub prefixed : {A : Type 0} → Text → Answer A → Answer A
prefixed p (ok a) = ok a
prefixed p (err e) = err (p ++ e)

unfoldable pub answered : Text → Option Text → Answer Unit
answered p none = ok tt
answered p (some e) = err (p ++ e)

abbrev pub called : Call → World → World
called c w = record w { trace = c ∷ w.trace }

abbrev pub update : {A : Type 0} → ℕ → (A → A) → List A → List A
update i f xs = elim (get_elem? xs i) [ none ↦ xs | some x ↦ set xs i (f x) ]

-- `setNode`.
abbrev pub set_node : ℕ → (NodeStatus → NodeStatus) → World → World
set_node i f w = record w { nodes = update i f w.nodes }

abbrev pub at_step : Step → NodeStatus → NodeStatus
at_step s n = record n { step = s }

drop_slashes : Text → Text
drop_slashes [] = []
drop_slashes (c ∷ s) = let rest = drop_slashes s in if c == 47 then rest else c ∷ s

before_slash : Text → Text
before_slash [] = []
before_slash (c ∷ s) = let rest = before_slash s in if c == 47 then [] else c ∷ rest

-- `filepath.Base`.
unfoldable pub base_name : Text → Text
unfolding drop_slashes before_slash
base_name path =
    if is_empty path
    then text "."
    else (let bare = drop_slashes (reverse path) in
        if is_empty bare then text "/" else reverse (before_slash bare))

module _ (hv : Hypervisor) where
  unfoldable pub upload_iso_file : Text → Text → World → Result Text
  upload_iso_file p path w = (prefixed p (hv.upload w.trace path), called (upload_iso path) w)

  -- The ISO of a node: of the library, or uploaded.
  unfoldable pub node_iso : NodeDeploy → World → Result Text
  unfolding upload_iso_file base_name
  node_iso node w =
      if kickstart node
      then and_then
          (
            prefixed (text "find base ISO: ") (hv.find w.trace (base_name node.base_iso_path)),
            called (find_iso (base_name node.base_iso_path)) w,
          )
          (λ ref v.
            if is_empty ref
            then upload_iso_file (text "upload base ISO: ") node.base_iso_path v
            else (ok ref, v))
      else upload_iso_file (text "upload ISO: ") node.iso_path w

  abbrev pub vm_spec : Spec → NodeDeploy → VmSpec
  vm_spec spec node = record {
    name = node.name;
    disks = node.disks;
    cpus = (if ltb 0 node.cpus then node.cpus else spec.cpus);
    memory_mib = (if ltb 0 node.memory_mib then node.memory_mib else spec.memory_mib);
  }

  unfoldable pub create_node : Spec → ℕ → NodeDeploy → World → Result Text
  create_node spec i node w =
      and_then
        (
          prefixed (text "create VM: ") (hv.create w.trace (vm_spec spec node)),
          called (create_vm (vm_spec spec node)) (set_node i (at_step creating_vm) w),
        )
        (λ vm v. (ok vm, set_node i (λ n. record n { vm_id = vm }) v))

  unfoldable pub attach_node : ℕ → Text → Text → World → Result Unit
  attach_node i vm iso w = (
    answered (text "attach ISO: ") (hv.attach w.trace vm iso),
    called (attach_iso vm iso) (set_node i (at_step attaching) w),
  )

  unfoldable pub order_node : Text → World → Result Unit
  order_node vm w = (
    answered (text "set boot order: ") (hv.set_boot w.trace vm),
    called (set_boot_disk_then_cd vm) w,
  )

  unfoldable pub power_node : Spec → ℕ → NodeDeploy → Text → World → Result Unit
  power_node spec i node vm w =
      if spec.power_on || kickstart node
      then (
        answered (text "power on: ") (hv.power w.trace vm),
        called (power_on vm) (set_node i (at_step booting) w),
      )
      else (ok tt, w)

  unfoldable pub node_keys : NodeDeploy → List Text
  node_keys node =
      if is_empty node.boot_command
      then boot_command_keys node.role node.ks_url
          (ip_kernel_arg node.ip node.gateway node.netmask node.name) node.single_disk
      else boot_command_keys_from_text node.boot_command

  unfoldable pub type_boot_command : ℕ → NodeDeploy → Text → World → Result Unit
  unfolding node_keys
  type_boot_command i node vm w =
      if kickstart node
      then and_then (answered [] (hv.boot_wait w.trace), set_node i (at_step kickstarting) w)
          (λ _ v. (
            answered (text "type boot command: ") (hv.keys v.trace vm (node_keys node)),
            called (send_keys vm (node_keys node)) v,
          ))
      else (ok tt, w)

  abbrev pub final_step : Spec → NodeDeploy → Step
  final_step spec node = if spec.power_on || kickstart node then installing else created

  -- `deployNode` once the VM is created.
  unfoldable pub after_create : Spec → ℕ → NodeDeploy → Text → Text → World → Result Text
  unfolding attach_node order_node power_node type_boot_command
  after_create spec i node iso vm w2 = and_then (attach_node i vm iso w2) (λ _ w3.
      and_then (order_node vm w3) (λ _ w4. and_then (power_node spec i node vm w4) (λ _ w5.
        and_then (type_boot_command i node vm w5)
          (λ _ w6. (ok vm, set_node i (at_step (final_step spec node)) w6)))))

  -- `deployNode`.
  unfoldable pub deploy_node : Spec → ℕ → NodeDeploy → World → Result Text
  unfolding node_iso create_node after_create
  deploy_node spec i node w =
      and_then (node_iso node (set_node i (λ n. record n { step = uploading; ip = node.ip }) w))
        (λ iso w1.
          and_then (create_node spec i node w1) (λ vm w2. after_create spec i node iso vm w2))

  -- How a run ended: its state and its error.
  abbrev pub Ending : Type 0
  Ending = State × Text

  abbrev pub stopped_or_failed : Text → World → Ending
  stopped_or_failed e w = if hv.stop_requested w.trace then (canceled, []) else (failed, e)

  abbrev pub failing_step : Text → World → NodeStatus → NodeStatus
  failing_step e w n =
      if hv.stop_requested w.trace
      then record n { step = canceled }
      else record n { step = failed; error = e }

  -- The loop over the nodes: none when all are deployed.
  unfoldable pub deploy_nodes : Spec → ℕ → List NodeDeploy → World → Option Ending × World
  unfolding deploy_node
  deploy_nodes spec i [] w = (none, w)
  deploy_nodes spec i (node ∷ nodes) w =
      let (a, v) = deploy_node spec i node w in
      elim a [
        | err e ↦ (
          some (stopped_or_failed (text "node " ++ node.name ++ text ": " ++ e) v),
          set_node i (failing_step e v) v,
        )
        | ok vm ↦
            deploy_nodes spec (suc i) nodes
              (record v { targets = update i (λ n. record n { ref = vm }) v.targets })
      ]

  -- The indices of the nodes without an address, from i.
  unfoldable pub unresolved : ℕ → List NodeDeploy → List ℕ
  unresolved i [] = []
  unresolved i (n ∷ ns) =
      let rest = unresolved (suc i) ns in
      if is_empty n.ip && not (is_empty n.ref) then i ∷ rest else rest

  -- The loop that collects as many addresses as are pending; the context ends it in any case.
  unfoldable pub collect : ℕ → List Arrival → World → Option Text × World
  collect zero rest w = (none, w)
  collect (suc k) [] w = (some (text "context deadline exceeded"), w)
  collect (suc k) (resolved i ip ∷ rest) w = collect k rest (
      set_node i (λ n. record n { ip = ip })
        (record w { targets = update i (λ n. record n { ip = ip }) w.targets }))
  collect (suc k) (poll_failed e ∷ rest) w = (some e, w)
  collect (suc k) (expired e ∷ rest) w = (some e, w)

  -- `resolveNodeIPs`.
  unfoldable pub resolve_node_ips : World → Option Text × World
  unfolding unresolved collect
  resolve_node_ips w =
      let pending = unresolved 0 w.targets in
      collect (length pending) (hv.arrivals w.trace pending) w

  abbrev pub promote : NodeStatus → NodeStatus
  promote n = elim n.step [ installing ↦ record n { step = ready } | _ ↦ n ]

  -- The wiring of the nodes, with what is done on success.
  unfoldable pub wire_nodes : (World → World) → World → Ending × World
  wire_nodes finish w = elim (hv.wiring w.trace w.targets) [
    | some e ↦ (
      stopped_or_failed (text "wiring: " ++ e) (called (wire w.targets) w),
      called (wire w.targets) w,
    )
    | none ↦ ((done, []), finish (called (wire w.targets) w))
  ]

  unfoldable pub resolve_and_wire : (World → World) → World → Ending × World
  unfolding resolve_node_ips wire_nodes
  resolve_and_wire finish w =
      let (o, v) = resolve_node_ips w in
      elim o [
        | some e ↦ (stopped_or_failed (text "ip resolution: " ++ e) v, v)
        | none ↦ wire_nodes finish v
      ]

  -- `run`, between its beginning and its deferred end, which change the deployment's record.
  unfoldable pub run : Spec → World → Ending × World
  unfolding deploy_nodes resolve_and_wire
  run spec w =
      let (o, v) = deploy_nodes spec 0 w.targets w in
      elim o [
        | some e ↦ (e, v)
        | none ↦
            if spec.has_wirer && spec.power_on
            then resolve_and_wire (λ u. record u { nodes = map promote u.nodes }) v
            else ((done, []), v)
      ]

  -- `runWireOnly`, in the same way.
  unfoldable pub run_wire_only : World → Ending × World
  unfolding resolve_and_wire
  run_wire_only w = resolve_and_wire (λ u. u) w
