-- ===== src/Deploy/Manager/Stop.antt =====
-- What a stop and a removal do (`Cancel` and `Remove` of internal/deploy/deploy.go).
use mathlib.Core.Path.{subst}
use autodeploy_web.Base.{
  ℕ, zero, suc, ◌≡◌, ◌≢◌, ◌↔◌, ◌⊎◌, inl, inr, refl, sym, ap, ◌∙◌, Bool, true, false, not, List, [],
  ◌∷◌, map, Option, none, some, Text, is_empty, is_empty_iff, if◌then◌else◌, ◌||◌, All, arith,
  Bool-cases, keep_if, length,
}
use autodeploy_web.Deploy.Run.{NodeDeploy, kickstart, NodeStatus}
use autodeploy_web.Deploy.Manager.{
  Deployment, DeploySpec, StartError, no_nodes, no_hypervisor, node_error, node_errors, start_error,
  begin_run, request_stop, destroy_each,
}

-- Several calls of `Cancel`.
unfoldable pub request_stops : ℕ → Deployment → Deployment
unfolding request_stop
request_stops zero d = d
request_stops (suc n) d = request_stops n (request_stop d)

stop_again : (d : Deployment) → d.stop_requested ≡ true → request_stop d ≡ d
unfolding request_stop
stop_again d h =
    subst
      (λ b.
        (if b then d else record d {
          stop_requested = true;
          context_ended = d.context_ended || d.cancel_stored;
        })
        ≡ d)
      (sym h) refl

stops_ignored : (n : ℕ) (d : Deployment) → d.stop_requested ≡ true → request_stops n d ≡ d
unfolding request_stops request_stop
stops_ignored zero d h = refl
stops_ignored (suc n) d h = ap (request_stops n) (stop_again d h) ∙ stops_ignored n d h

-- A stop that is requested before the run has stored its cancel function never ends the context of
-- the run, however often the stop is requested again.
pub early-stop_lost :
    (n : ℕ) (d : Deployment)
    → d.stop_requested ≡ false
    → d.cancel_stored ≡ false
    → d.context_ended ≡ false
    → (request_stops n (begin_run (request_stop d))).context_ended ≡ false
unfolding request_stop begin_run
early-stop_lost n d h c e =
    ap (λ (x : Deployment). x.context_ended)
      (stops_ignored n (begin_run (request_stop d)) (ground arith))
    ∙ ground arith

-- A first stop that is requested once the run has stored its cancel function ends its context.
pub stop-ends_context :
    (d : Deployment) → d.stop_requested ≡ false → (request_stop (begin_run d)).context_ended ≡ true
unfolding request_stop begin_run
stop-ends_context d h = ground arith

-- A node with what its mode needs.
abbrev pub Ready : NodeDeploy → Type 0
Ready n =
    ((kickstart n ≡ true) × (n.base_iso_path ≢ [])) ⊎ ((kickstart n ≡ false) × (n.iso_path ≢ []))

node_error-Ready : (i : ℕ) (n : NodeDeploy) → (node_error i n ≡ none) ↔ Ready n
unfolding node_error
node_error-Ready i n = (
  λ h. elim (Bool-cases (kickstart n)) [
    | inl e ↦ inl (e, λ z. ground (arith, is_empty_iff n.base_iso_path))
    | inr e ↦ inr (e, λ z. ground (arith, is_empty_iff n.iso_path))
  ],
  λ r. elim r [
    | inl (e, p) ↦ ground (arith, is_empty_iff n.base_iso_path)
    | inr (e, p) ↦ ground (arith, is_empty_iff n.iso_path)
  ],
)

first_error :
    (o r : Option StartError)
    → ((elim o [ some e ↦ some e | none ↦ r ]) ≡ none) ↔ ((o ≡ none) × (r ≡ none))
first_error none r = (λ h. (refl, h), λ h. h.1)
first_error (some e) r = (λ h. cc, λ h. cc)

node_errors-Ready : (i : ℕ) (ns : List NodeDeploy) → (node_errors i ns ≡ none) ↔ All Ready ns
unfolding node_errors
node_errors-Ready i [] = (λ _. tt, λ _. refl)
node_errors-Ready i (n ∷ ns) = (
  λ h.
      let (a, b) = (first_error (node_error i n) (node_errors (suc i) ns)).0 h in
      ((node_error-Ready i n).0 a, (node_errors-Ready (suc i) ns).0 b),
  λ a.
      (first_error (node_error i n) (node_errors (suc i) ns)).1
        ((node_error-Ready i n).1 a.0, (node_errors-Ready (suc i) ns).1 a.1),
)

-- The checks of a start find no error exactly when there are nodes, there is a hypervisor, and
-- every node has what its mode needs: a base ISO in kickstart mode, its own ISO otherwise.
pub start_error-Ready :
    (s : DeploySpec)
    → (start_error s ≡ none) ↔ ((s.nodes ≢ []) × (s.has_hypervisor ≡ true) × All Ready s.nodes)
unfolding start_error
start_error-Ready s = by_nodes s.nodes s.has_hypervisor
  where
    by_nodes :
        (ns : List NodeDeploy) (b : Bool)
        → ((elim ns [
          | [] ↦ some no_nodes
          | n ∷ ns ↦ if b then node_errors 0 (n ∷ ns) else some no_hypervisor
        ])
            ≡ none)
          ↔ ((ns ≢ []) × (b ≡ true) × All Ready ns)
    by_nodes [] b = (λ h. cc, λ (x, y, z). absurd (x refl))
    by_nodes (n ∷ ns) false = (λ h. cc, λ (x, y, z). cc)
    by_nodes (n ∷ ns) true = (
      λ h. (λ e. cc, refl, (node_errors-Ready 0 (n ∷ ns)).0 h),
      λ (x, y, z). (node_errors-Ready 0 (n ∷ ns)).1 z,
    )

abbrev pub vm_ids : List NodeStatus → List Text
vm_ids ns = keep_if (λ t. not (is_empty t)) (map (λ (n : NodeStatus). n.vm_id) ns)

-- A removal asks the hypervisor to destroy exactly the VMs that the nodes have, in order, and
-- counts those that were destroyed.
pub destroy_each-asked :
    (gone : Text → Bool) (ns : List NodeStatus)
    → ((destroy_each gone ns).1 ≡ vm_ids ns)
      × ((destroy_each gone ns).0 ≡ length (keep_if gone (vm_ids ns)))
unfolding destroy_each
destroy_each-asked gone [] = (refl, refl)
destroy_each-asked gone (n ∷ ns) =
    (ground (arith, destroy_each-asked gone ns), ground (arith, destroy_each-asked gone ns))
