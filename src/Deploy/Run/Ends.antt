-- ===== src/Deploy/Run/Ends.antt =====
-- The ends of a run (`run` and `runWireOnly` of internal/deploy/deploy.go).
use mathlib.Core.Path.{subst}
use autodeploy_web.Base.{
  ℕ, zero, suc, ◌≡◌, ◌⊎◌, inl, inr, refl, sym, ap, ◌∙◌, Bool, true, false, List, [], ◌∷◌, ◌++◌,
  Option, none, some, Text, text, if◌then◌else◌, ◌&&◌, All, arith, Bool-cases, take, length, map,
}
use autodeploy_web.Deploy.Run.{
  done, failed, canceled, NodeDeploy, kickstart, wire, ok, err, Arrival, resolved, poll_failed,
  expired, Hypervisor, Spec, World, Result, Ending, deploy_node, deploy_nodes, stopped_or_failed,
  unresolved, collect, resolve_node_ips, wire_nodes, resolve_and_wire, run, run_wire_only, promote,
}
use autodeploy_web.Deploy.Run.Outcome.{
  created_names, powered, names, Reached, Unpowered, loop, deploy_nodes-loop, deploy_nodes-Reached,
  deploy_nodes-Unpowered,
}

module _ (hv : Hypervisor) where
  -- The two ends that are not a success: stopped, when a stop was requested by then, or failed.
  NotDone : Ending hv → World → Type 0
  NotDone e w =
      ((e ≡ (canceled, [])) × (hv.stop_requested w.trace ≡ true))
      ⊎ ((e.0 ≡ failed) × (hv.stop_requested w.trace ≡ false))

  unfoldable pub Ended : Ending hv → World → Type 0
  unfolding NotDone
  Ended e w = (e ≡ (done, [])) ⊎ NotDone e w

  stopped_or_failed-NotDone : (m : Text) (w : World) → NotDone (stopped_or_failed hv m w) w
  unfolding NotDone
  stopped_or_failed-NotDone m w = elim (Bool-cases (hv.stop_requested w.trace)) [
    | inl h ↦ inl (rw h refl, h)
    | inr h ↦ inr (rw h refl, h)
  ]

  collect-trace : (k : ℕ) (l : List Arrival) (w : World) → (collect hv k l w).1.trace ≡ w.trace
  unfolding collect
  collect-trace zero l w = refl
  collect-trace (suc k) [] w = refl
  collect-trace (suc k) (resolved i ip ∷ l) w = collect-trace k l _
  collect-trace (suc k) (poll_failed e ∷ l) w = refl
  collect-trace (suc k) (expired e ∷ l) w = refl

  resolve-trace : (w : World) → (resolve_node_ips hv w).1.trace ≡ w.trace
  unfolding resolve_node_ips
  resolve-trace w =
      collect-trace (length (unresolved hv 0 w.targets))
        (hv.arrivals w.trace (unresolved hv 0 w.targets)) w

  -- The end of a wiring, which creates no VM, and after which at most the statuses change.
  Wired : World → Ending hv × World → Type 0
  unfolding Ended
  Wired w r = Ended r.0 r.1 × (created_names r.1.trace ≡ created_names w.trace)

  wire_nodes-Wired :
      (finish : World → World) (w : World)
      → ((u : World) → (finish u).trace ≡ u.trace)
      → Wired w (wire_nodes hv finish w)
  unfolding wire_nodes Wired Ended
  wire_nodes-Wired finish w f = answer (hv.wiring w.trace w.targets)
    where
      answer :
          (o : Option Text)
          → Wired w (elim o [
            | some e ↦ (
              stopped_or_failed hv
                  (text "wiring: " ++ e)
                  (record w { trace = wire w.targets ∷ w.trace }),
              record w { trace = wire w.targets ∷ w.trace },
            )
            | none ↦ ((done, []), finish (record w { trace = wire w.targets ∷ w.trace }))
          ])
      answer none = (inl refl, ap created_names (f (record w { trace = wire w.targets ∷ w.trace })))
      answer (some e) = (
        inr (
            stopped_or_failed-NotDone (text "wiring: " ++ e)
              (record w { trace = wire w.targets ∷ w.trace })),
        refl,
      )

  resolve_and_wire-Wired :
      (finish : World → World) (w : World)
      → ((u : World) → (finish u).trace ≡ u.trace)
      → Wired w (resolve_and_wire hv finish w)
  unfolding resolve_and_wire Wired Ended
  resolve_and_wire-Wired finish w f = answer (resolve_node_ips hv w) (resolve-trace w)
    where
      answer :
          (r : Option Text × World)
          → r.1.trace ≡ w.trace
          → Wired w (elim r.0 [
            | some e ↦ (stopped_or_failed hv (text "ip resolution: " ++ e) r.1, r.1)
            | none ↦ wire_nodes hv finish r.1
          ])
      answer (none, v) e = let q = wire_nodes-Wired finish v f in (q.0, q.1 ∙ ap created_names e)
      answer (some m, v) e =
          (inr (stopped_or_failed-NotDone (text "ip resolution: " ++ m) v), ap created_names e)

  -- A run that only wires ends as done without an error, as canceled when a stop was requested, or
  -- as failed when none was; it asks for no new VM.
  pub run_wire_only-Ended :
      (w : World)
      → Ended (run_wire_only hv w).0 (run_wire_only hv w).1
        × (created_names (run_wire_only hv w).1.trace ≡ created_names w.trace)
  unfolding run_wire_only Wired
  run_wire_only-Ended w = resolve_and_wire-Wired (λ u. u) w (λ u. refl)

  AllNotDone : Option (Ending hv) × World → Type 0
  AllNotDone (none, w) = Unit
  AllNotDone (some e, w) = NotDone e w

  deploy_nodes-NotDone :
      (spec : Spec) (i : ℕ) (ns : List NodeDeploy) (w : World)
      → AllNotDone (deploy_nodes hv spec i ns w)
  deploy_nodes-NotDone spec i [] w = unfold AllNotDone deploy_nodes in tt
  deploy_nodes-NotDone spec i (node ∷ ns) w =
      subst AllNotDone (sym (deploy_nodes-loop hv spec i node ns w))
        (looped (deploy_node hv spec i node w) (λ v. deploy_nodes-NotDone spec (suc i) ns v))
    where
      looped :
          (r : Result Text)
          → ((v : World) → AllNotDone (deploy_nodes hv spec (suc i) ns v))
          → AllNotDone (loop hv spec i node ns r)
      looped (ok vm, v) ih = unfold loop in ih _
      looped (err e, v) ih = unfold loop AllNotDone NotDone in stopped_or_failed-NotDone _ v

  -- What a run from w leaves: an end, the VMs of the nodes up to some point, and those of all nodes
  -- if it is done.
  pub record RunEnd (w : World) (e : Ending hv) (v : World) : Type 0 where
    pub ended : Ended e v
    pub count : ℕ
    pub in_order : created_names v.trace ≡ created_names w.trace ++ take count (names w.targets)
    pub complete : e.0 ≡ done → created_names v.trace ≡ created_names w.trace ++ names w.targets

  not_done : (e : Ending hv) (w : World) → NotDone e w → e.0 ≡ done → ⊥
  unfolding NotDone
  not_done e w (inl (h, q)) d = apart (sym (ap (λ (x : Ending hv). x.0) h) ∙ d)
    where
      apart : canceled ≡ done → ⊥
      apart p = cc
  not_done e w (inr (h, q)) d = apart (sym h ∙ d)
    where
      apart : failed ≡ done → ⊥
      apart p = cc

  take-length : (xs : List Text) → take (length xs) xs ≡ xs
  take-length [] = refl
  take-length (x ∷ xs) = ap (◌∷◌ x) (take-length xs)

  all_created :
      (w : World) (e : Ending hv) (v : World)
      → Ended e v
      → created_names v.trace ≡ created_names w.trace ++ names w.targets
      → RunEnd w e v
  all_created w e v d h = record {
    ended = d;
    count = length (names w.targets);
    in_order = h ∙ ap (λ ys. created_names w.trace ++ ys) (sym (take-length (names w.targets)));
    complete = λ _. h;
  }

  RunsTo : World → Ending hv × World → Type 0
  RunsTo w r = RunEnd w r.0 r.1

  run-after :
      (spec : Spec) (w : World) (r : Option (Ending hv) × World)
      → AllNotDone r
      → Reached hv (created_names w.trace) (names w.targets) r.0 r.1
      → RunsTo w (elim r.0 [
        | some e ↦ (e, r.1)
        | none ↦
            if spec.has_wirer && spec.power_on
            then resolve_and_wire hv (λ u. record u { nodes = map (promote hv) u.nodes }) r.1
            else ((done, []), r.1)
      ])
  unfolding AllNotDone Reached Ended RunsTo Wired
  run-after spec w (some e, v) n (k, h) = record {
    ended = inr n;
    count = k;
    in_order = h;
    complete = λ d. absurd (not_done e v n d);
  }
  run-after spec w (none, v) n h = wired (spec.has_wirer && spec.power_on)
    where
      wired :
          (b : Bool)
          → RunsTo w (
              if b
              then resolve_and_wire hv (λ u. record u { nodes = map (promote hv) u.nodes }) v
              else ((done, []), v))
      wired false = all_created w (done, []) v (inl refl) h
      wired true =
          let q =
            resolve_and_wire-Wired (λ u. record u { nodes = map (promote hv) u.nodes }) v
              (λ u. refl) in
          all_created w _ _ q.0 (q.1 ∙ h)

  -- Every run of a deployment ends as done without an error, as canceled when a stop was requested
  -- by then, or as failed when none was; the VMs that it asked the hypervisor to create are those
  -- of the first nodes in order, and those of all nodes if it is done.
  pub run-RunEnd : (spec : Spec) (w : World) → RunEnd w (run hv spec w).0 (run hv spec w).1
  unfolding run RunsTo
  run-RunEnd spec w =
      run-after spec w (deploy_nodes hv spec 0 w.targets w)
        (deploy_nodes-NotDone spec 0 w.targets w) (deploy_nodes-Reached hv spec 0 w.targets w)

  -- A run that is not asked to power VMs on, with no node in kickstart mode, asks the hypervisor
  -- to power on none.
  pub run-unpowered :
      (spec : Spec) (w : World)
      → spec.power_on ≡ false
      → All (λ (n : NodeDeploy). kickstart n ≡ false) w.targets
      → powered (run hv spec w).1.trace ≡ powered w.trace
  unfolding run Unpowered
  run-unpowered spec w off plain =
      after (deploy_nodes hv spec 0 w.targets w)
        (deploy_nodes-Unpowered hv (powered w.trace) spec 0 w.targets w off plain refl)
    where
      ends : Option (Ending hv) × World → Bool → Ending hv × World
      ends r b = elim r.0 [
        | some e ↦ (e, r.1)
        | none ↦
            if b
            then resolve_and_wire hv (λ u. record u { nodes = map (promote hv) u.nodes }) r.1
            else ((done, []), r.1)
      ]

      unwired : (b : Bool) → spec.power_on ≡ false → (b && spec.power_on) ≡ false
      unwired b off = ground arith

      plain_end :
          (r : Option (Ending hv) × World)
          → powered r.1.trace ≡ powered w.trace
          → powered (ends r false).1.trace ≡ powered w.trace
      plain_end (none, v) h = h
      plain_end (some e, v) h = h

      after :
          (r : Option (Ending hv) × World)
          → powered r.1.trace ≡ powered w.trace
          → powered (ends r (spec.has_wirer && spec.power_on)).1.trace ≡ powered w.trace
      after r h =
          subst (λ b. powered (ends r b).1.trace ≡ powered w.trace)
            (sym (unwired spec.has_wirer off)) (plain_end r h)
