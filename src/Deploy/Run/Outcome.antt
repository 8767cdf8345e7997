-- ===== src/Deploy/Run/Outcome.antt =====
-- How a run ends, which VMs it created by then, and when it powers nothing on.
use autodeploy_web.Base.{
  ℕ, suc, ◌≡◌, ◌⊎◌, inl, inr, refl, sym, ap, ◌∙◌, false, List, [], ◌∷◌, ◌++◌, map, Option, none,
  some, Text, text, All, arith, take, append-nil, append_assoc,
}
use mathlib.Core.Path.{subst}
use autodeploy_web.Deploy
use autodeploy_web.Deploy.Run.{
  State, done, failed, canceled, NodeDeploy, kickstart, Call, find_iso, upload_iso, create_vm,
  attach_iso, set_boot_disk_then_cd, power_on, send_keys, wire, VmSpec, Answer, ok, err, Arrival,
  resolved, poll_failed, expired, Hypervisor, Spec, World, Result, set_node, update, deploy_node,
  deploy_nodes, Ending, stopped_or_failed, failing_step, collect, resolve_node_ips, wire_nodes,
  resolve_and_wire, run, run_wire_only, promote,
}
use autodeploy_web.Deploy.Run.Calls.{Post, Stable, deploy_node-Post}

-- The names of the VMs that the hypervisor was asked to create, in order.
abbrev pub created_names : List Call → List Text
created_names [] = []
created_names (create_vm s ∷ cs) = created_names cs ++ s.name ∷ []
created_names (find_iso t ∷ cs) = created_names cs
created_names (upload_iso t ∷ cs) = created_names cs
created_names (attach_iso t u ∷ cs) = created_names cs
created_names (set_boot_disk_then_cd t ∷ cs) = created_names cs
created_names (power_on t ∷ cs) = created_names cs
created_names (send_keys t ks ∷ cs) = created_names cs
created_names (wire ns ∷ cs) = created_names cs

-- The VMs that it was asked to power on.
abbrev pub powered : List Call → List Text
powered [] = []
powered (power_on t ∷ cs) = t ∷ powered cs
powered (find_iso t ∷ cs) = powered cs
powered (upload_iso t ∷ cs) = powered cs
powered (create_vm s ∷ cs) = powered cs
powered (attach_iso t u ∷ cs) = powered cs
powered (set_boot_disk_then_cd t ∷ cs) = powered cs
powered (send_keys t ks ∷ cs) = powered cs
powered (wire ns ∷ cs) = powered cs

abbrev pub names : List NodeDeploy → List Text
names = map (λ (n : NodeDeploy). n.name)

Created : List Text → List Call → Type 0
Created xs cs = created_names cs ≡ xs

Created-Stable : (xs : List Text) (spec : Spec) (node : NodeDeploy) → Stable (Created xs) spec node
unfolding Created
Created-Stable xs spec node = record {
  finding = λ t cs h. h;
  uploading = λ t cs h. h;
  attaching = λ t u cs h. h;
  ordering = λ t cs h. h;
  powering = λ t cs e h. h;
  typing = λ t ks cs e h. h;
}

unfoldable pub Unpowered : List Text → List Call → Type 0
Unpowered xs cs = powered cs ≡ xs

Unpowered-Stable :
    (xs : List Text) (spec : Spec) (node : NodeDeploy)
    → spec.power_on ≡ false
    → kickstart node ≡ false
    → Stable (Unpowered xs) spec node
unfolding Unpowered
Unpowered-Stable xs spec node off plain = record {
  finding = λ t cs h. h;
  uploading = λ t cs h. h;
  attaching = λ t u cs h. h;
  ordering = λ t cs h. h;
  powering = λ t cs e h. absurd (ground arith);
  typing = λ t ks cs e h. h;
}

module _ (hv : Hypervisor) where
  -- How far the loop came: all nodes when it went through, else the nodes up to some point.
  unfoldable pub Reached : List Text → List Text → Option (Ending hv) → World → Type 0
  Reached xs ns none w = created_names w.trace ≡ xs ++ ns
  Reached xs ns (some e) w = (k : ℕ) × (created_names w.trace ≡ xs ++ take k ns)

  unfoldable pub loop :
      Spec → ℕ → NodeDeploy → List NodeDeploy → Result Text → Option (Ending hv) × World
  loop spec i node ns (err e, v) = (
    some (stopped_or_failed hv (text "node " ++ node.name ++ text ": " ++ e) v),
    set_node i (failing_step hv e v) v,
  )
  loop spec i node ns (ok vm, v) =
      deploy_nodes hv spec (suc i) ns
        (record v { targets = update i (λ n. record n { ref = vm }) v.targets })

  pub deploy_nodes-loop :
      (spec : Spec) (i : ℕ) (node : NodeDeploy) (ns : List NodeDeploy) (w : World)
      → deploy_nodes hv spec i (node ∷ ns) w ≡ loop spec i node ns (deploy_node hv spec i node w)
  unfolding deploy_nodes loop
  deploy_nodes-loop spec i node ns w = by_result (deploy_node hv spec i node w)
    where
      by_result :
          (r : Result Text)
          → ◌≡◌ {A = Option (Ending hv) × World}
              (elim r.0 [
                | err e ↦ (
                  some (stopped_or_failed hv (text "node " ++ node.name ++ text ": " ++ e) r.1),
                  set_node i (failing_step hv e r.1) r.1,
                )
                | ok vm ↦
                    deploy_nodes hv spec
                      (suc i)
                      ns
                      (record r.1 { targets = update i (λ n. record n { ref = vm }) r.1.targets })
              ])
              (loop spec i node ns r)
      by_result (err e, v) = refl
      by_result (ok vm, v) = refl

  NodeEnd : List Text → Text → List Call → Type 0
  NodeEnd xs n cs = (created_names cs ≡ xs) ⊎ (created_names cs ≡ xs ++ n ∷ [])

  node-Post :
      (spec : Spec) (i : ℕ) (node : NodeDeploy) (w : World)
      → Post
          (Created (created_names w.trace ++ node.name ∷ []))
          (NodeEnd (created_names w.trace) node.name)
          (deploy_node hv spec i node w)
  unfolding Created NodeEnd
  node-Post spec i node w =
      let xs = created_names w.trace in
      deploy_node-Post (Created xs) (Created (xs ++ node.name ∷ [])) (NodeEnd xs node.name) hv spec
        node (Created-Stable xs spec node) (Created-Stable (xs ++ node.name ∷ []) spec node)
        (λ cs h. inl h) (λ cs h. inr h) (λ cs h. ap (λ ys. ys ++ node.name ∷ []) h) i w refl

  Reached-shift :
      (xs ys : List Text) (n : Text) (ns : List Text) (o : Option (Ending hv)) (w : World)
      → ys ≡ xs ++ n ∷ []
      → Reached ys ns o w
      → Reached xs (n ∷ ns) o w
  unfolding Reached
  Reached-shift xs ys n ns none w e h = h ∙ ap (λ zs. zs ++ ns) e ∙ append_assoc xs (n ∷ []) ns
  Reached-shift xs ys n ns (some r) w e (k, h) =
      (suc k, h ∙ ap (λ zs. zs ++ take k ns) e ∙ append_assoc xs (n ∷ []) (take k ns))

  loop-Reached :
      (xs : List Text) (spec : Spec) (i : ℕ) (node : NodeDeploy) (ns : List NodeDeploy)
      (r : Result Text)
      → Post (Created (xs ++ node.name ∷ [])) (NodeEnd xs node.name) r
      → ((v : World)
          → Reached
              (created_names v.trace)
              (names ns)
              (deploy_nodes hv spec (suc i) ns v).0
              (deploy_nodes hv spec (suc i) ns v).1)
      → Reached xs (names (node ∷ ns)) (loop spec i node ns r).0 (loop spec i node ns r).1
  unfolding loop Post Created
  loop-Reached xs spec i node ns (ok vm, v) p ih =
      Reached-shift xs _ node.name (names ns) _ _ p
        (ih (record v { targets = update i (λ n. record n { ref = vm }) v.targets }))
  loop-Reached xs spec i node ns (err e, v) p ih = stopped p
    where
      stopped :
          NodeEnd xs node.name v.trace
          → Reached xs
              (names (node ∷ ns))
              (some (stopped_or_failed hv (text "node " ++ node.name ++ text ": " ++ e) v))
              (set_node i (failing_step hv e v) v)
      stopped p =
          unfold Reached NodeEnd in elim p [ inl h ↦ (0, h ∙ sym (append-nil xs)) | inr h ↦ (1, h) ]

  pub deploy_nodes-Reached :
      (spec : Spec) (i : ℕ) (ns : List NodeDeploy) (w : World)
      → Reached
          (created_names w.trace)
          (names ns)
          (deploy_nodes hv spec i ns w).0
          (deploy_nodes hv spec i ns w).1
  deploy_nodes-Reached spec i [] w =
      unfold Reached deploy_nodes in sym (append-nil (created_names w.trace))
  deploy_nodes-Reached spec i (node ∷ ns) w =
      subst
        (λ (r : Option (Ending hv) × World).
          Reached (created_names w.trace) (names (node ∷ ns)) r.0 r.1)
        (sym (deploy_nodes-loop spec i node ns w))
        (loop-Reached (created_names w.trace) spec i node ns (deploy_node hv spec i node w)
          (node-Post spec i node w) (λ v. deploy_nodes-Reached spec (suc i) ns v))

  -- The loop powers nothing on when no node asks for it.
  loop-Unpowered :
      (xs : List Text) (spec : Spec) (i : ℕ) (node : NodeDeploy) (ns : List NodeDeploy)
      (r : Result Text)
      → Post (Unpowered xs) (Unpowered xs) r
      → ((v : World)
          → Unpowered xs v.trace
          → Unpowered xs (deploy_nodes hv spec (suc i) ns v).1.trace)
      → Unpowered xs (loop spec i node ns r).1.trace
  unfolding loop Post
  loop-Unpowered xs spec i node ns (ok vm, v) p ih =
      ih (record v { targets = update i (λ n. record n { ref = vm }) v.targets }) p
  loop-Unpowered xs spec i node ns (err e, v) p ih = p

  pub deploy_nodes-Unpowered :
      (xs : List Text) (spec : Spec) (i : ℕ) (ns : List NodeDeploy) (w : World)
      → spec.power_on ≡ false
      → All (λ (n : NodeDeploy). kickstart n ≡ false) ns
      → Unpowered xs w.trace
      → Unpowered xs (deploy_nodes hv spec i ns w).1.trace
  deploy_nodes-Unpowered xs spec i [] w off plain h = unfold deploy_nodes in h
  deploy_nodes-Unpowered xs spec i (node ∷ ns) w off plain h =
      let stable = Unpowered-Stable xs spec node off plain.0 in
      subst (λ (r : Option (Ending hv) × World). Unpowered xs r.1.trace)
        (sym (deploy_nodes-loop spec i node ns w))
        (loop-Unpowered xs spec i node ns (deploy_node hv spec i node w)
          (deploy_node-Post (Unpowered xs) (Unpowered xs) (Unpowered xs) hv spec node stable stable
            (λ cs k. k) (λ cs k. k) created_unpowered i w h)
          (λ v k. deploy_nodes-Unpowered xs spec (suc i) ns v off plain.1 k))
    where
      created_unpowered :
          (cs : List Call)
          → Unpowered xs cs
          → Unpowered xs (create_vm (Deploy.Run.vm_spec hv spec node) ∷ cs)
      created_unpowered cs k = unfold Unpowered in k
