-- ===== src/Wiring/Calls/Whole.antt =====
-- Which calls `Wire` makes.
use autodeploy_web.Base.{
  ℕ, zero, suc, Text, false, List, [], ◌∷◌, is_empty, Bool-cases, inl, inr, map, All, Option, some,
  none,
}
use autodeploy_web.Deploy.Run.{NodeDeploy}
use autodeploy_web.Wiring.Program.{Call, Server, authenticate, logout, pause}
use autodeploy_web.Wiring.Settings.{Settings}
use autodeploy_web.Wiring.Retry.{wait_ready}
use autodeploy_web.Wiring.Nodes.{wire_node}
use autodeploy_web.Wiring.Pool.{
  Turn, Pool, run_pool, pool_result, unless_failed, start_pool, wire_via_nodes,
}
use autodeploy_web.Wiring.Topology.{
  wire, by_vsas, vsa_nodes, via_nodes, standalone_steps, primary_steps, wire_standalone,
  wire_primary, target_server, primary_server,
}
use autodeploy_web.Wiring.Calls.{
  Only, ret-Only, fail-Only, ask-Only, bind-Only, then-Only, wrap-Only, cases-Only,
  finally_logout-Only,
}
use autodeploy_web.Wiring.Calls.Nodes.{NodesCalls, wire_node-Only, resolve_mount_server-Only}
use autodeploy_web.Wiring.Calls.Advanced.{AdvancedCalls, apply_advanced-Only}
use autodeploy_web.Wiring.Calls.Cluster.{LicenseCalls, HaCalls, license_step-Only, ha_step-Only}
use autodeploy_web.Wiring.Calls.Pool.{Guarded-Only, run_pool-Fair, any-Stable, each-Honest}

module _ {P : Call → Type 0} where
  pub wait_ready-Only :
      (n : ℕ) (server : Server)
      → P (authenticate server)
      → P (pause 20)
      → Only P (wait_ready n server)
  unfolding wait_ready
  wait_ready-Only zero server a p =
      cases-Only _ (ask-Only _ a) (λ _. ret-Only tt) (λ _. fail-Only _)
  wait_ready-Only (suc n) server a p =
      cases-Only _ (ask-Only _ a) (λ _. ret-Only tt)
        (λ _. then-Only (wrap-Only _ (ask-Only _ p)) (wait_ready-Only n server a p))

  unless_failed-Only : (o : Option Text) (id : Text) → Only P (unless_failed o id)
  unfolding unless_failed
  unless_failed-Only none id = ret-Only id
  unless_failed-Only (some e) id = fail-Only e

  pool_result-Only : (s : Pool) → Only P (pool_result s)
  unfolding pool_result
  pool_result-Only s = unless_failed-Only s.first_err _

  module _ (f : NodesCalls P) (cfg : Settings) (rounds : ℕ) (ts : List Turn) where
    nodes-Only :
        (all vias : List NodeDeploy) (mount : Text)
        → All (λ p. Only P p) (map (wire_node rounds cfg all mount) vias)
    nodes-Only all [] mount = tt
    nodes-Only all (n ∷ vias) mount =
        (wire_node-Only f cfg rounds all mount n, nodes-Only all vias mount)

    pub wire_via_nodes-Only :
        (vias : List NodeDeploy) (mount : Text) → Only P (wire_via_nodes ts rounds cfg vias mount)
    unfolding wire_via_nodes start_pool
    wire_via_nodes-Only vias mount =
        let s = start_pool (map (wire_node rounds cfg vias mount) vias) false in
        bind-Only
          (Guarded-Only P (run_pool ts s) (
            run_pool-Fair P (λ _. Unit) any-Stable ts s
              (tt, each-Honest P _ (nodes-Only vias vias mount))))
          pool_result-Only

  module _ (f : NodesCalls P) (g : AdvancedCalls P) (cfg : Settings) (rounds : ℕ)
      (ts : List Turn) where
    pub standalone_steps-Only :
        (nodes : List NodeDeploy) → Only P (standalone_steps ts rounds cfg nodes)
    unfolding standalone_steps
    standalone_steps-Only nodes = bind-Only (resolve_mount_server-Only f.finding _) λ mount.
        then-Only (wire_via_nodes-Only f cfg rounds ts (via_nodes nodes) mount)
          (apply_advanced-Only g cfg nodes)

    pub wire_standalone-Only :
        ((s : Server) → P (authenticate s))
        → P logout
        → P (pause 20)
        → (nodes : List NodeDeploy) → Only P (wire_standalone ts rounds cfg nodes)
    unfolding wire_standalone
    wire_standalone-Only a l p nodes = elim (Bool-cases (is_empty cfg.target_vbr.address)) [
      | inl h ↦ rw (wire_standalone, h) (fail-Only _)
      | inr h ↦
          rw (wire_standalone, h)
            (then-Only (wait_ready-Only rounds (target_server cfg) (a _) p)
              (finally_logout-Only l (standalone_steps-Only nodes)))
    ]

    module _ (k : LicenseCalls P) (h : HaCalls P) where
      pub primary_steps-Only :
          (nodes : List NodeDeploy) (primary : NodeDeploy) (others : List NodeDeploy)
          → Only P (primary_steps ts rounds cfg nodes primary others)
      unfolding primary_steps
      primary_steps-Only nodes primary others = then-Only (license_step-Only k cfg) (
          bind-Only (resolve_mount_server-Only f.finding _) λ mount.
            bind-Only (wire_via_nodes-Only f cfg rounds ts (via_nodes nodes) mount) λ id.
              then-Only (ha_step-Only h cfg rounds primary others id)
                (apply_advanced-Only g cfg nodes))

      wire_primary-Only :
          ((s : Server) → P (authenticate s))
          → P logout
          → P (pause 20)
          → (nodes : List NodeDeploy) (primary : NodeDeploy) (others : List NodeDeploy)
          → Only P (wire_primary ts rounds cfg nodes primary others)
      unfolding wire_primary
      wire_primary-Only a l p nodes primary others = elim (Bool-cases (is_empty primary.ip)) [
        | inl e ↦ rw (wire_primary, e) (fail-Only _)
        | inr e ↦
            rw (wire_primary, e)
              (then-Only (wait_ready-Only rounds (primary_server cfg primary) (a _) p)
                (finally_logout-Only l (primary_steps-Only nodes primary others)))
      ]

      pub wire-Only :
          ((s : Server) → P (authenticate s))
          → P logout
          → P (pause 20)
          → (nodes : List NodeDeploy) → Only P (wire ts rounds cfg nodes)
      unfolding wire
      wire-Only a l p nodes = by_vsas-Only (vsa_nodes nodes)
        where
          by_vsas-Only : (vsas : List NodeDeploy) → Only P (by_vsas ts rounds cfg nodes vsas)
          by_vsas-Only [] = wire_standalone-Only a l p nodes
          by_vsas-Only (primary ∷ others) = wire_primary-Only a l p nodes primary others
