-- ===== src/Wiring/Deletion/Whole.antt =====
-- The order of the deletions in a whole wiring.
use mathlib.Core.Path.{subst}
use autodeploy_web.Base.{ℕ, Text, List, [], ◌∷◌, is_empty, Bool-cases, inl, inr, ◌≡◌, refl, sym}
use autodeploy_web.Deploy.Run.{NodeDeploy}
use autodeploy_web.Wiring.Program.{Program, Answer, Server, ret, fail, finally_logout, ◌>>◌, call}
use autodeploy_web.Wiring.Guarded.{
  Guarded, Leads, bind-Guarded, then-Guarded, weaken-Guarded, ret-Guarded, fail-Guarded,
}
use autodeploy_web.Wiring.Settings.{Settings}
use autodeploy_web.Wiring.Retry.{wait_ready}
use autodeploy_web.Wiring.Pool.{Turn}
use autodeploy_web.Wiring.Topology.{
  wire, by_vsas, vsa_nodes, via_nodes, wire_standalone, wire_primary, standalone_steps,
  primary_steps, ha_step,
}
use autodeploy_web.Wiring.Calls.{Only, Fine, Only-Guarded}
use autodeploy_web.Wiring.Calls.Loops.{WaitsCalls, UpdatesCalls}
use autodeploy_web.Wiring.Calls.Nodes.{NodesCalls, resolve_mount_server-Only}
use autodeploy_web.Wiring.Calls.Advanced.{AdvancedCalls, apply_advanced-Only}
use autodeploy_web.Wiring.Calls.Cluster.{
  LicenseCalls, ClusterCalls, license_step-Only, create_ha-Only,
}
use autodeploy_web.Wiring.Calls.Whole.{wire_via_nodes-Only, wait_ready-Only}
use autodeploy_web.Wiring.Deletion.{
  Progress, idle, moved, named, listed, cleaning, removal, Calm, Reaches, after_wait, after_find,
  free_default_repository-Reaches,
}

wait-Calm : (s : Progress) (id : Text) (r : Answer (Unit {0})) → Calm s → Calm (after_wait s id r)
unfolding after_wait
wait-Calm idle id r c = tt
wait-Calm moved id r c = tt
wait-Calm (named x) id r c = tt
wait-Calm (listed x bs) id r c = tt
wait-Calm (cleaning x bs sess) id r c = absurd c

-- What the steps around the HA block keep: `Calm` after it, and `idle` before it.
Calm-WaitsCalls : WaitsCalls (Fine removal Calm)
Calm-WaitsCalls = record { dialing = λ _ _ s c. (tt, λ _. c); pausing = λ _ s c. (tt, λ _. c) }

Calm-UpdatesCalls : UpdatesCalls (Fine removal Calm)
Calm-UpdatesCalls = record {
  waiting = λ id _ _ s c. (tt, λ r. wait-Calm s id r c);
  updating = λ _ s c. (tt, λ _. c);
}

Calm-AdvancedCalls : AdvancedCalls (Fine removal Calm)
Calm-AdvancedCalls = record {
  waits = Calm-WaitsCalls;
  updates = Calm-UpdatesCalls;
  finding = λ _ s c. (tt, λ _. c);
  exporting = λ _ _ _ _ s c. (tt, λ _. c);
  forwarding = λ _ _ _ s c. (tt, λ _. c);
  crediting = λ _ _ _ s c. (tt, λ _. c);
  opening = λ _ _ _ _ _ s c. (tt, λ _. c);
  storing = λ _ s c. (tt, λ _. c);
}

Calm-ClusterCalls : ClusterCalls (Fine removal Calm)
Calm-ClusterCalls = record {
  waits = Calm-WaitsCalls;
  waiting = λ id _ _ s c. (tt, λ r. wait-Calm s id r c);
  crediting = λ _ _ _ s c. (tt, λ _. c);
  certifying = λ _ _ s c. (tt, λ _. c);
  clustering = λ _ _ _ s c. (tt, λ _. c);
}

abbrev AtStart : Progress → Type 0
AtStart s = s ≡ idle

find_idle :
    (s : Progress) (name : Text) (r : Answer Text) → AtStart s → AtStart (after_find s name r)
unfolding after_find
find_idle s name r e = rw e refl

wait_idle :
    (s : Progress) (id : Text) (r : Answer (Unit {0})) → AtStart s → AtStart (after_wait s id r)
unfolding after_wait
wait_idle s id r e = rw e refl

idle_waits : WaitsCalls (Fine removal AtStart)
idle_waits = record { dialing = λ _ _ s c. (tt, λ _. c); pausing = λ _ s c. (tt, λ _. c) }

idle_updates : UpdatesCalls (Fine removal AtStart)
idle_updates = record {
  waiting = λ id _ _ s c. (tt, λ r. wait_idle s id r c);
  updating = λ _ s c. (tt, λ _. c);
}

idle_nodes : NodesCalls (Fine removal AtStart)
idle_nodes = record {
  waits = idle_waits;
  updates = idle_updates;
  finding = λ _ s c. (tt, λ _. c);
  finding_repository = λ name s c. (tt, λ r. find_idle s name r c);
  finding_proxy = λ _ s c. (tt, λ _. c);
  adding = λ _ _ _ _ s c. (tt, λ _. c);
  storing = λ _ s c. (tt, λ _. c);
  proxying = λ _ _ s c. (tt, λ _. c);
}

idle_license : LicenseCalls (Fine removal AtStart)
idle_license = record {
  querying = λ s c. (tt, λ _. c);
  reading = λ _ s c. (tt, λ _. c);
  installing = λ _ s c. (tt, λ _. c);
}

-- A program that keeps `idle`, and one that keeps `Calm`.
idle-Reaches :
    {A : Type 0} (p : Program A) (s : Progress)
    → Only (Fine removal AtStart) p
    → s ≡ idle
    → Reaches (λ t _. t ≡ idle) p s
idle-Reaches p s o e =
    weaken-Guarded p s (Only-Guarded removal AtStart p s o e) (λ _ _ h. h) (λ _ _ _. tt)

Calm-Reaches :
    {A : Type 0} (p : Program A) (s : Progress)
    → Only (Fine removal Calm) p
    → Calm s
    → Reaches (λ t _. Calm t) p s
Calm-Reaches p s o c =
    weaken-Guarded p s (Only-Guarded removal Calm p s o c) (λ _ _ h. h) (λ _ _ _. tt)

finally_logout-Reaches :
    (p : Program (Unit {0})) (s : Progress)
    → Reaches (λ _ _. Unit {0}) p s
    → Reaches (λ _ _. Unit {0}) (finally_logout p) s
unfolding finally_logout Leads
finally_logout-Reaches (ret a) s g = record { leads = (tt, λ _. tt) }
finally_logout-Reaches (fail e) s g = record { leads = (tt, λ _. tt) }
finally_logout-Reaches (call c k) s g = record {
  leads = (
    g.leads.0,
    λ r. (finally_logout-Reaches (k r) (removal.next s c r) (record { leads = g.leads.1 r })).leads,
  );
}

module _ (ts : List Turn) (rounds : ℕ) (cfg : Settings) (nodes : List NodeDeploy) where
  ha_step-Reaches :
      (primary : NodeDeploy) (others : List NodeDeploy) (id : Text)
      → Reaches (λ t _. Calm t) (ha_step rounds cfg primary others id) idle
  unfolding ha_step
  ha_step-Reaches primary [] id = ret-Guarded tt idle tt
  ha_step-Reaches primary (secondary ∷ others) id =
      then-Guarded _ _ idle (free_default_repository-Reaches cfg id)
        λ t _ c. Calm-Reaches _ t (create_ha-Only Calm-ClusterCalls cfg rounds primary secondary) c

  primary_steps-Reaches :
      (primary : NodeDeploy) (others : List NodeDeploy) (s : Progress)
      → s ≡ idle
      → Reaches (λ _ _. Unit {0}) (primary_steps ts rounds cfg nodes primary others) s
  unfolding primary_steps
  primary_steps-Reaches primary others s e =
      then-Guarded _ _ s (idle-Reaches _ s (license_step-Only idle_license cfg) e) λ t _ e1.
        bind-Guarded _ _ t (idle-Reaches _ t (resolve_mount_server-Only idle_nodes.finding _) e1)
          λ u mount e2.
            bind-Guarded _ _ u
              (idle-Reaches _ u
                (wire_via_nodes-Only idle_nodes cfg rounds ts (via_nodes nodes) mount) e2)
              λ v id e3.
                then-Guarded {R = λ t _. Calm t} _ _ v
                  (subst (Reaches _ (ha_step rounds cfg primary others id)) (sym e3)
                    (ha_step-Reaches primary others id))
                  λ w _ c.
                    weaken-Guarded _ w
                      (Calm-Reaches _ w (apply_advanced-Only Calm-AdvancedCalls cfg nodes) c)
                      (λ _ _ _. tt) (λ _ _ _. tt)

  standalone_steps-Reaches :
      (s : Progress) → s ≡ idle → Reaches (λ _ _. Unit {0}) (standalone_steps ts rounds cfg nodes) s
  unfolding standalone_steps
  standalone_steps-Reaches s e =
      bind-Guarded _ _ s (idle-Reaches _ s (resolve_mount_server-Only idle_nodes.finding _) e)
        λ u mount e2.
          then-Guarded _ _ u
            (idle-Reaches _ u (wire_via_nodes-Only idle_nodes cfg rounds ts (via_nodes nodes) mount)
              e2)
            λ v _ e3.
              weaken-Guarded _ v
                (Calm-Reaches _ v (apply_advanced-Only Calm-AdvancedCalls cfg nodes)
                  (subst Calm (sym e3) tt))
                (λ _ _ _. tt) (λ _ _ _. tt)

  after_ready-Reaches :
      (server : Server) (p : Program (Unit {0}))
      → ((s : Progress) → s ≡ idle → Reaches (λ _ _. Unit {0}) p s)
      → Reaches (λ _ _. Unit {0}) (wait_ready rounds server >> finally_logout p) idle
  after_ready-Reaches server p h =
      then-Guarded _ _ idle
        (idle-Reaches _ idle
          (wait_ready-Only rounds server (λ s c. (tt, λ _. c)) (λ s c. (tt, λ _. c))) refl)
        λ t _ e. finally_logout-Reaches p t (h t e)

  by_vsas-Reaches :
      (vsas : List NodeDeploy) → Reaches (λ _ _. Unit {0}) (by_vsas ts rounds cfg nodes vsas) idle
  unfolding wire_standalone wire_primary
  by_vsas-Reaches [] = elim (Bool-cases (is_empty cfg.target_vbr.address)) [
    | inl h ↦ rw (wire_standalone, h) (fail-Guarded _ idle tt)
    | inr h ↦ rw (wire_standalone, h) (after_ready-Reaches _ _ standalone_steps-Reaches)
  ]
  by_vsas-Reaches (primary ∷ others) = elim (Bool-cases (is_empty primary.ip)) [
    | inl h ↦ rw (wire_primary, h) (fail-Guarded _ idle tt)
    | inr h ↦ rw (wire_primary, h) (after_ready-Reaches _ _ (primary_steps-Reaches primary others))
  ]

  -- A wiring deletes a repository only after the configuration backup was redirected, the default
  -- repository was found, by an id that is not empty, and its backups were listed, and each of
  -- them was deleted, in order, with the session of each deletion ended well; it deletes no other
  -- backup.
  pub wire-InOrder :
      Guarded removal (λ _ _. Unit {0}) (λ _ _. Unit {0}) (wire ts rounds cfg nodes) idle
  unfolding wire
  wire-InOrder = by_vsas-Reaches (vsa_nodes nodes)
