-- ===== src/Wiring/Session.antt =====
-- Every call of the REST service stands between a successful sign-in and the sign-out.
use autodeploy_web.Base.{
  ℕ, zero, suc, Text, Bool, true, false, List, [], ◌∷◌, is_empty, Bool-cases, inl, inr, ◌≡◌, ◌≢◌,
  ◌⊎◌, ◌&&◌, if◌then◌else◌, refl,
}
use autodeploy_web.Deploy.Run.{NodeDeploy}
use autodeploy_web.Wiring.Program.{
  Call, Program, Server, authenticate, logout, pause, ret, fail, call, Answer, ok, err, Response,
  ask, ◌>>◌, finally_logout,
}
use autodeploy_web.Wiring.Guarded.{
  Monitor, Leads, Guarded, then-Guarded, weaken-Guarded, ret-Guarded, fail-Guarded, ask-Guarded,
  wrap-Guarded, cases-Guarded,
}
use autodeploy_web.Wiring.Settings.{Settings}
use autodeploy_web.Wiring.Retry.{wait_ready}
use autodeploy_web.Wiring.Pool.{Turn}
use autodeploy_web.Wiring.Topology.{
  wire, by_vsas, vsa_nodes, wire_standalone, wire_primary, target_server, primary_server,
}
use autodeploy_web.Wiring.Calls.{Only, Fine, Only-Guarded, imp-Only}
use autodeploy_web.Wiring.Calls.Loops.{WaitsCalls, UpdatesCalls}
use autodeploy_web.Wiring.Calls.Nodes.{NodesCalls}
use autodeploy_web.Wiring.Calls.Advanced.{AdvancedCalls}
use autodeploy_web.Wiring.Calls.Cluster.{LicenseCalls, ClusterCalls, HaCalls}
use autodeploy_web.Wiring.Calls.Whole.{standalone_steps-Only, primary_steps-Only}

pub data Session : Type 0 where
  closed opened left : Session

-- The calls that need no session.
abbrev pub is_sign_in : Call → Bool
is_sign_in (authenticate _) = true
is_sign_in _ = false

abbrev pub is_pause : Call → Bool
is_pause (pause _) = true
is_pause _ = false

abbrev pub is_sign_out : Call → Bool
is_sign_out logout = true
is_sign_out _ = false

abbrev pub is_ok : {A : Type 0} → Answer A → Bool
is_ok (ok _) = true
is_ok (err _) = false

abbrev pub session_next : Session → (c : Call) → Answer (Response c) → Session
session_next s c r = if is_sign_out c then left else if is_sign_in c && is_ok r then opened else s

-- Before a sign-in only sign-ins and pauses, then anything but a sign-in, and after it nothing.
abbrev pub SessionAllows : Session → Call → Type 0
SessionAllows closed c = (is_sign_in c ≡ true) ⊎ (is_pause c ≡ true)
SessionAllows opened c = is_sign_in c ≡ false
SessionAllows left c = ⊥

abbrev pub sessions : Monitor Session
sessions = record { next = session_next; Allowed = SessionAllows }

-- A call of the steps between sign-in and sign-out.
abbrev Inner : Call → Type 0
Inner c = (is_sign_in c ≡ false) × (is_sign_out c ≡ false)

Inner-WaitsCalls : WaitsCalls Inner
Inner-WaitsCalls = record { dialing = λ _ _. (refl, refl); pausing = λ _. (refl, refl) }

Inner-UpdatesCalls : UpdatesCalls Inner
Inner-UpdatesCalls = record { waiting = λ _ _ _. (refl, refl); updating = λ _. (refl, refl) }

Inner-NodesCalls : NodesCalls Inner
Inner-NodesCalls = record {
  waits = Inner-WaitsCalls;
  updates = Inner-UpdatesCalls;
  finding = λ _. (refl, refl);
  finding_repository = λ _. (refl, refl);
  finding_proxy = λ _. (refl, refl);
  adding = λ _ _ _ _. (refl, refl);
  storing = λ _. (refl, refl);
  proxying = λ _ _. (refl, refl);
}

Inner-AdvancedCalls : AdvancedCalls Inner
Inner-AdvancedCalls = record {
  waits = Inner-WaitsCalls;
  updates = Inner-UpdatesCalls;
  finding = λ _. (refl, refl);
  exporting = λ _ _ _ _. (refl, refl);
  forwarding = λ _ _ _. (refl, refl);
  crediting = λ _ _ _. (refl, refl);
  opening = λ _ _ _ _ _. (refl, refl);
  storing = λ _. (refl, refl);
}

Inner-LicenseCalls : LicenseCalls Inner
Inner-LicenseCalls = record {
  querying = (refl, refl);
  reading = λ _. (refl, refl);
  installing = λ _. (refl, refl);
}

Inner-ClusterCalls : ClusterCalls Inner
Inner-ClusterCalls = record {
  waits = Inner-WaitsCalls;
  waiting = λ _ _ _. (refl, refl);
  crediting = λ _ _ _. (refl, refl);
  certifying = λ _ _. (refl, refl);
  clustering = λ _ _ _. (refl, refl);
}

Inner-HaCalls : HaCalls Inner
Inner-HaCalls = record {
  cluster = Inner-ClusterCalls;
  redirecting = λ _. (refl, refl);
  finding = λ _. (refl, refl);
  listing = λ _. (refl, refl);
  deleting_backup = λ _. (refl, refl);
  deleting = λ _. (refl, refl);
}

Inner-Fine : (c : Call) → Inner c → Fine sessions (λ s. s ≡ opened) c
Inner-Fine c i s e = (rw e i.0, λ r. rw (i.0, i.1) e)

finally_logout-Guarded :
    (p : Program (Unit {0})) (s : Session)
    → Guarded sessions (λ t _. t ≡ opened) (λ t _. t ≡ opened) p s
    → Guarded sessions (λ t _. t ≡ left) (λ t _. t ≡ left) (finally_logout p) s
unfolding Leads finally_logout
finally_logout-Guarded (ret a) s g = record { leads = (rw g.leads refl, λ r. refl) }
finally_logout-Guarded (fail e) s g = record { leads = (rw g.leads refl, λ r. refl) }
finally_logout-Guarded (call c k) s g = record {
  leads = (
    g.leads.0,
    λ r.
        (finally_logout-Guarded (k r) (sessions.next s c r) (record { leads = g.leads.1 r })).leads,
  );
}

-- The steps of a session, from the calls that they make.
steps-Guarded :
    (p : Program (Unit {0})) (s : Session)
    → Only Inner p
    → s ≡ opened
    → Guarded sessions (λ t _. t ≡ left) (λ t _. t ≡ left) (finally_logout p) s
steps-Guarded p s o e =
    finally_logout-Guarded p s
      (Only-Guarded sessions (λ t. t ≡ opened) p s (imp-Only p Inner-Fine o) e)

sign_in-Guarded :
    (server : Server) (s : Session)
    → s ≡ closed
    → Guarded sessions (λ t _. t ≡ opened) (λ t _. t ≡ closed) (ask (authenticate server)) s
sign_in-Guarded server s e =
    let a : SessionAllows s (authenticate server) = rw e (inl refl) in
    ask-Guarded (authenticate server) s a (λ _. refl) (λ _. e)

pause-Guarded :
    (s : Session)
    → s ≡ closed
    → Guarded sessions (λ t _. t ≡ closed) (λ t _. t ≡ closed) (ask (pause 20)) s
pause-Guarded s e =
    let a : SessionAllows s (pause 20) = rw e (inr refl) in
    ask-Guarded (pause 20) s a (λ _. e) (λ _. e)

wait_ready-Guarded :
    (n : ℕ) (server : Server) (s : Session)
    → s ≡ closed
    → Guarded sessions (λ t _. t ≡ opened) (λ t _. t ≡ closed) (wait_ready n server) s
unfolding wait_ready
wait_ready-Guarded zero server s e =
    cases-Guarded _ _ s (sign_in-Guarded server s e) (λ t _ o. ret-Guarded tt t o)
      (λ t _ c. fail-Guarded _ t c)
wait_ready-Guarded (suc n) server s e =
    cases-Guarded _ _ s (sign_in-Guarded server s e) (λ t _ o. ret-Guarded tt t o)
      λ t _ c.
        then-Guarded {R = λ u _. u ≡ closed} _ _ t
          (wrap-Guarded {F = λ u _. u ≡ closed} _ _ t (pause-Guarded t c) (λ u _ d. d))
          (λ u _ d. wait_ready-Guarded n server u d)

-- A sign-in that waits, and the session after it.
whole-Guarded :
    (n : ℕ) (server : Server) (p : Program (Unit {0}))
    → Only Inner p
    → Guarded sessions
        (λ s _. s ≡ left)
        (λ s _. s ≢ opened)
        (wait_ready n server >> finally_logout p)
        closed
whole-Guarded n server p o =
    then-Guarded _ _ closed
      (weaken-Guarded _ closed (wait_ready-Guarded n server closed refl) (λ _ _ h. h)
        (λ t _ h k. cc))
      (λ t _ h. weaken-Guarded _ t (steps-Guarded p t o h) (λ _ _ h. h) (λ t _ h k. cc))

failing-Guarded :
    (e : Text)
    → Guarded {A = Unit {0}} sessions (λ s _. s ≡ left) (λ s _. s ≢ opened) (fail e) closed
failing-Guarded e = fail-Guarded e closed (λ k. cc)

-- Of the operations of the client that a wiring calls, the sign-in is the first: before it has
-- succeeded, there are no others but pauses between its attempts, after that the wiring calls it
-- no second time (the renewals that an operation makes by itself stay inside it), and the sign-out
-- is the last, also when the wiring fails; no wiring returns between the two.
pub wire-session :
    (ts : List Turn) (rounds : ℕ) (cfg : Settings) (nodes : List NodeDeploy)
    → Guarded sessions (λ s _. s ≡ left) (λ s _. s ≢ opened) (wire ts rounds cfg nodes) closed
unfolding wire wire_standalone wire_primary
wire-session ts rounds cfg nodes = by_vsas-Guarded (vsa_nodes nodes)
  where
    by_vsas-Guarded :
        (vsas : List NodeDeploy)
        → Guarded sessions
            (λ s _. s ≡ left)
            (λ s _. s ≢ opened)
            (by_vsas ts rounds cfg nodes vsas)
            closed
    by_vsas-Guarded [] = elim (Bool-cases (is_empty cfg.target_vbr.address)) [
      | inl h ↦ rw (wire_standalone, h) (failing-Guarded _)
      | inr h ↦
          rw (wire_standalone, h)
            (whole-Guarded rounds (target_server cfg) _
              (standalone_steps-Only Inner-NodesCalls Inner-AdvancedCalls cfg rounds ts nodes))
    ]
    by_vsas-Guarded (primary ∷ others) = elim (Bool-cases (is_empty primary.ip)) [
      | inl h ↦ rw (wire_primary, h) (failing-Guarded _)
      | inr h ↦
          rw (wire_primary, h)
            (whole-Guarded rounds (primary_server cfg primary) _ (
              primary_steps-Only Inner-NodesCalls Inner-AdvancedCalls cfg rounds ts
                Inner-LicenseCalls Inner-HaCalls nodes primary others))
    ]
