-- ===== src/Wiring/Calls/Loops.antt =====
-- Which calls the waits and the retries make.
use autodeploy_web.Base.{ℕ, zero, suc, Text, true, false, List, [], ◌∷◌, ℤ, Bool-cases, inl, inr}
use autodeploy_web.Wiring.Program.{Call, dial, pause, wait_session, update_host_components, Program}
use autodeploy_web.Wiring.Settings.{Settings}
use autodeploy_web.Wiring.Retry.{
  dial_each, ports, wait_node_up, wait, update_components, is_pending, create_with_components,
  s3_transient, retry_s3,
}
use autodeploy_web.Wiring.Calls.{
  Only, ret-Only, fail-Only, ask-Only, bind-Only, then-Only, attempt-Only, cases-Only,
}

pub record WaitsCalls (P : Call → Type 0) : Type 0 where
  pub dialing : (ip port : Text) → P (dial ip port)
  pub pausing : (n : ℕ) → P (pause n)

pub record UpdatesCalls (P : Call → Type 0) : Type 0 where
  pub waiting : (id : Text) (poll : ℕ) (t : ℤ) → P (wait_session id poll t)
  pub updating : (ids : List Text) → P (update_host_components ids)

module _ {P : Call → Type 0} where
  module _ (f : WaitsCalls P) where
    dial_each-Only : (ip : Text) (ps : List Text) → Only P (dial_each ip ps)
    unfolding dial_each
    dial_each-Only ip [] = ret-Only false
    dial_each-Only ip (p ∷ ps) =
        cases-Only _ (ask-Only _ (f.dialing ip p)) (λ _. ret-Only true) (λ _. dial_each-Only ip ps)

    pub wait_node_up-Only : (n : ℕ) (ip : Text) → Only P (wait_node_up n ip)
    unfolding wait_node_up
    wait_node_up-Only zero ip =
        bind-Only (dial_each-Only ip ports)
          λ up. elim (Bool-cases up) [ inl e ↦ rw e (ret-Only tt) | inr e ↦ rw e (fail-Only _) ]
    wait_node_up-Only (suc n) ip = bind-Only (dial_each-Only ip ports) λ up. elim (Bool-cases up) [
      | inl e ↦ rw e (ret-Only tt)
      | inr e ↦ rw e (then-Only (ask-Only _ (f.pausing 15)) (wait_node_up-Only n ip))
    ]

    pub retry_s3-Only : {A : Type 0} (n : ℕ) {fn : Program A} → Only P fn → Only P (retry_s3 n fn)
    unfolding retry_s3
    retry_s3-Only zero k = k
    retry_s3-Only (suc n) k = cases-Only _ k ret-Only λ e. elim (Bool-cases (s3_transient e)) [
      | inl h ↦ rw h (then-Only (ask-Only _ (f.pausing 45)) (retry_s3-Only n k))
      | inr h ↦ rw h (fail-Only e)
    ]

  module _ (f : UpdatesCalls P) (cfg : Settings) where
    pub wait-Only : (id : Text) (poll : ℕ) → Only P (wait cfg id poll)
    unfolding wait
    wait-Only id poll = ask-Only _ (f.waiting id poll cfg.session_timeout)

    pub update_components-Only : (host : Text) → Only P (update_components cfg host)
    unfolding update_components
    update_components-Only host =
        cases-Only _ (ask-Only _ (f.updating (host ∷ [])))
          (λ id. bind-Only (attempt-Only (wait-Only id 10)) (λ _. ret-Only tt)) (λ _. ret-Only tt)

    pub create_with_components-Only :
        {A : Type 0} (n : ℕ) (host : Text) {create : Program A}
        → Only P create
        → Only P (create_with_components n cfg host create)
    unfolding create_with_components
    create_with_components-Only zero host k = k
    create_with_components-Only (suc n) host k = cases-Only _ k ret-Only λ e.
        elim (Bool-cases (is_pending e)) [
          | inl h ↦
              rw h (then-Only (update_components-Only host) (create_with_components-Only n host k))
          | inr h ↦ rw h (fail-Only e)
        ]
