-- ===== src/Wiring/Once.antt =====
-- The goroutine of a node adds nothing that it has not looked for and missed: no host, no
-- hardened repository, no proxy.
use autodeploy_web.Base.{
  ℕ, Text, true, List, [], Option, none, some, is_empty, Bool-cases, inl, inr, ◌≡◌, if◌then◌else◌,
  refl,
}
use autodeploy_web.Deploy.Run.{NodeDeploy}
use autodeploy_web.Wiring.Program.{
  Call, Program, find_managed_server_by_name, find_repository_by_name, find_proxy_by_host,
  add_linux_host, add_hardened_repository, add_vmware_proxy, Answer, ok, err, Response, ask, wrap,
}
use autodeploy_web.Wiring.Guarded.{
  Monitor, Guarded, bind-Guarded, then-Guarded, weaken-Guarded, ret-Guarded, fail-Guarded,
  ask-Guarded, wrap-Guarded,
}
use autodeploy_web.Wiring.Settings.{Settings, is_hr, is_proxy, pairing}
use autodeploy_web.Wiring.Retry.{max_component_retries}
use autodeploy_web.Wiring.Nodes.{
  add_host, resolve_host, create_repository, wire_repository, wire_proxy, wire_role, wire_node,
  repo_name, hardened_spec,
}
use autodeploy_web.Wiring.Calls.{Only, Fine, Only-Guarded, ask-Only, bind-Only, wrap-Only}
use autodeploy_web.Wiring.Calls.Loops.{
  WaitsCalls, UpdatesCalls, wait_node_up-Only, create_with_components-Only, wait-Only,
}

-- The names that were last looked for without being found.
pub record Missing : Type 0 where
  pub server : Option Text
  pub repository : Option Text
  pub proxy : Option Text

abbrev pub missed : Text → Answer Text → Option Text
missed name (ok id) = if is_empty id then some name else none
missed name (err e) = none

abbrev pub missing_next : Missing → (c : Call) → Answer (Response c) → Missing
missing_next s (find_managed_server_by_name t) r = record s { server = missed t r }
missing_next s (find_repository_by_name t) r = record s { repository = missed t r }
missing_next s (find_proxy_by_host t) r = record s { proxy = missed t r }
missing_next s _ r = s

abbrev pub OnlyMissing : Missing → Call → Type 0
OnlyMissing s (add_linux_host ip _ _ _) = s.server ≡ some ip
OnlyMissing s (add_hardened_repository h) = s.repository ≡ some h.name
OnlyMissing s (add_vmware_proxy host _) = s.proxy ≡ some host
OnlyMissing s _ = Unit

abbrev pub lookups : Monitor Missing
lookups = record { next = missing_next; Allowed = OnlyMissing }

abbrev Any : {A : Type 0} → Program A → Missing → Type 0
Any p s = Guarded lookups (λ _ _. Unit {0}) (λ _ _. Unit {0}) p s

-- Waits and updates need nothing and change nothing.
waits-Fine : (I : Missing → Type 0) → WaitsCalls (Fine lookups I)
waits-Fine I = record { dialing = λ _ _ s i. (tt, λ _. i); pausing = λ _ s i. (tt, λ _. i) }

updates-Fine : (I : Missing → Type 0) → UpdatesCalls (Fine lookups I)
updates-Fine I = record { waiting = λ _ _ _ s i. (tt, λ _. i); updating = λ _ s i. (tt, λ _. i) }

-- An empty id of a lookup is a miss.
missed-empty : (name id : Text) → is_empty id ≡ true → missed name (ok id) ≡ some name
missed-empty name id h = rw h refl

find_server-Guarded :
    (l ip : Text) (s : Missing)
    → Guarded lookups
        (λ t id. is_empty id ≡ true → t.server ≡ some ip)
        (λ _ _. Unit {0})
        (wrap l (ask (find_managed_server_by_name ip)))
        s
find_server-Guarded l ip s =
    wrap-Guarded {F = λ _ _. Unit {0}} l _ s
      (ask-Guarded (find_managed_server_by_name ip) s tt (λ id. missed-empty ip id) (λ _. tt))
      (λ _ _ _. tt)

find_repository-Guarded :
    (l name : Text) (s : Missing)
    → Guarded lookups
        (λ t id. is_empty id ≡ true → t.repository ≡ some name)
        (λ _ _. Unit {0})
        (wrap l (ask (find_repository_by_name name)))
        s
find_repository-Guarded l name s =
    wrap-Guarded {F = λ _ _. Unit {0}} l _ s
      (ask-Guarded (find_repository_by_name name) s tt (λ id. missed-empty name id) (λ _. tt))
      (λ _ _ _. tt)

find_proxy-Guarded :
    (l host : Text) (s : Missing)
    → Guarded lookups
        (λ t id. is_empty id ≡ true → t.proxy ≡ some host)
        (λ _ _. Unit {0})
        (wrap l (ask (find_proxy_by_host host)))
        s
find_proxy-Guarded l host s =
    wrap-Guarded {F = λ _ _. Unit {0}} l _ s
      (ask-Guarded (find_proxy_by_host host) s tt (λ id. missed-empty host id) (λ _. tt))
      (λ _ _ _. tt)

-- A program of calls that are fine while `I` holds.
Fine-Any :
    {A : Type 0} (I : Missing → Type 0) (p : Program A) (s : Missing)
    → Only (Fine lookups I) p
    → I s
    → Any p s
Fine-Any I p s o i = weaken-Guarded p s (Only-Guarded lookups I p s o i) (λ _ _ _. tt) (λ _ _ _. tt)

module _ (cfg : Settings) where
  add_host-Any : (n : NodeDeploy) (s : Missing) → s.server ≡ some n.ip → Any (add_host cfg n) s
  unfolding add_host
  add_host-Any n s i =
      then-Guarded _ _ s
        (Fine-Any (λ t. t.server ≡ some n.ip) _ s
          (wrap-Only _ (
            bind-Only (ask-Only (add_linux_host n.ip n.role (pairing n) []) (λ t j. (j, λ _. j)))
              λ sess. wait-Only (updates-Fine _) cfg sess 10))
          i)
        λ t _ _. bind-Guarded _ _ t (find_server-Guarded _ n.ip t) λ u id _.
          elim (Bool-cases (is_empty id)) [
            | inl e ↦ rw e (fail-Guarded _ u tt)
            | inr e ↦ rw e (ret-Guarded id u tt)
          ]

  resolve_host-Any : (n : NodeDeploy) (s : Missing) → Any (resolve_host cfg n) s
  unfolding resolve_host
  resolve_host-Any n s = bind-Guarded _ _ s (find_server-Guarded _ n.ip s) λ t id h.
      elim (Bool-cases (is_empty id)) [
        | inl e ↦ rw e (add_host-Any n t (h e))
        | inr e ↦ rw e (ret-Guarded id t tt)
      ]

  create_repository-Any :
      (n : NodeDeploy) (repo host mount : Text) (s : Missing)
      → s.repository ≡ some repo
      → Any (create_repository cfg n repo host mount) s
  unfolding create_repository hardened_spec
  create_repository-Any n repo host mount s i =
      Fine-Any (λ t. t.repository ≡ some repo) _ s
        (wrap-Only _ (
          create_with_components-Only (updates-Fine _) cfg max_component_retries host (
            bind-Only
              (ask-Only (add_hardened_repository (hardened_spec cfg repo host mount))
                (λ t j. (j, λ _. j)))
              λ sess. wait-Only (updates-Fine _) cfg sess 10)))
        i

  wire_repository-Any :
      (n : NodeDeploy) (repo host mount : Text) (s : Missing)
      → Any (wire_repository cfg n repo host mount) s
  unfolding wire_repository
  wire_repository-Any n repo host mount s =
      bind-Guarded _ _ s (find_repository-Guarded _ repo s) λ t id h.
        elim (Bool-cases (is_empty id)) [
          | inl e ↦ rw e (
              then-Guarded _ _ t (create_repository-Any n repo host mount t (h e)) λ u _ _.
                weaken-Guarded _ u (find_repository-Guarded _ repo u) (λ _ _ _. tt) (λ _ _ _. tt))
          | inr e ↦ rw e (ret-Guarded id t tt)
        ]

  wire_proxy-Any : (n : NodeDeploy) (host : Text) (s : Missing) → Any (wire_proxy cfg n host) s
  unfolding wire_proxy
  wire_proxy-Any n host s = bind-Guarded _ _ s (find_proxy-Guarded _ host s) λ t id h.
      elim (Bool-cases (is_empty id)) [
        | inl e ↦ rw e (
            Fine-Any (λ u. u.proxy ≡ some host) _ t
              (wrap-Only _ (
                create_with_components-Only (updates-Fine _) cfg max_component_retries host (
                  bind-Only (ask-Only (add_vmware_proxy host 4) (λ u j. (j, λ _. j)))
                    λ sess. wait-Only (updates-Fine _) cfg sess 10)))
              (h e))
        | inr e ↦ rw e (ret-Guarded tt t tt)
      ]

  wire_role-Any :
      (vias : List NodeDeploy) (n : NodeDeploy) (host mount : Text) (s : Missing)
      → Any (wire_role cfg vias n host mount) s
  unfolding wire_role
  wire_role-Any vias n host mount s = elim (Bool-cases (is_hr n.role)) [
    | inl h ↦
        rw (wire_role, h)
          (bind-Guarded _ _ s (wire_repository-Any n (repo_name vias n) host mount s)
            λ t id _. ret-Guarded (some id) t tt)
    | inr h ↦ elim (Bool-cases (is_proxy n.role)) [
      | inl p ↦
          rw (wire_role, h, p)
            (then-Guarded _ _ s (wire_proxy-Any n host s) λ t _ _. ret-Guarded none t tt)
      | inr p ↦ rw (wire_role, h, p) (ret-Guarded none s tt)
    ]
  ]

-- Whatever the calls are answered, the goroutine of a node adds a host, a hardened repository or a
-- proxy only when its last lookup of that kind was of the same name, and answered that there is
-- none.
pub wire_node-OnlyMissing :
    (rounds : ℕ) (cfg : Settings) (vias : List NodeDeploy) (mount : Text) (n : NodeDeploy)
    (s : Missing)
    → Guarded lookups (λ _ _. Unit {0}) (λ _ _. Unit {0}) (wire_node rounds cfg vias mount n) s
unfolding wire_node
wire_node-OnlyMissing rounds cfg vias mount n s = elim (Bool-cases (is_empty n.ip)) [
  | inl h ↦ rw (wire_node, h) (fail-Guarded _ s tt)
  | inr h ↦
      rw (wire_node, h)
        (then-Guarded _ _ s
          (Fine-Any (λ _. Unit) _ s (wrap-Only _ (wait_node_up-Only (waits-Fine _) rounds n.ip)) tt)
          λ t _ _.
            bind-Guarded _ _ t (resolve_host-Any cfg n t)
              λ u host _. wire_role-Any cfg vias n host mount u)
]
