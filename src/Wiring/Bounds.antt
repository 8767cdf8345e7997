-- ===== src/Wiring/Bounds.antt =====
-- How often the loops of the wiring make their calls.
use autodeploy_web.Base.{
  ℕ, zero, suc, ◌+◌, ◌-◌, ◌*◌, ◌≤◌, ◌<◌, Text, Bool, true, false, List, [], ◌∷◌, length, is_empty,
  Bool-cases, inl, inr, ◌≡◌, refl, if◌then◌else◌, arith,
}
use autodeploy_web.Deploy.Run.{NodeDeploy}
use autodeploy_web.Wiring.Program.{
  Call, Program, Answer, ok, err, Response, pause, dial, add_s3_repository, ret, fail, ask, wrap,
  attempt, ◌>>◌, ◌>>=◌, create_cloud_credentials,
}
use autodeploy_web.Wiring.Guarded.{
  Monitor, Guarded, bind-Guarded, then-Guarded, weaken-Guarded, ret-Guarded, fail-Guarded,
  ask-Guarded, wrap-Guarded, attempt-Guarded, cases-Guarded,
}
use autodeploy_web.Wiring.Settings.{Settings, S3Config}
use autodeploy_web.Wiring.Retry.{
  dial_each, ports, wait_node_up, create_with_components, is_pending, s3_transient, retry_s3,
  max_s3_retries, max_component_retries,
}
use autodeploy_web.Wiring.Advanced.{add_object_storage, create_s3, s3_repo_spec}
use autodeploy_web.Wiring.Calls.Loops.{WaitsCalls, UpdatesCalls, update_components-Only, wait-Only}
use autodeploy_web.Wiring.Calls.Advanced.{
  s3_mount_server-Only, component_host-Only, ensure_folder-Only,
}
use autodeploy_web.Wiring.Calls.{Only, Only-Guarded, imp-Only, ask-Only, wrap-Only}

-- The cost of n + 1 attempts.
abbrev pub attempts : ℕ → ℕ → ℕ
attempts zero q = q
attempts (suc n) q = q + attempts n q

-- A budget of the calls that are counted.
abbrev pub budget : (Call → Bool) → Monitor ℕ
budget counted = record {
  next = λ s c r. if counted c then s - 1 else s;
  Allowed = λ s c. counted c ≡ true → 0 < s;
}

module _ (counted : Call → Bool) where
  -- At most `q` of the counted calls.
  pub record Costs {A : Type 0} (q : ℕ) (p : Program A) : Type 0 where
    pub within : (k s : ℕ) → q + k ≤ s → Guarded (budget counted) (λ t _. k ≤ t) (λ t _. k ≤ t) p s

module _ {counted : Call → Bool} where
  pub ret-Costs : {A : Type 0} (a : A) → Costs counted 0 (ret a)
  ret-Costs a = record { within = λ k s h. ret-Guarded a s (omega arith) }

  pub fail-Costs : {A : Type 0} (e : Text) → Costs counted {A = A} 0 (fail e)
  fail-Costs e = record { within = λ k s h. fail-Guarded e s (omega arith) }

  pub more-Costs :
      {A : Type 0} {p : Program A} (q r : ℕ) → q ≤ r → Costs counted q p → Costs counted r p
  more-Costs q r h c = record { within = λ k s i. c.within k s (omega arith) }

  pub ask-Costs : (c : Call) → Costs counted 1 (ask c)
  ask-Costs c = record {
    within = λ k s h. ask-Guarded c s (λ _. omega arith) (λ _. one k s h) (λ _. one k s h);
  }
    where
      one : (k s : ℕ) → 1 + k ≤ s → k ≤ (if counted c then s - 1 else s)
      one k s h = ground (arith, h)

  pub free-Costs :
      {A : Type 0} (p : Program A) → Only (λ c. counted c ≡ false) p → Costs counted 0 p
  free-Costs p o = record {
    within = λ k s h.
        Only-Guarded (budget counted) (λ t. k ≤ t) p s (imp-Only p (λ c n t i. fine c n k t i) o)
          (omega arith);
  }
    where
      fine :
          (c : Call)
          → counted c ≡ false
          → (k t : ℕ) → k ≤ t
          → (counted c ≡ true → 0 < t)
            × ((r : Answer (Response c)) → k ≤ (if counted c then t - 1 else t))
      fine c n k t i = (λ y. absurd (ground (arith, n, y)), λ r. ground (arith, n, i))

  pub bind-Costs :
      {A B : Type 0} {p : Program A} {f : A → Program B} (q r : ℕ)
      → Costs counted q p
      → ((a : A) → Costs counted r (f a))
      → Costs counted (q + r) (p >>= f)
  bind-Costs q r c d = record {
    within = λ k s h.
        bind-Guarded _ _ s
          (weaken-Guarded _ s (c.within (r + k) s (omega arith)) (λ t a i. i)
            (λ t e i. omega arith))
          (λ t a i. (d a).within k t i);
  }

  pub then-Costs :
      {A B : Type 0} {p : Program A} {f : Program B} (q r : ℕ)
      → Costs counted q p
      → Costs counted r f
      → Costs counted (q + r) (p >> f)
  then-Costs q r c d = record {
    within = λ k s h.
        then-Guarded _ _ s
          (weaken-Guarded _ s (c.within (r + k) s (omega arith)) (λ t a i. i)
            (λ t e i. omega arith))
          (λ t a i. d.within k t i);
  }

  pub wrap-Costs :
      {A : Type 0} {p : Program A} (l : Text) (q : ℕ)
      → Costs counted q p
      → Costs counted q (wrap l p)
  wrap-Costs l q c = record {
    within = λ k s h. wrap-Guarded {F = λ t _. k ≤ t} l _ s (c.within k s h) (λ t e i. i);
  }

  pub attempt-Costs :
      {A : Type 0} {p : Program A} (q : ℕ) → Costs counted q p → Costs counted q (attempt p)
  attempt-Costs q c = record {
    within = λ k s h.
        attempt-Guarded {R = λ t _. k ≤ t} {F = λ t _. k ≤ t} _ s (c.within k s h) (λ t a i. i)
          (λ t e i. i);
  }

  pub cases-Costs :
      {A B : Type 0} {p : Program A} (f : Answer A → Program B) (q r : ℕ)
      → Costs counted q p
      → ((a : A) → Costs counted r (f (ok a)))
      → ((e : Text) → Costs counted r (f (err e)))
      → Costs counted (q + r) (attempt p >>= f)
  cases-Costs f q r c d g = record {
    within = λ k s h.
        cases-Guarded {R = λ t _. r + k ≤ t} {F = λ t _. r + k ≤ t} _ f s
          (c.within (r + k) s (omega arith)) (λ t a i. (d a).within k t i)
          (λ t e i. (g e).within k t i);
  }

  -- n + 1 attempts, each with the cost of one.
  pub retry_s3-Costs :
      {A : Type 0} (n q : ℕ) {fn : Program A}
      → ((m : ℕ) → counted (pause m) ≡ false)
      → Costs counted q fn
      → Costs counted (attempts n q) (retry_s3 n fn)
  unfolding retry_s3
  retry_s3-Costs zero q p c = c
  retry_s3-Costs (suc n) q {fn} p c =
      cases-Costs _ q (attempts n q) c (λ a. more-Costs 0 _ (omega arith) (ret-Costs a))
        λ e. elim (Bool-cases (s3_transient e)) [
          | inl h ↦ rw h (
              more-Costs (0 + attempts n q) (attempts n q) (omega arith) (
                then-Costs 0 (attempts n q) (free-Costs _ (ask-Only (pause 45) (p 45)))
                  (retry_s3-Costs n q p c)))
          | inr h ↦ rw h (more-Costs 0 _ (omega arith) (fail-Costs e))
        ]

  pub create_with_components-Costs :
      {A : Type 0} (n q : ℕ) (cfg : Settings) (host : Text) {create : Program A}
      → UpdatesCalls (λ c. counted c ≡ false)
      → Costs counted q create
      → Costs counted (attempts n q) (create_with_components n cfg host create)
  unfolding create_with_components
  create_with_components-Costs zero q cfg host u c = c
  create_with_components-Costs (suc n) q cfg host u c =
      cases-Costs _ q (attempts n q) c (λ a. more-Costs 0 _ (omega arith) (ret-Costs a))
        λ e. elim (Bool-cases (is_pending e)) [
          | inl h ↦ rw h (
              more-Costs (0 + attempts n q) (attempts n q) (omega arith) (
                then-Costs 0 (attempts n q) (free-Costs _ (update_components-Only u cfg host))
                  (create_with_components-Costs n q cfg host u c)))
          | inr h ↦ rw h (more-Costs 0 _ (omega arith) (fail-Costs e))
        ]

abbrev pub is_dial : Call → Bool
is_dial (dial _ _) = true
is_dial _ = false

dial_each-Costs : (ip : Text) (ps : List Text) → Costs is_dial (length ps) (dial_each ip ps)
unfolding dial_each
dial_each-Costs ip [] = ret-Costs false
dial_each-Costs ip (p ∷ ps) =
    more-Costs {p = dial_each ip (p ∷ ps)} (1 + length ps) _ (omega arith) (
      cases-Costs _ 1 (length ps) (ask-Costs (dial ip p))
        (λ _. more-Costs 0 _ (omega arith) (ret-Costs true)) (λ _. dial_each-Costs ip ps))

-- The wait for a node ends: it makes at most three dials, and three more for each pause before the
-- deadline.
pub wait_node_up-dials :
    (rounds : ℕ) (ip : Text) → Costs is_dial (3 * (rounds + 1)) (wait_node_up rounds ip)
unfolding wait_node_up ports
wait_node_up-dials zero ip = more-Costs (3 + 0) _ (omega arith) (
    bind-Costs 3 0 (dial_each-Costs ip ports)
      λ up. elim (Bool-cases up) [ inl e ↦ rw e (ret-Costs tt) | inr e ↦ rw e (fail-Costs _) ])
wait_node_up-dials (suc n) ip = more-Costs (3 + 3 * (n + 1)) _ (omega arith) (
    bind-Costs 3 (3 * (n + 1)) (dial_each-Costs ip ports) λ up. elim (Bool-cases up) [
      | inl e ↦ rw e (more-Costs 0 _ (omega arith) (ret-Costs tt))
      | inr e ↦ rw e (
          more-Costs (0 + 3 * (n + 1)) _ (omega arith) (
            then-Costs 0 (3 * (n + 1)) (free-Costs _ (ask-Only (pause 15) refl))
              (wait_node_up-dials n ip)))
    ])

abbrev pub is_add_s3 : Call → Bool
is_add_s3 (add_s3_repository _) = true
is_add_s3 _ = false

uncounted_waits : WaitsCalls (λ c. is_add_s3 c ≡ false)
uncounted_waits = record { dialing = λ _ _. refl; pausing = λ _. refl }

uncounted_updates : UpdatesCalls (λ c. is_add_s3 c ≡ false)
uncounted_updates = record { waiting = λ _ _ _. refl; updating = λ _. refl }

create_s3-Costs :
    (cfg : Settings) (s : S3Config) (id mount host : Text)
    → Costs is_add_s3 15 (create_s3 cfg s id mount host)
unfolding create_s3 max_s3_retries max_component_retries
create_s3-Costs cfg s id mount host = elim (Bool-cases (is_empty host)) [
  | inl h ↦ rw (create_s3, h) (more-Costs 5 15 (omega arith) once)
  | inr h ↦ rw (create_s3, h) (create_with_components-Costs 2 5 cfg host uncounted_updates once)
]
  where
    once : Costs is_add_s3 5 (retry_s3 4 (ask (add_s3_repository (s3_repo_spec s id mount))))
    once = retry_s3-Costs 4 1 (λ _. refl) (ask-Costs (add_s3_repository (s3_repo_spec s id mount)))

-- Adding the object storage asks for its repository at most 15 times, over all retries.
pub add_object_storage-Costs :
    (cfg : Settings) (s : S3Config) (nodes : List NodeDeploy)
    → Costs is_add_s3 15 (add_object_storage cfg s nodes)
unfolding add_object_storage
add_object_storage-Costs cfg s nodes =
    more-Costs (0 + (0 + (0 + (0 + (15 + 0))))) 15 (omega arith) (
      bind-Costs 0 (0 + (0 + (0 + (15 + 0))))
        (free-Costs _ (wrap-Only _ (ask-Only (create_cloud_credentials _ _ _) refl)))
        λ id.
          bind-Costs 0 (0 + (0 + (15 + 0)))
            (free-Costs _ (s3_mount_server-Only (λ _. refl) s nodes))
            λ mount.
              then-Costs 0 (0 + (15 + 0))
                (free-Costs _ (ensure_folder-Only uncounted_waits s (λ _ _ _ _ _. refl) id))
                (bind-Costs 0 (15 + 0) (free-Costs _ (component_host-Only (λ _. refl) nodes mount))
                  λ host. wrap-Costs _ (15 + 0) (
                    bind-Costs 15 0 (create_s3-Costs cfg s id mount host)
                      λ sess. free-Costs _ (wait-Only uncounted_updates cfg sess 10))))
