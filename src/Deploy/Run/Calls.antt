-- ===== src/Deploy/Run/Calls.antt =====
-- Which calls a deployment makes of the hypervisor: a property of the calls that a step keeps, and
-- one that a step ends with.
use autodeploy_web.Base.{
  ℕ, ◌≡◌, inl, inr, true, List, [], ◌∷◌, Option, none, some, Text, text, is_empty, if◌then◌else◌,
  ◌||◌, Bool-cases,
}
use autodeploy_web.Deploy.Run.{
  NodeDeploy, kickstart, Call, find_iso, upload_iso, create_vm, attach_iso, set_boot_disk_then_cd,
  power_on, send_keys, Answer, ok, err, Hypervisor, Spec, World, Result, and_then, vm_spec,
  prefixed, answered, called, upload_iso_file, node_iso, create_node, attach_node, order_node,
  power_node, type_boot_command, after_create, deploy_node,
}

abbrev pub Holds : (List Call → Type 0) → World → Type 0
Holds P w = P w.trace

-- What holds of the calls after a result: P if it is a value, E if it is an error.
unfoldable pub Post : (List Call → Type 0) → (List Call → Type 0) → {A : Type 0} → Result A → Type 0
Post P E (ok a, w) = P w.trace
Post P E (err e, w) = E w.trace

ok-Post :
    (P E : List Call → Type 0) {A : Type 0} (a : A) (w : World) → P w.trace → Post P E (ok a, w)
unfolding Post
ok-Post P E a w h = h

pub and_then-Post :
    (P Q E : List Call → Type 0) {A B : Type 0} (r : Result A) (k : A → World → Result B)
    → Post P E r
    → ((a : A) (w : World) → P w.trace → Post Q E (k a w))
    → Post Q E (and_then r k)
unfolding Post and_then
and_then-Post P Q E (ok a, w) k h f = f a w h
and_then-Post P Q E (err e, w) k h f = h

prefixed-Post :
    (P E : List Call → Type 0) {A : Type 0} (p : Text) (a : Answer A) (w : World)
    → P w.trace
    → E w.trace
    → Post P E (prefixed p a, w)
unfolding Post prefixed
prefixed-Post P E p (ok a) w h e = h
prefixed-Post P E p (err m) w h e = e

answered-Post :
    (P E : List Call → Type 0) (p : Text) (o : Option Text) (w : World)
    → P w.trace
    → E w.trace
    → Post P E (answered p o, w)
unfolding Post answered
answered-Post P E p none w h e = h
answered-Post P E p (some m) w h e = e

-- A property that no call about one node but the creation of its VM breaks.
pub record Stable (P : List Call → Type 0) (spec : Spec) (node : NodeDeploy) : Type 0 where
  pub finding : (t : Text) (cs : List Call) → P cs → P (find_iso t ∷ cs)
  pub uploading : (t : Text) (cs : List Call) → P cs → P (upload_iso t ∷ cs)
  pub attaching : (t u : Text) (cs : List Call) → P cs → P (attach_iso t u ∷ cs)
  pub ordering : (t : Text) (cs : List Call) → P cs → P (set_boot_disk_then_cd t ∷ cs)
  pub powering :
      (t : Text) (cs : List Call)
      → (spec.power_on || kickstart node) ≡ true
      → P cs
      → P (power_on t ∷ cs)
  pub typing :
      (t : Text) (ks : List Text) (cs : List Call)
      → kickstart node ≡ true
      → P cs
      → P (send_keys t ks ∷ cs)

module _ (P E : List Call → Type 0) (imp : (cs : List Call) → P cs → E cs) (hv : Hypervisor)
    (spec : Spec) (node : NodeDeploy) (s : Stable P spec node) where
  upload-Post : (p path : Text) (w : World) → P w.trace → Post P E (upload_iso_file hv p path w)
  unfolding upload_iso_file
  upload-Post p path w h =
      prefixed-Post P E p (hv.upload w.trace path) (called (upload_iso path) w)
        (s.uploading path w.trace h) (imp _ (s.uploading path w.trace h))

  pub node_iso-Post : (w : World) → P w.trace → Post P E (node_iso hv node w)
  unfolding node_iso
  node_iso-Post w h = elim (Bool-cases (kickstart node)) [
    | inl e ↦
        rw (node_iso, e)
          (and_then-Post P P E _ _
            (prefixed-Post P E _ (hv.find w.trace _) _ (s.finding _ w.trace h)
              (imp _ (s.finding _ w.trace h)))
            (λ ref v k. reused ref v k))
    | inr e ↦ rw (node_iso, e) (upload-Post _ node.iso_path w h)
  ]
    where
      reused :
          (ref : Text) (v : World)
          → P v.trace
          → Post P E (
              if is_empty ref
              then upload_iso_file hv (text "upload base ISO: ") node.base_iso_path v
              else (ok ref, v))
      reused [] v k = upload-Post _ node.base_iso_path v k
      reused (c ∷ t) v k = ok-Post P E (c ∷ t) v k

  power_node-Post :
      (i : ℕ) (vm : Text) (w : World) → P w.trace → Post P E (power_node hv spec i node vm w)
  unfolding power_node
  power_node-Post i vm w h = elim (Bool-cases (spec.power_on || kickstart node)) [
    | inl e ↦
        rw (power_node, e)
          (answered-Post P E _ (hv.power _ vm) _ (s.powering vm w.trace e h)
            (imp _ (s.powering vm w.trace e h)))
    | inr e ↦ rw (power_node, e) (ok-Post P E tt w h)
  ]

  type-Post :
      (i : ℕ) (vm : Text) (w : World) → P w.trace → Post P E (type_boot_command hv i node vm w)
  unfolding type_boot_command
  type-Post i vm w h = elim (Bool-cases (kickstart node)) [
    | inl e ↦
        rw (type_boot_command, e)
          (and_then-Post P P E _ _ (answered-Post P E _ (hv.boot_wait w.trace) _ h (imp _ h))
            (λ _ v k.
              answered-Post P E _ (hv.keys v.trace vm _) _ (s.typing vm _ v.trace e k)
                (imp _ (s.typing vm _ v.trace e k))))
    | inr e ↦ rw (type_boot_command, e) (ok-Post P E tt w h)
  ]

  pub after_create-Post :
      (i : ℕ) (iso vm : Text) (w : World)
      → P w.trace
      → Post P E (after_create hv spec i node iso vm w)
  unfolding after_create attach_node order_node
  after_create-Post i iso vm w h =
      and_then-Post P P E _ _
        (answered-Post P E _ (hv.attach _ vm iso) _ (s.attaching vm iso w.trace h)
          (imp _ (s.attaching vm iso w.trace h)))
        (λ _ w3 h3.
          and_then-Post P P E _ _
            (answered-Post P E _ (hv.set_boot _ vm) _ (s.ordering vm w3.trace h3)
              (imp _ (s.ordering vm w3.trace h3)))
            (λ _ w4 h4. and_then-Post P P E _ _ (power_node-Post i vm w4 h4) (λ _ w5 h5.
              and_then-Post P P E _ _ (type-Post i vm w5 h5) (λ _ w6 h6. ok-Post P E vm _ h6))))

-- A node: P holds before its VM is created, Q after, and E when the node fails.
pub deploy_node-Post :
    (P Q E : List Call → Type 0) (hv : Hypervisor) (spec : Spec) (node : NodeDeploy)
    → Stable P spec node
    → Stable Q spec node
    → ((cs : List Call) → P cs → E cs)
    → ((cs : List Call) → Q cs → E cs)
    → ((cs : List Call) → P cs → Q (create_vm (vm_spec hv spec node) ∷ cs))
    → (i : ℕ) (w : World) → P w.trace
    → Post Q E (deploy_node hv spec i node w)
unfolding deploy_node create_node
deploy_node-Post P Q E hv spec node sp sq pe qe create i w h =
    and_then-Post P Q E _ _ (node_iso-Post P E pe hv spec node sp _ h) (λ iso w1 h1.
      and_then-Post Q Q E _ _
        (and_then-Post Q Q E _ _
          (prefixed-Post Q E _ (hv.create w1.trace (vm_spec hv spec node)) _ (create w1.trace h1)
            (qe _ (create w1.trace h1)))
          (λ vm v k. ok-Post Q E vm _ k))
        (λ vm w2 h2. after_create-Post Q E qe hv spec node sq i iso vm w2 h2))
