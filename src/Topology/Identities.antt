-- ===== src/Topology/Identities.antt =====
-- When the nodes of a topology have proper identities.
use autodeploy_web.Base.{
  ℕ, suc, ◌≡◌, ◌≢◌, ◌↔◌, refl, sym, false, List, [], ◌∷◌, ◌++◌, none, map, arith, All, Text,
  text_eq_iff, is_empty_iff,
}
use autodeploy_web.Config.Address.{parse_ip}
use mathlib.Core.Path.{◌∙◌, subst₂}
use autodeploy_web.Topology.Shape.{Built, Built-structure}
use autodeploy_web.Topology.{
  Node, Kind, Identity, Topology, note, validate, seen, host_problem, ip_problem, node_problems,
}

abbrev pub Differ : List Text → Type 0
Differ [] = Unit
Differ (x ∷ xs) = All (λ y. x ≢ y) xs × Differ xs

abbrev pub hostnames : List Node → List Text
hostnames = map (λ n. n.identity.hostname)

abbrev pub addresses : List Node → List Text
addresses = map (λ n. n.identity.static_ip)

-- Every node has a name and an address that parses, and no two share either.
pub record Proper (ns : List Node) : Type 0 where
  pub named : All (λ h. h ≢ []) (hostnames ns)
  pub addressed : All (λ a. (a ≢ []) × (parse_ip a ≢ none)) (addresses ns)
  pub names_differ : Differ (hostnames ns)
  pub addresses_differ : Differ (addresses ns)

abbrev Unseen : List Text → List Text → Type 0
Unseen set xs = All (λ x. All (λ s. s ≢ x) set) xs

seen_iff : (t : Text) (set : List Text) → (seen t set ≡ false) ↔ All (λ s. s ≢ t) set
seen_iff t [] = (λ _. tt, λ _. refl)
seen_iff t (s ∷ set) = (
  λ h. ground (arith, text_eq_iff s t, seen_iff t set),
  λ a. ground (arith, text_eq_iff s t, seen_iff t set),
)

host_iff :
    (i : ℕ) (n : Node) (set : List Text)
    → (host_problem i n set ≡ [])
      ↔ ((n.identity.hostname ≢ []) × All (λ s. s ≢ n.identity.hostname) set)
unfolding host_problem
host_iff i n set = (
  λ h. ground (arith, is_empty_iff n.identity.hostname, seen_iff n.identity.hostname set),
  λ h. ground (arith, is_empty_iff n.identity.hostname, seen_iff n.identity.hostname set),
)

ip_iff :
    (i : ℕ) (n : Node) (set : List Text)
    → (ip_problem i n set ≡ []) ↔ (
        (n.identity.static_ip ≢ [])
        × (parse_ip n.identity.static_ip ≢ none)
        × All (λ s. s ≢ n.identity.static_ip) set)
unfolding ip_problem
ip_iff i n set = (
  λ h. ground (arith, is_empty_iff n.identity.static_ip, seen_iff n.identity.static_ip set),
  λ h. ground (arith, is_empty_iff n.identity.static_ip, seen_iff n.identity.static_ip set),
)

-- The same with the names and the addresses already seen.
record ProperAfter (hosts ips : List Text) (ns : List Node) : Type 0 where
  proper : Proper ns
  hosts_new : Unseen hosts (hostnames ns)
  ips_new : Unseen ips (addresses ns)

Unseen-grow :
    (x : Text) (set xs : List Text) → All (λ y. x ≢ y) xs → Unseen set xs → Unseen (x ∷ set) xs
Unseen-grow x set [] d u = tt
Unseen-grow x set (y ∷ ys) d u = ((d.0, u.0), Unseen-grow x set ys d.1 u.1)

Unseen-shrink :
    (x : Text) (set xs : List Text) → Unseen (x ∷ set) xs → All (λ y. x ≢ y) xs × Unseen set xs
Unseen-shrink x set [] u = (tt, tt)
Unseen-shrink x set (y ∷ ys) u = let (d, v) = Unseen-shrink x set ys u.1 in ((u.0.0, d), (u.0.1, v))

node_problems-none :
    (i : ℕ) (hosts ips : List Text) (ns : List Node)
    → ProperAfter hosts ips ns
    → node_problems i hosts ips ns ≡ []
unfolding node_problems
node_problems-none i hosts ips [] p = refl
node_problems-none i hosts ips (n ∷ ns) p =
    let q = p.proper in
    let h = (host_iff i n hosts).1 (q.named.0, p.hosts_new.0) in
    let a = (ip_iff i n ips).1 (q.addressed.0.0, q.addressed.0.1, p.ips_new.0) in
    rw (h, a)
      (node_problems-none (suc i) (n.identity.hostname ∷ hosts) (n.identity.static_ip ∷ ips) ns
        (record {
          proper = record {
            named = q.named.1;
            addressed = q.addressed.1;
            names_differ = q.names_differ.1;
            addresses_differ = q.addresses_differ.1;
          };
          hosts_new =
              Unseen-grow n.identity.hostname hosts (hostnames ns) q.names_differ.0 p.hosts_new.1;
          ips_new =
              Unseen-grow n.identity.static_ip ips (addresses ns) q.addresses_differ.0 p.ips_new.1;
        }))

append_nil_parts {ℓ} : {A : Type ℓ} (xs ys : List A) → xs ++ ys ≡ [] → (xs ≡ []) × (ys ≡ [])
append_nil_parts [] ys e = (refl, e)
append_nil_parts (x ∷ xs) ys e = cc

node_problems-ProperAfter :
    (i : ℕ) (hosts ips : List Text) (ns : List Node)
    → node_problems i hosts ips ns ≡ []
    → ProperAfter hosts ips ns
unfolding node_problems
node_problems-ProperAfter i hosts ips [] e = record {
  proper = record { named = tt; addressed = tt; names_differ = tt; addresses_differ = tt };
  hosts_new = tt;
  ips_new = tt;
}
node_problems-ProperAfter i hosts ips (n ∷ ns) e =
    let later =
      node_problems (suc i) (note (host_problem i n hosts) n.identity.hostname hosts)
        (note (ip_problem i n ips) n.identity.static_ip ips) ns in
    let (e1, r) = append_nil_parts (host_problem i n hosts ++ ip_problem i n ips) later e in
    let (h, a) = append_nil_parts (host_problem i n hosts) (ip_problem i n ips) e1 in
    let (named, fresh) = (host_iff i n hosts).0 h in
    let (addressed, valid, unused) = (ip_iff i n ips).0 a in
    let rest =
      node_problems-ProperAfter (suc i) (n.identity.hostname ∷ hosts) (n.identity.static_ip ∷ ips)
        ns
        (subst₂
          (λ p q.
            node_problems (suc i) (note p n.identity.hostname hosts)
              (note q n.identity.static_ip ips) ns
            ≡ [])
          h a r) in
    let (hd, hu) = Unseen-shrink n.identity.hostname hosts (hostnames ns) rest.hosts_new in
    let (ad, au) = Unseen-shrink n.identity.static_ip ips (addresses ns) rest.ips_new in
    record {
      proper = record {
        named = (named, rest.proper.named);
        addressed = ((addressed, valid), rest.proper.addressed);
        names_differ = (hd, rest.proper.names_differ);
        addresses_differ = (ad, rest.proper.addresses_differ);
      };
      hosts_new = (fresh, hu);
      ips_new = (unused, au);
    }

Unseen-none : (xs : List Text) → Unseen [] xs
Unseen-none [] = tt
Unseen-none (x ∷ xs) = (tt, Unseen-none xs)

-- A topology that New built passes its validation exactly when every node has a name and an
-- address that parses and no two nodes share a name or an address.
pub validate-Proper :
    (kind : Kind) (ids : List Identity) (t : Topology)
    → Built kind ids t
    → (validate t ≡ []) ↔ Proper t.nodes
validate-Proper kind ids t b = (
  λ e. (node_problems-ProperAfter 0 [] [] t.nodes (sym (Built-structure kind ids t b) ∙ e)).proper,
  λ p.
      Built-structure kind ids t b
      ∙ node_problems-none 0 [] [] t.nodes (record {
        proper = p;
        hosts_new = Unseen-none (hostnames t.nodes);
        ips_new = Unseen-none (addresses t.nodes);
      }),
)
