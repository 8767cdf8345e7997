-- ===== src/Topology.antt =====
-- internal/topology/topology.go: the catalog of architectures, the nodes of one, their checks and
-- the configuration of each. `net.ParseIP` is the model's parse_ip.
pub mod Shape
pub mod Identities
pub mod Configs
use autodeploy_web.Base.{
  ℕ, suc, ◌+◌, Bool, true, false, List, [], ◌∷◌, ◌++◌, Option, none, some, Text, text, text_eq,
  ◌==◌, if◌then◌else◌, ◌&&◌, ◌||◌, not, is_empty, length, any,
}
use autodeploy_web.Config.Schema.{Config}
use autodeploy_web.Config.Address.{parse_ip}

pub data Role : Type 0 where
  vsa via_proxy via_hr : Role

unfoldable pub appliance_type : Role → Text
appliance_type via_proxy = text "VIA"
appliance_type via_hr = text "VIAHR"
appliance_type vsa = text "VSA"

-- A kind is a string of a request: the last constructor is any other one.
pub data Kind : Type 0 where
  kind_vsa kind_vsa_proxy kind_vsa_hr kind_vsa_proxy_hr kind_vsa_ha_hr : Kind
  kind_vsa_ha_proxy_hr kind_proxy kind_hr : Kind
  unknown : Text → Kind

unfoldable pub all_kinds : List Kind
all_kinds =
    kind_vsa ∷ kind_vsa_proxy ∷ kind_vsa_hr ∷ kind_vsa_proxy_hr ∷ kind_vsa_ha_hr
    ∷ kind_vsa_ha_proxy_hr ∷ kind_proxy ∷ kind_hr ∷ []

unfoldable pub is_standalone : Kind → Bool
is_standalone kind_proxy = true
is_standalone kind_hr = true
is_standalone _ = false

pub record NodeSpec : Type 0 where
  pub role : Role
  pub ha : Bool

abbrev plain : Role → NodeSpec
plain r = record { role = r; ha = false }

abbrev clustered : NodeSpec
clustered = record { role = vsa; ha = true }

unfoldable pub catalog : Kind → Option (List NodeSpec)
catalog kind_vsa = some (plain vsa ∷ [])
catalog kind_vsa_proxy = some (plain vsa ∷ plain via_proxy ∷ [])
catalog kind_vsa_hr = some (plain vsa ∷ plain via_hr ∷ [])
catalog kind_vsa_proxy_hr = some (plain vsa ∷ plain via_proxy ∷ plain via_hr ∷ [])
catalog kind_vsa_ha_hr = some (clustered ∷ clustered ∷ plain via_hr ∷ [])
catalog kind_vsa_ha_proxy_hr = some (clustered ∷ clustered ∷ plain via_proxy ∷ plain via_hr ∷ [])
catalog kind_proxy = some (plain via_proxy ∷ [])
catalog kind_hr = some (plain via_hr ∷ [])
catalog (unknown _) = none

-- A nil list of DNS servers leaves the configuration's own.
pub record Identity : Type 0 where
  pub hostname : Text
  pub static_ip : Text
  pub subnet : Text
  pub gateway : Text
  pub dns_servers : Option (List Text)

pub record Node : Type 0 where
  pub spec : NodeSpec
  pub identity : Identity

pub record Topology : Type 0 where
  pub kind : Kind
  pub nodes : List Node

pub data Problem : Type 0 where
  unknown_kind : Kind → Problem
  identity_count : Kind → ℕ → ℕ → Problem
  node_count : Kind → ℕ → ℕ → Problem
  ha_count : ℕ → Problem
  hostname_required : ℕ → Role → Problem
  duplicate_hostname : Text → Problem
  ip_required : ℕ → Role → Problem
  invalid_ip : ℕ → Role → Text → Problem
  duplicate_ip : Text → Problem

pub data Result : Type 0 where
  ok : Topology → Result
  err : Problem → Result

unfoldable pub zip_nodes : List NodeSpec → List Identity → List Node
zip_nodes (s ∷ specs) (i ∷ ids) = record { spec = s; identity = i } ∷ zip_nodes specs ids
zip_nodes _ _ = []

-- `New`.
unfoldable pub new : Kind → List Identity → Result
unfolding zip_nodes
new kind ids = elim (catalog kind) [
  | none ↦ err (unknown_kind kind)
  | some specs ↦
      if length ids == length specs
      then ok (record { kind = kind; nodes = zip_nodes specs ids })
      else err (identity_count kind (length specs) (length ids))
]

abbrev is_vsa : Role → Bool
is_vsa vsa = true
is_vsa _ = false

abbrev is_hr : Role → Bool
is_hr via_hr = true
is_hr _ = false

abbrev chosen_dns : Option (List Text) → List Text → List Text
chosen_dns none base = base
chosen_dns (some ds) base = ds

unfoldable pub build_config : Node → Config → Config
unfolding appliance_type
build_config n base = record base {
  appliance_type = appliance_type n.spec.role;
  high_availability_enabled = n.spec.ha;
  via_single_disk = is_hr n.spec.role;
  hostname = n.identity.hostname;
  use_dhcp = false;
  static_ip = n.identity.static_ip;
  subnet = n.identity.subnet;
  gateway = n.identity.gateway;
  dns_servers = chosen_dns n.identity.dns_servers base.dns_servers;
}

unfoldable pub ha_nodes : List Node → ℕ
ha_nodes [] = 0
ha_nodes (n ∷ ns) =
    let rest = ha_nodes ns in if is_vsa n.spec.role && n.spec.ha then suc rest else rest

abbrev pub seen : Text → List Text → Bool
seen t = any (λ s. text_eq s t)

unfoldable pub host_problem : ℕ → Node → List Text → List Problem
host_problem i n hosts =
    if is_empty n.identity.hostname
    then hostname_required i n.spec.role ∷ []
    else if seen n.identity.hostname hosts
    then duplicate_hostname n.identity.hostname ∷ []
    else []

unfoldable pub ip_problem : ℕ → Node → List Text → List Problem
ip_problem i n ips =
    if is_empty n.identity.static_ip
    then ip_required i n.spec.role ∷ []
    else elim (parse_ip n.identity.static_ip) [
      | none ↦ invalid_ip i n.spec.role n.identity.static_ip ∷ []
      | some _ ↦
          if seen n.identity.static_ip ips then duplicate_ip n.identity.static_ip ∷ [] else []
    ]

-- A set grows by what was in order; adding again what is in it changes nothing.
abbrev pub note : List Problem → Text → List Text → List Text
note [] t set = t ∷ set
note (_ ∷ _) t set = set

-- The loop over the nodes, with the sets of the names and the addresses seen.
unfoldable pub node_problems : ℕ → List Text → List Text → List Node → List Problem
node_problems i hosts ips [] = []
node_problems i hosts ips (n ∷ ns) =
    let h = host_problem i n hosts in
    let p = ip_problem i n ips in
    h
    ++ p
    ++ node_problems (suc i) (note h n.identity.hostname hosts) (note p n.identity.static_ip ips) ns

unfoldable pub count_problem : Kind → ℕ → ℕ → List Problem
count_problem k expected has = if has == expected then [] else node_count k expected has ∷ []

unfoldable pub ha_problem : ℕ → List Problem
ha_problem n = if n == 0 || n == 2 then [] else ha_count n ∷ []

-- `Validate`.
unfoldable pub validate : Topology → List Problem
validate t = elim (catalog t.kind) [
  | none ↦ unknown_kind t.kind ∷ []
  | some specs ↦
      count_problem t.kind (length specs) (length t.nodes)
      ++ ha_problem (ha_nodes t.nodes)
      ++ node_problems 0 [] [] t.nodes
]
