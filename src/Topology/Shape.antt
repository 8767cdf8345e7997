-- ===== src/Topology/Shape.antt =====
-- What `New` builds, for each kind of the catalog.
use autodeploy_web.Base.{
  ℕ, suc, ◌≡◌, ◌↔◌, ◌⊎◌, inl, inr, refl, true, false, List, [], ◌∷◌, none, some, map, length, arith,
  Option-cases, All, ◌==◌, ==_iff, Bool-cases, ◌&&◌, ◌||◌, length-map, ap, sym, ◌∙◌, ◌≢◌,
  if◌then◌else◌,
}
use autodeploy_web.Topology.{
  Kind, NodeSpec, catalog, Identity, Node, Topology, Result, ok, err, zip_nodes, new, ha_nodes,
  is_standalone, unknown_kind, identity_count, is_vsa, validate, node_problems, count_problem,
  ha_problem,
}

-- The templates and the identities are paired in order.
zip_nodes-parts :
    (specs : List NodeSpec) (ids : List Identity)
    → length ids ≡ length specs
    → (map (λ (n : Node). n.spec) (zip_nodes specs ids) ≡ specs)
      × (map (λ (n : Node). n.identity) (zip_nodes specs ids) ≡ ids)
unfolding zip_nodes
zip_nodes-parts [] [] h = (refl, refl)
zip_nodes-parts [] (i ∷ ids) h = absurd (omega arith)
zip_nodes-parts (s ∷ specs) [] h = absurd (omega arith)
zip_nodes-parts (s ∷ specs) (i ∷ ids) h =
    let (e, f) = zip_nodes-parts specs ids (omega arith) in (ap (◌∷◌ s) e, ap (◌∷◌ i) f)

-- What a topology made of a kind and its identities is.
pub record Built (kind : Kind) (ids : List Identity) (t : Topology) : Type 0 where
  pub same_kind : t.kind ≡ kind
  pub templates : catalog kind ≡ some (map (λ (n : Node). n.spec) t.nodes)
  pub identities : map (λ (n : Node). n.identity) t.nodes ≡ ids

new_known :
    (kind : Kind) (ids : List Identity) (specs : List NodeSpec)
    → catalog kind ≡ some specs
    → (length ids ≡ length specs)
    → new kind ids ≡ ok (record { kind = kind; nodes = zip_nodes specs ids })
unfolding new
new_known kind ids specs e h = rw (new, e, (==_iff (length ids) (length specs)).1 h) refl

new_short :
    (kind : Kind) (ids : List Identity) (specs : List NodeSpec)
    → catalog kind ≡ some specs
    → (length ids == length specs) ≡ false
    → new kind ids ≡ err (identity_count kind (length specs) (length ids))
unfolding new
new_short kind ids specs e h = rw (new, e, h) refl

new_unknown :
    (kind : Kind) (ids : List Identity)
    → catalog kind ≡ none
    → new kind ids ≡ err (unknown_kind kind)
unfolding new
new_unknown kind ids e = rw (new, e) refl

-- Whatever the request, `New` either pairs the templates of the kind with the identities, in order,
-- or returns an error: of an unknown kind, or of a number of identities that is not the kind's.
pub data Outcome (kind : Kind) (ids : List Identity) (r : Result) : Type 0 where
  built : (t : Topology) → r ≡ ok t → Built kind ids t → Outcome kind ids r
  not_known : r ≡ err (unknown_kind kind) → catalog kind ≡ none → Outcome kind ids r
  miscounted :
      (specs : List NodeSpec)
      → r ≡ err (identity_count kind (length specs) (length ids))
      → catalog kind ≡ some specs
      → length ids ≢ length specs
      → Outcome kind ids r

-- For any kind and identities, New either pairs the templates of the kind with the identities, in
-- order, or returns an error: of a kind that is unknown, or of a number of identities that is not
-- the kind's.
pub new-Outcome : (kind : Kind) (ids : List Identity) → Outcome kind ids (new kind ids)
new-Outcome kind ids = elim (Option-cases (catalog kind)) [
  | inl e ↦ not_known (new_unknown kind ids e) e
  | inr (specs, e) ↦ elim (Bool-cases (length ids == length specs)) [
    | inl h ↦
        let counted = (==_iff (length ids) (length specs)).0 h in
        let (p, q) = zip_nodes-parts specs ids counted in
        built (record { kind = kind; nodes = zip_nodes specs ids })
          (new_known kind ids specs e counted)
          (record { same_kind = refl; templates = e ∙ ap some (sym p); identities = q })
    | inr h ↦ miscounted specs (new_short kind ids specs e h) e (ground arith)
  ]
]

-- The control plane comes first: behind a node that is not a VSA there is no VSA.
abbrev pub VsaFirst : List NodeSpec → Type 0
VsaFirst [] = Unit
VsaFirst (s ∷ ss) = (is_vsa s.role ≡ false → All (λ t. is_vsa t.role ≡ false) ss) × VsaFirst ss

abbrev pub vsa_nodes : List NodeSpec → ℕ
vsa_nodes [] = 0
vsa_nodes (s ∷ ss) = if is_vsa s.role then suc (vsa_nodes ss) else vsa_nodes ss

abbrev pub ha_specs : List NodeSpec → ℕ
ha_specs [] = 0
ha_specs (s ∷ ss) = if s.ha then suc (ha_specs ss) else ha_specs ss

-- In every architecture of the catalog the VSA nodes come first, either no node or exactly two VSA
-- nodes are in a cluster, and there is no VSA exactly in the standalone kinds.
pub catalog-shape :
    (kind : Kind) (specs : List NodeSpec)
    → catalog kind ≡ some specs
    → VsaFirst specs
      × ((ha_specs specs ≡ 0) ⊎ ((ha_specs specs ≡ 2) × (vsa_nodes specs ≡ 2)))
      × ((is_standalone kind ≡ true) ↔ (vsa_nodes specs ≡ 0))
unfolding catalog is_standalone
catalog-shape kind specs e = ground arith

ha_nodes-spec :
    (ns : List Node)
    → All (λ (s : NodeSpec). (is_vsa s.role && s.ha) ≡ s.ha) (map (λ (n : Node). n.spec) ns)
    → ha_nodes ns ≡ ha_specs (map (λ (n : Node). n.spec) ns)
unfolding ha_nodes
ha_nodes-spec [] h = refl
ha_nodes-spec (n ∷ ns) h = rw (h.0, ha_nodes-spec ns h.1) refl

catalog-ha_vsa :
    (kind : Kind) (specs : List NodeSpec)
    → catalog kind ≡ some specs
    → All (λ (s : NodeSpec). (is_vsa s.role && s.ha) ≡ s.ha) specs
unfolding catalog
catalog-ha_vsa kind specs e = ground arith

ha_count_fine :
    (kind : Kind) (specs : List NodeSpec)
    → catalog kind ≡ some specs
    → (ha_specs specs == 0 || ha_specs specs == 2) ≡ true
unfolding catalog
ha_count_fine kind specs e = ground arith

-- The structural checks of the validation never fail on what New built: only the nodes' own
-- problems are left.
pub Built-structure :
    (kind : Kind) (ids : List Identity) (t : Topology)
    → Built kind ids t
    → validate t ≡ node_problems 0 [] [] t.nodes
unfolding validate count_problem ha_problem
Built-structure kind ids t b =
    let specs = map (λ (n : Node). n.spec) t.nodes in
    let e = ap catalog b.same_kind ∙ b.templates in
    rw
      (
        validate,
        e,
        ha_nodes-spec t.nodes (catalog-ha_vsa kind specs b.templates),
        ha_count_fine kind specs b.templates,
        length-map t.nodes (λ (n : Node). n.spec),
        (==_iff (length t.nodes) (length t.nodes)).1 refl,
      )
      refl
