-- ===== src/Deploy/Store/Restart.antt =====
-- What a restart makes of the stored deployments, and what a save keeps of one.
use mathlib.Core.Path.{subst}
use autodeploy_web.Base.{
  true, false, List, [], ◌∷◌, Option, none, some, Text, text_eq, All, if◌then◌else◌, ◌≡◌, ◌≢◌, refl,
  arith, ℤ, Bool-cases, Option-cases, inl, inr,
}
use autodeploy_web.Base.Registry.{lookup, put}
use autodeploy_web.Job.{Time}
use autodeploy_web.Deploy.Run.{State, pending, running}
use autodeploy_web.Deploy.Manager.{
  Deployment, Manager, Refusal, still_running, refused, deployment_id, is_completed,
  prune_completed, retry_spec, retry_wire_spec, kept, delete, is_running, not_found, no_wirer,
}
use autodeploy_web.Deploy.Store.{
  PersistedDeployment, Codec, Row, row_id, scan, load_all, interrupted, Loading, stopped, inert,
  load_record, load_records, load_from_store,
}

-- A deployment that no run works on and that keeps no specification.
pub record Inert (d : Deployment) : Type 0 where
  pub ended : is_completed d.state ≡ true
  pub no_nodes : d.spec.nodes ≡ []
  pub no_wirer : d.spec.has_wirer ≡ false

put-All :
    (P : Deployment → Type 0) (a : Deployment) (xs : List Deployment)
    → P a
    → All P xs
    → All P (put deployment_id a xs)
unfolding put
put-All P a [] h hs = (h, tt)
put-All P a (x ∷ xs) h hs = elim (Bool-cases (text_eq (deployment_id x) (deployment_id a))) [
  | inl e ↦ rw e (h, hs.1)
  | inr e ↦ rw e (hs.0, put-All P a xs h hs.1)
]

lookup-All :
    (P : Deployment → Type 0) (k : Text) (a : Deployment) (xs : List Deployment)
    → All P xs
    → lookup deployment_id k xs ≡ some a
    → P a
unfolding lookup
lookup-All P k a [] h e = absurd (ground arith)
lookup-All P k a (x ∷ xs) h e = elim (Bool-cases (text_eq (deployment_id x) k)) [
  | inl t ↦ let s : x ≡ a = ground (arith, t, e) in subst P s h.0
  | inr f ↦ lookup-All P k a xs h.1 (ground (arith, f, e))
]

prune-All :
    (P : Deployment → Type 0) (m : Manager)
    → m.keep_completed ≡ 0
    → All P m.deployments
    → All P (prune_completed m).deployments
unfolding prune_completed
prune-All P m e h = rw (prune_completed, e) h

-- What becomes of the calls on a deployment without a run.
Refused : Text → ℤ → Manager → Type 0
Refused id given m =
    (retry_spec id m ≡ none)
    × ((r : Refusal) × (retry_wire_spec id given m ≡ refused r))
    × ((store_error : Option Text) → delete store_error id m ≢ kept still_running)

ended-running : (s : State) → is_completed s ≡ true → is_running s ≡ false
unfolding is_completed
ended-running pending h = cc
ended-running running h = cc
ended-running State.done h = refl
ended-running State.failed h = refl
ended-running State.canceled h = refl
ended-running State.removed h = refl

Inert-Refused : (id : Text) (given : ℤ) (m : Manager) → All Inert m.deployments → Refused id given m
unfolding Refused retry_spec retry_wire_spec delete
Inert-Refused id given m a = elim (Option-cases (lookup deployment_id id m.deployments)) [
  | inl e ↦ (
    rw (retry_spec, e) refl,
    (not_found, rw (retry_wire_spec, e) refl),
    (λ s. rw (delete, e) (λ k. cc)),
  )
  | inr de ↦
      let (d, e) = de in
      let i : Inert d = lookup-All Inert id d m.deployments a e in
      (
        rw (retry_spec, e, i.no_nodes) refl,
        (no_wirer, rw (retry_wire_spec, e, ended-running d.state i.ended, i.no_wirer) refl),
        (λ s. rw (delete, e, i.ended) (λ k. cc)),
      )
]

interrupted-completed : (s : State) → interrupted s ≡ false → is_completed s ≡ true
unfolding interrupted is_completed
interrupted-completed pending h = cc
interrupted-completed running h = cc
interrupted-completed State.done h = refl
interrupted-completed State.failed h = refl
interrupted-completed State.canceled h = refl
interrupted-completed State.removed h = refl

module _ {F : Type 0} (codec : Codec F) (now : Time) (clock : Text) where
  loaded-Inert :
      (p : PersistedDeployment F)
      → Inert (
          inert codec now clock (if interrupted p.view.state then stopped codec now clock p else p))
  unfolding inert stopped is_completed
  loaded-Inert p = elim (Bool-cases (interrupted p.view.state)) [
    | inl h ↦ rw h (record { ended = refl; no_nodes = refl; no_wirer = refl })
    | inr h ↦
        rw h (record {
          ended = interrupted-completed p.view.state h;
          no_nodes = refl;
          no_wirer = refl;
        })
  ]

  load_records-Inert :
      (ps : List (PersistedDeployment F)) (l : Loading)
      → All Inert l.manager.deployments
      → All Inert (load_records codec now clock ps l).manager.deployments
  unfolding load_records load_record
  load_records-Inert [] l h = h
  load_records-Inert (p ∷ ps) l h =
      load_records-Inert ps (load_record codec now clock p l)
        (put-All Inert _ l.manager.deployments (loaded-Inert p) h)

  load_records-cap :
      (ps : List (PersistedDeployment F)) (l : Loading)
      → (load_records codec now clock ps l).manager.keep_completed ≡ l.manager.keep_completed
  unfolding load_records load_record
  load_records-cap [] l = refl
  load_records-cap (p ∷ ps) l = load_records-cap ps (load_record codec now clock p l)

  load_from_store-Inert :
      (rows : List Row) → All Inert (load_from_store codec now clock rows).manager.deployments
  unfolding load_from_store prune_completed
  load_from_store-Inert rows = by_load (load_all codec rows) refl
    where
      by_load :
          (o : Option (List (PersistedDeployment F)))
          → load_all codec rows ≡ o
          → All Inert (load_from_store codec now clock rows).manager.deployments
      by_load none e = rw (load_from_store, e) tt
      by_load (some ps) e =
          rw (load_from_store, e)
            (prune-All Inert (load_records codec now clock ps _).manager (load_records-cap ps _)
              (load_records-Inert ps _ tt))

  -- After a restart no deployment can be retried, as a whole or in its wiring alone, and no
  -- deletion is refused because of a run, whatever the rows were.
  pub restart_refuses :
      (rows : List Row) (id : Text) (given : ℤ)
      → let m = (load_from_store codec now clock rows).manager in
        (retry_spec id m ≡ none)
        × ((r : Refusal) × (retry_wire_spec id given m ≡ refused r))
        × ((store_error : Option Text) → delete store_error id m ≢ kept still_running)
  unfolding Refused
  restart_refuses rows id given = Inert-Refused id given _ (load_from_store-Inert rows)

-- The decoding undoes the encoding at a record.
pub record Readable {F : Type 0} (codec : Codec F) (p : PersistedDeployment F) : Type 0 where
  pub nodes : codec.decode_nodes (codec.encode_nodes p.view.nodes) ≡ some p.view.nodes
  pub form : codec.decode_form (codec.encode_form p.view.form) ≡ some p.view.form
  pub lines : codec.decode_lines (codec.encode_lines p.lines) ≡ some p.lines

-- The record that `LoadAll` makes of the row with an id.
abbrev pub read : {F : Type 0} → Codec F → Text → List Row → Option (PersistedDeployment F)
read codec id rows = elim (lookup row_id id rows) [ none ↦ none | some r ↦ scan codec r ]
