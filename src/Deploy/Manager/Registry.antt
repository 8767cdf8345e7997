-- ===== src/Deploy/Manager/Registry.antt =====
-- What the registry of deployments keeps (`pruneCompleted` and `Delete` of internal/deploy/deploy.go).
use autodeploy_web.Base.{
  ℕ, zero, suc, ◌≡◌, ◌≢◌, Option, ◌⊎◌, inl, inr, refl, true, false, none, some, Text, text_eq,
  Bool-cases, Option-cases,
}
use autodeploy_web.Base.Registry.{lookup, remove, Distinct, prune}
use autodeploy_web.Base.Registry.Laws.{Pruned, prune-Pruned}
use autodeploy_web.Base.{length, keep_if, arith, ◌≤◌}
use autodeploy_web.Base.Registry.{put}
use autodeploy_web.Deploy.Run.{State}
use autodeploy_web.Deploy.Manager.{end_run, register}
use autodeploy_web.Base.Registry.Lookup.{Distinct-put, lookup-remove_self, lookup-remove_other}
use autodeploy_web.Deploy.Manager.{
  Deployment, Manager, deployment_id, completed, is_completed, age_key, prune_completed, not_found,
  still_running, DeleteResult, kept, deleted, delete,
}

-- In a registry of deployments with distinct ids, a cap of 0 prunes nothing; another drops
-- completed deployments only, none younger than one it keeps, leaves as many of them as it allows,
-- and keeps every other.
pub prune_completed_lem :
    (k : ℕ) (m : Manager)
    → Distinct deployment_id m.deployments
    → m.keep_completed ≡ k
    → ((k ≡ 0) × ((prune_completed m).deployments ≡ m.deployments))
      ⊎ ((k ≢ 0)
          × Pruned deployment_id completed age_key k m.deployments (prune_completed m).deployments)
unfolding prune_completed prune
prune_completed_lem zero m d e = inl (refl, rw (prune_completed, e) refl)
prune_completed_lem (suc k) m d e = inr (
  (λ z. omega arith),
  rw (prune_completed, e) (prune-Pruned deployment_id completed age_key (suc k) m.deployments d),
)

-- What `Delete` did.
pub data Deletion (store_error : Option Text) (id : Text) (m : Manager)
    : DeleteResult → Type 0 where
  missing :
      lookup deployment_id id m.deployments ≡ none → Deletion store_error id m (kept not_found)
  active :
      (d : Deployment)
      → lookup deployment_id id m.deployments ≡ some d
      → is_completed d.state ≡ false
      → Deletion store_error id m (kept still_running)
  gone :
      (d : Deployment) (n : Manager)
      → lookup deployment_id id m.deployments ≡ some d
      → is_completed d.state ≡ true
      → lookup deployment_id id n.deployments ≡ none
      → ((k : Text)
          → text_eq id k ≡ false
          → lookup deployment_id k n.deployments ≡ lookup deployment_id k m.deployments)
      → Deletion store_error id m (deleted n store_error)

-- Deleting refuses a deployment that is unknown or has not completed, and says which; it removes
-- any other, and that one only, and then returns the error of the store, if any.
pub delete_lem :
    (store_error : Option Text) (id : Text) (m : Manager)
    → Deletion store_error id m (delete store_error id m)
unfolding delete
delete_lem store_error id m = elim (Option-cases (lookup deployment_id id m.deployments)) [
  | inl e ↦ rw (delete, e) (missing e)
  | inr (d, e) ↦ elim (Bool-cases (is_completed d.state)) [
    | inl h ↦
        rw (delete, e, h)
          (gone d (record m { deployments = remove deployment_id id m.deployments }) e h
            (lookup-remove_self deployment_id id m.deployments)
            (λ k ne. lookup-remove_other deployment_id k id m.deployments ne))
    | inr h ↦ rw (delete, e, h) (active d e h)
  ]
]

-- With distinct ids and a positive cap, when a run ends in any state the registry is left with no
-- more completed deployments than the cap.
pub end_run_capped :
    (now k : ℕ) (state : State) (d : Deployment) (m : Manager)
    → Distinct deployment_id m.deployments
    → m.keep_completed ≡ suc k
    → length (keep_if completed (end_run now state d m).deployments) ≤ suc k
unfolding end_run register
end_run_capped now k state d m u e = after (
    prune_completed_lem (suc k) ended
      (Distinct-put deployment_id (record d { state = state; finished_at = now }) m.deployments u)
      e)
  where
    ended : Manager
    ended = record m {
      deployments = put deployment_id (record d { state = state; finished_at = now }) m.deployments;
    }

    after :
        ((suc k ≡ 0) × ((prune_completed ended).deployments ≡ ended.deployments))
          ⊎ ((suc k ≢ 0)
              × Pruned deployment_id completed age_key
                  (suc k)
                  ended.deployments
                  (prune_completed ended).deployments)
        → length (keep_if completed (prune_completed ended).deployments) ≤ suc k
    after (inl q) = absurd (omega arith)
    after (inr p) = omega (arith, p.1.capped)
