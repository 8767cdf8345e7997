-- ===== src/Job/Manager/Prune.antt =====
-- What pruning, a new cap and a deletion leave of the registry of jobs.
use autodeploy_web.Base.{
  ◌≡◌, ◌⊎◌, inl, inr, refl, true, false, none, some, Text, text_eq, length, keep_if, min, leb_ℤ,
  pos, pos_part, ℤ, Bool-cases, Option-cases,
}
use autodeploy_web.Base.Registry.{lookup, Distinct, prune}
use autodeploy_web.Base.Registry.Laws.{Pruned, prune-Pruned}
use autodeploy_web.Base.Registry.Lookup.{lookup-remove_self, lookup-remove_other, Distinct-prune}
use autodeploy_web.Job.{Job, is_active}
use autodeploy_web.Job.Manager.{
  Manager, job_id, finished_job, finished_key, prune_locked, set_keep_completed, get, not_found,
  unfinished, DeleteResult, refused, deleted, delete,
}

-- In a registry with distinct ids, pruning drops finished jobs only, none that finished later than
-- one it keeps, leaves as many of them as the cap allows, and keeps every unfinished job.
pub prune_locked-Pruned :
    (m : Manager)
    → Distinct job_id m.jobs
    → Pruned job_id finished_job finished_key m.keep_completed m.jobs (prune_locked m).jobs
unfolding prune_locked prune
prune_locked-Pruned m d = prune-Pruned job_id finished_job finished_key m.keep_completed m.jobs d

pub Distinct-prune_locked :
    (m : Manager) → Distinct job_id m.jobs → Distinct job_id (prune_locked m).jobs
unfolding prune_locked prune
Distinct-prune_locked m d =
    Distinct-prune job_id finished_job finished_key m.keep_completed m.jobs d

-- In a registry with distinct ids, a positive cap takes effect at once: the finished jobs left are
-- as many as it allows; another cap changes nothing.
pub set_keep_completed_lem :
    (n : ℤ) (m : Manager)
    → Distinct job_id m.jobs
    → ((leb_ℤ n (pos 0) ≡ true) × (set_keep_completed n m ≡ m))
      ⊎ ((leb_ℤ n (pos 0) ≡ false)
          × (length (keep_if finished_job (set_keep_completed n m).jobs)
              ≡ min (pos_part n) (length (keep_if finished_job m.jobs))))
unfolding set_keep_completed
set_keep_completed_lem n m d = elim (Bool-cases (leb_ℤ n (pos 0))) [
  | inl h ↦ inl (h, rw (set_keep_completed, h) refl)
  | inr h ↦ inr (
    h,
    rw (set_keep_completed, h)
        ((prune_locked-Pruned (record m { keep_completed = pos_part n }) d).capped),
  )
]

-- What `Delete` did: nothing, with the reason, or the job is gone and every other is as it was.
pub data Deletion (id : Text) (m : Manager) : DeleteResult → Type 0 where
  missing : get id m ≡ none → Deletion id m (refused not_found)
  active :
      (j : Job) → get id m ≡ some j → is_active j.state ≡ true → Deletion id m (refused unfinished)
  done :
      (j : Job) (n : Manager)
      → get id m ≡ some j
      → is_active j.state ≡ false
      → get id n ≡ none
      → ((k : Text) → text_eq id k ≡ false → get k n ≡ get k m)
      → Deletion id m (deleted n)

-- Deleting refuses a job that is unknown or that is pending or running, and says which; it removes any
-- other, and that one only.
pub delete-Deletion : (id : Text) (m : Manager) → Deletion id m (delete id m)
unfolding delete get
delete-Deletion id m = elim (Option-cases (lookup job_id id m.jobs)) [
  | inl e ↦ rw (delete, get, e) (missing e)
  | inr (j, e) ↦ elim (Bool-cases (is_active j.state)) [
    | inl h ↦ rw (delete, get, e, h) (active j e h)
    | inr h ↦
        rw (delete, get, e, h)
          (done j _ e h (lookup-remove_self job_id id m.jobs)
            (λ k ne. lookup-remove_other job_id k id m.jobs ne))
  ]
]
