-- ===== src/Job/Manager/Returns.antt =====
-- A deletion between the two steps that end a job: its result is marked, and not yet saved.
use autodeploy_web.Base.{◌≡◌, ap, true, List, none, some}
use autodeploy_web.Base.Registry.{lookup}
use autodeploy_web.Base.Registry.Lookup.{lookup-remove_self}
use autodeploy_web.Job.{Job, view, is_finished, finished-inactive}
use autodeploy_web.Job.Store.{Row, row_id, inserted, delete_job, save_job}
use autodeploy_web.Job.Store.Reload.{save_job-new}
use autodeploy_web.Job.Manager.{
  Manager, Worker, resulted, job_id, on_store, get, persist, DeleteResult, refused, deleted, delete,
}
use autodeploy_web.Job.Manager.Steps.{save, act, advance}
use autodeploy_web.Job.Manager.Slots.{After}

abbrev pub AfterDelete : (Manager → Type 0) → DeleteResult → Type 0
AfterDelete P (refused r) = ⊥
AfterDelete P (deleted n) = P n

-- The store has a row for the job of a worker.
pub Stored : Worker → Manager → Type 0
Stored w m =
    (rows : List Row) × ((m.store ≡ some rows)
      × (lookup row_id w.job.id rows ≡ some (inserted (view w.job) w.job.config_path)))

saved_again :
    (w : Worker) (n : Manager) (rows : List Row)
    → n.store ≡ some (delete_job w.job.id rows)
    → After (Stored w) (act save resulted w n)
unfolding act advance persist Stored delete_job view
saved_again w n rows e = (
  save_job (view w.job) w.job.config_path (delete_job w.job.id rows),
  (
    ap (on_store (save_job (view w.job) w.job.config_path)) e,
    save_job-new (view w.job) w.job.config_path (delete_job w.job.id rows)
        (lookup-remove_self row_id w.job.id rows),
  ),
)

-- With a store, when a finished job of the registry is deleted between the two last steps of its
-- worker, the deletion succeeds and the registry loses the job, and the worker's save then inserts
-- its row again.
pub delete-save_returns :
    (m : Manager) (w : Worker) (rows : List Row) (j : Job)
    → m.store ≡ some rows
    → get w.job.id m ≡ some j
    → is_finished j.state ≡ true
    → AfterDelete
        (λ n. (get w.job.id n ≡ none) × After (Stored w) (act save resulted w n))
        (delete w.job.id m)
unfolding delete get
delete-save_returns m w rows j s e h =
    rw (delete, get, e, finished-inactive j.state h)
      (
        lookup-remove_self job_id w.job.id m.jobs,
        saved_again w _ rows (ap (on_store (delete_job w.job.id)) s),
      )
