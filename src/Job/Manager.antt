-- ===== src/Job/Manager.antt =====
-- internal/job/manager.go: the registry of the jobs, its pruning and its store. The map of jobs is a
-- list without order, keyed by the id; files are those under configs/.jobs; the database and the
-- removal of a file answer without an error (the code logs or ignores theirs).
use autodeploy_web.Base.{
  ℕ, zero, suc, Bool, true, false, not, List, [], ◌∷◌, map, Option, none, some, Text, text, leb,
  if◌then◌else◌, ℤ, pos, pos_part, leb_ℤ, sort_by, ◌-◌,
}
use mathlib.Core.List.{reverse}
use autodeploy_web.Base.Registry.{lookup, put, remove, remove_each, excess}
use autodeploy_web.Config.Schema.{Config}
use autodeploy_web.Job.Naming.{output_name, config_path}
use autodeploy_web.Job.{
  State, pending, running, failed, Time, Job, JobView, PersistedJob, new_job, new_persisted_job,
  view, is_finished, is_active,
}
use autodeploy_web.Job.Store.{Row, save_job, load_jobs, delete_job}
pub mod Steps
pub mod Prune
pub mod Slots
pub mod Restart
pub mod Returns

pub record File : Type 0 where
  pub path : Text
  pub content : Config

abbrev pub file_path : File → Text
file_path f = f.path

abbrev pub job_id : Job → Text
job_id j = j.id

-- Where a worker goroutine is, with the job object it holds: in the select before it has a slot,
-- with a slot and before `markRunning`, before the first `persist`, in `Run`, before the second
-- `persist`, before `closeSubs`, and with only its deferred calls left.
pub data Phase : Type 0 where
  waiting acquired started executing resulted persisted closed : Phase

pub record Worker : Type 0 where
  pub job : Job
  pub phase : Phase

abbrev pub worker_id : Worker → Text
worker_id w = w.job.id

pub record Options : Type 0 where
  pub data_dir : Text
  pub max_concurrent : ℤ
  pub keep_completed : ℤ
  pub store : Option (List Row)

pub record Manager : Type 0 where
  pub data_dir : Text
  pub max_concurrent : ℕ
  pub keep_completed : ℕ
  pub store : Option (List Row)
  pub jobs : List Job
  pub files : List File
  pub workers : List Worker
  pub stopped : Bool

abbrev pub or_default : ℤ → ℕ → ℕ
or_default n d = if leb_ℤ n (pos 0) then d else pos_part n

abbrev pub on_store : (List Row → List Row) → Option (List Row) → Option (List Row)
on_store f none = none
on_store f (some rows) = some (f rows)

-- What loading makes of a record: a job that was pending or running has failed.
unfoldable pub normalise : Time → PersistedJob → PersistedJob
normalise now p =
    if is_active p.view.state
    then record p {
      view = record p.view {
        state = failed;
        finished_at = (elim p.view.finished_at [ zero ↦ now | suc t ↦ suc t ]);
        error_message = text "interrupted by restart";
      };
    }
    else p

unfoldable pub load_record : Time → PersistedJob → Manager → Manager
unfolding normalise
load_record now p m =
    let q = normalise now p in
    record m {
      store =
          if is_active p.view.state
          then on_store (save_job q.view q.config_path) m.store
          else m.store;
      jobs = put job_id (new_persisted_job q) m.jobs;
    }

unfoldable pub load_records : Time → List PersistedJob → Manager → Manager
unfolding load_record
load_records now [] m = m
load_records now (p ∷ ps) m = load_records now ps (load_record now p m)

abbrev pub empty_manager : Options → List File → Manager
empty_manager o files = record {
  data_dir = o.data_dir;
  max_concurrent = or_default o.max_concurrent 1;
  keep_completed = or_default o.keep_completed 50;
  store = o.store;
  jobs = [];
  files = files;
  workers = [];
  stopped = false;
}

-- `NewManager`, with the files that stand in the directory.
unfoldable pub new_manager : Time → Options → List File → Manager
unfolding load_records
new_manager now o files = elim o.store [
  | none ↦ empty_manager o files
  | some rows ↦ load_records now (load_jobs rows) (empty_manager o files)
]

unfoldable pub persist : Job → Manager → Manager
persist j m = record m { store = on_store (save_job (view j) j.config_path) m.store }

abbrev pub finished_job : Job → Bool
finished_job j = is_finished j.state

abbrev pub finished_key : Job → ℕ
finished_key j = j.finished_at

unfoldable pub remove_files : List Job → List File → List File
remove_files [] files = files
remove_files (j ∷ js) files = remove_files js (remove file_path j.config_path files)

unfoldable pub delete_rows : List Job → List Row → List Row
delete_rows [] rows = rows
delete_rows (j ∷ js) rows = delete_rows js (delete_job j.id rows)

-- `pruneLocked`.
unfoldable pub prune_locked : Manager → Manager
unfolding remove_files delete_rows
prune_locked m =
    let gone = excess finished_job finished_key m.keep_completed m.jobs in
    record m {
      jobs = remove_each job_id gone m.jobs;
      files = remove_files gone m.files;
      store = on_store (delete_rows gone) m.store;
    }

unfoldable pub set_keep_completed : ℤ → Manager → Manager
set_keep_completed n m =
    if leb_ℤ n (pos 0) then m else prune_locked (record m { keep_completed = pos_part n })

-- `Submit`, with the new id, the clock and whether the directory and the file can be written: the
-- job is queued and its worker waits for a slot.
unfoldable pub submit : Text → Time → Bool → Config → Manager → Option (Job × Manager)
submit id now writable c m =
    let out = output_name c in
    let path = config_path m.data_dir id in
    let j = new_job id c.hostname c.appliance_type c.source_iso out path now in
    let filed = record m {
      files =
          put file_path (record { path = path; content = record c { output_iso = out } }) m.files;
      jobs = put job_id j m.jobs;
    } in
    let queued = persist j (prune_locked filed) in
    if writable
    then some (
      j,
      record queued {
        workers = put worker_id (record { job = j; phase = waiting }) queued.workers;
      },
    )
    else none

unfoldable pub get : Text → Manager → Option Job
get id m = lookup job_id id m.jobs

-- `List`: newest first.
unfoldable pub list : Manager → List JobView
list m = map view (reverse (sort_by (λ j. j.created_at) m.jobs))

pub data Refusal : Type 0 where
  not_found unfinished : Refusal

pub data DeleteResult : Type 0 where
  refused : Refusal → DeleteResult
  deleted : Manager → DeleteResult

unfoldable pub delete : Text → Manager → DeleteResult
unfolding get
delete id m = elim (get id m) [
  | none ↦ refused not_found
  | some j ↦
      if is_active j.state
      then refused unfinished
      else deleted (record m {
        jobs = remove job_id id m.jobs;
        files = remove file_path j.config_path m.files;
        store = on_store (delete_job id) m.store;
      })
]
