-- ===== src/Tests/Jobs.antt =====
-- The jobs, their store and their manager at concrete inputs (internal/job/).
use autodeploy_web.Base.{
  ℕ, ◌+◌, ◌≡◌, ◌≤◌, refl, true, false, List, [], ◌∷◌, none, some, Text, text, text_eq, pos, arith,
  inr,
}
use autodeploy_web.Base.Registry.{lookup, Distinct}
use autodeploy_web.Base.Registry.Laws.{Pruned}
use autodeploy_web.Config.Defaults.{defaults}
use autodeploy_web.Fanout
use autodeploy_web.Job.{State, pending, running, done, failed, Job, JobView}
use autodeploy_web.Job.Store.{unix_epoch, save_job, inserted, Row, row_id}
use autodeploy_web.Job.Store.Reload.{Storable, read, persisted, save_job-again}
use autodeploy_web.Job.{is_finished}
use autodeploy_web.Job.Manager.{Worker, resulted, get}
use autodeploy_web.Job.Manager.Steps.{act}
use autodeploy_web.Job.Manager.Returns.{AfterDelete, Stored, delete-save_returns}
use autodeploy_web.Job.Manager.{
  Options, Manager, job_id, finished_job, finished_key, prune_locked, delete, new_manager,
}
use autodeploy_web.Job.Manager.Steps.{
  Event, submitting, worker, acquire, start, save, finish, shutting_down, run, slots,
}
use autodeploy_web.Job.Manager.Prune.{prune_locked-Pruned}
use autodeploy_web.Job.Manager.Slots.{Inv, After, run-Inv}
use autodeploy_web.Job.Manager.Restart.{Loaded, new_manager-Loaded}

-- 2026 in nanoseconds since the zero time.
abbrev today : ℕ
today = unix_epoch + 1767225600000000000

today-Storable : Storable today
today-Storable = inr (omega arith, omega arith, λ e. omega arith)

abbrev job : Text → State → ℕ → Job
job id state at = record {
  id = id;
  state = state;
  hostname = text "vsa";
  appliance = text "VSA";
  source_iso = text "a.iso";
  output_iso = text "b.iso";
  config_path = text "/data/configs/.jobs/a.json";
  created_at = at;
  started_at = at;
  finished_at = at;
  exit_code = pos 0;
  error_message = [];
  log = Fanout.new [];
  done_closed = true;
}

abbrev a_view : State → JobView
a_view s = record {
  id = text "a";
  state = s;
  hostname = text "vsa";
  appliance = text "VSA";
  source_iso = text "a.iso";
  output_iso = text "b.iso";
  config_path = text "a.json";
  created_at = today;
  started_at = today;
  finished_at = today;
  exit_code = pos 0;
  error_message = [];
}

save_job-again_example :
    read
      (text "a")
      (save_job (a_view done) (text "a.json") (save_job (a_view pending) (text "a.json") []))
    ≡ some (persisted (a_view done) (text "a.json"))
unfolding lookup
save_job-again_example =
    save_job-again (a_view pending) (a_view done) (text "a.json") [] refl
      (record {
        same_id = refl;
        same_hostname = refl;
        same_appliance = refl;
        same_source = refl;
        same_output = refl;
        same_creation = refl;
      })
      (today-Storable, today-Storable, today-Storable)

abbrev three : Manager
three = record {
  data_dir = text "/data";
  max_concurrent = 1;
  keep_completed = 1;
  store = none;
  jobs = job (text "a") done 7 ∷ job (text "b") running 5 ∷ job (text "c") failed 3 ∷ [];
  files = [];
  workers = [];
  stopped = false;
}

three-Distinct : Distinct job_id three.jobs
unfolding text text_eq
three-Distinct = ((refl, (refl, tt)), ((refl, tt), (tt, tt)))

prune_locked-Pruned_example :
    Pruned job_id finished_job finished_key 1 three.jobs (prune_locked three).jobs
prune_locked-Pruned_example = prune_locked-Pruned three three-Distinct

abbrev stored : Options
stored = record {
  data_dir = text "/data";
  max_concurrent = pos 2;
  keep_completed = pos 0;
  store = some (inserted (a_view running) (text "a.json") ∷ []);
}

abbrev stored_row : Row
stored_row = inserted (a_view running) (text "a.json")

new_manager-Loaded_example :
    Loaded today
      (lookup row_id (text "a") (stored_row ∷ []))
      (lookup job_id (text "a") (new_manager today stored []).jobs)
new_manager-Loaded_example =
    new_manager-Loaded today stored [] (stored_row ∷ []) refl (tt, tt) (text "a")

abbrev events : List Event
events =
    submitting (text "n") today true defaults
    ∷ worker (text "n") acquire
    ∷ worker (text "n") (start today)
    ∷ worker (text "n") save
    ∷ shutting_down
    ∷ worker (text "n") (finish today (pos 1) none)
    ∷ []

run-Inv_example : After Inv (run events three)
run-Inv_example = run-Inv events three (record { distinct = three-Distinct; within = none_held })
  where
    none_held : slots [] ≤ 1
    none_held = unfold slots in omega arith

abbrev ended : Worker
ended = record { job = job (text "a") done 7; phase = resulted }

abbrev kept : Manager
kept = record three { store = some [] }

kept-get : get (text "a") kept ≡ some (job (text "a") done 7)
unfolding get lookup text text_eq
kept-get = refl

done_finished : is_finished done ≡ true
unfolding is_finished
done_finished = refl

delete-save_returns_example :
    AfterDelete
      (λ n. (get (text "a") n ≡ none) × After (Stored ended) (act save resulted ended n))
      (delete (text "a") kept)
delete-save_returns_example =
    delete-save_returns kept ended [] (job (text "a") done 7) refl kept-get done_finished
