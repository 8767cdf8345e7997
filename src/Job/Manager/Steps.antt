-- ===== src/Job/Manager/Steps.antt =====
-- The worker goroutine of a job (`runWorker` of internal/job/manager.go) in its atomic steps, and the
-- runs of the manager: the steps of the workers and the calls, in any order. The exit code and the
-- error of `Runner.Run` (a process outside the program) are inputs of a step.
use autodeploy_web.Base.{
  ℕ, zero, ◌+◌, Bool, true, List, [], ◌∷◌, ◌++◌, map, Option, none, some, Text, text, text_eq, ltb,
  if◌then◌else◌, ℤ, pos,
}
use autodeploy_web.Base.Decimal.{format_int}
use autodeploy_web.Base.Registry.{lookup, put, remove}
use autodeploy_web.Config.Schema.{Config}
use autodeploy_web.Fanout
use autodeploy_web.Job.{State, done, failed, Time, Job, mark_running, mark_result, mark_canceled}
use autodeploy_web.Job.Manager.{
  Manager, Worker, Phase, waiting, acquired, started, executing, resulted, persisted, closed,
  worker_id, persist, submit, set_keep_completed, refused, deleted, delete,
}

abbrev pub holds : Phase → ℕ
holds waiting = 0
holds _ = 1

-- The length of the channel `sem`: the slots that are taken.
unfoldable pub slots : List Worker → ℕ
slots [] = 0
slots (w ∷ ws) = holds w.phase + slots ws

-- A write to the job object, which the registry shares if it still lists the job.
unfoldable pub write : (Job → Job) → Text → List Job → List Job
write f id = map (λ j. if text_eq j.id id then f j else j)

unfoldable pub advance : (Job → Job) → Phase → Worker → Manager → Manager
unfolding write
advance f p w m = record m {
  jobs = write f w.job.id m.jobs;
  workers = put worker_id (record { job = f w.job; phase = p }) m.workers;
}

-- The state and the message that the result of `Run` gives.
unfoldable pub final_state : ℤ → Option Text → State
final_state exit (some e) = failed
final_state (pos zero) none = done
final_state _ none = failed

unfoldable pub final_message : ℤ → Option Text → Text
final_message exit (some e) = e
final_message (pos zero) none = []
final_message exit none = text "pwsh exited with code " ++ format_int exit

pub data Action : Type 0 where
  acquire release close save : Action
  stop start : Time → Action
  line : Text → Action
  finish : Time → ℤ → Option Text → Action

abbrev close_done : Job → Job
close_done j = record j { done_closed = true }

abbrev append : Text → Job → Job
append l j = record j { log = Fanout.append_line l j.log }

abbrev close_job : Job → Job
close_job j = record j { log = Fanout.close_subs j.log; done_closed = true }

unfoldable pub act : Action → Phase → Worker → Manager → Option Manager
unfolding advance slots final_state final_message
act acquire waiting w m =
    if ltb (slots m.workers) m.max_concurrent then some (advance (λ j. j) acquired w m) else none
act (stop now) waiting w m =
    if m.stopped
    then (let n = advance (λ j. close_done (mark_canceled now j)) waiting w m in
        some (record n { workers = remove worker_id w.job.id n.workers }))
    else none
act (start now) acquired w m = some (advance (mark_running now) started w m)
act save started w m = some (advance (λ j. j) executing w (persist w.job m))
act (line l) executing w m = some (advance (append l) executing w m)
act (finish now exit err) executing w m =
    some
      (advance (mark_result (final_state exit err) exit (final_message exit err) now) resulted w m)
act save resulted w m = some (advance (λ j. j) persisted w (persist w.job m))
act close persisted w m = some (advance close_job closed w m)
act release closed w m = some (record m { workers = remove worker_id w.job.id m.workers })
act _ _ w m = none

pub data Event : Type 0 where
  worker : Text → Action → Event
  submitting : Text → Time → Bool → Config → Event
  keeping : ℤ → Event
  deleting : Text → Event
  shutting_down : Event

unfoldable pub step : Event → Manager → Option Manager
unfolding act
step (worker id a) m = elim (lookup worker_id id m.workers) [
  | none ↦ none
  | some w ↦ act a w.phase w m
]
step (submitting id now writable c) m = elim (submit id now writable c m) [
  | none ↦ some m
  | some (j, n) ↦ some n
]
step (keeping n) m = some (set_keep_completed n m)
step (deleting id) m = elim (delete id m) [ refused r ↦ some m | deleted n ↦ some n ]
step shutting_down m = if m.stopped then none else some (record m { stopped = true })

unfoldable pub run : List Event → Manager → Option Manager
unfolding step
run [] m = some m
run (e ∷ es) m = elim (step e m) [ none ↦ none | some n ↦ run es n ]
