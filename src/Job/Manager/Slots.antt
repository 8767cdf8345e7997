-- ===== src/Job/Manager/Slots.antt =====
-- The invariant of the runs of the manager: ids are distinct and the workers that hold a slot are no
-- more than `MaxConcurrent`.
use autodeploy_web.Base.{
  ◌+◌, ◌≤◌, ◌≡◌, refl, sym, inl, inr, Bool, true, false, List, [], ◌∷◌, map, Option, none, some,
  Text, text_eq, text_eq_iff, All, arith, Bool-cases,
}
use autodeploy_web.Base.Registry.{lookup, put, remove, Distinct}
use autodeploy_web.Base.Registry.Lookup.{Distinct-put, Distinct-remove, lookup-ident}
use autodeploy_web.Job.{Job}
use mathlib.Core.Path.{subst}
use autodeploy_web.Job.Manager.Prune.{Distinct-prune_locked}
use autodeploy_web.Base.{if◌then◌else◌, ltb}
use autodeploy_web.Base.{pos, pos_part, leb_ℤ, ◌⊎◌}
use autodeploy_web.Job.Store.{Row, delete_job, load_jobs}
use autodeploy_web.Job.{Time, PersistedJob, is_active, mark_running, mark_result, mark_canceled}
use autodeploy_web.Job.Manager.{
  Manager, Worker, Phase, waiting, acquired, started, executing, resulted, persisted, closed,
  job_id, worker_id, persist, submit, prune_locked, set_keep_completed, delete, get, DeleteResult,
  refused, deleted, File, file_path, on_store, not_found, unfinished, Options, empty_manager,
  new_manager, load_record, load_records,
}
use autodeploy_web.Job.Manager.Steps.{
  holds, slots, write, advance, Action, acquire, release, close, save, stop, start, line, finish,
  act, Event, worker, submitting, keeping, deleting, shutting_down, step, run,
}

slots-remove : (k : Text) (ws : List Worker) → slots (remove worker_id k ws) ≤ slots ws
unfolding slots remove
slots-remove k [] = omega arith
slots-remove k (w ∷ ws) = ground (arith, slots-remove k ws)

slots-put_waiting :
    (w : Worker) (ws : List Worker) → w.phase ≡ waiting → slots (put worker_id w ws) ≤ slots ws
unfolding slots put
slots-put_waiting w [] h = ground arith
slots-put_waiting w (v ∷ ws) h = ground (arith, slots-put_waiting w ws h)

slots-put :
    (v w : Worker) (ws : List Worker)
    → lookup worker_id w.job.id ws ≡ some v
    → slots (put worker_id w ws) + holds v.phase ≡ slots ws + holds w.phase
unfolding slots put lookup
slots-put v w [] h = cc
slots-put v w (u ∷ ws) h = ground (arith, slots-put v w ws)

pub record Inv (m : Manager) : Type 0 where
  pub distinct : Distinct job_id m.jobs
  pub within : slots m.workers ≤ m.max_concurrent

Distinct-map :
    (g : Job → Job) (xs : List Job)
    → ((j : Job) → (g j).id ≡ j.id)
    → Distinct job_id xs
    → Distinct job_id (map g xs)
Distinct-map g [] e d = tt
Distinct-map g (x ∷ xs) e d = (others xs d.0, Distinct-map g xs e d.1)
  where
    others :
        (ys : List Job)
        → All (λ y. text_eq x.id y.id ≡ false) ys
        → All (λ y. text_eq (g x).id y.id ≡ false) (map g ys)
    others [] h = tt
    others (y ∷ ys) h = (rw (e x, e y) h.0, others ys h.1)

write-id :
    (f : Job → Job) (id : Text)
    → ((j : Job) → (f j).id ≡ j.id)
    → (j : Job) → (if text_eq j.id id then f j else j).id ≡ j.id
write-id f id e j = elim (Bool-cases (text_eq j.id id)) [ inl h ↦ rw h (e j) | inr h ↦ rw h refl ]

-- A step of a worker from one phase to another, when the slots allow it.
advance-Inv :
    (f : Job → Job) (p : Phase) (w : Worker) (m : Manager)
    → ((j : Job) → (f j).id ≡ j.id)
    → lookup worker_id w.job.id m.workers ≡ some w
    → slots m.workers + holds p ≤ m.max_concurrent + holds w.phase
    → Inv m
    → Inv (advance f p w m)
unfolding advance write
advance-Inv f p w m e l h i = record {
  distinct = Distinct-map _ m.jobs (write-id f w.job.id e) i.distinct;
  within = omega (
    arith,
    slots-put w (record { job = f w.job; phase = p }) m.workers
        (subst (λ k. lookup worker_id k m.workers ≡ some w) (sym (e w.job)) l),
    h,
  );
}

-- What a step that is possible leaves.
abbrev pub After : (Manager → Type 0) → Option Manager → Type 0
After P none = Unit
After P (some n) = P n

-- A step between two phases that both hold a slot.
advance_held-Inv :
    (f : Job → Job) (p : Phase) (w : Worker) (m : Manager)
    → ((j : Job) → (f j).id ≡ j.id)
    → lookup worker_id w.job.id m.workers ≡ some w
    → holds p ≡ holds w.phase
    → Inv m
    → Inv (advance f p w m)
advance_held-Inv f p w m e l h i = advance-Inv f p w m e l (omega (arith, h, i.within)) i

release-Inv :
    (k : Text) {n : Manager} → Inv n → Inv (record n { workers = remove worker_id k n.workers })
release-Inv k {n} j = record {
  distinct = j.distinct;
  within = omega (arith, slots-remove k n.workers, j.within);
}

After-if : (b : Bool) {n : Manager} → Inv n → After Inv (if b then some n else none)
After-if true i = i
After-if false i = tt

act-Inv :
    (a : Action) (p : Phase) (w : Worker) (m : Manager)
    → w.phase ≡ p
    → lookup worker_id w.job.id m.workers ≡ some w
    → Inv m
    → After Inv (act a p w m)
unfolding act persist mark_canceled mark_running mark_result
act-Inv acquire waiting w m q l i = elim (Bool-cases (ltb (slots m.workers) m.max_concurrent)) [
  | inl h ↦ rw h (advance-Inv (λ j. j) acquired w m (λ _. refl) l (rw q (ground arith)) i)
  | inr h ↦ rw h tt
]
act-Inv (stop now) waiting w m q l i = After-if m.stopped (
    release-Inv w.job.id
      (advance-Inv _ waiting w m (λ _. refl) l (rw q (omega (arith, i.within))) i))
act-Inv (start now) acquired w m q l i = advance_held-Inv _ started w m (λ _. refl) l (rw q refl) i
act-Inv save started w m q l i =
    advance_held-Inv (λ j. j) executing w (persist w.job m) (λ _. refl) l (rw q refl)
      (record { distinct = i.distinct; within = i.within })
act-Inv (line t) executing w m q l i = advance_held-Inv _ executing w m (λ _. refl) l (rw q refl) i
act-Inv (finish now exit err) executing w m q l i =
    advance_held-Inv _ resulted w m (λ _. refl) l (rw q refl) i
act-Inv save resulted w m q l i =
    advance_held-Inv (λ j. j) persisted w (persist w.job m) (λ _. refl) l (rw q refl)
      (record { distinct = i.distinct; within = i.within })
act-Inv close persisted w m q l i = advance_held-Inv _ closed w m (λ _. refl) l (rw q refl) i
act-Inv release closed w m q l i = record {
  distinct = i.distinct;
  within = omega (arith, slots-remove w.job.id m.workers, i.within);
}
act-Inv _ _ w m q l i = tt

prune_locked-Inv : (m : Manager) → Inv m → Inv (prune_locked m)
unfolding prune_locked
prune_locked-Inv m i = record { distinct = Distinct-prune_locked m i.distinct; within = i.within }

persist-Inv : (j : Job) (m : Manager) → Inv m → Inv (persist j m)
unfolding persist
persist-Inv j m i = record { distinct = i.distinct; within = i.within }

file-Inv :
    (j : Job) (fs : List File) (m : Manager)
    → Inv m
    → Inv (record m { files = fs; jobs = put job_id j m.jobs })
file-Inv j fs m i = record { distinct = Distinct-put job_id j m.jobs i.distinct; within = i.within }

queue-Inv :
    (j : Job) (n : Manager)
    → Inv n
    → Inv (record n { workers = put worker_id (record { job = j; phase = waiting }) n.workers })
queue-Inv j n i = record {
  distinct = i.distinct;
  within =
      omega
        (arith, slots-put_waiting (record { job = j; phase = waiting }) n.workers refl, i.within);
}

abbrev Kept : DeleteResult → Type 0
Kept (refused r) = Unit
Kept (deleted n) = Inv n

delete-Kept : (id : Text) (m : Manager) → Inv m → Kept (delete id m)
unfolding delete
delete-Kept id m i = by_job (get id m)
  where
    by_job :
        (o : Option Job)
        → Kept (elim o [
          | none ↦ refused not_found
          | some j ↦
              if is_active j.state
              then refused unfinished
              else deleted (record m {
                jobs = remove job_id id m.jobs;
                files = remove file_path j.config_path m.files;
                store = on_store (delete_job id) m.store;
              })
        ])
    by_job none = tt
    by_job (some j) = by_state (is_active j.state)
      where
        by_state :
            (b : Bool)
            → Kept (
                if b
                then refused unfinished
                else deleted (record m {
                  jobs = remove job_id id m.jobs;
                  files = remove file_path j.config_path m.files;
                  store = on_store (delete_job id) m.store;
                }))
        by_state false = record {
          distinct = Distinct-remove job_id id m.jobs i.distinct;
          within = i.within;
        }
        by_state true = tt

step-Inv : (e : Event) (m : Manager) → Inv m → After Inv (step e m)
unfolding step submit set_keep_completed
step-Inv (worker id a) m i = by_worker (lookup worker_id id m.workers) refl
  where
    by_worker :
        (o : Option Worker)
        → lookup worker_id id m.workers ≡ o
        → After Inv (elim o [ none ↦ none | some w ↦ act a w.phase w m ])
    by_worker none e = tt
    by_worker (some w) e =
        act-Inv a w.phase w m refl
          (subst (λ k. lookup worker_id k m.workers ≡ some w)
            (sym ((text_eq_iff w.job.id id).0 (lookup-ident worker_id id w m.workers e))) e)
          i
step-Inv (submitting id now b c) m i = submitted b
  where
    submitted :
        (b : Bool) → After Inv (elim (submit id now b c m) [ none ↦ some m | some (j, n) ↦ some n ])
    submitted false = i
    submitted true = queue-Inv _ _ (persist-Inv _ _ (prune_locked-Inv _ (file-Inv _ _ m i)))
step-Inv (keeping n) m i = kept (Bool-cases (leb_ℤ n (pos 0)))
  where
    kept : (leb_ℤ n (pos 0) ≡ true) ⊎ (leb_ℤ n (pos 0) ≡ false) → Inv (set_keep_completed n m)
    kept (inl h) = rw (set_keep_completed, h) i
    kept (inr h) =
        rw (set_keep_completed, h)
          (prune_locked-Inv (record m { keep_completed = pos_part n })
            (record { distinct = i.distinct; within = i.within }))
step-Inv (deleting id) m i = removed (delete id m) (delete-Kept id m i)
  where
    removed :
        (r : DeleteResult) → Kept r → After Inv (elim r [ refused r ↦ some m | deleted n ↦ some n ])
    removed (refused r) k = i
    removed (deleted n) k = k
step-Inv shutting_down m i = shut m.stopped
  where
    shut : (b : Bool) → After Inv (if b then none else some (record m { stopped = true }))
    shut true = tt
    shut false = record { distinct = i.distinct; within = i.within }

After-then :
    (o : Option Manager) (g : Manager → Option Manager)
    → ((n : Manager) → Inv n → After Inv (g n))
    → After Inv o
    → After Inv (elim o [ none ↦ none | some n ↦ g n ])
After-then none g f k = tt
After-then (some n) g f k = f n k

-- Distinct ids and the bound on the slots hold after every run of the manager (submissions, worker
-- steps, deletions, new caps, shutdown, in any order) from a state where they hold.
pub run-Inv : (es : List Event) (m : Manager) → Inv m → After Inv (run es m)
unfolding run
run-Inv [] m i = i
run-Inv (e ∷ es) m i = After-then (step e m) (run es) (λ n k. run-Inv es n k) (step-Inv e m i)

load_records-Inv :
    (now : Time) (ps : List PersistedJob) (m : Manager) → Inv m → Inv (load_records now ps m)
unfolding load_records load_record
load_records-Inv now [] m i = i
load_records-Inv now (p ∷ ps) m i =
    load_records-Inv now ps _
      (record { distinct = Distinct-put job_id _ m.jobs i.distinct; within = i.within })

-- A new manager, with the jobs of its store, has distinct ids and no more slots taken than it
-- allows.
pub new_manager-Inv : (now : Time) (o : Options) (files : List File) → Inv (new_manager now o files)
unfolding new_manager slots
new_manager-Inv now o files = loaded o.store
  where
    loaded :
        (s : Option (List Row))
        → Inv (elim s [
          | none ↦ empty_manager o files
          | some rows ↦ load_records now (load_jobs rows) (empty_manager o files)
        ])
    loaded none = record { distinct = tt; within = omega arith }
    loaded (some rows) =
        load_records-Inv now (load_jobs rows) (empty_manager o files)
          (record { distinct = tt; within = omega arith })
