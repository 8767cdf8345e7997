-- ===== src/Job/Manager/Restart.antt =====
-- What a restart makes of the stored jobs.
use mathlib.Core.Path.{subst}
use autodeploy_web.Base.{
  zero, suc, ◌≡◌, ◌≢◌, refl, sym, ap, ◌∙◌, true, false, List, [], ◌∷◌, map, Option, none, some,
  Text, text, Bool-cases, inl, inr, text_eq, text_eq_iff, arith,
}
use autodeploy_web.Base.Registry.{lookup, put, Distinct}
use autodeploy_web.Base.Registry.Lookup.{lookup-put_self, lookup-put_other}
use autodeploy_web.Base.Registry.Sorted.{Once, Distinct-Once, sort_by-Once}
use autodeploy_web.Job.{Job, Time, PersistedJob, new_persisted_job, is_active, failed, view}
use autodeploy_web.Job.Store.{Row, row_id, load_jobs, column_order, scan}
use autodeploy_web.Job.Manager.{
  Manager, Options, File, job_id, normalise, load_record, load_records, empty_manager, new_manager,
}

-- The job of a stored record after a start: it is neither pending nor running and its channel is
-- closed. It is as it was stored, but for one that the stop of the program interrupted, which has
-- failed, says so, and has a time of its end, which is that of the start if none was stored.
pub record Restarted (now : Time) (p : PersistedJob) (j : Job) : Type 0 where
  pub inactive : is_active j.state ≡ false
  pub closed : j.done_closed ≡ true
  pub kept : is_active p.view.state ≡ false → view j ≡ record p.view { config_path = p.config_path }
  pub interrupted :
      is_active p.view.state ≡ true
      → (view j ≡ record p.view {
        config_path = p.config_path;
        state = failed;
        finished_at = j.finished_at;
        error_message = text "interrupted by restart";
      })
        × (p.view.finished_at ≡ 0 → j.finished_at ≡ now)
        × (p.view.finished_at ≢ 0 → j.finished_at ≡ p.view.finished_at)

-- The jobs of the registry are those of the rows.
pub data Loaded (now : Time) : Option Row → Option Job → Type 0 where
  absent : Loaded now none none
  present : (r : Row) (j : Job) → Restarted now (scan r) j → Loaded now (some r) (some j)

end_time : (t now : Time) → t ≡ 0 → (elim t [ zero ↦ now | suc s ↦ suc s ]) ≡ now
end_time zero now e = refl
end_time (suc t) now e = absurd (omega arith)

kept_time : (t now : Time) → t ≢ 0 → (elim t [ zero ↦ now | suc s ↦ suc s ]) ≡ t
kept_time zero now e = absurd (e refl)
kept_time (suc t) now e = refl

normalise-Restarted :
    (now : Time) (p : PersistedJob) → Restarted now p (new_persisted_job (normalise now p))
unfolding normalise new_persisted_job view is_active
normalise-Restarted now p = elim (Bool-cases (is_active p.view.state)) [
  | inl h ↦
      rw (normalise, h)
        (record {
          inactive = refl;
          closed = refl;
          kept = λ k. absurd (ground (arith, h, k));
          interrupted =
              λ _. (refl, end_time p.view.finished_at now, kept_time p.view.finished_at now);
        })
  | inr h ↦
      rw (normalise, h)
        (record {
          inactive = h;
          closed = refl;
          kept = λ _. refl;
          interrupted = λ k. absurd (ground (arith, h, k));
        })
]

abbrev job_of : Time → Row → Job
job_of now r = new_persisted_job (normalise now (scan r))

job_of-id : (now : Time) (r : Row) → job_id (job_of now r) ≡ r.id
unfolding normalise new_persisted_job scan
job_of-id now r = elim (Bool-cases (is_active r.state)) [
  | inl h ↦ rw (normalise, h) refl
  | inr h ↦ rw (normalise, h) refl
]

load_record-here :
    (now : Time) (id : Text) (r : Row) (m : Manager)
    → text_eq r.id id ≡ true
    → lookup job_id id (load_record now (scan r) m).jobs ≡ some (job_of now r)
unfolding load_record
load_record-here now id r m e =
    subst (λ i. lookup job_id i (put job_id (job_of now r) m.jobs) ≡ some (job_of now r))
      (job_of-id now r ∙ (text_eq_iff r.id id).0 e) (lookup-put_self job_id (job_of now r) m.jobs)

load_record-away :
    (now : Time) (id : Text) (r : Row) (m : Manager)
    → text_eq r.id id ≡ false
    → lookup job_id id (load_record now (scan r) m).jobs ≡ lookup job_id id m.jobs
unfolding load_record
load_record-away now id r m e =
    lookup-put_other job_id id (job_of now r) m.jobs
      (subst (λ i. text_eq i id ≡ false) (sym (job_of-id now r)) e)

-- What the loop of `loadFromStore` leaves at an id that the rows have at most once.
load_records-lookup :
    (now : Time) (id : Text) (rows : List Row) (m : Manager)
    → Once row_id id rows
    → lookup job_id id (load_records now (map scan rows) m).jobs ≡ (elim (lookup row_id id rows) [
      | none ↦ lookup job_id id m.jobs
      | some r ↦ some (job_of now r)
    ])
unfolding load_records lookup
load_records-lookup now id [] m o = refl
load_records-lookup now id (r ∷ rs) m o =
    load_records-lookup now id rs (load_record now (scan r) m) o.1
    ∙ elim (Bool-cases (text_eq r.id id)) [
      | inl e ↦ rw (o.0 e, e) (load_record-here now id r m e)
      | inr e ↦ rw e (
          ap (λ x. elim (lookup row_id id rs) [ none ↦ x | some t ↦ some (job_of now t) ])
            (load_record-away now id r m e))
    ]

loaded :
    (now : Time) (o : Option Row)
    → Loaded now o (elim o [ none ↦ none | some r ↦ some (job_of now r) ])
loaded now none = absent
loaded now (some r) = present r (job_of now r) (normalise-Restarted now (scan r))

-- After a start from a store whose rows have distinct ids the registry has, at each id, the job of
-- the row with it, and none where there is no row. That job is neither pending nor running and its
-- channel is closed; it is as it was stored, but that one stored as pending or running has failed,
-- with the message of a restart, and ended at the stored time, or at the time of the start if that
-- was zero.
pub new_manager-Loaded :
    (now : Time) (o : Options) (files : List File) (rows : List Row)
    → o.store ≡ some rows
    → Distinct row_id rows
    → (id : Text)
    → Loaded now (lookup row_id id rows) (lookup job_id id (new_manager now o files).jobs)
unfolding new_manager load_jobs lookup
new_manager-Loaded now o files rows s d id =
    let sorted =
      sort_by-Once row_id (λ r. column_order r.created_at) id rows
        (Distinct-Once row_id id rows d) in
    rw (new_manager, s, load_records-lookup now id _ (empty_manager o files) sorted.1, sorted.0)
      (loaded now (lookup row_id id rows))
