-- ===== src/Job/Store/Reload.antt =====
-- What a record of a job is after it was saved and read back.
use autodeploy_web.Base.{
  zero, suc, ◌+◌, ◌-◌, ◌≤◌, ◌<◌, ◌≡◌, ◌≢◌, ◌⊎◌, inl, inr, refl, ap, sym, ◌∙◌, false, List, none,
  some, Option, Text, text_eq, Option-cases, arith,
}
use autodeploy_web.Base.Registry.{lookup}
use autodeploy_web.Base.Registry.Lookup.{lookup-put_self, lookup-put_other, lookup-ident}
use mathlib.Core.Path.{subst}
use autodeploy_web.Base.{text_eq_iff}
use autodeploy_web.Job.{Time, JobView, PersistedJob}
use autodeploy_web.Job.Store.{
  unix_epoch, two_63, to_nanos, from_nanos, Row, row_id, inserted, updated, save_job, scan,
}

-- The times that survive a column of the table: the zero time, and what an int64 of nanoseconds
-- around the Unix epoch can hold (1677 to 2262), but not the epoch itself.
abbrev pub Storable : Time → Type 0
Storable t = (t ≡ 0) ⊎ ((unix_epoch - two_63 ≤ t) × (t < unix_epoch + two_63) × (t ≢ unix_epoch))

-- A time that is the zero time, or that an int64 of nanoseconds around the Unix epoch holds and
-- that is not the epoch itself, is read back from its column.
pub from_nanos-to_nanos : (t : Time) → Storable t → from_nanos (to_nanos t) ≡ t
unfolding from_nanos to_nanos
from_nanos-to_nanos zero s = refl
from_nanos-to_nanos (suc t) s = ground arith

-- The columns that a save of a known job leaves alone have not changed.
pub record SameJob (v w : JobView) : Type 0 where
  pub same_id : v.id ≡ w.id
  pub same_hostname : v.hostname ≡ w.hostname
  pub same_appliance : v.appliance ≡ w.appliance
  pub same_source : v.source_iso ≡ w.source_iso
  pub same_output : v.output_iso ≡ w.output_iso
  pub same_creation : v.created_at ≡ w.created_at

pub save_job-new :
    (v : JobView) (path : Text) (rows : List Row)
    → lookup row_id v.id rows ≡ none
    → lookup row_id v.id (save_job v path rows) ≡ some (inserted v path)
unfolding save_job
save_job-new v path rows e = rw (save_job, e) (lookup-put_self row_id (inserted v path) rows)

save_job-known :
    (v : JobView) (path : Text) (r : Row) (rows : List Row)
    → lookup row_id v.id rows ≡ some r
    → lookup row_id v.id (save_job v path rows) ≡ some (updated (inserted v path) r)
unfolding save_job updated
save_job-known v path r rows e =
    rw (save_job, e, ← (text_eq_iff r.id v.id).0 (lookup-ident row_id v.id r rows e))
      (lookup-put_self row_id (updated (inserted v path) r) rows)

-- Reading the row of a job.
abbrev pub read : Text → List Row → Option PersistedJob
read id rows = elim (lookup row_id id rows) [ none ↦ none | some r ↦ some (scan r) ]

abbrev pub StorableView : JobView → Type 0
StorableView v = Storable v.created_at × Storable v.started_at × Storable v.finished_at

abbrev pub persisted : JobView → Text → PersistedJob
persisted v path = record { view = record v { config_path = path }; config_path = path }

scan-inserted :
    (v : JobView) (path : Text) → StorableView v → scan (inserted v path) ≡ persisted v path
unfolding scan inserted
scan-inserted v path s =
    rw
      (
        from_nanos-to_nanos v.created_at s.0,
        from_nanos-to_nanos v.started_at s.1,
        from_nanos-to_nanos v.finished_at s.2,
      )
      refl

updated-inserted :
    (v w : JobView) (path : Text)
    → SameJob v w
    → updated (inserted w path) (inserted v path) ≡ inserted w path
unfolding updated inserted
updated-inserted v w path s =
    rw (s.same_id, s.same_hostname, s.same_appliance, s.same_source, s.same_output, s.same_creation)
      refl

-- A job saved when it is created and again later in its life is read back as it was last, when its
-- id is new, its unchanging columns are the same in both saves and its times are storable.
pub save_job-again :
    (v w : JobView) (path : Text) (rows : List Row)
    → lookup row_id v.id rows ≡ none
    → SameJob v w
    → StorableView w
    → read w.id (save_job w path (save_job v path rows)) ≡ some (persisted w path)
save_job-again v w path rows fresh same storable =
    let known : lookup row_id w.id (save_job v path rows) ≡ some (inserted v path) =
      subst (λ i. lookup row_id i (save_job v path rows) ≡ some (inserted v path)) same.same_id
        (save_job-new v path rows fresh) in
    ap (λ (o : Option Row). elim o [ none ↦ none | some r ↦ some (scan r) ])
      (save_job-known w path (inserted v path) (save_job v path rows) known)
    ∙ ap some (ap scan (updated-inserted v w path same) ∙ scan-inserted w path storable)

-- Saving one job changes no other job's row.
pub save_job-other :
    (v : JobView) (path id : Text) (rows : List Row)
    → text_eq v.id id ≡ false
    → lookup row_id id (save_job v path rows) ≡ lookup row_id id rows
unfolding save_job updated
save_job-other v path id rows h = elim (Option-cases (lookup row_id v.id rows)) [
  | inl e ↦ rw (save_job, e) (lookup-put_other row_id id (inserted v path) rows h)
  | inr (r, e) ↦
      rw (save_job, e)
        (lookup-put_other row_id id (updated (inserted v path) r) rows (
          subst (λ i. text_eq i id ≡ false)
            (sym ((text_eq_iff r.id v.id).0 (lookup-ident row_id v.id r rows e))) h))
]
