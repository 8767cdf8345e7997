-- ===== src/Job/Store.antt =====
-- internal/job/store.go: the rows of the table `jobs`, with the times as int64 nanoseconds since the
-- Unix epoch. The queries are SQL text; their meaning is written out here, and the database answers.
pub mod Reload
use autodeploy_web.Base.{
  ℕ, zero, suc, ◌+◌, ◌-◌, ◌%◌, ◌^◌, List, map, none, some, Option, Text, ltb, if◌then◌else◌, ℤ, pos,
  negsuc, sort_by,
}
use autodeploy_web.Base.Registry.{lookup, put, remove}
use autodeploy_web.Job.{State, Time, JobView, PersistedJob}

-- The Unix epoch in nanoseconds since the zero time (January 1 of year 1).
abbrev pub unix_epoch : ℕ
unix_epoch = 62135596800000000000

abbrev pub two_63 : ℕ
two_63 = 9223372036854775808

abbrev pub two_64 : ℕ
two_64 = 18446744073709551616

-- A difference as an int64: d stands for d - 4 * 2^64, reduced.
abbrev int64_of : ℕ → ℤ
int64_of d = let r = d % two_64 in if ltb r two_63 then pos r else negsuc (two_64 - r - 1)

-- `toNanos`, with `UnixNano`'s wrap-around.
unfoldable pub to_nanos : Time → ℤ
to_nanos zero = pos 0
to_nanos (suc t) = int64_of (suc t + 73786976294838206464 - unix_epoch)

unfoldable pub from_nanos : ℤ → Time
from_nanos (pos zero) = 0
from_nanos (pos (suc n)) = unix_epoch + suc n
from_nanos (negsuc n) = unix_epoch - suc n

pub record Row : Type 0 where
  pub id : Text
  pub state : State
  pub hostname : Text
  pub appliance : Text
  pub source_iso : Text
  pub output_iso : Text
  pub config_path : Text
  pub created_at : ℤ
  pub started_at : ℤ
  pub finished_at : ℤ
  pub exit_code : ℤ
  pub error : Text

abbrev pub row_id : Row → Text
row_id r = r.id

unfoldable pub inserted : JobView → Text → Row
unfolding to_nanos
inserted v config_path = record {
  id = v.id;
  state = v.state;
  hostname = v.hostname;
  appliance = v.appliance;
  source_iso = v.source_iso;
  output_iso = v.output_iso;
  config_path = config_path;
  created_at = to_nanos v.created_at;
  started_at = to_nanos v.started_at;
  finished_at = to_nanos v.finished_at;
  exit_code = v.exit_code;
  error = v.error_message;
}

-- `DO UPDATE SET`: only the columns that change during a job's life.
unfoldable pub updated : Row → Row → Row
updated excluded r = record r {
  state = excluded.state;
  started_at = excluded.started_at;
  finished_at = excluded.finished_at;
  exit_code = excluded.exit_code;
  error = excluded.error;
}

unfoldable pub save_job : JobView → Text → List Row → List Row
unfolding inserted updated
save_job v config_path rows = elim (lookup row_id v.id rows) [
  | none ↦ put row_id (inserted v config_path) rows
  | some r ↦ put row_id (updated (inserted v config_path) r) rows
]

unfoldable pub scan : Row → PersistedJob
unfolding from_nanos
scan r = record {
  view = record {
    id = r.id;
    state = r.state;
    hostname = r.hostname;
    appliance = r.appliance;
    source_iso = r.source_iso;
    output_iso = r.output_iso;
    config_path = r.config_path;
    created_at = from_nanos r.created_at;
    started_at = from_nanos r.started_at;
    finished_at = from_nanos r.finished_at;
    exit_code = r.exit_code;
    error_message = r.error;
  };
  config_path = r.config_path;
}

-- The order of int64, as a number.
abbrev pub column_order : ℤ → ℕ
column_order (pos n) = two_63 + n
column_order (negsuc n) = two_63 - suc n

-- `ORDER BY created_at ASC`.
unfoldable pub load_jobs : List Row → List PersistedJob
unfolding scan
load_jobs rows = map scan (sort_by (λ r. column_order r.created_at) rows)

unfoldable pub delete_job : Text → List Row → List Row
delete_job id rows = remove row_id id rows
