-- ===== src/Job.antt =====
-- internal/job/job.go: a job, its life and its view. A time is the number of nanoseconds since Go's
-- zero time, which is 0; the clock's reading is an argument.
pub mod Store
pub mod Naming
pub mod Manager
use autodeploy_web.Base.{ℕ, Bool, true, false, ◌≡◌, refl, List, [], Text, ℤ, pos}
use autodeploy_web.Fanout
use autodeploy_web.Fanout.{Fanout}

-- A text: the five constants, and any other, which a row of the database may hold.
pub data State : Type 0 where
  pending running done failed canceled : State
  other : Text → State

abbrev pub Time : Type 0
Time = ℕ

pub record JobView : Type 0 where
  pub id : Text
  pub state : State
  pub hostname : Text
  pub appliance : Text
  pub source_iso : Text
  pub output_iso : Text
  pub config_path : Text
  pub created_at : Time
  pub started_at : Time
  pub finished_at : Time
  pub exit_code : ℤ
  pub error_message : Text

-- `log` has the lines and the subscribers, `done_closed` tells whether the channel `done` is closed.
pub record Job : Type 0 where
  pub id : Text
  pub state : State
  pub hostname : Text
  pub appliance : Text
  pub source_iso : Text
  pub output_iso : Text
  pub config_path : Text
  pub created_at : Time
  pub started_at : Time
  pub finished_at : Time
  pub exit_code : ℤ
  pub error_message : Text
  pub log : Fanout
  pub done_closed : Bool

unfoldable pub new_job : Text → Text → Text → Text → Text → Text → Time → Job
new_job id hostname appliance src out cfg_path now = record {
  id = id;
  state = pending;
  hostname = hostname;
  appliance = appliance;
  source_iso = src;
  output_iso = out;
  config_path = cfg_path;
  created_at = now;
  started_at = 0;
  finished_at = 0;
  exit_code = pos 0;
  error_message = [];
  log = Fanout.new [];
  done_closed = false;
}

pub record PersistedJob : Type 0 where
  pub view : JobView
  pub config_path : Text

unfoldable pub new_persisted_job : PersistedJob → Job
new_persisted_job p = record {
  id = p.view.id;
  state = p.view.state;
  hostname = p.view.hostname;
  appliance = p.view.appliance;
  source_iso = p.view.source_iso;
  output_iso = p.view.output_iso;
  config_path = p.config_path;
  created_at = p.view.created_at;
  started_at = p.view.started_at;
  finished_at = p.view.finished_at;
  exit_code = p.view.exit_code;
  error_message = p.view.error_message;
  log = Fanout.new [];
  done_closed = true;
}

unfoldable pub view : Job → JobView
view j = record {
  id = j.id;
  state = j.state;
  hostname = j.hostname;
  appliance = j.appliance;
  source_iso = j.source_iso;
  output_iso = j.output_iso;
  config_path = j.config_path;
  created_at = j.created_at;
  started_at = j.started_at;
  finished_at = j.finished_at;
  exit_code = j.exit_code;
  error_message = j.error_message;
}

unfoldable pub mark_running : Time → Job → Job
mark_running now j = record j { state = running; started_at = now }

unfoldable pub mark_result : State → ℤ → Text → Time → Job → Job
mark_result state exit err_msg now j = record j {
  finished_at = now;
  exit_code = exit;
  state = state;
  error_message = err_msg;
}

unfoldable pub mark_canceled : Time → Job → Job
mark_canceled now j = record j { state = canceled; finished_at = now }

-- `StateDone || StateFailed || StateCanceled`.
unfoldable pub is_finished : State → Bool
is_finished done = true
is_finished failed = true
is_finished canceled = true
is_finished _ = false

-- `StateRunning || StatePending`.
unfoldable pub is_active : State → Bool
is_active pending = true
is_active running = true
is_active _ = false

pub finished-inactive : (s : State) → is_finished s ≡ true → is_active s ≡ false
unfolding is_finished is_active
finished-inactive pending h = cc
finished-inactive running h = cc
finished-inactive done h = refl
finished-inactive failed h = refl
finished-inactive canceled h = refl
finished-inactive (other t) h = refl
