-- ===== src/Deploy/Store.antt =====
-- internal/deploy/store.go, the rows of the table `deployments`, and what the manager makes of them
-- at its start (deploy.go, `loadFromStore` and `persist`). The queries are SQL text; their meaning is
-- written out here, and the database answers. The columns of JSON hold what encoding/json writes,
-- which is a parameter; the times are stored as those of the jobs are.
pub mod Restart
use autodeploy_web.Base.{
  ℕ, zero, suc, ◌+◌, Bool, true, false, not, List, [], ◌∷◌, ◌++◌, map, Option, none, some, Text,
  text, ltb, if◌then◌else◌, ◌==◌, ℤ, pos, sort_by,
}
use autodeploy_web.Base.Registry.{lookup, put, remove}
use autodeploy_web.Job.{Time}
use autodeploy_web.Job.Store.{to_nanos, from_nanos, column_order}
use autodeploy_web.Deploy.Run.{State, pending, running, failed, NodeStatus}
use autodeploy_web.Deploy.Manager.{
  Deployment, DeploySpec, Manager, deployment_id, is_completed, prune_completed,
}

pub record View (F : Type 0) : Type 0 where
  pub id : Text
  pub kind : Text
  pub state : State
  pub nodes : List NodeStatus
  pub created_at : Time
  pub finished_at : Time
  pub error : Text
  pub has_wirer : Bool
  pub form : F
  pub retried_from : Text

pub record PersistedDeployment (F : Type 0) : Type 0 where
  pub view : View F
  pub lines : List Text

-- `json.Marshal` and `json.Unmarshal` at the three types of columns.
pub record Codec (F : Type 0) : Type 0 where
  pub encode_nodes : List NodeStatus → Text
  pub decode_nodes : Text → Option (List NodeStatus)
  pub encode_form : F → Text
  pub decode_form : Text → Option F
  pub encode_lines : List Text → Text
  pub decode_lines : Text → Option (List Text)

pub record Row : Type 0 where
  pub id : Text
  pub kind : Text
  pub state : State
  pub created_at : ℤ
  pub finished_at : ℤ
  pub error : Text
  pub has_wirer : ℕ
  pub nodes_json : Text
  pub form_json : Text
  pub log_json : Text
  pub retried_from : Text

abbrev pub row_id : Row → Text
row_id r = r.id

module _ {F : Type 0} (codec : Codec F) where
  unfoldable pub row_of : PersistedDeployment F → Row
  row_of p = record {
    id = p.view.id;
    kind = p.view.kind;
    state = p.view.state;
    created_at = to_nanos p.view.created_at;
    finished_at = to_nanos p.view.finished_at;
    error = p.view.error;
    has_wirer = if p.view.has_wirer then 1 else 0;
    nodes_json = codec.encode_nodes p.view.nodes;
    form_json = codec.encode_form p.view.form;
    log_json = codec.encode_lines p.lines;
    retried_from = p.view.retried_from;
  }

  -- `Save`: an upsert of every column.
  unfoldable pub save : PersistedDeployment F → List Row → List Row
  unfolding row_of
  save p rows = put row_id (row_of p) rows

  unfoldable pub built : Row → List NodeStatus → F → List Text → PersistedDeployment F
  built r nodes form lines = record {
    view = record {
      id = r.id;
      kind = r.kind;
      state = r.state;
      nodes = nodes;
      created_at = from_nanos r.created_at;
      finished_at = from_nanos r.finished_at;
      error = r.error;
      has_wirer = not (r.has_wirer == 0);
      form = form;
      retried_from = r.retried_from;
    };
    lines = lines;
  }

  -- One round of the loop of `LoadAll`: a column that does not decode is an error.
  unfoldable pub scan : Row → Option (PersistedDeployment F)
  unfolding built
  scan r = elim (codec.decode_nodes r.nodes_json) [
    | none ↦ none
    | some nodes ↦ elim (codec.decode_form r.form_json) [
      | none ↦ none
      | some form ↦ elim (codec.decode_lines r.log_json) [
        | none ↦ none
        | some lines ↦ some (built r nodes form lines)
      ]
    ]
  ]

  unfoldable pub scan_each : List Row → Option (List (PersistedDeployment F))
  unfolding scan
  scan_each [] = some []
  scan_each (r ∷ rs) = elim (scan r) [
    | none ↦ none
    | some p ↦ elim (scan_each rs) [ none ↦ none | some ps ↦ some (p ∷ ps) ]
  ]

  -- `LoadAll`: one error and there are no records.
  unfoldable pub load_all : List Row → Option (List (PersistedDeployment F))
  unfolding scan_each
  load_all rows = scan_each (sort_by (λ r. column_order r.created_at) rows)

unfoldable pub delete : Text → List Row → List Row
delete id rows = remove row_id id rows

unfoldable pub interrupted : State → Bool
interrupted pending = true
interrupted running = true
interrupted _ = false

-- The manager and the rows while it loads.
pub record Loading : Type 0 where
  pub manager : Manager
  pub rows : List Row

module _ {F : Type 0} (codec : Codec F) (now : Time) (clock : Text) where
  -- The record of a deployment that the stop of the program interrupted; `clock` is the time of
  -- day of its new line.
  unfoldable pub stopped : PersistedDeployment F → PersistedDeployment F
  stopped p = record {
    view = record p.view {
      state = failed;
      finished_at = if p.view.finished_at == 0 then now else p.view.finished_at;
      error = text "interrupted by a restart";
    };
    lines = p.lines ++ (clock ++ text " interrupted by a restart") ∷ [];
  }

  -- A deployment without a run: its specification is empty.
  unfoldable pub inert : PersistedDeployment F → Deployment
  inert p = record {
    id = p.view.id;
    kind = p.view.kind;
    state = p.view.state;
    nodes = p.view.nodes;
    created_at = p.view.created_at;
    finished_at = p.view.finished_at;
    spec = record {
      label = [];
      nodes = [];
      has_hypervisor = false;
      power_on = false;
      has_wirer = false;
      wire_timeout = pos 0;
      retried_from = [];
    };
    cancel_stored = false;
    context_ended = false;
    stop_requested = false;
  }

  unfoldable pub load_record : PersistedDeployment F → Loading → Loading
  unfolding stopped inert
  load_record p l =
      let q = if interrupted p.view.state then stopped p else p in
      record {
        manager = record l.manager {
          deployments = put deployment_id (inert q) l.manager.deployments;
        };
        rows = if interrupted p.view.state then save codec q l.rows else l.rows;
      }

  unfoldable pub load_records : List (PersistedDeployment F) → Loading → Loading
  unfolding load_record
  load_records [] l = l
  load_records (p ∷ ps) l = load_records ps (load_record p l)

  -- `loadFromStore`, from the empty registry: an error leaves it empty.
  unfoldable pub load_from_store : List Row → Loading
  unfolding load_records
  load_from_store rows =
      let start : Loading = record {
        manager = record { deployments = []; keep_completed = 0 };
        rows = rows;
      } in
      elim (load_all codec rows) [
        | none ↦ start
        | some ps ↦
            let l = load_records ps start in record l { manager = prune_completed l.manager }
      ]
