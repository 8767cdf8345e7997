-- ===== src/Wiring/Pool.antt =====
-- `wireVIANodes`: one goroutine for each node, up to four at work, until one fails. A schedule is
-- the list of the turns that the goroutines get; the goroutines that it leaves unfinished run to
-- their ends after it, those at work first, so that a schedule stands for every interleaving.
pub mod Tokens
pub mod Lost
pub mod Ends
pub mod Reports
use autodeploy_web.Base.{
  ℕ, zero, suc, ◌+◌, Bool, true, false, not, List, [], ◌∷◌, ◌++◌, map, Option, none, some, Text,
  text, ltb, ◌&&◌, ◌||◌, if◌then◌else◌, get_elem?, set, length,
}
use autodeploy_web.Deploy.Run.{NodeDeploy}
use autodeploy_web.Wiring.Program.{Answer, ok, err, Program, ret, fail, call, ◌>>=◌, ◌>>◌, attempt}
use autodeploy_web.Wiring.Settings.{Settings}
use autodeploy_web.Wiring.Nodes.{wire_node}

-- A goroutine: before the semaphore, at work, or at its end, with the hardened repository that it
-- reported.
pub data Worker : Type 0 where
  waiting working : Program (Option Text) → Worker
  finished : Option Text → Worker
  skipped failed : Worker

-- The variables that the goroutines share; `ended` is the end of the caller's context.
pub record Pool : Type 0 where
  pub workers : List Worker
  pub first_err : Option Text
  pub hr_results : List (ℕ × Text)
  pub ended : Bool

pub data Turn : Type 0 where
  advance : ℕ → Turn
  context_ends : Turn

unfoldable pub max_parallel_wiring : ℕ
max_parallel_wiring = 4

abbrev pub is_some : {A : Type 0} → Option A → Bool
is_some none = false
is_some (some _) = true

-- `fanCtx.Err() != nil`.
unfoldable pub canceled : Pool → Bool
canceled s = is_some s.first_err || s.ended

abbrev pub token : Worker → ℕ
token (working p) = 1
token _ = 0

-- The tokens of the semaphore that are taken.
unfoldable pub busy : List Worker → ℕ
busy [] = 0
busy (w ∷ ws) = token w + busy ws

-- `fail`: the first error is kept, and cancels.
unfoldable pub keep_first : Option Text → Text → Option Text
keep_first none e = some e
keep_first (some e') e = some e'

abbrev report : ℕ → Option Text → List (ℕ × Text) → List (ℕ × Text)
report i none rs = rs
report i (some id) rs = rs ++ (i, id) ∷ []

-- The end of a goroutine.
unfoldable pub settle : ℕ → Answer (Option Text) → Pool → Pool
settle i (ok r) s = record s {
  workers = set s.workers i (finished r);
  hr_results = report i r s.hr_results;
}
settle i (err e) s = record s {
  workers = set s.workers i failed;
  first_err = keep_first s.first_err e;
}

unfoldable pub move : ℕ → Worker → Pool → Pool
move i w s = record s { workers = set s.workers i w }

-- The turn of one goroutine: it takes the semaphore, gives up, or makes its next call.
unfoldable pub turn_of : ℕ → Option Worker → Pool → Program Pool
turn_of i none s = ret s
turn_of i (some (waiting p)) s = ret (
    if canceled s
    then move i skipped s
    else if ltb (busy s.workers) max_parallel_wiring
    then move i (working p) s
    else s)
turn_of i (some (working (ret r))) s = ret (settle i (ok r) s)
turn_of i (some (working (fail e))) s = ret (settle i (err e) s)
turn_of i (some (working (call c k))) s = call c (λ r. ret (move i (working (k r)) s))
turn_of i (some (finished r)) s = ret s
turn_of i (some skipped) s = ret s
turn_of i (some failed) s = ret s

unfoldable pub take_turn : Turn → Pool → Program Pool
take_turn (advance i) s = turn_of i (get_elem? s.workers i) s
take_turn context_ends s = ret record s { ended = true }

unfoldable pub take_turns : List Turn → Pool → Program Pool
take_turns [] s = ret s
take_turns (t ∷ ts) s = take_turn t s >>= λ s'. take_turns ts s'

-- A goroutine at work runs to its end.
unfoldable pub finish_working : ℕ → Option Worker → Pool → Program Pool
finish_working i (some (working p)) s = attempt p >>= λ r. ret (settle i r s)
finish_working i _ s = ret s

-- One that waits does so as well, unless it gives up.
unfoldable pub finish_waiting : ℕ → Option Worker → Pool → Program Pool
finish_waiting i (some (waiting p)) s = elim (canceled s) [
  | true ↦ ret (move i skipped s)
  | false ↦ attempt p >>= λ r. ret (settle i r s)
]
finish_waiting i _ s = ret s

-- The `n` goroutines from the i-th on.
unfoldable pub finish_each : (ℕ → Option Worker → Pool → Program Pool) → ℕ → ℕ → Pool → Program Pool
finish_each one zero i s = ret s
finish_each one (suc n) i s = one i (get_elem? s.workers i) s >>= λ s'. finish_each one n (suc i) s'

-- `wg.Wait()`.
unfoldable pub run_pool : List Turn → Pool → Program Pool
run_pool ts s = do
  s1 ← take_turns ts s
  s2 ← finish_each finish_working (length s1.workers) 0 s1
  finish_each finish_waiting (length s2.workers) 0 s2

-- The report of the lowest index, the loop over `hrResults` from the first report on.
unfoldable pub lower_report : Option (ℕ × Text) → ℕ × Text → Option (ℕ × Text)
lower_report none r = some r
lower_report (some b) r = if ltb r.0 b.0 then some r else some b

unfoldable pub lowest : Option (ℕ × Text) → List (ℕ × Text) → Option (ℕ × Text)
lowest best [] = best
lowest best (r ∷ rs) = lowest (lower_report best r) rs

abbrev report_id : Option (ℕ × Text) → Text
report_id none = []
report_id (some r) = r.1

unfoldable pub unless_failed : Option Text → Text → Program Text
unless_failed (some e) id = fail e
unless_failed none id = ret id

unfoldable pub pool_result : Pool → Program Text
pool_result s = unless_failed s.first_err (report_id (lowest none s.hr_results))

unfoldable pub start_pool : List (Program (Option Text)) → Bool → Pool
start_pool ps ended = record {
  workers = map waiting ps;
  first_err = none;
  hr_results = [];
  ended = ended;
}

-- `wireVIANodes`.
unfoldable pub wire_via_nodes : List Turn → ℕ → Settings → List NodeDeploy → Text → Program Text
wire_via_nodes ts rounds cfg vias mount = do
  s ← run_pool ts (start_pool (map (wire_node rounds cfg vias mount) vias) false)
  pool_result s
