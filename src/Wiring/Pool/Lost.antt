-- ===== src/Wiring/Pool/Lost.antt =====
-- A context that ends before the goroutines of `wireVIANodes` have taken the semaphore.
use autodeploy_web.Base.{
  ℕ, zero, suc, Text, true, false, List, [], ◌∷◌, map, Option, none, some, All, get_elem?, length,
  ◌≡◌, refl,
}
use autodeploy_web.Deploy.Run.{NodeDeploy}
use autodeploy_web.Wiring.Program.{Program, ◌>>=◌}
use autodeploy_web.Wiring.Guarded.{Guarded, ret-Guarded, bind-Guarded}
use autodeploy_web.Wiring.Settings.{Settings}
use autodeploy_web.Wiring.Nodes.{wire_node}
use autodeploy_web.Wiring.Pool.{
  Worker, waiting, working, finished, skipped, failed, Pool, Turn, advance, context_ends, canceled,
  move, turn_of, take_turn, take_turns, finish_working, finish_waiting, finish_each, run_pool,
  pool_result, unless_failed, lowest, start_pool, wire_via_nodes,
}
use autodeploy_web.Wiring.Calls.Pool.{calls, get-All, set-All}

abbrev Unstarted : Worker → Type 0
Unstarted (waiting p) = Unit
Unstarted skipped = Unit
Unstarted _ = ⊥

-- Nobody has started, and the context is over.
record Barren (s : Pool) : Type 0 where
  over : s.ended ≡ true
  no_error : s.first_err ≡ none
  no_report : s.hr_results ≡ []
  unstarted : All Unstarted s.workers

-- A program that makes no call and ends in a result like this.
abbrev Still : {A : Type 0} → (A → Type 0) → Program A → Type 0
Still Q p = Guarded (calls (λ _. ⊥)) (λ _ a. Q a) (λ _ _. ⊥) p tt

canceled-Barren : (s : Pool) → Barren s → canceled s ≡ true
unfolding canceled
canceled-Barren s b = rw (b.over, b.no_error) refl

skip-Barren : (s : Pool) (i : ℕ) → Barren s → Barren (move i skipped s)
unfolding move
skip-Barren s i b = record {
  over = b.over;
  no_error = b.no_error;
  no_report = b.no_report;
  unstarted = set-All Unstarted s.workers i skipped b.unstarted tt;
}

turn_of-Still :
    (i : ℕ) (s : Pool) (w : Option Worker)
    → get_elem? s.workers i ≡ w
    → Barren s
    → Still Barren (turn_of i w s)
unfolding turn_of
turn_of-Still i s none e b = ret-Guarded s tt b
turn_of-Still i s (some (waiting p)) e b =
    rw (turn_of, canceled-Barren s b) (ret-Guarded _ tt (skip-Barren s i b))
turn_of-Still i s (some (working p)) e b = absurd (get-All Unstarted s.workers i _ b.unstarted e)
turn_of-Still i s (some (finished r)) e b = absurd (get-All Unstarted s.workers i _ b.unstarted e)
turn_of-Still i s (some skipped) e b = ret-Guarded s tt b
turn_of-Still i s (some failed) e b = absurd (get-All Unstarted s.workers i _ b.unstarted e)

take_turns-Still : (ts : List Turn) (s : Pool) → Barren s → Still Barren (take_turns ts s)
unfolding take_turns take_turn ◌>>=◌
take_turns-Still [] s b = ret-Guarded s tt b
take_turns-Still (advance i ∷ ts) s b =
    bind-Guarded (turn_of i (get_elem? s.workers i) s) _ tt (turn_of-Still i s _ refl b)
      (λ _ t c. take_turns-Still ts t c)
take_turns-Still (context_ends ∷ ts) s b =
    take_turns-Still ts (record s { ended = true })
      (record {
        over = refl;
        no_error = b.no_error;
        no_report = b.no_report;
        unstarted = b.unstarted;
      })

finish_working-Still :
    (i : ℕ) (w : Option Worker) (s : Pool)
    → get_elem? s.workers i ≡ w
    → Barren s
    → Still Barren (finish_working i w s)
unfolding finish_working
finish_working-Still i none s e b = ret-Guarded s tt b
finish_working-Still i (some (waiting p)) s e b = ret-Guarded s tt b
finish_working-Still i (some (working p)) s e b =
    absurd (get-All Unstarted s.workers i _ b.unstarted e)
finish_working-Still i (some (finished r)) s e b = ret-Guarded s tt b
finish_working-Still i (some skipped) s e b = ret-Guarded s tt b
finish_working-Still i (some failed) s e b = ret-Guarded s tt b

finish_waiting-Still :
    (i : ℕ) (w : Option Worker) (s : Pool)
    → get_elem? s.workers i ≡ w
    → Barren s
    → Still Barren (finish_waiting i w s)
unfolding finish_waiting
finish_waiting-Still i none s e b = ret-Guarded s tt b
finish_waiting-Still i (some (waiting p)) s e b =
    rw (finish_waiting, canceled-Barren s b) (ret-Guarded _ tt (skip-Barren s i b))
finish_waiting-Still i (some (working p)) s e b = ret-Guarded s tt b
finish_waiting-Still i (some (finished r)) s e b = ret-Guarded s tt b
finish_waiting-Still i (some skipped) s e b = ret-Guarded s tt b
finish_waiting-Still i (some failed) s e b = ret-Guarded s tt b

finish_each-Still :
    (one : ℕ → Option Worker → Pool → Program Pool)
    → ((i : ℕ) (w : Option Worker) (s : Pool)
        → get_elem? s.workers i ≡ w
        → Barren s
        → Still Barren (one i w s))
    → (n i : ℕ) (s : Pool) → Barren s
    → Still Barren (finish_each one n i s)
unfolding finish_each
finish_each-Still one h zero i s b = ret-Guarded s tt b
finish_each-Still one h (suc n) i s b =
    bind-Guarded (one i (get_elem? s.workers i) s) _ tt (h i _ s refl b)
      (λ _ t c. finish_each-Still one h n (suc i) t c)

run_pool-Still : (ts : List Turn) (s : Pool) → Barren s → Still Barren (run_pool ts s)
unfolding run_pool
run_pool-Still ts s b = bind-Guarded (take_turns ts s) _ tt (take_turns-Still ts s b) λ _ s1 b1.
    bind-Guarded (finish_each finish_working (length s1.workers) 0 s1) _ tt
      (finish_each-Still finish_working finish_working-Still (length s1.workers) 0 s1 b1)
      λ _ s2 b2. finish_each-Still finish_waiting finish_waiting-Still (length s2.workers) 0 s2 b2

start-Unstarted : (ps : List (Program (Option Text))) → All Unstarted (map waiting ps)
start-Unstarted [] = tt
start-Unstarted (p ∷ ps) = (tt, start-Unstarted ps)

over-Still :
    (ts : List Turn) (ps : List (Program (Option Text)))
    → Still Barren (run_pool (context_ends ∷ ts) (start_pool ps false))
unfolding run_pool take_turns take_turn ◌>>=◌ start_pool
over-Still ts ps =
    run_pool-Still ts (start_pool ps true)
      (record { over = refl; no_error = refl; no_report = refl; unstarted = start-Unstarted ps })

pool_result-Still : (s : Pool) → Barren s → Still (λ (id : Text). id ≡ []) (pool_result s)
unfolding pool_result unless_failed lowest
pool_result-Still s b = rw (b.no_error, b.no_report) (ret-Guarded [] tt refl)

-- When the context ends before any goroutine has taken the semaphore, the wiring of the nodes
-- succeeds with no hardened repository and without a single call.
pub wire_via_nodes-lost :
    (ts : List Turn) (rounds : ℕ) (cfg : Settings) (vias : List NodeDeploy) (mount : Text)
    → Guarded
        (calls (λ _. ⊥))
        (λ _ (id : Text). id ≡ [])
        (λ _ _. ⊥)
        (wire_via_nodes (context_ends ∷ ts) rounds cfg vias mount)
        tt
unfolding wire_via_nodes
wire_via_nodes-lost ts rounds cfg vias mount =
    bind-Guarded (run_pool (context_ends ∷ ts) _) _ tt
      (over-Still ts (map (wire_node rounds cfg vias mount) vias)) (λ _ s b. pool_result-Still s b)
