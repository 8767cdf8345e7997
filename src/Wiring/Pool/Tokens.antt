-- ===== src/Wiring/Pool/Tokens.antt =====
-- The semaphore of `wireVIANodes`.
use autodeploy_web.Base.{
  ℕ, zero, suc, ◌+◌, ◌≤◌, ◌≡◌, refl, Text, Bool, List, [], ◌∷◌, map, Option, some, set, get_elem?,
  arith,
}
use autodeploy_web.Wiring.Program.{Program, Answer, ok, err}
use autodeploy_web.Wiring.Guarded.{Guarded, weaken-Guarded}
use autodeploy_web.Wiring.Pool.{
  Worker, waiting, working, finished, skipped, failed, Pool, Turn, token, busy, max_parallel_wiring,
  settle, move, take_turns, start_pool,
}
use autodeploy_web.Wiring.Calls.Pool.{At, Stable, calls, take_turns-Fair, each_worker-Honest}

busy-set :
    (ws : List Worker) (i : ℕ) (w v : Worker)
    → get_elem? ws i ≡ some w
    → busy (set ws i v) + token w ≡ busy ws + token v
unfolding busy
busy-set [] i w v e = absurd (ground arith)
busy-set (x ∷ ws) zero w v e = let e' : x ≡ w = cc in rw e' (omega arith)
busy-set (x ∷ ws) (suc i) w v e = ground (arith, busy-set ws i w v e)

busy-settle :
    (s : Pool) (i : ℕ) (w : Worker) (r : Answer (Option Text))
    → At s i w
    → busy (settle i r s).workers + token w ≡ busy s.workers
unfolding settle
busy-settle s i w (ok r) e = ground (arith, busy-set s.workers i w (finished r) e)
busy-settle s i w (err m) e = ground (arith, busy-set s.workers i w failed e)

-- No more than four goroutines are at work.
abbrev pub Bounded : Pool → Type 0
Bounded s = busy s.workers ≤ 4

Bounded-Stable : Stable Bounded
unfolding move max_parallel_wiring
Bounded-Stable = record {
  starting = λ s i p h e c b. ground (arith, busy-set s.workers i _ (working p) e);
  skipping = λ s i p h e c. ground (arith, busy-set s.workers i _ skipped e);
  going = λ s i p q h e. ground (arith, busy-set s.workers i _ (working q) e);
  settling = λ s i p r h e. ground (arith, busy-settle s i _ r e);
  passing = λ s i p r h e c. ground (arith, busy-settle s i _ r e);
  ending = λ s h. h;
}

busy-start : (ps : List (Program (Option Text))) → busy (map waiting ps) ≡ 0
unfolding busy
busy-start [] = refl
busy-start (p ∷ ps) = ground (arith, busy-start ps)

-- Whatever turns the goroutines get and whatever their calls are answered, no more than four of
-- them are at work at any time.
pub take_turns-Bounded :
    (ts : List Turn) (ps : List (Program (Option Text))) (ended : Bool)
    → Guarded
        (calls (λ _. Unit {0}))
        (λ _ s. Bounded s)
        (λ _ _. ⊥)
        (take_turns ts (start_pool ps ended))
        tt
unfolding start_pool
take_turns-Bounded ts ps ended =
    weaken-Guarded (take_turns ts (start_pool ps ended)) tt
      (take_turns-Fair (λ _. Unit) Bounded Bounded-Stable ts (start_pool ps ended)
        (ground (arith, busy-start ps), each_worker-Honest (map waiting ps)))
      (λ _ s g. g.0) (λ _ _ e. e)
