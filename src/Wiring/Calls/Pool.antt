-- ===== src/Wiring/Calls/Pool.antt =====
-- Invariants of the pool of goroutines, and of a monitor of the calls that they make, whatever the
-- schedule.
use mathlib.Core.Path.{subst}
use autodeploy_web.Base.{
  ℕ, zero, suc, ◌≡◌, refl, Text, true, false, List, [], ◌∷◌, map, Option, none, some, All, set,
  get_elem?, length, ltb, Bool-cases, inl, inr, arith,
}
use autodeploy_web.Wiring.Program.{Program, ret, fail, call, Answer, ok, err, ◌>>=◌, attempt, Call}
use autodeploy_web.Wiring.Guarded.{
  Monitor, Guarded, Leads, ret-Guarded, call-Guarded, bind-Guarded, attempt-Guarded,
}
use autodeploy_web.Wiring.Pool.{
  Worker, waiting, working, finished, skipped, failed, Pool, Turn, advance, context_ends, canceled,
  busy, max_parallel_wiring, settle, move, turn_of, take_turn, take_turns, finish_working,
  finish_waiting, finish_each, run_pool,
}
use autodeploy_web.Wiring.Calls.{Only, Each, Only-Guarded, imp-Only, ret-Only, fail-Only, call-Only}

abbrev pub At : Pool → ℕ → Worker → Type 0
At s i w = get_elem? s.workers i ≡ some w

-- What each step of the pool keeps.
pub record Stable (J : Pool → Type 0) : Type 0 where
  pub starting :
      (s : Pool) (i : ℕ) (p : Program (Option Text))
      → J s
      → At s i (waiting p)
      → canceled s ≡ false
      → ltb (busy s.workers) max_parallel_wiring ≡ true
      → J (move i (working p) s)
  pub skipping :
      (s : Pool) (i : ℕ) (p : Program (Option Text))
      → J s
      → At s i (waiting p)
      → canceled s ≡ true
      → J (move i skipped s)
  pub going :
      (s : Pool) (i : ℕ) (p q : Program (Option Text))
      → J s
      → At s i (working p)
      → J (move i (working q) s)
  pub settling :
      (s : Pool) (i : ℕ) (p : Program (Option Text)) (r : Answer (Option Text))
      → J s
      → At s i (working p)
      → J (settle i r s)
  pub passing :
      (s : Pool) (i : ℕ) (p : Program (Option Text)) (r : Answer (Option Text))
      → J s
      → At s i (waiting p)
      → canceled s ≡ false
      → J (settle i r s)
  pub ending : (s : Pool) → J s → J (record s { ended = true })

pub get-All :
    {A : Type 0} (P : A → Type 0) (xs : List A) (i : ℕ) (x : A)
    → All P xs
    → get_elem? xs i ≡ some x
    → P x
get-All P [] i x a e = absurd (ground arith)
get-All P (y ∷ xs) zero x a e = let e' : y ≡ x = cc in subst P e' a.0
get-All P (y ∷ xs) (suc i) x a e = get-All P xs i x a.1 e

pub set-All :
    {A : Type 0} (P : A → Type 0) (xs : List A) (i : ℕ) (x : A)
    → All P xs
    → P x
    → All P (set xs i x)
set-All P [] i x a p = tt
set-All P (y ∷ xs) zero x a p = (p, a.1)
set-All P (y ∷ xs) (suc i) x a p = (a.0, set-All P xs i x a.1 p)

-- The monitor that only tells which calls there may be.
abbrev pub calls : (Call → Type 0) → Monitor (Unit {0})
calls P = record { next = λ _ _ _. tt; Allowed = λ _ c. P c }

module _ (P : Call → Type 0) where
  pub Guarded-Only :
      {A : Type 0} {Q : Unit {0} → A → Type 0} {E : Unit {0} → Text → Type 0} (p : Program A)
      → Guarded (calls P) Q E p tt
      → Only P p
  unfolding Each Leads
  Guarded-Only (ret a) g = record { each = tt }
  Guarded-Only (fail e) g = record { each = tt }
  Guarded-Only (call c k) g = record {
    each = (g.leads.0, λ r. (Guarded-Only (k r) (record { leads = g.leads.1 r })).each);
  }

  pub Only-calls :
      {A : Type 0} (p : Program A)
      → Only P p
      → Guarded (calls P) (λ _ _. Unit {0}) (λ _ _. Unit {0}) p tt
  Only-calls p o =
      Only-Guarded (calls P) (λ _. Unit) p tt (imp-Only p (λ c q s i. (q, λ _. tt)) o) tt

  -- What a goroutine has left to do makes no other calls.
  abbrev pub Honest : Worker → Type 0
  Honest (waiting p) = Only P p
  Honest (working p) = Only P p
  Honest _ = Unit

  module _ (J : Pool → Type 0) (stable : Stable J) where
    abbrev pub Good : Pool → Type 0
    Good s = J s × All Honest s.workers

    -- A program on the pool that ends in a good one.
    abbrev pub Fair : Program Pool → Type 0
    Fair p = Guarded (calls P) (λ _ s. Good s) (λ _ _. ⊥) p tt

    ret-Fair : (s : Pool) → Good s → Fair (ret s)
    ret-Fair s g = ret-Guarded s tt g

    move-Honest :
        (s : Pool) (i : ℕ) (w : Worker)
        → All Honest s.workers
        → Honest w
        → All Honest (set s.workers i w)
    move-Honest s i w a h = set-All Honest s.workers i w a h

    settle-Honest :
        (s : Pool) (i : ℕ) (r : Answer (Option Text))
        → All Honest s.workers
        → All Honest (settle i r s).workers
    unfolding settle
    settle-Honest s i (ok r) a = set-All Honest s.workers i _ a tt
    settle-Honest s i (err e) a = set-All Honest s.workers i _ a tt

    turn_of-Fair :
        (i : ℕ) (s : Pool) (w : Option Worker)
        → get_elem? s.workers i ≡ w
        → Good s
        → Fair (turn_of i w s)
    unfolding turn_of move
    turn_of-Fair i s none e g = ret-Fair s g
    turn_of-Fair i s (some (waiting p)) e g =
        let h : Only P p = get-All Honest s.workers i _ g.1 e in
        elim (Bool-cases (canceled s)) [
          | inl c ↦
              rw c (ret-Fair _ (stable.skipping s i p g.0 e c, move-Honest s i skipped g.1 tt))
          | inr c ↦ elim (Bool-cases (ltb (busy s.workers) max_parallel_wiring)) [
            | inl b ↦
                rw (c, b)
                  (ret-Fair _ (stable.starting s i p g.0 e c b, move-Honest s i (working p) g.1 h))
            | inr b ↦ rw (c, b) (ret-Fair s g)
          ]
        ]
    turn_of-Fair i s (some (working (ret r))) e g =
        ret-Fair _ (stable.settling s i (ret r) (ok r) g.0 e, settle-Honest s i (ok r) g.1)
    turn_of-Fair i s (some (working (fail m))) e g =
        ret-Fair _ (stable.settling s i (fail m) (err m) g.0 e, settle-Honest s i (err m) g.1)
    turn_of-Fair i s (some (working (call c k))) e g =
        let h : Only P (call c k) = get-All Honest s.workers i _ g.1 e in
        call-Guarded c _ tt (unfold Each in h.each.0) λ r. ret-Fair _ (
          stable.going s i (call c k) (k r) g.0 e,
          move-Honest s i (working (k r)) g.1 (record { each = unfold Each in h.each.1 r }),
        )
    turn_of-Fair i s (some (finished r)) e g = ret-Fair s g
    turn_of-Fair i s (some skipped) e g = ret-Fair s g
    turn_of-Fair i s (some failed) e g = ret-Fair s g

    take_turn-Fair : (t : Turn) (s : Pool) → Good s → Fair (take_turn t s)
    unfolding take_turn
    take_turn-Fair (advance i) s g = turn_of-Fair i s _ refl g
    take_turn-Fair context_ends s g = ret-Fair _ (stable.ending s g.0, g.1)

    -- Whatever turns the goroutines get, the pool stays good.
    pub take_turns-Fair : (ts : List Turn) (s : Pool) → Good s → Fair (take_turns ts s)
    unfolding take_turns
    take_turns-Fair [] s g = ret-Fair s g
    take_turns-Fair (t ∷ ts) s g =
        bind-Guarded (take_turn t s) _ tt (take_turn-Fair t s g)
          (λ _ s' g'. take_turns-Fair ts s' g')

    settle-Fair :
        (i : ℕ) (s : Pool) (p : Program (Option Text))
        → Only P p
        → All Honest s.workers
        → ((r : Answer (Option Text)) → J (settle i r s))
        → Fair (attempt p >>= λ r. ret (settle i r s))
    settle-Fair i s p h a j =
        bind-Guarded {R = λ _ _. Unit {0}} (attempt p) _ tt
          (attempt-Guarded p tt (Only-calls p h) (λ _ _ _. tt) (λ _ _ _. tt))
          (λ t r _. ret-Guarded _ t (j r, settle-Honest s i r a))

    finish_working-Fair :
        (i : ℕ) (w : Option Worker) (s : Pool)
        → get_elem? s.workers i ≡ w
        → Good s
        → Fair (finish_working i w s)
    unfolding finish_working
    finish_working-Fair i (some (working p)) s e g =
        settle-Fair i s p (get-All Honest s.workers i _ g.1 e) g.1
          (λ r. stable.settling s i p r g.0 e)
    finish_working-Fair i (some (waiting p)) s e g = ret-Fair s g
    finish_working-Fair i (some (finished r)) s e g = ret-Fair s g
    finish_working-Fair i (some skipped) s e g = ret-Fair s g
    finish_working-Fair i (some failed) s e g = ret-Fair s g
    finish_working-Fair i none s e g = ret-Fair s g

    finish_waiting-Fair :
        (i : ℕ) (w : Option Worker) (s : Pool)
        → get_elem? s.workers i ≡ w
        → Good s
        → Fair (finish_waiting i w s)
    unfolding finish_waiting move
    finish_waiting-Fair i (some (waiting p)) s e g = elim (Bool-cases (canceled s)) [
      | inl c ↦
          rw (finish_waiting, c)
            (ret-Fair _ (stable.skipping s i p g.0 e c, move-Honest s i skipped g.1 tt))
      | inr c ↦
          rw (finish_waiting, c)
            (settle-Fair i s p (get-All Honest s.workers i _ g.1 e) g.1
              (λ r. stable.passing s i p r g.0 e c))
    ]
    finish_waiting-Fair i (some (working p)) s e g = ret-Fair s g
    finish_waiting-Fair i (some (finished r)) s e g = ret-Fair s g
    finish_waiting-Fair i (some skipped) s e g = ret-Fair s g
    finish_waiting-Fair i (some failed) s e g = ret-Fair s g
    finish_waiting-Fair i none s e g = ret-Fair s g

    finish_each-Fair :
        (one : ℕ → Option Worker → Pool → Program Pool)
        → ((i : ℕ) (w : Option Worker) (s : Pool)
            → get_elem? s.workers i ≡ w
            → Good s
            → Fair (one i w s))
        → (n i : ℕ) (s : Pool) → Good s
        → Fair (finish_each one n i s)
    unfolding finish_each
    finish_each-Fair one h zero i s g = ret-Fair s g
    finish_each-Fair one h (suc n) i s g =
        bind-Guarded (one i (get_elem? s.workers i) s) _ tt (h i _ s refl g)
          (λ _ s' g'. finish_each-Fair one h n (suc i) s' g')

    pub run_pool-Fair : (ts : List Turn) (s : Pool) → Good s → Fair (run_pool ts s)
    unfolding run_pool
    run_pool-Fair ts s g = bind-Guarded (take_turns ts s) _ tt (take_turns-Fair ts s g) λ _ s1 g1.
        bind-Guarded (finish_each finish_working (length s1.workers) 0 s1) _ tt
          (finish_each-Fair finish_working finish_working-Fair (length s1.workers) 0 s1 g1)
          λ _ s2 g2. finish_each-Fair finish_waiting finish_waiting-Fair (length s2.workers) 0 s2 g2

pub any-Only : {A : Type 0} (p : Program A) → Only (λ _. Unit {0}) p
any-Only (ret a) = ret-Only a
any-Only (fail e) = fail-Only e
any-Only (call c k) = call-Only c k tt (λ r. any-Only (k r))

pub each-Honest :
    (P : Call → Type 0) (ps : List (Program (Option Text)))
    → All (λ p. Only P p) ps
    → All (Honest P) (map waiting ps)
each-Honest P [] a = tt
each-Honest P (p ∷ ps) a = (a.0, each-Honest P ps a.1)

pub each_worker-Honest : (ws : List Worker) → All (Honest (λ _. Unit {0})) ws
each_worker-Honest [] = tt
each_worker-Honest (waiting p ∷ ws) = (any-Only p, each_worker-Honest ws)
each_worker-Honest (working p ∷ ws) = (any-Only p, each_worker-Honest ws)
each_worker-Honest (finished r ∷ ws) = (tt, each_worker-Honest ws)
each_worker-Honest (skipped ∷ ws) = (tt, each_worker-Honest ws)
each_worker-Honest (failed ∷ ws) = (tt, each_worker-Honest ws)

pub any-Stable : Stable (λ _. Unit {0})
any-Stable = record {
  starting = λ s i p h e c b. tt;
  skipping = λ s i p h e c. tt;
  going = λ s i p q h e. tt;
  settling = λ s i p r h e. tt;
  passing = λ s i p r h e c. tt;
  ending = λ s h. tt;
}
