-- ===== src/Wiring/Pool/Ends.antt =====
-- `wg.Wait()` returns: every goroutine comes to its end.
use mathlib.Core.Path.{subst}
use autodeploy_web.Base.{
  ℕ, zero, suc, ◌+◌, ◌<◌, ◌≡◌, ◌≢◌, ◌⊎◌, inl, inr, refl, sym, ap, ◌∙◌, Text, List, [], ◌∷◌, Option,
  none, some, All, set, get_elem?, length, ltb, arith, Bool-cases,
}
use autodeploy_web.Wiring.Program.{Program, ret, Answer, ok, err, ◌>>=◌, attempt}
use autodeploy_web.Wiring.Guarded.{
  Guarded, weaken-Guarded, ret-Guarded, bind-Guarded, attempt-Guarded,
}
use autodeploy_web.Wiring.Pool.{
  Worker, waiting, working, finished, skipped, failed, Pool, Turn, settle, move, canceled,
  take_turns, finish_working, finish_waiting, finish_each, run_pool,
}
use autodeploy_web.Wiring.Calls.Pool.{
  calls, Only-calls, any-Only, take_turns-Fair, any-Stable, each_worker-Honest,
}

-- At its end, or before the semaphore.
abbrev Idle : Worker → Type 0
Idle (working p) = ⊥
Idle _ = Unit

abbrev pub Ended : Worker → Type 0
Ended (working p) = ⊥
Ended (waiting p) = ⊥
Ended _ = Unit

get-set :
    {A : Type 0} (xs : List A) (i j : ℕ) (v w : A)
    → get_elem? (set xs i v) j ≡ some w
    → (v ≡ w) ⊎ ((j ≢ i) × (get_elem? xs j ≡ some w))
get-set [] i j v w e = absurd (ground arith)
get-set (x ∷ xs) zero zero v w e = inl cc
get-set (x ∷ xs) zero (suc j) v w e = inr (omega arith, e)
get-set (x ∷ xs) (suc i) zero v w e = inr (omega arith, e)
get-set (x ∷ xs) (suc i) (suc j) v w e = elim (get-set xs i j v w e) [
  | inl h ↦ inl h
  | inr h ↦ inr (ground (arith, h.0), h.1)
]

length-set : {A : Type 0} (xs : List A) (i : ℕ) (v : A) → length (set xs i v) ≡ length xs
length-set [] i v = refl
length-set (x ∷ xs) zero v = refl
length-set (x ∷ xs) (suc i) v = ap suc (length-set xs i v)

get-lt : {A : Type 0} (xs : List A) (j : ℕ) (w : A) → get_elem? xs j ≡ some w → j < length xs
get-lt [] j w e = absurd (ground arith)
get-lt (x ∷ xs) zero w e = omega arith
get-lt (x ∷ xs) (suc j) w e = omega (arith, get-lt xs j w e)

get_each-All :
    {A : Type 0} (P : A → Type 0) (xs : List A)
    → ((j : ℕ) (w : A) → j < length xs → get_elem? xs j ≡ some w → P w)
    → All P xs
get_each-All P [] h = tt
get_each-All P (x ∷ xs) h =
    (h 0 x (omega arith) refl, get_each-All P xs (λ j w l e. h (suc j) w (omega arith) e))

abbrev Free : (Pool → Type 0) → Program Pool → Type 0
Free Q p = Guarded (calls (λ _. Unit {0})) (λ _ s. Q s) (λ _ _. ⊥) p tt

-- The goroutines before the i-th have come to `P`, and each is in `R`.
abbrev Walked : (Worker → Type 0) → (Worker → Type 0) → ℕ → ℕ → Pool → Type 0
Walked P R l i s =
    (length s.workers ≡ l)
    × ((j : ℕ) (w : Worker) → get_elem? s.workers j ≡ some w → (j < i → P w) × R w)

settle-writes :
    (i : ℕ) (r : Answer (Option Text)) (s : Pool)
    → (v : Worker) × (Ended v × ((settle i r s).workers ≡ set s.workers i v))
unfolding settle
settle-writes i (ok r) s = (finished r, (tt, refl))
settle-writes i (err e) s = (failed, (tt, refl))

split : (j i : ℕ) → j < suc i → (j < i) ⊎ (j ≡ i)
split j i b = elim (Bool-cases (ltb j i)) [
  | inl h ↦ inl (ground (arith, h))
  | inr h ↦ inr (ground (arith, h, b))
]

module _ (P R : Worker → Type 0) (l : ℕ) where
  same-Walked :
      (i : ℕ) (s : Pool) (o : Option Worker)
      → get_elem? s.workers i ≡ o
      → ((w : Worker) → o ≡ some w → P w)
      → Walked P R l i s
      → Walked P R l (suc i) s
  same-Walked i s o e h k = (
    k.0,
    λ j w a. (
      λ b. elim (split j i b) [
        | inl c ↦ (k.1 j w a).0 c
        | inr c ↦ h w (sym e ∙ ap (λ x. get_elem? s.workers x) (sym c) ∙ a)
      ],
      (k.1 j w a).1,
    ),
  )

  set-Walked :
      (i : ℕ) (s : Pool) (v : Worker) (t : Pool)
      → t.workers ≡ set s.workers i v
      → P v
      → R v
      → Walked P R l i s
      → Walked P R l (suc i) t
  set-Walked i s v t e p r k = (
    ap length e ∙ length-set s.workers i v ∙ k.0,
    λ j w a. elim (get-set s.workers i j v w (ap (λ ws. get_elem? ws j) (sym e) ∙ a)) [
      | inl h ↦ (λ _. subst P h p, subst R h r)
      | inr h ↦ (
        λ b. elim (split j i b) [ inl c ↦ (k.1 j w h.1).0 c | inr c ↦ absurd (h.0 c) ],
        (k.1 j w h.1).1,
      )
    ],
  )

  kept-Walked :
      (i : ℕ) (s : Pool) (w : Worker)
      → get_elem? s.workers i ≡ some w
      → P w
      → Walked P R l i s
      → Free (Walked P R l (suc i)) (ret s)
  kept-Walked i s w e p k =
      ret-Guarded s tt (same-Walked i s (some w) e (λ v h. let h' : w ≡ v = cc in subst P h' p) k)

  past-Walked :
      (i : ℕ) (s : Pool)
      → get_elem? s.workers i ≡ none
      → Walked P R l i s
      → Free (Walked P R l (suc i)) (ret s)
  past-Walked i s e k = ret-Guarded s tt (same-Walked i s none e (λ v h. absurd (ground arith)) k)

  -- The walk over the goroutines, from one step of it.
  finish_each-Walked :
      (one : ℕ → Option Worker → Pool → Program Pool)
      → ((i : ℕ) (w : Option Worker) (s : Pool)
          → get_elem? s.workers i ≡ w
          → Walked P R l i s
          → Free (Walked P R l (suc i)) (one i w s))
      → (n i j : ℕ) (s : Pool) → i + n ≡ j
      → Walked P R l i s
      → Free (Walked P R l j) (finish_each one n i s)
  unfolding finish_each
  finish_each-Walked one h zero i j s e k =
      let e' : i ≡ j = omega arith in ret-Guarded s tt (subst (λ x. Walked P R l x s) e' k)
  finish_each-Walked one h (suc n) i j s e k =
      bind-Guarded (one i (get_elem? s.workers i) s) _ tt (h i _ s refl k)
        (λ _ s' k'. finish_each-Walked one h n (suc i) j s' (omega arith) k')

  settle-Walked :
      (i : ℕ) (p : Program (Option Text)) (s : Pool)
      → ((v : Worker) → Ended v → P v × R v)
      → Walked P R l i s
      → Free (Walked P R l (suc i)) (attempt p >>= λ r. ret (settle i r s))
  settle-Walked i p s h k =
      bind-Guarded {R = λ _ _. Unit {0}} (attempt p) _ tt
        (attempt-Guarded p tt (Only-calls (λ _. Unit) p (any-Only p)) (λ _ _ _. tt) (λ _ _ _. tt))
        (λ t r _.
          let (v, q) = settle-writes i r s in
          ret-Guarded _ t (set-Walked i s v (settle i r s) q.1 (h v q.0).0 (h v q.0).1 k))

Ended-Idle : (v : Worker) → Ended v → Idle v
Ended-Idle (finished r) h = tt
Ended-Idle skipped h = tt
Ended-Idle failed h = tt
Ended-Idle (waiting p) h = absurd h
Ended-Idle (working p) h = absurd h

finish_working-Walked :
    (l i : ℕ) (w : Option Worker) (s : Pool)
    → get_elem? s.workers i ≡ w
    → Walked Idle (λ _. Unit) l i s
    → Free (Walked Idle (λ _. Unit) l (suc i)) (finish_working i w s)
unfolding finish_working
finish_working-Walked l i (some (working p)) s e k =
    settle-Walked Idle (λ _. Unit) l i p s (λ v h. (Ended-Idle v h, tt)) k
finish_working-Walked l i (some (waiting p)) s e k = kept-Walked Idle (λ _. Unit) l i s _ e tt k
finish_working-Walked l i (some (finished r)) s e k = kept-Walked Idle (λ _. Unit) l i s _ e tt k
finish_working-Walked l i (some skipped) s e k = kept-Walked Idle (λ _. Unit) l i s _ e tt k
finish_working-Walked l i (some failed) s e k = kept-Walked Idle (λ _. Unit) l i s _ e tt k
finish_working-Walked l i none s e k = past-Walked Idle (λ _. Unit) l i s e k

finish_waiting-Walked :
    (l i : ℕ) (w : Option Worker) (s : Pool)
    → get_elem? s.workers i ≡ w
    → Walked Ended Idle l i s
    → Free (Walked Ended Idle l (suc i)) (finish_waiting i w s)
unfolding finish_waiting move
finish_waiting-Walked l i (some (waiting p)) s e k = elim (Bool-cases (canceled s)) [
  | inl c ↦
      rw (finish_waiting, c)
        (ret-Guarded (move i skipped s) tt
          (set-Walked Ended Idle l i s skipped (move i skipped s) refl tt tt k))
  | inr c ↦ rw (finish_waiting, c) (settle-Walked Ended Idle l i p s (λ v h. (h, Ended-Idle v h)) k)
]
finish_waiting-Walked l i (some (working p)) s e k = absurd ((k.1 i _ e).1)
finish_waiting-Walked l i (some (finished r)) s e k = kept-Walked Ended Idle l i s _ e tt k
finish_waiting-Walked l i (some skipped) s e k = kept-Walked Ended Idle l i s _ e tt k
finish_waiting-Walked l i (some failed) s e k = kept-Walked Ended Idle l i s _ e tt k
finish_waiting-Walked l i none s e k = past-Walked Ended Idle l i s e k

start-Walked :
    (P R : Worker → Type 0) (s : Pool)
    → ((j : ℕ) (w : Worker) → get_elem? s.workers j ≡ some w → R w)
    → Walked P R (length s.workers) 0 s
start-Walked P R s h = (refl, λ j w a. (λ b. absurd (omega arith), h j w a))

-- Every goroutine of a pool comes to its end, whatever turns they get and whatever their calls are answered.
pub run_pool-ends :
    (ts : List Turn) (s : Pool)
    → Guarded (calls (λ _. Unit {0})) (λ _ t. All Ended t.workers) (λ _ _. ⊥) (run_pool ts s) tt
unfolding run_pool
run_pool-ends ts s = bind-Guarded (take_turns ts s) _ tt (turns ts s) λ _ s1 _.
    bind-Guarded (finish_each finish_working (length s1.workers) 0 s1) _ tt
      (finish_each-Walked Idle (λ _. Unit) (length s1.workers) finish_working
        (finish_working-Walked (length s1.workers)) (length s1.workers) 0 (length s1.workers) s1
        (omega arith) (start-Walked Idle _ s1 (λ j w a. tt)))
      λ _ s2 k2.
        weaken-Guarded (finish_each finish_waiting (length s2.workers) 0 s2) tt
          (finish_each-Walked Ended Idle (length s2.workers) finish_waiting
            (finish_waiting-Walked (length s2.workers)) (length s2.workers) 0 (length s2.workers) s2
            (omega arith)
            (start-Walked Ended Idle s2
              (λ j w a. (k2.1 j w a).0 (within s2.workers j w (length s1.workers) k2.0 a))))
          (λ _ t k. get_each-All Ended t.workers (λ j w b a. (k.1 j w a).0 (rw (← k.0) b)))
          (λ _ _ e. e)
  where
    within :
        (ws : List Worker) (j : ℕ) (w : Worker) (l : ℕ)
        → length ws ≡ l
        → get_elem? ws j ≡ some w
        → j < l
    within ws j w l e a = rw (← e) (get-lt ws j w a)

    turns : (us : List Turn) (p : Pool) → Free (λ _. Unit {0}) (take_turns us p)
    turns us p =
        weaken-Guarded (take_turns us p) tt
          (take_turns-Fair (λ _. Unit) (λ _. Unit) any-Stable us p
            (tt, each_worker-Honest p.workers))
          (λ _ _ _. tt) (λ _ _ e. e)
