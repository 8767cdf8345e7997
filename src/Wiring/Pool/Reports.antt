-- ===== src/Wiring/Pool/Reports.antt =====
-- What `wireVIANodes` returns: the scan of `hrResults` for the lowest index finds the first
-- hardened repository in the order of the nodes, in whatever order they reported.
use autodeploy_web.Base.{
  ℕ, zero, suc, ◌+◌, ◌≤◌, ◌<◌, ◌≡◌, refl, sym, ap, ◌∙◌, Text, Bool, true, false, List, [], ◌∷◌,
  ◌++◌, map, Option, none, some, All, set, get_elem?, arith,
}
use autodeploy_web.Wiring.Program.{Program, Answer, ok, err}
use autodeploy_web.Wiring.Guarded.{Guarded, weaken-Guarded, both-Guarded}
use autodeploy_web.Wiring.Pool.{
  Worker, waiting, working, finished, skipped, failed, Pool, Turn, settle, move, canceled, is_some,
  run_pool, start_pool, lowest, lower_report, keep_first,
}
use autodeploy_web.Wiring.Pool.Ends.{Ended, run_pool-ends}
use autodeploy_web.Wiring.Calls.Pool.{At, Stable, calls, run_pool-Fair, each_worker-Honest, set-All}

abbrev pub report_of : Worker → Option Text
report_of (finished r) = r
report_of _ = none

abbrev pub headed : ℕ → Option Text → Option (ℕ × Text) → Option (ℕ × Text)
headed k none rest = rest
headed k (some id) rest = some (k, id)

-- The first goroutine that ended with a repository, from the index k on.
pub first_report : ℕ → List Worker → Option (ℕ × Text)
first_report k [] = none
first_report k (w ∷ ws) = headed k (report_of w) (first_report (suc k) ws)

lowest-append :
    (rs : List (ℕ × Text)) (b : Option (ℕ × Text)) (r : ℕ × Text)
    → lowest b (rs ++ r ∷ []) ≡ lower_report (lowest b rs) r
unfolding lowest
lowest-append [] b r = refl
lowest-append (x ∷ rs) b r = lowest-append rs (lower_report b x) r

abbrev From : ℕ → Option (ℕ × Text) → Type 0
From k none = Unit
From k (some r) = k ≤ r.0

From-weaken : (k : ℕ) (o : Option (ℕ × Text)) → From (suc k) o → From k o
From-weaken k none h = tt
From-weaken k (some r) h = omega (arith, h)

headed-From :
    (k : ℕ) (r : Option Text) (o : Option (ℕ × Text)) → From (suc k) o → From k (headed k r o)
headed-From k none o h = From-weaken k o h
headed-From k (some id) o h = omega arith

first_report-From : (k : ℕ) (ws : List Worker) → From k (first_report k ws)
unfolding first_report
first_report-From k [] = tt
first_report-From k (w ∷ ws) = headed-From k (report_of w) _ (first_report-From (suc k) ws)

lower_report-later :
    (k : ℕ) (o : Option (ℕ × Text)) (id : Text)
    → From (suc k) o
    → lower_report o (k, id) ≡ some (k, id)
unfolding lower_report
lower_report-later k none id h = refl
lower_report-later k (some r) id h = ground (arith, h)

lower_report-headed :
    (k j : ℕ) (r : Option Text) (o : Option (ℕ × Text)) (id : Text)
    → k < j
    → headed k r (lower_report o (j, id)) ≡ lower_report (headed k r o) (j, id)
unfolding lower_report
lower_report-headed k j none o id h = refl
lower_report-headed k j (some x) o id h = ground (arith, h)

-- A goroutine that moves on without a report.
first_report-quiet :
    (k : ℕ) (ws : List Worker) (i : ℕ) (w v : Worker)
    → get_elem? ws i ≡ some w
    → report_of w ≡ none
    → report_of v ≡ none
    → first_report k (set ws i v) ≡ first_report k ws
unfolding first_report
first_report-quiet k [] i w v e q r = refl
first_report-quiet k (x ∷ ws) zero w v e q r = let e' : x ≡ w = cc in rw (e', q, r) refl
first_report-quiet k (x ∷ ws) (suc i) w v e q r =
    ap (headed k (report_of x)) (first_report-quiet (suc k) ws i w v e q r)

first_report-set :
    (k : ℕ) (ws : List Worker) (i : ℕ) (w : Worker) (id : Text) (j : ℕ)
    → get_elem? ws i ≡ some w
    → report_of w ≡ none
    → j ≡ k + i
    → first_report k (set ws i (finished (some id))) ≡ lower_report (first_report k ws) (j, id)
unfolding first_report
first_report-set k [] i w id j e q h = absurd (ground arith)
first_report-set k (x ∷ ws) zero w id j e q h =
    let e' : x ≡ w = cc in
    let h' : j ≡ k = omega arith in
    rw (e', q, h') (sym (lower_report-later k _ id (first_report-From (suc k) ws)))
first_report-set k (x ∷ ws) (suc i) w id j e q h =
    ap (headed k (report_of x)) (first_report-set (suc k) ws i w id j e q (omega arith))
    ∙ lower_report-headed k j (report_of x) _ id (omega arith)

-- The scan over the reports so far finds the first goroutine that has one.
abbrev pub Scanned : Pool → Type 0
Scanned s = lowest none s.hr_results ≡ first_report 0 s.workers

settle-Scanned :
    (s : Pool) (i : ℕ) (w : Worker) (r : Answer (Option Text))
    → At s i w
    → report_of w ≡ none
    → Scanned s
    → Scanned (settle i r s)
unfolding settle
settle-Scanned s i w (err m) e q h = h ∙ sym (first_report-quiet 0 s.workers i w failed e q refl)
settle-Scanned s i w (ok none) e q h =
    h ∙ sym (first_report-quiet 0 s.workers i w (finished none) e q refl)
settle-Scanned s i w (ok (some id)) e q h =
    lowest-append s.hr_results none (i, id)
    ∙ ap (λ b. lower_report b (i, id)) h
    ∙ sym (first_report-set 0 s.workers i w id i e q (omega arith))

move-Scanned :
    (s : Pool) (i : ℕ) (w v : Worker)
    → At s i w
    → report_of w ≡ none
    → report_of v ≡ none
    → Scanned s
    → Scanned (move i v s)
unfolding move
move-Scanned s i w v e q r h = h ∙ sym (first_report-quiet 0 s.workers i w v e q r)

-- Nobody gave up or failed.
abbrev pub Unharmed : Worker → Type 0
Unharmed skipped = ⊥
Unharmed failed = ⊥
Unharmed _ = Unit

-- While nothing canceled, nobody gave up or failed.
abbrev pub Undisturbed : Pool → Type 0
Undisturbed s = canceled s ≡ false → All Unharmed s.workers

abbrev pub Sound : Pool → Type 0
Sound s = Scanned s × Undisturbed s

keep_first-is_some : (o : Option Text) (e : Text) → is_some (keep_first o e) ≡ true
unfolding keep_first
keep_first-is_some none e = refl
keep_first-is_some (some x) e = refl

settle-Undisturbed :
    (s : Pool) (i : ℕ) (r : Answer (Option Text)) → Undisturbed s → Undisturbed (settle i r s)
unfolding settle canceled
settle-Undisturbed s i (ok r) u c = set-All Unharmed s.workers i (finished r) (u c) tt
settle-Undisturbed s i (err m) u c = absurd (ground (arith, keep_first-is_some s.first_err m))

Sound-Stable : Stable Sound
unfolding move canceled
Sound-Stable = record {
  starting = λ s i p h e c b. (
    move-Scanned s i _ (working p) e refl refl h.0,
    λ k. set-All Unharmed s.workers i _ (h.1 k) tt,
  );
  skipping = λ s i p h e c.
      (move-Scanned s i _ skipped e refl refl h.0, λ k. absurd (ground (arith, c, k)));
  going = λ s i p q h e. (
    move-Scanned s i _ (working q) e refl refl h.0,
    λ k. set-All Unharmed s.workers i _ (h.1 k) tt,
  );
  settling = λ s i p r h e. (settle-Scanned s i _ r e refl h.0, settle-Undisturbed s i r h.1);
  passing = λ s i p r h e c. (settle-Scanned s i _ r e refl h.0, settle-Undisturbed s i r h.1);
  ending = λ s h. (h.0, λ k. absurd (ground (arith, k)));
}

start-Sound : (ps : List (Program (Option Text))) (ended : Bool) → Sound (start_pool ps ended)
unfolding start_pool first_report lowest
start-Sound ps ended = (sym (silent 0 ps), λ _. unharmed ps)
  where
    silent : (k : ℕ) (qs : List (Program (Option Text))) → first_report k (map waiting qs) ≡ none
    silent k [] = refl
    silent k (q ∷ qs) = silent (suc k) qs

    unharmed : (qs : List (Program (Option Text))) → All Unharmed (map waiting qs)
    unharmed [] = tt
    unharmed (q ∷ qs) = (tt, unharmed qs)

-- Whatever turns the goroutines get and whatever their calls are answered, all come to their end;
-- the scan of their reports finds the one of the lowest index; and with neither a failure nor an
-- end of the context, none gave up or failed.
pub run_pool-settles :
    (ts : List Turn) (ps : List (Program (Option Text))) (ended : Bool)
    → Guarded
        (calls (λ _. Unit {0}))
        (λ _ s.
          All Ended s.workers
          × (lowest none s.hr_results ≡ first_report 0 s.workers)
          × (canceled s ≡ false → All Unharmed s.workers))
        (λ _ _. ⊥)
        (run_pool ts (start_pool ps ended))
        tt
run_pool-settles ts ps ended =
    let s = start_pool ps ended in
    weaken-Guarded (run_pool ts s) tt
      (both-Guarded (run_pool ts s) tt (run_pool-ends ts s) (
        run_pool-Fair (λ _. Unit) Sound Sound-Stable ts s
          (start-Sound ps ended, each_worker-Honest s.workers)))
      (λ _ t g. (g.0, g.1.0.0, g.1.0.1)) (λ _ _ e. e)
