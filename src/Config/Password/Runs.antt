-- ===== src/Config/Password/Runs.antt =====
-- `maxRunOfSameClass` against a description that looks at every four neighbours.
use autodeploy_web.Base.{
  ℕ, ◌+◌, ◌≤◌, ◌<◌, ◌≡◌, refl, Bool, true, false, List, [], ◌∷◌, map, Text, arith, ◌==◌, ltb,
  if◌then◌else◌, not, ◌&&◌, inl, inr, Bool-cases, ==_iff,
}
use autodeploy_web.Config.Password.{class_of, run_loop, max_run_of_same_class}

-- No four neighbours are equal.
unfoldable pub no_four : List ℕ → Bool
no_four (a ∷ b ∷ c ∷ d ∷ s) = not (a == b && b == c && c == d) && no_four (b ∷ c ∷ d ∷ s)
no_four _ = true

longer : ℕ → ℕ → ℕ
longer max cur = if ltb max (cur + 1) then cur + 1 else max

run_same :
    (b : ℕ) (s : Text) (max cur p : ℕ)
    → (class_of b == p) ≡ true
    → run_loop max cur p (b ∷ s) ≡ run_loop (longer max cur) (cur + 1) p s
unfolding run_loop longer
run_same b s max cur p h = rw h

run_other :
    (b : ℕ) (s : Text) (max cur p : ℕ)
    → (class_of b == p) ≡ false
    → run_loop max cur p (b ∷ s) ≡ run_loop max 1 (class_of b) s
unfolding run_loop
run_other b s max cur p h = rw h

run_loop-long : (s : Text) (max cur prev : ℕ) → 3 < max → ltb 3 (run_loop max cur prev s) ≡ true
unfolding run_loop longer
run_loop-long [] max cur prev h = ground arith
run_loop-long (b ∷ s) max cur prev h = elim (Bool-cases (class_of b == prev)) [
  | inl e ↦
      rw (run_same b s max cur prev e)
        (run_loop-long s (longer max cur) (cur + 1) prev (longer_lt max cur h))
  | inr e ↦ rw (run_other b s max cur prev e) (run_loop-long s max 1 (class_of b) h)
]
  where
    longer_lt : (max cur : ℕ) → 3 < max → 3 < longer max cur
    longer_lt m k lt = ground arith

-- What the loop finds after one, two and three equal classes.
record Counts (s : Text) : Type 0 where
  one : (max p : ℕ) → max ≤ 3 → ltb 3 (run_loop max 1 p s) ≡ not (no_four (p ∷ map class_of s))
  two : (max p : ℕ) → max ≤ 3 → ltb 3 (run_loop max 2 p s) ≡ not (no_four (p ∷ p ∷ map class_of s))
  three :
      (max p : ℕ)
      → max ≤ 3
      → ltb 3 (run_loop max 3 p s) ≡ not (no_four (p ∷ p ∷ p ∷ map class_of s))

skip_one : (p c : ℕ) (cs : List ℕ) → (c == p) ≡ false → no_four (p ∷ c ∷ cs) ≡ no_four (c ∷ cs)
unfolding no_four
skip_one p c [] h = refl
skip_one p c (d ∷ []) h = refl
skip_one p c (d ∷ e ∷ cs) h = ground arith

skip_two : (p c : ℕ) (cs : List ℕ) → (c == p) ≡ false → no_four (p ∷ p ∷ c ∷ cs) ≡ no_four (c ∷ cs)
unfolding no_four
skip_two p c [] h = refl
skip_two p c (d ∷ cs) h = ground (arith, skip_one p c (d ∷ cs) h)

skip_three :
    (p c : ℕ) (cs : List ℕ) → (c == p) ≡ false → no_four (p ∷ p ∷ p ∷ c ∷ cs) ≡ no_four (c ∷ cs)
unfolding no_four
skip_three p c cs h = ground (arith, skip_two p c cs h)

four : (p : ℕ) (cs : List ℕ) → no_four (p ∷ p ∷ p ∷ p ∷ cs) ≡ false
unfolding no_four
four p cs = ground arith

longer-le : (max cur : ℕ) → max ≤ 3 → cur ≤ 2 → longer max cur ≤ 3
unfolding longer
longer-le max cur h k = ground arith

too_long : (max : ℕ) → max ≤ 3 → 3 < longer max 3
unfolding longer
too_long max h = ground arith

Counts-nil : Counts []
unfolding run_loop no_four
Counts-nil = record {
  one = λ max p h. ground arith;
  two = λ max p h. ground arith;
  three = λ max p h. ground arith;
}

counts : (s : Text) → Counts s
counts [] = Counts-nil
counts (b ∷ s) = record {
  one = λ max p h. elim (Bool-cases (class_of b == p)) [
    | inl e ↦
        rw (run_same b s max 1 p e, (==_iff (class_of b) p).0 e)
          ((counts s).two (longer max 1) p (longer-le max 1 h (omega arith)))
    | inr e ↦
        rw (run_other b s max 1 p e, skip_one p (class_of b) (map class_of s) e)
          ((counts s).one max (class_of b) h)
  ];
  two = λ max p h. elim (Bool-cases (class_of b == p)) [
    | inl e ↦
        rw (run_same b s max 2 p e, (==_iff (class_of b) p).0 e)
          ((counts s).three (longer max 2) p (longer-le max 2 h (omega arith)))
    | inr e ↦
        rw (run_other b s max 2 p e, skip_two p (class_of b) (map class_of s) e)
          ((counts s).one max (class_of b) h)
  ];
  three = λ max p h. elim (Bool-cases (class_of b == p)) [
    | inl e ↦
        rw (run_same b s max 3 p e, (==_iff (class_of b) p).0 e, four p (map class_of s))
          (run_loop-long s (longer max 3) 4 p (too_long max h))
    | inr e ↦
        rw (run_other b s max 3 p e, skip_three p (class_of b) (map class_of s) e)
          ((counts s).one max (class_of b) h)
  ];
}

-- The longest run of one class that the password loop finds exceeds three exactly when some four
-- neighbours are of one class.
pub max_run-no_four : (s : Text) → ltb 3 (max_run_of_same_class s) ≡ not (no_four (map class_of s))
unfolding max_run_of_same_class no_four
max_run-no_four [] = refl
max_run-no_four (b ∷ s) = (counts s).one 1 (class_of b) (omega arith)
