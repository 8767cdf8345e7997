-- ===== src/Config/Regex.antt =====
-- Anchored regular expressions of the shapes that the program compiles: classes of ASCII bytes,
-- literals, sequences, an optional part and counted repetition, matched with backtracking.
use autodeploy_web.Base.{ℕ, zero, suc, Bool, false, [], ◌∷◌, Text, ◌&&◌, ◌||◌, is_empty}

pub data Regex : Type 0 where
  class : (ℕ → Bool) → Regex
  repeat : ℕ → ℕ → (ℕ → Bool) → Regex
  seq : Regex → Regex → Regex
  opt : Regex → Regex

-- `[f]{m,m+extra}`, followed by what `k` matches.
unfoldable pub repeated : ℕ → ℕ → (ℕ → Bool) → Text → (Text → Bool) → Bool
repeated zero zero f s k = k s
repeated zero (suc n) f [] k = k []
repeated zero (suc n) f (c ∷ s) k = (f c && repeated zero n f s k) || k (c ∷ s)
repeated (suc m) n f [] k = false
repeated (suc m) n f (c ∷ s) k = f c && repeated m n f s k

unfoldable pub match_then : Regex → Text → (Text → Bool) → Bool
unfolding repeated
match_then (class f) [] k = false
match_then (class f) (c ∷ s) k = f c && k s
match_then (repeat m extra f) s k = repeated m extra f s k
match_then (seq r q) s k = match_then r s (λ t. match_then q t k)
match_then (opt r) s k = match_then r s k || k s

-- `^r$`.
unfoldable pub matches : Regex → Text → Bool
unfolding match_then
matches r s = match_then r s is_empty
