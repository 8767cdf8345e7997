-- ===== src/Config/Password.antt =====
-- `checkVeeamPassword`, `classOf` and `maxRunOfSameClass` of internal/config/validate.go.
pub mod Runs
use autodeploy_web.Base.{
  ℕ, suc, ◌+◌, Bool, List, [], ◌∷◌, Text, text, ◌==◌, ltb, if◌then◌else◌, length, any, not,
}
use autodeploy_web.Config.Patterns.{is_upper, is_lower, is_digit}

unfoldable pub class_of : ℕ → ℕ
unfolding is_upper is_lower is_digit
class_of r = if is_upper r then 1 else if is_lower r then 2 else if is_digit r then 3 else 4

-- The loop over the bytes after the first: `max`, `cur` and `prev`.
unfoldable pub run_loop : ℕ → ℕ → ℕ → Text → ℕ
run_loop max cur prev [] = max
run_loop max cur prev (b ∷ s) =
    let c = class_of b in
    let same = c == prev in
    run_loop (if same then (if ltb max (cur + 1) then cur + 1 else max) else max)
      (if same then cur + 1 else 1) (if same then prev else c) s

unfoldable pub max_run_of_same_class : Text → ℕ
unfolding run_loop
max_run_of_same_class [] = 0
max_run_of_same_class (b ∷ s) = run_loop 1 1 (class_of b) s

-- The flags are set by a loop over the runes; a rune beyond ASCII is a symbol, and so is each of its
-- bytes.
unfoldable pub check_veeam_password : Text → Text
check_veeam_password p =
    if ltb (length p) 15
    then text "must be at least 15 characters"
    else if not (any (λ b. class_of b == 1) p)
    then text "must contain at least one uppercase letter"
    else if not (any (λ b. class_of b == 2) p)
    then text "must contain at least one lowercase letter"
    else if not (any (λ b. class_of b == 3) p)
    then text "must contain at least one digit"
    else if not (any (λ b. class_of b == 4) p)
    then text "must contain at least one special character"
    else if ltb 3 (max_run_of_same_class p)
    then text "no more than 3 characters of the same class in a row"
    else []
