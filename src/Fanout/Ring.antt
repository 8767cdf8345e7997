-- ===== src/Fanout/Ring.antt =====
-- The log keeps the last lines, up to its bound.
use autodeploy_web.Base.{
  ℕ, zero, suc, false, leb→le, ◌-◌, ◌≤◌, ◌<◌, ◌≡◌, refl, ap, ◌∙◌, sym, List, [], ◌∷◌, ◌++◌,
  append_assoc, append-nil, arith, Text, leb, inl, inr, Bool-cases, length, drop, length-append,
  length-drop, drop-append,
}
use autodeploy_web.Fanout.{Fanout, max_buffered_lines, push_line, append_line, append_all, new}

-- The last `bound` lines of a history.
abbrev pub last_lines : ℕ → List Text → List Text
last_lines bound history = drop (length history - bound) history

drop-drop_one : (n : ℕ) (xs : List Text) → drop 1 (drop n xs) ≡ drop (suc n) xs
drop-drop_one zero xs = refl
drop-drop_one (suc n) [] = refl
drop-drop_one (suc n) (x ∷ xs) = drop-drop_one n xs

full_ring :
    (bound : ℕ) (line : Text) (history : List Text)
    → 0 < bound
    → bound ≤ length history
    → drop 1 (last_lines bound history) ++ line ∷ [] ≡ last_lines bound (history ++ line ∷ [])
full_ring bound line history h fits = rw (drop-drop_one (length history - bound) history) (
    sym (drop-append (suc (length history - bound)) history (line ∷ []) (omega arith))
    ∙ ap (λ (k : ℕ). drop k (history ++ line ∷ [])) {x = suc (length history - bound)}
        (omega (arith, length-append history (line ∷ []))))

push_line-last_lines :
    (bound : ℕ) (line : Text) (history : List Text)
    → 0 < bound
    → push_line bound line (last_lines bound history) ≡ last_lines bound (history ++ line ∷ [])
unfolding push_line
push_line-last_lines bound line history h =
    elim (Bool-cases (leb bound (length (last_lines bound history)))) [
      | inl full ↦ rw full (
          full_ring bound line history h
            (omega (arith, leb→le bound _ full, length-drop (length history - bound) history)))
      | inr room ↦ rw room (short_ring (not_full room))
    ]
  where
    not_full : leb bound (length (last_lines bound history)) ≡ false → length history < bound
    not_full room = ground (arith, length-drop (length history - bound) history)

    short_ring :
        length history < bound
        → last_lines bound history ++ line ∷ [] ≡ last_lines bound (history ++ line ∷ [])
    short_ring few =
        ap (λ (k : ℕ). drop k history ++ line ∷ []) {x = length history - bound} {y = 0}
          (omega arith)
        ∙ ap (λ (k : ℕ). drop k (history ++ line ∷ [])) {x = 0}
            (omega (arith, length-append history (line ∷ [])))

append_all-from :
    (ls history : List Text) (f : Fanout)
    → f.lines ≡ last_lines max_buffered_lines history
    → (append_all ls f).lines ≡ last_lines max_buffered_lines (history ++ ls)
unfolding append_all append_line
append_all-from [] history f e = rw append-nil e
append_all-from (l ∷ ls) history f e =
    append_all-from ls (history ++ l ∷ []) (append_line l f) (
      ap (push_line max_buffered_lines l) e
      ∙ push_line-last_lines max_buffered_lines l history (omega arith))
    ∙ ap (last_lines max_buffered_lines) (append_assoc history (l ∷ []) ls)

-- After any lines appended to a fresh log, it holds exactly the last 5000 of them, in order, and
-- never more than 5000.
pub append_all-last_lines :
    (ls : List Text)
    → ((append_all ls (new [])).lines ≡ last_lines max_buffered_lines ls)
      × (length (append_all ls (new [])).lines ≤ max_buffered_lines)
unfolding new
append_all-last_lines ls =
    let e = append_all-from ls [] (new []) refl in
    (e, rw e (omega (arith, length-drop (length ls - max_buffered_lines) ls)))
