-- ===== src/Form/Entries.antt =====
-- The entries of a list field of the form.
use autodeploy_web.Base.Trim.{trim_space, trim_space-All}
use autodeploy_web.Base.{
  ℕ, ◌≡◌, ◌≢◌, inl, inr, arith, false, not, List, [], ◌∷◌, Text, map, keep_if, All, ◌==◌, is_empty,
  Bool-cases,
}
use autodeploy_web.Form.{Form, form_value, get_array, split_commas, onto_first, one_line}

-- A byte of an entry: no comma and no line break.
abbrev pub Inner : ℕ → Type 0
Inner c = (c ≢ 44) × (c ≢ 10) × (c ≢ 13)

abbrev OneLine : ℕ → Type 0
OneLine c = (c ≢ 10) × (c ≢ 13)

one_line-OneLine : (s : Text) → All OneLine (one_line s)
unfolding one_line
one_line-OneLine [] = tt
one_line-OneLine (c ∷ s) = ground (arith, one_line-OneLine s)

onto_first-All :
    (c : ℕ) (ps : List Text) → Inner c → All (All Inner) ps → All (All Inner) (onto_first c ps)
unfolding onto_first
onto_first-All c [] i a = ((i, tt), tt)
onto_first-All c (p ∷ ps) i a = ((i, a.0), a.1)

split_commas-All : (s : Text) → All OneLine s → All (All Inner) (split_commas s)
unfolding split_commas
split_commas-All [] a = (tt, tt)
split_commas-All (c ∷ s) a = elim (Bool-cases (c == b',')) [
  | inl h ↦ rw h (tt, split_commas-All s a.1)
  | inr h ↦ rw h (onto_first-All c (split_commas s) (ground (arith, a.0)) (split_commas-All s a.1))
]

-- Every entry of a list field of the form has a byte, and neither a comma nor a line break in it,
-- whatever was submitted.
pub get_array-entries :
    (f : Form) (k : Text) → All (λ e. (is_empty e ≡ false) × All Inner e) (get_array f k)
unfolding get_array
get_array-entries f k =
    kept (split_commas (one_line (form_value f k)))
      (split_commas-All _ (one_line-OneLine (form_value f k)))
  where
    kept :
        (ps : List Text)
        → All (All Inner) ps
        → All
            (λ e. (is_empty e ≡ false) × All Inner e)
            (keep_if (λ p. not (is_empty p)) (map trim_space ps))
    kept [] a = tt
    kept (p ∷ ps) a = elim (Bool-cases (is_empty (trim_space p))) [
      | inl h ↦ rw h (kept ps a.1)
      | inr h ↦ rw h ((h, trim_space-All Inner p a.0), kept ps a.1)
    ]
