-- ===== src/Config/Patterns/Hostname.antt =====
-- What the hostname pattern accepts.
use autodeploy_web.Base.{
  ℕ, zero, suc, ◌≡◌, ◌∙◌, refl, Bool, true, false, [], ◌∷◌, Text, arith, ◌&&◌, ◌||◌, leb, length,
  all, is_empty,
}
use autodeploy_web.Config.Regex.{repeated, match_then, matches, class}
use autodeploy_web.Config.Patterns.{is_alnum, is_label, hostname_re}

abbrev pub starts_with : (ℕ → Bool) → Text → Bool
starts_with f [] = false
starts_with f (c ∷ s) = f c

abbrev pub ends_with : (ℕ → Bool) → Text → Bool
ends_with f [] = false
ends_with f (c ∷ []) = f c
ends_with f (c ∷ d ∷ s) = ends_with f (d ∷ s)

-- Letters, digits and hyphens, neither end a hyphen, 1 to 15 bytes.
abbrev pub hostname_ok : Text → Bool
hostname_ok s =
    starts_with is_alnum s && ends_with is_alnum s && all is_label s && leb (length s) 15

alnum_label : (c : ℕ) → is_alnum c ≡ true → is_label c ≡ true
unfolding is_label
alnum_label c h = ground arith

last_part : ℕ → Text → Bool
last_part n s = repeated 0 n is_label s (λ t. match_then (class is_alnum) t is_empty)

last_part_lem :
    (n : ℕ) (s : Text)
    → last_part n s ≡ (ends_with is_alnum s && all is_label s && leb (length s) (suc n))
unfolding last_part repeated match_then
last_part_lem zero [] = refl
last_part_lem zero (c ∷ []) = ground (arith, alnum_label c)
last_part_lem zero (c ∷ d ∷ s) = ground arith
last_part_lem (suc n) [] = refl
last_part_lem (suc n) (c ∷ []) = ground (arith, alnum_label c, last_part_lem n [])
last_part_lem (suc n) (c ∷ d ∷ s) = ground (arith, last_part_lem n (d ∷ s))

rejoin :
    (a l e r b : Bool)
    → (a ≡ true → l ≡ true)
    → (a && ((e && r && b) || false)) ≡ (a && e && (l && r) && b)
rejoin true l e r b h = ground arith
rejoin false l e r b h = refl

leb_pred : (n m : ℕ) → leb n m ≡ leb (suc n) (suc m)
leb_pred n m = ground arith

matches_last :
    (c d : ℕ) (s : Text)
    → matches hostname_re (c ∷ d ∷ s) ≡ (is_alnum c && (last_part 13 (d ∷ s) || false))
unfolding matches hostname_re match_then last_part
matches_last c d s = refl

-- The pattern of host names accepts exactly the texts of 1 to 15 letters, digits and hyphens that
-- neither begin nor end with a hyphen.
pub matches-hostname_ok : (s : Text) → matches hostname_re s ≡ hostname_ok s
matches-hostname_ok [] = matches_nil
  where
    matches_nil : matches hostname_re [] ≡ false
    matches_nil = unfold matches hostname_re match_then in refl
matches-hostname_ok (c ∷ []) = matches_one ∙ one_ok (is_alnum c) (is_label c) (alnum_label c)
  where
    matches_one : matches hostname_re (c ∷ []) ≡ (is_alnum c && true)
    matches_one = unfold matches hostname_re match_then repeated in refl

    one_ok : (a l : Bool) → (a ≡ true → l ≡ true) → (a && true) ≡ (a && a && (l && true) && true)
    one_ok true l h = rw (h refl)
    one_ok false l h = refl
matches-hostname_ok (c ∷ d ∷ s) =
    matches_last c d s
    ∙ rw (last_part_lem 13 (d ∷ s), ← leb_pred (length (d ∷ s)) 14)
        (rejoin (is_alnum c) (is_label c) (ends_with is_alnum (d ∷ s)) (all is_label (d ∷ s))
          (leb (length (d ∷ s)) 14) (alnum_label c))
