-- ===== src/Base/Trim.antt =====
-- `strings.TrimSpace`: the white space of Unicode, in UTF-8, off both ends.
use Prim.Native.Nat.{ℕ}
use mathlib.Core.Bool.{Bool, ◌&&◌, ◌||◌}
use mathlib.Core.List.{[], ◌∷◌, reverse}
use autodeploy_web.Base.Tests.{leb, ◌==◌, if◌then◌else◌}
use native.Mathlib.Omega.{arith}
use autodeploy_web.Base.Lists.{All, reverse-All}
use autodeploy_web.Base.Bytes.{Text}

unfoldable pub is_ascii_space : ℕ → Bool
is_ascii_space c = (leb 9 c && leb c 13) || c == 32

-- U+0085 and U+00A0.
is_space_2 : ℕ → ℕ → Bool
is_space_2 a b = a == 0xc2 && (b == 0x85 || b == 0xa0)

-- U+1680, U+2000 to U+200A, U+2028, U+2029, U+202F, U+205F and U+3000.
is_space_3 : ℕ → ℕ → ℕ → Bool
is_space_3 a b c =
    (a == 0xe1 && b == 0x9a && c == 0x80)
    || (a == 0xe2
        && b == 0x80
        && ((leb 0x80 c && leb c 0x8a) || c == 0xa8 || c == 0xa9 || c == 0xaf))
    || (a == 0xe2 && b == 0x81 && c == 0x9f)
    || (a == 0xe3 && b == 0x80 && c == 0x80)

trim_front : (ℕ → ℕ → Bool) → (ℕ → ℕ → ℕ → Bool) → Text → Text
unfolding is_ascii_space
trim_front two three [] = []
trim_front two three (a ∷ []) = if is_ascii_space a then [] else a ∷ []
trim_front two three (a ∷ b ∷ []) =
    let one = trim_front two three (b ∷ []) in
    if is_ascii_space a then one else if two a b then [] else a ∷ b ∷ []
trim_front two three (a ∷ b ∷ c ∷ s) =
    let one = trim_front two three (b ∷ c ∷ s) in
    let pair = trim_front two three (c ∷ s) in
    let triple = trim_front two three s in
    if is_ascii_space a
    then one
    else if two a b
    then pair
    else if three a b c
    then triple
    else a ∷ b ∷ c ∷ s

unfoldable pub trim_space : Text → Text
unfolding trim_front is_space_2 is_space_3
trim_space s = reverse (
    trim_front (λ a b. is_space_2 b a) (λ a b c. is_space_3 c b a)
      (reverse (trim_front is_space_2 is_space_3 s)))

module _ (P : ℕ → Type 0) where
  trim_front-All :
      (two : ℕ → ℕ → Bool) (three : ℕ → ℕ → ℕ → Bool) (s : Text)
      → All P s
      → All P (trim_front two three s)
  unfolding trim_front
  trim_front-All two three [] h = tt
  trim_front-All two three (a ∷ []) h = ground (arith, h)
  trim_front-All two three (a ∷ b ∷ []) h = ground (arith, h, trim_front-All two three (b ∷ []) h.1)
  trim_front-All two three (a ∷ b ∷ c ∷ s) h = ground (
    arith,
    h,
    trim_front-All two three (b ∷ c ∷ s) h.1,
    trim_front-All two three (c ∷ s) h.1.1,
    trim_front-All two three s h.1.1.1,
  )

  -- Trimming only drops bytes.
  pub trim_space-All : (s : Text) → All P s → All P (trim_space s)
  unfolding trim_space
  trim_space-All s h =
      reverse-All P _
        (trim_front-All _ _ _ (reverse-All P (trim_front _ _ s) (trim_front-All _ _ s h)))
