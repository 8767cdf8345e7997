-- ===== src/Config/Patterns/Counted.antt =====
-- What a counted class accepts: the MFA keys and the preset names.
use autodeploy_web.Base.{
  ℕ, zero, suc, ◌+◌, ◌≡◌, refl, Bool, [], ◌∷◌, Text, arith, ◌&&◌, leb, length, all, is_empty,
}
use autodeploy_web.Config.Regex.{repeated, match_then, matches}
use autodeploy_web.Config.Patterns.{is_base32, base32_re, is_name_byte, name_re}

-- `^[f]{m,m+extra}$` accepts the texts of the class whose length is in the range.
pub repeated-ends :
    (m extra : ℕ) (f : ℕ → Bool) (s : Text)
    → repeated m extra f s is_empty ≡ (all f s && leb m (length s) && leb (length s) (m + extra))
unfolding repeated
repeated-ends zero zero f [] = refl
repeated-ends zero zero f (c ∷ s) = ground arith
repeated-ends zero (suc n) f [] = ground arith
repeated-ends zero (suc n) f (c ∷ s) = ground (arith, repeated-ends zero n f s)
repeated-ends (suc m) n f [] = ground arith
repeated-ends (suc m) n f (c ∷ s) = ground (arith, repeated-ends m n f s)

-- The pattern of MFA keys accepts exactly 16 to 32 base32 letters.
pub matches-base32 :
    (s : Text) → matches base32_re s ≡ (all is_base32 s && leb 16 (length s) && leb (length s) 32)
unfolding matches base32_re match_then
matches-base32 s = repeated-ends 16 16 is_base32 s

-- The preset-name pattern accepts exactly 1 to 64 of the allowed bytes.
pub matches-name :
    (s : Text) → matches name_re s ≡ (all is_name_byte s && leb 1 (length s) && leb (length s) 64)
unfolding matches name_re match_then
matches-name s = repeated-ends 1 63 is_name_byte s
