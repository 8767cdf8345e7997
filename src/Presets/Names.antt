-- ===== src/Presets/Names.antt =====
-- The names of presets, and the files that they stand for.
use autodeploy_web.Base.{
  ℕ, ◌≤◌, Bool, true, false, [], ◌∷◌, ◌++◌, some, Text, text, ◌==◌, all, any, length, ◌≡◌, refl,
  arith, Bool-cases, inl, inr,
}
use autodeploy_web.Config.Regex.{matches}
use autodeploy_web.Config.Patterns.{name_re, is_name_byte, is_alnum}
use autodeploy_web.Config.Patterns.Counted.{matches-name}
use autodeploy_web.Presets.{path}

abbrev has_slash : Text → Bool
has_slash s = any (λ c. c == 47) s

name_byte-slash : (c : ℕ) → is_name_byte c ≡ true → (c == 47) ≡ false
unfolding is_name_byte is_alnum
name_byte-slash c h = ground (arith, h)

name-slash :
    (s t : Text) → all is_name_byte s ≡ true → has_slash t ≡ false → has_slash (s ++ t) ≡ false
name-slash [] t h k = k
name-slash (c ∷ s) t h k = ground (arith, h, name_byte-slash c, name-slash s t)

-- A name that a store takes has 1 to 64 bytes, and its file has no directory in its name.
pub path-inside :
    (name p : Text)
    → path name ≡ some p
    → (p ≡ name ++ text ".json")
      × (1 ≤ length name)
      × (length name ≤ 64)
      × (any (λ c. c == 47) p ≡ false)
unfolding path
path-inside name p h = elim (Bool-cases (matches name_re name)) [
  | inr bad ↦ absurd (ground (arith, h, bad))
  | inl good ↦
      let e : p ≡ name ++ text ".json" = ground (arith, h, good) in
      let (bytes, least, most) = allowed good in
      (e, least, most, rw e (name-slash name (text ".json") bytes json-slash))
]
  where
    allowed :
        matches name_re name ≡ true
        → (all is_name_byte name ≡ true) × (1 ≤ length name) × (length name ≤ 64)
    allowed good = ground (arith, good, matches-name name)

    json-slash : has_slash (text ".json") ≡ false
    json-slash = unfold text in refl
