-- ===== src/Config/Address/Fuel.antt =====
-- The bounds on the loops of internal/config/validate.go's parsers (in net) are enough: another
-- one changes no result.
use autodeploy_web.Base.{
  ℕ, zero, suc, ◌+◌, ◌*◌, ◌/◌, ◌%◌, ◌≤◌, ◌<◌, Bool, true, false, ◌≡◌, refl, ap, [], ◌∷◌, ◌++◌,
  Option, none, some, Text, ◌==◌, ltb, leb, Bool-cases, ◌⊎◌, inl, inr, arith, if◌then◌else◌,
}
use autodeploy_web.Config.Address.{V6, hex_field, after_field, v6_loop, starts_with_byte, lead_ones}

after_field-count : (v w : V6) (m : Bool) → after_field v ≡ some (m, w) → w.count ≡ v.count
unfolding after_field
after_field-count v w m h = by_rest v.rest refl
  where
    by_rest : (s : Text) → v.rest ≡ s → w.count ≡ v.count
    by_rest [] e = ground (arith, h, e)
    by_rest (c ∷ s) e = ground (arith, h, e)

v6_loop-full : (k : ℕ) (v : V6) → 16 ≤ v.count → v6_loop k v ≡ some v
unfolding v6_loop
v6_loop-full zero v h = refl
v6_loop-full (suc k) v h = ground arith

-- The loop that reads an IPv6 address has ended when its rounds, of two bytes each, fill 16 bytes.
v6_loop_enough :
    (k fuel : ℕ) (v : V6) → fuel ≤ k → 16 ≤ v.count + 2 * fuel → v6_loop k v ≡ v6_loop fuel v
unfolding v6_loop
v6_loop_enough k zero v l h = v6_loop-full k v (omega arith)
v6_loop_enough zero (suc fuel) v l h = absurd (omega arith)
v6_loop_enough (suc k) (suc fuel) v l h =
    by_field (λ w m. v6_loop_enough k fuel w (omega arith) m) (hex_field 0 0 v.rest) refl
      (Bool-cases (ltb v.count 16))
  where
    Again : Type 0
    Again = (w : V6) → 16 ≤ w.count + 2 * fuel → v6_loop k w ≡ v6_loop fuel w

    Goal : Type 0
    Goal = v6_loop (suc k) v ≡ v6_loop (suc fuel) v

    read : ℕ → Text → V6
    read acc s = record v {
      bytes = v.bytes ++ acc / 256 ∷ acc % 256 ∷ [];
      count = v.count + 2;
      rest = s;
    }

    by_colon :
        Again
        → (acc off : ℕ) (s : Text) → hex_field 0 0 v.rest ≡ some (acc, off, s)
        → ltb v.count 16 ≡ true
        → (off == 0) ≡ false
        → starts_with_byte b'.' s ≡ false
        → (o : Option (Bool × V6)) → after_field (read acc s) ≡ o
        → Goal
    by_colon again acc off s e f g d none a = rw (v6_loop, f, e, g, d, a) refl
    by_colon again acc off s e f g d (some (false, w)) a = rw (v6_loop, f, e, g, d, a) refl
    by_colon again acc off s e f g d (some (true, w)) a =
        let c = after_field-count (read acc s) w true a in
        rw (v6_loop, f, e, g, d, a) (again w (omega (arith, c, h)))

    by_rest :
        Again
        → (acc off : ℕ) (s : Text) → hex_field 0 0 v.rest ≡ some (acc, off, s)
        → ltb v.count 16 ≡ true
        → ((off == 0) ≡ true) ⊎ ((off == 0) ≡ false)
        → (starts_with_byte b'.' s ≡ true) ⊎ (starts_with_byte b'.' s ≡ false)
        → Goal
    by_rest again acc off s e f (inl g) d = rw (v6_loop, f, e, g) refl
    by_rest again acc off s e f (inr g) (inl d) = rw (v6_loop, f, e, g, d) refl
    by_rest again acc off s e f (inr g) (inr d) =
        by_colon again acc off s e f g d (after_field (read acc s)) refl

    by_field :
        Again
        → (o : Option (ℕ × ℕ × Text)) → hex_field 0 0 v.rest ≡ o
        → (ltb v.count 16 ≡ true) ⊎ (ltb v.count 16 ≡ false)
        → Goal
    by_field again o e (inr f) = rw (v6_loop, f) refl
    by_field again none e (inl f) = rw (v6_loop, f, e) refl
    by_field again (some (acc, off, s)) e (inl f) =
        by_rest again acc off s e f (Bool-cases (off == 0)) (Bool-cases (starts_with_byte b'.' s))

-- A byte that the rounds shift out.
ShiftedOut : ℕ → ℕ → Type 0
ShiftedOut zero v = v ≡ 0
ShiftedOut (suc fuel) v = ShiftedOut fuel (v * 2 % 256)

lead_ones-zero : (k n : ℕ) → lead_ones k 0 n ≡ (n, 0)
unfolding lead_ones
lead_ones-zero zero n = refl
lead_ones-zero (suc k) n = refl

lead_ones-ShiftedOut :
    (k fuel v n : ℕ) → fuel ≤ k → ShiftedOut fuel v → lead_ones k v n ≡ lead_ones fuel v n
unfolding lead_ones ShiftedOut
lead_ones-ShiftedOut k zero v n l e = rw e (lead_ones-zero k n)
lead_ones-ShiftedOut zero (suc fuel) v n l e = absurd (omega arith)
lead_ones-ShiftedOut (suc k) (suc fuel) v n l e =
    ap (λ r. if leb 128 v then r else (n, v))
      (lead_ones-ShiftedOut k fuel (v * 2 % 256) (n + 1) (omega arith) e)

-- The loop over the leading ones of a byte has ended after eight rounds: more change nothing.
pub lead_ones_enough : (k v n : ℕ) → 8 ≤ k → v < 256 → lead_ones k v n ≡ lead_ones 8 v n
unfolding ShiftedOut
lead_ones_enough k v n l h = lead_ones-ShiftedOut k 8 v n l (omega arith)
