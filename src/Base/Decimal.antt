-- ===== src/Base/Decimal.antt =====
-- Decimal print and parse of Go's strconv and fmt, on numbers and signed integers.
use Prim.Native.Nat.{ℕ, zero, suc, ◌+◌, ◌-◌, ◌*◌, ◌/◌, ◌%◌, ◌^◌, ◌≤◌, ◌<◌}
use mathlib.Core.Path.{◌≡◌, refl, ◌∙◌}
use mathlib.Core.Logic.{inl, inr}
use mathlib.Core.Bool.{Bool, true, false, ◌&&◌}
use mathlib.Core.Option.{Option, none, some}
use mathlib.Core.List.{[], ◌∷◌}
use native.Mathlib.Omega.{arith}
use autodeploy_web.Base.Tests.{ltb, leb, ◌==◌, if◌then◌else◌, Bool-cases}
use autodeploy_web.Base.Lists.{All}
use autodeploy_web.Base.Bytes.{Text, is_empty}
use autodeploy_web.Base.Int.{ℤ, pos, negsuc}

-- A number has fewer digits than the fuel `n + 1`.
emit_digits : ℕ → ℕ → Text → Text
emit_digits zero n out = out
emit_digits (suc f) n out =
    let rest = emit_digits f (n / 10) ((b'0' + n % 10) ∷ out) in
    if ltb n 10 then (b'0' + n) ∷ out else rest

unfoldable pub format_nat : ℕ → Text
unfolding emit_digits
format_nat n = emit_digits (suc n) n []

unfoldable pub format_int : ℤ → Text
format_int (pos n) = format_nat n
format_int (negsuc n) = b'-' ∷ format_nat (suc n)

unfoldable pub parse_digits : ℕ → Text → Option ℕ
parse_digits acc [] = some acc
parse_digits acc (c ∷ s) =
    let rest = parse_digits (acc * 10 + (c - b'0')) s in
    if leb b'0' c && leb c b'9' then rest else none

unfoldable pub parse_nat : Text → Option ℕ
unfolding parse_digits
parse_nat [] = none
parse_nat (c ∷ s) = parse_digits 0 (c ∷ s)

negated : ℕ → ℤ
negated zero = pos 0
negated (suc n) = negsuc n

-- The int64 range.
in_range : Bool → ℕ → Option ℤ
unfolding negated
in_range neg n =
    if neg
    then (if leb n (2 ^ 63) then some (negated n) else none)
    else (if ltb n (2 ^ 63) then some (pos n) else none)

signed : Bool → Option ℕ → Option ℤ
unfolding in_range
signed neg none = none
signed neg (some n) = in_range neg n

-- `strconv.ParseInt(s, 10, 64)`.
unfoldable pub parse_int : Text → Option ℤ
unfolding signed parse_nat
parse_int [] = none
parse_int (c ∷ s) =
    if c == b'-'
    then signed true (parse_nat s)
    else if c == b'+'
    then signed false (parse_nat s)
    else signed false (parse_nat (c ∷ s))

parse-emit_digits :
    (f n : ℕ) (out : Text) → n < f → parse_digits 0 (emit_digits f n out) ≡ parse_digits n out
unfolding emit_digits parse_digits
parse-emit_digits zero n out h = absurd (omega arith)
parse-emit_digits (suc f) n out h = elim (Bool-cases (ltb n 10)) [
  | inl small ↦ rw small (ground arith)
  | inr more ↦
      rw more (parse-emit_digits f (n / 10) ((b'0' + n % 10) ∷ out) (ground arith) ∙ ground arith)
]

abbrev IsDigit : ℕ → Type 0
IsDigit c = (b'0' ≤ c) × (c ≤ b'9')

All-emit_digits :
    (f n : ℕ) (out : Text) → n < f → All IsDigit out → All IsDigit (emit_digits f n out)
unfolding emit_digits
All-emit_digits zero n out h a = absurd (omega arith)
All-emit_digits (suc f) n out h a = elim (Bool-cases (ltb n 10)) [
  | inl small ↦ rw small ((omega arith, ground arith), a)
  | inr more ↦ rw more (
      All-emit_digits f (n / 10) ((b'0' + n % 10) ∷ out) (ground arith)
        ((omega arith, omega arith), a))
]

emit_digits-cons : (f n : ℕ) (out : Text) → n < f → is_empty (emit_digits f n out) ≡ false
unfolding emit_digits
emit_digits-cons zero n out h = absurd (omega arith)
emit_digits-cons (suc f) n out h = elim (Bool-cases (ltb n 10)) [
  | inl small ↦ rw small
  | inr more ↦ rw more (emit_digits-cons f (n / 10) ((b'0' + n % 10) ∷ out) (ground arith))
]

-- The digits of a number: never empty, and only digits.
pub format_nat-digits : (n : ℕ) → (is_empty (format_nat n) ≡ false) × All IsDigit (format_nat n)
unfolding format_nat
format_nat-digits n =
    (emit_digits-cons (suc n) n [] (omega arith), All-emit_digits (suc n) n [] (omega arith) tt)

parse_nat-cons : (s : Text) → is_empty s ≡ false → parse_nat s ≡ parse_digits 0 s
unfolding parse_nat
parse_nat-cons [] h = absurd (ground arith)
parse_nat-cons (c ∷ s) h = refl

pub parse_nat-format : (n : ℕ) → parse_nat (format_nat n) ≡ some n
parse_nat-format n = parse_nat-cons (format_nat n) (format_nat-digits n).0 ∙ read n
  where
    read : (m : ℕ) → parse_digits 0 (format_nat m) ≡ some m
    read m = unfold format_nat parse_digits in parse-emit_digits (suc m) m [] (omega arith)

parse_int-digits :
    (s : Text) → is_empty s ≡ false → All IsDigit s → parse_int s ≡ signed false (parse_nat s)
unfolding parse_int
parse_int-digits [] h a = absurd (ground arith)
parse_int-digits (c ∷ s) h a = ground arith

-- An int64 is read back from its decimal print.
pub parse_int-format_nat : (n : ℕ) → n < 2 ^ 63 → parse_int (format_nat n) ≡ some (pos n)
parse_int-format_nat n h =
    let (nonempty, digits) = format_nat-digits n in
    parse_int-digits (format_nat n) nonempty digits ∙ rw (parse_nat-format n) (fits n h)
  where
    fits : (m : ℕ) → m < 2 ^ 63 → signed false (some m) ≡ some (pos m)
    fits m lt = unfold signed in ground arith

pub parse_int-format_neg :
    (n : ℕ) → n < 2 ^ 63 → parse_int (format_int (negsuc n)) ≡ some (negsuc n)
unfolding parse_int format_int
parse_int-format_neg n h = rw (parse_nat-format (suc n)) (ground arith)
