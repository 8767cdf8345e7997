-- ===== src/Config/Address/Dotted.antt =====
-- A dotted quad is read back: four octets printed in decimal.
use autodeploy_web.Base.{
  ℕ, ◌+◌, ◌*◌, ◌/◌, ◌%◌, ◌<◌, ◌≡◌, ◌∙◌, inl, inr, Bool-cases, ap, ◌-◌, ◌&&◌, ◌==◌, refl, Bool, true,
  false, List, [], ◌∷◌, ◌++◌, some, Text, arith, ltb, if◌then◌else◌,
}
use autodeploy_web.Config.Patterns.{is_digit}
use autodeploy_web.Config.Address.{fields_loop, ipv4_fields, parse_by, parse_ip, mapped}

-- The decimal digits of an octet.
abbrev pub octet : ℕ → Text
octet n =
    if ltb n 10
    then (b'0' + n) ∷ []
    else if ltb n 100
    then (b'0' + n / 10) ∷ (b'0' + n % 10) ∷ []
    else (b'0' + n / 100) ∷ (b'0' + n / 10 % 10) ∷ (b'0' + n % 10) ∷ []

digit_step :
    (at_start : Bool) (val dig_len pos d : ℕ) (fs : List ℕ) (s : Text)
    → d < 10
    → (dig_len == 1 && val == 0) ≡ false
    → val * 10 + d < 256
    → fields_loop at_start val dig_len pos fs ((b'0' + d) ∷ s)
      ≡ fields_loop false (val * 10 + d) (dig_len + 1) pos fs s
digit_step at_start val dig_len pos d fs s h k fits =
    digit_lem (b'0' + d) (digit_of d h) (rw (minus d) (below (val * 10 + d) fits))
    ∙ ap (λ (e : ℕ). fields_loop false (val * 10 + e) (dig_len + 1) pos fs s) (minus d)
  where
    digit_of : (e : ℕ) → e < 10 → is_digit (b'0' + e) ≡ true
    digit_of e lt = unfold is_digit in ground arith

    minus : (e : ℕ) → b'0' + e - b'0' ≡ e
    minus e = omega arith

    below : (v : ℕ) → v < 256 → ltb 255 v ≡ false
    below v lt = ground arith

    digit_lem :
        (c : ℕ)
        → is_digit c ≡ true
        → ltb 255 (val * 10 + (c - b'0')) ≡ false
        → fields_loop at_start val dig_len pos fs (c ∷ s)
          ≡ fields_loop false (val * 10 + (c - b'0')) (dig_len + 1) pos fs s
    digit_lem c dig small = unfold fields_loop in rw (dig, k, small) refl

abbrev digits_of : ℕ → ℕ
digits_of n = if ltb n 10 then 1 else if ltb n 100 then 2 else 3

module _ (at_start : Bool) (pos : ℕ) (fs : List ℕ) (s : Text) where
  one_digit :
      (n : ℕ)
      → n < 10
      → fields_loop at_start 0 0 pos fs ((b'0' + n) ∷ s) ≡ fields_loop false n 1 pos fs s
  one_digit n h =
      digit_step at_start 0 0 pos n fs s h refl (omega arith)
      ∙ ap (λ (e : ℕ). fields_loop false e 1 pos fs s) {x = 0 * 10 + n} (omega arith)

  two_digits :
      (a b : ℕ)
      → 0 < a
      → a < 10
      → b < 10
      → fields_loop at_start 0 0 pos fs ((b'0' + a) ∷ (b'0' + b) ∷ s)
        ≡ fields_loop false (a * 10 + b) 2 pos fs s
  two_digits a b pos_a ha hb =
      digit_step at_start 0 0 pos a fs ((b'0' + b) ∷ s) ha refl (omega arith)
      ∙ ap (λ (e : ℕ). fields_loop false e 1 pos fs ((b'0' + b) ∷ s)) {x = 0 * 10 + a} (omega arith)
      ∙ digit_step false a 1 pos b fs s hb (ground arith) (omega arith)

module _ (at_start : Bool) (pos : ℕ) (fs : List ℕ) (s : Text) where
  three_digits :
      (a b c : ℕ)
      → 0 < a
      → a < 10
      → b < 10
      → c < 10
      → a * 100 + b * 10 + c < 256
      → fields_loop at_start 0 0 pos fs ((b'0' + a) ∷ (b'0' + b) ∷ (b'0' + c) ∷ s)
        ≡ fields_loop false (a * 100 + b * 10 + c) 3 pos fs s
  three_digits a b c pos_a ha hb hc fits =
      two_digits at_start pos fs ((b'0' + c) ∷ s) a b pos_a ha hb
      ∙ digit_step false (a * 10 + b) 2 pos c fs s hc refl (omega arith)
      ∙ ap (λ (e : ℕ). fields_loop false e 3 pos fs s) {x = (a * 10 + b) * 10 + c} (omega arith)

  octet_loop :
      (n : ℕ)
      → n < 256
      → fields_loop at_start 0 0 pos fs (octet n ++ s) ≡ fields_loop false n (digits_of n) pos fs s
  octet_loop n h = elim (Bool-cases (ltb n 10)) [
    | inl small ↦ rw small (one_digit at_start pos fs s n (ground arith))
    | inr e ↦ elim (Bool-cases (ltb n 100)) [
      | inl middle ↦
          rw (e, middle)
            (two_digits at_start pos fs s (n / 10) (n % 10) (ground arith) (ground arith)
                (omega arith)
              ∙ ap (λ (v : ℕ). fields_loop false v 2 pos fs s) {x = n / 10 * 10 + n % 10}
                  (omega arith))
      | inr large ↦
          rw (e, large)
            (three_digits (n / 100) (n / 10 % 10) (n % 10) (ground arith) (omega arith)
                (omega arith) (omega arith) (omega arith)
              ∙ ap (λ (v : ℕ). fields_loop false v 3 pos fs s)
                  {x = n / 100 * 100 + n / 10 % 10 * 10 + n % 10} (omega arith))
    ]
  ]

dot_step :
    (v k pos : ℕ) (fs : List ℕ) (c : ℕ) (s : Text)
    → pos < 3
    → fields_loop false v k pos fs (b'.' ∷ c ∷ s)
      ≡ fields_loop true 0 0 (pos + 1) (fs ++ v ∷ []) (c ∷ s)
dot_step v k pos fs c s h = dot_lem (below pos h)
  where
    below : (p : ℕ) → p < 3 → (p == 3) ≡ false
    below p lt = ground arith

    dot_lem :
        (pos == 3) ≡ false
        → fields_loop false v k pos fs (b'.' ∷ c ∷ s)
          ≡ fields_loop true 0 0 (pos + 1) (fs ++ v ∷ []) (c ∷ s)
    dot_lem e = unfold fields_loop in rw e refl

octet_cons : (n : ℕ) (s : Text) → (c : ℕ) × (t : Text) × (octet n ++ s ≡ c ∷ t)
octet_cons n s = elim (Bool-cases (ltb n 10)) [
  | inl a ↦ (b'0' + n, s, rw a)
  | inr a ↦ elim (Bool-cases (ltb n 100)) [
    | inl b ↦ (b'0' + n / 10, (b'0' + n % 10) ∷ s, rw (a, b))
    | inr b ↦ (b'0' + n / 100, (b'0' + n / 10 % 10) ∷ (b'0' + n % 10) ∷ s, rw (a, b))
  ]
]

-- An octet and the dot behind it, with another octet to follow.
octet_dot :
    (n m pos : ℕ) (fs : List ℕ) (s : Text)
    → n < 256
    → pos < 3
    → fields_loop true 0 0 pos fs (octet n ++ b'.' ∷ (octet m ++ s))
      ≡ fields_loop true 0 0 (pos + 1) (fs ++ n ∷ []) (octet m ++ s)
octet_dot n m pos fs s h k =
    let (c, t, e) = octet_cons m s in
    octet_loop true pos fs (b'.' ∷ (octet m ++ s)) n h
    ∙ rw e (dot_step n (digits_of n) pos fs c t k)

abbrev pub dotted : ℕ → ℕ → ℕ → ℕ → Text
dotted a b c d = octet a ++ b'.' ∷ (octet b ++ b'.' ∷ (octet c ++ b'.' ∷ (octet d ++ [])))

module _ (a b c d : ℕ) (ha : a < 256) (hb : b < 256) (hc : c < 256) (hd : d < 256) where
  ipv4_fields-dotted : ipv4_fields (dotted a b c d) ≡ some (a ∷ b ∷ c ∷ d ∷ [])
  unfolding ipv4_fields
  ipv4_fields-dotted =
      octet_dot a b 0 [] (b'.' ∷ (octet c ++ b'.' ∷ (octet d ++ []))) ha (omega arith)
      ∙ octet_dot b c 1 (a ∷ []) (b'.' ∷ (octet d ++ [])) hb (omega arith)
      ∙ octet_dot c d 2 (a ∷ b ∷ []) [] hc (omega arith)
      ∙ octet_loop true 3 (a ∷ b ∷ c ∷ []) [] d hd

  by_digit : (s t : Text) (e : ℕ) → e < 10 → parse_by s ((b'0' + e) ∷ t) ≡ parse_by s t
  by_digit s t e h = by_lem (b'0' + e) (ground arith) (ground arith) (ground arith)
    where
      by_lem :
          (k : ℕ)
          → (k == b'.') ≡ false
          → (k == b':') ≡ false
          → (k == b'%') ≡ false
          → parse_by s (k ∷ t) ≡ parse_by s t
      by_lem k p q r = unfold parse_by in rw (p, q, r) refl

  by_octet : (s t : Text) (n : ℕ) → n < 256 → parse_by s (octet n ++ t) ≡ parse_by s t
  by_octet s t n h = elim (Bool-cases (ltb n 10)) [
    | inl small ↦ rw small (by_digit s t n (ground arith))
    | inr e ↦ elim (Bool-cases (ltb n 100)) [
      | inl middle ↦
          rw (e, middle)
            (by_digit s _ (n / 10) (ground arith) ∙ by_digit s t (n % 10) (omega arith))
      | inr large ↦
          rw (e, large)
            (by_digit s _ (n / 100) (omega arith)
              ∙ by_digit s _ (n / 10 % 10) (omega arith)
              ∙ by_digit s t (n % 10) (omega arith))
    ]
  ]

  by_dot :
      (s t : Text) (f : List ℕ) → ipv4_fields s ≡ some f → parse_by s (b'.' ∷ t) ≡ some (mapped f)
  unfolding parse_by
  by_dot s t f e = rw e

  -- Every IPv4 address in dotted decimal is read as its four bytes, in the 16-byte form.
  pub parse_ip-dotted : parse_ip (dotted a b c d) ≡ some (mapped (a ∷ b ∷ c ∷ d ∷ []))
  unfolding parse_ip
  parse_ip-dotted =
      by_octet (dotted a b c d) (b'.' ∷ rest) a ha
      ∙ by_dot (dotted a b c d) rest _ ipv4_fields-dotted
    where
      rest : Text
      rest = octet b ++ b'.' ∷ (octet c ++ b'.' ∷ (octet d ++ []))
