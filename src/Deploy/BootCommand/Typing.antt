-- ===== src/Deploy/BootCommand/Typing.antt =====
-- What the keys of a boot command type on a US keyboard (`KeysForText` of internal/deploy/bootcmd.go).
use mathlib.Core.Path.{subst}
use mathlib.Core.List.{map-append}
use autodeploy_web.Base.{
  &&_iff, ==_iff, ℕ, zero, suc, ◌-◌, ◌<◌, ◌≡◌, refl, ap, ◌∙◌, sym, Bool, true, false, not, List, [],
  ◌∷◌, ◌++◌, map, Option, none, some, Text, text, text_eq, leb, ◌==◌, if◌then◌else◌, ◌&&◌, ◌||◌,
  All, any, keep_if, arith, Bool-cases, inl, inr,
}
use autodeploy_web.Deploy.BootCommand.{key_name, key_of, keys_for_text}

-- The keys that are named by a word, with the character that each types.
named_keys : List (Text × ℕ)
named_keys =
    (text "spc", 32)
    ∷ (text "slash", 47)
    ∷ (text "dot", 46)
    ∷ (text "comma", 44)
    ∷ (text "semicolon", 59)
    ∷ (text "shift-semicolon", 58)
    ∷ (text "equal", 61)
    ∷ (text "minus", 45)
    ∷ (text "shift-minus", 95)
    ∷ (text "shift-equal", 43)
    ∷ (text "shift-slash", 63)
    ∷ (text "shift-7", 38)
    ∷ (text "shift-5", 37)
    ∷ (text "shift-3", 35)
    ∷ (text "shift-9", 40)
    ∷ (text "shift-0", 41)
    ∷ (text "shift-grave_accent", 126)
    ∷ (text "apostrophe", 39)
    ∷ (text "shift-apostrophe", 34)
    ∷ []

named_char : Text → List (Text × ℕ) → Option ℕ
named_char k [] = none
named_char k ((n, c) ∷ rest) = if text_eq n k then some c else named_char k rest

-- A key of one character types it, with shift its capital if it is a letter.
char_key : Text → Option ℕ
char_key (c ∷ []) = some c
char_key (a ∷ b ∷ d ∷ e ∷ f ∷ g ∷ c ∷ []) =
    if text_eq (a ∷ b ∷ d ∷ e ∷ f ∷ g ∷ []) (text "shift-") && (leb 97 c && leb c 122)
    then some (c - 32)
    else none
char_key _ = none

unfoldable pub types : Text → Option ℕ
unfolding char_key named_char named_keys
types k = elim (char_key k) [ some c ↦ some c | none ↦ named_char k named_keys ]

-- Letters, digits, and the characters of the named keys.
unfoldable pub typable : ℕ → Bool
unfolding named_keys
typable c =
    (leb 48 c && leb c 57)
    || (leb 65 c && leb c 90)
    || (leb 97 c && leb c 122)
    || any (λ (p : Text × ℕ). p.1 == c) named_keys

abbrev same_char : ℕ → Option ℕ → Bool
same_char c none = false
same_char c (some d) = d == c

typed_right : ℕ → List Text → Bool
typed_right c [] = not (typable c)
typed_right c (k ∷ []) = typable c && same_char c (types k)
typed_right c (k ∷ l ∷ ks) = false

check_below : ℕ → Bool
unfolding typed_right
check_below zero = true
check_below (suc n) = typed_right n (key_of n) && check_below n

check_below-at : (n c : ℕ) → check_below n ≡ true → c < n → typed_right c (key_of c) ≡ true
unfolding check_below
check_below-at zero c h l = absurd (omega arith)
check_below-at (suc n) c h l =
    let (here, below) = (&&_iff (typed_right n (key_of n)) (check_below n)).0 h in
    elim (Bool-cases (c == n)) [
      | inl e ↦ subst (λ d. typed_right d (key_of d) ≡ true) (sym ((==_iff c n).0 e)) here
      | inr e ↦ check_below-at n c below (ground arith)
    ]

ascii_checked : check_below 128 ≡ true
unfolding check_below typed_right key_of key_name text text_eq types char_key named_char named_keys
    typable
ascii_checked = refl

typed_right-types :
    (c : ℕ) (ks : List Text)
    → typed_right c ks ≡ true
    → map types ks ≡ (if typable c then some c ∷ [] else [])
unfolding typed_right
typed_right-types c [] h = ground arith
typed_right-types c (k ∷ []) h =
    by_type (types k) ((&&_iff (typable c) (same_char c (types k))).0 h)
  where
    by_type :
        (o : Option ℕ)
        → (typable c ≡ true) × (same_char c o ≡ true)
        → o ∷ [] ≡ (if typable c then some c ∷ [] else [])
    by_type none q = cc
    by_type (some d) q = ground arith
typed_right-types c (k ∷ l ∷ ks) h = cc

key_of-types : (c : ℕ) → c < 128 → map types (key_of c) ≡ (if typable c then some c ∷ [] else [])
key_of-types c l = typed_right-types c (key_of c) (check_below-at 128 c ascii_checked l)

-- The keys for an ASCII text, on a US keyboard, type exactly its characters that the keyboard
-- model has, in order.
pub keys_for_text-types :
    (s : Text) → All (λ c. c < 128) s → map types (keys_for_text s) ≡ map some (keep_if typable s)
unfolding keys_for_text
keys_for_text-types [] h = refl
keys_for_text-types (c ∷ s) h =
    map-append types (key_of c) (keys_for_text s)
    ∙ ap (λ (ks : List (Option ℕ)). ks ++ map types (keys_for_text s)) (key_of-types c h.0)
    ∙ ap (λ (ks : List (Option ℕ)). (if typable c then some c ∷ [] else []) ++ ks)
        (keys_for_text-types s h.1)
    ∙ kept (typable c)
  where
    kept :
        (b : Bool)
        → (if b then some c ∷ [] else []) ++ map some (keep_if typable s)
          ≡ map some (if b then c ∷ keep_if typable s else keep_if typable s)
    kept true = refl
    kept false = refl
