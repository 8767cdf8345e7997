-- ===== src/Base/Registry/Lookup.antt =====
-- Reading a registry after a write, and that writes keep its ids distinct.
use mathlib.Core.Path.{◌≡◌, refl}
use mathlib.Core.Logic.{inl, inr}
use mathlib.Core.Bool.{Bool, true, false}
use mathlib.Core.Option.{none, some}
use mathlib.Core.List.{List, [], ◌∷◌}
use native.Mathlib.Omega.{arith}
use autodeploy_web.Base.Tests.{Bool-cases}
use autodeploy_web.Base.Lists.{All, keep_if}
use autodeploy_web.Base.Bytes.{Text, text_eq, text_eq_iff, text_eq_self}
use autodeploy_web.Base.Registry.{lookup, put, remove, remove_each, Distinct, excess, prune}

module _ {ℓ} {A : Type ℓ} (ident : A → Text) where
  pub lookup-put_self : (a : A) (xs : List A) → lookup ident (ident a) (put ident a xs) ≡ some a
  unfolding lookup put
  lookup-put_self a [] = rw (text_eq_self (ident a))
  lookup-put_self a (x ∷ xs) = ground (arith, text_eq_self (ident a), lookup-put_self a xs)

  pub lookup-put_other :
      (k : Text) (a : A) (xs : List A)
      → text_eq (ident a) k ≡ false
      → lookup ident k (put ident a xs) ≡ lookup ident k xs
  unfolding lookup put
  lookup-put_other k a [] h = ground arith
  lookup-put_other k a (x ∷ xs) h = ground (
    arith,
    text_eq_iff (ident x) (ident a),
    text_eq_iff (ident x) k,
    text_eq_iff (ident a) k,
    lookup-put_other k a xs h,
  )

  pub lookup-ident :
      (k : Text) (a : A) (xs : List A) → lookup ident k xs ≡ some a → text_eq (ident a) k ≡ true
  unfolding lookup
  lookup-ident k a [] h = cc
  lookup-ident k a (x ∷ xs) h = ground (arith, lookup-ident k a xs)

  pub lookup-remove_self : (k : Text) (xs : List A) → lookup ident k (remove ident k xs) ≡ none
  unfolding lookup remove
  lookup-remove_self k [] = refl
  lookup-remove_self k (x ∷ xs) = ground (arith, lookup-remove_self k xs)

  pub lookup-remove_other :
      (k j : Text) (xs : List A)
      → text_eq j k ≡ false
      → lookup ident k (remove ident j xs) ≡ lookup ident k xs
  unfolding lookup remove
  lookup-remove_other k j [] h = refl
  lookup-remove_other k j (x ∷ xs) h = ground (
    arith,
    text_eq_iff (ident x) j,
    text_eq_iff (ident x) k,
    text_eq_iff j k,
    lookup-remove_other k j xs h,
  )

  All-keep {κ} : (P : A → Type κ) (p : A → Bool) (xs : List A) → All P xs → All P (keep_if p xs)
  All-keep P p [] h = tt
  All-keep P p (x ∷ xs) h = ground (arith, All-keep P p xs h.1)

  pub Distinct-keep_if :
      (p : A → Bool) (xs : List A) → Distinct ident xs → Distinct ident (keep_if p xs)
  Distinct-keep_if p [] d = tt
  Distinct-keep_if p (x ∷ xs) d = elim (Bool-cases (p x)) [
    | inl h ↦
        rw h
          (All-keep (λ y. text_eq (ident x) (ident y) ≡ false) p xs d.0, Distinct-keep_if p xs d.1)
    | inr h ↦ rw h (Distinct-keep_if p xs d.1)
  ]

  pub Distinct-remove :
      (k : Text) (xs : List A) → Distinct ident xs → Distinct ident (remove ident k xs)
  unfolding remove
  Distinct-remove k xs d = Distinct-keep_if _ xs d

  pub Distinct-remove_each :
      (ds xs : List A) → Distinct ident xs → Distinct ident (remove_each ident ds xs)
  unfolding remove_each
  Distinct-remove_each [] xs d = d
  Distinct-remove_each (a ∷ ds) xs d =
      Distinct-remove_each ds (remove ident (ident a) xs) (Distinct-remove (ident a) xs d)

  pub Distinct-prune :
      (finished : A → Bool) (key : A → Prim.Native.Nat.ℕ) (cap : Prim.Native.Nat.ℕ) (xs : List A)
      → Distinct ident xs
      → Distinct ident (prune ident finished key cap xs)
  unfolding prune
  Distinct-prune finished key cap xs d = Distinct-remove_each (excess finished key cap xs) xs d

  All-put :
      (k : Text) (a : A) (xs : List A)
      → text_eq k (ident a) ≡ false
      → All (λ y. text_eq k (ident y) ≡ false) xs
      → All (λ y. text_eq k (ident y) ≡ false) (put ident a xs)
  unfolding put
  All-put k a [] h hs = (h, tt)
  All-put k a (x ∷ xs) h hs = ground (arith, All-put k a xs h hs.1)

  pub Distinct-put : (a : A) (xs : List A) → Distinct ident xs → Distinct ident (put ident a xs)
  unfolding put
  Distinct-put a [] d = (tt, tt)
  Distinct-put a (x ∷ xs) d = elim (Bool-cases (text_eq (ident x) (ident a))) [
    | inl h ↦ rw (h, ← (text_eq_iff (ident x) (ident a)).0 h) d
    | inr h ↦ rw h (All-put (ident x) a xs h d.0, Distinct-put a xs d.1)
  ]
