-- ===== src/Base/Registry/Sorted.antt =====
-- Lookups in a list that is sorted by a key.
use mathlib.Core.Bool.{true, false}
use autodeploy_web.Base.Tests.{leb, if◌then◌else◌, Bool-cases}
use autodeploy_web.Base.Bytes.{Text, text_eq, text_eq_iff}
use Prim.Native.Nat.{ℕ}
use mathlib.Core.Path.{◌≡◌, refl, sym, ap, ◌∙◌}
use mathlib.Core.Logic.{◌⊎◌, inl, inr}
use mathlib.Core.Option.{none, some}
use mathlib.Core.List.{List, [], ◌∷◌}
use native.Mathlib.Omega.{arith}
use autodeploy_web.Base.Lists.{All}
use autodeploy_web.Base.Sort.{insert_by, sort_by}
use autodeploy_web.Base.Registry.{lookup, Distinct}

module _ {A : Type 0} (ident : A → Text) where
  -- Nothing after the first entry with the id has it.
  abbrev pub Once : Text → List A → Type 0
  Once id [] = Unit
  Once id (x ∷ xs) = (text_eq (ident x) id ≡ true → lookup ident id xs ≡ none) × Once id xs

  lookup-All :
      (x : A) (id : Text) (xs : List A)
      → All (λ y. text_eq (ident x) (ident y) ≡ false) xs
      → text_eq (ident x) id ≡ true
      → lookup ident id xs ≡ none
  unfolding lookup
  lookup-All x id [] a e = refl
  lookup-All x id (y ∷ ys) a e = elim (Bool-cases (text_eq (ident y) id)) [
    | inl h ↦
        let same = (text_eq_iff (ident x) id).0 e ∙ sym ((text_eq_iff (ident y) id).0 h) in
        let k = (text_eq_iff (ident x) (ident y)).1 same in absurd (ground (arith, a.0, k))
    | inr h ↦ rw h (lookup-All x id ys a.1 e)
  ]

  pub Distinct-Once : (id : Text) (xs : List A) → Distinct ident xs → Once id xs
  Distinct-Once id [] d = tt
  Distinct-Once id (x ∷ xs) d = ((λ e. lookup-All x id xs d.0 e), Distinct-Once id xs d.1)

  lookup-cons_none :
      (id : Text) (y : A) (ys : List A)
      → lookup ident id (y ∷ ys) ≡ none
      → (text_eq (ident y) id ≡ false) × (lookup ident id ys ≡ none)
  unfolding lookup
  lookup-cons_none id y ys h = elim (Bool-cases (text_eq (ident y) id)) [
    | inl e ↦ absurd (ground (arith, e, h))
    | inr e ↦ (e, rw e at h)
  ]

  lookup-cons_away :
      (id : Text) (x : A) (xs : List A)
      → text_eq (ident x) id ≡ false
      → lookup ident id (x ∷ xs) ≡ lookup ident id xs
  unfolding lookup
  lookup-cons_away id x xs h = rw h refl

  lookup-cons_here :
      (id : Text) (x : A) (xs : List A)
      → text_eq (ident x) id ≡ true
      → lookup ident id (x ∷ xs) ≡ some x
  unfolding lookup
  lookup-cons_here id x xs h = rw h refl

  module _ (key : A → ℕ) where
    lookup-insert_by :
        (id : Text) (x : A) (ys : List A)
        → (text_eq (ident x) id ≡ true → lookup ident id ys ≡ none)
        → lookup ident id (insert_by key x ys) ≡ lookup ident id (x ∷ ys)
    unfolding insert_by
    lookup-insert_by id x [] n = refl
    lookup-insert_by id x (y ∷ ys) n = elim (Bool-cases (leb (key x) (key y))) [
      | inl h ↦ rw h refl
      | inr h ↦ rw h (
          by_ids (lookup-insert_by id x ys (λ e. (lookup-cons_none id y ys (n e)).1))
            (Bool-cases (text_eq (ident x) id)) (Bool-cases (text_eq (ident y) id)))
    ]
      where
        Goal : Type 0
        Goal = lookup ident id (y ∷ insert_by key x ys) ≡ lookup ident id (x ∷ y ∷ ys)

        by_ids :
            lookup ident id (insert_by key x ys) ≡ lookup ident id (x ∷ ys)
            → (text_eq (ident x) id ≡ true) ⊎ (text_eq (ident x) id ≡ false)
            → (text_eq (ident y) id ≡ true) ⊎ (text_eq (ident y) id ≡ false)
            → Goal
        by_ids again (inl e) (inl f) =
            absurd (ground (arith, f, (lookup-cons_none id y ys (n e)).0))
        by_ids again (inl e) (inr f) =
            lookup-cons_away id y _ f
            ∙ again
            ∙ lookup-cons_here id x ys e
            ∙ sym (lookup-cons_here id x (y ∷ ys) e)
        by_ids again (inr e) (inl f) =
            lookup-cons_here id y _ f
            ∙ sym (lookup-cons_here id y ys f)
            ∙ sym (lookup-cons_away id x (y ∷ ys) e)
        by_ids again (inr e) (inr f) =
            lookup-cons_away id y _ f
            ∙ again
            ∙ lookup-cons_away id x ys e
            ∙ sym (lookup-cons_away id y ys f)
            ∙ sym (lookup-cons_away id x (y ∷ ys) e)

    Once-insert_by :
        (id : Text) (x : A) (ys : List A)
        → (text_eq (ident x) id ≡ true → lookup ident id ys ≡ none)
        → Once id ys
        → Once id (insert_by key x ys)
    unfolding insert_by lookup
    Once-insert_by id x [] n o = ((λ _. refl), tt)
    Once-insert_by id x (y ∷ ys) n o = elim (Bool-cases (leb (key x) (key y))) [
      | inl h ↦ rw h (n, o)
      | inr h ↦ rw h (
        (λ e.
            lookup-insert_by id x ys (λ _. o.0 e)
            ∙ lookup-cons_away id x ys (away e (Bool-cases (text_eq (ident x) id)))
            ∙ o.0 e),
        Once-insert_by id x ys (λ e. (lookup-cons_none id y ys (n e)).1) o.1,
      )
    ]
      where
        away :
            text_eq (ident y) id ≡ true
            → (text_eq (ident x) id ≡ true) ⊎ (text_eq (ident x) id ≡ false)
            → text_eq (ident x) id ≡ false
        away e (inr f) = f
        away e (inl f) = absurd (ground (arith, e, (lookup-cons_none id y ys (n f)).0))

    -- Sorting changes no lookup of an id that is there once.
    pub sort_by-Once :
        (id : Text) (xs : List A)
        → Once id xs
        → (lookup ident id (sort_by key xs) ≡ lookup ident id xs) × Once id (sort_by key xs)
    unfolding sort_by lookup
    sort_by-Once id [] o = (refl, tt)
    sort_by-Once id (x ∷ xs) o =
        let again = sort_by-Once id xs o.1 in
        let n : text_eq (ident x) id ≡ true → lookup ident id (sort_by key xs) ≡ none =
          (λ e. again.0 ∙ o.0 e) in
        (
          lookup-insert_by id x (sort_by key xs) n
              ∙ ap (λ l. if text_eq (ident x) id then some x else l) again.0,
          Once-insert_by id x (sort_by key xs) n again.1,
        )
