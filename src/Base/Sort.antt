-- ===== src/Base/Sort.antt =====
-- `sort.Slice` by a numeric key, as an insertion sort. Go's sort leaves open how equal keys come
-- out; the lists sorted in this program come from iterating a map, whose order is open as well, so
-- every outcome of the Go code is the outcome here for some order of the list.
use Prim.Native.Nat.{ℕ, zero, suc, ◌≤◌}
use mathlib.Core.Path.{refl}
use mathlib.Core.Logic.{inl, inr}
use mathlib.Core.List.{List, [], ◌∷◌, Permᴰ}
use mathlib.Core.List.Permᴰ
use native.Mathlib.Omega.{arith}
use autodeploy_web.Base.Tests.{leb, if◌then◌else◌, Bool-cases}
use autodeploy_web.Base.Lists.{All, All-drop, take, drop}

module _ {ℓ} {A : Type ℓ} (key : A → ℕ) where
  unfoldable pub insert_by : A → List A → List A
  insert_by a [] = a ∷ []
  insert_by a (x ∷ xs) = if leb (key a) (key x) then a ∷ x ∷ xs else x ∷ insert_by a xs

  unfoldable pub sort_by : List A → List A
  unfolding insert_by
  sort_by [] = []
  sort_by (x ∷ xs) = insert_by x (sort_by xs)

  -- Keys do not fall along the list.
  abbrev pub IsSorted : List A → Type ℓ
  IsSorted [] = Unit
  IsSorted (x ∷ xs) = All (λ y. key x ≤ key y) xs × IsSorted xs

  insert_by-perm : (a : A) (xs : List A) → Permᴰ (a ∷ xs) (insert_by a xs)
  unfolding insert_by
  insert_by-perm a [] = Permᴰ.refl (a ∷ [])
  insert_by-perm a (x ∷ xs) = elim (Bool-cases (leb (key a) (key x))) [
    | inl h ↦ rw h (Permᴰ.refl (a ∷ x ∷ xs))
    | inr h ↦ rw h (Permᴰ.trans (Permᴰ.swap refl refl) (Permᴰ.cons refl (insert_by-perm a xs)))
  ]

  pub sort_by-perm : (xs : List A) → Permᴰ xs (sort_by xs)
  unfolding sort_by
  sort_by-perm [] = Permᴰ.nil
  sort_by-perm (x ∷ xs) =
      Permᴰ.trans (Permᴰ.cons refl (sort_by-perm xs)) (insert_by-perm x (sort_by xs))

  All-le_trans : (m n : ℕ) (xs : List A) → m ≤ n → All (λ y. n ≤ key y) xs → All (λ y. m ≤ key y) xs
  All-le_trans m n [] h a = tt
  All-le_trans m n (x ∷ xs) h a = (omega arith, All-le_trans m n xs h a.1)

  All-insert_by :
      (m : ℕ) (a : A) (xs : List A)
      → m ≤ key a
      → All (λ y. m ≤ key y) xs
      → All (λ y. m ≤ key y) (insert_by a xs)
  unfolding insert_by
  All-insert_by m a [] h hs = (h, tt)
  All-insert_by m a (x ∷ xs) h hs = ground (arith, All-insert_by m a xs h hs.1)

  insert_by-IsSorted : (a : A) (xs : List A) → IsSorted xs → IsSorted (insert_by a xs)
  unfolding insert_by
  insert_by-IsSorted a [] s = (tt, tt)
  insert_by-IsSorted a (x ∷ xs) s = elim (Bool-cases (leb (key a) (key x))) [
    | inl h ↦ rw h ((ground arith, All-le_trans (key a) (key x) xs (ground arith) s.0), s)
    | inr h ↦ rw h (All-insert_by (key x) a xs (ground arith) s.0, insert_by-IsSorted a xs s.1)
  ]

  pub sort_by-IsSorted : (xs : List A) → IsSorted (sort_by xs)
  unfolding sort_by
  sort_by-IsSorted [] = tt
  sort_by-IsSorted (x ∷ xs) = insert_by-IsSorted x (sort_by xs) (sort_by-IsSorted xs)

  -- In a sorted list no element of a prefix has a larger key than one of the rest.
  pub IsSorted-take-drop :
      (n : ℕ) (xs : List A)
      → IsSorted xs
      → All (λ a. All (λ b. key a ≤ key b) (drop n xs)) (take n xs)
  IsSorted-take-drop zero xs s = tt
  IsSorted-take-drop (suc n) [] s = tt
  IsSorted-take-drop (suc n) (x ∷ xs) s =
      (All-drop (λ b. key x ≤ key b) n xs s.0, IsSorted-take-drop n xs s.1)
