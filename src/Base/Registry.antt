-- ===== src/Base/Registry.antt =====
-- What the two managers share: a registry is a list of entries keyed by their id (a Go map), and
-- pruning drops the oldest finished entries above a cap (internal/job/manager.go `pruneLocked`,
-- internal/deploy/deploy.go `pruneCompleted`).
pub mod Laws
pub mod Lookup
pub mod Sorted
use Prim.Native.Nat.{ℕ, ◌-◌}
use mathlib.Core.Path.{◌≡◌}
use mathlib.Core.Bool.{Bool, false, not}
use mathlib.Core.Option.{Option, none, some}
use mathlib.Core.List.{List, [], ◌∷◌}
use autodeploy_web.Base.Tests.{leb, if◌then◌else◌}
use autodeploy_web.Base.Lists.{length, All, take, keep_if}
use autodeploy_web.Base.Bytes.{Text, text_eq}
use autodeploy_web.Base.Sort.{sort_by}

module _ {ℓ} {A : Type ℓ} where
  -- The finished entries, oldest first; those above the cap are dropped.
  unfoldable pub excess : (A → Bool) → (A → ℕ) → ℕ → List A → List A
  excess finished key cap xs =
      let done = keep_if finished xs in
      if leb (length done) cap then [] else take (length done - cap) (sort_by key done)

module _ {ℓ} {A : Type ℓ} (ident : A → Text) where
  -- `m[id]`, with the second result of a map lookup as the `Option`.
  unfoldable pub lookup : Text → List A → Option A
  lookup k [] = none
  lookup k (x ∷ xs) = if text_eq (ident x) k then some x else lookup k xs

  -- `m[x.ID] = x`.
  unfoldable pub put : A → List A → List A
  put a [] = a ∷ []
  put a (x ∷ xs) = if text_eq (ident x) (ident a) then a ∷ xs else x ∷ put a xs

  -- `delete(m, id)`.
  unfoldable pub remove : Text → List A → List A
  remove k xs = keep_if (λ x. not (text_eq (ident x) k)) xs

  -- The loop that deletes each entry of a list.
  unfoldable pub remove_each : List A → List A → List A
  unfolding remove
  remove_each [] xs = xs
  remove_each (d ∷ ds) xs = remove_each ds (remove (ident d) xs)

  -- No two entries have one id: what a map gives.
  abbrev pub Distinct : List A → Type 0
  Distinct [] = Unit
  Distinct (x ∷ xs) = All (λ y. text_eq (ident x) (ident y) ≡ false) xs × Distinct xs

  unfoldable pub prune : (A → Bool) → (A → ℕ) → ℕ → List A → List A
  unfolding excess remove_each
  prune finished key cap xs = remove_each (excess finished key cap xs) xs
