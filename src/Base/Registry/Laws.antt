-- ===== src/Base/Registry/Laws.antt =====
-- The laws of lookups in a registry, and what pruning keeps and drops.
use Prim.Native.Nat.{ℕ, ◌-◌, ◌≤◌, min}
use mathlib.Core.Path.{◌≡◌, refl, sym, ◌∙◌, subst, subst₂}
use mathlib.Core.Logic.{inl, inr}
use mathlib.Core.Bool.{Bool, true, false, not}
use mathlib.Core.List.{List, [], ◌∷◌, ◌++◌, append-nil, append_assoc, Permᴰ}
use mathlib.Core.List.Permᴰ
use native.Mathlib.Omega.{arith}
use autodeploy_web.Base.Tests.{leb, if◌then◌else◌, Bool-cases}
use autodeploy_web.Base.Lists.{
  length, All, All-drop, All-take, take, drop, keep_if, length-drop, take-append-drop,
}
use autodeploy_web.Base.Bytes.{Text, text_eq, text_eq_iff, text_eq_self}
use autodeploy_web.Base.Sort.{sort_by, sort_by-perm, sort_by-IsSorted, IsSorted-take-drop}
use autodeploy_web.Base.Registry.{remove, remove_each, Distinct, excess, prune}

text_eq_symm : (s t : Text) → text_eq s t ≡ false → text_eq t s ≡ false
text_eq_symm s t h = elim (Bool-cases (text_eq t s)) [
  | inl e ↦ ground (arith, text_eq_iff t s, text_eq_self s, text_eq_iff s t)
  | inr e ↦ e
]

module _ {ℓ} {A : Type ℓ} where
  pub All-perm {κ} : (P : A → Type κ) {xs ys : List A} → Permᴰ xs ys → All P xs → All P ys
  All-perm P Permᴰ.nil h = tt
  All-perm P (Permᴰ.cons e p) h = (subst P e h.0, All-perm P p h.1)
  All-perm P (Permᴰ.swap e f) h = (subst P f h.1.0, (subst P e h.0, h.1.1))
  All-perm P (Permᴰ.trans p q) h = All-perm P q (All-perm P p h)

  swap_kept :
      (x y : Bool) (a b : A) (r : List A)
      → Permᴰ
          (if x then a ∷ (if y then b ∷ r else r) else (if y then b ∷ r else r))
          (if y then b ∷ (if x then a ∷ r else r) else (if x then a ∷ r else r))
  swap_kept true true a b r = Permᴰ.swap refl refl
  swap_kept true false a b r = Permᴰ.refl (a ∷ r)
  swap_kept false true a b r = Permᴰ.refl (b ∷ r)
  swap_kept false false a b r = Permᴰ.refl r

  pub keep_if-perm :
      (p : A → Bool) {xs ys : List A} → Permᴰ xs ys → Permᴰ (keep_if p xs) (keep_if p ys)
  keep_if-perm p Permᴰ.nil = Permᴰ.nil
  keep_if-perm p (Permᴰ.cons {a} {b} e q) = elim (Bool-cases (p a)) [
    | inl h ↦ rw (h, ← e, h) (Permᴰ.cons refl (keep_if-perm p q))
    | inr h ↦ rw (h, ← e, h) (keep_if-perm p q)
  ]
  keep_if-perm p (Permᴰ.swap {a} {b} {l = l} e f) =
      subst₂ (λ c d. Permᴰ (keep_if p (a ∷ b ∷ l)) (keep_if p (c ∷ d ∷ l))) f e
        (swap_kept (p a) (p b) a b (keep_if p l))
  keep_if-perm p (Permᴰ.trans q r) = Permᴰ.trans (keep_if-perm p q) (keep_if-perm p r)

  pub keep_if-split :
      (p : A → Bool) (xs : List A) → Permᴰ xs (keep_if p xs ++ keep_if (λ x. not (p x)) xs)
  keep_if-split p [] = Permᴰ.nil
  keep_if-split p (x ∷ xs) = elim (Bool-cases (p x)) [
    | inl h ↦ rw h (Permᴰ.cons refl (keep_if-split p xs))
    | inr h ↦ rw h (
        Permᴰ.trans (Permᴰ.cons refl (keep_if-split p xs))
          (Permᴰ.symm (Permᴰ.middle x (keep_if p xs) (keep_if (λ y. not (p y)) xs))))
  ]

  pub keep_if-all : (p : A → Bool) (xs : List A) → All (λ x. p x ≡ true) xs → keep_if p xs ≡ xs
  keep_if-all p [] h = refl
  keep_if-all p (x ∷ xs) h = rw (h.0, keep_if-all p xs h.1)

  pub keep_if-none : (p : A → Bool) (xs : List A) → All (λ x. p x ≡ false) xs → keep_if p xs ≡ []
  keep_if-none p [] h = refl
  keep_if-none p (x ∷ xs) h = rw (h.0, keep_if-none p xs h.1)

  pub keep_if-append :
      (p : A → Bool) (xs ys : List A) → keep_if p (xs ++ ys) ≡ keep_if p xs ++ keep_if p ys
  keep_if-append p [] ys = refl
  keep_if-append p (x ∷ xs) ys = ground (arith, keep_if-append p xs ys)

  pub All-keep_if : (p : A → Bool) (xs : List A) → All (λ x. p x ≡ true) (keep_if p xs)
  All-keep_if p [] = tt
  All-keep_if p (x ∷ xs) = ground (arith, All-keep_if p xs)

  pub All-keep_not :
      (p : A → Bool) (xs : List A) → All (λ x. p x ≡ false) (keep_if (λ x. not (p x)) xs)
  All-keep_not p [] = tt
  All-keep_not p (x ∷ xs) = ground (arith, All-keep_not p xs)

  pub All-imp {κ μ} :
      {P : A → Type κ} {Q : A → Type μ} (xs : List A) → ((a : A) → P a → Q a) → All P xs → All Q xs
  All-imp [] f h = tt
  All-imp (x ∷ xs) f h = (f x h.0, All-imp xs f h.1)

  pub length-perm : {xs ys : List A} → Permᴰ xs ys → length xs ≡ length ys
  length-perm Permᴰ.nil = refl
  length-perm (Permᴰ.cons e p) = omega (arith, length-perm p)
  length-perm (Permᴰ.swap e f) = refl
  length-perm (Permᴰ.trans p q) = length-perm p ∙ length-perm q

module _ {ℓ} {A : Type ℓ} (ident : A → Text) where
  pub Distinct-perm : {xs ys : List A} → Permᴰ xs ys → Distinct ident xs → Distinct ident ys
  Distinct-perm Permᴰ.nil d = tt
  Distinct-perm (Permᴰ.cons {a} {b} {l₁ = l} e p) d = (
    All-perm (λ y. text_eq (ident b) (ident y) ≡ false) p
        (subst (λ c. All (λ y. text_eq (ident c) (ident y) ≡ false) l) e d.0),
    Distinct-perm p d.1,
  )
  Distinct-perm (Permᴰ.swap {a} {b} {l = l} e f) d = (
    (
      subst₂ (λ c d'. text_eq (ident c) (ident d') ≡ false) f e
          (text_eq_symm (ident a) (ident b) d.0.0),
      subst (λ c. All (λ y. text_eq (ident c) (ident y) ≡ false) l) f d.1.0,
    ),
    (subst (λ c. All (λ y. text_eq (ident c) (ident y) ≡ false) l) e d.0.1, d.1.1),
  )
  Distinct-perm (Permᴰ.trans p q) d = Distinct-perm q (Distinct-perm p d)

  remove_absent :
      (k : Text) (xs : List A) → All (λ y. text_eq k (ident y) ≡ false) xs → remove ident k xs ≡ xs
  unfolding remove
  remove_absent k [] h = refl
  remove_absent k (x ∷ xs) h = ground (arith, text_eq_symm k (ident x) h.0, remove_absent k xs h.1)

  remove_head :
      (x : A) (xs : List A) → Distinct ident (x ∷ xs) → remove ident (ident x) (x ∷ xs) ≡ xs
  unfolding remove
  remove_head x xs d = rw (text_eq_self (ident x)) (remove_absent (ident x) xs d.0)

  remove_each_prefix :
      (ds xs : List A) → Distinct ident (ds ++ xs) → remove_each ident ds (ds ++ xs) ≡ xs
  unfolding remove_each
  remove_each_prefix [] xs d = refl
  remove_each_prefix (x ∷ ds) xs d = rw (remove_head x (ds ++ xs) d) (remove_each_prefix ds xs d.1)

  remove_each-perm :
      (ds : List A) {xs ys : List A}
      → Permᴰ xs ys
      → Permᴰ (remove_each ident ds xs) (remove_each ident ds ys)
  unfolding remove_each remove
  remove_each-perm [] p = p
  remove_each-perm (x ∷ ds) p = remove_each-perm ds (keep_if-perm _ p)

module _ {ℓ} {A : Type ℓ} (ident : A → Text) (finished : A → Bool) (key : A → ℕ) (cap : ℕ) where
  -- What a pruning did: the dropped entries and the kept ones make up the registry; the dropped ones
  -- are finished and no younger than any finished one that is kept; unfinished entries are all
  -- kept; and the finished ones that are left are as many as the cap allows.
  pub record Pruned (before after : List A) : Type ℓ where
    pub dropped : List A
    pub parts : Permᴰ before (dropped ++ after)
    pub dropped_finished : All (λ a. finished a ≡ true) dropped
    pub dropped_oldest : All (λ a. All (λ b. key a ≤ key b) (keep_if finished after)) dropped
    pub unfinished_kept :
        Permᴰ (keep_if (λ a. not (finished a)) before) (keep_if (λ a. not (finished a)) after)
    pub capped : length (keep_if finished after) ≡ min cap (length (keep_if finished before))

  sorted_finished : List A → List A
  sorted_finished xs = sort_by key (keep_if finished xs)

  surplus : List A → ℕ
  surplus xs = length (keep_if finished xs) - cap

  module _ (xs : List A) where
    dropped_part : List A
    unfolding sorted_finished surplus
    dropped_part = take (surplus xs) (sorted_finished xs)

    kept_part : List A
    unfolding sorted_finished surplus
    kept_part = drop (surplus xs) (sorted_finished xs)

    unfinished : List A
    unfinished = keep_if (λ a. not (finished a)) xs

    excess_lem : excess finished key cap xs ≡ dropped_part
    unfolding excess dropped_part
    excess_lem = elim (Bool-cases (leb (length (keep_if finished xs)) cap)) [
      | inl h ↦ rw h (rw (excess_none h))
      | inr h ↦ rw h refl
    ]
      where
        excess_none :
            leb (length (keep_if finished xs)) cap ≡ true → length (keep_if finished xs) - cap ≡ 0
        excess_none h = ground arith

    sorted_all : All (λ a. finished a ≡ true) (sorted_finished xs)
    unfolding sorted_finished
    sorted_all =
        All-perm (λ a. finished a ≡ true) (sort_by-perm key (keep_if finished xs))
          (All-keep_if finished xs)

    three_parts : Permᴰ xs (dropped_part ++ (kept_part ++ unfinished))
    unfolding kept_part unfinished dropped_part
    three_parts = Permᴰ.trans (keep_if-split finished xs) (
        Permᴰ.trans (Permᴰ.append_right _ (sort_by-perm key (keep_if finished xs))) (
          subst
            (λ (l : List A). Permᴰ (l ++ unfinished) (dropped_part ++ (kept_part ++ unfinished)))
            (take-append-drop (surplus xs) (sorted_finished xs)) (rw append_assoc (Permᴰ.refl _))))

    prune-perm :
        Distinct ident xs → Permᴰ (prune ident finished key cap xs) (kept_part ++ unfinished)
    unfolding prune
    prune-perm d =
        subst₂ (λ (e l : List A). Permᴰ (remove_each ident e xs) l) (sym excess_lem)
          (remove_each_prefix ident dropped_part (kept_part ++ unfinished)
            (Distinct-perm ident three_parts d))
          (remove_each-perm ident dropped_part three_parts)

    kept_all : All (λ a. finished a ≡ true) kept_part
    unfolding kept_part
    kept_all = All-drop (λ a. finished a ≡ true) (surplus xs) (sorted_finished xs) sorted_all

    dropped_all : All (λ a. finished a ≡ true) dropped_part
    unfolding dropped_part
    dropped_all = All-take (λ a. finished a ≡ true) (surplus xs) (sorted_finished xs) sorted_all

    unfinished_all : All (λ a. finished a ≡ false) unfinished
    unfolding unfinished
    unfinished_all = All-keep_not finished xs

    finished_none :
        (ys : List A) → All (λ a. finished a ≡ true) ys → keep_if (λ a. not (finished a)) ys ≡ []
    finished_none ys h =
        keep_if-none (λ a. not (finished a)) ys
          (All-imp {Q = λ a. not (finished a) ≡ false} ys (λ a e. rw e refl) h)

    unfinished_of_parts : keep_if (λ a. not (finished a)) (kept_part ++ unfinished) ≡ unfinished
    unfinished_of_parts =
        rw
          (
            keep_if-append (λ a. not (finished a)) kept_part unfinished,
            finished_none kept_part kept_all,
          )
          (keep_if-all (λ a. not (finished a)) unfinished
            (All-imp {Q = λ a. not (finished a) ≡ true} unfinished (λ a e. rw e refl)
              unfinished_all))

    length-kept : length kept_part ≡ min cap (length (keep_if finished xs))
    unfolding kept_part surplus sorted_finished
    length-kept = omega (
      arith,
      length-drop (surplus xs) (sort_by key (keep_if finished xs)),
      length-perm (sort_by-perm key (keep_if finished xs)),
    )

    oldest_first : All (λ a. All (λ b. key a ≤ key b) kept_part) dropped_part
    unfolding kept_part dropped_part sorted_finished
    oldest_first =
        IsSorted-take-drop key (surplus xs) (sorted_finished xs)
          (sort_by-IsSorted key (keep_if finished xs))

    kept_finished :
        Distinct ident xs → Permᴰ (keep_if finished (prune ident finished key cap xs)) kept_part
    kept_finished d =
        subst (λ (l : List A). Permᴰ (keep_if finished (prune ident finished key cap xs)) l)
          finished_of_parts (keep_if-perm finished (prune-perm d))
      where
        finished_of_parts : keep_if finished (kept_part ++ unfinished) ≡ kept_part
        finished_of_parts =
            rw
              (
                keep_if-append finished kept_part unfinished,
                keep_if-all finished kept_part kept_all,
                keep_if-none finished unfinished unfinished_all,
              )
              (append-nil kept_part)

    pub prune-Pruned : Distinct ident xs → Pruned xs (prune ident finished key cap xs)
    unfolding unfinished
    prune-Pruned d = record {
      dropped = dropped_part;
      parts = Permᴰ.trans three_parts (Permᴰ.append_left dropped_part (Permᴰ.symm (prune-perm d)));
      dropped_finished = dropped_all;
      dropped_oldest =
          All-imp dropped_part (λ a. All-perm (λ b. key a ≤ key b) (Permᴰ.symm (kept_finished d)))
            oldest_first;
      unfinished_kept =
          subst
            (λ (l : List A).
              Permᴰ l (keep_if (λ a. not (finished a)) (prune ident finished key cap xs)))
            unfinished_of_parts (keep_if-perm (λ a. not (finished a)) (Permᴰ.symm (prune-perm d)));
      capped = length-perm (kept_finished d) ∙ length-kept;
    }
