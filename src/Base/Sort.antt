-- ===== src/Base/Sort.antt =====
-- `slices.Sort`, `slices.SortFunc` and `slices.Compact`. The sort is by insertion: on a total order
-- every correct sort returns the same list.
use mathlib.Core.Path.{ap₂}
use mathlib.Core.List.{Perm, Permᴰ}
use mathlib.Core.List.Perm
use ctscan.Base.{
  ◌≡◌, Bool-cases, refl, ◌∙◌, inl, inr, Bool, true, false, ◌||◌, List, [], ◌∷◌, arith,
  if◌then◌else◌, ◌==◌, contains, Distinct, Eq, text_eq, All,
}

module _ {ℓ} {A : Type ℓ} (le : A → A → Bool) where
  unfoldable pub insert : A → List A → List A
  insert a [] = a ∷ []
  insert a (x ∷ xs) = let rest = insert a xs in if le a x then a ∷ x ∷ xs else x ∷ rest

  unfoldable pub sort : List A → List A
  unfolding insert
  sort [] = []
  sort (x ∷ xs) = insert x (sort xs)

  -- Each element is below all that follow it.
  abbrev pub IsSorted : List A → Type 0
  IsSorted [] = Unit
  IsSorted (x ∷ xs) = All (λ y. le x y ≡ true) xs × IsSorted xs

  insert-perm : (a : A) (xs : List A) → Perm (insert a xs) (a ∷ xs)
  unfolding insert
  insert-perm a [] = Perm.refl (a ∷ [])
  insert-perm a (x ∷ xs) = elim (Bool-cases (le a x)) [
    | inl here ↦ rw here (Perm.refl (a ∷ x ∷ xs))
    | inr later ↦ rw later (Perm.trans (Perm.cons x (insert-perm a xs)) (Perm.swap a x xs))
  ]

  pub sort-perm : (xs : List A) → Perm (sort xs) xs
  unfolding sort
  sort-perm [] = Perm.refl []
  sort-perm (x ∷ xs) = Perm.trans (insert-perm x (sort xs)) (Perm.cons x (sort-perm xs))

  module _ (total : (a b : A) → le a b ≡ false → le b a ≡ true)
      (trans : (a b c : A) → le a b ≡ true → le b c ≡ true → le a c ≡ true) where
    below-All :
        (a x : A) (xs : List A)
        → le a x ≡ true
        → All (λ y. le x y ≡ true) xs
        → All (λ y. le a y ≡ true) xs
    below-All a x [] h b = tt
    below-All a x (y ∷ xs) h b = (trans a x y h b.0, below-All a x xs h b.1)

    insert-All :
        (a b : A) (xs : List A)
        → le b a ≡ true
        → All (λ y. le b y ≡ true) xs
        → All (λ y. le b y ≡ true) (insert a xs)
    unfolding insert
    insert-All a b [] h t = (h, tt)
    insert-All a b (x ∷ xs) h t = ground (arith, insert-All a b xs h t.1)

    insert-IsSorted : (a : A) (xs : List A) → IsSorted xs → IsSorted (insert a xs)
    unfolding insert
    insert-IsSorted a [] s = (tt, tt)
    insert-IsSorted a (x ∷ xs) s =
        ground (arith, insert-IsSorted a xs s.1, total a x, insert-All a x xs, below-All a x xs)

    -- The sort returns its input in order.
    pub sort-IsSorted : (xs : List A) → IsSorted (sort xs)
    unfolding sort
    sort-IsSorted [] = tt
    sort-IsSorted (x ∷ xs) = insert-IsSorted x (sort xs) (sort-IsSorted xs)

    module _ (antisym : (a b : A) → le a b ≡ true → le b a ≡ true → a ≡ b) where
      insert_comm : (a b : A) (xs : List A) → insert a (insert b xs) ≡ insert b (insert a xs)
      unfolding insert
      insert_comm a b [] = ground (arith, total a b, total b a, antisym a b)
      insert_comm a b (x ∷ xs) =
          ground
            (arith, total a b, total b a, antisym a b, insert_comm a b xs, trans a b x, trans b a x)

      pub sort-Permᴰ : (xs ys : List A) → Permᴰ xs ys → sort xs ≡ sort ys
      unfolding sort
      sort-Permᴰ _ _ Permᴰ.nil = refl
      sort-Permᴰ _ _ (Permᴰ.cons {a} {b} {l₁} {l₂} e p) = ap₂ insert e (sort-Permᴰ l₁ l₂ p)
      sort-Permᴰ _ _ (Permᴰ.swap {a} {b} {a'} {b'} {l} e f) =
          ap₂ (λ x y. insert x (insert y (sort l))) e f ∙ insert_comm b' a' (sort l)
      sort-Permᴰ _ _ (Permᴰ.trans {l₁} {l₂} {l₃} p q) = sort-Permᴰ l₁ l₂ p ∙ sort-Permᴰ l₂ l₃ q

module _ {ℓ} {A : Type ℓ} ⦃e : Eq A⦄ where
  heads : A → List A → Bool
  heads a [] = false
  heads a (x ∷ xs) = a == x

  -- slices.Compact: of a run of equal elements one is kept.
  unfoldable pub compact : List A → List A
  unfolding heads
  compact [] = []
  compact (x ∷ xs) = let rest = compact xs in if heads x rest then rest else x ∷ rest

  pub contains-compact : (xs : List A) (a : A) → contains (compact xs) a ≡ contains xs a
  unfolding compact
  contains-compact [] a = refl
  contains-compact (x ∷ xs) a = contains-heads x (compact xs) a (contains-compact xs a)
    where
      contains-heads :
          (x : A) (r : List A) (a : A) {b : Bool}
          → contains r a ≡ b
          → contains (if heads x r then r else x ∷ r) a ≡ (a == x || b)
      contains-heads x [] a h = ground arith
      contains-heads x (y ∷ r) a h = ground arith

  module _ (le : A → A → Bool) where
    contains-insert :
        (a b : A) (xs : List A) → contains (insert le a xs) b ≡ (b == a || contains xs b)
    unfolding insert
    contains-insert a b [] = refl
    contains-insert a b (x ∷ xs) = ground (arith, contains-insert a b xs)

    pub contains-sort : (xs : List A) (b : A) → contains (sort le xs) b ≡ contains xs b
    unfolding sort
    contains-sort [] b = refl
    contains-sort (x ∷ xs) b = rw (contains-insert, contains-sort xs b)

    pub insert-Distinct :
        (a : A) (xs : List A) → Distinct xs → contains xs a ≡ false → Distinct (insert le a xs)
    unfolding insert
    insert-Distinct a [] d h = (refl, tt)
    insert-Distinct a (x ∷ xs) d h =
        ground (arith, insert-Distinct a xs d.1, contains-insert a x xs)

    pub sort-Distinct : (xs : List A) → Distinct xs → Distinct (sort le xs)
    unfolding sort
    sort-Distinct [] d = tt
    sort-Distinct (x ∷ xs) d =
        insert-Distinct x (sort le xs) (sort-Distinct xs d.1) (contains-sort xs x ∙ d.0)

    All-le :
        (h x : A) (t : List A) → All (λ y. le h y ≡ true) t → contains t x ≡ true → le h x ≡ true
    All-le h x [] b m = cc
    All-le h x (y ∷ t) b m = ground (arith, All-le h x t b.1)

    compact-All :
        (x : A) (xs : List A) → All (λ y. le x y ≡ true) xs → All (λ y. le x y ≡ true) (compact xs)
    unfolding compact
    compact-All x [] b = tt
    compact-All x (y ∷ xs) b = ground (arith, compact-All x xs b.1)

    compact-IsSorted : (xs : List A) → IsSorted le xs → IsSorted le (compact xs)
    unfolding compact
    compact-IsSorted [] s = tt
    compact-IsSorted (x ∷ xs) s = ground (arith, compact-IsSorted xs s.1, compact-All x xs s.0)

    module _ (antisym : (a b : A) → le a b ≡ true → le b a ≡ true → a ≡ b) where
      fresh_head :
          (x : A) (r : List A)
          → All (λ y. le x y ≡ true) r
          → IsSorted le r
          → heads x r ≡ false
          → contains r x ≡ false
      unfolding heads
      fresh_head x [] b s h = refl
      fresh_head x (y ∷ r) b s h = ground (arith, All-le y x r s.0, antisym x y b.0)

      pub compact-Distinct : (xs : List A) → IsSorted le xs → Distinct (compact xs)
      unfolding compact
      compact-Distinct [] s = tt
      compact-Distinct (x ∷ xs) s = ground (
        arith,
        compact-Distinct xs s.1,
        fresh_head x (compact xs) (compact-All x xs s.0) (compact-IsSorted xs s.1),
      )
