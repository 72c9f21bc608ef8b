-- ===== src/Base/Weights.antt =====
-- Sums of weights over lists. Lists of the same weights, and sets of the same members, are
-- permutations of each other.
use mathlib.Core.List.{Perm, perm_middle}
use mathlib.Core.List.Perm
use ctscan.Base.{
  ℕ, ◌+◌, ◌<◌, true, false, List, [], ◌∷◌, ◌++◌, ◌≡◌, refl, sym, ap, ◌∙◌, arith, Eq, ◌==◌, ==_iff,
  ==_refl, if◌then◌else◌, Bool-cases, inl, inr, map, contains, Distinct, contains-append,
}

module _ {ℓ} {A : Type ℓ} where
  abbrev pub sum : (A → ℕ) → List A → ℕ
  sum f [] = 0
  sum f (x ∷ xs) = f x + sum f xs

  pub sum-append : (f : A → ℕ) (xs ys : List A) → sum f (xs ++ ys) ≡ sum f xs + sum f ys
  sum-append f [] ys = omega arith
  sum-append f (x ∷ xs) ys = omega (arith, sum-append f xs ys)

  -- The list has the element at some place.
  abbrev pub HasAt : A → List A → Type ℓ
  HasAt x ys = (before : List A) × (after : List A) × (ys ≡ before ++ x ∷ after)

pub sum-map {ℓ κ} :
    {A : Type ℓ} {B : Type κ} (f : B → ℕ) (g : A → B) (xs : List A)
    → sum f (map g xs) ≡ sum (λ x. f (g x)) xs
sum-map f g [] = refl
sum-map f g (x ∷ xs) = omega (arith, sum-map f g xs)

module _ {ℓ} {A : Type ℓ} ⦃e : Eq A⦄ where
  -- weight 1 for the element, and 0 for the others
  is : A → A → ℕ
  is x y = if y == x then 1 else 0

  has_at : (x : A) (ys : List A) → 0 < sum (is x) ys → HasAt x ys
  unfolding is
  has_at x [] h = absurd (omega arith)
  has_at x (y ∷ ys) h = elim (Bool-cases (y == x)) [
    | inl same ↦ ([], ys, ap (λ z. z ∷ ys) ((==_iff y x).0 same))
    | inr other ↦
        let (before, after, p) = has_at x ys (ground arith) in
        (y ∷ before, after, ap (λ zs. y ∷ zs) p)
  ]

  -- Lists that every weighting gives the same sum are permutations of each other.
  pub weights-Perm : (xs ys : List A) → ((f : A → ℕ) → sum f xs ≡ sum f ys) → Perm xs ys
  unfolding is
  weights-Perm [] [] h = Perm.refl []
  weights-Perm [] (y ∷ ys) h = absurd (omega (arith, h (λ a. 1)))
  weights-Perm (x ∷ xs) ys h =
      let (before, after, p) = has_at x ys (ground (arith, h (is x), ==_refl x)) in
      rw p (
        Perm.trans
          (Perm.cons x (
            weights-Perm xs (before ++ after) (λ f. omega (
              arith,
              h f,
              ap (sum f) p,
              sum-append f before after,
              sum-append f before (x ∷ after),
            ))))
          (Perm.symm (perm_middle before after)))

  contains-HasAt : (x : A) (ys : List A) → contains ys x ≡ true → HasAt x ys
  contains-HasAt x [] h = cc
  contains-HasAt x (y ∷ ys) h = elim (Bool-cases (x == y)) [
    | inl same ↦ ([], ys, ap (λ z. z ∷ ys) (sym ((==_iff x y).0 same)))
    | inr other ↦
        let (before, after, p) = contains-HasAt x ys (ground arith) in
        (y ∷ before, after, ap (λ zs. y ∷ zs) p)
  ]

  Distinct-without :
      (before after : List A) (x : A)
      → Distinct (before ++ x ∷ after)
      → Distinct (before ++ after) × (contains (before ++ after) x ≡ false)
  Distinct-without [] after x (new, d) = (d, new)
  Distinct-without (y ∷ before) after x (new, d) =
      let (d', new') = Distinct-without before after x d in
      ground
        (arith, d', new', new, contains-append before (x ∷ after) y, contains-append before after y)

  without_members :
      (before after xs : List A) (x a : A)
      → contains xs x ≡ false
      → contains (before ++ after) x ≡ false
      → contains (x ∷ xs) a ≡ contains (before ++ x ∷ after) a
      → contains xs a ≡ contains (before ++ after) a
  without_members before after xs x a out out' same = elim (Bool-cases (a == x)) [
    | inl eq ↦ rw ((==_iff a x).0 eq) (out ∙ sym out')
    | inr other ↦
        ground (arith, same, contains-append before (x ∷ after) a, contains-append before after a)
  ]

  -- Sets with the same members are permutations of each other.
  pub Distinct-Perm :
      (xs ys : List A)
      → Distinct xs
      → Distinct ys
      → ((a : A) → contains xs a ≡ contains ys a)
      → Perm xs ys
  Distinct-Perm [] [] dx dy same = Perm.refl []
  Distinct-Perm [] (y ∷ ys) dx dy same = absurd (ground (arith, same y))
  Distinct-Perm (x ∷ xs) ys dx dy same =
      let (before, after, p) = contains-HasAt x ys (ground (arith, same x)) in
      let (d, new) = Distinct-without before after x (rw p at dy) in
      rw p (
        Perm.trans
          (Perm.cons x (
            Distinct-Perm xs (before ++ after) dx.1 d (λ a.
              without_members before after xs x a dx.0 new (same a ∙ ap (λ zs. contains zs a) p))))
          (Perm.symm (perm_middle before after)))

  sum-contains : (x : A) (ys : List A) → contains ys x ≡ true → 0 < sum (is x) ys
  unfolding is
  sum-contains x [] h = cc
  sum-contains x (y ∷ ys) h = elim (Bool-cases (x == y)) [
    | inl same ↦ rw ((==_iff x y).0 same, ==_refl y) (omega arith)
    | inr other ↦ omega (arith, sum-contains x ys (ground arith))
  ]

  -- Of lists that every weighting gives the same sum, one has the members of the other.
  pub weights-contains :
      (xs ys : List A)
      → ((f : A → ℕ) → sum f xs ≡ sum f ys)
      → (x : A) → contains ys x ≡ true
      → contains xs x ≡ true
  weights-contains xs ys h x m =
      let (before, after, p) = has_at x xs (omega (arith, h (is x), sum-contains x ys m)) in
      rw p (contains-append before (x ∷ after) x ∙ ground (arith, ==_refl x))
