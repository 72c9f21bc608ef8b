-- ===== src/Base/Equality.antt =====
-- The source's `==` and its maps used as sets, for every type whose equality can be decided.
use mathlib.Core.Logic.{ite}
use native.Mathlib.Decide.{ℕ_discrete}
use ctscan.Base.Core.{
  ℕ, ◌≡◌, refl, ◌↔◌, Bool, true, false, ◌||◌, List, [], ◌∷◌, ◌++◌, arith, if◌then◌else◌, Bytes,
}

pub record Eq {ℓ} (A : Type ℓ) : Type ℓ where
  pub dec : Discrete A

list_dec {ℓ} : {A : Type ℓ} → Discrete A → Discrete (List A)
list_dec d [] [] = yes refl
list_dec d [] (y ∷ ys) = no (λ p. cc)
list_dec d (x ∷ xs) [] = no (λ p. cc)
list_dec d (x ∷ xs) (y ∷ ys) = elim (d x y) [
  | yes p ↦ elim (list_dec d xs ys) [ yes q ↦ yes (cc) | no q ↦ no (λ e. q (cc)) ]
  | no p ↦ no (λ e. p (cc))
]

instance unfoldable pub nat_eq : Eq ℕ
unfolding ℕ_discrete
nat_eq = record { dec = ℕ_discrete }

instance unfoldable pub text_eq : Eq Bytes
unfolding ℕ_discrete list_dec
text_eq = record { dec = list_dec ℕ_discrete }

instance unfoldable pub texts_eq : Eq (List Bytes)
unfolding ℕ_discrete list_dec
texts_eq = record { dec = list_dec (list_dec ℕ_discrete) }

module _ {ℓ} {A : Type ℓ} ⦃e : Eq A⦄ where
  infix 50 ◌==◌
  abbrev pub ◌==◌ : A → A → Bool
  a == b = ite (e.dec a b) true false

  -- `_, ok := set[a]`
  abbrev pub contains : List A → A → Bool
  contains [] a = false
  contains (x ∷ xs) a = a == x || contains xs a

  -- No element is listed twice.
  abbrev pub Distinct : List A → Type 0
  Distinct [] = Unit
  Distinct (x ∷ xs) = (contains xs x ≡ false) × Distinct xs

  -- `if _, ok := seen[a]; !ok { seen[a] = struct{}{}; xs = append(xs, a) }`, where `seen` holds
  -- the elements of `xs`.
  unfoldable pub push_new : List A → A → List A
  push_new xs a = if contains xs a then xs else xs ++ a ∷ []

module _ {ℓ} {A : Type ℓ} ⦃e : Eq A⦄ where
  pub ==_iff : (a b : A) → ((a == b) ≡ true) ↔ (a ≡ b)
  ==_iff a b = ground arith

  pub ==_refl : (a : A) → (a == a) ≡ true
  ==_refl a = ground arith

  pub contains-append :
      (xs ys : List A) (a : A) → contains (xs ++ ys) a ≡ (contains xs a || contains ys a)
  contains-append [] ys a = refl
  contains-append (x ∷ xs) ys a = ground (arith, contains-append xs ys a)

  pub Distinct-concat :
      (xs : List A) (a : A) → Distinct xs → contains xs a ≡ false → Distinct (xs ++ a ∷ [])
  Distinct-concat [] a d h = (refl, tt)
  Distinct-concat (x ∷ xs) a d h =
      ground (arith, Distinct-concat xs a d.1, contains-append xs (a ∷ []) x)

  pub contains-push_new :
      (xs : List A) (a b : A) → contains (push_new xs a) b ≡ (contains xs b || b == a)
  unfolding push_new
  contains-push_new xs a b = ground (arith, contains-append xs (a ∷ []) b)

  pub push_new-Distinct : (xs : List A) (a : A) → Distinct xs → Distinct (push_new xs a)
  unfolding push_new
  push_new-Distinct xs a d = ground (arith, Distinct-concat xs a d)
