-- ===== src/Base/Maps.antt =====
-- Go's maps as lists of entries, in the order of their iteration, which Go leaves open: no key is
-- listed twice.
use ctscan.Base.Core.{
  ◌≡◌, refl, true, false, ◌||◌, List, [], ◌∷◌, ◌++◌, Option, none, some, arith, if◌then◌else◌,
}
use ctscan.Base.Equality.{Eq, ◌==◌, contains, Distinct, contains-append}

module _ {ℓ κ} {K : Type ℓ} {V : Type κ} ⦃e : Eq K⦄ where
  abbrev pub keys : List (K × V) → List K
  keys [] = []
  keys ((k, v) ∷ m) = k ∷ keys m

  -- `v, ok := m[k]`
  abbrev pub lookup : List (K × V) → K → Option V
  lookup [] k = none
  lookup ((k', v) ∷ m) k = if k == k' then some v else lookup m k

  -- `m[k] = v`
  unfoldable pub put : List (K × V) → K → V → List (K × V)
  put [] k v = (k, v) ∷ []
  put ((k', v') ∷ m) k v = if k == k' then (k', v) ∷ m else (k', v') ∷ put m k v

module _ {ℓ κ} {K : Type ℓ} {V : Type κ} ⦃e : Eq K⦄ where
  pub lookup-put :
      (m : List (K × V)) (k : K) (v : V) (k' : K)
      → lookup (put m k v) k' ≡ (if k' == k then some v else lookup m k')
  unfolding put
  lookup-put [] k v k' = refl
  lookup-put ((k₁, v₁) ∷ m) k v k' = ground (arith, lookup-put m k v k')

  contains-keys-put :
      (m : List (K × V)) (k : K) (v : V) (k' : K)
      → contains (keys (put m k v)) k' ≡ (k' == k || contains (keys m) k')
  unfolding put
  contains-keys-put [] k v k' = refl
  contains-keys-put ((k₁, v₁) ∷ m) k v k' = ground (arith, contains-keys-put m k v k')

  pub put-Distinct :
      (m : List (K × V)) (k : K) (v : V) → Distinct (keys m) → Distinct (keys (put m k v))
  unfolding put
  put-Distinct [] k v d = (refl, tt)
  put-Distinct ((k₁, v₁) ∷ m) k v d =
      ground (arith, put-Distinct m k v d.1, contains-keys-put m k v k₁)

  lookup-absent : (m : List (K × V)) (k : K) → contains (keys m) k ≡ false → lookup m k ≡ none
  lookup-absent [] k h = refl
  lookup-absent ((k', v) ∷ m) k h = ground (arith, lookup-absent m k)

-- What a loop over the entries appends.
module _ {ℓ κ μ} {K : Type ℓ} {V : Type κ} {A : Type μ} ⦃e : Eq K⦄ ⦃eq : Eq A⦄ where
  abbrev pub collected : (K → V → List A) → List (K × V) → List A
  collected f [] = []
  collected f ((k, v) ∷ m) = f k v ++ collected f m

  -- What the entry of a key appends.
  abbrev pub of_entry : (K → V → List A) → K → Option V → List A
  of_entry f k none = []
  of_entry f k (some v) = f k v

module _ {ℓ κ μ} {K : Type ℓ} {V : Type κ} {A : Type μ} ⦃e : Eq K⦄ ⦃eq : Eq A⦄ (f : K → V → List A)
    (key : A → K) (keyed : (k : K) (v : V) (a : A) → contains (f k v) a ≡ true → key a ≡ k) where
  -- If what is appended names its entry's key, it is found by a lookup of that key.
  pub contains-collected :
      (m : List (K × V)) (a : A)
      → Distinct (keys m)
      → contains (collected f m) a ≡ contains (of_entry f (key a) (lookup m (key a))) a
  contains-collected [] a d = refl
  contains-collected ((k, v) ∷ m) a d = ground (
    arith,
    contains-append (f k v) (collected f m) a,
    contains-collected m a d.1,
    keyed k v a,
    lookup-absent m (key a),
  )
