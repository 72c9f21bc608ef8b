-- ===== src/Base/TextOrder.antt =====
-- The order of Go's strings, and `slices.Sort` and `slices.Compact` on them.
use mathlib.Core.HLevel.{hedberg}
use mathlib.Core.List.{Perm}
use mathlib.Core.Logic.{∥∥₁_elim}
use native.Mathlib.Decide.{ℕ_discrete}
use ctscan.Base.{
  ◌≡◌, refl, ◌∙◌, Bool, true, false, List, [], ◌∷◌, arith, ltb, if◌then◌else◌, contains, Distinct,
  text_eq, Bytes,
}
use ctscan.Base.Sort.{
  sort, IsSorted, sort-IsSorted, sort-Permᴰ, sort-Distinct, contains-sort, compact,
  contains-compact, compact-Distinct,
}

-- The order of Go's strings: byte by byte, a prefix first.
unfoldable pub le_text : Bytes → Bytes → Bool
le_text [] t = true
le_text (c ∷ s) [] = false
le_text (c ∷ s) (d ∷ t) =
    let rest = le_text s t in if ltb c d then true else if ltb d c then false else rest

pub le_text_total : (s t : Bytes) → le_text s t ≡ false → le_text t s ≡ true
unfolding le_text
le_text_total [] t h = cc
le_text_total (c ∷ s) [] h = refl
le_text_total (c ∷ s) (d ∷ t) h = ground (arith, le_text_total s t)

pub le_text_trans : (s t u : Bytes) → le_text s t ≡ true → le_text t u ≡ true → le_text s u ≡ true
unfolding le_text
le_text_trans [] t u h k = refl
le_text_trans (c ∷ s) [] u h k = cc
le_text_trans (c ∷ s) (d ∷ t) [] h k = cc
le_text_trans (c ∷ s) (d ∷ t) (b ∷ u) h k = ground (arith, le_text_trans s t u)

pub le_text_antisym : (s t : Bytes) → le_text s t ≡ true → le_text t s ≡ true → s ≡ t
unfolding le_text
le_text_antisym [] [] h k = refl
le_text_antisym [] (d ∷ t) h k = cc
le_text_antisym (c ∷ s) [] h k = cc
le_text_antisym (c ∷ s) (d ∷ t) h k = ground (arith, le_text_antisym s t)

-- slices.Sort on strings
unfoldable pub sort_texts : List Bytes → List Bytes
unfolding sort le_text
sort_texts = sort le_text

pub sort_texts-IsSorted : (xs : List Bytes) → IsSorted le_text (sort_texts xs)
unfolding sort_texts
sort_texts-IsSorted = sort-IsSorted le_text le_text_total le_text_trans

pub contains-sort_texts : (xs : List Bytes) (a : Bytes) → contains (sort_texts xs) a ≡ contains xs a
unfolding sort_texts
contains-sort_texts = contains-sort le_text

pub sort_texts-Distinct : (xs : List Bytes) → Distinct xs → Distinct (sort_texts xs)
unfolding sort_texts
sort_texts-Distinct = sort-Distinct le_text

Texts-discrete : Discrete (List Bytes)
Texts-discrete = hlevel ℕ_discrete

-- What is sorted does not depend on the order in which it was collected.
pub sort_texts-perm : (xs ys : List Bytes) → Perm xs ys → sort_texts xs ≡ sort_texts ys
unfolding sort_texts
sort_texts-perm xs ys p =
    ∥∥₁_elim p (hedberg Texts-discrete (sort_texts xs) (sort_texts ys))
      (sort-Permᴰ le_text le_text_total le_text_trans le_text_antisym xs ys)

-- `slices.Compact` behind `slices.Sort`: in order, each once, and the same texts.
unfoldable pub sort_unique : List Bytes → List Bytes
unfolding sort_texts compact
sort_unique xs = compact (sort_texts xs)

pub contains-sort_unique :
    (xs : List Bytes) (a : Bytes) → contains (sort_unique xs) a ≡ contains xs a
unfolding sort_unique
contains-sort_unique xs a = contains-compact (sort_texts xs) a ∙ contains-sort_texts xs a

pub sort_unique-Distinct : (xs : List Bytes) → Distinct (sort_unique xs)
unfolding sort_unique
sort_unique-Distinct xs =
    compact-Distinct le_text le_text_antisym (sort_texts xs) (sort_texts-IsSorted xs)
