-- ===== src/Input/Names/Scope.antt =====
-- A name is in scope exactly when its labels end in the labels of a scope.
use ctscan.Base.{
  ℕ, Bool, true, ◌||◌, List, [], ◌∷◌, ◌++◌, ◌≡◌, ◌≢◌, ◌↔◌, ◌⊎◌, inl, inr, refl, sym, ap, ◌∙◌,
  Outcome, ok, err, ◌==◌, ==_iff, nat_eq, text_eq, texts_eq, Bytes, arith, Bool-cases,
}
use ctscan.Base.Text.{split, has_suffix, join, cons_head}
use ctscan.Input.Names.{Idna, normalize_dns_name, NameError, covers, covered, scope_of, in_scope}

-- The labels of a name.
abbrev pub labels : Bytes → List Bytes
labels name = split name b'.'

join_head :
    (c : ℕ) (ps : List Bytes) (sep : Bytes) → ps ≢ [] → join (cons_head c ps) sep ≡ c ∷ join ps sep
unfolding join cons_head
join_head c [] sep h = absurd (h refl)
join_head c (p ∷ []) sep h = refl
join_head c (p ∷ q ∷ ps) sep h = refl

split-ne-nil : (s : Bytes) (b : ℕ) → split s b ≢ []
unfolding split cons_head
split-ne-nil [] b h = cc
split-ne-nil (c ∷ s) b h = ground arith

join_nil : (ps : List Bytes) (sep : Bytes) → ps ≢ [] → join ([] ∷ ps) sep ≡ sep ++ join ps sep
unfolding join
join_nil [] sep h = absurd (h refl)
join_nil (p ∷ ps) sep h = refl

join-split : (s : Bytes) (b : ℕ) → join (split s b) (b ∷ []) ≡ s
unfolding split
join-split [] b = unfold join in refl
join-split (c ∷ s) b = ground (
  arith,
  join-split s b,
  join_head c (split s b) (b ∷ []) (split-ne-nil s b),
  join_nil (split s b) (b ∷ []) (split-ne-nil s b),
)

split-injective : (s t : Bytes) (b : ℕ) → split s b ≡ split t b → s ≡ t
split-injective s t b e = sym (join-split s b) ∙ ap (λ ps. join ps (b ∷ [])) e ∙ join-split t b

split-== : (s t : Bytes) (b : ℕ) → (split s b == split t b) ≡ (s == t)
split-== s t b = ground (arith, split-injective s t b)

-- The list ends in the other one.
abbrev pub ends_in : List Bytes → List Bytes → Bool
ends_in [] ls = [] == ls
ends_in (m ∷ ms) ls = (m ∷ ms) == ls || ends_in ms ls

abbrev pub rest_of : List Bytes → List Bytes
rest_of [] = []
rest_of (m ∷ ms) = ms

rest_of-cons_head : (c : ℕ) (ps : List Bytes) → ps ≢ [] → rest_of (cons_head c ps) ≡ rest_of ps
unfolding cons_head
rest_of-cons_head c [] h = absurd (h refl)
rest_of-cons_head c (p ∷ ps) h = refl

ends_in-rest_of :
    (ps ls : List Bytes) → ps ≢ [] → ends_in ps ls ≡ (ps == ls || ends_in (rest_of ps) ls)
ends_in-rest_of [] ls h = absurd (h refl)
ends_in-rest_of (p ∷ ps) ls h = refl

pub has_suffix_dot :
    (n s : Bytes) → has_suffix n (b'.' ∷ s) ≡ ends_in (rest_of (labels n)) (labels s)
unfolding has_suffix split
has_suffix_dot [] s = ground (arith, split-ne-nil s b'.')
has_suffix_dot (c ∷ n) s = elim (Bool-cases (c == b'.')) [
  | inl dot ↦ ground (
    arith,
    has_suffix_dot n s,
    split-== n s b'.',
    ends_in-rest_of (labels n) (labels s) (split-ne-nil n b'.'),
  )
  | inr other ↦
      ground (arith, has_suffix_dot n s, rest_of-cons_head c (labels n) (split-ne-nil n b'.'))
]

-- The source's test on two names looks at whole labels only.
suffix-labels : (n s : Bytes) → (n == s || has_suffix n (b'.' ∷ s)) ≡ ends_in (labels n) (labels s)
suffix-labels n s = rw (
  has_suffix_dot n s,
  ends_in-rest_of (labels n) (labels s) (split-ne-nil n b'.'),
  split-== n s b'.',
)

abbrev pub EndsIn : List Bytes → List Bytes → Type 0
EndsIn ms ls = (pre : List Bytes) × (ms ≡ pre ++ ls)

ends_in_sound : (ms ls : List Bytes) → ends_in ms ls ≡ true → EndsIn ms ls
ends_in_sound [] ls h = ([], ground arith)
ends_in_sound (m ∷ ms) ls h = elim (Bool-cases ((m ∷ ms) == ls)) [
  | inl same ↦ ([], (==_iff (m ∷ ms) ls).0 same)
  | inr differ ↦ let (pre, e) = ends_in_sound ms ls (ground arith) in (m ∷ pre, ap (λ l. m ∷ l) e)
]

ends_in_complete : (pre ls : List Bytes) → ends_in (pre ++ ls) ls ≡ true
ends_in_complete [] [] = ground arith
ends_in_complete [] (l ∷ ls) = ground arith
ends_in_complete (p ∷ pre) ls = ground (arith, ends_in_complete pre ls)

module _ (idna : Idna) where
  -- Some scope is a valid name, and the labels of `n` end in its labels.
  abbrev pub IsCovered : Bytes → List Bytes → Type 0
  IsCovered n [] = ⊥
  IsCovered n (scope ∷ scopes) =
      ((s : Bytes) × (normalize_dns_name idna scope ≡ ok s) × EndsIn (labels n) (labels s))
      ⊎ IsCovered n scopes

  covers_sound :
      (n : Bytes) (r : Outcome NameError Bytes)
      → covers idna n r ≡ true
      → (s : Bytes) × (r ≡ ok s) × EndsIn (labels n) (labels s)
  unfolding covers
  covers_sound n (err e) h = cc
  covers_sound n (ok s) h =
      (s, refl, ends_in_sound (labels n) (labels s) (sym (suffix-labels n s) ∙ h))

  covers_complete : (n s : Bytes) → EndsIn (labels n) (labels s) → covers idna n (ok s) ≡ true
  unfolding covers
  covers_complete n s (pre, e) = suffix-labels n s ∙ rw e (ends_in_complete pre (labels s))

  covered_sound :
      (n : Bytes) (scopes : List Bytes) → covered idna n scopes ≡ true → IsCovered n scopes
  unfolding covered
  covered_sound n [] h = cc
  covered_sound n (scope ∷ scopes) h =
      elim (Bool-cases (covers idna n (normalize_dns_name idna scope))) [
        | inl by_this ↦ inl (covers_sound n (normalize_dns_name idna scope) by_this)
        | inr not_this ↦ inr (covered_sound n scopes (ground arith))
      ]

  covered_complete :
      (n : Bytes) (scopes : List Bytes) → IsCovered n scopes → covered idna n scopes ≡ true
  unfolding covered
  covered_complete n [] h = absurd h
  covered_complete n (scope ∷ scopes) (inl (s, q, e)) = rw (q, covers_complete n s e)
  covered_complete n (scope ∷ scopes) (inr h) = ground (arith, covered_complete n scopes h)

  in_scope-ok :
      (name n : Bytes) (scopes : List Bytes)
      → normalize_dns_name idna name ≡ ok n
      → in_scope idna name scopes ≡ covered idna n scopes
  unfolding in_scope
  in_scope-ok name n scopes e = rw e

  scope_of_sound :
      (r : Outcome NameError Bytes) (scopes : List Bytes)
      → scope_of idna r scopes ≡ true
      → (n : Bytes) × (r ≡ ok n) × IsCovered n scopes
  unfolding scope_of
  scope_of_sound (err e) scopes h = cc
  scope_of_sound (ok n) scopes h = (n, refl, covered_sound n scopes h)

  -- A name is in scope exactly when it is valid and its labels end in all the labels of some valid
  -- scope: an equal name, or a name below it.
  pub in_scope_iff :
      (name : Bytes) (scopes : List Bytes)
      → (in_scope idna name scopes ≡ true)
        ↔ ((n : Bytes) × (normalize_dns_name idna name ≡ ok n) × IsCovered n scopes)
  unfolding in_scope
  in_scope_iff name scopes = (
    λ h. scope_of_sound (normalize_dns_name idna name) scopes h,
    λ (n, e, c). in_scope-ok name n scopes e ∙ covered_complete n scopes c,
  )
