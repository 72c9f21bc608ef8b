-- ===== src/Scanner/StartTls/Search.antt =====
-- That `containsBytes` finds the places where its pattern stands.
use ctscan.Base.{
  true, [], ◌∷◌, ◌++◌, ◌==◌, nat_eq, text_eq, Bytes, ◌≡◌, ◌↔◌, refl, ap, arith, Bool-cases, inl,
  inr, append-nil,
}
use ctscan.Base.Text.{has_prefix, strip_prefix}
use ctscan.Scanner.StartTls.{contains_bytes}

prefix_sound : (s p : Bytes) → has_prefix s p ≡ true → (post : Bytes) × (s ≡ p ++ post)
unfolding has_prefix strip_prefix
prefix_sound s [] h = (s, refl)
prefix_sound [] (d ∷ p) h = cc
prefix_sound (c ∷ s) (d ∷ p) h = elim (Bool-cases (c == d)) [
  | inl e ↦ let (post, q) = prefix_sound s p (ground (arith, h)) in (post, ground (arith, q, e))
  | inr e ↦ absurd (ground (arith, h, e))
]

prefix_complete : (p post : Bytes) → has_prefix (p ++ post) p ≡ true
unfolding has_prefix strip_prefix
prefix_complete [] post = ground arith
prefix_complete (d ∷ p) post = ground (arith, prefix_complete p post)

here : (s p : Bytes) → has_prefix s p ≡ true → contains_bytes s p ≡ true
unfolding contains_bytes
here [] [] h = ground arith
here [] (d ∷ p) h = absurd (unfold has_prefix in ground (arith, h))
here (c ∷ s) p h = ground (arith, h)

-- The pattern stands in the bytes.
abbrev pub IsPart : Bytes → Bytes → Type 0
IsPart bytes pattern = (pre : Bytes) × (post : Bytes) × (bytes ≡ pre ++ (pattern ++ post))

contains_sound : (s p : Bytes) → contains_bytes s p ≡ true → IsPart s p
unfolding contains_bytes
contains_sound [] p h = ([], [], ground (arith, h, append-nil p))
contains_sound (c ∷ s) p h = elim (Bool-cases (has_prefix (c ∷ s) p)) [
  | inl e ↦ let (post, q) = prefix_sound (c ∷ s) p e in ([], post, q)
  | inr e ↦
      let (pre, post, q) = contains_sound s p (ground (arith, h, e)) in
      (c ∷ pre, post, ap (λ l. c ∷ l) q)
]

contains_complete : (pre p post : Bytes) → contains_bytes (pre ++ (p ++ post)) p ≡ true
unfolding contains_bytes
contains_complete [] p post = here (p ++ post) p (prefix_complete p post)
contains_complete (c ∷ pre) p post = ground (arith, contains_complete pre p post)

-- The search finds the pattern exactly when it stands at some place of the bytes.
pub contains_bytes_iff :
    (bytes pattern : Bytes) → (contains_bytes bytes pattern ≡ true) ↔ IsPart bytes pattern
contains_bytes_iff bytes pattern =
    (contains_sound bytes pattern, λ (pre, post, q). rw q (contains_complete pre pattern post))
