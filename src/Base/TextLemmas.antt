-- ===== src/Base/TextLemmas.antt =====
-- Texts that lack some bytes: trimming, cutting and splitting leave them whole.
use ctscan.Base.{
  ℕ, ◌≡◌, ◌≢◌, refl, false, List, [], ◌∷◌, ◌++◌, none, arith, nat_eq, text_eq, Bytes, All, ap, ◌∙◌,
}
use ctscan.Base.Text.{is_space, trim_left, trim_right, trim_space, cut, split, join}

-- No byte of the text is `b`.
abbrev pub Lacks : ℕ → Bytes → Type 0
Lacks b = All (λ c. c ≢ b)

abbrev pub HasNoSpace : Bytes → Type 0
HasNoSpace = All (λ c. is_space c ≡ false)

trim_left-HasNoSpace : (s : Bytes) → HasNoSpace s → trim_left s ≡ s
unfolding trim_left
trim_left-HasNoSpace [] h = refl
trim_left-HasNoSpace (c ∷ s) h = ground arith

trim_right-HasNoSpace : (s : Bytes) → HasNoSpace s → trim_right s ≡ s
unfolding trim_right
trim_right-HasNoSpace [] h = refl
trim_right-HasNoSpace (c ∷ s) h = ground (arith, trim_right-HasNoSpace s h.1)

pub trim_space-HasNoSpace : (s : Bytes) → HasNoSpace s → trim_space s ≡ s
unfolding trim_space
trim_space-HasNoSpace s h = rw (trim_left-HasNoSpace s h) (trim_right-HasNoSpace s h)

pub cut-Lacks : (s : Bytes) (b : ℕ) → Lacks b s → cut s (b ∷ []) ≡ none
unfolding cut
cut-Lacks [] b h = refl
cut-Lacks (c ∷ s) b h = ground (arith, cut-Lacks s b h.1)

pub split-Lacks : (s : Bytes) (b : ℕ) → Lacks b s → split s b ≡ s ∷ []
unfolding split
split-Lacks [] b h = refl
split-Lacks (c ∷ s) b h = ground (arith, split-Lacks s b h.1)

pub split-append : (s rest : Bytes) (b : ℕ) → Lacks b s → split (s ++ b ∷ rest) b ≡ s ∷ split rest b
unfolding split
split-append [] rest b h = ground arith
split-append (c ∷ s) rest b h = ground (arith, split-append s rest b h.1)

-- Splitting a join gives the parts back, if there is one and none holds the separator.
pub split-join :
    (p : Bytes) (ps : List Bytes) (b : ℕ)
    → Lacks b p
    → All (Lacks b) ps
    → split (join (p ∷ ps) (b ∷ [])) b ≡ p ∷ ps
unfolding join
split-join p [] b h hs = split-Lacks p b h
split-join p (q ∷ ps) b h hs =
    split-append p (join (q ∷ ps) (b ∷ [])) b h ∙ ap (λ t. p ∷ t) (split-join q ps b hs.0 hs.1)
