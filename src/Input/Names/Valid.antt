-- ===== src/Input/Names/Valid.antt =====
-- What a normalized name looks like, and that normalizing it again changes nothing.
use ctscan.Base.{
  ℕ, ◌≤◌, Bool, true, false, ◌||◌, List, [], ◌∷◌, ◌++◌, ◌≡◌, ◌≢◌, ◌⊎◌, refl, sym, ap, ◌∙◌, Outcome,
  ok, err, ◌>>=◌, if◌then◌else◌, ◌==◌, nat_eq, text_eq, texts_eq, Bytes, codes, arith, Bool-cases,
  inl, inr, length, All,
}
use ctscan.Base.Text.{
  lower, to_lower, is_space, trim_suffix, trim_prefix, strip_prefix, contains_any, split,
  has_prefix, has_suffix,
}
use ctscan.Base.TextLemmas.{HasNoSpace, trim_space-HasNoSpace}
use ctscan.Input.Names.{
  Idna, bad_characters, from_idna, is_bad_label, check_labels, check_ascii, prepare_name, bad_bytes,
  normalize_dns_name,
}
use ctscan.Input.Names.Scope.{labels, ends_in, rest_of, has_suffix_dot}

-- A label of a host name: 1 to 63 bytes, with no hyphen at either end.
abbrev pub IsLabel : Bytes → Type 0
IsLabel l =
    (l ≢ []) × (length l ≤ 63) × ((t : Bytes) → l ≢ b'-' ∷ t) × ((t : Bytes) → l ≢ t ++ b'-' ∷ [])

abbrev pub IsHostName : Bytes → Type 0
IsHostName n = (length n ≤ 253) × All IsLabel (labels n)

has_suffix-append : (t u : Bytes) → has_suffix (t ++ u) u ≡ true
unfolding has_suffix
has_suffix-append [] [] = ground arith
has_suffix-append [] (c ∷ u) = ground arith
has_suffix-append (c ∷ t) u = ground (arith, has_suffix-append t u)

has_prefix-cons : (c : ℕ) (t : Bytes) → has_prefix (c ∷ t) (c ∷ []) ≡ true
unfolding has_prefix strip_prefix
has_prefix-cons c t = ground arith

is_bad_label-IsLabel : (l : Bytes) → is_bad_label l ≡ false → IsLabel l
unfolding is_bad_label
is_bad_label-IsLabel l h = (
  ground arith,
  ground arith,
  λ t e. ground (arith, has_prefix-cons b'-' t),
  λ t e. ground (arith, has_suffix-append t (b'-' ∷ [])),
)

check_labels-ok :
    (ls : List Bytes) (a : Bytes) {b : Bytes}
    → check_labels ls a ≡ ok b
    → (b ≡ a) × All (λ l. is_bad_label l ≡ false) ls
unfolding check_labels
check_labels-ok [] a h = (cc, tt)
check_labels-ok (l ∷ ls) a {b} h = ground (arith, check_labels-ok ls a {b = b})

AreLabels : (ls : List Bytes) → All (λ l. is_bad_label l ≡ false) ls → All IsLabel ls
AreLabels [] h = tt
AreLabels (l ∷ ls) h = (is_bad_label-IsLabel l h.0, AreLabels ls h.1)

check_ascii-ok :
    (a : Bytes) {b : Bytes}
    → check_ascii a ≡ ok b
    → (b ≡ a) × (length a ≤ 253) × All (λ l. is_bad_label l ≡ false) (labels a)
unfolding check_ascii
check_ascii-ok a {b} h = ground (arith, check_labels-ok (labels a) a {b = b})

from_idna-ok :
    (r : Outcome Bytes Bytes) {n : Bytes}
    → (from_idna r >>= check_ascii) ≡ ok n
    → (r ≡ ok n) × (check_ascii n ≡ ok n)
unfolding from_idna
from_idna-ok (err e) h = cc
from_idna-ok (ok a) {n} h =
    let (e, short, good) = check_ascii-ok a h in (ap ok (sym e), rw e (rw e at h))

abbrev is_bad_name : Bytes → Bool
is_bad_name name = name == [] || contains_any name bad_bytes

module _ (idna : Idna) where
  normalize_lem :
      (raw : Bytes)
      → normalize_dns_name idna raw ≡ (
          if is_bad_name (prepare_name raw)
          then err bad_characters
          else (from_idna (idna.to_ascii (prepare_name raw)) >>= check_ascii))
  unfolding normalize_dns_name
  normalize_lem raw = refl

  normalize-ok :
      (raw : Bytes) {n : Bytes}
      → normalize_dns_name idna raw ≡ ok n
      → (idna.to_ascii (prepare_name raw) ≡ ok n) × (check_ascii n ≡ ok n)
  normalize-ok raw {n} h = elim (Bool-cases (is_bad_name (prepare_name raw))) [
    | inl bad ↦ cc (rw (normalize_lem raw, bad) at h)
    | inr good ↦ from_idna-ok (idna.to_ascii (prepare_name raw)) (rw (normalize_lem raw, good) at h)
  ]

  -- A normalized name has at most 253 bytes, and its labels 1 to 63 bytes with no hyphen at the ends.
  pub normalize-IsHostName :
      (raw : Bytes) {n : Bytes} → normalize_dns_name idna raw ≡ ok n → IsHostName n
  normalize-IsHostName raw {n} h =
      let (e, short, good) = check_ascii-ok n (normalize-ok raw h).1 in
      (short, AreLabels (labels n) good)

-- Letters, digits, hyphens and dots, in lower case.
abbrev pub IsHostByte : ℕ → Type 0
IsHostByte c = ((b'a' ≤ c) × (c ≤ b'z')) ⊎ ((b'0' ≤ c) × (c ≤ b'9')) ⊎ (c ≡ b'-') ⊎ (c ≡ b'.')

-- What the Lookup profile of idna promises: its result is in lower case and holds letters, digits
-- and hyphens (the STD3 rules), and is left as it is when it is converted again.
pub record IsLookup (idna : Idna) : Type 0 where
  pub host_bytes : (s t : Bytes) → idna.to_ascii s ≡ ok t → All IsHostByte t
  pub stable : (s t : Bytes) → idna.to_ascii s ≡ ok t → idna.to_ascii t ≡ ok t

to_lower-host : (s : Bytes) → All IsHostByte s → to_lower s ≡ s
unfolding to_lower lower
to_lower-host [] h = refl
to_lower-host (c ∷ s) h = ground (arith, to_lower-host s h.1)

host-HasNoSpace : (s : Bytes) → All IsHostByte s → HasNoSpace s
unfolding is_space
host-HasNoSpace [] h = tt
host-HasNoSpace (c ∷ s) h = (ground arith, host-HasNoSpace s h.1)

contains_any-host : (s : Bytes) → All IsHostByte s → contains_any s bad_bytes ≡ false
unfolding contains_any
contains_any-host [] h = refl
contains_any-host (c ∷ s) h = ground (arith, contains_any-host s h.1)

trim_prefix-host : (s : Bytes) → All IsHostByte s → trim_prefix s (codes "*.") ≡ s
unfolding trim_prefix
trim_prefix-host [] h = refl
trim_prefix-host (c ∷ s) h = ground arith

trim_suffix-no : (s t : Bytes) → has_suffix s t ≡ false → trim_suffix s t ≡ s
unfolding has_suffix trim_suffix
trim_suffix-no [] t h = refl
trim_suffix-no (c ∷ s) t h = ground (arith, trim_suffix-no s t)

ends_in-labels :
    (ls : List Bytes) → All (λ l. is_bad_label l ≡ false) ls → ends_in ls (labels []) ≡ false
unfolding split is_bad_label texts_eq
ends_in-labels [] g = refl
ends_in-labels (l ∷ ls) g = ground (arith, ends_in-labels ls g.1)

rest_of-All :
    (ls : List Bytes)
    → All (λ l. is_bad_label l ≡ false) ls
    → All (λ l. is_bad_label l ≡ false) (rest_of ls)
rest_of-All [] g = tt
rest_of-All (l ∷ ls) g = g.1

no_final_dot :
    (n : Bytes) → All (λ l. is_bad_label l ≡ false) (labels n) → trim_suffix n (codes ".") ≡ n
no_final_dot n g =
    trim_suffix-no n (b'.' ∷ [])
      (has_suffix_dot n [] ∙ ends_in-labels (rest_of (labels n)) (rest_of-All (labels n) g))

prepare_name-host :
    (n : Bytes)
    → All IsHostByte n
    → All (λ l. is_bad_label l ≡ false) (labels n)
    → prepare_name n ≡ n
unfolding prepare_name
prepare_name-host n h g =
    rw (to_lower-host n h, no_final_dot n g, trim_space-HasNoSpace n (host-HasNoSpace n h))
      (trim_prefix-host n h)

host-ne-nil : (n : Bytes) → All (λ l. is_bad_label l ≡ false) (labels n) → n ≢ []
unfolding split is_bad_label
host-ne-nil [] g e = ground arith
host-ne-nil (c ∷ n) g e = cc

-- Normalizing a normalized name gives it back.
pub normalize_idem :
    (idna : Idna) (raw n : Bytes)
    → IsLookup idna
    → normalize_dns_name idna raw ≡ ok n
    → normalize_dns_name idna n ≡ ok n
normalize_idem idna raw n law h =
    let (found, checked) = normalize-ok idna raw h in
    let host : All IsHostByte n = law.host_bytes (prepare_name raw) n found in
    let good : All (λ l. is_bad_label l ≡ false) (labels n) = (check_ascii-ok n checked).2 in
    rw (normalize_lem idna n, prepare_name-host n host good, law.stable (prepare_name raw) n found)
      (unfold from_idna in ground (arith, host-ne-nil n good, contains_any-host n host, checked))
