-- ===== src/Transparency/Links.antt =====
-- `parseNextLink` of internal/transparency/transparency.go: the next page in a `Link` header.
use ctscan.Base.{
  ℕ, suc, ◌-◌, true, false, List, [], ◌∷◌, ◌++◌, Option, none, some, ltb, if◌then◌else◌, nat_eq,
  text_eq, Bytes, codes, ◌≡◌, refl, arith, take, drop, length, All, inl, inr, is_some, Option-cases,
  ◌≢◌, ap, sym, ◌∙◌, All-append, append_assoc,
}
use ctscan.Base.Text.{has_text, index_of, split, join, strip_prefix, cut, before_too}
use ctscan.Base.TextLemmas.{Lacks, split-Lacks, split-join, split-append}

abbrev pub next_mark : Bytes
next_mark = codes "rel=\"next\""

-- `item[start+1 : end]`, if there is such a part
between : Bytes → Option ℕ → Option ℕ → Option Bytes
between item none end = none
between item (some start) none = none
between item (some start) (some end) =
    if ltb start end then some (take (end - suc start) (drop (suc start) item)) else none

-- one round of the loop
link_in : Bytes → Option Bytes
unfolding between index_of has_text
link_in item =
    if has_text item next_mark then between item (index_of item b'<') (index_of item b'>') else none

first_or : Option Bytes → Bytes → Bytes
first_or none later = later
first_or (some link) later = link

first_link : List Bytes → Bytes
unfolding first_or link_in
first_link [] = []
first_link (item ∷ items) = let later = first_link items in first_or (link_in item) later

unfoldable pub parse_next_link : Bytes → Bytes
unfolding first_link split
parse_next_link value = first_link (split value b',')

-- `<link>; rel="next"`, as a server writes it.
abbrev pub next_item : Bytes → Bytes
next_item link = b'<' ∷ (link ++ (codes ">; " ++ next_mark))

index_of-append :
    (s rest : Bytes) (b : ℕ) → Lacks b s → index_of (s ++ b ∷ rest) b ≡ some (length s)
unfolding index_of
index_of-append [] rest b h = ground arith
index_of-append (c ∷ s) rest b h = ground (arith, index_of-append s rest b h.1)

index_of-Lacks : (s : Bytes) (b : ℕ) → Lacks b s → index_of s b ≡ none
unfolding index_of
index_of-Lacks [] b h = refl
index_of-Lacks (c ∷ s) b h = ground (arith, index_of-Lacks s b h.1)

take-append : (s rest : Bytes) → take (length s) (s ++ rest) ≡ s
take-append [] rest = refl
take-append (c ∷ s) rest = ap (λ t. c ∷ t) (take-append s rest)

strip_prefix_self : (p : Bytes) → strip_prefix p p ≡ some []
unfolding strip_prefix
strip_prefix_self [] = refl
strip_prefix_self (c ∷ p) = ground (arith, strip_prefix_self p)

has_text-later :
    (c : ℕ) (s p : Bytes)
    → has_text (s ++ p) p ≡ true
    → is_some (before_too c (cut (s ++ p) p)) ≡ true
unfolding has_text
has_text-later c s p h = elim (Option-cases (cut (s ++ p) p)) [
  | inl e ↦ cc (rw e at h)
  | inr (pair, e) ↦ rw e refl
]

has_text-append : (s p : Bytes) → has_text (s ++ p) p ≡ true
unfolding has_text cut
has_text-append [] [] = refl
has_text-append [] (c ∷ p) = ground (arith, strip_prefix_self p)
has_text-append (c ∷ s) p = elim (Option-cases (strip_prefix p (c ∷ (s ++ p)))) [
  | inl none_here ↦ ground (arith, none_here, has_text-later c s p (has_text-append s p))
  | inr (rest, here) ↦ ground (arith, here)
]

Lacks-append : (b : ℕ) (s t : Bytes) → Lacks b s → Lacks b t → Lacks b (s ++ t)
Lacks-append b s t h k = All-append (λ c. c ≢ b) s t h k

has_text-next_item : (link : Bytes) → has_text (next_item link) next_mark ≡ true
has_text-next_item link =
    ap (λ t. has_text t next_mark) (sym (append_assoc (b'<' ∷ link) (codes ">; ") next_mark))
    ∙ has_text-append (b'<' ∷ (link ++ codes ">; ")) next_mark

between-next_item :
    (link : Bytes) → between (next_item link) (some 0) (some (suc (length link))) ≡ some link
unfolding between
between-next_item link = ground (arith, take-append link (codes ">; " ++ next_mark))

link_in-next_item : (link : Bytes) → Lacks b'>' link → link_in (next_item link) ≡ some link
unfolding link_in
link_in-next_item link h =
    rw
      (
        has_text-next_item link,
        index_of-append [] (link ++ (codes ">; " ++ next_mark)) b'<' tt,
        index_of-append (b'<' ∷ link) (codes "; " ++ next_mark) b'>' (omega arith, h),
      )
      (between-next_item link)

abbrev pub HasNoMark : Bytes → Type 0
HasNoMark item = has_text item next_mark ≡ false

link_in-HasNoMark : (item : Bytes) → HasNoMark item → link_in item ≡ none
unfolding link_in
link_in-HasNoMark item h = rw h refl

first_link-append :
    (items more : List Bytes) (link : Bytes)
    → All HasNoMark items
    → Lacks b'>' link
    → first_link (items ++ next_item link ∷ more) ≡ link
unfolding first_link first_or
first_link-append [] more link h l = rw (link_in-next_item link l) refl
first_link-append (item ∷ items) more link h l =
    rw (link_in-HasNoMark item h.0) (first_link-append items more link h.1 l)

split-join-around :
    (items more : List Bytes) (item : Bytes)
    → All (Lacks b',') items
    → Lacks b',' item
    → All (Lacks b',') more
    → split (join (items ++ item ∷ more) (codes ",")) b',' ≡ items ++ item ∷ more
split-join-around [] more item hs h ms = split-join item more b',' h ms
split-join-around (i ∷ items) more item hs h ms =
    split-join i (items ++ item ∷ more) b',' hs.0
      (All-append (Lacks b',') items (item ∷ more) hs.1 (h, ms))

next_item-Lacks : (link : Bytes) → Lacks b',' link → Lacks b',' (next_item link)
next_item-Lacks link c =
    (omega arith, Lacks-append b',' link (codes ">; " ++ next_mark) c (ground arith))

-- A link that a server marks as the next one, after others that it does not mark so, is found as it
-- was written, if neither it nor the other items hold a comma and it holds no `>`.
pub parse_next_link-join :
    (items more : List Bytes) (link : Bytes)
    → All HasNoMark items
    → All (Lacks b',') items
    → All (Lacks b',') more
    → Lacks b',' link
    → Lacks b'>' link
    → parse_next_link (join (items ++ next_item link ∷ more) (codes ",")) ≡ link
unfolding parse_next_link
parse_next_link-join items more link unmarked hs ms c l =
    rw (split-join-around items more (next_item link) hs (next_item-Lacks link c) ms)
      (first_link-append items more link unmarked l)

abbrev tail : Bytes
tail = codes ">; " ++ next_mark

no_start : (end : Bytes) → Lacks b'<' end → link_in (end ++ tail) ≡ none
unfolding link_in between
no_start end l =
    rw (index_of-Lacks (end ++ tail) b'<' (Lacks-append b'<' end tail l (ground arith)))
      (ground arith)

-- A link with a comma in it, which the standard of the header allows, is not found: nothing is.
pub parse_next_link-comma :
    (start end : Bytes)
    → HasNoMark (b'<' ∷ start)
    → Lacks b',' start
    → Lacks b',' end
    → Lacks b'<' end
    → parse_next_link (next_item (start ++ b',' ∷ end)) ≡ []
unfolding parse_next_link first_link
parse_next_link-comma start end unmarked s e l =
    rw
      (
        ap (λ t. split t b',') (ap (λ t. b'<' ∷ t) (append_assoc start (b',' ∷ end) tail)),
        split-append (b'<' ∷ start) (end ++ tail) b',' (omega arith, s),
        split-Lacks (end ++ tail) b',' (Lacks-append b',' end tail e (ground arith)),
        link_in-HasNoMark (b'<' ∷ start) unmarked,
        no_start end l,
      )
      refl
