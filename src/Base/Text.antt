-- ===== src/Base/Text.antt =====
-- The functions of Go's `strings` that the program calls, on bytes. White space and letter case
-- are those of ASCII.
use ctscan.Base.{
  ℕ, suc, ◌+◌, ◌-◌, Bool, false, ◌&&◌, ◌||◌, List, [], ◌∷◌, ◌++◌, Option, none, some, map, leb,
  if◌then◌else◌, ◌==◌, nat_eq, text_eq, contains, is_some, Bytes, codes, ◌≡◌, refl,
}

-- '\t', '\n', '\v', '\f', '\r' and ' '.
unfoldable pub is_space : ℕ → Bool
is_space c = leb 9 c && leb c 13 || c == b' '

unfoldable pub lower : ℕ → ℕ
lower c = if leb b'A' c && leb c b'Z' then c + 32 else c

unfoldable pub upper : ℕ → ℕ
upper c = if leb b'a' c && leb c b'z' then c - 32 else c

unfoldable pub to_lower : Bytes → Bytes
unfolding lower
to_lower = map lower

unfoldable pub to_upper : Bytes → Bytes
unfolding upper
to_upper = map upper

unfoldable pub trim_left : Bytes → Bytes
unfolding is_space
trim_left [] = []
trim_left (c ∷ s) = if is_space c then trim_left s else c ∷ s

unfoldable pub trim_right : Bytes → Bytes
unfolding is_space
trim_right [] = []
trim_right (c ∷ s) = let r = trim_right s in if is_space c && r == [] then [] else c ∷ r

-- strings.TrimSpace
unfoldable pub trim_space : Bytes → Bytes
unfolding trim_left trim_right
trim_space s = trim_right (trim_left s)

-- What follows the prefix.
unfoldable pub strip_prefix : Bytes → Bytes → Option Bytes
strip_prefix [] s = some s
strip_prefix (p ∷ ps) [] = none
strip_prefix (p ∷ ps) (c ∷ s) = if p == c then strip_prefix ps s else none

-- strings.HasPrefix(s, p)
unfoldable pub has_prefix : Bytes → Bytes → Bool
unfolding strip_prefix
has_prefix s p = is_some (strip_prefix p s)

or_else_text : Option Bytes → Bytes → Bytes
or_else_text none s = s
or_else_text (some t) s = t

-- strings.TrimPrefix(s, p)
unfoldable pub trim_prefix : Bytes → Bytes → Bytes
unfolding strip_prefix or_else_text
trim_prefix s p = or_else_text (strip_prefix p s) s

-- strings.HasSuffix(s, t)
unfoldable pub has_suffix : Bytes → Bytes → Bool
has_suffix [] t = [] == t
has_suffix (c ∷ s) t = (c ∷ s) == t || has_suffix s t

-- strings.TrimSuffix(s, t)
unfoldable pub trim_suffix : Bytes → Bytes → Bytes
trim_suffix [] t = []
trim_suffix (c ∷ s) t = if (c ∷ s) == t then [] else c ∷ trim_suffix s t

abbrev pub before_too : ℕ → Option (Bytes × Bytes) → Option (Bytes × Bytes)
before_too c none = none
before_too c (some (b, a)) = some (c ∷ b, a)

-- strings.Cut(s, sep): the texts around the first `sep`.
unfoldable pub cut : Bytes → Bytes → Option (Bytes × Bytes)
unfolding strip_prefix
cut [] sep = elim (strip_prefix sep []) [ none ↦ none | some rest ↦ some ([], rest) ]
cut (c ∷ s) sep =
    let later = before_too c (cut s sep) in
    elim (strip_prefix sep (c ∷ s)) [ none ↦ later | some rest ↦ some ([], rest) ]

-- strings.Contains(s, sub)
unfoldable pub has_text : Bytes → Bytes → Bool
unfolding cut
has_text s sub = is_some (cut s sub)

-- strings.ContainsAny(s, chars), for ASCII `chars`
unfoldable pub contains_any : Bytes → Bytes → Bool
contains_any [] chars = false
contains_any (c ∷ s) chars = contains chars c || contains_any s chars

unfoldable pub cons_head : ℕ → List Bytes → List Bytes
cons_head c [] = (c ∷ []) ∷ []
cons_head c (p ∷ ps) = (c ∷ p) ∷ ps

-- strings.Split(s, sep), for a separator of one byte
unfoldable pub split : Bytes → ℕ → List Bytes
unfolding cons_head
split [] sep = [] ∷ []
split (c ∷ s) sep = let rest = split s sep in if c == sep then [] ∷ rest else cons_head c rest

-- strings.Join(parts, sep)
unfoldable pub join : List Bytes → Bytes → Bytes
join [] sep = []
join (p ∷ []) sep = p
join (p ∷ q ∷ ps) sep = p ++ (sep ++ join (q ∷ ps) sep)

-- strings.IndexByte(s, b), which is -1 if there is none
unfoldable pub index_of : Bytes → ℕ → Option ℕ
index_of [] b = none
index_of (c ∷ s) b =
    let later = index_of s b in
    if c == b then some 0 else elim later [ none ↦ none | some i ↦ some (suc i) ]

-- strings.TrimRight(s, b), for a cut set of one byte
unfoldable pub trim_right_byte : Bytes → ℕ → Bytes
trim_right_byte [] b = []
trim_right_byte (c ∷ s) b = let r = trim_right_byte s b in if c == b && r == [] then [] else c ∷ r

split_at_spaces : Bytes → List Bytes
split_at_spaces [] = [] ∷ []
split_at_spaces (c ∷ s) =
    let rest = split_at_spaces s in if is_space c then [] ∷ rest else cons_head c rest

drop_empty : List Bytes → List Bytes
drop_empty [] = []
drop_empty (w ∷ ws) = let rest = drop_empty ws in if w == [] then rest else w ∷ rest

-- strings.Fields(s): the texts between runs of white space
unfoldable pub fields : Bytes → List Bytes
unfolding split_at_spaces drop_empty is_space cons_head
fields s = drop_empty (split_at_spaces s)

split_test : split (codes "a,,b") b',' ≡ codes "a" ∷ [] ∷ codes "b" ∷ []
unfolding split nat_eq
split_test = refl

cut_test : cut (codes "ab://c") (codes "://") ≡ some (codes "ab", codes "c")
unfolding cut nat_eq
cut_test = refl

trim_test : trim_space (codes " a b \t") ≡ codes "a b"
unfolding trim_space nat_eq text_eq
trim_test = refl

fields_test : fields (codes " a\nbc  ") ≡ codes "a" ∷ codes "bc" ∷ []
unfolding fields nat_eq text_eq
fields_test = refl

index_of_test :
    (index_of (codes "a<b") b'<' ≡ some 1) × (trim_right_byte (codes "a//") b'/' ≡ codes "a")
unfolding index_of trim_right_byte nat_eq text_eq
index_of_test = (refl, refl)
