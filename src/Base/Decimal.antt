-- ===== src/Base/Decimal.antt =====
-- `strconv.Atoi` and the `%d` of `fmt`, on 64-bit integers, and their round trip.
use ctscan.Base.{
  ℕ, zero, suc, ◌+◌, ◌-◌, ◌*◌, ◌/◌, ◌%◌, ◌^◌, ◌≤◌, ◌<◌, ◌≡◌, refl, ◌∙◌, ◌&&◌, [], ◌∷◌, Option, none,
  some, arith, ltb, leb, if◌then◌else◌, ◌==◌, nat_eq, Bytes, codes, All,
}
use ctscan.Base.Int.{ℤ, pos, negsuc}

abbrev pub IsDigit : ℕ → Type 0
IsDigit c = (b'0' ≤ c) × (c ≤ b'9')

-- The digits of `n` in front of `out`; a round for each digit.
digits_onto : ℕ → ℕ → Bytes → Bytes
digits_onto zero n out = out
digits_onto (suc fuel) n out =
    let more = digits_onto fuel (n / 10) ((b'0' + n % 10) ∷ out) in
    if ltb n 10 then (b'0' + n) ∷ out else more

-- `%d` at a number that is not negative. A number has fewer digits than its value plus one.
unfoldable pub decimal : ℕ → Bytes
unfolding digits_onto
decimal n = digits_onto (suc n) n []

-- `%d` at a signed number
unfoldable pub show_int : ℤ → Bytes
unfolding decimal
show_int (pos n) = decimal n
show_int (negsuc n) = b'-' ∷ decimal (suc n)

unfoldable pub hex_digit : ℕ → ℕ
hex_digit n = if ltb n 10 then b'0' + n else b'a' + (n - 10)

-- `hex.EncodeToString`
unfoldable pub hex : Bytes → Bytes
unfolding hex_digit
hex [] = []
hex (c ∷ s) = hex_digit (c / 16 % 16) ∷ hex_digit (c % 16) ∷ hex s

unfoldable pub read_digits : Bytes → ℕ → Option ℕ
read_digits [] n = some n
read_digits (c ∷ s) n =
    if leb b'0' c && leb c b'9' then read_digits s (n * 10 + (c - b'0')) else none

unsigned : Bytes → Option ℕ
unsigned [] = none
unsigned (c ∷ s) = read_digits (c ∷ s) 0

abbrev pub max_int : ℕ
max_int = 2 ^ 63 - 1

positive : Option ℕ → Option ℤ
positive none = none
positive (some n) = if leb n max_int then some (pos n) else none

minus : ℕ → ℤ
minus zero = pos 0
minus (suc n) = negsuc n

negative : Option ℕ → Option ℤ
negative none = none
negative (some n) = if leb n (max_int + 1) then some (minus n) else none

-- strconv.Atoi
unfoldable pub atoi : Bytes → Option ℤ
unfolding read_digits unsigned positive negative minus
atoi [] = none
atoi (c ∷ s) =
    if c == b'-'
    then negative (unsigned s)
    else if c == b'+'
    then positive (unsigned s)
    else positive (unsigned (c ∷ s))

read_digits-digits_onto :
    (fuel n : ℕ) (out : Bytes)
    → n < fuel
    → read_digits (digits_onto fuel n out) 0 ≡ read_digits out n
unfolding read_digits digits_onto
read_digits-digits_onto zero n out h = absurd (omega arith)
read_digits-digits_onto (suc fuel) n out h =
    ground (arith, read_digits-digits_onto fuel (n / 10) ((b'0' + n % 10) ∷ out))

abbrev pub StartsWithDigit : Bytes → Type 0
StartsWithDigit [] = ⊥
StartsWithDigit (c ∷ s) = IsDigit c

digits_onto-StartsWithDigit :
    (fuel n : ℕ) (out : Bytes) → n < fuel → StartsWithDigit (digits_onto fuel n out)
unfolding digits_onto
digits_onto-StartsWithDigit zero n out h = absurd (omega arith)
digits_onto-StartsWithDigit (suc fuel) n out h =
    ground (arith, digits_onto-StartsWithDigit fuel (n / 10) ((b'0' + n % 10) ∷ out))

pub decimal-StartsWithDigit : (n : ℕ) → StartsWithDigit (decimal n)
unfolding decimal
decimal-StartsWithDigit n = digits_onto-StartsWithDigit (suc n) n [] (omega arith)

digits_onto-All :
    (fuel n : ℕ) (out : Bytes) → All IsDigit out → All IsDigit (digits_onto fuel n out)
unfolding digits_onto
digits_onto-All zero n out h = h
digits_onto-All (suc fuel) n out h =
    ground (arith, digits_onto-All fuel (n / 10) ((b'0' + n % 10) ∷ out))

pub decimal-All : (n : ℕ) → All IsDigit (decimal n)
unfolding decimal
decimal-All n = digits_onto-All (suc n) n [] tt

atoi-read_digits :
    (s : Bytes) (n : ℕ)
    → StartsWithDigit s
    → read_digits s 0 ≡ some n
    → n ≤ max_int
    → atoi s ≡ some (pos n)
unfolding atoi
atoi-read_digits [] n d e h = absurd d
atoi-read_digits (c ∷ s) n d e h = ground arith

-- Atoi reads back what `%d` prints, for every number of an int64 that is not negative.
pub atoi-decimal : (n : ℕ) → n ≤ max_int → atoi (decimal n) ≡ some (pos n)
unfolding decimal
atoi-decimal n h =
    atoi-read_digits (decimal n) n (decimal-StartsWithDigit n)
      (read_digits-digits_onto (suc n) n [] (omega arith) ∙ unfold read_digits in refl) h

atoi_tests :
    (atoi (codes "443") ≡ some (pos 443))
    × (atoi (codes "-5") ≡ some (negsuc 4))
    × (atoi (codes "+7") ≡ some (pos 7))
    × (atoi (codes "8a") ≡ none)
    × (atoi (codes "-") ≡ none)
    × (atoi (codes "9223372036854775808") ≡ none)
unfolding atoi nat_eq
atoi_tests = (refl, refl, refl, refl, refl, refl)
