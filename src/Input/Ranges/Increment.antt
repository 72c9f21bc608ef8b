-- ===== src/Input/Ranges/Increment.antt =====
-- `incrementIP` adds one to the address as a number, and wraps around at its end.
use ctscan.Base.{
  ℕ, ◌+◌, ◌*◌, ◌%◌, ◌<◌, ◌≡◌, refl, Bool, true, false, [], ◌∷◌, arith, if◌then◌else◌, ◌==◌, nat_eq,
  Bytes, All, Bool-cases, inl, inr,
}
use ctscan.Input.Ranges.{bump, increment_carry, increment_ip}

abbrev pub IsByte : ℕ → Type 0
IsByte b = b < 256

-- The number of addresses of this length.
abbrev pub space : Bytes → ℕ
space [] = 1
space (b ∷ bs) = 256 * space bs

-- The address as a number, its first byte the highest.
abbrev pub value : Bytes → ℕ
value [] = 0
value (b ∷ bs) = b * space bs + value bs

pub value-lt-space : (ip : Bytes) → All IsByte ip → value ip < space ip
value-lt-space [] h = omega arith
value-lt-space (b ∷ bs) h = grind (arith, value-lt-space bs h.1)

-- The bytes, and the carry out of the first one, are together the number plus one.
abbrev IsNext : Bytes → Bytes × Bool → Type 0
IsNext ip (next, carry) =
    (value next + (if carry then space ip else 0) ≡ value ip + 1)
    × (space next ≡ space ip)
    × All IsByte next

bump-IsNext :
    (b : ℕ) (bs next : Bytes) (carry : Bool)
    → b < 256
    → IsNext bs (next, carry)
    → IsNext (b ∷ bs) (bump b (next, carry))
unfolding bump
bump-IsNext b bs next false hb (e, s, bytes) = (rw s (omega arith), rw s refl, (hb, bytes))
bump-IsNext b bs next true hb (e, s, bytes) = elim (Bool-cases ((b + 1) % 256 == 0)) [
  | inl zero_byte ↦
      let last : b ≡ 255 = ground arith in
      rw (zero_byte, last) (omega arith, rw s, (omega arith, bytes))
  | inr other ↦
      let small : (b + 1) % 256 ≡ b + 1 = ground arith in
      rw (other, small, s) (omega arith, refl, (ground arith, bytes))
]

increment_carry-IsNext : (ip : Bytes) → All IsByte ip → IsNext ip (increment_carry ip)
unfolding increment_carry
increment_carry-IsNext [] h = (omega arith, refl, tt)
increment_carry-IsNext (b ∷ bs) h =
    bump-IsNext b bs (increment_carry bs).0 (increment_carry bs).1 h.0
      (increment_carry-IsNext bs h.1)

wrapped :
    (v next size : ℕ) (carry : Bool)
    → v < size
    → next < size
    → next + (if carry then size else 0) ≡ v + 1
    → next ≡ (v + 1) % size
wrapped v next size false hv hn e = grind arith
wrapped v next size true hv hn e = grind arith

-- The address after an address: its number is one more, or 0 behind the last address.
pub value-increment_ip :
    (ip : Bytes) → All IsByte ip → value (increment_ip ip) ≡ (value ip + 1) % space ip
unfolding increment_ip
value-increment_ip ip h =
    let (e, s, bytes) = increment_carry-IsNext ip h in
    wrapped (value ip) (value (increment_carry ip).0) (space ip) (increment_carry ip).1
      (value-lt-space ip h) (rw s at (value-lt-space (increment_carry ip).0 bytes)) e

pub increment_ip-bytes :
    (ip : Bytes)
    → All IsByte ip
    → (space (increment_ip ip) ≡ space ip) × All IsByte (increment_ip ip)
unfolding increment_ip
increment_ip-bytes ip h = let (e, s, bytes) = increment_carry-IsNext ip h in (s, bytes)

increment_test : increment_ip (10 ∷ 0 ∷ 255 ∷ 255 ∷ []) ≡ 10 ∷ 1 ∷ 0 ∷ 0 ∷ []
unfolding increment_ip nat_eq
increment_test = refl
