-- ===== src/Base/Int.antt =====
-- Signed integers over the native numbers, under the library's names.
use ctscan.Base.Core.{ℕ, suc, ◌+◌, ◌-◌, ◌%◌, ◌^◌, if◌then◌else◌, ◌≤◌, ◌<◌, Bool, ltb}

-- `negsuc n` is -(n + 1).
pub data ℤ : Type 0 where
  pos : ℕ → ℤ
  negsuc : ℕ → ℤ

abbrev pub pos_part : ℤ → ℕ
pos_part (pos n) = n
pos_part (negsuc n) = 0

abbrev pub neg_part : ℤ → ℕ
neg_part (pos n) = 0
neg_part (negsuc n) = suc n

infix 50 ◌≤ℤ◌ ◌<ℤ◌
abbrev pub ◌≤ℤ◌ : ℤ → ℤ → Type 0
a ≤ℤ b = pos_part a + neg_part b ≤ pos_part b + neg_part a

abbrev pub ◌<ℤ◌ : ℤ → ℤ → Type 0
a <ℤ b = pos_part a + neg_part b < pos_part b + neg_part a

abbrev pub ltb_ℤ : ℤ → ℤ → Bool
ltb_ℤ a b = ltb (pos_part a + neg_part b) (pos_part b + neg_part a)

-- The value of a 64-bit integer of Go after a computation whose exact result is `n`.
unfoldable pub wrap64 : ℕ → ℤ
wrap64 n = let m = n % 2 ^ 64 in if ltb m (2 ^ 63) then pos m else negsuc (2 ^ 64 - 1 - m)

distance : ℕ → ℕ → ℤ
distance m n = if ltb m n then negsuc (n - m - 1) else pos (m - n)

-- Subtraction of 64-bit integers that stops at their bounds, as that of two times does in Go.
unfoldable pub sub_saturated : ℤ → ℤ → ℤ
unfolding distance
sub_saturated a b =
    let above = pos_part a + neg_part b in
    let below = pos_part b + neg_part a in
    if ltb (below + 2 ^ 63 - 1) above
    then pos (2 ^ 63 - 1)
    else if ltb (above + 2 ^ 63) below
    then negsuc (2 ^ 63 - 1)
    else distance above below
