-- ===== src/Input/Ranges/Block.antt =====
-- Which addresses `expandCIDR` lists, its limit, and the range on which its loop never ends.
use native.Mathlib.Decide.{dec_lt}
use native.Mathlib.Nat.{mod_self}
use ctscan.Base.{
  ℕ, zero, suc, ◌+◌, ◌%◌, ◌≤◌, ◌<◌, ◌≡◌, ◌≢◌, refl, sym, ap, ◌∙◌, Bool, true, false, not, ◌&&◌, ◌⊎◌,
  inl, inr, List, [], ◌∷◌, ◌++◌, append_assoc, append-nil, map, none, some, ok, err, arith, ltb,
  leb, Bytes, Bool-cases, length, length-append, All,
}
use ctscan.Input.Ranges.{Network, too_many, cidr_limit, increment_ip, collect, addresses_of}
use ctscan.Input.Ranges.Increment.{
  IsByte, space, value, value-lt-space, value-increment_ip, increment_ip-bytes,
}

-- What `net.ParseCIDR` and `net.IPNet.Contains` promise: the network holds the `size` addresses
-- from its own on, of those that have its length. An IPv6 network that holds ::ffff:0:0/96 does not:
-- `Contains` reads the addresses there as IPv4 and refuses them.
pub record IsBlock (network : Network) (size : ℕ) : Type 0 where
  pub bytes : All IsByte network.address
  pub filled : 0 < size
  pub fits : value network.address + size ≤ space network.address
  pub holds_iff :
      (ip : Bytes)
      → All IsByte ip
      → space ip ≡ space network.address
      → network.holds ip
        ≡ (leb (value network.address) (value ip) && ltb (value ip) (value network.address + size))

addresses_of_lem :
    (network : Network) (allow : Bool) (fuel : ℕ)
    → addresses_of network allow fuel ≡ collect network allow fuel network.address []
unfolding addresses_of
addresses_of_lem network allow fuel = refl

-- `n` addresses, each after the one before.
abbrev pub run_of : ℕ → Bytes → List Bytes
run_of zero ip = []
run_of (suc n) ip = ip ∷ run_of n (increment_ip ip)

abbrev pub range_from : ℕ → ℕ → List ℕ
range_from start zero = []
range_from start (suc n) = start ∷ range_from (start + 1) n

-- The addresses of a run are the consecutive numbers.
pub value-run_of :
    (n : ℕ) (ip : Bytes)
    → All IsByte ip
    → value ip + n ≤ space ip
    → map value (run_of n ip) ≡ range_from (value ip) n
value-run_of zero ip h fits = refl
value-run_of (suc zero) ip h fits = refl
value-run_of (suc (suc n)) ip h fits =
    let (s, bytes) = increment_ip-bytes ip h in
    let e : value (increment_ip ip) ≡ value ip + 1 = value-increment_ip ip h ∙ grind arith in
    rw (← e)
      (ap (λ l. value ip ∷ l) (value-run_of (suc n) (increment_ip ip) bytes (rw s (omega arith))))

mod_cases :
    (n total : ℕ)
    → n ≤ total
    → 0 < total
    → ((n < total) × (n % total ≡ n)) ⊎ ((n ≡ total) × (n % total ≡ 0))
mod_cases n total h positive = elim (dec_lt n total) [
  | yes less ↦ inl (less, grind arith)
  | no more ↦ let e : n ≡ total = omega arith in inr (e, rw e (mod_self total))
]

-- Behind the last address of a network that is not all there is, the loop has left it.
outside :
    (base size total : ℕ)
    → base + size ≤ total
    → size < total
    → (leb base ((base + size) % total) && ltb ((base + size) % total) (base + size)) ≡ false
outside base size total fits part = elim (mod_cases (base + size) total fits (omega arith)) [
  | inl (inside, e) ↦ rw e (ground arith)
  | inr (full, e) ↦ rw e (ground arith)
]

module _ (network : Network) (size : ℕ) (block : IsBlock network size) where
  -- The loop stands at an address with `k` more to list, itself included; at the end it stands
  -- outside the network.
  abbrev At : ℕ → Bytes → Type 0
  At zero ip = network.holds ip ≡ false
  At (suc k) ip =
      All IsByte ip
      × (space ip ≡ space network.address)
      × (value ip + suc k ≡ value network.address + size)
      × (value network.address ≤ value ip)

  At-start : (k : ℕ) → k ≡ size → At k network.address
  At-start zero e = let filled = block.filled in absurd (omega arith)
  At-start (suc k) e = (block.bytes, refl, omega arith, omega arith)

  At-holds : (k : ℕ) (ip : Bytes) → At (suc k) ip → network.holds ip ≡ true
  At-holds k ip (bytes, s, e, low) = block.holds_iff ip bytes s ∙ ground arith

  At-step : (k : ℕ) (ip : Bytes) → At (suc (suc k)) ip → At (suc k) (increment_ip ip)
  At-step k ip (bytes, s, e, low) =
      let (s', bytes') = increment_ip-bytes ip bytes in
      let fits = block.fits in
      let v : value (increment_ip ip) ≡ value ip + 1 = value-increment_ip ip bytes ∙ grind arith in
      (bytes', s' ∙ s, omega arith, omega arith)

  At-last : size < space network.address → (ip : Bytes) → At 1 ip → At 0 (increment_ip ip)
  At-last part ip (bytes, s, e, low) =
      let (s', bytes') = increment_ip-bytes ip bytes in
      block.holds_iff (increment_ip ip) bytes' (s' ∙ s)
      ∙ rw (value-increment_ip ip bytes, e, s)
          (outside (value network.address) size (space network.address) block.fits part)

  At-next :
      size < space network.address → (k : ℕ) (ip : Bytes) → At (suc k) ip → At k (increment_ip ip)
  At-next part zero ip at = At-last part ip at
  At-next part (suc k) ip at = At-step k ip at

  -- With room for `k` more addresses under the limit, or no limit, the loop lists them all.
  collect-block :
      (allow : Bool) (k fuel : ℕ) (ip : Bytes) (addresses : List Bytes)
      → size < space network.address
      → (allow ≡ true) ⊎ (length addresses + k ≤ cidr_limit)
      → At k ip
      → k < fuel
      → collect network allow fuel ip addresses
        ≡ some (ok (addresses ++ map network.show (run_of k ip)))
  unfolding collect
  collect-block allow k zero ip addresses part room at h = absurd (omega arith)
  collect-block allow zero (suc fuel) ip addresses part room at h = rw (at, append-nil)
  collect-block allow (suc k) (suc fuel) ip addresses part room at h =
      let addresses' = addresses ++ network.show ip ∷ [] in
      let later =
        collect-block allow k fuel (increment_ip ip) addresses' part (more room)
          (At-next part k ip at) (omega arith) in
      rw (At-holds k ip at, below room) (later ∙ rw append_assoc)
    where
      more :
          (allow ≡ true) ⊎ (length addresses + suc k ≤ cidr_limit)
          → (allow ≡ true) ⊎ (length (addresses ++ network.show ip ∷ []) + k ≤ cidr_limit)
      more (inl free) = inl free
      more (inr fits) = inr (omega (arith, length-append addresses (network.show ip ∷ [])))

      below :
          (allow ≡ true) ⊎ (length addresses + suc k ≤ cidr_limit)
          → (not allow && leb cidr_limit (length addresses)) ≡ false
      below (inl free) = rw free
      below (inr fits) = ground arith

  collect_over :
      (k fuel : ℕ) (ip : Bytes) (addresses : List Bytes)
      → cidr_limit < length addresses + k
      → length addresses ≤ cidr_limit
      → At k ip
      → cidr_limit < length addresses + fuel
      → collect network false fuel ip addresses ≡ some (err too_many)
  unfolding collect
  collect_over k zero ip addresses over room at h = absurd (omega arith)
  collect_over zero (suc fuel) ip addresses over room at h = absurd (omega arith)
  collect_over (suc zero) (suc fuel) ip addresses over room at h =
      rw (At-holds zero ip at) (ground arith)
  collect_over (suc (suc k)) (suc fuel) ip addresses over room at h =
      rw (At-holds (suc k) ip at) (elim (Bool-cases (leb cidr_limit (length addresses))) [
        | inl full ↦ rw full
        | inr below ↦ rw below (
            collect_over (suc k) fuel (increment_ip ip) (addresses ++ network.show ip ∷ [])
              (omega (arith, length-append addresses (network.show ip ∷ [])))
              (ground (arith, length-append addresses (network.show ip ∷ []))) (At-step k ip at)
              (omega (arith, length-append addresses (network.show ip ∷ []))))
      ])

  -- Addresses of a block that is not the whole address space are listed in order, if there are at
  -- most 65536 of them or large ranges are allowed, and fuel above their number is enough.
  pub addresses_of-block :
      (allow : Bool) (fuel : ℕ)
      → size < space network.address
      → (allow ≡ true) ⊎ (size ≤ cidr_limit)
      → size < fuel
      → addresses_of network allow fuel ≡ some (ok (map network.show (run_of size network.address)))
  addresses_of-block allow fuel part room h =
      addresses_of_lem network allow fuel
      ∙ collect-block allow size fuel network.address [] part (ground arith) (At-start size refl)
          (omega arith)

  -- A block of more than 65536 addresses is refused, unless large ranges are allowed.
  pub addresses_of-too_many :
      (fuel : ℕ)
      → cidr_limit < size
      → cidr_limit < fuel
      → addresses_of network false fuel ≡ some (err too_many)
  addresses_of-too_many fuel over h =
      addresses_of_lem network false fuel
      ∙ collect_over size fuel network.address [] (omega arith) (omega arith) (At-start size refl)
          (omega arith)

-- Without large ranges the loop ends on every network, within 65538 rounds.
collect-ne-none :
    (network : Network) (fuel : ℕ) (ip : Bytes) (addresses : List Bytes)
    → cidr_limit + 1 < length addresses + fuel
    → length addresses ≤ cidr_limit
    → collect network false fuel ip addresses ≢ none
unfolding collect
collect-ne-none network zero ip addresses h room = absurd (omega arith)
collect-ne-none network (suc fuel) ip addresses h room = ground (
  arith,
  collect-ne-none network fuel (increment_ip ip) (addresses ++ network.show ip ∷ []),
  length-append addresses (network.show ip ∷ []),
)

pub addresses_of-ne-none :
    (network : Network) (fuel : ℕ) → cidr_limit + 1 < fuel → addresses_of network false fuel ≢ none
addresses_of-ne-none network fuel h e =
    collect-ne-none network fuel network.address [] (omega arith) (omega arith)
      (sym (addresses_of_lem network false fuel) ∙ e)

module _ (network : Network) (whole : IsBlock network (space network.address)) where
  holds-whole :
      (ip : Bytes) → All IsByte ip → space ip ≡ space network.address → network.holds ip ≡ true
  holds-whole ip bytes s =
      let fits = whole.fits in
      let below = value-lt-space ip bytes in whole.holds_iff ip bytes s ∙ ground arith

  collect-whole :
      (fuel : ℕ) (ip : Bytes) (addresses : List Bytes)
      → All IsByte ip
      → space ip ≡ space network.address
      → collect network true fuel ip addresses ≡ none
  unfolding collect
  collect-whole zero ip addresses bytes s = refl
  collect-whole (suc fuel) ip addresses bytes s =
      let (s', bytes') = increment_ip-bytes ip bytes in
      rw (holds-whole ip bytes s)
        (collect-whole fuel (increment_ip ip) (addresses ++ network.show ip ∷ []) bytes' (s' ∙ s))

  -- On the whole address space, with large ranges allowed, the loop never ends: behind the last
  -- address it goes on with the first.
  pub addresses_of-whole : (fuel : ℕ) → addresses_of network true fuel ≡ none
  addresses_of-whole fuel =
      addresses_of_lem network true fuel ∙ collect-whole fuel network.address [] whole.bytes refl
