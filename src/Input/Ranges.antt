-- ===== src/Input/Ranges.antt =====
-- `expandCIDR` and `incrementIP` of internal/input/input.go.
pub mod Increment
pub mod Block
pub mod Endpoints
use ctscan.Base.{
  ℕ, zero, suc, ◌+◌, ◌%◌, Bool, true, false, not, ◌&&◌, List, [], ◌∷◌, ◌++◌, ◌≡◌, refl, Option,
  none, some, Outcome, ok, err, ◌>>=◌, leb, if◌then◌else◌, ◌==◌, nat_eq, text_eq, Bytes, codes,
  length,
}
use ctscan.Input.Names.{Idna, NameError, normalize_dns_name}
use ctscan.Types.{Target}

pub record Options : Type 0 where
  pub ports : List ℕ
  pub allow_large_range : Bool
  pub start_tls : Bytes
  pub server_names : List Bytes

-- A byte counted up, and whether the byte before it is counted up too.
bump : ℕ → Bytes × Bool → Bytes × Bool
bump b (rest, false) = (b ∷ rest, false)
bump b (rest, true) = let b' = (b + 1) % 256 in (b' ∷ rest, b' == 0)

-- The loop from the last byte, which goes on while the byte becomes 0.
increment_carry : Bytes → Bytes × Bool
increment_carry [] = ([], true)
increment_carry (b ∷ bs) = bump b (increment_carry bs)

unfoldable pub increment_ip : Bytes → Bytes
unfolding increment_carry bump
increment_ip ip = (increment_carry ip).0

-- `net.IPNet` as `net.ParseCIDR` returns it, with its method `Contains`, and `net.IP.String`.
pub record Network : Type 0 where
  pub address : Bytes
  pub holds : Bytes → Bool
  pub show : Bytes → Bytes

pub data RangeError : Type 0 where
  too_many : RangeError
  bad_sni : NameError → RangeError

abbrev pub cidr_limit : ℕ
cidr_limit = 65_536

module _ (network : Network) (allow_large_range : Bool) where
  -- The loop over the addresses; `none` when the fuel runs out.
  collect : ℕ → Bytes → List Bytes → Option (Outcome RangeError (List Bytes))
  collect zero ip addresses = none
  collect (suc fuel) ip addresses =
      let rest = collect fuel (increment_ip ip) (addresses ++ network.show ip ∷ []) in
      if network.holds ip
      then (if not allow_large_range && leb cidr_limit (length addresses)
          then some (err too_many)
          else rest)
      else some (ok addresses)

  unfoldable pub addresses_of : ℕ → Option (Outcome RangeError (List Bytes))
  unfolding collect increment_ip
  addresses_of fuel = collect fuel network.address []

abbrev pub or_blank : List Bytes → List Bytes
or_blank [] = [] ∷ []
or_blank (name ∷ names) = name ∷ names

module _ (idna : Idna) (original : Bytes) (opts : Options) where
  sni_of : Bytes → Outcome NameError Bytes
  sni_of name = if name == [] then ok [] else normalize_dns_name idna name

  target_at : Bytes → ℕ → Bytes → Target
  target_at address port sni = record {
    input = original;
    host = address;
    address = address;
    port = port;
    server_name = sni;
    start_tls = opts.start_tls;
  }

  from_name : Outcome NameError Bytes → Outcome RangeError Bytes
  from_name (ok name) = ok name
  from_name (err e) = err (bad_sni e)

  -- the three loops, the innermost first
  for_names : Bytes → ℕ → List Bytes → List Target → Outcome RangeError (List Target)
  for_names address port [] targets = ok targets
  for_names address port (name ∷ names) targets = do
    sni ← from_name (sni_of name)
    for_names address port names (targets ++ target_at address port sni ∷ [])

  for_ports : Bytes → List ℕ → List Target → Outcome RangeError (List Target)
  for_ports address [] targets = ok targets
  for_ports address (port ∷ ports) targets = do
    targets' ← for_names address port (or_blank opts.server_names) targets
    for_ports address ports targets'

  for_addresses : List Bytes → List Target → Outcome RangeError (List Target)
  for_addresses [] targets = ok targets
  for_addresses (address ∷ addresses) targets = do
    targets' ← for_ports address opts.ports targets
    for_addresses addresses targets'

  with_addresses :
      Option (Outcome RangeError (List Bytes)) → Option (Outcome RangeError (List Target))
  with_addresses none = none
  with_addresses (some r) = some (r >>= λ addresses. for_addresses addresses [])

  unfoldable pub expand_cidr : ℕ → Network → Option (Outcome RangeError (List Target))
  unfolding addresses_of with_addresses for_addresses for_ports for_names from_name target_at sni_of
  expand_cidr fuel network = with_addresses (addresses_of network opts.allow_large_range fuel)
