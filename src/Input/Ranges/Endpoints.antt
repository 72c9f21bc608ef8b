-- ===== src/Input/Ranges/Endpoints.antt =====
-- The targets of an address range.
use ctscan.Base.{
  ℕ, ◌≤◌, List, [], ◌∷◌, ◌++◌, Option, none, some, Outcome, ok, err, ◌≡◌, refl, All, All-append,
  bind-eq-ok, Bytes,
}
use ctscan.Input.Names.{Idna}
use ctscan.Input.Ranges.{
  Options, Network, RangeError, or_blank, sni_of, target_at, from_name, for_names, for_ports,
  for_addresses, with_addresses, addresses_of, expand_cidr,
}
use ctscan.Types.{Target}

abbrev pub IsPort : ℕ → Type 0
IsPort port = (1 ≤ port) × (port ≤ 65535)

-- A target with a port, that uses the protocol it was asked to.
abbrev pub IsEndpoint : Bytes → Target → Type 0
IsEndpoint start_tls t = IsPort t.port × (t.start_tls ≡ start_tls)

-- A loop that succeeds gives what it has appended to.
pub same-ok {ℓ} : {E A : Type ℓ} {a b : A} → ◌≡◌ {A = Outcome E A} (ok a) (ok b) → a ≡ b
same-ok h = cc

pub same-some {ℓ} : {A : Type ℓ} {a b : A} → some a ≡ some b → a ≡ b
same-some h = cc

module _ (idna : Idna) (original : Bytes) (opts : Options) where
  abbrev Good : List Target → Type 0
  Good = All (IsEndpoint opts.start_tls)

  for_names-Good :
      (address : Bytes) (port : ℕ) (names : List Bytes) (ts : List Target) {us : List Target}
      → IsPort port
      → Good ts
      → for_names idna original opts address port names ts ≡ ok us
      → Good us
  unfolding for_names target_at
  for_names-Good address port [] ts p g h = rw⁻¹ (same-ok h) g
  for_names-Good address port (name ∷ names) ts p g h =
      let (sni, first, rest) =
        bind-eq-ok (from_name idna original opts (sni_of idna original opts name))
          (λ sni.
            for_names idna original opts address port names
              (ts ++ target_at idna original opts address port sni ∷ []))
          h in
      for_names-Good address port names (ts ++ target_at idna original opts address port sni ∷ []) p
        (All-append (IsEndpoint opts.start_tls) ts
          (target_at idna original opts address port sni ∷ []) g ((p, refl), tt))
        rest

  for_ports-Good :
      (address : Bytes) (ports : List ℕ) (ts : List Target) {us : List Target}
      → All IsPort ports
      → Good ts
      → for_ports idna original opts address ports ts ≡ ok us
      → Good us
  unfolding for_ports
  for_ports-Good address [] ts p g h = rw⁻¹ (same-ok h) g
  for_ports-Good address (port ∷ ports) ts (p, ps) g h =
      let (ts', first, rest) =
        bind-eq-ok (for_names idna original opts address port (or_blank opts.server_names) ts)
          (for_ports idna original opts address ports) h in
      for_ports-Good address ports ts' ps
        (for_names-Good address port (or_blank opts.server_names) ts p g first) rest

  for_addresses-Good :
      (addresses : List Bytes) (ts : List Target) {us : List Target}
      → All IsPort opts.ports
      → Good ts
      → for_addresses idna original opts addresses ts ≡ ok us
      → Good us
  unfolding for_addresses
  for_addresses-Good [] ts p g h = rw⁻¹ (same-ok h) g
  for_addresses-Good (address ∷ addresses) ts p g h =
      let (ts', first, rest) =
        bind-eq-ok (for_ports idna original opts address opts.ports ts)
          (for_addresses idna original opts addresses) h in
      for_addresses-Good addresses ts' p (for_ports-Good address opts.ports ts p g first) rest

  with_addresses-Good :
      (o : Option (Outcome RangeError (List Bytes))) {us : List Target}
      → All IsPort opts.ports
      → with_addresses idna original opts o ≡ some (ok us)
      → Good us
  unfolding with_addresses
  with_addresses-Good none p h = cc
  with_addresses-Good (some (err e)) p h = cc
  with_addresses-Good (some (ok addresses)) {us} p h =
      for_addresses-Good addresses [] p tt (same-some h)

  pub expand_cidr-Good :
      (fuel : ℕ) (network : Network) {us : List Target}
      → All IsPort opts.ports
      → expand_cidr idna original opts fuel network ≡ some (ok us)
      → Good us
  unfolding expand_cidr
  expand_cidr-Good fuel network p h =
      with_addresses-Good (addresses_of network opts.allow_large_range fuel) p h
