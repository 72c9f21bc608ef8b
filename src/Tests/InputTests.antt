-- ===== src/Tests/InputTests.antt =====
-- The theorems on internal/input/input.go at concrete inputs.
use ctscan.Base.{
  ℕ, ◌+◌, ◌%◌, ◌≡◌, ◌≢◌, ◌↔◌, refl, ◌&&◌, true, false, inr, List, [], ◌∷◌, map, none, some, ok, err,
  arith, ltb, leb, if◌then◌else◌, ◌==◌, nat_eq, text_eq, contains, Bytes, codes,
}
use ctscan.Base.Text.{trim_space, split}
use ctscan.Input.Names.{Idna, plain_idna, normalize_dns_name, in_scope, normalize_test}
use ctscan.Input.Names.Scope.{in_scope_iff, IsCovered}
use ctscan.Input.Names.Valid.{IsHostName, IsLookup, normalize-IsHostName}
use ctscan.Input.Ports.{parse_ports, parse_ports_test}
use ctscan.Input.Ports.Laws.{ArePorts, some_names, parse_ports-ArePorts, contains-parse_ports}
use ctscan.Input.Ports.RoundTrip.{print_ports, parse_ports-print_ports}
use ctscan.Input.Ranges.{Network, increment_ip, addresses_of}
use ctscan.Input.Ranges.Block.{
  IsBlock, run_of, addresses_of-block, addresses_of-ne-none, addresses_of-whole,
}
use ctscan.Input.Ranges.Increment.{space, value, value-increment_ip}

abbrev port_list : Bytes
port_list = codes "443,8443, 9000-9002,443"

abbrev five_ports : List ℕ
five_ports = 443 ∷ 8443 ∷ 9000 ∷ 9001 ∷ 9002 ∷ []

parse_ports-ArePorts_example : ArePorts five_ports × (five_ports ≢ [])
parse_ports-ArePorts_example = parse_ports-ArePorts port_list parse_ports_test

contains-parse_ports_example : contains five_ports 9001 ≡ (
    if trim_space port_list == []
    then ◌==◌ {A = ℕ} 9001 443
    else some_names (split port_list b',') 9001)
contains-parse_ports_example = contains-parse_ports port_list 9001 parse_ports_test

parse_ports-print_ports_example : parse_ports (print_ports five_ports) ≡ ok five_ports
unfolding nat_eq
parse_ports-print_ports_example =
    parse_ports-print_ports 443 (8443 ∷ 9000 ∷ 9001 ∷ 9002 ∷ [])
      (refl, (refl, (refl, (refl, (refl, tt))))) (omega arith)

abbrev scopes : List Bytes
scopes = codes "example.org" ∷ codes "example.com" ∷ []

in_scope_iff_example : (in_scope plain_idna (codes "a.b.example.com") scopes ≡ true) ↔ (
    (n : Bytes) × (normalize_dns_name plain_idna (codes "a.b.example.com") ≡ ok n)
    × IsCovered plain_idna n scopes)
in_scope_iff_example = in_scope_iff plain_idna (codes "a.b.example.com") scopes

abbrev wild : Bytes
wild = codes "*.API.Example.COM."

normalize-IsHostName_example : IsHostName (codes "api.example.com")
normalize-IsHostName_example = normalize-IsHostName plain_idna wild normalize_test

-- An idna that accepts one name.
abbrev one_name : Idna
one_name = record {
  to_ascii = λ name. if name == codes "api.example.com" then ok name else err (codes "unknown");
}

one_name-IsLookup : IsLookup one_name
one_name-IsLookup = record {
  host_bytes = λ s t h. let e : t ≡ codes "api.example.com" = ground arith in rw e (omega arith);
  stable = λ s t h. ground arith;
}

normalize_one : normalize_dns_name one_name wild ≡ ok (codes "api.example.com")
unfolding normalize_dns_name nat_eq text_eq
normalize_one = refl

value-increment_ip_example :
    value (increment_ip (10 ∷ 0 ∷ 0 ∷ 255 ∷ []))
    ≡ (value (10 ∷ 0 ∷ 0 ∷ 255 ∷ []) + 1) % space (10 ∷ 0 ∷ 0 ∷ 255 ∷ [])
value-increment_ip_example = value-increment_ip (10 ∷ 0 ∷ 0 ∷ 255 ∷ []) (omega arith)

-- The network of `size` addresses from this one on.
abbrev network_of : Bytes → ℕ → Network
network_of address size = record {
  address = address;
  holds = λ ip. leb (value address) (value ip) && ltb (value ip) (value address + size);
  show = λ ip. ip;
}

abbrev test_net : Network
test_net = network_of (192 ∷ 0 ∷ 2 ∷ 0 ∷ []) 4

test_net-IsBlock : IsBlock test_net 4
test_net-IsBlock = record {
  bytes = omega arith;
  filled = omega arith;
  fits = omega arith;
  holds_iff = λ ip h s. refl;
}

addresses_of-block_example :
    addresses_of test_net false 5 ≡ some (ok (map (λ ip. ip) (run_of 4 (192 ∷ 0 ∷ 2 ∷ 0 ∷ []))))
addresses_of-block_example =
    addresses_of-block test_net 4 test_net-IsBlock false 5 (omega arith) (inr (omega arith))
      (omega arith)

abbrev wide_net : Network
wide_net = network_of (10 ∷ 0 ∷ 0 ∷ 0 ∷ []) 131072

wide_net-IsBlock : IsBlock wide_net 131072
wide_net-IsBlock = record {
  bytes = omega arith;
  filled = omega arith;
  fits = omega arith;
  holds_iff = λ ip h s. refl;
}

addresses_of-ne-none_example : addresses_of wide_net false 65538 ≢ none
addresses_of-ne-none_example = addresses_of-ne-none wide_net 65538 (omega arith)

abbrev all_net : Network
all_net = network_of (0 ∷ 0 ∷ 0 ∷ 0 ∷ []) 4294967296

all_net-IsBlock : IsBlock all_net 4294967296
all_net-IsBlock = record {
  bytes = omega arith;
  filled = omega arith;
  fits = omega arith;
  holds_iff = λ ip h s. refl;
}

addresses_of-whole_example : addresses_of all_net true 1000 ≡ none
addresses_of-whole_example = addresses_of-whole all_net all_net-IsBlock 1000
