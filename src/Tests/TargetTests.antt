-- ===== src/Tests/TargetTests.antt =====
-- The theorems on raw targets at concrete inputs.
use ctscan.Base.{
  ◌≡◌, refl, false, List, [], ◌∷◌, none, some, ok, arith, text_eq, nat_eq, Bytes, codes, All,
  Distinct,
}
use ctscan.Base.Decimal.{atoi}
use ctscan.Base.Text.{cut, has_text}
use ctscan.Base.Int.{pos}
use ctscan.Cli.Endpoints.{program_source, prepare_targets-AreEndpoints}
use ctscan.Cli.Targets.{Prepared, target_key, target_keys, prepare_targets}
use ctscan.Input.Resolving.{Resolver}
use ctscan.Input.Names.{plain_idna, normalize_dns_name}
use ctscan.Input.Ranges.{Options}
use ctscan.Input.Ranges.Endpoints.{IsEndpoint}
use ctscan.Input.Targets.{Net, parse_target}
use ctscan.Types.{Target}

-- A net that knows no addresses, and splits at the first colon.
abbrev plain_net : Net
plain_net = record {
  parse_ip = λ s. none;
  parse_cidr = λ s. none;
  split_host_port = λ s. cut s (codes ":");
  parse_url = λ s. none;
}

abbrev raw_target : Bytes
raw_target = codes "Example.com:8443"

abbrev mail_options : Options
mail_options = record {
  ports = 443 ∷ [];
  allow_large_range = false;
  start_tls = codes "smtp";
  server_names = [];
}

abbrev mail_targets : List Target
mail_targets =
    record {
      input = raw_target;
      host = codes "example.com";
      address = [];
      port = 8443;
      server_name = codes "example.com";
      start_tls = codes "smtp";
    }
    ∷ []

parse_target_test :
    parse_target plain_net plain_idna 0 raw_target mail_options ≡ some (ok mail_targets)
unfolding parse_target normalize_dns_name nat_eq text_eq cut has_text atoi
parse_target_test = refl

-- A resolver with two addresses for every name.
abbrev two_addresses : Resolver Bytes
two_addresses = record {
  is_ip = λ host. false;
  lookup_ip = λ host. ok (codes "192.0.2.1" ∷ codes "192.0.2.2" ∷ []);
  no_addresses = λ host. codes "none";
}

abbrev mail_prepared : Prepared
mail_prepared = record {
  targets =
      record {
        input = raw_target;
        host = codes "example.com";
        address = codes "192.0.2.1";
        port = 8443;
        server_name = codes "example.com";
        start_tls = codes "smtp";
      }
      ∷ [];
  failures = [];
}

prepare_targets_test :
    prepare_targets
      (program_source plain_net plain_idna 0 mail_options two_addresses false (λ e. []) (pos 0))
      false
      (raw_target ∷ raw_target ∷ [])
    ≡ ok mail_prepared
unfolding program_source prepare_targets target_key parse_target normalize_dns_name nat_eq text_eq
    cut has_text atoi
prepare_targets_test = refl

prepare_targets-AreEndpoints_example :
    All (IsEndpoint (codes "smtp")) mail_prepared.targets
    × Distinct (target_keys mail_prepared.targets)
prepare_targets-AreEndpoints_example =
    prepare_targets-AreEndpoints plain_net plain_idna 0 mail_options two_addresses false (λ e. [])
      (pos 0) false (raw_target ∷ raw_target ∷ []) mail_prepared ((omega arith, omega arith), tt)
      prepare_targets_test
