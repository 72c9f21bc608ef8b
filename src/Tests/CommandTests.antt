-- ===== src/Tests/CommandTests.antt =====
-- The theorems on the options and commands of internal/cli/cli.go at concrete inputs.
use ctscan.Base.{
  ◌≡◌, ◌∙◌, ap, texts_eq, refl, true, false, List, [], ◌∷◌, none, some, ok, err, Outcome, Option,
  text_eq, nat_eq, Bytes, codes, All, Distinct,
}
use ctscan.Base.Decimal.{atoi}
use ctscan.Base.Int.{pos}
use ctscan.Cli.Ct.{CtCalls, run_ct}
use ctscan.Cli.Ct.Laws.{dns, FindsKept, IsAsked, run_ct-IsPrinted}
use ctscan.Cli.Options.{Environment, Flags, Checked, parse_duration, collect_raw_targets}
use ctscan.Input.Names.{plain_idna, normalize_dns_name, in_scope}
use ctscan.Tests.TransparencyTests.{test_web, test_client, two_pages}
use ctscan.Transparency.{Failure, no_token, Record, cert_spotter}
use ctscan.Transparency.Requests.{do_request}
use ctscan.Transparency.Search.Kept.{IsKept, search-All}
use ctscan.Transparency.Search.Pages.{search}

-- `com` is the one public suffix.
abbrev test_system : Environment
test_system = record {
  parse_duration_text = λ text. ok (pos 1);
  public_suffix = λ name. (codes "com", true);
  read_file = λ path. ok [];
  system_pool = none;
  certificates_in = λ text. [];
}

abbrev test_flags : Flags
test_flags = record {
  json_output = true;
  dns_output = false;
  format = codes "text";
  pivot = true;
  scopes = codes "Example.com" ∷ [];
  pivot_depth = pos 1;
  max_discovery = pos 10;
  concurrency = pos 300;
  profile = codes "modern";
  ports = codes "443,8443";
  timeout = codes "5";
  min_version = codes "TLS1.2";
  max_version = [];
  ca_file = [];
}

abbrev test_checked : Checked
test_checked = record {
  format = codes "jsonl";
  scopes = codes "example.com" ∷ [];
  ports = 443 ∷ 8443 ∷ [];
  timeout = pos 5_000_000_000;
  min_version = 0x0303;
  max_version = 0;
  roots = none;
}

-- 18446744074 seconds are read as a fraction of one.
duration_test : parse_duration plain_idna test_system (codes "18446744074") ≡ ok (pos 290_448_384)
unfolding parse_duration atoi nat_eq
duration_test = refl

collect_test :
    collect_raw_targets {E = Bytes}
      (codes "a, b" ∷ [])
      (codes "c" ∷ [])
      (ok (codes "d,,e" ∷ codes " " ∷ [], none) ∷ [])
      none
    ≡ ok (codes "c" ∷ codes "a" ∷ codes "b" ∷ codes "d" ∷ codes "e" ∷ [])
unfolding collect_raw_targets nat_eq text_eq
collect_test = refl

-- A search that runs out of fuel does not return.
abbrev returned : Option (Outcome Failure (List Record)) → Outcome Failure (List Record)
returned none = err no_token
returned (some result) = result

abbrev test_calls : CtCalls
test_calls = record {
  idna = plain_idna;
  clock = record { format_rfc3339 = λ t. [] };
  public_suffix = λ name. (codes "com", true);
  search_log =
      λ domain. returned (search test_web 2 (cert_spotter test_client) two_pages domain true);
  encode = λ r. ok [];
}

returned-IsKept :
    (domain : Bytes) (records : List Record) (o : Option (Outcome Failure (List Record)))
    → search test_web 2 (cert_spotter test_client) two_pages domain true ≡ o
    → returned o ≡ ok records
    → All (IsKept plain_idna domain) records
returned-IsKept domain records none e h = cc
returned-IsKept domain records (some result) e h =
    search-All test_web 2 (cert_spotter test_client) two_pages domain true records (e ∙ ap some h)

test_calls-FindsKept : FindsKept test_calls
test_calls-FindsKept domain records h =
    returned-IsKept domain records
      (search test_web 2 (cert_spotter test_client) two_pages domain true) refl h

abbrev domains : List Bytes
domains = codes "Example.com" ∷ codes "bad name" ∷ []

run_ct_test :
    (run_ct test_calls none false dns domains).1.lines
    ≡ codes "example.com" ∷ codes "a.example.com" ∷ []
unfolding run_ct search do_request atoi nat_eq text_eq texts_eq normalize_dns_name in_scope
run_ct_test = refl

run_ct-IsPrinted_example :
    Distinct (run_ct test_calls none false dns domains).1.lines
    × All (IsAsked plain_idna domains) (run_ct test_calls none false dns domains).1.lines
run_ct-IsPrinted_example = run_ct-IsPrinted test_calls none false domains test_calls-FindsKept
