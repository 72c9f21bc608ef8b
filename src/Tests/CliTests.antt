-- ===== src/Tests/CliTests.antt =====
-- The theorems on internal/cli/cli.go at concrete inputs.
use ctscan.Base.{
  ◌≡◌, refl, true, false, List, [], ◌∷◌, ◌++◌, Option, none, some, Outcome, ok, err, if◌then◌else◌,
  ◌==◌, text_eq, nat_eq, Bytes, codes, Distinct, All, is_some,
}
use ctscan.Base.Int.{pos}
use ctscan.Cli.Pivot.{Options, State, Calls, run_waves}
use ctscan.Cli.Pivot.Depth.{AtMost, run_waves-ends}
use ctscan.Cli.Pivot.Laws.{Finally}
use ctscan.Cli.Pivot.Safety.{joined, reached, IsAllowed, run_waves-IsUnique, run_waves-IsAllowed}
use ctscan.Cli.Targets.{Prepared, Source, target_key, target_keys, prepare_targets}
use ctscan.Input.Names.{plain_idna, normalize_dns_name, in_scope}
use ctscan.Output.Writer.{Writer, dns, write}
use ctscan.Tests.Samples.{target_for, good_result, failed_result}
use ctscan.Types.{Target, Result}

-- A source that reads a name as itself, and does not resolve `down`.
abbrev test_source : Source Bytes
test_source = record {
  parse = λ value. ok (target_for value ∷ []);
  resolve = λ target.
      if target.host == codes "down" then err (codes "no such host") else ok (target ∷ []);
  message = λ e. e;
  is_ip = λ host. false;
  now = pos 0;
}

abbrev raw_targets : List Bytes
raw_targets = codes "example.com" ∷ codes "down" ∷ codes "example.com" ∷ []

abbrev test_prepared : Prepared
test_prepared = record {
  targets = target_for (codes "example.com") ∷ [];
  failures =
      record (failed_result (codes "down")) {
        error =
            some record { kind = codes "dns"; message = codes "no such host"; retryable = true };
      }
      ∷ [];
}

prepare_targets_test : prepare_targets test_source false raw_targets ≡ ok test_prepared
unfolding prepare_targets text_eq nat_eq target_key
prepare_targets_test = refl

abbrev answer_of : List Target → List Result
answer_of [] = []
answer_of (target ∷ targets) =
    good_result target.host (codes "b.example.com" ∷ codes "other.org" ∷ target.host ∷ [])
    ∷ answer_of targets

abbrev empty_writer : Writer
empty_writer = record {
  config = record { format = dns; include_failures = false };
  lines = [];
  seen_dns = [];
}

abbrev test_calls : Calls Bytes
test_calls = record {
  run_wave = λ depth wave. (answer_of wave, none);
  prepare = λ name. ok record { targets = target_for name ∷ []; failures = [] };
  write = write plain_idna (λ result. ok result.host) (λ lines line. none);
}

abbrev test_options : Options
test_options = record {
  pivot = true;
  pivot_depth = 2;
  max_discovery = 10;
  scopes = codes "example.com" ∷ [];
}

abbrev given : List Target
given = target_for (codes "example.com") ∷ []

waves_of : Option (Outcome (Bytes × State) State) → List (List Target)
waves_of (some (ok st)) = st.waves
waves_of r = []

-- The name in scope is scanned in a second wave, the other one is not.
run_waves_test :
    waves_of (run_waves plain_idna test_calls test_options 3 given [] empty_writer)
    ≡ given ∷ (target_for (codes "b.example.com") ∷ []) ∷ []
unfolding waves_of run_waves write text_eq nat_eq normalize_dns_name in_scope target_key
run_waves_test = refl

run_waves-IsUnique_example :
    Finally
      (λ st. Distinct (target_keys (joined st.waves ++ st.next)))
      (run_waves plain_idna test_calls test_options 3 given [] empty_writer)
run_waves-IsUnique_example =
    run_waves-IsUnique plain_idna test_calls test_options 3 given [] empty_writer (refl, tt)

run_waves-IsAllowed_example :
    Finally
      (λ st. All (IsAllowed plain_idna test_calls test_options given) (reached st))
      (run_waves plain_idna test_calls test_options 3 given [] empty_writer)
run_waves-IsAllowed_example =
    run_waves-IsAllowed plain_idna test_calls test_options 3 given [] empty_writer

run_waves-ends_example :
    (is_some (run_waves plain_idna test_calls test_options 3 given [] empty_writer) ≡ true)
    × Finally
        (AtMost plain_idna test_calls test_options 3)
        (run_waves plain_idna test_calls test_options 3 given [] empty_writer)
run_waves-ends_example = run_waves-ends plain_idna test_calls test_options given [] empty_writer
