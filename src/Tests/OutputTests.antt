-- ===== src/Tests/OutputTests.antt =====
-- The theorems on internal/output/output.go at concrete inputs.
use ctscan.Base.{
  ◌≡◌, refl, false, List, [], ◌∷◌, Option, none, some, Outcome, ok, text_eq, nat_eq, contains,
  Bytes, codes, Distinct,
}
use ctscan.Input.Names.{plain_idna, normalize_dns_name}
use ctscan.Output.Names.{certificate_names}
use ctscan.Output.Writer.{Writer, dns, write_each, new_writer}
use ctscan.Output.Writer.Laws.{write_each-dns, any_names}
use ctscan.Tests.Samples.{good_result, failed_result}
use ctscan.Types.{Result}

abbrev shop : Result
shop =
    good_result (codes "example.com")
      (codes "*.Example.com" ∷ codes "b.example.com" ∷ codes "bad name" ∷ [])

certificate_names_test :
    certificate_names plain_idna shop ≡ codes "b.example.com" ∷ codes "example.com" ∷ []
unfolding certificate_names text_eq nat_eq normalize_dns_name
certificate_names_test = refl

abbrev results : List Result
results = shop ∷ failed_result (codes "down.example.com") ∷ shop ∷ []

abbrev encode_host : Result → Outcome Bytes Bytes
encode_host result = ok result.host

abbrev accepts : List Bytes → Bytes → Option Bytes
accepts lines line = none

abbrev started : Writer
started = record {
  config = record { format = dns; include_failures = false };
  lines = [];
  seen_dns = [];
}

abbrev two_names : List Bytes
two_names = codes "b.example.com" ∷ codes "example.com" ∷ []

abbrev printed : Writer
printed = record started { lines = two_names; seen_dns = two_names }

started_test : new_writer (codes "dns") false ≡ some started
unfolding new_writer text_eq
started_test = refl

printed_test : write_each plain_idna encode_host accepts results started ≡ (printed, none)
unfolding write_each text_eq nat_eq normalize_dns_name
printed_test = refl

write_each-dns_example :
    Distinct printed.lines
    × ((n : Bytes)
        → contains printed.lines n ≡ any_names plain_idna encode_host accepts false results n)
write_each-dns_example =
    write_each-dns plain_idna encode_host accepts false results started printed started_test
      printed_test
