-- ===== src/Cli/Ct.antt =====
-- `runCT` of internal/cli/cli.go, behind its flags: the loop over the domains. The search_log of the
-- provider, the encoding of JSON and the list of public suffixes are arguments.
pub mod Laws
use ctscan.Base.{
  ℕ, Option, none, some, Bool, true, false, ◌&&◌, ◌||◌, List, [], ◌∷◌, ◌++◌, Outcome, ok, err,
  ◌>>=◌, if◌then◌else◌, ◌==◌, text_eq, texts_eq, Bytes, codes, contains,
}
use ctscan.Base.Text.{join}
use ctscan.Input.Names.{Idna, NameError, normalize_dns_name}
use ctscan.Scanner.Findings.{Clock}
use ctscan.Transparency.{Record, Failure}

-- The maps of the loop, as sets, and the lines that it has written.
pub record CtState : Type 0 where
  pub seen_names : List Bytes
  pub seen_records : List Bytes
  pub lines : List Bytes

-- A part of the loop, that goes on or ends the command with an exit code.
abbrev pub CtFlow : Type 0
CtFlow = Outcome (ℕ × CtState) CtState

pub record CtCalls : Type 0 where
  pub idna : Idna
  pub clock : Clock
  pub public_suffix : Bytes → Bytes × Bool
  pub search_log : Bytes → Outcome Failure (List Record)
  pub encode : Record → Outcome Bytes Bytes

abbrev pub ct_start : CtState
ct_start = record { seen_names = []; seen_records = []; lines = [] }

unfoldable pub write_name : CtState → Bytes → CtState
write_name st name =
    if contains st.seen_names name
    then st
    else record st { seen_names = st.seen_names ++ name ∷ []; lines = st.lines ++ name ∷ [] }

unfoldable pub write_names : CtState → List Bytes → CtState
unfolding write_name
write_names st [] = st
write_names st (name ∷ names) = write_names (write_name st name) names

write_line : CtState → Bytes → CtState
write_line st line = record st { lines = st.lines ++ line ∷ [] }

encoded : CtState → Outcome Bytes Bytes → CtFlow
unfolding write_line
encoded st (ok line) = ok (write_line st line)
encoded st (err e) = err (1, st)

record_key : Record → Bytes
record_key r = r.provider ++ (codes "|" ++ r.certificate_id)

module _ (calls : CtCalls) where
  -- `[%s:%s] %s | %s → %s`, with the arrow in UTF-8
  text_line : Record → Bytes
  unfolding join
  text_line r =
      codes "["
      ++ (r.provider
          ++ (codes ":"
              ++ (r.certificate_id
                  ++ (codes "] "
                      ++ (join r.dns_names (codes ", ")
                          ++ (codes " | "
                              ++ (calls.clock.format_rfc3339 r.not_before
                                  ++ (codes " "
                                      ++ ((226 ∷ 134 ∷ 146 ∷ codes " ")
                                          ++ calls.clock.format_rfc3339 r.not_after)))))))))

  unfoldable pub print_record : Bytes → CtState → Record → CtFlow
  unfolding encoded text_line write_line write_names
  print_record format st r =
      if format == codes "json" || format == codes "jsonl"
      then encoded st (calls.encode r)
      else if format == codes "text"
      then ok (write_line st (text_line r))
      else if format == codes "dns"
      then ok (write_names st r.dns_names)
      else err (2, st)

  unfoldable pub take_record : Bytes → CtState → Record → CtFlow
  unfolding print_record record_key
  take_record format st r =
      if contains st.seen_records (record_key r)
      then ok st
      else print_record format (record st { seen_records = st.seen_records ++ record_key r ∷ [] }) r

  unfoldable pub take_records : Bytes → CtState → List Record → CtFlow
  unfolding take_record
  take_records format st [] = ok st
  take_records format st (r ∷ rs) = do st' ← take_record format st r; take_records format st' rs

  unfoldable pub found_records : Bytes → CtState → Outcome Failure (List Record) → CtFlow
  unfolding take_records
  found_records format st (err e) = err (1, st)
  found_records format st (ok records) = take_records format st records

  -- one round of the loop, on the domain that the value normalizes to
  unfoldable pub take_domain : Bytes → CtState → Outcome NameError Bytes → CtFlow
  unfolding found_records
  take_domain format st (err e) = ok st
  take_domain format st (ok domain) =
      let (suffix, icann) = calls.public_suffix domain in
      if icann && suffix == domain
      then err (2, st)
      else found_records format st (calls.search_log domain)

  unfoldable pub take_values : Bytes → CtState → List Bytes → CtFlow
  unfolding take_domain normalize_dns_name
  take_values format st [] = ok st
  take_values format st (value ∷ values) = do
    st' ← take_domain format st (normalize_dns_name calls.idna value)
    take_values format st' values

  flushed : Bool → CtFlow → ℕ × CtState
  flushed refused (err (code, st)) = (code, st)
  flushed refused (ok st) = (if refused then 1 else 0, st)

  run_created : Bool → Bytes → List Bytes → Option Failure → ℕ × CtState
  unfolding take_values flushed
  run_created refused format values (some e) = (2, ct_start)
  run_created refused format values none = flushed refused (take_values format ct_start values)

  -- The exit code and the lines. `created` is the error of `transparency.New`, and `refused` tells
  -- whether the last flush fails.
  unfoldable pub run_ct : Option Failure → Bool → Bytes → List Bytes → ℕ × CtState
  unfolding run_created
  run_ct created refused format values =
      if values == [] then (2, ct_start) else run_created refused format values created
