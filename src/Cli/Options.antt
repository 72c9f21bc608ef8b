-- ===== src/Cli/Options.antt =====
-- How internal/cli/cli.go reads its options: `parseDuration`, `parseTLSVersion`, `loadRoots`, the checks
-- of `runScan` and `collectRawTargets`.
pub mod Laws
use ctscan.Base.{
  ℕ, zero, suc, ◌+◌, ◌-◌, ◌*◌, ◌%◌, ◌^◌, Bool, true, false, ◌&&◌, ◌||◌, not, List, [], ◌∷◌, ◌++◌,
  Option, none, some, Outcome, ok, err, ◌>>=◌, if◌then◌else◌, ◌==◌, nat_eq, text_eq, texts_eq,
  Bytes, codes, ltb,
}
use ctscan.Base.Decimal.{atoi}
use ctscan.Base.Int.{ℤ, pos, negsuc, wrap64, ltb_ℤ}
use ctscan.Base.Text.{to_lower, split, trim_space}
use ctscan.Input.Names.{Idna, NameError, normalize_dns_name}
use ctscan.Input.Ports.{PortError, parse_ports}
use ctscan.Input.Resolving.{read_items}
use ctscan.Types.{Pool, second}

-- `time.Duration(seconds) * time.Second`
unfoldable pub seconds : ℤ → ℤ
unfolding wrap64
seconds (pos n) = wrap64 (n * second)
seconds (negsuc n) = wrap64 (2 ^ 64 - suc n * second % 2 ^ 64)

-- What the program calls: `time.ParseDuration`, `publicsuffix.PublicSuffix`, reading a file and the
-- certificates of a PEM text, and the pool of the system, if there is one.
pub record Environment : Type 0 where
  pub parse_duration_text : Bytes → Outcome Bytes ℤ
  pub public_suffix : Bytes → Bytes × Bool
  pub read_file : Bytes → Outcome Bytes Bytes
  pub system_pool : Option Pool
  pub certificates_in : Bytes → Pool

-- Why the command ends before it scans. All but the files of certificates are usage errors.
pub data Refusal : Type 0 where
  no_scope bad_limits bad_concurrency bad_profile : Refusal
  bad_scope : Bytes → NameError → Refusal
  public_scope : Bytes → Refusal
  bad_ports : PortError → Refusal
  bad_timeout bad_version ca_unread ca_empty : Bytes → Refusal

unfoldable pub exit_of : Refusal → ℕ
exit_of (ca_unread e) = 1
exit_of (ca_empty path) = 1
exit_of _ = 2

-- `strings.ReplaceAll(s, b, "")`, for one byte
unfoldable pub remove_byte : ℕ → Bytes → Bytes
remove_byte b [] = []
remove_byte b (c ∷ s) = let rest = remove_byte b s in if c == b then rest else c ∷ rest

version_for : Bytes → Bytes → Outcome Refusal ℕ
version_for value name =
    if name == []
    then ok 0
    else if name == codes "tls10" || name == codes "tls1"
    then ok 0x0301
    else if name == codes "tls11"
    then ok 0x0302
    else if name == codes "tls12"
    then ok 0x0303
    else if name == codes "tls13"
    then ok 0x0304
    else err (bad_version value)

unfoldable pub parse_tls_version : Bytes → Outcome Refusal ℕ
unfolding version_for remove_byte to_lower
parse_tls_version value = version_for value (to_lower (remove_byte b'.' value))

pub record Flags : Type 0 where
  pub json_output : Bool
  pub dns_output : Bool
  pub format : Bytes
  pub pivot : Bool
  pub scopes : List Bytes
  pub pivot_depth : ℤ
  pub max_discovery : ℤ
  pub concurrency : ℤ
  pub profile : Bytes
  pub ports : Bytes
  pub timeout : Bytes
  pub min_version : Bytes
  pub max_version : Bytes
  pub ca_file : Bytes

-- What the checks make of the flags.
pub record Checked : Type 0 where
  pub format : Bytes
  pub scopes : List Bytes
  pub ports : List ℕ
  pub timeout : ℤ
  pub min_version : ℕ
  pub max_version : ℕ
  pub roots : Option Pool

unfoldable pub chosen_format : Flags → Bytes
chosen_format flags =
    if flags.dns_output
    then codes "dns"
    else if flags.json_output
    then codes "jsonl"
    else flags.format

bad_workers : ℤ → Bool
bad_workers concurrency = ltb_ℤ concurrency (pos 1) || ltb_ℤ (pos 100_000) concurrency

check_numbers : Bool → Flags → Outcome Refusal Flags
unfolding bad_workers
check_numbers audit flags =
    if ltb_ℤ flags.pivot_depth (pos 1) || ltb_ℤ flags.max_discovery (pos 1)
    then err bad_limits
    else if bad_workers flags.concurrency
    then err bad_concurrency
    else if audit
        && (not (flags.profile == codes "intermediate") && not (flags.profile == codes "modern"))
    then err bad_profile
    else ok flags

from_ports : Outcome PortError (List ℕ) → Outcome Refusal (List ℕ)
from_ports (ok ports) = ok ports
from_ports (err e) = err (bad_ports e)

module _ (idna : Idna) (system : Environment) where
  duration_from : Bytes → Option ℤ → Outcome Refusal ℤ
  duration_from value (some n) = ok (seconds n)
  duration_from value none = elim (system.parse_duration_text value) [
    | ok d ↦ ok d
    | err e ↦ err (bad_timeout e)
  ]

  unfoldable pub parse_duration : Bytes → Outcome Refusal ℤ
  unfolding duration_from seconds atoi
  parse_duration value = duration_from value (atoi value)

  -- one round of the loop over the scopes, on the normalized name
  unfoldable pub check_scope : Bytes → Outcome NameError Bytes → Outcome Refusal Bytes
  check_scope scope (err e) = err (bad_scope scope e)
  check_scope scope (ok normalized) =
      let (suffix, icann) = system.public_suffix normalized in
      if icann && suffix == normalized then err (public_scope scope) else ok normalized

  unfoldable pub check_scopes : List Bytes → Outcome Refusal (List Bytes)
  unfolding check_scope normalize_dns_name
  check_scopes [] = ok []
  check_scopes (scope ∷ scopes) = do
    normalized ← check_scope scope (normalize_dns_name idna scope)
    rest ← check_scopes scopes
    ok (normalized ∷ rest)

  -- The two tests on the scopes, with `--pivot` only.
  unfoldable pub scopes_of : Flags → Outcome Refusal (List Bytes)
  unfolding check_scopes
  scopes_of flags =
      if flags.pivot
      then (if flags.scopes == [] then err no_scope else check_scopes flags.scopes)
      else ok flags.scopes

  or_system : Option Pool → Pool → Pool
  or_system none certificates = certificates
  or_system (some pool) certificates = pool ++ certificates

  pool_from : Bytes → Pool → Outcome Refusal (Option Pool)
  unfolding or_system
  pool_from path [] = err (ca_empty path)
  pool_from path (c ∷ certificates) = ok (some (or_system system.system_pool (c ∷ certificates)))

  roots_in : Bytes → Outcome Bytes Bytes → Outcome Refusal (Option Pool)
  unfolding pool_from
  roots_in path (err e) = err (ca_unread e)
  roots_in path (ok text) = pool_from path (system.certificates_in text)

  unfoldable pub load_roots : Bytes → Outcome Refusal (Option Pool)
  unfolding roots_in
  load_roots path = if path == [] then ok none else roots_in path (system.read_file path)

  unfoldable pub check_flags : Bool → Flags → Outcome Refusal Checked
  unfolding scopes_of check_numbers from_ports parse_ports parse_duration parse_tls_version
      load_roots chosen_format
  check_flags audit flags = do
    scopes ← scopes_of flags
    sound ← check_numbers audit flags
    ports ← from_ports (parse_ports flags.ports)
    timeout ← parse_duration flags.timeout
    min_version ← parse_tls_version flags.min_version
    max_version ← parse_tls_version flags.max_version
    roots ← load_roots flags.ca_file
    ok (record {
      format = chosen_format flags;
      scopes = scopes;
      ports = ports;
      timeout = timeout;
      min_version = min_version;
      max_version = max_version;
      roots = roots;
    })

-- The closure of `collectRawTargets`.
unfoldable pub keep_value : List Bytes → Bytes → List Bytes
unfolding trim_space
keep_value values value =
    let trimmed = trim_space value in if trimmed == [] then values else values ++ trimmed ∷ []

keep_items : List Bytes → List Bytes → List Bytes
unfolding keep_value
keep_items values [] = values
keep_items values (item ∷ items) = keep_items (keep_value values item) items

from_arguments : List Bytes → List Bytes → List Bytes
unfolding keep_items split
from_arguments values [] = values
from_arguments values (argument ∷ arguments) =
    from_arguments (keep_items values (split argument b',')) arguments

-- The lines of a file or of the standard input, and the error that reading them ends on.
abbrev pub Source : Type 0 → Type 0
Source E = List Bytes × Option E

module _ {E : Type 0} where
  emit_value : List Bytes → Bytes → Outcome E (List Bytes)
  unfolding keep_value
  emit_value values value = ok (keep_value values value)

  from_files : List Bytes → List (Outcome E (Source E)) → Outcome E (List Bytes)
  unfolding emit_value read_items
  from_files values [] = ok values
  from_files values (file ∷ files) = do
    source ← file
    values' ← read_items emit_value source.0 source.1 values
    from_files values' files

  from_stdin : Option (Source E) → List Bytes → Outcome E (List Bytes)
  unfolding emit_value read_items
  from_stdin none values = ok values
  from_stdin (some source) values = read_items emit_value source.0 source.1 values

  -- A file is what opening it gives, and the standard input what is read of it, if it is to be read.
  unfoldable pub collect_raw_targets :
      List Bytes
      → List Bytes
      → List (Outcome E (Source E))
      → Option (Source E)
      → Outcome E (List Bytes)
  unfolding from_arguments from_files from_stdin
  collect_raw_targets args direct files stdin = do
    values ← from_files (from_arguments [] (direct ++ args)) files
    from_stdin stdin values
