-- ===== src/Cli/Targets.antt =====
-- `prepareTargets` and `targetKey` of internal/cli/cli.go. Parsing a raw target, resolving a target
-- and the test for an address are the client's arguments, as are the clock and the texts of errors.
pub mod Laws
pub mod Good
use ctscan.Base.{
  ℕ, Bool, true, false, ◌&&◌, not, List, [], ◌∷◌, ◌++◌, Option, none, some, if◌then◌else◌, ◌==◌,
  contains, text_eq, Bytes, codes, Outcome, ok, err, ◌>>=◌,
}
use ctscan.Base.Decimal.{decimal}
use ctscan.Base.Int.{ℤ, pos}
use ctscan.Types.{Target, Result, ScanError, Time, schema_version}

-- fmt.Sprintf("%s|%s|%d|%s|%s", …)
unfoldable pub target_key : Target → Bytes
unfolding decimal
target_key target =
    target.host
    ++ (b'|'
        ∷ (target.address
            ++ (b'|'
                ∷ (decimal target.port
                    ++ (b'|' ∷ (target.server_name ++ (b'|' ∷ target.start_tls)))))))

-- What the loops append to: the targets and the failures. The map `seen` holds the keys of the
-- targets.
pub record Prepared : Type 0 where
  pub targets : List Target
  pub failures : List Result

-- What `prepareTargets` calls: `ParseTarget`, `Resolve`, whether `net.ParseIP` reads a text, and the
-- clock.
pub record Source (E : Type 0) : Type 0 where
  pub parse : Bytes → Outcome E (List Target)
  pub resolve : Target → Outcome E (List Target)
  pub message : E → Bytes
  pub is_ip : Bytes → Bool
  pub now : Time

abbrev pub target_keys : List Target → List Bytes
target_keys [] = []
target_keys (t ∷ ts) = target_key t ∷ target_keys ts

-- The result for a target that does not resolve.
abbrev dns_failure : Time → Target → Bytes → Result
dns_failure now target message = record {
  schema = schema_version;
  timestamp = now;
  input = target.input;
  host = target.host;
  ip = [];
  port = target.port;
  sni = target.server_name;
  start_tls = [];
  status = codes "failed";
  duration_ms = pos 0;
  tls = none;
  certificate = none;
  chain = [];
  validation = none;
  audit = none;
  findings = [];
  error = some record { kind = codes "dns"; message = message; retryable = true };
  metadata = [];
}

unfoldable pub add_target : Prepared → Target → Prepared
add_target p target =
    if contains (target_keys p.targets) (target_key target)
    then p
    else record p { targets = p.targets ++ target ∷ [] }

unfoldable pub add_targets : List Target → Prepared → Prepared
add_targets [] p = p
add_targets (target ∷ targets) p = add_targets targets (add_target p target)

module _ {E : Type 0} (source : Source E) (remote_dns : Bool) where
  resolved : Prepared → Target → Outcome E (List Target) → Prepared
  unfolding add_targets add_target
  resolved p target (ok candidates) = add_targets candidates p
  resolved p target (err e) = record p {
    failures = p.failures ++ dns_failure source.now target (source.message e) ∷ [];
  }

  -- One round of the inner loop.
  prepare_one : Prepared → Target → Prepared
  unfolding resolved add_target
  prepare_one p target =
      if remote_dns && not (source.is_ip target.host)
      then add_target p target
      else resolved p target (source.resolve target)

  prepare_each : List Target → Prepared → Prepared
  unfolding prepare_one
  prepare_each [] p = p
  prepare_each (target ∷ targets) p = prepare_each targets (prepare_one p target)

  prepare_from : List Bytes → Prepared → Outcome E Prepared
  unfolding prepare_each
  prepare_from [] p = ok p
  prepare_from (value ∷ raw) p =
      source.parse value >>= λ parsed. prepare_from raw (prepare_each parsed p)

  unfoldable pub prepare_targets : List Bytes → Outcome E Prepared
  unfolding prepare_from
  prepare_targets raw = prepare_from raw record { targets = []; failures = [] }
