-- ===== src/Cli/Endpoints.antt =====
-- `prepareTargets` of internal/cli/cli.go with the parser and the resolver of internal/input/input.go
-- that it calls: every target that is prepared is an endpoint.
use ctscan.Base.{
  ℕ, Bool, List, [], ◌∷◌, Option, none, some, Outcome, ok, err, text_eq, Bytes, All, Distinct, ◌≡◌,
}
use ctscan.Cli.Targets.{target_keys, Prepared, Source, prepare_targets}
use ctscan.Cli.Targets.Good.{prepare_targets-AreGood}
use ctscan.Cli.Targets.Laws.{prepare_targets-Distinct}
use ctscan.Input.Names.{Idna}
use ctscan.Input.Ports.Laws.{IsPort}
use ctscan.Input.Ranges.{Options}
use ctscan.Input.Resolving.{Resolver, resolve_target, resolve_target-IsResolved, IsResolved}
use ctscan.Input.Targets.{Net, TargetError, parse_target}
use ctscan.Input.Ranges.Endpoints.{IsEndpoint}
use ctscan.Input.Targets.Laws.{parse_target-AreEndpoints}
use ctscan.Types.{Target, Time}

-- The errors of `ParseTarget`, which may also run out of fuel, and those of `Resolve`.
pub data PrepareError : Type 0 where
  unread : TargetError → PrepareError
  endless : PrepareError
  unresolved : Bytes → PrepareError

parsed_or : Option (Outcome TargetError (List Target)) → Outcome PrepareError (List Target)
parsed_or none = err endless
parsed_or (some (err e)) = err (unread e)
parsed_or (some (ok targets)) = ok targets

resolved_or : Outcome Bytes (List Target) → Outcome PrepareError (List Target)
resolved_or (ok targets) = ok targets
resolved_or (err e) = err (unresolved e)

unfoldable pub program_source :
    Net
    → Idna
    → ℕ
    → Options
    → Resolver Bytes
    → Bool
    → (PrepareError → Bytes)
    → Time
    → Source PrepareError
unfolding parsed_or resolved_or parse_target resolve_target
program_source net idna fuel opts resolver all_ips message now = record {
  parse = λ value. parsed_or (parse_target net idna fuel value opts);
  resolve = λ target. resolved_or (resolve_target resolver all_ips target);
  message = message;
  is_ip = resolver.is_ip;
  now = now;
}

parsed_or-ok :
    (o : Option (Outcome TargetError (List Target))) (ts : List Target)
    → parsed_or o ≡ ok ts
    → o ≡ some (ok ts)
unfolding parsed_or
parsed_or-ok none ts h = cc
parsed_or-ok (some (err e)) ts h = cc
parsed_or-ok (some (ok us)) ts h = cc

resolved_or-ok :
    (o : Outcome Bytes (List Target)) (ts : List Target) → resolved_or o ≡ ok ts → o ≡ ok ts
unfolding resolved_or
resolved_or-ok (err e) ts h = cc
resolved_or-ok (ok us) ts h = cc

module _ (resolver : Resolver Bytes) (start_tls : Bytes) (target : Target) where
  moved-IsEndpoint :
      (t : Target)
      → IsEndpoint start_tls target
      → IsResolved resolver target t
      → IsEndpoint start_tls t
  moved-IsEndpoint t good (e, kept) = rw e good

  moved-All :
      (ts : List Target)
      → IsEndpoint start_tls target
      → All (IsResolved resolver target) ts
      → All (IsEndpoint start_tls) ts
  moved-All [] good h = tt
  moved-All (t ∷ ts) good (r, h) = (moved-IsEndpoint t good r, moved-All ts good h)

-- Every target that is prepared has a port of 1 to 65535 and the protocol of the options, if the
-- ports of the options are such ports, and no two have the same key.
pub prepare_targets-AreEndpoints :
    (net : Net) (idna : Idna) (fuel : ℕ) (opts : Options) (resolver : Resolver Bytes)
    (all_ips : Bool) (message : PrepareError → Bytes) (now : Time) (remote_dns : Bool)
    (raw : List Bytes) (p : Prepared)
    → All IsPort opts.ports
    → prepare_targets
        (program_source net idna fuel opts resolver all_ips message now)
        remote_dns
        raw
      ≡ ok p
    → All (IsEndpoint opts.start_tls) p.targets × Distinct (target_keys p.targets)
unfolding program_source
prepare_targets-AreEndpoints net idna fuel opts resolver all_ips message now remote_dns raw p ports
      h =
    let source = program_source net idna fuel opts resolver all_ips message now in
    (
      prepare_targets-AreGood source remote_dns (IsEndpoint opts.start_tls) raw p
          (λ t good ts r.
            moved-All resolver opts.start_tls t ts good
              (resolve_target-IsResolved resolver all_ips t ts
                (resolved_or-ok (resolve_target resolver all_ips t) ts r)).0)
          (λ value ts r.
            parse_target-AreEndpoints net idna fuel value opts ts ports
              (parsed_or-ok (parse_target net idna fuel value opts) ts r))
          h,
      prepare_targets-Distinct source remote_dns raw p h,
    )
