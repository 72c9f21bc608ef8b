-- ===== src/Scanner/Retry.antt =====
-- `Scan` of pkg/ctscan/scanner.go, with `waitRate`, `baseResult` and `finishResult`. What the clock,
-- the context and the network do is a script of answers, one for each attempt.
pub mod Laws
pub mod Bounds
pub mod Endings
use Prim.Native.Nat.{min}
use ctscan.Base.{
  ℕ, zero, suc, ◌+◌, ◌-◌, ◌*◌, ◌^◌, Bool, true, false, ◌&&◌, List, [], ◌∷◌, ◌++◌, Option, none,
  some, Outcome, ok, err, if◌then◌else◌, ◌==◌, nat_eq, text_eq, Bytes, codes, ◌≡◌, refl,
}
use ctscan.Base.Int.{ℤ, pos, negsuc}
use ctscan.Scanner.Errors.{Error, is_retryable, classify_error}
use ctscan.Types.{Target, Result, Time, ScanError, schema_version, millisecond}

abbrev pub default_port : ℕ
default_port = 443

-- How the wait before an attempt ends: its timer fires, with the context live or done by then, or
-- the context is done first, with the error that it reports.
pub data Wait : Type 0 where
  elapsed elapsed_done : Wait
  canceled : Error → Wait

-- The answers that one attempt meets: of `waitRate`, of the wait and of `scanOnce`.
pub record Attempt : Type 0 where
  pub rate : Option Error
  pub wait : Wait
  pub outcome : Outcome Error Result

-- How the loop ends: by a result, or by the last error, and with the delays of the backoff timer and
-- the number of calls of `scanOnce` that it made. How long `waitRate` waits is not kept.
pub record Ending : Type 0 where
  pub outcome : Outcome (Option Error) Result
  pub delays : List ℕ
  pub calls : ℕ

-- `time.Duration(1<<min(attempt-1, 5)) * 100 * time.Millisecond`, for a positive attempt
pub delay_before : ℕ → ℕ
delay_before attempt = 2 ^ min (attempt - 1) 5 * 100 * millisecond

stop : Option Error → List ℕ → ℕ → Ending
stop last delays calls = record { outcome = err last; delays = delays; calls = calls }

-- The part of a round behind the waits; `again` makes the rounds after it.
call : Outcome Error Result → List ℕ → ℕ → (Option Error → List ℕ → ℕ → Ending) → Ending
call (ok result) delays calls again = record {
  outcome = ok result;
  delays = delays;
  calls = suc calls;
}
call (err e) delays calls again =
    if is_retryable (some e)
    then again (some e) delays (suc calls)
    else stop (some e) delays (suc calls)

-- The wait of a round that is not the first.
waited : Wait → Option Error → List ℕ → ℕ → (List ℕ → Ending) → Ending
waited elapsed last delays calls go = go delays
waited elapsed_done last delays calls go = stop last delays calls
waited (canceled e) last delays calls go = stop (some e) delays calls

round :
    Attempt
    → ℕ
    → Option Error
    → List ℕ
    → ℕ
    → Option Error
    → (Option Error → List ℕ → ℕ → Ending)
    → Ending
round a attempt last delays calls (some e) again = stop (some e) delays calls
round a zero last delays calls none again = call a.outcome delays calls again
round a (suc n) last delays calls none again =
    waited a.wait last (delays ++ delay_before (suc n) ∷ []) calls
      (λ delays'. call a.outcome delays' calls again)

-- The loop, by the rounds left.
pub attempts : (ℕ → Attempt) → ℕ → ℕ → Option Error → List ℕ → ℕ → Ending
attempts script zero attempt last delays calls = stop last delays calls
attempts script (suc rounds) attempt last delays calls =
    let a = script attempt in
    round a attempt last delays calls a.rate
      (λ last' delays' calls'. attempts script rounds (suc attempt) last' delays' calls')

-- `attempt <= s.config.Retries`, from 0 on
rounds_for : ℤ → ℕ
rounds_for (pos retries) = suc retries
rounds_for (negsuc n) = 0

abbrev pub base_result : Target → Time → Result
base_result target timestamp = record {
  schema = schema_version;
  timestamp = timestamp;
  input = target.input;
  host = target.host;
  ip = [];
  port = target.port;
  sni = target.server_name;
  start_tls = target.start_tls;
  status = codes "failed";
  duration_ms = pos 0;
  tls = none;
  certificate = none;
  chain = [];
  validation = none;
  audit = none;
  findings = [];
  error = none;
  metadata = [];
}

-- `time.Since(started).Milliseconds()` is measured by the caller's clock.
finish_result : Result → ℤ → Result
finish_result result elapsed_ms = record result { duration_ms = elapsed_ms }

conclude : Result → ℤ → Ending → Result
conclude result elapsed_ms ending = elim ending.outcome [
  | ok attempt_result ↦
      finish_result (record attempt_result { timestamp = result.timestamp }) elapsed_ms
  | err last ↦ finish_result (record result { error = some (classify_error last) }) elapsed_ms
]

abbrev invalid_input : ScanError
invalid_input = record {
  kind = codes "invalid_input";
  message = codes "target host is empty";
  retryable = false;
}

-- A port that is not given is 443.
pub with_port : Target → Target
with_port target = if target.port == 0 then record target { port = default_port } else target

-- `script` answers for the target that `with_port` gives.
pub scan : ℤ → (ℕ → Attempt) → Time → ℤ → Target → Result
scan retries script started elapsed_ms target =
    let target' = with_port target in
    let result = base_result target' started in
    if target'.host == [] && target'.address == []
    then finish_result (record result { error = some invalid_input }) elapsed_ms
    else conclude result elapsed_ms (attempts script (rounds_for retries) 0 none [] 0)
