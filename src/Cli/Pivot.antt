-- ===== src/Cli/Pivot.antt =====
-- The waves of `runScan` of internal/cli/cli.go, from the failures of the first targets to the exit
-- code. A wave is the list of targets that `runWave` scans; the results that it emits, in their
-- order, and the error that it ends on are the client's argument, as is `prepareTargets` on a name.
pub mod Steps
pub mod Discovery
pub mod Laws
pub mod Safety
pub mod Depth
use ctscan.Base.{
  ℕ, zero, suc, ◌+◌, Bool, true, false, ◌&&◌, ◌||◌, not, List, [], ◌∷◌, ◌++◌, Option, none, some,
  if◌then◌else◌, ◌==◌, contains, text_eq, Bytes, codes, Outcome, ok, err, ◌>>=◌, length, ltb, leb,
}
use ctscan.Base.TextOrder.{sort_unique}
use ctscan.Cli.Targets.{target_key, target_keys, Prepared}
use ctscan.Input.Names.{Idna, in_scope}
use ctscan.Output.Names.{certificate_names}
use ctscan.Output.Writer.{Writer}
use ctscan.Types.{Target, Result, AuditResult}

pub record Stats : Type 0 where
  pub processed : ℕ
  pub succeeded : ℕ
  pub failed : ℕ
  pub findings : ℕ
  pub audit_fail : Bool

-- `pivot_depth` and `max_discovery` are those that `runScan` has found to be positive.
pub record Options : Type 0 where
  pub pivot : Bool
  pub pivot_depth : ℕ
  pub max_discovery : ℕ
  pub scopes : List Bytes

-- The variables of the loop: `next` also is the wave that the next round scans. The waves that were
-- scanned are kept in `waves`.
pub record State : Type 0 where
  pub stats : Stats
  pub writer : Writer
  pub seen : List Bytes
  pub discovered : ℕ
  pub next_names : List Bytes
  pub next : List Target
  pub waves : List (List Target)

-- What the loop calls: `runWave`, `prepareTargets` on one name and `Writer.Write`.
pub record Calls (E : Type 0) : Type 0 where
  pub run_wave : ℕ → List Target → List Result × Option E
  pub prepare : Bytes → Outcome E Prepared
  pub write : Writer → Result → Writer × Option E

-- A part of the loop, that goes on or returns with an error.
abbrev pub Flow : Type 0 → Type 0
Flow E = Outcome (E × State) State

unfoldable pub fails_audit : Option AuditResult → Bool
fails_audit none = false
fails_audit (some audit) = audit.compliance == codes "fail"

-- `stats` of the closure passed to runWave
unfoldable pub count : Result → Stats → Stats
unfolding fails_audit
count result s =
    let success = result.status == codes "success" in
    record {
      processed = suc s.processed;
      succeeded = if success then suc s.succeeded else s.succeeded;
      failed = if success then s.failed else suc s.failed;
      findings = s.findings + length result.findings;
      audit_fail = if fails_audit result.audit then true else s.audit_fail;
    }

unfoldable pub count_failure : Stats → Stats
count_failure s = record s { processed = suc s.processed; failed = suc s.failed }

module _ {E : Type 0} (idna : Idna) (calls : Calls E) (opts : Options) where
  unfoldable pub scoped : List Bytes → List Bytes
  scoped [] = []
  scoped (name ∷ names) =
      let rest = scoped names in if in_scope idna name opts.scopes then name ∷ rest else rest

  unfoldable pub note_names : ℕ → Result → List Bytes → List Bytes
  unfolding scoped
  note_names depth result names =
      if opts.pivot && ltb depth opts.pivot_depth
      then names ++ scoped (certificate_names idna result)
      else names

  unfoldable pub written : State → Writer × Option E → Flow E
  written st (w, none) = ok (record st { writer = w })
  written st (w, some e) = err (e, record st { writer = w })

  unfoldable pub write_result : Result → State → Flow E
  unfolding written
  write_result result st = written st (calls.write st.writer result)

  -- The closure that `runWave` calls for each result.
  unfoldable pub emit : ℕ → Result → State → Flow E
  unfolding count note_names write_result
  emit depth result st = write_result result (record st {
    stats = count result st.stats;
    next_names = note_names depth result st.next_names;
  })

  unfoldable pub emit_each : ℕ → List Result → State → Flow E
  unfolding emit
  emit_each depth [] st = ok st
  emit_each depth (result ∷ results) st = emit depth result st >>= emit_each depth results

  unfoldable pub wave_ended : Option E → State → Flow E
  wave_ended none st = ok st
  wave_ended (some e) st = err (e, st)

  unfoldable pub begin_wave : State → State
  begin_wave st = record st { next_names = []; next = []; waves = st.waves ++ st.next ∷ [] }

  unfoldable pub scan_wave : ℕ → State → Flow E
  unfolding emit_each wave_ended begin_wave
  scan_wave depth st =
      let answer = calls.run_wave depth st.next in
      emit_each depth answer.0 (begin_wave st) >>= wave_ended answer.1

  unfoldable pub write_failures : List Result → State → Flow E
  unfolding count_failure write_result
  write_failures [] st = ok st
  write_failures (failure ∷ failures) st =
      write_result failure (record st { stats = count_failure st.stats })
      >>= write_failures failures

  unfoldable pub add_candidate : Target → State → State
  add_candidate candidate st = if contains st.seen (target_key candidate) then st else record st {
    seen = st.seen ++ target_key candidate ∷ [];
    next = st.next ++ candidate ∷ [];
  }

  unfoldable pub add_candidates : List Target → State → State
  unfolding add_candidate
  add_candidates [] st = st
  add_candidates (candidate ∷ candidates) st =
      add_candidates candidates (add_candidate candidate st)

  -- `addedName`: some candidate has a key that the earlier ones and `seen` have not.
  unfoldable pub adds_name : List Target → List Bytes → Bool
  adds_name [] seen = false
  adds_name (candidate ∷ candidates) seen =
      not (contains seen (target_key candidate)) || adds_name candidates seen

  unfoldable pub count_name : Bool → State → State
  count_name added st = if added then record st { discovered = suc st.discovered } else st

  unfoldable pub take_candidates : List Target → State → State
  unfolding add_candidates adds_name count_name
  take_candidates candidates st =
      count_name (adds_name candidates st.seen) (add_candidates candidates st)

  unfoldable pub take_prepared : Outcome E Prepared → State → Flow E
  unfolding write_failures take_candidates
  take_prepared (err e) st = ok st
  take_prepared (ok p) st =
      write_failures p.failures st >>= λ st'. ok (take_candidates p.targets st')

  unfoldable pub discover : Bytes → State → Flow E
  unfolding take_prepared
  discover name st = take_prepared (calls.prepare name) st

  unfoldable pub discover_each : List Bytes → State → Flow E
  unfolding discover
  discover_each [] st = ok st
  discover_each (name ∷ names) st =
      if leb opts.max_discovery st.discovered
      then ok st
      else (discover name st >>= discover_each names)

  unfoldable pub proceed : Flow E → (State → Option (Flow E)) → Option (Flow E)
  proceed (err e) go = some (err e)
  proceed (ok st) go = go st

  -- What follows a wave that ended without an error; `again` makes the next round.
  unfoldable pub after_wave : ℕ → State → (State → Option (Flow E)) → Option (Flow E)
  unfolding discover_each sort_unique proceed
  after_wave depth st again =
      if not opts.pivot || leb opts.pivot_depth depth
      then some (ok st)
      else proceed (discover_each (sort_unique st.next_names) st) again

  -- One round, on the wave of the targets that are given.
  unfoldable pub wave_round : List Target → ℕ → State → (State → Option (Flow E)) → Option (Flow E)
  unfolding scan_wave after_wave proceed
  wave_round [] depth st again = some (ok st)
  wave_round (target ∷ targets) depth st again =
      proceed (scan_wave depth st) (λ st'. after_wave depth st' again)

  -- The loop, from the round `depth` on; `none` when the fuel runs out.
  unfoldable pub waves_from : ℕ → ℕ → State → Option (Flow E)
  unfolding wave_round
  waves_from zero depth st = none
  waves_from (suc fuel) depth st = wave_round st.next depth st (waves_from fuel (suc depth))

  abbrev pub initial : List Target → Writer → State
  initial parsed writer = record {
    stats = record { processed = 0; succeeded = 0; failed = 0; findings = 0; audit_fail = false };
    writer = writer;
    seen = target_keys parsed;
    discovered = 0;
    next_names = [];
    next = parsed;
    waves = [];
  }

  -- From the failures of the first targets to the end of the loop.
  unfoldable pub run_waves : ℕ → List Target → List Result → Writer → Option (Flow E)
  unfolding write_failures waves_from proceed
  run_waves fuel parsed failures writer =
      proceed (write_failures failures (initial parsed writer)) (waves_from fuel 0)

-- The exit code behind the loop: an error of the loop or of `Flush` is 1, a context that is done 130,
-- and an audit with a failure 3.
unfoldable pub exit_code : {E : Type 0} (audit flushed context_done : Bool) → Flow E → ℕ
exit_code audit flushed context_done (err e) = 1
exit_code audit flushed context_done (ok st) =
    if not flushed
    then 1
    else if context_done
    then 130
    else if audit && st.stats.audit_fail
    then 3
    else 0
