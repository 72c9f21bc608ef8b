-- ===== src/Cli/Pivot/Depth.antt =====
-- How many waves `runScan` makes, and that its loop ends.
use ctscan.Base.{
  ℕ, zero, suc, ◌+◌, ◌≤◌, ◌<◌, true, ◌||◌, not, List, [], ◌∷◌, Option, text_eq, ok, err, length,
  leb, ◌≡◌, refl, arith, Bool-cases, inl, inr, is_some, length-append,
}
use ctscan.Base.TextOrder.{sort_unique}
use ctscan.Cli.Pivot.{
  Options, State, Calls, Flow, begin_wave, scan_wave, write_failures, add_candidate, discover_each,
  proceed, after_wave, wave_round, waves_from, initial, run_waves,
}
use ctscan.Cli.Pivot.Laws.{Finally, wave_round-Finally, start-Finally}
use ctscan.Cli.Pivot.Steps.{Keeps}
use ctscan.Input.Names.{Idna}
use ctscan.Output.Writer.{Writer}
use ctscan.Types.{Target, Result}

module _ {E : Type 0} (idna : Idna) (calls : Calls E) (opts : Options) where
  proceed-some :
      (f : Flow E) (go : State → Option (Flow E))
      → ((st : State) → is_some (go st) ≡ true)
      → is_some (proceed idna calls opts f go) ≡ true
  unfolding proceed
  proceed-some (ok st) go h = h st
  proceed-some (err e) go h = refl

  wave_round-some :
      (wave : List Target) (depth : ℕ) (st : State) (again : State → Option (Flow E))
      → (depth < opts.pivot_depth → (st' : State) → is_some (again st') ≡ true)
      → is_some (wave_round idna calls opts wave depth st again) ≡ true
  unfolding wave_round after_wave
  wave_round-some [] depth st again h = refl
  wave_round-some (t ∷ ts) depth st again h =
      proceed-some (scan_wave idna calls opts depth st)
        (λ st'. after_wave idna calls opts depth st' again)
        (λ st'. elim (Bool-cases (not opts.pivot || leb opts.pivot_depth depth)) [
          | inl last ↦ rw last refl
          | inr more ↦ rw more (
              proceed-some (discover_each idna calls opts (sort_unique st'.next_names) st') again
                (h (ground arith)))
        ])

  waves_from-some :
      (fuel depth : ℕ) (st : State)
      → depth ≤ opts.pivot_depth
      → opts.pivot_depth < fuel + depth
      → is_some (waves_from idna calls opts fuel depth st) ≡ true
  unfolding waves_from
  waves_from-some zero depth st h k = absurd (omega arith)
  waves_from-some (suc fuel) depth st h k =
      wave_round-some st.next depth st (waves_from idna calls opts fuel (suc depth))
        (λ below st'. waves_from-some fuel (suc depth) st' (omega arith) (omega arith))

  -- At most so many waves were scanned.
  abbrev pub AtMost : ℕ → State → Type 0
  AtMost limit st = length st.waves ≤ limit

  AtMost-kept : (limit : ℕ) → Keeps idna calls opts (AtMost limit)
  AtMost-kept limit = record {
    keep_writer = λ st w h. h;
    keep_count = λ st r names h. h;
    keep_failure = λ st h. h;
    keep_candidate = λ t st c h. unfold add_candidate in ground arith;
    keep_discovered = λ st u h. h;
  }

  waves_from-AtMost :
      (fuel depth n limit : ℕ) (st : State)
      → AtMost n st
      → n + fuel ≤ limit
      → Finally (AtMost limit) (waves_from idna calls opts fuel depth st)
  unfolding waves_from
  waves_from-AtMost zero depth n limit st h k = tt
  waves_from-AtMost (suc fuel) depth n limit st h k =
      wave_round-Finally idna calls opts (AtMost (suc n)) (AtMost limit) (AtMost-kept (suc n))
        (λ x p. omega arith) st.next depth st (waves_from idna calls opts fuel (suc depth))
        (omega arith)
        (unfold begin_wave in rw (length-append st.waves (st.next ∷ [])) (omega arith))
        (λ x p. waves_from-AtMost fuel (suc depth) (suc n) limit x p (omega arith))

  -- With fuel for one round more than the pivot depth, the loop ends, and has scanned at most that
  -- many waves.
  pub run_waves-ends :
      (parsed : List Target) (failures : List Result) (w : Writer)
      → (is_some (run_waves idna calls opts (suc opts.pivot_depth) parsed failures w) ≡ true)
        × Finally
            (AtMost (suc opts.pivot_depth))
            (run_waves idna calls opts (suc opts.pivot_depth) parsed failures w)
  run_waves-ends parsed failures w = (
    unfold run_waves in
        proceed-some (write_failures idna calls opts failures (initial idna calls opts parsed w))
          (waves_from idna calls opts (suc opts.pivot_depth) 0)
          (λ st. waves_from-some (suc opts.pivot_depth) 0 st (omega arith) (omega arith)),
    start-Finally idna calls opts (AtMost 0) (AtMost (suc opts.pivot_depth)) (AtMost-kept 0)
        (λ x p. omega arith) (suc opts.pivot_depth) parsed failures w (omega arith)
        (λ x p.
          waves_from-AtMost (suc opts.pivot_depth) 0 0 (suc opts.pivot_depth) x p (omega arith)),
  )
