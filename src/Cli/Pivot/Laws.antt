-- ===== src/Cli/Pivot/Laws.antt =====
-- What holds at the end of the loop of `runScan`, if each of its assignments keeps it.
use ctscan.Base.{
  ℕ, zero, suc, ◌||◌, not, List, [], ◌∷◌, Option, none, some, text_eq, ok, err, leb, sym, ◌∙◌,
  Bool-cases, inl, inr,
}
use ctscan.Base.TextOrder.{sort_unique, contains-sort_unique}
use ctscan.Cli.Pivot.{
  Options, State, Calls, Flow, begin_wave, scan_wave, write_failures, discover_each, proceed,
  after_wave, wave_round, waves_from, initial, run_waves,
}
use ctscan.Cli.Pivot.Discovery.{write_failures-EndsIn, discover_each-EndsIn}
use ctscan.Cli.Pivot.Steps.{EndsIn, Keeps, KeepsLoop, With, scan_wave-EndsIn}
use ctscan.Input.Names.{Idna}
use ctscan.Output.Writer.{Writer}
use ctscan.Types.{Target, Result}

-- What a run that ends has kept; nothing for one out of fuel.
abbrev pub Finally : {E : Type 0} → (State → Type 0) → Option (Flow E) → Type 0
Finally P none = Unit
Finally P (some (ok st)) = P st
Finally P (some (err (e, st))) = P st

pub Finally-weaken :
    {E : Type 0} (P Q : State → Type 0) (o : Option (Flow E))
    → ((st : State) → P st → Q st)
    → Finally P o
    → Finally Q o
Finally-weaken P Q none f h = tt
Finally-weaken P Q (some (ok st)) f h = f st h
Finally-weaken P Q (some (err (e, st))) f h = f st h

module _ {E : Type 0} (idna : Idna) (calls : Calls E) (opts : Options) where
  -- A round that keeps `R`, from the start of its wave on, ends in `P` if what follows it does.
  module _ (R P : State → Type 0) (keeps : Keeps idna calls opts R)
      (weaken : (st : State) → R st → P st) where
    proceed-Finally :
        (Q : State → Type 0) (f : Flow E) (go : State → Option (Flow E))
        → EndsIn idna calls opts Q f
        → ((st : State) → Q st → P st)
        → ((st : State) → Q st → Finally P (go st))
        → Finally P (proceed idna calls opts f go)
    unfolding proceed
    proceed-Finally Q (ok st) go h w next = next st h
    proceed-Finally Q (err (e, st)) go h w next = w st h

    after_wave-Finally :
        (depth : ℕ) (st : State) (again : State → Option (Flow E))
        → With idna calls opts R keeps st
        → ((st' : State) → R st' → Finally P (again st'))
        → Finally P (after_wave idna calls opts depth st again)
    unfolding after_wave
    after_wave-Finally depth st again (h, s) next =
        elim (Bool-cases (not opts.pivot || leb opts.pivot_depth depth)) [
          | inl last ↦ rw last (weaken st h)
          | inr more ↦ rw more (
              proceed-Finally R (discover_each idna calls opts (sort_unique st.next_names) st) again
                (discover_each-EndsIn idna calls opts R keeps (sort_unique st.next_names) st
                  (λ n m. s n (sym (contains-sort_unique st.next_names n) ∙ m)) h)
                weaken next)
        ]

    pub wave_round-Finally :
        (wave : List Target) (depth : ℕ) (st : State) (again : State → Option (Flow E))
        → P st
        → R (begin_wave idna calls opts st)
        → ((st' : State) → R st' → Finally P (again st'))
        → Finally P (wave_round idna calls opts wave depth st again)
    unfolding wave_round
    wave_round-Finally [] depth st again h begun next = h
    wave_round-Finally (t ∷ ts) depth st again h begun next =
        proceed-Finally (With idna calls opts R keeps) (scan_wave idna calls opts depth st)
          (λ st'. after_wave idna calls opts depth st' again)
          (scan_wave-EndsIn idna calls opts R keeps depth st begun) (λ x p. weaken x p.0)
          (λ x p. after_wave-Finally depth x again p next)

    pub start-Finally :
        (fuel : ℕ) (parsed : List Target) (failures : List Result) (w : Writer)
        → R (initial idna calls opts parsed w)
        → ((st' : State) → R st' → Finally P (waves_from idna calls opts fuel 0 st'))
        → Finally P (run_waves idna calls opts fuel parsed failures w)
    unfolding run_waves
    start-Finally fuel parsed failures w h next =
        proceed-Finally R
          (write_failures idna calls opts failures (initial idna calls opts parsed w))
          (waves_from idna calls opts fuel 0)
          (write_failures-EndsIn idna calls opts R keeps failures (initial idna calls opts parsed w)
            h)
          weaken next

  module _ (P : State → Type 0) (loop : KeepsLoop idna calls opts P) where
    waves_from-Finally :
        (fuel depth : ℕ) (st : State) → P st → Finally P (waves_from idna calls opts fuel depth st)
    unfolding waves_from
    waves_from-Finally zero depth st h = tt
    waves_from-Finally (suc fuel) depth st h =
        wave_round-Finally P P loop.keep_round (λ x p. p) st.next depth st
          (waves_from idna calls opts fuel (suc depth)) h (loop.keep_wave st h)
          (waves_from-Finally fuel (suc depth))

    -- What holds at the start and is kept by each assignment holds at the end.
    pub run_waves-Finally :
        (fuel : ℕ) (parsed : List Target) (failures : List Result) (w : Writer)
        → P (initial idna calls opts parsed w)
        → Finally P (run_waves idna calls opts fuel parsed failures w)
    run_waves-Finally fuel parsed failures w h =
        start-Finally P P loop.keep_round (λ x p. p) fuel parsed failures w h
          (waves_from-Finally fuel 0)
