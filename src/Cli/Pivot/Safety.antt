-- ===== src/Cli/Pivot/Safety.antt =====
-- What the waves of `runScan` scan: no endpoint twice, and of what was not given only what names in
-- scope give; and its counters.
use ctscan.Base.{
  ℕ, ◌+◌, ◌≤◌, true, List, [], ◌∷◌, ◌++◌, contains, text_eq, ◌≡◌, refl, sym, ap, ◌∙◌, arith,
  Bool-cases, inl, inr, All, All-append, Distinct, Distinct-concat, append-nil, append_assoc, ◌⊎◌,
}
use ctscan.Cli.Pivot.{
  Stats, Options, State, Calls, count, count_failure, begin_wave, add_candidate, run_waves,
}
use ctscan.Cli.Pivot.Laws.{Finally, Finally-weaken, run_waves-Finally}
use ctscan.Cli.Pivot.Steps.{IsCandidate, KeepsLoop}
use ctscan.Cli.Targets.Laws.{target_keys-append, target_keys-All}
use ctscan.Cli.Targets.{target_key, target_keys}
use ctscan.Input.Names.{Idna}
use ctscan.Output.Writer.{Writer}
use ctscan.Types.{Target, Result}

-- The targets of all waves.
abbrev pub joined : List (List Target) → List Target
joined [] = []
joined (wave ∷ waves) = wave ++ joined waves

joined-append :
    (waves : List (List Target)) (wave : List Target)
    → joined (waves ++ wave ∷ []) ≡ joined waves ++ wave
joined-append [] wave = append-nil wave
joined-append (w ∷ waves) wave =
    ap (λ ts. w ++ ts) (joined-append waves wave) ∙ sym (append_assoc w (joined waves) wave)

-- The targets that were scanned, then those of the next wave.
abbrev pub reached : State → List Target
reached st = joined st.waves ++ st.next

-- The map holds the keys of the targets that were scanned or will be next, none twice.
abbrev IsUnique : State → Type 0
IsUnique st = (target_keys (reached st) ≡ st.seen) × Distinct st.seen

module _ {E : Type 0} (idna : Idna) (calls : Calls E) (opts : Options) where
  reached-begin_wave : (st : State) → reached (begin_wave idna calls opts st) ≡ reached st
  unfolding begin_wave
  reached-begin_wave st =
      append-nil (joined (st.waves ++ st.next ∷ [])) ∙ joined-append st.waves st.next

  add_candidate-IsUnique :
      (t : Target) (st : State) → IsUnique st → IsUnique (add_candidate idna calls opts t st)
  unfolding add_candidate
  add_candidate-IsUnique t st (e, d) = elim (Bool-cases (contains st.seen (target_key t))) [
    | inl old ↦ rw old (e, d)
    | inr fresh ↦ rw fresh (
      ap target_keys (sym (append_assoc (joined st.waves) st.next (t ∷ [])))
          ∙ target_keys-append (reached st) (t ∷ [])
          ∙ ap (λ ks. ks ++ target_key t ∷ []) e,
      Distinct-concat st.seen (target_key t) d fresh,
    )
  ]

  IsUnique-kept : KeepsLoop idna calls opts IsUnique
  IsUnique-kept = record {
    keep_round = record {
      keep_writer = λ st w h. h;
      keep_count = λ st r names h. h;
      keep_failure = λ st h. h;
      keep_candidate = λ t st c h. add_candidate-IsUnique t st h;
      keep_discovered = λ st u h. h;
    };
    keep_wave = λ st (e, d). (
      ap target_keys (reached-begin_wave st) ∙ e ∙ unfold begin_wave in refl,
      unfold begin_wave in d,
    );
  }

  -- When the loop ends, every target that was scanned or is next has a key of its own,
  -- if the first targets have.
  pub run_waves-IsUnique :
      (fuel : ℕ) (parsed : List Target) (failures : List Result) (w : Writer)
      → Distinct (target_keys parsed)
      → Finally
          (λ st. Distinct (target_keys (joined st.waves ++ st.next)))
          (run_waves idna calls opts fuel parsed failures w)
  run_waves-IsUnique fuel parsed failures w d =
      let run = run_waves idna calls opts fuel parsed failures w in
      Finally-weaken IsUnique (λ st. Distinct (target_keys (joined st.waves ++ st.next))) run
        (λ st (e, d'). rw e d')
        (run_waves-Finally idna calls opts IsUnique IsUnique-kept fuel parsed failures w (refl, d))

  -- Given, or a candidate of a name in scope.
  abbrev pub IsAllowed : List Target → Target → Type 0
  IsAllowed given t =
      (contains (target_keys given) (target_key t) ≡ true) ⊎ IsCandidate idna calls opts t

  add_candidate-All :
      (Q : Target → Type 0) (t : Target) (st : State)
      → Q t
      → All Q (reached st)
      → All Q (reached (add_candidate idna calls opts t st))
  unfolding add_candidate
  add_candidate-All Q t st q each = elim (Bool-cases (contains st.seen (target_key t))) [
    | inl old ↦ rw old each
    | inr fresh ↦ rw fresh (
        rw⁻¹ (append_assoc (joined st.waves) st.next (t ∷ []))
          (All-append Q (reached st) (t ∷ []) each (q, tt)))
  ]

  IsAllowed-kept :
      (given : List Target) → KeepsLoop idna calls opts (λ st. All (IsAllowed given) (reached st))
  IsAllowed-kept given = record {
    keep_round = record {
      keep_writer = λ st w h. h;
      keep_count = λ st r names h. h;
      keep_failure = λ st h. h;
      keep_candidate = λ t st c h. add_candidate-All (IsAllowed given) t st (inr c) h;
      keep_discovered = λ st u h. h;
    };
    keep_wave = λ st h. rw (reached-begin_wave st) h;
  }

  given-All :
      (given ts : List Target)
      → All (λ t. contains (target_keys given) (target_key t) ≡ true) ts
      → All (IsAllowed given) ts
  given-All given [] h = tt
  given-All given (t ∷ ts) (h, hs) = (inl h, given-All given ts hs)

  -- When the loop ends, every target that was scanned or is next has the key of a given one, or of
  -- one that preparing a name in scope gives.
  pub run_waves-IsAllowed :
      (fuel : ℕ) (parsed : List Target) (failures : List Result) (w : Writer)
      → Finally
          (λ st. All (IsAllowed parsed) (reached st))
          (run_waves idna calls opts fuel parsed failures w)
  run_waves-IsAllowed fuel parsed failures w =
      run_waves-Finally idna calls opts (λ st. All (IsAllowed parsed) (reached st))
        (IsAllowed-kept parsed) fuel parsed failures w
        (given-All parsed parsed (target_keys-All parsed (target_keys parsed) (λ k m. m)))

  -- Each result that was counted succeeded or failed, and no more names were counted than allowed.
  abbrev pub IsCounted : State → Type 0
  IsCounted st =
      (st.stats.processed ≡ st.stats.succeeded + st.stats.failed)
      × (st.discovered ≤ opts.max_discovery)

  count-sum :
      (r : Result) (s : Stats)
      → s.processed ≡ s.succeeded + s.failed
      → (count r s).processed ≡ (count r s).succeeded + (count r s).failed
  unfolding count
  count-sum r s h = ground arith

  add_candidate-IsCounted :
      (t : Target) (st : State) → IsCounted st → IsCounted (add_candidate idna calls opts t st)
  unfolding add_candidate
  add_candidate-IsCounted t st h = ground arith

  IsCounted-kept : KeepsLoop idna calls opts IsCounted
  IsCounted-kept = record {
    keep_round = record {
      keep_writer = λ st w h. h;
      keep_count = λ st r names (h, d). (count-sum r st.stats h, d);
      keep_failure = λ st (h, d). (unfold count_failure in omega (arith, h), d);
      keep_candidate = λ t st c h. add_candidate-IsCounted t st h;
      keep_discovered = λ st u (h, d). (h, u);
    };
    keep_wave = λ st h. unfold begin_wave in h;
  }

  -- When the loop ends, the results counted are the sum of those that succeeded and those that
  -- failed, and at most `max_discovery` names are counted as discovered.
  pub run_waves-IsCounted :
      (fuel : ℕ) (parsed : List Target) (failures : List Result) (w : Writer)
      → Finally IsCounted (run_waves idna calls opts fuel parsed failures w)
  run_waves-IsCounted fuel parsed failures w =
      run_waves-Finally idna calls opts IsCounted IsCounted-kept fuel parsed failures w
        (omega arith, omega arith)
