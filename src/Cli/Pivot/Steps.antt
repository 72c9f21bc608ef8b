-- ===== src/Cli/Pivot/Steps.antt =====
-- What holds at the end of the loop of `runScan`, if each of its assignments keeps it.
use ctscan.Base.{
  ℕ, suc, ◌<◌, true, List, [], ◌∷◌, Option, none, some, contains, text_eq, Bytes, ok, err, ◌>>=◌,
  ◌≡◌, arith, contains-append,
}
use ctscan.Cli.Pivot.{
  Options, State, Calls, Flow, count, count_failure, scoped, note_names, written, write_result,
  emit, emit_each, wave_ended, begin_wave, scan_wave, add_candidate,
}
use ctscan.Cli.Targets.{target_key, target_keys, Prepared}
use ctscan.Input.Names.{Idna, in_scope}
use ctscan.Output.Names.{certificate_names}
use ctscan.Output.Writer.{Writer}
use ctscan.Types.{Target, Result}

module _ {E : Type 0} (idna : Idna) (calls : Calls E) (opts : Options) where
  -- A predicate on the state that holds when a part of the loop goes on or returns.
  abbrev pub EndsIn : (State → Type 0) → Flow E → Type 0
  EndsIn P (ok st) = P st
  EndsIn P (err (e, st)) = P st

  -- A candidate of the names in scope.
  abbrev pub IsCandidate : Target → Type 0
  IsCandidate t =
      (name : Bytes) × (p : Prepared) × (in_scope idna name opts.scopes ≡ true)
      × (calls.prepare name ≡ ok p)
      × (contains (target_keys p.targets) (target_key t) ≡ true)

  -- Each assignment of a round keeps the predicate, the start of its wave left out.
  pub record Keeps (P : State → Type 0) : Type 0 where
    pub keep_writer : (st : State) (w : Writer) → P st → P (record st { writer = w })
    pub keep_count :
        (st : State) (r : Result) (names : List Bytes)
        → P st
        → P (record st { stats = count r st.stats; next_names = names })
    pub keep_failure : (st : State) → P st → P (record st { stats = count_failure st.stats })
    pub keep_candidate :
        (t : Target) (st : State) → IsCandidate t → P st → P (add_candidate idna calls opts t st)
    pub keep_discovered :
        (st : State)
        → st.discovered < opts.max_discovery
        → P st
        → P (record st { discovered = suc st.discovered })

  -- Each assignment of the loop keeps the predicate.
  pub record KeepsLoop (P : State → Type 0) : Type 0 where
    pub keep_round : Keeps P
    pub keep_wave : (st : State) → P st → P (begin_wave idna calls opts st)

  pub bind-EndsIn :
      (P Q : State → Type 0) (m : Flow E) (f : State → Flow E)
      → EndsIn P m
      → ((st : State) → P st → Q st)
      → ((st : State) → P st → EndsIn Q (f st))
      → EndsIn Q (m >>= f)
  bind-EndsIn P Q (ok st) f h weaken next = next st h
  bind-EndsIn P Q (err (e, st)) f h weaken next = weaken st h

  -- The names that are collected are in scope.
  abbrev pub IsScoped : List Bytes → Type 0
  IsScoped names = (n : Bytes) → contains names n ≡ true → in_scope idna n opts.scopes ≡ true

  scoped-IsScoped : (names : List Bytes) → IsScoped (scoped idna calls opts names)
  unfolding scoped
  scoped-IsScoped [] n h = cc
  scoped-IsScoped (name ∷ names) n h = ground (arith, scoped-IsScoped names n)

  note_names-IsScoped :
      (depth : ℕ) (r : Result) (names : List Bytes)
      → IsScoped names
      → IsScoped (note_names idna calls opts depth r names)
  unfolding note_names
  note_names-IsScoped depth r names s n h = ground (
    arith,
    s n,
    contains-append names (scoped idna calls opts (certificate_names idna r)) n,
    scoped-IsScoped (certificate_names idna r) n,
  )

  module _ (P : State → Type 0) (keeps : Keeps P) where
    abbrev pub With : State → Type 0
    With st = P st × IsScoped st.next_names

    written-EndsIn :
        (st : State) (a : Writer × Option E) → With st → EndsIn With (written idna calls opts st a)
    unfolding written
    written-EndsIn st (w, none) (h, s) = (keeps.keep_writer st w h, s)
    written-EndsIn st (w, some e) (h, s) = (keeps.keep_writer st w h, s)

    emit-EndsIn :
        (depth : ℕ) (r : Result) (st : State)
        → With st
        → EndsIn With (emit idna calls opts depth r st)
    unfolding emit write_result
    emit-EndsIn depth r st (h, s) =
        let names = note_names idna calls opts depth r st.next_names in
        let st' : State = record st { stats = count r st.stats; next_names = names } in
        written-EndsIn st' (calls.write st.writer r)
          (keeps.keep_count st r names h, note_names-IsScoped depth r st.next_names s)

    emit_each-EndsIn :
        (depth : ℕ) (rs : List Result) (st : State)
        → With st
        → EndsIn With (emit_each idna calls opts depth rs st)
    unfolding emit_each
    emit_each-EndsIn depth [] st h = h
    emit_each-EndsIn depth (r ∷ rs) st h =
        bind-EndsIn With With (emit idna calls opts depth r st) (emit_each idna calls opts depth rs)
          (emit-EndsIn depth r st h) (λ s x. x) (emit_each-EndsIn depth rs)

    wave_ended-EndsIn :
        (o : Option E) (st : State) → With st → EndsIn With (wave_ended idna calls opts o st)
    unfolding wave_ended
    wave_ended-EndsIn none st h = h
    wave_ended-EndsIn (some e) st h = h

    pub scan_wave-EndsIn :
        (depth : ℕ) (st : State)
        → P (begin_wave idna calls opts st)
        → EndsIn With (scan_wave idna calls opts depth st)
    unfolding scan_wave
    scan_wave-EndsIn depth st h =
        let answer = calls.run_wave depth st.next in
        bind-EndsIn With With
          (emit_each idna calls opts depth answer.0 (begin_wave idna calls opts st))
          (wave_ended idna calls opts answer.1)
          (emit_each-EndsIn depth answer.0 (begin_wave idna calls opts st)
            (h, λ n none. unfold begin_wave in cc))
          (λ s x. x) (wave_ended-EndsIn answer.1)
