-- ===== src/Cli/Pivot/Discovery.antt =====
-- What the discovery of new targets keeps.
use ctscan.Base.{
  ◌<◌, true, List, [], ◌∷◌, Option, none, some, contains, text_eq, Bytes, Outcome, ok, err, leb,
  ◌≡◌, refl, arith, Bool-cases, inl, inr, All,
}
use ctscan.Cli.Pivot.{
  Options, State, Calls, count_failure, written, write_result, write_failures, add_candidate,
  add_candidates, adds_name, count_name, take_candidates, take_prepared, discover, discover_each,
}
use ctscan.Cli.Pivot.Steps.{EndsIn, IsCandidate, Keeps, bind-EndsIn, IsScoped}
use ctscan.Cli.Targets.Laws.{target_keys-All}
use ctscan.Cli.Targets.{target_key, target_keys, Prepared}
use ctscan.Input.Names.{Idna, in_scope}
use ctscan.Output.Writer.{Writer}
use ctscan.Types.{Target, Result}

module _ {E : Type 0} (idna : Idna) (calls : Calls E) (opts : Options) (P : State → Type 0)
    (keeps : Keeps idna calls opts P) where
  -- Within the rounds of discovery, before the name is counted.
  abbrev Under : State → Type 0
  Under st = P st × (st.discovered < opts.max_discovery)

  written-Under :
      (st : State) (a : Writer × Option E)
      → Under st
      → EndsIn idna calls opts Under (written idna calls opts st a)
  unfolding written
  written-Under st (w, none) (h, s) = (keeps.keep_writer st w h, s)
  written-Under st (w, some e) (h, s) = (keeps.keep_writer st w h, s)

  written-EndsInP :
      (st : State) (a : Writer × Option E)
      → P st
      → EndsIn idna calls opts P (written idna calls opts st a)
  unfolding written
  written-EndsInP st (w, none) h = keeps.keep_writer st w h
  written-EndsInP st (w, some e) h = keeps.keep_writer st w h

  pub write_failures-EndsIn :
      (fs : List Result) (st : State)
      → P st
      → EndsIn idna calls opts P (write_failures idna calls opts fs st)
  unfolding write_failures write_result
  write_failures-EndsIn [] st h = h
  write_failures-EndsIn (r ∷ fs) st h =
      let st' : State = record st { stats = count_failure st.stats } in
      bind-EndsIn idna calls opts P P (written idna calls opts st' (calls.write st.writer r))
        (write_failures idna calls opts fs)
        (written-EndsInP st' (calls.write st.writer r) (keeps.keep_failure st h)) (λ s x. x)
        (write_failures-EndsIn fs)

  write_failures-Under :
      (fs : List Result) (st : State)
      → Under st
      → EndsIn idna calls opts Under (write_failures idna calls opts fs st)
  unfolding write_failures write_result
  write_failures-Under [] st h = h
  write_failures-Under (r ∷ fs) st (h, u) =
      let st' : State = record st { stats = count_failure st.stats } in
      bind-EndsIn idna calls opts Under Under
        (written idna calls opts st' (calls.write st.writer r)) (write_failures idna calls opts fs)
        (written-Under st' (calls.write st.writer r) (keeps.keep_failure st h, u)) (λ s x. x)
        (write_failures-Under fs)

  add_candidates-Under :
      (ts : List Target) (st : State)
      → All (IsCandidate idna calls opts) ts
      → Under st
      → Under (add_candidates idna calls opts ts st)
  unfolding add_candidates
  add_candidates-Under [] st each h = h
  add_candidates-Under (t ∷ ts) st (c, each) (h, u) =
      add_candidates-Under ts (add_candidate idna calls opts t st) each
        (keeps.keep_candidate t st c h, unfold add_candidate in ground arith)

  take_candidates-kept :
      (ts : List Target) (st : State)
      → All (IsCandidate idna calls opts) ts
      → Under st
      → P (take_candidates idna calls opts ts st)
  unfolding take_candidates count_name
  take_candidates-kept ts st each h =
      let (p, u) = add_candidates-Under ts st each h in
      elim (Bool-cases (adds_name idna calls opts ts st.seen)) [
        | inl added ↦ rw added (keeps.keep_discovered (add_candidates idna calls opts ts st) u p)
        | inr same ↦ rw same p
      ]

  candidates-All :
      (name : Bytes) (p : Prepared) (ts : List Target)
      → in_scope idna name opts.scopes ≡ true
      → calls.prepare name ≡ ok p
      → All (λ t. contains (target_keys p.targets) (target_key t) ≡ true) ts
      → All (IsCandidate idna calls opts) ts
  candidates-All name p [] s q each = tt
  candidates-All name p (t ∷ ts) s q (c, each) =
      ((name, p, s, q, c), candidates-All name p ts s q each)

  discover-EndsIn :
      (name : Bytes) (st : State) (o : Outcome E Prepared)
      → in_scope idna name opts.scopes ≡ true
      → calls.prepare name ≡ o
      → Under st
      → EndsIn idna calls opts P (take_prepared idna calls opts o st)
  unfolding take_prepared
  discover-EndsIn name st (err e) s q h = h.0
  discover-EndsIn name st (ok p) s q h =
      bind-EndsIn idna calls opts Under P (write_failures idna calls opts p.failures st)
        (λ st'. ok (take_candidates idna calls opts p.targets st'))
        (write_failures-Under p.failures st h) (λ s' x. x.0)
        (λ s' x.
          take_candidates-kept p.targets s'
            (candidates-All name p p.targets s q
              (target_keys-All p.targets (target_keys p.targets) (λ k m. m)))
            x)

  pub discover_each-EndsIn :
      (names : List Bytes) (st : State)
      → IsScoped idna calls opts names
      → P st
      → EndsIn idna calls opts P (discover_each idna calls opts names st)
  unfolding discover_each discover
  discover_each-EndsIn [] st s h = h
  discover_each-EndsIn (name ∷ names) st s h =
      elim (Bool-cases (leb opts.max_discovery st.discovered)) [
        | inl full ↦ rw full h
        | inr room ↦ rw room (
            bind-EndsIn idna calls opts P P (take_prepared idna calls opts (calls.prepare name) st)
              (discover_each idna calls opts names)
              (discover-EndsIn name st (calls.prepare name) (s name (ground arith)) refl
                (h, ground arith))
              (λ s' x. x) (λ s' x. discover_each-EndsIn names s' (λ n m. s n (ground arith)) x))
      ]
