-- ===== src/Workers/Ordered.antt =====
-- The ordered mode of `runWave` in internal/cli/cli.go: the workers take indices and write their
-- results into slots, which are emitted in order at the end. The writes are kept, which the source
-- does not do. Each step is made of steps of a `System`.
use mathlib.Core.List.{map-append}
use ctscan.Base.{
  ℕ, suc, Bool, true, false, List, [], ◌∷◌, ◌++◌, Option, none, some, ◌≡◌, refl, sym, ap, ◌∙◌,
  arith, map, if◌then◌else◌, ◌==◌, ==_refl, ==_iff, nat_eq, contains, contains-append, append-nil,
  length-nil, Bool-cases, inl, inr,
}
use ctscan.Base.Weights.{sum, weights-contains}
use ctscan.Workers.{
  Setup, System, Reach, start, later, cancel, hand, finish_feeding, stop_feeding, leave,
  finish_scan, send_result, take_result,
}
use ctscan.Workers.Conserved.{target_of, unreported, weight-Reach, Reach-IsBounded}
use ctscan.Workers.Results.{sum-unreported}

-- The pool that the ordered mode is an instance of: a write of a slot is the sending of a result to a
-- channel of one, from which it is taken at once.
abbrev ordered_setup : ℕ → Setup
ordered_setup concurrency = record {
  workers = concurrency;
  job_capacity = 0;
  result_capacity = 1;
  quits_idle = false;
}

pub record Ordered (R : Type 0) : Type 0 where
  pub pending : List ℕ
  pub closed : Bool
  pub idle : ℕ
  pub scanning : List ℕ
  pub departed : ℕ
  pub slots : ℕ → R
  pub writes : List (ℕ × R)
  pub canceled : Bool

-- `results[index] = result`
abbrev pub store : {R : Type 0} → (ℕ → R) → ℕ → R → ℕ → R
store slots index r i = if i == index then r else slots i

-- `blank` is the value of a slot that is not written.
abbrev pub ordered_start : {R : Type 0} → ℕ → List ℕ → R → Ordered R
ordered_start workers indices blank = record {
  pending = indices;
  closed = false;
  idle = workers;
  scanning = [];
  departed = 0;
  slots = λ i. blank;
  writes = [];
  canceled = false;
}

-- `return ctx.Err()` in the loop over the indices, which leaves some of them, or the loop over the
-- results
abbrev pub unless_left : {R : Type 0} → List ℕ → List R → Option (List R)
unless_left [] results = some results
unless_left (i ∷ pending) results = none

unless_left_lem :
    {R : Type 0} (pending : List ℕ) {slots results : List R}
    → unless_left pending slots ≡ some results
    → (pending ≡ []) × (slots ≡ results)
unless_left_lem [] e = (refl, cc)
unless_left_lem (i ∷ pending) e = cc

module _ {R : Type 0} (workers : ℕ) (Scans : ℕ → R → Type 0) where
  pub data OrderedStep (o : Ordered R) : Ordered R → Type 0 where
    -- `jobs <- index`, to a worker that waits
    pass_index :
        {i : ℕ} {rest : List ℕ} {n : ℕ}
        → o.closed ≡ false
        → o.pending ≡ i ∷ rest
        → o.idle ≡ suc n
        → OrderedStep o (record o { pending = rest; idle = n; scanning = i ∷ o.scanning })
    -- `close(jobs)`, behind the loop or when the context is done in it
    all_passed : o.closed ≡ false → o.pending ≡ [] → OrderedStep o (record o { closed = true })
    break_off :
        {i : ℕ} {rest : List ℕ}
        → o.closed ≡ false
        → o.pending ≡ i ∷ rest
        → o.canceled ≡ true
        → OrderedStep o (record o { closed = true })
    write_slot :
        (i : ℕ) (r : R) (before after : List ℕ)
        → o.scanning ≡ before ++ i ∷ after
        → Scans i r
        → OrderedStep o (record o {
          idle = suc o.idle;
          scanning = before ++ after;
          slots = store o.slots i r;
          writes = o.writes ++ (i, r) ∷ [];
        })
    depart :
        {n : ℕ}
        → o.closed ≡ true
        → o.idle ≡ suc n
        → OrderedStep o (record o { idle = n; departed = suc o.departed })

  pub data OrderedReach (indices : List ℕ) (blank : R) : Ordered R → Type 0 where
    begin : OrderedReach indices blank (ordered_start workers indices blank)
    go_on :
        {o p : Ordered R}
        → OrderedReach indices blank o
        → OrderedStep o p
        → OrderedReach indices blank p
    interrupt :
        {o : Ordered R}
        → OrderedReach indices blank o
        → OrderedReach indices blank (record o { canceled = true })

  -- The results that are emitted when the workers are gone, or none if the loop over the indices was
  -- left by the context's error.
  unfoldable pub emissions : List ℕ → Ordered R → Option (List R)
  emissions indices o = unless_left o.pending (map o.slots indices)

  abbrev as_system : Ordered R → System ℕ R
  as_system o = record {
    pending = o.pending;
    queue = [];
    closed = o.closed;
    idle = o.idle;
    scanning = o.scanning;
    sending = [];
    departed = o.departed;
    buffer = [];
    emitted = o.writes;
    lost = [];
    canceled = o.canceled;
  }

  abbrev Reaches : List ℕ → Ordered R → Type 0
  Reaches indices o = Reach (ordered_setup workers) Scans indices (as_system o)

  simulate :
      {indices : List ℕ} {o p : Ordered R} → OrderedStep o p → Reaches indices o → Reaches indices p
  simulate (pass_index c e i) h = later h (hand c e refl i)
  simulate (all_passed c e) h = later h (finish_feeding c e)
  simulate (break_off c e d) h = later h (stop_feeding c d)
  simulate (write_slot i r before after e s) h =
      later
        (later (later h (finish_scan i r before after e s))
          (send_result (i, r) [] [] refl (omega arith)))
        (take_result refl)
  simulate (depart c i) h = later h (leave c refl i)

  -- The ordered mode is a pool: what it reaches, a `System` reaches.
  pub OrderedReach-Reach :
      {indices : List ℕ} {blank : R} {o : Ordered R}
      → OrderedReach indices blank o
      → Reaches indices o
  OrderedReach-Reach begin = start
  OrderedReach-Reach (go_on h step) = simulate step (OrderedReach-Reach h)
  OrderedReach-Reach (interrupt h) = cancel (OrderedReach-Reach h)

  -- A slot that was written holds a result of a scan of its target.
  abbrev IsFilled : Ordered R → Type 0
  IsFilled o = (i : ℕ) → contains (map target_of o.writes) i ≡ true → Scans i (o.slots i)

  IsFilled-Step : {o p : Ordered R} → OrderedStep o p → IsFilled o → IsFilled p
  IsFilled-Step (pass_index c e i) h j m = h j m
  IsFilled-Step (all_passed c e) h j m = h j m
  IsFilled-Step (break_off c e d) h j m = h j m
  IsFilled-Step {o} (write_slot i r before after e q) h j m = elim (Bool-cases (j == i)) [
    | inl same ↦ rw (same, (==_iff j i).0 same) q
    | inr other ↦
        let m' : contains (map target_of o.writes) j ≡ true = ground (
          arith,
          m,
          ap (λ ks. contains ks j) (map-append target_of o.writes ((i, r) ∷ [])),
          contains-append (map target_of o.writes) (i ∷ []) j,
        ) in
        rw other (h j m')
  ]
  IsFilled-Step (depart c i) h j m = h j m

  OrderedReach-IsFilled :
      {indices : List ℕ} {blank : R} {o : Ordered R} → OrderedReach indices blank o → IsFilled o
  OrderedReach-IsFilled begin j m = cc
  OrderedReach-IsFilled (go_on h step) j m = IsFilled-Step step (OrderedReach-IsFilled h) j m
  OrderedReach-IsFilled (interrupt h) j m = OrderedReach-IsFilled h j m

  -- One result for each index, in the order of the indices.
  unfoldable pub AreInOrder : List ℕ → List R → Type 0
  AreInOrder [] [] = Unit
  AreInOrder (i ∷ is) (r ∷ rs) = Scans i r × AreInOrder is rs
  AreInOrder [] (r ∷ rs) = ⊥
  AreInOrder (i ∷ is) [] = ⊥

  slots-AreInOrder :
      (slots : ℕ → R) (indices : List ℕ)
      → ((i : ℕ) → contains indices i ≡ true → Scans i (slots i))
      → AreInOrder indices (map slots indices)
  unfolding AreInOrder
  slots-AreInOrder slots [] h = tt
  slots-AreInOrder slots (i ∷ is) h =
      (h i (ground (arith, ==_refl i)), slots-AreInOrder slots is (λ j m. h j (ground (arith, m))))

  nothing-unreported :
      {indices : List ℕ} {blank : R} {o : Ordered R}
      → OrderedReach indices blank o
      → o.departed ≡ workers
      → o.pending ≡ []
      → unreported (as_system o) ≡ []
  nothing-unreported {o = o} h all_gone none_left =
      let (m, q, b) = Reach-IsBounded (ordered_setup workers) Scans (OrderedReach-Reach h) in
      rw (none_left, length-nil o.scanning (omega arith)) refl

  all-written :
      {indices : List ℕ} {blank : R} {o : Ordered R}
      → OrderedReach indices blank o
      → o.departed ≡ workers
      → o.pending ≡ []
      → (i : ℕ) → contains indices i ≡ true
      → contains (map target_of o.writes) i ≡ true
  all-written {indices} {blank} {o} h all_gone none_left =
      let w = map target_of o.writes in
      let e : w ++ unreported (as_system o) ≡ w =
        ap (λ js. w ++ js) (nothing-unreported h all_gone none_left) ∙ append-nil w in
      weights-contains w indices (λ f.
        ap (sum f) (sym e)
        ∙ sum-unreported (ordered_setup workers) Scans f (as_system o)
        ∙ weight-Reach (ordered_setup workers) Scans f (OrderedReach-Reach h))

  -- When all the workers are gone and the loop over the indices was not left, the emitted results
  -- are one for each index, in the order of the indices, each one that a scan of its target returns.
  pub emissions-AreInOrder :
      {indices : List ℕ} {blank : R} {o : Ordered R} {results : List R}
      → OrderedReach indices blank o
      → o.departed ≡ workers
      → emissions indices o ≡ some results
      → AreInOrder indices results
  unfolding emissions
  emissions-AreInOrder {indices} {o = o} h all_gone e =
      let (none_left, same) = unless_left_lem o.pending e in
      rw⁻¹ same (
        slots-AreInOrder o.slots indices
          (λ i m. OrderedReach-IsFilled h i (all-written h all_gone none_left i m)))
