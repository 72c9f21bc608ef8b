-- ===== src/Workers/Progress.antt =====
-- A pool never blocks for ever, and every run of it ends, whether the context is canceled or not.
use ctscan.Base.{
  ℕ, zero, suc, ◌+◌, ◌*◌, ◌≤◌, ◌<◌, Bool, true, false, List, [], ◌∷◌, ◌≡◌, ◌⊎◌, inl, inr, refl, ap,
  ◌∙◌, arith, length, length-append, Bool-cases, List-cases, ℕ-cases,
}
use ctscan.Workers.{
  Setup, System, init, Step, feed, hand, finish_feeding, stop_feeding, take_job, leave, quit,
  finish_scan, send_result, give_up, take_result, Reach, later, IsEnded,
}
use ctscan.Workers.Conserved.{Reach-IsBounded}

abbrev pub still_open : Bool → ℕ
still_open true = 0
still_open false = 1

-- How many steps are left at most.
abbrev pub steps_left : {T R : Type 0} → System T R → ℕ
steps_left s =
    6 * length s.pending
    + 5 * length s.queue
    + 4 * length s.scanning
    + 3 * length s.sending
    + length s.buffer
    + s.idle
    + still_open s.closed

module _ {T R : Type 0} (setup : Setup) (Scans : T → R → Type 0) where
  -- A run of so many steps; the context may be canceled at any time between them.
  pub data Run : System T R → ℕ → System T R → Type 0 where
    here : {s : System T R} → Run s 0 s
    next_step : {k : ℕ} {s t u : System T R} → Step setup Scans s t → Run t k u → Run s (suc k) u
    interrupted : {k : ℕ} {s u : System T R} → Run (record s { canceled = true }) k u → Run s k u

  steps_left-Step : {s t : System T R} → Step setup Scans s t → suc (steps_left t) ≤ steps_left s
  steps_left-Step {s} (feed {t} o p c) = omega (arith, ap length p, length-append s.queue (t ∷ []))
  steps_left-Step (hand o p q i) = omega (arith, ap length p, i)
  steps_left-Step (finish_feeding o p) = omega (arith, ap still_open o)
  steps_left-Step (stop_feeding o c) = omega (arith, ap still_open o)
  steps_left-Step (take_job e i) = omega (arith, ap length e, i)
  steps_left-Step (leave c e i) = omega (arith, i)
  steps_left-Step (quit a c i) = omega (arith, i)
  steps_left-Step (finish_scan t r before after p h) =
      omega (arith, ap length p, length-append before (t ∷ after), length-append before after)
  steps_left-Step {s} (send_result x before after p c) = omega (
    arith,
    ap length p,
    length-append before (x ∷ after),
    length-append before after,
    length-append s.buffer (x ∷ []),
  )
  steps_left-Step (give_up x before after p c) =
      omega (arith, ap length p, length-append before (x ∷ after), length-append before after)
  steps_left-Step (take_result p) = omega (arith, ap length p)

  steps_left-Run : {s t : System T R} {k : ℕ} → Run s k t → k + steps_left t ≤ steps_left s
  steps_left-Run here = omega arith
  steps_left-Run (next_step step run) = omega (arith, steps_left-Run run, steps_left-Step step)
  steps_left-Run (interrupted run) = omega (arith, steps_left-Run run)

  -- A pool at its start with `n` targets and `w` workers runs for at most 6 n + w + 1 steps, whether
  -- its context is canceled on the way or not.
  pub Run-bound :
      {targets : List T} {t : System T R} {k : ℕ}
      → Run (init setup targets) k t
      → k ≤ 6 * length targets + setup.workers + 1
  Run-bound run = omega (arith, steps_left-Run run)

  abbrev CanStep : System T R → Type 0
  CanStep s = (t : System T R) × Step setup Scans s t

  -- An idle worker always finds something to do, or the feeder does.
  idle-CanStep : (s : System T R) (n : ℕ) → s.idle ≡ suc n → CanStep s
  idle-CanStep s n i = elim (List-cases s.queue) [
    | inr (t, more, e) ↦ (_, take_job e i)
    | inl e ↦ elim (Bool-cases s.closed) [
      | inl shut ↦ (_, leave shut e i)
      | inr unshut ↦ elim (List-cases s.pending) [
        | inl p ↦ (_, finish_feeding unshut p)
        | inr (t, more, p) ↦ (_, hand unshut p e i)
      ]
    ]
  ]

  -- A pool that has not ended makes a step, if the results have a channel and every finish_scan returns.
  pub Reach-CanStep :
      {targets : List T} {s : System T R}
      → 0 < setup.result_capacity
      → ((t : T) → (r : R) × Scans t r)
      → Reach setup Scans targets s
      → IsEnded setup Scans s ⊎ CanStep s
  Reach-CanStep {targets} {s} room ends h = elim (List-cases s.buffer) [
    | inr (x, more, e) ↦ inr (_, take_result e)
    | inl empty ↦ elim (List-cases s.sending) [
      | inr (x, more, e) ↦ inr (_, send_result x [] more e (omega (arith, ap length empty)))
      | inl none_sends ↦ elim (List-cases s.scanning) [
        | inr (t, more, e) ↦ inr (_, finish_scan t (ends t).0 [] more e (ends t).1)
        | inl none_scans ↦ elim (ℕ-cases s.idle) [
          | inr (n, i) ↦ inr (idle-CanStep s n i)
          | inl none_idle ↦ inl (
            omega (
              arith,
              (Reach-IsBounded setup Scans h).0,
              ap length none_sends,
              ap length none_scans,
            ),
            empty,
          )
        ]
      ]
    ]
  ]

  canceled-Step : {s t : System T R} → Step setup Scans s t → t.canceled ≡ s.canceled
  canceled-Step (feed o p c) = refl
  canceled-Step (hand o p q i) = refl
  canceled-Step (finish_feeding o p) = refl
  canceled-Step (stop_feeding o c) = refl
  canceled-Step (take_job e i) = refl
  canceled-Step (leave c e i) = refl
  canceled-Step (quit a c i) = refl
  canceled-Step (finish_scan t r before after p h) = refl
  canceled-Step (send_result x before after p c) = refl
  canceled-Step (give_up x before after p c) = refl
  canceled-Step (take_result p) = refl

  -- A run to an end, which leaves the context as it was.
  abbrev pub Ends : List T → System T R → Type 0
  Ends targets s =
      (k : ℕ) × (t : System T R) × Run s k t
      × Reach setup Scans targets t
      × IsEnded setup Scans t
      × (t.canceled ≡ s.canceled)

  Ends-within :
      (n : ℕ) {targets : List T} {s : System T R}
      → 0 < setup.result_capacity
      → ((t : T) → (r : R) × Scans t r)
      → Reach setup Scans targets s
      → steps_left s ≤ n
      → Ends targets s
  Ends-within zero {targets} {s} room ends h few = elim (Reach-CanStep room ends h) [
    | inl ended ↦ (0, s, here, h, ended, refl)
    | inr (t, step) ↦ absurd (omega (arith, steps_left-Step step))
  ]
  Ends-within (suc n) {targets} {s} room ends h few = elim (Reach-CanStep room ends h) [
    | inl ended ↦ (0, s, here, h, ended, refl)
    | inr (t, step) ↦
        let (k, u, run, reach, ended, live) =
          Ends-within n room ends (later h step) (omega (arith, steps_left-Step step)) in
        (suc k, u, next_step step run, reach, ended, live ∙ canceled-Step step)
  ]

  -- From every time on, a pool whose results have a channel and whose scans return can run on to its
  -- end without a further cancellation.
  pub Reach-Ends :
      {targets : List T} {s : System T R}
      → 0 < setup.result_capacity
      → ((t : T) → (r : R) × Scans t r)
      → Reach setup Scans targets s
      → Ends targets s
  Reach-Ends {targets} {s} room ends h = Ends-within (steps_left s) room ends h (omega arith)
