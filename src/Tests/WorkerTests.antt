-- ===== src/Tests/WorkerTests.antt =====
-- The theorems on the worker pools at concrete inputs.
use mathlib.Core.List.{Perm}
use ctscan.Base.{
  ℕ, ◌+◌, ◌*◌, ◌≤◌, List, [], ◌∷◌, false, true, ◌≡◌, refl, arith, nat_eq, All, length,
}
use ctscan.Workers.{
  System, Setup, init, stream_setup, feed, finish_feeding, stop_feeding, take_job, leave,
  finish_scan, send_result, give_up, take_result, Reach, start, later, cancel,
}
use ctscan.Workers.Progress.{Run, here, next_step, interrupted, Run-bound, Ends, Reach-Ends}
use ctscan.Workers.Ordered.{
  Ordered, ordered_start, store, OrderedReach, begin, go_on, pass_index, all_passed, write_slot,
  depart, emissions, AreInOrder, emissions-AreInOrder,
}
use ctscan.Workers.Results.{IsWave, Reach-IsWave, Reach-Perm}

-- A finish_scan of a target returns its double.
abbrev Doubles : ℕ → ℕ → Type 0
Doubles t r = r ≡ t + t

abbrev two_workers : Setup
two_workers = stream_setup 2

abbrev one_two : List ℕ
one_two = 1 ∷ 2 ∷ []

-- The two targets are taken, and the second result is sent first.
abbrev overtaken : System ℕ ℕ
overtaken = record {
  pending = [];
  queue = [];
  closed = true;
  idle = 0;
  scanning = [];
  sending = [];
  departed = 2;
  buffer = [];
  emitted = (2, 4) ∷ (1, 2) ∷ [];
  lost = [];
  canceled = false;
}

begun :
    Reach two_workers Doubles one_two
      (record (init two_workers one_two) { pending = []; idle = 0; scanning = 2 ∷ 1 ∷ [] })
begun =
    later
      (later (later (later start (feed refl refl (omega arith))) (feed refl refl (omega arith)))
        (take_job refl refl))
      (take_job refl refl)

sent :
    Reach two_workers Doubles one_two
      (record (init two_workers one_two) { pending = []; emitted = (2, 4) ∷ (1, 2) ∷ [] })
sent =
    later
      (later
        (later
          (later
            (later (later begun (finish_scan 2 4 [] (1 ∷ []) refl refl))
              (send_result (2, 4) [] [] refl (omega arith)))
            (finish_scan 1 2 [] [] refl refl))
          (send_result (1, 2) [] [] refl (omega arith)))
        (take_result refl))
      (take_result refl)

overtaken-Reach : Reach two_workers Doubles one_two overtaken
overtaken-Reach =
    later (later (later sent (finish_feeding refl refl)) (leave refl refl refl))
      (leave refl refl refl)

Reach-IsWave_example : IsWave two_workers Doubles one_two ((2, 4) ∷ (1, 2) ∷ [])
Reach-IsWave_example =
    Reach-IsWave two_workers Doubles {targets = one_two} {s = overtaken} (omega arith)
      overtaken-Reach (refl, refl) refl

-- The context is canceled, and the first result is given up.
abbrev halfway : System ℕ ℕ
halfway = record (init two_workers one_two) {
  pending = 2 ∷ [];
  idle = 1;
  departed = 1;
  lost = (1, 2) ∷ [];
  canceled = true;
}

halfway-Reach : Reach two_workers Doubles one_two halfway
halfway-Reach =
    later
      (cancel (
        later (later (later start (feed refl refl (omega arith))) (take_job refl refl))
          (finish_scan 1 2 [] [] refl refl)))
      (give_up (1, 2) [] [] refl refl)

Reach-Perm_example : Perm (2 ∷ 1 ∷ []) one_two × All (λ x. Doubles x.0 x.1) halfway.emitted
Reach-Perm_example = Reach-Perm two_workers Doubles {targets = one_two} {s = halfway} halfway-Reach

Reach-Ends_example : Ends two_workers Doubles one_two halfway
Reach-Ends_example =
    Reach-Ends two_workers Doubles {targets = one_two} {s = halfway} (omega arith)
      (λ t. (t + t, refl)) halfway-Reach

-- The first target is queued, then the context is canceled, and the feeder stops.
stopped-Run :
    Run two_workers Doubles (init two_workers one_two) 2 (record (init two_workers one_two) {
      pending = 2 ∷ [];
      queue = 1 ∷ [];
      closed = true;
      canceled = true;
    })
stopped-Run =
    next_step (feed refl refl (omega arith)) (interrupted (next_step (stop_feeding refl refl) here))

Run-bound_example : 2 ≤ 6 * length one_two + two_workers.workers + 1
Run-bound_example = Run-bound two_workers Doubles stopped-Run

-- Of the two indices the second one is written first.
abbrev swapped : Ordered ℕ
swapped = record {
  pending = [];
  closed = true;
  idle = 0;
  scanning = [];
  departed = 2;
  slots = store (store (λ i. 9) 1 2) 0 0;
  writes = (1, 2) ∷ (0, 0) ∷ [];
  canceled = false;
}

passed :
    OrderedReach 2 Doubles
      (0 ∷ 1 ∷ [])
      9
      (record (ordered_start 2 (0 ∷ 1 ∷ []) 9) { pending = []; idle = 0; scanning = 1 ∷ 0 ∷ [] })
passed = go_on (go_on begin (pass_index refl refl refl)) (pass_index refl refl refl)

swapped-OrderedReach : OrderedReach 2 Doubles (0 ∷ 1 ∷ []) 9 swapped
swapped-OrderedReach =
    go_on
      (go_on
        (go_on
          (go_on (go_on passed (write_slot 1 2 [] (0 ∷ []) refl refl))
            (write_slot 0 0 [] [] refl refl))
          (all_passed refl refl))
        (depart refl refl))
      (depart refl refl)

emissions-AreInOrder_example : AreInOrder 2 Doubles (0 ∷ 1 ∷ []) (0 ∷ 2 ∷ [])
unfolding emissions nat_eq
emissions-AreInOrder_example =
    emissions-AreInOrder 2 Doubles {o = swapped} swapped-OrderedReach refl refl
