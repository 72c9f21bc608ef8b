-- ===== src/Scanner/Retry/Bounds.antt =====
-- How often `Scan` calls `scanOnce`, and the waits of its backoff; those of `waitRate` are apart.
use Prim.Native.Nat.{min}
use ctscan.Base.{
  ℕ, zero, suc, ◌+◌, ◌-◌, ◌*◌, ◌^◌, ◌≤◌, List, [], ◌∷◌, ◌++◌, Option, none, some, Outcome, ok, err,
  inl, inr, arith, Bool-cases, All, All-append, length, length-append,
}
use ctscan.Scanner.Errors.{Error, is_retryable}
use ctscan.Scanner.Retry.{
  Wait, elapsed, elapsed_done, canceled, Attempt, Ending, delay_before, stop, call, waited, round,
  attempts,
}
use ctscan.Types.{Result, millisecond}

abbrev pub longest_wait : ℕ
longest_wait = 3200 * millisecond

-- At most `rounds` calls and as many backoff waits were made, none of these longer than 3.2 seconds.
abbrev pub IsBounded : ℕ → Ending → Type 0
IsBounded rounds ending =
    (ending.calls ≤ rounds)
    × (length ending.delays ≤ rounds)
    × All (λ d. d ≤ longest_wait) ending.delays

-- The backoff waits and calls made before a round.
abbrev Made : ℕ → List ℕ → ℕ → Type 0
Made limit delays calls =
    (calls ≤ limit) × (length delays ≤ limit) × All (λ d. d ≤ longest_wait) delays

power-le : (k : ℕ) → k ≤ 5 → 2 ^ k ≤ 32
power-le zero h = omega arith
power-le (suc zero) h = omega arith
power-le (suc (suc zero)) h = omega arith
power-le (suc (suc (suc zero))) h = omega arith
power-le (suc (suc (suc (suc zero)))) h = omega arith
power-le (suc (suc (suc (suc (suc zero))))) h = omega arith
power-le (suc (suc (suc (suc (suc (suc k)))))) h = absurd (omega arith)

delay_before-le : (n : ℕ) → delay_before n ≤ longest_wait
unfolding delay_before
delay_before-le n = let small = power-le (min (n - 1) 5) (omega arith) in omega (arith, small)

-- Whatever is made within `spent` before the next rounds, these end within `limit`.
abbrev StaysWithin : ℕ → ℕ → (Option Error → List ℕ → ℕ → Ending) → Type 0
StaysWithin spent limit again =
    (x : Option Error) (delays : List ℕ) (calls : ℕ)
    → Made spent delays calls
    → IsBounded limit (again x delays calls)

call-IsBounded :
    (o : Outcome Error Result) (delays : List ℕ) (calls spent limit : ℕ)
    (again : Option Error → List ℕ → ℕ → Ending)
    → calls ≤ spent
    → length delays ≤ suc spent
    → All (λ d. d ≤ longest_wait) delays
    → suc spent ≤ limit
    → StaysWithin (suc spent) limit again
    → IsBounded limit (call o delays calls again)
unfolding call stop
call-IsBounded (ok r) delays calls spent limit again c w each below later =
    (omega arith, omega arith, each)
call-IsBounded (err x) delays calls spent limit again c w each below later =
    elim (Bool-cases (is_retryable (some x))) [
      | inl yes_again ↦ rw yes_again (later (some x) delays (suc calls) (omega arith, w, each))
      | inr final ↦ rw final (omega arith, omega arith, each)
    ]

round-IsBounded :
    (a : Attempt) (n : ℕ) (last : Option Error) (delays : List ℕ) (calls : ℕ) (rate : Option Error)
    (spent limit : ℕ) (again : Option Error → List ℕ → ℕ → Ending)
    → Made spent delays calls
    → suc spent ≤ limit
    → StaysWithin (suc spent) limit again
    → IsBounded limit (round a n last delays calls rate again)
unfolding round stop waited
round-IsBounded a n last delays calls (some x) spent limit again (c, w, each) below later =
    (omega arith, omega arith, each)
round-IsBounded a zero last delays calls none spent limit again (c, w, each) below later =
    call-IsBounded a.outcome delays calls spent limit again c (omega arith) each below later
round-IsBounded a (suc n) last delays calls none spent limit again (c, w, each) below later =
    by_wait a.wait
  where
    delays' : List ℕ
    delays' = delays ++ delay_before (suc n) ∷ []

    longer : length delays' ≤ suc spent
    longer = rw (length-append delays (delay_before (suc n) ∷ [])) (omega arith)

    each' : All (λ d. d ≤ longest_wait) delays'
    each' =
        All-append (λ d. d ≤ longest_wait) delays (delay_before (suc n) ∷ []) each
          (delay_before-le (suc n), tt)

    by_wait :
        (w' : Wait)
        → IsBounded limit (waited w' last delays' calls (λ ds. call a.outcome ds calls again))
    by_wait elapsed =
        call-IsBounded a.outcome delays' calls spent limit again c longer each' below later
    by_wait elapsed_done = (omega arith, omega (arith, longer), each')
    by_wait (canceled x) = (omega arith, omega (arith, longer), each')

attempts-within :
    (script : ℕ → Attempt) (rounds n : ℕ) (last : Option Error) (delays : List ℕ)
    (calls spent limit : ℕ)
    → Made spent delays calls
    → spent + rounds ≤ limit
    → IsBounded limit (attempts script rounds n last delays calls)
unfolding attempts stop
attempts-within script zero n last delays calls spent limit (c, w, each) below =
    (omega arith, omega arith, each)
attempts-within script (suc rounds) n last delays calls spent limit made below =
    round-IsBounded (script n) n last delays calls (script n).rate spent limit
      (attempts script rounds (suc n)) made (omega arith)
      (λ x ds cs made'.
        attempts-within script rounds (suc n) x ds cs (suc spent) limit made' (omega arith))

-- In `rounds` rounds the loop makes at most `rounds` calls and as many backoff waits, each of at most
-- 3.2 seconds; the waits for the rate limiter are not counted.
pub attempts-IsBounded :
    (script : ℕ → Attempt) (rounds : ℕ) → IsBounded rounds (attempts script rounds 0 none [] 0)
attempts-IsBounded script rounds =
    attempts-within script rounds 0 none [] 0 0 rounds (omega arith, omega arith, tt) (omega arith)
