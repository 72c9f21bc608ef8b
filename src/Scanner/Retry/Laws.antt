-- ===== src/Scanner/Retry/Laws.antt =====
-- When the loop of `Scan` succeeds.
use ctscan.Base.{
  ℕ, zero, suc, ◌<◌, true, List, [], ◌∷◌, ◌++◌, Option, none, some, Outcome, ok, err, text_eq,
  nat_eq, ◌≡◌, ◌↔◌, ◌⊎◌, inl, inr, refl, ap, ◌∙◌, arith, Bool-cases,
}
use ctscan.Scanner.Errors.{Error, is_retryable}
use ctscan.Scanner.Retry.{
  Wait, elapsed, elapsed_done, canceled, Attempt, Ending, delay_before, stop, call, waited, round,
  attempts,
}
use ctscan.Types.{Result}

-- The waits of attempt `n` end with the context live.
abbrev pub IsLive : Attempt → ℕ → Type 0
IsLive a zero = a.rate ≡ none
IsLive a (suc n) = (a.rate ≡ none) × (a.wait ≡ elapsed)

-- Attempt `n` is made, and fails with an error that is retried.
abbrev pub IsRetried : Attempt → ℕ → Type 0
IsRetried a n = IsLive a n × ((e : Error) × (a.outcome ≡ err e) × (is_retryable (some e) ≡ true))

-- From attempt `n` on, `k` attempts are retried and the next one returns the result.
abbrev pub Succeeds : (ℕ → Attempt) → ℕ → ℕ → Result → Type 0
Succeeds script zero n r = IsLive (script n) n × ((script n).outcome ≡ ok r)
Succeeds script (suc k) n r = IsRetried (script n) n × Succeeds script k (suc n) r

abbrev Next : Type 0
Next = Option Error → List ℕ → ℕ → Ending

-- What one round that ends well has done.
abbrev Went : Attempt → ℕ → Next → Result → Type 0
Went a n again r =
    (IsLive a n × (a.outcome ≡ ok r))
    ⊎ (IsRetried a n
        × ((last : Option Error) × (delays : List ℕ) × (calls : ℕ) × ((again last delays
                calls).outcome
              ≡ ok r)))

call_sound :
    (a : Attempt) (n : ℕ) (o : Outcome Error Result) (delays : List ℕ) (calls : ℕ) (again : Next)
    (r : Result)
    → IsLive a n
    → a.outcome ≡ o
    → (call o delays calls again).outcome ≡ ok r
    → Went a n again r
unfolding call stop
call_sound a n (ok result) delays calls again r live e h = inl (live, cc)
call_sound a n (err x) delays calls again r live e h = elim (Bool-cases (is_retryable (some x))) [
  | inl yes_again ↦ inr ((live, (x, e, yes_again)), (some x, delays, suc calls, rw yes_again at h))
  | inr final ↦ cc (rw final at h)
]

round_sound :
    (a : Attempt) (n : ℕ) (last : Option Error) (delays : List ℕ) (calls : ℕ) (rate : Option Error)
    (again : Next) (r : Result)
    → a.rate ≡ rate
    → (round a n last delays calls rate again).outcome ≡ ok r
    → Went a n again r
unfolding round stop waited
round_sound a n last delays calls (some e) again r q h = cc
round_sound a zero last delays calls none again r q h =
    call_sound a zero a.outcome delays calls again r q refl h
round_sound a (suc n) last delays calls none again r q h = by_wait a.wait refl h
  where
    by_wait :
        (w : Wait)
        → a.wait ≡ w
        → (waited w last
            (delays ++ delay_before (suc n) ∷ [])
            calls
            (λ delays'. call a.outcome delays' calls again)).outcome
          ≡ ok r
        → Went a (suc n) again r
    by_wait elapsed e k =
        call_sound a (suc n) a.outcome (delays ++ delay_before (suc n) ∷ []) calls again r (q, e)
          refl k
    by_wait elapsed_done e k = cc
    by_wait (canceled x) e k = cc

attempts_sound :
    (script : ℕ → Attempt) (rounds n : ℕ) (last : Option Error) (delays : List ℕ) (calls : ℕ)
    (r : Result)
    → (attempts script rounds n last delays calls).outcome ≡ ok r
    → (k : ℕ) × (k < rounds) × Succeeds script k n r
unfolding attempts stop
attempts_sound script zero n last delays calls r h = cc
attempts_sound script (suc rounds) n last delays calls r h =
    elim (round_sound (script n) n last delays calls (script n).rate
      (attempts script rounds (suc n)) r refl h) [
        | inl (live, e) ↦ (zero, omega arith, (live, e))
        | inr (retried, (last', delays', calls', later)) ↦
            let (k, below, s) = attempts_sound script rounds (suc n) last' delays' calls' r later in
            (suc k, omega arith, (retried, s))
      ]

-- A live round goes on to its call, with some list of waits.
round-IsLive :
    (a : Attempt) (n : ℕ) (last : Option Error) (delays : List ℕ) (calls : ℕ) (again : Next)
    → IsLive a n
    → (delays' : List ℕ) × (round a n last delays calls a.rate again
        ≡ call a.outcome delays' calls again)
unfolding round waited
round-IsLive a zero last delays calls again live = (delays, rw live)
round-IsLive a (suc n) last delays calls again (rate, wait) =
    (delays ++ delay_before (suc n) ∷ [], rw (rate, wait))

call-ok :
    (o : Outcome Error Result) (delays : List ℕ) (calls : ℕ) (again : Next) (r : Result)
    → o ≡ ok r
    → (call o delays calls again).outcome ≡ ok r
unfolding call
call-ok o delays calls again r e = rw e

call-retried :
    (o : Outcome Error Result) (delays : List ℕ) (calls : ℕ) (again : Next) (x : Error)
    → o ≡ err x
    → is_retryable (some x) ≡ true
    → call o delays calls again ≡ again (some x) delays (suc calls)
unfolding call
call-retried o delays calls again x e retry = rw (e, retry)

attempts_complete :
    (script : ℕ → Attempt) (rounds n : ℕ) (last : Option Error) (delays : List ℕ) (calls : ℕ)
    (r : Result) (k : ℕ)
    → k < rounds
    → Succeeds script k n r
    → (attempts script rounds n last delays calls).outcome ≡ ok r
unfolding attempts
attempts_complete script zero n last delays calls r k below s = absurd (omega arith)
attempts_complete script (suc rounds) n last delays calls r zero below (live, e) =
    let (delays', went) =
      round-IsLive (script n) n last delays calls (attempts script rounds (suc n)) live in
    ap (λ ending. ending.outcome) went
    ∙ call-ok (script n).outcome delays' calls (attempts script rounds (suc n)) r e
attempts_complete script (suc rounds) n last delays calls r (suc k) below
      ((live, (x, e, retry)), s) =
    let (delays', went) =
      round-IsLive (script n) n last delays calls (attempts script rounds (suc n)) live in
    ap (λ ending. ending.outcome) went
    ∙ ap (λ ending. ending.outcome)
        (call-retried (script n).outcome delays' calls (attempts script rounds (suc n)) x e retry)
    ∙ attempts_complete script rounds (suc n) (some x) delays' (suc calls) r k (omega arith) s

-- The loop returns a result exactly when one of the first `rounds` attempts returns it, and all
-- attempts before it were made and failed with errors that are retried.
pub attempts_iff :
    (script : ℕ → Attempt) (rounds : ℕ) (r : Result)
    → ((attempts script rounds 0 none [] 0).outcome ≡ ok r)
      ↔ ((k : ℕ) × (k < rounds) × Succeeds script k 0 r)
attempts_iff script rounds r = (
  attempts_sound script rounds 0 none [] 0 r,
  λ (k, below, s). attempts_complete script rounds 0 none [] 0 r k below s,
)
