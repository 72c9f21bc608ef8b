-- ===== src/Scanner/Retry/Endings.antt =====
-- The result that `Scan` gives: that of a successful attempt, or a failure with its reason.
use ctscan.Base.{
  ℕ, zero, suc, ◌+◌, ◌<◌, ◌≢◌, true, false, ◌&&◌, List, [], ◌∷◌, ◌++◌, Option, none, some, Outcome,
  ok, err, ◌==◌, nat_eq, text_eq, ◌≡◌, ◌⊎◌, inl, inr, refl, arith, Bool-cases,
}
use ctscan.Base.Int.{ℤ, pos}
use ctscan.Scanner.Errors.{Error, is_retryable, classify_error}
use ctscan.Scanner.Retry.{
  Wait, elapsed, elapsed_done, canceled, Attempt, Ending, delay_before, stop, call, waited, round,
  attempts, rounds_for, base_result, finish_result, conclude, with_port, scan,
}
use ctscan.Scanner.Retry.Laws.{IsLive, Succeeds, attempts_iff}
use ctscan.Types.{Target, Result, Time}

-- Why attempt `n` is the last one, and the error that is reported then: that of the rate limiter;
-- that of the context which is done in the backoff; the error of the attempt before, when the context
-- is done as the backoff ends; or the attempt's own error, when it is not retryable or no retry is
-- left.
abbrev pub Breaks : Attempt → (retries n : ℕ) → Option Error → Error → Type 0
Breaks a retries n last e =
    (a.rate ≡ some e)
    ⊎ ((a.rate ≡ none) × (n ≢ 0) × (a.wait ≡ canceled e))
    ⊎ ((a.rate ≡ none) × (n ≢ 0) × (a.wait ≡ elapsed_done) × (last ≡ some e))
    ⊎ (IsLive a n × (a.outcome ≡ err e) × ((is_retryable (some e) ≡ false) ⊎ (n ≡ retries)))

-- From attempt `n` on, `k` attempts are retried and the next one breaks the loop; `last` is the error
-- of the attempt before.
abbrev pub Fails : (ℕ → Attempt) → (retries k n : ℕ) → Option Error → Error → Type 0
Fails script retries zero n last e = Breaks (script n) retries n last e
Fails script retries (suc k) n last e =
    (x : Error) × IsLive (script n) n
    × ((script n).outcome ≡ err x)
    × (is_retryable (some x) ≡ true)
    × Fails script retries k (suc n) (some x) e

-- What one round that ends with a failure has done.
abbrev Broke : Attempt → (retries n : ℕ) → Option Error → Option Error → Type 0
Broke a retries n last o = (e : Error) × (o ≡ some e) × Breaks a retries n last e

-- The round was retried, and the rounds after it fail.
abbrev Went : Attempt → ℕ → (Option Error → List ℕ → ℕ → Ending) → Option Error → Type 0
Went a n again o =
    (x : Error) × IsLive a n
    × (a.outcome ≡ err x)
    × (is_retryable (some x) ≡ true)
    × ((delays : List ℕ) × (calls : ℕ) × ((again (some x) delays calls).outcome ≡ err o))

call_failed :
    (a : Attempt) (retries n : ℕ) (last : Option Error) (o : Outcome Error Result) (delays : List ℕ)
    (calls : ℕ) (again : Option Error → List ℕ → ℕ → Ending) (x : Option Error)
    → IsLive a n
    → a.outcome ≡ o
    → (call o delays calls again).outcome ≡ err x
    → Broke a retries n last x ⊎ Went a n again x
unfolding call stop
call_failed a retries n last (ok r) delays calls again x live q h = cc
call_failed a retries n last (err e) delays calls again x live q h =
    elim (Bool-cases (is_retryable (some e))) [
      | inl yes_again ↦ inr (e, live, q, yes_again, (delays, suc calls, rw yes_again at h))
      | inr final ↦ inl (e, cc (rw final at h), inr (inr (inr (live, q, inl final))))
    ]

round_failed :
    (a : Attempt) (retries n : ℕ) (last : Option Error) (delays : List ℕ) (calls : ℕ)
    (rate : Option Error) (again : Option Error → List ℕ → ℕ → Ending) (x : Option Error)
    → (n ≡ 0) ⊎ ((e : Error) × (last ≡ some e))
    → a.rate ≡ rate
    → (round a n last delays calls rate again).outcome ≡ err x
    → Broke a retries n last x ⊎ Went a n again x
unfolding round stop waited
round_failed a retries n last delays calls (some e) again x reason q h = inl (e, cc, inl q)
round_failed a retries zero last delays calls none again x reason q h =
    call_failed a retries zero last a.outcome delays calls again x q refl h
round_failed a retries (suc n) last delays calls none again x reason q h = by_wait a.wait refl h
  where
    by_wait :
        (w : Wait)
        → a.wait ≡ w
        → (waited w last
            (delays ++ delay_before (suc n) ∷ [])
            calls
            (λ ds. call a.outcome ds calls again)).outcome
          ≡ err x
        → Broke a retries (suc n) last x ⊎ Went a (suc n) again x
    by_wait elapsed e k =
        call_failed a retries (suc n) last a.outcome (delays ++ delay_before (suc n) ∷ []) calls
          again x (q, e) refl k
    by_wait elapsed_done e k = elim reason [
      | inl none_before ↦ absurd (omega (arith, none_before))
      | inr (y, l) ↦ inl (y, cc, inr (inr (inl (q, (λ z. omega (arith, z)), e, l))))
    ]
    by_wait (canceled y) e k = inl (y, cc, inr (inl (q, (λ z. omega (arith, z)), e)))

-- How the loop fails, from attempt `n` on with these rounds left.
abbrev FailsWithin : (ℕ → Attempt) → (retries rounds n : ℕ) → Option Error → Option Error → Type 0
FailsWithin script retries rounds n last o =
    (e : Error) × (o ≡ some e) × ((k : ℕ) × (k < rounds) × Fails script retries k n last e)

attempts_failed :
    (script : ℕ → Attempt) (retries rounds n : ℕ) (last : Option Error) (delays : List ℕ)
    (calls : ℕ) (x : Option Error)
    → (n ≡ 0) ⊎ ((e : Error) × (last ≡ some e))
    → n + rounds ≡ retries
    → (attempts script (suc rounds) n last delays calls).outcome ≡ err x
    → FailsWithin script retries (suc rounds) n last x
unfolding attempts stop
attempts_failed script retries zero n last delays calls x reason left h =
    elim (round_failed (script n) retries n last delays calls (script n).rate
      (attempts script 0 (suc n)) x reason refl h) [
        | inl (e, o, b) ↦ (e, o, (0, omega arith, b))
        | inr (y, live, q, retry, (ds, cs, k)) ↦
            (y, cc, (0, omega arith, inr (inr (inr (live, q, inr (omega (arith, left)))))))
      ]
attempts_failed script retries (suc rounds) n last delays calls x reason left h =
    elim (round_failed (script n) retries n last delays calls (script n).rate
      (attempts script (suc rounds) (suc n)) x reason refl h) [
        | inl (e, o, b) ↦ (e, o, (0, omega arith, b))
        | inr (y, live, q, retry, (ds, cs, later)) ↦
            let (e, o, (k, below, fails)) =
              attempts_failed script retries rounds (suc n) (some y) ds cs x (inr (y, refl))
                (omega (arith, left)) later in
            (e, o, (suc k, omega arith, (y, live, q, retry, fails)))
      ]

-- How a scan of a target with a host or an address ends: with the result of the first attempt that
-- returned one, or with the error for which an attempt was the last.
abbrev pub Ends : (retries : ℕ) → (ℕ → Attempt) → Time → ℤ → Target → Result → Type 0
Ends retries script started elapsed_ms target result =
    ((k : ℕ) × (r : Result) × (k < suc retries)
      × Succeeds script k 0 r
      × (result ≡ record r { timestamp = started; duration_ms = elapsed_ms }))
    ⊎ ((k : ℕ) × (e : Error) × (k < suc retries)
        × Fails script retries k 0 none e
        × (result ≡ record (base_result (with_port target) started) {
          error = some (classify_error (some e));
          duration_ms = elapsed_ms;
        }))

ending-Ends :
    (retries : ℕ) (script : ℕ → Attempt) (started : Time) (elapsed_ms : ℤ) (target : Target)
    (o : Outcome (Option Error) Result)
    → (attempts script (suc retries) 0 none [] 0).outcome ≡ o
    → Ends retries script started elapsed_ms target (
        conclude
          (base_result (with_port target) started)
          elapsed_ms
          (attempts script (suc retries) 0 none [] 0))
unfolding conclude finish_result
ending-Ends retries script started elapsed_ms target (ok r) h =
    let (k, below, s) = (attempts_iff script (suc retries) r).0 h in inl (k, r, below, s, rw h)
ending-Ends retries script started elapsed_ms target (err x) h =
    let (e, o, (k, below, fails)) =
      attempts_failed script retries retries 0 none [] 0 x (inl refl) (omega arith) h in
    inr (k, e, below, fails, rw (h, o))

with_port-named :
    (target : Target)
    → (target.host == [] && target.address == []) ≡ false
    → ((with_port target).host == [] && (with_port target).address == []) ≡ false
unfolding with_port
with_port-named target named = elim (Bool-cases (target.port == 0)) [
  | inl h ↦ rw h named
  | inr h ↦ rw h named
]

-- A scan of a target with a host or an address, at no negative number of retries, ends with the
-- result of the first attempt that was made and returned one, all before it having failed with
-- errors that are retried; or with a failure that reports the error for which an attempt was the
-- last, all before it having been retried: the rate limiter's or the context's, the one before when
-- the context is done as the backoff ends, or the attempt's own, if it is not retryable or all
-- retries are spent. The time of its start and the measured duration are set either way.
pub scan-Ends :
    (retries : ℕ) (script : ℕ → Attempt) (started : Time) (elapsed_ms : ℤ) (target : Target)
    → (target.host == [] && target.address == []) ≡ false
    → Ends retries script started elapsed_ms target
        (scan (pos retries) script started elapsed_ms target)
unfolding scan rounds_for
scan-Ends retries script started elapsed_ms target named = rw (with_port-named target named) (
    ending-Ends retries script started elapsed_ms target
      (attempts script (suc retries) 0 none [] 0).outcome refl)
