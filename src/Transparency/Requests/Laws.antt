-- ===== src/Transparency/Requests/Laws.antt =====
-- Which response an exchange ends with, how often it asks, and that it closes what it does not return.
use ctscan.Base.{
  ℕ, zero, suc, ◌||◌, ◌<◌, ◌≢◌, leb, ◌==◌, nat_eq, ◌≤◌, Bool, true, not, List, [], ◌∷◌, ◌++◌,
  Option, none, some, Outcome, ok, err, Bytes, ◌≡◌, ◌↔◌, ◌⊎◌, inl, inr, refl, sym, ap, ◌∙◌, arith,
  Bool-cases,
}
use ctscan.Base.Int.{ℤ}
use ctscan.Transparency.{Failure, client_error, provider_returned}
use ctscan.Transparency.Requests.{
  Response, Reply, replied, failed, Round, Event, asked, closed, slept, Exchange, is_accepted,
  delay_after, returned, gave_up, prefixed, wait, attempt_once, attempts_from, do_request,
  retries_of,
}

abbrev pub is_refused : Reply → Bool
is_refused (failed e r) = true
is_refused (replied r) = r.status_code == 429 || leb 500 r.status_code

abbrev pub IsGood : Response → Type 0
IsGood r = (r.status_code ≢ 429) × (r.status_code < 500)

is_accepted-IsGood : (r : Response) → is_accepted r ≡ true → IsGood r
unfolding is_accepted
is_accepted-IsGood r h = (ground arith, ground arith)

IsGood-is_accepted : (r : Response) → IsGood r → is_accepted r ≡ true
unfolding is_accepted
IsGood-is_accepted r (other, below) = ground arith

is_refused-is_accepted : (r : Response) → is_refused (replied r) ≡ not (is_accepted r)
unfolding is_accepted
is_refused-is_accepted r = ground arith

-- From attempt `n` on, `k` attempts are refused and their waits elapse, and the next one is answered
-- by the response.
abbrev pub IsAnswered : (ℕ → Round) → ℕ → ℕ → Response → Type 0
IsAnswered script zero n r = ((script n).reply ≡ replied r) × IsGood r
IsAnswered script (suc k) n r =
    (is_refused (script n).reply ≡ true)
    × ((script n).canceled ≡ none)
    × IsAnswered script k (suc n) r

-- The attempts after a refused one return the response.
abbrev Goes : Option Bytes → Option Exchange → Response → Type 0
Goes canceled again r = (canceled ≡ none) × ((x : Exchange) × (again ≡ some x) × (x.outcome ≡ ok r))

wait_sound :
    (c : Option Bytes) (delay : ℤ) (last : Failure) (events : List Event) (again : Option Exchange)
    (r : Response)
    → (wait c delay last events again).outcome ≡ ok r
    → Goes c again r
unfolding wait gave_up prefixed
wait_sound c delay last events none r h = cc
wait_sound (some e) delay last events (some again) r h = cc
wait_sound none delay last events (some again) r h = (refl, (again, refl, h))

wait_complete :
    (c : Option Bytes) (delay : ℤ) (last : Failure) (events : List Event) (again : Exchange)
    (r : Response)
    → c ≡ none
    → again.outcome ≡ ok r
    → (wait c delay last events (some again)).outcome ≡ ok r
unfolding wait prefixed
wait_complete c delay last events again r e h = rw e h

attempt_once_sound :
    (reply : Reply) (c : Option Bytes) (n : ℕ) (again : Option Exchange) (r : Response)
    → (attempt_once reply c n again).outcome ≡ ok r
    → ((reply ≡ replied r) × IsGood r) ⊎ ((is_refused reply ≡ true) × Goes c again r)
unfolding attempt_once returned
attempt_once_sound (failed e o) c n again r h =
    inr (refl, wait_sound c (delay_after n o) (client_error e) (asked (failed e o) ∷ []) again r h)
attempt_once_sound (replied q) c n again r h = elim (Bool-cases (is_accepted q)) [
  | inl good ↦
      let same : q ≡ r = cc (rw good at h) in
      inl (ap replied same, is_accepted-IsGood r (ap is_accepted (sym same) ∙ good))
  | inr bad ↦ inr (
    is_refused-is_accepted q ∙ rw bad refl,
    wait_sound c (delay_after n (some q)) (provider_returned q.status)
        (asked (replied q) ∷ closed q ∷ []) again r (rw bad at h),
  )
]

attempts_from_sound :
    (script : ℕ → Round) (left n : ℕ) (r : Response)
    → (attempts_from script left n).outcome ≡ ok r
    → (k : ℕ) × (k ≤ left) × IsAnswered script k n r
unfolding attempts_from
attempts_from_sound script zero n r h =
    elim (attempt_once_sound (script n).reply (script n).canceled n none r h) [
      | inl answered ↦ (zero, omega arith, answered)
      | inr (refused, (live, (x, e, k))) ↦ cc
    ]
attempts_from_sound script (suc left) n r h =
    elim (attempt_once_sound (script n).reply (script n).canceled n
      (some (attempts_from script left (suc n))) r h) [
        | inl answered ↦ (zero, omega arith, answered)
        | inr (refused, (live, (x, e, g))) ↦
            let (k, below, more) = attempts_from_sound script left (suc n) r (cc) in
            (suc k, omega arith, (refused, live, more))
      ]

attempt_once-answered :
    (reply : Reply) (c : Option Bytes) (n : ℕ) (again : Option Exchange) (r : Response)
    → reply ≡ replied r
    → IsGood r
    → (attempt_once reply c n again).outcome ≡ ok r
unfolding attempt_once returned
attempt_once-answered reply c n again r e good = rw (e, IsGood-is_accepted r good) refl

attempt_once-refused :
    (reply : Reply) (c : Option Bytes) (n : ℕ) (again : Exchange) (r : Response)
    → is_refused reply ≡ true
    → c ≡ none
    → again.outcome ≡ ok r
    → (attempt_once reply c n (some again)).outcome ≡ ok r
unfolding attempt_once
attempt_once-refused (failed e o) c n again r refused live h =
    wait_complete c (delay_after n o) (client_error e) (asked (failed e o) ∷ []) again r live h
attempt_once-refused (replied q) c n again r refused live h = elim (Bool-cases (is_accepted q)) [
  | inl good ↦ cc (rw (is_refused-is_accepted q, good) at refused)
  | inr bad ↦ rw bad (
      wait_complete c (delay_after n (some q)) (provider_returned q.status)
        (asked (replied q) ∷ closed q ∷ []) again r live h)
]

attempts_from_complete :
    (script : ℕ → Round) (left n : ℕ) (r : Response) (k : ℕ)
    → k ≤ left
    → IsAnswered script k n r
    → (attempts_from script left n).outcome ≡ ok r
unfolding attempts_from
attempts_from_complete script zero n r zero below (e, good) =
    attempt_once-answered (script n).reply (script n).canceled n none r e good
attempts_from_complete script zero n r (suc k) below a = absurd (omega arith)
attempts_from_complete script (suc left) n r zero below (e, good) =
    attempt_once-answered (script n).reply (script n).canceled n
      (some (attempts_from script left (suc n))) r e good
attempts_from_complete script (suc left) n r (suc k) below (refused, live, a) =
    attempt_once-refused (script n).reply (script n).canceled n (attempts_from script left (suc n))
      r refused live (attempts_from_complete script left (suc n) r k (omega arith) a)

-- An exchange returns a response exactly when it answers one of the attempts, all attempts before
-- it having been refused, by an error, status 429 or one of 500 and more, with no cancellation.
pub do_request_iff :
    (retries : ℤ) (script : ℕ → Round) (r : Response)
    → ((do_request retries script).outcome ≡ ok r)
      ↔ ((k : ℕ) × (k ≤ retries_of retries) × IsAnswered script k 0 r)
unfolding do_request
do_request_iff retries script r = (
  λ h. attempts_from_sound script (retries_of retries) 0 r h,
  λ (k, below, a). attempts_from_complete script (retries_of retries) 0 r k below a,
)

-- The responses that came with no error, in their order.
abbrev pub opened : List Event → List Response
opened [] = []
opened (asked (replied r) ∷ events) = r ∷ opened events
opened (asked (failed e r) ∷ events) = opened events
opened (closed r ∷ events) = opened events
opened (slept d ∷ events) = opened events

abbrev pub closed_in : List Event → List Response
closed_in [] = []
closed_in (closed r ∷ events) = r ∷ closed_in events
closed_in (asked a ∷ events) = closed_in events
closed_in (slept d ∷ events) = closed_in events

abbrev pub asked_in : List Event → ℕ
asked_in [] = 0
asked_in (asked a ∷ events) = suc (asked_in events)
asked_in (closed r ∷ events) = asked_in events
asked_in (slept d ∷ events) = asked_in events

abbrev pub handed_out : Outcome Failure Response → List Response
handed_out (ok r) = r ∷ []
handed_out (err e) = []

-- At most `rounds` requests, and every response is closed or handed out.
abbrev pub IsTidy : ℕ → Exchange → Type 0
IsTidy rounds x =
    (asked_in x.events ≤ rounds) × (opened x.events ≡ closed_in x.events ++ handed_out x.outcome)

attempt_once-last :
    (reply : Reply) (c : Option Bytes) (n : ℕ) → IsTidy 1 (attempt_once reply c n none)
unfolding attempt_once wait gave_up returned
attempt_once-last (failed e o) c n = (omega arith, refl)
attempt_once-last (replied r) c n = elim (Bool-cases (is_accepted r)) [
  | inl good ↦ rw good (omega arith, refl)
  | inr bad ↦ rw bad (omega arith, refl)
]

attempt_once-again :
    (reply : Reply) (c : Option Bytes) (n rounds : ℕ) (again : Exchange)
    → IsTidy rounds again
    → IsTidy (suc rounds) (attempt_once reply c n (some again))
unfolding attempt_once wait gave_up returned prefixed
attempt_once-again (failed e o) none n rounds again (few, tidy) = (omega arith, tidy)
attempt_once-again (failed e o) (some x) n rounds again (few, tidy) = (omega arith, refl)
attempt_once-again (replied r) none n rounds again (few, tidy) = elim (Bool-cases (is_accepted r)) [
  | inl good ↦ rw good (omega arith, refl)
  | inr bad ↦ rw bad (omega arith, ap (λ rs. r ∷ rs) tidy)
]
attempt_once-again (replied r) (some x) n rounds again (few, tidy) =
    elim (Bool-cases (is_accepted r)) [
      | inl good ↦ rw good (omega arith, refl)
      | inr bad ↦ rw bad (omega arith, refl)
    ]

attempts_from-IsTidy :
    (script : ℕ → Round) (left n : ℕ) → IsTidy (suc left) (attempts_from script left n)
unfolding attempts_from
attempts_from-IsTidy script zero n = attempt_once-last (script n).reply (script n).canceled n
attempts_from-IsTidy script (suc left) n =
    attempt_once-again (script n).reply (script n).canceled n (suc left)
      (attempts_from script left (suc n)) (attempts_from-IsTidy script left (suc n))

-- An exchange asks at most once more than its retries, and closes every response that it was given
-- but the one that it returns, in their order.
pub do_request-IsTidy :
    (retries : ℤ) (script : ℕ → Round)
    → IsTidy (suc (retries_of retries)) (do_request retries script)
unfolding do_request
do_request-IsTidy retries script = attempts_from-IsTidy script (retries_of retries) 0
