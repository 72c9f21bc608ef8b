-- ===== src/Transparency/Requests.antt =====
-- `doRequest` of internal/transparency/transparency.go. What the HTTP client, the timer and the
-- context do is a script of answers, one for each attempt.
pub mod Laws
use ctscan.Base.{
  ℕ, zero, suc, ◌+◌, ◌*◌, ◌^◌, Bool, ◌&&◌, not, List, [], ◌∷◌, ◌++◌, Option, none, some, Outcome,
  ok, err, if◌then◌else◌, ◌==◌, nat_eq, ltb, Bytes,
}
use ctscan.Base.Decimal.{atoi}
use ctscan.Base.Int.{ℤ, pos, negsuc, wrap64}
use ctscan.Transparency.{Failure, provider_returned, client_error, context_done}
use ctscan.Types.{millisecond, second}

-- The parts of an `http.Response` that the package reads.
pub record Response : Type 0 where
  pub status_code : ℕ
  pub status : Bytes
  pub retry_after : Bytes
  pub link : Bytes
  pub body : Bytes

-- What `HTTPClient.Do` returns: a response, or an error, with which a response may come too.
pub data Reply : Type 0 where
  replied : Response → Reply
  failed : Bytes → Option Response → Reply

-- The answers that one attempt meets: of the client, and of the wait after it, which the context
-- ends with an error or the timer ends.
pub record Round : Type 0 where
  pub reply : Reply
  pub canceled : Option Bytes

-- What an exchange does, in order.
pub data Event : Type 0 where
  asked : Reply → Event
  closed : Response → Event
  slept : ℤ → Event

pub record Exchange : Type 0 where
  pub outcome : Outcome Failure Response
  pub events : List Event

-- `retries` after its two tests
unfoldable pub retries_of : ℤ → ℕ
retries_of (pos zero) = 2
retries_of (pos (suc n)) = suc n
retries_of (negsuc n) = 0

unfoldable pub is_accepted : Response → Bool
is_accepted r = not (r.status_code == 429) && ltb r.status_code 500

-- `time.Duration(1<<attempt) * 250 * time.Millisecond`
unfoldable pub backoff : ℕ → ℤ
unfolding wrap64
backoff attempt = wrap64 (2 ^ attempt * 250 * millisecond)

seconds_or : Option ℤ → ℤ → ℤ
unfolding wrap64
seconds_or (some (pos (suc n))) delay = wrap64 (suc n * second)
seconds_or _ delay = delay

-- The wait after a refused attempt, with the header of the response if there is one.
delay_after : ℕ → Option Response → ℤ
unfolding seconds_or atoi backoff
delay_after attempt none = backoff attempt
delay_after attempt (some r) = seconds_or (atoi r.retry_after) (backoff attempt)

prefixed : List Event → Exchange → Exchange
prefixed events exchange = record exchange { events = events ++ exchange.events }

returned : Response → Exchange
returned r = record { outcome = ok r; events = asked (replied r) ∷ [] }

gave_up : Failure → List Event → Exchange
gave_up e events = record { outcome = err e; events = events }

-- The end of a round that was refused: `again` makes the attempts after it, if one is left.
wait : Option Bytes → ℤ → Failure → List Event → Option Exchange → Exchange
unfolding gave_up prefixed
wait canceled delay last events none = gave_up last events
wait (some e) delay last events (some again) = gave_up (context_done e) (events ++ slept delay ∷ [])
wait none delay last events (some again) = prefixed (events ++ slept delay ∷ []) again

unfoldable pub attempt_once : Reply → Option Bytes → ℕ → Option Exchange → Exchange
unfolding returned wait delay_after is_accepted
attempt_once (failed e r) canceled attempt again =
    wait canceled (delay_after attempt r) (client_error e) (asked (failed e r) ∷ []) again
attempt_once (replied r) canceled attempt again =
    if is_accepted r
    then returned r
    else wait canceled (delay_after attempt (some r)) (provider_returned r.status)
        (asked (replied r) ∷ closed r ∷ []) again

-- The loop, by the attempts left after this one.
unfoldable pub attempts_from : (ℕ → Round) → ℕ → ℕ → Exchange
unfolding attempt_once
attempts_from script zero attempt =
    let round = script attempt in attempt_once round.reply round.canceled attempt none
attempts_from script (suc left) attempt =
    let round = script attempt in
    attempt_once round.reply round.canceled attempt (some (attempts_from script left (suc attempt)))

unfoldable pub do_request : ℤ → (ℕ → Round) → Exchange
unfolding attempts_from retries_of
do_request retries script = attempts_from script (retries_of retries) 0
