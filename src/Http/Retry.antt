-- ===== src/Http/Retry.antt =====
-- `request_with_retries` of http/client.py, with `_retry_wait`. Times are milliseconds. The loop of
-- tenacity sends until a response is let pass, an error is no error of HTTP, or the last attempt has
-- failed, and sleeps between two attempts. Each attempt first takes a token of the rate limiter, which
-- may sleep too: `acquire`, the loop around `pass` of Http/RateLimiter.antt, is a parameter, by its
-- sleeps in the attempt of a number, none where there is no limiter.
pub mod Bounded
use licitaciones_mcp.Base.{
  ℕ, zero, suc, ◌-◌, ◌≤◌, max, min, Bool, true, false, Option, none, some, List, [], ◌∷◌, ◌++◌,
  non_empty, if◌then◌else◌, contains, nat_eq,
}
use licitaciones_mcp.Base.Int.{ℤ, pos, negsuc}
use licitaciones_mcp.Base.Result.{Result, ok, raised}
use licitaciones_mcp.Base.Text.{Text}
use licitaciones_mcp.Core.Models.{or_empty}
use licitaciones_mcp.Core.Scoring.{given}

unfoldable pub retryable_status : List ℕ
retryable_status = 408 ∷ 425 ∷ 429 ∷ 500 ∷ 502 ∷ 503 ∷ 504 ∷ []

pub record HttpResponse : Type 0 where
  pub status_code : ℕ
  pub retry_after : Option Text

-- What sending a request gives: a response, an error of HTTP, or another error.
pub data Sent : Type 0 where
  answered : HttpResponse → Sent
  http_error : Text → Sent
  other_error : Text → Sent

-- The readers of a `Retry-After`: as seconds, and as a date less the time that it is now; and the
-- exponential wait of tenacity after an attempt.
pub record Waits : Type 0 where
  pub seconds : Text → Option ℤ
  pub until_date : Text → Option ℤ
  pub exponential : ℕ → ℕ

-- Its documented maximum of thirty seconds.
pub record IsWaits (W : Waits) : Type 0 where
  pub exponential_max : (n : ℕ) → W.exponential n ≤ 30000

-- `max(0.0, min(value, 30.0))`
clamped : ℤ → ℕ
clamped (pos n) = min n 30000
clamped (negsuc n) = 0

abbrev clamped_some : Option ℤ → Option ℕ → Option ℕ
unfolding clamped
clamped_some none other = other
clamped_some (some n) other = some (clamped n)

unfoldable pub retry_after_seconds : Waits → Option Text → Option ℕ
unfolding clamped
retry_after_seconds W value =
    if given value
    then clamped_some (W.seconds (or_empty value))
        (clamped_some (W.until_date (or_empty value)) none)
    else none

or_wait : Option ℕ → ℕ → ℕ
or_wait none other = other
or_wait (some n) other = n

-- What failed: the response whose status is retried, or an error of HTTP.
pub data Failure : Type 0 where
  of_status : HttpResponse → Failure
  of_http : Text → Failure

unfoldable pub retry_wait : Waits → ℕ → Failure → ℕ
unfolding retry_after_seconds or_wait
retry_wait W attempt (of_status r) =
    or_wait (retry_after_seconds W r.retry_after) (W.exponential attempt)
retry_wait W attempt (of_http e) = W.exponential attempt

pub data RetryError : Type 0 where
  exhausted : Failure → RetryError
  not_retried : Text → RetryError

-- The sleeps of a request between its attempts and those of the limiter in them, the first one
-- first, and what it returns or raises.
pub record Outcome : Type 0 where
  pub sleeps : List ℕ
  pub limiter_sleeps : List ℕ
  pub result : Result RetryError HttpResponse

abbrev pub slept : ℕ → Outcome → Outcome
slept n o = record { sleeps = n ∷ o.sleeps; limiter_sleeps = o.limiter_sleeps; result = o.result }

-- What `acquire` adds in front.
abbrev pub limited : List ℕ → Outcome → Outcome
limited ns o = record {
  sleeps = o.sleeps;
  limiter_sleeps = ns ++ o.limiter_sleeps;
  result = o.result;
}

abbrev pub ended : Result RetryError HttpResponse → Outcome
ended r = record { sleeps = []; limiter_sleeps = []; result = r }

-- `attempt` as the code sees it: what it returns, or how it fails.
unfoldable pub classified : Sent → Result (Failure) (Result RetryError HttpResponse)
unfolding retryable_status
classified (answered r) =
    if contains retryable_status r.status_code then raised (of_status r) else ok (ok r)
classified (http_error e) = raised (of_http e)
classified (other_error e) = ok (raised (not_retried e))

module _ (W : Waits) (send : ℕ → Sent) (acquire : ℕ → List ℕ) where
  -- The number of the next attempt, and how many may follow it.
  attempts : ℕ → ℕ → Outcome
  unfolding classified retry_wait
  attempts attempt zero = limited (acquire attempt) (elim (classified (send attempt)) [
    | ok r ↦ ended r
    | raised f ↦ ended (raised (exhausted f))
  ])
  attempts attempt (suc left) = limited (acquire attempt) (elim (classified (send attempt)) [
    | ok r ↦ ended r
    | raised f ↦ slept (retry_wait W attempt f) (attempts (suc attempt) left)
  ])

  -- `stop_after_attempt(max_attempts)` lets the first attempt be made in any case.
  unfoldable pub request_with_retries : ℕ → Outcome
  unfolding attempts
  request_with_retries max_attempts = attempts 1 (max_attempts - 1)
