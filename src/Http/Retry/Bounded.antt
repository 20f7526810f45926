-- ===== src/Http/Retry/Bounded.antt =====
-- The bounds of a request with retries.
use licitaciones_mcp.Base.{
  List, [], ap, ◌++◌, ℕ, zero, suc, ◌-◌, ◌≤◌, ◌≡◌, refl, Bool, true, false, Option, none, some, All,
  arith, length, inl, inr, Bool-cases, if◌then◌else◌, contains, nat_eq,
}
use mathlib.Core.Path.{subst}
use licitaciones_mcp.Base.Int.{ℤ, pos, negsuc}
use licitaciones_mcp.Base.Result.{Result, ok, raised, Result-cases, ok-injective}
use licitaciones_mcp.Core.Models.{or_empty}
use licitaciones_mcp.Core.Scoring.{given}
use licitaciones_mcp.Http.Retry.{
  limited, ended, exhausted, Waits, IsWaits, Sent, answered, http_error, other_error, HttpResponse,
  Failure, of_status, of_http, RetryError, Outcome, retryable_status, clamped, clamped_some,
  or_wait, retry_after_seconds, retry_wait, classified, attempts, request_with_retries,
}

module _ (W : Waits) (L : IsWaits W) where
  clamped-small : (n : ℤ) → clamped n ≤ 30000
  unfolding clamped
  clamped-small (pos n) = omega arith
  clamped-small (negsuc n) = omega arith

  waited :
      (o o' : Option ℤ) (n : ℕ)
      → or_wait (clamped_some o (clamped_some o' none)) (W.exponential n) ≤ 30000
  unfolding or_wait clamped_some
  waited (some a) o' n = clamped-small a
  waited none (some b) n = clamped-small b
  waited none none n = L.exponential_max n

  retry_wait_small : (n : ℕ) (f : Failure) → retry_wait W n f ≤ 30000
  unfolding retry_wait retry_after_seconds or_wait clamped_some
  retry_wait_small n (of_http e) = L.exponential_max n
  retry_wait_small n (of_status r) = elim (Bool-cases (given r.retry_after)) [
    | inl h ↦
        rw h (waited (W.seconds (or_empty r.retry_after)) (W.until_date (or_empty r.retry_after)) n)
    | inr h ↦ rw h (L.exponential_max n)
  ]

  -- A response that is returned has no status that is retried.
  abbrev pub IsFinal : Result RetryError HttpResponse → Type 0
  IsFinal (ok r) = contains retryable_status r.status_code ≡ false
  IsFinal (raised e) = Unit

  answered-IsFinal :
      (b : Bool) (x : HttpResponse) (r : Result RetryError HttpResponse)
      → contains retryable_status x.status_code ≡ b
      → (if b then raised (of_status x) else ok (ok x)) ≡ ok r
      → IsFinal r
  answered-IsFinal true x r h e = absurd (cc)
  answered-IsFinal false x r h e = subst IsFinal (ok-injective e) h

  classified-IsFinal :
      (s : Sent) (r : Result RetryError HttpResponse) → classified s ≡ ok r → IsFinal r
  unfolding classified
  classified-IsFinal (answered x) r e = answered-IsFinal _ x r refl e
  classified-IsFinal (http_error x) r e = absurd (cc)
  classified-IsFinal (other_error x) r e = subst IsFinal (ok-injective e) tt

  -- The sleeps of the limiter in so many attempts, from the one of a number on.
  abbrev pub limiter_sleeps_of : (ℕ → List ℕ) → ℕ → ℕ → List ℕ
  limiter_sleeps_of acquire attempt zero = []
  limiter_sleeps_of acquire attempt (suc n) =
      acquire attempt ++ limiter_sleeps_of acquire (suc attempt) n

  -- What holds of a request with so many sleeps between its attempts at most, the first of which has
  -- a number.
  pub record IsBoundedBy (acquire : ℕ → List ℕ) (attempt left : ℕ) (o : Outcome) : Type 0 where
    pub few : length o.sleeps ≤ left
    pub short : All (λ n. n ≤ 30000) o.sleeps
    pub by_limiter : o.limiter_sleeps ≡ limiter_sleeps_of acquire attempt (suc (length o.sleeps))
    pub final : IsFinal o.result

  module _ (send : ℕ → Sent) (acquire : ℕ → List ℕ) where
    ended-IsBoundedBy :
        (n left : ℕ) (r : Result RetryError HttpResponse)
        → IsFinal r
        → IsBoundedBy acquire n left (limited (acquire n) (ended r))
    ended-IsBoundedBy n left r h = record {
      few = omega arith;
      short = tt;
      by_limiter = refl;
      final = h;
    }

    attempts-IsBoundedBy :
        (n left : ℕ) → IsBoundedBy acquire n left (attempts W send acquire n left)
    unfolding attempts
    attempts-IsBoundedBy n zero = elim (Result-cases (classified (send n))) [
      | inl (r, e) ↦ rw (attempts, e) (ended-IsBoundedBy n 0 r (classified-IsFinal (send n) r e))
      | inr (f, e) ↦ rw (attempts, e) (ended-IsBoundedBy n 0 (raised (exhausted f)) tt)
    ]
    attempts-IsBoundedBy n (suc left) = elim (Result-cases (classified (send n))) [
      | inl (r, e) ↦
          rw (attempts, e) (ended-IsBoundedBy n (suc left) r (classified-IsFinal (send n) r e))
      | inr (f, e) ↦
          let b = attempts-IsBoundedBy (suc n) left in
          rw (attempts, e)
            (record {
              few = omega (arith, b.few);
              short = (retry_wait_small n f, b.short);
              by_limiter = ap (λ rest. acquire n ++ rest) b.by_limiter;
              final = b.final;
            })
    ]

    -- Between its attempts a request sleeps fewer times than it may make attempts, each time thirty
    -- seconds at most, whatever `Retry-After` says; the limiter is asked once in each attempt, of which
    -- there is one more than sleeps between them, so that its sleeps are all the others; and a response
    -- that is returned has no status that is retried; provided that the exponential wait keeps to its
    -- maximum.
    pub request_with_retries-IsBoundedBy :
        (max_attempts : ℕ)
        → IsBoundedBy acquire 1
            (max_attempts - 1)
            (request_with_retries W send acquire max_attempts)
    unfolding request_with_retries
    request_with_retries-IsBoundedBy max_attempts = attempts-IsBoundedBy 1 (max_attempts - 1)
