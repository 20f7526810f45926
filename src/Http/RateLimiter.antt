-- ===== src/Http/RateLimiter.antt =====
-- `RateLimiter` of http/client.py, in whole numbers: `one` units make a token, the rate is a number
-- of units for each tick of the clock, and a reading of `time.monotonic()` is a number of ticks.
pub mod Bound
use licitaciones_mcp.Base.{
  ℕ, ◌+◌, ◌-◌, ◌*◌, min, Bool, true, false, Option, none, some, List, [], ◌∷◌, if◌then◌else◌, leb,
  list_eq, nat_eq,
}
use licitaciones_mcp.Base.Dict.{Dict, lookup, insert}
use licitaciones_mcp.Base.Text.{Text}

pub record Bucket : Type 0 where
  pub tokens : ℕ
  pub last : ℕ

pub record RateLimiter : Type 0 where
  pub one : ℕ
  pub rate : ℕ
  pub capacity : ℕ
  pub buckets : Dict Text Bucket

-- What a pass of the loop in `acquire` does after the lock is released: return, or sleep for
-- `needed / rate` and go round again.
pub data Pass : Type 0 where
  acquired : Pass
  wait : ℕ → Pass

-- `self._buckets.get(host, (self.capacity, time.monotonic()))`
bucket_or_full : RateLimiter → ℕ → Option Bucket → Bucket
bucket_or_full l first none = record { tokens = l.capacity; last = first }
bucket_or_full l first (some b) = b

refilled : RateLimiter → Bucket → ℕ → ℕ
refilled l b now = min l.capacity (b.tokens + (now - b.last) * l.rate)

-- One pass, under the lock. `first` and `now` are the two readings of the clock, in this order.
unfoldable pub pass : RateLimiter → Text → ℕ → ℕ → RateLimiter × Pass
unfolding bucket_or_full refilled
pass l host first now =
    let tokens = refilled l (bucket_or_full l first (lookup host l.buckets)) now in
    let enough = leb l.one tokens in
    (
      record l {
        buckets =
            insert host (record { tokens = if enough then tokens - l.one else tokens; last = now })
              l.buckets;
      },
      if enough then acquired else wait (l.one - tokens),
    )
