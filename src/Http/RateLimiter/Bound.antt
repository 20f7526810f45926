-- ===== src/Http/RateLimiter/Bound.antt =====
-- The limiter grants no more than the capacity and the rate allow, and a caller who has slept as
-- long as it was told to gets its token.
use licitaciones_mcp.Base.{
  ℕ, ◌+◌, ◌-◌, ◌*◌, ◌≤◌, min, ◌≡◌, refl, ap, ◌∙◌, true, false, Option, none, some, List, [], ◌∷◌,
  arith, if◌then◌else◌, list_eq, nat_eq, ◌==◌, eq_self, leb, Bool-cases, inl, inr,
}
use licitaciones_mcp.Base.Dict.{lookup, lookup-insert}
use licitaciones_mcp.Base.Text.{Text, text_iff}
use licitaciones_mcp.Http.RateLimiter.{
  Bucket, RateLimiter, Pass, acquired, wait, bucket_or_full, refilled, pass,
}

-- A pass of some caller: its host and the two readings of the clock.
pub record Call : Type 0 where
  pub host : Text
  pub first : ℕ
  pub now : ℕ

-- The readings never go back.
abbrev pub Forward : ℕ → List Call → Type 0
Forward start [] = Unit
Forward start (c ∷ cs) = (start ≤ c.first) × (c.first ≤ c.now) × Forward c.now cs

abbrev pub last_reading : ℕ → List Call → ℕ
last_reading start [] = start
last_reading start (c ∷ cs) = last_reading c.now cs

granted : Pass → ℕ
granted acquired = 1
granted (wait _) = 0

-- The passes in the order in which they hold the lock, and how many of them give `host` a token.
unfoldable pub grants : RateLimiter → Text → List Call → ℕ
unfolding granted
grants l host [] = 0
grants l host (c ∷ cs) =
    let (l', outcome) = pass l c.host c.first c.now in
    (if c.host == host then granted outcome else 0) + grants l' host cs

-- The units that `host` may spend between two readings.
budget : RateLimiter → Option Bucket → ℕ → ℕ → ℕ
budget l none start end' = l.capacity + (end' - start) * l.rate
budget l (some b) start end' = b.tokens + (end' - b.last) * l.rate

-- A bucket was last filled at a reading that has passed.
abbrev Past : Option Bucket → ℕ → Type 0
Past none start = Unit
Past (some b) start = b.last ≤ start

split_time : (a b c r : ℕ) → a ≤ b → b ≤ c → (b - a) * r + (c - b) * r ≡ (c - a) * r
split_time a b c r h k = grind arith

last_reading_ge : (start : ℕ) (cs : List Call) → Forward start cs → start ≤ last_reading start cs
last_reading_ge start [] f = omega arith
last_reading_ge start (c ∷ cs) f = omega (arith, last_reading_ge c.now cs f.2, f.0, f.1)

abbrev after : RateLimiter → Call → RateLimiter
after l c = (pass l c.host c.first c.now).0

abbrev outcome : RateLimiter → Call → Pass
outcome l c = (pass l c.host c.first c.now).1

-- What a pass for the host spends and leaves is what the refilled bucket held.
own_pass :
    (l : RateLimiter) (host : Text) (c : Call)
    → (c.host == host) ≡ true
    → (b : Bucket) × (lookup host (after l c).buckets ≡ some b)
      × (b.last ≡ c.now)
      × (l.one * granted (outcome l c) + b.tokens
          ≡ refilled l (bucket_or_full l c.first (lookup host l.buckets)) c.now)
unfolding pass granted
own_pass l host c e =
    let held = λ (h : Text). refilled l (bucket_or_full l c.first (lookup h l.buckets)) c.now in
    let tokens = held c.host in
    let b : Bucket = record {
      tokens = if leb l.one tokens then tokens - l.one else tokens;
      last = c.now;
    } in
    (
      b,
      lookup-insert c.host host b l.buckets ∙ rw e,
      refl,
      ground arith ∙ ap held ((text_iff c.host host).0 e),
    )

other_pass :
    (l : RateLimiter) (host : Text) (c : Call)
    → (c.host == host) ≡ false
    → lookup host (after l c).buckets ≡ lookup host l.buckets
unfolding pass
other_pass l host c e = lookup-insert c.host host _ l.buckets ∙ rw e

less_time : (a b c r : ℕ) → a ≤ b → (c - b) * r ≤ (c - a) * r
less_time a b c r h = grind arith

refilled-budget :
    (l : RateLimiter) (o : Option Bucket) (start first now end' : ℕ)
    → start ≤ first
    → first ≤ now
    → now ≤ end'
    → Past o start
    → refilled l (bucket_or_full l first o) now + (end' - now) * l.rate ≤ budget l o start end'
unfolding refilled bucket_or_full budget
refilled-budget l none start first now end' h1 h2 h3 p =
    omega (arith, less_time start now end' l.rate (omega arith))
refilled-budget l (some b) start first now end' h1 h2 h3 p =
    omega (arith, split_time b.last now end' l.rate (omega (arith, p)) h3)

-- A pass for the host pays for its token out of the budget.
own_budget :
    (l : RateLimiter) (host : Text) (c : Call) (start end' : ℕ)
    → (c.host == host) ≡ true
    → start ≤ c.first
    → c.first ≤ c.now
    → c.now ≤ end'
    → Past (lookup host l.buckets) start
    → l.one * granted (outcome l c) + budget l (lookup host (after l c).buckets) c.now end'
      ≤ budget l (lookup host l.buckets) start end'
unfolding budget
own_budget l host c start end' e h1 h2 h3 past =
    let (b, found, filled, paid) = own_pass l host c e in
    rw (found, filled)
      (omega (
        arith,
        paid,
        refilled-budget l (lookup host l.buckets) start c.first c.now end' h1 h2 h3 past,
      ))

later_budget :
    (l : RateLimiter) (o : Option Bucket) (start now end' : ℕ)
    → start ≤ now
    → budget l o now end' ≤ budget l o start end'
unfolding budget
later_budget l none start now end' h = omega (arith, less_time start now end' l.rate h)
later_budget l (some b) start now end' h = omega arith

later-Past : (o : Option Bucket) (start now : ℕ) → start ≤ now → Past o start → Past o now
later-Past none start now h p = tt
later-Past (some b) start now h p = omega arith

own-Past :
    (l : RateLimiter) (host : Text) (c : Call)
    → (c.host == host) ≡ true
    → Past (lookup host (after l c).buckets) c.now
own-Past l host c e =
    let (b, found, filled, paid) = own_pass l host c e in rw (found) (omega (arith, filled))

-- A pass changes only the buckets, so the budget is that of the limiter before it.
budget-after :
    (l : RateLimiter) (c : Call) (o : Option Bucket) (start end' : ℕ)
    → budget (after l c) o start end' ≡ budget l o start end'
unfolding pass budget
budget-after l c none start end' = refl
budget-after l c (some b) start end' = refl

one-after : (l : RateLimiter) (c : Call) → (after l c).one ≡ l.one
unfolding pass
one-after l c = refl

module _ (host : Text) where
  grants-budget :
      (l : RateLimiter) (start : ℕ) (cs : List Call)
      → Forward start cs
      → Past (lookup host l.buckets) start
      → l.one * grants l host cs ≤ budget l (lookup host l.buckets) start (last_reading start cs)
  unfolding grants
  grants-budget l start [] f p = omega arith
  grants-budget l start (c ∷ cs) f p =
      let end' = last_reading c.now cs in
      let late : c.now ≤ end' = last_reading_ge c.now cs f.2 in
      elim (Bool-cases (c.host == host)) [
        | inl e ↦
            let rest = grants-budget (after l c) c.now cs f.2 (own-Past l host c e) in
            rw e (
              omega (
                arith,
                own_budget l host c start end' e f.0 f.1 late p,
                rw (one-after l c, budget-after l c) at rest,
              ))
        | inr e ↦
            let same = other_pass l host c e in
            let rest =
              grants-budget (after l c) c.now cs f.2
                (rw same (later-Past (lookup host l.buckets) start c.now (omega arith) p)) in
            rw e (
              omega (
                arith,
                later_budget l (lookup host l.buckets) start c.now end' (omega arith),
                rw (one-after l c, budget-after l c, same) at rest,
              ))
      ]

  -- Whatever calls take the lock, in whatever order, a host that starts without a bucket is given
  -- no more tokens than the capacity and the rate over the elapsed time pay for.
  pub grants_bound :
      (l : RateLimiter) (start : ℕ) (cs : List Call)
      → Forward start cs
      → lookup host l.buckets ≡ none
      → l.one * grants l host cs ≤ l.capacity + (last_reading start cs - start) * l.rate
  grants_bound l start cs f e =
      let bound = grants-budget l start cs f (rw e tt) in unfold budget in (rw e at bound)

-- A refused attempt leaves its tokens, and the units it was told to wait for fill the bucket.
refused_then_filled :
    (cap one t r needed : ℕ)
    → one ≤ cap
    → (if leb one t then acquired else wait (one - t)) ≡ wait needed
    → needed ≤ r
    → leb one (min cap ((if leb one t then t - one else t) + r)) ≡ true
refused_then_filled cap one t r needed h1 e h2 = ground arith

-- A caller that was told to wait and comes back after that long, with no other pass for its host
-- in between, is given its token.
pub wait_is_enough :
    (l : RateLimiter) (host : Text) (first now later now' needed : ℕ)
    → l.one ≤ l.capacity
    → now ≤ now'
    → (pass l host first now).1 ≡ wait needed
    → needed ≤ (now' - now) * l.rate
    → (pass (pass l host first now).0 host later now').1 ≡ acquired
unfolding pass refilled bucket_or_full
wait_is_enough l host first now later now' needed h1 h2 e h3 =
    rw (lookup-insert, eq_self host)
      (rw
        (refused_then_filled l.capacity l.one
          (refilled l (bucket_or_full l first (lookup host l.buckets)) now) ((now' - now) * l.rate)
          needed h1 e h3)
        refl)
