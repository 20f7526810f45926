-- ===== src/Sources/Period/Valid.antt =====
-- The periods that have a URL.
use licitaciones_mcp.Base.{
  ℕ, ◌≡◌, refl, ◌≤◌, ◌↔◌, ◌++◌, Option, none, some, ltb, leb, arith, if◌then◌else◌, Bool-cases, inl,
  inr,
}
use licitaciones_mcp.Base.Result.{Result, ok, raised}
use licitaciones_mcp.Base.Text.{Text}
use licitaciones_mcp.Sources.Period.{
  PlacspDatasetKind, PlacspDataset, PeriodError, dataset_of, is_monthly, month_period, period_of,
  url_of, build_placsp_period_url, str, two_digits,
}

-- A month that a data set takes: any where it is yearly, 1 to 12 where it is monthly.
abbrev pub IsMonth : Option ℕ → Type 0
IsMonth none = ⊥
IsMonth (some month) = (1 ≤ month) × (month ≤ 12)

pub record IsPeriod (d : PlacspDataset) (year : ℕ) (month : Option ℕ) : Type 0 where
  pub started : d.start_year ≤ year
  pub monthly : (from : ℕ) → d.monthly_from_year ≡ some from → from ≤ year → IsMonth month

month_period_iff :
    (kind : PlacspDatasetKind) (year : ℕ) (month : Option ℕ)
    → ((p : Text) × (month_period kind year month ≡ ok p)) ↔ IsMonth month
unfolding month_period
month_period_iff kind year none = (λ (p, e). absurd (cc), λ h. absurd h)
month_period_iff kind year (some month) =
    (λ (p, e). ground (arith, e), λ h. (str year ++ two_digits month, ground (arith, h)))

Returns : Result PeriodError Text → Type 0
Returns r = (t : Text) × (r ≡ ok t)

raised_never : (e : PeriodError) → Returns (raised e) → ⊥
unfolding Returns
raised_never e (t, h) = absurd (cc)

monthly_cases :
    (d : PlacspDataset) (year : ℕ) (month : Option ℕ) (monthly_from : Option ℕ)
    → Returns
        (if is_monthly monthly_from year then month_period d.kind year month else ok (str year))
      ↔ ((from : ℕ) → monthly_from ≡ some from → from ≤ year → IsMonth month)
unfolding Returns is_monthly
monthly_cases d year month none = (λ h from e k. absurd (cc), λ h. (str year, refl))
monthly_cases d year month (some first) = elim (Bool-cases (leb first year)) [
  | inl m ↦ (
    λ h from e k. (month_period_iff d.kind year month).0 (rw m at h),
    λ h. rw m ((month_period_iff d.kind year month).1 (h first refl (ground arith))),
  )
  | inr m ↦ (λ h from e k. absurd (ground (arith, m, k, e)), λ h. rw m (str year, refl))
]

period_of_iff :
    (d : PlacspDataset) (year : ℕ) (month : Option ℕ)
    → Returns (period_of d year month) ↔ IsPeriod d year month
unfolding period_of
period_of_iff d year month = elim (Bool-cases (ltb year d.start_year)) [
  | inl e ↦ (
    λ h. absurd (raised_never _ (rw e at h)),
    λ p. absurd (let k = p.started in ground (arith, e, k)),
  )
  | inr e ↦ (
    λ h. record {
      started = ground (arith, e);
      monthly = (monthly_cases d year month d.monthly_from_year).0 (rw e at h);
    },
    λ p. rw e ((monthly_cases d year month d.monthly_from_year).1 p.monthly),
  )
]

with_url : PlacspDataset → Result PeriodError Text → Result PeriodError Text
unfolding url_of
with_url d r = elim r [ ok period ↦ ok (url_of d period) | raised e ↦ raised e ]

with_url-Returns :
    (d : PlacspDataset) (r : Result PeriodError Text) → Returns (with_url d r) ↔ Returns r
unfolding Returns with_url
with_url-Returns d (ok period) = (λ h. (period, refl), λ h. (url_of d period, refl))
with_url-Returns d (raised e) = (λ h. absurd (let k = h.1 in cc), λ h. absurd (let k = h.1 in cc))

-- `build_placsp_period_url` returns a URL exactly for the periods that the data set has: from its
-- first year on, with a month of 1 to 12 from the year on in which it is monthly.
pub build_placsp_period_url_iff :
    (kind : PlacspDatasetKind) (year : ℕ) (month : Option ℕ)
    → ((url : Text) × (build_placsp_period_url kind year month ≡ ok url))
      ↔ IsPeriod (dataset_of kind) year month
unfolding build_placsp_period_url Returns with_url
build_placsp_period_url_iff kind year month =
    let d = dataset_of kind in
    let period = period_of d year month in
    (
      λ h. (period_of_iff d year month).0 ((with_url-Returns d period).0 h),
      λ p. (with_url-Returns d period).1 ((period_of_iff d year month).1 p),
    )
