-- ===== src/Core/Models.antt =====
-- core/models.py: the tender, the filters, the runs and the results, as records. An amount of money
-- is a number of hundredths; a score, a number of millionths.
use licitaciones_mcp.Base.{
  ℕ, Bool, false, Option, none, some, List, [], ◌∷◌, ◌++◌, Eq, eq_of_dec, non_empty, keep, ◌≤◌,
}
use licitaciones_mcp.Base.Dict.{Dict}
use licitaciones_mcp.Base.Int.{ℤ}
use licitaciones_mcp.Base.Text.{Text, codes, join, blank, strip}
use licitaciones_mcp.Core.Json.{Json, Fields}

abbrev pub max_tender_search_limit : ℕ
max_tender_search_limit = 500

abbrev pub max_tender_search_offset : ℕ
max_tender_search_offset = 1000

pub data TenderSource : Type 0 where
  placsp ted : TenderSource

pub data TenderStatus : Type 0 where
  planned open_ closed awarded cancelled unknown : TenderStatus

pub data TenderQualitySeverity : Type 0 where
  warning error : TenderQualitySeverity

unfoldable pub TenderSource-discrete : Discrete TenderSource
TenderSource-discrete = hlevel

unfoldable pub TenderStatus-discrete : Discrete TenderStatus
TenderStatus-discrete = hlevel

instance abbrev pub source_eq : Eq TenderSource
source_eq = eq_of_dec TenderSource-discrete

instance abbrev pub status_eq : Eq TenderStatus
status_eq = eq_of_dec TenderStatus-discrete

-- `source.value` and `status.value`
unfoldable pub source_value : TenderSource → Text
source_value placsp = codes "placsp"
source_value ted = codes "ted"

unfoldable pub status_value : TenderStatus → Text
status_value planned = codes "planned"
status_value open_ = codes "open"
status_value closed = codes "closed"
status_value awarded = codes "awarded"
status_value cancelled = codes "cancelled"
status_value unknown = codes "unknown"

-- An aware `datetime`: microseconds since `datetime.min` in UTC, and the number of the day that
-- `.date()` gives in its own zone.
pub record DateTime : Type 0 where
  pub instant : ℕ
  pub date : ℕ

abbrev pub datetime_min : DateTime
datetime_min = record { instant = 0; date = 0 }

pub record TenderQualityIssue : Type 0 where
  pub code : Text
  pub severity : TenderQualitySeverity
  pub message : Text
  pub field : Option Text

pub record TenderDocument : Type 0 where
  pub url : Text
  pub title : Option Text
  pub document_type : Option Text
  pub published_at : Option DateTime
  pub metadata : Fields

pub record Tender : Type 0 where
  pub id : Option Text
  pub source : TenderSource
  pub external_id : Text
  pub title : Text
  pub summary : Option Text
  pub buyer_name : Option Text
  pub buyer_tax_id : Option Text
  pub status : TenderStatus
  pub cpv_codes : List Text
  pub nuts_codes : List Text
  pub region : Option Text
  pub country : Text
  pub procedure_type : Option Text
  pub contract_type : Option Text
  pub notice_type : Option Text
  pub estimated_value : Option ℤ
  pub award_value : Option ℤ
  pub currency : Option Text
  pub published_at : Option DateTime
  pub deadline_at : Option DateTime
  pub awarded_at : Option DateTime
  pub winner_name : Option Text
  pub winner_tax_id : Option Text
  pub url : Option Text
  pub documents : List TenderDocument
  pub raw : Json
  -- each value as `str` shows it
  pub source_metadata : Dict Text Text
  pub quality_issues : List TenderQualityIssue
  pub dedupe_key : Option Text

-- The tender that has the required fields and the defaults.
abbrev pub bare_tender : TenderSource → Text → Text → Tender
bare_tender source external_id title = record {
  id = none;
  source = source;
  external_id = external_id;
  title = title;
  summary = none;
  buyer_name = none;
  buyer_tax_id = none;
  status = unknown;
  cpv_codes = [];
  nuts_codes = [];
  region = none;
  country = codes "ES";
  procedure_type = none;
  contract_type = none;
  notice_type = none;
  estimated_value = none;
  award_value = none;
  currency = some (codes "EUR");
  published_at = none;
  deadline_at = none;
  awarded_at = none;
  winner_name = none;
  winner_tax_id = none;
  url = none;
  documents = [];
  raw = Json.object (Fields.end);
  source_metadata = [];
  quality_issues = [];
  dedupe_key = none;
}

pub data OrderBy : Type 0 where
  by_score by_published_at by_deadline_at by_estimated_value : OrderBy

pub data Order : Type 0 where
  asc desc : Order

pub data QueryMode : Type 0 where
  keyword semantic hybrid : QueryMode

pub record TenderFilters : Type 0 where
  pub text : Option Text
  pub cpv_codes : List Text
  pub cpv_prefixes : List Text
  pub nuts_codes : List Text
  pub regions : List Text
  pub buyer : Option Text
  pub buyer_names : List Text
  pub statuses : List TenderStatus
  pub sources : List TenderSource
  pub procedure_types : List Text
  pub contract_types : List Text
  pub notice_types : List Text
  pub dataset_kinds : List Text
  -- dates by the number of their day
  pub published_from : Option ℕ
  pub published_to : Option ℕ
  pub deadline_from : Option ℕ
  pub deadline_to : Option ℕ
  pub min_value : Option ℤ
  pub max_value : Option ℤ
  pub only_open : Bool
  pub limit : ℕ
  pub offset : ℕ
  pub order_by : OrderBy
  pub order : Order
  pub query_mode : QueryMode
  pub country : Option Text

-- `TenderFilters()`
abbrev pub default_filters : TenderFilters
default_filters = record {
  text = none;
  cpv_codes = [];
  cpv_prefixes = [];
  nuts_codes = [];
  regions = [];
  buyer = none;
  buyer_names = [];
  statuses = [];
  sources = [];
  procedure_types = [];
  contract_types = [];
  notice_types = [];
  dataset_kinds = [];
  published_from = none;
  published_to = none;
  deadline_from = none;
  deadline_to = none;
  min_value = none;
  max_value = none;
  only_open = false;
  limit = 20;
  offset = 0;
  order_by = by_score;
  order = desc;
  query_mode = keyword;
  country = none;
}

-- The bounds of the two `Field`s, which pydantic enforces on every value of the class.
pub record IsBounded (f : TenderFilters) : Type 0 where
  pub limit_low : 1 ≤ f.limit
  pub limit_high : f.limit ≤ max_tender_search_limit
  pub offset_high : f.offset ≤ max_tender_search_offset

pub record TenderSearchResult : Type 0 where
  pub tender : Tender
  pub score : ℕ
  pub reasons : List Text

-- `self.source_id`
unfoldable pub source_id : Tender → Text
unfolding source_value
source_id t = source_value t.source ++ (codes ":" ++ t.external_id)

-- `value or ""`
abbrev pub or_empty : Option Text → Text
or_empty none = []
or_empty (some s) = s

unfoldable pub searchable_text : Tender → Text
searchable_text t = strip (
    join blank (
      keep non_empty (
        t.title
        ∷ or_empty t.summary
        ∷ or_empty t.buyer_name
        ∷ or_empty t.buyer_tax_id
        ∷ or_empty t.winner_name
        ∷ or_empty t.region
        ∷ or_empty t.procedure_type
        ∷ or_empty t.contract_type
        ∷ or_empty t.notice_type
        ∷ join blank t.cpv_codes
        ∷ join blank t.nuts_codes
        ∷ [])))

pub data JobRunStatus : Type 0 where
  started succeeded failed : JobRunStatus

pub data SourceFetchRunStatus : Type 0 where
  running succeeded failed : SourceFetchRunStatus

pub record DailyJob : Type 0 where
  pub id : Option Text
  pub name : Text
  pub filters : TenderFilters
  pub hour_utc : ℕ
  pub cron : Option Text
  pub enabled : Bool
