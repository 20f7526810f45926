-- ===== src/Sources/Period.antt =====
-- `build_placsp_period_url` of sources/placsp.py, with the table of the data sets. A template is its
-- text before `{period}`; after it, each has `.zip`.
pub mod Valid
use licitaciones_mcp.Base.{
  ℕ, zero, suc, ◌+◌, ◌/◌, ◌%◌, ◌≡◌, Bool, true, false, not, ◌&&◌, ◌||◌, Option, none, some, List,
  [], ◌∷◌, ◌++◌, if◌then◌else◌, ltb, leb,
}
use licitaciones_mcp.Base.Result.{Result, ok, raised}
use licitaciones_mcp.Base.Text.{Text, codes}

pub data PlacspDatasetKind : Type 0 where
  licitaciones agregacion menores encargos consultas : PlacspDatasetKind

unfoldable pub kind_value : PlacspDatasetKind → Text
kind_value licitaciones = codes "licitaciones"
kind_value agregacion = codes "agregacion"
kind_value menores = codes "menores"
kind_value encargos = codes "encargos"
kind_value consultas = codes "consultas"

pub record PlacspDataset : Type 0 where
  pub kind : PlacspDatasetKind
  pub syndication_path : Text
  pub filename_template : Text
  pub start_year : ℕ
  pub monthly_from_year : Option ℕ

unfoldable pub dataset_of : PlacspDatasetKind → PlacspDataset
dataset_of licitaciones = record {
  kind = licitaciones;
  syndication_path = codes "sindicacion/sindicacion_643";
  filename_template = codes "licitacionesPerfilesContratanteCompleto3_";
  start_year = 2012;
  monthly_from_year = some 2025;
}
dataset_of agregacion = record {
  kind = agregacion;
  syndication_path = codes "sindicacion/sindicacion_1044";
  filename_template = codes "PlataformasAgregadasSinMenores_";
  start_year = 2016;
  monthly_from_year = some 2025;
}
dataset_of menores = record {
  kind = menores;
  syndication_path = codes "sindicacion/sindicacion_1143";
  filename_template = codes "contratosMenoresPerfilesContratantes_";
  start_year = 2018;
  monthly_from_year = some 2025;
}
dataset_of encargos = record {
  kind = encargos;
  syndication_path = codes "sindicacion/sindicacion_1383";
  filename_template = codes "EMP_SectorPublico_";
  start_year = 2022;
  monthly_from_year = none;
}
dataset_of consultas = record {
  kind = consultas;
  syndication_path = codes "sindicacion/sindicacion_1403";
  filename_template = codes "CPM_SectorPublico_";
  start_year = 2022;
  monthly_from_year = none;
}

-- The `ValueError`s.
pub data PeriodError : Type 0 where
  before_start : PlacspDatasetKind → ℕ → PeriodError
  month_missing : PlacspDatasetKind → ℕ → PeriodError
  month_out_of_range : PeriodError

-- `str(n)`; the fuel `n` is enough, since each step divides by ten.
digits_from : ℕ → ℕ → Text
digits_from zero n = (48 + n % 10) ∷ []
digits_from (suc fuel) n =
    let rest = digits_from fuel (n / 10) in
    if ltb n 10 then (48 + n) ∷ [] else rest ++ (48 + n % 10) ∷ []

unfoldable pub str : ℕ → Text
unfolding digits_from
str n = digits_from n n

-- `f"{month:02d}"`
unfoldable pub two_digits : ℕ → Text
unfolding str
two_digits n = if ltb n 10 then b'0' ∷ str n else str n

-- The message of the `ValueError`.
unfoldable pub error_text : PeriodError → Text
unfolding str kind_value
error_text (before_start kind year) = kind_value kind ++ codes " starts in " ++ str year
error_text (month_missing kind year) = kind_value kind ++ codes " requires month for " ++ str year
error_text month_out_of_range = codes "month must be between 1 and 12"

is_monthly : Option ℕ → ℕ → Bool
is_monthly none year = false
is_monthly (some from) year = leb from year

month_period : PlacspDatasetKind → ℕ → Option ℕ → Result PeriodError Text
unfolding two_digits
month_period kind year none = raised (month_missing kind year)
month_period kind year (some month) =
    if ltb month 1 || ltb 12 month
    then raised month_out_of_range
    else ok (str year ++ two_digits month)

url_of : PlacspDataset → Text → Text
url_of d period =
    codes "https://contrataciondelsectorpublico.gob.es/"
    ++ d.syndication_path
    ++ codes "/"
    ++ d.filename_template
    ++ period
    ++ codes ".zip"

period_of : PlacspDataset → ℕ → Option ℕ → Result PeriodError Text
unfolding is_monthly month_period
period_of d year month =
    if ltb year d.start_year
    then raised (before_start d.kind d.start_year)
    else if is_monthly d.monthly_from_year year
    then month_period d.kind year month
    else ok (str year)

unfoldable pub build_placsp_period_url : PlacspDatasetKind → ℕ → Option ℕ → Result PeriodError Text
unfolding period_of url_of dataset_of
build_placsp_period_url kind year month = elim (period_of (dataset_of kind) year month) [
  | ok period ↦ ok (url_of (dataset_of kind) period)
  | raised e ↦ raised e
]
