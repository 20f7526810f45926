-- ===== src/Documents/Processor.antt =====
-- documents/processor.py and the parser of documents/parser_pypdf.py. pypdf is a parameter: the pages
-- of a file, each with its text or the error of its extraction.
use licitaciones_mcp.Base.{
  ℕ, suc, Bool, ◌&&◌, ◌||◌, Option, none, some, List, [], ◌∷◌, ◌++◌, map, length, non_empty,
  if◌then◌else◌, list_eq, nat_eq,
}
use mathlib.Core.List.{reverse}
use licitaciones_mcp.Base.Result.{Result, ok, raised}
use licitaciones_mcp.Base.Text.{Text, codes, strip, join, occurs_in, starts_with, split_on}
use licitaciones_mcp.Base.Unicode.{Unicode}
use licitaciones_mcp.Core.Models.{or_empty}
use licitaciones_mcp.Core.Scoring.{given}
use licitaciones_mcp.Documents.Download.{
  Bytes, Response, Numbers, default_max_bytes, download_document,
}

pub record ParsedDocument : Type 0 where
  pub text : Text
  -- the page and its text
  pub sections : List (ℕ × Text)
  pub parser_name : Text
  pub pages : ℕ

-- `PdfReader(...).pages`, with `extract_text()` of each
abbrev pub PdfReader : Type 0
PdfReader = Bytes → Result Text (List (Result Text (Option Text)))

pub record DocumentParser : Type 0 where
  pub supports : Option Text → Text → Bool
  pub parse : Bytes → Result Text ParsedDocument

-- The text of a page, stripped; empty if the extraction raises.
page_text : Result Text (Option Text) → Text
page_text (ok text) = strip (or_empty text)
page_text (raised e) = []

sections_from : ℕ → List (Result Text (Option Text)) → List (ℕ × Text)
unfolding page_text
sections_from index [] = []
sections_from index (p ∷ ps) =
    let rest = sections_from (suc index) ps in
    if non_empty (page_text p) then (suc index, page_text p) ∷ rest else rest

pdf_document : List (Result Text (Option Text)) → ParsedDocument
unfolding sections_from
pdf_document pages = record {
  text = join (0x0a ∷ 0x0a ∷ []) (map (λ (_, text). text) (sections_from 0 pages));
  sections = sections_from 0 pages;
  parser_name = codes "pypdf";
  pages = length pages;
}

head_part : List Text → Text
head_part [] = []
head_part (p ∷ _) = p

-- `PyPdfParser`
unfoldable pub pypdf_parser : Unicode → PdfReader → DocumentParser
unfolding pdf_document head_part
pypdf_parser U reader = record {
  supports = λ content_type url.
      (given content_type && occurs_in (codes "pdf") (U.lower (or_empty content_type)))
      || starts_with (reverse (head_part (split_on b'?' (U.lower url)))) (reverse (codes ".pdf"));
  parse = λ bytes. elim (reader bytes) [ raised e ↦ raised e | ok pages ↦ ok (pdf_document pages) ];
}

unfoldable pub pick_parser : List DocumentParser → Option Text → Text → Option DocumentParser
pick_parser [] content_type url = none
pick_parser (p ∷ ps) content_type url =
    let rest = pick_parser ps content_type url in
    if p.supports content_type url then some p else rest

parse_with : Option DocumentParser → Bytes → Option ParsedDocument × Option Text
parse_with none bytes = (none, some (codes "no_parser_for_content_type"))
parse_with (some p) bytes = elim (p.parse bytes) [
  | raised e ↦ (none, some (codes "parse_failed: " ++ e))
  | ok parsed ↦ (some parsed, none)
]

-- The parsed document, or the message of the error.
unfoldable pub process_document :
    Numbers
    → (Text → Result Text Response)
    → List DocumentParser
    → Text
    → Option ParsedDocument × Option Text
unfolding parse_with
process_document N stream parsers url = elim (download_document N stream url default_max_bytes) [
  | raised e ↦ (none, some (codes "download_failed: " ++ e))
  | ok d ↦ parse_with (pick_parser parsers d.content_type url) d.content
]
