-- ===== src/Documents/Download.antt =====
-- `download_document` of documents/downloader.py. A byte is a number; the response of the client is a
-- parameter.
pub mod Cap
use licitaciones_mcp.Base.{
  ℕ, ◌+◌, ◌*◌, Bool, true, false, Option, none, some, List, [], ◌∷◌, ◌++◌, length, if◌then◌else◌,
  ltb,
}
use licitaciones_mcp.Base.Int.{ℤ, pos, lt_ℤ}
use licitaciones_mcp.Base.Result.{Result, ok, raised, ◌>>=◌}
use licitaciones_mcp.Base.Text.{Text, codes}

abbrev pub Bytes : Type 0
Bytes = List ℕ

-- A response that `raise_for_status` lets pass, or the text of what it raises.
pub record Response : Type 0 where
  pub status : Result {0, 0} Text Unit
  pub content_length : Option Text
  pub content_type : Option Text
  pub chunks : List Bytes

pub record DownloadedDocument : Type 0 where
  pub url : Text
  pub content : Bytes
  pub content_type : Option Text

-- What Python makes of a number: `int(text)`, and its text in a message.
pub record Numbers : Type 0 where
  pub int_of : Text → Option ℤ
  pub shown : ℤ → Text

abbrev pub default_max_bytes : ℕ
default_max_bytes = 50 * 1024 * 1024

too_large : Numbers → ℤ → ℕ → Text
too_large N size max_bytes =
    codes "document too large: " ++ N.shown size ++ codes " bytes > " ++ N.shown (pos max_bytes)

-- `declared_size`: there is none without a header, or with one that is no number.
unfoldable pub declared_size : Numbers → Response → Option ℤ
declared_size N r = elim r.content_length [ none ↦ none | some s ↦ N.int_of s ]

abbrev pub exceeds : ℕ → Option ℤ → Bool
exceeds max_bytes none = false
exceeds max_bytes (some size) = lt_ℤ (pos max_bytes) size

abbrev size_or_zero : Option ℤ → ℤ
size_or_zero none = pos 0
size_or_zero (some size) = size

-- The loop over the chunks: `total` bytes are in `content`.
read_chunks : Numbers → ℕ → ℕ → Bytes → List Bytes → Result Text Bytes
unfolding too_large
read_chunks N max_bytes total content [] = ok content
read_chunks N max_bytes total content (chunk ∷ chunks) =
    elim (ltb max_bytes (total + length chunk)) [
      | true ↦ raised (too_large N (pos (total + length chunk)) max_bytes)
      | false ↦ read_chunks N max_bytes (total + length chunk) (content ++ chunk) chunks
    ]

read_response : Numbers → ℕ → Response → Result Text Bytes
unfolding read_chunks declared_size too_large
read_response N max_bytes r =
    if exceeds max_bytes (declared_size N r)
    then raised (too_large N (size_or_zero (declared_size N r)) max_bytes)
    else read_chunks N max_bytes 0 [] r.chunks

unfoldable pub download_document :
    Numbers → (Text → Result Text Response) → Text → ℕ → Result Text DownloadedDocument
unfolding read_response
download_document N stream url max_bytes = stream url >>= (λ r. r.status >>= (λ _.
    read_response N max_bytes r
    >>= (λ content. ok (record { url = url; content = content; content_type = r.content_type }))))
