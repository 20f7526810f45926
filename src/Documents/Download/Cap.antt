-- ===== src/Documents/Download/Cap.antt =====
-- The cap on the size of a download.
use licitaciones_mcp.Base.{
  ℕ, ◌+◌, ◌≤◌, ◌<◌, ◌≡◌, refl, ap, sym, ◌∙◌, ◌⊎◌, inl, inr, true, false, List, [], ◌∷◌, ◌++◌,
  length, length-append, append-nil, append_assoc, ltb, Bool-cases, arith,
}
use licitaciones_mcp.Base.Result.{Result, ok, raised}
use licitaciones_mcp.Base.Text.{Text}
use licitaciones_mcp.Documents.Download.{
  Bytes, Response, Numbers, exceeds, declared_size, read_chunks, read_response, download_document,
}

-- `b"".join(chunks)`
abbrev pub joined : List Bytes → Bytes
joined [] = []
joined (c ∷ cs) = c ++ joined cs

module _ (N : Numbers) (max_bytes : ℕ) where
  chunk_fits :
      (total n m whole : ℕ)
      → whole ≡ n + m
      → total + whole ≤ max_bytes
      → (ltb max_bytes (total + n) ≡ false) × (total + n + m ≤ max_bytes)
  chunk_fits total n m whole e h = (ground arith, omega (arith, e, h))

  fits :
      (total : ℕ) (content : Bytes) (chunks : List Bytes)
      → total + length (joined chunks) ≤ max_bytes
      → read_chunks N max_bytes total content chunks ≡ ok (content ++ joined chunks)
  unfolding read_chunks
  fits total content [] h = ap ok (sym (append-nil content))
  fits total content (c ∷ cs) h =
      let (small, rest) =
        chunk_fits total (length c) (length (joined cs)) (length (c ++ joined cs))
          (length-append c (joined cs)) h in
      rw (read_chunks, small) (fits (total + length c) (content ++ c) cs rest)
      ∙ ap ok (append_assoc content c (joined cs))

  overflows :
      (total : ℕ) (content : Bytes) (chunks : List Bytes)
      → total ≤ max_bytes
      → max_bytes < total + length (joined chunks)
      → (e : Text) × (read_chunks N max_bytes total content chunks ≡ raised e)
  unfolding read_chunks
  overflows total content [] l h = absurd (omega arith)
  overflows total content (c ∷ cs) l h = elim (Bool-cases (ltb max_bytes (total + length c))) [
    | inl over ↦ rw (read_chunks, over) (_, refl)
    | inr small ↦
        rw (read_chunks, small)
          (overflows (total + length c) (content ++ c) cs (ground arith)
            (omega (arith, h, length-append c (joined cs))))
  ]

  -- A response that the client gives, with a status that is let pass, is downloaded exactly if
  -- neither the declared size nor the bytes that arrive exceed the cap: then the content is all of
  -- its chunks, and else the download raises.
  pub download_document_lem :
      (stream : Text → Result Text Response) (url : Text) (r : Response)
      → stream url ≡ ok r
      → r.status ≡ ok tt
      → ((exceeds max_bytes (declared_size N r) ≡ false) × (length (joined r.chunks) ≤ max_bytes)
          → download_document N stream url max_bytes
            ≡ ok (record { url = url; content = joined r.chunks; content_type = r.content_type }))
        × ((exceeds max_bytes (declared_size N r) ≡ true) ⊎ (max_bytes < length (joined r.chunks))
            → (e : Text) × (download_document N stream url max_bytes ≡ raised e))
  unfolding download_document read_response
  download_document_lem stream url r given_by passes = (
    λ (small, h). rw (given_by, passes, small, fits 0 [] r.chunks (omega (arith, h))) refl,
    λ h. elim (Bool-cases (exceeds max_bytes (declared_size N r))) [
      | inl large ↦ rw (given_by, passes, large) (_, refl)
      | inr small ↦
          let (e, over) = overflows 0 [] r.chunks (omega arith) (too_long h small) in
          rw (given_by, passes, small, over) (e, refl)
    ],
  )
    where
      too_long :
          (exceeds max_bytes (declared_size N r) ≡ true) ⊎ (max_bytes < length (joined r.chunks))
          → exceeds max_bytes (declared_size N r) ≡ false
          → max_bytes < 0 + length (joined r.chunks)
      too_long (inl large) small = absurd (cc)
      too_long (inr h) small = omega (arith, h)
