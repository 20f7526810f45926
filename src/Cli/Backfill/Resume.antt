-- ===== src/Cli/Backfill/Resume.antt =====
-- A backfill can be taken up again: what is done stays done and is not fetched again, and each
-- period of a run ends as done or failed.
use licitaciones_mcp.Base.{
  ℕ, ◌≡◌, refl, sym, ◌∙◌, ◌⊎◌, inl, inr, Bool, true, false, ◌||◌, Option, none, some, List, [], ◌∷◌,
  All, arith, Bool-cases, if◌then◌else◌, ◌==◌, list_eq, nat_eq, eq_self,
}
use licitaciones_mcp.Base.Dict.{lookup, lookup-insert}
use licitaciones_mcp.Base.Result.{ok, raised}
use licitaciones_mcp.Base.Text.{Text, codes}
use licitaciones_mcp.Jobs.Ingest.{World, SourceFetchResult, Effect}
use licitaciones_mcp.Storage.Cursors.{
  IngestCursor, Cursors, cursor_key, get_ingest_cursor, record_ingest_cursor,
}
use licitaciones_mcp.Cli.Backfill.{
  Backfill, Period, cursor_of, is_done, recorded, backfill_period, backfill_periods,
}

module _ (ingest : ℕ → Option ℕ → World → Effect SourceFetchResult) (source kind : Text) where
  abbrev pub cursor_at : Period → Cursors → Option IngestCursor
  cursor_at p cursors = get_ingest_cursor source kind (cursor_of p) cursors

  skipped :
      (p : Period) (b : Backfill)
      → is_done (cursor_at p b.cursors) ≡ true
      → backfill_period ingest source kind p b ≡ b
  unfolding backfill_period
  skipped p b h = rw (backfill_period, h) refl

  attempted :
      (p : Period) (b : Backfill)
      → is_done (cursor_at p b.cursors) ≡ false
      → backfill_period ingest source kind p b
        ≡ recorded ingest source kind (cursor_of p) b.cursors (ingest (p.0) (p.1) b.world)
  unfolding backfill_period
  attempted p b h = rw (backfill_period, h) refl

  -- The cursor is there, as done or as failed.
  abbrev pub has_ended : Option IngestCursor → Bool
  has_ended none = false
  has_ended (some row) = row.status == codes "done" || row.status == codes "failed"

  ended_either :
      (same : Bool) (row : IngestCursor) (before : Option IngestCursor)
      → (row.status == codes "done" || row.status == codes "failed") ≡ true
      → (same ≡ true) ⊎ (has_ended before ≡ true)
      → has_ended (if same then some row else before) ≡ true
  ended_either true row before r h = r
  ended_either false row before r (inl h) = cc
  ended_either false row before r (inr h) = h

  done_text : (codes "done" == codes "done" || codes "done" == codes "failed") ≡ true
  unfolding list_eq
  done_text = refl

  failed_text : (codes "failed" == codes "done" || codes "failed" == codes "failed") ≡ true
  unfolding list_eq
  failed_text = refl

  recorded-has_ended :
      (k : List Text) (p : Period) (cursors : Cursors) (e : Effect SourceFetchResult)
      → ((cursor_key source kind (cursor_of p) == k) ≡ true) ⊎ (has_ended (lookup k cursors) ≡ true)
      → has_ended (lookup k (recorded ingest source kind (cursor_of p) cursors e).cursors) ≡ true
  unfolding recorded record_ingest_cursor
  recorded-has_ended k p cursors (w, ok r) h =
      rw (lookup-insert (cursor_key source kind (cursor_of p)) k _ cursors)
        (ended_either _ _ (lookup k cursors) done_text h)
  recorded-has_ended k p cursors (w, raised e) h =
      rw (lookup-insert (cursor_key source kind (cursor_of p)) k _ cursors)
        (ended_either _ _ (lookup k cursors) failed_text h)

  done-has_ended : (o : Option IngestCursor) → is_done o ≡ true → has_ended o ≡ true
  done-has_ended none h = cc
  done-has_ended (some row) h = ground arith

  -- A turn leaves an ended cursor ended, and its own cursor ends.
  turn-has_ended :
      (k : List Text) (p : Period) (b : Backfill)
      → ((cursor_key source kind (cursor_of p) == k) ≡ true)
        ⊎ (has_ended (lookup k b.cursors) ≡ true)
      → has_ended (lookup k (backfill_period ingest source kind p b).cursors) ≡ true
  unfolding get_ingest_cursor
  turn-has_ended k p b h = elim (Bool-cases (is_done (cursor_at p b.cursors))) [
    | inr fresh ↦
        rw (attempted p b fresh) (recorded-has_ended k p b.cursors (ingest (p.0) (p.1) b.world) h)
    | inl done ↦ rw (skipped p b done) (own h done)
  ]
    where
      own :
          ((cursor_key source kind (cursor_of p) == k) ≡ true)
            ⊎ (has_ended (lookup k b.cursors) ≡ true)
          → is_done (lookup (cursor_key source kind (cursor_of p)) b.cursors) ≡ true
          → has_ended (lookup k b.cursors) ≡ true
      own (inr h) d = h
      own (inl same) d =
          done-has_ended _
            (rw (sym ((list_eq.beq_iff (cursor_key source kind (cursor_of p)) k).0 same)) d)

  backfill-has_ended :
      (k : List Text) (ps : List Period) (b : Backfill)
      → has_ended (lookup k b.cursors) ≡ true
      → has_ended (lookup k (backfill_periods ingest source kind ps b).cursors) ≡ true
  unfolding backfill_periods
  backfill-has_ended k [] b h = h
  backfill-has_ended k (p ∷ ps) b h =
      backfill-has_ended k ps (backfill_period ingest source kind p b)
        (turn-has_ended k p b (inr h))

  -- Each period of the run has ended after it, as done or as failed.
  All-has_ended :
      (ps : List Period) (b : Backfill)
      → All
          (λ p. has_ended (cursor_at p (backfill_periods ingest source kind ps b).cursors) ≡ true)
          ps
  unfolding backfill_periods get_ingest_cursor
  All-has_ended [] b = tt
  All-has_ended (p ∷ ps) b = (
    backfill-has_ended (cursor_key source kind (cursor_of p)) ps
        (backfill_period ingest source kind p b)
        (turn-has_ended (cursor_key source kind (cursor_of p)) p b
          (inl (eq_self (cursor_key source kind (cursor_of p))))),
    All-has_ended ps (backfill_period ingest source kind p b),
  )

  -- A cursor that is done stays as it is.
  recorded-other :
      (k : List Text) (p : Period) (cursors : Cursors) (e : Effect SourceFetchResult)
      → (cursor_key source kind (cursor_of p) == k) ≡ false
      → lookup k (recorded ingest source kind (cursor_of p) cursors e).cursors ≡ lookup k cursors
  unfolding recorded record_ingest_cursor
  recorded-other k p cursors (w, ok r) h =
      rw (lookup-insert (cursor_key source kind (cursor_of p)) k _ cursors, h) refl
  recorded-other k p cursors (w, raised e) h =
      rw (lookup-insert (cursor_key source kind (cursor_of p)) k _ cursors, h) refl

  turn_keeps_done :
      (k : List Text) (p : Period) (b : Backfill)
      → is_done (lookup k b.cursors) ≡ true
      → lookup k (backfill_period ingest source kind p b).cursors ≡ lookup k b.cursors
  unfolding get_ingest_cursor
  turn_keeps_done k p b h = elim (Bool-cases (cursor_key source kind (cursor_of p) == k)) [
    | inl same ↦
        rw (skipped p b (rw ((list_eq.beq_iff (cursor_key source kind (cursor_of p)) k).0 same) h))
          refl
    | inr other ↦ elim (Bool-cases (is_done (cursor_at p b.cursors))) [
      | inl done ↦ rw (skipped p b done) refl
      | inr fresh ↦
          rw (attempted p b fresh) (recorded-other k p b.cursors (ingest (p.0) (p.1) b.world) other)
    ]
  ]

  backfill_keeps_done :
      (k : List Text) (ps : List Period) (b : Backfill)
      → is_done (lookup k b.cursors) ≡ true
      → lookup k (backfill_periods ingest source kind ps b).cursors ≡ lookup k b.cursors
  unfolding backfill_periods
  backfill_keeps_done k [] b h = refl
  backfill_keeps_done k (p ∷ ps) b h =
      let kept = turn_keeps_done k p b h in
      backfill_keeps_done k ps (backfill_period ingest source kind p b) (rw kept h) ∙ kept

  nothing_to_do :
      (ps : List Period) (b : Backfill)
      → All (λ p. is_done (cursor_at p b.cursors) ≡ true) ps
      → backfill_periods ingest source kind ps b ≡ b
  unfolding backfill_periods
  nothing_to_do [] b h = refl
  nothing_to_do (p ∷ ps) b h = rw (skipped p b h.0) (nothing_to_do ps b h.1)

  -- After a backfill, whatever the ingest of the periods does, each period has ended, as done or as
  -- failed; a cursor that was done is as it was; and where the periods were done before, nothing at
  -- all has changed, so that no period is fetched again.
  pub backfill_periods_resume :
      (ps : List Period) (b : Backfill)
      → let after = backfill_periods ingest source kind ps b in
        All (λ p. has_ended (cursor_at p after.cursors) ≡ true) ps
        × ((k : List Text)
            → is_done (lookup k b.cursors) ≡ true
            → lookup k after.cursors ≡ lookup k b.cursors)
        × (All (λ p. is_done (cursor_at p b.cursors) ≡ true) ps → after ≡ b)
  backfill_periods_resume ps b =
      (All-has_ended ps b, λ k h. backfill_keeps_done k ps b h, λ h. nothing_to_do ps b h)
