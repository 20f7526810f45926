-- ===== src/Jobs/Scheduler/Reload.antt =====
-- A reload unschedules the jobs that have been disabled or deleted.
use licitaciones_mcp.Base.{
  ◌≡◌, refl, sym, ◌∙◌, Bool, true, false, ◌&&◌, Option, none, some, List, [], ◌∷◌, any, contains,
  list_eq, nat_eq, ◌==◌, Bool-cases, inl, inr, arith,
}
use licitaciones_mcp.Base.Dict.{
  Dict, keys, lookup, erase, lookup-insert, lookup-erase, contains-keys,
}
use licitaciones_mcp.Base.Text.{Text, text_iff}
use licitaciones_mcp.Jobs.Scheduler.{
  DailyJobRecord, Signature, signature, same_signature, Trigger, Scheduler, Loading, register,
  load_record, load_records, remove_stale, load_jobs,
}

-- Some record of the table asks for the job.
abbrev pub is_enabled : Text → DailyJobRecord → Bool
is_enabled id r = r.enabled && r.id == id

module _ {Cron : Type 0} where
  stays_gone :
      (active : Dict Text Signature) (ids : List Text) (jobs : Dict Text (Trigger Cron)) (id : Text)
      → lookup id jobs ≡ none
      → lookup id (remove_stale active ids jobs) ≡ none
  unfolding remove_stale
  stays_gone active [] jobs id h = h
  stays_gone active (j ∷ ids) jobs id h = elim (Bool-cases (contains (keys active) j)) [
    | inl kept ↦ rw kept (stays_gone active ids jobs id h)
    | inr stale ↦
        rw stale
          (stays_gone active ids (erase j jobs) id (lookup-erase j id jobs ∙ rw h (ground arith)))
  ]

  remove_stale-gone :
      (active : Dict Text Signature) (ids : List Text) (jobs : Dict Text (Trigger Cron)) (id : Text)
      → contains (keys active) id ≡ false
      → contains ids id ≡ true
      → lookup id (remove_stale active ids jobs) ≡ none
  unfolding remove_stale contains
  remove_stale-gone active [] jobs id gone h = absurd (cc)
  remove_stale-gone active (j ∷ ids) jobs id gone h = elim (Bool-cases (id == j)) [
    | inl same ↦
        let path : id ≡ j = (text_iff id j).0 same in
        let stale : contains (keys active) j ≡ false = rw (sym path) gone in
        let test : (j == id) ≡ true = (text_iff j id).1 (sym path) in
        rw stale (stays_gone active ids (erase j jobs) id (lookup-erase j id jobs ∙ rw test refl))
    | inr other ↦
        let later : contains ids id ≡ true = rw other at h in
        elim (Bool-cases (contains (keys active) j)) [
          | inl kept ↦ rw kept (remove_stale-gone active ids jobs id gone later)
          | inr stale ↦ rw stale (remove_stale-gone active ids (erase j jobs) id gone later)
        ]
  ]

module _ {Cron : Type 0} (parse_cron : Text → Option Cron) (known : Dict Text Signature) where
  register-active :
      (id j : Text) (s : Signature) (st : Loading Cron) (t : Option (Trigger Cron))
      → (id == j) ≡ false
      → lookup j (register parse_cron known id s st t).active ≡ lookup j st.active
  unfolding register
  register-active id j s st none h = refl
  register-active id j s st (some t) h = lookup-insert id j s st.active ∙ rw h refl

  load_record-active :
      (r : DailyJobRecord) (st : Loading Cron) (id : Text)
      → is_enabled id r ≡ false
      → lookup id (load_record parse_cron known r st).active ≡ lookup id st.active
  unfolding load_record
  load_record-active r st id h = elim (Bool-cases r.enabled) [
    | inr off ↦ rw off refl
    | inl on ↦
        let other : (r.id == id) ≡ false = rw on at h in
        elim (Bool-cases (same_signature (lookup r.id known) (signature r))) [
          | inl same ↦ rw (on, same) (lookup-insert r.id id (signature r) st.active ∙ rw other refl)
          | inr new ↦ rw (on, new) (register-active r.id id (signature r) st _ other)
        ]
  ]

  load_records-active :
      (rs : List DailyJobRecord) (st : Loading Cron) (id : Text)
      → any (is_enabled id) rs ≡ false
      → lookup id (load_records parse_cron known rs st).active ≡ lookup id st.active
  unfolding load_records any
  load_records-active [] st id h = refl
  load_records-active (r ∷ rs) st id h =
      load_records-active rs (load_record parse_cron known r st) id (ground (arith, h))
      ∙ load_record-active r st id (ground (arith, h))

module _ {Cron : Type 0} (parse_cron : Text → Option Cron) where
  -- A job that the last reload has left known, and that no record of the table enables any more, is
  -- neither scheduled nor known after the next reload.
  pub load_jobs-disabled :
      (records : List DailyJobRecord) (s : Scheduler Cron) (id : Text)
      → contains (keys s.known_signatures) id ≡ true
      → any (is_enabled id) records ≡ false
      → (lookup id (load_jobs parse_cron records s).0.jobs ≡ none)
        × (lookup id (load_jobs parse_cron records s).0.known_signatures ≡ none)
  unfolding load_jobs lookup
  load_jobs-disabled records s id was_known off =
      let gone = load_records-active parse_cron s.known_signatures records _ id off in
      (
        remove_stale-gone _ (keys s.known_signatures) _ id ((contains-keys id _).1 gone) was_known,
        gone,
      )
