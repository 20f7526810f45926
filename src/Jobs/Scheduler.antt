-- ===== src/Jobs/Scheduler.antt =====
-- `TenderScheduler._load_jobs` of jobs/scheduler.py: the jobs that are registered with APScheduler,
-- by the signatures that the last reload has left. A cron text is read by APScheduler, which is the
-- parameter `parse_cron`: `none` where `CronTrigger.from_crontab` raises.
pub mod Reload
use licitaciones_mcp.Base.{
  ℕ, Bool, false, not, ◌&&◌, Option, none, some, List, [], ◌∷◌, if◌then◌else◌, contains, list_eq,
  nat_eq, option_eq, ◌==◌, eqb, length,
}
use licitaciones_mcp.Base.Dict.{Dict, keys, lookup, insert, erase}
use licitaciones_mcp.Base.Text.{Text}
use licitaciones_mcp.Core.Models.{or_empty}
use licitaciones_mcp.Core.Scoring.{given}

pub record DailyJobRecord : Type 0 where
  pub id : Text
  pub enabled : Bool
  pub cron : Option Text
  pub hour_utc : ℕ

-- `(record.cron, record.hour_utc, record.enabled)`; a job is only looked at while it is enabled.
pub record Signature : Type 0 where
  pub cron : Option Text
  pub hour_utc : ℕ

abbrev pub signature : DailyJobRecord → Signature
signature r = record { cron = r.cron; hour_utc = r.hour_utc }

same_signature : Option Signature → Signature → Bool
same_signature none s = false
same_signature (some k) s = k.cron == s.cron && eqb k.hour_utc s.hour_utc

pub data Trigger {ℓ} (Cron : Type ℓ) : Type ℓ where
  by_cron : Cron → Trigger Cron
  at_hour : ℕ → Trigger Cron

module _ {Cron : Type 0} (parse_cron : Text → Option Cron) where
  unfoldable pub trigger_for : Signature → Option (Trigger Cron)
  trigger_for s =
      if given s.cron
      then elim (parse_cron (or_empty s.cron)) [ none ↦ none | some c ↦ some (by_cron c) ]
      else some (at_hour s.hour_utc)

-- `_known_signatures`, and the jobs of the APScheduler instance.
pub record Scheduler (Cron : Type 0) : Type 0 where
  pub known_signatures : Dict Text Signature
  pub jobs : Dict Text (Trigger Cron)

-- The state of the loop over the records.
pub record Loading (Cron : Type 0) : Type 0 where
  pub active : Dict Text Signature
  pub jobs : Dict Text (Trigger Cron)

module _ {Cron : Type 0} (parse_cron : Text → Option Cron) (known : Dict Text Signature) where
  -- The `try` block: a new or changed job replaces the old one, and an invalid one is skipped.
  register : Text → Signature → Loading Cron → Option (Trigger Cron) → Loading Cron
  register id s st none = st
  register id s st (some trigger) = record {
    active = insert id s st.active;
    jobs = insert id trigger (erase id st.jobs);
  }

  load_record : DailyJobRecord → Loading Cron → Loading Cron
  unfolding register same_signature
  load_record r st =
      if not r.enabled
      then st
      else if same_signature (lookup r.id known) (signature r)
      then record st { active = insert r.id (signature r) st.active }
      else register r.id (signature r) st (trigger_for parse_cron (signature r))

  load_records : List DailyJobRecord → Loading Cron → Loading Cron
  unfolding load_record
  load_records [] st = st
  load_records (r ∷ rs) st = load_records rs (load_record r st)

module _ {Cron : Type 0} where
  -- The jobs that disappeared or got disabled.
  remove_stale :
      Dict Text Signature → List Text → Dict Text (Trigger Cron) → Dict Text (Trigger Cron)
  remove_stale active [] jobs = jobs
  remove_stale active (id ∷ ids) jobs =
      remove_stale active ids (if contains (keys active) id then jobs else erase id jobs)

module _ {Cron : Type 0} (parse_cron : Text → Option Cron) where
  -- The new state, and the number of active jobs.
  unfoldable pub load_jobs : List DailyJobRecord → Scheduler Cron → Scheduler Cron × ℕ
  unfolding load_records remove_stale
  load_jobs records s =
      let loaded =
        load_records parse_cron s.known_signatures records
          (record { active = []; jobs = s.jobs }) in
      (
        record {
          known_signatures = loaded.active;
          jobs = remove_stale loaded.active (keys s.known_signatures) loaded.jobs;
        },
        length loaded.active,
      )
