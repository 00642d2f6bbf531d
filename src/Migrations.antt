-- ===== src/Migrations.antt =====
-- backend/alembic: the statements that the migrations issue, the server that they are issued to, and
-- how a chain of revisions is upgraded and downgraded. A migration asks its questions before it issues a
-- statement, so it is a list of statements for the answers.
pub mod Revisions
pub mod Models
pub mod Chain
pub mod Schema
pub mod Upkeep
pub mod Retention
pub mod Undo
use mqtt_projeto_vena.Prelude.{
  ℕ, zero, suc, ◌≡◌, String, List, [], ◌∷◌, ◌++◌, Option, none, some, Bool, true, false, ◌||◌, ◌==◌,
  if◌then◌else◌,
}
use mqtt_projeto_vena.Http.{Result, ok, err, uncaught, database_error, ◌>>=◌}
use mqtt_projeto_vena.Config.{Settings}

pub data SqlType : Type 0 where
  string : (length : ℕ) → SqlType
  text : SqlType
  uuid : SqlType
  datetime : SqlType
  float : SqlType
  big_integer : SqlType
  jsonb : SqlType

-- sa.Column; `now` is server_default=now()
pub record Column : Type 0 where
  pub name : String
  pub type_ : SqlType
  pub nullable : Bool
  pub now : Bool
  pub primary_key : Bool

-- The table constraints; every foreign key is ON DELETE CASCADE.
pub data Constraint : Type 0 where
  primary_key_constraint : List String → Constraint
  unique_constraint : (column : String) → Constraint
  foreign_key_constraint : (column referred_table referred_column : String) → Constraint

-- What the migrations have the server do. An interval is its text.
pub data Statement : Type 0 where
  create_table : (name : String) → List Column → List Constraint → Statement
  drop_table : (name : String) → Statement
  create_extension : (name : String) → Statement
  create_hypertable : (relation column chunk_time_interval : String) → Statement
  add_retention_policy : (relation drop_after : String) → Statement
  create_materialized_view : (name bucket : String) → List (String × String × String) → Statement
  add_continuous_aggregate_policy :
      (relation start_offset end_offset schedule_interval : String) → Statement
  drop_materialized_view : (name : String) → Statement
  create_index : (name table : String) → (columns : List String) → Statement
  drop_index : (name : String) → Statement
  unschedule : (job_name : String) → Statement
  schedule : (job_name cron deleted_from older_than : String) → Statement

abbrev pub timescaledb : String
timescaledb = "timescaledb"

abbrev pub pg_cron : String
pg_cron = "pg_cron"

-- `CREATE EXTENSION IF NOT EXISTS` of this extension
abbrev pub creates : Statement → String → Bool
creates (create_extension name) extension = name == extension
creates _ extension = false

-- PostgreSQL. What is available is the server's installation, what is active is the database's; the
-- table `cron.job` comes with pg_cron.
pub record Postgres : Type 1 where
  pub State : Type 0
  -- SELECT COUNT(*) FROM pg_available_extensions WHERE name = … and FROM pg_extension WHERE extname = …
  pub is_available : String → State → Bool
  pub is_active : String → State → Bool
  pub execute : Statement → State → Result State
  pub execute-available :
      (st : Statement) (s s' : State) (name : String)
      → execute st s ≡ ok s'
      → is_available name s' ≡ is_available name s
  pub execute-active :
      (st : Statement) (s s' : State) (name : String)
      → execute st s ≡ ok s'
      → is_active name s' ≡ (creates st name || is_active name s)
  pub execute-unschedule :
      (name : String) (s : State)
      → is_active pg_cron s ≡ false
      → execute (unschedule name) s ≡ err (uncaught database_error)

-- What a migration asks.
pub record Answers : Type 0 where
  pub timescaledb_available : Bool
  pub timescaledb_active : Bool
  pub pg_cron_available : Bool

-- `settings.database_url_direct or settings.database_url`
unfoldable pub migration_url : Settings → String
migration_url settings =
    if settings.database_url_direct == ""
    then settings.database_url
    else settings.database_url_direct

module _ (pg : Postgres) where
  abbrev pub ask : pg.State → Answers
  ask s = record {
    timescaledb_available = pg.is_available timescaledb s;
    timescaledb_active = pg.is_active timescaledb s;
    pg_cron_available = pg.is_available pg_cron s;
  }

  unfoldable pub execute_all : List Statement → pg.State → Result pg.State
  execute_all [] s = ok s
  execute_all (st ∷ sts) s = do s' ← pg.execute st s; execute_all sts s'

  module _ {Revision : Type 0} where
    -- the upgrades of a chain, and what they issued
    unfoldable pub upgrade_all :
        (upgrade : Revision → Answers → List Statement)
        → List Revision
        → pg.State
        → Result (pg.State × List Statement)
    upgrade_all upgrade [] s = ok (s, [])
    upgrade_all upgrade (r ∷ rs) s = do
      s' ← execute_all (upgrade r (ask s)) s
      (end, log) ← upgrade_all upgrade rs s'
      ok (end, upgrade r (ask s) ++ log)

    unfoldable pub downgrade_all :
        (downgrade : Revision → Result (List Statement))
        → List Revision
        → pg.State
        → Result pg.State
    downgrade_all downgrade [] s = ok s
    downgrade_all downgrade (r ∷ rs) s = do
      statements ← downgrade r
      s' ← execute_all statements s
      downgrade_all downgrade rs s'

  -- `do_run_migrations`: one transaction for all of them, which is rolled back on an exception
  unfoldable pub do_run_migrations : Result pg.State → pg.State → pg.State
  do_run_migrations (ok migrated) before = migrated
  do_run_migrations (err e) before = before
