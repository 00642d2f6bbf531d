-- ===== src/Migrations/Revisions.antt =====
-- backend/alembic/versions: what each revision issues, for the answers that it gets. (The warnings that
-- are logged are left out.)
use mqtt_projeto_vena.Prelude.{
  ℕ, zero, suc, String, List, [], ◌∷◌, Option, none, some, Bool, true, false, if◌then◌else◌,
}
use mqtt_projeto_vena.Http.{Result, ok, err, uncaught, not_implemented_error}
use mqtt_projeto_vena.Migrations.{
  SqlType, string, text, uuid, datetime, float, big_integer, jsonb, Column, primary_key_constraint,
  unique_constraint, foreign_key_constraint, Statement, create_table, drop_table, create_extension,
  create_hypertable, add_retention_policy, create_materialized_view,
  add_continuous_aggregate_policy, drop_materialized_view, create_index, drop_index, unschedule,
  schedule, timescaledb, pg_cron, Answers,
}

-- The revisions, named as their files: 7ce464b91137, 5421ecc75138, a1, a2, a3, e734d2061ada, b1, b2, c1.
pub data Revision : Type 0 where
  descricao : Revision
  add_telemetry_raw : Revision
  convert_hypertable : Revision
  create_telemetry_hourly : Revision
  create_telemetry_daily : Revision
  add_refresh_tokens : Revision
  supabase_index : Revision
  pg_cron_cleanup : Revision
  device_meta : Revision

unfoldable pub down_revision : Revision → Option Revision
down_revision descricao = none
down_revision add_telemetry_raw = some descricao
down_revision convert_hypertable = some add_telemetry_raw
down_revision create_telemetry_hourly = some convert_hypertable
down_revision create_telemetry_daily = some create_telemetry_hourly
down_revision add_refresh_tokens = some create_telemetry_daily
down_revision supabase_index = some add_refresh_tokens
down_revision pg_cron_cleanup = some supabase_index
down_revision device_meta = some pg_cron_cleanup

-- the revisions up to this one, the oldest first
unfoldable pub lineage : (fuel : ℕ) → Option Revision → (later : List Revision) → List Revision
lineage zero r later = later
lineage (suc fuel) none later = later
lineage (suc fuel) (some r) later = lineage fuel (down_revision r) (r ∷ later)

abbrev pub head : Revision
head = device_meta

-- There are nine revisions, so nine steps reach the first one.
unfoldable pub revisions : List Revision
unfolding lineage
revisions = lineage 9 (some head) []

-- sa.Column(…, nullable=…), and with server_default=now()
abbrev pub sa_column : String → SqlType → (nullable : Bool) → Column
sa_column name type_ nullable = record {
  name = name;
  type_ = type_;
  nullable = nullable;
  now = false;
  primary_key = false;
}

abbrev pub column_now : String → Column
column_now name = record (sa_column name datetime false) { now = true }

unfoldable pub create_devices : Statement
create_devices =
    create_table "devices"
      (sa_column "id" (string 32) false
        ∷ sa_column "pairing_code_hash" text false
        ∷ sa_column "fw_version" text true
        ∷ sa_column "capabilities" jsonb true
        ∷ sa_column "first_seen_at" datetime true
        ∷ sa_column "last_seen_at" datetime true
        ∷ sa_column "status" (string 20) false
        ∷ [])
      (primary_key_constraint ("id" ∷ []) ∷ [])

unfoldable pub create_users : Statement
create_users =
    create_table "users"
      (sa_column "id" uuid false
        ∷ sa_column "google_sub" text false
        ∷ sa_column "email" text false
        ∷ column_now "created_at"
        ∷ [])
      (primary_key_constraint ("id" ∷ []) ∷ unique_constraint "google_sub" ∷ [])

unfoldable pub create_user_devices : Statement
create_user_devices =
    create_table "user_devices"
      (sa_column "user_id" uuid false
        ∷ sa_column "device_id" (string 32) false
        ∷ sa_column "alias" text true
        ∷ column_now "claimed_at"
        ∷ [])
      (foreign_key_constraint "device_id" "devices" "id"
        ∷ foreign_key_constraint "user_id" "users" "id"
        ∷ primary_key_constraint ("user_id" ∷ "device_id" ∷ [])
        ∷ [])

unfoldable pub create_telemetry_raw : Statement
create_telemetry_raw =
    create_table "telemetry_raw"
      (sa_column "device_id" (string 32) false
        ∷ sa_column "ts" datetime false
        ∷ sa_column "ambient_t" float true
        ∷ sa_column "ambient_h" float true
        ∷ sa_column "diss_t" float true
        ∷ sa_column "diss_h" float true
        ∷ sa_column "setpoint" float true
        ∷ sa_column "pid_out" float true
        ∷ sa_column "uptime_ms" big_integer true
        ∷ sa_column "seq" big_integer true
        ∷ [])
      (foreign_key_constraint "device_id" "devices" "id"
        ∷ primary_key_constraint ("device_id" ∷ "ts" ∷ [])
        ∷ [])

unfoldable pub create_refresh_tokens : Statement
create_refresh_tokens =
    create_table "refresh_tokens"
      (sa_column "id" uuid false
        ∷ sa_column "user_id" uuid false
        ∷ sa_column "token_hash" text false
        ∷ sa_column "expires_at" datetime false
        ∷ sa_column "revoked_at" datetime true
        ∷ column_now "created_at"
        ∷ [])
      (foreign_key_constraint "user_id" "users" "id" ∷ primary_key_constraint ("id" ∷ []) ∷ [])

-- a primary key column is NOT NULL without saying so
unfoldable pub create_device_meta : Statement
create_device_meta =
    create_table "device_meta"
      (record (sa_column "device_id" (string 32) false) { primary_key = true }
        ∷ sa_column "payload" jsonb false
        ∷ column_now "updated_at"
        ∷ [])
      (foreign_key_constraint "device_id" "devices" "id" ∷ [])

-- the select list of both views, after the device and the bucket: function, column, name
unfoldable pub aggregate_columns : List (String × String × String)
aggregate_columns =
    ("AVG", "ambient_t", "ambient_t_avg")
    ∷ ("MIN", "ambient_t", "ambient_t_min")
    ∷ ("MAX", "ambient_t", "ambient_t_max")
    ∷ ("AVG", "ambient_h", "ambient_h_avg")
    ∷ ("MIN", "ambient_h", "ambient_h_min")
    ∷ ("MAX", "ambient_h", "ambient_h_max")
    ∷ ("AVG", "diss_t", "diss_t_avg")
    ∷ ("MIN", "diss_t", "diss_t_min")
    ∷ ("MAX", "diss_t", "diss_t_max")
    ∷ ("AVG", "diss_h", "diss_h_avg")
    ∷ ("MIN", "diss_h", "diss_h_min")
    ∷ ("MAX", "diss_h", "diss_h_max")
    ∷ ("AVG", "setpoint", "setpoint_avg")
    ∷ ("AVG", "pid_out", "pid_out_avg")
    ∷ ("COUNT", "*", "sample_count")
    ∷ []

unfoldable pub hypertable : (available : Bool) → List Statement
hypertable available =
    if available
    then create_extension timescaledb
      ∷ create_hypertable "telemetry_raw" "ts" "1 day"
      ∷ add_retention_policy "telemetry_raw" "90 days"
      ∷ []
    else []

unfoldable pub telemetry_hourly : (active : Bool) → List Statement
telemetry_hourly active =
    if active
    then create_materialized_view "telemetry_hourly" "1 hour" aggregate_columns
      ∷ add_continuous_aggregate_policy "telemetry_hourly" "3 hours" "30 minutes" "30 minutes"
      ∷ add_retention_policy "telemetry_hourly" "2 years"
      ∷ []
    else []

unfoldable pub telemetry_daily : (active : Bool) → List Statement
telemetry_daily active =
    if active
    then create_materialized_view "telemetry_daily" "1 day" aggregate_columns
      ∷ add_continuous_aggregate_policy "telemetry_daily" "3 days" "1 day" "6 hours"
      ∷ []
    else []

-- _JOB_NAME
abbrev pub job_name : String
job_name = "vena_telemetry_cleanup_90d"

unfoldable pub cleanup : (active cron_available : Bool) → List Statement
cleanup active cron_available =
    if active
    then []
    else if cron_available
    then create_extension pg_cron
      ∷ unschedule job_name
      ∷ schedule job_name "0 3 * * *" "telemetry_raw" "90 days"
      ∷ []
    else []

-- CREATE INDEX IF NOT EXISTS idx_telemetry_device_ts
abbrev pub plain_index : List Statement
plain_index =
    create_index "idx_telemetry_device_ts" "telemetry_raw" ("device_id" ∷ "ts DESC" ∷ []) ∷ []

unfoldable pub upgrade : Revision → Answers → List Statement
upgrade descricao a = create_devices ∷ create_users ∷ create_user_devices ∷ []
upgrade add_telemetry_raw a = create_telemetry_raw ∷ []
upgrade convert_hypertable a = hypertable a.timescaledb_available
upgrade create_telemetry_hourly a = telemetry_hourly a.timescaledb_active
upgrade create_telemetry_daily a = telemetry_daily a.timescaledb_active
upgrade add_refresh_tokens a = create_refresh_tokens ∷ []
upgrade supabase_index a = plain_index
upgrade pg_cron_cleanup a = cleanup a.timescaledb_active a.pg_cron_available
upgrade device_meta a = create_device_meta ∷ []

-- the downgrades, file by file
abbrev pub drop_all : List Statement
drop_all = drop_table "user_devices" ∷ drop_table "users" ∷ drop_table "devices" ∷ []

abbrev pub drop_telemetry_raw : List Statement
drop_telemetry_raw = drop_table "telemetry_raw" ∷ []

abbrev pub keep_hypertable : Result (List Statement)
keep_hypertable = err (uncaught not_implemented_error)

abbrev pub drop_hourly : List Statement
drop_hourly = drop_materialized_view "telemetry_hourly" ∷ []

abbrev pub drop_daily : List Statement
drop_daily = drop_materialized_view "telemetry_daily" ∷ []

abbrev pub drop_refresh_tokens : List Statement
drop_refresh_tokens = drop_table "refresh_tokens" ∷ []

abbrev pub drop_plain_index : List Statement
drop_plain_index = drop_index "idx_telemetry_device_ts" ∷ []

abbrev pub drop_job : List Statement
drop_job = unschedule job_name ∷ []

abbrev pub drop_device_meta : List Statement
drop_device_meta = drop_table "device_meta" ∷ []

unfoldable pub downgrade : Revision → Result (List Statement)
downgrade descricao = ok drop_all
downgrade add_telemetry_raw = ok drop_telemetry_raw
downgrade convert_hypertable = keep_hypertable
downgrade create_telemetry_hourly = ok drop_hourly
downgrade create_telemetry_daily = ok drop_daily
downgrade add_refresh_tokens = ok drop_refresh_tokens
downgrade supabase_index = ok drop_plain_index
downgrade pg_cron_cleanup = ok drop_job
downgrade device_meta = ok drop_device_meta
