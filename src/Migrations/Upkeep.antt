-- ===== src/Migrations/Upkeep.antt =====
-- backend/alembic/versions: the maintenance that the statements of a revision ask for.
use mathlib.Core.List.{append_assoc}
use mqtt_projeto_vena.Prelude.{
  ◌≡◌, ◌∙◌, refl, sym, ap, String, List, [], ◌∷◌, ◌++◌, Bool, true, false, ◌||◌, if◌then◌else◌,
}
use mqtt_projeto_vena.Migrations.{
  Statement, add_retention_policy, create_materialized_view, schedule, Answers, timescaledb,
}
use mqtt_projeto_vena.Migrations.Chain.{creating}
use mqtt_projeto_vena.Migrations.Revisions.{
  Revision, descricao, add_telemetry_raw, convert_hypertable, create_telemetry_hourly,
  create_telemetry_daily, add_refresh_tokens, supabase_index, pg_cron_cleanup, device_meta, upgrade,
  hypertable, telemetry_hourly, telemetry_daily, cleanup, create_devices, create_users,
  create_user_devices, create_telemetry_raw, create_refresh_tokens, create_device_meta,
}

-- What goes on by itself after a migration: rows that a policy or a job deletes, and views that are kept
-- up to date.
pub data Upkeep : Type 0 where
  policy : (relation drop_after : String) → Upkeep
  job : (cron deleted_from older_than : String) → Upkeep
  aggregate : (name bucket : String) → Upkeep

unfoldable pub upkeep_of : Statement → List Upkeep
upkeep_of (add_retention_policy relation drop_after) = policy relation drop_after ∷ []
upkeep_of (create_materialized_view name bucket columns) = aggregate name bucket ∷ []
upkeep_of (schedule name cron deleted_from older_than) = job cron deleted_from older_than ∷ []
upkeep_of _ = []

unfoldable pub upkeep : List Statement → List Upkeep
upkeep [] = []
upkeep (st ∷ sts) = upkeep_of st ++ upkeep sts

pub upkeep-append : (a b : List Statement) → upkeep (a ++ b) ≡ upkeep a ++ upkeep b
unfolding upkeep
upkeep-append [] b = refl
upkeep-append (st ∷ a) b =
    ap (λ l. upkeep_of st ++ l) (upkeep-append a b) ∙ sym (append_assoc (upkeep_of st) _ _)

-- what each revision sets up, on a server with these extensions
unfoldable pub due : (with_timescaledb with_pg_cron : Bool) → Revision → List Upkeep
due with_timescaledb with_pg_cron convert_hypertable =
    if with_timescaledb then policy "telemetry_raw" "90 days" ∷ [] else []
due with_timescaledb with_pg_cron create_telemetry_hourly =
    if with_timescaledb
    then aggregate "telemetry_hourly" "1 hour" ∷ policy "telemetry_hourly" "2 years" ∷ []
    else []
due with_timescaledb with_pg_cron create_telemetry_daily =
    if with_timescaledb then aggregate "telemetry_daily" "1 day" ∷ [] else []
due with_timescaledb with_pg_cron pg_cron_cleanup =
    if with_timescaledb
    then []
    else if with_pg_cron
    then job "0 3 * * *" "telemetry_raw" "90 days" ∷ []
    else []
due with_timescaledb with_pg_cron _ = []

unfoldable pub due_all : (with_timescaledb with_pg_cron : Bool) → List Revision → List Upkeep
due_all t c [] = []
due_all t c (r ∷ rs) = due t c r ++ due_all t c rs

pub due_same :
    (rs : List Revision) {t t' c c' : Bool} → t ≡ t' → c ≡ c' → due_all t c rs ≡ due_all t' c' rs
due_same rs e f = cc

pub joined : {a a' b b' : List Upkeep} → a ≡ a' → b ≡ b' → a ++ b ≡ a' ++ b'
joined e f = cc

pub upkeep-when :
    (b : Bool) (sts : List Statement)
    → upkeep (if b then sts else []) ≡ (if b then upkeep sts else [])
unfolding upkeep
upkeep-when true sts = refl
upkeep-when false sts = refl

upkeep-unless :
    (b : Bool) (sts : List Statement)
    → upkeep (if b then [] else sts) ≡ (if b then [] else upkeep sts)
unfolding upkeep
upkeep-unless true sts = refl
upkeep-unless false sts = refl

-- Where TimescaleDB is active as soon as it is available, a revision sets up what is due.
pub upkeep-upgrade :
    (r : Revision) (a : Answers)
    → a.timescaledb_active ≡ a.timescaledb_available
    → upkeep (upgrade r a) ≡ due a.timescaledb_available a.pg_cron_available r
unfolding upkeep upkeep_of due upgrade hypertable telemetry_hourly telemetry_daily cleanup
    create_devices create_users create_user_devices create_telemetry_raw create_refresh_tokens
    create_device_meta
upkeep-upgrade descricao a h = refl
upkeep-upgrade add_telemetry_raw a h = refl
upkeep-upgrade convert_hypertable a h = upkeep-when a.timescaledb_available _
upkeep-upgrade create_telemetry_hourly a h = rw h (upkeep-when a.timescaledb_available _)
upkeep-upgrade create_telemetry_daily a h = rw h (upkeep-when a.timescaledb_available _)
upkeep-upgrade add_refresh_tokens a h = refl
upkeep-upgrade supabase_index a h = refl
upkeep-upgrade pg_cron_cleanup a h =
    rw (h, upkeep-unless a.timescaledb_available _, upkeep-when a.pg_cron_available _)
upkeep-upgrade device_meta a h = refl

-- statements under a condition that activate TimescaleDB only where it is active
creating-when :
    (b active : Bool) (sts : List Statement)
    → (b ≡ true → (creating sts timescaledb || active) ≡ active)
    → (creating (if b then sts else []) timescaledb || active) ≡ active
unfolding creating
creating-when true active sts h = h refl
creating-when false active sts h = refl

creating-unless :
    (b active : Bool) (sts : List Statement)
    → (creating sts timescaledb || active) ≡ active
    → (creating (if b then [] else sts) timescaledb || active) ≡ active
unfolding creating
creating-unless true active sts h = refl
creating-unless false active sts h = h

-- no revision but a1 activates TimescaleDB, and a1 does where it is available
pub creating-upgrade :
    (r : Revision) (a : Answers)
    → a.timescaledb_active ≡ a.timescaledb_available
    → (creating (upgrade r a) timescaledb || a.timescaledb_active) ≡ a.timescaledb_active
unfolding creating upgrade hypertable telemetry_hourly telemetry_daily cleanup create_devices
    create_users create_user_devices create_telemetry_raw create_refresh_tokens create_device_meta
creating-upgrade descricao a h = refl
creating-upgrade add_telemetry_raw a h = refl
creating-upgrade convert_hypertable a h =
    creating-when a.timescaledb_available a.timescaledb_active _ (λ e. sym (h ∙ e))
creating-upgrade create_telemetry_hourly a h =
    creating-when a.timescaledb_active a.timescaledb_active _ (λ e. refl)
creating-upgrade create_telemetry_daily a h =
    creating-when a.timescaledb_active a.timescaledb_active _ (λ e. refl)
creating-upgrade add_refresh_tokens a h = refl
creating-upgrade supabase_index a h = refl
creating-upgrade pg_cron_cleanup a h =
    creating-unless a.timescaledb_active a.timescaledb_active _
      (creating-when a.pg_cron_available a.timescaledb_active _ (λ e. refl))
creating-upgrade device_meta a h = refl
