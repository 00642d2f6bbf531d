-- ===== src/Tests/Migrating.antt =====
-- The migrations on servers with and without the extensions.
use mqtt_projeto_vena.Prelude.{
  some, ◌≢◌, ◌≡◌, refl, sym, ap, inl, inr, String, List, [], ◌∷◌, All, not, Bool, false, ◌||◌, ◌==◌,
  lookup, if◌then◌else◌, Bool-cases,
}
use mqtt_projeto_vena.Http.{Result, ok, err, Error, uncaught, database_error}
use mqtt_projeto_vena.Http.Scalar.{ok-injective}
use mqtt_projeto_vena.Migrations.{
  do_run_migrations, Statement, drop_table, unschedule, timescaledb, pg_cron, creates, Postgres,
  ask, execute_all, upgrade_all, downgrade_all,
}
use mqtt_projeto_vena.Migrations.Revisions.{
  add_telemetry_raw, pg_cron_cleanup, device_meta, revisions, lineage, down_revision, upgrade,
  downgrade, hypertable, telemetry_hourly, telemetry_daily, cleanup, create_devices, create_users,
  create_user_devices, create_telemetry_raw, create_refresh_tokens, create_device_meta,
}
use mqtt_projeto_vena.Migrations.Models.{metadata, telemetry_raw_columns}
use mqtt_projeto_vena.Migrations.Schema.{replay, created, upgrade-metadata}
use mqtt_projeto_vena.Migrations.Retention.{upgrade-upkeep}
use mqtt_projeto_vena.Migrations.Upkeep.{policy, aggregate, upkeep}
use mqtt_projeto_vena.Migrations.Undo.{
  Unknown, is_referred, refers_to, replay_safely, upgrade-downgrade, downgrade_fails,
}

-- A server that runs any statement, but for the removal of a job where there is no pg_cron.
record Installed : Type 0 where
  available : String → Bool
  active : String → Bool

abbrev is_refused : Statement → Installed → Bool
is_refused (unschedule name) s = not (s.active pg_cron)
is_refused _ s = false

abbrev executed : Statement → Installed → Result Installed
executed st s =
    if is_refused st s
    then err (uncaught database_error)
    else ok (record s { active = λ name. creates st name || s.active name })

executed-eq :
    (st : Statement) (s s' : Installed)
    → executed st s ≡ ok s'
    → s' ≡ record s { active = λ name. creates st name || s.active name }
executed-eq st s s' h = elim (Bool-cases (is_refused st s)) [
  | inl e ↦ cc (rw e at h)
  | inr e ↦ sym (ok-injective (rw e at h))
]

executed-unschedule :
    (name : String) (s : Installed)
    → s.active pg_cron ≡ false
    → executed (unschedule name) s ≡ err (uncaught database_error)
executed-unschedule name s h = rw h

abbrev server : Postgres
server = record {
  State = Installed;
  is_available = λ name s. s.available name;
  is_active = λ name s. s.active name;
  execute = executed;
  execute-available = λ st s s' name h. ap (λ x. x.available name) (executed-eq st s s' h);
  execute-active = λ st s s' name h. ap (λ x. x.active name) (executed-eq st s s' h);
  execute-unschedule = executed-unschedule;
}

-- a server with TimescaleDB, before the first migration
abbrev fresh : Installed
fresh = record { available = λ name. name == timescaledb; active = λ name. false }

abbrev nothing_done : Installed × List Statement
nothing_done = (fresh, [])

abbrev or_else : {A : Type 0} → A → Result A → A
or_else other (ok a) = a
or_else other (err e) = other

abbrev outcome : Installed × List Statement
outcome = or_else nothing_done (upgrade_all server upgrade revisions fresh)

upgraded : upgrade_all server upgrade revisions fresh ≡ ok (outcome.0, outcome.1)
unfolding upgrade_all execute_all revisions lineage down_revision upgrade hypertable
    telemetry_hourly telemetry_daily cleanup create_devices create_users create_user_devices
    create_telemetry_raw create_refresh_tokens create_device_meta
upgraded = refl

upgrade-metadata_example : lookup "users" (replay outcome.1 []) ≡ lookup "users" metadata
upgrade-metadata_example = upgrade-metadata server fresh "users" upgraded

upgrade-upkeep_example :
    upkeep outcome.1
    ≡ policy "telemetry_raw" "90 days"
      ∷ aggregate "telemetry_hourly" "1 hour"
      ∷ policy "telemetry_hourly" "2 years"
      ∷ aggregate "telemetry_daily" "1 day"
      ∷ []
upgrade-upkeep_example = upgrade-upkeep server fresh (λ active. cc) upgraded

dropped : downgrade device_meta ≡ ok (drop_table "device_meta" ∷ [])
unfolding downgrade
dropped = refl

none_there : All (λ t. Unknown (created add_telemetry_raw) t.0) (created device_meta)
unfolding created is_referred refers_to telemetry_raw_columns
none_there = ((refl, refl), tt)

some_created : created device_meta ≢ []
unfolding created
some_created e = cc

upgrade-downgrade_example :
    replay_safely
      (drop_table "device_meta" ∷ [])
      (replay (upgrade device_meta (ask server fresh)) (created add_telemetry_raw))
    ≡ some (created add_telemetry_raw)
upgrade-downgrade_example =
    upgrade-downgrade device_meta (ask server fresh) (created add_telemetry_raw) _ dropped
      some_created none_there

downgrade_fails_example :
    ((e : Error) × (downgrade_all server downgrade (device_meta ∷ pg_cron_cleanup ∷ []) fresh
        ≡ err e))
    × (do_run_migrations server
          (downgrade_all server downgrade (device_meta ∷ pg_cron_cleanup ∷ []) fresh)
          fresh
        ≡ fresh)
downgrade_fails_example =
    downgrade_fails server (device_meta ∷ pg_cron_cleanup ∷ []) fresh (inr (inr (inl refl), refl))
