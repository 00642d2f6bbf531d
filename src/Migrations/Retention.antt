-- ===== src/Migrations/Retention.antt =====
-- What the migrations leave running on the server: the policies of TimescaleDB, or the job of pg_cron.
use mqtt_projeto_vena.Prelude.{
  ◌≡◌, ◌∙◌, refl, sym, ap, List, [], ◌∷◌, ◌++◌, Bool, true, false, ◌||◌, Bool-cases, inl, inr,
  if◌then◌else◌,
}
use mqtt_projeto_vena.Http.{ok}
use mqtt_projeto_vena.Http.Scalar.{ok-injective}
use mqtt_projeto_vena.Migrations.{Statement, Postgres, ask, upgrade_all, timescaledb, pg_cron}
use mqtt_projeto_vena.Migrations.Chain.{creating, Stepped, stepped}
use mqtt_projeto_vena.Migrations.Revisions.{
  Revision, descricao, add_telemetry_raw, convert_hypertable, create_telemetry_hourly,
  create_telemetry_daily, add_refresh_tokens, supabase_index, pg_cron_cleanup, device_meta,
  revisions, upgrade, hypertable, lineage, down_revision, create_devices, create_users,
  create_user_devices, create_telemetry_raw,
}
use mqtt_projeto_vena.Migrations.Upkeep.{
  policy, job, aggregate, upkeep_of, upkeep, upkeep-append, due, due_all, due_same, joined,
  upkeep-when, upkeep-upgrade, creating-upgrade,
}

module _ (pg : Postgres) where
  -- from a server where TimescaleDB is active as soon as it is available
  settled-upkeep :
      (rs : List Revision) (s : pg.State) {end : pg.State} {log : List Statement}
      → pg.is_active timescaledb s ≡ pg.is_available timescaledb s
      → upgrade_all pg upgrade rs s ≡ ok (end, log)
      → upkeep log ≡ due_all (pg.is_available timescaledb s) (pg.is_available pg_cron s) rs
  unfolding upgrade_all upkeep due_all
  settled-upkeep [] s settled h = ap upkeep (sym (ap (λ p. p.1) (ok-injective h)))
  settled-upkeep (r ∷ rs) s {end = end} {log = log} settled h =
      ap upkeep x.logged
      ∙ upkeep-append (upgrade r (ask pg s)) x.rest
      ∙ joined (upkeep-upgrade r (ask pg s) settled) (
          settled-upkeep rs x.next still x.going_on
          ∙ due_same rs (x.available timescaledb) (x.available pg_cron))
    where
      x : Stepped pg r rs s end log
      x = stepped pg r rs s h

      still : pg.is_active timescaledb x.next ≡ pg.is_available timescaledb x.next
      still =
          x.active timescaledb
          ∙ creating-upgrade r (ask pg s) settled
          ∙ settled
          ∙ sym (x.available timescaledb)

  -- from any server, once a1 is reached
  hypertable-upkeep :
      (rs : List Revision) (s : pg.State) {end : pg.State} {log : List Statement}
      → (pg.is_active timescaledb s ≡ true → pg.is_available timescaledb s ≡ true)
      → upgrade_all pg upgrade (convert_hypertable ∷ rs) s ≡ ok (end, log)
      → upkeep log
        ≡ due_all
            (pg.is_available timescaledb s)
            (pg.is_available pg_cron s)
            (convert_hypertable ∷ rs)
  unfolding upkeep upkeep_of due due_all upgrade hypertable creating
  hypertable-upkeep rs s {end = end} {log = log} offered h =
      ap upkeep x.logged
      ∙ upkeep-append (hypertable (pg.is_available timescaledb s)) x.rest
      ∙ joined (upkeep-when (pg.is_available timescaledb s) _) (
          settled-upkeep rs x.next settled x.going_on
          ∙ due_same rs (x.available timescaledb) (x.available pg_cron))
    where
      x : Stepped pg convert_hypertable rs s end log
      x = stepped pg convert_hypertable rs s h

      activated :
          (creating (hypertable (pg.is_available timescaledb s)) timescaledb
            || pg.is_active timescaledb s)
          ≡ pg.is_available timescaledb s
      activated = elim (Bool-cases (pg.is_available timescaledb s)) [
        | inl e ↦ rw e
        | inr e ↦ elim (Bool-cases (pg.is_active timescaledb s)) [
          | inl a ↦ cc (offered a, e)
          | inr a ↦ rw (e, a)
        ]
      ]

      settled : pg.is_active timescaledb x.next ≡ pg.is_available timescaledb x.next
      settled = x.active timescaledb ∙ activated ∙ sym (x.available timescaledb)

  -- An upgrade of the whole chain that succeeds leaves exactly one way of deleting readings older than
  -- 90 days on a server that offers one: where TimescaleDB is available, its retention policy on telemetry_raw,
  -- with the hourly view, kept for two years, and the daily view, kept for good; otherwise, where pg_cron
  -- is available, its daily job at 03:00 and no view; otherwise nothing at all.
  pub upgrade-upkeep :
      (s : pg.State) {end : pg.State} {log : List Statement}
      → (pg.is_active timescaledb s ≡ true → pg.is_available timescaledb s ≡ true)
      → upgrade_all pg upgrade revisions s ≡ ok (end, log)
      → upkeep log ≡ (
          if pg.is_available timescaledb s
          then policy "telemetry_raw" "90 days"
            ∷ aggregate "telemetry_hourly" "1 hour"
            ∷ policy "telemetry_hourly" "2 years"
            ∷ aggregate "telemetry_daily" "1 day"
            ∷ []
          else if pg.is_available pg_cron s
          then job "0 3 * * *" "telemetry_raw" "90 days" ∷ []
          else [])
  unfolding revisions lineage down_revision upkeep upkeep_of upgrade due due_all creating
      create_devices create_users create_user_devices create_telemetry_raw
  upgrade-upkeep s {end = end} {log = log} offered h =
      ap upkeep (x.logged ∙ ap (λ l. upgrade descricao (ask pg s) ++ l) y.logged)
      ∙ hypertable-upkeep later y.next offered_still y.going_on
      ∙ due_same (convert_hypertable ∷ later) (y.available timescaledb ∙ x.available timescaledb)
          (y.available pg_cron ∙ x.available pg_cron)
      ∙ all_due (pg.is_available timescaledb s) (pg.is_available pg_cron s)
    where
      later : List Revision
      later =
          create_telemetry_hourly ∷ create_telemetry_daily ∷ add_refresh_tokens ∷ supabase_index
          ∷ pg_cron_cleanup ∷ device_meta ∷ []

      x : Stepped pg descricao (add_telemetry_raw ∷ convert_hypertable ∷ later) s end log
      x = stepped pg descricao _ s h

      y : Stepped pg add_telemetry_raw (convert_hypertable ∷ later) x.next end x.rest
      y = stepped pg add_telemetry_raw _ x.next x.going_on

      offered_still :
          pg.is_active timescaledb y.next ≡ true → pg.is_available timescaledb y.next ≡ true
      offered_still active =
          y.available timescaledb
          ∙ x.available timescaledb
          ∙ offered (sym (x.active timescaledb) ∙ sym (y.active timescaledb) ∙ active)

      all_due :
          (t c : Bool)
          → due_all t c (convert_hypertable ∷ later) ≡ (
              if t
              then policy "telemetry_raw" "90 days"
                ∷ aggregate "telemetry_hourly" "1 hour"
                ∷ policy "telemetry_hourly" "2 years"
                ∷ aggregate "telemetry_daily" "1 day"
                ∷ []
              else if c
              then job "0 3 * * *" "telemetry_raw" "90 days" ∷ []
              else [])
      all_due true c = refl
      all_due false true = refl
      all_due false false = refl
