-- ===== src/Server/Uniqueness.antt =====
-- backend/app/db/models.py: the uniqueness that the queries of backend/app rely on, and the ingestion.
use mathlib.Core.Path.{subst}
use mqtt_projeto_vena.Prelude.{sym, ◌≤◌, ℕ, String, ◌==◌, arith, if◌then◌else◌, Bool}
use mqtt_projeto_vena.Sql.{Sql}
use mqtt_projeto_vena.Db.{Db, User, UserDevice}
use mqtt_projeto_vena.Auth.Login.{accounts}
use mqtt_projeto_vena.Devices.Service.{owns}
use mqtt_projeto_vena.Devices.Claiming.{claims}
use mqtt_projeto_vena.Telemetry.Ingest.Stored.{IsKeyed, insert_rows-IsKeyed}
use mqtt_projeto_vena.Server.Frames.{devices_of, DevicesOnly}
use mqtt_projeto_vena.Server.Ingested.{FlushWrote}

-- One user for a Google account, one row for a device, one claim of a user on a device, and one reading
-- of a device at a time.
pub record WellFormed (sql : Sql) (db : Db sql) : Type 0 where
  pub one_account : (google_sub : String) → accounts sql db google_sub ≤ 1
  pub one_device : (device_id : String) → devices_of sql db device_id ≤ 1
  pub one_claim : (user_id device_id : String) → claims sql db user_id device_id ≤ 1
  pub one_reading : IsKeyed sql db.telemetry_raw

pub at_most_one : (b : Bool) (n : ℕ) → n ≤ 1 → (if b then 1 else n) ≤ 1
at_most_one b n h = ground arith

module _ (sql : Sql) where
  -- where the devices alone changed
  pub DevicesOnly-WellFormed :
      {before after : Db sql}
      → DevicesOnly sql before after
      → WellFormed sql before
      → WellFormed sql after
  DevicesOnly-WellFormed {before} {after} d w = record {
    one_account = λ g.
        subst (λ t. sql.count_where User (λ u. u.google_sub == g) t ≤ 1) (sym d.users)
          (w.one_account g);
    one_device = λ device_id. d.few device_id (w.one_device device_id);
    one_claim = λ user_id device_id.
        subst (λ t. sql.count_where UserDevice (owns user_id device_id) t ≤ 1) (sym d.user_devices)
          (w.one_claim user_id device_id);
    one_reading = subst (IsKeyed sql) (sym d.telemetry_raw) w.one_reading;
  }

  pub flush-WellFormed :
      {before after : Db sql}
      → FlushWrote sql before after
      → WellFormed sql before
      → WellFormed sql after
  flush-WellFormed {before} {after} f w =
      let kept : WellFormed sql f.seen_db = DevicesOnly-WellFormed f.only w in
      subst (WellFormed sql) (sym f.wrote) (record {
        one_account = kept.one_account;
        one_device = kept.one_device;
        one_claim = kept.one_claim;
        one_reading = insert_rows-IsKeyed sql f.encoded f.seen_db.telemetry_raw kept.one_reading;
      })
