-- ===== src/Db.antt =====
-- backend/app/db/models.py: the rows of the tables. Times are microseconds since 1 January of the year 1,
-- the first that a `datetime` holds, in UTC.
use mqtt_projeto_vena.Prelude.{ℕ, ◌*◌, String, Option}
use mqtt_projeto_vena.Sql.{Sql}
use mqtt_projeto_vena.Json.{Json, ℤ}

abbrev pub Time : Type 0
Time = ℕ

-- the bits of a binary64
abbrev pub Float : Type 0
Float = ℕ

-- microseconds in a second
abbrev pub second : ℕ
second = 1000000

-- 1 January 1970
abbrev pub unix_epoch : Time
unix_epoch = 62135596800 * second

pub record User : Type 0 where
  pub id : String
  pub google_sub : String
  pub email : String
  pub created_at : Time

pub record Device : Type 0 where
  pub id : String
  pub pairing_code_hash : String
  pub fw_version : Option String
  pub capabilities : Option Json
  pub first_seen_at : Option Time
  pub last_seen_at : Option Time
  pub status : String

pub record UserDevice : Type 0 where
  pub user_id : String
  pub device_id : String
  pub alias : Option String
  pub claimed_at : Time

pub record RefreshToken : Type 0 where
  pub id : String
  pub user_id : String
  pub token_hash : String
  pub expires_at : Time
  pub revoked_at : Option Time
  pub created_at : Time

pub record TelemetryRaw : Type 0 where
  pub device_id : String
  pub ts : Time
  pub ambient_t : Option Float
  pub ambient_h : Option Float
  pub diss_t : Option Float
  pub diss_h : Option Float
  pub setpoint : Option Float
  pub pid_out : Option Float
  pub uptime_ms : Option ℤ
  pub seq : Option ℤ

pub record DeviceMeta : Type 0 where
  pub device_id : String
  pub payload : Json
  pub updated_at : Time

-- The tables of the database.
pub record Db (sql : Sql) : Type 0 where
  pub users : sql.Table User
  pub devices : sql.Table Device
  pub user_devices : sql.Table UserDevice
  pub refresh_tokens : sql.Table RefreshToken
  pub telemetry_raw : sql.Table TelemetryRaw
  pub device_meta : sql.Table DeviceMeta
