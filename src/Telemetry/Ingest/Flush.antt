-- ===== src/Telemetry/Ingest/Flush.antt =====
-- `TelemetryIngestor._flush` and `_handle_meta`: each is one transaction, which leaves the database as it
-- was when it raises. A Python set is a list without repetition; the order of its loop is of no
-- consequence, since each round writes another device's row.
use Prim.Native.String.{count as text_length}
use mqtt_projeto_vena.Prelude.{
  String, List, [], ◌∷◌, map, Option, none, some, Bool, not, ◌&&◌, ◌==◌, eqb, leb, contains, keep,
  if◌then◌else◌, ◌≡◌,
}
use mqtt_projeto_vena.Http.{
  Result, ok, err, uncaught, database_error, unicode_decode_error, ◌>>=◌, ◌>>◌, guard, require,
}
use mqtt_projeto_vena.Sql.{Sql}
use mqtt_projeto_vena.Json.{Json}
use mqtt_projeto_vena.Db.{Db, Device, DeviceMeta, TelemetryRaw, Time}
use mqtt_projeto_vena.Telemetry.Ingest.Rows.{
  Bytes, Python, Row, json, json_decode_error, not_unicode,
}

-- How the driver turns the values of a row into columns; `none` is the error of a value that does not
-- fit its column. The key columns are carried over.
pub record Driver : Type 0 where
  pub encode : Row → Option TelemetryRaw
  -- whether a JSONB column takes the value, which it does not for NaN, Infinity and \u0000
  pub fits_jsonb : Json → Bool
  pub encode-device_id :
      (r : Row) (t : TelemetryRaw) → encode r ≡ some t → t.device_id ≡ r.device_id
  pub encode-ts : (r : Row) (t : TelemetryRaw) → encode r ≡ some t → t.ts ≡ r.ts

-- `set(ids)`
unfoldable pub distinct : List String → List String
distinct [] = []
distinct (x ∷ xs) = let rest = distinct xs in if contains x rest then rest else x ∷ rest

-- the row of a device that the ingestor registers
abbrev pub unprovisioned : String → Time → Device
unprovisioned device_id now = record {
  id = device_id;
  pairing_code_hash = "unprovisioned";
  fw_version = none;
  capabilities = none;
  first_seen_at = some now;
  last_seen_at = some now;
  status = "online";
}

-- `update(Device).values(last_seen_at=now, status="online")`
abbrev pub seen : Time → Device → Device
seen now d = record d { last_seen_at = some now; status = "online" }

-- the primary key of telemetry_raw
abbrev pub same_key : (device_id : String) → (ts : Time) → TelemetryRaw → Bool
same_key device_id ts t = t.device_id == device_id && eqb t.ts ts

-- devices.id is a VARCHAR(32)
abbrev pub fits_id : String → Bool
fits_id device_id = leb (text_length device_id) 32

-- the statement's values, all of which must fit their columns
unfoldable pub encode_all : Driver → List Row → Result (List TelemetryRaw)
encode_all driver [] = ok []
encode_all driver (r ∷ rs) = do
  t ← require (driver.encode r) (uncaught database_error)
  ts ← encode_all driver rs
  ok (t ∷ ts)

abbrev pub meta_row : String → Json → Time → DeviceMeta
meta_row device_id data_ now = record { device_id = device_id; payload = data_; updated_at = now }

module _ (sql : Sql) where
  -- INSERT INTO devices … ON CONFLICT (id) DO NOTHING
  unfoldable pub register : Time → String → Db sql → Result (Db sql)
  register now device_id db = do
    guard (fits_id device_id) (uncaught database_error)
    ok (record db {
      devices =
          sql.insert_or_nothing Device (λ d. d.id == device_id) (unprovisioned device_id now)
            db.devices;
    })

  -- the loop over the unknown devices
  unfoldable pub register_all : Time → List String → Db sql → Result (Db sql)
  register_all now [] db = ok db
  register_all now (device_id ∷ ids) db = do
    db' ← register now device_id db
    register_all now ids db'

  -- the loop over the known devices
  unfoldable pub touch_all : Time → List String → Db sql → Db sql
  touch_all now [] db = db
  touch_all now (device_id ∷ ids) db =
      touch_all now ids
        (record db { devices = sql.update Device (λ d. d.id == device_id) (seen now) db.devices })

  -- INSERT INTO telemetry_raw … ON CONFLICT (device_id, ts) DO NOTHING, row by row
  unfoldable pub insert_rows : List TelemetryRaw → sql.Table TelemetryRaw → sql.Table TelemetryRaw
  insert_rows [] table = table
  insert_rows (t ∷ ts) table =
      insert_rows ts (sql.insert_or_nothing TelemetryRaw (same_key t.device_id t.ts) t table)

  -- the transaction of `_flush`
  unfoldable pub flush_rows : Driver → Time → List Row → Db sql → Result (Db sql)
  flush_rows driver now rows db = do
    let device_ids = distinct (map (λ r. r.device_id) rows)
    let existing = map (λ d. d.id) (sql.select Device (λ d. contains d.id device_ids) db.devices)
    let new_device_ids = keep (λ did. not (contains did existing)) device_ids
    db' ← register_all now new_device_ids db
    encoded ← encode_all driver rows
    let db'' = touch_all now existing db'
    ok (record db'' { telemetry_raw = insert_rows encoded db''.telemetry_raw })

  unfoldable pub flush : Driver → Time → List Row → Db sql → Result (Db sql)
  flush driver now [] db = ok db
  flush driver now (r ∷ rs) db = flush_rows driver now (r ∷ rs) db

  -- the transaction of `_handle_meta`
  unfoldable pub upsert_meta : Driver → Time → String → Json → Db sql → Result (Db sql)
  upsert_meta driver now device_id data_ db = do
    db' ← register now device_id db
    guard (driver.fits_jsonb data_) (uncaught database_error)
    ok (record db' {
      device_meta =
          sql.insert_or_update DeviceMeta (λ m. m.device_id == device_id)
            (λ m. record m { payload = data_; updated_at = now }) (meta_row device_id data_ now)
            db'.device_meta;
    })

  unfoldable pub handle_meta : Python → Driver → Time → String → Bytes → Db sql → Result (Db sql)
  handle_meta py driver now device_id payload db = elim (py.json_loads payload) [
    | json data_ ↦ upsert_meta driver now device_id data_ db
    | json_decode_error ↦ ok db
    | not_unicode ↦ err (uncaught unicode_decode_error)
  ]
