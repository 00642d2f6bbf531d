-- ===== src/Telemetry/History.antt =====
-- backend/app/telemetry/service.py and routes.py. The query texts of FastAPI arrive parsed;
-- the server's answer to the aggregate SQL text is a parameter.
pub mod Window
pub mod Aggregated
use mqtt_projeto_vena.Prelude.{
  ℕ, ◌-◌, String, List, [], ◌∷◌, ◌++◌, map, Option, none, some, Bool, true, false, ◌&&◌, ◌||◌, not,
  ◌==◌, ◌<>◌, leb, ltb, take, drop, length, contains, lookup, is_none, if◌then◌else◌,
}
use mqtt_projeto_vena.Json.{Json}
use mqtt_projeto_vena.Http.{
  Result, ok, err, Error, Exception, http_exception, uncaught, value_error, key_error,
  device_not_found, ◌>>=◌, ◌>>◌, guard, require,
}
use mqtt_projeto_vena.Sql.{Sql}
use mqtt_projeto_vena.Db.{Db, Device, TelemetryRaw, DeviceMeta, Time, Float}
use mqtt_projeto_vena.Telemetry.Aggregation.{
  hours, range_to_timedelta, allowed_buckets, parse_range, resolve_bucket, parse_metrics,
  has_min_max, build_aggregate_sql,
}
use mqtt_projeto_vena.Telemetry.Samples.{
  TelemetrySample, HistoryResponse, Mapping, raw_sample, agg_samples, plain_response,
  ranged_response,
}

-- `if x is not None else y`
abbrev pub or_else : Option Time → Time → Time
or_else none t = t
or_else (some u) t = u

-- `session.get(Device, device_id)`, a DeviceNotFound when there is none
unfoldable pub find_device : List Device → Result Device
find_device [] = err (uncaught device_not_found)
find_device (d ∷ l) = ok d

abbrev pub first_row : List DeviceMeta → Option DeviceMeta
first_row [] = none
first_row (m ∷ l) = some m

-- the test of the WHERE clauses of the two queries for raw rows
abbrev pub within : (device_id : String) → (start end : Time) → TelemetryRaw → Bool
within device_id start end r = r.device_id == device_id && (leb start r.ts && leb r.ts end)

abbrev pub before : (device_id : String) → (start end : Time) → TelemetryRaw → Bool
before device_id start end r = r.device_id == device_id && (leb start r.ts && ltb r.ts end)

-- The handlers' `except` clauses: what they turn DeviceNotFound and ValueError into. The detail of a
-- ValueError is its message, which the model's exceptions do not carry.
unfoldable pub not_found : (device_id : String) → Error
not_found device_id = http_exception 404 ("Device '" <> device_id <> "' not found")

unfoldable pub history_error : (device_id : String) → Error → Error
history_error device_id (uncaught device_not_found) = not_found device_id
history_error device_id e = e

unfoldable pub aggregated_error : (device_id : String) → Error → Error
aggregated_error device_id (uncaught device_not_found) = not_found device_id
aggregated_error device_id (uncaught value_error) = http_exception 422 ""
aggregated_error device_id e = e

abbrev pub map_error : (Error → Error) → {A : Type 0} → Result A → Result A
map_error f (ok a) = ok a
map_error f (err e) = err (f e)

-- `x or y` for a text
abbrev pub or_default : Option String → String → String
or_default none y = y
or_default (some x) y = if x == "" then y else x

module _ (sql : Sql) where
  unfoldable pub get_device : (device_id : String) → Db sql → Result Device
  get_device device_id db = find_device (sql.select Device (λ d. d.id == device_id) db.devices)

  unfoldable pub get_device_history :
      (now : Time)
      → (device_id : String) → (start end : Option Time) → (limit offset : ℕ) → Db sql
      → Result HistoryResponse
  get_device_history now device_id start end limit offset db = do
    device ← get_device device_id db
    ok (
        plain_response device_id (
          map raw_sample (
            take limit (
              drop offset (
                sql.order_by_desc TelemetryRaw TelemetryRaw.ts (
                  sql.select TelemetryRaw
                    (within device_id (or_else start (now - hours 24)) (or_else end now))
                    db.telemetry_raw))))))

  -- the rows of bucket 5s
  unfoldable pub raw_rows :
      (device_id : String) → (start_ts end_ts : Time) → ℕ → Db sql → List TelemetryRaw
  raw_rows device_id start_ts end_ts limit db = take limit (
      sql.order_by_asc TelemetryRaw TelemetryRaw.ts
        (sql.select TelemetryRaw (before device_id start_ts end_ts) db.telemetry_raw))

  -- The server's answer to an SQL text with the parameters of the aggregate query.
  abbrev pub Execute : Type 0
  Execute =
      (statement device_id : String) (start_ts end_ts : Time) (row_limit : ℕ)
      → Db sql
      → List Mapping

  module _ (execute : Execute) where
    -- The samples, once the bucket, the metrics and the window are known.
    unfoldable pub bucket_samples :
        (device_id bucket : String)
        → (metrics : List String) → (start_ts end_ts : Time) → (limit : ℕ) → Db sql
        → Result (List TelemetrySample)
    bucket_samples device_id bucket metrics start_ts end_ts limit db =
        if bucket == "5s"
        then ok (map raw_sample (raw_rows device_id start_ts end_ts limit db))
        else (do
          statement ← build_aggregate_sql bucket metrics
          agg_samples metrics
              (execute (statement <> " LIMIT :row_limit") device_id start_ts end_ts limit db))

    unfoldable pub get_device_history_aggregated :
        (now : Time)
        → (device_id range bucket metric : String) → (limit : ℕ) → Db sql
        → Result HistoryResponse
    get_device_history_aggregated now device_id range bucket metric limit db = do
      device ← get_device device_id db
      resolved_bucket ← resolve_bucket range bucket
      metrics ← parse_metrics metric
      span ← parse_range range
      samples ← bucket_samples device_id resolved_bucket metrics (now - span) now limit db
      ok (ranged_response device_id resolved_bucket (now - span) now samples)

    -- GET /devices/{device_id}/history, for a `limit` and an `offset` in FastAPI's bounds
    unfoldable pub history :
        (now : Time)
        → (device_id : String) → (start end : Option Time) → (range : Option String)
        → (bucket metric : String) → (limit offset : ℕ) → Db sql
        → Result HistoryResponse
    history now device_id start end range bucket metric limit offset db =
        if not (is_none start) || not (is_none end)
        then map_error (history_error device_id)
            (get_device_history now device_id start end limit offset db)
        else (do
          guard (not (is_none (lookup (or_default range "24h") range_to_timedelta))) (
              http_exception 422 (
                "Invalid range '"
                <> or_default range "24h"
                <> "'. Allowed: ['1h', '1y', '24h', '30d', '6h', '7d', '90d']"))
          guard (contains bucket allowed_buckets) (
              http_exception 422
                ("Invalid bucket '" <> bucket <> "'. Allowed: ['auto', '5s', '1m', '1h', '1d']"))
          map_error (aggregated_error device_id) (
              get_device_history_aggregated now device_id (or_default range "24h") bucket metric
                limit db))

  -- `session.get(DeviceMeta, device_id)`; the pair of payload and time with the row's own id
  unfoldable pub get_device_meta : (device_id : String) → Db sql → Result (Option DeviceMeta)
  get_device_meta device_id db = do
    device ← get_device device_id db
    ok (first_row (sql.select DeviceMeta (λ m. m.device_id == device_id) db.device_meta))

  -- GET /devices/{device_id}/meta
  unfoldable pub device_meta : (device_id : String) → Db sql → Result DeviceMeta
  device_meta device_id db = do
    meta ← map_error (history_error device_id) (get_device_meta device_id db)
    require meta (http_exception 404 ("No meta published yet for device '" <> device_id <> "'"))
