-- ===== src/Tests/Readings.antt =====
-- The ingestion of readings and their history, at concrete inputs.
use mqtt_projeto_vena.Prelude.{
  true, if◌then◌else◌, ◌==◌, contains, ◌≢◌, map, join, ◌<◌, ◌≡◌, ◌⊎◌, refl, String, List, [], ◌∷◌,
  none, some, arith, All, length, split,
}
use mqtt_projeto_vena.Http.{ok, err, Error}
use mqtt_projeto_vena.Sql.Memory.{memory}
use mqtt_projeto_vena.Json.{get, null, int, pos, arr, nil}
use mqtt_projeto_vena.Db.{Db}
use mqtt_projeto_vena.Mqtt.Topics.{parse_topic, parse_parts}
use mqtt_projeto_vena.Telemetry.Aggregation.{
  all_metrics, build_aggregate_sql, date_trunc_field, select_parts, all_metric_parts, metric_parts,
  has_min_max, hours, parse_range, resolve_bucket, parse_metrics, check_metrics, check_known,
  requested_metrics, strip, strip_left, strip_right, is_space,
}
use mqtt_projeto_vena.Telemetry.Aggregation.Validation.{
  IsConcrete, resolve_bucket-IsConcrete, parse_metrics-known,
}
use mqtt_projeto_vena.Telemetry.Ingest.Rows.{
  Row, parse, parse_payload, parse_data, row_at, timestamp, int_of,
}
use mqtt_projeto_vena.Telemetry.Ingest.Archive.{record_rows}
use mqtt_projeto_vena.Telemetry.Ingest.Simulation.{StandsFor, run_refines}
use mqtt_projeto_vena.Telemetry.Ingest.Loop.{Ingestor, Round, batch_size, meta_device, run}
use mqtt_projeto_vena.Telemetry.Ingest.Stored.{IsKeyed}
use mqtt_projeto_vena.Telemetry.Ingest.Delivery.{flush_delivers}
use mqtt_projeto_vena.Telemetry.Ingest.Encoded.{Writable}
use mqtt_projeto_vena.Telemetry.Ingest.Progress.{other, Pending}
use mqtt_projeto_vena.Telemetry.Ingest.Run.{AllBenign, brings_all, run_delivers}
use mqtt_projeto_vena.Telemetry.Ingest.Poison.{no_object, poison_ends_task}
use mqtt_projeto_vena.Telemetry.Samples.{
  Mapping, TelemetrySample, HistoryResponse, plain_response, raw_sample,
}
use mqtt_projeto_vena.Telemetry.History.{
  Execute, bucket_samples, get_device, find_device, get_device_history,
}
use mqtt_projeto_vena.Telemetry.History.Aggregated.{HasColumns, aggregated_samples}
use mqtt_projeto_vena.Telemetry.History.Window.{Page, ShowAll, history_window}
use mqtt_projeto_vena.Tests.Values.{python, driver, blank_row, start_db}

abbrev reading : Row
reading = record {
  device_id = "vena-01";
  ts = 63835596800000000;
  ambient_t = null;
  ambient_h = null;
  diss_t = null;
  diss_h = null;
  setpoint = int (pos 45);
  pid_out = null;
  uptime_ms = null;
  seq = null;
}

-- the reading comes with another one of the same key
abbrev readings : List Row
readings = reading ∷ record reading { setpoint = null } ∷ []

fits : Writable driver readings
fits = (
  (refl, (blank_row "vena-01" 63835596800000000, refl)),
  ((refl, (blank_row "vena-01" 63835596800000000, refl)), tt),
)

abbrev empty_db : Db memory
empty_db = record start_db { telemetry_raw = [] }

abbrev flushed_db : Db memory
flushed_db = (flush_delivers memory driver 50 readings empty_db fits).0

empty-IsKeyed : IsKeyed memory empty_db.telemetry_raw
empty-IsKeyed device_id at = omega arith

abbrev round : Round
round = record {
  got = some ("vena/vena-01/telemetry", 2 ∷ []);
  wall = 50;
  tested_at = 2000000;
  flushed_at = 2000100;
}

abbrev ingestor : Ingestor memory
ingestor = record { db = start_db; batch = []; last_flush = 0 }

not_meta : meta_device "vena/vena-01/telemetry" ≡ none
unfolding meta_device parse_topic parse_parts split
not_meta = refl

parsed : parse python "vena/vena-01/telemetry" (2 ∷ []) ≡ ok (some reading)
unfolding parse parse_topic parse_parts split parse_payload parse_data row_at timestamp int_of get
parsed = refl

benign : AllBenign python driver memory (round ∷ [])
benign = (other (some reading) not_meta parsed (fits.0, tt), tt)

run_delivers_example :
    (after : Ingestor memory) × (run memory python driver ingestor (round ∷ []) ≡ ok after)
    × All
        (λ r. Pending python driver memory after r.device_id r.ts)
        (brings_all python driver memory (round ∷ []) benign)
    × All {A = Row} (λ r. Pending python driver memory after r.device_id r.ts) []
    × (length after.batch < batch_size)
run_delivers_example =
    run_delivers python driver memory (round ∷ []) ingestor benign tt (omega arith)

addressed : parse_topic "vena/vena-01/telemetry" ≡ some ("vena-01", "telemetry")
unfolding parse_topic parse_parts split
addressed = refl

poison_ends_task_example :
    (e : Error) × (run memory python driver ingestor
        (record round { got = some ("vena/vena-01/telemetry", 1 ∷ []) } ∷ round ∷ [])
      ≡ err e)
poison_ends_task_example =
    poison_ends_task memory python driver ingestor
      (record round { got = some ("vena/vena-01/telemetry", 1 ∷ []) }) (round ∷ [])
      "vena/vena-01/telemetry" "vena-01" (1 ∷ []) refl addressed (no_object (arr nil) refl tt)

day : parse_range "24h" ≡ ok (hours 24)
unfolding parse_range
day = refl

resolve_bucket-IsConcrete_example :
    (resolved : String) × (resolve_bucket "24h" "auto" ≡ ok resolved)
    × IsConcrete resolved
    × (◌≡◌ {A = String} "auto" "auto" ⊎ (resolved ≡ "auto"))
resolve_bucket-IsConcrete_example = resolve_bucket-IsConcrete "24h" "auto" (hours 24) day refl

-- the names " diss_t" and "setpoint", with an empty one between them
asked : parse_metrics " diss_t,,setpoint" ≡ ok ("diss_t" ∷ "setpoint" ∷ [])
unfolding parse_metrics check_metrics check_known requested_metrics split strip strip_left
    strip_right is_space
asked = refl

parse_metrics-known_example :
    ("diss_t" ∷ "setpoint" ∷ [] ≡ (
      if " diss_t,,setpoint" == "all" then all_metrics else requested_metrics " diss_t,,setpoint"))
    × (◌≢◌ {A = List String} ("diss_t" ∷ "setpoint" ∷ []) [])
    × All (λ m. contains m all_metrics ≡ true) ("diss_t" ∷ "setpoint" ∷ [])
parse_metrics-known_example = parse_metrics-known " diss_t,,setpoint" asked

abbrev newest : HistoryResponse
newest = plain_response "vena-01" (raw_sample (blank_row "vena-01" 20) ∷ [])

abbrev oldest : HistoryResponse
oldest = plain_response "vena-01" (raw_sample (blank_row "vena-01" 10) ∷ [])

abbrev both : HistoryResponse
both =
    plain_response "vena-01"
      (raw_sample (blank_row "vena-01" 20) ∷ raw_sample (blank_row "vena-01" 10) ∷ [])

first_page : get_device_history memory 1000 "vena-01" (some 5) (some 100) 1 0 start_db ≡ ok newest
unfolding get_device_history get_device find_device
first_page = refl

second_page : get_device_history memory 1000 "vena-01" (some 5) (some 100) 1 1 start_db ≡ ok oldest
unfolding get_device_history get_device find_device
second_page = refl

both_pages : get_device_history memory 1000 "vena-01" (some 5) (some 100) 2 0 start_db ≡ ok both
unfolding get_device_history get_device find_device
both_pages = refl

history_window_example :
    (newest.count ≡ length newest.samples)
    × ((p : Page memory "vena-01" 5 100 1 0 start_db) × ShowAll newest.samples p.rows)
history_window_example =
    history_window memory 1000 "vena-01" (some 5) (some 100) start_db 1 0 first_page

abbrev hour_row : Mapping
hour_row = record {
  bucket = 3600000000;
  sample_count = 12;
  columns =
      ("diss_t_avg", some 45)
      ∷ ("diss_t_min", some 40)
      ∷ ("diss_t_max", none)
      ∷ ("setpoint_avg", some 50)
      ∷ [];
}

abbrev answers : Execute memory
answers = λ statement device_id start_ts end_ts row_limit db. hour_row ∷ []

abbrev hourly : String
hourly =
    "SELECT date_trunc('hour', ts) AS bucket, AVG(diss_t) AS diss_t_avg, MIN(diss_t) AS diss_t_min, MAX(diss_t) AS diss_t_max, AVG(setpoint) AS setpoint_avg, COUNT(*) AS sample_count FROM telemetry_raw WHERE device_id = :device_id   AND ts >= :start_ts   AND ts <  :end_ts GROUP BY 1 ORDER BY 1"

built : build_aggregate_sql "1h" ("diss_t" ∷ "setpoint" ∷ []) ≡ ok hourly
unfolding build_aggregate_sql date_trunc_field select_parts all_metric_parts metric_parts
    has_min_max join
built = refl

has_columns : All (HasColumns ("diss_t" ∷ "setpoint" ∷ [])) (hour_row ∷ [])
unfolding all_metric_parts metric_parts has_min_max
has_columns = ((refl, (refl, (refl, (refl, tt)))), tt)

aggregated_samples_example :
    (samples : List TelemetrySample) × (bucket_samples memory answers "vena-01" "1h"
        ("diss_t" ∷ "setpoint" ∷ [])
        0
        7200000000
        500
        start_db
      ≡ ok samples)
    × (map TelemetrySample.ts samples ≡ map Mapping.bucket (hour_row ∷ []))
    × (map TelemetrySample.sample_count samples ≡ map (λ r. some r.sample_count) (hour_row ∷ []))
aggregated_samples_example =
    aggregated_samples memory answers "vena-01" "1h" ("diss_t" ∷ "setpoint" ∷ []) 0 7200000000 500
      start_db hourly refl built has_columns

empty_stands : StandsFor python driver memory empty_db.telemetry_raw [] (λ device_id at. none)
unfolding record_rows
empty_stands = record {
  written = λ device_id at. none;
  represents = λ device_id at q. refl;
  pending = refl;
  writable = tt;
}

run_refines_example :
    (after : Ingestor memory) × (run memory python driver
        (record ingestor { db = empty_db })
        (round ∷ [])
      ≡ ok after)
    × StandsFor python driver memory after.db.telemetry_raw after.batch (
        record_rows driver
          (brings_all python driver memory (round ∷ []) benign)
          (λ device_id at. none))
run_refines_example =
    run_refines python driver memory (round ∷ []) (record ingestor { db = empty_db }) benign
      (λ device_id at. none) empty_stands
