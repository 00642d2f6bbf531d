-- ===== src/Telemetry/Samples.antt =====
-- The responses of the history (backend/app/telemetry/schemas.py) and how service.py builds their samples.
use mqtt_projeto_vena.Prelude.{
  ℕ, String, List, [], ◌∷◌, ◌++◌, Option, none, some, ◌<>◌, length, lookup, if◌then◌else◌,
}
use mqtt_projeto_vena.Http.{Result, ok, uncaught, key_error, ◌>>=◌, require}
use mqtt_projeto_vena.Db.{TelemetryRaw, Time, Float}
use mqtt_projeto_vena.Telemetry.Aggregation.{has_min_max}

pub record TelemetrySample : Type 0 where
  pub ts : Time
  pub ambient_t : Option Float
  pub ambient_h : Option Float
  pub diss_t : Option Float
  pub diss_h : Option Float
  pub setpoint : Option Float
  pub pid_out : Option Float
  pub ambient_t_min : Option Float
  pub ambient_t_max : Option Float
  pub ambient_h_min : Option Float
  pub ambient_h_max : Option Float
  pub diss_t_min : Option Float
  pub diss_t_max : Option Float
  pub diss_h_min : Option Float
  pub diss_h_max : Option Float
  pub sample_count : Option ℕ

pub record HistoryResponse : Type 0 where
  pub device_id : String
  pub count : ℕ
  pub samples : List TelemetrySample
  pub bucket : Option String
  pub range_start : Option Time
  pub range_end : Option Time

-- a row of the aggregate query: the columns `bucket` and `sample_count`, and the others by name
pub record Mapping : Type 0 where
  pub bucket : Time
  pub sample_count : ℕ
  pub columns : List (String × Option Float)

abbrev pub empty_sample : Time → TelemetrySample
empty_sample ts = record {
  ts = ts;
  ambient_t = none;
  ambient_h = none;
  diss_t = none;
  diss_h = none;
  setpoint = none;
  pid_out = none;
  ambient_t_min = none;
  ambient_t_max = none;
  ambient_h_min = none;
  ambient_h_max = none;
  diss_t_min = none;
  diss_t_max = none;
  diss_h_min = none;
  diss_h_max = none;
  sample_count = none;
}

-- the sample of a raw row
unfoldable pub raw_sample : TelemetryRaw → TelemetrySample
raw_sample row = record (empty_sample row.ts) {
  ambient_t = row.ambient_t;
  ambient_h = row.ambient_h;
  diss_t = row.diss_t;
  diss_h = row.diss_h;
  setpoint = row.setpoint;
  pid_out = row.pid_out;
}

abbrev pub or_none : Option (Option Float) → Option Float
or_none none = none
or_none (some v) = v

-- the sample that TelemetrySample(**kwargs) builds: pydantic leaves out names that are no field
unfoldable pub sample_of :
    (bucket : Time) (sample_count : ℕ) → List (String × Option Float) → TelemetrySample
sample_of bucket sample_count kwargs =
    let field : String → Option Float = λ name. or_none (lookup name kwargs) in
    record {
      ts = bucket;
      ambient_t = field "ambient_t";
      ambient_h = field "ambient_h";
      diss_t = field "diss_t";
      diss_h = field "diss_h";
      setpoint = field "setpoint";
      pid_out = field "pid_out";
      ambient_t_min = field "ambient_t_min";
      ambient_t_max = field "ambient_t_max";
      ambient_h_min = field "ambient_h_min";
      ambient_h_max = field "ambient_h_max";
      diss_t_min = field "diss_t_min";
      diss_t_max = field "diss_t_max";
      diss_h_min = field "diss_h_min";
      diss_h_max = field "diss_h_max";
      sample_count = some sample_count;
    }

-- `r[name]`
abbrev pub column : Mapping → String → Result (Option Float)
column r name = require (lookup name r.columns) (uncaught key_error)

-- the keyword arguments of one metric
unfoldable pub metric_kwargs : Mapping → String → Result (List (String × Option Float))
metric_kwargs r m =
    if has_min_max m
    then (do
      avg_v ← column r (m <> "_avg")
      min_v ← column r (m <> "_min")
      max_v ← column r (m <> "_max")
      ok ((m, avg_v) ∷ (m <> "_min", min_v) ∷ (m <> "_max", max_v) ∷ []))
    else (do avg_v ← column r (m <> "_avg"); ok ((m, avg_v) ∷ []))

unfoldable pub kwargs_of : Mapping → List String → Result (List (String × Option Float))
kwargs_of r [] = ok []
kwargs_of r (m ∷ ms) = do first ← metric_kwargs r m; rest ← kwargs_of r ms; ok (first ++ rest)

unfoldable pub agg_samples : List String → List Mapping → Result (List TelemetrySample)
agg_samples metrics [] = ok []
agg_samples metrics (r ∷ rs) = do
  kwargs ← kwargs_of r metrics
  rest ← agg_samples metrics rs
  ok (sample_of r.bucket r.sample_count kwargs ∷ rest)

unfoldable pub plain_response : (device_id : String) → List TelemetrySample → HistoryResponse
plain_response device_id samples = record {
  device_id = device_id;
  count = length samples;
  samples = samples;
  bucket = none;
  range_start = none;
  range_end = none;
}

unfoldable pub ranged_response :
    (device_id bucket : String) → (start_ts end_ts : Time) → List TelemetrySample → HistoryResponse
ranged_response device_id bucket start_ts end_ts samples = record {
  device_id = device_id;
  count = length samples;
  samples = samples;
  bucket = some bucket;
  range_start = some start_ts;
  range_end = some end_ts;
}
