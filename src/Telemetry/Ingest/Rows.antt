-- ===== src/Telemetry/Ingest/Rows.antt =====
-- `TelemetryIngestor._parse`. What Python's json, int and datetime answer is a parameter.
use mqtt_projeto_vena.Prelude.{
  ℕ, String, List, Option, none, some, Bool, true, false, ◌==◌, if◌then◌else◌,
}
use mqtt_projeto_vena.Http.{
  Exception, Result, ok, err, uncaught, value_error, os_error, type_error, attribute_error,
  unicode_decode_error,
}
use mqtt_projeto_vena.Json.{Json, Fields, ℤ, pos, null, bool, int, float, str, arr, obj, get}
use mqtt_projeto_vena.Db.{Time}
use mqtt_projeto_vena.Mqtt.Topics.{parse_topic}

abbrev pub Bytes : Type 0
Bytes = List ℕ

-- The answer of `json.loads`: a value, a JSONDecodeError, or the UnicodeDecodeError of bytes that are
-- no text.
pub data Loaded : Type 0 where
  json : Json → Loaded
  json_decode_error : Loaded
  not_unicode : Loaded

-- The answer of a conversion of Python.
pub data Converted (A : Type 0) : Type 0 where
  value : A → Converted A
  raises : Exception → Converted A

pub record Python : Type 0 where
  pub json_loads : Bytes → Loaded
  -- `int(text)` and `int(float)`
  pub int_of_text : String → Converted ℤ
  pub int_of_float : ℕ → Converted ℤ
  -- `datetime.fromtimestamp(n / 1000, tz=timezone.utc)`
  pub from_millis : ℤ → Converted Time

-- A row for telemetry_raw, with the values as they came.
pub record Row : Type 0 where
  pub device_id : String
  pub ts : Time
  pub ambient_t : Json
  pub ambient_h : Json
  pub diss_t : Json
  pub diss_h : Json
  pub setpoint : Json
  pub pid_out : Json
  pub uptime_ms : Json
  pub seq : Json

-- `except (ValueError, OSError)`: the row is dropped; any other exception goes on.
unfoldable pub or_drop : {A : Type 0} → Exception → Result (Option A)
or_drop value_error = ok none
or_drop os_error = ok none
or_drop e = err (uncaught e)

module _ (py : Python) where
  -- `int(ts_raw)`
  unfoldable pub int_of : Json → Converted ℤ
  int_of null = raises type_error
  int_of (bool b) = value (if b then pos 1 else pos 0)
  int_of (int n) = value n
  int_of (float f) = py.int_of_float f
  int_of (str s) = py.int_of_text s
  int_of (arr l) = raises type_error
  int_of (obj fs) = raises type_error

  unfoldable pub timestamp : Json → Converted Time
  unfolding int_of
  timestamp ts_raw = elim (int_of ts_raw) [ value n ↦ py.from_millis n | raises e ↦ raises e ]

  abbrev pub row_of : String → Time → Fields → Row
  row_of device_id ts fields = record {
    device_id = device_id;
    ts = ts;
    ambient_t = get fields "ambient_t";
    ambient_h = get fields "ambient_h";
    diss_t = get fields "diss_t";
    diss_h = get fields "diss_h";
    setpoint = get fields "setpoint";
    pid_out = get fields "pid_out";
    uptime_ms = get fields "uptime_ms";
    seq = get fields "seq";
  }

  -- the end of `_parse`, for a timestamp that is there
  unfoldable pub row_at : String → Fields → Json → Result (Option Row)
  unfolding timestamp or_drop
  row_at device_id fields ts_raw = elim (timestamp ts_raw) [
    | value ts ↦ ok (some (row_of device_id ts fields))
    | raises e ↦ or_drop e
  ]

  abbrev pub is_null : Json → Bool
  is_null null = true
  is_null _ = false

  -- `data.get` on a value that is no dict is an AttributeError
  unfoldable pub parse_data : String → Json → Result (Option Row)
  unfolding row_at
  parse_data device_id (obj fields) =
      if is_null (get fields "ts") then ok none else row_at device_id fields (get fields "ts")
  parse_data device_id _ = err (uncaught attribute_error)

  unfoldable pub parse_payload : String → Bytes → Result (Option Row)
  unfolding parse_data
  parse_payload device_id payload = elim (py.json_loads payload) [
    | json data_ ↦ parse_data device_id data_
    | json_decode_error ↦ ok none
    | not_unicode ↦ err (uncaught unicode_decode_error)
  ]

  unfoldable pub parse : (topic : String) → (payload : Bytes) → Result (Option Row)
  unfolding parse_payload
  parse topic payload = elim (parse_topic topic) [
    | none ↦ ok none
    | some (device_id, msg_type) ↦
        if msg_type == "telemetry" then parse_payload device_id payload else ok none
  ]
