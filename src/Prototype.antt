-- ===== src/Prototype.antt =====
-- application/: the console client that came before the backend. Its effects are written down in their
-- order; what `json.loads` makes of a payload is a parameter. A log record whose values do not fit
-- its format is reported on stderr by `logging` itself, which raises nothing and logs nothing.
pub mod Samples
use mqtt_projeto_vena.Prelude.{
  ℕ, ◌+◌, ◌-◌, ◌^◌, ltb, lookup, String, List, [], ◌∷◌, ◌++◌, map, keep, not, Option, none, some,
  Bool, true, false, ◌&&◌, ◌==◌, contains, eqb, if◌then◌else◌,
}
use mqtt_projeto_vena.Json.{
  Json, Fields, ℤ, pos, negsuc, null, bool, int, float, str, arr, obj, pairs,
}
use mqtt_projeto_vena.Telemetry.Ingest.Rows.{Bytes, Loaded, json, json_decode_error, not_unicode}

-- mqtt_broker_configs
pub record BrokerConfigs : Type 0 where
  pub host : String
  pub port : ℕ
  pub client_name : String
  pub keppalive : ℕ
  pub topic : String
  pub topic_telemetry : String
  pub topic_cmd : String

abbrev pub mqtt_broker_configs : BrokerConfigs
mqtt_broker_configs = record {
  host = "localhost";
  port = 1883;
  client_name = "client_project_vena";
  keppalive = 3;
  topic = "/messages";
  topic_telemetry = "cocoa/box01/telemetry";
  topic_cmd = "cocoa/box01/cmd";
}

-- EXPECTED_FIELDS
abbrev pub expected_fields : List String
expected_fields =
    "ambient_t" ∷ "ambient_h" ∷ "diss_t" ∷ "diss_h" ∷ "setpoint" ∷ "pid_out" ∷ "uptime_ms" ∷ []

-- What the program does: calls of the client, records of the log, lines that are printed, and the
-- callback of the service.
pub data Effect : Type 0 where
  connect : (host : String) → (port keepalive : ℕ) → Effect
  loop_start : Effect
  disconnect : Effect
  subscribe : (topic : String) → Effect
  publish : (topic : String) → Json → Effect
  warn_invalid : (topic : String) → Effect
  warn_not_object : (topic : String) → Effect
  warn_missing : List String → Effect
  log_telemetry : Fields → Effect
  report_logging_error : Effect
  on_sample : Fields → Effect
  log_exception : Effect
  print_message : Bytes → Effect
  print_connected : Effect
  print_error : (rc : ℕ) → Effect

-- A TelemetryService: the callback, with whether it raises for a sample, if there is one.
pub record TelemetryService : Type 0 where
  pub raises : Option (Fields → Bool)

-- EXPECTED_FIELDS - payload.keys()
unfoldable pub missing : Fields → List String
missing fields = keep (λ name. not (contains name (map (λ p. p.0) (pairs fields)))) expected_fields

-- A number that `%.1f` takes: `float(n)` overflows from halfway beyond the largest binary64 on.
abbrev pub float_limit : ℕ
float_limit = 2 ^ 1024 - 2 ^ 970

abbrev pub fits_float : ℤ → Bool
fits_float (pos n) = ltb n float_limit
fits_float (negsuc n) = ltb (n + 1) float_limit

unfoldable pub is_number : Json → Bool
is_number (bool b) = true
is_number (int n) = fits_float n
is_number (float x) = true
is_number _ = false

-- `payload.get(name, float("nan"))` under `%.1f`
unfoldable pub fits_format : Fields → (name : String) → Bool
unfolding is_number
fits_format fields name = elim (lookup name (pairs fields)) [ none ↦ true | some v ↦ is_number v ]

-- the record of a sample: `uptime_ms` is under `%s`, which takes any value
unfoldable pub can_log : Fields → Bool
unfolding fits_format
can_log fields =
    fits_format fields "ambient_t"
    && fits_format fields "ambient_h"
    && fits_format fields "diss_t"
    && fits_format fields "setpoint"
    && fits_format fields "pid_out"

abbrev pub log_sample : Fields → Effect
log_sample fields = if can_log fields then log_telemetry fields else report_logging_error

-- `if missing:`
unfoldable pub warn_if_missing : List String → List Effect
warn_if_missing [] = []
warn_if_missing (name ∷ names) = warn_missing (name ∷ names) ∷ []

-- the end of `handle_message`: the callback, whose exception is logged
unfoldable pub call_on_sample : TelemetryService → Fields → List Effect
call_on_sample service fields = elim service.raises [
  | none ↦ []
  | some raises ↦ on_sample fields ∷ (if raises fields then log_exception ∷ [] else [])
]

-- `TelemetryService.handle_message`, for what the payload decodes to
unfoldable pub handle_message : TelemetryService → (topic : String) → Loaded → List Effect
handle_message service topic json_decode_error = warn_invalid topic ∷ []
handle_message service topic not_unicode = warn_invalid topic ∷ []
handle_message service topic (json (obj fields)) =
    warn_if_missing (missing fields) ++ log_sample fields ∷ call_on_sample service fields
handle_message service topic (json other) = warn_not_object topic ∷ []

-- `TelemetryService.subscribe`
abbrev pub subscribe_telemetry : List Effect
subscribe_telemetry = subscribe mqtt_broker_configs.topic_telemetry ∷ []

unfoldable pub on_connect : (rc : ℕ) → List Effect
on_connect rc =
    if eqb rc 0
    then print_connected
      ∷ subscribe mqtt_broker_configs.topic
      ∷ subscribe mqtt_broker_configs.topic_telemetry
      ∷ []
    else print_error rc ∷ []

-- `MqttClientConnection.start_connection`
abbrev pub start_connection : List Effect
start_connection =
    connect mqtt_broker_configs.host mqtt_broker_configs.port mqtt_broker_configs.keppalive
    ∷ loop_start
    ∷ []

-- `MqttClientConnection.end_connection`: `loop_stop` is named but not called; without a client the
-- attribute is missing, which the bare `except` turns into False.
unfoldable pub end_connection : (has_client : Bool) → List Effect × Bool
end_connection true = (disconnect ∷ [], true)
end_connection false = ([], false)

-- `publish_setpoint`, for the float's bits
abbrev pub publish_setpoint : (value : ℕ) → List Effect
publish_setpoint value =
    publish mqtt_broker_configs.topic_cmd (obj (Fields.field "setpoint" (float value) Fields.end))
    ∷ []

-- What the broker sends; `on_subscribe` only prints and is left out.
pub data Event : Type 0 where
  connected : (rc : ℕ) → Event
  message : (topic : String) → Bytes → Event

module _ (json_loads : Bytes → Loaded) where
  -- the global `_telemetry_service` is the state
  unfoldable pub on_message : Option TelemetryService → (topic : String) → Bytes → List Effect
  on_message none topic payload = print_message payload ∷ []
  on_message (some service) topic payload =
      if topic == mqtt_broker_configs.topic_telemetry
      then handle_message service topic (json_loads payload)
      else print_message payload ∷ []

  unfoldable pub run_events : Option TelemetryService → List Event → List Effect
  run_events service [] = []
  run_events service (connected rc ∷ es) = on_connect rc ++ run_events service es
  run_events service (message topic payload ∷ es) =
      on_message service topic payload ++ run_events service es

  -- `start`, with what the broker sends before the service is registered, and from then on. The service
  -- has no callback.
  unfoldable pub start : (early late : List Event) → List Effect
  start early late =
      start_connection
      ++ run_events none early
      ++ subscribe_telemetry
      ++ run_events (some (record { raises = none })) late
