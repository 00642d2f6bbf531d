-- ===== src/Prototype/Samples.antt =====
-- application/main/telemetry: which messages become samples.
use mqtt_projeto_vena.Prelude.{List, [], ◌∷◌, ◌++◌, none, some, Bool, true, ◌==◌, if◌then◌else◌}
use mqtt_projeto_vena.Json.{Fields, obj}
use mqtt_projeto_vena.Telemetry.Ingest.Rows.{Bytes, Loaded, json}
use mqtt_projeto_vena.Prototype.{
  mqtt_broker_configs, Effect, on_sample, log_telemetry, TelemetryService, Event, connected,
  message,
}

-- the sample that the callback is given, and the one that the log shows
abbrev pub sample_in : Effect → List Fields
sample_in (on_sample fields) = fields ∷ []
sample_in _ = []

abbrev pub record_in : Effect → List Fields
record_in (log_telemetry fields) = fields ∷ []
record_in _ = []

pub collect : (Effect → List Fields) → List Effect → List Fields
collect f [] = []
collect f (e ∷ es) = f e ++ collect f es

-- the JSON objects among the payloads of the telemetry topic
pub object_of : Loaded → List Fields
object_of (json (obj fields)) = fields ∷ []
object_of _ = []

pub objects : (json_loads : Bytes → Loaded) → List Event → List Fields
objects json_loads [] = []
objects json_loads (connected rc ∷ es) = objects json_loads es
objects json_loads (message topic payload ∷ es) =
    (if topic == mqtt_broker_configs.topic_telemetry then object_of (json_loads payload) else [])
    ++ objects json_loads es

-- with a callback that may raise
abbrev pub with_callback : (Fields → Bool) → TelemetryService
with_callback raises = record { raises = some raises }

abbrev pub every : Fields → Bool
every fields = true

abbrev no_callback : TelemetryService
no_callback = record { raises = none }
