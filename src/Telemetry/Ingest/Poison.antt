-- ===== src/Telemetry/Ingest/Poison.antt =====
-- Messages whose payload is no JSON object or no text.
use mqtt_projeto_vena.Prelude.{◌≡◌, refl, String, List, ◌∷◌, none, some}
use mqtt_projeto_vena.Http.{err, uncaught, Error, attribute_error, unicode_decode_error}
use mqtt_projeto_vena.Sql.{Sql}
use mqtt_projeto_vena.Json.{Json, obj}
use mqtt_projeto_vena.Mqtt.Topics.{parse_topic}
use mqtt_projeto_vena.Telemetry.Ingest.Rows.{
  Python, Bytes, json, not_unicode, parse_data, parse_payload, parse,
}
use mqtt_projeto_vena.Telemetry.Ingest.Flush.{Driver}
use mqtt_projeto_vena.Telemetry.Ingest.Loop.{
  Ingestor, Round, meta_device, take_message, take_got, step, run,
}

-- a JSON value that is no object
abbrev pub NoObject : Json → Type 0
NoObject (obj fs) = ⊥
NoObject _ = Unit

-- a payload that is valid JSON but no object, or that is no text
pub data IsPoison (py : Python) (payload : Bytes) : Type 0 where
  no_object : (j : Json) → py.json_loads payload ≡ json j → NoObject j → IsPoison py payload
  no_text : py.json_loads payload ≡ not_unicode → IsPoison py payload

parse_data-NoObject :
    (py : Python) (device_id : String) (j : Json)
    → NoObject j
    → parse_data py device_id j ≡ err (uncaught attribute_error)
unfolding parse_data
parse_data-NoObject py device_id (obj fs) h = elim h [ ]
parse_data-NoObject py device_id _ h = refl

poisoned :
    (py : Python) (device_id : String) (payload : Bytes)
    → IsPoison py payload
    → (e : Error) × (parse_payload py device_id payload ≡ err e)
unfolding parse_payload
poisoned py device_id payload (no_object j e h) =
    (uncaught attribute_error, rw (e, parse_payload) (parse_data-NoObject py device_id j h))
poisoned py device_id payload (no_text e) = (uncaught unicode_decode_error, rw (e, parse_payload))

-- such a message is taken for telemetry, and raises
parse_poison :
    (py : Python) (topic device_id : String) (payload : Bytes)
    → parse_topic topic ≡ some (device_id, "telemetry")
    → IsPoison py payload
    → (e : Error) × (parse py topic payload ≡ err e)
unfolding parse
parse_poison py topic device_id payload named bad =
    let (e, raised) = poisoned py device_id payload bad in (e, rw (named, parse) raised)

not_meta :
    (topic device_id : String)
    → parse_topic topic ≡ some (device_id, "telemetry")
    → meta_device topic ≡ none
unfolding meta_device
not_meta topic device_id named = rw (named, meta_device)

module _ (sql : Sql) (py : Python) (driver : Driver) where
  -- One telemetry message whose payload is valid JSON but no object, or is not valid text, raises an
  -- exception that nothing catches: the task ends there, whatever was in the batch, and none of the
  -- messages after it is taken.
  pub poison_ends_task :
      (s : Ingestor sql) (round : Round) (later : List Round) (topic device_id : String)
      (payload : Bytes)
      → round.got ≡ some (topic, payload)
      → parse_topic topic ≡ some (device_id, "telemetry")
      → IsPoison py payload
      → (e : Error) × (run sql py driver s (round ∷ later) ≡ err e)
  unfolding run step take_got take_message
  poison_ends_task s round later topic device_id payload got named bad =
      let (e, raised) = parse_poison py topic device_id payload named bad in
      (e, rw (got, take_got) (rw (not_meta topic device_id named, take_message) (rw raised)))
