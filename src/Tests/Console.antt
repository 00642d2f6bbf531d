-- ===== src/Tests/Console.antt =====
-- The console client with one message.
use mqtt_projeto_vena.Prelude.{[], ◌∷◌}
use mqtt_projeto_vena.Prototype.{Event, message}

abbrev reading : Event
reading = message "cocoa/box01/telemetry" (2 ∷ [])
