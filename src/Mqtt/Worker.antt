-- ===== src/Mqtt/Worker.antt =====
-- backend/app/mqtt/worker.py. The calls of the Paho client are written down as events, in their order;
-- the backoff is in seconds (the source's floats are whole numbers below 2^53, hence exact).
pub mod Session
use mqtt_projeto_vena.Prelude.{ℕ, ◌*◌, String, List, [], ◌∷◌, ◌++◌, map, min, eqb, if◌then◌else◌}
use mqtt_projeto_vena.Config.{Settings}
use mqtt_projeto_vena.Db.{Time}
use mqtt_projeto_vena.Auth.Jwt.{Jose, create_backend_token}

abbrev pub topics : List (String × ℕ)
topics = ("vena/+/telemetry", 1) ∷ ("vena/+/status", 1) ∷ ("vena/+/meta", 1) ∷ []

-- A call of the client, or of the event loop for a message.
pub data Call (Token : Type 0) (Bytes : Type 0) : Type 0 where
  username_pw_set : Token → (password : String) → Call Token Bytes
  connect_async : (host : String) → (port : ℕ) → Call Token Bytes
  loop_start : Call Token Bytes
  loop_stop : Call Token Bytes
  disconnect : Call Token Bytes
  subscribe : (topic : String) → (qos : ℕ) → Call Token Bytes
  put_nowait : (topic : String) → (payload : Bytes) → Call Token Bytes

-- What calls the worker: the application's lifespan, and Paho.
pub data Event (Bytes : Type 0) : Type 0 where
  start : Time → Event Bytes
  stop : Event Bytes
  on_connect : (reason_code : ℕ) → Event Bytes
  on_disconnect : Time → Event Bytes
  on_message : (topic : String) → (payload : Bytes) → Event Bytes

module _ (jose : Jose) (settings : Settings) (Bytes : Type 0) where
  pub record MqttWorker : Type 0 where
    pub backoff : ℕ
    pub calls : List (Call jose.Token Bytes)

  -- the constructor
  abbrev pub new_worker : MqttWorker
  new_worker = record { backoff = 1; calls = [] }

  abbrev pub call : MqttWorker → List (Call jose.Token Bytes) → MqttWorker
  call w more = record w { calls = w.calls ++ more }

  unfoldable pub refresh_jwt : Time → MqttWorker → MqttWorker
  refresh_jwt now w = call w (username_pw_set (create_backend_token jose settings now) "vena" ∷ [])

  unfoldable pub handle_start : Time → MqttWorker → MqttWorker
  handle_start now w =
      call (refresh_jwt now w)
        (connect_async settings.mqtt_host settings.mqtt_port ∷ loop_start ∷ [])

  unfoldable pub handle_stop : MqttWorker → MqttWorker
  handle_stop w = call w (loop_stop ∷ disconnect ∷ [])

  unfoldable pub handle_connect : (reason_code : ℕ) → MqttWorker → MqttWorker
  handle_connect reason_code w =
      if eqb reason_code 0
      then record (call w (map (λ t. subscribe t.0 t.1) topics)) { backoff = 1 }
      else w

  unfoldable pub handle_disconnect : Time → MqttWorker → MqttWorker
  handle_disconnect now w = refresh_jwt now (record w { backoff = min (w.backoff * 2) 30 })

  -- `call_soon_threadsafe` has the loop call `put_nowait`, which is not run yet when the handler returns.
  unfoldable pub handle_message : (topic : String) → Bytes → MqttWorker → MqttWorker
  handle_message topic payload w = call w (put_nowait topic payload ∷ [])

  unfoldable pub handle : Event Bytes → MqttWorker → MqttWorker
  handle (start now) w = handle_start now w
  handle stop w = handle_stop w
  handle (on_connect reason_code) w = handle_connect reason_code w
  handle (on_disconnect now) w = handle_disconnect now w
  handle (on_message topic payload) w = handle_message topic payload w

  -- the events of a session, one after the other
  unfoldable pub handle_all : List (Event Bytes) → MqttWorker → MqttWorker
  handle_all [] w = w
  handle_all (e ∷ es) w = handle_all es (handle e w)
