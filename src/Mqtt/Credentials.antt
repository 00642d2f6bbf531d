-- ===== src/Mqtt/Credentials.antt =====
-- backend/app/mqtt/credentials.py and the endpoints of backend/app/mqtt/routes.py.
use mqtt_projeto_vena.Prelude.{
  ℕ, ◌-◌, ◌*◌, ◌/◌, String, List, map, Option, ◌==◌, ltb, eqb, if◌then◌else◌,
}
use mqtt_projeto_vena.Http.{Result, ok, ◌>>=◌}
use mqtt_projeto_vena.Config.{Settings}
use mqtt_projeto_vena.Sql.{Sql}
use mqtt_projeto_vena.Json.{ℤ, pos, negsuc}
use mqtt_projeto_vena.Db.{Db, User, UserDevice, Time, second}
use mqtt_projeto_vena.Auth.Jwt.{Jose, jwt_max_exp, create_mqtt_token, create_device_jwt}
use mqtt_projeto_vena.Auth.Deps.{get_current_user}

pub record MqttCredentials (Token : Type 0) : Type 0 where
  pub mqtt_token : Token
  pub expires_in : ℕ
  pub broker_host : String
  pub broker_port : ℕ

pub record Provision (Token : Type 0) : Type 0 where
  pub device_jwt : Token
  pub expires_in : ℤ

-- `a or b` on texts
abbrev pub or_text : String → String → String
or_text a b = if a == "" then b else a

-- `int((later - earlier).total_seconds())`, which drops the fraction on either side of 0
unfoldable pub seconds_until : (later earlier : Time) → ℤ
seconds_until later earlier =
    if ltb later earlier
    then (let n = (earlier - later) / second in if eqb n 0 then pos 0 else negsuc (n - 1))
    else pos ((later - earlier) / second)

module _ (sql : Sql) where
  -- SELECT user_devices.device_id … WHERE user_id = …
  unfoldable pub claimed_ids : User → Db sql → List String
  claimed_ids user db =
      map (λ ud. ud.device_id) (sql.select UserDevice (λ ud. ud.user_id == user.id) db.user_devices)

module _ (sql : Sql) (jose : Jose) (settings : Settings) where
  unfoldable pub get_mqtt_credentials : (now : Time) → User → Db sql → MqttCredentials jose.Token
  get_mqtt_credentials now user db = record {
    mqtt_token = create_mqtt_token jose settings now user (claimed_ids sql user db);
    expires_in = settings.mqtt_jwt_expire_minutes * 60;
    broker_host = or_text settings.mqtt_public_host settings.mqtt_host;
    broker_port =
        if ltb 0 settings.mqtt_public_port then settings.mqtt_public_port else settings.mqtt_port;
  }

  -- `read_at` is the second reading of the clock, for the time that is left
  unfoldable pub provision_device :
      (now read_at : Time) → (device_id : String) → Provision jose.Token
  provision_device now read_at device_id = record {
    device_jwt = create_device_jwt jose settings now device_id;
    expires_in =
        if eqb settings.device_jwt_expire_days 0
        then seconds_until jwt_max_exp read_at
        else pos (settings.device_jwt_expire_days * 86400);
  }

  module _ (uuid : String → Option String) (now : Time) (bearer : jose.Token) (db : Db sql) where
    unfoldable pub mqtt_credentials : (issued : Time) → Result (MqttCredentials jose.Token)
    mqtt_credentials issued = do
      user ← get_current_user sql jose uuid settings now bearer db
      ok (get_mqtt_credentials issued user db)

    -- any user may ask for any device
    unfoldable pub provision_any :
        (issued read_at : Time) → (device_id : String) → Result (Provision jose.Token)
    provision_any issued read_at device_id = do
      user ← get_current_user sql jose uuid settings now bearer db
      ok (provision_device issued read_at device_id)
