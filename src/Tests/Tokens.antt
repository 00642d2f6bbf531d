-- ===== src/Tests/Tokens.antt =====
-- Tokens, their rotation and the broker, at concrete inputs.
use mqtt_projeto_vena.Prelude.{
  ℕ, ◌+◌, ◌≤◌, ◌≡◌, ◌≢◌, ◌↔◌, refl, String, List, [], ◌∷◌, none, some, true, false, eq_iff, arith,
  contains, if◌then◌else◌, Lacks,
}
use mqtt_projeto_vena.Config.{default_settings}
use mqtt_projeto_vena.Http.{ok, err, scalar_one, scalar_one_or_none}
use mqtt_projeto_vena.Sql.Memory.{memory}
use mqtt_projeto_vena.Db.{Db}
use mqtt_projeto_vena.Auth.Jwt.{
  minutes, create_access_token, create_mqtt_token, create_backend_token, create_device_jwt,
  device_exp,
}
use mqtt_projeto_vena.Auth.Lifetime.{unexpired}
use mqtt_projeto_vena.Auth.Google.{GoogleUserInfo}
use mqtt_projeto_vena.Auth.Service.{
  Draws, TokenResponse, login_user, refresh_access_token, rotate, token_response,
}
use mqtt_projeto_vena.Auth.Deps.{get_current_user, unauth}
use mqtt_projeto_vena.Auth.Rotation.{refreshed_works}
use mqtt_projeto_vena.Auth.Login.{accounts, SignedIn, login_user_one}
use mqtt_projeto_vena.Auth.Guarding.{access_token_opens, mqtt_token_opens, service_tokens_refused}
use mqtt_projeto_vena.BrokerAuth.{mqtt_acl}
use mqtt_projeto_vena.BrokerAuth.Access.{
  AddressesDevice, acl_request, app_token_access, device_token_access, backend_token_access,
  access_token_access,
}
use mqtt_projeto_vena.Mqtt.Topics.{parse_topic, topic_of, parse_topic_iff}
use mqtt_projeto_vena.Mqtt.Worker.{
  Event, start, on_connect, on_disconnect, on_message, new_worker, handle_all,
}
use mqtt_projeto_vena.Mqtt.Worker.Session.{
  scheduled, username, messages, last_refresh, issued, worker_session,
}
use mqtt_projeto_vena.Tests.Values.{old_token, jose, sha256, uuid, ana, start_db}

abbrev pub now : ℕ
now = 1000000

abbrev topic : String
topic = "vena/vena-01/telemetry"

app_token_access_example :
    (mqtt_acl jose default_settings now
        (acl_request (create_mqtt_token jose default_settings 0 ana ("vena-01" ∷ [])) topic "app" 1)
      ≡ 200)
    ↔ ((unexpired now (0 + minutes 60) ≡ true)
        × ((device_id : String) × AddressesDevice device_id topic
            × (contains device_id ("vena-01" ∷ []) ≡ true)))
app_token_access_example =
    app_token_access jose default_settings 0 now topic "app" 1 ana ("vena-01" ∷ [])

device_token_access_example :
    (mqtt_acl jose default_settings now
        (acl_request (create_device_jwt jose default_settings 0 "vena-01") topic "esp" 2)
      ≡ 200)
    ↔ ((unexpired now (device_exp jose default_settings 0) ≡ true)
        × ((device_id : String) × AddressesDevice device_id topic × ("vena-01" ≡ device_id)))
device_token_access_example =
    device_token_access jose default_settings 0 now topic "esp" 2 "vena-01"

backend_token_access_example :
    (mqtt_acl jose default_settings now
        (acl_request (create_backend_token jose default_settings 0) topic "vena-backend" 1)
      ≡ 200)
    ↔ ((unexpired now (0 + minutes 60) ≡ true)
        × ((device_id : String) × AddressesDevice device_id topic))
backend_token_access_example =
    backend_token_access jose default_settings 0 now topic "vena-backend" 1

access_token_access_example :
    mqtt_acl jose default_settings now
      (acl_request (create_access_token jose default_settings 0 ana) topic "app" 1)
    ≢ 200
access_token_access_example = access_token_access jose default_settings 0 now topic "app" 1 ana

parse_topic_iff_example :
    (parse_topic topic ≡ some ("vena-01", "telemetry"))
    ↔ ((topic ≡ topic_of "vena-01" "telemetry") × Lacks b'/' "vena-01" × Lacks b'/' "telemetry")
parse_topic_iff_example = parse_topic_iff topic "vena-01" "telemetry"

access_token_opens_example :
    get_current_user memory jose uuid default_settings now
      (create_access_token jose default_settings 0 ana)
      start_db
    ≡ (if unexpired now (0 + minutes 60) then ok ana else err unauth)
access_token_opens_example =
    access_token_opens memory jose uuid default_settings 0 now start_db ana refl refl

mqtt_token_opens_example :
    get_current_user memory jose uuid default_settings now
      (create_mqtt_token jose default_settings 0 ana ("vena-01" ∷ []))
      start_db
    ≡ (if unexpired now (0 + minutes 60) then ok ana else err unauth)
mqtt_token_opens_example =
    mqtt_token_opens memory jose uuid default_settings 0 now start_db ana refl refl ("vena-01" ∷ [])

service_tokens_refused_example :
    (get_current_user memory jose uuid default_settings now
        (create_device_jwt jose default_settings 0 "vena-01")
        start_db
      ≡ err unauth)
    × (get_current_user memory jose uuid default_settings now
          (create_backend_token jose default_settings 0)
          start_db
        ≡ err unauth)
service_tokens_refused_example =
    service_tokens_refused memory jose uuid default_settings 0 now start_db "vena-01" refl refl

-- the first request and a later one
abbrev pub first : Draws
first = record {
  user_id = "u-9";
  token_id = "t-1";
  raw_refresh = "new";
  now = 100;
  access_at = 100;
  refresh_at = 100;
  stored_at = 100;
}

abbrev pub second_try : Draws
second_try = record first { token_id = "t-2"; raw_refresh = "newer"; now = 200; refresh_at = 200 }

abbrev pub info : GoogleUserInfo
info = record { sub = "g-1"; email = "ana@new.br"; name = none }

abbrev pub answer : TokenResponse jose.Token × Db memory
answer = (
  token_response memory jose sha256 default_settings ana
      (create_access_token jose default_settings 100 ana) "new",
  rotate memory jose sha256 default_settings first old_token "u-1" start_db,
)

pub refreshed :
    refresh_access_token memory jose sha256 default_settings first "old" start_db ≡ ok answer
unfolding refresh_access_token scalar_one_or_none scalar_one
refreshed = refl

pub other_hash : sha256 "new" ≢ sha256 "old"
other_hash e = let same : false ≡ true = (eq_iff (sha256 "new") (sha256 "old")).1 e in cc

refreshed_works_example :
    (next : TokenResponse jose.Token × Db memory) × (refresh_access_token memory jose sha256
        default_settings second_try "new" answer.1
      ≡ ok next)
    × (next.0.user.id ≡ answer.0.user.id)
refreshed_works_example =
    refreshed_works memory jose sha256 default_settings first second_try "old" start_db refreshed
      refl (omega arith)

one_account : accounts memory start_db info.sub ≤ 1
one_account = by_count (accounts memory start_db info.sub) refl
  where
    by_count : (n : ℕ) → 1 ≡ n → n ≤ 1
    by_count n e = omega arith

login_user_one_example :
    (answer : TokenResponse jose.Token × Db memory) × (login_user memory jose sha256
        default_settings first info start_db
      ≡ ok answer)
    × SignedIn memory jose sha256 default_settings info start_db answer
login_user_one_example =
    login_user_one memory jose sha256 default_settings first info start_db one_account

abbrev session : List (Event String)
session =
    start 0 ∷ on_connect 0 ∷ on_message topic "{}" ∷ on_disconnect 900 ∷ on_message topic "[]" ∷ []

worker_session_example :
    (scheduled
        (handle_all jose default_settings String session
          (new_worker jose default_settings String)).calls
      ≡ messages session)
    × (username none
          (handle_all jose default_settings String session
            (new_worker jose default_settings String)).calls
        ≡ issued jose default_settings String (last_refresh none session))
    × (1
        ≤ (handle_all jose default_settings String session
            (new_worker jose default_settings String)).backoff)
    × ((handle_all jose default_settings String session
          (new_worker jose default_settings String)).backoff
        ≤ 30)
worker_session_example = worker_session jose default_settings String session
