-- ===== src/BrokerAuth.antt =====
-- backend/app/broker_auth: the endpoints that mosquitto-go-auth calls (routes.py) and the forms that it
-- posts (schemas.py). A response is its status code; 500 stands for an exception that is not caught.
pub mod Access
use mqtt_projeto_vena.Prelude.{
  ℕ, String, List, [], ◌∷◌, Option, none, some, Bool, true, false, lookup, contains, split,
  is_substring, ◌==◌, ltb, length, ◌||◌, not, if◌then◌else◌,
}
use mqtt_projeto_vena.Config.{Settings}
use mqtt_projeto_vena.Db.{Time}
use mqtt_projeto_vena.Auth.Jwt.{Jose, Payload, Claim, str, strs, time, num, decode_token}

pub record AuthForm (Token : Type 0) : Type 0 where
  pub username : Token
  pub password : String
  pub clientid : String

pub record AclForm (Token : Type 0) : Type 0 where
  pub username : Token
  pub topic : String
  pub clientid : String
  pub acc : ℕ

-- `payload.get(key) == text`
unfoldable pub claim_is : Payload → String → String → Bool
claim_is payload key text = elim (lookup key payload) [ some (str s) ↦ s == text | _ ↦ false ]

-- `text in payload.get("devices", [])`: an item of a list, or a part of a text
unfoldable pub device_allowed : Payload → String → ℕ
device_allowed payload text = elim (lookup "devices" payload) [
  | none ↦ 403
  | some (strs l) ↦ if contains text l then 200 else 403
  | some (str s) ↦ if is_substring text s then 200 else 403
  | some (time t) ↦ 500
  | some (num n) ↦ 500
]

-- The branches of `mqtt_acl` on the scope, for the topic's device.
unfoldable pub acl_for_device : Payload → (topic_device_id : String) → ℕ
unfolding claim_is device_allowed
acl_for_device payload topic_device_id =
    if claim_is payload "scope" "backend"
    then 200
    else if claim_is payload "scope" "app"
    then device_allowed payload topic_device_id
    else if claim_is payload "scope" "device"
    then (if claim_is payload "device_id" topic_device_id then 200 else 403)
    else 403

-- The test on the topic's parts: at least two, the first of them "vena".
unfoldable pub acl_for_parts : Payload → List String → ℕ
acl_for_parts payload [] = 403
acl_for_parts payload (first ∷ []) = 403
acl_for_parts payload (first ∷ topic_device_id ∷ rest) =
    if first == "vena" then acl_for_device payload topic_device_id else 403

module _ (jose : Jose) (settings : Settings) where
  unfoldable pub mqtt_auth : Time → AuthForm jose.Token → ℕ
  mqtt_auth now form = elim (decode_token jose settings now form.username) [
    | none ↦ 403
    | some payload ↦ 200
  ]

  unfoldable pub mqtt_acl : Time → AclForm jose.Token → ℕ
  mqtt_acl now form = elim (decode_token jose settings now form.username) [
    | none ↦ 403
    | some payload ↦ acl_for_parts payload (split b'/' form.topic)
  ]

unfoldable pub mqtt_superuser : ℕ
mqtt_superuser = 403
