-- ===== src/Mqtt/Access.antt =====
-- From a claim to the broker.
use mqtt_projeto_vena.Prelude.{
  ℕ, ◌+◌, ◌<◌, ◌≡◌, ◌↔◌, String, List, [], ◌∷◌, map, Bool, true, ◌==◌, arith, eq_iff, contains,
  count,
}
use mqtt_projeto_vena.Http.{ok}
use mqtt_projeto_vena.Config.{Settings}
use mqtt_projeto_vena.Sql.{Sql}
use mqtt_projeto_vena.Db.{Db, User, UserDevice, Time}
use mqtt_projeto_vena.Auth.Jwt.{Jose, minutes}
use mqtt_projeto_vena.Auth.Lifetime.{unexpired}
use mqtt_projeto_vena.BrokerAuth.{mqtt_acl}
use mqtt_projeto_vena.BrokerAuth.Access.{
  AddressesDevice, acl_request, app_token_access, for_some_device,
}
use mqtt_projeto_vena.Devices.Pairing.{Bcrypt}
use mqtt_projeto_vena.Devices.Service.{ClaimResponse, claim_device}
use mqtt_projeto_vena.Devices.Claiming.{claims, claim_one}
use mqtt_projeto_vena.Mqtt.Credentials.{claimed_ids, get_mqtt_credentials}

abbrev is_device : String → UserDevice → Bool
is_device device_id ud = ud.device_id == device_id

contains_iff :
    (device_id : String) (l : List UserDevice)
    → (contains device_id (map (λ ud. ud.device_id) l) ≡ true) ↔ (0 < count (is_device device_id) l)
contains_iff device_id [] = ((λ h. cc), λ h. absurd (omega arith))
contains_iff device_id (ud ∷ l) = (
  λ h. ground (
    arith,
    eq_iff device_id ud.device_id,
    eq_iff ud.device_id device_id,
    contains_iff device_id l,
  ),
  λ h. ground (
    arith,
    eq_iff device_id ud.device_id,
    eq_iff ud.device_id device_id,
    contains_iff device_id l,
  ),
)

module _ (sql : Sql) (user : User) (db : Db sql) where
  -- a device is among the ids of the token exactly when the user has a claim on it
  contains-claimed_ids :
      (device_id : String)
      → (contains device_id (claimed_ids sql user db) ≡ true)
        ↔ (0 < claims sql db user.id device_id)
  unfolding claimed_ids
  contains-claimed_ids device_id = (
    λ h. rw (← counted) ((contains_iff device_id mine).0 h),
    λ h. (contains_iff device_id mine).1 (rw counted h),
  )
    where
      mine : List UserDevice
      mine = sql.select UserDevice (λ ud. ud.user_id == user.id) db.user_devices

      counted : count (is_device device_id) mine ≡ claims sql db user.id device_id
      counted = sql.count-select UserDevice _ (is_device device_id) db.user_devices

module _ (sql : Sql) (jose : Jose) (settings : Settings) (user : User) (issued now : Time)
    (topic clientid : String) (acc : ℕ) where
  -- The token of POST /mqtt/credentials is answered 200 by /mqtt/acl exactly when it has not expired
  -- and the topic is vena/{d} or vena/{d}/… for a device d on which the user had a claim when the
  -- token was issued.
  pub credentials_access :
      (db : Db sql)
      → (mqtt_acl jose settings now (
            acl_request
              (get_mqtt_credentials sql jose settings issued user db).mqtt_token
              topic
              clientid
              acc)
          ≡ 200)
        ↔ ((unexpired now (issued + minutes settings.mqtt_jwt_expire_minutes) ≡ true)
            × ((device_id : String) × AddressesDevice device_id topic
                × (0 < claims sql db user.id device_id)))
  unfolding get_mqtt_credentials
  credentials_access db =
      for_some_device topic
        (app_token_access jose settings issued now topic clientid acc user
          (claimed_ids sql user db))
        (contains-claimed_ids sql user db)

  -- After a successful claim, credentials issued from the database that the claim left open every
  -- topic of the claimed device until they expire.
  pub claim_opens_topics :
      (bcrypt : Bcrypt) (device_id pairing_code : String) (t : Time) (db : Db sql)
      {answer : ClaimResponse × Db sql}
      → claim_device sql bcrypt user device_id pairing_code t db ≡ ok answer
      → AddressesDevice device_id topic
      → unexpired now (issued + minutes settings.mqtt_jwt_expire_minutes) ≡ true
      → mqtt_acl jose settings now (
          acl_request
            (get_mqtt_credentials sql jose settings issued user answer.1).mqtt_token
            topic
            clientid
            acc)
        ≡ 200
  claim_opens_topics bcrypt device_id pairing_code t db {answer} h addressed live =
      (credentials_access answer.1).1 (
        live,
        (
          device_id,
          addressed,
          omega (arith, (claim_one sql bcrypt user device_id pairing_code t db h).0),
        ),
      )
