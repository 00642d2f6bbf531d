-- ===== src/Auth/Guarding.antt =====
-- Which tokens open the endpoints that ask for the current user.
use mqtt_projeto_vena.Prelude.{
  ◌+◌, ◌≡◌, String, List, [], ◌∷◌, Option, none, some, Bool, true, false, ◌==◌, if◌then◌else◌,
}
use mqtt_projeto_vena.Http.{ok, err, scalar_one_or_none}
use mqtt_projeto_vena.Config.{Settings}
use mqtt_projeto_vena.Sql.{Sql}
use mqtt_projeto_vena.Db.{Db, User, Time}
use mqtt_projeto_vena.Auth.Jwt.{
  Jose, Payload, str, minutes, create_access_token, create_mqtt_token, create_backend_token,
  create_device_jwt, decode_token,
}
use mqtt_projeto_vena.Auth.Lifetime.{
  unexpired, decode_token-create_mqtt_token, decode_token-create_access_token,
  decode_token-create_backend_token, decode_token-create_device_jwt,
}
use mqtt_projeto_vena.Auth.Deps.{unauth, subject, get_current_user}

module _ (sql : Sql) (jose : Jose) (uuid : String → Option String) (settings : Settings) where
  -- a token whose subject is a known user's id is that user, while it lasts
  user_of_token :
      (now : Time) (token : jose.Token) (rest : Payload) (live : Bool) (db : Db sql) (user : User)
      → decode_token jose settings now token
        ≡ (if live then some (("sub", str user.id) ∷ rest) else none)
      → uuid user.id ≡ some user.id
      → sql.select User (λ u. u.id == user.id) db.users ≡ user ∷ []
      → get_current_user sql jose uuid settings now token db
        ≡ (if live then ok user else err unauth)
  unfolding get_current_user subject scalar_one_or_none
  user_of_token now token rest true db user e id row = rw (e, id, row)
  user_of_token now token rest false db user e id row = rw e

  -- a token whose subject is no UUID is refused
  refused_subject :
      (now : Time) (token : jose.Token) (sub : String) (rest : Payload) (live : Bool) (db : Db sql)
      → decode_token jose settings now token
        ≡ (if live then some (("sub", str sub) ∷ rest) else none)
      → uuid sub ≡ none
      → get_current_user sql jose uuid settings now token db ≡ err unauth
  unfolding get_current_user subject
  refused_subject now token sub rest true db e id = rw (e, id)
  refused_subject now token sub rest false db e id = rw e

  module _ (issued now : Time) (db : Db sql) where
    module _ (user : User) (id : uuid user.id ≡ some user.id)
        (row : sql.select User (λ u. u.id == user.id) db.users ≡ user ∷ []) where
      -- A user's access token is that user until it expires, and 401 afterwards.
      pub access_token_opens :
          get_current_user sql jose uuid settings now
            (create_access_token jose settings issued user)
            db
          ≡ (if unexpired now (issued + minutes settings.jwt_expire_minutes)
              then ok user
              else err unauth)
      access_token_opens =
          user_of_token now _ _ _ db user
            (decode_token-create_access_token jose settings issued now user) id row

      -- The scope of a token is not looked at: the token for the broker, scope `app`, opens the
      -- same endpoints until it expires.
      pub mqtt_token_opens :
          (device_ids : List String)
          → get_current_user sql jose uuid settings now
              (create_mqtt_token jose settings issued user device_ids)
              db
            ≡ (if unexpired now (issued + minutes settings.mqtt_jwt_expire_minutes)
                then ok user
                else err unauth)
      mqtt_token_opens device_ids =
          user_of_token now _ _ _ db user
            (decode_token-create_mqtt_token jose settings issued now user device_ids) id row

    -- Neither a device's token nor the worker's is ever a user, if their subjects are no UUIDs.
    pub service_tokens_refused :
        (device_id : String)
        → uuid device_id ≡ none
        → uuid "vena-backend" ≡ none
        → (get_current_user sql jose uuid settings now
              (create_device_jwt jose settings issued device_id)
              db
            ≡ err unauth)
          × (get_current_user sql jose uuid settings now
                (create_backend_token jose settings issued)
                db
              ≡ err unauth)
    service_tokens_refused device_id no_device no_backend = (
      refused_subject now _ device_id _ _ db
          (decode_token-create_device_jwt jose settings issued now device_id) no_device,
      refused_subject now _ "vena-backend" _ _ db
          (decode_token-create_backend_token jose settings issued now) no_backend,
    )
