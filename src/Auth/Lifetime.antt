-- ===== src/Auth/Lifetime.antt =====
-- What each kind of token decodes to, and until when.
use mqtt_projeto_vena.Prelude.{
  ◌+◌, ◌/◌, ◌≡◌, refl, String, List, [], ◌∷◌, none, some, Bool, leb, if◌then◌else◌,
}
use mqtt_projeto_vena.Config.{Settings}
use mqtt_projeto_vena.Db.{User, Time, second}
use mqtt_projeto_vena.Auth.Jwt.{
  unix_seconds, Jose, str, strs, num, minutes, create_access_token, create_mqtt_token,
  create_backend_token, create_device_jwt, device_exp, decode_token,
}

-- a token is accepted through the whole second of its `exp`
abbrev pub unexpired : (now exp : Time) → Bool
unexpired now exp = leb (now / second) (exp / second)

module _ (jose : Jose) (settings : Settings) where
  pub decode_token-create_mqtt_token :
      (issued now : Time) (user : User) (device_ids : List String)
      → decode_token jose settings now (create_mqtt_token jose settings issued user device_ids) ≡ (
          if unexpired now (issued + minutes settings.mqtt_jwt_expire_minutes)
          then some (
              ("sub", str user.id)
              ∷ ("scope", str "app")
              ∷ ("devices", strs device_ids)
              ∷ ("iat", num (unix_seconds issued))
              ∷ ("exp", num (unix_seconds (issued + minutes settings.mqtt_jwt_expire_minutes)))
              ∷ [])
          else none)
  unfolding decode_token create_mqtt_token
  decode_token-create_mqtt_token issued now user device_ids = jose.decode-encode now _ _ _ _ refl

  pub decode_token-create_access_token :
      (issued now : Time) (user : User)
      → decode_token jose settings now (create_access_token jose settings issued user) ≡ (
          if unexpired now (issued + minutes settings.jwt_expire_minutes)
          then some (
              ("sub", str user.id)
              ∷ ("email", str user.email)
              ∷ ("scope", str "user")
              ∷ ("iat", num (unix_seconds issued))
              ∷ ("exp", num (unix_seconds (issued + minutes settings.jwt_expire_minutes)))
              ∷ [])
          else none)
  unfolding decode_token create_access_token
  decode_token-create_access_token issued now user = jose.decode-encode now _ _ _ _ refl

  pub decode_token-create_backend_token :
      (issued now : Time)
      → decode_token jose settings now (create_backend_token jose settings issued) ≡ (
          if unexpired now (issued + minutes settings.mqtt_jwt_expire_minutes)
          then some (
              ("sub", str "vena-backend")
              ∷ ("scope", str "backend")
              ∷ ("iat", num (unix_seconds issued))
              ∷ ("exp", num (unix_seconds (issued + minutes settings.mqtt_jwt_expire_minutes)))
              ∷ [])
          else none)
  unfolding decode_token create_backend_token
  decode_token-create_backend_token issued now = jose.decode-encode now _ _ _ _ refl

  pub decode_token-create_device_jwt :
      (issued now : Time) (device_id : String)
      → decode_token jose settings now (create_device_jwt jose settings issued device_id) ≡ (
          if unexpired now (device_exp jose settings issued)
          then some (
              ("sub", str device_id)
              ∷ ("scope", str "device")
              ∷ ("device_id", str device_id)
              ∷ ("iat", num (unix_seconds issued))
              ∷ ("exp", num (unix_seconds (device_exp jose settings issued)))
              ∷ [])
          else none)
  unfolding decode_token create_device_jwt
  decode_token-create_device_jwt issued now device_id = jose.decode-encode now _ _ _ _ refl
