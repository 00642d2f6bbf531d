-- ===== src/Auth/Jwt.antt =====
-- backend/app/auth/jwt.py. The package `jose` is the interface `Jose`: a token is a value of a type of
-- its own, and `decode` is given the time, which jose reads from the system's clock.
use mqtt_projeto_vena.Prelude.{
  ◌-◌, ◌+◌, ℕ, ◌+◌, ◌*◌, ◌/◌, ◌≡◌, String, List, [], ◌∷◌, Option, none, some, lookup, leb, eqb, map,
  if◌then◌else◌,
}
use mqtt_projeto_vena.Config.{Settings}
use mqtt_projeto_vena.Db.{User, Time, second, unix_epoch}

-- The value of a claim: as `create_*` writes it, or with a datetime turned into seconds.
pub data Claim : Type 0 where
  str : String → Claim
  strs : List String → Claim
  time : Time → Claim
  num : ℕ → Claim

abbrev pub Payload : Type 0
Payload = List (String × Claim)

-- jose encodes a datetime as whole seconds since 1970, which the clock is past
abbrev pub unix_seconds : Time → ℕ
unix_seconds t = (t - unix_epoch) / second

abbrev pub numeric_date : Claim → Claim
numeric_date (time t) = num (unix_seconds t)
numeric_date (str s) = str s
numeric_date (strs l) = strs l
numeric_date (num n) = num n

abbrev pub numeric_dates : Payload → Payload
numeric_dates = map (λ e. (e.0, numeric_date e.1))

-- `jose.jwt`. `none` is a JWTError.
pub record Jose : Type 1 where
  pub Token : Type 0
  pub encode : Payload → (secret algorithm : String) → Token
  pub decode : (now : Time) → Token → (secret algorithm : String) → Option Payload
  -- A token signed with the same key decodes to its claims until the second of its `exp`.
  pub decode-encode :
      (now e : Time) (claims : Payload) (secret algorithm : String)
      → lookup "exp" claims ≡ some (time e)
      → decode now (encode claims secret algorithm) secret algorithm
        ≡ (if leb (now / second) (e / second) then some (numeric_dates claims) else none)

-- _JWT_MAX_EXP, 2038-01-19T03:14:07Z
abbrev pub jwt_max_exp : Time
jwt_max_exp = unix_epoch + 2147483647 * second

abbrev pub minutes : ℕ → Time
minutes n = n * 60 * second

abbrev pub days : ℕ → Time
days n = n * 86400 * second

module _ (jose : Jose) (settings : Settings) where
  unfoldable pub create_access_token : Time → User → jose.Token
  create_access_token now user =
      jose.encode
        (("sub", str user.id)
          ∷ ("email", str user.email)
          ∷ ("scope", str "user")
          ∷ ("iat", time now)
          ∷ ("exp", time (now + minutes settings.jwt_expire_minutes))
          ∷ [])
        settings.jwt_secret settings.jwt_algorithm

  -- `raw` is the UUID that uuid4 draws
  unfoldable pub create_refresh_token : Time → (raw : String) → String × Time
  create_refresh_token now raw = (raw, now + days settings.jwt_refresh_expire_days)

  unfoldable pub create_mqtt_token : Time → User → (device_ids : List String) → jose.Token
  create_mqtt_token now user device_ids =
      jose.encode
        (("sub", str user.id)
          ∷ ("scope", str "app")
          ∷ ("devices", strs device_ids)
          ∷ ("iat", time now)
          ∷ ("exp", time (now + minutes settings.mqtt_jwt_expire_minutes))
          ∷ [])
        settings.jwt_secret settings.jwt_algorithm

  unfoldable pub create_backend_token : Time → jose.Token
  create_backend_token now =
      jose.encode
        (("sub", str "vena-backend")
          ∷ ("scope", str "backend")
          ∷ ("iat", time now)
          ∷ ("exp", time (now + minutes settings.mqtt_jwt_expire_minutes))
          ∷ [])
        settings.jwt_secret settings.jwt_algorithm

  unfoldable pub device_exp : Time → Time
  device_exp now =
      if eqb settings.device_jwt_expire_days 0
      then jwt_max_exp
      else now + days settings.device_jwt_expire_days

  unfoldable pub create_device_jwt : Time → (device_id : String) → jose.Token
  create_device_jwt now device_id =
      jose.encode
        (("sub", str device_id)
          ∷ ("scope", str "device")
          ∷ ("device_id", str device_id)
          ∷ ("iat", time now)
          ∷ ("exp", time (device_exp now))
          ∷ [])
        settings.jwt_secret settings.jwt_algorithm

  unfoldable pub decode_token : Time → jose.Token → Option Payload
  decode_token now token = jose.decode now token settings.jwt_secret settings.jwt_algorithm
