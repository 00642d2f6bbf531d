-- ===== src/Auth/Deps.antt =====
-- backend/app/auth/deps.py. `uuid.UUID` is a parameter: the canonical form of a UUID's text, or none.
use mqtt_projeto_vena.Prelude.{String, Option, none, some, ◌==◌, lookup}
use mqtt_projeto_vena.Http.{
  Result, err, Error, http_exception, uncaught, attribute_error, ◌>>=◌, scalar_one_or_none, require,
}
use mqtt_projeto_vena.Config.{Settings}
use mqtt_projeto_vena.Sql.{Sql}
use mqtt_projeto_vena.Db.{Db, User, Time}
use mqtt_projeto_vena.Auth.Jwt.{Jose, Payload, str, decode_token}

abbrev pub unauth : Error
unauth = http_exception 401 "Could not validate credentials"

-- `uuid.UUID(payload.get("sub"))`: a missing claim and a text that is no UUID are unauthorised; on a
-- value that is no text the constructor fails otherwise.
unfoldable pub subject : (uuid : String → Option String) → Payload → Result String
subject uuid payload = elim (lookup "sub" payload) [
  | none ↦ err unauth
  | some (str s) ↦ require (uuid s) unauth
  | some _ ↦ err (uncaught attribute_error)
]

module _ (sql : Sql) (jose : Jose) (uuid : String → Option String) (settings : Settings) where
  unfoldable pub get_current_user : (now : Time) → jose.Token → Db sql → Result User
  unfolding subject
  get_current_user now token db = do
    payload ← require (decode_token jose settings now token) unauth
    user_id ← subject uuid payload
    found ← scalar_one_or_none (sql.select User (λ u. u.id == user_id) db.users)
    require found unauth
