-- ===== src/Auth/Service.antt =====
-- backend/app/auth/service.py. SHA-256 (as a hex text), uuid4 and the clock are parameters: a request is
-- given what it draws. The rest of a request's state is the database.
use mqtt_projeto_vena.Prelude.{ℕ, ◌*◌, String, Option, none, some, Bool, ◌&&◌, ◌==◌, is_none, ltb}
use mqtt_projeto_vena.Http.{
  Result, ok, err, http_exception, uncaught, ◌>>=◌, scalar_one_or_none, scalar_one, require,
}
use mqtt_projeto_vena.Config.{Settings}
use mqtt_projeto_vena.Sql.{Sql}
use mqtt_projeto_vena.Db.{Db, User, RefreshToken, Time}
use mqtt_projeto_vena.Auth.Jwt.{Jose, create_access_token, create_refresh_token}
use mqtt_projeto_vena.Auth.Google.{
  GoogleUserInfo, Verified, user_info, invalid, raised, verify_google_token,
}

-- What a request draws: fresh ids, a fresh refresh token, and the clock's readings.
pub record Draws : Type 0 where
  pub user_id : String
  pub token_id : String
  pub raw_refresh : String
  pub now : Time
  pub access_at : Time
  pub refresh_at : Time
  pub stored_at : Time

pub record UserInfo : Type 0 where
  pub id : String
  pub email : String

pub record TokenResponse (Token : Type 0) : Type 0 where
  pub access_token : Token
  pub refresh_token : String
  pub token_type : String
  pub expires_in : ℕ
  pub user : UserInfo

-- The WHERE of the refresh query: this hash, not revoked, not expired.
abbrev pub is_valid : (token_hash : String) → (now : Time) → RefreshToken → Bool
is_valid token_hash now r =
    r.token_hash == token_hash && is_none r.revoked_at && ltb now r.expires_at

-- `rt.revoked_at = now`
abbrev pub revoke : Time → RefreshToken → RefreshToken
revoke now r = record r { revoked_at = some now }

module _ (sql : Sql) where
  -- The user of a Google account: added, or with the email brought up to date.
  unfoldable pub upsert_user : Draws → GoogleUserInfo → Option User → Db sql → User × Db sql
  upsert_user draws info none db =
      let user : User = record {
        id = draws.user_id;
        google_sub = info.sub;
        email = info.email;
        created_at = draws.stored_at;
      } in
      (user, record db { users = sql.insert User user db.users })
  upsert_user draws info (some user) db = (
    record user { email = info.email },
    record db {
      users =
          sql.update User (λ u. u.id == user.id) (λ u. record u { email = info.email }) db.users;
    },
  )

module _ (sql : Sql) (jose : Jose) (sha256 : String → String) (settings : Settings) where
  unfoldable pub token_response :
      User → jose.Token → (raw_refresh : String) → TokenResponse jose.Token
  token_response user access_token raw_refresh = record {
    access_token = access_token;
    refresh_token = raw_refresh;
    token_type = "bearer";
    expires_in = settings.jwt_expire_minutes * 60;
    user = record { id = user.id; email = user.email };
  }

  -- The row that both endpoints add for a new refresh token.
  unfoldable pub new_refresh_token : Draws → (user_id : String) → RefreshToken
  unfolding create_refresh_token
  new_refresh_token draws user_id =
      let (raw, expires_at) =
        create_refresh_token jose settings draws.refresh_at draws.raw_refresh in
      record {
        id = draws.token_id;
        user_id = user_id;
        token_hash = sha256 raw;
        expires_at = expires_at;
        revoked_at = none;
        created_at = draws.stored_at;
      }

  -- From the verified account on: upsert, tokens, commit.
  unfoldable pub login_user :
      Draws → GoogleUserInfo → Db sql → Result (TokenResponse jose.Token × Db sql)
  login_user draws info db = do
    found ← scalar_one_or_none (sql.select User (λ u. u.google_sub == info.sub) db.users)
    let (user, db') = upsert_user sql draws info found db
    ok (
      token_response user (create_access_token jose settings draws.access_at user)
          draws.raw_refresh,
      record db' {
        refresh_tokens =
            sql.insert RefreshToken (new_refresh_token draws user.id) db'.refresh_tokens;
      },
    )

  unfoldable pub login_with_google :
      (verify_oauth2_token : String → Option String → Verified)
      → Draws
      → (id_token : String) → Db sql
      → Result (TokenResponse jose.Token × Db sql)
  login_with_google verify_oauth2_token draws id_token db =
      elim (verify_google_token verify_oauth2_token settings id_token) [
        | user_info info ↦ login_user draws info db
        | invalid detail ↦ err (http_exception 401 detail)
        | raised e ↦ err (uncaught e)
      ]

  -- The writes of a rotation: revoke the old token, add the new one.
  unfoldable pub rotate : Draws → RefreshToken → (user_id : String) → Db sql → Db sql
  rotate draws rt user_id db = record db {
    refresh_tokens =
        sql.insert RefreshToken (new_refresh_token draws user_id)
          (sql.update RefreshToken (λ r. r.id == rt.id) (revoke draws.now) db.refresh_tokens);
  }

  unfoldable pub refresh_access_token :
      Draws → (raw_refresh : String) → Db sql → Result (TokenResponse jose.Token × Db sql)
  refresh_access_token draws raw_refresh db = do
    found ←
        scalar_one_or_none
          (sql.select RefreshToken (is_valid (sha256 raw_refresh) draws.now) db.refresh_tokens)
    rt ← require found (http_exception 401 "Refresh token is invalid, expired, or already revoked")
    user ← scalar_one (sql.select User (λ u. u.id == rt.user_id) db.users)
    ok (
      token_response user (create_access_token jose settings draws.access_at user)
          draws.raw_refresh,
      rotate draws rt user.id db,
    )
