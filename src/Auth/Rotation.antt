-- ===== src/Auth/Rotation.antt =====
-- The rotation of refresh tokens.
use mqtt_projeto_vena.Prelude.{
  ◌+◌, ◌≤◌, ◌<◌, ◌≡◌, ◌≢◌, ◌∙◌, sym, ap, String, [], ◌∷◌, Bool, true, false, ◌==◌, lt→ltb, arith,
  eq_iff, eq_refl, if◌then◌else◌,
}
use mqtt_projeto_vena.Http.{ok, err, http_exception, scalar_one_or_none, scalar_one}
use mqtt_projeto_vena.Http.Scalar.{
  >>=-eq-ok, require-eq-ok, ok-injective, scalar_one_or_none-some, scalar_one-ok,
  scalar_one_or_none_absent,
}
use mqtt_projeto_vena.Config.{Settings}
use mqtt_projeto_vena.Sql.{Sql, one_if}
use mqtt_projeto_vena.Sql.Counts.{count_where_mono, length-select, select-All}
use mqtt_projeto_vena.Sql.Single.{none_left, only_row}
use mqtt_projeto_vena.Db.{Db, User, RefreshToken, Time}
use mqtt_projeto_vena.Auth.Jwt.{Jose, create_access_token, create_refresh_token, days}
use mqtt_projeto_vena.Auth.Service.{
  Draws, TokenResponse, is_valid, revoke, new_refresh_token, token_response, rotate,
  refresh_access_token,
}

module _ (sql : Sql) (jose : Jose) (sha256 : String → String) (settings : Settings) where
  -- What a refresh found and did when it succeeded.
  pub record Rotated (draws : Draws) (raw : String) (db : Db sql)
      (answer : TokenResponse jose.Token × Db sql) : Type 0 where
    pub rt : RefreshToken
    pub user : User
    pub found :
        sql.select RefreshToken (is_valid (sha256 raw) draws.now) db.refresh_tokens ≡ rt ∷ []
    pub owner : sql.select User (λ u. u.id == rt.user_id) db.users ≡ user ∷ []
    pub wrote : answer.1 ≡ rotate sql jose sha256 settings draws rt user.id db
    pub named : answer.0.user.id ≡ user.id

  pub rotated :
      (draws : Draws) (raw : String) (db : Db sql) {answer : TokenResponse jose.Token × Db sql}
      → refresh_access_token sql jose sha256 settings draws raw db ≡ ok answer
      → Rotated draws raw db answer
  unfolding refresh_access_token token_response
  rotated draws raw db h =
      let (found, e1, h1) = >>=-eq-ok _ _ h in
      let (rt, e2, h2) = >>=-eq-ok _ _ h1 in
      let (user, e3, h3) = >>=-eq-ok _ _ h2 in
      record {
        rt = rt;
        user = user;
        found = scalar_one_or_none-some _ (e1 ∙ ap ok (require-eq-ok found _ e2));
        owner = scalar_one-ok _ e3;
        wrote = sym (ap (λ p. p.1) (ok-injective h3));
        named = sym (ap (λ p. p.0.user.id) (ok-injective h3));
      }

module _ (sql : Sql) (jose : Jose) (sha256 : String → String) (settings : Settings) where
  -- the answer where both queries find their row
  refresh_found :
      (draws : Draws) (raw : String) (db : Db sql) (rt : RefreshToken) (user : User)
      → sql.select RefreshToken (is_valid (sha256 raw) draws.now) db.refresh_tokens ≡ rt ∷ []
      → sql.select User (λ u. u.id == rt.user_id) db.users ≡ user ∷ []
      → refresh_access_token sql jose sha256 settings draws raw db
        ≡ ok (
          token_response sql jose sha256 settings user
              (create_access_token jose settings draws.access_at user)
              draws.raw_refresh,
          rotate sql jose sha256 settings draws rt user.id db,
        )
  unfolding refresh_access_token scalar_one_or_none scalar_one
  refresh_found draws raw db rt user found owner = rw (found, owner)

pub narrower_valid :
    (hash : String) (now later : Time) (r : RefreshToken)
    → now ≤ later
    → is_valid hash later r ≡ true
    → is_valid hash now r ≡ true
narrower_valid hash now later r le h = ground arith

pub revoked_not_valid :
    (hash : String) (now later : Time) (r : RefreshToken)
    → is_valid hash later (revoke now r) ≡ false
revoked_not_valid hash now later r = ground arith

pub other_hash_not_valid :
    (hash : String) (later : Time) (r : RefreshToken)
    → r.token_hash ≢ hash
    → is_valid hash later r ≡ false
other_hash_not_valid hash later r h = ground (arith, eq_iff r.token_hash hash)

module _ (sql : Sql) (jose : Jose) (sha256 : String → String) (settings : Settings) where
  -- A refresh token that was exchanged is refused from then on, with the database unchanged by the
  -- refused request: for every later request, at no earlier time, if the hash of the token that
  -- replaced it is another one.
  pub refresh_once :
      (draws later : Draws) (raw : String) (db : Db sql)
      {answer : TokenResponse jose.Token × Db sql}
      → refresh_access_token sql jose sha256 settings draws raw db ≡ ok answer
      → draws.now ≤ later.now
      → sha256 draws.raw_refresh ≢ sha256 raw
      → refresh_access_token sql jose sha256 settings later raw answer.1
        ≡ err (http_exception 401 "Refresh token is invalid, expired, or already revoked")
  unfolding refresh_access_token rotate new_refresh_token create_refresh_token
  refresh_once draws later raw db {answer} h le other =
      rw (r.wrote, scalar_one_or_none_absent _ (length-select sql still _ ∙ gone))
    where
      r : Rotated sql jose sha256 settings draws raw db answer
      r = rotated sql jose sha256 settings draws raw db h

      still : RefreshToken → Bool
      still = is_valid (sha256 raw) later.now

      added : RefreshToken
      added = new_refresh_token sql jose sha256 settings draws r.user.id

      gone :
          sql.count_where RefreshToken still
            (rotate sql jose sha256 settings draws r.rt r.user.id db).refresh_tokens
          ≡ 0
      gone =
          sql.count_where-insert RefreshToken added still _
          ∙ omega (
            arith,
            sql.count_where-update RefreshToken (λ x. x.id == r.rt.id) (revoke draws.now) still
                db.refresh_tokens,
            none_left sql (is_valid (sha256 raw) draws.now) still (λ x. x.id == r.rt.id)
                (revoke draws.now) db.refresh_tokens r.rt r.found (eq_refl r.rt.id)
                (λ x. narrower_valid (sha256 raw) draws.now later.now x le)
                (revoked_not_valid (sha256 raw) draws.now later.now),
            ap one_if (other_hash_not_valid (sha256 raw) later.now added other),
          )

  -- The token that a refresh hands out can itself be exchanged, for the same user, at any time before
  -- it expires, if no earlier token has its hash.
  pub refreshed_works :
      (draws later : Draws) (raw : String) (db : Db sql)
      {answer : TokenResponse jose.Token × Db sql}
      → refresh_access_token sql jose sha256 settings draws raw db ≡ ok answer
      → sql.count_where RefreshToken
          (λ r. r.token_hash == sha256 draws.raw_refresh)
          db.refresh_tokens
        ≡ 0
      → later.now < draws.refresh_at + days settings.jwt_refresh_expire_days
      → (next : TokenResponse jose.Token × Db sql) × (refresh_access_token sql jose sha256 settings
            later draws.raw_refresh answer.1
          ≡ ok next)
        × (next.0.user.id ≡ answer.0.user.id)
  unfolding rotate new_refresh_token create_refresh_token token_response
  refreshed_works draws later raw db {answer} h fresh live =
      let (x, found, same) =
        only_row sql good (λ x. x.user_id == r.user.id) added marked none_before added_good
          (eq_refl r.user.id) in
      works x found same
    where
      r : Rotated sql jose sha256 settings draws raw db answer
      r = rotated sql jose sha256 settings draws raw db h

      hash : String
      hash = sha256 draws.raw_refresh

      good : RefreshToken → Bool
      good = is_valid hash later.now

      added : RefreshToken
      added = new_refresh_token sql jose sha256 settings draws r.user.id

      marked : sql.Table RefreshToken
      marked = sql.update RefreshToken (λ x. x.id == r.rt.id) (revoke draws.now) db.refresh_tokens

      added_good : good added ≡ true
      added_good = rw eq_refl (lt→ltb _ _ live)

      still_good :
          (x : RefreshToken)
          → good (if x.id == r.rt.id then revoke draws.now x else x) ≡ true
          → (x.token_hash == hash) ≡ true
      still_good x = ground arith

      none_before : sql.count_where RefreshToken good marked ≡ 0
      none_before = omega (
        arith,
        sql.count_where-update RefreshToken (λ x. x.id == r.rt.id) (revoke draws.now) good
            db.refresh_tokens,
        count_where_mono sql _ (λ x. x.token_hash == hash) db.refresh_tokens still_good,
        fresh,
      )

      owner_id : r.user.id ≡ r.rt.user_id
      owner_id =
          (eq_iff _ _).0 (rw r.owner at (select-All sql (λ u. u.id == r.rt.user_id) db.users)).0

      owned_by :
          (x : RefreshToken)
          → (x.user_id == r.user.id) ≡ true
          → sql.select User (λ u. u.id == x.user_id) db.users ≡ r.user ∷ []
      owned_by x same = rw ((eq_iff _ _).0 same ∙ owner_id) r.owner

      rotated_db : Db sql
      rotated_db = rotate sql jose sha256 settings draws r.rt r.user.id db

      works :
          (x : RefreshToken)
          → sql.select RefreshToken good rotated_db.refresh_tokens ≡ x ∷ []
          → (x.user_id == r.user.id) ≡ true
          → (next : TokenResponse jose.Token × Db sql) × (refresh_access_token sql jose sha256
                settings later draws.raw_refresh answer.1
              ≡ ok next)
            × (next.0.user.id ≡ answer.0.user.id)
      works x found same = (
        _,
        ap (refresh_access_token sql jose sha256 settings later draws.raw_refresh) r.wrote
            ∙ refresh_found sql jose sha256 settings later draws.raw_refresh rotated_db x r.user
                found (owned_by x same),
        sym r.named,
      )
