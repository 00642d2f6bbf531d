-- ===== src/Server/Spent.antt =====
-- backend/app/auth/service.py: an exchanged refresh token among the later requests.
use mathlib.Core.Path.{subst}
use mqtt_projeto_vena.Prelude.{
  ◌≡◌, ◌≢◌, ◌∙◌, ◌≤◌, sym, ap, String, List, Option, none, some, true, ◌==◌, arith, eq_refl, All,
  if◌then◌else◌,
}
use mqtt_projeto_vena.Http.{ok, err, http_exception}
use mqtt_projeto_vena.Http.Scalar.{scalar_one_or_none_absent}
use mqtt_projeto_vena.Sql.{one_if}
use mqtt_projeto_vena.Sql.Counts.{count_where_mono, length-select}
use mqtt_projeto_vena.Sql.Single.{none_left}
use mqtt_projeto_vena.Db.{Db, User, Device, RefreshToken, UserDevice, Time}
use mqtt_projeto_vena.Auth.Google.{GoogleUserInfo}
use mqtt_projeto_vena.Auth.Jwt.{create_refresh_token}
use mqtt_projeto_vena.Auth.Service.{
  Draws, TokenResponse, is_valid, revoke, new_refresh_token, upsert_user, rotate,
  refresh_access_token,
}
use mqtt_projeto_vena.Auth.Rotation.{
  Rotated, rotated, narrower_valid, revoked_not_valid, other_hash_not_valid,
}
use mqtt_projeto_vena.Devices.Service.{claim_once}
use mqtt_projeto_vena.Devices.Claiming.{claimed}
use mqtt_projeto_vena.Scripts.SeedDevice.{add_device}
use mqtt_projeto_vena.Server.{Outside, Request, serve_all}
use mqtt_projeto_vena.Server.Writes.{login_wrote, rename_wrote}
use mqtt_projeto_vena.Server.Sessions.{issued, Keeps, serve_all_keeps}

-- the request hands out no token of this hash
abbrev pub HandsOutOther : (env : Outside) → (hash : String) → Request env → Type 0
HandsOutOther env hash r =
    (draws : Draws) → issued env r ≡ some draws → env.sha256 draws.raw_refresh ≢ hash

module _ (env : Outside) (hash : String) (now : Time) where
  -- no token of this hash was exchangeable at the time `now`
  abbrev IsSpent : Db env.sql → Type 0
  IsSpent db = env.sql.count_where RefreshToken (is_valid hash now) db.refresh_tokens ≡ 0

  added-IsSpent :
      (draws : Draws) (user_id : String) (t : env.sql.Table RefreshToken)
      → env.sha256 draws.raw_refresh ≢ hash
      → env.sql.count_where RefreshToken (is_valid hash now) t ≡ 0
      → env.sql.count_where RefreshToken (is_valid hash now) (
          env.sql.insert _
            (new_refresh_token env.sql env.jose env.sha256 env.settings draws user_id)
            t)
        ≡ 0
  unfolding new_refresh_token create_refresh_token
  added-IsSpent draws user_id t other spent = omega (
    arith,
    env.sql.count_where-insert RefreshToken added (is_valid hash now) t,
    ap one_if (other_hash_not_valid hash now added other),
    spent,
  )
    where
      added : RefreshToken
      added = new_refresh_token env.sql env.jose env.sha256 env.settings draws user_id

  -- revoking makes no token valid
  revoked-IsSpent :
      (id : String) (at : Time) (t : env.sql.Table RefreshToken)
      → env.sql.count_where RefreshToken (is_valid hash now) t ≡ 0
      → env.sql.count_where RefreshToken
          (is_valid hash now)
          (env.sql.update RefreshToken (λ r. r.id == id) (revoke at) t)
        ≡ 0
  revoked-IsSpent id at t spent = omega (
    arith,
    env.sql.count_where-update RefreshToken (λ r. r.id == id) (revoke at) (is_valid hash now) t,
    count_where_mono env.sql _ (is_valid hash now) t still,
    spent,
  )
    where
      still :
          (r : RefreshToken)
          → is_valid hash now (if r.id == id then revoke at r else r) ≡ true
          → is_valid hash now r ≡ true
      still r = ground arith

  login-IsSpent :
      (draws : Draws) (found : Option User) (info : GoogleUserInfo) (db : Db env.sql)
      → IsSpent db
      → IsSpent (upsert_user env.sql draws info found db).1
  unfolding upsert_user
  login-IsSpent draws none info db spent = spent
  login-IsSpent draws (some user) info db spent = spent

  claim-IsSpent :
      (user_id device_id : String) (at : Time) (found : Option UserDevice) (db : Db env.sql)
      → IsSpent db
      → IsSpent (claim_once env.sql user_id device_id at found db).1
  unfolding claim_once
  claim-IsSpent user_id device_id at none db spent = spent
  claim-IsSpent user_id device_id at (some ud) db spent = spent

  seed-IsSpent :
      (salt mac : String) (existing : Option Device) (db : Db env.sql)
      → IsSpent db
      → IsSpent (add_device env.sql env.bcrypt env.sha256 env.settings salt mac existing db)
  unfolding add_device
  seed-IsSpent salt mac none db spent = spent
  seed-IsSpent salt mac (some device) db spent = spent

  same_tokens :
      (before after : Db env.sql)
      → after.refresh_tokens ≡ before.refresh_tokens
      → IsSpent before
      → IsSpent after
  same_tokens before after same spent =
      ap (env.sql.count_where RefreshToken (is_valid hash now)) same ∙ spent

  every_request :
      (r : Request env) (db : Db env.sql)
      → HandsOutOther env hash r
      → IsSpent db
      → Keeps env IsSpent r db
  unfolding rotate
  every_request r db other spent = record {
    login = λ draws info e h.
        let w = login_wrote env.sql env.jose env.sha256 env.settings draws db info h in
        subst IsSpent (sym w.wrote)
          (added-IsSpent draws _ _ (other draws e) (login-IsSpent draws w.found info db spent));
    rotation = λ draws raw e h.
        let x = rotated env.sql env.jose env.sha256 env.settings draws raw db h in
        subst IsSpent (sym x.wrote) (
          added-IsSpent draws x.user.id _ (other draws e)
            (revoked-IsSpent x.rt.id draws.now db.refresh_tokens spent));
    claiming = λ now bearer user device_id code at who h.
        let c = claimed env.sql env.bcrypt user device_id code at db h in
        subst (λ a. IsSpent a.1) (sym c.wrote)
          (claim-IsSpent user.id device_id at c.found db spent);
    renaming = λ user device_id alias h.
        let (ud, wrote) = rename_wrote env.sql user device_id db alias h in
        subst IsSpent (sym wrote) spent;
    flushing = λ after f.
        subst IsSpent (sym f.wrote) (same_tokens db f.seen_db f.only.refresh_tokens spent);
    registering = λ after d. same_tokens db after d.refresh_tokens spent;
    seeding = λ salt mac existing e. seed-IsSpent salt mac existing db spent;
  }

module _ (env : Outside) where
  -- A refresh token that was exchanged is refused for good: whatever requests, batches and seedings are
  -- served after the exchange, in whatever order, if they hand out tokens of other hashes, as the
  -- exchange itself does, a refresh with the old token at no earlier time is answered with 401.
  pub spent_for_good :
      (draws later : Draws) (raw : String) (db : Db env.sql) (rs : List (Request env))
      {answer : TokenResponse env.jose.Token × Db env.sql}
      → refresh_access_token env.sql env.jose env.sha256 env.settings draws raw db ≡ ok answer
      → env.sha256 draws.raw_refresh ≢ env.sha256 raw
      → All (HandsOutOther env (env.sha256 raw)) rs
      → draws.now ≤ later.now
      → refresh_access_token env.sql env.jose env.sha256 env.settings later raw
          (serve_all env rs answer.1)
        ≡ err (http_exception 401 "Refresh token is invalid, expired, or already revoked")
  unfolding refresh_access_token rotate
  spent_for_good draws later raw db rs {answer} h other others le =
      rw (scalar_one_or_none_absent _ (length-select env.sql _ _ ∙ none_later))
    where
      hash : String
      hash = env.sha256 raw

      r : Rotated env.sql env.jose env.sha256 env.settings draws raw db answer
      r = rotated env.sql env.jose env.sha256 env.settings draws raw db h

      revoked :
          env.sql.count_where RefreshToken (is_valid hash draws.now) (
            env.sql.update RefreshToken (λ x. x.id == r.rt.id) (revoke draws.now) db.refresh_tokens)
          ≡ 0
      revoked =
          env.sql.count_where-update RefreshToken _ (revoke draws.now) _ db.refresh_tokens
          ∙ none_left env.sql (is_valid hash draws.now) (is_valid hash draws.now)
              (λ x. x.id == r.rt.id) (revoke draws.now) db.refresh_tokens r.rt r.found
              (eq_refl r.rt.id) (λ x e. e) (revoked_not_valid hash draws.now draws.now)

      exchanged : IsSpent env hash draws.now answer.1
      exchanged =
          subst (IsSpent env hash draws.now) (sym r.wrote)
            (added-IsSpent env hash draws.now draws r.user.id _ other revoked)

      finally : IsSpent env hash draws.now (serve_all env rs answer.1)
      finally =
          serve_all_keeps env (IsSpent env hash draws.now) (HandsOutOther env hash)
            (every_request env hash draws.now) rs others answer.1 exchanged

      none_later :
          env.sql.count_where RefreshToken
            (is_valid hash later.now)
            (serve_all env rs answer.1).refresh_tokens
          ≡ 0
      none_later = omega (
        arith,
        finally,
        count_where_mono env.sql (is_valid hash later.now) (is_valid hash draws.now)
            (serve_all env rs answer.1).refresh_tokens
            (λ x. narrower_valid hash draws.now later.now x le),
      )
