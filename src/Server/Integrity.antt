-- ===== src/Server/Integrity.antt =====
-- backend/app/db/models.py: every request keeps the foreign keys.
use mathlib.Core.Path.{subst}
use mqtt_projeto_vena.Prelude.{
  ◌≡◌, ◌∙◌, sym, ap, ◌≤◌, ◌<◌, String, [], ◌∷◌, List, Option, none, some, ◌==◌, arith, eq_refl,
  Bool-cases, inl, inr, if◌then◌else◌, All,
}
use mqtt_projeto_vena.Http.{ok, scalar_one_or_none}
use mqtt_projeto_vena.Http.Scalar.{scalar_one_or_none-some}
use mqtt_projeto_vena.Sql.{one_if}
use mqtt_projeto_vena.Sql.Counts.{count_where-congr}
use mqtt_projeto_vena.Db.{Db, User, Device, RefreshToken}
use mqtt_projeto_vena.Auth.Google.{GoogleUserInfo}
use mqtt_projeto_vena.Auth.Jwt.{create_refresh_token}
use mqtt_projeto_vena.Auth.Service.{
  Draws, TokenResponse, new_refresh_token, revoke, upsert_user, login_user, rotate,
  refresh_access_token,
}
use mqtt_projeto_vena.Auth.Rotation.{rotated}
use mqtt_projeto_vena.Scripts.SeedDevice.{add_device, new_device}
use mqtt_projeto_vena.Server.{Outside, Request, serve_all}
use mqtt_projeto_vena.Server.Frames.{devices_of, Refers, refers_more}
use mqtt_projeto_vena.Server.Sessions.{Keeps, serve_all_keeps}
use mqtt_projeto_vena.Server.ClaimLinks.{rename-Linked, claim-Linked, current_user_there}
use mqtt_projeto_vena.Server.Writes.{login_wrote}
use mqtt_projeto_vena.Server.Links.{
  Linked, users_of, tokens_of, refers_same, refers_added, selected_there, same_id,
  DevicesOnly-Linked, flush-Linked,
}

module _ (env : Outside) where
  abbrev LinkedDb : Db env.sql → Type 0
  LinkedDb = Linked env.sql

  -- a refresh token more, of a user that is there
  token_added :
      (draws : Draws) (user_id : String) (t : env.sql.Table RefreshToken) (db : Db env.sql)
      → 0 < users_of env.sql db user_id
      → ((x : String) → Refers (tokens_of env.sql t x) (users_of env.sql db x))
      → (x : String)
      → Refers
          (tokens_of env.sql
            (env.sql.insert _
              (new_refresh_token env.sql env.jose env.sha256 env.settings draws user_id)
              t)
            x)
          (users_of env.sql db x)
  unfolding new_refresh_token create_refresh_token
  token_added draws user_id t db there h x =
      subst (λ n. Refers n (users_of env.sql db x))
        (sym (env.sql.count_where-insert RefreshToken _ _ t))
        (refers_added (user_id == x) (λ e. same_id env.sql user_id x e (users_of env.sql db) there)
          (h x))

  -- users that are no fewer
  users-Linked :
      (users : env.sql.Table User) (db : Db env.sql)
      → ((x : String) → users_of env.sql db x ≤ env.sql.count_where User (λ u. u.id == x) users)
      → LinkedDb db
      → LinkedDb (record db { users = users })
  users-Linked users db grows w = record {
    claim_of = λ x. refers_more (grows x) (w.claim_of x);
    claim_on = w.claim_on;
    token_user = λ x. refers_more (grows x) (w.token_user x);
    reading = w.reading;
    meta = w.meta;
  }

  -- a new email leaves the user's id
  same_users :
      (info : GoogleUserInfo) (id x : String) (t : env.sql.Table User)
      → env.sql.count_where User
          (λ u. u.id == x)
          (env.sql.update User (λ u. u.id == id) (λ u. record u { email = info.email }) t)
        ≡ env.sql.count_where User (λ u. u.id == x) t
  same_users info id x t =
      env.sql.count_where-update User _ _ (λ u. u.id == x) t
      ∙ count_where-congr env.sql _ _ t same_user
    where
      same_user :
          (u : User)
          → ((if u.id == id then record u { email = info.email } else u).id == x) ≡ (u.id == x)
      same_user u = elim (Bool-cases (u.id == id)) [ inl e ↦ rw e | inr e ↦ rw e ]

  new_user : Draws → GoogleUserInfo → User
  new_user draws info = record {
    id = draws.user_id;
    google_sub = info.sub;
    email = info.email;
    created_at = draws.stored_at;
  }

  -- what a sign-in does to the users
  upsert-Linked :
      (draws : Draws) (info : GoogleUserInfo) (found : Option User) (db : Db env.sql)
      → Linked env.sql db
      → Linked env.sql (upsert_user env.sql draws info found db).1
  unfolding upsert_user new_user
  upsert-Linked draws info none db w =
      users-Linked _ db
        (λ x.
          omega (
            arith,
            env.sql.count_where-insert User (new_user draws info) (λ u. u.id == x) db.users,
          ))
        w
  upsert-Linked draws info (some user) db w =
      users-Linked _ db (λ x. omega (arith, same_users info user.id x db.users)) w

  upsert_there :
      (draws : Draws) (info : GoogleUserInfo) (found : Option User) (db : Db env.sql)
      → scalar_one_or_none (env.sql.select User (λ u. u.google_sub == info.sub) db.users) ≡ ok found
      → 0
        < users_of env.sql
            (upsert_user env.sql draws info found db).1
            (upsert_user env.sql draws info found db).0.id
  unfolding upsert_user new_user
  upsert_there draws info none db met = omega (
    arith,
    env.sql.count_where-insert User (new_user draws info) (λ u. u.id == draws.user_id) db.users,
    ap one_if (eq_refl draws.user_id),
  )
  upsert_there draws info (some user) db met = omega (
    arith,
    same_users info user.id user.id db.users,
    selected_there env.sql User (λ u. u.google_sub == info.sub) (λ u. u.id == user.id) db.users user
        (scalar_one_or_none-some _ met) (eq_refl user.id),
  )

  login-Linked :
      (draws : Draws) (info : GoogleUserInfo) (db : Db env.sql)
      {answer : TokenResponse env.jose.Token × Db env.sql}
      → login_user env.sql env.jose env.sha256 env.settings draws info db ≡ ok answer
      → LinkedDb db
      → LinkedDb answer.1
  login-Linked draws info db h w =
      let wrote = login_wrote env.sql env.jose env.sha256 env.settings draws db info h in
      let kept = upsert-Linked draws info wrote.found db w in
      subst LinkedDb (sym wrote.wrote) (record {
        claim_of = kept.claim_of;
        claim_on = kept.claim_on;
        token_user =
            token_added draws _ _ (upsert_user env.sql draws info wrote.found db).1
              (upsert_there draws info wrote.found db wrote.met) kept.token_user;
        reading = kept.reading;
        meta = kept.meta;
      })

  refresh-Linked :
      (draws : Draws) (raw : String) (db : Db env.sql)
      {answer : TokenResponse env.jose.Token × Db env.sql}
      → refresh_access_token env.sql env.jose env.sha256 env.settings draws raw db ≡ ok answer
      → LinkedDb db
      → LinkedDb answer.1
  unfolding rotate
  refresh-Linked draws raw db h w =
      let r = rotated env.sql env.jose env.sha256 env.settings draws raw db h in
      subst LinkedDb (sym r.wrote) (record {
        claim_of = w.claim_of;
        claim_on = w.claim_on;
        token_user =
            token_added draws r.user.id _ db
              (selected_there env.sql User (λ u. u.id == r.rt.user_id) (λ u. u.id == r.user.id)
                db.users r.user r.owner (eq_refl r.user.id))
              (λ x. refers_same (same_tokens r.rt.id x) (omega arith) (w.token_user x));
        reading = w.reading;
        meta = w.meta;
      })
    where
      same_owner :
          (id x : String) (t : RefreshToken)
          → ((if t.id == id then revoke draws.now t else t).user_id == x) ≡ (t.user_id == x)
      same_owner id x t = elim (Bool-cases (t.id == id)) [ inl e ↦ rw e | inr e ↦ rw e ]

      same_tokens :
          (id x : String)
          → tokens_of env.sql
              (env.sql.update RefreshToken (λ t. t.id == id) (revoke draws.now) db.refresh_tokens)
              x
            ≡ tokens_of env.sql db.refresh_tokens x
      same_tokens id x =
          env.sql.count_where-update RefreshToken _ _ (λ t. t.user_id == x) db.refresh_tokens
          ∙ count_where-congr env.sql _ _ db.refresh_tokens (same_owner id x)

  add-Linked :
      (salt mac : String) (existing : Option Device) (db : Db env.sql)
      → LinkedDb db
      → LinkedDb (add_device env.sql env.bcrypt env.sha256 env.settings salt mac existing db)
  unfolding add_device
  add-Linked salt mac (some existing) db w = w
  add-Linked salt mac none db w = record {
    claim_of = w.claim_of;
    claim_on = λ x. refers_more (grows x) (w.claim_on x);
    token_user = w.token_user;
    reading = λ x. refers_more (grows x) (w.reading x);
    meta = λ x. refers_more (grows x) (w.meta x);
  }
    where
      grows :
          (x : String)
          → devices_of env.sql db x
            ≤ devices_of env.sql
                (add_device env.sql env.bcrypt env.sha256 env.settings salt mac none db)
                x
      grows x = omega (
        arith,
        env.sql.count_where-insert Device
            (new_device env.sql env.bcrypt env.sha256 env.settings salt mac) (λ d. d.id == x)
            db.devices,
      )

  abbrev AnyRequest : Request env → Type 0
  AnyRequest r = Unit

  -- Whatever requests, batches and seedings are served, in whatever order, a database in which every claim
  -- is of a user and on a device, every refresh token is of a user, and every reading and every row
  -- of device_meta is of a device, that there is, stays one.
  pub serve_all-Linked :
      (rs : List (Request env)) (db : Db env.sql)
      → Linked env.sql db
      → Linked env.sql (serve_all env rs db)
  serve_all-Linked rs db w = serve_all_keeps env LinkedDb AnyRequest keeps rs (all_admitted rs) db w
    where
      all_admitted : (l : List (Request env)) → All AnyRequest l
      all_admitted [] = tt
      all_admitted (r ∷ l) = (tt, all_admitted l)

      keeps :
          (r : Request env) (d : Db env.sql) → AnyRequest r → LinkedDb d → Keeps env LinkedDb r d
      keeps r d u k = record {
        login = λ draws info e h. login-Linked draws info d h k;
        rotation = λ draws raw e h. refresh-Linked draws raw d h k;
        claiming = λ now bearer user device_id code at who h.
            claim-Linked env.sql env.bcrypt user device_id code at d h
              (current_user_there env.sql env.jose env.uuid env.settings now bearer d who) k;
        renaming = λ user device_id alias h. rename-Linked env.sql user device_id alias d h k;
        flushing = λ after f. flush-Linked env.sql f k;
        registering = λ after f. DevicesOnly-Linked env.sql f k;
        seeding = λ salt mac existing e. add-Linked salt mac existing d k;
      }
