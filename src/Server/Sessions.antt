-- ===== src/Server/Sessions.antt =====
-- A predicate of the database that every statement of a session keeps is kept by the session, and by
-- any sequence of sessions.
use mathlib.Core.Path.{subst}
use mqtt_projeto_vena.Prelude.{
  ◌≡◌, refl, sym, ap, String, List, [], ◌∷◌, Option, none, some, All, ◌==◌,
}
use mqtt_projeto_vena.Http.{Result, ok, err, scalar_one_or_none}
use mqtt_projeto_vena.Http.Scalar.{>>=-eq-ok}
use mqtt_projeto_vena.Db.{Db, User, Device, Time}
use mqtt_projeto_vena.Auth.Google.{GoogleUserInfo}
use mqtt_projeto_vena.Auth.Deps.{get_current_user}
use mqtt_projeto_vena.Auth.Service.{Draws, TokenResponse, login_user, refresh_access_token}
use mqtt_projeto_vena.Devices.Service.{ClaimResponse, claim_device, update_device_alias}
use mqtt_projeto_vena.Devices.Routes.{claim, update_alias}
use mqtt_projeto_vena.Scripts.SeedDevice.{device_id_of, add_device}
use mqtt_projeto_vena.Server.{
  Outside, Request, google_login, refresh, post_claim, patch_alias, flush_batch, device_meta,
  seed_device, committed, seeded, serve, serve_all,
}
use mqtt_projeto_vena.Server.Frames.{DevicesOnly}
use mqtt_projeto_vena.Server.Ingested.{FlushWrote, flush_wrote, meta-DevicesOnly}
use mqtt_projeto_vena.Server.Writes.{google_login_ok, seed_wrote}

module _ (env : Outside) where
  -- the drawn values of a request that hands out a refresh token
  abbrev pub issued : Request env → Option Draws
  issued (google_login draws id_token) = some draws
  issued (refresh draws raw_refresh) = some draws
  issued _ = none

  -- What each kind of session must keep.
  pub record Keeps (P : Db env.sql → Type 0) (r : Request env) (db : Db env.sql) : Type 0 where
    pub login :
        (draws : Draws) (info : GoogleUserInfo) {answer : TokenResponse env.jose.Token × Db env.sql}
        → issued r ≡ some draws
        → login_user env.sql env.jose env.sha256 env.settings draws info db ≡ ok answer
        → P answer.1
    pub rotation :
        (draws : Draws) (raw : String) {answer : TokenResponse env.jose.Token × Db env.sql}
        → issued r ≡ some draws
        → refresh_access_token env.sql env.jose env.sha256 env.settings draws raw db ≡ ok answer
        → P answer.1
    pub claiming :
        (now : Time) (bearer : env.jose.Token) (user : User) (device_id code : String) (at : Time)
        {answer : ClaimResponse × Db env.sql}
        → get_current_user env.sql env.jose env.uuid env.settings now bearer db ≡ ok user
        → claim_device env.sql env.bcrypt user device_id code at db ≡ ok answer
        → P answer.1
    pub renaming :
        (user : User) (device_id alias : String) {answer : ClaimResponse × Db env.sql}
        → update_device_alias env.sql user device_id alias db ≡ ok answer
        → P answer.1
    pub flushing : (after : Db env.sql) → FlushWrote env.sql db after → P after
    pub registering : (after : Db env.sql) → DevicesOnly env.sql db after → P after
    pub seeding :
        (salt mac : String) (existing : Option Device)
        → scalar_one_or_none (env.sql.select Device (λ d. d.id == device_id_of mac) db.devices)
          ≡ ok existing
        → P (add_device env.sql env.bcrypt env.sha256 env.settings salt mac existing db)

  module _ (P : Db env.sql → Type 0) (db : Db env.sql) (holds : P db) where
    committed_keeps :
        {A : Type 0} (outcome : Result A) (after : A → Db env.sql)
        → ((a : A) → outcome ≡ ok a → P (after a))
        → P (committed env outcome after db)
    unfolding committed
    committed_keeps (ok a) after h = h a refl
    committed_keeps (err e) after h = holds

    seeded_keeps :
        (outcome : Option (Result (String × String × Db env.sql)))
        → ((a : String × String × Db env.sql) → outcome ≡ some (ok a) → P a.2)
        → P (seeded env outcome db)
    unfolding seeded
    seeded_keeps none h = holds
    seeded_keeps (some outcome) h = committed_keeps outcome (λ a. a.2) (λ a e. h a (ap some e))

    pub serve_keeps : (r : Request env) → Keeps P r db → P (serve env r db)
    unfolding serve claim update_alias
    serve_keeps (google_login draws id_token) k = committed_keeps _ _ λ answer e.
        let (info, e1) =
          google_login_ok env.sql env.jose env.sha256 env.settings draws db env.verify_oauth2_token
            id_token e in
        k.login draws info refl e1
    serve_keeps (refresh draws raw) k = committed_keeps _ _ λ answer e. k.rotation draws raw refl e
    serve_keeps (post_claim now bearer device_id code at) k = committed_keeps _ _ λ answer e.
        let (user, e1, e2) =
          >>=-eq-ok (get_current_user env.sql env.jose env.uuid env.settings now bearer db) _ e in
        k.claiming now bearer user device_id code at e1 e2
    serve_keeps (patch_alias now bearer device_id alias) k = committed_keeps _ _ λ answer e.
        let (user, e1, e2) =
          >>=-eq-ok (get_current_user env.sql env.jose env.uuid env.settings now bearer db) _ e in
        k.renaming user device_id alias e2
    serve_keeps (flush_batch now rows) k =
        committed_keeps _ _
          λ after e. k.flushing after (flush_wrote env.sql env.driver now rows db e)
    serve_keeps (device_meta now device_id payload) k = committed_keeps _ _ λ after e.
        k.registering after
          (meta-DevicesOnly env.sql env.python env.driver now device_id payload db e)
    serve_keeps (seed_device salt mac) k = seeded_keeps _ λ answer e.
        let (existing, e1, e2) =
          seed_wrote env.sql env.bcrypt env.sha256 env.settings salt mac db e in
        subst P (sym e2) (k.seeding salt mac existing e1)

  pub serve_all_keeps :
      (P : Db env.sql → Type 0) (Admits : Request env → Type 0)
      → ((r : Request env) (db : Db env.sql) → Admits r → P db → Keeps P r db)
      → (rs : List (Request env)) → All Admits rs
      → (db : Db env.sql) → P db
      → P (serve_all env rs db)
  unfolding serve_all
  serve_all_keeps P Admits keeps [] admitted db holds = holds
  serve_all_keeps P Admits keeps (r ∷ rs) admitted db holds =
      serve_all_keeps P Admits keeps rs admitted.1 (serve env r db)
        (serve_keeps P db holds r (keeps r db admitted.0 holds))
