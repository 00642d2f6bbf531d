-- ===== src/Server/Writes.antt =====
-- What the sessions of backend/app/auth/service.py, devices/service.py and
-- scripts/seed_device.py write when they succeed.
use mqtt_projeto_vena.Prelude.{◌≡◌, sym, ap, String, Option, none, some, ◌==◌, Bool-cases, inl, inr}
use mqtt_projeto_vena.Http.{Result, ok, err, http_exception, uncaught, require, scalar_one_or_none}
use mqtt_projeto_vena.Http.Scalar.{>>=-eq-ok, ok-injective}
use mqtt_projeto_vena.Config.{Settings}
use mqtt_projeto_vena.Sql.{Sql}
use mqtt_projeto_vena.Db.{Db, User, Device, UserDevice}
use mqtt_projeto_vena.Auth.Jwt.{Jose}
use mqtt_projeto_vena.Auth.Google.{
  GoogleCheck, GoogleUserInfo, Verified, user_info, invalid, raised, verify_google_token,
}
use mqtt_projeto_vena.Auth.Service.{
  Draws, TokenResponse, new_refresh_token, upsert_user, login_user, login_with_google,
}
use mqtt_projeto_vena.Devices.Pairing.{Bcrypt}
use mqtt_projeto_vena.Devices.Service.{ClaimResponse, owns, update_device_alias}
use mqtt_projeto_vena.Scripts.SeedDevice.{device_id_of, mac_re, add_device, seed}

some-injective {ℓ} : {A : Type ℓ} {a b : A} → some a ≡ some b → a ≡ b
some-injective k = cc

no_exit {ℓ} : {A : Type ℓ} {a : A} → none ≡ some a → ⊥
no_exit k = cc

module _ (sql : Sql) where
  -- A sign-in: the account's user, then a refresh token for that user.
  pub record LoginWrote (jose : Jose) (sha256 : String → String) (settings : Settings)
      (draws : Draws) (info : GoogleUserInfo) (before after : Db sql) : Type 0 where
    pub found : Option User
    pub met :
        scalar_one_or_none (sql.select User (λ u. u.google_sub == info.sub) before.users) ≡ ok found
    pub wrote : after ≡ (
        let (user, db') = upsert_user sql draws info found before in
        record db' {
          refresh_tokens =
              sql.insert _
                (new_refresh_token sql jose sha256 settings draws user.id)
                db'.refresh_tokens;
        })

  module _ (jose : Jose) (sha256 : String → String) (settings : Settings) (draws : Draws)
      (db : Db sql) {answer : TokenResponse jose.Token × Db sql} where
    pub login_wrote :
        (info : GoogleUserInfo)
        → login_user sql jose sha256 settings draws info db ≡ ok answer
        → LoginWrote jose sha256 settings draws info db answer.1
    unfolding login_user
    login_wrote info h =
        let (found, e, h1) =
          >>=-eq-ok (scalar_one_or_none (sql.select User (λ u. u.google_sub == info.sub) db.users))
            _ h in
        record { found = found; met = e; wrote = sym (ap (λ p. p.1) (ok-injective h1)) }

  module _ (jose : Jose) (sha256 : String → String) (settings : Settings) (draws : Draws)
      (db : Db sql) where
    -- what a sign-in does with the answer of the verification
    signed_in : GoogleCheck → Result (TokenResponse jose.Token × Db sql)
    signed_in v = elim v [
      | user_info info ↦ login_user sql jose sha256 settings draws info db
      | invalid detail ↦ err (http_exception 401 detail)
      | raised e ↦ err (uncaught e)
    ]

    signed_in_ok :
        (v : GoogleCheck) {answer : TokenResponse jose.Token × Db sql}
        → signed_in v ≡ ok answer
        → (info : GoogleUserInfo) × (login_user sql jose sha256 settings draws info db ≡ ok answer)
    unfolding signed_in
    signed_in_ok (user_info info) h = (info, h)
    signed_in_ok (invalid detail) h = cc
    signed_in_ok (raised e) h = cc

    pub google_login_ok :
        (verify_oauth2_token : String → Option String → Verified) (id_token : String)
        {answer : TokenResponse jose.Token × Db sql}
        → login_with_google sql jose sha256 settings verify_oauth2_token draws id_token db
          ≡ ok answer
        → (info : GoogleUserInfo) × (login_user sql jose sha256 settings draws info db ≡ ok answer)
    unfolding login_with_google signed_in
    google_login_ok verify_oauth2_token id_token h =
        signed_in_ok (verify_google_token verify_oauth2_token settings id_token) h

  module _ (user : User) (device_id : String) (db : Db sql) where
    -- a new name changes the names of the user's claims on the device
    pub rename_wrote :
        (alias : String) {answer : ClaimResponse × Db sql}
        → update_device_alias sql user device_id alias db ≡ ok answer
        → (ud : UserDevice) × (answer.1 ≡ record db {
          user_devices =
              sql.update UserDevice
                (owns ud.user_id ud.device_id)
                (λ x. record x { alias = some alias })
                db.user_devices;
        })
    unfolding update_device_alias
    rename_wrote alias h =
        let (found, e1, h1) =
          >>=-eq-ok
            (scalar_one_or_none (sql.select UserDevice (owns user.id device_id) db.user_devices)) _
            h in
        let (ud, e2, h2) =
          >>=-eq-ok (require found (http_exception 403 "Device not owned by this user")) _ h1 in
        (ud, sym (ap (λ p. p.1) (ok-injective h2)))

  -- the seeding script inserts a device whose id it did not find, or nothing
  pub seed_wrote :
      (bcrypt : Bcrypt) (sha256 : String → String) (settings : Settings) (salt mac : String)
      (db : Db sql) {answer : String × String × Db sql}
      → seed sql bcrypt sha256 settings salt mac db ≡ some (ok answer)
      → (existing : Option Device) × (scalar_one_or_none
            (sql.select Device (λ d. d.id == device_id_of mac) db.devices)
          ≡ ok existing)
        × (answer.2 ≡ add_device sql bcrypt sha256 settings salt mac existing db)
  unfolding seed
  seed_wrote bcrypt sha256 settings salt mac db h = elim (Bool-cases (mac_re mac)) [
    | inl e ↦
        let (existing, e1, h1) = >>=-eq-ok _ _ (some-injective (rw e at h)) in
        (existing, e1, sym (ap (λ p. p.2) (ok-injective h1)))
    | inr e ↦ absurd (no_exit (rw e at h))
  ]
