-- ===== src/Server/Answers.antt =====
-- backend/app/auth/service.py and devices/service.py: how requests end after any others.
use mqtt_projeto_vena.Prelude.{
  ◌≡◌, ◌≤◌, ◌∙◌, sym, ap, refl, String, List, [], ◌∷◌, Option, none, some, Bool, true, false, ◌==◌,
  ◌⊎◌, inl, inr, length, arith,
}
use mqtt_projeto_vena.Http.{
  Result, ok, err, http_exception, uncaught, value_error, ◌>>=◌, ◌>>◌, guard, scalar_one_or_none,
}
use mqtt_projeto_vena.Sql.Counts.{length-select}
use mqtt_projeto_vena.Db.{Db, User, Device, UserDevice, Time}
use mqtt_projeto_vena.Auth.Google.{GoogleUserInfo}
use mqtt_projeto_vena.Auth.Service.{Draws, TokenResponse, login_user}
use mqtt_projeto_vena.Auth.Login.{login_user_one}
use mqtt_projeto_vena.Devices.Pairing.{Bcrypt, verify_pairing_code}
use mqtt_projeto_vena.Devices.Service.{
  owns, invalid_code, get_device_or_404, claim_once, claim_device, update_device_alias,
}
use mqtt_projeto_vena.Devices.Routes.{provision_paired}
use mqtt_projeto_vena.Server.{Outside, Request, serve_all}
use mqtt_projeto_vena.Server.Frames.{devices_of}
use mqtt_projeto_vena.Devices.Claiming.{claims}
use mqtt_projeto_vena.Sql.{Sql}
use mqtt_projeto_vena.Server.Invariant.{serve_all-WellFormed}
use mqtt_projeto_vena.Server.Uniqueness.{WellFormed}

-- What becomes of a request with a code, by what bcrypt makes of the code and the stored text: a
-- ValueError for a text that is no hash, 403 for another code, and an answer for the right one.
abbrev pub Verdict : {A : Type 0} → Option Bool → Result A → Type 0
Verdict none r = r ≡ err (uncaught value_error)
Verdict (some false) r = r ≡ err (http_exception 403 "Invalid pairing code")
Verdict {A} (some true) r = (a : A) × (r ≡ ok a)

-- 404 where there is no such device, and the verdict on the code where there is one
abbrev pub Judged :
    {A : Type 0} (sql : Sql) (bcrypt : Bcrypt) (device_id code : String)
    → Db sql
    → Result A
    → Type 0
Judged sql bcrypt device_id code db r =
    ((devices_of sql db device_id ≡ 0) × (r ≡ err (http_exception 404 "Device not found")))
    ⊎ ((device : Device) × (sql.select Device (λ d. d.id == device_id) db.devices ≡ device ∷ [])
        × Verdict (bcrypt.checkpw code device.pairing_code_hash) r)

-- 403 where the user has no claim on the device, and an answer where they have one
abbrev pub Renamed :
    {A : Type 0} (sql : Sql) (user_id device_id : String) → Db sql → Result A → Type 0
Renamed {A} sql user_id device_id db r =
    ((claims sql db user_id device_id ≡ 0)
      × (r ≡ err (http_exception 403 "Device not owned by this user")))
    ⊎ ((claims sql db user_id device_id ≡ 1) × ((a : A) × (r ≡ ok a)))

-- Where at most one row comes back, a query for one answers.
scalar_answers :
    {R : Type 0} (l : List R)
    → length l ≤ 1
    → (found : Option R) × (scalar_one_or_none l ≡ ok found)
unfolding scalar_one_or_none
scalar_answers [] h = (none, refl)
scalar_answers (r ∷ []) h = (some r, refl)
scalar_answers (r ∷ s ∷ l) h = absurd (omega arith)

-- no row, or one
at_most_one : {R : Type 0} (l : List R) → length l ≤ 1 → (l ≡ []) ⊎ ((r : R) × (l ≡ r ∷ []))
at_most_one [] h = inl refl
at_most_one (r ∷ []) h = inr (r, refl)
at_most_one (r ∷ s ∷ l) h = absurd (omega arith)

module _ (env : Outside) (device_id : String) (db : Db env.sql) where
  abbrev OneDevice : Type 0
  OneDevice = length (env.sql.select Device (λ d. d.id == device_id) db.devices) ≤ 1

  -- the checks of a code, in front of statements that do not fail
  checks-Judged :
      {A : Type 0} (code : String) (rest : Result A)
      → OneDevice
      → (a : A) × (rest ≡ ok a)
      → Judged env.sql env.bcrypt device_id code db (
          get_device_or_404 env.sql device_id db >>= λ device.
          verify_pairing_code env.bcrypt code device.pairing_code_hash >>= λ valid.
          guard valid invalid_code >> rest)
  unfolding get_device_or_404 scalar_one_or_none verify_pairing_code
  checks-Judged {A} code rest few (a, runs) = elim (at_most_one _ few) [
    | inl e ↦
        inl
          (sym (length-select env.sql (λ d. d.id == device_id) db.devices) ∙ ap length e, rw e refl)
    | inr (device, e) ↦
        inr
          (device, e, rw e (by_code device (env.bcrypt.checkpw code device.pairing_code_hash) refl))
  ]
    where
      by_code :
          (device : Device) (checked : Option Bool)
          → env.bcrypt.checkpw code device.pairing_code_hash ≡ checked
          → Verdict (env.bcrypt.checkpw code device.pairing_code_hash) (
              verify_pairing_code env.bcrypt code device.pairing_code_hash >>= λ valid.
              guard valid invalid_code >> rest)
      by_code device none e = rw (e, verify_pairing_code) refl
      by_code device (some false) e = rw (e, verify_pairing_code) refl
      by_code device (some true) e = rw (e, verify_pairing_code) (a, runs)

  claim-Judged :
      (user : User) (code : String) (at : Time)
      → OneDevice
      → length (env.sql.select UserDevice (owns user.id device_id) db.user_devices) ≤ 1
      → Judged env.sql env.bcrypt device_id code db
          (claim_device env.sql env.bcrypt user device_id code at db)
  unfolding claim_device
  claim-Judged user code at few one =
      let (found, e1) = scalar_answers _ one in
      checks-Judged code
        (scalar_one_or_none (env.sql.select UserDevice (owns user.id device_id) db.user_devices)
          >>= λ existing. ok (claim_once env.sql user.id device_id at existing db))
        few (claim_once env.sql user.id device_id at found db, rw e1)

  provision-Judged :
      (code : String) (now : Time)
      → OneDevice
      → Judged env.sql env.bcrypt device_id code db
          (provision_paired env.sql env.jose env.bcrypt env.settings now device_id code db)
  unfolding provision_paired
  provision-Judged code now few = checks-Judged code _ few (_, refl)

  rename-Renamed :
      (user : User) (alias : String)
      → length (env.sql.select UserDevice (owns user.id device_id) db.user_devices) ≤ 1
      → Renamed env.sql user.id device_id db (update_device_alias env.sql user device_id alias db)
  unfolding update_device_alias scalar_one_or_none
  rename-Renamed user alias one = elim (at_most_one _ one) [
    | inl e ↦ inl (counted ∙ ap length e, rw e refl)
    | inr (ud, e) ↦ inr (counted ∙ ap length e, rw e (_, refl))
  ]
    where
      counted :
          claims env.sql db user.id device_id
          ≡ length (env.sql.select UserDevice (owns user.id device_id) db.user_devices)
      counted = sym (length-select env.sql (owns user.id device_id) db.user_devices)

module _ (env : Outside) where
  -- After any requests, batches and seedings, served in any order from a database with one user for an
  -- account, one row for a device, one claim of a user on a device, and one reading of a device at a time: a
  -- verified account is always signed in; claiming and provisioning answer 404 if the device is unknown,
  -- and else by the code: a ValueError if the stored text is no hash, 403 if the code does not match it, and
  -- success if it does; renaming answers 403 to a user without a claim on the device, and succeeds for
  -- one who has it.
  pub answers_after :
      (rs : List (Request env)) (start : Db env.sql)
      → WellFormed env.sql start
      → ((draws : Draws) (info : GoogleUserInfo)
          → (answer : TokenResponse env.jose.Token × Db env.sql) × (login_user env.sql env.jose
                env.sha256 env.settings draws info
                (serve_all env rs start)
              ≡ ok answer))
        × ((user : User) (device_id code : String) (at : Time)
            → Judged env.sql env.bcrypt device_id code
                (serve_all env rs start)
                (claim_device env.sql env.bcrypt user device_id code at (serve_all env rs start)))
        × ((now : Time) (device_id code : String)
            → Judged env.sql env.bcrypt device_id code (serve_all env rs start) (
                provision_paired env.sql env.jose env.bcrypt env.settings now device_id code
                  (serve_all env rs start)))
        × ((user : User) (device_id alias : String)
            → Renamed env.sql user.id device_id
                (serve_all env rs start)
                (update_device_alias env.sql user device_id alias (serve_all env rs start)))
  answers_after rs start formed = (
    λ draws info.
        let (answer, e, s) =
          login_user_one env.sql env.jose env.sha256 env.settings draws info after
            (w.one_account info.sub) in
        (answer, e),
    λ user device_id code at.
        claim-Judged env device_id after user code at (one_device device_id)
          (one_claim user.id device_id),
    λ now device_id code. provision-Judged env device_id after code now (one_device device_id),
    λ user device_id alias.
        rename-Renamed env device_id after user alias (one_claim user.id device_id),
  )
    where
      after : Db env.sql
      after = serve_all env rs start

      w : WellFormed env.sql after
      w = serve_all-WellFormed env rs start formed

      one_device :
          (device_id : String)
          → length (env.sql.select Device (λ d. d.id == device_id) after.devices) ≤ 1
      one_device device_id = omega (
        arith,
        length-select env.sql (λ d. d.id == device_id) after.devices,
        w.one_device device_id,
      )

      one_claim :
          (user_id device_id : String)
          → length (env.sql.select UserDevice (owns user_id device_id) after.user_devices) ≤ 1
      one_claim user_id device_id = omega (
        arith,
        length-select env.sql (owns user_id device_id) after.user_devices,
        w.one_claim user_id device_id,
      )
