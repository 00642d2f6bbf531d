-- ===== src/Server/Invariant.antt =====
-- backend/app/db/models.py: the uniqueness that the queries of backend/app rely on.
use mathlib.Core.Path.{subst}
use mqtt_projeto_vena.Prelude.{
  ◌≡◌, ◌∙◌, sym, ap, ◌≤◌, ◌+◌, String, [], ◌∷◌, List, Option, none, some, ◌==◌, ◌&&◌, arith, eq_iff,
  Bool-cases, inl, inr, if◌then◌else◌, length, All,
}
use mqtt_projeto_vena.Http.{ok, scalar_one_or_none}
use mqtt_projeto_vena.Http.Scalar.{ok-injective, scalar_one_or_none-none}
use mqtt_projeto_vena.Sql.{one_if}
use mqtt_projeto_vena.Sql.Counts.{count_where-congr, length-select}
use mqtt_projeto_vena.Db.{Db, User, Device, UserDevice, Time}
use mqtt_projeto_vena.Auth.Google.{GoogleUserInfo}
use mqtt_projeto_vena.Auth.Service.{
  Draws, TokenResponse, upsert_user, login_user, rotate, refresh_access_token,
}
use mqtt_projeto_vena.Auth.Login.{accounts, login_user_one, SignedIn}
use mqtt_projeto_vena.Auth.Rotation.{rotated}
use mqtt_projeto_vena.Devices.Service.{
  ClaimResponse, owns, claim_once, claim_device, update_device_alias,
}
use mqtt_projeto_vena.Devices.Claiming.{claims, claim_counts, claimed}
use mqtt_projeto_vena.Scripts.SeedDevice.{device_id_of, add_device, new_device}
use mqtt_projeto_vena.Telemetry.Ingest.Stored.{IsKeyed}
use mqtt_projeto_vena.Server.{Outside, Request, serve_all}
use mqtt_projeto_vena.Server.Frames.{devices_of}
use mqtt_projeto_vena.Server.Sessions.{Keeps, serve_all_keeps}
use mqtt_projeto_vena.Server.Writes.{login_wrote, rename_wrote}
use mqtt_projeto_vena.Server.Uniqueness.{
  WellFormed, at_most_one, DevicesOnly-WellFormed, flush-WellFormed,
}

module _ (env : Outside) where
  abbrev WellFormedDb : Db env.sql → Type 0
  WellFormedDb = WellFormed env.sql

  -- the parts of the invariant that a sign-in, or a claim, leaves as they are
  abbrev ButAccounts : Db env.sql → Type 0
  ButAccounts d =
      ((device_id : String) → devices_of env.sql d device_id ≤ 1)
      × ((user_id device_id : String) → claims env.sql d user_id device_id ≤ 1)
      × IsKeyed env.sql d.telemetry_raw

  abbrev ButClaims : Db env.sql → Type 0
  ButClaims d =
      ((g : String) → accounts env.sql d g ≤ 1)
      × ((device_id : String) → devices_of env.sql d device_id ≤ 1)
      × IsKeyed env.sql d.telemetry_raw

  login-WellFormed :
      (draws : Draws) (info : GoogleUserInfo) (db : Db env.sql)
      {answer : TokenResponse env.jose.Token × Db env.sql}
      → login_user env.sql env.jose env.sha256 env.settings draws info db ≡ ok answer
      → WellFormedDb db
      → WellFormedDb answer.1
  unfolding upsert_user
  login-WellFormed draws info db {answer} h w = record {
    one_account = λ g.
        subst (λ n. n ≤ 1) (sym (signed.users g)) (at_most_one (info.sub == g) _ (w.one_account g));
    one_device = others.0;
    one_claim = others.1;
    one_reading = others.2;
  }
    where
      signed : SignedIn env.sql env.jose env.sha256 env.settings info db answer
      signed =
          let (reached, e, s) =
            login_user_one env.sql env.jose env.sha256 env.settings draws info db
              (w.one_account info.sub) in
          subst (SignedIn env.sql env.jose env.sha256 env.settings info db)
            (ok-injective (sym e ∙ h)) s

      kept : (found : Option User) → ButAccounts (upsert_user env.sql draws info found db).1
      kept none = (w.one_device, w.one_claim, w.one_reading)
      kept (some user) = (w.one_device, w.one_claim, w.one_reading)

      others : ButAccounts answer.1
      others =
          let wrote = login_wrote env.sql env.jose env.sha256 env.settings draws db info h in
          subst ButAccounts (sym wrote.wrote) (kept wrote.found)

  refresh-WellFormed :
      (draws : Draws) (raw : String) (db : Db env.sql)
      {answer : TokenResponse env.jose.Token × Db env.sql}
      → refresh_access_token env.sql env.jose env.sha256 env.settings draws raw db ≡ ok answer
      → WellFormedDb db
      → WellFormedDb answer.1
  unfolding rotate
  refresh-WellFormed draws raw db h w =
      let r = rotated env.sql env.jose env.sha256 env.settings draws raw db h in
      subst WellFormedDb (sym r.wrote) (record {
        one_account = w.one_account;
        one_device = w.one_device;
        one_claim = w.one_claim;
        one_reading = w.one_reading;
      })

  claim-WellFormed :
      (user : User) (device_id code : String) (at : Time) (db : Db env.sql)
      {answer : ClaimResponse × Db env.sql}
      → claim_device env.sql env.bcrypt user device_id code at db ≡ ok answer
      → WellFormedDb db
      → WellFormedDb answer.1
  unfolding claim_once
  claim-WellFormed user device_id code at db {answer} h w = record {
    one_account = others.0;
    one_device = others.1;
    one_claim = λ u d.
        subst (λ n. n ≤ 1) (sym (claim_counts env.sql env.bcrypt user device_id code at db h u d))
          (at_most_one (user.id == u && device_id == d) _ (w.one_claim u d));
    one_reading = others.2;
  }
    where
      kept :
          (found : Option UserDevice)
          → ButClaims (claim_once env.sql user.id device_id at found db).1
      kept none = (w.one_account, w.one_device, w.one_reading)
      kept (some ud) = (w.one_account, w.one_device, w.one_reading)

      others : ButClaims answer.1
      others =
          let c = claimed env.sql env.bcrypt user device_id code at db h in
          subst (λ a. ButClaims a.1) (sym c.wrote) (kept c.found)

  rename-WellFormed :
      (user : User) (device_id alias : String) (db : Db env.sql)
      {answer : ClaimResponse × Db env.sql}
      → update_device_alias env.sql user device_id alias db ≡ ok answer
      → WellFormedDb db
      → WellFormedDb answer.1
  rename-WellFormed user device_id alias db h w =
      let (ud, wrote) = rename_wrote env.sql user device_id db alias h in
      subst WellFormedDb (sym wrote) (record {
        one_account = w.one_account;
        one_device = w.one_device;
        one_claim = λ u d. subst (λ n. n ≤ 1) (sym (same_claims ud u d)) (w.one_claim u d);
        one_reading = w.one_reading;
      })
    where
      same_owner :
          (ud : UserDevice) (u d : String) (x : UserDevice)
          → owns u d (if owns ud.user_id ud.device_id x then record x { alias = some alias } else x)
            ≡ owns u d x
      same_owner ud u d x = elim (Bool-cases (owns ud.user_id ud.device_id x)) [
        | inl e ↦ rw e
        | inr e ↦ rw e
      ]

      same_claims :
          (ud : UserDevice) (u d : String)
          → env.sql.count_where UserDevice (owns u d) (
              env.sql.update UserDevice
                (owns ud.user_id ud.device_id)
                (λ x. record x { alias = some alias })
                db.user_devices)
            ≡ claims env.sql db u d
      same_claims ud u d =
          env.sql.count_where-update UserDevice _ _ (owns u d) db.user_devices
          ∙ count_where-congr env.sql _ _ db.user_devices (same_owner ud u d)

  add-WellFormed :
      (salt mac : String) (existing : Option Device) (db : Db env.sql)
      → scalar_one_or_none (env.sql.select Device (λ d. d.id == device_id_of mac) db.devices)
        ≡ ok existing
      → WellFormedDb db
      → WellFormedDb (add_device env.sql env.bcrypt env.sha256 env.settings salt mac existing db)
  unfolding add_device new_device
  add-WellFormed salt mac (some existing) db e w = w
  add-WellFormed salt mac none db e w = record {
    one_account = w.one_account;
    one_device = λ x. omega (arith, counted x, one_at x);
    one_claim = w.one_claim;
    one_reading = w.one_reading;
  }
    where
      absent : devices_of env.sql db (device_id_of mac) ≡ 0
      absent = sym (length-select env.sql _ db.devices) ∙ ap length (scalar_one_or_none-none _ e)

      counted :
          (x : String)
          → devices_of env.sql
              (add_device env.sql env.bcrypt env.sha256 env.settings salt mac none db)
              x
            ≡ one_if (device_id_of mac == x) + devices_of env.sql db x
      counted x = env.sql.count_where-insert Device _ _ db.devices

      one_at : (x : String) → one_if (device_id_of mac == x) + devices_of env.sql db x ≤ 1
      one_at x = elim (Bool-cases (device_id_of mac == x)) [
        | inl same ↦
            rw same (omega (arith, absent, ap (devices_of env.sql db) ((eq_iff _ _).0 same)))
        | inr other ↦ rw other (omega (arith, w.one_device x))
      ]

  abbrev AnyRequest : Request env → Type 0
  AnyRequest r = Unit

  -- Whatever requests, batches and seedings are served, in whatever order, a database with one user for
  -- an account, one row for a device, one claim of a user on a device, and one reading of a device
  -- at a time stays one.
  pub serve_all-WellFormed :
      (rs : List (Request env)) (db : Db env.sql)
      → WellFormed env.sql db
      → WellFormed env.sql (serve_all env rs db)
  serve_all-WellFormed rs db w =
      serve_all_keeps env WellFormedDb AnyRequest keeps rs (all_admitted rs) db w
    where
      all_admitted : (l : List (Request env)) → All AnyRequest l
      all_admitted [] = tt
      all_admitted (r ∷ l) = (tt, all_admitted l)

      keeps :
          (r : Request env) (d : Db env.sql)
          → AnyRequest r
          → WellFormedDb d
          → Keeps env WellFormedDb r d
      keeps r d u k = record {
        login = λ draws info e h. login-WellFormed draws info d h k;
        rotation = λ draws raw e h. refresh-WellFormed draws raw d h k;
        claiming = λ now bearer user device_id code at who h.
            claim-WellFormed user device_id code at d h k;
        renaming = λ user device_id alias h. rename-WellFormed user device_id alias d h k;
        flushing = λ after f. flush-WellFormed env.sql f k;
        registering = λ after f. DevicesOnly-WellFormed env.sql f k;
        seeding = λ salt mac existing e. add-WellFormed salt mac existing d e k;
      }
