-- ===== src/Server.antt =====
-- backend/app/main.py and db/session.py: the requests that change the database, one session after the
-- other. A session that ends in an exception leaves the database as it was.
pub mod Frames
pub mod Batch
pub mod Ingested
pub mod Writes
pub mod Sessions
pub mod Uniqueness
pub mod Invariant
pub mod Links
pub mod ClaimLinks
pub mod Integrity
pub mod Listed
pub mod Unprovisioned
pub mod Spent
pub mod Answers
use mqtt_projeto_vena.Prelude.{String, List, [], ◌∷◌, Option, none, some}
use mqtt_projeto_vena.Http.{Result, ok, err}
use mqtt_projeto_vena.Config.{Settings}
use mqtt_projeto_vena.Sql.{Sql}
use mqtt_projeto_vena.Db.{Db, Time}
use mqtt_projeto_vena.Auth.Jwt.{Jose}
use mqtt_projeto_vena.Auth.Google.{Verified}
use mqtt_projeto_vena.Auth.Service.{Draws, login_with_google, refresh_access_token}
use mqtt_projeto_vena.Devices.Pairing.{Bcrypt}
use mqtt_projeto_vena.Devices.Routes.{claim, update_alias}
use mqtt_projeto_vena.Telemetry.Ingest.Rows.{Bytes, Python, Row}
use mqtt_projeto_vena.Telemetry.Ingest.Flush.{Driver, flush, handle_meta}
use mqtt_projeto_vena.Scripts.SeedDevice.{seed}

-- What the program does not implement, and its settings.
pub record Outside : Type 1 where
  pub sql : Sql
  pub jose : Jose
  pub bcrypt : Bcrypt
  pub python : Python
  pub driver : Driver
  pub sha256 : String → String
  pub uuid : String → Option String
  pub verify_oauth2_token : String → Option String → Verified
  pub settings : Settings

module _ (env : Outside) where
  -- Who writes: the endpoints, the ingestion task, and the seeding script.
  pub data Request : Type 0 where
    google_login : Draws → (id_token : String) → Request
    refresh : Draws → (raw_refresh : String) → Request
    post_claim :
        (now : Time) (bearer : env.jose.Token) (device_id pairing_code : String) (claimed_at : Time)
        → Request
    patch_alias : (now : Time) (bearer : env.jose.Token) (device_id alias : String) → Request
    flush_batch : (now : Time) → List Row → Request
    device_meta : (now : Time) (device_id : String) → Bytes → Request
    seed_device : (salt mac : String) → Request

  -- the database that a session leaves
  unfoldable pub committed : {A : Type 0} → Result A → (A → Db env.sql) → Db env.sql → Db env.sql
  committed (ok answer) after db = after answer
  committed (err e) after db = db

  -- `none` of a script is its exit without a session.
  unfoldable pub seeded : Option (Result (String × String × Db env.sql)) → Db env.sql → Db env.sql
  seeded none db = db
  seeded (some outcome) db = committed outcome (λ a. a.2) db

  -- one session
  unfoldable pub serve : Request → Db env.sql → Db env.sql
  serve (google_login draws id_token) db =
      committed
        (login_with_google env.sql env.jose env.sha256 env.settings env.verify_oauth2_token draws
          id_token db)
        (λ a. a.1) db
  serve (refresh draws raw_refresh) db =
      committed (refresh_access_token env.sql env.jose env.sha256 env.settings draws raw_refresh db)
        (λ a. a.1) db
  serve (post_claim now bearer device_id pairing_code claimed_at) db =
      committed
        (claim env.sql env.jose env.bcrypt env.settings env.uuid now bearer db device_id
          pairing_code claimed_at)
        (λ a. a.1) db
  serve (patch_alias now bearer device_id alias) db =
      committed
        (update_alias env.sql env.jose env.bcrypt env.settings env.uuid now bearer db device_id
          alias)
        (λ a. a.1) db
  serve (flush_batch now rows) db = committed (flush env.sql env.driver now rows db) (λ d. d) db
  serve (device_meta now device_id payload) db =
      committed (handle_meta env.sql env.python env.driver now device_id payload db) (λ d. d) db
  serve (seed_device salt mac) db =
      seeded (seed env.sql env.bcrypt env.sha256 env.settings salt mac db) db

  -- sessions in any order
  unfoldable pub serve_all : List Request → Db env.sql → Db env.sql
  serve_all [] db = db
  serve_all (r ∷ rs) db = serve_all rs (serve r db)
