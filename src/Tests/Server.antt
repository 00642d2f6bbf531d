-- ===== src/Tests/Server.antt =====
-- Sequences of requests, at concrete inputs.
use mathlib.Core.Path.{subst}
use mqtt_projeto_vena.Prelude.{
  refl, ◌≡◌, ◌≢◌, ◌≤◌, String, List, [], ◌∷◌, none, some, Bool, true, false, arith, eq_iff, ◌==◌,
  Bool-cases, inl, inr, All, count, if◌then◌else◌,
}
use mqtt_projeto_vena.Config.{default_settings}
use mqtt_projeto_vena.Http.{ok, err, http_exception}
use mqtt_projeto_vena.Sql.Memory.{memory}
use mqtt_projeto_vena.Db.{Db, User, Device, Time}
use mqtt_projeto_vena.Auth.Jwt.{create_access_token}
use mqtt_projeto_vena.Auth.Google.{GoogleUserInfo, idinfo}
use mqtt_projeto_vena.Auth.Service.{Draws, TokenResponse, login_user, refresh_access_token}
use mqtt_projeto_vena.Devices.Service.{claim_device, update_device_alias}
use mqtt_projeto_vena.Devices.Routes.{provision_paired}
use mqtt_projeto_vena.Server.{
  Outside, Request, google_login, post_claim, device_meta, seed_device, serve_all,
}
use mqtt_projeto_vena.Server.Spent.{HandsOutOther, spent_for_good}
use mqtt_projeto_vena.Server.Links.{Linked}
use mqtt_projeto_vena.Server.Listed.{list_user_devices_counts}
use mqtt_projeto_vena.Devices.Service.{list_user_devices}
use mqtt_projeto_vena.Devices.Claiming.{claims}
use mqtt_projeto_vena.Server.Integrity.{serve_all-Linked}
use mqtt_projeto_vena.Server.Invariant.{serve_all-WellFormed}
use mqtt_projeto_vena.Server.Uniqueness.{WellFormed}
use mqtt_projeto_vena.Server.Answers.{Judged, Renamed, answers_after}
use mqtt_projeto_vena.Tests.Values.{
  jose, bcrypt, python, driver, sha256, uuid, ana, registered, start_db,
}
use mqtt_projeto_vena.Tests.Tokens.{first, second_try, answer, refreshed, other_hash, now}

abbrev env : Outside
env = record {
  sql = memory;
  jose = jose;
  bcrypt = bcrypt;
  python = python;
  driver = driver;
  sha256 = sha256;
  uuid = uuid;
  verify_oauth2_token = λ token audience. idinfo (("sub", "g-1") ∷ ("email", "ana@vena.com") ∷ []);
  settings = default_settings;
}

-- a sign-in, a claim with the code, a reading's metadata, and a new device
abbrev requests : List (Request env)
requests =
    google_login second_try "token"
    ∷ post_claim now (create_access_token jose default_settings now ana) "vena-01" "12345678" now
    ∷ device_meta now "vena-03" (2 ∷ [])
    ∷ seed_device "salt" "a0:b7:65:c1:d2:e3"
    ∷ []

start-WellFormed : WellFormed memory start_db
start-WellFormed = record {
  one_account = λ g. ground arith;
  one_device = λ d. two_ids d;
  one_claim = λ u d. omega arith;
  one_reading = λ d ts. ground arith;
}
  where
    at_most : (b : Bool) → (if b then 1 else 0) ≤ 1
    at_most b = ground arith

    Few : String → Type 0
    Few d = count (λ (x : Device). x.id == d) start_db.devices ≤ 1

    two_ids : (d : String) → Few d
    two_ids d = elim (Bool-cases ("vena-01" == d)) [
      | inl e ↦ subst Few ((eq_iff "vena-01" d).0 e) (omega arith)
      | inr e ↦ rw e (at_most (registered.id == d))
    ]

serve_all-WellFormed_example : WellFormed memory (serve_all env requests start_db)
serve_all-WellFormed_example = serve_all-WellFormed env requests start_db start-WellFormed

start-Linked : Linked memory start_db
start-Linked = record {
  claim_of = λ x. inl refl;
  claim_on = λ x. inl refl;
  token_user =
      λ x. elim (Bool-cases ("u-1" == x)) [ inl e ↦ inr (rw e (omega arith)) | inr e ↦ inl (rw e) ];
  reading = λ x. elim (Bool-cases ("vena-01" == x)) [
    | inl e ↦ inr (rw e (omega arith))
    | inr e ↦ inl (rw e)
  ];
  meta = λ x. inl refl;
}

serve_all-Linked_example : Linked memory (serve_all env requests start_db)
serve_all-Linked_example = serve_all-Linked env requests start_db start-Linked

abbrev served : Db memory
served = serve_all env requests start_db

list_user_devices_counts_example :
    (count (λ i. i.device_id == "vena-01") (list_user_devices memory ana served)
      ≡ claims memory served "u-1" "vena-01")
    × (claims memory served "u-1" "vena-01" ≤ 1)
list_user_devices_counts_example =
    list_user_devices_counts memory (serve_all env requests start_db) ana "vena-01"
      (serve_all-WellFormed env requests start_db start-WellFormed)
      (serve_all-Linked env requests start_db start-Linked)

others : All (HandsOutOther env (sha256 "old")) requests
others = (
  λ draws e. subst IsNotOld (some-injective e) newer,
  (
    λ draws e. absurd (no_draws e),
    (λ draws e. absurd (no_draws e), (λ draws e. absurd (no_draws e), tt)),
  ),
)
  where
    IsNotOld : Draws → Type 0
    IsNotOld draws = sha256 draws.raw_refresh ≢ sha256 "old"

    newer : IsNotOld second_try
    newer e = let same : false ≡ true = (eq_iff (sha256 "newer") (sha256 "old")).1 e in cc

    some-injective : {a b : Draws} → some a ≡ some b → a ≡ b
    some-injective h = cc

    no_draws : {a : Draws} → none ≡ some a → ⊥
    no_draws h = cc

spent_for_good_example :
    refresh_access_token memory jose sha256 default_settings second_try "old"
      (serve_all env requests answer.1)
    ≡ err (http_exception 401 "Refresh token is invalid, expired, or already revoked")
spent_for_good_example =
    spent_for_good env first second_try "old" start_db requests refreshed other_hash others
      (omega arith)

answers_after_example :
    ((draws : Draws) (info : GoogleUserInfo)
      → (answer : TokenResponse jose.Token × Db memory) × (login_user memory jose sha256
            default_settings draws info
            (serve_all env requests start_db)
          ≡ ok answer))
    × ((user : User) (device_id code : String) (at : Time)
        → Judged memory bcrypt device_id code
            (serve_all env requests start_db)
            (claim_device memory bcrypt user device_id code at (serve_all env requests start_db)))
    × ((now : Time) (device_id code : String)
        → Judged memory bcrypt device_id code (serve_all env requests start_db) (
            provision_paired memory jose bcrypt default_settings now device_id code
              (serve_all env requests start_db)))
    × ((user : User) (device_id alias : String)
        → Renamed memory user.id device_id
            (serve_all env requests start_db)
            (update_device_alias memory user device_id alias (serve_all env requests start_db)))
answers_after_example = answers_after env requests start_db start-WellFormed
