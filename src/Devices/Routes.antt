-- ===== src/Devices/Routes.antt =====
-- backend/app/devices/routes.py: each endpoint asks for the current user first.
use mqtt_projeto_vena.Prelude.{String, List, Option}
use mqtt_projeto_vena.Http.{Result, ok, ◌>>=◌, ◌>>◌, guard}
use mqtt_projeto_vena.Config.{Settings}
use mqtt_projeto_vena.Sql.{Sql}
use mqtt_projeto_vena.Db.{Db, Time}
use mqtt_projeto_vena.Auth.Jwt.{Jose, create_device_jwt}
use mqtt_projeto_vena.Auth.Deps.{get_current_user}
use mqtt_projeto_vena.Devices.Pairing.{Bcrypt, verify_pairing_code}
use mqtt_projeto_vena.Devices.Service.{
  ClaimResponse, DeviceItem, get_device_or_404, invalid_code, claim_device, list_user_devices,
  update_device_alias,
}

module _ (sql : Sql) (jose : Jose) (bcrypt : Bcrypt) (settings : Settings) where
  -- The body of `provision`, for a user who is known.
  unfoldable pub provision_paired :
      (now : Time) → (device_id pairing_code : String) → Db sql → Result jose.Token
  provision_paired now device_id pairing_code db = do
    device ← get_device_or_404 sql device_id db
    valid ← verify_pairing_code bcrypt pairing_code device.pairing_code_hash
    guard valid invalid_code
    ok (create_device_jwt jose settings now device_id)

  module _ (uuid : String → Option String) (now : Time) (bearer : jose.Token) (db : Db sql) where
    unfoldable pub provision : (device_id pairing_code : String) → Result jose.Token
    provision device_id pairing_code = do
      user ← get_current_user sql jose uuid settings now bearer db
      provision_paired now device_id pairing_code db

    unfoldable pub claim :
        (device_id pairing_code : String) → (claimed_at : Time) → Result (ClaimResponse × Db sql)
    claim device_id pairing_code claimed_at = do
      user ← get_current_user sql jose uuid settings now bearer db
      claim_device sql bcrypt user device_id pairing_code claimed_at db

    unfoldable pub list_devices : Result (List DeviceItem)
    list_devices = do
      user ← get_current_user sql jose uuid settings now bearer db
      ok (list_user_devices sql user db)

    unfoldable pub update_alias : (device_id alias : String) → Result (ClaimResponse × Db sql)
    update_alias device_id alias = do
      user ← get_current_user sql jose uuid settings now bearer db
      update_device_alias sql user device_id alias db
