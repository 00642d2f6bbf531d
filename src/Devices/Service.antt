-- ===== src/Devices/Service.antt =====
-- backend/app/devices/service.py
use mathlib.Core.List.{flat_map}
use mqtt_projeto_vena.Prelude.{String, List, map, Option, none, some, Bool, ◌&&◌, ◌==◌}
use mqtt_projeto_vena.Http.{
  Result, ok, Error, http_exception, ◌>>=◌, ◌>>◌, guard, scalar_one_or_none, require,
}
use mqtt_projeto_vena.Sql.{Sql}
use mqtt_projeto_vena.Db.{Db, User, Device, UserDevice, Time}
use mqtt_projeto_vena.Devices.Pairing.{Bcrypt, verify_pairing_code}

pub record ClaimResponse : Type 0 where
  pub device_id : String
  pub alias : Option String
  pub claimed_at : Time

pub record DeviceItem : Type 0 where
  pub device_id : String
  pub alias : Option String
  pub status : String
  pub last_seen_at : Option Time
  pub fw_version : Option String

-- The rows of a user and of a device among the claims: UserDevice.user_id == … and
-- UserDevice.device_id == ….
abbrev pub owns : (user_id device_id : String) → UserDevice → Bool
owns user_id device_id ud = ud.user_id == user_id && ud.device_id == device_id

abbrev pub invalid_code : Error
invalid_code = http_exception 403 "Invalid pairing code"

unfoldable pub claim_response : (device_id : String) → UserDevice → ClaimResponse
claim_response device_id ud = record {
  device_id = device_id;
  alias = ud.alias;
  claimed_at = ud.claimed_at;
}

-- `claimed_at` is the database's clock
abbrev pub new_claim : (user_id device_id : String) → (claimed_at : Time) → UserDevice
new_claim user_id device_id claimed_at = record {
  user_id = user_id;
  device_id = device_id;
  alias = none;
  claimed_at = claimed_at;
}

abbrev pub device_item : UserDevice → Device → DeviceItem
device_item ud device = record {
  device_id = device.id;
  alias = ud.alias;
  status = device.status;
  last_seen_at = device.last_seen_at;
  fw_version = device.fw_version;
}

module _ (sql : Sql) where
  unfoldable pub get_device_or_404 : (device_id : String) → Db sql → Result Device
  get_device_or_404 device_id db = do
    device ← scalar_one_or_none (sql.select Device (λ d. d.id == device_id) db.devices)
    require device (http_exception 404 "Device not found")

  -- The end of `claim_device`: the claim that exists, or a new one.
  unfoldable pub claim_once :
      (user device_id : String) → Time → Option UserDevice → Db sql → ClaimResponse × Db sql
  claim_once user device_id claimed_at (some existing_ud) db =
      (claim_response device_id existing_ud, db)
  claim_once user device_id claimed_at none db =
      let ud : UserDevice = new_claim user device_id claimed_at in
      (
        claim_response device_id ud,
        record db { user_devices = sql.insert UserDevice ud db.user_devices },
      )

  unfoldable pub claim_device :
      (bcrypt : Bcrypt)
      → User
      → (device_id pairing_code : String) → (claimed_at : Time) → Db sql
      → Result (ClaimResponse × Db sql)
  claim_device bcrypt user device_id pairing_code claimed_at db = do
    device ← get_device_or_404 device_id db
    valid ← verify_pairing_code bcrypt pairing_code device.pairing_code_hash
    guard valid invalid_code
    existing_ud ←
        scalar_one_or_none (sql.select UserDevice (owns user.id device_id) db.user_devices)
    ok (claim_once user.id device_id claimed_at existing_ud db)

  -- The join: for each claim of the user, the devices of its id.
  unfoldable pub list_user_devices : User → Db sql → List DeviceItem
  list_user_devices user db =
      flat_map
        (λ ud. map (device_item ud) (sql.select Device (λ d. ud.device_id == d.id) db.devices))
        (sql.select UserDevice (λ ud. ud.user_id == user.id) db.user_devices)

  unfoldable pub update_device_alias :
      User → (device_id alias : String) → Db sql → Result (ClaimResponse × Db sql)
  update_device_alias user device_id alias db = do
    found ← scalar_one_or_none (sql.select UserDevice (owns user.id device_id) db.user_devices)
    ud ← require found (http_exception 403 "Device not owned by this user")
    ok (
      claim_response device_id (record ud { alias = some alias }),
      record db {
        user_devices =
            sql.update UserDevice (owns ud.user_id ud.device_id)
              (λ x. record x { alias = some alias }) db.user_devices;
      },
    )
