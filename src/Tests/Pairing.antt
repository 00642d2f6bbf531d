-- ===== src/Tests/Pairing.antt =====
-- Pairing, claims and their use at the broker, at concrete inputs.
use mqtt_projeto_vena.Prelude.{
  inr, ◌+◌, ◌<◌, ◌≡◌, ◌≢◌, ◌↔◌, inl, refl, String, [], ◌∷◌, none, some, true, false, ◌==◌, ◌&&◌,
  arith, eq_iff, join, if◌then◌else◌,
}
use mqtt_projeto_vena.Config.{default_settings}
use mqtt_projeto_vena.Http.{ok, err, uncaught, value_error, scalar_one_or_none}
use mqtt_projeto_vena.Sql.Memory.{memory}
use mqtt_projeto_vena.Db.{DeviceMeta, Device, Db, UserDevice}
use mqtt_projeto_vena.Auth.Jwt.{minutes, create_device_jwt}
use mqtt_projeto_vena.Auth.Lifetime.{unexpired}
use mqtt_projeto_vena.BrokerAuth.{mqtt_acl}
use mqtt_projeto_vena.BrokerAuth.Access.{AddressesDevice, acl_request}
use mqtt_projeto_vena.Devices.Pairing.{
  verify_pairing_code, generate_pairing_code, lower, remove, small, upper, drop_text, take_text,
  big, octets,
}
use mqtt_projeto_vena.Devices.Service.{
  ClaimResponse, new_claim, claim_response, get_device_or_404, claim_once, claim_device,
  update_device_alias,
}
use mqtt_projeto_vena.Devices.Routes.{provision_paired}
use mqtt_projeto_vena.Devices.Claiming.{claims, claim_again, claim_counts}
use mqtt_projeto_vena.Devices.Ownership.{HoldsCode, code_needed, named, alias_own}
use mqtt_projeto_vena.Mqtt.Credentials.{get_mqtt_credentials}
use mqtt_projeto_vena.Mqtt.Access.{credentials_access, claim_opens_topics}
use mqtt_projeto_vena.Scripts.GenerateQr
use mqtt_projeto_vena.Scripts.SeedDevice.{mac_re, match_octets, device_id_of, seed}
use mqtt_projeto_vena.Scripts.Agreement.{qr_agrees, seeded_claim}
use mqtt_projeto_vena.Json.{null}
use mqtt_projeto_vena.Telemetry.Ingest.Rows.{Python, json}
use mqtt_projeto_vena.Telemetry.Ingest.Flush.{
  unprovisioned, meta_row, register, upsert_meta, handle_meta,
}
use mqtt_projeto_vena.Server.Unprovisioned.{unprovisioned_fails}
use mqtt_projeto_vena.Tests.Values.{driver, python, jose, bcrypt, sha256, ana, start_db}

abbrev answer : ClaimResponse × Db memory
answer = claim_once memory "u-1" "vena-01" 5 none start_db

claimed : claim_device memory bcrypt ana "vena-01" "12345678" 5 start_db ≡ ok answer
unfolding claim_device get_device_or_404 scalar_one_or_none verify_pairing_code
claimed = refl

credentials_access_example :
    (mqtt_acl jose default_settings 1000000 (
        acl_request
          (get_mqtt_credentials memory jose default_settings 0 ana answer.1).mqtt_token
          "vena/vena-01/cmd"
          "app"
          2)
      ≡ 200)
    ↔ ((unexpired 1000000 (0 + minutes 60) ≡ true)
        × ((device_id : String) × AddressesDevice device_id "vena/vena-01/cmd"
            × (0 < claims memory answer.1 "u-1" device_id)))
credentials_access_example =
    credentials_access memory jose default_settings ana 0 1000000 "vena/vena-01/cmd" "app" 2
      answer.1

addressed : AddressesDevice "vena-01" "vena/vena-01/cmd"
addressed = ("cmd" ∷ [], unfold join in refl, omega arith)

claim_opens_topics_example :
    mqtt_acl jose default_settings 1000000 (
      acl_request
        (get_mqtt_credentials memory jose default_settings 0 ana answer.1).mqtt_token
        "vena/vena-01/cmd"
        "app"
        2)
    ≡ 200
claim_opens_topics_example =
    claim_opens_topics memory jose default_settings ana 0 1000000 "vena/vena-01/cmd" "app" 2 bcrypt
      "vena-01" "12345678" 5 start_db claimed addressed refl

claim_again_example : claim_device memory bcrypt ana "vena-01" "12345678" 90 answer.1 ≡ ok answer
claim_again_example = claim_again memory bcrypt ana "vena-01" "12345678" 5 90 start_db claimed

claim_counts_example : claims memory answer.1 "u-2" "vena-01" ≡ (
    if "u-1" == "u-2" && "vena-01" == "vena-01" then 1 else claims memory start_db "u-2" "vena-01")
claim_counts_example =
    claim_counts memory bcrypt ana "vena-01" "12345678" 5 start_db claimed "u-2" "vena-01"

provisioned :
    provision_paired memory jose bcrypt default_settings 7 "vena-01" "12345678" start_db
    ≡ ok (create_device_jwt jose default_settings 7 "vena-01")
unfolding provision_paired get_device_or_404 scalar_one_or_none verify_pairing_code
provisioned = refl

code_needed_example : HoldsCode memory bcrypt "vena-01" "12345678" start_db
code_needed_example =
    code_needed memory bcrypt jose default_settings ana 7 "vena-01" "12345678" start_db
      (inr (create_device_jwt jose default_settings 7 "vena-01", provisioned))

-- the database after the first metadata of a device
abbrev met : Db memory
met = record start_db {
  devices =
      memory.insert_or_nothing Device (λ d. d.id == "vena-09") (unprovisioned "vena-09" 7)
        start_db.devices;
  device_meta =
      memory.insert_or_update DeviceMeta (λ m. m.device_id == "vena-09")
        (λ m. record m { payload = null; updated_at = 7 }) (meta_row "vena-09" null 7)
        start_db.device_meta;
}

-- the payload `null`
abbrev null_python : Python
null_python = record python { json_loads = λ payload. json null }

registers : handle_meta memory null_python driver 7 "vena-09" [] start_db ≡ ok met
unfolding handle_meta upsert_meta register
registers = refl

unprovisioned_fails_example :
    (claim_device memory bcrypt ana "vena-09" "12345678" 8 met ≡ err (uncaught value_error))
    × (provision_paired memory jose bcrypt default_settings 8 "vena-09" "12345678" met
        ≡ err (uncaught value_error))
unprovisioned_fails_example =
    unprovisioned_fails memory bcrypt jose default_settings null_python driver 7 "vena-09" [] null
      start_db ana "12345678" 8 refl refl registers refl

abbrev mine : UserDevice
mine = new_claim "u-1" "vena-01" 5

abbrev renamed : ClaimResponse × Db memory
renamed = (
  claim_response "vena-01" (record mine { alias = some "Caixa" }),
  record start_db { user_devices = record mine { alias = some "Caixa" } ∷ [] },
)

renames :
    update_device_alias memory ana "vena-01" "Caixa" (record start_db { user_devices = mine ∷ [] })
    ≡ ok renamed
unfolding update_device_alias scalar_one_or_none
renames = refl

other_user : ana.id ≢ "u-2"
other_user e = let same : false ≡ true = (eq_iff ana.id "u-2").1 e in cc

alias_own_example :
    (renamed.0.alias ≡ some "Caixa")
    × (claims memory (record start_db { user_devices = mine ∷ [] }) "u-1" "vena-01" ≡ 1)
    × (named memory ana "vena-01" "Caixa"
          (record start_db { user_devices = mine ∷ [] })
          renamed.1
          "u-2"
          "vena-01"
          (λ ud. true)
        ≡ named memory ana "vena-01" "Caixa"
            (record start_db { user_devices = mine ∷ [] })
            (record start_db { user_devices = mine ∷ [] })
            "u-2"
            "vena-01"
            (λ ud. true))
alias_own_example =
    alias_own memory ana "vena-01" "Caixa" (record start_db { user_devices = mine ∷ [] }) renames
      "u-2" "vena-01" (λ ud. true) (inl other_user)

abbrev mac : String
mac = "D0:EF:76:32:35:F4"

printed :
    GenerateQr.main sha256 mac default_settings.pairing_secret
    ≡ some (ok ("vena-d0ef763235f4", "01234567", "Vena-35F4"))
unfolding GenerateQr.main GenerateQr.mac_to_device_id GenerateQr.mac_to_pairing_code
    GenerateQr.mac_to_ble_name GenerateQr.clean GenerateQr.last_four lower remove small upper
    drop_text take_text big join octets
printed = refl

qr_agrees_example :
    ("vena-d0ef763235f4" ≡ device_id_of mac)
    × ("01234567" ≡ generate_pairing_code sha256 default_settings mac)
qr_agrees_example = qr_agrees sha256 default_settings mac printed

valid : mac_re mac ≡ true
unfolding mac_re match_octets
valid = refl

seeded_claim_example :
    (after : Db memory) × (seed memory bcrypt sha256 default_settings "salt" mac start_db
      ≡ some (ok ("vena-d0ef763235f4", "01234567", after)))
    × (claim_device memory bcrypt ana "vena-d0ef763235f4" "01234567" 5 after
        ≡ ok (claim_once memory "u-1" "vena-d0ef763235f4" 5 none after))
seeded_claim_example =
    seeded_claim memory bcrypt sha256 default_settings "salt" mac start_db ana 5 printed valid refl
      refl
