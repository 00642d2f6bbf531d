-- ===== src/Server/Unprovisioned.antt =====
-- backend/app/telemetry/ingest.py and devices: pairing with a device that the ingestor registered.
use mqtt_projeto_vena.Prelude.{◌≡◌, ◌∙◌, sym, ap, String, none, ◌==◌, eq_iff, eq_refl}
use mqtt_projeto_vena.Http.{ok, err, uncaught, value_error, database_error, guard}
use mqtt_projeto_vena.Http.Scalar.{>>=-eq-ok, ok-injective}
use mqtt_projeto_vena.Config.{Settings}
use mqtt_projeto_vena.Json.{Json}
use mqtt_projeto_vena.Sql.{Sql}
use mqtt_projeto_vena.Sql.Single.{only_row_or_nothing}
use mqtt_projeto_vena.Db.{Db, User, Device, Time}
use mqtt_projeto_vena.Auth.Jwt.{Jose}
use mqtt_projeto_vena.Devices.Pairing.{Bcrypt}
use mqtt_projeto_vena.Devices.Service.{claim_device}
use mqtt_projeto_vena.Devices.Routes.{provision_paired}
use mqtt_projeto_vena.Devices.Ownership.{unhashed_device_fails}
use mqtt_projeto_vena.Telemetry.Ingest.Rows.{Bytes, Python, json}
use mqtt_projeto_vena.Telemetry.Ingest.Flush.{
  Driver, fits_id, unprovisioned, register, upsert_meta, handle_meta,
}
use mqtt_projeto_vena.Server.Frames.{devices_of}

module _ (sql : Sql) (bcrypt : Bcrypt) (jose : Jose) (settings : Settings) where
  -- the devices that a transaction for metadata leaves
  upsert_devices :
      (driver : Driver) (now : Time) (device_id : String) (data_ : Json) (db : Db sql)
      {after : Db sql}
      → upsert_meta sql driver now device_id data_ db ≡ ok after
      → after.devices
        ≡ sql.insert_or_nothing Device
            (λ d. d.id == device_id)
            (unprovisioned device_id now)
            db.devices
  unfolding upsert_meta register
  upsert_devices driver now device_id data_ db h =
      let (registered, e1, h1) = >>=-eq-ok (register sql now device_id db) _ h in
      let (u, e2, h2) =
        >>=-eq-ok (guard (driver.fits_jsonb data_) (uncaught database_error)) _ h1 in
      let (v, e3, h3) = >>=-eq-ok (guard (fits_id device_id) (uncaught database_error)) _ e1 in
      sym (ap (λ d. d.devices) (ok-injective h2)) ∙ sym (ap (λ d. d.devices) (ok-injective h3))

  upserted :
      (python : Python) (driver : Driver) (now : Time) (device_id : String) (payload : Bytes)
      (data_ : Json) (db : Db sql) {after : Db sql}
      → python.json_loads payload ≡ json data_
      → handle_meta sql python driver now device_id payload db ≡ ok after
      → upsert_meta sql driver now device_id data_ db ≡ ok after
  unfolding handle_meta
  upserted python driver now device_id payload data_ db loaded h = rw (loaded, handle_meta) at h

  -- A device that came to be known by its metadata alone cannot be paired: claiming and provisioning it
  -- right after its registration end in an uncaught ValueError, whatever the code, where bcrypt takes the
  -- placeholder text "unprovisioned" for no hash.
  pub unprovisioned_fails :
      (python : Python) (driver : Driver) (now : Time) (device_id : String) (payload : Bytes)
      (data_ : Json) (db : Db sql) {after : Db sql} (user : User) (pairing_code : String) (t : Time)
      → python.json_loads payload ≡ json data_
      → devices_of sql db device_id ≡ 0
      → handle_meta sql python driver now device_id payload db ≡ ok after
      → bcrypt.checkpw pairing_code "unprovisioned" ≡ none
      → (claim_device sql bcrypt user device_id pairing_code t after ≡ err (uncaught value_error))
        × (provision_paired sql jose bcrypt settings t device_id pairing_code after
            ≡ err (uncaught value_error))
  unprovisioned_fails python driver now device_id payload data_ db {after} user pairing_code t
        loaded new h bad =
      let (device, row, placeholder) =
        only_row_or_nothing sql (λ d. d.id == device_id)
          (λ d. d.pairing_code_hash == "unprovisioned") (unprovisioned device_id now) db.devices new
          (eq_refl device_id) (eq_refl "unprovisioned") in
      unhashed_device_fails sql bcrypt jose settings user device_id pairing_code t after device
        (ap (sql.select Device (λ d. d.id == device_id)) (
            upsert_devices driver now device_id data_ db
              (upserted python driver now device_id payload data_ db loaded h))
          ∙ row)
        (ap (bcrypt.checkpw pairing_code)
            ((eq_iff device.pairing_code_hash "unprovisioned").0 placeholder)
          ∙ bad)
