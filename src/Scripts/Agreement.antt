-- ===== src/Scripts/Agreement.antt =====
-- The QR code, the seeded row and the claim endpoint, for one MAC address.
use Prim.Native.Char.{Char, code}
use mqtt_projeto_vena.Prelude.{
  ℕ, ◌≡◌, refl, sym, ap, ◌∙◌, arith, String, List, [], ◌∷◌, none, some, Bool, true, not, ◌&&◌, ◌==◌,
  ◌<>◌, eq_iff, eq_refl, eqb, Bool-cases, inl, inr,
}
use mqtt_projeto_vena.Http.{ok, scalar_one_or_none}
use mqtt_projeto_vena.Http.Scalar.{ok-injective, scalar_one_or_none_absent}
use mqtt_projeto_vena.Config.{Settings}
use mqtt_projeto_vena.Sql.{Sql}
use mqtt_projeto_vena.Sql.Counts.{length-select}
use mqtt_projeto_vena.Sql.Single.{only_row}
use mqtt_projeto_vena.Db.{Db, User, Device, UserDevice, Time}
use mqtt_projeto_vena.Devices.Pairing.{
  remove, letters, small, lower, clean_mac, Bcrypt, generate_pairing_code, hash_pairing_code,
  verify_pairing_code,
}
use mqtt_projeto_vena.Devices.Service.{owns, get_device_or_404, claim_once, claim_device}
use mqtt_projeto_vena.Scripts.GenerateQr
use mqtt_projeto_vena.Scripts.SeedDevice.{mac_re, device_id_of, new_device, add_device, seed}

-- no letter of the table has the code
abbrev is_separator : ℕ → List (Char × Char) → Bool
is_separator ch [] = true
is_separator ch ((big, little) ∷ l) =
    not (eqb (code big) ch) && (not (eqb (code little) ch) && is_separator ch l)

small-separator :
    (ch : ℕ) (l : List (Char × Char)) (c : Char)
    → is_separator ch l ≡ true
    → eqb (code (small l c)) ch ≡ eqb (code c) ch
unfolding small
small-separator ch [] c h = refl
small-separator ch ((big, little) ∷ l) c h = ground (arith, small-separator ch l c)

remove-lower :
    (ch : ℕ) (s : String)
    → is_separator ch letters ≡ true
    → remove ch (lower s) ≡ lower (remove ch s)
unfolding remove lower
remove-lower ch String.[] h = refl
remove-lower ch (String.◌∷◌ c s) h = elim (Bool-cases (eqb (code c) ch)) [
  | inl e ↦ rw (small-separator ch letters c h, e) (remove-lower ch s h)
  | inr e ↦
      rw (small-separator ch letters c h, e)
        (ap (String.◌∷◌ (small letters c)) (remove-lower ch s h))
]

clean-agrees : (mac : String) → GenerateQr.clean mac ≡ remove b'-' (remove b':' (lower mac))
unfolding GenerateQr.clean
clean-agrees mac =
    sym (ap (remove b'-') (remove-lower b':' mac refl) ∙ remove-lower b'-' (remove b':' mac) refl)

some-injective {ℓ} : {A : Type ℓ} {a b : A} → some a ≡ some b → a ≡ b
some-injective h = cc

-- The device id and the pairing code of a QR code are those that the seeding and the backend compute
-- for the MAC address, in whatever case and with whatever separators it was typed.
pub qr_agrees :
    (sha256 : String → String) (settings : Settings) (mac : String)
    {device_id pairing_code ble_name : String}
    → GenerateQr.main sha256 mac settings.pairing_secret
      ≡ some (ok (device_id, pairing_code, ble_name))
    → (device_id ≡ device_id_of mac) × (pairing_code ≡ generate_pairing_code sha256 settings mac)
unfolding GenerateQr.main GenerateQr.mac_to_device_id GenerateQr.mac_to_pairing_code device_id_of
    generate_pairing_code clean_mac
qr_agrees sha256 settings mac {device_id = device_id} {pairing_code = pairing_code}
      {ble_name = ble_name} h =
    elim (Bool-cases (settings.pairing_secret == "")) [
      | inl e ↦ absurd (cc (rw e at h))
      | inr e ↦ elim (Bool-cases (eqb (GenerateQr.text_length (GenerateQr.clean mac)) 12)) [
        | inl f ↦
            let same : (
              "vena-" <> GenerateQr.clean mac,
              GenerateQr.mac_to_pairing_code sha256 mac settings.pairing_secret,
              GenerateQr.mac_to_ble_name mac,
            )
                ≡ (device_id, pairing_code, ble_name) =
              ok-injective (some-injective (rw (e, f) at h)) in
            (
              sym (ap (λ t. t.0) same) ∙ ap (λ t. "vena-" <> t) (clean-agrees mac),
              sym (ap (λ t. t.1) same),
            )
        | inr f ↦ absurd (cc (rw (e, f) at h))
      ]
    ]

module _ (sql : Sql) (bcrypt : Bcrypt) (sha256 : String → String) (settings : Settings)
    (salt mac : String) (db : Db sql) where
  -- the database after the seeding of a device that was not there
  seeded : Db sql
  seeded = record db {
    devices = sql.insert Device (new_device sql bcrypt sha256 settings salt mac) db.devices;
  }

  seed-new :
      mac_re mac ≡ true
      → sql.count_where Device (λ d. d.id == device_id_of mac) db.devices ≡ 0
      → seed sql bcrypt sha256 settings salt mac db
        ≡ some (ok (device_id_of mac, generate_pairing_code sha256 settings mac, seeded))
  unfolding seed add_device seeded
  seed-new valid new = rw (
    valid,
    scalar_one_or_none_absent (sql.select Device (λ d. d.id == device_id_of mac) db.devices)
        (length-select sql (λ d. d.id == device_id_of mac) db.devices ∙ new),
  )

  seeded_device :
      sql.count_where Device (λ d. d.id == device_id_of mac) db.devices ≡ 0
      → (d : Device) × (get_device_or_404 sql (device_id_of mac) seeded ≡ ok d)
        × (d.pairing_code_hash
            ≡ hash_pairing_code bcrypt salt (generate_pairing_code sha256 settings mac))
  unfolding get_device_or_404 seeded new_device scalar_one_or_none
  seeded_device new =
      let hash : String =
        hash_pairing_code bcrypt salt (generate_pairing_code sha256 settings mac) in
      let (d, e, same) =
        only_row sql (λ d. d.id == device_id_of mac) (λ d. d.pairing_code_hash == hash)
          (new_device sql bcrypt sha256 settings salt mac) db.devices new (eq_refl _) (eq_refl _) in
      (d, rw e, (eq_iff d.pairing_code_hash hash).0 same)

  verify-hash :
      (pairing_code : String)
      → verify_pairing_code bcrypt pairing_code (hash_pairing_code bcrypt salt pairing_code)
        ≡ ok true
  unfolding verify_pairing_code hash_pairing_code
  verify-hash pairing_code = rw (bcrypt.checkpw-hashpw pairing_code salt, verify_pairing_code)

  claim-seeded :
      (user : User) (claimed_at : Time)
      → sql.count_where Device (λ d. d.id == device_id_of mac) db.devices ≡ 0
      → sql.count_where UserDevice (owns user.id (device_id_of mac)) db.user_devices ≡ 0
      → claim_device sql bcrypt user
          (device_id_of mac)
          (generate_pairing_code sha256 settings mac)
          claimed_at
          seeded
        ≡ ok (claim_once sql user.id (device_id_of mac) claimed_at none seeded)
  unfolding claim_device seeded
  claim-seeded user claimed_at new free =
      let (d, e, same) = seeded_device new in
      rw (
        e,
        ap (verify_pairing_code bcrypt (generate_pairing_code sha256 settings mac)) same
            ∙ verify-hash (generate_pairing_code sha256 settings mac),
        scalar_one_or_none_absent
            (sql.select UserDevice (owns user.id (device_id_of mac)) db.user_devices)
            (length-select sql (owns user.id (device_id_of mac)) db.user_devices ∙ free),
      )

-- Where the device is not registered yet, seeding the MAC address of a QR code registers it under the
-- QR code's device id, and a user who had no claim on it then claims it with the QR code's pairing code.
pub seeded_claim :
    (sql : Sql) (bcrypt : Bcrypt) (sha256 : String → String) (settings : Settings)
    (salt mac : String) (db : Db sql) (user : User) (claimed_at : Time)
    {device_id pairing_code ble_name : String}
    → GenerateQr.main sha256 mac settings.pairing_secret
      ≡ some (ok (device_id, pairing_code, ble_name))
    → mac_re mac ≡ true
    → sql.count_where Device (λ d. d.id == device_id) db.devices ≡ 0
    → sql.count_where UserDevice (owns user.id device_id) db.user_devices ≡ 0
    → (after : Db sql) × (seed sql bcrypt sha256 settings salt mac db
        ≡ some (ok (device_id, pairing_code, after)))
      × (claim_device sql bcrypt user device_id pairing_code claimed_at after
          ≡ ok (claim_once sql user.id device_id claimed_at none after))
seeded_claim sql bcrypt sha256 settings salt mac db user claimed_at h valid new free =
    let (id, code) = qr_agrees sha256 settings mac h in
    (
      seeded sql bcrypt sha256 settings salt mac db,
      rw (id, code) (seed-new sql bcrypt sha256 settings salt mac db valid (rw id at new)),
      rw (id, code)
          (claim-seeded sql bcrypt sha256 settings salt mac db user claimed_at (rw id at new)
            (rw id at free)),
    )
