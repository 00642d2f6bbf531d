-- ===== src/Scripts/GenerateQr.antt =====
-- scripts/generate_qr.py: what it prints and puts into the QR code. The command line, the printing and the
-- image are left out.
use mqtt_projeto_vena.Prelude.{
  ℕ, suc, ◌-◌, String, Option, none, some, ◌==◌, ◌<>◌, eqb, join, if◌then◌else◌,
}
use mqtt_projeto_vena.Http.{Result, ok, err, uncaught, value_error, ◌>>=◌}
use mqtt_projeto_vena.Devices.Pairing.{remove, lower, upper, take_text, drop_text, octets}

-- `len(text)`
abbrev pub text_length : String → ℕ
text_length String.[] = 0
text_length (String.◌∷◌ c s) = suc (text_length s)

-- mac.replace(":", "").replace("-", "").lower()
unfoldable pub clean : (mac : String) → String
clean mac = lower (remove b'-' (remove b':' mac))

unfoldable pub mac_to_device_id : (mac : String) → Result String
mac_to_device_id mac =
    if eqb (text_length (clean mac)) 12
    then ok ("vena-" <> clean mac)
    else err (uncaught value_error)

unfoldable pub mac_to_pairing_code : (sha256 : String → String) (mac secret : String) → String
mac_to_pairing_code sha256 mac secret =
    upper
      (take_text 8 (sha256 (join ":" (octets 6 (remove b'-' (remove b':' (lower mac)))) <> secret)))

-- text[-4:]
unfoldable pub last_four : String → String
last_four s = drop_text (text_length s - 4) s

unfoldable pub mac_to_ble_name : (mac : String) → String
mac_to_ble_name mac = "Vena-" <> last_four (upper (remove b'-' (remove b':' mac)))

-- `main`: the device id and the pairing code of the QR payload, and the BLE name. `none` is the
-- exit without a secret.
unfoldable pub main :
    (sha256 : String → String) (mac secret : String) → Option (Result (String × String × String))
main sha256 mac secret =
    if secret == ""
    then none
    else some (do
      device_id ← mac_to_device_id mac
      ok (device_id, mac_to_pairing_code sha256 mac secret, mac_to_ble_name mac))
