-- ===== src/Scripts/SeedDevice.antt =====
-- backend/scripts/seed_device.py: the device row that it adds, and what it prints.
use Prim.Native.Char.{code}
use mqtt_projeto_vena.Prelude.{
  ℕ, zero, suc, String, Option, none, some, Bool, false, ◌&&◌, ◌||◌, ◌==◌, ◌<>◌, leb, eqb,
  if◌then◌else◌,
}
use mqtt_projeto_vena.Http.{Result, ok, ◌>>=◌, scalar_one_or_none}
use mqtt_projeto_vena.Config.{Settings}
use mqtt_projeto_vena.Sql.{Sql}
use mqtt_projeto_vena.Db.{Db, Device}
use mqtt_projeto_vena.Devices.Pairing.{
  remove, lower, generate_pairing_code, Bcrypt, hash_pairing_code,
}

-- [0-9a-fA-F]
abbrev pub is_hex : ℕ → Bool
is_hex c = leb b'0' c && leb c b'9' || leb b'a' c && leb c b'f' || leb b'A' c && leb c b'F'

-- ([0-9a-fA-F]{2}[:\-]){n}[0-9a-fA-F]{2}; `$` lets one newline follow
unfoldable pub match_octets : (n : ℕ) → String → Bool
match_octets zero (String.◌∷◌ a (String.◌∷◌ b String.[])) = is_hex (code a) && is_hex (code b)
match_octets zero (String.◌∷◌ a (String.◌∷◌ b (String.◌∷◌ c String.[]))) =
    is_hex (code a) && is_hex (code b) && eqb (code c) 10
match_octets (suc n) (String.◌∷◌ a (String.◌∷◌ b (String.◌∷◌ c s))) =
    is_hex (code a)
    && is_hex (code b)
    && (eqb (code c) b':' || eqb (code c) b'-')
    && match_octets n s
match_octets _ _ = false

-- _MAC_RE.match
unfoldable pub mac_re : (mac : String) → Bool
mac_re mac = match_octets 5 mac

unfoldable pub device_id_of : (mac : String) → String
device_id_of mac = "vena-" <> remove b'-' (remove b':' (lower mac))

module _ (sql : Sql) (bcrypt : Bcrypt) (sha256 : String → String) (settings : Settings) where
  unfoldable pub new_device : (salt mac : String) → Device
  new_device salt mac = record {
    id = device_id_of mac;
    pairing_code_hash = hash_pairing_code bcrypt salt (generate_pairing_code sha256 settings mac);
    fw_version = none;
    capabilities = none;
    first_seen_at = none;
    last_seen_at = none;
    status = "never_connected";
  }

  unfoldable pub add_device : (salt mac : String) → (existing : Option Device) → Db sql → Db sql
  add_device salt mac (some existing) db = db
  add_device salt mac none db = record db {
    devices = sql.insert Device (new_device salt mac) db.devices;
  }

  -- `none` is the exit on an address that is none. The printed id and code, and the database.
  unfoldable pub seed : (salt mac : String) → Db sql → Option (Result (String × String × Db sql))
  seed salt mac db =
      if mac_re mac
      then some (do
        existing ← scalar_one_or_none (sql.select Device (λ d. d.id == device_id_of mac) db.devices)
        ok (
          device_id_of mac,
          generate_pairing_code sha256 settings mac,
          add_device salt mac existing db,
        ))
      else none
