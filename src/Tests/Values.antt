-- ===== src/Tests/Values.antt =====
-- Functions that meet the laws of the interfaces, and sample rows.
use mqtt_projeto_vena.Prelude.{
  ◌+◌, zero, suc, sym, ap, ◌*◌, ◌/◌, ◌≡◌, String, [], ◌∷◌, Option, none, some, Bool, true, false,
  ◌&&◌, ◌==◌, ◌<>◌, lookup, leb, eq_refl, if◌then◌else◌,
}
use mqtt_projeto_vena.Sql.Memory.{memory}
use mqtt_projeto_vena.Json.{pos, negsuc, int, arr, obj, nil, end, field}
use mqtt_projeto_vena.Http.{value_error}
use mqtt_projeto_vena.Db.{Db, User, Device, RefreshToken, TelemetryRaw, Time, second, unix_epoch}
use mqtt_projeto_vena.Auth.Jwt.{Jose, Payload, Claim, time, numeric_dates}
use mqtt_projeto_vena.Devices.Pairing.{Bcrypt}
use mqtt_projeto_vena.Telemetry.Ingest.Rows.{
  Python, Row, Bytes, Loaded, json, json_decode_error, not_unicode, value, raises,
}
use mqtt_projeto_vena.Telemetry.Ingest.Flush.{Driver}

-- A token that carries its claims, its key and its algorithm in the clear.
abbrev pub Plain : Type 0
Plain = Payload × String × String

abbrev pub live : Time → Option Claim → Bool
live now (some (time e)) = leb (now / second) (e / second)
live now _ = true

abbrev pub plain_decode : Time → Plain → String → String → Option Payload
plain_decode now (claims, key, algo) secret algorithm =
    if key == secret && (algo == algorithm && live now (lookup "exp" claims))
    then some (numeric_dates claims)
    else none

pub plain_decode-encode :
    (now e : Time) (claims : Payload) (secret algorithm : String)
    → lookup "exp" claims ≡ some (time e)
    → plain_decode now (claims, secret, algorithm) secret algorithm
      ≡ (if leb (now / second) (e / second) then some (numeric_dates claims) else none)
plain_decode-encode now e claims secret algorithm h = rw (eq_refl secret, eq_refl algorithm, h)

abbrev pub jose : Jose
jose = record {
  Token = Plain;
  encode = λ claims secret algorithm. (claims, secret, algorithm);
  decode = plain_decode;
  decode-encode = plain_decode-encode;
}

abbrev pub marked : String → String
marked password = "$2b$" <> password

abbrev pub plain_checkpw : String → String → Option Bool
plain_checkpw password hashed =
    if hashed == marked password
    then some true
    else if hashed == "unprovisioned"
    then none
    else some false

pub plain_checkpw-hashpw :
    (password salt : String) → plain_checkpw password (marked password) ≡ some true
plain_checkpw-hashpw password salt = rw (eq_refl (marked password))

abbrev pub bcrypt : Bcrypt
bcrypt = record {
  hashpw = λ password salt. marked password;
  checkpw = plain_checkpw;
  checkpw-hashpw = plain_checkpw-hashpw;
}

abbrev pub sha256 : String → String
sha256 s = "0123456789" <> s

abbrev pub uuid : String → Option String
uuid s = if s == "vena-backend" then none else if s == "vena-01" then none else some s

-- the payloads [], [0], [1] and [2]: no JSON, no text, an array and a reading
abbrev pub loads : Bytes → Loaded
loads [] = json_decode_error
loads (zero ∷ bs) = not_unicode
loads (suc zero ∷ bs) = json (arr nil)
loads (suc (suc n) ∷ bs) =
    json (obj (field "ts" (int (pos 1700000000000)) (field "setpoint" (int (pos 45)) end)))

abbrev pub python : Python
python = record {
  json_loads = loads;
  int_of_text = λ s. raises value_error;
  int_of_float = λ f. value (pos f);
  from_millis =
      λ n. elim n [ pos m ↦ value (unix_epoch + m * 1000) | negsuc m ↦ raises value_error ];
}

abbrev pub blank_row : String → Time → TelemetryRaw
blank_row device_id ts = record {
  device_id = device_id;
  ts = ts;
  ambient_t = none;
  ambient_h = none;
  diss_t = none;
  diss_h = none;
  setpoint = none;
  pid_out = none;
  uptime_ms = none;
  seq = none;
}

some-injective {ℓ} : {A : Type ℓ} {a b : A} → some a ≡ some b → a ≡ b
some-injective h = cc

pub same_id :
    (r : Row) (t : TelemetryRaw)
    → some (blank_row r.device_id r.ts) ≡ some t
    → t.device_id ≡ r.device_id
same_id r t e = sym (ap TelemetryRaw.device_id (some-injective e))

pub same_ts :
    (r : Row) (t : TelemetryRaw) → some (blank_row r.device_id r.ts) ≡ some t → t.ts ≡ r.ts
same_ts r t e = sym (ap TelemetryRaw.ts (some-injective e))

-- a driver that keeps the key columns alone
abbrev pub driver : Driver
driver = record {
  encode = λ r. some (blank_row r.device_id r.ts);
  fits_jsonb = λ j. true;
  encode-device_id = same_id;
  encode-ts = same_ts;
}

abbrev pub ana : User
ana = record { id = "u-1"; google_sub = "g-1"; email = "ana@vena.br"; created_at = 0 }

-- a device that was paired with the code 12345678, and one that the ingestor registered
abbrev pub paired : Device
paired = record {
  id = "vena-01";
  pairing_code_hash = "$2b$12345678";
  fw_version = none;
  capabilities = none;
  first_seen_at = none;
  last_seen_at = none;
  status = "never_connected";
}

abbrev pub registered : Device
registered = record paired { id = "vena-02"; pairing_code_hash = "unprovisioned" }

abbrev pub old_token : RefreshToken
old_token = record {
  id = "t-0";
  user_id = "u-1";
  token_hash = "0123456789old";
  expires_at = 9000;
  revoked_at = none;
  created_at = 0;
}

abbrev pub start_db : Db memory
start_db = record {
  users = ana ∷ [];
  devices = paired ∷ registered ∷ [];
  user_devices = [];
  refresh_tokens = old_token ∷ [];
  telemetry_raw = blank_row "vena-01" 10 ∷ blank_row "vena-01" 20 ∷ [];
  device_meta = [];
}
