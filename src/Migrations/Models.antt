-- ===== src/Migrations/Models.antt =====
-- backend/app/db/models.py: the columns as the classes declare them, with what SQLAlchemy makes of a
-- declaration (a primary key, or a type that is no `| None`, is NOT NULL).
use mqtt_projeto_vena.Prelude.{String, List, [], ◌∷◌, Option, none, some, Bool, true, false}
use mqtt_projeto_vena.Migrations.{SqlType, string, text, uuid, datetime, float, big_integer, jsonb}

-- A column with all that is said of it alone; `references` is the table and column of a foreign key.
pub record ColumnSpec : Type 0 where
  pub name : String
  pub type_ : SqlType
  pub nullable : Bool
  pub now : Bool
  pub primary_key : Bool
  pub unique : Bool
  pub references : Option (String × String)

abbrev pub spec :
    String
    → SqlType
    → (nullable now primary_key unique : Bool) → Option (String × String)
    → ColumnSpec
spec name type_ nullable now primary_key unique references = record {
  name = name;
  type_ = type_;
  nullable = nullable;
  now = now;
  primary_key = primary_key;
  unique = unique;
  references = references;
}

unfoldable pub users_columns : List ColumnSpec
users_columns =
    spec "id" uuid false false true false none
    ∷ spec "google_sub" text false false false true none
    ∷ spec "email" text false false false false none
    ∷ spec "created_at" datetime false true false false none
    ∷ []

unfoldable pub devices_columns : List ColumnSpec
devices_columns =
    spec "id" (string 32) false false true false none
    ∷ spec "pairing_code_hash" text false false false false none
    ∷ spec "fw_version" text true false false false none
    ∷ spec "capabilities" jsonb true false false false none
    ∷ spec "first_seen_at" datetime true false false false none
    ∷ spec "last_seen_at" datetime true false false false none
    ∷ spec "status" (string 20) false false false false none
    ∷ []

unfoldable pub user_devices_columns : List ColumnSpec
user_devices_columns =
    spec "user_id" uuid false false true false (some ("users", "id"))
    ∷ spec "device_id" (string 32) false false true false (some ("devices", "id"))
    ∷ spec "alias" text true false false false none
    ∷ spec "claimed_at" datetime false true false false none
    ∷ []

unfoldable pub refresh_tokens_columns : List ColumnSpec
refresh_tokens_columns =
    spec "id" uuid false false true false none
    ∷ spec "user_id" uuid false false false false (some ("users", "id"))
    ∷ spec "token_hash" text false false false false none
    ∷ spec "expires_at" datetime false false false false none
    ∷ spec "revoked_at" datetime true false false false none
    ∷ spec "created_at" datetime false true false false none
    ∷ []

unfoldable pub telemetry_raw_columns : List ColumnSpec
telemetry_raw_columns =
    spec "device_id" (string 32) false false true false (some ("devices", "id"))
    ∷ spec "ts" datetime false false true false none
    ∷ spec "ambient_t" float true false false false none
    ∷ spec "ambient_h" float true false false false none
    ∷ spec "diss_t" float true false false false none
    ∷ spec "diss_h" float true false false false none
    ∷ spec "setpoint" float true false false false none
    ∷ spec "pid_out" float true false false false none
    ∷ spec "uptime_ms" big_integer true false false false none
    ∷ spec "seq" big_integer true false false false none
    ∷ []

unfoldable pub device_meta_columns : List ColumnSpec
device_meta_columns =
    spec "device_id" (string 32) false false true false (some ("devices", "id"))
    ∷ spec "payload" jsonb false false false false none
    ∷ spec "updated_at" datetime false true false false none
    ∷ []

-- Base.metadata
unfoldable pub metadata : List (String × List ColumnSpec)
metadata =
    ("users", users_columns)
    ∷ ("devices", devices_columns)
    ∷ ("user_devices", user_devices_columns)
    ∷ ("refresh_tokens", refresh_tokens_columns)
    ∷ ("telemetry_raw", telemetry_raw_columns)
    ∷ ("device_meta", device_meta_columns)
    ∷ []
