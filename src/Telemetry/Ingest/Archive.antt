-- ===== src/Telemetry/Ingest/Archive.antt =====
-- `TelemetryIngestor._flush`, against the map that telemetry_raw stands for.
use mathlib.Core.Path.{subst}
use mqtt_projeto_vena.Prelude.{
  ℕ, ◌≡◌, ◌∙◌, refl, sym, String, List, [], ◌∷◌, Option, none, some, Bool, true, false, ◌&&◌, arith,
  is_none, if◌then◌else◌,
}
use mqtt_projeto_vena.Http.{ok, uncaught, database_error, require}
use mqtt_projeto_vena.Http.Scalar.{>>=-eq-ok, ok-injective, require-eq-ok}
use mqtt_projeto_vena.Sql.{Sql, one_if}
use mqtt_projeto_vena.Sql.Counts.{count_where-congr}
use mqtt_projeto_vena.Db.{Db, TelemetryRaw, Time}
use mqtt_projeto_vena.Telemetry.Ingest.Rows.{Row}
use mqtt_projeto_vena.Telemetry.Ingest.Flush.{Driver, same_key, insert_rows, encode_all, flush}
use mqtt_projeto_vena.Telemetry.Ingest.Stored.{stored, one_row, counted_one_row, same_as}
use mqtt_projeto_vena.Telemetry.Ingest.Delivery.{flush_ok}
use mqtt_projeto_vena.Telemetry.Ingest.Encoded.{Writable, encode_all_ok}

-- The abstract store: the reading of a device at a time, if there is one.
abbrev pub Archive : Type 0
Archive = (device_id : String) → (ts : Time) → Option TelemetryRaw

-- A reading is recorded where the archive has none of its device and time; the first one stays.
unfoldable pub record_reading : TelemetryRaw → Archive → Archive
record_reading t archive device_id ts =
    if same_key device_id ts t && is_none (archive device_id ts)
    then some t
    else archive device_id ts

-- The rows of a batch, one after the other; a row that the driver cannot write records nothing.
unfoldable pub record_rows : Driver → List Row → Archive → Archive
record_rows driver [] archive = archive
record_rows driver (r ∷ rs) archive =
    record_rows driver rs
      (elim (driver.encode r) [ none ↦ archive | some t ↦ record_reading t archive ])

-- 1 for a reading that is there and passes
abbrev pub passing : (TelemetryRaw → Bool) → Option TelemetryRaw → ℕ
passing q none = 0
passing q (some t) = one_if (q t)

-- A table stands for an archive when, of the rows of a device at a time, a test passes as many as the
-- archive has there.
abbrev pub Represents : (sql : Sql) → sql.Table TelemetryRaw → Archive → Type 0
Represents sql table archive =
    (device_id : String) (ts : Time) (q : TelemetryRaw → Bool)
    → sql.count_where TelemetryRaw (λ t. same_key device_id ts t && q t) table
      ≡ passing q (archive device_id ts)

module _ (sql : Sql) where
  -- how often a key is stored
  stored_archive :
      (table : sql.Table TelemetryRaw) (archive : Archive) (device_id : String) (ts : Time)
      → Represents sql table archive
      → stored sql table device_id ts ≡ (if is_none (archive device_id ts) then 0 else 1)
  stored_archive table archive device_id ts h =
      count_where-congr sql _ (λ t. same_key device_id ts t && true) table
        (λ t. and_true (same_key device_id ts t))
      ∙ h device_id ts (λ _. true)
      ∙ passing_all (archive device_id ts)
    where
      and_true : (b : Bool) → b ≡ (b && true)
      and_true true = refl
      and_true false = refl

      passing_all : (o : Option TelemetryRaw) → passing (λ _. true) o ≡ (if is_none o then 0 else 1)
      passing_all none = refl
      passing_all (some t) = refl

  one_row-Represents :
      (t : TelemetryRaw) (table : sql.Table TelemetryRaw) (archive : Archive)
      → Represents sql table archive
      → Represents sql (one_row sql t table) (record_reading t archive)
  unfolding record_reading
  one_row-Represents t table archive h device_id ts q = ground (
    arith,
    counted_one_row sql t table (λ x. same_key device_id ts x && q x),
    h device_id ts q,
    stored_archive table archive device_id ts h,
    same_as sql t table device_id ts,
  )

  insert_rows-Represents :
      (driver : Driver) (rows : List Row) (ts : List TelemetryRaw) (table : sql.Table TelemetryRaw)
      (archive : Archive)
      → encode_all driver rows ≡ ok ts
      → Represents sql table archive
      → Represents sql (insert_rows sql ts table) (record_rows driver rows archive)
  unfolding encode_all insert_rows record_rows one_row
  insert_rows-Represents driver [] ts table archive e h =
      subst (λ l. Represents sql (insert_rows sql l table) archive) (ok-injective e) h
  insert_rows-Represents driver (r ∷ rs) ts table archive e h =
      let (t, e1, h1) = >>=-eq-ok (require (driver.encode r) (uncaught database_error)) _ e in
      let (us, e2, h2) = >>=-eq-ok (encode_all driver rs) _ h1 in
      let coded : driver.encode r ≡ some t = require-eq-ok _ _ e1 in
      let rest : Represents sql (insert_rows sql (t ∷ us) table)
          (record_rows driver rs (record_reading t archive)) =
        insert_rows-Represents driver rs us (one_row sql t table) (record_reading t archive) e2
          (one_row-Represents t table archive h) in
      rw coded (
        subst
          (λ l.
            Represents sql (insert_rows sql l table)
              (record_rows driver rs (record_reading t archive)))
          (ok-injective h2) rest)

  -- A flush of rows that the database accepts implements the archive: it succeeds, and where telemetry_raw
  -- stood for an archive before, it stands afterwards for that archive with the batch's rows recorded
  -- one after the other, each where its device and time had none.
  pub flush_refines :
      (driver : Driver) (now : Time) (rows : List Row) (db : Db sql) (archive : Archive)
      → Writable driver rows
      → Represents sql db.telemetry_raw archive
      → (after : Db sql) × (flush sql driver now rows db ≡ ok after)
        × Represents sql after.telemetry_raw (record_rows driver rows archive)
  flush_refines driver now rows db archive w h =
      let (ts, e) = encode_all_ok driver rows w in
      let (after, flushed, same) = flush_ok sql driver now rows db ts w e in
      (
        after,
        flushed,
        subst (λ t. Represents sql t (record_rows driver rows archive)) (sym same)
            (insert_rows-Represents driver rows ts db.telemetry_raw archive e h),
      )
