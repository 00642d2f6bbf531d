-- ===== src/Telemetry/Ingest/Delivery.antt =====
-- What a flush does with rows that the database accepts.
use mathlib.Core.Path.{subst}
use mqtt_projeto_vena.Prelude.{
  ◌≤◌, ◌<◌, ◌≡◌, ◌∙◌, refl, sym, ap, String, List, [], ◌∷◌, map, Bool, ◌==◌, contains, keep, not,
  inl, inr, All,
}
use mqtt_projeto_vena.Http.{ok}
use mqtt_projeto_vena.Http.Scalar.{ok-injective}
use mqtt_projeto_vena.Sql.{Sql}
use mqtt_projeto_vena.Db.{Db, Device, TelemetryRaw, Time}
use mqtt_projeto_vena.Telemetry.Ingest.Rows.{Row}
use mqtt_projeto_vena.Telemetry.Ingest.Flush.{
  Driver, distinct, unprovisioned, register, register_all, touch_all, insert_rows, encode_all,
  flush_rows, flush,
}
use mqtt_projeto_vena.Telemetry.Ingest.Stored.{
  stored, Holds, IsKeyed, AllStored, insert_rows_grows, insert_rows-IsKeyed, insert_rows-AllStored,
  insert_rows_again,
}
use mqtt_projeto_vena.Telemetry.Ingest.Encoded.{
  Writable, encode_all_ok, AllFit, distinct-AllFit, keep-AllFit, ids-AllFit, Holds-stored,
}

module _ (sql : Sql) where
  registered : Time → String → Db sql → Db sql
  registered now x db = record db {
    devices = sql.insert_or_nothing Device (λ d. d.id == x) (unprovisioned x now) db.devices;
  }

  register_all_ok :
      (now : Time) (ids : List String) (db : Db sql)
      → AllFit ids
      → (db' : Db sql) × (register_all sql now ids db ≡ ok db')
        × (db'.telemetry_raw ≡ db.telemetry_raw)
  unfolding register_all register registered
  register_all_ok now [] db h = (db, refl, refl)
  register_all_ok now (x ∷ ids) db h =
      let (db', e, same) = register_all_ok now ids (registered now x db) h.1 in
      (db', rw h.0 e, same)

  touch_all_telemetry :
      (now : Time) (ids : List String) (db : Db sql)
      → (touch_all sql now ids db).telemetry_raw ≡ db.telemetry_raw
  unfolding touch_all
  touch_all_telemetry now [] db = refl
  touch_all_telemetry now (x ∷ ids) db = touch_all_telemetry now ids _

  -- The outcome of a flush for the readings.
  pub record Flushed (driver : Driver) (rows : List Row) (before : Db sql) (after : Db sql)
      : Type 0 where
    pub written :
        (device_id : String) (at : Time)
        → Holds rows device_id at
        → 0 < stored sql after.telemetry_raw device_id at
    pub kept :
        (device_id : String) (at : Time)
        → stored sql before.telemetry_raw device_id at ≤ stored sql after.telemetry_raw device_id at
    pub keyed : IsKeyed sql before.telemetry_raw → IsKeyed sql after.telemetry_raw

  -- the table after a flush
  flush_rows_ok :
      (driver : Driver) (now : Time) (rows : List Row) (db : Db sql) (ts : List TelemetryRaw)
      → Writable driver rows
      → encode_all driver rows ≡ ok ts
      → (db' : Db sql) × (flush_rows sql driver now rows db ≡ ok db')
        × (db'.telemetry_raw ≡ insert_rows sql ts db.telemetry_raw)
  unfolding flush_rows
  flush_rows_ok driver now rows db ts w e =
      let (db', registered, same) =
        register_all_ok now new_ids db
          (keep-AllFit _ _ (distinct-AllFit _ (ids-AllFit driver rows w))) in
      (
        finished db',
        rw (registered, e),
        ap (insert_rows sql ts) (touch_all_telemetry now existing db' ∙ same),
      )
    where
      existing : List String
      existing =
          map (λ d. d.id)
            (sql.select Device (λ d. contains d.id (distinct (map (λ r. r.device_id) rows)))
              db.devices)

      new_ids : List String
      new_ids = keep (λ did. not (contains did existing)) (distinct (map (λ r. r.device_id) rows))

      finished : Db sql → Db sql
      finished db' =
          let db'' = touch_all sql now existing db' in
          record db'' { telemetry_raw = insert_rows sql ts db''.telemetry_raw }

  pub flush_ok :
      (driver : Driver) (now : Time) (rows : List Row) (db : Db sql) (ts : List TelemetryRaw)
      → Writable driver rows
      → encode_all driver rows ≡ ok ts
      → (db' : Db sql) × (flush sql driver now rows db ≡ ok db')
        × (db'.telemetry_raw ≡ insert_rows sql ts db.telemetry_raw)
  unfolding flush encode_all insert_rows
  flush_ok driver now [] db ts w e =
      (db, refl, ap (λ l. insert_rows sql l db.telemetry_raw) (ok-injective e))
  flush_ok driver now (r ∷ rs) db ts w e = flush_rows_ok driver now (r ∷ rs) db ts w e

  pub flush-Flushed :
      (driver : Driver) (now : Time) (rows : List Row) (db : Db sql)
      → Writable driver rows
      → (db' : Db sql) × (flush sql driver now rows db ≡ ok db') × Flushed driver rows db db'
  flush-Flushed driver now rows db w =
      let (ts, e) = encode_all_ok driver rows w in
      let (db', flushed, same) = flush_ok driver now rows db ts w e in
      (
        db',
        flushed,
        record {
          written = λ device_id at holds.
              Holds-stored sql driver rows ts db'.telemetry_raw device_id at e
                (subst (AllStored sql ts) (sym same)
                  (insert_rows-AllStored sql ts db.telemetry_raw))
                holds;
          kept = λ device_id at.
              subst (λ t. stored sql db.telemetry_raw device_id at ≤ stored sql t device_id at)
                (sym same) (insert_rows_grows sql ts db.telemetry_raw device_id at);
          keyed =
              λ k. subst (IsKeyed sql) (sym same) (insert_rows-IsKeyed sql ts db.telemetry_raw k);
        },
      )

  -- Delivering the same rows again, at any later time, succeeds and leaves telemetry_raw with the rows
  -- that it had: every test counts as many of them.
  pub flush_again :
      (driver : Driver) (now later : Time) (rows : List Row) (db : Db sql)
      → Writable driver rows
      → (once : Db sql) × (twice : Db sql) × (flush sql driver now rows db ≡ ok once)
        × (flush sql driver later rows once ≡ ok twice)
        × ((q : TelemetryRaw → Bool)
            → sql.count_where TelemetryRaw q twice.telemetry_raw
              ≡ sql.count_where TelemetryRaw q once.telemetry_raw)
  flush_again driver now later rows db w =
      let (ts, e) = encode_all_ok driver rows w in
      let (once, first, same) = flush_ok driver now rows db ts w e in
      let (twice, second, again) = flush_ok driver later rows once ts w e in
      (
        once,
        twice,
        first,
        second,
        λ q.
            ap (sql.count_where TelemetryRaw q) again
            ∙ insert_rows_again sql ts once.telemetry_raw q (
                subst (AllStored sql ts) (sym same)
                  (insert_rows-AllStored sql ts db.telemetry_raw)),
      )

  stored-All :
      (driver : Driver) (table : sql.Table TelemetryRaw) (rows : List Row)
      → ((device_id : String) (at : Time)
          → Holds rows device_id at
          → 0 < stored sql table device_id at)
      → All (λ r. 0 < stored sql table r.device_id r.ts) rows
  stored-All driver table [] h = tt
  stored-All driver table (r ∷ rows) h = (
    h r.device_id r.ts (inl (refl, refl)),
    stored-All driver table rows (λ device_id at there. h device_id at (inr there)),
  )

  -- A flush of rows that the database accepts succeeds: afterwards the key of each row is stored, and
  -- every key is stored at least as often as before.
  pub flush_delivers :
      (driver : Driver) (now : Time) (rows : List Row) (db : Db sql)
      → Writable driver rows
      → (after : Db sql) × (flush sql driver now rows db ≡ ok after)
        × All (λ r. 0 < stored sql after.telemetry_raw r.device_id r.ts) rows
        × ((device_id : String) (at : Time)
            → stored sql db.telemetry_raw device_id at
              ≤ stored sql after.telemetry_raw device_id at)
  flush_delivers driver now rows db w =
      let (after, flushed, f) = flush-Flushed driver now rows db w in
      (after, flushed, stored-All driver after.telemetry_raw rows f.written, f.kept)

  -- Where no device has two readings of one time, a flush of rows that the database accepts leaves it so.
  pub flush-IsKeyed :
      (driver : Driver) (now : Time) (rows : List Row) (db : Db sql) {after : Db sql}
      → Writable driver rows
      → IsKeyed sql db.telemetry_raw
      → flush sql driver now rows db ≡ ok after
      → IsKeyed sql after.telemetry_raw
  flush-IsKeyed driver now rows db w keyed h =
      let (reached, flushed, f) = flush-Flushed driver now rows db w in
      subst (λ d. IsKeyed sql d.telemetry_raw) (ok-injective (sym flushed ∙ h)) (f.keyed keyed)
