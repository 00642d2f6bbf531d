-- ===== src/Server/Ingested.antt =====
-- backend/app/telemetry/ingest.py: what a transaction of the ingestor leaves of each table, and which devices
-- are there afterwards.
use mathlib.Core.Path.{subst}
use mqtt_projeto_vena.Prelude.{
  true, false, not, keep, map, All, contains, eq_refl, ◌<◌, ◌≡◌, refl, sym, String, List, [], ◌∷◌,
  ◌==◌, arith, eq_iff, ◌&&◌, Bool-cases, inl, inr, if◌then◌else◌,
}
use mqtt_projeto_vena.Json.{Json}
use mqtt_projeto_vena.Http.{err, unicode_decode_error, uncaught, database_error, ok, require, guard}
use mqtt_projeto_vena.Http.Scalar.{>>=-eq-ok, ok-injective, require-eq-ok}
use mqtt_projeto_vena.Sql.{Sql}
use mqtt_projeto_vena.Sql.Counts.{count_where_mono, count_where-congr}
use mqtt_projeto_vena.Db.{Db, Device, DeviceMeta, TelemetryRaw, Time}
use mqtt_projeto_vena.Telemetry.Ingest.Rows.{
  Row, Bytes, Python, Loaded, json, json_decode_error, not_unicode,
}
use mqtt_projeto_vena.Telemetry.Ingest.Flush.{
  meta_row, upsert_meta, handle_meta, Driver, register, register_all, distinct, touch_all,
  insert_rows, encode_all, flush_rows, flush,
}
use mqtt_projeto_vena.Server.Frames.{
  devices_of, Refers, DevicesOnly, unchanged, then_only, register-DevicesOnly,
  register_all-DevicesOnly, touch_all-DevicesOnly, register_there, register_all_there,
}
use mqtt_projeto_vena.Server.Batch.{contains-distinct, contains-keep, contains-ids}

module _ (sql : Sql) where
  abbrev existing_of : List String → Db sql → List String
  existing_of ids db = map (λ d. d.id) (sql.select Device (λ d. contains d.id ids) db.devices)

  -- A flush registers and touches devices, and then adds rows.
  pub record FlushWrote (before after : Db sql) : Type 0 where
    pub seen_db : Db sql
    pub encoded : List TelemetryRaw
    pub only : DevicesOnly sql before seen_db
    pub wrote :
        after ≡ record seen_db { telemetry_raw = insert_rows sql encoded seen_db.telemetry_raw }
    pub known : All (λ t. 0 < devices_of sql seen_db t.device_id) encoded

  -- every encoded row is that of a device of the batch
  encoded_known :
      (driver : Driver) (db : Db sql) (rows : List Row) (ts : List TelemetryRaw)
      → encode_all driver rows ≡ ok ts
      → ((x : String) → contains x (map (λ r. r.device_id) rows) ≡ true → 0 < devices_of sql db x)
      → All (λ t. 0 < devices_of sql db t.device_id) ts
  unfolding encode_all
  encoded_known driver db [] ts h there =
      subst (All (λ t. 0 < devices_of sql db t.device_id)) (ok-injective h) tt
  encoded_known driver db (r ∷ rs) ts h there =
      let (t, e1, h1) = >>=-eq-ok (require (driver.encode r) (uncaught database_error)) _ h in
      let (rest, e2, h2) = >>=-eq-ok (encode_all driver rs) _ h1 in
      let device : t.device_id ≡ r.device_id =
        driver.encode-device_id r t (require-eq-ok (driver.encode r) _ e1) in
      subst (All (λ t. 0 < devices_of sql db t.device_id)) (ok-injective h2) (
        subst (λ k. 0 < devices_of sql db k) (sym device)
            (there r.device_id (rw (eq_refl r.device_id))),
        encoded_known driver db rs rest e2 (λ x c. there x (ground arith)),
      )

  -- after the registrations, every device of the batch is there
  all_registered :
      (now : Time) (x : String) (ids : List String) (db : Db sql) {after : Db sql}
      → register_all sql now (keep (λ did. not (contains did (existing_of ids db))) ids) db
        ≡ ok after
      → contains x ids ≡ true
      → 0 < devices_of sql after x
  all_registered now x ids db {after} h there =
      elim (Bool-cases (contains x (existing_of ids db))) [
        | inl old ↦ omega (
          arith,
          (register_all-DevicesOnly sql now _ db h).grow x,
          contains-ids x (sql.select Device (λ d. contains d.id ids) db.devices) old,
          sql.count-select Device (λ d. contains d.id ids) (λ d. d.id == x) db.devices,
          count_where_mono sql (λ d. contains d.id ids && (d.id == x)) (λ d. d.id == x) db.devices
              (λ d. ground arith),
        )
        | inr new ↦ register_all_there sql now _ db x h (contains-keep x _ ids there (rw new))
      ]

  flush_rows_wrote :
      (driver : Driver) (now : Time) (rows : List Row) (db : Db sql) {after : Db sql}
      → flush_rows sql driver now rows db ≡ ok after
      → FlushWrote db after
  unfolding flush_rows
  flush_rows_wrote driver now rows db h =
      let (registered, e1, h1) = >>=-eq-ok (register_all sql now _ db) _ h in
      let (ts, e2, h2) = >>=-eq-ok (encode_all driver rows) _ h1 in
      let touched =
        touch_all-DevicesOnly sql now (existing_of (distinct (map (λ r. r.device_id) rows)) db)
          registered in
      record {
        seen_db =
            touch_all sql now (existing_of (distinct (map (λ r. r.device_id) rows)) db) registered;
        encoded = ts;
        only = then_only sql (register_all-DevicesOnly sql now _ db e1) touched;
        wrote = sym (ok-injective h2);
        known =
            encoded_known driver
              (touch_all sql now (existing_of (distinct (map (λ r. r.device_id) rows)) db)
                registered)
              rows ts e2
              (λ x c. omega (
                arith,
                touched.grow x,
                all_registered now x (distinct (map (λ r. r.device_id) rows)) db e1
                    (contains-distinct x _ c),
              ));
      }

  pub flush_wrote :
      (driver : Driver) (now : Time) (rows : List Row) (db : Db sql) {after : Db sql}
      → flush sql driver now rows db ≡ ok after
      → FlushWrote db after
  unfolding flush insert_rows
  flush_wrote driver now [] db h = record {
    seen_db = db;
    encoded = [];
    only = unchanged sql db;
    wrote = sym (ok-injective h);
    known = tt;
  }
  flush_wrote driver now (r ∷ rs) db h = flush_rows_wrote driver now (r ∷ rs) db h

  with_meta : (now : Time) → (device_id : String) → Json → Db sql → Db sql
  with_meta now device_id data_ db = record db {
    device_meta =
        sql.insert_or_update DeviceMeta (λ m. m.device_id == device_id)
          (λ m. record m { payload = data_; updated_at = now }) (meta_row device_id data_ now)
          db.device_meta;
  }

  meta_only :
      (now : Time) (device_id : String) (data_ : Json) (db : Db sql)
      → 0 < devices_of sql db device_id
      → DevicesOnly sql db (with_meta now device_id data_ db)
  unfolding with_meta
  meta_only now device_id data_ db there = record {
    users = refl;
    user_devices = refl;
    refresh_tokens = refl;
    telemetry_raw = refl;
    grow = λ x. omega arith;
    metas = λ h x. elim (Bool-cases (device_id == x)) [
      | inl same ↦ inr (subst (λ k. 0 < devices_of sql db k) ((eq_iff device_id x).0 same) there)
      | inr other ↦ subst (λ n. Refers n (devices_of sql db x)) (sym (same_metas x other)) (h x)
    ];
    few = λ x h. h;
  }
    where
      test :
          (x : String) (m : DeviceMeta)
          → (device_id == x) ≡ false
          → ((if m.device_id == device_id
                then record m { payload = data_; updated_at = now }
                else m).device_id
              == x)
            ≡ (m.device_id == x)
      test x m other = elim (Bool-cases (m.device_id == device_id)) [ inl e ↦ rw e | inr e ↦ rw e ]

      same_metas :
          (x : String)
          → (device_id == x) ≡ false
          → sql.count_where DeviceMeta
              (λ m. m.device_id == x)
              (with_meta now device_id data_ db).device_meta
            ≡ sql.count_where DeviceMeta (λ m. m.device_id == x) db.device_meta
      same_metas x other = ground (
        arith,
        sql.count_where-insert_or_update DeviceMeta (λ m. m.device_id == device_id)
            (λ m. record m { payload = data_; updated_at = now }) (meta_row device_id data_ now)
            (λ m. m.device_id == x) db.device_meta,
        count_where-congr sql _ _ db.device_meta (λ m. test x m other),
        other,
      )

  upsert_meta-DevicesOnly :
      (driver : Driver) (now : Time) (device_id : String) (data_ : Json) (db : Db sql)
      {after : Db sql}
      → upsert_meta sql driver now device_id data_ db ≡ ok after
      → DevicesOnly sql db after
  unfolding upsert_meta with_meta
  upsert_meta-DevicesOnly driver now device_id data_ db h =
      let (registered, e, h1) = >>=-eq-ok (register sql now device_id db) _ h in
      let (u, e2, h2) =
        >>=-eq-ok (guard (driver.fits_jsonb data_) (uncaught database_error)) _ h1 in
      then_only sql (register-DevicesOnly sql now device_id db e) (
        subst (DevicesOnly sql registered) (ok-injective h2)
          (meta_only now device_id data_ registered (register_there sql now device_id db e)))

  pub meta-DevicesOnly :
      (python : Python) (driver : Driver) (now : Time) (device_id : String) (payload : Bytes)
      (db : Db sql) {after : Db sql}
      → handle_meta sql python driver now device_id payload db ≡ ok after
      → DevicesOnly sql db after
  unfolding handle_meta
  meta-DevicesOnly python driver now device_id payload db {after} h =
      by_payload (python.json_loads payload) h
    where
      by_payload :
          (loaded : Loaded)
          → elim loaded [
            | json data_ ↦ upsert_meta sql driver now device_id data_ db
            | json_decode_error ↦ ok db
            | not_unicode ↦ err (uncaught unicode_decode_error)
          ]
            ≡ ok after
          → DevicesOnly sql db after
      by_payload (json data_) e = upsert_meta-DevicesOnly driver now device_id data_ db e
      by_payload json_decode_error e =
          subst (DevicesOnly sql db) (ok-injective e) (unchanged sql db)
      by_payload not_unicode e = cc
