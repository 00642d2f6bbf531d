-- ===== src/Server/Frames.antt =====
-- backend/app/telemetry/ingest.py: what a transaction of the ingestor leaves of each table.
use mathlib.Core.Path.{subst}
use mqtt_projeto_vena.Prelude.{
  contains, eq_refl, ◌<◌, ◌⊎◌, ℕ, ◌+◌, eqb, true, ◌≡◌, ◌∙◌, refl, sym, ap, ◌≤◌, String, List, [],
  ◌∷◌, ◌==◌, arith, eq_iff, Bool-cases, inl, inr, if◌then◌else◌,
}
use mqtt_projeto_vena.Http.{guard, uncaught, database_error, ok}
use mqtt_projeto_vena.Http.Scalar.{>>=-eq-ok, ok-injective}
use mqtt_projeto_vena.Sql.{Sql, one_if}
use mqtt_projeto_vena.Sql.Counts.{count_where-congr}
use mqtt_projeto_vena.Db.{Db, Device, DeviceMeta, Time}
use mqtt_projeto_vena.Telemetry.Ingest.Flush.{
  fits_id, unprovisioned, seen, register, register_all, touch_all,
}

-- no row refers, or there is one to refer to
abbrev pub Refers : (referring referred : ℕ) → Type 0
Refers referring referred = (referring ≡ 0) ⊎ (0 < referred)

pub refers_more : {n m m' : ℕ} → m ≤ m' → Refers n m → Refers n m'
refers_more le (inl e) = inl e
refers_more le (inr h) = inr (omega arith)

module _ (sql : Sql) where
  -- the devices of an id
  abbrev pub devices_of : Db sql → (device_id : String) → ℕ
  devices_of db device_id = sql.count_where Device (λ d. d.id == device_id) db.devices

  -- every row of device_meta is that of a device that is there
  abbrev pub MetaLinked : Db sql → Type 0
  MetaLinked db =
      (device_id : String)
      → Refers (sql.count_where DeviceMeta (λ m. m.device_id == device_id) db.device_meta)
          (devices_of db device_id)

  -- A change of the devices, and of device_meta for devices that are there, that takes no device away and
  -- gives no id a second row.
  pub record DevicesOnly (before after : Db sql) : Type 0 where
    pub users : after.users ≡ before.users
    pub user_devices : after.user_devices ≡ before.user_devices
    pub refresh_tokens : after.refresh_tokens ≡ before.refresh_tokens
    pub telemetry_raw : after.telemetry_raw ≡ before.telemetry_raw
    pub grow : (device_id : String) → devices_of before device_id ≤ devices_of after device_id
    pub metas : MetaLinked before → MetaLinked after
    pub few :
        (device_id : String) → devices_of before device_id ≤ 1 → devices_of after device_id ≤ 1

  pub unchanged : (db : Db sql) → DevicesOnly db db
  unchanged db = record {
    users = refl;
    user_devices = refl;
    refresh_tokens = refl;
    telemetry_raw = refl;
    grow = λ device_id. omega arith;
    metas = λ h. h;
    few = λ device_id h. h;
  }

  pub then_only : {a b c : Db sql} → DevicesOnly a b → DevicesOnly b c → DevicesOnly a c
  then_only f g = record {
    users = g.users ∙ f.users;
    user_devices = g.user_devices ∙ f.user_devices;
    refresh_tokens = g.refresh_tokens ∙ f.refresh_tokens;
    telemetry_raw = g.telemetry_raw ∙ f.telemetry_raw;
    grow = λ device_id. omega (arith, f.grow device_id, g.grow device_id);
    metas = λ h. g.metas (f.metas h);
    few = λ device_id h. g.few device_id (f.few device_id h);
  }

  with_new : Device → Db sql → Db sql
  with_new d db = record db {
    devices = sql.insert_or_nothing Device (λ x. x.id == d.id) d db.devices;
  }

  insert-DevicesOnly : (d : Device) (db : Db sql) → DevicesOnly db (with_new d db)
  unfolding with_new
  insert-DevicesOnly d db = record {
    users = refl;
    user_devices = refl;
    refresh_tokens = refl;
    telemetry_raw = refl;
    grow = grows;
    metas = λ h device_id. refers_more (grows device_id) (h device_id);
    few = λ device_id h. ground (arith, counted device_id, same_id device_id);
  }
    where
      counted :
          (device_id : String)
          → devices_of (with_new d db) device_id ≡ (
              if eqb (devices_of db d.id) 0
              then one_if (d.id == device_id) + devices_of db device_id
              else devices_of db device_id)
      counted device_id = sql.count_where-insert_or_nothing Device _ d _ db.devices

      grows : (device_id : String) → devices_of db device_id ≤ devices_of (with_new d db) device_id
      grows device_id = ground (arith, counted device_id)

      same_id :
          (device_id : String)
          → (d.id == device_id) ≡ true
          → devices_of db d.id ≡ devices_of db device_id
      same_id device_id e = ap (devices_of db) ((eq_iff d.id device_id).0 e)

  seen_at : Time → String → Db sql → Db sql
  seen_at now x db = record db {
    devices = sql.update Device (λ d. d.id == x) (seen now) db.devices;
  }

  touch-DevicesOnly : (now : Time) (x : String) (db : Db sql) → DevicesOnly db (seen_at now x db)
  unfolding seen_at
  touch-DevicesOnly now x db = record {
    users = refl;
    user_devices = refl;
    refresh_tokens = refl;
    telemetry_raw = refl;
    grow = grows;
    metas = λ h device_id. refers_more (grows device_id) (h device_id);
    few = λ device_id h. omega (arith, same_count device_id, h);
  }
    where
      same_id :
          (device_id : String) (d : Device)
          → ((if d.id == x then seen now d else d).id == device_id) ≡ (d.id == device_id)
      same_id device_id d = elim (Bool-cases (d.id == x)) [ inl e ↦ rw e | inr e ↦ rw e ]

      same_count :
          (device_id : String) → devices_of (seen_at now x db) device_id ≡ devices_of db device_id
      same_count device_id =
          sql.count_where-update Device (λ d. d.id == x) (seen now) _ db.devices
          ∙ count_where-congr sql _ _ db.devices (same_id device_id)

      grows :
          (device_id : String) → devices_of db device_id ≤ devices_of (seen_at now x db) device_id
      grows device_id = omega (arith, same_count device_id)

  pub touch_all-DevicesOnly :
      (now : Time) (ids : List String) (db : Db sql) → DevicesOnly db (touch_all sql now ids db)
  unfolding touch_all seen_at
  touch_all-DevicesOnly now [] db = unchanged db
  touch_all-DevicesOnly now (x ∷ ids) db =
      then_only (touch-DevicesOnly now x db) (touch_all-DevicesOnly now ids (seen_at now x db))

  pub register-DevicesOnly :
      (now : Time) (x : String) (db : Db sql) {after : Db sql}
      → register sql now x db ≡ ok after
      → DevicesOnly db after
  unfolding register with_new
  register-DevicesOnly now x db h =
      let (u, e, h1) = >>=-eq-ok (guard (fits_id x) (uncaught database_error)) _ h in
      subst (DevicesOnly db) (ok-injective h1) (insert-DevicesOnly (unprovisioned x now) db)

  pub register_all-DevicesOnly :
      (now : Time) (ids : List String) (db : Db sql) {after : Db sql}
      → register_all sql now ids db ≡ ok after
      → DevicesOnly db after
  unfolding register_all
  register_all-DevicesOnly now [] db h = subst (DevicesOnly db) (ok-injective h) (unchanged db)
  register_all-DevicesOnly now (x ∷ ids) db h =
      let (middle, e, h1) = >>=-eq-ok (register sql now x db) _ h in
      then_only (register-DevicesOnly now x db e) (register_all-DevicesOnly now ids middle h1)

  new_there : (d : Device) (db : Db sql) → 0 < devices_of (with_new d db) d.id
  unfolding with_new
  new_there d db = ground (
    arith,
    sql.count_where-insert_or_nothing Device (λ x. x.id == d.id) d (λ x. x.id == d.id) db.devices,
    eq_refl d.id,
  )

  pub register_there :
      (now : Time) (x : String) (db : Db sql) {after : Db sql}
      → register sql now x db ≡ ok after
      → 0 < devices_of after x
  unfolding register with_new
  register_there now x db h =
      let (u, e, h1) = >>=-eq-ok (guard (fits_id x) (uncaught database_error)) _ h in
      subst (λ d. 0 < devices_of d x) (ok-injective h1) (new_there (unprovisioned x now) db)

  pub register_all_there :
      (now : Time) (ids : List String) (db : Db sql) {after : Db sql} (x : String)
      → register_all sql now ids db ≡ ok after
      → contains x ids ≡ true
      → 0 < devices_of after x
  unfolding register_all
  register_all_there now [] db x h there = cc
  register_all_there now (i ∷ ids) db x h there =
      let (middle, e, h1) = >>=-eq-ok (register sql now i db) _ h in
      elim (Bool-cases (x == i)) [
        | inl same ↦ omega (
          arith,
          (register_all-DevicesOnly now ids middle h1).grow x,
          subst (λ k. 0 < devices_of middle k) (sym ((eq_iff x i).0 same))
              (register_there now i db e),
        )
        | inr other ↦ register_all_there now ids middle x h1 (rw other at there)
      ]
