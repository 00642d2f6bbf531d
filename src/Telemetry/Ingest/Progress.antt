-- ===== src/Telemetry/Ingest/Progress.antt =====
-- A round of the loop, over messages that raise nothing.
use mathlib.Core.List.{append-nil}
use mathlib.Core.Path.{subst}
use mqtt_projeto_vena.Prelude.{
  ◌<◌, ◌≡◌, refl, sym, ap, String, List, [], ◌∷◌, ◌++◌, ◌⊎◌, Option, none, some, true, false, arith,
  ◌==◌, length, Bool-cases, inl, inr, ◌≢◌,
}
use mqtt_projeto_vena.Http.{ok}
use mqtt_projeto_vena.Sql.{Sql}
use mqtt_projeto_vena.Json.{Json}
use mqtt_projeto_vena.Db.{Db, Device, DeviceMeta, Time}
use mqtt_projeto_vena.Telemetry.Ingest.Rows.{
  Python, Row, Bytes, Loaded, json, json_decode_error, not_unicode, parse,
}
use mqtt_projeto_vena.Telemetry.Ingest.Flush.{
  Driver, fits_id, unprovisioned, meta_row, register, upsert_meta, handle_meta,
}
use mqtt_projeto_vena.Telemetry.Ingest.Stored.{stored, Holds}
use mqtt_projeto_vena.Telemetry.Ingest.Delivery.{flush-Flushed}
use mqtt_projeto_vena.Telemetry.Ingest.Encoded.{Writable}
use mqtt_projeto_vena.Telemetry.Ingest.Loop.{
  Message, Ingestor, Round, batch_size, append_row, meta_device, should_flush, take_message,
  take_got, flush_if_due, step,
}

Holds-append_left :
    (a b : List Row) (device_id : String) (at : Time)
    → Holds a device_id at
    → Holds (a ++ b) device_id at
Holds-append_left [] b device_id at h = elim h [ ]
Holds-append_left (r ∷ a) b device_id at (inl e) = inl e
Holds-append_left (r ∷ a) b device_id at (inr h) = inr (Holds-append_left a b device_id at h)

Holds-append_right :
    (a b : List Row) (device_id : String) (at : Time)
    → Holds b device_id at
    → Holds (a ++ b) device_id at
Holds-append_right [] b device_id at h = h
Holds-append_right (r ∷ a) b device_id at h = inr (Holds-append_right a b device_id at h)

pub Writable-append :
    (driver : Driver) (a b : List Row)
    → Writable driver a
    → Writable driver b
    → Writable driver (a ++ b)
Writable-append driver [] b wa wb = wb
Writable-append driver (r ∷ a) b wa wb = (wa.0, Writable-append driver a b wa.1 wb)

-- a batch that is not flushed is short
small :
    (batch : List Row) (now last_flush : Time)
    → should_flush batch now last_flush ≡ false
    → length batch < batch_size
unfolding should_flush
small batch now last_flush h = ground arith

-- the rows that a message adds to the batch
abbrev pub rows_of : Option Row → List Row
rows_of none = []
rows_of (some r) = r ∷ []

append_row-eq : (batch : List Row) (row : Option Row) → append_row batch row ≡ batch ++ rows_of row
unfolding append_row
append_row-eq batch none = sym (append-nil batch)
append_row-eq batch (some r) = refl

module _ (py : Python) (driver : Driver) where
  -- A message that raises nothing: meta that is text, for an id that fits, and that the column takes if
  -- it is JSON; or another message that
  -- parses, to nothing or to a row that the database accepts.
  pub data Benign (m : Message) : Type 0 where
    meta :
        (device_id : String)
        → meta_device m.0 ≡ some device_id
        → fits_id device_id ≡ true
        → py.json_loads m.1 ≢ not_unicode
        → ((j : Json) → py.json_loads m.1 ≡ json j → driver.fits_jsonb j ≡ true)
        → Benign m
    other :
        (row : Option Row)
        → meta_device m.0 ≡ none
        → parse py m.0 m.1 ≡ ok row
        → Writable driver (rows_of row)
        → Benign m

  -- the rows that a benign message brings
  abbrev pub brings : {m : Message} → Benign m → List Row
  brings (meta device_id e fits text taken) = []
  brings (other row e parsed w) = rows_of row

  module _ (sql : Sql) where
    with_meta : Time → String → Json → Db sql → Db sql
    with_meta wall device_id j db = record db {
      devices =
          sql.insert_or_nothing Device (λ d. d.id == device_id) (unprovisioned device_id wall)
            db.devices;
      device_meta =
          sql.insert_or_update DeviceMeta (λ m. m.device_id == device_id)
            (λ m. record m { payload = j; updated_at = wall }) (meta_row device_id j wall)
            db.device_meta;
    }

    handle_meta_ok :
        (wall : Time) (device_id : String) (payload : Bytes) (db : Db sql)
        → fits_id device_id ≡ true
        → py.json_loads payload ≢ not_unicode
        → ((j : Json) → py.json_loads payload ≡ json j → driver.fits_jsonb j ≡ true)
        → (db' : Db sql) × (handle_meta sql py driver wall device_id payload db ≡ ok db')
          × (db'.telemetry_raw ≡ db.telemetry_raw)
    unfolding handle_meta upsert_meta register with_meta
    handle_meta_ok wall device_id payload db fits text taken =
        by_answer (py.json_loads payload) refl
      where
        by_answer :
            (answer : Loaded)
            → py.json_loads payload ≡ answer
            → (db' : Db sql) × (handle_meta sql py driver wall device_id payload db ≡ ok db')
              × (db'.telemetry_raw ≡ db.telemetry_raw)
        by_answer (json j) e =
            (with_meta wall device_id j db, rw (e, handle_meta) (rw (fits, taken j e)), refl)
        by_answer json_decode_error e = (db, rw (e, handle_meta), refl)
        by_answer not_unicode e = absurd (text e)

    -- a benign message adds its rows to the batch and leaves telemetry_raw alone
    take_message_ok :
        (wall : Time) (m : Message) (b : Benign m) (db : Db sql) (batch : List Row)
        → (db' : Db sql) × (take_message sql py driver wall m (db, batch)
            ≡ ok (db', batch ++ brings b))
          × (db'.telemetry_raw ≡ db.telemetry_raw)
    unfolding take_message
    take_message_ok wall m (meta device_id e fits text taken) db batch =
        let (db', handled, same) = handle_meta_ok wall device_id m.1 db fits text taken in
        (db', rw (e, take_message) (rw (handled, append-nil batch)), same)
    take_message_ok wall m (other row e parsed w) db batch =
        (db, rw (e, take_message) (rw (parsed, append_row-eq batch row)), refl)

    brings-Writable : {m : Message} (b : Benign m) → Writable driver (brings b)
    brings-Writable (meta device_id e fits text taken) = tt
    brings-Writable (other row e parsed w) = w

    -- a key is stored, or waits in the batch
    abbrev pub Pending : Ingestor sql → (device_id : String) → (at : Time) → Type 0
    Pending s device_id at =
        Holds s.batch device_id at ⊎ (0 < stored sql s.db.telemetry_raw device_id at)

    -- What a round leaves, where `rows` came in.
    pub record Progress (s : Ingestor sql) (rows : List Row) (s' : Ingestor sql) : Type 0 where
      pub writable : Writable driver s'.batch
      pub kept : (device_id : String) (at : Time) → Pending s device_id at → Pending s' device_id at
      pub arrived :
          (device_id : String) (at : Time) → Holds rows device_id at → Pending s' device_id at
      pub bounded : length s'.batch < batch_size

    flush_if_due_ok :
        (round : Round) (db : Db sql) (batch : List Row) (last_flush : Time)
        → Writable driver batch
        → (s' : Ingestor sql) × (flush_if_due sql py driver round (db, batch) last_flush ≡ ok s')
          × Writable driver s'.batch
          × ((device_id : String) (at : Time)
              → Holds batch device_id at ⊎ (0 < stored sql db.telemetry_raw device_id at)
              → Pending s' device_id at)
          × (length s'.batch < batch_size)
    unfolding flush_if_due
    flush_if_due_ok round db batch last_flush w =
        elim (Bool-cases (should_flush batch round.tested_at last_flush)) [
          | inl due ↦
              let (db', flushed, f) = flush-Flushed sql driver round.wall batch db w in
              (
                record { db = db'; batch = []; last_flush = round.flushed_at },
                rw (due, flushed),
                tt,
                (λ device_id at p. inr (elim p [
                  | inl waiting ↦ f.written device_id at waiting
                  | inr there ↦ omega (arith, f.kept device_id at)
                ])),
                omega arith,
              )
          | inr later ↦ (
            record { db = db; batch = batch; last_flush = last_flush },
            rw later,
            w,
            (λ device_id at p. p),
            small batch round.tested_at last_flush later,
          )
        ]

    -- nothing, or a benign message
    abbrev pub BenignGot : Option Message → Type 0
    BenignGot none = Unit
    BenignGot (some m) = Benign m

    abbrev pub brings_got : (got : Option Message) → BenignGot got → List Row
    brings_got none b = []
    brings_got (some m) b = brings b

    pub brings_got-Writable :
        (got : Option Message) (b : BenignGot got) → Writable driver (brings_got got b)
    brings_got-Writable none b = tt
    brings_got-Writable (some m) b = brings-Writable b

    pub take_got_ok :
        (wall : Time) (got : Option Message) (b : BenignGot got) (db : Db sql) (batch : List Row)
        → (db' : Db sql) × (take_got sql py driver wall got (db, batch)
            ≡ ok (db', batch ++ brings_got got b))
          × (db'.telemetry_raw ≡ db.telemetry_raw)
    unfolding take_got
    take_got_ok wall none b db batch = (db, ap (λ l. ok (db, l)) (sym (append-nil batch)), refl)
    take_got_ok wall (some m) b db batch = take_message_ok wall m b db batch

    pub step-Progress :
        (s : Ingestor sql) (round : Round) (b : BenignGot round.got)
        → Writable driver s.batch
        → (s' : Ingestor sql) × (step sql py driver s round ≡ ok s')
          × Progress s (brings_got round.got b) s'
    unfolding step
    step-Progress s round b w =
        let new = brings_got round.got b in
        let (db', took, same) = take_got_ok round.wall round.got b s.db s.batch in
        let (s', ended, writable, kept, bounded) =
          flush_if_due_ok round db' (s.batch ++ new) s.last_flush
            (Writable-append driver s.batch new w (brings_got-Writable round.got b)) in
        (
          s',
          rw took ended,
          record {
            writable = writable;
            kept = λ device_id at p. kept device_id at (elim p [
              | inl waiting ↦ inl (Holds-append_left s.batch new device_id at waiting)
              | inr there ↦ inr (subst (λ t. 0 < stored sql t device_id at) (sym same) there)
            ]);
            arrived = λ device_id at h.
                kept device_id at (inl (Holds-append_right s.batch new device_id at h));
            bounded = bounded;
          },
        )
