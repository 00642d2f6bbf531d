-- ===== src/Telemetry/Ingest/Loop.antt =====
-- `TelemetryIngestor._run` and `stop`.
use mqtt_projeto_vena.Prelude.{
  ℕ, ◌-◌, String, List, [], ◌∷◌, ◌++◌, Option, none, some, Bool, not, ◌&&◌, ◌||◌, ◌==◌, leb, eqb,
  length, if◌then◌else◌,
}
use mqtt_projeto_vena.Http.{Result, ok, ◌>>=◌}
use mqtt_projeto_vena.Sql.{Sql}
use mqtt_projeto_vena.Db.{Db, Time, second}
use mqtt_projeto_vena.Mqtt.Topics.{parse_topic}
use mqtt_projeto_vena.Telemetry.Ingest.Rows.{Bytes, Python, Row, parse}
use mqtt_projeto_vena.Telemetry.Ingest.Flush.{Driver, flush, handle_meta}

abbrev pub batch_size : ℕ
batch_size = 100

-- on the event loop's clock, in microseconds as well
abbrev pub flush_interval : Time
flush_interval = second

abbrev pub Message : Type 0
Message = String × Bytes

-- The variables of the loop, with the database.
pub record Ingestor (sql : Sql) : Type 0 where
  pub db : Db sql
  pub batch : List Row
  pub last_flush : Time

-- One round: what the queue gave before the timeout, the wall clock for the rows that are written, the
-- loop's clock at the test and after the flush.
pub record Round : Type 0 where
  pub got : Option Message
  pub wall : Time
  pub tested_at : Time
  pub flushed_at : Time

-- `if row: batch.append(row)`
unfoldable pub append_row : List Row → Option Row → List Row
append_row batch none = batch
append_row batch (some row) = batch ++ row ∷ []

-- `parsed is not None and parsed[1] == "meta"`, with the device
unfoldable pub meta_device : String → Option String
meta_device topic = elim (parse_topic topic) [
  | none ↦ none
  | some (device_id, kind) ↦ if kind == "meta" then some device_id else none
]

-- len(batch) >= _BATCH_SIZE or (batch and … >= _FLUSH_INTERVAL)
unfoldable pub should_flush : List Row → (now last_flush : Time) → Bool
should_flush batch now last_flush =
    leb batch_size (length batch)
    || (not (eqb (length batch) 0) && leb flush_interval (now - last_flush))

module _ (sql : Sql) (py : Python) (driver : Driver) where
  -- one message, in front of a batch
  unfoldable pub take_message : Time → Message → Db sql × List Row → Result (Db sql × List Row)
  unfolding append_row
  take_message wall (topic, payload) (db, batch) = elim (meta_device topic) [
    | some device_id ↦ (do
      db' ← handle_meta sql py driver wall device_id payload db
      ok (db', batch))
    | none ↦ (do row ← parse py topic payload; ok (db, append_row batch row))
  ]

  unfoldable pub take_got : Time → Option Message → Db sql × List Row → Result (Db sql × List Row)
  take_got wall none s = ok s
  take_got wall (some m) s = take_message wall m s

  -- the end of a round
  unfoldable pub flush_if_due :
      Round → Db sql × List Row → (last_flush : Time) → Result (Ingestor sql)
  flush_if_due round (db, batch) last_flush =
      let flushed = flush sql driver round.wall batch db >>= λ db'.
      ok (record { db = db'; batch = []; last_flush = round.flushed_at }) in
      if should_flush batch round.tested_at last_flush
      then flushed
      else ok (record { db = db; batch = batch; last_flush = last_flush })

  unfoldable pub step : Ingestor sql → Round → Result (Ingestor sql)
  step s round = do
    taken ← take_got round.wall round.got (s.db, s.batch)
    flush_if_due round taken s.last_flush

  -- `while True`, for as many rounds as are given; the first exception ends it
  unfoldable pub run : Ingestor sql → List Round → Result (Ingestor sql)
  run s [] = ok s
  run s (round ∷ rounds) = do s' ← step s round; run s' rounds

  -- the loop of `stop`, over what is left in the queue
  unfoldable pub drain : Time → List Message → Db sql × List Row → Result (Db sql × List Row)
  drain wall [] s = ok s
  drain wall (m ∷ ms) s = do s' ← take_message wall m s; drain wall ms s'

  -- `stop` cancels the task, whose batch is a local variable and goes with it.
  unfoldable pub stop : Time → List Message → Db sql → Result (Db sql)
  stop wall queue db = do
    (db', remaining) ← drain wall queue (db, [])
    flush sql driver wall remaining db'
