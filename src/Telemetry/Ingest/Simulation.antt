-- ===== src/Telemetry/Ingest/Simulation.antt =====
-- `TelemetryIngestor._run`, against the map that telemetry_raw and the batch stand for together.
use mathlib.Core.Path.{subst}
use mqtt_projeto_vena.Prelude.{◌≡◌, ◌∙◌, refl, sym, ap, List, [], ◌∷◌, ◌++◌, Bool-cases, inl, inr}
use mqtt_projeto_vena.Http.{ok}
use mqtt_projeto_vena.Sql.{Sql}
use mqtt_projeto_vena.Db.{Db, TelemetryRaw, Time}
use mqtt_projeto_vena.Telemetry.Ingest.Rows.{Python, Row}
use mqtt_projeto_vena.Telemetry.Ingest.Flush.{Driver}
use mqtt_projeto_vena.Telemetry.Ingest.Encoded.{Writable}
use mqtt_projeto_vena.Telemetry.Ingest.Loop.{Ingestor, Round, should_flush, flush_if_due, step, run}
use mqtt_projeto_vena.Telemetry.Ingest.Progress.{
  BenignGot, brings_got, take_got_ok, brings_got-Writable, Writable-append,
}
use mqtt_projeto_vena.Telemetry.Ingest.Run.{AllBenign, brings_all}
use mqtt_projeto_vena.Telemetry.Ingest.Archive.{Archive, record_rows, Represents, flush_refines}

record_rows-append :
    (driver : Driver) (a b : List Row) (archive : Archive)
    → record_rows driver (a ++ b) archive ≡ record_rows driver b (record_rows driver a archive)
unfolding record_rows
record_rows-append driver [] b archive = refl
record_rows-append driver (r ∷ a) b archive = record_rows-append driver a b _

module _ (py : Python) (driver : Driver) (sql : Sql) where
  -- The loop stands for an archive: its table stands for one in which the rows that wait are still to be
  -- recorded, and they can be written.
  pub record StandsFor (table : sql.Table TelemetryRaw) (batch : List Row) (archive : Archive)
      : Type 0 where
    pub written : Archive
    pub represents : Represents sql table written
    pub pending : record_rows driver batch written ≡ archive
    pub writable : Writable driver batch

  -- rows that join the batch
  join-StandsFor :
      (table after : sql.Table TelemetryRaw) (batch new : List Row) (archive : Archive)
      → after ≡ table
      → Writable driver new
      → StandsFor table batch archive
      → StandsFor after (batch ++ new) (record_rows driver new archive)
  join-StandsFor table after batch new archive same w s = record {
    written = s.written;
    represents = subst (λ t. Represents sql t s.written) (sym same) s.represents;
    pending = record_rows-append driver batch new s.written ∙ ap (record_rows driver new) s.pending;
    writable = Writable-append driver batch new s.writable w;
  }

  end-StandsFor :
      (round : Round) (db : Db sql) (batch : List Row) (last_flush : Time) (archive : Archive)
      → StandsFor db.telemetry_raw batch archive
      → (s' : Ingestor sql) × (flush_if_due sql py driver round (db, batch) last_flush ≡ ok s')
        × StandsFor s'.db.telemetry_raw s'.batch archive
  unfolding flush_if_due record_rows
  end-StandsFor round db batch last_flush archive s =
      elim (Bool-cases (should_flush batch round.tested_at last_flush)) [
        | inl due ↦
            let (db', flushed, stands) =
              flush_refines sql driver round.wall batch db s.written s.writable s.represents in
            (
              record { db = db'; batch = []; last_flush = round.flushed_at },
              rw (due, flushed),
              record {
                written = record_rows driver batch s.written;
                represents = stands;
                pending = s.pending;
                writable = tt;
              },
            )
        | inr later ↦ (record { db = db; batch = batch; last_flush = last_flush }, rw later, s)
      ]

  step-StandsFor :
      (s : Ingestor sql) (round : Round) (b : BenignGot py driver sql round.got) (archive : Archive)
      → StandsFor s.db.telemetry_raw s.batch archive
      → (s' : Ingestor sql) × (step sql py driver s round ≡ ok s')
        × StandsFor s'.db.telemetry_raw s'.batch
            (record_rows driver (brings_got py driver sql round.got b) archive)
  unfolding step
  step-StandsFor s round b archive h =
      let new = brings_got py driver sql round.got b in
      let (db', took, same) = take_got_ok py driver sql round.wall round.got b s.db s.batch in
      let (s', ended, stands) =
        end-StandsFor round db' (s.batch ++ new) s.last_flush (record_rows driver new archive) (
          join-StandsFor s.db.telemetry_raw db'.telemetry_raw s.batch new archive same
            (brings_got-Writable py driver sql round.got b) h) in
      (s', rw took ended, stands)

  -- The loop implements the archive. Whatever the rounds bring and whenever they come, if every
  -- message is benign (it parses, its row fits the columns, and metadata that is JSON fits a JSONB
  -- column), the loop goes through them all without an exception, and where the table
  -- and the batch stood for an archive, they stand afterwards for that archive with every reading
  -- that came in recorded in its order, the first one of a device and time winning.
  pub run_refines :
      (rounds : List Round) (s : Ingestor sql) (b : AllBenign py driver sql rounds)
      (archive : Archive)
      → StandsFor s.db.telemetry_raw s.batch archive
      → (s' : Ingestor sql) × (run sql py driver s rounds ≡ ok s')
        × StandsFor s'.db.telemetry_raw s'.batch
            (record_rows driver (brings_all py driver sql rounds b) archive)
  unfolding run record_rows
  run_refines [] s b archive h = (s, refl, h)
  run_refines (round ∷ rounds) s b archive h =
      let (s1, stepped, h1) = step-StandsFor s round b.0 archive h in
      let (s2, ran, h2) = run_refines rounds s1 b.1 _ h1 in
      (
        s2,
        rw stepped ran,
        subst (StandsFor s2.db.telemetry_raw s2.batch)
            (sym (record_rows-append driver (brings_got py driver sql round.got b.0) _ archive)) h2,
      )
