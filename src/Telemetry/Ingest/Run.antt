-- ===== src/Telemetry/Ingest/Run.antt =====
-- The loop of the ingestion over any rounds.
use mqtt_projeto_vena.Prelude.{
  ◌<◌, ◌≡◌, refl, String, List, [], ◌∷◌, ◌++◌, ◌⊎◌, length, inl, inr, All,
}
use mqtt_projeto_vena.Http.{ok}
use mqtt_projeto_vena.Sql.{Sql}
use mqtt_projeto_vena.Db.{Time}
use mqtt_projeto_vena.Telemetry.Ingest.Rows.{Python, Row}
use mqtt_projeto_vena.Telemetry.Ingest.Flush.{Driver}
use mqtt_projeto_vena.Telemetry.Ingest.Stored.{Holds}
use mqtt_projeto_vena.Telemetry.Ingest.Encoded.{Writable}
use mqtt_projeto_vena.Telemetry.Ingest.Loop.{Ingestor, Round, batch_size, run}
use mqtt_projeto_vena.Telemetry.Ingest.Progress.{
  BenignGot, brings_got, Pending, Progress, step-Progress,
}

module _ (py : Python) (driver : Driver) (sql : Sql) where
  abbrev pub AllBenign : List Round → Type 0
  AllBenign [] = Unit
  AllBenign (round ∷ rounds) = BenignGot py driver sql round.got × AllBenign rounds

  abbrev pub brings_all : (rounds : List Round) → AllBenign rounds → List Row
  brings_all [] b = []
  brings_all (round ∷ rounds) b = brings_got py driver sql round.got b.0 ++ brings_all rounds b.1

  Holds-append :
      (x y : List Row) (device_id : String) (at : Time)
      → Holds (x ++ y) device_id at
      → Holds x device_id at ⊎ Holds y device_id at
  Holds-append [] y device_id at h = inr h
  Holds-append (r ∷ x) y device_id at (inl e) = inl (inl e)
  Holds-append (r ∷ x) y device_id at (inr h) = elim (Holds-append x y device_id at h) [
    | inl left ↦ inl (inr left)
    | inr right ↦ inr right
  ]

  pub run-Progress :
      (rounds : List Round) (s : Ingestor sql) (b : AllBenign rounds)
      → Writable driver s.batch
      → length s.batch < batch_size
      → (s' : Ingestor sql) × (run sql py driver s rounds ≡ ok s')
        × Progress py driver sql s (brings_all rounds b) s'
  unfolding run
  run-Progress [] s b w short = (
    s,
    refl,
    record {
      writable = w;
      kept = λ device_id at p. p;
      arrived = λ device_id at h. elim h [ ];
      bounded = short;
    },
  )
  run-Progress (round ∷ rounds) s b w short =
      let (s1, stepped, p1) = step-Progress py driver sql s round b.0 w in
      let (s2, ran, p2) = run-Progress rounds s1 b.1 p1.writable p1.bounded in
      (
        s2,
        rw stepped ran,
        record {
          writable = p2.writable;
          kept = λ device_id at p. p2.kept device_id at (p1.kept device_id at p);
          arrived = λ device_id at h.
              elim (Holds-append (brings_got py driver sql round.got b.0) _ device_id at h) [
                | inl now ↦ p2.kept device_id at (p1.arrived device_id at now)
                | inr later ↦ p2.arrived device_id at later
              ];
          bounded = p2.bounded;
        },
      )

  reaches-All :
      (s : Ingestor sql) (rows : List Row)
      → ((device_id : String) (at : Time)
          → Holds rows device_id at
          → Pending py driver sql s device_id at)
      → All (λ r. Pending py driver sql s r.device_id r.ts) rows
  reaches-All s [] h = tt
  reaches-All s (r ∷ rows) h = (
    h r.device_id r.ts (inl (refl, refl)),
    reaches-All s rows (λ device_id at there. h device_id at (inr there)),
  )

  -- Whatever the rounds bring and whenever they come, if every message is benign (it parses, its row
  -- fits the columns, and metadata that is JSON fits a JSONB column) and the batch is writable and
  -- below 100 rows, then the loop goes through them all without an exception; each reading that came
  -- in or that waited in the batch is then stored or waits in the batch, and the batch is below 100
  -- rows.
  pub run_delivers :
      (rounds : List Round) (s : Ingestor sql) (b : AllBenign rounds)
      → Writable driver s.batch
      → length s.batch < batch_size
      → (s' : Ingestor sql) × (run sql py driver s rounds ≡ ok s')
        × All (λ r. Pending py driver sql s' r.device_id r.ts) (brings_all rounds b)
        × All (λ r. Pending py driver sql s' r.device_id r.ts) s.batch
        × (length s'.batch < batch_size)
  run_delivers rounds s b w short =
      let (s', ran, p) = run-Progress rounds s b w short in
      (
        s',
        ran,
        reaches-All s' (brings_all rounds b) p.arrived,
        reaches-All s' s.batch (λ device_id at there. p.kept device_id at (inl there)),
        p.bounded,
      )
