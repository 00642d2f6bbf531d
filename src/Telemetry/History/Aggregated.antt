-- ===== src/Telemetry/History/Aggregated.antt =====
-- The samples of an aggregated history.
use mqtt_projeto_vena.Prelude.{
  ℕ, ◌≡◌, refl, ap, String, List, [], ◌∷◌, ◌++◌, map, Option, some, false, ◌==◌, ◌<>◌, lookup,
  is_none, All, Bool-cases, Option-cases, inl, inr,
}
use mqtt_projeto_vena.Http.{ok}
use mqtt_projeto_vena.Sql.{Sql}
use mqtt_projeto_vena.Db.{Db, Time, Float}
use mqtt_projeto_vena.Telemetry.Aggregation.{
  SelectPart, has_min_max, metric_parts, all_metric_parts, build_aggregate_sql,
}
use mqtt_projeto_vena.Telemetry.Samples.{
  TelemetrySample, Mapping, column, metric_kwargs, kwargs_of, agg_samples, sample_of,
}
use mqtt_projeto_vena.Telemetry.History.{Execute, bucket_samples}

-- a row has the column of a SELECT item
abbrev pub HasColumn : Mapping → SelectPart → Type 0
HasColumn r p = is_none (lookup p.alias r.columns) ≡ false

-- a row has the columns that the query asks for
abbrev pub HasColumns : List String → Mapping → Type 0
HasColumns metrics r = All (HasColumn r) (all_metric_parts metrics)

column-ok :
    (r : Mapping) (name : String)
    → is_none (lookup name r.columns) ≡ false
    → (v : Option Float) × (column r name ≡ ok v)
column-ok r name h = elim (Option-cases (lookup name r.columns)) [
  | inl e ↦ absurd (cc (rw e at h))
  | inr (v, e) ↦ (v, rw e)
]

module _ {ℓ κ} {A : Type ℓ} (P : A → Type κ) where
  All-left : (l m : List A) → All P (l ++ m) → All P l
  All-left [] m h = tt
  All-left (x ∷ l) m h = (h.0, All-left l m h.1)

  All-right : (l m : List A) → All P (l ++ m) → All P m
  All-right [] m h = h
  All-right (x ∷ l) m h = All-right l m h.1

metric_kwargs-ok :
    (r : Mapping) (m : String)
    → All (HasColumn r) (metric_parts m)
    → (kwargs : List (String × Option Float)) × (metric_kwargs r m ≡ ok kwargs)
unfolding metric_kwargs metric_parts
metric_kwargs-ok r m h = elim (Bool-cases (has_min_max m)) [
  | inl e ↦
      let (avg_has, (min_has, (max_has, none_left))) = rw e at h in
      let (avg_v, a) = column-ok r (m <> "_avg") avg_has in
      let (min_v, b) = column-ok r (m <> "_min") min_has in
      let (max_v, c) = column-ok r (m <> "_max") max_has in
      ((m, avg_v) ∷ (m <> "_min", min_v) ∷ (m <> "_max", max_v) ∷ [], rw (e, a, b, c))
  | inr e ↦
      let (avg_has, none_left) = rw e at h in
      let (avg_v, a) = column-ok r (m <> "_avg") avg_has in ((m, avg_v) ∷ [], rw (e, a))
]

kwargs_of-ok :
    (r : Mapping) (metrics : List String)
    → HasColumns metrics r
    → (kwargs : List (String × Option Float)) × (kwargs_of r metrics ≡ ok kwargs)
unfolding kwargs_of all_metric_parts
kwargs_of-ok r [] h = ([], refl)
kwargs_of-ok r (m ∷ ms) h =
    let (first, e) = metric_kwargs-ok r m (All-left _ (metric_parts m) (all_metric_parts ms) h) in
    let (rest, f) = kwargs_of-ok r ms (All-right _ (metric_parts m) (all_metric_parts ms) h) in
    (first ++ rest, rw (e, f))

agg_samples-ok :
    (metrics : List String) (rs : List Mapping)
    → All (HasColumns metrics) rs
    → (samples : List TelemetrySample) × (agg_samples metrics rs ≡ ok samples)
      × (map TelemetrySample.ts samples ≡ map Mapping.bucket rs)
      × (map TelemetrySample.sample_count samples ≡ map (λ r. some r.sample_count) rs)
unfolding agg_samples sample_of
agg_samples-ok metrics [] h = ([], refl, refl, refl)
agg_samples-ok metrics (r ∷ rs) h =
    let (kwargs, e) = kwargs_of-ok r metrics h.0 in
    let (samples, f, same, counts) = agg_samples-ok metrics rs h.1 in
    (
      sample_of r.bucket r.sample_count kwargs ∷ samples,
      rw (e, f),
      ap (λ l. r.bucket ∷ l) same,
      ap (λ l. some r.sample_count ∷ l) counts,
    )

-- If every row that the server answers to the aggregate query has the columns of its SELECT list, the
-- samples of an aggregated bucket are built without an exception: one for each row, in the order of
-- the rows, with the row's bucket for its time and the row's count.
pub aggregated_samples :
    (sql : Sql) (execute : Execute sql) (device_id bucket : String) (metrics : List String)
    (start_ts end_ts : Time) (limit : ℕ) (db : Db sql) (statement : String)
    → (bucket == "5s") ≡ false
    → build_aggregate_sql bucket metrics ≡ ok statement
    → All
        (HasColumns metrics)
        (execute (statement <> " LIMIT :row_limit") device_id start_ts end_ts limit db)
    → (samples : List TelemetrySample) × (bucket_samples sql execute device_id bucket metrics
          start_ts end_ts limit db
        ≡ ok samples)
      × (map TelemetrySample.ts samples
          ≡ map Mapping.bucket
              (execute (statement <> " LIMIT :row_limit") device_id start_ts end_ts limit db))
      × (map TelemetrySample.sample_count samples
          ≡ map
              (λ r. some r.sample_count)
              (execute (statement <> " LIMIT :row_limit") device_id start_ts end_ts limit db))
unfolding bucket_samples
aggregated_samples sql execute device_id bucket metrics start_ts end_ts limit db statement coarse
      built has =
    let (samples, e, times, counts) =
      agg_samples-ok metrics
        (execute (statement <> " LIMIT :row_limit") device_id start_ts end_ts limit db) has in
    (samples, rw (coarse, built) e, times, counts)
