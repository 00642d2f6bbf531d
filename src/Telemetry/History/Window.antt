-- ===== src/Telemetry/History/Window.antt =====
-- The rows that the endpoint for raw rows returns.
use mathlib.Core.Path.{subst}
use mathlib.Core.List.{append_assoc}
use mqtt_projeto_vena.Prelude.{
  ℕ, zero, suc, ◌-◌, ◌≡◌, refl, sym, ap, ◌∙◌, arith, min, String, List, [], ◌∷◌, ◌++◌, map, count,
  none, Bool, ◌&&◌, Option, true, take, drop, length, count_true,
}
use mqtt_projeto_vena.Http.{Result, ok, err}
use mqtt_projeto_vena.Http.Scalar.{ok-injective}
use mqtt_projeto_vena.Sql.{Sql, IsDescending}
use mqtt_projeto_vena.Sql.Counts.{length-select}
use mqtt_projeto_vena.Db.{Db, Device, TelemetryRaw, Time}
use mqtt_projeto_vena.Telemetry.Aggregation.{hours}
use mqtt_projeto_vena.Telemetry.Samples.{
  TelemetrySample, HistoryResponse, raw_sample, plain_response,
}
use mqtt_projeto_vena.Telemetry.History.{or_else, within, get_device, get_device_history}

module _ {ℓ} {A : Type ℓ} where
  length-take : (n : ℕ) (l : List A) → length (take n l) ≡ min n (length l)
  length-take zero l = omega arith
  length-take (suc n) [] = omega arith
  length-take (suc n) (x ∷ l) = omega (arith, length-take n l)

  length-drop : (n : ℕ) (l : List A) → length (drop n l) ≡ length l - n
  length-drop zero l = omega arith
  length-drop (suc n) [] = omega arith
  length-drop (suc n) (x ∷ l) = omega (arith, length-drop n l)

  take-append-drop : (n : ℕ) (l : List A) → take n l ++ drop n l ≡ l
  take-append-drop zero l = refl
  take-append-drop (suc n) [] = refl
  take-append-drop (suc n) (x ∷ l) = ap (λ t. x ∷ t) (take-append-drop n l)

-- A sample shows the columns of a row, and counts no others.
abbrev pub Shows : TelemetrySample → TelemetryRaw → Type 0
Shows s r =
    (s.ts ≡ r.ts)
    × (s.ambient_t ≡ r.ambient_t)
    × (s.ambient_h ≡ r.ambient_h)
    × (s.diss_t ≡ r.diss_t)
    × (s.diss_h ≡ r.diss_h)
    × (s.setpoint ≡ r.setpoint)
    × (s.pid_out ≡ r.pid_out)
    × (s.sample_count ≡ none)

-- one sample for each row
abbrev pub ShowAll : List TelemetrySample → List TelemetryRaw → Type 0
ShowAll [] [] = Unit
ShowAll [] (r ∷ rs) = ⊥
ShowAll (s ∷ ss) [] = ⊥
ShowAll (s ∷ ss) (r ∷ rs) = Shows s r × ShowAll ss rs

raw_samples-ShowAll : (rows : List TelemetryRaw) → ShowAll (map raw_sample rows) rows
unfolding raw_sample
raw_samples-ShowAll [] = tt
raw_samples-ShowAll (r ∷ rs) =
    ((refl, refl, refl, refl, refl, refl, refl, refl), raw_samples-ShowAll rs)

-- The rows of a window, newest first, in three parts: those that are passed over, a page, and the rest.
pub record Page (sql : Sql) (device_id : String) (start end : Time) (limit offset : ℕ) (db : Db sql)
    : Type 0 where
  pub newer : List TelemetryRaw
  pub rows : List TelemetryRaw
  pub older : List TelemetryRaw
  pub all_rows :
      (q : TelemetryRaw → Bool)
      → count q (newer ++ rows ++ older)
        ≡ sql.count_where TelemetryRaw (λ r. within device_id start end r && q r) db.telemetry_raw
  pub newest_first : IsDescending TelemetryRaw.ts (newer ++ rows ++ older)
  pub skipped :
      length newer
      ≡ min offset (sql.count_where TelemetryRaw (within device_id start end) db.telemetry_raw)
  pub size :
      length rows
      ≡ min limit
          (sql.count_where TelemetryRaw (within device_id start end) db.telemetry_raw - offset)

module _ (sql : Sql) (device_id : String) (start end : Time) (db : Db sql) where
  -- the rows of the window, newest first
  window : List TelemetryRaw
  window =
      sql.order_by_desc TelemetryRaw TelemetryRaw.ts
        (sql.select TelemetryRaw (within device_id start end) db.telemetry_raw)

  length-window :
      length window ≡ sql.count_where TelemetryRaw (within device_id start end) db.telemetry_raw
  unfolding window
  length-window =
      sym (count_true window)
      ∙ sql.count-order_by_desc TelemetryRaw TelemetryRaw.ts (λ _. true)
          (sql.select TelemetryRaw (within device_id start end) db.telemetry_raw)
      ∙ count_true (sql.select TelemetryRaw (within device_id start end) db.telemetry_raw)
      ∙ length-select sql (within device_id start end) db.telemetry_raw

  window-IsDescending : IsDescending TelemetryRaw.ts window
  unfolding window
  window-IsDescending =
      sql.order_by_desc-IsDescending TelemetryRaw TelemetryRaw.ts
        (sql.select TelemetryRaw (within device_id start end) db.telemetry_raw)

  page : (limit offset : ℕ) → Page sql device_id start end limit offset db
  unfolding window
  page limit offset = record {
    newer = take offset window;
    rows = take limit (drop offset window);
    older = drop limit (drop offset window);
    all_rows = λ q.
        ap (count q) (parts limit offset)
        ∙ sql.count-order_by_desc TelemetryRaw TelemetryRaw.ts q
            (sql.select TelemetryRaw (within device_id start end) db.telemetry_raw)
        ∙ sql.count-select TelemetryRaw (within device_id start end) q db.telemetry_raw;
    newest_first =
        subst (IsDescending TelemetryRaw.ts) (sym (parts limit offset)) window-IsDescending;
    skipped = length-take offset window ∙ ap (min offset) length-window;
    size =
        length-take limit (drop offset window)
        ∙ ap (min limit) (length-drop offset window ∙ ap (λ n. n - offset) length-window);
  }
    where
      parts :
          (limit offset : ℕ)
          → take offset window ++ take limit (drop offset window) ++ drop limit (drop offset window)
            ≡ window
      parts limit offset =
          append_assoc (take offset window) _ _
          ∙ ap (λ l. take offset window ++ l) (take-append-drop limit (drop offset window))
          ∙ take-append-drop offset window

module _ (sql : Sql) (now : Time) (device_id : String) (start end : Option Time) (db : Db sql) where
  -- what the endpoint answers, when it answers
  response_page :
      (limit offset : ℕ) {r : HistoryResponse}
      → get_device_history sql now device_id start end limit offset db ≡ ok r
      → plain_response device_id (
          map raw_sample
            (page sql device_id
              (or_else start (now - hours 24))
              (or_else end now)
              db
              limit
              offset).rows)
        ≡ r
  unfolding get_device_history page window
  response_page limit offset h = by_device (get_device sql device_id db) refl h
    where
      by_device :
          (found : Result Device) {r : HistoryResponse}
          → get_device sql device_id db ≡ found
          → get_device_history sql now device_id start end limit offset db ≡ ok r
          → plain_response device_id (
              map raw_sample
                (page sql device_id
                  (or_else start (now - hours 24))
                  (or_else end now)
                  db
                  limit
                  offset).rows)
            ≡ r
      by_device (ok d) e k = ok-injective (rw e at k)
      by_device (err x) e k = absurd (cc (rw e at k))

-- A response of the endpoint for raw rows shows, one sample per row and column by column, the page of the
-- window (by default the 24 hours until now): of the device's rows in the window, all of them
-- taken newest first, the `offset` first are passed over and the next ones shown, up to `limit`. Its `count`
-- is the number of its samples.
pub history_window :
    (sql : Sql) (now : Time) (device_id : String) (start end : Option Time) (db : Db sql)
    (limit offset : ℕ) {r : HistoryResponse}
    → get_device_history sql now device_id start end limit offset db ≡ ok r
    → (r.count ≡ length r.samples)
      × ((p : Page sql device_id (or_else start (now - hours 24)) (or_else end now) limit offset db)
          × ShowAll r.samples p.rows)
unfolding plain_response page
history_window sql now device_id start end db limit offset h =
    let p = page sql device_id (or_else start (now - hours 24)) (or_else end now) db limit offset in
    subst
      (λ r.
        (r.count ≡ length r.samples)
        × ((p : Page sql device_id (or_else start (now - hours 24)) (or_else end now) limit offset
              db)
            × ShowAll r.samples p.rows))
      (response_page sql now device_id start end db limit offset h)
      (refl, (p, raw_samples-ShowAll p.rows))
