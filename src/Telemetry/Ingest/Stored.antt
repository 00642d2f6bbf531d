-- ===== src/Telemetry/Ingest/Stored.antt =====
-- What a flush leaves in telemetry_raw.
use mqtt_projeto_vena.Prelude.{
  ℕ, ◌+◌, ◌≤◌, ◌<◌, ◌≡◌, ◌∙◌, refl, ap, String, List, [], ◌∷◌, ◌⊎◌, Bool, true, arith, eq_iff,
  eq_refl, eqb, eqb_self, if◌then◌else◌,
}
use mqtt_projeto_vena.Sql.{Sql, one_if}
use mqtt_projeto_vena.Db.{TelemetryRaw, Time}
use mqtt_projeto_vena.Telemetry.Ingest.Rows.{Row}
use mqtt_projeto_vena.Telemetry.Ingest.Flush.{same_key, insert_rows}

-- the readings stored for a device at a time
abbrev pub stored : (sql : Sql) → sql.Table TelemetryRaw → (device_id : String) → (ts : Time) → ℕ
stored sql table device_id ts = sql.count_where TelemetryRaw (same_key device_id ts) table

-- some row of a list has the key
abbrev pub Holds : List Row → (device_id : String) → (ts : Time) → Type 0
Holds [] device_id ts = ⊥
Holds (r ∷ rs) device_id ts = ((r.device_id ≡ device_id) × (r.ts ≡ ts)) ⊎ Holds rs device_id ts

-- no two readings of a device at one time
abbrev pub IsKeyed : (sql : Sql) → sql.Table TelemetryRaw → Type 0
IsKeyed sql table = (device_id : String) (ts : Time) → stored sql table device_id ts ≤ 1

-- every row of a list has its key stored
abbrev pub AllStored : (sql : Sql) → List TelemetryRaw → sql.Table TelemetryRaw → Type 0
AllStored sql [] table = Unit
AllStored sql (t ∷ ts) table = (0 < stored sql table t.device_id t.ts) × AllStored sql ts table

same_key_self : (t : TelemetryRaw) → same_key t.device_id t.ts t ≡ true
same_key_self t = rw (eq_refl t.device_id) (eqb_self t.ts)

module _ (sql : Sql) where
  unfoldable pub one_row : TelemetryRaw → sql.Table TelemetryRaw → sql.Table TelemetryRaw
  one_row t table = sql.insert_or_nothing TelemetryRaw (same_key t.device_id t.ts) t table

  pub counted_one_row :
      (t : TelemetryRaw) (table : sql.Table TelemetryRaw) (q : TelemetryRaw → Bool)
      → sql.count_where TelemetryRaw q (one_row t table) ≡ (
          if eqb (stored sql table t.device_id t.ts) 0
          then one_if (q t) + sql.count_where TelemetryRaw q table
          else sql.count_where TelemetryRaw q table)
  unfolding one_row
  counted_one_row t table q = sql.count_where-insert_or_nothing TelemetryRaw _ t q table

  module _ (t : TelemetryRaw) (table : sql.Table TelemetryRaw) (device_id : String)
      (ts : Time) where
    -- a row does not take readings away
    one_row_grows : stored sql table device_id ts ≤ stored sql (one_row t table) device_id ts
    one_row_grows = ground (arith, counted_one_row t table (same_key device_id ts))

    pub same_as :
        same_key device_id ts t ≡ true
        → stored sql table t.device_id t.ts ≡ stored sql table device_id ts
    same_as same =
        ap (λ d. stored sql table d t.ts) (ground (arith, eq_iff t.device_id device_id))
        ∙ ap (λ u. stored sql table device_id u) (ground arith)

    one_row_keyed :
        stored sql table device_id ts ≤ 1 → stored sql (one_row t table) device_id ts ≤ 1
    one_row_keyed few = ground (arith, counted_one_row t table (same_key device_id ts), same_as)

  one_row-stored :
      (t : TelemetryRaw) (table : sql.Table TelemetryRaw)
      → 0 < stored sql (one_row t table) t.device_id t.ts
  one_row-stored t table =
      ground (arith, counted_one_row t table (same_key t.device_id t.ts), same_key_self t)

  -- a row whose key is stored changes nothing
  one_row_again :
      (t : TelemetryRaw) (table : sql.Table TelemetryRaw) (q : TelemetryRaw → Bool)
      → 0 < stored sql table t.device_id t.ts
      → sql.count_where TelemetryRaw q (one_row t table) ≡ sql.count_where TelemetryRaw q table
  one_row_again t table q there = ground (arith, counted_one_row t table q)

  pub insert_rows_grows :
      (ts : List TelemetryRaw) (table : sql.Table TelemetryRaw) (device_id : String) (at : Time)
      → stored sql table device_id at ≤ stored sql (insert_rows sql ts table) device_id at
  unfolding insert_rows one_row
  insert_rows_grows [] table device_id at = omega arith
  insert_rows_grows (t ∷ ts) table device_id at = omega (
    arith,
    one_row_grows t table device_id at,
    insert_rows_grows ts (one_row t table) device_id at,
  )

  pub insert_rows-IsKeyed :
      (ts : List TelemetryRaw) (table : sql.Table TelemetryRaw)
      → IsKeyed sql table
      → IsKeyed sql (insert_rows sql ts table)
  unfolding insert_rows one_row
  insert_rows-IsKeyed [] table h = h
  insert_rows-IsKeyed (t ∷ ts) table h =
      insert_rows-IsKeyed ts (one_row t table)
        (λ device_id at. one_row_keyed t table device_id at (h device_id at))

  AllStored-grows :
      (ts : List TelemetryRaw) (a b : sql.Table TelemetryRaw)
      → ((device_id : String) (at : Time) → stored sql a device_id at ≤ stored sql b device_id at)
      → AllStored sql ts a
      → AllStored sql ts b
  AllStored-grows [] a b h l = tt
  AllStored-grows (t ∷ ts) a b h l =
      (omega (arith, h t.device_id t.ts), AllStored-grows ts a b h l.1)

  pub insert_rows-AllStored :
      (ts : List TelemetryRaw) (table : sql.Table TelemetryRaw)
      → AllStored sql ts (insert_rows sql ts table)
  unfolding insert_rows one_row
  insert_rows-AllStored [] table = tt
  insert_rows-AllStored (t ∷ ts) table = (
    omega (arith, one_row-stored t table, insert_rows_grows ts (one_row t table) t.device_id t.ts),
    insert_rows-AllStored ts (one_row t table),
  )

  -- rows whose keys are stored change nothing
  pub insert_rows_again :
      (ts : List TelemetryRaw) (table : sql.Table TelemetryRaw) (q : TelemetryRaw → Bool)
      → AllStored sql ts table
      → sql.count_where TelemetryRaw q (insert_rows sql ts table)
        ≡ sql.count_where TelemetryRaw q table
  unfolding insert_rows one_row
  insert_rows_again [] table q l = refl
  insert_rows_again (t ∷ ts) table q l =
      insert_rows_again ts (one_row t table) q
        (AllStored-grows ts table (one_row t table) (one_row_grows t table) l.1)
      ∙ one_row_again t table q l.0
