-- ===== src/Telemetry/Aggregation.antt =====
-- backend/app/telemetry/aggregation.py. A timedelta is in microseconds, a dict a list of pairs.
pub mod Validation
use Prim.Native.Char.{Char, code}
use Prim.Native.String
use mqtt_projeto_vena.Prelude.{
  ℕ, ◌*◌, String, List, [], ◌∷◌, ◌++◌, Option, none, some, Bool, true, false, not, ◌||◌, ◌&&◌, ◌==◌,
  ◌<>◌, lookup, contains, keep, map, split, join, eqb, leb, if◌then◌else◌,
}
use mqtt_projeto_vena.Http.{
  Result, ok, err, uncaught, value_error, key_error, ◌>>=◌, ◌>>◌, guard, require,
}
use mqtt_projeto_vena.Db.{Time, second}

abbrev pub hours : ℕ → Time
hours n = n * 3600 * second

abbrev pub range_to_timedelta : List (String × Time)
range_to_timedelta =
    ("1h", hours 1)
    ∷ ("6h", hours 6)
    ∷ ("24h", hours 24)
    ∷ ("7d", hours (7 * 24))
    ∷ ("30d", hours (30 * 24))
    ∷ ("90d", hours (90 * 24))
    ∷ ("1y", hours (365 * 24))
    ∷ []

abbrev pub allowed_buckets : List String
allowed_buckets = "auto" ∷ "5s" ∷ "1m" ∷ "1h" ∷ "1d" ∷ []

abbrev pub bucket_to_date_trunc : List (String × String)
bucket_to_date_trunc = ("1m", "minute") ∷ ("1h", "hour") ∷ ("1d", "day") ∷ []

abbrev pub all_metrics : List String
all_metrics = "ambient_t" ∷ "ambient_h" ∷ "diss_t" ∷ "diss_h" ∷ "setpoint" ∷ "pid_out" ∷ []

abbrev pub min_max_metrics : List String
min_max_metrics = "ambient_t" ∷ "ambient_h" ∷ "diss_t" ∷ "diss_h" ∷ []

abbrev pub default_buckets : List (String × String)
default_buckets =
    ("1h", "5s")
    ∷ ("6h", "5s")
    ∷ ("24h", "1m")
    ∷ ("7d", "1h")
    ∷ ("30d", "1h")
    ∷ ("90d", "1d")
    ∷ ("1y", "1d")
    ∷ []

unfoldable pub choose_bucket : (range : String) → Result String
choose_bucket range = require (lookup range default_buckets) (uncaught key_error)

unfoldable pub parse_range : (range : String) → Result Time
parse_range range = require (lookup range range_to_timedelta) (uncaught value_error)

unfoldable pub resolve_bucket : (range bucket : String) → Result String
resolve_bucket range bucket =
    let chosen = choose_bucket range in
    if contains bucket allowed_buckets
    then (if bucket == "auto" then chosen else ok bucket)
    else err (uncaught value_error)

unfoldable pub date_trunc_field : (bucket : String) → Result String
date_trunc_field bucket = require (lookup bucket bucket_to_date_trunc) (uncaught value_error)

-- the code points that `str.strip` takes away
unfoldable pub is_space : ℕ → Bool
is_space c =
    leb 9 c && leb c 13
    || leb 28 c && leb c 32
    || eqb c 0x85
    || eqb c 0xa0
    || eqb c 0x1680
    || leb 0x2000 c && leb c 0x200a
    || eqb c 0x2028
    || eqb c 0x2029
    || eqb c 0x202f
    || eqb c 0x205f
    || eqb c 0x3000

unfoldable pub strip_left : String → String
unfolding is_space
strip_left String.[] = String.[]
strip_left (String.◌∷◌ c s) =
    let rest = strip_left s in if is_space (code c) then rest else String.◌∷◌ c s

unfoldable pub strip_right : String → String
unfolding is_space
strip_right String.[] = String.[]
strip_right (String.◌∷◌ c s) =
    let rest = strip_right s in
    if rest == "" && is_space (code c) then String.[] else String.◌∷◌ c rest

-- `text.strip()`
unfoldable pub strip : String → String
unfolding strip_left strip_right
strip s = strip_right (strip_left s)

-- `tuple(m.strip() for m in metric.split(",") if m.strip())`
unfoldable pub requested_metrics : (metric : String) → List String
requested_metrics metric = keep (λ m. not (m == "")) (map strip (split b',' metric))

-- `if unknown: raise`
unfoldable pub check_known : (unknown requested : List String) → Result (List String)
check_known [] requested = ok requested
check_known (u ∷ us) requested = err (uncaught value_error)

-- `if not requested: raise`, and the unknown names
unfoldable pub check_metrics : List String → Result (List String)
unfolding check_known
check_metrics [] = err (uncaught value_error)
check_metrics (m ∷ ms) = check_known (keep (λ x. not (contains x all_metrics)) (m ∷ ms)) (m ∷ ms)

unfoldable pub parse_metrics : (metric : String) → Result (List String)
unfolding requested_metrics check_metrics
parse_metrics metric =
    if metric == "all" then ok all_metrics else check_metrics (requested_metrics metric)

unfoldable pub has_min_max : (metric : String) → Bool
has_min_max metric = contains metric min_max_metrics

-- An item of the SELECT list: an expression and the name of its column.
pub record SelectPart : Type 0 where
  pub expression : String
  pub alias : String

abbrev pub part : (expression alias : String) → SelectPart
part expression alias = record { expression = expression; alias = alias }

-- the items of one metric
unfoldable pub metric_parts : (metric : String) → List SelectPart
unfolding has_min_max
metric_parts m =
    part ("AVG(" <> m <> ")") (m <> "_avg")
    ∷ (if has_min_max m
        then part ("MIN(" <> m <> ")") (m <> "_min") ∷ part ("MAX(" <> m <> ")") (m <> "_max") ∷ []
        else [])

unfoldable pub all_metric_parts : List String → List SelectPart
all_metric_parts [] = []
all_metric_parts (m ∷ ms) = metric_parts m ++ all_metric_parts ms

unfoldable pub select_parts : (field : String) → List String → List SelectPart
select_parts field metrics =
    part ("date_trunc('" <> field <> "', ts)") "bucket"
    ∷ (all_metric_parts metrics ++ part "COUNT(*)" "sample_count" ∷ [])

abbrev pub render : SelectPart → String
render p = p.expression <> " AS " <> p.alias

unfoldable pub build_aggregate_sql : (bucket : String) → List String → Result String
build_aggregate_sql bucket metrics = do
  field ← date_trunc_field bucket
  ok (
      "SELECT "
      <> join ", " (map render (select_parts field metrics))
      <> " FROM telemetry_raw WHERE device_id = :device_id   AND ts >= :start_ts   AND ts <  :end_ts GROUP BY 1 ORDER BY 1")
