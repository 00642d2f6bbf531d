-- ===== src/Telemetry/Ingest/Encoded.antt =====
-- backend/app/telemetry/ingest.py: the rows of a batch, encoded, and its devices.
use mathlib.Core.Path.{subst}
use mqtt_projeto_vena.Prelude.{
  ◌<◌, ◌≡◌, ◌∙◌, refl, sym, String, List, [], ◌∷◌, map, some, Bool, true, contains, keep,
  Bool-cases, inl, inr, All,
}
use mqtt_projeto_vena.Http.{ok}
use mqtt_projeto_vena.Http.Scalar.{>>=-eq-ok, ok-injective, require-eq-ok}
use mqtt_projeto_vena.Sql.{Sql}
use mqtt_projeto_vena.Db.{TelemetryRaw, Time}
use mqtt_projeto_vena.Telemetry.Ingest.Rows.{Row}
use mqtt_projeto_vena.Telemetry.Ingest.Flush.{Driver, fits_id, distinct, encode_all}
use mqtt_projeto_vena.Telemetry.Ingest.Stored.{stored, Holds, AllStored}

-- a row that the database accepts: its id fits the column, and its values fit theirs
abbrev pub Fits : Driver → Row → Type 0
Fits driver r = (fits_id r.device_id ≡ true) × ((t : TelemetryRaw) × (driver.encode r ≡ some t))

abbrev pub Writable : Driver → List Row → Type 0
Writable driver = All (Fits driver)

pub encode_all_ok :
    (driver : Driver) (rows : List Row)
    → Writable driver rows
    → (ts : List TelemetryRaw) × (encode_all driver rows ≡ ok ts)
unfolding encode_all
encode_all_ok driver [] w = ([], refl)
encode_all_ok driver (r ∷ rs) ((fits, (t, e)), w) =
    let (ts, h) = encode_all_ok driver rs w in (t ∷ ts, rw (e, h))

abbrev pub AllFit : List String → Type 0
AllFit = All (λ device_id. fits_id device_id ≡ true)

pub distinct-AllFit : (ids : List String) → AllFit ids → AllFit (distinct ids)
unfolding distinct
distinct-AllFit [] h = tt
distinct-AllFit (x ∷ xs) h = elim (Bool-cases (contains x (distinct xs))) [
  | inl e ↦ rw e (distinct-AllFit xs h.1)
  | inr e ↦ rw e (h.0, distinct-AllFit xs h.1)
]

pub keep-AllFit : (p : String → Bool) (ids : List String) → AllFit ids → AllFit (keep p ids)
keep-AllFit p [] h = tt
keep-AllFit p (x ∷ xs) h = elim (Bool-cases (p x)) [
  | inl e ↦ rw e (h.0, keep-AllFit p xs h.1)
  | inr e ↦ rw e (keep-AllFit p xs h.1)
]

pub ids-AllFit :
    (driver : Driver) (rows : List Row)
    → Writable driver rows
    → AllFit (map (λ r. r.device_id) rows)
ids-AllFit driver [] w = tt
ids-AllFit driver (r ∷ rs) w = (w.0.0, ids-AllFit driver rs w.1)

stored-eq :
    (sql : Sql) (table : sql.Table TelemetryRaw) {d device_id : String} {u at : Time}
    → d ≡ device_id
    → u ≡ at
    → 0 < stored sql table d u
    → 0 < stored sql table device_id at
stored-eq sql table {device_id = device_id} {u = u} p q h =
    subst (λ k. 0 < stored sql table device_id k) q (subst (λ k. 0 < stored sql table k u) p h)

-- the keys of encoded rows are those of the rows
pub Holds-stored :
    (sql : Sql) (driver : Driver) (rows : List Row) (ts : List TelemetryRaw)
    (table : sql.Table TelemetryRaw) (device_id : String) (at : Time)
    → encode_all driver rows ≡ ok ts
    → AllStored sql ts table
    → Holds rows device_id at
    → 0 < stored sql table device_id at
unfolding encode_all
Holds-stored sql driver [] ts table device_id at e l h = elim h [ ]
Holds-stored sql driver (r ∷ rs) ts table device_id at e l h =
    let (t, e1, h1) = >>=-eq-ok _ _ e in
    let (us, e2, h2) = >>=-eq-ok _ _ h1 in
    let code = require-eq-ok _ _ e1 in
    let l' : AllStored sql (t ∷ us) table =
      subst (λ k. AllStored sql k table) (sym (ok-injective h2)) l in
    elim h [
      | inl here ↦
          stored-eq sql table (driver.encode-device_id r t code ∙ here.0)
            (driver.encode-ts r t code ∙ here.1) l'.0
      | inr there ↦ Holds-stored sql driver rs us table device_id at e2 l'.1 there
    ]
