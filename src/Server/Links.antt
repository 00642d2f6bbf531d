-- ===== src/Server/Links.antt =====
-- backend/app/db/models.py: the foreign keys. A row that names a user or a device is a row of one that
-- is there.
use mathlib.Core.Path.{subst}
use mqtt_projeto_vena.Prelude.{
  ◌≡◌, ◌∙◌, sym, ap, ◌≤◌, ◌<◌, ◌+◌, ℕ, String, [], ◌∷◌, List, ◌==◌, ◌&&◌, arith, eq_iff, Bool-cases,
  inl, inr, Bool, true, All, count, eqb,
}
use mqtt_projeto_vena.Sql.{Sql, one_if}
use mqtt_projeto_vena.Sql.Counts.{count_where_mono}
use mqtt_projeto_vena.Db.{Db, User, UserDevice, RefreshToken, TelemetryRaw}
use mqtt_projeto_vena.Telemetry.Ingest.Flush.{same_key, insert_rows}
use mqtt_projeto_vena.Server.Frames.{devices_of, Refers, MetaLinked, DevicesOnly}
use mqtt_projeto_vena.Server.Ingested.{FlushWrote}

-- the users of an id
abbrev pub users_of : (sql : Sql) → Db sql → (id : String) → ℕ
users_of sql db id = sql.count_where User (λ u. u.id == id) db.users

abbrev pub claims_by : (sql : Sql) → sql.Table UserDevice → (user_id : String) → ℕ
claims_by sql t user_id = sql.count_where UserDevice (λ c. c.user_id == user_id) t

abbrev pub claims_on : (sql : Sql) → sql.Table UserDevice → (device_id : String) → ℕ
claims_on sql t device_id = sql.count_where UserDevice (λ c. c.device_id == device_id) t

abbrev pub tokens_of : (sql : Sql) → sql.Table RefreshToken → (user_id : String) → ℕ
tokens_of sql t user_id = sql.count_where RefreshToken (λ r. r.user_id == user_id) t

abbrev pub readings_of : (sql : Sql) → sql.Table TelemetryRaw → (device_id : String) → ℕ
readings_of sql t device_id = sql.count_where TelemetryRaw (λ r. r.device_id == device_id) t

-- Every claim is of a user and on a device, every refresh token is of a user, and every reading and every
-- row of device_meta is of a device, that there is.
pub record Linked (sql : Sql) (db : Db sql) : Type 0 where
  pub claim_of : (x : String) → Refers (claims_by sql db.user_devices x) (users_of sql db x)
  pub claim_on : (x : String) → Refers (claims_on sql db.user_devices x) (devices_of sql db x)
  pub token_user : (x : String) → Refers (tokens_of sql db.refresh_tokens x) (users_of sql db x)
  pub reading : (x : String) → Refers (readings_of sql db.telemetry_raw x) (devices_of sql db x)
  pub meta : MetaLinked sql db

-- as many rows that refer, and no fewer to refer to
pub refers_same : {n n' m m' : ℕ} → n' ≡ n → m ≤ m' → Refers n m → Refers n' m'
refers_same e le (inl z) = inl (e ∙ z)
refers_same e le (inr h) = inr (omega arith)

-- a row more, that refers to a row that is there
pub refers_added : {n m : ℕ} (b : Bool) → (b ≡ true → 0 < m) → Refers n m → Refers (one_if b + n) m
refers_added b there h = elim (Bool-cases b) [
  | inl e ↦ inr (there e)
  | inr e ↦ rw e (refers_same (omega arith) (omega arith) h)
]

module _ (sql : Sql) where
  -- the one row of a SELECT is in the table
  pub selected_there :
      (R : Type 0) (p q : R → Bool) (t : sql.Table R) (x : R)
      → sql.select R p t ≡ x ∷ []
      → q x ≡ true
      → 0 < sql.count_where R q t
  selected_there R p q t x e h = omega (
    arith,
    sql.count-select R p q t,
    selected,
    count_where_mono sql (λ r. p r && q r) q t (λ r. ground arith),
  )
    where
      selected : count q (sql.select R p t) ≡ 1
      selected = rw (e, h)

  pub same_id : (a b : String) → (a == b) ≡ true → (f : String → ℕ) → 0 < f a → 0 < f b
  same_id a b e f h = subst (λ k. 0 < f k) ((eq_iff a b).0 e) h

  pub DevicesOnly-Linked :
      {before after : Db sql} → DevicesOnly sql before after → Linked sql before → Linked sql after
  DevicesOnly-Linked {before} {after} d w = record {
    claim_of =
        λ x. refers_same (ap (λ t. claims_by sql t x) d.user_devices) (users_kept x) (w.claim_of x);
    claim_on =
        λ x. refers_same (ap (λ t. claims_on sql t x) d.user_devices) (d.grow x) (w.claim_on x);
    token_user = λ x.
        refers_same (ap (λ t. tokens_of sql t x) d.refresh_tokens) (users_kept x) (w.token_user x);
    reading =
        λ x. refers_same (ap (λ t. readings_of sql t x) d.telemetry_raw) (d.grow x) (w.reading x);
    meta = d.metas w.meta;
  }
    where
      users_kept : (x : String) → users_of sql before x ≤ users_of sql after x
      users_kept x = omega (arith, ap (λ t. sql.count_where User (λ u. u.id == x) t) d.users)

  insert_rows-Refers :
      (ts : List TelemetryRaw) (db : Db sql) (table : sql.Table TelemetryRaw)
      → All (λ t. 0 < devices_of sql db t.device_id) ts
      → ((x : String) → Refers (readings_of sql table x) (devices_of sql db x))
      → (x : String) → Refers (readings_of sql (insert_rows sql ts table) x) (devices_of sql db x)
  unfolding insert_rows
  insert_rows-Refers [] db table known h = h
  insert_rows-Refers (t ∷ ts) db table known h =
      insert_rows-Refers ts db
        (sql.insert_or_nothing TelemetryRaw (same_key t.device_id t.ts) t table) known.1
        λ x.
          subst (λ n. Refers n (devices_of sql db x))
            (sym (sql.count_where-insert_or_nothing TelemetryRaw _ t _ table))
            (elim (Bool-cases
              (eqb (sql.count_where TelemetryRaw (same_key t.device_id t.ts) table) 0)) [
                | inl e ↦ rw e (
                    refers_added (t.device_id == x)
                      (λ same. same_id t.device_id x same (devices_of sql db) known.0) (h x))
                | inr e ↦ rw e (h x)
              ])

  pub flush-Linked :
      {before after : Db sql} → FlushWrote sql before after → Linked sql before → Linked sql after
  flush-Linked f w =
      let kept : Linked sql f.seen_db = DevicesOnly-Linked f.only w in
      subst (Linked sql) (sym f.wrote) (record {
        claim_of = kept.claim_of;
        claim_on = kept.claim_on;
        token_user = kept.token_user;
        reading =
            insert_rows-Refers f.encoded f.seen_db f.seen_db.telemetry_raw f.known kept.reading;
        meta = kept.meta;
      })
