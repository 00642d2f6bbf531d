-- ===== src/Migrations/Schema.antt =====
-- The tables that a chain of migrations leaves, against those of backend/app/db/models.py.
use mathlib.Core.Path.{subst}
use mathlib.Core.List.{append_assoc, append-nil}
use mqtt_projeto_vena.Prelude.{
  without, ◌≡◌, ◌∙◌, refl, sym, ap, String, List, [], ◌∷◌, ◌++◌, Option, none, some, Bool, true,
  false, ◌||◌, ◌==◌, contains, lookup, Bool-cases, inl, inr, eq_iff, if◌then◌else◌,
}
use mqtt_projeto_vena.Http.{ok}
use mqtt_projeto_vena.Http.Scalar.{>>=-eq-ok, ok-injective}
use mqtt_projeto_vena.Migrations.{
  Column, Constraint, primary_key_constraint, unique_constraint, foreign_key_constraint, Statement,
  create_table, drop_table, Postgres, Answers, ask, execute_all, upgrade_all,
}
use mqtt_projeto_vena.Migrations.Revisions.{
  Revision, descricao, add_telemetry_raw, convert_hypertable, create_telemetry_hourly,
  create_telemetry_daily, add_refresh_tokens, supabase_index, pg_cron_cleanup, device_meta,
  revisions, upgrade, hypertable, telemetry_hourly, telemetry_daily, cleanup, lineage,
  down_revision, create_devices, create_users, create_user_devices, create_telemetry_raw,
  create_refresh_tokens, create_device_meta,
}
use mqtt_projeto_vena.Migrations.Models.{
  ColumnSpec, metadata, users_columns, devices_columns, user_devices_columns,
  refresh_tokens_columns, telemetry_raw_columns, device_meta_columns,
}

-- Tables by name, with what their statements say of each column.
abbrev pub Catalogue : Type 0
Catalogue = List (String × List ColumnSpec)

unfoldable pub in_primary_key : String → List Constraint → Bool
in_primary_key c [] = false
in_primary_key c (primary_key_constraint columns ∷ ks) = contains c columns || in_primary_key c ks
in_primary_key c (_ ∷ ks) = in_primary_key c ks

unfoldable pub is_unique : String → List Constraint → Bool
is_unique c [] = false
is_unique c (unique_constraint column ∷ ks) = c == column || is_unique c ks
is_unique c (_ ∷ ks) = is_unique c ks

unfoldable pub referred : String → List Constraint → Option (String × String)
referred c [] = none
referred c (foreign_key_constraint column table other ∷ ks) =
    let rest = referred c ks in if c == column then some (table, other) else rest
referred c (_ ∷ ks) = referred c ks

unfoldable pub specs : List Column → List Constraint → List ColumnSpec
specs [] ks = []
specs (c ∷ cs) ks =
    record {
      name = c.name;
      type_ = c.type_;
      nullable = c.nullable;
      now = c.now;
      primary_key = c.primary_key || in_primary_key c.name ks;
      unique = is_unique c.name ks;
      references = referred c.name ks;
    }
    ∷ specs cs ks

-- what one statement does to the tables
unfoldable pub replay_one : Statement → Catalogue → Catalogue
replay_one (create_table name columns constraints) tables =
    tables ++ (name, specs columns constraints) ∷ []
replay_one (drop_table name) tables = without name tables
replay_one _ tables = tables

unfoldable pub replay : List Statement → Catalogue → Catalogue
replay [] tables = tables
replay (st ∷ sts) tables = replay sts (replay_one st tables)

pub replay-append :
    (a b : List Statement) (tables : Catalogue)
    → replay (a ++ b) tables ≡ replay b (replay a tables)
unfolding replay
replay-append [] b tables = refl
replay-append (st ∷ a) b tables = replay-append a b (replay_one st tables)

-- the tables that a revision adds, whatever it is answered
unfoldable pub created : Revision → Catalogue
created descricao =
    ("devices", devices_columns)
    ∷ ("users", users_columns)
    ∷ ("user_devices", user_devices_columns)
    ∷ []
created add_telemetry_raw = ("telemetry_raw", telemetry_raw_columns) ∷ []
created add_refresh_tokens = ("refresh_tokens", refresh_tokens_columns) ∷ []
created device_meta = ("device_meta", device_meta_columns) ∷ []
created _ = []

-- statements under a condition that leave the tables alone
replay-when :
    (b : Bool) (sts : List Statement) (tables : Catalogue)
    → replay sts tables ≡ tables
    → replay (if b then sts else []) tables ≡ tables ++ []
unfolding replay
replay-when true sts tables h = h ∙ sym (append-nil tables)
replay-when false sts tables h = sym (append-nil tables)

replay-unless :
    (b : Bool) (sts : List Statement) (tables : Catalogue)
    → replay sts tables ≡ tables ++ []
    → replay (if b then [] else sts) tables ≡ tables ++ []
unfolding replay
replay-unless true sts tables h = sym (append-nil tables)
replay-unless false sts tables h = h

append-three {ℓ} :
    {A : Type ℓ} (l : List A) (a b c : A)
    → ((l ++ a ∷ []) ++ b ∷ []) ++ c ∷ [] ≡ l ++ a ∷ b ∷ c ∷ []
append-three [] a b c = refl
append-three (x ∷ l) a b c = ap (λ t. x ∷ t) (append-three l a b c)

pub replay-upgrade :
    (r : Revision) (a : Answers) (tables : Catalogue)
    → replay (upgrade r a) tables ≡ tables ++ created r
unfolding replay replay_one specs in_primary_key is_unique referred upgrade created hypertable
    telemetry_hourly telemetry_daily cleanup create_devices create_users create_user_devices
    create_telemetry_raw create_refresh_tokens create_device_meta users_columns devices_columns
    user_devices_columns refresh_tokens_columns telemetry_raw_columns device_meta_columns
replay-upgrade descricao a tables = append-three tables _ _ _
replay-upgrade add_telemetry_raw a tables = refl
replay-upgrade convert_hypertable a tables = replay-when a.timescaledb_available _ tables refl
replay-upgrade create_telemetry_hourly a tables = replay-when a.timescaledb_active _ tables refl
replay-upgrade create_telemetry_daily a tables = replay-when a.timescaledb_active _ tables refl
replay-upgrade add_refresh_tokens a tables = refl
replay-upgrade supabase_index a tables = sym (append-nil tables)
replay-upgrade pg_cron_cleanup a tables =
    replay-unless a.timescaledb_active _ tables (replay-when a.pg_cron_available _ tables refl)
replay-upgrade device_meta a tables = refl

unfoldable pub created_all : List Revision → Catalogue
created_all [] = []
created_all (r ∷ rs) = created r ++ created_all rs

module _ (pg : Postgres) where
  -- the tables after a chain
  replay-upgrade_all :
      (rs : List Revision) (s : pg.State) {end : pg.State} {log : List Statement}
      (tables : Catalogue)
      → upgrade_all pg upgrade rs s ≡ ok (end, log)
      → replay log tables ≡ tables ++ created_all rs
  unfolding upgrade_all created_all replay
  replay-upgrade_all [] s {log = log} tables h =
      ap (λ l. replay l tables) (sym (ap (λ p. p.1) (ok-injective h))) ∙ sym (append-nil tables)
  replay-upgrade_all (r ∷ rs) s tables h =
      let (s1, e1, h1) = >>=-eq-ok (execute_all pg (upgrade r (ask pg s)) s) _ h in
      let ((end, rest), e2, h2) = >>=-eq-ok (upgrade_all pg upgrade rs s1) _ h1 in
      ap (λ p. replay p.1 tables) (sym (ok-injective h2))
      ∙ replay-append (upgrade r (ask pg s)) rest tables
      ∙ ap (replay rest) (replay-upgrade r (ask pg s) tables)
      ∙ replay-upgrade_all rs s1 (tables ++ created r) e2
      ∙ append_assoc tables (created r) (created_all rs)

same_tables : (name : String) → lookup name (created_all revisions) ≡ lookup name metadata
unfolding created_all created revisions lineage down_revision metadata
same_tables name = elim (Bool-cases ("users" == name)) [
  | inl e ↦
      subst (λ n. lookup n (created_all revisions) ≡ lookup n metadata) ((eq_iff _ _).0 e) refl
  | inr e ↦ elim (Bool-cases ("refresh_tokens" == name)) [
    | inl f ↦
        subst (λ n. lookup n (created_all revisions) ≡ lookup n metadata) ((eq_iff _ _).0 f) refl
    | inr f ↦ rw (e, f)
  ]
]

module _ (pg : Postgres) where
  -- On every server, whatever extensions it offers, an upgrade of the whole chain that succeeds from no
  -- table leaves the tables of models.py and no other, each with the columns, types, keys and
  -- defaults that models.py declares.
  pub upgrade-metadata :
      (s : pg.State) {end : pg.State} {log : List Statement} (name : String)
      → upgrade_all pg upgrade revisions s ≡ ok (end, log)
      → lookup name (replay log []) ≡ lookup name metadata
  upgrade-metadata s name h =
      ap (lookup name) (replay-upgrade_all pg revisions s [] h) ∙ same_tables name
