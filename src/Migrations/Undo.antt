-- ===== src/Migrations/Undo.antt =====
-- Downgrades: what they undo, and which of them cannot succeed.
use mathlib.Core.Path.{subst}
use mathlib.Core.List.{append-nil}
use mqtt_projeto_vena.Prelude.{
  Option, some, Bool, ◌||◌, ◌==◌, ◌≢◌, is_none, Bool-cases, if◌then◌else◌, without, without-append,
  without-absent, ◌≡◌, ◌∙◌, refl, sym, ap, String, List, [], ◌∷◌, ◌++◌, ◌⊎◌, inl, inr, none, false,
  lookup, All,
}
use mqtt_projeto_vena.Http.{Result, ok, err, Error}
use mqtt_projeto_vena.Http.Scalar.{ok-injective}
use mqtt_projeto_vena.Migrations.Models.{
  ColumnSpec, users_columns, devices_columns, user_devices_columns, refresh_tokens_columns,
  telemetry_raw_columns, device_meta_columns,
}
use mqtt_projeto_vena.Migrations.{
  drop_table, do_run_migrations, Statement, Postgres, Answers, execute_all, downgrade_all, pg_cron,
  unschedule,
}
use mqtt_projeto_vena.Migrations.Revisions.{
  drop_all, job_name, Revision, descricao, add_telemetry_raw, convert_hypertable,
  create_telemetry_hourly, create_telemetry_daily, add_refresh_tokens, supabase_index,
  pg_cron_cleanup, device_meta, upgrade, downgrade,
}
use mqtt_projeto_vena.Migrations.Chain.{creating, execute_all-active}
use mqtt_projeto_vena.Migrations.Schema.{Catalogue, replay_one, replay, created, replay-upgrade}

-- a table that is dropped from behind others
drop-append :
    (name : String) (tables new : Catalogue)
    → lookup name tables ≡ none
    → without name (tables ++ new) ≡ tables ++ without name new
drop-append name tables new h =
    without-append name tables new ∙ ap (λ l. l ++ without name new) (without-absent name tables h)

-- some table has a column that refers to one of this name
unfoldable pub refers_to : (name : String) → List ColumnSpec → Bool
refers_to name [] = false
refers_to name (c ∷ cs) =
    elim c.references [ none ↦ false | some (table, column) ↦ table == name ] || refers_to name cs

unfoldable pub is_referred : (name : String) → Catalogue → Bool
is_referred name [] = false
is_referred name ((n, columns) ∷ tables) = refers_to name columns || is_referred name tables

-- What the statements leave, or nothing where the server refuses a DROP TABLE: of a table that is not
-- there, and of one that another refers to.
unfoldable pub replay_safely : List Statement → Catalogue → Option Catalogue
replay_safely [] tables = some tables
replay_safely (drop_table name ∷ sts) tables =
    let rest = replay_safely sts (without name tables) in
    if is_none (lookup name tables) || is_referred name tables then none else rest
replay_safely (st ∷ sts) tables = replay_safely sts (replay_one st tables)

lookup-append :
    (name : String) (tables new : Catalogue)
    → lookup name tables ≡ none
    → lookup name (tables ++ new) ≡ lookup name new
lookup-append name [] new h = refl
lookup-append name ((n, cs) ∷ tables) new h = elim (Bool-cases (n == name)) [
  | inl e ↦ cc (rw e at h)
  | inr e ↦ rw e (lookup-append name tables new (rw e at h))
]

is_referred-append :
    (name : String) (tables new : Catalogue)
    → is_referred name tables ≡ false
    → is_referred name (tables ++ new) ≡ is_referred name new
unfolding is_referred
is_referred-append name [] new h = refl
is_referred-append name ((n, cs) ∷ tables) new h = elim (Bool-cases (refers_to name cs)) [
  | inl e ↦ cc (rw e at h)
  | inr e ↦ rw e (is_referred-append name tables new (rw e at h))
]

-- neither there nor referred to
abbrev pub Unknown : Catalogue → String → Type 0
Unknown tables name = (lookup name tables ≡ none) × (is_referred name tables ≡ false)

-- a table that is dropped from among new ones
drop_new :
    (name : String) (sts : List Statement) (tables new : Catalogue)
    → Unknown tables name
    → is_none (lookup name new) ≡ false
    → is_referred name new ≡ false
    → replay_safely (drop_table name ∷ sts) (tables ++ new)
      ≡ replay_safely sts (tables ++ without name new)
unfolding replay_safely
drop_new name sts tables new (absent, free) there unreferred =
    rw
      (
        lookup-append name tables new absent,
        is_referred-append name tables new free,
        there,
        unreferred,
      )
      (ap (replay_safely sts) (drop-append name tables new absent))

undone_one :
    (name : String) (tables new : Catalogue)
    → Unknown tables name
    → is_none (lookup name new) ≡ false
    → is_referred name new ≡ false
    → without name new ≡ []
    → replay_safely (drop_table name ∷ []) (tables ++ new) ≡ some tables
unfolding replay_safely
undone_one name tables new unknown there free gone =
    drop_new name [] tables new unknown there free
    ∙ ap (λ l. some (tables ++ l)) gone
    ∙ ap some (append-nil tables)

undone_three :
    (tables : Catalogue)
    → All (λ t. Unknown tables t.0) (created descricao)
    → replay_safely drop_all (tables ++ created descricao) ≡ some tables
unfolding created without is_referred refers_to users_columns devices_columns user_devices_columns
undone_three tables (devices, (users, (user_devices, u))) =
    drop_new "user_devices" _ tables (created descricao) user_devices refl refl
    ∙ drop_new "users" _ tables _ users refl refl
    ∙ undone_one "devices" tables _ devices refl refl refl

safely-eq :
    (from : Catalogue) {l statements : List Statement} {tables : Catalogue}
    → ok l ≡ ok statements
    → replay_safely l from ≡ some tables
    → replay_safely statements from ≡ some tables
safely-eq from {tables = tables} h e =
    subst (λ l. replay_safely l from ≡ some tables) (ok-injective h) e

undone :
    (r : Revision) (tables : Catalogue) (statements : List Statement)
    → downgrade r ≡ ok statements
    → created r ≢ []
    → All (λ t. Unknown tables t.0) (created r)
    → replay_safely statements (tables ++ created r) ≡ some tables
unfolding without downgrade created is_referred refers_to refresh_tokens_columns
    telemetry_raw_columns device_meta_columns
undone descricao tables statements h new fresh = safely-eq _ h (undone_three tables fresh)
undone add_telemetry_raw tables statements h new fresh =
    safely-eq _ h (undone_one "telemetry_raw" tables _ fresh.0 refl refl refl)
undone convert_hypertable tables statements h new fresh = absurd (new refl)
undone create_telemetry_hourly tables statements h new fresh = absurd (new refl)
undone create_telemetry_daily tables statements h new fresh = absurd (new refl)
undone add_refresh_tokens tables statements h new fresh =
    safely-eq _ h (undone_one "refresh_tokens" tables _ fresh.0 refl refl refl)
undone supabase_index tables statements h new fresh = absurd (new refl)
undone pg_cron_cleanup tables statements h new fresh = absurd (new refl)
undone device_meta tables statements h new fresh =
    safely-eq _ h (undone_one "device_meta" tables _ fresh.0 refl refl refl)

-- A revision that creates tables is undone by its downgrade: from tables among which are none that the
-- revision creates, and none that refer to those, the upgrade and then the downgrade lead back to the same
-- tables, and no DROP TABLE is refused, for a table that is not there or that another refers
-- to. Indexes, views and extensions are not looked at.
pub upgrade-downgrade :
    (r : Revision) (a : Answers) (tables : Catalogue) (statements : List Statement)
    → downgrade r ≡ ok statements
    → created r ≢ []
    → All (λ t. Unknown tables t.0) (created r)
    → replay_safely statements (replay (upgrade r a) tables) ≡ some tables
upgrade-downgrade r a tables statements h new fresh =
    ap (replay_safely statements) (replay-upgrade r a tables)
    ∙ undone r tables statements h new fresh

abbrev pub Includes : Revision → List Revision → Type 0
Includes r [] = ⊥
Includes r (x ∷ rs) = (x ≡ r) ⊎ Includes r rs

Result-cases : {A : Type 0} (m : Result A) → ((a : A) × (m ≡ ok a)) ⊎ ((e : Error) × (m ≡ err e))
Result-cases (ok a) = inl (a, refl)
Result-cases (err e) = inr (e, refl)

creating-eq :
    {l statements : List Statement}
    → ok l ≡ ok statements
    → creating l pg_cron ≡ false
    → creating statements pg_cron ≡ false
creating-eq h e = subst (λ l. creating l pg_cron ≡ false) (ok-injective h) e

no_extension :
    (r : Revision) (statements : List Statement)
    → downgrade r ≡ ok statements
    → creating statements pg_cron ≡ false
unfolding downgrade creating
no_extension convert_hypertable statements h = cc
no_extension descricao statements h = creating-eq h refl
no_extension add_telemetry_raw statements h = creating-eq h refl
no_extension create_telemetry_hourly statements h = creating-eq h refl
no_extension create_telemetry_daily statements h = creating-eq h refl
no_extension add_refresh_tokens statements h = creating-eq h refl
no_extension supabase_index statements h = creating-eq h refl
no_extension pg_cron_cleanup statements h = creating-eq h refl
no_extension device_meta statements h = creating-eq h refl

module _ (pg : Postgres) where
  -- where pg_cron is not active
  abbrev Inactive : pg.State → Type 0
  Inactive s = pg.is_active pg_cron s ≡ false

  abbrev Fails : List Revision → pg.State → Type 0
  Fails rs s = (e : Error) × (downgrade_all pg downgrade rs s ≡ err e)

  cron_fails :
      (s : pg.State) {s' : pg.State}
      → Inactive s
      → execute_all pg (unschedule job_name ∷ []) s ≡ ok s'
      → ⊥
  unfolding execute_all
  cron_fails s h e = cc (rw (pg.execute-unschedule job_name s h) at e)

  -- A revision that fails, or one that is passed.
  passing :
      (r : Revision) (rs : List Revision) (s : pg.State)
      → ((statements : List Statement) (s1 : pg.State)
          → downgrade r ≡ ok statements
          → execute_all pg statements s ≡ ok s1
          → Fails rs s1)
      → Fails (r ∷ rs) s
  unfolding downgrade_all
  passing r rs s h = elim (Result-cases (downgrade r)) [
    | inr (e, raised) ↦ (e, rw raised)
    | inl (statements, given) ↦ elim (Result-cases (execute_all pg statements s)) [
      | inr (e, refused) ↦ (e, rw (given, refused))
      | inl (s1, executed) ↦
          let (e, failed) = h statements s1 given executed in (e, rw (given, executed) failed)
    ]
  ]

  past_cron :
      (rs : List Revision) (s : pg.State) → Inactive s → Includes pg_cron_cleanup rs → Fails rs s
  unfolding downgrade
  past_cron [] s inactive there = elim there [ ]
  past_cron (r ∷ rs) s inactive (inl here) = passing r rs s λ statements s1 given executed. absurd (
      cron_fails s inactive (
        subst (λ l. execute_all pg l s ≡ ok s1)
          (ok-injective (sym (sym (ap downgrade here) ∙ given))) executed))
  past_cron (r ∷ rs) s inactive (inr later) = passing r rs s λ statements s1 given executed.
      past_cron rs s1
        (execute_all-active pg statements s pg_cron executed
          ∙ rw (no_extension r statements given) inactive)
        later

  past_hypertable :
      (rs : List Revision) (s : pg.State) → Includes convert_hypertable rs → Fails rs s
  unfolding downgrade
  past_hypertable [] s there = elim there [ ]
  past_hypertable (r ∷ rs) s (inl here) =
      passing r rs s
        λ statements s1 given executed. absurd (raises (sym (ap downgrade here) ∙ given))
    where
      raises : {l : List Statement} → downgrade convert_hypertable ≡ ok l → ⊥
      raises e = cc
  past_hypertable (r ∷ rs) s (inr later) =
      passing r rs s λ statements s1 given executed. past_hypertable rs s1 later

  not_migrated :
      {outcome : Result pg.State} {e : Error} (s : pg.State)
      → outcome ≡ err e
      → do_run_migrations pg outcome s ≡ s
  unfolding do_run_migrations
  not_migrated s failed = rw failed refl

  -- Two kinds of downgrade never succeed, whatever the server's state and the other revisions: one that
  -- passes a1, and, where pg_cron is not active, one that passes b2, whose `cron.job` is not there
  -- then. What the revisions before that one undid is rolled back: the server's state stays as it was.
  pub downgrade_fails :
      (rs : List Revision) (s : pg.State)
      → Includes convert_hypertable rs
        ⊎ (Includes pg_cron_cleanup rs × (pg.is_active pg_cron s ≡ false))
      → ((e : Error) × (downgrade_all pg downgrade rs s ≡ err e))
        × (do_run_migrations pg (downgrade_all pg downgrade rs s) s ≡ s)
  downgrade_fails rs s (inl there) =
      let failed = past_hypertable rs s there in (failed, not_migrated s failed.1)
  downgrade_fails rs s (inr (there, inactive)) =
      let failed = past_cron rs s inactive there in (failed, not_migrated s failed.1)
