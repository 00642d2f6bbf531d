-- ===== src/Migrations/Chain.antt =====
-- A chain of migrations, one revision at a time.
use mqtt_projeto_vena.Prelude.{
  ◌≡◌, ◌∙◌, sym, ap, String, List, [], ◌∷◌, ◌++◌, refl, Bool, true, false, ◌||◌,
}
use mqtt_projeto_vena.Http.{ok}
use mqtt_projeto_vena.Http.Scalar.{>>=-eq-ok, ok-injective}
use mqtt_projeto_vena.Migrations.{Statement, creates, Postgres, ask, execute_all, upgrade_all}
use mqtt_projeto_vena.Migrations.Revisions.{Revision, upgrade}

-- the statements that create an extension
unfoldable pub creating : List Statement → String → Bool
creating [] name = false
creating (st ∷ sts) name = creating sts name || creates st name

or_assoc : (a b c : Bool) → (a || (b || c)) ≡ ((a || b) || c)
or_assoc true b c = refl
or_assoc false b c = refl

module _ (pg : Postgres) where
  pub execute_all-available :
      (sts : List Statement) (s : pg.State) {s' : pg.State} (name : String)
      → execute_all pg sts s ≡ ok s'
      → pg.is_available name s' ≡ pg.is_available name s
  unfolding execute_all
  execute_all-available [] s name h = ap (pg.is_available name) (sym (ok-injective h))
  execute_all-available (st ∷ sts) s name h =
      let (s1, e1, h1) = >>=-eq-ok (pg.execute st s) _ h in
      execute_all-available sts s1 name h1 ∙ pg.execute-available st s s1 name e1

  pub execute_all-active :
      (sts : List Statement) (s : pg.State) {s' : pg.State} (name : String)
      → execute_all pg sts s ≡ ok s'
      → pg.is_active name s' ≡ (creating sts name || pg.is_active name s)
  unfolding execute_all creating
  execute_all-active [] s name h = ap (pg.is_active name) (sym (ok-injective h))
  execute_all-active (st ∷ sts) s name h =
      let (s1, e1, h1) = >>=-eq-ok (pg.execute st s) _ h in
      execute_all-active sts s1 name h1
      ∙ ap (◌||◌ (creating sts name)) (pg.execute-active st s s1 name e1)
      ∙ or_assoc (creating sts name) (creates st name) (pg.is_active name s)

  -- One revision of a chain, and the rest of it.
  pub record Stepped (r : Revision) (rs : List Revision) (s : pg.State) (end : pg.State)
      (log : List Statement) : Type 0 where
    pub next : pg.State
    pub rest : List Statement
    pub going_on : upgrade_all pg upgrade rs next ≡ ok (end, rest)
    pub logged : log ≡ upgrade r (ask pg s) ++ rest
    pub available : (name : String) → pg.is_available name next ≡ pg.is_available name s
    pub active :
        (name : String)
        → pg.is_active name next ≡ (creating (upgrade r (ask pg s)) name || pg.is_active name s)

  pub stepped :
      (r : Revision) (rs : List Revision) (s : pg.State) {end : pg.State} {log : List Statement}
      → upgrade_all pg upgrade (r ∷ rs) s ≡ ok (end, log)
      → Stepped r rs s end log
  unfolding upgrade_all
  stepped r rs s h =
      let (s1, e1, h1) = >>=-eq-ok (execute_all pg (upgrade r (ask pg s)) s) _ h in
      let ((end, rest), e2, h2) = >>=-eq-ok (upgrade_all pg upgrade rs s1) _ h1 in
      record {
        next = s1;
        rest = rest;
        going_on = e2 ∙ ap (λ p. ok (p.0, rest)) (ok-injective h2);
        logged = sym (ap (λ p. p.1) (ok-injective h2));
        available = λ name. execute_all-available (upgrade r (ask pg s)) s name e1;
        active = λ name. execute_all-active (upgrade r (ask pg s)) s name e1;
      }
