-- ===== src/Auth/Login.antt =====
-- Signing in with Google.
use mqtt_projeto_vena.Prelude.{
  ℕ, ◌+◌, ◌≤◌, ◌≡◌, ◌∙◌, refl, sym, ap, String, [], ◌∷◌, Option, none, some, ◌==◌, arith, eq_iff,
  if◌then◌else◌, Bool-cases, inl, inr, ◌⊎◌,
}
use mqtt_projeto_vena.Http.{ok, scalar_one_or_none}
use mqtt_projeto_vena.Http.Scalar.{scalar_one_or_none_absent, scalar_one_or_none_single}
use mqtt_projeto_vena.Config.{Settings}
use mqtt_projeto_vena.Sql.{Sql, one_if}
use mqtt_projeto_vena.Sql.Counts.{count_where-congr, length-select}
use mqtt_projeto_vena.Db.{Db, User}
use mqtt_projeto_vena.Auth.Jwt.{Jose, create_access_token}
use mqtt_projeto_vena.Auth.Google.{GoogleUserInfo}
use mqtt_projeto_vena.Auth.Service.{
  Draws, TokenResponse, new_refresh_token, token_response, upsert_user, login_user,
}

zero_or_one : (n : ℕ) → n ≤ 1 → (n ≡ 0) ⊎ (n ≡ 1)
zero_or_one n h = omega arith

module _ (sql : Sql) where
  -- the users of a Google account
  abbrev pub accounts : Db sql → (google_sub : String) → ℕ
  accounts db google_sub = sql.count_where User (λ u. u.google_sub == google_sub) db.users

  module _ (draws : Draws) (info : GoogleUserInfo) (db : Db sql) where
    accounts_added :
        (google_sub : String)
        → accounts (upsert_user sql draws info none db).1 google_sub
          ≡ one_if (info.sub == google_sub) + accounts db google_sub
    unfolding upsert_user
    accounts_added google_sub = sql.count_where-insert User _ _ db.users

    accounts_kept :
        (user : User) (google_sub : String)
        → accounts (upsert_user sql draws info (some user) db).1 google_sub ≡ accounts db google_sub
    unfolding upsert_user
    accounts_kept user google_sub =
        sql.count_where-update User (λ u. u.id == user.id) (λ u. record u { email = info.email }) _
          db.users
        ∙ count_where-congr sql _ _ db.users same_sub
      where
        same_sub :
            (u : User)
            → ((if u.id == user.id then record u { email = info.email } else u).google_sub
                == google_sub)
              ≡ (u.google_sub == google_sub)
        same_sub u = elim (Bool-cases (u.id == user.id)) [ inl e ↦ rw e | inr e ↦ rw e ]

module _ (sql : Sql) (jose : Jose) (sha256 : String → String) (settings : Settings) where
  -- The result of a sign-in: tokens for the account's address, one user for the account, and as many
  -- users as before for every other account.
  pub record SignedIn (info : GoogleUserInfo) (db : Db sql)
      (answer : TokenResponse jose.Token × Db sql) : Type 0 where
    pub email : answer.0.user.email ≡ info.email
    pub users :
        (google_sub : String)
        → accounts sql answer.1 google_sub
          ≡ (if info.sub == google_sub then 1 else accounts sql db google_sub)

  -- Signing in as an account that has at most one user succeeds with tokens for the account's address;
  -- then the account has one user, and every other account as many as before.
  pub login_user_one :
      (draws : Draws) (info : GoogleUserInfo) (db : Db sql)
      → accounts sql db info.sub ≤ 1
      → (answer : TokenResponse jose.Token × Db sql) × (login_user sql jose sha256 settings draws
            info db
          ≡ ok answer)
        × SignedIn info db answer
  unfolding login_user token_response
  login_user_one draws info db few = elim (zero_or_one _ few) [
    | inl zero ↦ (
      answer_for none,
      rw (scalar_one_or_none_absent _ (length-select sql _ db.users ∙ zero)),
      record {
        email = unfold upsert_user in refl;
        users = λ google_sub. accounts_added sql draws info db google_sub ∙ counted google_sub zero;
      },
    )
    | inr one ↦ found_one (scalar_one_or_none_single _ (length-select sql _ db.users ∙ one)) one
  ]
    where
      answer_for : Option User → TokenResponse jose.Token × Db sql
      answer_for found =
          let (user, db') = upsert_user sql draws info found db in
          (
            token_response sql jose sha256 settings user
                (create_access_token jose settings draws.access_at user) draws.raw_refresh,
            record db' {
              refresh_tokens =
                  sql.insert _ (new_refresh_token sql jose sha256 settings draws user.id)
                    db'.refresh_tokens;
            },
          )

      counted :
          (google_sub : String)
          → accounts sql db info.sub ≡ 0
          → one_if (info.sub == google_sub) + accounts sql db google_sub
            ≡ (if info.sub == google_sub then 1 else accounts sql db google_sub)
      counted google_sub zero = elim (Bool-cases (info.sub == google_sub)) [
        | inl e ↦
            rw e (omega (arith, zero, ap (accounts sql db) ((eq_iff info.sub google_sub).0 e)))
        | inr e ↦ rw e (omega arith)
      ]

      same_count :
          (google_sub : String)
          → accounts sql db info.sub ≡ 1
          → accounts sql db google_sub
            ≡ (if info.sub == google_sub then 1 else accounts sql db google_sub)
      same_count google_sub one = elim (Bool-cases (info.sub == google_sub)) [
        | inl e ↦ rw e (sym (ap (accounts sql db) ((eq_iff info.sub google_sub).0 e)) ∙ one)
        | inr e ↦ rw e
      ]

      found_one :
          ((u : User) × (sql.select User (λ u. u.google_sub == info.sub) db.users ≡ u ∷ []))
          → accounts sql db info.sub ≡ 1
          → (answer : TokenResponse jose.Token × Db sql) × (login_user sql jose sha256 settings
                draws info db
              ≡ ok answer)
            × SignedIn info db answer
      found_one (user, e) one = (
        answer_for (some user),
        unfold scalar_one_or_none in rw e,
        record {
          email = unfold upsert_user in refl;
          users = λ google_sub.
              accounts_kept sql draws info db user google_sub ∙ same_count google_sub one;
        },
      )
