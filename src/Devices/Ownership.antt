-- ===== src/Devices/Ownership.antt =====
-- Who may claim or rename a device, and which requests fail.
use mathlib.Core.Path.{subst}
use mqtt_projeto_vena.Devices.Claiming.{claims}
use mqtt_projeto_vena.Prelude.{
  All, length, ◌⊎◌, ℕ, ◌≡◌, ◌≢◌, ◌∙◌, refl, sym, ap, String, [], ◌∷◌, none, some, Bool, true, false,
  ◌&&◌, ◌==◌, arith, eq_iff, Bool-cases, inl, inr, if◌then◌else◌, length,
}
use mqtt_projeto_vena.Http.{
  Result, ok, err, Error, uncaught, value_error, ◌>>=◌, ◌>>◌, guard, scalar_one_or_none,
}
use mqtt_projeto_vena.Http.Scalar.{>>=-eq-ok, ok-injective, require-eq-ok, scalar_one_or_none-some}
use mqtt_projeto_vena.Config.{Settings}
use mqtt_projeto_vena.Sql.{Sql}
use mqtt_projeto_vena.Sql.Counts.{count_where-congr, select-All, length-select}
use mqtt_projeto_vena.Db.{Db, User, Device, UserDevice, Time}
use mqtt_projeto_vena.Auth.Jwt.{Jose}
use mqtt_projeto_vena.Devices.Pairing.{Bcrypt, verify_pairing_code}
use mqtt_projeto_vena.Devices.Service.{
  ClaimResponse, owns, claim_response, invalid_code, get_device_or_404, claim_device,
  update_device_alias,
}
use mqtt_projeto_vena.Devices.Routes.{provision_paired}
use mqtt_projeto_vena.Devices.Claiming.{claims}

verified :
    (bcrypt : Bcrypt) (code hashed : String) {b : Bool}
    → verify_pairing_code bcrypt code hashed ≡ ok b
    → bcrypt.checkpw code hashed ≡ some b
unfolding verify_pairing_code
verified bcrypt code hashed h = ground arith

guarded : (b : Bool) (e : Error) {u : Unit {0}} → guard b e ≡ ok u → b ≡ true
guarded true e h = refl
guarded false e h = cc

module _ (sql : Sql) (bcrypt : Bcrypt) where
  -- the device row whose stored hash the code matches
  abbrev pub HoldsCode : (device_id pairing_code : String) → Db sql → Type 0
  HoldsCode device_id pairing_code db =
      (device : Device) × (sql.select Device (λ d. d.id == device_id) db.devices ≡ device ∷ [])
      × (bcrypt.checkpw pairing_code device.pairing_code_hash ≡ some true)

  abbrev pub Succeeds : {A : Type 0} → Result A → Type 0
  Succeeds {A} outcome = (answer : A) × (outcome ≡ ok answer)

  holds_code :
      {A : Type 0} (device_id pairing_code : String) (db : Db sql) (rest : Result A) {answer : A}
      → (get_device_or_404 sql device_id db >>= λ device.
          verify_pairing_code bcrypt pairing_code device.pairing_code_hash >>= λ valid.
          guard valid invalid_code >> rest)
        ≡ ok answer
      → HoldsCode device_id pairing_code db
  unfolding get_device_or_404
  holds_code device_id pairing_code db rest h =
      let (device, e1, h1) = >>=-eq-ok (get_device_or_404 sql device_id db) _ h in
      let (row, e0, h0) =
        >>=-eq-ok (scalar_one_or_none (sql.select Device (λ d. d.id == device_id) db.devices)) _
          e1 in
      let (valid, e2, h2) =
        >>=-eq-ok (verify_pairing_code bcrypt pairing_code device.pairing_code_hash) _ h1 in
      let (u, e3, h3) = >>=-eq-ok (guard valid invalid_code) _ h2 in
      (
        device,
        scalar_one_or_none-some _ (e0 ∙ ap ok (require-eq-ok row _ h0)),
        verified bcrypt pairing_code device.pairing_code_hash e2 ∙ ap some (guarded valid _ e3),
      )

  claim_checked :
      (user : User) (device_id pairing_code : String) (t : Time) (db : Db sql)
      {answer : ClaimResponse × Db sql}
      → claim_device sql bcrypt user device_id pairing_code t db ≡ ok answer
      → HoldsCode device_id pairing_code db
  unfolding claim_device
  claim_checked user device_id pairing_code t db h = holds_code device_id pairing_code db _ h

  provision_checked :
      (jose : Jose) (settings : Settings) (now : Time) (device_id pairing_code : String)
      (db : Db sql) {token : jose.Token}
      → provision_paired sql jose bcrypt settings now device_id pairing_code db ≡ ok token
      → HoldsCode device_id pairing_code db
  unfolding provision_paired
  provision_checked jose settings now device_id pairing_code db h =
      holds_code device_id pairing_code db _ h

  -- Nobody claims a device, and nobody is given its token by POST /devices/provision, without a code that
  -- matches the hash stored for it.
  pub code_needed :
      (jose : Jose) (settings : Settings) (user : User) (t : Time) (device_id pairing_code : String)
      (db : Db sql)
      → (Succeeds (claim_device sql bcrypt user device_id pairing_code t db)
          ⊎ Succeeds (provision_paired sql jose bcrypt settings t device_id pairing_code db))
      → HoldsCode device_id pairing_code db
  code_needed jose settings user t device_id pairing_code db (inl (answer, h)) =
      claim_checked user device_id pairing_code t db h
  code_needed jose settings user t device_id pairing_code db (inr (token, h)) =
      provision_checked jose settings t device_id pairing_code db h

  -- a stored text that bcrypt rejects
  pub unhashed_device_fails :
      (jose : Jose) (settings : Settings) (user : User) (device_id pairing_code : String) (t : Time)
      (db : Db sql) (device : Device)
      → sql.select Device (λ d. d.id == device_id) db.devices ≡ device ∷ []
      → bcrypt.checkpw pairing_code device.pairing_code_hash ≡ none
      → (claim_device sql bcrypt user device_id pairing_code t db ≡ err (uncaught value_error))
        × (provision_paired sql jose bcrypt settings t device_id pairing_code db
            ≡ err (uncaught value_error))
  unfolding claim_device provision_paired get_device_or_404 verify_pairing_code scalar_one_or_none
  unhashed_device_fails jose settings user device_id pairing_code t db device row bad =
      (rw (row, bad, verify_pairing_code), rw (row, bad, verify_pairing_code))

-- two rows of one user and device are rows of the same others
foreign :
    (ud : UserDevice) (other_user other_device : String) (x : UserDevice)
    → owns ud.user_id ud.device_id x ≡ true
    → owns other_user other_device ud ≡ false
    → owns other_user other_device x ≡ false
foreign ud other_user other_device x same other =
    ground (arith, eq_iff x.user_id ud.user_id, eq_iff x.device_id ud.device_id)

module _ (sql : Sql) (user : User) (device_id alias : String) (db : Db sql) where
  -- the rows that a user has on a device under a name
  abbrev pub named : Db sql → (user_id device_id : String) → (UserDevice → Bool) → ℕ
  named after user_id device_id p =
      sql.count_where UserDevice (λ ud. owns user_id device_id ud && p ud) after.user_devices

  -- Only a user who has one claim on the device renames it: the answer bears the new name, and as many
  -- rows of any other user or device pass any test as before.
  pub alias_own :
      {answer : ClaimResponse × Db sql}
      → update_device_alias sql user device_id alias db ≡ ok answer
      → (other_user other_device : String) (p : UserDevice → Bool)
      → (user.id ≢ other_user) ⊎ (device_id ≢ other_device)
      → (answer.0.alias ≡ some alias)
        × (claims sql db user.id device_id ≡ 1)
        × (named answer.1 other_user other_device p ≡ named db other_user other_device p)
  unfolding update_device_alias claim_response
  alias_own {answer} h other_user other_device p other =
      let (found, e1, h1) = >>=-eq-ok _ _ h in
      let (ud, e2, h2) = >>=-eq-ok _ _ h1 in
      let mine : sql.select UserDevice (owns user.id device_id) db.user_devices ≡ ud ∷ [] =
        scalar_one_or_none-some _ (e1 ∙ ap ok (require-eq-ok found _ e2)) in
      let owned : All (λ r. owns user.id device_id r ≡ true) (ud ∷ []) =
        subst (All (λ r. owns user.id device_id r ≡ true)) mine
          (select-All sql (owns user.id device_id) db.user_devices) in
      (
        sym (ap (λ a. a.0.alias) (ok-injective h2)),
        sym (length-select sql (owns user.id device_id) db.user_devices) ∙ ap length mine,
        ap (λ a. named a.1 other_user other_device p) (sym (ok-injective h2))
            ∙ sql.count_where-update UserDevice _ _ _ db.user_devices
            ∙ count_where-congr sql _ _ db.user_devices (
                unrenamed ud other_user other_device p
                  (not_other ud other_user other_device owned.0 other)),
      )
    where
      not_other :
          (ud : UserDevice) (other_user other_device : String)
          → owns user.id device_id ud ≡ true
          → (user.id ≢ other_user) ⊎ (device_id ≢ other_device)
          → owns other_user other_device ud ≡ false
      not_other ud other_user other_device mine other = ground (
        arith,
        eq_iff ud.user_id user.id,
        eq_iff ud.device_id device_id,
        eq_iff ud.user_id other_user,
        eq_iff ud.device_id other_device,
      )

      unrenamed :
          (ud : UserDevice) (other_user other_device : String) (p : UserDevice → Bool)
          → owns other_user other_device ud ≡ false
          → (x : UserDevice)
          → (let y =
                (if owns ud.user_id ud.device_id x then record x { alias = some alias } else x) in
              owns other_user other_device y && p y)
            ≡ (owns other_user other_device x && p x)
      unrenamed ud other_user other_device p other x =
          elim (Bool-cases (owns ud.user_id ud.device_id x)) [
            | inl same ↦ rw (same, foreign ud other_user other_device x same other)
            | inr diff ↦ rw diff
          ]
