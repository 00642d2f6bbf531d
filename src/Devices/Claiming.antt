-- ===== src/Devices/Claiming.antt =====
-- Claims of devices.
use mathlib.Core.Path.{fun_ext, subst}
use mqtt_projeto_vena.Prelude.{
  ℕ, ◌≡◌, ◌≢◌, ◌∙◌, refl, sym, ap, String, [], ◌∷◌, Option, none, some, Bool, true, false, ◌&&◌,
  ◌==◌, arith, eq_iff, eq_refl, eqb, eqb_self, is_none, length, if◌then◌else◌, Bool-cases, inl, inr,
  ◌⊎◌,
}
use mqtt_projeto_vena.Http.{Result, ok, ◌>>=◌, guard, scalar_one_or_none}
use mqtt_projeto_vena.Http.Scalar.{
  >>=-eq-ok, >>=_assoc, ok-injective, scalar_one_or_none-none, scalar_one_or_none-some,
}
use mqtt_projeto_vena.Sql.{Sql, one_if}
use mqtt_projeto_vena.Sql.Counts.{length-select}
use mqtt_projeto_vena.Sql.Single.{only_row}
use mqtt_projeto_vena.Db.{Db, User, UserDevice, Time}
use mqtt_projeto_vena.Devices.Pairing.{Bcrypt, verify_pairing_code}
use mqtt_projeto_vena.Devices.Service.{
  ClaimResponse, owns, new_claim, claim_response, invalid_code, get_device_or_404, claim_once,
  claim_device,
}

-- how many claims a user has on a device
abbrev pub claims : (sql : Sql) → Db sql → (user_id device_id : String) → ℕ
claims sql db user_id device_id =
    sql.count_where UserDevice (owns user_id device_id) db.user_devices

-- one claim of the user on the device, and no other user or device touched
abbrev pub OneClaim : (sql : Sql) → (user_id device_id : String) → (before after : Db sql) → Type 0
OneClaim sql user_id device_id before after =
    (claims sql after user_id device_id ≡ 1)
    × ((other_user other_device : String)
        → (user_id ≢ other_user) ⊎ (device_id ≢ other_device)
        → claims sql after other_user other_device ≡ claims sql before other_user other_device)

module _ (sql : Sql) (bcrypt : Bcrypt) (user : User) (device_id pairing_code : String) where
  -- the checks in front of a claim, on the device table alone
  pub check : Db sql → Result (Unit {0})
  check db = do
    device ← get_device_or_404 sql device_id db
    valid ← verify_pairing_code bcrypt pairing_code device.pairing_code_hash
    guard valid invalid_code

  claim_checked :
      (t : Time) (db : Db sql)
      → claim_device sql bcrypt user device_id pairing_code t db ≡ (
          check db >>= λ _.
          scalar_one_or_none (sql.select UserDevice (owns user.id device_id) db.user_devices)
          >>= λ found. ok (claim_once sql user.id device_id t found db))
  unfolding claim_device check
  claim_checked t db = sym (
      >>=_assoc (get_device_or_404 sql device_id db) _ _
      ∙ ap (◌>>=◌ (get_device_or_404 sql device_id db)) (
          fun_ext λ device.
            >>=_assoc (verify_pairing_code bcrypt pairing_code device.pairing_code_hash) _ _))

  -- a claim that succeeded passed the checks and met one claim or none
  pub record Claimed (t : Time) (db : Db sql) (answer : ClaimResponse × Db sql) : Type 0 where
    pub found : Option UserDevice
    pub checked : check db ≡ ok tt
    pub met :
        scalar_one_or_none (sql.select UserDevice (owns user.id device_id) db.user_devices)
        ≡ ok found
    pub wrote : answer ≡ claim_once sql user.id device_id t found db

  pub claimed :
      (t : Time) (db : Db sql) {answer : ClaimResponse × Db sql}
      → claim_device sql bcrypt user device_id pairing_code t db ≡ ok answer
      → Claimed t db answer
  claimed t db h =
      let (u, e1, h1) = >>=-eq-ok _ _ (sym (claim_checked t db) ∙ h) in
      let (found, e2, h2) = >>=-eq-ok _ _ h1 in
      record { found = found; checked = e1; met = e2; wrote = sym (ok-injective h2) }

  -- the one claim that is met after a claim of a device that the user had not
  new_met :
      (t : Time) (db : Db sql)
      → claims sql db user.id device_id ≡ 0
      → (x : UserDevice) × (sql.select UserDevice
            (owns user.id device_id)
            (sql.insert UserDevice (new_claim user.id device_id t) db.user_devices)
          ≡ x ∷ [])
        × (claim_response device_id x ≡ claim_response device_id (new_claim user.id device_id t))
  unfolding claim_response
  new_met t db none_before =
      let (x, e, same) =
        only_row sql (owns user.id device_id) fresh (new_claim user.id device_id t) db.user_devices
          none_before (rw (eq_refl user.id, eq_refl device_id)) (rw (eqb_self t)) in
      (x, e, same_response x same)
    where
      fresh : UserDevice → Bool
      fresh x = is_none x.alias && eqb x.claimed_at t

      same_response :
          (x : UserDevice)
          → fresh x ≡ true
          → claim_response device_id x ≡ claim_response device_id (new_claim user.id device_id t)
      same_response x h = ground arith

  -- where the checks pass and one claim exists, the answer is that claim
  claim_met :
      (t : Time) (db : Db sql) (x : UserDevice)
      → check db ≡ ok tt
      → sql.select UserDevice (owns user.id device_id) db.user_devices ≡ x ∷ []
      → claim_device sql bcrypt user device_id pairing_code t db
        ≡ ok (claim_response device_id x, db)
  unfolding claim_once scalar_one_or_none
  claim_met t db x checked met = claim_checked t db ∙ rw (checked, met)

  with_claim : Time → Db sql → Db sql
  with_claim t db = record db {
    user_devices = sql.insert UserDevice (new_claim user.id device_id t) db.user_devices;
  }

  check-with_claim : (t : Time) (db : Db sql) → check (with_claim t db) ≡ check db
  unfolding check get_device_or_404 with_claim
  check-with_claim t db = refl

  -- Claiming a device again, at any later time, answers as the first time and writes nothing.
  pub claim_again :
      (t later : Time) (db : Db sql) {answer : ClaimResponse × Db sql}
      → claim_device sql bcrypt user device_id pairing_code t db ≡ ok answer
      → claim_device sql bcrypt user device_id pairing_code later answer.1 ≡ ok answer
  unfolding claim_once with_claim
  claim_again t later db {answer} h = again c.found c.met c.wrote
    where
      c : Claimed t db answer
      c = claimed t db h

      again :
          (found : Option UserDevice)
          → scalar_one_or_none (sql.select UserDevice (owns user.id device_id) db.user_devices)
            ≡ ok found
          → answer ≡ claim_once sql user.id device_id t found db
          → claim_device sql bcrypt user device_id pairing_code later answer.1 ≡ ok answer
      again none met wrote =
          let none_before =
            sym (length-select sql (owns user.id device_id) db.user_devices)
            ∙ ap length (scalar_one_or_none-none _ met) in
          let (x, e, same) = new_met t db none_before in
          subst (λ a. claim_device sql bcrypt user device_id pairing_code later a.1 ≡ ok a)
            (sym wrote)
            (claim_met later (with_claim t db) x (check-with_claim t db ∙ c.checked) e
              ∙ ap (λ (r : ClaimResponse). ok (r, with_claim t db)) same)
      again (some ud) met wrote =
          subst (λ a. claim_device sql bcrypt user device_id pairing_code later a.1 ≡ ok a)
            (sym wrote) (claim_met later db ud c.checked (scalar_one_or_none-some _ met))

  pub claim_one :
      (t : Time) (db : Db sql) {answer : ClaimResponse × Db sql}
      → claim_device sql bcrypt user device_id pairing_code t db ≡ ok answer
      → OneClaim sql user.id device_id db answer.1
  unfolding claim_once
  claim_one t db {answer} h = counted c.found c.met c.wrote
    where
      c : Claimed t db answer
      c = claimed t db h

      none_before :
          scalar_one_or_none (sql.select UserDevice (owns user.id device_id) db.user_devices)
            ≡ ok none
          → claims sql db user.id device_id ≡ 0
      none_before met =
          sym (length-select sql (owns user.id device_id) db.user_devices)
          ∙ ap length (scalar_one_or_none-none _ met)

      not_other :
          (other_user other_device : String)
          → (user.id ≢ other_user) ⊎ (device_id ≢ other_device)
          → one_if (owns other_user other_device (new_claim user.id device_id t)) ≡ 0
      not_other other_user other_device other =
          ground (arith, eq_iff user.id other_user, eq_iff device_id other_device)

      counted :
          (found : Option UserDevice)
          → scalar_one_or_none (sql.select UserDevice (owns user.id device_id) db.user_devices)
            ≡ ok found
          → answer ≡ claim_once sql user.id device_id t found db
          → OneClaim sql user.id device_id db answer.1
      counted none met wrote =
          subst (λ a. OneClaim sql user.id device_id db a.1) (sym wrote)
            (
              sql.count_where-insert UserDevice _ _ db.user_devices
                  ∙ rw (eq_refl user.id, eq_refl device_id) (omega (arith, none_before met)),
              λ other_user other_device other.
                  sql.count_where-insert UserDevice _ _ db.user_devices
                  ∙ omega (arith, not_other other_user other_device other),
            )
      counted (some ud) met wrote =
          subst (λ a. OneClaim sql user.id device_id db a.1) (sym wrote)
            (
              sym (length-select sql (owns user.id device_id) db.user_devices)
                  ∙ ap length (scalar_one_or_none-some _ met),
              λ other_user other_device other. refl,
            )

  -- After a claim that succeeded, every user has as many claims on every device as before, but this user
  -- has exactly one on this device.
  pub claim_counts :
      (t : Time) (db : Db sql) {answer : ClaimResponse × Db sql}
      → claim_device sql bcrypt user device_id pairing_code t db ≡ ok answer
      → (some_user some_device : String)
      → claims sql answer.1 some_user some_device ≡ (
          if user.id == some_user && device_id == some_device
          then 1
          else claims sql db some_user some_device)
  claim_counts t db h some_user some_device =
      let (one, others) = claim_one t db h in
      elim (Bool-cases (user.id == some_user)) [
        | inl u ↦ elim (Bool-cases (device_id == some_device)) [
          | inl d ↦
              rw (u, d)
                (rw ((eq_iff user.id some_user).0 u, (eq_iff device_id some_device).0 d) at one)
          | inr d ↦ rw (u, d) (others some_user some_device (inr (differ device_id some_device d)))
        ]
        | inr u ↦ rw u (others some_user some_device (inl (differ user.id some_user u)))
      ]
    where
      differ : (a b : String) → (a == b) ≡ false → a ≢ b
      differ a b e same = cc ((eq_iff a b).1 same)
