-- ===== src/Server/ClaimLinks.antt =====
-- backend/app/devices/service.py: the foreign keys of the claims.
use mathlib.Core.Path.{subst}
use mqtt_projeto_vena.Prelude.{
  ◌≡◌, ◌∙◌, sym, ap, ◌<◌, String, Option, none, some, ◌==◌, arith, eq_refl, Bool-cases, inl, inr,
  if◌then◌else◌, Bool, length,
}
use mqtt_projeto_vena.Http.{ok, scalar_one_or_none, require}
use mqtt_projeto_vena.Http.Scalar.{>>=-eq-ok, require-eq-ok, scalar_one_or_none-some}
use mqtt_projeto_vena.Sql.{Sql}
use mqtt_projeto_vena.Sql.Counts.{count_where-congr, length-select}
use mqtt_projeto_vena.Db.{Db, User, Device, UserDevice, Time}
use mqtt_projeto_vena.Auth.Jwt.{Jose, decode_token}
use mqtt_projeto_vena.Auth.Deps.{get_current_user, subject, unauth}
use mqtt_projeto_vena.Devices.Service.{
  ClaimResponse, owns, get_device_or_404, claim_once, claim_device, update_device_alias,
}
use mqtt_projeto_vena.Devices.Claiming.{claimed}
use mqtt_projeto_vena.Devices.Pairing.{Bcrypt}
use mqtt_projeto_vena.Config.{Settings}
use mqtt_projeto_vena.Server.Frames.{devices_of, Refers}
use mqtt_projeto_vena.Server.Writes.{rename_wrote}
use mqtt_projeto_vena.Server.Links.{
  Linked, users_of, refers_same, refers_added, selected_there, same_id,
}

module _ (sql : Sql) where
  -- a name more, or the same names, leaves each claim its user and its device
  pub rename-Linked :
      (user : User) (device_id alias : String) (db : Db sql) {answer : ClaimResponse × Db sql}
      → update_device_alias sql user device_id alias db ≡ ok answer
      → Linked sql db
      → Linked sql answer.1
  rename-Linked user device_id alias db h w =
      let (ud, wrote) = rename_wrote sql user device_id db alias h in
      subst (Linked sql) (sym wrote) (record {
        claim_of = λ x.
            refers_same (same_claims ud (λ c. c.user_id == x) (λ c. by_owner ud c x)) (omega arith)
              (w.claim_of x);
        claim_on = λ x.
            refers_same (same_claims ud (λ c. c.device_id == x) (λ c. by_device ud c x))
              (omega arith) (w.claim_on x);
        token_user = w.token_user;
        reading = w.reading;
        meta = w.meta;
      })
    where
      renamed : UserDevice → UserDevice → UserDevice
      renamed ud c = if owns ud.user_id ud.device_id c then record c { alias = some alias } else c

      by_owner : (ud c : UserDevice) (x : String) → ((renamed ud c).user_id == x) ≡ (c.user_id == x)
      by_owner ud c x = elim (Bool-cases (owns ud.user_id ud.device_id c)) [
        | inl e ↦ rw e
        | inr e ↦ rw e
      ]

      by_device :
          (ud c : UserDevice) (x : String) → ((renamed ud c).device_id == x) ≡ (c.device_id == x)
      by_device ud c x = elim (Bool-cases (owns ud.user_id ud.device_id c)) [
        | inl e ↦ rw e
        | inr e ↦ rw e
      ]

      same_claims :
          (ud : UserDevice) (q : UserDevice → Bool)
          → ((c : UserDevice) → q (renamed ud c) ≡ q c)
          → sql.count_where UserDevice q (
              sql.update UserDevice
                (owns ud.user_id ud.device_id)
                (λ c. record c { alias = some alias })
                db.user_devices)
            ≡ sql.count_where UserDevice q db.user_devices
      same_claims ud q same =
          sql.count_where-update UserDevice _ _ q db.user_devices
          ∙ count_where-congr sql _ _ db.user_devices same

  -- the device of a claim that succeeded
  claimed_device :
      (bcrypt : Bcrypt) (user : User) (device_id code : String) (at : Time) (db : Db sql)
      {answer : ClaimResponse × Db sql}
      → claim_device sql bcrypt user device_id code at db ≡ ok answer
      → 0 < devices_of sql db device_id
  unfolding claim_device get_device_or_404
  claimed_device bcrypt user device_id code at db h =
      let (device, e1, h1) = >>=-eq-ok (get_device_or_404 sql device_id db) _ h in
      let (found, e2, h2) =
        >>=-eq-ok (scalar_one_or_none (sql.select Device (λ d. d.id == device_id) db.devices)) _
          e1 in
      omega (
        arith,
        sym (length-select sql (λ d. d.id == device_id) db.devices)
            ∙ ap length (scalar_one_or_none-some _ (e2 ∙ ap ok (require-eq-ok found _ h2))),
      )

  -- the user of a request that is let in
  pub current_user_there :
      (jose : Jose) (uuid : String → Option String) (settings : Settings) (now : Time)
      (token : jose.Token) (db : Db sql) {user : User}
      → get_current_user sql jose uuid settings now token db ≡ ok user
      → 0 < users_of sql db user.id
  unfolding get_current_user
  current_user_there jose uuid settings now token db {user} h =
      let (payload, e1, h1) =
        >>=-eq-ok (require (decode_token jose settings now token) unauth) _ h in
      let (user_id, e2, h2) = >>=-eq-ok (subject uuid payload) _ h1 in
      let (found, e3, h3) =
        >>=-eq-ok (scalar_one_or_none (sql.select User (λ u. u.id == user_id) db.users)) _ h2 in
      selected_there sql User (λ u. u.id == user_id) (λ u. u.id == user.id) db.users user
        (scalar_one_or_none-some _ (e3 ∙ ap ok (require-eq-ok found _ h3))) (eq_refl user.id)

  pub claim-Linked :
      (bcrypt : Bcrypt) (user : User) (device_id code : String) (at : Time) (db : Db sql)
      {answer : ClaimResponse × Db sql}
      → claim_device sql bcrypt user device_id code at db ≡ ok answer
      → 0 < users_of sql db user.id
      → Linked sql db
      → Linked sql answer.1
  unfolding claim_once
  claim-Linked bcrypt user device_id code at db {answer} h there w =
      let c = claimed sql bcrypt user device_id code at db h in
      subst (λ a. Linked sql a.1) (sym c.wrote) (once c.found)
    where
      once :
          (found : Option UserDevice) → Linked sql (claim_once sql user.id device_id at found db).1
      once (some ud) = w
      once none = record {
        claim_of = λ x.
            subst (λ n. Refers n (users_of sql db x))
              (sym (sql.count_where-insert UserDevice _ _ db.user_devices))
              (refers_added (user.id == x) (λ e. same_id sql user.id x e (users_of sql db) there)
                (w.claim_of x));
        claim_on = λ x.
            subst (λ n. Refers n (devices_of sql db x))
              (sym (sql.count_where-insert UserDevice _ _ db.user_devices))
              (refers_added (device_id == x)
                (λ e.
                  same_id sql device_id x e (devices_of sql db)
                    (claimed_device bcrypt user device_id code at db h))
                (w.claim_on x));
        token_user = w.token_user;
        reading = w.reading;
        meta = w.meta;
      }
