-- ===== src/Server/Listed.antt =====
-- backend/app/devices/service.py: what `list_user_devices` answers on a database that the requests keep.
use mathlib.Core.Path.{subst}
use mathlib.Core.List.{flat_map}
use mqtt_projeto_vena.Prelude.{
  ◌≡◌, ◌∙◌, refl, sym, ◌≤◌, ℕ, String, [], ◌∷◌, List, ◌==◌, ◌&&◌, arith, eq_iff, eq_refl,
  Bool-cases, inl, inr, Bool, true, false, All, count, map, count-map, count-append,
}
use mqtt_projeto_vena.Sql.{Sql, one_if}
use mqtt_projeto_vena.Sql.Counts.{count_where_mono, count_where-congr, count-rows, rows}
use mqtt_projeto_vena.Db.{Db, User, Device, UserDevice}
use mqtt_projeto_vena.Devices.Service.{DeviceItem, device_item, list_user_devices}
use mqtt_projeto_vena.Devices.Claiming.{claims}
use mqtt_projeto_vena.Server.Frames.{devices_of, Refers}
use mqtt_projeto_vena.Server.Links.{Linked, claims_on}
use mqtt_projeto_vena.Server.Uniqueness.{WellFormed}

module _ (sql : Sql) (db : Db sql) where
  -- one device of a claim's id
  abbrev OnOne : UserDevice → Type 0
  OnOne ud = devices_of sql db ud.device_id ≡ 1

  fewer : {n n' m : ℕ} → n' ≤ n → Refers n m → Refers n' m
  fewer le (inl e) = inl (omega arith)
  fewer le (inr h) = inr h

  -- claims that refer to devices, each of one row, have one device each
  select-OnOne :
      (l : List UserDevice)
      → ((x : String) → devices_of sql db x ≤ 1)
      → ((x : String) → Refers (count (λ c. c.device_id == x) l) (devices_of sql db x))
      → All OnOne l
  select-OnOne [] few refers = tt
  select-OnOne (c ∷ l) few refers =
      (here (refers c.device_id), select-OnOne l few (λ x. fewer (ground arith) (refers x)))
    where
      here :
          Refers (count (λ x. x.device_id == c.device_id) (c ∷ l)) (devices_of sql db c.device_id)
          → OnOne c
      here (inl none_of) = absurd (ground (arith, eq_refl c.device_id))
      here (inr some_of) = omega (arith, few c.device_id)

  abbrev its_devices : UserDevice → List DeviceItem
  its_devices ud = map (device_item ud) (sql.select Device (λ v. ud.device_id == v.id) db.devices)

  -- the devices of a claim, among the items of the answer
  item_counts :
      (d : String) (ud : UserDevice)
      → OnOne ud
      → count (λ i. i.device_id == d) (its_devices ud) ≡ one_if (ud.device_id == d)
  item_counts d ud one =
      count-map (device_item ud) (λ i. i.device_id == d) _
      ∙ sql.count-select Device (λ v. ud.device_id == v.id) (λ v. v.id == d) db.devices
      ∙ elim (Bool-cases (ud.device_id == d)) [
        | inl same ↦ rw same (count_where-congr sql _ _ db.devices (own same) ∙ one)
        | inr other ↦ rw other (none_where other)
      ]
    where
      both : Device → Bool
      both v = ud.device_id == v.id && v.id == d

      own : (ud.device_id == d) ≡ true → (v : Device) → both v ≡ (v.id == ud.device_id)
      own same v = elim (Bool-cases (v.id == ud.device_id)) [
        | inl e ↦
            let there : v.id ≡ ud.device_id = (eq_iff v.id ud.device_id).0 e in
            rw e (
              subst (λ k. (ud.device_id == k && k == d) ≡ true) (sym there)
                (rw (eq_refl ud.device_id, same)))
        | inr e ↦ elim (Bool-cases (ud.device_id == v.id)) [
          | inl f ↦ absurd (
              ground (
                arith,
                eq_refl v.id,
                subst (λ k. (v.id == k) ≡ false) ((eq_iff ud.device_id v.id).0 f) e,
              ))
          | inr f ↦ rw (e, f)
        ]
      ]

      neither : (ud.device_id == d) ≡ false → (v : Device) → both v ≡ false
      neither other v = elim (Bool-cases (ud.device_id == v.id)) [
        | inl f ↦
            subst (λ k. (ud.device_id == k && k == d) ≡ false) ((eq_iff ud.device_id v.id).0 f)
              (rw (other, eq_refl ud.device_id))
        | inr f ↦ rw f
      ]

      none_of : (l : List Device) → count (λ v. false) l ≡ 0
      none_of [] = refl
      none_of (v ∷ l) = none_of l

      none_where : (ud.device_id == d) ≡ false → sql.count_where Device both db.devices ≡ 0
      none_where other =
          count_where-congr sql both (λ v. false) db.devices (neither other)
          ∙ sym (count-rows sql (λ v. false) db.devices)
          ∙ none_of (rows sql db.devices)

  joined_counts :
      (d : String) (l : List UserDevice)
      → All OnOne l
      → count (λ i. i.device_id == d) (flat_map its_devices l) ≡ count (λ c. c.device_id == d) l
  unfolding flat_map
  joined_counts d [] one = refl
  joined_counts d (c ∷ l) one =
      count-append (λ (i : DeviceItem). i.device_id == d) (its_devices c) (flat_map its_devices l)
      ∙ ground (arith, item_counts d c one.0, joined_counts d l one.1)

  -- On a database with unique keys whose claims are on devices that are there, the list of a user's devices
  -- has each device as often as the user claimed it: once, or not at all.
  pub list_user_devices_counts :
      (user : User) (d : String)
      → WellFormed sql db
      → Linked sql db
      → (count (λ i. i.device_id == d) (list_user_devices sql user db) ≡ claims sql db user.id d)
        × (claims sql db user.id d ≤ 1)
  unfolding list_user_devices
  list_user_devices_counts user d w k = (
    joined_counts d mine (select-OnOne mine w.one_device (λ x. fewer (of_table x) (k.claim_on x)))
        ∙ sql.count-select UserDevice (λ ud. ud.user_id == user.id) (λ c. c.device_id == d)
            db.user_devices,
    w.one_claim user.id d,
  )
    where
      mine : List UserDevice
      mine = sql.select UserDevice (λ ud. ud.user_id == user.id) db.user_devices

      of_table : (x : String) → count (λ c. c.device_id == x) mine ≤ claims_on sql db.user_devices x
      of_table x = omega (
        arith,
        sql.count-select UserDevice (λ ud. ud.user_id == user.id) (λ c. c.device_id == x)
            db.user_devices,
        count_where_mono sql (λ ud. ud.user_id == user.id && ud.device_id == x)
            (λ c. c.device_id == x) db.user_devices (λ c. ground arith),
      )
