-- ===== src/BrokerAuth/Access.antt =====
-- Who may use which topic: the answers of /mqtt/acl for the tokens that the backend signs.
use Prim.Native.Char.{Char}
use mqtt_projeto_vena.Prelude.{
  ℕ, ◌+◌, ◌≡◌, ◌≢◌, ◌↔◌, refl, sym, ◌∙◌, ap, String, List, [], ◌∷◌, none, some, Bool, true, false,
  contains, split, split-AllLack, split-join, join, join-split, AllLack, Lacks, arith, ◌==◌, eq_iff,
  if◌then◌else◌, Bool-cases, inl, inr,
}
use mqtt_projeto_vena.Config.{Settings}
use mqtt_projeto_vena.Db.{User, Time}
use mqtt_projeto_vena.Auth.Jwt.{
  Jose, Payload, minutes, create_access_token, create_mqtt_token, create_backend_token,
  create_device_jwt, device_exp, decode_token,
}
use mqtt_projeto_vena.Auth.Lifetime.{
  unexpired, decode_token-create_mqtt_token, decode_token-create_access_token,
  decode_token-create_backend_token, decode_token-create_device_jwt,
}
use mqtt_projeto_vena.BrokerAuth.{AclForm, acl_for_device, acl_for_parts, mqtt_acl}

abbrev pub slash : String
slash = "/"

-- `topic` is vena/{device_id} or vena/{device_id}/…, and no level of it holds a slash
abbrev pub AddressesDevice : (device_id topic : String) → Type 0
AddressesDevice device_id topic =
    (levels : List String) × (topic ≡ join slash ("vena" ∷ device_id ∷ levels))
    × AllLack b'/' (device_id ∷ levels)

abbrev slash_char : Char
slash_char = "/"

vena-Lacks : Lacks b'/' "vena"
vena-Lacks = omega arith

split_levels :
    (device_id : String) (levels : List String)
    → AllLack b'/' (device_id ∷ levels)
    → split b'/' (join slash ("vena" ∷ device_id ∷ levels)) ≡ "vena" ∷ device_id ∷ levels
split_levels device_id levels lack =
    split-join slash_char ("vena" ∷ device_id ∷ levels) (λ e. cc) (vena-Lacks, lack)

granted_parts :
    (payload : Payload) (topic : String) (parts : List String)
    → split b'/' topic ≡ parts
    → AllLack b'/' parts
    → acl_for_parts payload parts ≡ 200
    → (device_id : String) × AddressesDevice device_id topic
      × (acl_for_device payload device_id ≡ 200)
unfolding acl_for_parts
granted_parts payload topic [] e lack h = absurd (omega arith)
granted_parts payload topic (first ∷ []) e lack h = absurd (omega arith)
granted_parts payload topic (first ∷ device_id ∷ levels) e lack h =
    elim (Bool-cases (first == "vena")) [
      | inl vena ↦
          (device_id, (levels, topic_parts ((eq_iff first "vena").0 vena), lack.1), rw vena at h)
      | inr other ↦ absurd (refused (rw other at h))
    ]
  where
    topic_parts : first ≡ "vena" → topic ≡ join slash ("vena" ∷ device_id ∷ levels)
    topic_parts p =
        sym (join-split slash_char topic)
        ∙ ap (join slash) e
        ∙ ap (λ f. join slash (f ∷ device_id ∷ levels)) p

    refused : ◌≢◌ {A = ℕ} 403 200
    refused = omega arith

-- the request is granted exactly for a topic that addresses a device which the claims allow
acl_for_topic :
    (payload : Payload) (topic : String)
    → (acl_for_parts payload (split b'/' topic) ≡ 200) ↔ (
        (device_id : String) × AddressesDevice device_id topic
        × (acl_for_device payload device_id ≡ 200))
acl_for_topic payload topic = (
  granted_parts payload topic (split b'/' topic) refl (split-AllLack b'/' topic),
  λ (device_id, (levels, e, lack), h). granted device_id levels e lack h,
)
  where
    granted :
        (device_id : String) (levels : List String)
        → topic ≡ join slash ("vena" ∷ device_id ∷ levels)
        → AllLack b'/' (device_id ∷ levels)
        → acl_for_device payload device_id ≡ 200
        → acl_for_parts payload (split b'/' topic) ≡ 200
    granted device_id levels e lack h =
        rw (e, split_levels device_id levels lack) (unfold acl_for_parts in h)

abbrev pub acl_request : {T : Type 0} → T → (topic clientid : String) → (acc : ℕ) → AclForm T
acl_request token topic clientid acc = record {
  username = token;
  topic = topic;
  clientid = clientid;
  acc = acc;
}

-- a live token gets the answer for its topic, an expired one is refused
module _ (jose : Jose) (settings : Settings) (now : Time) (token : jose.Token)
    (payload : Payload) where
  mqtt_acl_live :
      (live : Bool) (topic clientid : String) (acc : ℕ)
      → decode_token jose settings now token ≡ (if live then some payload else none)
      → mqtt_acl jose settings now (acl_request token topic clientid acc)
        ≡ (if live then acl_for_parts payload (split b'/' topic) else 403)
  unfolding mqtt_acl
  mqtt_acl_live true topic clientid acc e = rw (e, mqtt_acl)
  mqtt_acl_live false topic clientid acc e = rw (e, mqtt_acl)

  acl_for_token :
      (live : Bool) (topic clientid : String) (acc : ℕ)
      → decode_token jose settings now token ≡ (if live then some payload else none)
      → (mqtt_acl jose settings now (acl_request token topic clientid acc) ≡ 200) ↔ (
          (live ≡ true)
          × ((device_id : String) × AddressesDevice device_id topic
              × (acl_for_device payload device_id ≡ 200)))
  acl_for_token true topic clientid acc e =
      rw (mqtt_acl_live true topic clientid acc e) (
        (λ h. (refl, (acl_for_topic payload topic).0 h)),
        (λ h. (acl_for_topic payload topic).1 h.1),
      )
  acl_for_token false topic clientid acc e =
      rw (mqtt_acl_live false topic clientid acc e)
        ((λ h. absurd (omega arith)), (λ h. absurd (cc (h.0))))

-- an equivalence for each device carries over to the whole answer
pub for_some_device :
    {P Q : String → Type 0} {L : Type 0} {A : Type 0} (topic : String)
    → (A ↔ (L × ((device_id : String) × AddressesDevice device_id topic × P device_id)))
    → ((device_id : String) → P device_id ↔ Q device_id)
    → (A ↔ (L × ((device_id : String) × AddressesDevice device_id topic × Q device_id)))
for_some_device topic h each = (
  λ a. let r = h.0 a in (r.0, (r.1.0, r.1.1, (each r.1.0).0 r.1.2)),
  λ r. h.1 (r.0, (r.1.0, r.1.1, (each r.1.0).1 r.1.2)),
)

module _ (jose : Jose) (settings : Settings) (issued now : Time) (topic clientid : String)
    (acc : ℕ) where
  -- An app's token, made for a list of devices, is answered 200 on a topic exactly when it has not
  -- expired and the topic is vena/{d} or vena/{d}/… for a device d of the list. The access kind
  -- asked for (`acc`) and the client's id make no difference.
  pub app_token_access :
      (user : User) (device_ids : List String)
      → (mqtt_acl jose settings now (
            acl_request (create_mqtt_token jose settings issued user device_ids) topic clientid acc)
          ≡ 200)
        ↔ ((unexpired now (issued + minutes settings.mqtt_jwt_expire_minutes) ≡ true)
            × ((device_id : String) × AddressesDevice device_id topic
                × (contains device_id device_ids ≡ true)))
  unfolding acl_for_device
  app_token_access user device_ids =
      for_some_device topic
        (acl_for_token jose settings now _ _ _ topic clientid acc
          (decode_token-create_mqtt_token jose settings issued now user device_ids))
        (λ device_id. (in_list device_id, of_list device_id))
    where
      listed : (device_id : String) → ℕ
      listed device_id = if contains device_id device_ids then 200 else 403

      in_list : (device_id : String) → listed device_id ≡ 200 → contains device_id device_ids ≡ true
      in_list device_id h = ground arith

      of_list : (device_id : String) → contains device_id device_ids ≡ true → listed device_id ≡ 200
      of_list device_id h = ground arith

  -- A device's own token is answered 200 exactly when it has not expired and the topic is
  -- vena/{d} or vena/{d}/… for the very device that the token was made for, to read or to write alike.
  pub device_token_access :
      (own : String)
      → (mqtt_acl jose settings now
            (acl_request (create_device_jwt jose settings issued own) topic clientid acc)
          ≡ 200)
        ↔ ((unexpired now (device_exp jose settings issued) ≡ true)
            × ((device_id : String) × AddressesDevice device_id topic × (own ≡ device_id)))
  unfolding acl_for_device
  device_token_access own =
      for_some_device topic
        (acl_for_token jose settings now _ _ _ topic clientid acc
          (decode_token-create_device_jwt jose settings issued now own))
        (λ device_id. (is_own device_id, of_own device_id))
    where
      answer : (device_id : String) → ℕ
      answer device_id = if own == device_id then 200 else 403

      is_own : (device_id : String) → answer device_id ≡ 200 → own ≡ device_id
      is_own device_id h = ground (arith, eq_iff own device_id)

      of_own : (device_id : String) → own ≡ device_id → answer device_id ≡ 200
      of_own device_id h = ground (arith, eq_iff own device_id)

  -- The worker's token is answered 200 exactly when it has not expired and the topic is
  -- vena/{d} or vena/{d}/… for some d, to read or to write alike.
  pub backend_token_access :
      (mqtt_acl jose settings now
          (acl_request (create_backend_token jose settings issued) topic clientid acc)
        ≡ 200)
      ↔ ((unexpired now (issued + minutes settings.mqtt_jwt_expire_minutes) ≡ true)
          × ((device_id : String) × AddressesDevice device_id topic))
  unfolding acl_for_device
  backend_token_access =
      let answer =
        acl_for_token jose settings now _ _ _ topic clientid acc
          (decode_token-create_backend_token jose settings issued now) in
      (
        λ h. let granted = answer.0 h in (granted.0, (granted.1.0, granted.1.1)),
        λ (live, (device_id, addressed)). answer.1 (live, (device_id, addressed, refl)),
      )

  -- The access token of the HTTP API, whose scope is `user`, opens no topic at any time.
  pub access_token_access :
      (user : User)
      → mqtt_acl jose settings now
          (acl_request (create_access_token jose settings issued user) topic clientid acc)
        ≢ 200
  unfolding acl_for_device
  access_token_access user h =
      refused
        ((acl_for_token jose settings now _ _ _ topic clientid acc
            (decode_token-create_access_token jose settings issued now user)).0
          h).1.2
    where
      refused : ◌≢◌ {A = ℕ} 403 200
      refused = omega arith
