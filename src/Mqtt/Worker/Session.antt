-- ===== src/Mqtt/Worker/Session.antt =====
-- The worker through a session of events in any order.
use mqtt_projeto_vena.Prelude.{
  ◌≤◌, ◌≡◌, refl, sym, ap, ◌∙◌, arith, String, List, [], ◌∷◌, ◌++◌, Option, none, some, eqb,
  Bool-cases, inl, inr,
}
use mqtt_projeto_vena.Config.{Settings}
use mqtt_projeto_vena.Db.{Time}
use mqtt_projeto_vena.Auth.Jwt.{Jose, create_backend_token}
use mqtt_projeto_vena.Mqtt.Worker.{
  Call, username_pw_set, connect_async, loop_start, loop_stop, disconnect, subscribe, put_nowait,
  Event, start, stop, on_connect, on_disconnect, on_message, MqttWorker, new_worker, refresh_jwt,
  handle_start, handle_stop, handle_connect, handle_disconnect, handle_message, handle, handle_all,
}

-- what a list of calls puts into the queue
pub scheduled : {Token Bytes : Type 0} → List (Call Token Bytes) → List (String × Bytes)
scheduled [] = []
scheduled (put_nowait topic payload ∷ cs) = (topic, payload) ∷ scheduled cs
scheduled (c ∷ cs) = scheduled cs

-- the user name that the client connects with after a list of calls, `before` being the one it had
pub username :
    {Token Bytes : Type 0} (before : Option Token) → List (Call Token Bytes) → Option Token
username before [] = before
username before (username_pw_set token password ∷ cs) = username (some token) cs
username before (c ∷ cs) = username before cs

-- the messages that arrive
pub messages : {Bytes : Type 0} → List (Event Bytes) → List (String × Bytes)
messages [] = []
messages (on_message topic payload ∷ es) = (topic, payload) ∷ messages es
messages (e ∷ es) = messages es

-- when the worker last started or lost its connection
pub last_refresh : {Bytes : Type 0} (before : Option Time) → List (Event Bytes) → Option Time
last_refresh before [] = before
last_refresh before (start now ∷ es) = last_refresh (some now) es
last_refresh before (on_disconnect now ∷ es) = last_refresh (some now) es
last_refresh before (e ∷ es) = last_refresh before es

module _ {Token Bytes : Type 0} where
  scheduled-append :
      (l m : List (Call Token Bytes)) → scheduled (l ++ m) ≡ scheduled l ++ scheduled m
  unfolding scheduled
  scheduled-append [] m = refl
  scheduled-append (put_nowait topic payload ∷ cs) m =
      ap (λ t. (topic, payload) ∷ t) (scheduled-append cs m)
  scheduled-append (username_pw_set t p ∷ cs) m = scheduled-append cs m
  scheduled-append (connect_async h p ∷ cs) m = scheduled-append cs m
  scheduled-append (loop_start ∷ cs) m = scheduled-append cs m
  scheduled-append (loop_stop ∷ cs) m = scheduled-append cs m
  scheduled-append (disconnect ∷ cs) m = scheduled-append cs m
  scheduled-append (subscribe t q ∷ cs) m = scheduled-append cs m

  username-append :
      (o : Option Token) (l m : List (Call Token Bytes))
      → username o (l ++ m) ≡ username (username o l) m
  unfolding username
  username-append o [] m = refl
  username-append o (put_nowait topic payload ∷ cs) m = username-append o cs m
  username-append o (username_pw_set t p ∷ cs) m = username-append (some t) cs m
  username-append o (connect_async h p ∷ cs) m = username-append o cs m
  username-append o (loop_start ∷ cs) m = username-append o cs m
  username-append o (loop_stop ∷ cs) m = username-append o cs m
  username-append o (disconnect ∷ cs) m = username-append o cs m
  username-append o (subscribe t q ∷ cs) m = username-append o cs m

append-nil {ℓ} : {A : Type ℓ} (l : List A) → l ++ [] ≡ l
append-nil [] = refl
append-nil (x ∷ l) = ap (λ t. x ∷ t) (append-nil l)

append_assoc {ℓ} : {A : Type ℓ} (l m n : List A) → (l ++ m) ++ n ≡ l ++ (m ++ n)
append_assoc [] m n = refl
append_assoc (x ∷ l) m n = ap (λ t. x ∷ t) (append_assoc l m n)

module _ (jose : Jose) (settings : Settings) (Bytes : Type 0) where
  abbrev Worker : Type 0
  Worker = MqttWorker jose settings Bytes

  handle-scheduled :
      (e : Event Bytes) (w : Worker)
      → scheduled (handle jose settings Bytes e w).calls ≡ scheduled w.calls ++ messages (e ∷ [])
  unfolding handle handle_start handle_stop handle_connect handle_disconnect handle_message
      refresh_jwt messages scheduled
  handle-scheduled (start now) w =
      scheduled-append
        (w.calls ++ username_pw_set (create_backend_token jose settings now) "vena" ∷ []) _
      ∙ append-nil _
      ∙ scheduled-append w.calls _
  handle-scheduled stop w = scheduled-append w.calls _
  handle-scheduled (on_connect reason_code) w = elim (Bool-cases (eqb reason_code 0)) [
    | inl e ↦ rw e (scheduled-append w.calls _)
    | inr e ↦ rw e (sym (append-nil _))
  ]
  handle-scheduled (on_disconnect now) w = scheduled-append w.calls _
  handle-scheduled (on_message topic payload) w = scheduled-append w.calls _

  messages-cons :
      (e : Event Bytes) (es : List (Event Bytes))
      → messages (e ∷ es) ≡ messages (e ∷ []) ++ messages es
  unfolding messages
  messages-cons (start now) es = refl
  messages-cons stop es = refl
  messages-cons (on_connect reason_code) es = refl
  messages-cons (on_disconnect now) es = refl
  messages-cons (on_message topic payload) es = refl

  handle_all-scheduled :
      (es : List (Event Bytes)) (w : Worker)
      → scheduled (handle_all jose settings Bytes es w).calls ≡ scheduled w.calls ++ messages es
  unfolding handle_all
  handle_all-scheduled [] w = unfold messages in sym (append-nil _)
  handle_all-scheduled (e ∷ es) w =
      handle_all-scheduled es (handle jose settings Bytes e w)
      ∙ ap (λ l. l ++ messages es) (handle-scheduled e w)
      ∙ append_assoc (scheduled w.calls) (messages (e ∷ [])) (messages es)
      ∙ ap (λ l. scheduled w.calls ++ l) (sym (messages-cons e es))

  -- the token issued at a time
  abbrev pub issued : Option Time → Option jose.Token
  issued none = none
  issued (some now) = some (create_backend_token jose settings now)

  handle-username :
      (e : Event Bytes) (w : Worker) (before : Option Time)
      → username none w.calls ≡ issued before
      → username none (handle jose settings Bytes e w).calls ≡ issued (last_refresh before (e ∷ []))
  unfolding handle handle_start handle_stop handle_connect handle_disconnect handle_message
      refresh_jwt username last_refresh
  handle-username (start now) w before h =
      username-append none
        (w.calls ++ username_pw_set (create_backend_token jose settings now) "vena" ∷ []) _
      ∙ username-append none w.calls _
  handle-username stop w before h = username-append none w.calls _ ∙ h
  handle-username (on_connect reason_code) w before h = elim (Bool-cases (eqb reason_code 0)) [
    | inl e ↦ rw e (username-append none w.calls _ ∙ h)
    | inr e ↦ rw e h
  ]
  handle-username (on_disconnect now) w before h = username-append none w.calls _
  handle-username (on_message topic payload) w before h = username-append none w.calls _ ∙ h

  last_refresh-cons :
      (before : Option Time) (e : Event Bytes) (es : List (Event Bytes))
      → last_refresh (last_refresh before (e ∷ [])) es ≡ last_refresh before (e ∷ es)
  unfolding last_refresh
  last_refresh-cons before (start now) es = refl
  last_refresh-cons before stop es = refl
  last_refresh-cons before (on_connect reason_code) es = refl
  last_refresh-cons before (on_disconnect now) es = refl
  last_refresh-cons before (on_message topic payload) es = refl

  handle_all-username :
      (es : List (Event Bytes)) (w : Worker) (before : Option Time)
      → username none w.calls ≡ issued before
      → username none (handle_all jose settings Bytes es w).calls ≡ issued (last_refresh before es)
  unfolding handle_all
  handle_all-username [] w before h = unfold last_refresh in h
  handle_all-username (e ∷ es) w before h =
      handle_all-username es (handle jose settings Bytes e w) (last_refresh before (e ∷ []))
        (handle-username e w before h)
      ∙ ap issued (last_refresh-cons before e es)

  handle-backoff :
      (e : Event Bytes) (w : Worker)
      → 1 ≤ w.backoff
      → w.backoff ≤ 30
      → (1 ≤ (handle jose settings Bytes e w).backoff)
        × ((handle jose settings Bytes e w).backoff ≤ 30)
  unfolding handle handle_start handle_stop handle_connect handle_disconnect handle_message
      refresh_jwt
  handle-backoff (start now) w h k = (h, k)
  handle-backoff stop w h k = (h, k)
  handle-backoff (on_connect reason_code) w h k = elim (Bool-cases (eqb reason_code 0)) [
    | inl e ↦ rw e (omega arith, omega arith)
    | inr e ↦ rw e (h, k)
  ]
  handle-backoff (on_disconnect now) w h k = (omega arith, omega arith)
  handle-backoff (on_message topic payload) w h k = (h, k)

  handle_all-backoff :
      (es : List (Event Bytes)) (w : Worker)
      → 1 ≤ w.backoff
      → w.backoff ≤ 30
      → (1 ≤ (handle_all jose settings Bytes es w).backoff)
        × ((handle_all jose settings Bytes es w).backoff ≤ 30)
  unfolding handle_all
  handle_all-backoff [] w h k = (h, k)
  handle_all-backoff (e ∷ es) w h k =
      let (low, high) = handle-backoff e w h k in
      handle_all-backoff es (handle jose settings Bytes e w) low high

-- Through any events after its construction, the worker schedules a put_nowait on the event loop for
-- each message that arrived, in their order and for nothing else (what becomes of those calls is the
-- queue's matter); it connects under the backend token issued when it last
-- started or lost its connection; and its backoff lies between 1 and 30 seconds.
pub worker_session :
    (jose : Jose) (settings : Settings) (Bytes : Type 0) (es : List (Event Bytes))
    → (scheduled (handle_all jose settings Bytes es (new_worker jose settings Bytes)).calls
        ≡ messages es)
      × (username none (handle_all jose settings Bytes es (new_worker jose settings Bytes)).calls
          ≡ issued jose settings Bytes (last_refresh none es))
      × (1 ≤ (handle_all jose settings Bytes es (new_worker jose settings Bytes)).backoff)
      × ((handle_all jose settings Bytes es (new_worker jose settings Bytes)).backoff ≤ 30)
unfolding scheduled username
worker_session jose settings Bytes es =
    let w : MqttWorker jose settings Bytes = new_worker jose settings Bytes in
    (
      handle_all-scheduled jose settings Bytes es w,
      handle_all-username jose settings Bytes es w none refl,
      (handle_all-backoff jose settings Bytes es w (omega arith) (omega arith)).0,
      (handle_all-backoff jose settings Bytes es w (omega arith) (omega arith)).1,
    )
