-- ===== src/Mqtt/Topics.antt =====
-- backend/app/mqtt/topics.py
use Prim.Native.Char.{Char}
use mqtt_projeto_vena.Prelude.{
  ◌≡◌, ◌↔◌, ◌∙◌, sym, ap, String, List, [], ◌∷◌, Option, none, some, split, split-AllLack,
  split-join, join, join-split, AllLack, Lacks, arith, ◌==◌, eq_iff, if◌then◌else◌,
}

-- The test on the parts, `len(parts) != 3 or parts[0] != "vena"`.
unfoldable pub parse_parts : List String → Option (String × String)
parse_parts (first ∷ device_id ∷ kind ∷ []) =
    if first == "vena" then some (device_id, kind) else none
parse_parts _ = none

unfoldable pub parse_topic : String → Option (String × String)
unfolding parse_parts
parse_topic topic = parse_parts (split b'/' topic)

abbrev slash : Char
slash = "/"

-- The topic of a device's messages of one kind, as the devices publish it.
abbrev pub topic_of : (device_id kind : String) → String
topic_of device_id kind = join "/" ("vena" ∷ device_id ∷ kind ∷ [])

parsed_parts :
    (parts : List String) (device_id kind : String)
    → parse_parts parts ≡ some (device_id, kind)
    → parts ≡ "vena" ∷ device_id ∷ kind ∷ []
unfolding parse_parts
parsed_parts (first ∷ d ∷ k ∷ []) device_id kind h = ground (arith, eq_iff first "vena")
parsed_parts [] device_id kind h = cc
parsed_parts (a ∷ []) device_id kind h = cc
parsed_parts (a ∷ b ∷ []) device_id kind h = cc
parsed_parts (a ∷ b ∷ c ∷ d ∷ l) device_id kind h = cc

parse-topic_of :
    (device_id kind : String)
    → Lacks b'/' device_id
    → Lacks b'/' kind
    → parse_topic (topic_of device_id kind) ≡ some (device_id, kind)
unfolding parse_topic
parse-topic_of device_id kind hd hk =
    rw (split-join slash ("vena" ∷ device_id ∷ kind ∷ []) (λ e. cc) (omega arith, (hd, (hk, tt))))

topic_of-parse :
    (topic device_id kind : String)
    → parse_topic topic ≡ some (device_id, kind)
    → (topic ≡ topic_of device_id kind) × Lacks b'/' device_id × Lacks b'/' kind
unfolding parse_topic
topic_of-parse topic device_id kind h =
    let parts = parsed_parts (split b'/' topic) device_id kind h in
    let lack : AllLack b'/' ("vena" ∷ device_id ∷ kind ∷ []) =
      rw parts at (split-AllLack b'/' topic) in
    (sym (join-split slash topic) ∙ ap (join "/") parts, lack.1.0, lack.1.1.0)

-- A topic parses to a device and a kind exactly when it is vena/{device}/{kind} and neither name holds
-- a slash. Names may be empty.
pub parse_topic_iff :
    (topic device_id kind : String)
    → (parse_topic topic ≡ some (device_id, kind))
      ↔ ((topic ≡ topic_of device_id kind) × Lacks b'/' device_id × Lacks b'/' kind)
parse_topic_iff topic device_id kind =
    (topic_of-parse topic device_id kind, λ (e, hd, hk). rw e (parse-topic_of device_id kind hd hk))
