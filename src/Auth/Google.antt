-- ===== src/Auth/Google.antt =====
-- backend/app/auth/google.py. `google.oauth2.id_token.verify_oauth2_token` is a parameter: it answers
-- with the claims of the token, or fails with a message.
use mqtt_projeto_vena.Prelude.{String, List, Option, none, some, lookup, ◌==◌, ◌<>◌, if◌then◌else◌}
use mqtt_projeto_vena.Http.{Exception, key_error}
use mqtt_projeto_vena.Config.{Settings}

pub record GoogleUserInfo : Type 0 where
  pub sub : String
  pub email : String
  pub name : Option String

-- The answer of Google's library.
pub data Verified : Type 0 where
  idinfo : List (String × String) → Verified
  failed : (message : String) → Verified

-- The result of `verify_google_token`: the user, the ValueError that it raises, or another exception.
pub data GoogleCheck : Type 0 where
  user_info : GoogleUserInfo → GoogleCheck
  invalid : (detail : String) → GoogleCheck
  raised : Exception → GoogleCheck

-- `settings.google_client_id or None`
abbrev pub or_none : String → Option String
or_none s = if s == "" then none else some s

-- `idinfo["sub"]` and `idinfo["email"]` are required, `idinfo.get("name")` is not
unfoldable pub read_idinfo : List (String × String) → GoogleCheck
read_idinfo info = elim (lookup "sub" info) [
  | none ↦ raised key_error
  | some sub ↦ elim (lookup "email" info) [
    | none ↦ raised key_error
    | some email ↦ user_info (record { sub = sub; email = email; name = lookup "name" info })
  ]
]

unfoldable pub verify_google_token :
    (verify_oauth2_token : String → Option String → Verified) (settings : Settings)
    → (token : String) → GoogleCheck
unfolding read_idinfo
verify_google_token verify_oauth2_token settings token =
    elim (verify_oauth2_token token (or_none settings.google_client_id)) [
      | idinfo info ↦ read_idinfo info
      | failed message ↦ invalid ("Invalid Google token: " <> message)
    ]
