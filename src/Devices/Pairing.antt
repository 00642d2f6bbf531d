-- ===== src/Devices/Pairing.antt =====
-- backend/app/devices/pairing.py. SHA-256 (as a hex text) and the package `bcrypt` are parameters. The
-- model of `lower` and `upper` is for ASCII text, as a MAC address and a hex digest are.
use Prim.Native.Char.{Char, code}
use mqtt_projeto_vena.Prelude.{
  ℕ, zero, suc, ◌≡◌, String, List, [], ◌∷◌, Option, none, some, Bool, true, ◌<>◌, eqb, join,
  if◌then◌else◌,
}
use mqtt_projeto_vena.Http.{Result, ok, err, uncaught, value_error}
use mqtt_projeto_vena.Config.{Settings}

-- `text.replace(ch, "")`
unfoldable pub remove : ℕ → String → String
remove ch String.[] = String.[]
remove ch (String.◌∷◌ c s) =
    let rest = remove ch s in if eqb (code c) ch then rest else String.◌∷◌ c rest

-- the letters A to Z, each with its small letter
abbrev pub letters : List (Char × Char)
letters =
    ("A", "a")
    ∷ ("B", "b")
    ∷ ("C", "c")
    ∷ ("D", "d")
    ∷ ("E", "e")
    ∷ ("F", "f")
    ∷ ("G", "g")
    ∷ ("H", "h")
    ∷ ("I", "i")
    ∷ ("J", "j")
    ∷ ("K", "k")
    ∷ ("L", "l")
    ∷ ("M", "m")
    ∷ ("N", "n")
    ∷ ("O", "o")
    ∷ ("P", "p")
    ∷ ("Q", "q")
    ∷ ("R", "r")
    ∷ ("S", "s")
    ∷ ("T", "t")
    ∷ ("U", "u")
    ∷ ("V", "v")
    ∷ ("W", "w")
    ∷ ("X", "x")
    ∷ ("Y", "y")
    ∷ ("Z", "z")
    ∷ []

unfoldable pub small : List (Char × Char) → Char → Char
small [] c = c
small ((big, little) ∷ l) c = if eqb (code c) (code big) then little else small l c

unfoldable pub big : List (Char × Char) → Char → Char
big [] c = c
big ((great, little) ∷ l) c = if eqb (code c) (code little) then great else big l c

-- `text.lower()` and `text.upper()`
unfoldable pub lower : String → String
lower String.[] = String.[]
lower (String.◌∷◌ c s) = String.◌∷◌ (small letters c) (lower s)

unfoldable pub upper : String → String
upper String.[] = String.[]
upper (String.◌∷◌ c s) = String.◌∷◌ (big letters c) (upper s)

-- `text[:n]` and `text[n:]`
unfoldable pub take_text : ℕ → String → String
take_text zero s = String.[]
take_text (suc n) String.[] = String.[]
take_text (suc n) (String.◌∷◌ c s) = String.◌∷◌ c (take_text n s)

unfoldable pub drop_text : ℕ → String → String
drop_text zero s = s
drop_text (suc n) String.[] = String.[]
drop_text (suc n) (String.◌∷◌ c s) = drop_text n s

-- `clean[i:i + 2] for i in range(0, 12, 2)`, `rounds` of them from where the text begins
unfoldable pub octets : (rounds : ℕ) → String → List String
octets zero s = []
octets (suc n) s = take_text 2 s ∷ octets n (drop_text 2 s)

-- The MAC address without separators, in small letters.
unfoldable pub clean_mac : String → String
clean_mac mac = remove b'-' (remove b':' (lower mac))

-- The package `bcrypt`: `gensalt` is given as an argument, and `checkpw` raises a ValueError (`none`)
-- for a stored text that is no bcrypt hash.
pub record Bcrypt : Type 0 where
  pub hashpw : (password salt : String) → String
  pub checkpw : (password hashed : String) → Option Bool
  pub checkpw-hashpw :
      (password salt : String) → checkpw password (hashpw password salt) ≡ some true

module _ (sha256 : String → String) (settings : Settings) where
  unfoldable pub generate_pairing_code : (mac : String) → String
  generate_pairing_code mac =
      upper (take_text 8 (sha256 (join ":" (octets 6 (clean_mac mac)) <> settings.pairing_secret)))

module _ (bcrypt : Bcrypt) where
  unfoldable pub hash_pairing_code : (salt code : String) → String
  hash_pairing_code salt code = bcrypt.hashpw code salt

  unfoldable pub verify_pairing_code : (code hashed : String) → Result Bool
  verify_pairing_code code hashed = elim (bcrypt.checkpw code hashed) [
    | none ↦ err (uncaught value_error)
    | some b ↦ ok b
  ]
