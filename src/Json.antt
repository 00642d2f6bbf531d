-- ===== src/Json.antt =====
-- The values that Python's `json.loads` builds. A float is the bits of its binary64.
use mqtt_projeto_vena.Prelude.{ℕ, String, List, [], ◌∷◌, Bool, Option, none, some, lookup}

-- Python's `int`; `negsuc n` is -(n + 1)
pub data ℤ : Type 0 where
  pos : ℕ → ℤ
  negsuc : ℕ → ℤ

mutual
  pub data Json : Type 0 where
    null : Json
    bool : Bool → Json
    int : ℤ → Json
    float : ℕ → Json
    str : String → Json
    arr : Items → Json
    obj : Fields → Json

  pub data Items : Type 0 where
    nil : Items
    cons : Json → Items → Items

  pub data Fields : Type 0 where
    end : Fields
    field : String → Json → Fields → Fields

-- the pairs of a dict
abbrev pub pairs : Fields → List (String × Json)
pairs end = []
pairs (field k v fs) = (k, v) ∷ pairs fs

-- `d.get(key)`, with JSON's null for Python's None in either place
abbrev pub or_null : Option Json → Json
or_null none = null
or_null (some v) = v

unfoldable pub get : Fields → String → Json
get fs key = or_null (lookup key (pairs fs))
