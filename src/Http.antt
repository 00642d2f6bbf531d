-- ===== src/Http.antt =====
-- How a request handler ends: with a value, with FastAPI's HTTPException, or with an exception that
-- nothing catches (the server answers 500). A handler runs in one database session, so what it did
-- is undone when it raises before its commit.
pub mod Scalar
use mqtt_projeto_vena.Prelude.{ℕ, String, List, [], ◌∷◌, Option, none, some, Bool, true, false}

pub data Exception : Type 0 where
  value_error : Exception
  key_error : Exception
  type_error : Exception
  attribute_error : Exception
  overflow_error : Exception
  os_error : Exception
  unicode_decode_error : Exception
  no_result_found : Exception
  multiple_results_found : Exception
  database_error : Exception
  called_process_error : Exception
  url_error : Exception
  json_decode_error : Exception
  device_not_found : Exception
  not_implemented_error : Exception

pub data Error : Type 0 where
  http_exception : (status_code : ℕ) → (detail : String) → Error
  uncaught : Exception → Error

pub data Result {ℓ} (A : Type ℓ) : Type ℓ where
  ok : A → Result A
  err : Error → Result A

-- `if not condition: raise otherwise`
abbrev pub guard : (condition : Bool) → (otherwise : Error) → Result (Unit {0})
guard false otherwise = err otherwise
guard true otherwise = ok tt

-- `if x is None: raise error`
abbrev pub require {ℓ} : {A : Type ℓ} → Option A → Error → Result A
require none e = err e
require (some a) e = ok a

-- A chain of statements ends at the first error; in a `do` block `←` binds what a statement answered.
infixl 10 ◌>>=◌ ◌>>◌
abbrev pub ◌>>=◌ {κ ℓ} :
    {Answer : Type κ} {Next : Type ℓ} → Result Answer → (next : Answer → Result Next) → Result Next
err raised >>= next = err raised
ok answer >>= next = next answer

abbrev pub ◌>>◌ {κ} : {Next : Type κ} → (check : Result (Unit {0})) → Result Next → Result Next
check >> rest = check >>= λ done. rest

-- SQLAlchemy's `scalar_one_or_none`
unfoldable pub scalar_one_or_none : {R : Type 0} → List R → Result (Option R)
scalar_one_or_none [] = ok none
scalar_one_or_none (r ∷ []) = ok (some r)
scalar_one_or_none (r ∷ s ∷ l) = err (uncaught multiple_results_found)

-- SQLAlchemy's `scalar_one`
unfoldable pub scalar_one : {R : Type 0} → List R → Result R
scalar_one [] = err (uncaught no_result_found)
scalar_one (r ∷ []) = ok r
scalar_one (r ∷ s ∷ l) = err (uncaught multiple_results_found)
