-- ===== src/Scripts/ProvisionNvs.antt =====
-- backend/scripts/provision_nvs.py. The state is the temporary files and the commands that were run, each
-- with the files that it found. What a command, the network and the disk answer is a parameter. Of the
-- command line, the parsed arguments are what is modelled; printing is left out.
pub mod Flashing
use mqtt_projeto_vena.Prelude.{
  ℕ, String, List, [], ◌∷◌, ◌++◌, Option, none, some, Bool, true, false, ◌==◌, ◌<>◌, eqb, lookup,
  without, if◌then◌else◌,
}
use mqtt_projeto_vena.Http.{
  Exception, key_error, type_error, called_process_error, url_error, unicode_decode_error,
}
use mqtt_projeto_vena.Json.{Json, Fields, ℤ, pos, negsuc, obj, pairs}
use mqtt_projeto_vena.Telemetry.Ingest.Rows.{Loaded, json, json_decode_error, not_unicode}
use mqtt_projeto_vena.Http.{json_decode_error as decode_error}

-- The rows of a CSV file; a file that holds none is there for its name.
abbrev pub Files : Type 0
Files = List (String × List (List String))

abbrev pub Argv : Type 0
Argv = List String

pub record World : Type 0 where
  pub files : Files
  pub commands : List (Argv × Files)

-- What `subprocess.run` gives: a return code, or the exception of a program that does not start.
pub data Completed : Type 0 where
  completed : (returncode : ℤ) → Completed
  not_started : Exception → Completed

-- What `urlopen` gives: a body, the HTTPError of a status, or another exception.
pub data Response : Type 0 where
  body : Loaded → Response
  http_error : Response
  no_response : Exception → Response

-- What writing a CSV file gives: all its rows, or an exception, with the rows that reached the disk.
pub data Written : Type 0 where
  written : Written
  write_failed : Exception → (reached : List (List String)) → Written

-- How a statement ends: with a value, by sys.exit, or with an exception.
pub data Ending (A : Type 0) : Type 0 where
  done : A → Ending A
  sys_exit : (code : ℕ) → Ending A
  raised : Exception → Ending A

pub record Machine : Type 0 where
  -- os.environ.get("IDF_PATH", ""), and the matches under ~/.platformio/packages, if it is there
  pub idf_path : String
  pub pio_matches : Option (List String)
  pub exists : String → Bool
  -- sys.executable, and the names that tempfile picks
  pub executable : String
  pub csv_path : String
  pub bin_path : String
  pub has_esptool : Bool
  pub subprocess_run : Argv → Files → Completed
  pub write_csv : List (List String) → Written
  pub urlopen : (url access_token : String) → Response
  -- what csv writes for a value of JSON
  pub csv_text : Json → String

pub record Args : Type 0 where
  pub port : String
  pub jwt : Option String
  pub device_id : Option String
  pub access_token : Option String
  pub backend_url : String

-- `if text:` on what may be None
abbrev pub is_truthy : Option String → Bool
is_truthy none = false
is_truthy (some s) = if s == "" then false else true

abbrev pub text_of : Option String → String
text_of none = ""
text_of (some s) = s

unfoldable pub is_zero : ℤ → Bool
is_zero (pos n) = eqb n 0
is_zero (negsuc n) = false

-- the statements after one that may end the script
unfoldable pub and_then :
    {A B : Type 0} → World × Ending A → (A → World → World × Ending B) → World × Ending B
and_then (w, done a) next = next a w
and_then (w, sys_exit code) next = (w, sys_exit code)
and_then (w, raised e) next = (w, raised e)

-- `try: … finally: Path(name).unlink(missing_ok=True)`
abbrev pub finally_unlink : {A : Type 0} → String → World × Ending A → World × Ending A
finally_unlink name (w, ending) = (record w { files = without name w.files }, ending)

-- `tempfile.NamedTemporaryFile(delete=False)`, with the rows that are written
abbrev pub with_file : String → List (List String) → World → World
with_file name rows w = record w { files = (name, rows) ∷ w.files }

unfoldable pub first_existing : (exists : String → Bool) → List String → Option String
first_existing exists [] = none
first_existing exists (c ∷ cs) =
    let rest = first_existing exists cs in
    if c == "" then rest else if exists c then some c else rest

-- the rows of the CSV file
unfoldable pub csv_rows : (jwt : String) → List (List String)
csv_rows jwt =
    ("key" ∷ "type" ∷ "encoding" ∷ "value" ∷ [])
    ∷ ("vena" ∷ "namespace" ∷ "" ∷ "" ∷ [])
    ∷ ("device_jwt" ∷ "data" ∷ "string" ∷ jwt ∷ [])
    ∷ []

module _ (m : Machine) where
  unfoldable pub candidates : List String
  candidates =
      (if m.idf_path == ""
        then []
        else (m.idf_path <> "/components/nvs_flash/nvs_partition_generator/nvs_partition_gen.py")
          ∷ [])
      ++ elim m.pio_matches [ none ↦ [] | some matches ↦ matches ]

  unfoldable pub find_nvs_partition_gen : Option String
  unfolding first_existing candidates
  find_nvs_partition_gen = first_existing m.exists candidates

  -- `subprocess.run`
  unfoldable pub run_command : Argv → World → World × Ending ℤ
  run_command argv w = (
    record w { commands = w.commands ++ (argv, w.files) ∷ [] },
    elim (m.subprocess_run argv w.files) [
      | completed returncode ↦ done returncode
      | not_started e ↦ raised e
    ],
  )

  abbrev pub generate_argv : (nvs_gen output_path : String) → Argv
  generate_argv nvs_gen output_path =
      m.executable ∷ nvs_gen ∷ "generate" ∷ m.csv_path ∷ output_path ∷ "0x5000" ∷ []

  abbrev pub flash_argv : (port binary_path : String) → Argv
  flash_argv port binary_path =
      m.executable ∷ "-m" ∷ "esptool" ∷ "--port" ∷ port ∷ "--baud" ∷ "460800" ∷ "write_flash"
      ∷ "0x9000" ∷ binary_path ∷ []

  -- The CSV file is written in front of the `try`.
  unfoldable pub generate_nvs_binary :
      (jwt output_path : String) → World → World × Ending (Unit {0})
  unfolding csv_rows run_command and_then is_zero
  generate_nvs_binary jwt output_path w = elim find_nvs_partition_gen [
    | none ↦ (w, sys_exit 1)
    | some nvs_gen ↦ elim (m.write_csv (csv_rows jwt)) [
      | write_failed e reached ↦ (with_file m.csv_path reached w, raised e)
      | written ↦ finally_unlink m.csv_path (
          and_then
            (run_command (generate_argv nvs_gen output_path)
              (with_file m.csv_path (csv_rows jwt) w))
            (λ returncode w'. (w', if is_zero returncode then done tt else sys_exit 1)))
    ]
  ]

  unfoldable pub flash_nvs : (port binary_path : String) → World → World × Ending (Unit {0})
  unfolding run_command and_then is_zero
  flash_nvs port binary_path w =
      if m.has_esptool
      then and_then (run_command (flash_argv port binary_path) w) (λ returncode w'.
        (w', if is_zero returncode then done tt else raised called_process_error))
      else (w, sys_exit 1)

  unfoldable pub device_jwt_of : Json → Ending String
  device_jwt_of (obj fields) = elim (lookup "device_jwt" (pairs fields)) [
    | none ↦ raised key_error
    | some jwt ↦ done (m.csv_text jwt)
  ]
  device_jwt_of _ = raised type_error

  unfoldable pub fetch_device_jwt : (device_id access_token base_url : String) → Ending String
  unfolding device_jwt_of
  fetch_device_jwt device_id access_token base_url =
      elim (m.urlopen (base_url <> "/devices/" <> device_id <> "/provision") access_token) [
        | http_error ↦ sys_exit 1
        | no_response e ↦ raised e
        | body (json data_) ↦ device_jwt_of data_
        | body json_decode_error ↦ raised decode_error
        | body not_unicode ↦ raised unicode_decode_error
      ]

  -- the token to write: fetched for a device, or given; `parser.error` exits with 2
  unfoldable pub jwt_of : Args → Ending String
  unfolding fetch_device_jwt
  jwt_of args =
      if is_truthy args.device_id
      then if is_truthy args.access_token
        then fetch_device_jwt (text_of args.device_id) (text_of args.access_token) args.backend_url
        else sys_exit 2
      else done (text_of args.jwt)

  -- from the temporary file of the image on
  unfoldable pub provision_jwt : (port jwt : String) → World → World × Ending (Unit {0})
  unfolding generate_nvs_binary flash_nvs and_then
  provision_jwt port jwt w = finally_unlink m.bin_path (
      and_then (generate_nvs_binary jwt m.bin_path (with_file m.bin_path [] w))
        (λ u w'. flash_nvs port m.bin_path w'))

  unfoldable pub provision : Args → World → World × Ending (Unit {0})
  unfolding jwt_of provision_jwt
  provision args w = elim (jwt_of args) [
    | done jwt ↦ provision_jwt args.port jwt w
    | sys_exit code ↦ (w, sys_exit code)
    | raised e ↦ (w, raised e)
  ]
