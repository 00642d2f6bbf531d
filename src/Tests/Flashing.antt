-- ===== src/Tests/Flashing.antt =====
-- The NVS script on a machine where every command succeeds.
use mqtt_projeto_vena.Prelude.{◌≡◌, ◌≢◌, ◌⊎◌, refl, String, [], ◌∷◌, none, some, true}
use mqtt_projeto_vena.Json.{pos}
use mqtt_projeto_vena.Scripts.ProvisionNvs.{
  World, written, completed, done, no_response, Machine, Args, jwt_of, provision,
}
use mqtt_projeto_vena.Http.{url_error}
use mqtt_projeto_vena.Scripts.ProvisionNvs.Flashing.{Left, Ran, IsStopped, provision_outcome}

abbrev machine : Machine
machine = record {
  idf_path = "/opt/idf";
  pio_matches = none;
  exists = λ path. true;
  executable = "python";
  csv_path = "/tmp/a.csv";
  bin_path = "/tmp/b.bin";
  has_esptool = true;
  subprocess_run = λ argv files. completed (pos 0);
  write_csv = λ rows. written;
  urlopen = λ url access_token. no_response url_error;
  csv_text = λ j. "";
}

abbrev args : Args
args = record {
  port = "COM3";
  jwt = some "eyJ";
  device_id = none;
  access_token = none;
  backend_url = "http://localhost:8000";
}

abbrev disk : World
disk = record { files = ("/home/notes", []) ∷ []; commands = [] }

provision_outcome_example :
    ((jwt : String) × (jwt_of machine args ≡ done jwt)
      × Left machine jwt disk (provision machine args disk)
      × Ran machine "COM3" jwt disk (provision machine args disk))
    ⊎ (IsStopped (provision machine args disk).1
        × ((provision machine args disk).0 ≡ disk)
        × ((jwt : String) → jwt_of machine args ≢ done jwt))
provision_outcome_example = provision_outcome machine args disk refl refl
