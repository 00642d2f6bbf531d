-- ===== src/Scripts/ProvisionNvs/Flashing.antt =====
-- What the script leaves behind, and when it flashes.
use mathlib.Core.Path.{subst}
use mqtt_projeto_vena.Prelude.{
  eq_iff, zero, suc, ◌≡◌, ◌≢◌, ◌==◌, true, some, ◌∙◌, ◌⊎◌, ◌↔◌, refl, sym, ap, inl, inr, String,
  List, [], ◌∷◌, ◌++◌, none, false, eq_refl, lookup, without, without-absent, Bool-cases,
  Option-cases, arith,
}
use mqtt_projeto_vena.Http.{Exception, called_process_error}
use mqtt_projeto_vena.Json.{ℤ, pos, negsuc}
use mqtt_projeto_vena.Scripts.ProvisionNvs.{
  Files, Argv, World, Written, written, write_failed, Completed, completed, not_started, Ending,
  done, sys_exit, raised, Machine, Args, is_zero, and_then, finally_unlink, with_file, csv_rows,
  find_nvs_partition_gen, run_command, generate_argv, flash_argv, generate_nvs_binary, flash_nvs,
  jwt_of, provision_jwt, provision,
}

abbrev pub IsStopped : Ending (Unit {0}) → Type 0
IsStopped (done u) = ⊥
IsStopped (sys_exit code) = Unit
IsStopped (raised e) = Unit

-- a command that succeeded
abbrev pub Succeeds : Machine → Argv × Files → Type 0
Succeeds m (argv, files) = m.subprocess_run argv files ≡ completed (pos 0)

Completed-cases :
    (c : Completed)
    → (c ≡ completed (pos 0))
      ⊎ (((n : ℤ) × (c ≡ completed n) × (is_zero n ≡ false))
          ⊎ ((e : Exception) × (c ≡ not_started e)))
unfolding is_zero
Completed-cases (completed (pos zero)) = inl refl
Completed-cases (completed (pos (suc n))) = inr (inl (pos (suc n), refl, ground arith))
Completed-cases (completed (negsuc n)) = inr (inl (negsuc n, refl, refl))
Completed-cases (not_started e) = inr (inr (e, refl))

-- a temporary file that is removed
unlinked :
    (name : String) (rows : List (List String)) (files : Files)
    → lookup name files ≡ none
    → without name ((name, rows) ∷ files) ≡ files
unfolding without
unlinked name rows files h = rw (eq_refl name) (without-absent name files h)

-- a name that is not among the files is not that of one of them
other_name :
    (csv bin : String) (files : Files)
    → lookup csv ((bin, []) ∷ files) ≡ none
    → (csv == bin) ≡ false
other_name csv bin files h = elim (Bool-cases (csv == bin)) [
  | inl same ↦
      let refound : (bin == csv) ≡ true =
        subst (λ k. (k == csv) ≡ true) ((eq_iff csv bin).0 same) (eq_refl csv) in
      absurd (found (rw refound at h))
  | inr other ↦ other
]
  where
    found : {a : List (List String)} → some a ≡ none → ⊥
    found e = cc

-- a file that stays when the one below it is removed
left_behind :
    (csv bin : String) (reached : List (List String)) (files : Files)
    → lookup csv ((bin, []) ∷ files) ≡ none
    → lookup bin files ≡ none
    → without bin ((csv, reached) ∷ (bin, []) ∷ files) ≡ (csv, reached) ∷ files
unfolding without
left_behind csv bin reached files other fresh =
    rw (other_name csv bin files other) (ap (λ l. (csv, reached) ∷ l) (unlinked bin [] files fresh))

module _ (m : Machine) where
  abbrev logged : Argv × Files → World → World
  logged c w = record w { commands = w.commands ++ c ∷ [] }

  -- the generator's command, which finds the token in the CSV file
  abbrev pub generating : (jwt nvs_gen : String) → Files → Argv × Files
  generating jwt nvs_gen files =
      (generate_argv m nvs_gen m.bin_path, (m.csv_path, csv_rows jwt) ∷ (m.bin_path, []) ∷ files)

  -- the flasher's command, when the CSV file is gone
  abbrev pub flashing : (port : String) → Files → Argv × Files
  flashing port files = (flash_argv m port m.bin_path, (m.bin_path, []) ∷ files)

  -- The outcomes of the generation.
  abbrev Generated : (jwt : String) → Files → World → World × Ending (Unit {0}) → Type 0
  Generated jwt files w outcome =
      ((outcome ≡ (w, sys_exit 1))
        ⊎ ((x : Exception) × (reached : List (List String)) × (m.write_csv (csv_rows jwt)
              ≡ write_failed x reached)
            × (outcome ≡ (with_file m.csv_path reached w, raised x))))
      ⊎ ((nvs_gen : String) × (e : Ending (Unit {0})) × (outcome
            ≡ (logged (generating jwt nvs_gen files) w, e))
          × (IsStopped e ⊎ ((e ≡ done tt) × Succeeds m (generating jwt nvs_gen files))))

  generated :
      (jwt : String) (w : World)
      → lookup m.csv_path ((m.bin_path, []) ∷ w.files) ≡ none
      → Generated jwt w.files
          (with_file m.bin_path [] w)
          (generate_nvs_binary m jwt m.bin_path (with_file m.bin_path [] w))
  unfolding generate_nvs_binary run_command and_then
  generated jwt w fresh = elim (Option-cases (find_nvs_partition_gen m)) [
    | inl e ↦ inl (inl (rw (generate_nvs_binary, e)))
    | inr (nvs_gen, e) ↦ by_csv nvs_gen e (m.write_csv (csv_rows jwt)) refl
  ]
    where
      by_csv :
          (nvs_gen : String)
          → find_nvs_partition_gen m ≡ some nvs_gen
          → (csv : Written) → m.write_csv (csv_rows jwt) ≡ csv
          → Generated jwt w.files
              (with_file m.bin_path [] w)
              (generate_nvs_binary m jwt m.bin_path (with_file m.bin_path [] w))
      by_csv nvs_gen e (write_failed x reached) c =
          inl (inr (x, reached, c, rw (generate_nvs_binary, e, c) refl))
      by_csv nvs_gen e written k =
          let (argv, files) = generating jwt nvs_gen w.files in
          let gone = unlinked m.csv_path (csv_rows jwt) ((m.bin_path, []) ∷ w.files) fresh in
          inr (elim (Completed-cases (m.subprocess_run argv files)) [
            | inl zero_ ↦ (
              nvs_gen,
              done tt,
              rw (generate_nvs_binary, e, k, run_command, zero_, gone),
              inr (refl, zero_),
            )
            | inr (inl (n, c, other)) ↦ (
              nvs_gen,
              sys_exit 1,
              rw (generate_nvs_binary, e, k, run_command, c, other, gone),
              inl tt,
            )
            | inr (inr (x, c)) ↦
                (nvs_gen, raised x, rw (generate_nvs_binary, e, k, run_command, c, gone), inl tt)
          ])

  -- The outcomes of the flashing.
  abbrev Flashed : (port : String) → Files → World → World × Ending (Unit {0}) → Type 0
  Flashed port files w outcome =
      (outcome ≡ (w, sys_exit 1))
      ⊎ ((e : Ending (Unit {0})) × (outcome ≡ (logged (flashing port files) w, e))
          × ((e ≡ done tt) ↔ Succeeds m (flashing port files)))

  flashed :
      (port : String) (files : Files) (commands : List (Argv × Files))
      → Flashed port files
          (record { files = (m.bin_path, []) ∷ files; commands = commands })
          (flash_nvs m port m.bin_path
            (record { files = (m.bin_path, []) ∷ files; commands = commands }))
  unfolding flash_nvs run_command and_then is_zero
  flashed port files commands = elim (Bool-cases m.has_esptool) [
    | inr e ↦ inl (rw (flash_nvs, e))
    | inl e ↦
        let (argv, found) = flashing port files in
        inr (elim (Completed-cases (m.subprocess_run argv found)) [
          | inl zero_ ↦ (done tt, rw (flash_nvs, e, run_command, zero_), (λ x. zero_, λ x. refl))
          | inr (inl (n, c, other)) ↦ (
            raised called_process_error,
            rw (flash_nvs, e, run_command, c, other),
            (λ x. cc, λ x. not_zero n other (completed-injective (sym c ∙ x))),
          )
          | inr (inr (x, c)) ↦
              (raised x, rw (flash_nvs, e, run_command, c), (λ y. cc, λ y. cc (c, y)))
        ])
  ]
    where
      completed-injective : {a b : ℤ} → completed a ≡ completed b → a ≡ b
      completed-injective h = cc

      not_zero : (n : ℤ) → is_zero n ≡ false → n ≡ pos 0 → raised called_process_error ≡ done tt
      not_zero n other same = cc (ap is_zero same, other)

  -- Which commands were run, from the token on: none, the generator alone, or the generator and then,
  -- since it succeeded, the flasher, whose success is that of the script.
  abbrev pub Ran : (port jwt : String) → World → World × Ending (Unit {0}) → Type 0
  Ran port jwt w (after, e) =
      ((after.commands ≡ w.commands) × IsStopped e)
      ⊎ ((nvs_gen : String) × (((after.commands ≡ w.commands ++ generating jwt nvs_gen w.files ∷ [])
              × IsStopped e)
            ⊎ (Succeeds m (generating jwt nvs_gen w.files)
                × (after.commands
                    ≡ (w.commands ++ generating jwt nvs_gen w.files ∷ [])
                      ++ flashing port w.files ∷ [])
                × ((e ≡ done tt) ↔ Succeeds m (flashing port w.files)))))

  -- The files that are left: those from before, and the CSV file when it could not be written whole.
  abbrev pub Left : (jwt : String) → World → World × Ending (Unit {0}) → Type 0
  Left jwt w (after, e) =
      (after.files ≡ w.files)
      ⊎ ((x : Exception) × (reached : List (List String)) × (m.write_csv (csv_rows jwt)
            ≡ write_failed x reached)
          × (after.files ≡ (m.csv_path, reached) ∷ w.files)
          × (e ≡ raised x))

  provision_jwt-Ran :
      (port jwt : String) (w : World)
      → lookup m.csv_path ((m.bin_path, []) ∷ w.files) ≡ none
      → lookup m.bin_path w.files ≡ none
      → Left jwt w (provision_jwt m port jwt w) × Ran port jwt w (provision_jwt m port jwt w)
  unfolding provision_jwt and_then
  provision_jwt-Ran port jwt w fresh_csv fresh_bin = elim (generated jwt w fresh_csv) [
    | inl (inl missing) ↦ rw (provision_jwt, missing) (inl gone, inl (refl, tt))
    | inl (inr (x, reached, c, ran)) ↦
        rw (provision_jwt, ran)
          (
            inr (
              x,
              reached,
              c,
              left_behind m.csv_path m.bin_path reached w.files fresh_csv fresh_bin,
              refl,
            ),
            inl (refl, tt),
          )
    | inr (nvs_gen, e, ran, inl stopped) ↦ stop nvs_gen e ran stopped
    | inr (nvs_gen, e, ran, inr (finished, zero_)) ↦
        rw (provision_jwt, ran, finished) (go_on nvs_gen zero_)
  ]
    where
      gone : without m.bin_path ((m.bin_path, []) ∷ w.files) ≡ w.files
      gone = unlinked m.bin_path [] w.files fresh_bin

      stop :
          (nvs_gen : String) (e : Ending (Unit {0}))
          → generate_nvs_binary m jwt m.bin_path (with_file m.bin_path [] w)
            ≡ (logged (generating jwt nvs_gen w.files) (with_file m.bin_path [] w), e)
          → IsStopped e
          → Left jwt w (provision_jwt m port jwt w) × Ran port jwt w (provision_jwt m port jwt w)
      stop nvs_gen (done u) ran stopped = elim stopped [ ]
      stop nvs_gen (sys_exit code) ran stopped =
          rw (provision_jwt, ran) (inl gone, inr (nvs_gen, inl (refl, tt)))
      stop nvs_gen (raised x) ran stopped =
          rw (provision_jwt, ran) (inl gone, inr (nvs_gen, inl (refl, tt)))

      go_on :
          (nvs_gen : String)
          → Succeeds m (generating jwt nvs_gen w.files)
          → Left jwt w (
              finally_unlink m.bin_path (
                flash_nvs m port m.bin_path
                  (logged (generating jwt nvs_gen w.files) (with_file m.bin_path [] w))))
            × Ran port jwt w (
                finally_unlink m.bin_path (
                  flash_nvs m port m.bin_path
                    (logged (generating jwt nvs_gen w.files) (with_file m.bin_path [] w))))
      go_on nvs_gen zero_ =
          elim (flashed port w.files (w.commands ++ generating jwt nvs_gen w.files ∷ [])) [
            | inl absent ↦ rw absent (inl gone, inr (nvs_gen, inl (refl, tt)))
            | inr (e, ran, iff) ↦ rw ran (inl gone, inr (nvs_gen, inr (zero_, refl, iff)))
          ]

  -- With the token that it was given or fetched (the empty text for an empty --device-id), the script runs
  -- nothing, or the generator alone, or, only when that succeeded and the CSV file with the token is
  -- gone, the flasher, and then the script succeeds exactly when the flasher does; it leaves the files as
  -- they were, but for the CSV file in one case: if that could not be written, the script ends
  -- with the exception and what was written stays. Where it comes to no token, it runs nothing and
  -- leaves the files as they were. This is for names of temporary files that are new, as `tempfile` picks
  -- them.
  pub provision_outcome :
      (args : Args) (w : World)
      → lookup m.csv_path ((m.bin_path, []) ∷ w.files) ≡ none
      → lookup m.bin_path w.files ≡ none
      → ((jwt : String) × (jwt_of m args ≡ done jwt)
          × Left jwt w (provision m args w)
          × Ran args.port jwt w (provision m args w))
        ⊎ (IsStopped (provision m args w).1
            × ((provision m args w).0 ≡ w)
            × ((jwt : String) → jwt_of m args ≢ done jwt))
  unfolding provision
  provision_outcome args w fresh_csv fresh_bin = by_token (jwt_of m args) refl
    where
      by_token :
          (token : Ending String)
          → jwt_of m args ≡ token
          → ((jwt : String) × (jwt_of m args ≡ done jwt)
              × Left jwt w (provision m args w)
              × Ran args.port jwt w (provision m args w))
            ⊎ (IsStopped (provision m args w).1
                × ((provision m args w).0 ≡ w)
                × ((jwt : String) → jwt_of m args ≢ done jwt))
      by_token (done jwt) e =
          let (left, ran) = provision_jwt-Ran args.port jwt w fresh_csv fresh_bin in
          inl (jwt, e, rw (provision, e) left, rw (provision, e) ran)
      by_token (sys_exit code) e = inr (rw (provision, e) tt, rw (provision, e) refl, λ jwt d. cc)
      by_token (raised x) e = inr (rw (provision, e) tt, rw (provision, e) refl, λ jwt d. cc)
