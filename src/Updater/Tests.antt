-- ===== src/Updater/Tests.antt =====
-- The updater at concrete command lines, variables and files.
use llamaste.Prelude.{
  ℕ, ◌+◌, ◌≤◌, ◌≡◌, refl, true, some, [], ◌∷◌, ◌++◌, codes, bytes_ltb, length, replicate, All,
  arith,
}
use llamaste.Updater.Grubenv.{Vars, grubenv_parse, grubenv_header, entry_lines, grubenv_serialize}
use llamaste.Updater.Layout.{update_file, parse_update_file-update_file}
use llamaste.Updater.Package.{parse_update_file}
use llamaste.Updater.RoundTrip.{IsEntry, IsSorted, grubenv_parse-grubenv_serialize}

abbrev boot_vars : Vars
boot_vars = (codes "boot_tries", codes "3") ∷ (codes "slot", codes "B") ∷ []

boot_vars-IsEntry : All IsEntry boot_vars
boot_vars-IsEntry = ground arith

boot_vars-IsSorted : IsSorted boot_vars
unfolding bytes_ltb
boot_vars-IsSorted = ((refl, tt), (tt, tt))

boot_vars_fit : length (grubenv_header ++ entry_lines boot_vars) ≤ 1024
unfolding entry_lines
boot_vars_fit = omega arith

grubenv_parse-grubenv_serialize_example : grubenv_parse (grubenv_serialize boot_vars) ≡ boot_vars
grubenv_parse-grubenv_serialize_example =
    grubenv_parse-grubenv_serialize boot_vars boot_vars-IsEntry boot_vars-IsSorted boot_vars_fit

parse_update_file-update_file_example :
    parse_update_file
      (λ text. text)
      (λ m. true)
      (codes "a.update")
      (some (update_file (codes "{}") (replicate 64 7) (1 ∷ 2 ∷ [])))
    ≡ record {
      valid = true;
      error = [];
      manifest = some (codes "{}");
      manifest_json = codes "{}";
      signature = replicate 64 7;
      payload_offset = 76 + length (codes "{}");
      payload_size = length {A = ℕ} (1 ∷ 2 ∷ []);
    }
parse_update_file-update_file_example =
    parse_update_file-update_file (λ text. text) (λ m. true) (codes "a.update") (codes "{}")
      (replicate 64 7) (1 ∷ 2 ∷ []) (omega arith) refl refl
