-- ===== src/Updater/Package.antt =====
-- src/llamaste/updater.h and updater.cpp: `parse_update_file`. The file is the list of its bytes,
-- or `none` if it does not open. `parse_manifest` reads JSON and is a parameter, over the type of
-- the manifest, with the test of its field `valid`.
use llamaste.Prelude.{
  ℕ, ◌+◌, ◌-◌, ◌*◌, Bool, true, false, Option, none, some, [], ◌++◌, Bytes, codes, bytes_eq,
  decimal, get_or, ltb, ◌==◌, if◌then◌else◌, length, take, drop, replicate,
}

-- `manifest` is there once the manifest has been parsed.
pub record UpdateFileInfo (M : Type 0) : Type 0 where
  pub valid : Bool
  pub error : Bytes
  pub manifest : Option M
  pub manifest_json : Bytes
  pub signature : Bytes
  pub payload_offset : ℕ
  pub payload_size : ℕ

abbrev pub blank : {M : Type 0} → UpdateFileInfo M
blank = record {
  valid = false;
  error = [];
  manifest = none;
  manifest_json = [];
  signature = replicate 64 0;
  payload_offset = 0;
  payload_size = 0;
}

abbrev failed : {M : Type 0} → Bytes → UpdateFileInfo M → UpdateFileInfo M
failed what info = record info { error = what }

-- Four bytes from `i` on, the lowest first.
unfoldable pub read_u32_le : Bytes → ℕ → ℕ
read_u32_le p i =
    get_or p i 0
    + get_or p (i + 1) 0 * 256
    + get_or p (i + 2) 0 * 65536
    + get_or p (i + 3) 0 * 16777216

module _ {M : Type 0} (parse_manifest : Bytes → M) (is_valid : M → Bool) where
  -- What is left of the file behind the manifest.
  unfoldable pub parse_signed : ℕ → ℕ → Bytes → Bytes → UpdateFileInfo M → UpdateFileInfo M
  parse_signed file_size manifest_size manifest_json rest info0 =
      let info1 : UpdateFileInfo M = record info0 {
        manifest_json = manifest_json;
        signature = take 64 rest ++ replicate (64 - length rest) 0;
      } in
      let offset : ℕ = 12 + manifest_size + 64 in
      let info2 : UpdateFileInfo M = record info1 {
        payload_offset = offset;
        payload_size = if ltb offset file_size then file_size - offset else 0;
        manifest = some (parse_manifest manifest_json);
      } in
      if ltb (length rest) 64
      then failed (codes "truncated signature") info1
      else if is_valid (parse_manifest manifest_json)
      then record info2 { valid = true }
      else failed (codes "invalid manifest JSON") info2

  unfoldable pub parse_contents : Bytes → UpdateFileInfo M
  parse_contents file =
      let fmt_ver : ℕ = read_u32_le file 4 in
      let manifest_size : ℕ = read_u32_le file 8 in
      let rest : Bytes = drop 12 file in
      if ltb (length file) 12
      then failed (codes "file too small for header") blank
      else if bytes_eq (take 4 file) (codes "LMUP")
      then (if fmt_ver == 1
          then (if ltb 1048576 manifest_size
              then failed (codes "manifest too large: " ++ decimal manifest_size) blank
              else if ltb (length rest) manifest_size
              then failed (codes "truncated manifest") blank
              else parse_signed (length file) manifest_size (take manifest_size rest)
                  (drop manifest_size rest) blank)
          else failed (codes "unsupported format version: " ++ decimal fmt_ver) blank)
      else failed (codes "invalid magic (not a .update file)") blank

  unfoldable pub parse_update_file : Bytes → Option Bytes → UpdateFileInfo M
  parse_update_file path none = failed (codes "cannot open file: " ++ path) blank
  parse_update_file path (some file) = parse_contents file
