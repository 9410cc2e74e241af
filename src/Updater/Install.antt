-- ===== src/Updater/Install.antt =====
-- src/llamaste/updater.cpp: `install_update` and `mark_boot_success`.
use Prim.Native.Nat.{min}
use llamaste.Prelude.{
  ℕ, zero, suc, ◌+◌, ◌-◌, Bool, true, false, not, ◌&&◌, Option, none, some, List, [], ◌∷◌, ◌++◌,
  Bytes, codes, is_empty, bytes_eq, decimal, pos, ltb_ℤ, leb_ℤ, Assoc, lookup, insert, ltb, leb,
  ◌==◌, if◌then◌else◌, length, take, drop,
}
use llamaste.Updater.{Version, version_compare, inactive_slot, inactive_partition_num}
use llamaste.Updater.Device.{detect_current_slot, target_device}
use llamaste.Updater.Grubenv.{Vars, put, grubenv_parse, grubenv_serialize}
use llamaste.Updater.Manifest.{UpdateManifest, ManifestDoc, parse_manifest, sha256_hex, key_is_zero}
use llamaste.Updater.Package.{UpdateFileInfo, parse_update_file}

-- What an installation asks of the system, one field for each call. The package is read twice;
-- `write off n` is what the `write` of `n` bytes at `off` returns, and `stored` how a file that
-- `grubenv_write` wrote comes out, and `meta_opens` that of the slot's metadata.
pub record System : Type 0 where
  pub path : Bytes
  pub first_read : Option Bytes
  pub second_read : Option Bytes
  pub seeks : Bool
  pub has_memory : Bool
  pub scan : Bytes → Version
  pub version : Bytes
  pub parse : Bytes → Option ManifestDoc
  pub public_key : Bytes
  pub verify : Bytes → Bytes → Bytes → Bool
  pub hash : Bytes → Bytes
  pub cmdline : Option Bytes
  pub mounts : Option Bytes
  pub exists : Bytes → Bool
  pub write : ℕ → ℕ → Option ℕ
  pub stored : Bool
  pub meta_opens : Bool

-- The bytes of each partition, the files of the boot variables, and the slots' metadata.
pub record Disk : Type 0 where
  pub partitions : Assoc Bytes
  pub grubenv : Assoc Bytes
  pub slots : Assoc (Bytes × Bytes)

pub data Installed : Type 0 where
  error : Bytes → Installed
  success : Bytes → Bytes → Bytes → ℕ → Installed

-- The candidates of `find_grubenv_path`.
abbrev grubenv_paths : List Bytes
grubenv_paths =
    codes "/boot/efi/EFI/BOOT/grubenv"
    ∷ codes "/boot/efi/grub/grubenv"
    ∷ codes "/boot/efi/boot/grub/grubenv"
    ∷ codes "/boot/grub/grubenv"
    ∷ codes "/mnt/esp/EFI/BOOT/grubenv"
    ∷ codes "/mnt/esp/grub/grubenv"
    ∷ codes "/mnt/esp/boot/grub/grubenv"
    ∷ []

unfoldable pub first_existing : (Bytes → Bool) → List Bytes → Bytes
first_existing exists [] = []
first_existing exists (path ∷ paths) = if exists path then path else first_existing exists paths

unfoldable pub find_grubenv_path : (Bytes → Bool) → Bytes
find_grubenv_path exists = first_existing exists grubenv_paths

abbrev read_or_empty : Option Bytes → Vars
read_or_empty none = []
read_or_empty (some text) = grubenv_parse text

unfoldable pub grubenv_read : Bytes → Disk → Vars
grubenv_read path d = read_or_empty (lookup path d.grubenv)

-- The file is replaced by a rename, or stays.
unfoldable pub grubenv_write : Bool → Bytes → Vars → Disk → Disk
grubenv_write stored path vars d =
    if stored then record d { grubenv = insert path (grubenv_serialize vars) d.grubenv } else d

-- Step 7.
unfoldable pub switch_slot : System → Bytes → Disk → Disk
switch_slot s target d =
    let path : Bytes = find_grubenv_path s.exists in
    let vars : Vars = put (codes "boot_counter") (codes "3") (
      put (codes "boot_success") (codes "0")
        (put (codes "active_slot") target (grubenv_read path d))) in
    if is_empty path then d else grubenv_write s.stored path vars d

abbrev pub chunk_size : ℕ
chunk_size = 4194304

abbrev pub wrote : Option ℕ → ℕ
wrote none = 0
wrote (some n) = n

-- The bytes that were counted as written, those that are on the disk, and whether all went well.
-- Every round but the last writes a whole chunk, so the number of bytes is enough fuel.
unfoldable pub write_chunks : ℕ → (ℕ → ℕ → Option ℕ) → ℕ → ℕ → ℕ × (ℕ × Bool)
write_chunks zero write size written = (written, (written, leb size written))
write_chunks (suc f) write size written =
    let chunk : ℕ = min chunk_size (size - written) in
    let nw : ℕ = wrote (write written chunk) in
    let rest = write_chunks f write size (written + nw) in
    if leb size written
    then (written, (written, true))
    else if ltb 0 nw && (nw == chunk)
    then rest
    else (written, (written + min nw chunk, false))

-- The partition, once `n` bytes of the payload are on it.
abbrev pub overwritten : Bytes → ℕ → Bytes → Bytes
overwritten payload n old = take n payload ++ drop n old

abbrev pub Outcome : Type 0
Outcome = Disk × Installed

abbrev pub refuse : Disk → Bytes → Outcome
refuse d what = (d, error what)

module _ (s : System) where
  -- Steps 7 and 8, behind the loop that writes.
  unfoldable pub finish : UpdateManifest → Bytes → Bytes → ℕ × (ℕ × Bool) → Disk → Outcome
  finish m target dev (written, (_, false)) d =
      refuse d (codes "write failed after " ++ (decimal written ++ codes " bytes"))
  finish m target dev (written, (_, true)) d =
      let d1 : Disk = switch_slot s target d in
      let d2 : Disk = record d1 { slots = insert target (m.version, m.build_date) d1.slots } in
      (if s.meta_opens then d2 else d1, success m.version target dev written)

  -- The open device: it is there if it has contents.
  unfoldable pub write_to : UpdateManifest → Bytes → Bytes → Bytes → Option Bytes → Disk → Outcome
  write_to m target payload dev none d =
      refuse d (codes "cannot open " ++ (dev ++ codes " for writing"))
  write_to m target payload dev (some old) d =
      let w : ℕ × (ℕ × Bool) = write_chunks (length payload) s.write (length payload) 0 in
      finish m target dev w
        (record d { partitions = insert dev (overwritten payload w.1.0 old) d.partitions })

  -- Step 6.
  unfoldable pub write_payload : UpdateManifest → Bytes → Disk → Outcome
  write_payload m payload d =
      let active : Bytes = detect_current_slot s.cmdline in
      let part_num : ℕ = inactive_partition_num active in
      let dev : Bytes = target_device s.exists s.mounts part_num in
      if is_empty dev
      then refuse d (codes "cannot find block device for partition " ++ decimal part_num)
      else write_to m (inactive_slot active) payload dev (lookup dev d.partitions) d

  abbrev pub payload_of : UpdateFileInfo UpdateManifest → Bytes → Bytes
  payload_of info file = take info.payload_size (drop info.payload_offset file)

  -- Step 5, with the package as it is when it is opened again.
  unfoldable pub check_payload :
      UpdateFileInfo UpdateManifest → UpdateManifest → Option Bytes → Disk → Outcome
  check_payload info m none d = refuse d (codes "cannot open .update file to read payload")
  check_payload info m (some file) d =
      let payload : Bytes = payload_of info file in
      let sha : Bytes = sha256_hex s.hash payload in
      if not s.seeks
      then refuse d (codes "cannot seek to payload")
      else if not s.has_memory
      then refuse d (codes "out of memory buffering payload")
      else if ltb (length payload) info.payload_size
      then refuse d (codes "short read on payload")
      else if bytes_eq sha m.system.sha256
      then write_payload m payload d
      else refuse d (
          codes "payload SHA-256 mismatch: expected "
          ++ (m.system.sha256 ++ (codes " got " ++ sha)))

  -- Steps 2 to 5.
  unfoldable pub check_manifest : UpdateFileInfo UpdateManifest → UpdateManifest → Disk → Outcome
  check_manifest info m d =
      if leb_ℤ (version_compare s.scan m.version s.version) (pos 0)
      then refuse d (
          codes "update version "
          ++ (m.version ++ (codes " is not newer than current " ++ s.version)))
      else if not (is_empty m.min_version)
          && ltb_ℤ (version_compare s.scan s.version m.min_version) (pos 0)
      then refuse d (
          codes "current version "
          ++ (s.version ++ (codes " is below minimum required " ++ m.min_version)))
      else if key_is_zero s.public_key
      then refuse d (
          codes "update public key is not configured (placeholder) "
          ++ (226 ∷ 128 ∷ 148 ∷ codes " refusing to install unauthenticated update"))
      else if not (s.verify info.signature info.manifest_json s.public_key)
      then refuse d (
          codes "signature verification failed "
          ++ (226 ∷ 128 ∷ 148 ∷ codes " update is not authentic"))
      else if info.payload_size == 0
      then refuse d (codes "update has no payload")
      else if ltb 1073741824 info.payload_size
      then refuse d (codes "payload too large: " ++ (decimal info.payload_size ++ codes " bytes"))
      else check_payload info m s.second_read d

  -- Step 1; a package that is valid has a manifest.
  unfoldable pub install_parsed :
      UpdateFileInfo UpdateManifest → Option UpdateManifest → Disk → Outcome
  install_parsed info none d = refuse d info.error
  install_parsed info (some m) d =
      if info.valid then check_manifest info m d else refuse d info.error

  unfoldable pub install_update : Disk → Outcome
  install_update d =
      let info : UpdateFileInfo UpdateManifest =
        parse_update_file (parse_manifest s.parse) (λ m. m.valid) s.path s.first_read in
      install_parsed info info.manifest d

-- `vars.erase(key)`
unfoldable pub erase_var : Bytes → Vars → Vars
erase_var key [] = []
erase_var key ((k, v) ∷ rest) = if bytes_eq k key then rest else (k, v) ∷ erase_var key rest

-- What `mark_boot_success` writes.
unfoldable pub marked : Vars → Vars
marked vars = erase_var (codes "boot_counter") (put (codes "boot_success") (codes "1") vars)

-- `exists_mounted` is what exists once one of the EFI partitions has been mounted, if one could be.
unfoldable pub mark_boot_success : (Bytes → Bool) → Option (Bytes → Bool) → Bool → Disk → Disk
mark_boot_success exists none stored d =
    let path : Bytes = find_grubenv_path exists in
    if is_empty path then d else grubenv_write stored path (marked (grubenv_read path d)) d
mark_boot_success exists (some exists_mounted) stored d =
    let before : Bytes = find_grubenv_path exists in
    let path : Bytes = if is_empty before then find_grubenv_path exists_mounted else before in
    if is_empty path then d else grubenv_write stored path (marked (grubenv_read path d)) d
