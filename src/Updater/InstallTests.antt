-- ===== src/Updater/InstallTests.antt =====
-- `install_update` on a small disk.
use llamaste.Json.{absent, present}
use llamaste.Prelude.{
  ◌≡◌, refl, true, Option, none, some, [], ◌∷◌, Bytes, codes, bytes_eq, if◌then◌else◌, pos,
  replicate, strip_prefix, decimal, cut, insert, lookup, bytes_ltb,
}
use llamaste.Updater.Authentic.{IsSafe, install_update-IsSafe}
use llamaste.Updater.Device.{
  fallback, block_device, before_digits, detect_current_slot, find_root, root_device, target_device,
}
use llamaste.Updater.Install.{
  System, Disk, Installed, install_update, install_parsed, check_manifest, check_payload,
  write_payload, find_grubenv_path, first_existing, grubenv_write, finish, switch_slot,
  write_chunks, write_to,
}
use llamaste.Auth.Sessions.{to_hex}
use llamaste.Text.{getline_by, getline_by}
use llamaste.Updater.Package.{parse_update_file, parse_contents, parse_signed, read_u32_le}
use llamaste.Updater.{version_compare, inactive_partition_num, inactive_slot, parse_active_slot}
use llamaste.Updater.Layout.{update_file}
use llamaste.Updater.Manifest.{
  ManifestDoc, parse_manifest, read_manifest, sha256_hex, update_public_key, key_is_zero,
}

abbrev small_hash : Bytes → Bytes
small_hash bytes = 171 ∷ []

abbrev newer_doc : ManifestDoc
newer_doc = record {
  format_version = present (pos 1);
  version = present (codes "0.10");
  build_date = absent;
  arch = absent;
  min_version = absent;
  system = present (record {
    file = absent;
    sha256 = present (codes "ab");
    size_compressed = absent;
    size_uncompressed = absent;
  });
  changelog = none;
}

abbrev small_file : Option Bytes
small_file = some (update_file (codes "{}") (replicate 64 7) (1 ∷ 2 ∷ []))

abbrev machine : System
machine = record {
  path = codes "/data/a.update";
  first_read = small_file;
  second_read = small_file;
  seeks = true;
  has_memory = true;
  scan = λ text.
      if bytes_eq text (codes "0.10") then (pos 0, (pos 10, pos 0)) else (pos 0, (pos 9, pos 1));
  version = codes "0.9.1";
  parse = λ text. some newer_doc;
  public_key = 1 ∷ [];
  verify = λ signature text key. true;
  hash = small_hash;
  cmdline = some (codes "quiet llamaste.slot=A");
  mounts = some (codes "/dev/sda1 /boot/efi vfat rw 0 0");
  exists = λ path. true;
  write = λ off n. some n;
  stored = true;
  meta_opens = true;
}

abbrev disk : Disk
disk = record { partitions = (codes "/dev/sda4", 9 ∷ 9 ∷ 9 ∷ []) ∷ []; grubenv = []; slots = [] }

abbrev stepped : Disk × Installed
stepped = install_update machine disk

install_update-IsSafe_example : IsSafe machine disk stepped.0 stepped.1
install_update-IsSafe_example = install_update-IsSafe machine disk

-- The package is for the other slot, and its two bytes come there.
whole_install : stepped.0.partitions ≡ (codes "/dev/sda4", 1 ∷ 2 ∷ 9 ∷ []) ∷ []
unfolding install_update install_parsed parse_update_file parse_contents bytes_eq read_u32_le
    parse_signed parse_manifest read_manifest check_manifest version_compare key_is_zero
    check_payload sha256_hex to_hex write_payload target_device block_device bytes_ltb cut decimal
    strip_prefix insert lookup before_digits detect_current_slot find_root root_device getline_by
    find_grubenv_path finish first_existing switch_slot write_chunks write_to inactive_partition_num
    inactive_slot parse_active_slot fallback grubenv_write
whole_install = refl

-- The last digit is removed from the name of the partition, the `p` before it is not.
nvme_device : block_device (codes "/dev/nvme0n1p1") 4 ≡ codes "/dev/nvme0n1pp4"
unfolding block_device before_digits strip_prefix decimal
nvme_device = refl

-- The repository's key is a placeholder, which no installation passes.
placeholder_key : key_is_zero update_public_key ≡ true
unfolding key_is_zero
placeholder_key = refl
