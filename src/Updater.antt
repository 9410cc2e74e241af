-- ===== src/Updater.antt =====
-- src/llamaste/updater.h and updater.cpp: the slots of the system partition, and the version order.
-- `scan` stands for `sscanf` with "%d.%d.%d", which leaves a number that is missing at 0.
pub mod Grubenv
pub mod Package
pub mod RoundTrip
pub mod Layout
pub mod Versions
pub mod Manifest
pub mod Device
pub mod Install
pub mod Writes
pub mod Parsed
pub mod Authentic
pub mod InstallTests
mod Tests
use llamaste.Prelude.{
  ℕ, Bool, ◌||◌, Option, none, some, [], ◌∷◌, Bytes, codes, bytes_eq, cut, ℤ, eqb_ℤ, ◌-ℤ◌, ◌==◌,
  if◌then◌else◌,
}

abbrev slot_at : Bytes → Bytes
slot_at [] = codes "A"
slot_at (c ∷ cs) = if c == b'B' || (c == b'b') then codes "B" else codes "A"

abbrev slot_behind : Option (Bytes × Bytes) → Bytes
slot_behind none = codes "A"
slot_behind (some (_, rest)) = slot_at rest

unfoldable pub parse_active_slot : Bytes → Bytes
parse_active_slot cmdline = slot_behind (cut (codes "llamaste.slot=") cmdline)

unfoldable pub inactive_slot : Bytes → Bytes
inactive_slot active = if bytes_eq active (codes "A") then codes "B" else codes "A"

unfoldable pub inactive_partition_num : Bytes → ℕ
inactive_partition_num active = if bytes_eq active (codes "A") then 4 else 3

abbrev pub Version : Type 0
Version = ℤ × (ℤ × ℤ)

-- The differences of `int` are exact, as they are for numbers that are not negative.
unfoldable pub version_compare : (Bytes → Version) → Bytes → Bytes → ℤ
version_compare scan a b =
    let (a_major, (a_minor, a_patch)) = scan a in
    let (b_major, (b_minor, b_patch)) = scan b in
    if eqb_ℤ a_major b_major
    then (if eqb_ℤ a_minor b_minor then a_patch -ℤ b_patch else a_minor -ℤ b_minor)
    else a_major -ℤ b_major
