-- ===== src/Updater/Device.antt =====
-- src/llamaste/updater.cpp: `detect_current_slot`, and how `install_update` finds the partition to
-- write to. `none` is a file that does not open.
use llamaste.Prelude.{
  ℕ, Bool, true, false, ◌&&◌, ◌||◌, Option, none, some, List, [], ◌∷◌, ◌++◌, Bytes, codes, is_empty,
  bytes_eq, strip_prefix, cut, decimal, leb, if◌then◌else◌,
}
use llamaste.Updater.{parse_active_slot}
use llamaste.Text.{getlines}

abbrev first_line : List Bytes → Bytes
first_line [] = []
first_line (line ∷ lines) = line

unfoldable pub detect_current_slot : Option Bytes → Bytes
detect_current_slot none = codes "A"
detect_current_slot (some text) = parse_active_slot (first_line (getlines [] text))

abbrev up_to_space : Option (Bytes × Bytes) → Bytes → Bytes
up_to_space none rest = rest
up_to_space (some (word, _)) rest = word

-- The device of a line of /proc/mounts, if the root is mounted from it.
abbrev root_of : Option (Bytes × Bytes) → Option Bytes
root_of none = none
root_of (some (device, rest)) =
    if bytes_eq (up_to_space (cut (codes " ") rest) rest) (codes "/") then some device else none

abbrev or_later : Option Bytes → Bytes → Bytes
or_later none later = later
or_later (some device) later = device

unfoldable pub find_root : List Bytes → Bytes
find_root [] = []
find_root (line ∷ lines) = or_later (root_of (cut (codes " ") line)) (find_root lines)

unfoldable pub root_device : Option Bytes → Bytes
root_device none = []
root_device (some mounts) = find_root (getlines [] mounts)

abbrev pub is_digit : ℕ → Bool
is_digit c = leb b'0' c && leb c b'9'

abbrev before_more : ℕ → Option Bytes → Option Bytes
before_more c none = if is_digit c then some [] else none
before_more c (some []) = if is_digit c then some [] else some (c ∷ [])
before_more c (some (b ∷ bs)) = some (c ∷ b ∷ bs)

-- What stands in front of the last digits of a name, if there are any.
unfoldable pub before_digits : Bytes → Option Bytes
before_digits [] = none
before_digits (c ∷ cs) = before_more c (before_digits cs)

abbrev starts : Option Bytes → Bool
starts none = false
starts (some _) = true

abbrev device_name : Bytes → Option Bytes → Bytes
device_name root none = root
device_name root (some name) = name

abbrev partition_of : Bytes → ℕ → Option Bytes → Bytes
partition_of name part_num none = []
partition_of name part_num (some base) =
    if starts (strip_prefix (codes "nvme") name) || starts (strip_prefix (codes "mmcblk") name)
    then codes "/dev/" ++ (base ++ (b'p' ∷ decimal part_num))
    else codes "/dev/" ++ (base ++ decimal part_num)

-- The partition beside the root's; empty if the root's name is, or has no digit.
unfoldable pub block_device : Bytes → ℕ → Bytes
block_device root part_num =
    let name : Bytes = device_name root (strip_prefix (codes "/dev/") root) in
    if is_empty root then [] else partition_of name part_num (before_digits name)

-- The first candidate that `stat` finds.
unfoldable pub fallback : (Bytes → Bool) → ℕ → List Bytes → Bytes
fallback exists part_num [] = []
fallback exists part_num (base ∷ bases) =
    let dev : Bytes = base ++ decimal part_num in
    if exists dev then dev else fallback exists part_num bases

unfoldable pub target_device : (Bytes → Bool) → Option Bytes → ℕ → Bytes
target_device exists mounts part_num =
    let dev : Bytes = block_device (root_device mounts) part_num in
    if is_empty dev
    then fallback exists part_num (codes "/dev/sda" ∷ codes "/dev/vda" ∷ codes "/dev/nvme0n1p" ∷ [])
    else dev
