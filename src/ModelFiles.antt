-- ===== src/ModelFiles.antt =====
-- src/llamaste/tools_model_download.cpp: the names of model files: `validate_gguf_filename`, `validate_repo_id`,
-- `parse_shard_filename` and `build_shard_filename`.
mod Shards
mod Tests
use llamaste.Prelude.{
  ℕ, zero, suc, ◌+◌, ◌-◌, Bool, true, false, ◌&&◌, ◌||◌, Option, none, some, List, [], ◌∷◌, ◌++◌,
  Bytes, codes, strip_prefix, decimal, cut, drop, not, is_empty, bytes_eq, length, take, replicate,
  leb, ltb, ◌==◌, if◌then◌else◌, ℤ, pos,
}
use llamaste.Text.{is_digit, stoi, contains}

abbrev pub at_head : ℕ → Option Bytes → Option (Bytes × Bytes)
at_head c none = none
at_head c (some r) = some ([], r)

abbrev pub cut_later : ℕ → Option (Bytes × Bytes) → Option Bytes → Option (Bytes × Bytes)
cut_later c none here = at_head c here
cut_later c (some (b, a)) here = some (c ∷ b, a)

-- `rfind` with the two `substr` around it: what stands before the last occurrence, and behind it.
-- The text that is searched for is not empty.
unfoldable pub rcut : Bytes → Bytes → Option (Bytes × Bytes)
rcut n [] = none
rcut n (c ∷ cs) = cut_later c (rcut n cs) (strip_prefix n (c ∷ cs))

pub record ShardInfo : Type 0 where
  pub base : Bytes
  pub shard_num : ℤ
  pub total_shards : ℤ

abbrev pub whole : Bytes → Option ShardInfo
whole filename = some (record { base = filename; shard_num = pos 0; total_shards = pos 0 })

unfoldable pub all_digits : Bytes → Bool
all_digits [] = true
all_digits (c ∷ cs) = is_digit c && all_digits cs

abbrev pub numbered : Bytes → Option ℤ → Option ℤ → Option ShardInfo
numbered base none total = none
numbered base (some shard) none = none
numbered base (some shard) (some total) =
    some (record { base = base; shard_num = shard; total_shards = total })

abbrev pub shard_parts : Bytes → Bytes → Option (Bytes × Bytes) → Option ShardInfo
shard_parts filename total_str none = whole filename
shard_parts filename total_str (some (base, shard_str)) =
    if all_digits shard_str && all_digits total_str
    then numbered base (stoi shard_str) (stoi total_str)
    else whole filename

abbrev pub at_dot : Bytes → Bytes → Bytes → Option (Bytes × Bytes) → Option ShardInfo
at_dot filename front back none = whole filename
at_dot filename front back (some (stem, end)) =
    if leb (length stem) (length front + 4)
    then whole filename
    else shard_parts filename (take (length stem - (length front + 4)) back)
        (rcut (codes "-") front)

abbrev pub at_of : Bytes → Option (Bytes × Bytes) → Option ShardInfo
at_of filename none = whole filename
at_of filename (some (front, back)) =
    if ltb (length front) 6
    then whole filename
    else at_dot filename front back (rcut (codes ".gguf") filename)

-- `none` is the exception of `stoi`, for a number that is missing or no `int`.
unfoldable pub parse_shard_filename : Bytes → Option ShardInfo
parse_shard_filename filename = at_of filename (rcut (codes "-of-") filename)

-- `%05d` of a number that is not negative.
unfoldable pub zero_padded : ℕ → Bytes
zero_padded n = replicate (5 - length (decimal n)) b'0' ++ decimal n

unfoldable pub validate_gguf_filename : Bytes → Bool
validate_gguf_filename filename =
    if ltb (length filename) 6
    then false
    else bytes_eq (drop (length filename - 5) filename) (codes ".gguf")
      && (not (contains filename (codes "/")) && not (contains filename (codes "..")))

abbrev slash_inside : Bytes → Option (Bytes × Bytes) → Bool
slash_inside repo_id none = false
slash_inside repo_id (some (org, repo)) =
    not (contains repo_id (codes "..")) && (not (is_empty org) && not (is_empty repo))

-- The first slash is neither the first byte nor the last.
unfoldable pub validate_repo_id : Bytes → Bool
validate_repo_id repo_id = slash_inside repo_id (cut (codes "/") repo_id)

unfoldable pub build_shard_filename : Bytes → ℕ → ℕ → Bytes
build_shard_filename base shard total =
    base
    ++ (codes "-" ++ (zero_padded shard ++ (codes "-of-" ++ (zero_padded total ++ codes ".gguf"))))
