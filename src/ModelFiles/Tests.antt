-- ===== src/ModelFiles/Tests.antt =====
-- Names of model files at concrete inputs.
use llamaste.Prelude.{◌≡◌, refl, none, some, codes, strip_prefix, decimal, decimal_fuel, pos, arith}
use llamaste.Text.{stoi, strtol, digits, skip_spaces}
use llamaste.ModelFiles.{rcut, all_digits, parse_shard_filename, zero_padded, build_shard_filename}
use llamaste.ModelFiles.Shards.{parse_shard_filename-build_shard_filename}

parse_shard_filename-build_shard_filename_example :
    parse_shard_filename (build_shard_filename (codes "qwen-q4") 1 5)
    ≡ some (record { base = codes "qwen-q4"; shard_num = pos 1; total_shards = pos 5 })
parse_shard_filename-build_shard_filename_example =
    parse_shard_filename-build_shard_filename (codes "qwen-q4") 1 5 (omega arith) (omega arith)

built : build_shard_filename (codes "qwen") 1 12 ≡ codes "qwen-00001-of-00012.gguf"
unfolding build_shard_filename zero_padded decimal decimal_fuel
built = refl

-- `stoi` throws where there is no number.
no_number : parse_shard_filename (codes "model--of-5.gguf") ≡ none
unfolding parse_shard_filename rcut strip_prefix all_digits stoi strtol digits skip_spaces
no_number = refl
