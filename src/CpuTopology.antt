-- ===== src/CpuTopology.antt =====
-- src/llamaste/cpu_topology.h: lists of CPUs, `parse_cpulist` and `format_cpulist`. A `std::set<int>`
-- of ids is their ascending list.
mod Detect
mod Groups
mod Recommended
mod RoundTrip
mod Sets
mod Tests
use llamaste.Prelude.{
  ℕ, zero, suc, ◌+◌, ◌-◌, Bool, false, Option, none, some, List, [], ◌∷◌, ◌++◌, Bytes, codes,
  is_empty, decimal, cut, ltb, ◌==◌, if◌then◌else◌, ℤ, pos, negsuc,
}
use llamaste.Text.{getline_by, stoi}

-- `cpus.insert(i)`
unfoldable pub insert_id : ℕ → List ℕ → List ℕ
insert_id i [] = i ∷ []
insert_id i (j ∷ js) =
    let later = insert_id i js in
    if ltb i j then i ∷ j ∷ js else if i == j then j ∷ js else j ∷ later

-- The `n` ids from `i` on.
unfoldable pub insert_ids : ℕ → ℕ → List ℕ → List ℕ
insert_ids i zero cpus = cpus
insert_ids i (suc n) cpus = insert_ids (suc i) n (insert_id i cpus)

-- The loop from `lo` to `hi`, for an end below 2 ^ 31 - 1. What stands before a dash has no sign, so `lo` is not negative.
abbrev pub insert_range : ℤ → ℤ → List ℕ → List ℕ
insert_range (negsuc lo) hi cpus = cpus
insert_range (pos lo) (negsuc hi) cpus = cpus
insert_range (pos lo) (pos hi) cpus = insert_ids lo (suc hi - lo) cpus

abbrev pub insert_one : ℤ → List ℕ → List ℕ
insert_one (negsuc i) cpus = cpus
insert_one (pos i) cpus = insert_id i cpus

-- With the largest `int` as its end the loop has no end that the language defines: its counter
-- overflows.
abbrev pub is_last_int : ℤ → Bool
is_last_int (negsuc n) = false
is_last_int (pos n) = n == 2147483647

-- `none` is the exception of `stoi`, or that the loop overflows.
abbrev pub with_single : Option ℤ → List ℕ → Option (List ℕ)
with_single none cpus = none
with_single (some i) cpus = some (insert_one i cpus)

abbrev pub with_bounds : Option ℤ → Option ℤ → List ℕ → Option (List ℕ)
with_bounds none hi cpus = none
with_bounds (some lo) none cpus = none
with_bounds (some lo) (some hi) cpus =
    if is_last_int hi then none else some (insert_range lo hi cpus)

abbrev pub parse_cut : Bytes → Option (Bytes × Bytes) → List ℕ → Option (List ℕ)
parse_cut token none cpus = with_single (stoi token) cpus
parse_cut token (some (lo, hi)) cpus = with_bounds (stoi lo) (stoi hi) cpus

unfoldable pub parse_token : Bytes → List ℕ → Option (List ℕ)
parse_token token cpus = parse_cut token (cut (codes "-") token) cpus

unfoldable pub parse_tokens : List Bytes → List ℕ → Option (List ℕ)
parse_tokens [] cpus = some cpus
parse_tokens (token ∷ tokens) cpus = elim (parse_token token cpus) [
  | none ↦ none
  | some cpus' ↦ parse_tokens tokens cpus'
]

unfoldable pub parse_cpulist : Bytes → Option (List ℕ)
parse_cpulist list = parse_tokens (getline_by b',' [] list) []

abbrev pub range_text : ℕ → ℕ → Bytes
range_text first last =
    if first == last then decimal first else decimal first ++ (b'-' ∷ decimal last)

abbrev pub comma : Bytes → Bytes
comma result = if is_empty result then result else result ++ codes ","

-- The loop, with the present range.
unfoldable pub format_from : Bytes → ℕ → ℕ → List ℕ → Bytes
format_from result first last [] = comma result ++ range_text first last
format_from result first last (i ∷ is) =
    let wider = format_from result first i is in
    let next = format_from (comma result ++ range_text first last) i i is in
    if i == last + 1 then wider else next

unfoldable pub format_cpulist : List ℕ → Bytes
format_cpulist [] = []
format_cpulist (i ∷ is) = format_from [] i i is
