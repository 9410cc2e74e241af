-- ===== src/FsTools.antt =====
-- src/llamaste/tools_fs.cpp: which paths the file-system tools accept. `realpath` is that of the C
-- library; `none` is an error. Off Windows.
pub mod Canonical
pub mod Ancestors
pub mod Confined
pub mod Handlers
pub mod Search
pub mod Bounds
pub mod Calls
mod Tests
use llamaste.Prelude.{
  ℕ, zero, suc, Bool, true, false, not, ◌||◌, Option, none, some, List, [], ◌∷◌, ◌++◌, Bytes, codes,
  is_empty, bytes_eq, cut, ◌==◌, if◌then◌else◌, length, take,
}
use llamaste.Text.{contains}

-- `std::getline(ss, segment, '/')` to the end; `segment` is the present one.
unfoldable pub segments : Bytes → Bytes → List Bytes
segments segment [] = if is_empty segment then [] else segment ∷ []
segments segment (c ∷ cs) =
    let next = segments [] cs in
    let longer = segments (segment ++ c ∷ []) cs in if c == b'/' then segment ∷ next else longer

unfoldable pub pop_back : List Bytes → List Bytes
pop_back [] = []
pop_back (part ∷ []) = []
pop_back (part ∷ next ∷ parts) = part ∷ pop_back (next ∷ parts)

unfoldable pub push_segment : List Bytes → Bytes → List Bytes
push_segment parts segment =
    if is_empty segment || bytes_eq segment (codes ".")
    then parts
    else if bytes_eq segment (codes "..")
    then pop_back parts
    else parts ++ segment ∷ []

unfoldable pub push_segments : List Bytes → List Bytes → List Bytes
push_segments parts [] = parts
push_segments parts (segment ∷ rest) = push_segments (push_segment parts segment) rest

unfoldable pub join_more : List Bytes → Bytes
join_more [] = []
join_more (part ∷ parts) = b'/' ∷ part ++ join_more parts

abbrev join_parts : List Bytes → Bytes
join_parts [] = codes "/"
join_parts (part ∷ parts) = b'/' ∷ part ++ join_more parts

unfoldable pub canonicalize_path : Bytes → Bytes
canonicalize_path path = join_parts (push_segments [] (segments [] path))

-- What `find_last_of('/')` and `resize` leave.
unfoldable pub before_slash : Bytes → Option Bytes
before_slash [] = none
before_slash (c ∷ cs) = elim (before_slash cs) [
  | some q ↦ some (c ∷ q)
  | none ↦ if c == b'/' then some [] else none
]

abbrev non_empty : Option Bytes → Option Bytes
non_empty none = none
non_empty (some []) = none
non_empty (some (c ∷ q)) = some (c ∷ q)

unfoldable pub parent : Bytes → Option Bytes
parent path = non_empty (before_slash path)

abbrev pub is_inside : Bytes → Bool
is_inside r = bytes_eq r (codes "/data") || bytes_eq (take 6 r) (codes "/data/")

module _ (realpath : Bytes → Option Bytes) where
  -- The loop over the ancestors. Each is shorter than the one before, so the path's length is
  -- enough fuel.
  unfoldable pub ancestor_inside : ℕ → Bytes → Bool
  ancestor_inside zero probe = false
  ancestor_inside (suc n) probe = elim (realpath probe) [
    | some r ↦ is_inside r
    | none ↦ elim (parent probe) [ none ↦ false | some shorter ↦ ancestor_inside n shorter ]
  ]

  unfoldable pub validate_data_path : Bytes → Bool
  validate_data_path path =
      if bytes_eq path (codes "/data")
      then true
      else if not (bytes_eq (take 6 path) (codes "/data/"))
      then false
      else if not (is_inside (canonicalize_path path))
      then false
      else if contains path (codes "..")
      then false
      else ancestor_inside (length path) path
