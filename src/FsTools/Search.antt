-- ===== src/FsTools/Search.antt =====
-- src/llamaste/tools_fs.cpp: `search_recursive` and `handle_fs_search`.
use llamaste.FsTools.{validate_data_path}
use llamaste.FsTools.Handlers.{
  Stat, Dirent, FsSystem, FsArgs, Match, FsReply, json_error, path_error, throws, found, is_dot,
}
use llamaste.Json.{value}
use llamaste.Prelude.{
  ℕ, zero, suc, ◌+◌, Bool, not, Option, none, some, List, [], ◌∷◌, ◌++◌, Bytes, codes, ℤ, pos,
  ltb_ℤ, leb_ℤ, if◌then◌else◌,
}

pub record Found : Type 0 where
  pub results : List Match
  pub count : ℕ

abbrev size_of : Option Stat → Option (ℕ × Bool)
size_of none = none
size_of (some st) = some (st.st_size, st.is_dir)

module _ (s : FsSystem) (pattern : Bytes) (max_results : ℤ) where
  abbrev pub push_match : Bytes → Bytes → Found → Found
  push_match full name st =
      if s.fnmatch pattern name
      then record {
        results =
            st.results
            ++ record { path = full; name = name; size_directory = size_of (s.stat full) } ∷ [];
        count = st.count + 1;
      }
      else st

  -- One entry of a directory; `recurse` is the search one level further down.
  unfoldable pub search_entry : (Bytes → Found → Found) → Bytes → Bytes → Found → Found
  search_entry recurse dir name st =
      let full : Bytes = dir ++ b'/' ∷ name in
      let st1 : Found = push_match full name st in
      if is_dot name then st else if s.lstat_dir full then recurse full st1 else st1

  unfoldable pub search_entries : (Bytes → Found → Found) → Bytes → List Dirent → Found → Found
  search_entries recurse dir [] st = st
  search_entries recurse dir (ent ∷ ents) st =
      let rest = search_entries recurse dir ents (search_entry recurse dir ent.d_name st) in
      if ltb_ℤ (pos st.count) max_results then rest else st

  abbrev pub search_opened : (Bytes → Found → Found) → Bytes → Option (List Dirent) → Found → Found
  search_opened recurse dir none st = st
  search_opened recurse dir (some ents) st = search_entries recurse dir ents st

  -- The levels that are left. The code counts them up, from 0 to 20.
  unfoldable pub search_recursive : ℕ → Bytes → Found → Found
  search_recursive zero dir st = st
  search_recursive (suc n) dir st =
      let inner : Bytes → Found → Found = search_recursive n in
      if leb_ℤ max_results (pos st.count) then st else search_opened inner dir (s.opendir dir) st

abbrev pub search_checked : FsSystem → Bytes → Bytes → ℤ → FsReply
search_checked s pattern path max =
    let max_results : ℤ = if ltb_ℤ (pos 200) max then pos 200 else max in
    let st : Found =
      search_recursive s pattern max_results 21 path (record { results = []; count = 0 }) in
    if not (validate_data_path s.realpath path)
    then path_error path
    else found pattern path st.results st.count (leb_ℤ max_results (pos st.count))

abbrev pub search_read : FsSystem → Option Bytes → Option Bytes → Option ℤ → FsReply
search_read s (some pattern) (some path) (some max) = search_checked s pattern path max
search_read s _ _ _ = throws

unfoldable pub handle_fs_search : FsSystem → Option FsArgs → FsReply
handle_fs_search s none = json_error (codes "invalid JSON arguments")
handle_fs_search s (some args) =
    search_read s (value args.pattern (codes "*")) (value args.path (codes "/data"))
      (value args.max_results (pos 50))
