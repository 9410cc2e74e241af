-- ===== src/FsTools/Calls.antt =====
-- src/llamaste/tools_fs.cpp: which paths the handlers use.
use llamaste.FsTools.{validate_data_path}
use llamaste.FsTools.Handlers.{
  Dirent, Stat, FsSystem, FsArgs, FsCall, opens_dir, reads, writes, unlinks, FsResult, with_path,
  path_read, list_read, read_checked, read_opened, list_opened, write_opened, write_checked,
  write_to_path, delete_found, handle_fs_list_directory, handle_fs_read_file, handle_fs_write_file,
  handle_fs_delete_file,
}
use llamaste.FsTools.Bounds.{IsBounded, handle_fs_search-IsBounded}
use llamaste.FsTools.Search.{handle_fs_search}
use llamaste.Json.{value}
use llamaste.Prelude.{
  ◌≡◌, inl, inr, Bool, true, false, not, Option, none, some, List, [], Bytes, codes, is_empty, ℤ,
  pos, negsuc, All, if◌then◌else◌, Bool-cases,
}

abbrev pub call_path : FsCall → Bytes
call_path (opens_dir path) = path
call_path (reads path) = path
call_path (writes path text append) = path
call_path (unlinks path) = path

abbrev pub IsConfined : FsSystem → FsResult → Type 0
IsConfined s r = All (λ c. validate_data_path s.realpath (call_path c) ≡ true) r.1

module _ (s : FsSystem) where
  checked :
      (path : Bytes) (refused next : FsResult)
      → IsConfined s refused
      → (validate_data_path s.realpath path ≡ true → IsConfined s next)
      → IsConfined s (if not (validate_data_path s.realpath path) then refused else next)
  checked path refused next h k = elim (Bool-cases (validate_data_path s.realpath path)) [
    | inl e ↦ rw e (k e)
    | inr e ↦ rw e h
  ]

  either :
      (b : Bool) (x y : FsResult)
      → IsConfined s x
      → IsConfined s y
      → IsConfined s (if b then x else y)
  either true x y h k = h
  either false x y h k = k

  with_path-IsConfined :
      (o : Option FsArgs) (next : FsArgs → Bytes → FsResult)
      → ((args : FsArgs) (path : Bytes)
          → validate_data_path s.realpath path ≡ true
          → IsConfined s (next args path))
      → IsConfined s (with_path s o next)
  unfolding with_path
  with_path-IsConfined none next h = tt
  with_path-IsConfined (some args) next h = go (value args.path [])
    where
      go : (p : Option Bytes) → IsConfined s (path_read s args next p)
      go none = tt
      go (some path) = either (is_empty path) _ _ tt (checked path _ _ tt (h args path))

  list-IsConfined : (o : Option FsArgs) → IsConfined s (handle_fs_list_directory s o)
  unfolding handle_fs_list_directory
  list-IsConfined none = tt
  list-IsConfined (some args) = go (value args.path (codes "/data"))
    where
      opened :
          (path : Bytes)
          → validate_data_path s.realpath path ≡ true
          → (o : Option (List Dirent)) → IsConfined s (list_opened s path o)
      opened path v none = (v, tt)
      opened path v (some ents) = (v, tt)

      go : (p : Option Bytes) → IsConfined s (list_read s p)
      go none = tt
      go (some path) = checked path _ _ tt λ v. opened path v (s.opendir path)

  read-IsConfined : (o : Option FsArgs) → IsConfined s (handle_fs_read_file s o)
  unfolding handle_fs_read_file
  read-IsConfined o =
      with_path-IsConfined o _ λ args path v. go path v (value args.max_bytes (pos 65536))
    where
      opened :
          (path : Bytes)
          → validate_data_path s.realpath path ≡ true
          → (max : ℤ) (o : Option Bytes) → IsConfined s (read_opened path max o)
      opened path v max none = (v, tt)
      opened path v (pos n) (some bytes) = (v, tt)
      opened path v (negsuc n) (some bytes) = (v, tt)

      go :
          (path : Bytes)
          → validate_data_path s.realpath path ≡ true
          → (max : Option ℤ) → IsConfined s (read_checked s path max)
      go path v none = tt
      go path v (some max) = opened path v max (s.read path)

  write-IsConfined : (o : Option FsArgs) → IsConfined s (handle_fs_write_file s o)
  unfolding handle_fs_write_file
  write-IsConfined none = tt
  write-IsConfined (some args) = go (value args.path []) (value args.content [])
    where
      tried :
          (path text : Bytes)
          → validate_data_path s.realpath path ≡ true
          → (append writable : Bool) → IsConfined s (write_opened path text append writable)
      tried path text v append true = (v, tt)
      tried path text v append false = (v, tt)

      opened :
          (path text : Bytes)
          → validate_data_path s.realpath path ≡ true
          → (append : Option Bool) → IsConfined s (write_checked s path text append)
      opened path text v none = tt
      opened path text v (some append) = tried path text v append (s.writable path)

      go : (p c : Option Bytes) → IsConfined s (write_to_path s args p c)
      go (some path) (some text) =
          either (is_empty path) _ _ tt
            (checked path _ _ tt λ v. opened path text v (value args.append false))
      go (some path) none = tt
      go none c = tt

  delete-IsConfined : (o : Option FsArgs) → IsConfined s (handle_fs_delete_file s o)
  unfolding handle_fs_delete_file
  delete-IsConfined o = with_path-IsConfined o _ λ args path v. opened path v (s.stat path)
    where
      opened :
          (path : Bytes)
          → validate_data_path s.realpath path ≡ true
          → (o : Option Stat) → IsConfined s (delete_found s path o)
      opened path v none = tt
      opened path v (some st) =
          either st.is_dir _ _ tt (either (not (s.unlink path)) _ _ (v, tt) (v, tt))

  -- Whatever the arguments are, fs.list_directory, fs.read_file, fs.write_file and fs.delete_file try
  -- to list, read, write and delete only paths that `validate_data_path` accepts. Of fs.search only the
  -- results are claimed, not the directories that it opens: a search, in a tree of any depth and with any limit, gives at most
  -- 200 results, with their number, each below the directory that was asked for and accepted.
  pub fs_handlers-IsConfined :
      (o : Option FsArgs)
      → IsConfined s (handle_fs_list_directory s o)
        × (IsConfined s (handle_fs_read_file s o)
            × (IsConfined s (handle_fs_write_file s o)
                × (IsConfined s (handle_fs_delete_file s o) × IsBounded s (handle_fs_search s o))))
  fs_handlers-IsConfined o = (
    list-IsConfined o,
    (
      read-IsConfined o,
      (write-IsConfined o, (delete-IsConfined o, handle_fs_search-IsBounded s o)),
    ),
  )
