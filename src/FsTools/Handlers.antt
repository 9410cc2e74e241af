-- ===== src/FsTools/Handlers.antt =====
-- src/llamaste/tools_fs.cpp: the handlers that list, read, write and delete. Each gives its reply and
-- the calls that try to open a path or to change what is there; the system's answers are arguments.
use llamaste.FsTools.{validate_data_path}
use llamaste.Json.{Entry, value}
use llamaste.Prelude.{
  ℕ, ◌+◌, signed32, ◌*◌, ◌/◌, ◌%◌, ◌^◌, ◌-◌, Bool, true, false, not, ◌||◌, Option, none, some, List,
  [], ◌∷◌, ◌++◌, Bytes, codes, is_empty, bytes_eq, ℤ, pos, negsuc, ltb, if◌then◌else◌, length, take,
}

pub record Stat : Type 0 where
  pub st_size : ℕ
  pub is_dir : Bool
  pub st_mtime : ℕ

pub record Dirent : Type 0 where
  pub d_name : Bytes
  pub is_dt_dir : Bool

-- What the system says of a path. `none` is an error; `lstat_dir` says that it is a directory and
-- no link to one. `read` gives what reading a file to its end would give.
pub record FsSystem : Type 0 where
  pub realpath : Bytes → Option Bytes
  pub opendir : Bytes → Option (List Dirent)
  pub stat : Bytes → Option Stat
  pub lstat_dir : Bytes → Bool
  pub read : Bytes → Option Bytes
  pub writable : Bytes → Bool
  pub unlink : Bytes → Bool
  pub fnmatch : Bytes → Bytes → Bool

pub record FsArgs : Type 0 where
  pub path : Entry Bytes
  pub content : Entry Bytes
  pub append : Entry Bool
  pub max_bytes : Entry ℤ
  pub pattern : Entry Bytes
  pub max_results : Entry ℤ

pub data FsCall : Type 0 where
  opens_dir : Bytes → FsCall
  reads : Bytes → FsCall
  writes : Bytes → Bytes → Bool → FsCall
  unlinks : Bytes → FsCall

-- An entry of a listing: name, size and time if `stat` gives them, and whether it is a directory.
pub record Listed : Type 0 where
  pub name : Bytes
  pub size_modified : Option (ℕ × ℕ)
  pub directory : Bool

-- An entry of the search's results.
pub record Match : Type 0 where
  pub path : Bytes
  pub name : Bytes
  pub size_directory : Option (ℕ × Bool)

pub data FsReply : Type 0 where
  throws : FsReply
  json_error : Bytes → FsReply
  path_error : Bytes → FsReply
  listing : Bytes → List Listed → ℕ → FsReply
  content : Bytes → Bytes → ℕ → Bool → FsReply
  written : Bytes → ℕ → Bool → FsReply
  deleted : Bytes → FsReply
  found : Bytes → Bytes → List Match → ℕ → Bool → FsReply

abbrev pub FsResult : Type 0
FsResult = FsReply × List FsCall

abbrev pub path_read : FsSystem → FsArgs → (FsArgs → Bytes → FsResult) → Option Bytes → FsResult
path_read s args next none = (throws, [])
path_read s args next (some path) =
    if is_empty path
    then (json_error (codes "path is required"), [])
    else if not (validate_data_path s.realpath path)
    then (path_error path, [])
    else next args path

-- The beginning of a handler with a required path. No arguments are an invalid JSON text.
unfoldable pub with_path : FsSystem → Option FsArgs → (FsArgs → Bytes → FsResult) → FsResult
with_path s none next = (json_error (codes "invalid JSON arguments"), [])
with_path s (some args) next = path_read s args next (value args.path [])

abbrev listed_as : Dirent → Option Stat → Listed
listed_as ent none = record { name = ent.d_name; size_modified = none; directory = ent.is_dt_dir }
listed_as ent (some st) = record {
  name = ent.d_name;
  size_modified = some (st.st_size, st.st_mtime);
  directory = st.is_dir;
}

abbrev pub is_dot : Bytes → Bool
is_dot name = bytes_eq name (codes ".") || bytes_eq name (codes "..")

unfoldable pub list_entries : FsSystem → Bytes → List Dirent → List Listed
list_entries s path [] = []
list_entries s path (ent ∷ ents) =
    let rest = list_entries s path ents in
    if is_dot ent.d_name then rest else listed_as ent (s.stat (path ++ b'/' ∷ ent.d_name)) ∷ rest

abbrev pub list_opened : FsSystem → Bytes → Option (List Dirent) → FsResult
list_opened s path none =
    (json_error (codes "cannot open directory: " ++ path), opens_dir path ∷ [])
list_opened s path (some ents) =
    let entries : List Listed = list_entries s path ents in
    (listing path entries (length entries), opens_dir path ∷ [])

abbrev pub list_read : FsSystem → Option Bytes → FsResult
list_read s none = (throws, [])
list_read s (some path) =
    if not (validate_data_path s.realpath path)
    then (path_error path, [])
    else list_opened s path (s.opendir path)

unfoldable pub handle_fs_list_directory : FsSystem → Option FsArgs → FsResult
handle_fs_list_directory s none = (json_error (codes "invalid JSON arguments"), [])
handle_fs_list_directory s (some args) = list_read s (value args.path (codes "/data"))

-- A string of a negative size throws.
abbrev pub read_opened : Bytes → ℤ → Option Bytes → FsResult
read_opened path max none = (json_error (codes "cannot open file: " ++ path), reads path ∷ [])
read_opened path (negsuc n) (some bytes) = (throws, reads path ∷ [])
read_opened path (pos n) (some bytes) =
    let max : ℕ = if ltb 1048576 n then 1048576 else n in
    let got : Bytes = take max bytes in
    (content path got (length got) (ltb max (length bytes)), reads path ∷ [])

abbrev pub read_checked : FsSystem → Bytes → Option ℤ → FsResult
read_checked s path none = (throws, [])
read_checked s path (some max) = read_opened path max (s.read path)

unfoldable pub handle_fs_read_file : FsSystem → Option FsArgs → FsResult
handle_fs_read_file s o =
    with_path s o λ args path. read_checked s path (value args.max_bytes (pos 65536))

abbrev pub write_opened : Bytes → Bytes → Bool → Bool → FsResult
write_opened path text append true =
    (written path (length text) append, writes path text append ∷ [])
write_opened path text append false =
    (json_error (codes "cannot write file: " ++ path), writes path text append ∷ [])

abbrev pub write_checked : FsSystem → Bytes → Bytes → Option Bool → FsResult
write_checked s path text none = (throws, [])
write_checked s path text (some append) = write_opened path text append (s.writable path)

-- Here the content is read before the path is looked at.
abbrev pub write_to_path : FsSystem → FsArgs → Option Bytes → Option Bytes → FsResult
write_to_path s args (some path) (some text) =
    if is_empty path
    then (json_error (codes "path is required"), [])
    else if not (validate_data_path s.realpath path)
    then (path_error path, [])
    else write_checked s path text (value args.append false)
write_to_path s args _ _ = (throws, [])

unfoldable pub handle_fs_write_file : FsSystem → Option FsArgs → FsResult
handle_fs_write_file s none = (json_error (codes "invalid JSON arguments"), [])
handle_fs_write_file s (some args) =
    write_to_path s args (value args.path []) (value args.content [])

abbrev pub delete_found : FsSystem → Bytes → Option Stat → FsResult
delete_found s path none = (json_error (codes "file not found: " ++ path), [])
delete_found s path (some st) =
    if st.is_dir
    then (json_error (codes "cannot delete directory with fs.delete_file: " ++ path), [])
    else if not (s.unlink path)
    then (json_error (codes "delete failed: " ++ path), unlinks path ∷ [])
    else (deleted path, unlinks path ∷ [])

unfoldable pub handle_fs_delete_file : FsSystem → Option FsArgs → FsResult
handle_fs_delete_file s o = with_path s o λ args path. delete_found s path (s.stat path)

-- statvfs of /data: blocks, free and available blocks, and their size, as 64-bit numbers. The
-- bytes in all, used, free and available, and the percentage as an `int`.
unfoldable pub disk_usage : ℕ → ℕ → ℕ → ℕ → ℕ × (ℕ × (ℕ × (ℕ × ℤ)))
disk_usage f_blocks f_bfree f_bavail f_frsize =
    let total : ℕ = (f_blocks * f_frsize) % 2 ^ 64 in
    let free_bytes : ℕ = (f_bfree * f_frsize) % 2 ^ 64 in
    let avail : ℕ = (f_bavail * f_frsize) % 2 ^ 64 in
    let used : ℕ = (2 ^ 64 + total - free_bytes) % 2 ^ 64 in
    (
      total,
      (
        used,
        (
          free_bytes,
          (avail, if ltb 0 total then signed32 ((used * 100) % 2 ^ 64 / total % 2 ^ 32) else pos 0),
        ),
      ),
    )
