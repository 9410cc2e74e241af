-- ===== src/FsTools/Tests.antt =====
-- The file-system tools on a small tree.
use llamaste.Text.{contains}
use llamaste.FsTools.{
  canonicalize_path, validate_data_path, segments, push_segments, push_segment, join_more, pop_back,
  ancestor_inside, parent, before_slash,
}
use llamaste.FsTools.Bounds.{IsBounded}
use llamaste.FsTools.Calls.{IsConfined, fs_handlers-IsConfined}
use llamaste.FsTools.Confined.{IsRealInside, validate_data_path_iff}
use llamaste.FsTools.Handlers.{
  FsSystem, FsArgs, handle_fs_list_directory, handle_fs_read_file, handle_fs_write_file,
  handle_fs_delete_file,
}
use llamaste.FsTools.Search.{handle_fs_search}
use llamaste.Json.{absent, present}
use llamaste.Prelude.{
  ◌≡◌, ◌↔◌, ◌⊎◌, refl, true, false, Option, none, some, [], ◌∷◌, Bytes, codes, bytes_eq, cut,
  strip_prefix, take, if◌then◌else◌,
}

-- /data and /etc are there, and /data/x is a link to /etc/y, which is not.
abbrev dangling : Bytes → Option Bytes
dangling path =
    if bytes_eq path (codes "/data")
    then some (codes "/data")
    else if bytes_eq path (codes "/etc")
    then some (codes "/etc")
    else none

abbrev tree : FsSystem
tree = record {
  realpath = dangling;
  opendir = λ path.
      if bytes_eq path (codes "/data")
      then some (record { d_name = codes "x"; is_dt_dir = false } ∷ [])
      else none;
  stat = λ path. some (record { st_size = 3; is_dir = false; st_mtime = 0 });
  lstat_dir = λ path. false;
  read = λ path. some (codes "abc");
  writable = λ path. true;
  unlink = λ path. true;
  fnmatch = λ pattern name. true;
}

abbrev write_x : Option FsArgs
write_x = some (record {
  path = present (codes "/data/x");
  content = present (codes "z");
  append = absent;
  max_bytes = absent;
  pattern = absent;
  max_results = absent;
})

-- A link whose target is missing passes for a file that is to be made.
dangling_accepted : validate_data_path dangling (codes "/data/x") ≡ true
unfolding validate_data_path bytes_eq canonicalize_path push_segments segments push_segment
    join_more cut strip_prefix ancestor_inside parent before_slash
dangling_accepted = refl

canonical_form : canonicalize_path (codes "/data/a/../b//./c") ≡ codes "/data/b/c"
unfolding canonicalize_path push_segments segments push_segment bytes_eq pop_back join_more
canonical_form = refl

validate_data_path_iff_example : (validate_data_path dangling (codes "/data/x") ≡ true) ↔ (
    (codes "/data/x" ≡ codes "/data")
    ⊎ ((take 6 (codes "/data/x") ≡ codes "/data/")
        × ((contains (codes "/data/x") (codes "..") ≡ false)
            × IsRealInside dangling (codes "/data/x"))))
validate_data_path_iff_example = validate_data_path_iff dangling (codes "/data/x")

fs_handlers-IsConfined_example :
    IsConfined tree (handle_fs_list_directory tree write_x)
    × (IsConfined tree (handle_fs_read_file tree write_x)
        × (IsConfined tree (handle_fs_write_file tree write_x)
            × (IsConfined tree (handle_fs_delete_file tree write_x)
                × IsBounded tree (handle_fs_search tree write_x))))
fs_handlers-IsConfined_example = fs_handlers-IsConfined tree write_x
