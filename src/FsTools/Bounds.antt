-- ===== src/FsTools/Bounds.antt =====
-- src/llamaste/tools_fs.cpp: what a search gives.
use mathlib.Core.List.{append_assoc}
use llamaste.FsTools.{validate_data_path}
use llamaste.FsTools.Ancestors.{Below}
use llamaste.FsTools.Handlers.{
  Dirent, FsSystem, FsArgs, Match, FsReply, json_error, path_error, throws, found, listing, content,
  written, deleted, is_dot,
}
use llamaste.FsTools.Search.{
  Found, push_match, search_entry, search_entries, search_opened, search_recursive, search_read,
  handle_fs_search,
}
use llamaste.Json.{value}
use llamaste.Prelude.{
  ℕ, zero, suc, ◌≤◌, ◌<◌, ◌≡◌, refl, ◌∙◌, ap, ◌⊎◌, inl, inr, true, Option, none, some, List, [],
  ◌∷◌, ◌++◌, Bytes, codes, ℤ, pos, ◌≤ℤ◌, ltb_ℤ, leb_ℤ, All, All-append, length, length-append,
  if◌then◌else◌, arith, Bool-cases,
}

-- A result has its own path below the directory, and is counted; there are at most 200.
abbrev pub IsFound : Bytes → Found → Type 0
IsFound root st =
    (length st.results ≡ st.count)
    × ((st.count ≤ 200) × All (λ (m : Match). Below root m.path) st.results)

-- Nothing is said of an error.
abbrev pub IsBounded : FsSystem → FsReply → Type 0
IsBounded s (found pattern path results count truncated) =
    (validate_data_path s.realpath path ≡ true)
    × IsFound path (record { results = results; count = count })
IsBounded s (throws) = Unit
IsBounded s (json_error what) = Unit
IsBounded s (path_error path) = Unit
IsBounded s (listing path entries n) = Unit
IsBounded s (content path bytes n truncated) = Unit
IsBounded s (written path n append) = Unit
IsBounded s (deleted path) = Unit

abbrev IsUnder : Bytes → Bytes → Type 0
IsUnder root dir = (dir ≡ root) ⊎ Below root dir

entry_Below : (root dir name : Bytes) → IsUnder root dir → Below root (dir ++ b'/' ∷ name)
entry_Below root dir name (inl e) = (name, ap (λ (x : Bytes). x ++ b'/' ∷ name) e)
entry_Below root dir name (inr (rest, e)) = (
  rest ++ b'/' ∷ name,
  ap (λ (x : Bytes). x ++ b'/' ∷ name) e ∙ append_assoc root (b'/' ∷ rest) (b'/' ∷ name),
)

module _ (s : FsSystem) (pattern root : Bytes) (max : ℤ) where
  abbrev Keeps : (Bytes → Found → Found) → Type 0
  Keeps f =
      (dir : Bytes) (st : Found) → IsUnder root dir → IsFound root st → IsFound root (f dir st)

  push_match-IsFound :
      (full name : Bytes) (st : Found)
      → Below root full
      → st.count < 200
      → IsFound root st
      → IsFound root (push_match s pattern max full name st)
  push_match-IsFound full name st b l (e, (k, a)) = elim (Bool-cases (s.fnmatch pattern name)) [
    | inl f ↦ simp f (
      omega (arith, length-append st.results (_ ∷ []), e),
      (
        omega (arith, l),
        All-append (λ (m : Match). Below root m.path) st.results (_ ∷ []) a (b, tt),
      ),
    )
    | inr f ↦ simp f (e, (k, a))
  ]

  search_entry-IsFound :
      (recurse : Bytes → Found → Found) (dir name : Bytes) (st : Found)
      → Keeps recurse
      → IsUnder root dir
      → st.count < 200
      → IsFound root st
      → IsFound root (search_entry s pattern max recurse dir name st)
  unfolding search_entry
  search_entry-IsFound recurse dir name st k u l h =
      let full : Bytes = dir ++ b'/' ∷ name in
      let b : Below root full = entry_Below root dir name u in
      let pushed = push_match-IsFound full name st b l h in
      elim (Bool-cases (is_dot name)) [
        | inl e ↦ rw e h
        | inr e ↦ rw e (elim (Bool-cases (s.lstat_dir full)) [
          | inl f ↦ simp f (k full (push_match s pattern max full name st) (inr b) pushed)
          | inr f ↦ simp f pushed
        ])
      ]

  below_max : (count : ℕ) → max ≤ℤ pos 200 → ltb_ℤ (pos count) max ≡ true → count < 200
  below_max count b e = ground (arith, b, e)

  search_entries-IsFound :
      (recurse : Bytes → Found → Found) (dir : Bytes) (ents : List Dirent) (st : Found)
      → max ≤ℤ pos 200
      → Keeps recurse
      → IsUnder root dir
      → IsFound root st
      → IsFound root (search_entries s pattern max recurse dir ents st)
  unfolding search_entries
  search_entries-IsFound recurse dir [] st m k u h = h
  search_entries-IsFound recurse dir (ent ∷ ents) st m k u h =
      elim (Bool-cases (ltb_ℤ (pos st.count) max)) [
        | inl e ↦ rw e (
            search_entries-IsFound recurse dir ents
              (search_entry s pattern max recurse dir ent.d_name st) m k u
              (search_entry-IsFound recurse dir ent.d_name st k u (below_max st.count m e) h))
        | inr e ↦ rw e h
      ]

  search_recursive-IsFound : (n : ℕ) → max ≤ℤ pos 200 → Keeps (search_recursive s pattern max n)
  unfolding search_recursive
  search_recursive-IsFound zero m dir st u h = h
  search_recursive-IsFound (suc n) m dir st u h = elim (Bool-cases (leb_ℤ max (pos st.count))) [
    | inl e ↦ rw e h
    | inr e ↦ rw e (opened (search_recursive-IsFound n m) (s.opendir dir))
  ]
    where
      opened :
          Keeps (search_recursive s pattern max n)
          → (o : Option (List Dirent))
          → IsFound root (search_opened s pattern max (search_recursive s pattern max n) dir o st)
      opened k none = h
      opened k (some ents) =
          search_entries-IsFound (search_recursive s pattern max n) dir ents st m k u h

capped : (max : ℤ) → (if ltb_ℤ (pos 200) max then pos 200 else max) ≤ℤ pos 200
capped max = ground arith

pub handle_fs_search-IsBounded :
    (s : FsSystem) (o : Option FsArgs) → IsBounded s (handle_fs_search s o)
unfolding handle_fs_search
handle_fs_search-IsBounded s none = tt
handle_fs_search-IsBounded s (some args) =
    go (value args.pattern (codes "*")) (value args.path (codes "/data"))
      (value args.max_results (pos 50))
  where
    go :
        (pattern path : Option Bytes) (max : Option ℤ)
        → IsBounded s (search_read s pattern path max)
    go (some pattern) (some path) (some max) =
        elim (Bool-cases (validate_data_path s.realpath path)) [
          | inr e ↦ rw e tt
          | inl e ↦ rw e (
            e,
            search_recursive-IsFound s pattern path (if ltb_ℤ (pos 200) max then pos 200 else max)
                21 (capped max) path (record { results = []; count = 0 }) (inl refl)
                (refl, (omega arith, tt)),
          )
        ]
    go none path max = tt
    go (some pattern) none max = tt
    go (some pattern) (some path) none = tt
