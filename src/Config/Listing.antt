-- ===== src/Config/Listing.antt =====
-- src/llamaste/tools_config.cpp: config.list agrees with config.get.
use llamaste.Prelude.{
  ◌≡◌, refl, Bool, true, false, not, ◌||◌, Option, none, some, List, [], ◌∷◌, Bytes, bytes_eq,
  if◌then◌else◌, Assoc, All, All-append, arith, Bool-cases, Option-cases, inl, inr,
}
use llamaste.Config.{
  ConfigDir, ConfigDefault, ConfigEntry, ConfigSource, default, config_value, validate_key,
  key_bytes, defaults, find_default, is_dots, read_value, handle_config_get, default_entry,
  default_entries, user_entry, is_default, user_entries, config_list_entries,
}
use llamaste.Config.Effects.{asked, get_key-valid}

abbrev description_of : ConfigSource → Option ConfigDefault → Option Bytes
description_of default (some c) = some c.description
description_of _ _ = none

-- config.get gives the value and the source of the entry.
abbrev pub ReadsBack : ConfigDir → ConfigEntry → Type 0
ReadsBack d e =
    handle_config_get (asked e.key) d
    ≡ config_value e.key (some e.current) e.source (description_of e.source e.of_default)

-- The key can be asked for, and finds the default.
abbrev IsListed : ConfigDefault → Type 0
IsListed c = (validate_key c.key ≡ true) × (find_default c.key defaults ≡ some c)

defaults-IsListed : All IsListed defaults
unfolding validate_key key_bytes find_default bytes_eq
defaults-IsListed = (
  (refl, refl),
  (
    (refl, refl),
    (
      (refl, refl),
      (
        (refl, refl),
        (
          (refl, refl),
          (
            (refl, refl),
            ((refl, refl), ((refl, refl), ((refl, refl), ((refl, refl), ((refl, refl), tt))))),
          ),
        ),
      ),
    ),
  ),
)

default_entry-ReadsBack :
    (d : ConfigDir) (c : ConfigDefault)
    → IsListed c
    → ReadsBack d (default_entry c (read_value c.key d))
unfolding handle_config_get
default_entry-ReadsBack d c (v, f) = elim (Option-cases (read_value c.key d)) [
  | inl o ↦ rw (o, get_key-valid d c.key none v o, f) refl
  | inr (w, o) ↦ rw (o, get_key-valid d c.key (some w) v o) refl
]

default_entries-ReadsBack :
    (d : ConfigDir) (cs : List ConfigDefault)
    → All IsListed cs
    → All (ReadsBack d) (default_entries cs d)
unfolding default_entries
default_entries-ReadsBack d [] h = tt
default_entries-ReadsBack d (c ∷ cs) h =
    (default_entry-ReadsBack d c h.0, default_entries-ReadsBack d cs h.1)

user_entry-ReadsBack :
    (d : ConfigDir) (name : Bytes) (rest : List ConfigEntry)
    → validate_key name ≡ true
    → All (ReadsBack d) rest
    → All (ReadsBack d) (user_entry name (read_value name d) rest)
unfolding handle_config_get
user_entry-ReadsBack d name rest v h = elim (Option-cases (read_value name d)) [
  | inl o ↦ rw o h
  | inr (w, o) ↦ rw o (get_key-valid d name (some w) v o, h)
]

user_entries-ReadsBack : (d : ConfigDir) (fs : Assoc Bytes) → All (ReadsBack d) (user_entries fs d)
unfolding user_entries
user_entries-ReadsBack d [] = tt
user_entries-ReadsBack d ((name, content) ∷ fs) =
    let skip : Bool =
      is_dots name || (not (validate_key name) || is_default (find_default name defaults)) in
    elim (Bool-cases skip) [
      | inl e ↦ rw e (user_entries-ReadsBack d fs)
      | inr e ↦ rw e (
          user_entry-ReadsBack d name (user_entries fs d) (ground (arith, e))
            (user_entries-ReadsBack d fs))
    ]

-- Each entry that config.list gives is what config.get gives for its key: the value and its source.
pub config_list_entries-ReadsBack : (d : ConfigDir) → All (ReadsBack d) (config_list_entries d)
config_list_entries-ReadsBack d =
    All-append (ReadsBack d) (default_entries defaults d)
      (if d.is_dir then user_entries d.files d else [])
      (default_entries-ReadsBack d defaults defaults-IsListed) (users d.is_dir)
  where
    users : (b : Bool) → All (ReadsBack d) (if b then user_entries d.files d else [])
    users true = user_entries-ReadsBack d d.files
    users false = tt
