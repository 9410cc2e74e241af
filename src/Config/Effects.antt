-- ===== src/Config/Effects.antt =====
-- src/llamaste/tools_config.cpp: what config.get gives after config.set and config.reset.
use llamaste.Prelude.{
  ◌≡◌, refl, sym, ap, ◌∙◌, true, false, not, ◌||◌, Option, none, some, List, [], ◌∷◌, Bytes,
  is_empty, bytes_eq, bytes_eq_iff, length, take, ltb, if◌then◌else◌, lookup, insert, erase,
  HasUniqueKeys, lookup-insert, lookup-erase, arith, Bool-cases, Option-cases, inl, inr,
}
use llamaste.Json.{present, value}
use llamaste.Config.{
  ConfigSystem, ConfigDir, ConfigArgs, ConfigReply, config_saved, config_reset_key, validate_key,
  is_dots, line_of, read_value, value_reply, get_key, handle_config_get, save_value, set_value,
  handle_config_set, handle_config_reset,
}

abbrev pub asked : Bytes → Option ConfigArgs
asked key = some (record { key = present key; new_value = none })

abbrev saved_key : ConfigReply → Bytes
saved_key (config_saved key v) = key
saved_key _ = []

abbrev saved_value : ConfigReply → Bytes
saved_value (config_saved key v) = v
saved_value _ = []

-- What was written of the value that the reply says is saved is in the directory.
abbrev IsSaved : ConfigSystem → Bytes → Bytes → ConfigDir → ConfigDir → Type 0
IsSaved s key v d d' =
    (d'.files ≡ insert key (take (s.writes key v) v) d.files)
    × ((validate_key key ≡ true) × (is_dots key ≡ false))

save_value-IsSaved :
    (s : ConfigSystem) (key' v' key v : Bytes) (d : ConfigDir)
    → validate_key key' ≡ true
    → (save_value s key' v' d).1 ≡ config_saved key v
    → IsSaved s key v d (save_value s key' v' d).0
unfolding save_value
save_value-IsSaved s key' v' key v d n e = elim (Bool-cases (not (d.is_dir || s.makes_dir))) [
  | inl f ↦ absurd (ground (arith, rw f at e))
  | inr f ↦ elim (Bool-cases (is_dots key' || not (s.opens_write key'))) [
    | inl g ↦ absurd (ground (arith, rw (f, g) at e))
    | inr g ↦
        rw (f, g, sym (ap saved_key (rw (f, g) at e)), sym (ap saved_value (rw (f, g) at e)))
          (refl, (n, ground (arith, g)))
  ]
]

set_value-IsSaved :
    (s : ConfigSystem) (key' key v : Bytes) (new : Option Bytes) (d : ConfigDir)
    → validate_key key' ≡ true
    → (set_value s key' new d).1 ≡ config_saved key v
    → IsSaved s key v d (set_value s key' new d).0
set_value-IsSaved s key' key v none d n e = absurd (ground arith)
set_value-IsSaved s key' key v (some v') d n e = elim (Bool-cases (ltb 4096 (length v'))) [
  | inl f ↦ absurd (ground (arith, rw f at e))
  | inr f ↦ rw f (save_value-IsSaved s key' v' key v d n (rw f at e))
]

handle_config_set-IsSaved :
    (s : ConfigSystem) (args : Option ConfigArgs) (d : ConfigDir) (key v : Bytes)
    → (handle_config_set s args d).1 ≡ config_saved key v
    → IsSaved s key v d (handle_config_set s args d).0
unfolding handle_config_set
handle_config_set-IsSaved s none d key v e = absurd (ground arith)
handle_config_set-IsSaved s (some args) d key v e = elim (Option-cases (value args.key [])) [
  | inl o ↦ absurd (ground (arith, rw o at e))
  | inr (key', o) ↦ elim (Bool-cases (is_empty key')) [
    | inl f ↦ absurd (ground (arith, rw (o, f) at e))
    | inr f ↦ elim (Bool-cases (validate_key key')) [
      | inl g ↦ rw (o, f, g) (set_value-IsSaved s key' key v args.new_value d g (rw (o, f, g) at e))
      | inr g ↦ absurd (ground (arith, rw (o, f, g) at e))
    ]
  ]
]

-- `get_key` depends on the value that is read.
get_key-same :
    (d d' : ConfigDir) (key : Bytes)
    → read_value key d ≡ read_value key d'
    → get_key d (some key) ≡ get_key d' (some key)
get_key-same d d' key e = rw e refl

read_value-files :
    (d : ConfigDir) (key : Bytes)
    → is_dots key ≡ false
    → read_value key d ≡ line_of (lookup key d.files)
unfolding read_value
read_value-files d key n = rw n refl

pub get_key-valid :
    (d : ConfigDir) (key : Bytes) (o : Option Bytes)
    → validate_key key ≡ true
    → read_value key d ≡ o
    → get_key d (some key) ≡ value_reply key o
get_key-valid d [] o v r = absurd (unfold validate_key in ground (arith, v))
get_key-valid d (c ∷ cs) o v r = rw (v, r) refl

-- After a config.set that replies that a value is saved, config.get gives, for its key, the
-- first line of the bytes of that value that were written, all of them unless the disk is full, and for each other key, the names of the directories excepted, what it gave before.
pub handle_config_get-handle_config_set :
    (s : ConfigSystem) (args : Option ConfigArgs) (d : ConfigDir) (key v other : Bytes)
    → (handle_config_set s args d).1 ≡ config_saved key v
    → is_dots other ≡ false
    → handle_config_get (asked other) (handle_config_set s args d).0 ≡ (
        if bytes_eq key other
        then value_reply other (line_of (some (take (s.writes key v) v)))
        else handle_config_get (asked other) d)
unfolding handle_config_get
handle_config_get-handle_config_set s args d key v other e n =
    let d' : ConfigDir = (handle_config_set s args d).0 in
    let stored : Bytes = take (s.writes key v) v in
    let (f, (valid, dots)) = handle_config_set-IsSaved s args d key v e in
    let reads : read_value other d'
        ≡ line_of (if bytes_eq key other then some stored else lookup other d.files) =
      read_value-files d' other n
      ∙ (ap (λ (fs : List (Bytes × Bytes)). line_of (lookup other fs)) f
          ∙ ap line_of (lookup-insert key other stored d.files)) in
    elim (Bool-cases (bytes_eq key other)) [
      | inl m ↦ rw m (
          get_key-valid d' other (line_of (some stored))
            (ap validate_key (sym ((bytes_eq_iff key other).0 m)) ∙ valid) (rw m at reads))
      | inr m ↦ rw m (get_key-same d' d other ((rw m at reads) ∙ sym (read_value-files d other n)))
    ]

abbrev reset_of : ConfigReply → Bytes
reset_of (config_reset_key key dv) = key
reset_of _ = []

handle_config_reset-files :
    (s : ConfigSystem) (args : Option ConfigArgs) (d : ConfigDir) (key : Bytes) (dv : Option Bytes)
    → (handle_config_reset s args d).1 ≡ config_reset_key key dv
    → is_dots key ≡ false
    → s.unlinks key ≡ true
    → ((handle_config_reset s args d).0.files ≡ erase key d.files) × (validate_key key ≡ true)
unfolding handle_config_reset
handle_config_reset-files s none d key dv e n u = elim (Bool-cases d.is_dir) [
  | inl f ↦ absurd (ground (arith, rw f at e))
  | inr f ↦ absurd (ground (arith, rw f at e))
]
handle_config_reset-files s (some args) d key dv e n u = elim (Option-cases (value args.key [])) [
  | inl o ↦ absurd (ground (arith, rw o at e))
  | inr (key', o) ↦ elim (Bool-cases (is_empty key')) [
    | inl f ↦ elim (Bool-cases d.is_dir) [
      | inl g ↦ absurd (ground (arith, rw (o, f, g) at e))
      | inr g ↦ absurd (ground (arith, rw (o, f, g) at e))
    ]
    | inr f ↦ elim (Bool-cases (validate_key key')) [
      | inl g ↦
          let same : key ≡ key' = sym (ap reset_of (rw (o, f, g) at e)) in
          rw (o, f, g, sym same, n, u) (refl, ap validate_key same ∙ g)
      | inr g ↦ absurd (ground (arith, rw (o, f, g) at e))
    ]
  ]
]

-- After a config.reset that replies that a key is reset, if the key is not the name of a directory
-- and the system lets its file be removed, config.get gives the default for the key, and for each
-- other key, the names of the directories excepted, what it gave before.
pub handle_config_get-handle_config_reset :
    (s : ConfigSystem) (args : Option ConfigArgs) (d : ConfigDir) (key other : Bytes)
    (dv : Option Bytes)
    → (handle_config_reset s args d).1 ≡ config_reset_key key dv
    → is_dots key ≡ false
    → s.unlinks key ≡ true
    → HasUniqueKeys d.files
    → is_dots other ≡ false
    → handle_config_get (asked other) (handle_config_reset s args d).0
      ≡ (if bytes_eq key other then value_reply other none else handle_config_get (asked other) d)
unfolding handle_config_get
handle_config_get-handle_config_reset s args d key other dv e k u h n =
    let d' : ConfigDir = (handle_config_reset s args d).0 in
    let (f, valid) = handle_config_reset-files s args d key dv e k u in
    let reads : read_value other d'
        ≡ line_of (if bytes_eq key other then none else lookup other d.files) =
      read_value-files d' other n
      ∙ (ap (λ (fs : List (Bytes × Bytes)). line_of (lookup other fs)) f
          ∙ ap line_of (lookup-erase key other d.files h)) in
    elim (Bool-cases (bytes_eq key other)) [
      | inl m ↦ rw m (
          get_key-valid d' other none (ap validate_key (sym ((bytes_eq_iff key other).0 m)) ∙ valid)
            (rw m at reads))
      | inr m ↦ rw m (get_key-same d' d other ((rw m at reads) ∙ sym (read_value-files d other n)))
    ]
