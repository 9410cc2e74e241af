-- ===== src/Config/Tests.antt =====
-- The configuration tools at concrete inputs.
use llamaste.Prelude.{
  ◌≡◌, refl, true, Option, none, some, [], ◌∷◌, Bytes, codes, bytes_eq, length, take, if◌then◌else◌,
  lookup, insert, HasUniqueKeys, All,
}
use llamaste.Json.{present}
use llamaste.Text.{getline_by}
use llamaste.Config.{
  ConfigSystem, ConfigDir, ConfigArgs, config_value, config_saved, config_reset_key, user,
  validate_key, key_bytes, find_default, line_of, read_value, value_reply, handle_config_get,
  save_value, handle_config_set, handle_config_reset, config_list_entries,
}
use llamaste.Config.Effects.{
  asked, handle_config_get-handle_config_set, handle_config_get-handle_config_reset,
}
use llamaste.Config.Listing.{ReadsBack, config_list_entries-ReadsBack}

abbrev system : ConfigSystem
system = record {
  makes_dir = true;
  opens_write = λ name. true;
  writes = λ name v. length v;
  unlinks = λ name. true;
}

abbrev theme : Bytes
theme = codes "ui.theme"

abbrev dir : ConfigDir
dir = record {
  is_dir = true;
  files = (codes "log.level", codes "debug\n") ∷ (theme, codes "blue") ∷ [];
}

abbrev set_theme : Bytes → Option ConfigArgs
set_theme v = some (record { key = present theme; new_value = some v })

saved :
    (handle_config_set system (set_theme (codes "light")) dir).1
    ≡ config_saved theme (codes "light")
unfolding handle_config_set validate_key key_bytes save_value bytes_eq
saved = refl

handle_config_get-handle_config_set_example :
    handle_config_get (asked theme) (handle_config_set system (set_theme (codes "light")) dir).0 ≡ (
      if bytes_eq theme theme
      then value_reply theme
          (line_of (some (take (system.writes theme (codes "light")) (codes "light"))))
      else handle_config_get (asked theme) dir)
handle_config_get-handle_config_set_example =
    handle_config_get-handle_config_set system (set_theme (codes "light")) dir theme (codes "light")
      theme saved (unfold bytes_eq in refl)

-- Of a value with two lines the second is lost.
first_line_only :
    handle_config_get (asked theme) (handle_config_set system (set_theme (codes "a\nb")) dir).0
    ≡ config_value theme (some (codes "a")) user none
unfolding handle_config_get handle_config_set validate_key key_bytes save_value bytes_eq read_value
    lookup insert getline_by
first_line_only = refl

reset :
    (handle_config_reset system (asked theme) dir).1 ≡ config_reset_key theme (some (codes "dark"))
unfolding handle_config_reset validate_key key_bytes find_default bytes_eq
reset = refl

unique : HasUniqueKeys dir.files
unfolding lookup bytes_eq
unique = (refl, (refl, tt))

handle_config_get-handle_config_reset_example :
    handle_config_get (asked theme) (handle_config_reset system (asked theme) dir).0
    ≡ (if bytes_eq theme theme then value_reply theme none else handle_config_get (asked theme) dir)
handle_config_get-handle_config_reset_example =
    handle_config_get-handle_config_reset system (asked theme) dir theme theme (some (codes "dark"))
      reset (unfold bytes_eq in refl) refl unique (unfold bytes_eq in refl)

config_list_entries-ReadsBack_example : All (ReadsBack dir) (config_list_entries dir)
config_list_entries-ReadsBack_example = config_list_entries-ReadsBack dir
