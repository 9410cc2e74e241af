-- ===== src/Json.antt =====
-- What the program reads of a JSON document through nlohmann::json: an entry under a key, as
-- `value(key, default)` sees it. The parser and the printer of the library are not modelled.
use llamaste.Prelude.{Option, none, some}

pub data Entry {ℓ} (A : Type ℓ) : Type ℓ where
  absent : Entry A
  ill_typed : Entry A
  present : A → Entry A

module _ {ℓ} {A : Type ℓ} where
  -- `j.value(key, default)`; `none` is the exception `type_error`.
  abbrev pub value : Entry A → A → Option A
  value absent d = some d
  value ill_typed d = none
  value (present a) d = some a
