-- ===== src/Scheduler/Cron.antt =====
-- src/llamaste/scheduler.cpp: `compute_next_cron`. `localtime` and `mktime` are those of the C
-- library; a time is a number of seconds.
use llamaste.Prelude.{
  ℕ, zero, suc, ◌+◌, ◌-◌, ◌%◌, Bool, true, false, ◌&&◌, Option, none, some, List, [], ◌∷◌, Bytes,
  codes, bytes_eq, ℤ, pos, negsuc, signed32, eqb_ℤ, leb_ℤ, ltb, if◌then◌else◌,
}
use llamaste.Text.{words, strtol}

pub record Tm : Type 0 where
  pub tm_sec : ℕ
  pub tm_min : ℕ
  pub tm_hour : ℕ
  pub tm_mday : ℕ
  pub tm_mon : ℕ
  pub tm_year : ℕ
  pub tm_wday : ℕ
  pub tm_isdst : ℤ

-- A `long` as an `int`. Numbers that the `long` cannot hold, and its two ends, count as `*`.
abbrev to_int : ℤ → Option ℤ
to_int (pos n) = if ltb n 9223372036854775807 then some (signed32 (n % 4294967296)) else none
to_int (negsuc n) =
    if ltb n 9223372036854775807 then some (signed32 (4294967295 - n % 4294967296)) else none

abbrev int_or_any : Option ℤ → Option ℤ
int_or_any none = none
int_or_any (some v) = to_int v

-- `none` is a wildcard.
unfoldable pub parse_field : Bytes → Option ℤ
parse_field field = if bytes_eq field (codes "*") then none else int_or_any (strtol field)

pub record Fields : Type 0 where
  pub want_min : Option ℤ
  pub want_hour : Option ℤ
  pub want_day : Option ℤ
  pub want_month : Option ℤ
  pub want_wday : Option ℤ

abbrev in_range : ℕ → ℕ → Option ℤ → Bool
in_range low high none = true
in_range low high (some v) = leb_ℤ (pos low) v && leb_ℤ v (pos high)

unfoldable pub in_ranges : Fields → Bool
in_ranges f =
    in_range 0 59 f.want_min
    && (in_range 0 23 f.want_hour
        && (in_range 1 31 f.want_day && (in_range 1 12 f.want_month && in_range 0 6 f.want_wday)))

abbrev fields_of : Bytes → Bytes → Bytes → Bytes → Bytes → Fields
fields_of a b c d e = record {
  want_min = parse_field a;
  want_hour = parse_field b;
  want_day = parse_field c;
  want_month = parse_field d;
  want_wday = parse_field e;
}

-- The first five words, and no field out of its range.
abbrev five : List Bytes → Option Fields
five (a ∷ b ∷ c ∷ d ∷ e ∷ rest) =
    let f : Fields = fields_of a b c d e in if in_ranges f then some f else none
five _ = none

unfoldable pub parse_fields : Bytes → Option Fields
parse_fields expr = five (words [] expr)

-- `!any && value != want`
unfoldable pub differs : Option ℤ → ℕ → Bool
differs none value = false
differs (some want) value = if eqb_ℤ (pos value) want then false else true

abbrev pub next_month : Tm → Tm
next_month t = record t { tm_mon = t.tm_mon + 1; tm_mday = 1; tm_hour = 0; tm_min = 0; tm_sec = 0 }

abbrev pub next_day : Tm → Tm
next_day t = record t { tm_mday = t.tm_mday + 1; tm_hour = 0; tm_min = 0; tm_sec = 0 }

abbrev pub next_hour : Tm → Tm
next_hour t = record t { tm_hour = t.tm_hour + 1; tm_min = 0; tm_sec = 0 }

abbrev pub next_minute : Tm → Tm
next_minute t = record t { tm_min = t.tm_min + 1; tm_sec = 0 }

-- Where the search jumps to; `none` is a match.
unfoldable pub jump : Fields → Tm → Option Tm
jump f t =
    if differs f.want_month (t.tm_mon + 1)
    then some (next_month t)
    else if differs f.want_day t.tm_mday
    then some (next_day t)
    else if differs f.want_wday t.tm_wday
    then some (next_day t)
    else if differs f.want_hour t.tm_hour
    then some (next_hour t)
    else if differs f.want_min t.tm_min
    then some (next_minute t)
    else none

module _ (localtime : ℕ → Tm) (mktime : Tm → ℕ) where
  -- The rounds that are left.
  unfoldable pub search_from : ℕ → Fields → ℕ → ℕ
  search_from zero f candidate = 0
  search_from (suc n) f candidate = elim (jump f (localtime candidate)) [
    | none ↦ candidate
    | some t ↦ search_from n f (mktime t)
  ]

  abbrev pub start_at : ℕ → ℕ
  start_at after = mktime (record (localtime (after + 60)) { tm_sec = 0 })

  abbrev search_fields : ℕ → Option Fields → ℕ
  search_fields after none = 0
  search_fields after (some f) = search_from 527040 f (start_at after)

  unfoldable pub compute_next_cron : Bytes → ℕ → ℕ
  compute_next_cron expr after = search_fields after (parse_fields expr)
