-- ===== src/Mdns/Parse.antt =====
-- src/llamaste/net_mdns.cpp: `parse_service_responses`, and the removal of duplicates at the end
-- of `discover_services`. `none` is a read outside the packet.
use mathlib.Core.Option.{map}
use llamaste.Prelude.{
  and_then, ℕ, zero, suc, ◌+◌, ◌-◌, ◌/◌, ◌%◌, Bool, true, false, ◌&&◌, ◌||◌, Option, none, some,
  List, [], ◌∷◌, ◌++◌, Bytes, codes, is_empty, bytes_eq, cut, decimal, get_elem?, leb, ltb, ◌==◌,
  length, take, drop, if◌then◌else◌,
}
use llamaste.Mdns.{slice, get_u16}
use llamaste.Mdns.Names.{decode_dns_name, dns_name_eq}
use llamaste.Mdns.Packets.{type_a, type_txt, type_srv}

pub record DiscoveredService : Type 0 where
  pub hostname : Bytes
  pub ip : Bytes
  pub port : ℕ
  pub txt : List Bytes

-- The three vectors, of records with their owners' names.
pub record Records : Type 0 where
  pub srv : List (Bytes × (Bytes × ℕ))
  pub txt : List (Bytes × List Bytes)
  pub a : List (Bytes × Bytes)

abbrev pub no_records : Records
no_records = record { srv = []; txt = []; a = [] }

-- The strings of a TXT record; each takes a byte, so its length is enough fuel.
unfoldable pub txt_loop : ℕ → Bytes → ℕ → ℕ → Option (List Bytes)
txt_loop zero pkt pos txt_end = if ltb pos txt_end then none else some []
txt_loop (suc f) pkt pos txt_end =
    if leb txt_end pos
    then some []
    else and_then (get_elem? pkt pos) λ str_len.
      if ltb txt_end (pos + 1 + str_len)
      then some []
      else if str_len == 0
      then txt_loop f pkt (pos + 1) txt_end
      else and_then (slice pkt (pos + 1) str_len)
          λ kv. map (λ kvs. kv ∷ kvs) (txt_loop f pkt (pos + 1 + str_len) txt_end)

-- The name without `.local`, when something stands before it.
unfoldable pub strip_local : Bytes → Bytes
strip_local target =
    let n : ℕ = length target - 6 in
    if ltb 6 (length target) && bytes_eq (drop n target) (codes ".local")
    then take n target
    else target

abbrev found : Option (Bytes × Bytes) → Bool
found none = false
found (some _) = true

unfoldable pub add_srv : Bytes → Bytes → Bytes → ℕ → Records → Records
add_srv service_type owner target port records =
    if is_empty service_type || found (cut service_type owner)
    then record records { srv = records.srv ++ (owner, (strip_local target, port)) ∷ [] }
    else records

unfoldable pub dotted : ℕ → ℕ → ℕ → ℕ → Bytes
dotted a b c d = decimal a ++ (b'.' ∷ decimal b ++ (b'.' ∷ decimal c ++ (b'.' ∷ decimal d)))

-- The data of one record, `rdlength` bytes from `offset`.
unfoldable pub parse_record : Bytes → Bytes → Bytes → ℕ → ℕ → ℕ → Records → Option Records
parse_record pkt service_type owner rr_type offset rdlength records =
    if rr_type == type_srv && leb 6 rdlength
    then (and_then (get_u16 pkt (offset + 4)) λ port.
        and_then (decode_dns_name pkt (offset + 6))
          λ (target, _). some (add_srv service_type owner target port records))
    else if rr_type == type_txt && ltb 0 rdlength
    then (and_then (txt_loop rdlength pkt offset (offset + rdlength))
        λ kvs. some (record records { txt = records.txt ++ (owner, kvs) ∷ [] }))
    else if rr_type == type_a && (rdlength == 4)
    then (and_then (get_elem? pkt offset) λ a. and_then (get_elem? pkt (offset + 1)) λ b.
        and_then (get_elem? pkt (offset + 2)) λ c.
          and_then (get_elem? pkt (offset + 3))
            λ d. some (record records { a = records.a ++ (owner, dotted a b c d) ∷ [] }))
    else some records

-- The loop on the records; each branch ends behind the record's data.
unfoldable pub parse_records : ℕ → Bytes → Bytes → ℕ → Records → Option Records
parse_records zero pkt service_type offset records = some records
parse_records (suc n) pkt service_type offset records =
    if leb (length pkt) offset
    then some records
    else and_then (decode_dns_name pkt offset) λ (owner, o).
      if ltb (length pkt) (o + 10)
      then some records
      else and_then (get_u16 pkt o) λ rr_type. and_then (get_u16 pkt (o + 8)) λ rdlength.
        if ltb (length pkt) (o + 10 + rdlength)
        then some records
        else and_then (parse_record pkt service_type owner rr_type (o + 10) rdlength records)
            λ more. parse_records n pkt service_type (o + 10 + rdlength) more

-- The offset behind the questions; the inner `none` is the early return.
unfoldable pub skip_questions : ℕ → Bytes → ℕ → Option (Option ℕ)
skip_questions zero pkt offset = some (some offset)
skip_questions (suc n) pkt offset =
    if leb (length pkt) offset
    then some (some offset)
    else and_then (decode_dns_name pkt offset)
        λ (_, o). if ltb (length pkt) (o + 4) then some none else skip_questions n pkt (o + 4)

-- The first record whose owner has the name, and `d` without one.
unfoldable pub by_name {ℓ} : {A : Type ℓ} → Bytes → A → List (Bytes × A) → A
by_name name d [] = d
by_name name d ((owner, content) ∷ rest) =
    if dns_name_eq owner name then content else by_name name d rest

unfoldable pub merge : List (Bytes × (Bytes × ℕ)) → Records → List DiscoveredService
merge [] records = []
merge ((owner, (target, port)) ∷ rest) records =
    record {
      hostname = target;
      ip = by_name (target ++ codes ".local") [] records.a;
      port = port;
      txt = by_name owner [] records.txt;
    }
    ∷ merge rest records

-- What follows the questions, when they did not end the parse.
unfoldable pub parse_after : ℕ → Bytes → Bytes → Option ℕ → Option (List DiscoveredService)
parse_after total_rr pkt service_type none = some []
parse_after total_rr pkt service_type (some offset) =
    and_then (parse_records total_rr pkt service_type offset no_records)
      λ records. some (merge records.srv records)

-- `ancount + arcount` is stored in 16 bits.
unfoldable pub parse_service_responses : Bytes → Bytes → Option (List DiscoveredService)
parse_service_responses pkt service_type =
    if ltb (length pkt) 12
    then some []
    else and_then (get_u16 pkt 2) λ flags. and_then (get_u16 pkt 4) λ qdcount.
      and_then (get_u16 pkt 6) λ ancount. and_then (get_u16 pkt 10) λ arcount.
        if flags / 32768 % 2 == 0
        then some []
        else and_then (skip_questions qdcount pkt 12)
            λ start. parse_after ((ancount + arcount) % 65536) pkt service_type start

abbrev pub same_endpoint : DiscoveredService → DiscoveredService → Bool
same_endpoint a b = bytes_eq a.ip b.ip && (a.port == b.port)

unfoldable pub is_dup : DiscoveredService → List DiscoveredService → Bool
is_dup svc [] = false
is_dup svc (existing ∷ rest) = same_endpoint existing svc || is_dup svc rest

unfoldable pub dedupe_onto :
    List DiscoveredService → List DiscoveredService → List DiscoveredService
dedupe_onto deduped [] = deduped
dedupe_onto deduped (svc ∷ rest) =
    dedupe_onto (if is_dup svc deduped then deduped else deduped ++ svc ∷ []) rest

unfoldable pub dedupe : List DiscoveredService → List DiscoveredService
dedupe = dedupe_onto []
