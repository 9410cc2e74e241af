-- ===== src/Mdns/Names.antt =====
-- src/llamaste/net_mdns.cpp: `encode_dns_name`, `decode_dns_name` and `dns_name_eq`.
use Prim.Native.Nat.{min}
use llamaste.Prelude.{
  and_then, ℕ, zero, suc, ◌+◌, ◌*◌, ◌/◌, ◌%◌, Bool, true, false, ◌&&◌, Option, none, some, [], ◌∷◌,
  ◌++◌, Bytes, codes, is_empty, cut, get_elem?, leb, ltb, ◌==◌, length, take, if◌then◌else◌,
}
use llamaste.Mdns.{slice}

-- A label on the wire: its length, at most 63, and that many bytes of it.
abbrev pub wire_label : Bytes → Bytes
wire_label label = min 63 (length label) ∷ take 63 label

-- `find('.', start)`; a name without another dot ends the loop.
unfoldable pub encode_labels : ℕ → Bytes → Bytes
encode_labels zero rest = 0 ∷ []
encode_labels (suc f) [] = 0 ∷ []
encode_labels (suc f) (c ∷ cs) = elim (cut (codes ".") (c ∷ cs)) [
  | none ↦ wire_label (c ∷ cs) ++ 0 ∷ []
  | some (label, rest) ↦ wire_label label ++ encode_labels f rest
]

unfoldable pub encode_dns_name : Bytes → Bytes
encode_dns_name fqdn = encode_labels (suc (length fqdn)) fqdn

-- `saved_offset`, which counts once a pointer was followed.
abbrev pub landing : Option ℕ → ℕ → ℕ
landing none offset = offset
landing (some saved) offset = saved

unfoldable pub append_label : Bytes → Bytes → Bytes
append_label name label = if is_empty name then label else name ++ (b'.' ∷ label)

-- The loop on the jumps that are left, and between two jumps on the bytes of the packet: each
-- label moves `offset` on, so as many rounds as the packet has bytes, and one, are enough.
unfoldable pub decode_loop : ℕ → ℕ → Bytes → ℕ → Option ℕ → Bytes → Option (Bytes × ℕ)
decode_loop zero rounds pkt offset saved name = some (name, landing saved offset)
decode_loop (suc jumps) zero pkt offset saved name = none
decode_loop (suc jumps) (suc rounds) pkt offset saved name =
    if leb (length pkt) offset
    then some (name, landing saved offset)
    else and_then (get_elem? pkt offset) λ len.
      if len == 0
      then some (name, landing saved (offset + 1))
      else if len / 64 == 3
      then (if leb (length pkt) (offset + 1)
          then some (name, landing saved offset)
          else and_then (get_elem? pkt (offset + 1)) λ low.
            decode_loop jumps (suc (length pkt)) pkt (len % 64 * 256 + low)
              (some (landing saved (offset + 2))) name)
      else if ltb (length pkt) (offset + 1 + len)
      then some (name, landing saved (offset + 1))
      else and_then (slice pkt (offset + 1) len) λ label.
        decode_loop (suc jumps) rounds pkt (offset + 1 + len) saved (append_label name label)

-- The name, and the offset behind it.
unfoldable pub decode_dns_name : Bytes → ℕ → Option (Bytes × ℕ)
decode_dns_name pkt offset = decode_loop 10 (suc (length pkt)) pkt offset none []

abbrev to_lower : ℕ → ℕ
to_lower c = if leb b'A' c && leb c b'Z' then c + 32 else c

unfoldable pub dns_name_eq : Bytes → Bytes → Bool
dns_name_eq [] [] = true
dns_name_eq [] (y ∷ ys) = false
dns_name_eq (x ∷ xs) [] = false
dns_name_eq (x ∷ xs) (y ∷ ys) = to_lower x == to_lower y && dns_name_eq xs ys
