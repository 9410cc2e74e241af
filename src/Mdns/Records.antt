-- ===== src/Mdns/Records.antt =====
-- src/llamaste/net_mdns.cpp: what the parser makes of each record that the responder writes.

use mathlib.Core.List.{append_assoc}
use mathlib.Core.Path.{subst}
use llamaste.Prelude.{
  and_then, ℕ, suc, ◌+◌, ◌/◌, ◌%◌, ◌≤◌, ◌<◌, ◌≡◌, refl, ap, sym, ◌∙◌, some, List, ◌++◌, Bytes, All,
  get_elem?, length, length-append, arith,
}
use llamaste.Mdns.{put_u16, put_u32, get_u16}
use llamaste.Mdns.Packets.{record_head}
use llamaste.Mdns.Parse.{Records, parse_record, parse_records}
use llamaste.Mdns.Encoding.{IsLabel, join_dots, wires, encode_dns_name-join}
use llamaste.Mdns.RoundTrip.{
  HasAt, HasAt-at, HasAt-bound, HasAt-left, HasAt-right, leb_under, inside, decode_dns_name-wires,
}

pub get_u16-bytes :
    (pkt : Bytes) (o i v : ℕ)
    → v < 65536
    → o ≡ i
    → get_elem? pkt o ≡ some (v / 256 % 256)
    → get_elem? pkt (suc o) ≡ some (v % 256)
    → get_u16 pkt i ≡ some v
unfolding get_u16
get_u16-bytes pkt o i v b e p q =
    subst (λ (j : ℕ). get_u16 pkt j ≡ some v) e
      (rw p (
        rw (subst (λ (j : ℕ). get_elem? pkt j ≡ some (v % 256)) {y = o + 1} (omega arith) q)
          (ap some (omega arith))))

abbrev fields : ℕ → ℕ → ℕ → ℕ → Bytes → Bytes
fields rr_type rr_class ttl rdlength rdata =
    put_u16 rr_type ++ (put_u16 rr_class ++ (put_u32 ttl ++ (put_u16 rdlength ++ rdata)))

read_fields :
    (pkt : Bytes) (w rr_type rr_class ttl rdlength : ℕ) (rdata : Bytes)
    → rr_type < 65536
    → rdlength < 65536
    → HasAt pkt w (fields rr_type rr_class ttl rdlength rdata)
    → (get_u16 pkt w ≡ some rr_type)
      × ((get_u16 pkt (w + 8) ≡ some rdlength) × HasAt pkt (w + 10) rdata)
unfolding put_u16 put_u32
read_fields pkt w rr_type rr_class ttl rdlength rdata tb lb h =
    let at_length = h.1.1.1.1.1.1.1.1 in
    (
      get_u16-bytes pkt w w rr_type tb refl h.0 h.1.0,
      (
        get_u16-bytes pkt (suc (suc (suc (suc (suc (suc (suc (suc w)))))))) (w + 8) rdlength lb
            (omega arith) at_length.0 at_length.1.0,
        HasAt-at pkt rdata (omega arith) at_length.1.1,
      ),
    )

head_fields :
    (ls : List Bytes) (rr_type rr_class ttl rdlength : ℕ) (rdata : Bytes)
    → All IsLabel ls
    → record_head (join_dots ls) rr_type rr_class ttl rdlength ++ rdata
      ≡ wires ls ++ fields rr_type rr_class ttl rdlength rdata
head_fields ls rr_type rr_class ttl rdlength rdata p =
    rw (encode_dns_name-join ls p) (simp append_assoc)

-- A record goes to `parse_record`, and the loop goes on behind it.
parse_records-record :
    (ls : List Bytes) (rr_type rr_class ttl : ℕ) (rdata : Bytes) (n : ℕ) (pkt st : Bytes) (o : ℕ)
    (rs : Records)
    → All IsLabel ls
    → rr_type < 65536
    → length rdata < 65536
    → HasAt pkt o (record_head (join_dots ls) rr_type rr_class ttl (length rdata) ++ rdata)
    → HasAt pkt (o + length (wires ls) + 10) rdata
      × (parse_records (suc n) pkt st o rs
          ≡ and_then
              (parse_record pkt st
                (join_dots ls)
                rr_type
                (o + length (wires ls) + 10)
                (length rdata)
                rs)
              λ more. parse_records n pkt st (o + length (wires ls) + 10 + length rdata) more)
unfolding parse_records
parse_records-record ls rr_type rr_class ttl rdata n pkt st o rs p tb lb h0 =
    let w : ℕ = o + length (wires ls) in
    let tail : Bytes = fields rr_type rr_class ttl (length rdata) rdata in
    let h : HasAt pkt o (wires ls ++ tail) =
      subst (λ (s : Bytes). HasAt pkt o s)
        (head_fields ls rr_type rr_class ttl (length rdata) rdata p) h0 in
    let (t, (len, at_data)) =
      read_fields pkt w rr_type rr_class ttl (length rdata) rdata tb lb
        (HasAt-right pkt (wires ls) tail o h) in
    let bound : w + 10 + length rdata ≤ length pkt = HasAt-bound pkt rdata (w + 10) at_data in
    (
      at_data,
      rw (leb_under pkt o (omega arith)) (
          rw (decode_dns_name-wires ls pkt o p (HasAt-left pkt (wires ls) tail o h)) (
            rw (inside (length pkt) (w + 10) (omega arith))
              (rw (t, len) (rw (inside (length pkt) (w + 10 + length rdata) bound) refl)))),
    )

-- What stands behind the record.
next-HasAt :
    (ls : List Bytes) (rr_type rr_class ttl : ℕ) (rdata rest pkt : Bytes) (o : ℕ)
    → All IsLabel ls
    → HasAt pkt o
        ((record_head (join_dots ls) rr_type rr_class ttl (length rdata) ++ rdata) ++ rest)
    → HasAt pkt (o + length (wires ls) + 10 + length rdata) rest
unfolding put_u16 put_u32
next-HasAt ls rr_type rr_class ttl rdata rest pkt o p h =
    let rec : Bytes = record_head (join_dots ls) rr_type rr_class ttl (length rdata) ++ rdata in
    HasAt-at pkt rest
      (omega (
        arith,
        ap length (head_fields ls rr_type rr_class ttl (length rdata) rdata p),
        length-append (wires ls) (fields rr_type rr_class ttl (length rdata) rdata),
      ))
      (HasAt-right pkt rec rest o h)

-- The loop passes over a record of which `parse_record` makes `rs'`.
pub parse_records-step :
    (ls : List Bytes) (rr_type rr_class ttl : ℕ) (rdata rest : Bytes) (n : ℕ) (pkt st : Bytes)
    (o : ℕ) (rs rs' : Records)
    → All IsLabel ls
    → rr_type < 65536
    → length rdata < 65536
    → ((s : ℕ)
        → HasAt pkt s rdata
        → parse_record pkt st (join_dots ls) rr_type s (length rdata) rs ≡ some rs')
    → HasAt pkt o
        ((record_head (join_dots ls) rr_type rr_class ttl (length rdata) ++ rdata) ++ rest)
    → (o' : ℕ) × (HasAt pkt o' rest
        × (parse_records (suc n) pkt st o rs ≡ parse_records n pkt st o' rs'))
parse_records-step ls rr_type rr_class ttl rdata rest n pkt st o rs rs' p tb lb parsed h =
    let rec : Bytes = record_head (join_dots ls) rr_type rr_class ttl (length rdata) ++ rdata in
    let (at_data, e) =
      parse_records-record ls rr_type rr_class ttl rdata n pkt st o rs p tb lb
        (HasAt-left pkt rec rest o h) in
    (
      o + length (wires ls) + 10 + length rdata,
      (
        next-HasAt ls rr_type rr_class ttl rdata rest pkt o p h,
        e ∙ rw (parsed (o + length (wires ls) + 10) at_data) refl,
      ),
    )

-- The same, where the length of the data is written in another way.
pub parse_records-step_of :
    (ls : List Bytes) (rr_type rr_class ttl len : ℕ) (rdata rest : Bytes) (n : ℕ) (pkt st : Bytes)
    (o : ℕ) (rs rs' : Records)
    → All IsLabel ls
    → rr_type < 65536
    → len < 65536
    → length rdata ≡ len
    → ((s : ℕ) → HasAt pkt s rdata → parse_record pkt st (join_dots ls) rr_type s len rs ≡ some rs')
    → HasAt pkt o ((record_head (join_dots ls) rr_type rr_class ttl len ++ rdata) ++ rest)
    → (o' : ℕ) × (HasAt pkt o' rest
        × (parse_records (suc n) pkt st o rs ≡ parse_records n pkt st o' rs'))
parse_records-step_of ls rr_type rr_class ttl len rdata rest n pkt st o rs rs' p tb lb e parsed h =
    parse_records-step ls rr_type rr_class ttl rdata rest n pkt st o rs rs' p tb (omega arith)
      (λ s d.
        subst (λ (k : ℕ). parse_record pkt st (join_dots ls) rr_type s k rs ≡ some rs') (sym e)
          (parsed s d))
      (subst
        (λ (k : ℕ).
          HasAt pkt o ((record_head (join_dots ls) rr_type rr_class ttl k ++ rdata) ++ rest))
        (sym e) h)
