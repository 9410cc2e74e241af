-- ===== src/Mdns/Kinds.antt =====
-- src/llamaste/net_mdns.cpp: what the parser makes of the PTR, SRV, TXT and A records that the
-- responder writes.

use mathlib.Core.Path.{subst}
use llamaste.Prelude.{
  ℕ, zero, suc, ◌+◌, ◌≤◌, ◌<◌, ◌≡◌, refl, ap, ◌∙◌, true, false, some, List, [], ◌∷◌, ◌++◌, Bytes,
  All, get_elem?, length, take_all, length-append, arith, ltb, leb,
}
use llamaste.Mdns.{put_u16}
use llamaste.Mdns.Packets.{
  class_flush, addr_ttl, svc_ttl, type_a, type_ptr, type_txt, type_srv, txt_strings, txt_data,
  append_ptr, append_srv, append_txt, append_a,
}
use llamaste.Mdns.Parse.{Records, txt_loop, add_srv, dotted, parse_record, parse_records}
use llamaste.Mdns.Encoding.{IsLabel, join_dots, wires, encode_dns_name-join}
use llamaste.Mdns.RoundTrip.{
  HasAt, HasAt-at, HasAt-left, HasAt-right, slice-HasAt, not_zero, inside, decode_dns_name-wires,
}
use llamaste.Mdns.Records.{get_u16-bytes, parse_records-step, parse_records-step_of}

srv_condition : (n : ℕ) → leb 6 (6 + n) ≡ true
srv_condition n = ground arith

parse_record-srv :
    (pkt st owner : Bytes) (o port : ℕ) (ls : List Bytes) (rs : Records)
    → All IsLabel ls
    → port < 65536
    → HasAt pkt o (put_u16 0 ++ (put_u16 0 ++ (put_u16 port ++ wires ls)))
    → parse_record pkt st owner type_srv o (6 + length (wires ls)) rs
      ≡ some (add_srv st owner (join_dots ls) port rs)
unfolding parse_record put_u16
parse_record-srv pkt st owner o port ls rs p b h =
    let at_port = h.1.1.1.1 in
    let target : HasAt pkt (o + 6) (wires ls) = HasAt-at pkt (wires ls) (omega arith) at_port.1.1 in
    rw (srv_condition (length (wires ls))) (
      rw
        (get_u16-bytes pkt (suc (suc (suc (suc o)))) (o + 4) port b (omega arith) at_port.0
          at_port.1.0)
        (rw (decode_dns_name-wires ls pkt (o + 6) p target) refl))

-- A string that a TXT record can carry.
abbrev pub IsTxt : Bytes → Type 0
IsTxt kv = (0 < length kv) × (length kv ≤ 255)

txt_strings_short :
    (kv : Bytes) (kvs : List Bytes)
    → length kv ≤ 255
    → txt_strings (kv ∷ kvs) ≡ length kv ∷ (kv ++ txt_strings kvs)
unfolding txt_strings
txt_strings_short kv kvs h =
    rw (take_all 255 kv h) (ap (λ (n : ℕ). n ∷ (kv ++ txt_strings kvs)) (omega arith))

txt_loop-strings :
    (kvs : List Bytes) (f : ℕ) (pkt : Bytes) (pos txt_end : ℕ)
    → All IsTxt kvs
    → HasAt pkt pos (txt_strings kvs)
    → pos + length (txt_strings kvs) ≡ txt_end
    → txt_end ≤ pos + f
    → txt_loop f pkt pos txt_end ≡ some kvs
unfolding txt_loop
txt_loop-strings [] zero pkt pos txt_end p h e b = unfold txt_strings in ground arith
txt_loop-strings [] (suc f) pkt pos txt_end p h e b = unfold txt_strings in ground arith
txt_loop-strings (kv ∷ kvs) zero pkt pos txt_end p h e b =
    absurd (omega (arith, ap length (txt_strings_short kv kvs p.0.1)))
txt_loop-strings (kv ∷ kvs) (suc f) pkt pos txt_end p h0 e b =
    let rest : Bytes = txt_strings kvs in
    let size : length (txt_strings (kv ∷ kvs)) ≡ suc (length kv + length rest) =
      ap length (txt_strings_short kv kvs p.0.1) ∙ ap suc (length-append kv rest) in
    let h : HasAt pkt pos (length kv ∷ (kv ++ rest)) =
      subst (λ (s : Bytes). HasAt pkt pos s) (txt_strings_short kv kvs p.0.1) h0 in
    let at_kv : HasAt pkt (pos + 1) kv =
      HasAt-at pkt kv (omega arith) (HasAt-left pkt kv rest (suc pos) h.1) in
    let at_rest : HasAt pkt (pos + 1 + length kv) rest =
      HasAt-at pkt rest (omega arith) (HasAt-right pkt kv rest (suc pos) h.1) in
    rw (not_before txt_end pos (omega arith)) (
      rw h.0 (
        rw (inside txt_end (pos + 1 + length kv) (omega arith)) (
          rw (not_zero (length kv) p.0.0) (
            rw (slice-HasAt pkt kv (pos + 1) at_kv) (
              rw
                (txt_loop-strings kvs f pkt (pos + 1 + length kv) txt_end p.1 at_rest (omega arith)
                  (omega arith))
                refl)))))
  where
    not_before : (e i : ℕ) → i < e → leb e i ≡ false
    not_before e i h = ground arith

txt_condition : (n : ℕ) → 0 < n → ltb 0 n ≡ true
txt_condition n h = ground arith

-- The empty string of a record without any.
txt_loop-empty :
    (pkt : Bytes) (o : ℕ) → get_elem? pkt o ≡ some 0 → txt_loop 1 pkt o (o + 1) ≡ some []
unfolding txt_loop
txt_loop-empty pkt o h =
    rw (starts o) (rw h (rw (inside (o + 1) (o + 1 + 0) (omega arith)) (rw (ends o) refl)))
  where
    starts : (o : ℕ) → leb (o + 1) o ≡ false
    starts o = ground arith

    ends : (o : ℕ) → ltb (o + 1) (o + 1) ≡ false
    ends o = ground arith

parse_record-txt :
    (pkt st owner : Bytes) (o : ℕ) (kvs : List Bytes) (rs : Records)
    → All IsTxt kvs
    → HasAt pkt o (txt_data kvs)
    → parse_record pkt st owner type_txt o (length (txt_data kvs)) rs
      ≡ some (record rs { txt = rs.txt ++ (owner, kvs) ∷ [] })
unfolding parse_record txt_data
parse_record-txt pkt st owner o [] rs p h = rw (txt_loop-empty pkt o h.0) refl
parse_record-txt pkt st owner o (kv ∷ kvs) rs p h =
    let strings : Bytes = txt_strings (kv ∷ kvs) in
    rw (txt_condition (length strings) (omega (arith, ap length (txt_strings_short kv kvs p.0.1))))
      (rw
        (txt_loop-strings (kv ∷ kvs) (length strings) pkt o (o + length strings) p h refl
          (omega arith))
        refl)

parse_record-a :
    (pkt st owner : Bytes) (o a b c d : ℕ) (rs : Records)
    → HasAt pkt o (a ∷ b ∷ c ∷ d ∷ [])
    → parse_record pkt st owner type_a o 4 rs
      ≡ some (record rs { a = rs.a ++ (owner, dotted a b c d) ∷ [] })
unfolding parse_record
parse_record-a pkt st owner o a b c d rs h =
    let at_b : get_elem? pkt (o + 1) ≡ some b =
      (HasAt-at pkt (b ∷ c ∷ d ∷ []) {o' = o + 1} (omega arith) h.1).0 in
    let at_c : get_elem? pkt (o + 2) ≡ some c =
      (HasAt-at pkt (c ∷ d ∷ []) {o' = o + 2} (omega arith) h.1.1).0 in
    let at_d : get_elem? pkt (o + 3) ≡ some d =
      (HasAt-at pkt (d ∷ []) {o' = o + 3} (omega arith) h.1.1.1).0 in
    rw (h.0, at_b, at_c, at_d) refl

-- A pointer to an instance is read and left aside.
parse_record-ptr :
    (pkt st owner : Bytes) (o n : ℕ) (rs : Records)
    → parse_record pkt st owner type_ptr o n rs ≡ some rs
unfolding parse_record
parse_record-ptr pkt st owner o n rs = refl

-- One record of the packet is consumed, and the rest stands where the loop goes on.
abbrev pub Steps : ℕ → Bytes → Bytes → ℕ → Records → Bytes → Records → Type 0
Steps n pkt st o rs rest rs' =
    (o' : ℕ) × (HasAt pkt o' rest
      × (parse_records (suc n) pkt st o rs ≡ parse_records n pkt st o' rs'))

module _ (n : ℕ) (pkt st : Bytes) (o : ℕ) (rs : Records) (rest : Bytes) (ls : List Bytes)
    (p : All IsLabel ls) where
  pub ptr-Steps :
      (ts : List Bytes)
      → All IsLabel ts
      → length (wires ts) < 65536
      → HasAt pkt o (append_ptr (join_dots ls) (join_dots ts) ++ rest)
      → Steps n pkt st o rs rest rs
  unfolding append_ptr
  ptr-Steps ts q b h =
      parse_records-step ls type_ptr 1 svc_ttl (wires ts) rest n pkt st o rs rs p (omega arith) b
        (λ s _. parse_record-ptr pkt st (join_dots ls) s (length (wires ts)) rs)
        (rw (encode_dns_name-join ts q) at h)

  pub srv-Steps :
      (ts : List Bytes) (port : ℕ)
      → All IsLabel ts
      → 6 + length (wires ts) < 65536
      → port < 65536
      → HasAt pkt o (append_srv (join_dots ls) (join_dots ts) port ++ rest)
      → Steps n pkt st o rs rest (add_srv st (join_dots ls) (join_dots ts) port rs)
  unfolding append_srv put_u16
  srv-Steps ts port q b pb h =
      parse_records-step_of ls type_srv class_flush addr_ttl (6 + length (wires ts))
        (put_u16 0 ++ (put_u16 0 ++ (put_u16 port ++ wires ts))) rest n pkt st o rs
        (add_srv st (join_dots ls) (join_dots ts) port rs) p (omega arith) b (omega arith)
        (λ s at_data. parse_record-srv pkt st (join_dots ls) s port ts rs q pb at_data)
        (rw (encode_dns_name-join ts q) at h)

  pub txt-Steps :
      (kvs : List Bytes)
      → All IsTxt kvs
      → length (txt_data kvs) < 65536
      → HasAt pkt o (append_txt (join_dots ls) kvs ++ rest)
      → Steps n pkt st o rs rest (record rs { txt = rs.txt ++ (join_dots ls, kvs) ∷ [] })
  unfolding append_txt
  txt-Steps kvs q b h =
      parse_records-step ls type_txt class_flush svc_ttl (txt_data kvs) rest n pkt st o rs
        (record rs { txt = rs.txt ++ (join_dots ls, kvs) ∷ [] }) p (omega arith) b
        (λ s at_data. parse_record-txt pkt st (join_dots ls) s kvs rs q at_data) h

  pub a-Steps :
      (a b c d : ℕ)
      → HasAt pkt o (append_a (join_dots ls) (a ∷ b ∷ c ∷ d ∷ []) ++ rest)
      → Steps n pkt st o rs rest (record rs { a = rs.a ++ (join_dots ls, dotted a b c d) ∷ [] })
  unfolding append_a
  a-Steps a b c d h =
      parse_records-step ls type_a class_flush addr_ttl (a ∷ b ∷ c ∷ d ∷ []) rest n pkt st o rs
        (record rs { a = rs.a ++ (join_dots ls, dotted a b c d) ∷ [] }) p (omega arith)
        (omega arith) (λ s at_data. parse_record-a pkt st (join_dots ls) s a b c d rs at_data) h
