-- ===== src/Mdns/Safety.antt =====
-- src/llamaste/net_mdns.cpp: the decoders end on every packet, and read no byte outside of it.
use mathlib.Core.Option.{IsSome}
use llamaste.Prelude.{
  ℕ, zero, suc, ◌+◌, ◌-◌, ◌*◌, ◌/◌, ◌%◌, ◌≤◌, ◌<◌, ◌≡◌, refl, Option, none, some, List, [], ◌∷◌,
  Bytes, get_elem?, leb, ltb, ◌==◌, length, take, drop, arith, Bool-cases, Option-cases, inl, inr,
  ◌&&◌, ◌++◌,
}
use llamaste.Mdns.{slice, get_u16}
use llamaste.Mdns.Parse.{
  parse_after, Records, no_records, txt_loop, add_srv, dotted, parse_record, parse_records,
  skip_questions, parse_service_responses,
}
use llamaste.Mdns.Packets.{type_a, type_txt, type_srv}
use llamaste.Mdns.Names.{landing, append_label, decode_loop, decode_dns_name}

pub read : (pkt : Bytes) (i : ℕ) → i < length pkt → (b : ℕ) × (get_elem? pkt i ≡ some b)
read [] i h = absurd (omega arith)
read (x ∷ xs) zero h = (x, refl)
read (x ∷ xs) (suc i) h = read xs i (omega arith)

pub slice-eq :
    (pkt : Bytes) (o n : ℕ) → o + n ≤ length pkt → slice pkt o n ≡ some (take n (drop o pkt))
unfolding slice
slice-eq pkt o n h = ground arith

decode_loop-IsSome :
    (jumps rounds : ℕ) (pkt : Bytes) (offset : ℕ) (saved : Option ℕ) (name : Bytes)
    → length pkt - offset < rounds
    → IsSome (decode_loop jumps rounds pkt offset saved name)
unfolding decode_loop
decode_loop-IsSome zero rounds pkt offset saved name h = tt
decode_loop-IsSome (suc jumps) zero pkt offset saved name h = absurd (omega arith)
decode_loop-IsSome (suc jumps) (suc rounds) pkt offset saved name h =
    elim (Bool-cases (leb (length pkt) offset)) [
      | inl e ↦ rw e tt
      | inr e ↦
          let (len, l) = read pkt offset (ground arith) in
          rw e (
            rw l (elim (Bool-cases (len == 0)) [
              | inl f ↦ rw f tt
              | inr f ↦ rw f (elim (Bool-cases (len / 64 == 3)) [
                | inl g ↦ rw g (elim (Bool-cases (leb (length pkt) (offset + 1))) [
                  | inl i ↦ rw i tt
                  | inr i ↦
                      let (low, m) = read pkt (offset + 1) (ground arith) in
                      rw i (
                        rw m (
                          decode_loop-IsSome jumps (suc (length pkt)) pkt (len % 64 * 256 + low)
                            (some (landing saved (offset + 2))) name (omega arith)))
                ])
                | inr g ↦ rw g (elim (Bool-cases (ltb (length pkt) (offset + 1 + len))) [
                  | inl i ↦ rw i tt
                  | inr i ↦ rw i (
                      rw (slice-eq pkt (offset + 1) len (ground arith)) (
                        decode_loop-IsSome (suc jumps) rounds pkt (offset + 1 + len) saved
                          (append_label name (take len (drop (offset + 1) pkt))) (ground arith)))
                ])
              ])
            ]))
    ]

-- `decode_dns_name` returns, with no read outside the packet, from every offset of every packet.
pub decode_dns_name-IsSome : (pkt : Bytes) (offset : ℕ) → IsSome (decode_dns_name pkt offset)
unfolding decode_dns_name
decode_dns_name-IsSome pkt offset =
    decode_loop-IsSome 10 (suc (length pkt)) pkt offset none [] (omega arith)

get_u16-read : (pkt : Bytes) (i : ℕ) → i + 1 < length pkt → (v : ℕ) × (get_u16 pkt i ≡ some v)
unfolding get_u16
get_u16-read pkt i h =
    let (hi, p) = read pkt i (omega arith) in
    let (lo, q) = read pkt (i + 1) h in (hi * 256 + lo, rw (p, q) refl)

txt_loop-read :
    (f : ℕ) (pkt : Bytes) (pos txt_end : ℕ)
    → txt_end ≤ length pkt
    → txt_end - pos ≤ f
    → (kvs : List Bytes) × (txt_loop f pkt pos txt_end ≡ some kvs)
unfolding txt_loop
txt_loop-read zero pkt pos txt_end b h = ([], ground arith)
txt_loop-read (suc f) pkt pos txt_end b h = elim (Bool-cases (leb txt_end pos)) [
  | inl e ↦ ([], rw e refl)
  | inr e ↦
      let (n, l) = read pkt pos (ground arith) in
      rw e (
        rw l (elim (Bool-cases (ltb txt_end (pos + 1 + n))) [
          | inl g ↦ ([], rw g refl)
          | inr g ↦ rw g (elim (Bool-cases (n == 0)) [
            | inl z ↦
                let (kvs, p) = txt_loop-read f pkt (pos + 1) txt_end b (ground arith) in
                (kvs, rw z p)
            | inr z ↦
                let (kvs, p) = txt_loop-read f pkt (pos + 1 + n) txt_end b (ground arith) in
                (
                  take n (drop (pos + 1) pkt) ∷ kvs,
                  rw z (rw (slice-eq pkt (pos + 1) n (ground arith)) (rw p refl)),
                )
          ])
        ]))
]

decode-read : (pkt : Bytes) (offset : ℕ) → (r : Bytes × ℕ) × (decode_dns_name pkt offset ≡ some r)
decode-read pkt offset = elim (Option-cases (decode_dns_name pkt offset)) [
  | inl e ↦ absurd (rw e at (decode_dns_name-IsSome pkt offset))
  | inr r ↦ r
]

parse_record-read :
    (pkt st owner : Bytes) (rr_type offset rdlength : ℕ) (rs : Records)
    → offset + rdlength ≤ length pkt
    → (more : Records) × (parse_record pkt st owner rr_type offset rdlength rs ≡ some more)
unfolding parse_record
parse_record-read pkt st owner rr_type offset rdlength rs h =
    elim (Bool-cases (rr_type == type_srv && leb 6 rdlength)) [
      | inl e ↦
          let (port, p) = get_u16-read pkt (offset + 4) (ground arith) in
          let (r, q) = decode-read pkt (offset + 6) in
          (add_srv st owner r.0 port rs, rw e (rw (p, q) refl))
      | inr e ↦ rw e (elim (Bool-cases (rr_type == type_txt && ltb 0 rdlength)) [
        | inl f ↦
            let (kvs, p) = txt_loop-read rdlength pkt offset (offset + rdlength) h (omega arith) in
            (record rs { txt = rs.txt ++ (owner, kvs) ∷ [] }, rw f (rw p refl))
        | inr f ↦ rw f (elim (Bool-cases (rr_type == type_a && (rdlength == 4))) [
          | inl g ↦
              let (a, p) = read pkt offset (ground arith) in
              let (b, q) = read pkt (offset + 1) (ground arith) in
              let (c, r) = read pkt (offset + 2) (ground arith) in
              let (d, s) = read pkt (offset + 3) (ground arith) in
              (record rs { a = rs.a ++ (owner, dotted a b c d) ∷ [] }, rw g (rw (p, q, r, s) refl))
          | inr g ↦ (rs, rw g refl)
        ])
      ])
    ]

parse_records-read :
    (n : ℕ) (pkt st : Bytes) (offset : ℕ) (rs : Records)
    → (more : Records) × (parse_records n pkt st offset rs ≡ some more)
unfolding parse_records
parse_records-read zero pkt st offset rs = (rs, refl)
parse_records-read (suc n) pkt st offset rs = elim (Bool-cases (leb (length pkt) offset)) [
  | inl e ↦ (rs, rw e refl)
  | inr e ↦
      let ((owner, o), p) = decode-read pkt offset in
      rw e (
        rw p (elim (Bool-cases (ltb (length pkt) (o + 10))) [
          | inl f ↦ (rs, rw f refl)
          | inr f ↦
              let (t, q) = get_u16-read pkt o (ground arith) in
              let (len, r) = get_u16-read pkt (o + 8) (ground arith) in
              rw f (
                rw (q, r)
                  (elim (Bool-cases (ltb (length pkt) (o + 10 + len))) [
                    | inl g ↦ (rs, rw g refl)
                    | inr g ↦
                        let (more, s) =
                          parse_record-read pkt st owner t (o + 10) len rs (ground arith) in
                        rw g (rw s (parse_records-read n pkt st (o + 10 + len) more))
                  ]))
        ]))
]

skip_questions-read :
    (n : ℕ) (pkt : Bytes) (offset : ℕ) → (o : Option ℕ) × (skip_questions n pkt offset ≡ some o)
unfolding skip_questions
skip_questions-read zero pkt offset = (some offset, refl)
skip_questions-read (suc n) pkt offset = elim (Bool-cases (leb (length pkt) offset)) [
  | inl e ↦ (some offset, rw e refl)
  | inr e ↦
      let ((owner, o), p) = decode-read pkt offset in
      rw e (
        rw p (elim (Bool-cases (ltb (length pkt) (o + 4))) [
          | inl f ↦ (none, rw f refl)
          | inr f ↦ rw f (skip_questions-read n pkt (o + 4))
        ]))
]

parse_after-IsSome :
    (total_rr : ℕ) (pkt st : Bytes) (start : Option ℕ) → IsSome (parse_after total_rr pkt st start)
unfolding parse_after
parse_after-IsSome total_rr pkt st none = tt
parse_after-IsSome total_rr pkt st (some offset) =
    let (more, u) = parse_records-read total_rr pkt st offset no_records in rw u tt

-- `parse_service_responses` ends on every packet and every service type, and no byte that it
-- reads, on any branch, lies outside the packet.
pub parse_service_responses-IsSome : (pkt st : Bytes) → IsSome (parse_service_responses pkt st)
unfolding parse_service_responses
parse_service_responses-IsSome pkt st = elim (Bool-cases (ltb (length pkt) 12)) [
  | inl e ↦ rw e tt
  | inr e ↦
      let (flags, p) = get_u16-read pkt 2 (ground arith) in
      let (qd, q) = get_u16-read pkt 4 (ground arith) in
      let (an, r) = get_u16-read pkt 6 (ground arith) in
      let (ar, s) = get_u16-read pkt 10 (ground arith) in
      rw e (
        rw (p, q, r, s)
          (elim (Bool-cases (flags / 32768 % 2 == 0)) [
            | inl f ↦ rw f tt
            | inr f ↦
                let (start, t) = skip_questions-read qd pkt 12 in
                rw f (rw t (parse_after-IsSome ((an + ar) % 65536) pkt st start))
          ]))
]
