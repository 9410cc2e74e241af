-- ===== src/Mdns/Discovery.antt =====
-- src/llamaste/net_mdns.cpp: `parse_service_responses` on a node finds the service that
-- `build_service_response` on another announces.
use mathlib.Core.List.{append-nil}
use mathlib.Core.Path.{subst}
use llamaste.Prelude.{
  ℕ, suc, ◌+◌, ◌-◌, ◌<◌, ◌≡◌, refl, sym, ◌∙◌, Bool, true, false, ◌&&◌, ◌||◌, some, List, [], ◌∷◌,
  ◌++◌, Bytes, codes, All, is_empty, bytes_eq_refl, cut, cut-none, length, take_append, drop_append,
  length-append, arith, ltb, if◌then◌else◌, Option-cases, inl, inr,
}
use llamaste.Mdns.{put_u16, get_u16}
use llamaste.Mdns.Names.{dns_name_eq}
use llamaste.Mdns.Packets.{
  header, response_flags, txt_data, append_ptr, append_srv, append_txt, append_a,
  build_service_response,
}
use llamaste.Mdns.Parse.{
  Records, no_records, strip_local, add_srv, dotted, parse_records, skip_questions, by_name, merge,
  parse_after, parse_service_responses,
}
use llamaste.Mdns.Encoding.{IsLabel, join_dots, wires}
use llamaste.Mdns.RoundTrip.{HasAt, HasAt-here}
use llamaste.Mdns.Kinds.{IsTxt, ptr-Steps, srv-Steps, txt-Steps, a-Steps}

strip_local-append :
    (hostname : Bytes) → 0 < length hostname → strip_local (hostname ++ codes ".local") ≡ hostname
unfolding strip_local
strip_local-append hostname h =
    let n : length (hostname ++ codes ".local") - 6 ≡ length hostname =
      omega (arith, length-append hostname (codes ".local")) in
    rw n (
      rw (drop_append (length hostname) hostname (codes ".local") refl) (
        rw (take_append (length hostname) hostname (codes ".local") refl) (
          rw (bytes_eq_refl (codes ".local"))
            (either (ltb 6 (length (hostname ++ codes ".local"))) (long hostname h)))))
  where
    long : (s : Bytes) → 0 < length s → ltb 6 (length (s ++ codes ".local")) ≡ true
    long s h = ground (arith, length-append s (codes ".local"))

    either :
        (b : Bool)
        → b ≡ true
        → (if b && true then hostname else hostname ++ codes ".local") ≡ hostname
    either b e = rw e refl

add_srv-kept :
    (st before behind target : Bytes) (port : ℕ) (rs : Records)
    → add_srv st (before ++ (st ++ behind)) target port rs
      ≡ record rs { srv = rs.srv ++ (before ++ (st ++ behind), (strip_local target, port)) ∷ [] }
unfolding add_srv
add_srv-kept st before behind target port rs =
    elim (Option-cases (cut st (before ++ (st ++ behind)))) [
      | inl e ↦ absurd (cut-none st before behind e)
      | inr (v, e) ↦ rw e (kept (is_empty st))
    ]
  where
    kept :
        (b : Bool)
        → (if b || true
            then record rs {
              srv = rs.srv ++ (before ++ (st ++ behind), (strip_local target, port)) ∷ [];
            }
            else rs)
          ≡ record rs {
            srv = rs.srv ++ (before ++ (st ++ behind), (strip_local target, port)) ∷ [];
          }
    kept b = ground arith

dns_name_eq_refl : (a : Bytes) → dns_name_eq a a ≡ true
unfolding dns_name_eq
dns_name_eq_refl [] = refl
dns_name_eq_refl (x ∷ xs) = ground (arith, dns_name_eq_refl xs)

by_name_first : {A : Type 0} (name : Bytes) (d a : A) → by_name name d ((name, a) ∷ []) ≡ a
unfolding by_name
by_name_first name d a = rw (dns_name_eq_refl name) refl

received :
    (id : ℕ) (body st : Bytes)
    → parse_service_responses (header id response_flags 0 1 3 ++ body) st
      ≡ parse_after 4 (header id response_flags 0 1 3 ++ body) st (some 12)
unfolding parse_service_responses get_u16 put_u16 skip_questions
received id body st = rw (long (length body)) refl
  where
    long :
        (n : ℕ)
        → ltb (suc (suc (suc (suc (suc (suc (suc (suc (suc (suc (suc (suc n)))))))))))) 12 ≡ false
    long n = ground arith

header-HasAt : (id : ℕ) (body : Bytes) → HasAt (header id response_flags 0 1 3 ++ body) 12 body
unfolding put_u16
header-HasAt id body =
    subst (λ (s : Bytes). HasAt (header id response_flags 0 1 3 ++ s) 12 body) (append-nil body)
      (HasAt-here (header id response_flags 0 1 3) body [] 12 refl)

-- The names, the strings and the numbers of an announcement.
module _ (bls ils hls : List Bytes) (hostname st before behind : Bytes) (kvs : List Bytes)
    (a b c d port : ℕ) (labels : All IsLabel bls × (All IsLabel ils × All IsLabel hls))
    (host : join_dots hls ≡ hostname ++ codes ".local") (named : 0 < length hostname)
    (typed : join_dots ils ≡ before ++ (st ++ behind)) (strings : All IsTxt kvs)
    (txt_bound : length (txt_data kvs) < 65536) (instance_bound : length (wires ils) < 65536)
    (host_bound : 6 + length (wires hls) < 65536) (port_bound : port < 65536) where
  srv_kept :
      add_srv st (join_dots ils) (join_dots hls) port no_records
      ≡ record { srv = (join_dots ils, (hostname, port)) ∷ []; txt = []; a = [] }
  srv_kept = rw typed (
      add_srv-kept st before behind (join_dots hls) port no_records
      ∙ rw host (rw (strip_local-append hostname named) refl))

  parse_records-announced :
      (pkt : Bytes)
      → HasAt pkt 12 (
          append_ptr (join_dots bls) (join_dots ils)
          ++ (append_srv (join_dots ils) (join_dots hls) port
              ++ (append_txt (join_dots ils) kvs
                  ++ (append_a (join_dots hls) (a ∷ b ∷ c ∷ d ∷ []) ++ []))))
      → parse_records 4 pkt st 12 no_records
        ≡ some (record {
          srv = (join_dots ils, (hostname, port)) ∷ [];
          txt = (join_dots ils, kvs) ∷ [];
          a = (join_dots hls, dotted a b c d) ∷ [];
        })
  parse_records-announced pkt h =
      let (o1, (h1, e1)) =
        ptr-Steps 3 pkt st 12 no_records
          (append_srv (join_dots ils) (join_dots hls) port
            ++ (append_txt (join_dots ils) kvs
                ++ (append_a (join_dots hls) (a ∷ b ∷ c ∷ d ∷ []) ++ [])))
          bls labels.0 ils labels.1.0 instance_bound h in
      let rs1 : Records = add_srv st (join_dots ils) (join_dots hls) port no_records in
      let (o2, (h2, e2)) =
        srv-Steps 2 pkt st o1 no_records
          (append_txt (join_dots ils) kvs ++ (append_a (join_dots hls) (a ∷ b ∷ c ∷ d ∷ []) ++ []))
          ils labels.1.0 hls port labels.1.1 host_bound port_bound h1 in
      let (o3, (h3, e3)) =
        txt-Steps 1 pkt st o2 rs1 (append_a (join_dots hls) (a ∷ b ∷ c ∷ d ∷ []) ++ []) ils
          labels.1.0 kvs strings txt_bound h2 in
      let rs2 : Records = record rs1 { txt = rs1.txt ++ (join_dots ils, kvs) ∷ [] } in
      let (o4, (h4, e4)) = a-Steps 0 pkt st o3 rs2 [] hls labels.1.1 a b c d h3 in
      e1 ∙ (e2 ∙ (e3 ∙ (e4 ∙ unfold parse_records in rw srv_kept refl)))

  parse_after-announced :
      (pkt : Bytes)
      → HasAt pkt 12 (
          append_ptr (join_dots bls) (join_dots ils)
          ++ (append_srv (join_dots ils) (join_dots hls) port
              ++ (append_txt (join_dots ils) kvs ++ append_a (join_dots hls) (a ∷ b ∷ c ∷ d ∷ []))))
      → parse_after 4 pkt st (some 12)
        ≡ some (record { hostname = hostname; ip = dotted a b c d; port = port; txt = kvs } ∷ [])
  unfolding parse_after merge
  parse_after-announced pkt h =
      rw
        (parse_records-announced pkt
          (rw (sym (append-nil (append_a (join_dots hls) (a ∷ b ∷ c ∷ d ∷ [])))) at h))
        (rw (by_name_first (join_dots ils) [] kvs)
          (rw (sym host) (rw (by_name_first (join_dots hls) [] (dotted a b c d)) refl)))

  -- A service that a node announces is found as it is: `parse_service_responses` makes of the
  -- packet of `build_service_response` the one service with the host's name, its address in
  -- dotted form, its port and its strings. The names consist of labels of 1 to 63 bytes without
  -- dots, the host's ends in `.local`, the service type occurs in the instance's name, each TXT
  -- string has 1 to 255 bytes, and the port and the lengths of the records fit in 16 bits.
  pub parse_service_responses-build_service_response :
      (id : ℕ)
      → parse_service_responses
          (build_service_response
            (record {
              browse_name = join_dots bls;
              instance_name = join_dots ils;
              port = port;
              txt = kvs;
            })
            (join_dots hls)
            (a ∷ b ∷ c ∷ d ∷ [])
            id)
          st
        ≡ some (record { hostname = hostname; ip = dotted a b c d; port = port; txt = kvs } ∷ [])
  unfolding build_service_response
  parse_service_responses-build_service_response id =
      let body : Bytes =
        append_ptr (join_dots bls) (join_dots ils)
        ++ (append_srv (join_dots ils) (join_dots hls) port
            ++ (append_txt (join_dots ils) kvs ++ append_a (join_dots hls) (a ∷ b ∷ c ∷ d ∷ []))) in
      received id body st
      ∙ parse_after-announced (header id response_flags 0 1 3 ++ body) (header-HasAt id body)
