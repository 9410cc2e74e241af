-- ===== src/Mdns/RoundTrip.antt =====
-- src/llamaste/net_mdns.cpp: `decode_dns_name` reads what `encode_dns_name` wrote.

use mathlib.Core.Path.{subst}
use llamaste.Prelude.{
  ℕ, zero, suc, ◌+◌, ◌-◌, ◌/◌, ◌≤◌, ◌<◌, ◌≡◌, refl, ap, sym, ◌∙◌, false, none, some, List, [], ◌∷◌,
  ◌++◌, Bytes, All, get_elem?, length, take, drop, length-append, arith, ltb, leb, ◌==◌,
}
use llamaste.Mdns.{slice}
use llamaste.Mdns.Names.{append_label, encode_dns_name, decode_loop, decode_dns_name}
use llamaste.Mdns.Encoding.{IsLabel, join_dots, wires, extend, extend_empty, encode_dns_name-join}

-- The bytes `s` stand in the packet from `o` on.
abbrev pub HasAt : Bytes → ℕ → Bytes → Type 0
HasAt pkt o [] = o ≤ length pkt
HasAt pkt o (x ∷ s) = (get_elem? pkt o ≡ some x) × HasAt pkt (suc o) s

pub HasAt-at : (pkt s : Bytes) {o o' : ℕ} → o ≡ o' → HasAt pkt o s → HasAt pkt o' s
HasAt-at pkt s p h = subst (λ (i : ℕ). HasAt pkt i s) p h

get_elem?_bound : (pkt : Bytes) (o : ℕ) {x : ℕ} → get_elem? pkt o ≡ some x → o < length pkt
get_elem?_bound [] o h = absurd (ground arith)
get_elem?_bound (y ∷ ys) zero h = omega arith
get_elem?_bound (y ∷ ys) (suc o) {x} h = omega (arith, get_elem?_bound ys o {x = x} h)

pub HasAt-bound : (pkt s : Bytes) (o : ℕ) → HasAt pkt o s → o + length s ≤ length pkt
HasAt-bound pkt [] o h = omega arith
HasAt-bound pkt (x ∷ s) o h = omega (arith, HasAt-bound pkt s (suc o) h.1)

pub HasAt-left : (pkt s t : Bytes) (o : ℕ) → HasAt pkt o (s ++ t) → HasAt pkt o s
HasAt-left pkt [] t o h = omega (arith, HasAt-bound pkt t o h)
HasAt-left pkt (x ∷ s) t o h = (h.0, HasAt-left pkt s t (suc o) h.1)

pub HasAt-right : (pkt s t : Bytes) (o : ℕ) → HasAt pkt o (s ++ t) → HasAt pkt (o + length s) t
HasAt-right pkt [] t o h = HasAt-at pkt t (omega arith) h
HasAt-right pkt (x ∷ s) t o h = HasAt-at pkt t (omega arith) (HasAt-right pkt s t (suc o) h.1)

get_elem?_behind :
    (pre : Bytes) (x : ℕ) (xs : Bytes) (o : ℕ)
    → length pre ≡ o
    → get_elem? (pre ++ (x ∷ xs)) o ≡ some x
get_elem?_behind [] x xs zero e = refl
get_elem?_behind [] x xs (suc o) e = absurd (omega arith)
get_elem?_behind (y ∷ pre) x xs zero e = absurd (omega arith)
get_elem?_behind (y ∷ pre) x xs (suc o) e = get_elem?_behind pre x xs o (omega arith)

-- Every part of a packet stands where the bytes in front of it end.
pub HasAt-here : (pre s post : Bytes) (o : ℕ) → length pre ≡ o → HasAt (pre ++ (s ++ post)) o s
HasAt-here pre [] post o e = omega (arith, length-append pre post)
HasAt-here pre (x ∷ s) post o e = (
  get_elem?_behind pre x (s ++ post) o e,
  subst (λ (p : Bytes). HasAt p (suc o) s) (sym (append_move pre x (s ++ post)))
      (HasAt-here (pre ++ x ∷ []) s post (suc o) (omega (arith, length-append pre (x ∷ [])))),
)
  where
    append_move : (pre : Bytes) (x : ℕ) (r : Bytes) → pre ++ (x ∷ r) ≡ (pre ++ x ∷ []) ++ r
    append_move [] x r = refl
    append_move (y ∷ pre) x r = ap (λ (t : Bytes). y ∷ t) (append_move pre x r)

drop_step :
    (pkt : Bytes) (o : ℕ) {x : ℕ} → get_elem? pkt o ≡ some x → drop o pkt ≡ x ∷ drop (suc o) pkt
drop_step [] o h = absurd (ground arith)
drop_step (y ∷ ys) zero h = ground arith
drop_step (y ∷ ys) (suc o) {x} h = drop_step ys o {x = x} h

take-drop-HasAt : (pkt s : Bytes) (o : ℕ) → HasAt pkt o s → take (length s) (drop o pkt) ≡ s
take-drop-HasAt pkt [] o h = refl
take-drop-HasAt pkt (x ∷ s) o h =
    rw (drop_step pkt o {x = x} h.0) (ap (λ (r : Bytes). x ∷ r) (take-drop-HasAt pkt s (suc o) h.1))

pub slice-HasAt : (pkt s : Bytes) (o : ℕ) → HasAt pkt o s → slice pkt o (length s) ≡ some s
unfolding slice
slice-HasAt pkt s o h = ground (arith, HasAt-bound pkt s o h, take-drop-HasAt pkt s o h)

pub leb_under : (pkt : Bytes) (o : ℕ) → o < length pkt → leb (length pkt) o ≡ false
leb_under pkt o b = ground arith

pub not_zero : (n : ℕ) → 0 < n → (n == 0) ≡ false
not_zero n h = ground arith

not_pointer : (n : ℕ) → n ≤ 63 → (n / 64 == 3) ≡ false
not_pointer n h = ground arith

pub inside : (n i : ℕ) → i ≤ n → ltb n i ≡ false
inside n i h = ground arith

decode_loop-wires :
    (ls : List Bytes) (jumps rounds : ℕ) (pkt : Bytes) (o : ℕ) (name : Bytes)
    → All IsLabel ls
    → HasAt pkt o (wires ls)
    → length pkt - o < rounds
    → decode_loop (suc jumps) rounds pkt o none name ≡ some (extend name ls, o + length (wires ls))
unfolding decode_loop
decode_loop-wires ls jumps zero pkt o name p h r = absurd (omega arith)
decode_loop-wires [] jumps (suc rounds) pkt o name p h r =
    rw (leb_under pkt o (get_elem?_bound pkt o {x = 0} h.0)) (rw h.0 refl)
decode_loop-wires (l ∷ ls) jumps (suc rounds) pkt o name p h r =
    let at_rest : HasAt pkt (o + 1 + length l) (wires ls) =
      HasAt-at pkt (wires ls) (omega arith) (HasAt-right pkt l (wires ls) (suc o) h.1) in
    let at_label : HasAt pkt (o + 1) l =
      HasAt-at pkt l (omega arith) (HasAt-left pkt l (wires ls) (suc o) h.1) in
    let fits : o + 1 + length l ≤ length pkt = HasAt-bound pkt l (o + 1) at_label in
    rw (leb_under pkt o (omega arith)) (
      rw h.0 (
        rw (not_zero (length l) p.0.0) (
          rw (not_pointer (length l) p.0.1.0) (
            rw (inside (length pkt) (o + 1 + length l) fits) (
              rw (slice-HasAt pkt l (o + 1) at_label) (
                decode_loop-wires ls jumps rounds pkt (o + 1 + length l) (append_label name l) p.1
                  at_rest (omega arith)
                ∙ ap (λ (i : ℕ). some (extend (append_label name l) ls, i))
                    (omega (arith, length-append l (wires ls)))))))))

-- `decode_dns_name` reads the labels at an offset where `wires` has put them.
pub decode_dns_name-wires :
    (ls : List Bytes) (pkt : Bytes) (o : ℕ)
    → All IsLabel ls
    → HasAt pkt o (wires ls)
    → decode_dns_name pkt o ≡ some (join_dots ls, o + length (wires ls))
unfolding decode_dns_name
decode_dns_name-wires ls pkt o p h =
    decode_loop-wires ls 9 (suc (length pkt)) pkt o [] p h (omega arith)
    ∙ ap (λ (n : Bytes). some (n, o + length (wires ls))) (extend_empty ls p)

-- Wherever in a packet `encode_dns_name` has put a name whose labels have 1 to 63 bytes and no
-- dot, `decode_dns_name` returns that name and the offset behind its encoding.
pub decode_dns_name-encode_dns_name :
    (ls : List Bytes) (pre post : Bytes)
    → All IsLabel ls
    → decode_dns_name (pre ++ (encode_dns_name (join_dots ls) ++ post)) (length pre)
      ≡ some (join_dots ls, length pre + length (encode_dns_name (join_dots ls)))
decode_dns_name-encode_dns_name ls pre post p = rw (encode_dns_name-join ls p) (
    decode_dns_name-wires ls (pre ++ (wires ls ++ post)) (length pre) p
      (HasAt-here pre (wires ls) post (length pre) refl))
