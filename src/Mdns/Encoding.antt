-- ===== src/Mdns/Encoding.antt =====
-- src/llamaste/net_mdns.cpp: names by their labels, and the bytes that `encode_dns_name` writes.

use llamaste.Prelude.{
  ℕ, zero, suc, ◌≤◌, ◌<◌, ◌≡◌, ◌≢◌, refl, ap, ◌∙◌, List, [], ◌∷◌, ◌++◌, Bytes, codes, All, length,
  take_all, length-append, cut, cut_byte, cut_byte_absent, arith, none, some,
}
use mathlib.Core.List.{append_assoc}
use llamaste.Mdns.Names.{wire_label, append_label, encode_labels, encode_dns_name}

-- A label that the wire can carry, and that has no dot in it.
abbrev pub IsLabel : Bytes → Type 0
IsLabel l = (0 < length l) × ((length l ≤ 63) × All (λ c. c ≢ b'.') l)

abbrev pub join_dots : List Bytes → Bytes
join_dots [] = []
join_dots (l ∷ []) = l
join_dots (l ∷ m ∷ ms) = l ++ (b'.' ∷ join_dots (m ∷ ms))

abbrev pub wires : List Bytes → Bytes
wires [] = 0 ∷ []
wires (l ∷ ls) = length l ∷ (l ++ wires ls)

-- What the decoder's loop makes of labels behind a name that it has read.
abbrev pub extend : Bytes → List Bytes → Bytes
extend name [] = name
extend name (l ∷ ls) = extend (append_label name l) ls

append_label_next : (a b l : Bytes) → 0 < length b → append_label (a ++ b) l ≡ a ++ append_label b l
unfolding append_label
append_label_next a [] l h = absurd (omega arith)
append_label_next [] (x ∷ b) l h = refl
append_label_next (y ∷ a) (x ∷ b) l h =
    ap (λ (r : Bytes). y ∷ r) (append_assoc a (x ∷ b) (b'.' ∷ l))

append_label_long : (b l : Bytes) → 0 < length b → 0 < length (append_label b l)
unfolding append_label
append_label_long [] l h = absurd (omega arith)
append_label_long (x ∷ b) l h = omega arith

extend_behind :
    (a b : Bytes) (ls : List Bytes) → 0 < length b → extend (a ++ b) ls ≡ a ++ extend b ls
extend_behind a b [] h = refl
extend_behind a b (l ∷ ls) h =
    ap (λ (r : Bytes). extend r ls) (append_label_next a b l h)
    ∙ extend_behind a (append_label b l) ls (append_label_long b l h)

append_label_dot : (b l : Bytes) → 0 < length b → append_label b l ≡ b ++ (b'.' ∷ l)
unfolding append_label
append_label_dot [] l h = absurd (omega arith)
append_label_dot (x ∷ b) l h = refl

extend_join :
    (l : Bytes) (ls : List Bytes) → All IsLabel (l ∷ ls) → extend l ls ≡ join_dots (l ∷ ls)
extend_join l [] h = refl
extend_join l (m ∷ ms) h =
    ap (λ (r : Bytes). extend r ms) (append_label_dot l m h.0.0 ∙ dotted_assoc l m)
    ∙ (extend_behind (l ++ (b'.' ∷ [])) m ms h.1.0.0
        ∙ (ap (λ (r : Bytes). (l ++ (b'.' ∷ [])) ++ r) (extend_join m ms h.1)
            ∙ append_assoc l (b'.' ∷ []) (join_dots (m ∷ ms))))
  where
    dotted_assoc : (l m : Bytes) → l ++ (b'.' ∷ m) ≡ (l ++ (b'.' ∷ [])) ++ m
    dotted_assoc l m = simp append_assoc

pub extend_empty : (ls : List Bytes) → All IsLabel ls → extend [] ls ≡ join_dots ls
unfolding append_label
extend_empty [] h = refl
extend_empty (l ∷ ls) h = extend_join l ls h

wire_label_short : (l : Bytes) → length l ≤ 63 → wire_label l ≡ length l ∷ l
wire_label_short l h = rw (take_all 63 l h) (ap (λ (n : ℕ). n ∷ l) (omega arith))

encode_labels-none :
    (f : ℕ) (l : Bytes)
    → 0 < length l
    → cut (codes ".") l ≡ none
    → encode_labels (suc f) l ≡ wire_label l ++ 0 ∷ []
unfolding encode_labels
encode_labels-none f [] h e = absurd (omega arith)
encode_labels-none f (c ∷ cs) h e = rw (e, encode_labels) refl

encode_labels-some :
    (f : ℕ) (t b a : Bytes)
    → 0 < length t
    → cut (codes ".") t ≡ some (b, a)
    → encode_labels (suc f) t ≡ wire_label b ++ encode_labels f a
unfolding encode_labels
encode_labels-some f [] b a h e = absurd (omega arith)
encode_labels-some f (c ∷ cs) b a h e = rw (e, encode_labels) refl

encode_labels-join :
    (f : ℕ) (ls : List Bytes)
    → All IsLabel ls
    → length (join_dots ls) < f
    → encode_labels f (join_dots ls) ≡ wires ls
encode_labels-join zero ls p h = absurd (omega arith)
encode_labels-join (suc f) [] p h = unfold encode_labels in refl
encode_labels-join (suc f) (l ∷ []) p h =
    encode_labels-none f l p.0.0 (cut_byte_absent b'.' l p.0.1.1)
    ∙ ap (λ (r : Bytes). r ++ 0 ∷ []) (wire_label_short l p.0.1.0)
encode_labels-join (suc f) (l ∷ m ∷ ms) p h =
    let rest : Bytes = join_dots (m ∷ ms) in
    encode_labels-some f (l ++ (b'.' ∷ rest)) l rest (omega (arith, length-append l (b'.' ∷ rest)))
      (cut_byte b'.' l rest p.0.1.1)
    ∙ (ap (λ (r : Bytes). r ++ encode_labels f rest) (wire_label_short l p.0.1.0)
        ∙ ap (λ (r : Bytes). length l ∷ (l ++ r))
            (encode_labels-join f (m ∷ ms) p.1 (omega (arith, length-append l (b'.' ∷ rest)))))

pub encode_dns_name-join :
    (ls : List Bytes) → All IsLabel ls → encode_dns_name (join_dots ls) ≡ wires ls
unfolding encode_dns_name
encode_dns_name-join ls p = encode_labels-join (suc (length (join_dots ls))) ls p (omega arith)
