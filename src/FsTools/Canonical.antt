-- ===== src/FsTools/Canonical.antt =====
-- src/llamaste/tools_fs.cpp: the canonical form of a path below /data without "..".
use mathlib.Core.List.{append_assoc, append-nil}
use llamaste.Prelude.{
  ◌≡◌, ◌≢◌, refl, sym, ◌∙◌, ap, inl, inr, true, ◌||◌, none, List, [], ◌∷◌, ◌++◌, Bytes, codes,
  is_empty, bytes_eq, bytes_eq_iff, cut, cut-none, All, ◌==◌, take, drop, take-append-drop,
  Bool-cases,
}
use llamaste.FsTools.{
  segments, push_segment, push_segments, join_more, join_parts, canonicalize_path, is_inside,
}

abbrev pub dots : Bytes
dots = codes ".."

not_dots : (x segment cs : Bytes) → cut dots (x ++ (segment ++ cs)) ≡ none → segment ≢ dots
not_dots x segment cs h e =
    cut-none dots x cs (ap (λ (s : Bytes). cut dots (x ++ (s ++ cs))) (sym e) ∙ h)

segments_NoDots :
    (x segment cs : Bytes)
    → cut dots (x ++ (segment ++ cs)) ≡ none
    → All (λ s. s ≢ dots) (segments segment cs)
unfolding segments
segments_NoDots x segment [] h = elim (Bool-cases (is_empty segment)) [
  | inl e ↦ rw e tt
  | inr e ↦ rw e (not_dots x segment [] h, tt)
]
segments_NoDots x segment (c ∷ cs) h = elim (Bool-cases (c == b'/')) [
  | inl e ↦
      let moved = sym (
        append_assoc x (segment ++ c ∷ []) cs
        ∙ ap (λ (s : Bytes). x ++ s) (append_assoc segment (c ∷ []) cs)) in
      rw e (
        not_dots x segment (c ∷ cs) h,
        segments_NoDots (x ++ (segment ++ c ∷ [])) [] cs (ap (cut dots) (sym moved) ∙ h),
      )
  | inr e ↦ rw e (
      segments_NoDots x (segment ++ c ∷ []) cs
        (ap (λ (s : Bytes). cut dots (x ++ s)) (append_assoc segment (c ∷ []) cs) ∙ h))
]

-- Without ".." the parts only grow.
push_segments-grows :
    (parts segs : List Bytes)
    → All (λ s. s ≢ dots) segs
    → (more : List Bytes) × (push_segments parts segs ≡ parts ++ more)
unfolding push_segments push_segment
push_segments-grows parts [] h = ([], sym (append-nil parts))
push_segments-grows parts (s ∷ segs) (n, h) =
    elim (Bool-cases (is_empty s || bytes_eq s (codes "."))) [
      | inl e ↦ rw (e, push_segments) (push_segments-grows parts segs h)
      | inr e ↦ elim (Bool-cases (bytes_eq s dots)) [
        | inl f ↦ absurd (n ((bytes_eq_iff s dots).0 f))
        | inr f ↦
            let (more, i) = push_segments-grows (parts ++ s ∷ []) segs h in
            rw (e, f, push_segments) (s ∷ more, i ∙ append_assoc parts (s ∷ []) more)
      ]
    ]

join_inside : (more : List Bytes) → is_inside (join_parts (codes "data" ∷ more)) ≡ true
unfolding join_more bytes_eq
join_inside [] = refl
join_inside (part ∷ more) = refl

canonicalize_below :
    (rest : Bytes)
    → cut dots (codes "/data/" ++ rest) ≡ none
    → is_inside (canonicalize_path (codes "/data/" ++ rest)) ≡ true
unfolding canonicalize_path segments push_segments push_segment bytes_eq
canonicalize_below rest n =
    let (more, e) =
      push_segments-grows (codes "data" ∷ []) (segments [] rest)
        (segments_NoDots (codes "/data/") [] rest n) in
    ap (λ (parts : List Bytes). is_inside (join_parts parts)) e ∙ join_inside more

pub canonicalize_path-inside :
    (path : Bytes)
    → take 6 path ≡ codes "/data/"
    → cut dots path ≡ none
    → is_inside (canonicalize_path path) ≡ true
canonicalize_path-inside path h n =
    let whole : path ≡ codes "/data/" ++ drop 6 path =
      sym (take-append-drop 6 path) ∙ ap (λ (s : Bytes). s ++ drop 6 path) h in
    ap (λ (p : Bytes). is_inside (canonicalize_path p)) whole
    ∙ canonicalize_below (drop 6 path) (ap (cut dots) (sym whole) ∙ n)
