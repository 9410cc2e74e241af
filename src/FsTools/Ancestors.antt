-- ===== src/FsTools/Ancestors.antt =====
-- src/llamaste/tools_fs.cpp: the ancestors of a path, which `validate_data_path` goes through.
use mathlib.Core.List.{append_assoc}
use llamaste.Prelude.{
  ◌≤◌, ◌<◌, ◌≡◌, ◌≢◌, sym, ◌∙◌, ap, ◌⊎◌, inl, inr, none, some, [], ◌∷◌, ◌++◌, Bytes, length,
  length-append, arith, Option-cases,
}
use llamaste.FsTools.{before_slash, non_empty, parent}

-- The path goes on with a slash behind this part of it.
abbrev pub Below : Bytes → Bytes → Type 0
Below a path = (rest : Bytes) × (path ≡ a ++ b'/' ∷ rest)

-- The path itself, or a non-empty part in front of a slash.
abbrev pub IsAncestor : Bytes → Bytes → Type 0
IsAncestor a path = (a ≡ path) ⊎ ((a ≢ []) × Below a path)

before_slash-none : (a path : Bytes) → before_slash path ≡ none → Below a path → ⊥
unfolding before_slash
before_slash-none [] [] h (rest, e) = ground (arith, e)
before_slash-none (x ∷ a) [] h (rest, e) = ground (arith, e)
before_slash-none [] (c ∷ cs) h (rest, e) = elim (Option-cases (before_slash cs)) [
  | inl g ↦ ground (arith, g, h, e)
  | inr (q, g) ↦ ground (arith, g, h)
]
before_slash-none (x ∷ a) (c ∷ cs) h (rest, e) = elim (Option-cases (before_slash cs)) [
  | inl g ↦ before_slash-none a cs g (rest, ground (arith, e))
  | inr (q, g) ↦ ground (arith, g, h)
]

-- The part in front of the last slash is below every other.
before_slash-some :
    (a path q : Bytes) → before_slash path ≡ some q → Below a path → (a ≡ q) ⊎ Below a q
unfolding before_slash
before_slash-some a [] q h (rest, e) = absurd (ground (arith, h))
before_slash-some [] (c ∷ cs) q h (rest, e) = elim (Option-cases (before_slash cs)) [
  | inl g ↦ ground (arith, g, h, e)
  | inr (p, g) ↦ inr (p, ground (arith, g, h, e))
]
before_slash-some (x ∷ a) (c ∷ cs) q h (rest, e) = elim (Option-cases (before_slash cs)) [
  | inl g ↦ absurd (before_slash-none a cs g (rest, ground (arith, e)))
  | inr (p, g) ↦ elim (before_slash-some a cs p g (rest, ground (arith, e))) [
    | inl i ↦ inl (ground (arith, g, h, e, i))
    | inr (t, i) ↦ inr (t, ground (arith, g, h, e, i))
  ]
]

before_slash-Below : (path q : Bytes) → before_slash path ≡ some q → Below q path
unfolding before_slash
before_slash-Below [] q h = absurd (ground (arith, h))
before_slash-Below (c ∷ cs) q h = elim (Option-cases (before_slash cs)) [
  | inl g ↦ (cs, ground (arith, g, h))
  | inr (p, g) ↦ let (r, i) = before_slash-Below cs p g in (r, ground (arith, g, h, i))
]

pub Below-length : (a path : Bytes) → Below a path → length a < length path
Below-length a path (rest, e) = rw e (omega (arith, length-append a (b'/' ∷ rest)))

pub IsAncestor-length : (a path : Bytes) → IsAncestor a path → length a ≤ length path
IsAncestor-length a path (inl e) = rw e (omega arith)
IsAncestor-length a path (inr (n, b)) = omega (arith, Below-length a path b)

parent-some : (path q : Bytes) → parent path ≡ some q → (before_slash path ≡ some q) × (q ≢ [])
unfolding parent
parent-some path q h = elim (Option-cases (before_slash path)) [
  | inl g ↦ absurd (none_some (rw g at h))
  | inr (p, g) ↦ split p g (rw g at h)
]
  where
    none_some : none ≡ some q → ⊥
    none_some e = ground (arith, e)

    split :
        (p : Bytes)
        → before_slash path ≡ some p
        → non_empty (some p) ≡ some q
        → (before_slash path ≡ some q) × (q ≢ [])
    split [] g e = absurd (none_some e)
    split (c ∷ p) g e = (g ∙ e, λ i. ground (arith, e, i))

pub parent-NonEmpty : (path q : Bytes) → parent path ≡ some q → q ≢ []
parent-NonEmpty path q h = (parent-some path q h).1

pub parent-length : (path q : Bytes) → parent path ≡ some q → length q < length path
parent-length path q h = Below-length q path (before_slash-Below path q (parent-some path q h).0)

-- Without a parent there is no other ancestor.
pub parent-none : (a path : Bytes) → parent path ≡ none → IsAncestor a path → a ≡ path
unfolding parent
parent-none a path h (inl e) = e
parent-none a path h (inr (n, b)) = elim (Option-cases (before_slash path)) [
  | inl g ↦ absurd (before_slash-none a path g b)
  | inr (p, g) ↦ absurd (only p g (rw g at h))
]
  where
    only : (p : Bytes) → before_slash path ≡ some p → non_empty (some p) ≡ none → ⊥
    only [] g e = elim (before_slash-some a path [] g b) [
      | inl i ↦ n i
      | inr (rest, i) ↦ nothing a rest i
    ]
      where
        nothing : (x y : Bytes) → [] ≡ x ++ b'/' ∷ y → ⊥
        nothing [] y j = ground (arith, j)
        nothing (c ∷ x) y j = ground (arith, j)
    only (c ∷ p) g e = ground (arith, e)

-- The ancestors of a path are itself and those of its parent.
pub parent-IsAncestor :
    (a path q : Bytes)
    → parent path ≡ some q
    → (IsAncestor a path → (a ≡ path) ⊎ IsAncestor a q) × (IsAncestor a q → IsAncestor a path)
parent-IsAncestor a path q h = (down, up)
  where
    down : IsAncestor a path → (a ≡ path) ⊎ IsAncestor a q
    down (inl e) = inl e
    down (inr (n, b)) = elim (before_slash-some a path q (parent-some path q h).0 b) [
      | inl e ↦ inr (inl e)
      | inr c ↦ inr (inr (n, c))
    ]

    above : Below q path
    above = before_slash-Below path q (parent-some path q h).0

    up : IsAncestor a q → IsAncestor a path
    up (inl e) = inr (
      λ i. (parent-some path q h).1 (sym e ∙ i),
      (above.0, above.1 ∙ ap (λ (x : Bytes). x ++ b'/' ∷ above.0) (sym e)),
    )
    up (inr (n, (rest, e))) = inr (
      n,
      (
        rest ++ b'/' ∷ above.0,
        above.1
            ∙ (ap (λ (x : Bytes). x ++ b'/' ∷ above.0) e
                ∙ append_assoc a (b'/' ∷ rest) (b'/' ∷ above.0)),
      ),
    )
