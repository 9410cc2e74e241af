-- ===== src/FsTools/Confined.antt =====
-- src/llamaste/tools_fs.cpp: which paths `validate_data_path` accepts.

use llamaste.Prelude.{
  ℕ, zero, suc, ◌≤◌, ◌<◌, ◌≡◌, ◌≢◌, refl, sym, ◌∙◌, ap, ◌⊎◌, ◌↔◌, inl, inr, Bool, true, false, not,
  ◌||◌, ◌&&◌, Option, none, some, [], ◌∷◌, Bytes, codes, bytes_eq, bytes_eq_iff, cut, if◌then◌else◌,
  length, take, arith, Option-cases,
}
use llamaste.Text.{contains}
use llamaste.FsTools.Canonical.{dots, canonicalize_path-inside}
use llamaste.FsTools.Ancestors.{
  Below, Below-length, parent-NonEmpty, IsAncestor, IsAncestor-length, parent-length, parent-none,
  parent-IsAncestor,
}
use llamaste.FsTools.{canonicalize_path, parent, is_inside, ancestor_inside, validate_data_path}

module _ (realpath : Bytes → Option Bytes) where
  -- The longest ancestor that is there has its real path under /data.
  abbrev pub IsRealInside : Bytes → Type 0
  IsRealInside path =
      (a : Bytes) × ((r : Bytes) × (IsAncestor a path
          × ((realpath a ≡ some r)
              × ((is_inside r ≡ true)
                  × ((b : Bytes) → IsAncestor b path → length a < length b → realpath b ≡ none)))))

  -- A path that is not there has the answer of its parent.
  missing_only : (path a r : Bytes) → realpath path ≡ none → realpath a ≡ some r → a ≢ path
  missing_only path a r e h i = absurd (none_some (sym e ∙ (sym (ap realpath i) ∙ h)))
    where
      none_some : none ≡ some r → ⊥
      none_some j = ground (arith, j)

  real_here : (path r : Bytes) → realpath path ≡ some r → IsRealInside path → is_inside r ≡ true
  real_here path r e (a, (r', (inl i, (h, (k, m))))) = ground (arith, e, i, h, k)
  real_here path r e (a, (r', (inr b, (h, (k, m))))) =
      ground (arith, e, m path (inl refl) (below_length b))
    where
      below_length : (a ≢ []) × Below a path → length a < length path
      below_length (n, c) = Below-length a path c

  real_up :
      (path q : Bytes)
      → realpath path ≡ none
      → parent path ≡ some q
      → IsRealInside path ↔ IsRealInside q
  real_up path q e g = (down, up)
    where
      down : IsRealInside path → IsRealInside q
      down (a, (r, (i, (h, (k, m))))) = elim ((parent-IsAncestor a path q g).0 i) [
        | inl j ↦ absurd (missing_only path a r e h j)
        | inr j ↦ (a, (r, (j, (h, (k, λ b c. m b ((parent-IsAncestor b path q g).1 c))))))
      ]

      up : IsRealInside q → IsRealInside path
      up (a, (r, (i, (h, (k, m))))) = (
        a,
        (
          r,
          (
            (parent-IsAncestor a path q g).1 i,
            (
              h,
              (
                k,
                λ b c d. elim ((parent-IsAncestor b path q g).0 c) [
                  | inl j ↦ ap realpath j ∙ e
                  | inr j ↦ m b j d
                ],
              ),
            ),
          ),
        ),
      )

  ancestor_inside-IsRealInside :
      (n : ℕ) (path : Bytes)
      → length path ≤ n
      → path ≢ []
      → (ancestor_inside realpath n path ≡ true) ↔ IsRealInside path
  unfolding ancestor_inside
  ancestor_inside-IsRealInside zero [] l n = absurd (n refl)
  ancestor_inside-IsRealInside zero (c ∷ path) l n = absurd (omega (arith, l))
  ancestor_inside-IsRealInside (suc f) path l n = elim (Option-cases (realpath path)) [
    | inr (r, e) ↦
        rw (e, ancestor_inside)
          (
            λ h. (
              path,
              (
                r,
                (
                  inl refl,
                  (e, (h, λ b c d. absurd (omega (arith, IsAncestor-length b path c, d)))),
                ),
              ),
            ),
            real_here path r e,
          )
    | inl e ↦ elim (Option-cases (parent path)) [
      | inl g ↦
          rw (e, g, ancestor_inside)
            (
              λ h. absurd (ground (arith, h)),
              λ (a, (r, (i, (h, k)))). absurd (missing_only path a r e h (parent-none a path g i)),
            )
      | inr (q, g) ↦
          let (down, up) =
            ancestor_inside-IsRealInside f q (omega (arith, l, parent-length path q g))
              (parent-NonEmpty path q g) in
          let (there, back) = real_up path q e g in
          rw (e, g, ancestor_inside) (λ h. back (down h), λ h. up (there h))
    ]
  ]

  no_part : (path : Bytes) → contains path dots ≡ false → cut dots path ≡ none
  no_part path h = elim (Option-cases (cut dots path)) [
    | inl e ↦ e
    | inr (p, e) ↦ ground (arith, rw (e, contains) at h)
  ]

  start_NonEmpty : (path : Bytes) → take 6 path ≡ codes "/data/" → path ≢ []
  start_NonEmpty [] e = ground (arith, e)
  start_NonEmpty (c ∷ cs) e = λ i. ground (arith, i)

  canonical :
      (path : Bytes)
      → bytes_eq (take 6 path) (codes "/data/") ≡ true
      → contains path dots ≡ false
      → is_inside (canonicalize_path path) ≡ true
  canonical path e f =
      canonicalize_path-inside path ((bytes_eq_iff (take 6 path) (codes "/data/")).0 e)
        (no_part path f)

  cascade :
      (d p c b a : Bool)
      → (p ≡ true → b ≡ false → c ≡ true)
      → (if d
          then true
          else if not p
          then false
          else if not c
          then false
          else if b
          then false
          else a)
        ≡ (d || (p && (not b && a)))
  cascade d p c b a h = ground (arith, h)

  only_or :
      (d p b a : Bool)
      → ((d || (p && (not b && a))) ≡ true)
        ↔ ((d ≡ true) ⊎ ((p ≡ true) × ((b ≡ false) × (a ≡ true))))
  only_or true p b a = (λ h. inl refl, λ h. refl)
  only_or false p b a =
      (λ h. inr (ground (arith, h), (ground (arith, h), ground (arith, h))), λ h. ground (arith, h))

  -- A path is accepted exactly if it is /data, or it starts with /data/, contains no "..", and the
  -- real path of its longest existing ancestor is /data or below. The comparison of the canonical
  -- form, which the code makes as well, refuses none of these.
  pub validate_data_path_iff :
      (path : Bytes)
      → (validate_data_path realpath path ≡ true) ↔ (
          (path ≡ codes "/data")
          ⊎ ((take 6 path ≡ codes "/data/")
              × ((contains path (codes "..") ≡ false) × IsRealInside path)))
  unfolding validate_data_path
  validate_data_path_iff path =
      let here = bytes_eq_iff path (codes "/data") in
      let start = bytes_eq_iff (take 6 path) (codes "/data/") in
      let real : path ≢ []
          → (ancestor_inside realpath (length path) path ≡ true) ↔ IsRealInside path =
        ancestor_inside-IsRealInside (length path) path (omega arith) in
      let value =
        cascade (bytes_eq path (codes "/data")) (bytes_eq (take 6 path) (codes "/data/"))
          (is_inside (canonicalize_path path)) (contains path dots)
          (ancestor_inside realpath (length path) path) (canonical path) in
      let parts =
        only_or (bytes_eq path (codes "/data")) (bytes_eq (take 6 path) (codes "/data/"))
          (contains path dots) (ancestor_inside realpath (length path) path) in
      (
        λ h. elim (parts.0 (sym value ∙ h)) [
          | inl e ↦ inl (here.0 e)
          | inr (e, (f, g)) ↦ inr (start.0 e, (f, (real (start_NonEmpty path (start.0 e))).0 g))
        ],
        λ h.
            value
            ∙ parts.1 (elim h [
              | inl e ↦ inl (here.1 e)
              | inr (e, (f, g)) ↦ inr (start.1 e, (f, (real (start_NonEmpty path e)).1 g))
            ]),
      )
