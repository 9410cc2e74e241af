-- ===== src/Updater/RoundTrip.antt =====
-- src/llamaste/updater.cpp: what `grubenv_serialize` writes, `grubenv_parse` reads back.

use mathlib.Core.List.{append_assoc, append-nil}
use llamaste.Prelude.{
  ℕ, zero, suc, ◌-◌, ◌≤◌, ◌<◌, ◌≡◌, ◌≢◌, refl, ap, sym, ◌∙◌, true, false, List, [], ◌∷◌, ◌++◌,
  Bytes, codes, bytes_eq, bytes_eq_iff, bytes_ltb, bytes_ltb_irrefl, bytes_ltb_asymm, cut_byte, ltb,
  ◌==◌, length, take, replicate, All, All-append, length-append, length-take, length-replicate,
  take_all, arith, Bool-cases, inl, inr,
}
use llamaste.Text.{getlines, getline_by, getline_by}
use llamaste.Text.Reading.{getlines-line}
use llamaste.Updater.Grubenv.{
  Vars, put, parse_line, parse_lines, grubenv_parse, grubenv_header, grubenv_size, entry_lines,
  grubenv_serialize,
}

-- The environment block has 1024 bytes, whatever the variables are.
pub length-grubenv_serialize : (vars : Vars) → length (grubenv_serialize vars) ≡ 1024
unfolding grubenv_serialize
length-grubenv_serialize vars =
    let result : Bytes = grubenv_header ++ entry_lines vars in
    elim (Bool-cases (ltb (length result) grubenv_size)) [
      | inl e ↦ rw e (padded result (ground arith))
      | inr e ↦ rw e (length-take grubenv_size result ∙ ground arith)
    ]
  where
    padded : (r : Bytes) → length r < 1024 → length (r ++ replicate (1024 - length r) b'#') ≡ 1024
    padded r h = omega (
      arith,
      length-append r (replicate (1024 - length r) b'#'),
      length-replicate {A = ℕ} (1024 - length r) b'#',
    )

abbrev pub IsKey : Bytes → Type 0
IsKey key = All (λ c. (c ≢ b'=') × (c ≢ b'\n')) key × (take 1 key ≢ codes "#")

abbrev pub IsEntry : Bytes × Bytes → Type 0
IsEntry (key, val) = IsKey key × All (λ c. c ≢ b'\n') val

-- The keys ascend, and so each stands once.
abbrev pub IsSorted : Vars → Type 0
IsSorted [] = Unit
IsSorted (e ∷ es) = All (λ e'. bytes_ltb e.0 e'.0 ≡ true) es × IsSorted es

bytes_eq_above : (a b : Bytes) → bytes_ltb a b ≡ true → bytes_eq b a ≡ false
bytes_eq_above a b h = elim (Bool-cases (bytes_eq b a)) [
  | inl e ↦ absurd (ground (arith, bytes_ltb_irrefl a, ap (bytes_ltb a) ((bytes_eq_iff b a).0 e)))
  | inr e ↦ e
]

put_last :
    (key val : Bytes) (vars : Vars)
    → All (λ e. bytes_ltb e.0 key ≡ true) vars
    → put key val vars ≡ vars ++ (key, val) ∷ []
unfolding put
put_last key val [] h = refl
put_last key val ((k, v) ∷ rest) h =
    rw (bytes_ltb_asymm k key h.0, bytes_eq_above k key h.0)
      (ap (λ (r : Vars). (k, v) ∷ r) (put_last key val rest h.1))

parse_line-entry :
    (key val : Bytes) (vars : Vars)
    → IsKey key
    → parse_line (key ++ (b'=' ∷ val)) vars ≡ put key val vars
unfolding parse_line
parse_line-entry [] val vars h = rw (cut_byte b'=' [] val tt) refl
parse_line-entry (c ∷ key) val vars h =
    rw (other c h.1) (rw (cut_byte b'=' (c ∷ key) val (no_eq (c ∷ key) h.0)) refl)
  where
    other : (c : ℕ) → (c ∷ []) ≢ codes "#" → (c == b'#') ≡ false
    other c h = elim (Bool-cases (c == b'#')) [
      | inl e ↦ absurd (h (ap (λ (x : ℕ). x ∷ []) (ground arith)))
      | inr e ↦ e
    ]

    no_eq : (k : Bytes) → All (λ c. (c ≢ b'=') × (c ≢ b'\n')) k → All (λ c. c ≢ b'=') k
    no_eq [] p = tt
    no_eq (x ∷ xs) p = (p.0.0, no_eq xs p.1)

no_newline :
    (key val : Bytes)
    → All (λ c. (c ≢ b'=') × (c ≢ b'\n')) key
    → All (λ c. c ≢ b'\n') val
    → All (λ c. c ≢ b'\n') (key ++ (b'=' ∷ val))
no_newline [] val p q = (ground arith, q)
no_newline (c ∷ key) val p q = (p.0.1, no_newline key val p.1 q)

padding :
    (n : ℕ) (line : Bytes) (vars : Vars)
    → parse_lines (getlines (b'#' ∷ line) (replicate n b'#')) vars ≡ vars
unfolding parse_lines getline_by parse_line
padding zero line vars = refl
padding (suc n) line vars = padding n (line ++ b'#' ∷ []) vars

parse_lines-padding :
    (n : ℕ) (vars : Vars) → parse_lines (getlines [] (replicate n b'#')) vars ≡ vars
unfolding parse_lines getline_by
parse_lines-padding zero vars = refl
parse_lines-padding (suc n) vars = padding n [] vars

below_more :
    (e : Bytes × Bytes) (es vars : Vars)
    → All (λ e'. All (λ v. bytes_ltb v.0 e'.0 ≡ true) vars) es
    → All (λ e'. bytes_ltb e.0 e'.0 ≡ true) es
    → All (λ e'. All (λ v. bytes_ltb v.0 e'.0 ≡ true) (vars ++ e ∷ [])) es
below_more e [] vars b s = tt
below_more e (x ∷ es) vars b s = (
  All-append (λ v. bytes_ltb v.0 x.0 ≡ true) vars (e ∷ []) b.0 (s.0, tt),
  below_more e es vars b.1 s.1,
)

parse_lines-entry_lines :
    (n : ℕ) (es vars : Vars)
    → All IsEntry es
    → IsSorted es
    → All (λ e. All (λ v. bytes_ltb v.0 e.0 ≡ true) vars) es
    → parse_lines (getlines [] (entry_lines es ++ replicate n b'#')) vars ≡ vars ++ es
unfolding entry_lines parse_lines
parse_lines-entry_lines n [] vars p s b = parse_lines-padding n vars ∙ sym (append-nil vars)
parse_lines-entry_lines n ((key, val) ∷ es) vars p s b =
    let line : Bytes = key ++ (b'=' ∷ val) in
    let rest : Bytes = entry_lines es ++ replicate n b'#' in
    let more : Vars = vars ++ (key, val) ∷ [] in
    ap (λ (t : Bytes). parse_lines (getlines [] t) vars)
      (append_assoc line (b'\n' ∷ entry_lines es) (replicate n b'#'))
    ∙ (ap (λ (ls : List Bytes). parse_lines ls vars)
          (getlines-line [] line rest (no_newline key val p.0.0.0 p.0.1))
        ∙ (ap (parse_lines (getlines [] rest))
              (parse_line-entry key val vars p.0.0 ∙ put_last key val vars b.0)
            ∙ (parse_lines-entry_lines n es more p.1 s.1 (below_more (key, val) es vars b.1 s.0)
                ∙ append_assoc vars ((key, val) ∷ []) es)))

parse_header :
    (body : Bytes) → grubenv_parse (grubenv_header ++ body) ≡ parse_lines (getlines [] body) []
unfolding grubenv_parse parse_lines parse_line
parse_header body =
    ap (λ (ls : List Bytes). parse_lines ls [])
      (getlines-line [] (codes "# GRUB Environment Block") body (ground arith))

below_none : (es : Vars) → All (λ e. All (λ (v : Bytes × Bytes). bytes_ltb v.0 e.0 ≡ true) []) es
below_none [] = tt
below_none (e ∷ es) = (tt, below_none es)

-- The boot variables survive a write and a read: `grubenv_parse` gives back the map whose block
-- `grubenv_serialize` wrote, if no key has a `=` or begins with `#`, no key or value has a line
-- break, and the map fits in the block.
pub grubenv_parse-grubenv_serialize :
    (vars : Vars)
    → All IsEntry vars
    → IsSorted vars
    → length (grubenv_header ++ entry_lines vars) ≤ 1024
    → grubenv_parse (grubenv_serialize vars) ≡ vars
unfolding grubenv_serialize
grubenv_parse-grubenv_serialize vars p s h =
    let result : Bytes = grubenv_header ++ entry_lines vars in
    elim (Bool-cases (ltb (length result) grubenv_size)) [
      | inl e ↦ rw e (padded (1024 - length result))
      | inr e ↦
          rw e
            (ap grubenv_parse (take_all grubenv_size result h ∙ sym (append-nil result)) ∙ padded 0)
    ]
  where
    padded :
        (n : ℕ) → grubenv_parse ((grubenv_header ++ entry_lines vars) ++ replicate n b'#') ≡ vars
    padded n =
        ap grubenv_parse (append_assoc grubenv_header (entry_lines vars) (replicate n b'#'))
        ∙ (parse_header (entry_lines vars ++ replicate n b'#')
            ∙ parse_lines-entry_lines n vars [] p s (below_none vars))
