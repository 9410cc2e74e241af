-- ===== src/CpuTopology/RoundTrip.antt =====
-- src/llamaste/cpu_topology.h: `parse_cpulist` reads what `format_cpulist` writes.
use mathlib.Core.List.{append_assoc, append-nil}
use llamaste.Prelude.{
  ℕ, zero, suc, ◌+◌, ◌-◌, ◌≤◌, ◌<◌, ◌≡◌, ◌≢◌, refl, sym, ap, ◌∙◌, true, false, some, List, [], ◌∷◌,
  ◌++◌, Bytes, codes, decimal, decimal_digits, DecimalDigit, cut_byte, cut_byte_absent, ◌==◌,
  ==_iff, if◌then◌else◌, All, All-append, arith, Bool-cases, inl, inr, pos,
}
use llamaste.Text.{getline_by}
use llamaste.Text.Reading.{
  stoi-int_text, int_text_nonempty, getline_by-line, getline_by-last, append_cons_nonempty,
}
use llamaste.CpuTopology.{
  insert_id, insert_ids, parse_token, parse_tokens, parse_cpulist, range_text, comma, format_from,
  format_cpulist,
}

abbrev pub ids_from : ℕ → ℕ → List ℕ
ids_from i zero = []
ids_from i (suc n) = i ∷ ids_from (suc i) n

-- Above `last`, and ascending.
abbrev pub IsAbove : ℕ → List ℕ → Type 0
IsAbove last [] = Unit
IsAbove last (i ∷ is) = (last < i) × IsAbove i is

abbrev pub IsAscending : List ℕ → Type 0
IsAscending [] = Unit
IsAscending (i ∷ is) = IsAbove i is

-- What `format_from` adds.
abbrev tail : ℕ → ℕ → List ℕ → Bytes
tail first last [] = range_text first last
tail first last (i ∷ is) =
    if i == last + 1 then tail first i is else range_text first last ++ (b',' ∷ tail i i is)

range_text_nonempty : (first last : ℕ) → range_text first last ≢ []
range_text_nonempty first last e = elim (Bool-cases (first == last)) [
  | inl f ↦ int_text_nonempty (pos first) (rw f at e)
  | inr f ↦ append_cons_nonempty (decimal first) b'-' (decimal last) (rw f at e)
]

comma-append : (a b : Bytes) → b ≢ [] → comma (a ++ b) ≡ a ++ (b ++ codes ",")
comma-append [] [] n = absurd (n refl)
comma-append [] (x ∷ b) n = refl
comma-append (x ∷ a) b n = append_assoc (x ∷ a) b (codes ",")

format_from-tail :
    (result : Bytes) (first last : ℕ) (is : List ℕ)
    → format_from result first last is ≡ comma result ++ tail first last is
unfolding format_from
format_from-tail result first last [] = refl
format_from-tail result first last (i ∷ is) = elim (Bool-cases (i == last + 1)) [
  | inl e ↦ rw e (format_from-tail result first i is)
  | inr e ↦ rw e (
      format_from-tail (comma result ++ range_text first last) i i is
      ∙ (ap (λ (r : Bytes). r ++ tail i i is)
            (comma-append (comma result) (range_text first last) (range_text_nonempty first last))
          ∙ regroup (comma result) (range_text first last) (tail i i is)))
]
  where
    regroup : (a b c : Bytes) → (a ++ (b ++ codes ",")) ++ c ≡ a ++ (b ++ (b',' ∷ c))
    regroup a b c = simp append_assoc

digits_without : (d : ℕ) (t : Bytes) → d < b'0' → All DecimalDigit t → All (λ c. c ≢ d) t
digits_without d [] b h = h
digits_without d (c ∷ t) b h = ((λ e. omega (arith, e, h.0, b)), digits_without d t b h.1)

insert_id_last : (i : ℕ) (cpus : List ℕ) → All (λ j. j < i) cpus → insert_id i cpus ≡ cpus ++ i ∷ []
unfolding insert_id
insert_id_last i [] h = refl
insert_id_last i (j ∷ js) h = ground (arith, insert_id_last i js h.1)

insert_ids_last :
    (n i : ℕ) (cpus : List ℕ) → All (λ j. j < i) cpus → insert_ids i n cpus ≡ cpus ++ ids_from i n
unfolding insert_ids
insert_ids_last zero i cpus h = sym (append-nil cpus)
insert_ids_last (suc n) i cpus h = rw (insert_id_last i cpus h) (
    insert_ids_last n (suc i) (cpus ++ i ∷ [])
      (All-append (λ (j : ℕ). j < suc i) cpus (i ∷ []) (below i cpus h) (omega arith, tt))
    ∙ append_assoc cpus (i ∷ []) (ids_from (suc i) n))
  where
    below : (i : ℕ) (cpus : List ℕ) → All (λ j. j < i) cpus → All (λ j. j < suc i) cpus
    below i [] h = h
    below i (j ∷ js) h = (omega (arith, h.0), below i js h.1)

ids_single : (first last : ℕ) → first ≡ last → ids_from first (suc last - first) ≡ first ∷ []
ids_single first last e = ap (ids_from first) (one first last e)
  where
    one : (first last : ℕ) → first ≡ last → suc last - first ≡ 1
    one first last e = omega (arith, e)

not_last : (n : ℕ) → n < 2147483647 → (n == 2147483647) ≡ false
not_last n h = ground (arith, h)

parse_token-range_text :
    (first last : ℕ) (cpus : List ℕ)
    → first ≤ last
    → last < 2147483647
    → All (λ j. j < first) cpus
    → parse_token (range_text first last) cpus ≡ some (cpus ++ ids_from first (suc last - first))
unfolding parse_token
parse_token-range_text first last cpus o b h =
    let here = digits_without b'-' (decimal first) (omega arith) (decimal_digits first) in
    elim (Bool-cases (first == last)) [
      | inl e ↦
          rw
            (
              e,
              cut_byte_absent b'-' (decimal first) here,
              stoi-int_text (pos first) (omega (arith, o, b)),
              insert_id_last first cpus h,
            )
            (ap (λ (ids : List ℕ). some (cpus ++ ids))
              (sym (ids_single first last ((==_iff first last).0 e))))
      | inr e ↦
          rw
            (
              e,
              cut_byte b'-' (decimal first) (decimal last) here,
              stoi-int_text (pos first) (omega (arith, o, b)),
              stoi-int_text (pos last) (omega (arith, b)),
              not_last last b,
              insert_ids_last (suc last - first) first cpus h,
            )
            refl
    ]

ids_from_snoc : (first n : ℕ) → ids_from first (suc n) ≡ ids_from first n ++ (first + n) ∷ []
ids_from_snoc first zero = ap (λ (i : ℕ). i ∷ []) (omega arith)
ids_from_snoc first (suc n) =
    ap (λ (r : List ℕ). first ∷ r)
      (ids_from_snoc (suc first) n ∙ ap (λ (i : ℕ). ids_from (suc first) n ++ i ∷ []) (omega arith))

ids_widen :
    (first last i : ℕ)
    → i ≡ last + 1
    → first ≤ last
    → ids_from first (suc i - first) ≡ ids_from first (suc last - first) ++ i ∷ []
ids_widen first last i e o =
    ap (ids_from first) (more first last i e o)
    ∙ (ids_from_snoc first (suc last - first)
        ∙ ap (λ (j : ℕ). ids_from first (suc last - first) ++ j ∷ []) (ends first last i e o))
  where
    more : (first last i : ℕ) → i ≡ last + 1 → first ≤ last → suc i - first ≡ suc (suc last - first)
    more first last i e o = omega (arith, e, o)

    ends : (first last i : ℕ) → i ≡ last + 1 → first ≤ last → first + (suc last - first) ≡ i
    ends first last i e o = omega (arith, e, o)

ids_from_below : (first n i : ℕ) → first + n ≤ i → All (λ j. j < i) (ids_from first n)
ids_from_below first zero i h = tt
ids_from_below first (suc n) i h =
    (omega (arith, h), ids_from_below (suc first) n i (omega (arith, h)))

all_below : (i k : ℕ) (cpus : List ℕ) → i ≤ k → All (λ j. j < i) cpus → All (λ j. j < k) cpus
all_below i k [] o h = h
all_below i k (j ∷ js) o h = (omega (arith, o, h.0), all_below i k js o h.1)

no_comma : (first last : ℕ) → All (λ c. c ≢ b',') (range_text first last)
no_comma first last =
    let NoComma : ℕ → Type 0 = λ (c : ℕ). c ≢ b',' in
    let front = digits_without b',' (decimal first) (omega arith) (decimal_digits first) in
    elim (Bool-cases (first == last)) [
      | inl e ↦ rw e front
      | inr e ↦ rw e (
          All-append NoComma (decimal first) (b'-' ∷ decimal last) front (
            (λ p. omega (arith, p)),
            digits_without b',' (decimal last) (omega arith) (decimal_digits last),
          ))
    ]

parse_tokens_cons :
    (token : Bytes) (tokens : List Bytes) (cpus cpus' : List ℕ)
    → parse_token token cpus ≡ some cpus'
    → parse_tokens (token ∷ tokens) cpus ≡ parse_tokens tokens cpus'
unfolding parse_tokens
parse_tokens_cons token tokens cpus cpus' e = rw (e, parse_tokens) refl

next : (first last i : ℕ) → (i == last + 1) ≡ true → first ≤ last → first ≤ i
next first last i e o = ground (arith, e, o)

parse_tail :
    (is : List ℕ) (first last : ℕ) (cpus : List ℕ)
    → first ≤ last
    → last < 2147483647
    → IsAbove last is
    → All (λ i. i < 2147483647) is
    → All (λ j. j < first) cpus
    → parse_tokens (getline_by b',' [] (tail first last is)) cpus
      ≡ some (cpus ++ (ids_from first (suc last - first) ++ is))
parse_tail [] first last cpus o b a s h =
    let ids : List ℕ = ids_from first (suc last - first) in
    rw
      (
        getline_by-last b',' [] (range_text first last) (no_comma first last)
            (range_text_nonempty first last),
        parse_tokens_cons (range_text first last) [] cpus (cpus ++ ids)
            (parse_token-range_text first last cpus o b h),
      )
      (unfold parse_tokens in rw (append-nil ids) refl)
parse_tail (i ∷ is) first last cpus o b a s h = elim (Bool-cases (i == last + 1)) [
  | inl e ↦ rw e (
      parse_tail is first i cpus (next first last i e o) s.0 a.1 s.1 h
      ∙ ap (λ (r : List ℕ). some (cpus ++ r))
          (rw (ids_widen first last i ((==_iff i (last + 1)).0 e) o)
            (append_assoc (ids_from first (suc last - first)) (i ∷ []) is)))
  | inr e ↦
      let ids : List ℕ = ids_from first (suc last - first) in
      rw
        (
          e,
          getline_by-line b',' [] (range_text first last) (tail i i is) (no_comma first last),
          parse_tokens_cons (range_text first last) (getline_by b',' [] (tail i i is)) cpus
              (cpus ++ ids) (parse_token-range_text first last cpus o b h),
          parse_tail is i i (cpus ++ ids) (omega arith) s.0 a.1 s.1 (
              All-append (λ (j : ℕ). j < i) cpus ids
                (all_below first i cpus (omega (arith, o, a.0)) h)
                (ids_from_below first (suc last - first) i (omega (arith, o, a.0)))),
        )
        (rw (ids_single i i refl) (ap (λ (r : List ℕ). some r) (append_assoc cpus ids (i ∷ is))))
]

-- The text of a set of CPU ids, each below 2 ^ 31 - 1, is read back as the set.
pub parse_cpulist-format_cpulist :
    (cpus : List ℕ)
    → IsAscending cpus
    → All (λ i. i < 2147483647) cpus
    → parse_cpulist (format_cpulist cpus) ≡ some cpus
unfolding parse_cpulist format_cpulist
parse_cpulist-format_cpulist [] a s = unfold getline_by parse_tokens in refl
parse_cpulist-format_cpulist (i ∷ is) a s = rw (format_from-tail [] i i is) (
    parse_tail is i i [] (omega arith) s.0 a s.1 tt
    ∙ ap (λ (ids : List ℕ). some (ids ++ is)) (ids_single i i refl))
