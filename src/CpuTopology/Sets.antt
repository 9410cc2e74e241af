-- ===== src/CpuTopology/Sets.antt =====
-- src/llamaste/cpu_topology.h: `parse_cpulist` and the groups of `detect_cpu_topology` are sets of ids.
use mathlib.Core.Path.{subst}
use llamaste.Prelude.{
  ℕ, zero, suc, ◌+◌, ◌-◌, ◌≤◌, ◌<◌, ◌≡◌, ap, refl, Option, none, some, List, [], ◌∷◌, Bytes, cut,
  All, arith, Bool-cases, Option-cases, inl, inr, ℤ, pos, negsuc, leb_ℤ, codes,
}
use llamaste.Text.{stoi, in_int, strtol, skip_spaces, getline_by}
use llamaste.CpuTopology.{
  insert_id, insert_ids, insert_range, is_last_int, insert_one, parse_token, parse_tokens,
  parse_cpulist,
}
use llamaste.CpuTopology.Groups.{Freqs, fast_cpus}
use llamaste.CpuTopology.RoundTrip.{IsAbove, IsAscending}

-- A set of ids below `k`.
abbrev pub IsIdSet : ℕ → List ℕ → Type 0
IsIdSet k cpus = IsAscending cpus × All (λ i. i < k) cpus

insert_id-IsAbove :
    (last i : ℕ) (cpus : List ℕ) → last < i → IsAbove last cpus → IsAbove last (insert_id i cpus)
unfolding insert_id
insert_id-IsAbove last i [] h a = (h, tt)
insert_id-IsAbove last i (j ∷ js) h a = ground (arith, insert_id-IsAbove j i js)

insert_id-IsAscending : (i : ℕ) (cpus : List ℕ) → IsAscending cpus → IsAscending (insert_id i cpus)
unfolding insert_id
insert_id-IsAscending i [] a = tt
insert_id-IsAscending i (j ∷ js) a = ground (arith, insert_id-IsAbove j i js)

insert_id-small :
    (k i : ℕ) (cpus : List ℕ) → i < k → All (λ i. i < k) cpus → All (λ i. i < k) (insert_id i cpus)
unfolding insert_id
insert_id-small k i [] b h = (b, tt)
insert_id-small k i (j ∷ js) b h = ground (arith, insert_id-small k i js)

pub insert_id-IsIdSet :
    (k i : ℕ) (cpus : List ℕ) → i < k → IsIdSet k cpus → IsIdSet k (insert_id i cpus)
insert_id-IsIdSet k i cpus b (a, s) = (insert_id-IsAscending i cpus a, insert_id-small k i cpus b s)

insert_ids-IsIdSet :
    (n i : ℕ) (cpus : List ℕ)
    → i + n ≤ 2147483648
    → IsIdSet 2147483648 cpus
    → IsIdSet 2147483648 (insert_ids i n cpus)
unfolding insert_ids
insert_ids-IsIdSet zero i cpus b h = h
insert_ids-IsIdSet (suc n) i cpus b h =
    insert_ids-IsIdSet n (suc i) (insert_id i cpus) (omega (arith, b))
      (insert_id-IsIdSet 2147483648 i cpus (omega (arith, b)) h)

abbrev IsInt : ℤ → Type 0
IsInt (pos n) = n < 2147483648
IsInt (negsuc n) = Unit

in_int-IsInt : (o : Option ℤ) (v : ℤ) → in_int o ≡ some v → IsInt v
in_int-IsInt none v e = absurd (ground arith)
in_int-IsInt (some (pos n)) (pos m) e = ground (arith, e)
in_int-IsInt (some (pos n)) (negsuc m) e = tt
in_int-IsInt (some (negsuc n)) (pos m) e = absurd (ground arith)
in_int-IsInt (some (negsuc n)) (negsuc m) e = tt

stoi-IsInt : (t : Bytes) (v : ℤ) → stoi t ≡ some v → IsInt v
unfolding stoi
stoi-IsInt t v e = in_int-IsInt (strtol (skip_spaces t)) v e

insert_one-IsIdSet :
    (v : ℤ) (cpus : List ℕ)
    → IsInt v
    → IsIdSet 2147483648 cpus
    → IsIdSet 2147483648 (insert_one v cpus)
insert_one-IsIdSet (pos n) cpus b h = insert_id-IsIdSet 2147483648 n cpus b h
insert_one-IsIdSet (negsuc n) cpus b h = h

insert_range-IsIdSet :
    (lo hi : ℤ) (cpus : List ℕ)
    → IsInt lo
    → IsInt hi
    → IsIdSet 2147483648 cpus
    → IsIdSet 2147483648 (insert_range lo hi cpus)
insert_range-IsIdSet (negsuc lo) hi cpus b c h = h
insert_range-IsIdSet (pos lo) (negsuc hi) cpus b c h = h
insert_range-IsIdSet (pos lo) (pos hi) cpus b c h = between lo hi (suc hi - lo) cpus refl b c h
  where
    between :
        (lo hi n : ℕ) (cpus : List ℕ)
        → suc hi - lo ≡ n
        → lo < 2147483648
        → hi < 2147483648
        → IsIdSet 2147483648 cpus
        → IsIdSet 2147483648 (insert_ids lo n cpus)
    between lo hi n cpus e b c h = insert_ids-IsIdSet n lo cpus (omega (arith, e, b, c)) h

abbrev or_nil : Option (List ℕ) → List ℕ
or_nil none = []
or_nil (some cpus) = cpus

some-injective : {a b : List ℕ} → some a ≡ some b → a ≡ b
some-injective e = ap or_nil e

parse_token-IsIdSet :
    (token : Bytes) (cpus cpus' : List ℕ)
    → IsIdSet 2147483648 cpus
    → parse_token token cpus ≡ some cpus'
    → IsIdSet 2147483648 cpus'
unfolding parse_token
parse_token-IsIdSet token cpus cpus' h e = elim (Option-cases (cut (codes "-") token)) [
  | inl f ↦ elim (Option-cases (stoi token)) [
    | inl g ↦ absurd (ground (arith, rw (f, g) at e))
    | inr (v, g) ↦
        subst (IsIdSet 2147483648) (some-injective (rw (f, g) at e))
          (insert_one-IsIdSet v cpus (stoi-IsInt token v g) h)
  ]
  | inr ((a, b), f) ↦ elim (Option-cases (stoi a)) [
    | inl g ↦ absurd (ground (arith, rw (f, g) at e))
    | inr (v, g) ↦ elim (Option-cases (stoi b)) [
      | inl k ↦ absurd (ground (arith, rw (f, g, k) at e))
      | inr (w, k) ↦ elim (Bool-cases (is_last_int w)) [
        | inl l ↦ absurd (ground (arith, rw (f, g, k, l) at e))
        | inr l ↦
            subst (IsIdSet 2147483648) (some-injective (rw (f, g, k, l) at e))
              (insert_range-IsIdSet v w cpus (stoi-IsInt a v g) (stoi-IsInt b w k) h)
      ]
    ]
  ]
]

parse_tokens-IsIdSet :
    (tokens : List Bytes) (cpus cpus' : List ℕ)
    → IsIdSet 2147483648 cpus
    → parse_tokens tokens cpus ≡ some cpus'
    → IsIdSet 2147483648 cpus'
unfolding parse_tokens
parse_tokens-IsIdSet [] cpus cpus' h e = subst (IsIdSet 2147483648) (some-injective e) h
parse_tokens-IsIdSet (t ∷ ts) cpus cpus' h e = elim (Option-cases (parse_token t cpus)) [
  | inl f ↦ absurd (ground (arith, rw (parse_tokens, f) at e))
  | inr (c, f) ↦
      parse_tokens-IsIdSet ts c cpus' (parse_token-IsIdSet t cpus c h f) (rw (parse_tokens, f) at e)
]

pub parse_cpulist-IsIdSet :
    (list : Bytes) (cpus : List ℕ) → parse_cpulist list ≡ some cpus → IsIdSet 2147483648 cpus
unfolding parse_cpulist
parse_cpulist-IsIdSet list cpus e =
    parse_tokens-IsIdSet (getline_by b',' [] list) [] cpus (tt, tt) e

pub fast_cpus-IsIdSet :
    (limit : ℤ) (fs : Freqs) (cpus : List ℕ)
    → All (λ c. c.0 < 2147483647) fs
    → IsIdSet 2147483647 cpus
    → IsIdSet 2147483647 (fast_cpus limit fs cpus)
unfolding fast_cpus
fast_cpus-IsIdSet limit [] cpus s h = h
fast_cpus-IsIdSet limit ((id, freq) ∷ fs) cpus s h = elim (Bool-cases (leb_ℤ limit freq)) [
  | inl e ↦ rw e (
      fast_cpus-IsIdSet limit fs (insert_id id cpus) s.1
        (insert_id-IsIdSet 2147483647 id cpus s.0 h))
  | inr e ↦ rw e (fast_cpus-IsIdSet limit fs cpus s.1 h)
]
