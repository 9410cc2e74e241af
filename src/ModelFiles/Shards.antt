-- ===== src/ModelFiles/Shards.antt =====
-- src/llamaste/tools_model_download.cpp: `parse_shard_filename` reads what `build_shard_filename`
-- writes.
use mathlib.Core.List.{append_assoc, append-nil}
use llamaste.Prelude.{
  ℕ, zero, suc, ◌+◌, ◌-◌, ◌≤◌, ◌<◌, ◌≡◌, ◌≢◌, refl, ap, ◌∙◌, Bool, true, false, none, some, [], ◌∷◌,
  ◌++◌, Bytes, codes, strip_prefix, decimal, decimal_digits, DecimalDigit, length, length-append,
  length-replicate, take_append, replicate, leb, ltb, All, All-append, arith, pos,
}
use llamaste.Text.{digits, stoi}
use llamaste.Text.Reading.{digits-decimal, strtol-decimal, skip_spaces_digits}
use llamaste.ModelFiles.{
  rcut, all_digits, numbered, parse_shard_filename, zero_padded, build_shard_filename,
}

rcut_absent : (h : ℕ) (n t : Bytes) → All (λ c. c ≢ h) t → rcut (h ∷ n) t ≡ none
unfolding rcut strip_prefix
rcut_absent h n [] a = refl
rcut_absent h n (c ∷ cs) a = rw (rcut_absent h n cs a.1) (ground (arith, a.0))

rcut_behind :
    (n l t : Bytes) {b a : Bytes} → rcut n t ≡ some (b, a) → rcut n (l ++ t) ≡ some (l ++ b, a)
unfolding rcut
rcut_behind n [] t e = e
rcut_behind n (c ∷ l) t {b} {a} e = rw (rcut_behind n l t {b = b} {a = a} e) refl

digits_but : (d : ℕ) (t : Bytes) → d < b'0' → All DecimalDigit t → All (λ c. c ≢ d) t
digits_but d [] b h = h
digits_but d (c ∷ t) b h = ((λ e. omega (arith, e, h.0, b)), digits_but d t b h.1)

zeros : (k : ℕ) → All DecimalDigit (replicate k b'0')
zeros zero = tt
zeros (suc k) = (ground arith, zeros k)

zero_padded_digits : (n : ℕ) → All DecimalDigit (zero_padded n)
unfolding zero_padded
zero_padded_digits n =
    All-append DecimalDigit (replicate (5 - length (decimal n)) b'0') (decimal n)
      (zeros (5 - length (decimal n))) (decimal_digits n)

length-zero_padded : (n : ℕ) → 5 ≤ length (zero_padded n)
unfolding zero_padded
length-zero_padded n = omega (
  arith,
  length-append (replicate (5 - length (decimal n)) b'0') (decimal n),
  length-replicate {A = ℕ} (5 - length (decimal n)) b'0',
)

digits-zeros : (k n : ℕ) (any : Bool) → digits 0 any (replicate k b'0' ++ decimal n) ≡ some n
unfolding digits
digits-zeros zero n any = digits-decimal n any
digits-zeros (suc k) n any = digits-zeros k n true

digits-zero_padded : (n : ℕ) → digits 0 false (zero_padded n) ≡ some n
unfolding zero_padded
digits-zero_padded n = digits-zeros (5 - length (decimal n)) n false

stoi-zero_padded : (n : ℕ) → n < 2147483648 → stoi (zero_padded n) ≡ some (pos n)
unfolding stoi
stoi-zero_padded n b =
    rw
      (
        skip_spaces_digits (zero_padded n) (zero_padded_digits n),
        strtol-decimal (zero_padded n) (zero_padded_digits n),
        digits-zero_padded n,
      )
      (ground (arith, b))

all_digits_lem : (t : Bytes) → All DecimalDigit t → all_digits t ≡ true
unfolding all_digits
all_digits_lem [] h = refl
all_digits_lem (c ∷ t) h = ground (arith, h.0, all_digits_lem t h.1)

rcut-of :
    (d : Bytes)
    → All DecimalDigit d
    → 5 ≤ length d
    → rcut (codes "-of-") (codes "-of-" ++ (d ++ codes ".gguf")) ≡ some ([], d ++ codes ".gguf")
unfolding rcut strip_prefix
rcut-of [] h l = absurd (omega (arith, l))
rcut-of (c ∷ d) h l =
    rw
      (rcut_absent b'-' (codes "of-") (d ++ codes ".gguf") (
        All-append (λ (x : ℕ). x ≢ b'-') d (codes ".gguf") (digits_but b'-' d (omega arith) h.1)
          (ground arith)))
      (ground (arith, h.0))

rcut_at :
    (n l t text r : Bytes) → rcut n t ≡ some ([], r) → text ≡ l ++ t → rcut n text ≡ some (l, r)
rcut_at n l t text r e p =
    ap (rcut n) p
    ∙ (rcut_behind n l t {b = []} {a = r} e ∙ ap (λ (b : Bytes). some (b, r)) (append-nil l))

rcut-dash : (d : Bytes) → All DecimalDigit d → rcut (codes "-") (codes "-" ++ d) ≡ some ([], d)
unfolding rcut strip_prefix
rcut-dash d h = rw (rcut_absent b'-' [] d (digits_but b'-' d (omega arith) h)) refl

rcut-gguf : rcut (codes ".gguf") (codes ".gguf") ≡ some ([], [])
unfolding rcut strip_prefix
rcut-gguf = refl

parse_parts :
    (filename front base p q : Bytes)
    → rcut (codes "-of-") filename ≡ some (front, q ++ codes ".gguf")
    → rcut (codes ".gguf") filename ≡ some (front ++ (codes "-of-" ++ q), [])
    → rcut (codes "-") front ≡ some (base, p)
    → 6 ≤ length front
    → 5 ≤ length q
    → (all_digits p ≡ true) × (all_digits q ≡ true)
    → parse_shard_filename filename ≡ numbered base (stoi p) (stoi q)
unfolding parse_shard_filename
parse_parts filename front base p q e1 e2 e3 l m d =
    let long = length-append front (codes "-of-" ++ q) in
    rw
      (
        e1,
        short (length front) l,
        e2,
        behind (length front) (length q) (length (front ++ (codes "-of-" ++ q))) long m,
        take_append (length (front ++ (codes "-of-" ++ q)) - (length front + 4)) q (codes ".gguf")
            (rest (length front) (length q) (length (front ++ (codes "-of-" ++ q))) long),
        e3,
        d.0,
        d.1,
      )
      refl
  where
    short : (n : ℕ) → 6 ≤ n → ltb n 6 ≡ false
    short n h = ground (arith, h)

    behind : (n k s : ℕ) → s ≡ n + suc (suc (suc (suc k))) → 5 ≤ k → leb s (n + 4) ≡ false
    behind n k s e h = ground (arith, e, h)

    rest : (n k s : ℕ) → s ≡ n + suc (suc (suc (suc k))) → k ≡ s - (n + 4)
    rest n k s e = omega (arith, e)

-- The name of a shard, built of any base and two numbers that are each an `int`, is read back.
pub parse_shard_filename-build_shard_filename :
    (base : Bytes) (shard total : ℕ)
    → shard < 2147483648
    → total < 2147483648
    → parse_shard_filename (build_shard_filename base shard total)
      ≡ some (record { base = base; shard_num = pos shard; total_shards = pos total })
unfolding build_shard_filename
parse_shard_filename-build_shard_filename base shard total a b =
    let p : Bytes = zero_padded shard in
    let q : Bytes = zero_padded total in
    let front : Bytes = base ++ (codes "-" ++ p) in
    let text : Bytes = base ++ (codes "-" ++ (p ++ (codes "-of-" ++ (q ++ codes ".gguf")))) in
    parse_parts text front base p q
      (rcut_at (codes "-of-") front (codes "-of-" ++ (q ++ codes ".gguf")) text (q ++ codes ".gguf")
        (rcut-of q (zero_padded_digits total) (length-zero_padded total)) (split_of base p q))
      (rcut_at (codes ".gguf") (front ++ (codes "-of-" ++ q)) (codes ".gguf") text [] rcut-gguf
        (split_dot base p q))
      (rcut_at (codes "-") base (codes "-" ++ p) front p (rcut-dash p (zero_padded_digits shard))
        refl)
      (omega (arith, length-append base (codes "-" ++ p), length-zero_padded shard))
      (length-zero_padded total)
      (all_digits_lem p (zero_padded_digits shard), all_digits_lem q (zero_padded_digits total))
    ∙ rw (stoi-zero_padded shard a, stoi-zero_padded total b) refl
  where
    split_of :
        (base p q : Bytes)
        → base ++ (codes "-" ++ (p ++ (codes "-of-" ++ (q ++ codes ".gguf"))))
          ≡ (base ++ (codes "-" ++ p)) ++ (codes "-of-" ++ (q ++ codes ".gguf"))
    split_of base p q = simp append_assoc

    split_dot :
        (base p q : Bytes)
        → base ++ (codes "-" ++ (p ++ (codes "-of-" ++ (q ++ codes ".gguf"))))
          ≡ ((base ++ (codes "-" ++ p)) ++ (codes "-of-" ++ q)) ++ codes ".gguf"
    split_dot base p q = simp append_assoc
