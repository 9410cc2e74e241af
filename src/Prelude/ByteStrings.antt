-- ===== src/Prelude/ByteStrings.antt =====
-- `std::string` as the list of its bytes: comparison, search and decimal numbers.
use Prim.Native.Char.{code}
use Prim.Native.Nat.{ℕ}
use Prim.Native.String.{String}
use mathlib.Core.Bool.{Bool, true, false, ◌&&◌}
use mathlib.Core.List.{List, [], ◌∷◌, ◌++◌}
use mathlib.Core.Logic.{◌≢◌, ◌↔◌, inl, inr}
use mathlib.Core.Option.{Option, none, some}
use mathlib.Core.Path.{◌≡◌, refl}
use native.Mathlib.Omega.{arith}
use llamaste.Prelude.Lists.{All}
use llamaste.Prelude.Tests.{ltb, ◌==◌, if◌then◌else◌, Option-cases}

abbrev pub Bytes : Type 0
Bytes = List ℕ

-- The bytes of an ASCII literal. `String` has its own `[]` and `∷`.
abbrev pub codes : String → Bytes
codes String.[] = []
codes (String.◌∷◌ c s) = code c ∷ codes s

abbrev pub is_empty : Bytes → Bool
is_empty [] = true
is_empty (_ ∷ _) = false

unfoldable pub bytes_eq : Bytes → Bytes → Bool
bytes_eq [] [] = true
bytes_eq [] (y ∷ ys) = false
bytes_eq (x ∷ xs) [] = false
bytes_eq (x ∷ xs) (y ∷ ys) = x == y && bytes_eq xs ys

pub bytes_eq_iff : (a b : Bytes) → (bytes_eq a b ≡ true) ↔ (a ≡ b)
unfolding bytes_eq
bytes_eq_iff [] [] = ground arith
bytes_eq_iff [] (y ∷ ys) = ground arith
bytes_eq_iff (x ∷ xs) [] = ground arith
bytes_eq_iff (x ∷ xs) (y ∷ ys) = ground (arith, bytes_eq_iff xs ys)

pub bytes_eq_refl : (a : Bytes) → bytes_eq a a ≡ true
bytes_eq_refl a = (bytes_eq_iff a a).1 refl

-- Two literals that the test tells apart.
pub bytes_ne : (a b : Bytes) → bytes_eq a b ≡ false → a ≢ b
bytes_ne a b h e = ground (arith, bytes_eq_iff a b)

-- `operator<` of two strings: the order of the first byte that differs.
unfoldable pub bytes_ltb : Bytes → Bytes → Bool
bytes_ltb [] [] = false
bytes_ltb [] (y ∷ ys) = true
bytes_ltb (x ∷ xs) [] = false
bytes_ltb (x ∷ xs) (y ∷ ys) = if ltb x y then true else (x == y && bytes_ltb xs ys)

pub bytes_ltb_irrefl : (a : Bytes) → bytes_ltb a a ≡ false
unfolding bytes_ltb
bytes_ltb_irrefl [] = refl
bytes_ltb_irrefl (x ∷ xs) = ground (arith, bytes_ltb_irrefl xs)

pub bytes_ltb_trans :
    (a b c : Bytes) → bytes_ltb a b ≡ true → bytes_ltb b c ≡ true → bytes_ltb a c ≡ true
unfolding bytes_ltb
bytes_ltb_trans [] [] c p q = cc
bytes_ltb_trans [] (y ∷ ys) [] p q = cc
bytes_ltb_trans [] (y ∷ ys) (z ∷ zs) p q = refl
bytes_ltb_trans (x ∷ xs) [] c p q = cc
bytes_ltb_trans (x ∷ xs) (y ∷ ys) [] p q = cc
bytes_ltb_trans (x ∷ xs) (y ∷ ys) (z ∷ zs) p q = ground (arith, bytes_ltb_trans xs ys zs)

pub bytes_ltb_asymm : (a b : Bytes) → bytes_ltb a b ≡ true → bytes_ltb b a ≡ false
unfolding bytes_ltb
bytes_ltb_asymm [] [] p = cc
bytes_ltb_asymm [] (y ∷ ys) p = refl
bytes_ltb_asymm (x ∷ xs) [] p = cc
bytes_ltb_asymm (x ∷ xs) (y ∷ ys) p = ground (arith, bytes_ltb_asymm xs ys)

pub bytes_ltb-false_trans :
    (a b c : Bytes) → bytes_ltb a b ≡ false → bytes_ltb b c ≡ false → bytes_ltb a c ≡ false
unfolding bytes_ltb
bytes_ltb-false_trans [] [] c p q = q
bytes_ltb-false_trans [] (y ∷ ys) c p q = cc
bytes_ltb-false_trans (x ∷ xs) [] [] p q = refl
bytes_ltb-false_trans (x ∷ xs) [] (z ∷ zs) p q = cc
bytes_ltb-false_trans (x ∷ xs) (y ∷ ys) [] p q = refl
bytes_ltb-false_trans (x ∷ xs) (y ∷ ys) (z ∷ zs) p q =
    ground (arith, bytes_ltb-false_trans xs ys zs)

-- Two strings of which neither is before the other are one.
pub bytes_ltb_antisymm : (a b : Bytes) → bytes_ltb a b ≡ false → bytes_ltb b a ≡ false → a ≡ b
unfolding bytes_ltb
bytes_ltb_antisymm [] [] p q = refl
bytes_ltb_antisymm [] (y ∷ ys) p q = cc
bytes_ltb_antisymm (x ∷ xs) [] p q = cc
bytes_ltb_antisymm (x ∷ xs) (y ∷ ys) p q = ground (arith, bytes_ltb_antisymm xs ys)

-- The rest of a text behind a prefix.
unfoldable pub strip_prefix : Bytes → Bytes → Option Bytes
strip_prefix [] t = some t
strip_prefix (n ∷ ns) [] = none
strip_prefix (n ∷ ns) (c ∷ cs) = let rest = strip_prefix ns cs in if n == c then rest else none

pub strip_prefix_append : (n r : Bytes) → strip_prefix n (n ++ r) ≡ some r
unfolding strip_prefix
strip_prefix_append [] r = refl
strip_prefix_append (n ∷ ns) r = ground (arith, strip_prefix_append ns r)

pub strip_prefix_sound : (n t : Bytes) {r : Bytes} → strip_prefix n t ≡ some r → t ≡ n ++ r
unfolding strip_prefix
strip_prefix_sound [] t h = ground arith
strip_prefix_sound (n ∷ ns) [] h = cc
strip_prefix_sound (n ∷ ns) (c ∷ cs) {r} h = ground (arith, strip_prefix_sound ns cs {r = r})

abbrev cons_before : ℕ → Option (Bytes × Bytes) → Option (Bytes × Bytes)
cons_before c none = none
cons_before c (some (b, a)) = some (c ∷ b, a)

abbrev cut_or : ℕ → Option Bytes → Option (Bytes × Bytes) → Option (Bytes × Bytes)
cut_or c none later = cons_before c later
cut_or c (some r) later = some ([], r)

abbrev cut_end : Option Bytes → Option (Bytes × Bytes)
cut_end none = none
cut_end (some r) = some ([], r)

-- `find` with the two `substr` around it: what stands before the first occurrence, and behind it.
unfoldable pub cut : Bytes → Bytes → Option (Bytes × Bytes)
cut n [] = cut_end (strip_prefix n [])
cut n (c ∷ cs) = cut_or c (strip_prefix n (c ∷ cs)) (cut n cs)

-- Either there is no cut of `c ∷ cs` at `c`, and it comes from one of `cs`, or it is at once.
pub cut_sound : (n t : Bytes) {b a : Bytes} → cut n t ≡ some (b, a) → t ≡ b ++ (n ++ a)
unfolding cut
cut_sound n [] {b} {a} h = elim (Option-cases (strip_prefix n [])) [
  | inl e ↦ absurd (ground arith)
  | inr (r, e) ↦ ground (arith, strip_prefix_sound n [] {r = r})
]
cut_sound n (c ∷ cs) {b} {a} h = elim (Option-cases (strip_prefix n (c ∷ cs))) [
  | inl e ↦ elim (Option-cases (cut n cs)) [
    | inl f ↦ absurd (ground arith)
    | inr ((b', a'), f) ↦ ground (arith, cut_sound n cs {b = b'} {a = a'} f)
  ]
  | inr (r, e) ↦ ground (arith, strip_prefix_sound n (c ∷ cs) {r = r})
]

pub cut_here : (n a : Bytes) → cut n (n ++ a) ≡ some ([], a)
unfolding cut
cut_here [] [] = unfold strip_prefix in refl
cut_here [] (c ∷ cs) = unfold strip_prefix in refl
cut_here (n ∷ ns) a = rw (strip_prefix_append (n ∷ ns) a)

-- The needle `c` of one byte, behind bytes that differ from it.
pub cut_byte : (c : ℕ) (b a : Bytes) → All (λ x. x ≢ c) b → cut (c ∷ []) (b ++ c ∷ a) ≡ some (b, a)
unfolding cut strip_prefix
cut_byte c [] a h = ground arith
cut_byte c (x ∷ b) a h = ground (arith, cut_byte c b a)

pub cut_byte_absent : (c : ℕ) (b : Bytes) → All (λ x. x ≢ c) b → cut (c ∷ []) b ≡ none
unfolding cut strip_prefix
cut_byte_absent c [] h = refl
cut_byte_absent c (x ∷ b) h = ground (arith, cut_byte_absent c b)

-- What is not found does not occur.
pub cut-none : (n b a : Bytes) → cut n (b ++ (n ++ a)) ≢ none
unfolding cut
cut-none n [] a h = ground (arith, cut_here n a)
cut-none n (c ∷ b) a h = elim (Option-cases (strip_prefix n (c ∷ b ++ (n ++ a)))) [
  | inl e ↦ elim (Option-cases (cut n (b ++ (n ++ a)))) [
    | inl f ↦ cut-none n b a f
    | inr (v, f) ↦ ground arith
  ]
  | inr (r, e) ↦ ground arith
]
