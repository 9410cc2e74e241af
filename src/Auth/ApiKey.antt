-- ===== src/Auth/ApiKey.antt =====
-- src/llamaste/auth.cpp: the API key, compared in constant time over a window of 32 bytes.
use Prim.Native.Nat.{bit_or, bit_xor}
use llamaste.Auth.{AuthManager}
use llamaste.Auth.Sessions.{generate_token}
use llamaste.Prelude.{
  ℕ, zero, suc, ◌+◌, ◌≤◌, ◌≡◌, ◌↔◌, refl, Bool, true, false, Option, [], ◌∷◌, ◌++◌, Bytes, codes,
  is_empty, length, get_or, All, replicate, if◌then◌else◌, ◌==◌, ==_iff, bit_or-eq-zero,
  bit_xor-eq-zero, arith, ◌≢◌, ◌⊎◌,
}

pub generate_api_key : Option Bytes → Bytes
generate_api_key entropy = codes "llm-" ++ generate_token 10 entropy

pub get_api_key : AuthManager → Bytes
get_api_key m = m.api_key

-- `n` rounds of the loop from index `i`; a string reads as zero behind its end.
unfoldable pub window_diff : ℕ → ℕ → Bytes → Bytes → ℕ → ℕ
window_diff zero i key api diff = diff
window_diff (suc n) i key api diff =
    window_diff n (suc i) key api (bit_or diff (bit_xor (get_or key i 0) (get_or api i 0)))

unfoldable pub same_window : Bytes → Bytes → Bool
same_window key api = window_diff 32 0 key api 0 == 0

unfoldable pub verify_api_key : Bytes → AuthManager → Bool
verify_api_key key m =
    if is_empty key then false else if is_empty m.api_key then false else same_window key m.api_key

-- The two strings agree at `n` indices from `i`.
abbrev SameWindow : ℕ → ℕ → Bytes → Bytes → Type 0
SameWindow zero i a b = Unit
SameWindow (suc n) i a b = (get_or a i 0 ≡ get_or b i 0) × SameWindow n (suc i) a b

window_diff-eq-zero :
    (n i : ℕ) (a b : Bytes) (d : ℕ) → (window_diff n i a b d ≡ 0) ↔ ((d ≡ 0) × SameWindow n i a b)
unfolding window_diff
window_diff-eq-zero zero i a b d = (λ e. (e, tt), λ h. h.0)
window_diff-eq-zero (suc n) i a b d =
    let x : ℕ = bit_xor (get_or a i 0) (get_or b i 0) in
    let rest = window_diff-eq-zero n (suc i) a b (bit_or d x) in
    let or = bit_or-eq-zero d x in
    let same = bit_xor-eq-zero (get_or a i 0) (get_or b i 0) in ground (arith, rest, or, same)

-- Two strings without a zero byte that fit the window and agree in it are one.
abbrev pub IsNonzero : ℕ → Type 0
IsNonzero b = b ≢ 0

SameWindow-shift :
    (n i : ℕ) (x y : ℕ) (a b : Bytes) → SameWindow n (suc i) (x ∷ a) (y ∷ b) ↔ SameWindow n i a b
SameWindow-shift zero i x y a b = (λ h. tt, λ h. tt)
SameWindow-shift (suc n) i x y a b =
    let rest = SameWindow-shift n (suc i) x y a b in
    (λ h. (h.0, rest.0 h.1), λ h. (h.0, rest.1 h.1))

SameWindow-eq :
    (n : ℕ) (a b : Bytes)
    → length a ≤ n
    → length b ≤ n
    → All IsNonzero a
    → All IsNonzero b
    → SameWindow n 0 a b
    → a ≡ b
SameWindow-eq zero [] [] h k p q w = refl
SameWindow-eq zero [] (y ∷ b) h k p q w = absurd (omega arith)
SameWindow-eq zero (x ∷ a) b h k p q w = absurd (omega arith)
SameWindow-eq (suc n) [] [] h k p q w = refl
SameWindow-eq (suc n) [] (y ∷ b) h k p q w = absurd (omega arith)
SameWindow-eq (suc n) (x ∷ a) [] h k p q w = absurd (omega arith)
SameWindow-eq (suc n) (x ∷ a) (y ∷ b) h k p q w =
    let same : a ≡ b =
      SameWindow-eq n a b (omega arith) (omega arith) p.1 q.1
        ((SameWindow-shift n 0 x y a b).0 w.1) in
    ground arith

SameWindow-refl : (n i : ℕ) (a : Bytes) → SameWindow n i a a
SameWindow-refl zero i a = tt
SameWindow-refl (suc n) i a = (refl, SameWindow-refl n (suc i) a)

SameWindow-shift_nil :
    (n i x : ℕ) (a : Bytes) → SameWindow n i a [] → SameWindow n (suc i) (x ∷ a) []
SameWindow-shift_nil zero i x a h = tt
SameWindow-shift_nil (suc n) i x a h = (h.0, SameWindow-shift_nil n (suc i) x a h.1)

SameWindow-zeros : (n z : ℕ) (t : Bytes) → n ≤ z → SameWindow n 0 (replicate z 0 ++ t) []
SameWindow-zeros zero z t h = tt
SameWindow-zeros (suc n) zero t h = absurd (omega arith)
SameWindow-zeros (suc n) (suc z) t h =
    (refl, SameWindow-shift_nil n 0 0 (replicate z 0 ++ t) (SameWindow-zeros n z t (omega arith)))

SameWindow-padded :
    (n z : ℕ) (a t : Bytes) → n ≤ length a + z → SameWindow n 0 (a ++ (replicate z 0 ++ t)) a
SameWindow-padded n z [] t h = SameWindow-zeros n z t (omega arith)
SameWindow-padded zero z (x ∷ a) t h = tt
SameWindow-padded (suc n) z (x ∷ a) t h =
    (refl, (SameWindow-shift n 0 x x _ a).1 (SameWindow-padded n z a t (omega arith)))

same_window_iff : (a b : Bytes) → (same_window a b ≡ true) ↔ SameWindow 32 0 a b
unfolding same_window
same_window_iff a b =
    let zero_iff = window_diff-eq-zero 32 0 a b 0 in
    (λ e. (zero_iff.0 ((==_iff _ 0).0 e)).1, λ w. (==_iff _ 0).1 (zero_iff.1 (refl, w)))

same_window-eq :
    (a b : Bytes)
    → length a ≤ 32
    → length b ≤ 32
    → All IsNonzero a
    → All IsNonzero b
    → same_window a b ≡ true
    → a ≡ b
same_window-eq a b h k p q e = SameWindow-eq 32 a b h k p q ((same_window_iff a b).0 e)

same_window_refl : (a : Bytes) → same_window a a ≡ true
same_window_refl a = (same_window_iff a a).1 (SameWindow-refl 32 0 a)

same_window-padded :
    (z : ℕ) (a t : Bytes) → length a + z ≡ 32 → same_window (a ++ (replicate z 0 ++ t)) a ≡ true
same_window-padded z a t h = (same_window_iff _ a).1 (SameWindow-padded 32 z a t (omega arith))

-- A key with no zero byte, of at most 32 bytes, passes exactly when it is the device's key, if that
-- is a key of this kind that is not empty.
pub verify_api_key_iff :
    (key : Bytes) (m : AuthManager)
    → length key ≤ 32
    → length m.api_key ≤ 32
    → All IsNonzero key
    → All IsNonzero m.api_key
    → m.api_key ≢ []
    → (verify_api_key key m ≡ true) ↔ (key ≡ m.api_key)
unfolding verify_api_key
verify_api_key_iff [] m h k p q ne = ground arith
verify_api_key_iff (c ∷ cs) m h k p q ne = (
  λ e. same_window-eq (c ∷ cs) m.api_key h k p q (ground arith),
  λ e. ground (arith, same_window_refl (c ∷ cs)),
)

-- Behind the window nothing is compared: the device's key, continued by zero bytes up to 32 bytes
-- and by any bytes from there on, passes.
pub verify_api_key_padded :
    (m : AuthManager) (z : ℕ) (rest : Bytes)
    → m.api_key ≢ []
    → length m.api_key + z ≡ 32
    → verify_api_key (m.api_key ++ (replicate z 0 ++ rest)) m ≡ true
unfolding verify_api_key
verify_api_key_padded m z rest ne h = ground (arith, same_window-padded z m.api_key rest h)

-- A device with no key, and a request with no key, never pass.
pub verify_api_key_empty :
    (key : Bytes) (m : AuthManager) → (key ≡ []) ⊎ (m.api_key ≡ []) → verify_api_key key m ≡ false
unfolding verify_api_key
verify_api_key_empty key m h = ground arith

pub verify_api_key-ne :
    (key : Bytes) (m : AuthManager)
    → length key ≤ 32
    → length m.api_key ≤ 32
    → All IsNonzero key
    → All IsNonzero m.api_key
    → key ≢ m.api_key
    → verify_api_key key m ≡ false
unfolding verify_api_key
verify_api_key-ne key m h k p q ne =
    ground
      (arith, λ (e : same_window key m.api_key ≡ true). ne (same_window-eq key m.api_key h k p q e))
