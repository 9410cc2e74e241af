-- ===== src/Updater/Layout.antt =====
-- src/llamaste/updater.cpp: the layout of an .update file that passes.
use mathlib.Core.List.{append-nil}
use llamaste.Prelude.{
  ℕ, suc, ◌+◌, ◌-◌, ◌*◌, ◌/◌, ◌%◌, ◌≤◌, ◌≡◌, refl, ◌∙◌, Bool, true, false, some, [], ◌∷◌, ◌++◌,
  Bytes, codes, bytes_eq, ltb, if◌then◌else◌, length, length-append, take, take_append, drop_append,
  replicate, arith,
}
use llamaste.Updater.Package.{blank, read_u32_le, parse_signed, parse_contents, parse_update_file}

-- The layout: magic, format version 1, the manifest's size, the manifest, its signature, the payload.
abbrev pub update_file : Bytes → Bytes → Bytes → Bytes
update_file manifest signature payload =
    let n = length manifest in
    codes "LMUP"
    ++ (1
        ∷ 0
        ∷ 0
        ∷ 0
        ∷ (n % 256)
        ∷ (n / 256 % 256)
        ∷ (n / 65536 % 256)
        ∷ (n / 16777216 % 256)
        ∷ (manifest ++ (signature ++ payload)))

long : (s p : Bytes) → length s ≡ 64 → ltb (length (s ++ p)) 64 ≡ false
long s p l = ground (arith, length-append s p)

signed : (s p : Bytes) → length s ≡ 64 → take 64 (s ++ p) ++ replicate (64 - length (s ++ p)) 0 ≡ s
signed s p l =
    rw (none_left (length (s ++ p)) (omega (arith, length-append s p)))
      (append-nil (take 64 (s ++ p)) ∙ take_append 64 s p l)
  where
    none_left : (n : ℕ) → 64 ≤ n → 64 - n ≡ 0
    none_left n h = omega arith

sized :
    (m p size : ℕ)
    → size ≡ 12 + m + 64 + p
    → (if ltb (12 + m + 64) size then size - (12 + m + 64) else 0) ≡ p
sized m p size e = ground arith

offset : (m : ℕ) → 12 + m + 64 ≡ 76 + m
offset m = omega arith

read_size :
    (n : ℕ)
    → n ≤ 1048576
    → n % 256 + n / 256 % 256 * 256 + n / 65536 % 256 * 65536 + n / 16777216 % 256 * 16777216 ≡ n
read_size n h = omega arith

small : (n : ℕ) → n ≤ 1048576 → ltb 1048576 n ≡ false
small n h = ground arith

header_long :
    (n : ℕ)
    → ltb (suc (suc (suc (suc (suc (suc (suc (suc (suc (suc (suc (suc n)))))))))))) 12 ≡ false
header_long n = ground arith

all_there : (m r : Bytes) → ltb (length (m ++ r)) (length m) ≡ false
all_there m r = ground (arith, length-append m r)

module _ {M : Type 0} (parse_manifest : Bytes → M) (is_valid : M → Bool) where
  parse_signed-accepted :
      (manifest signature payload : Bytes) (size : ℕ)
      → length signature ≡ 64
      → is_valid (parse_manifest manifest) ≡ true
      → size ≡ 12 + length manifest + 64 + length payload
      → parse_signed parse_manifest is_valid size
          (length manifest)
          manifest
          (signature ++ payload)
          blank
        ≡ record {
          valid = true;
          error = [];
          manifest = some (parse_manifest manifest);
          manifest_json = manifest;
          signature = signature;
          payload_offset = 76 + length manifest;
          payload_size = length payload;
        }
  unfolding parse_signed
  parse_signed-accepted manifest signature payload size l v e = rw (long signature payload l) (
      rw v (
        rw (signed signature payload l) (
          rw (sized (length manifest) (length payload) size e)
            (rw (offset (length manifest)) refl))))

  -- A file with this layout, whose manifest has at most 1 MiB and is valid and whose signature has
  -- 64 bytes, is accepted, and its parts come out as they went in: the manifest's text, the
  -- signature, and where the payload starts and how long it is.
  pub parse_update_file-update_file :
      (path manifest signature payload : Bytes)
      → length manifest ≤ 1048576
      → length signature ≡ 64
      → is_valid (parse_manifest manifest) ≡ true
      → parse_update_file parse_manifest is_valid path
          (some (update_file manifest signature payload))
        ≡ record {
          valid = true;
          error = [];
          manifest = some (parse_manifest manifest);
          manifest_json = manifest;
          signature = signature;
          payload_offset = 76 + length manifest;
          payload_size = length payload;
        }
  unfolding parse_update_file parse_contents read_u32_le bytes_eq
  parse_update_file-update_file path manifest signature payload b l v =
      let n : ℕ = length manifest in
      let rest : Bytes = signature ++ payload in
      rw (read_size n b) (
        rw (header_long (length (manifest ++ rest))) (
          rw (small n b) (
            rw (all_there manifest rest) (
              rw (take_append n manifest rest refl, drop_append n manifest rest refl)
                (parse_signed-accepted manifest signature payload
                  (length (update_file manifest signature payload)) l v
                  (omega (arith, length-append manifest rest, length-append signature payload)))))))
