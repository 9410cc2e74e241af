-- ===== src/Updater/Manifest.antt =====
-- src/llamaste/updater.h and updater.cpp: `parse_manifest`, `verify_update_signature`, `sha256_hex`.
-- The JSON library is not modelled: a document is what `parse_manifest` asks for in it.
use llamaste.Auth.Sessions.{to_hex}
use llamaste.Json.{Entry, value}
use llamaste.Prelude.{
  ℕ, Bool, true, false, not, ◌&&◌, Option, none, some, List, [], ◌∷◌, Bytes, is_empty, ℤ, pos,
  ltb_ℤ, ◌==◌,
}

pub record UpdateComponent : Type 0 where
  pub file : Bytes
  pub sha256 : Bytes
  pub size_compressed : ℕ
  pub size_uncompressed : ℕ

pub record UpdateManifest : Type 0 where
  pub valid : Bool
  pub format_version : ℤ
  pub version : Bytes
  pub build_date : Bytes
  pub arch : Bytes
  pub min_version : Bytes
  pub system : UpdateComponent
  pub changelog : List Bytes

-- The object under `components`/`system`.
pub record SystemDoc : Type 0 where
  pub file : Entry Bytes
  pub sha256 : Entry Bytes
  pub size_compressed : Entry ℕ
  pub size_uncompressed : Entry ℕ

-- A document that is an object. `system` is `absent` if one of the two keys is missing, and
-- `ill_typed` if what stands there is no object; `changelog` is there if it is an array, with
-- `none` for its entries that are no strings.
pub record ManifestDoc : Type 0 where
  pub format_version : Entry ℤ
  pub version : Entry Bytes
  pub build_date : Entry Bytes
  pub arch : Entry Bytes
  pub min_version : Entry Bytes
  pub system : Entry SystemDoc
  pub changelog : Option (List (Option Bytes))

abbrev pub no_manifest : UpdateManifest
no_manifest = record {
  valid = false;
  format_version = pos 0;
  version = [];
  build_date = [];
  arch = [];
  min_version = [];
  system = record { file = []; sha256 = []; size_compressed = 0; size_uncompressed = 0 };
  changelog = [];
}

-- One assignment of the `try` block: an exception leaves the manifest as it is by then.
abbrev assign :
    {A : Type 0}
    → Entry A
    → A
    → (A → UpdateManifest)
    → UpdateManifest
    → (UpdateManifest → UpdateManifest)
    → UpdateManifest
assign entry d set m next = elim (value entry d) [ none ↦ m | some v ↦ next (set v) ]

read_system : Entry SystemDoc → UpdateManifest → (UpdateManifest → UpdateManifest) → UpdateManifest
read_system Entry.absent m next = next m
read_system Entry.ill_typed m next = m
read_system (Entry.present d) m next =
    assign d.file [] (λ v. record m { system = record m.system { file = v } }) m
      λ m1.
        assign d.sha256 [] (λ v. record m1 { system = record m1.system { sha256 = v } }) m1
          λ m2.
            assign d.size_compressed 0
              (λ v. record m2 { system = record m2.system { size_compressed = v } }) m2
              λ m3.
                assign d.size_uncompressed 0
                  (λ v. record m3 { system = record m3.system { size_uncompressed = v } }) m3 next

strings : List (Option Bytes) → List Bytes
strings [] = []
strings (none ∷ es) = strings es
strings (some s ∷ es) = s ∷ strings es

abbrev changes : Option (List (Option Bytes)) → List Bytes
unfolding strings
changes none = []
changes (some es) = strings es

finish : Option (List (Option Bytes)) → UpdateManifest → UpdateManifest
unfolding changes
finish log m = record m {
  changelog = changes log;
  valid = not (is_empty m.version) && ltb_ℤ (pos 0) m.format_version;
}

-- `none` is a text that is no JSON object.
unfoldable pub read_manifest : Option ManifestDoc → UpdateManifest
unfolding read_system finish
read_manifest none = no_manifest
read_manifest (some d) =
    let m : UpdateManifest = no_manifest in
    assign d.format_version (pos 0) (λ v. record m { format_version = v }) m
      λ m1.
        assign d.version [] (λ v. record m1 { version = v }) m1
          λ m2.
            assign d.build_date [] (λ v. record m2 { build_date = v }) m2
              λ m3.
                assign d.arch [] (λ v. record m3 { arch = v }) m3
                  λ m4.
                    assign d.min_version [] (λ v. record m4 { min_version = v }) m4
                      λ m5. read_system d.system m5 (finish d.changelog)

unfoldable pub parse_manifest : (Bytes → Option ManifestDoc) → Bytes → UpdateManifest
parse_manifest parse json = read_manifest (parse json)

-- `crypto_hash` gives the 32 bytes of the digest.
unfoldable pub sha256_hex : (Bytes → Bytes) → Bytes → Bytes
sha256_hex crypto_hash bytes = to_hex (crypto_hash bytes)

-- `UPDATE_PUBLIC_KEY`
abbrev pub update_public_key : Bytes
update_public_key =
    0 ∷ 0 ∷ 0 ∷ 0 ∷ 0 ∷ 0 ∷ 0 ∷ 0 ∷ 0 ∷ 0 ∷ 0 ∷ 0 ∷ 0 ∷ 0 ∷ 0 ∷ 0 ∷ 0 ∷ 0 ∷ 0 ∷ 0 ∷ 0 ∷ 0 ∷ 0 ∷ 0
    ∷ 0 ∷ 0 ∷ 0 ∷ 0 ∷ 0 ∷ 0 ∷ 0 ∷ 0 ∷ []

unfoldable pub key_is_zero : Bytes → Bool
key_is_zero [] = true
key_is_zero (b ∷ bs) = b == 0 && key_is_zero bs
