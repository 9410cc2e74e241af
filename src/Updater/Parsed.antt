-- ===== src/Updater/Parsed.antt =====
-- src/llamaste/updater.cpp: where the manifest of a package comes from.

use llamaste.Prelude.{
  ℕ, ◌≡◌, inl, inr, Bool, Option, none, some, Bytes, codes, bytes_eq, ltb, ◌==◌, length, take, drop,
  arith, Bool-cases,
}
use llamaste.Updater.Manifest.{UpdateManifest}
use llamaste.Updater.Package.{
  UpdateFileInfo, blank, read_u32_le, parse_update_file, parse_contents, parse_signed,
}

-- The manifest of a package comes from the text that the signature is checked against.
abbrev pub IsParsed : (Bytes → UpdateManifest) → UpdateFileInfo UpdateManifest → Type 0
IsParsed parse info = (m : UpdateManifest) → info.manifest ≡ some m → m ≡ parse info.manifest_json

parse_signed-IsParsed :
    (parse : Bytes → UpdateManifest) (valid : UpdateManifest → Bool) (size n : ℕ)
    (text rest : Bytes)
    → IsParsed parse (parse_signed parse valid size n text rest blank)
unfolding parse_signed
parse_signed-IsParsed parse valid size n text rest m q = elim (Bool-cases (ltb (length rest) 64)) [
  | inl e ↦ absurd (none_some (rw e at q))
  | inr e ↦ elim (Bool-cases (valid (parse text))) [
    | inl f ↦ rw e (rw f (parsed_text (rw f at (rw e at q))))
    | inr f ↦ rw e (rw f (parsed_text (rw f at (rw e at q))))
  ]
]
  where
    none_some : {a : UpdateManifest} → none ≡ some a → ⊥
    none_some h = ground arith

    parsed_text : {a b : UpdateManifest} → some a ≡ some b → b ≡ a
    parsed_text h = ground arith

nothing :
    (parse : Bytes → UpdateManifest) {text : Bytes} (m : UpdateManifest)
    → none ≡ some m
    → m ≡ parse text
nothing parse m q = absurd (ground arith)

parse_contents-IsParsed :
    (parse : Bytes → UpdateManifest) (valid : UpdateManifest → Bool) (file : Bytes)
    → IsParsed parse (parse_contents parse valid file)
unfolding parse_contents
parse_contents-IsParsed parse valid file = elim (Bool-cases (ltb (length file) 12)) [
  | inl e ↦ rw e (nothing parse)
  | inr e ↦ rw e (elim (Bool-cases (bytes_eq (take 4 file) (codes "LMUP"))) [
    | inr f ↦ rw f (nothing parse)
    | inl f ↦ rw f (elim (Bool-cases (read_u32_le file 4 == 1)) [
      | inr g ↦ rw g (nothing parse)
      | inl g ↦ rw g (elim (Bool-cases (ltb 1048576 (read_u32_le file 8))) [
        | inl h ↦ rw h (nothing parse)
        | inr h ↦ rw h (elim (Bool-cases (ltb (length (drop 12 file)) (read_u32_le file 8))) [
          | inl i ↦ rw i (nothing parse)
          | inr i ↦ rw i (
              parse_signed-IsParsed parse valid (length file) (read_u32_le file 8)
                (take (read_u32_le file 8) (drop 12 file))
                (drop (read_u32_le file 8) (drop 12 file)))
        ])
      ])
    ])
  ])
]

pub parse_update_file-IsParsed :
    (parse : Bytes → UpdateManifest) (valid : UpdateManifest → Bool) (path : Bytes)
    (file : Option Bytes)
    → IsParsed parse (parse_update_file parse valid path file)
unfolding parse_update_file
parse_update_file-IsParsed parse valid path none = λ m e. absurd (ground arith)
parse_update_file-IsParsed parse valid path (some file) = parse_contents-IsParsed parse valid file
