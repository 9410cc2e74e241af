-- ===== src/Updater/Authentic.antt =====
-- src/llamaste/updater.cpp: what `install_update` may change, and when.

use mathlib.Core.Path.{subst}
use llamaste.Prelude.{
  ℕ, ◌≡◌, refl, ◌⊎◌, inl, inr, ◌∙◌, ap, Bool, true, false, not, ◌&&◌, Option, none, some, ◌++◌,
  Bytes, is_empty, bytes_eq, bytes_eq_iff, ℤ, pos, ltb_ℤ, leb_ℤ, ◌<ℤ◌, lookup, insert, ltb, ◌==◌,
  length, take, drop, arith, Bool-cases,
}
use llamaste.Updater.{version_compare, inactive_slot, inactive_partition_num}
use llamaste.Updater.Device.{detect_current_slot, target_device}
use llamaste.Updater.Manifest.{UpdateManifest, parse_manifest, sha256_hex, key_is_zero}
use llamaste.Updater.Package.{UpdateFileInfo, parse_update_file}
use llamaste.Updater.Install.{
  Outcome, System, Disk, Installed, error, success, switch_slot, write_chunks, overwritten, refuse,
  payload_of, finish, write_to, write_payload, check_payload, check_manifest, install_parsed,
  install_update,
}
use llamaste.Updater.Writes.{
  IsComplete, write_chunks-IsComplete, switch_slot-partitions, overwritten_whole, if_meta,
}
use llamaste.Updater.Parsed.{parse_update_file-IsParsed}

-- The device that an installation writes to.
abbrev pub target : System → Bytes
target s = target_device s.exists s.mounts (inactive_partition_num (detect_current_slot s.cmdline))

-- The payload is that of a signed manifest for a newer version: the key, which is not all zeros,
-- verifies the manifest's text, and the manifest has the payload's digest.
pub record IsAuthentic (s : System) (payload : Bytes) : Type 0 where
  pub text : Bytes
  pub signature : Bytes
  pub newer : pos 0 <ℤ version_compare s.scan (parse_manifest s.parse text).version s.version
  pub key : key_is_zero s.public_key ≡ false
  pub signed : s.verify signature text s.public_key ≡ true
  pub digest : sha256_hex s.hash payload ≡ (parse_manifest s.parse text).system.sha256

-- The partitions are as before, or the first bytes of the target's old contents are
-- replaced by the first bytes of an authentic payload, as many.
abbrev pub IsOnTarget : System → Disk → Disk → Type 0
IsOnTarget s d d' =
    (d'.partitions ≡ d.partitions)
    ⊎ ((payload : Bytes) × ((n : ℕ) × ((old : Bytes) × (IsAuthentic s payload
              × ((lookup (target s) d.partitions ≡ some old)
                  × (d'.partitions
                      ≡ insert (target s) (take n payload ++ drop n old) d.partitions))))))

-- After an error the boot variables and the slots are as before. After a success the target holds
-- the whole payload, in place of as many bytes of its old contents.
abbrev pub IsSafe : System → Disk → Disk → Installed → Type 0
IsSafe s d d' (error what) = (d'.grubenv ≡ d.grubenv) × ((d'.slots ≡ d.slots) × IsOnTarget s d d')
IsSafe s d d' (success version slot dev n) =
    (slot ≡ inactive_slot (detect_current_slot s.cmdline))
    × ((dev ≡ target s)
        × ((payload : Bytes) × ((old : Bytes) × (IsAuthentic s payload
                × ((n ≡ length payload)
                    × ((lookup (target s) d.partitions ≡ some old)
                        × (d'.partitions ≡ insert dev (payload ++ drop n old) d.partitions)))))))

record Safe (s : System) (d : Disk) (r : Outcome) : Type 0 where
  holds : IsSafe s d r.0 r.1

module _ (s : System) where
  kept : (d : Disk) {what : Bytes} → Safe s d (refuse d what)
  kept d = record { holds = (refl, (refl, inl refl)) }

  finish-Safe :
      (m : UpdateManifest) (payload old : Bytes) (w : ℕ × (ℕ × Bool)) (d : Disk)
      → IsAuthentic s payload
      → lookup (target s) d.partitions ≡ some old
      → IsComplete (length payload) w
      → let d1 : Disk = record d {
        partitions = insert (target s) (overwritten payload w.1.0 old) d.partitions;
      } in
        Safe s d (finish s m (inactive_slot (detect_current_slot s.cmdline)) (target s) w d1)
  unfolding finish
  finish-Safe m payload old (written, (landed, false)) d a o c = record {
    holds = (refl, (refl, inr (payload, (landed, (old, (a, (o, refl)))))));
  }
  finish-Safe m payload old (written, (landed, true)) d a o c =
      let (e, f) = c refl in
      let slot : Bytes = inactive_slot (detect_current_slot s.cmdline) in
      let d1 : Disk = record d {
        partitions = insert (target s) (overwritten payload landed old) d.partitions;
      } in
      record {
        holds = (
          refl,
          (
            refl,
            (
              payload,
              (
                old,
                (
                  a,
                  (
                    e,
                    (
                      o,
                      if_meta s.meta_opens
                            (insert slot (m.version, m.build_date) (switch_slot s slot d1).slots)
                            (switch_slot s slot d1)
                          ∙ (switch_slot-partitions s slot d1
                              ∙ ap (λ (r : Bytes). insert (target s) r d.partitions)
                                  (overwritten_whole payload old landed written f e)),
                    ),
                  ),
                ),
              ),
            ),
          ),
        );
      }

  write_to-Safe :
      (m : UpdateManifest) (payload : Bytes) (open_dev : Option Bytes) (d : Disk)
      → IsAuthentic s payload
      → lookup (target s) d.partitions ≡ open_dev
      → Safe s d (
          write_to s m
            (inactive_slot (detect_current_slot s.cmdline))
            payload
            (target s)
            open_dev
            d)
  unfolding write_to
  write_to-Safe m payload none d a o = kept d
  write_to-Safe m payload (some old) d a o =
      finish-Safe m payload old (write_chunks (length payload) s.write (length payload) 0) d a o (
        write_chunks-IsComplete (length payload) s.write (length payload) 0 (omega arith)
          (omega arith))

  write_payload-Safe :
      (m : UpdateManifest) (payload : Bytes) (d : Disk)
      → IsAuthentic s payload
      → Safe s d (write_payload s m payload d)
  unfolding write_payload
  write_payload-Safe m payload d a = elim (Bool-cases (is_empty (target s))) [
    | inl e ↦ rw e (kept d)
    | inr e ↦ rw e (write_to-Safe m payload (lookup (target s) d.partitions) d a refl)
  ]

  check_payload-Safe :
      (info : UpdateFileInfo UpdateManifest) (m : UpdateManifest) (file : Option Bytes) (d : Disk)
      → ((payload : Bytes) → sha256_hex s.hash payload ≡ m.system.sha256 → IsAuthentic s payload)
      → Safe s d (check_payload s info m file d)
  unfolding check_payload
  check_payload-Safe info m none d a = kept d
  check_payload-Safe info m (some file) d a =
      let payload : Bytes = payload_of s info file in
      elim (Bool-cases s.seeks) [
        | inr e ↦ simp e (kept d)
        | inl e ↦ elim (Bool-cases s.has_memory) [
          | inr f ↦ simp (e, f) (kept d)
          | inl f ↦ elim (Bool-cases (ltb (length payload) info.payload_size)) [
            | inl g ↦ simp (e, f) (rw g (kept d))
            | inr g ↦ elim (Bool-cases (bytes_eq (sha256_hex s.hash payload) m.system.sha256)) [
              | inr h ↦ simp (e, f) (rw g (rw h (kept d)))
              | inl h ↦
                  simp (e, f)
                    (rw g
                      (rw h (write_payload-Safe m payload d (a payload ((bytes_eq_iff _ _).0 h)))))
            ]
          ]
        ]
      ]

  -- The checks of steps 2 to 4 make a payload with the manifest's digest authentic.
  authentic :
      (info : UpdateFileInfo UpdateManifest) (m : UpdateManifest)
      → m ≡ parse_manifest s.parse info.manifest_json
      → leb_ℤ (version_compare s.scan m.version s.version) (pos 0) ≡ false
      → key_is_zero s.public_key ≡ false
      → not (s.verify info.signature info.manifest_json s.public_key) ≡ false
      → (payload : Bytes) → sha256_hex s.hash payload ≡ m.system.sha256
      → IsAuthentic s payload
  authentic info m p e g h payload q = record {
    text = info.manifest_json;
    signature = info.signature;
    newer =
        subst (λ (x : UpdateManifest). pos 0 <ℤ version_compare s.scan x.version s.version) p
          (newer_of _ e);
    key = g;
    signed = ground arith;
    digest = q ∙ ap (λ (x : UpdateManifest). x.system.sha256) p;
  }
    where
      newer_of : (v : ℤ) → leb_ℤ v (pos 0) ≡ false → pos 0 <ℤ v
      newer_of v e = ground arith

  check_manifest-Safe :
      (info : UpdateFileInfo UpdateManifest) (m : UpdateManifest) (d : Disk)
      → m ≡ parse_manifest s.parse info.manifest_json
      → Safe s d (check_manifest s info m d)
  unfolding check_manifest
  check_manifest-Safe info m d p =
      elim (Bool-cases (leb_ℤ (version_compare s.scan m.version s.version) (pos 0))) [
        | inl e ↦ rw e (kept d)
        | inr e ↦
            rw e
              (elim (Bool-cases (
                not (is_empty m.min_version)
                && ltb_ℤ (version_compare s.scan s.version m.min_version) (pos 0))) [
                  | inl f ↦ rw f (kept d)
                  | inr f ↦ rw f (elim (Bool-cases (key_is_zero s.public_key)) [
                    | inl g ↦ rw g (kept d)
                    | inr g ↦
                        rw g
                          (elim (Bool-cases
                            (not (s.verify info.signature info.manifest_json s.public_key))) [
                              | inl h ↦ rw h (kept d)
                              | inr h ↦ rw h (elim (Bool-cases (info.payload_size == 0)) [
                                | inl i ↦ rw i (kept d)
                                | inr i ↦
                                    rw i (elim (Bool-cases (ltb 1073741824 info.payload_size)) [
                                      | inl j ↦ rw j (kept d)
                                      | inr j ↦ rw j (
                                          check_payload-Safe info m s.second_read d
                                            (authentic info m p e g h))
                                    ])
                              ])
                            ])
                  ])
                ])
      ]

  install_parsed-Safe :
      (info : UpdateFileInfo UpdateManifest) (parsed : Option UpdateManifest) (d : Disk)
      → ((m : UpdateManifest) → parsed ≡ some m → m ≡ parse_manifest s.parse info.manifest_json)
      → Safe s d (install_parsed s info parsed d)
  unfolding install_parsed
  install_parsed-Safe info none d h = kept d
  install_parsed-Safe info (some m) d h = elim (Bool-cases info.valid) [
    | inl e ↦ simp e (check_manifest-Safe info m d (h m refl))
    | inr e ↦ simp e (kept d)
  ]

  -- An installation writes to no partition but the target, and there replaces the first bytes of
  -- the old contents by as many first bytes, all of them after a success, of a payload whose digest stands in a manifest that the key has signed and whose version is newer, even if the
  -- package is changed between the two times it is read. It says that it succeeded only after the
  -- whole payload is written, and after an error the boot variables and the slots are as before.
  pub install_update-IsSafe : (d : Disk) → let (d', r) = install_update s d in IsSafe s d d' r
  unfolding install_update
  install_update-IsSafe d =
      let info : UpdateFileInfo UpdateManifest =
        parse_update_file (parse_manifest s.parse) (λ m. m.valid) s.path s.first_read in
      (install_parsed-Safe info info.manifest d (
        parse_update_file-IsParsed (parse_manifest s.parse) (λ m. m.valid) s.path
          s.first_read)).holds
