-- ===== src/Updater/Versions.antt =====
-- src/llamaste/updater.cpp: the order of versions, and the slot that an update goes to.
use llamaste.Prelude.{
  ◌≡◌, ◌≢◌, ◌↔◌, ◌||◌, [], ◌∷◌, Bytes, codes, bytes_eq, cut, pos, ◌<ℤ◌, ◌==◌, if◌then◌else◌, arith,
  Bool-cases, Option-cases, inl, inr,
}
use llamaste.Updater.{
  Version, parse_active_slot, inactive_slot, inactive_partition_num, version_compare,
}

-- The two orders of the arguments of `version_compare` give results of opposite signs: one
-- says that its first argument is older exactly when the other says that it is newer.
pub version_compare_order :
    (scan : Bytes → Version) (a b : Bytes)
    → ((version_compare scan a b <ℤ pos 0) ↔ (pos 0 <ℤ version_compare scan b a))
      × ((pos 0 <ℤ version_compare scan a b) ↔ (version_compare scan b a <ℤ pos 0))
unfolding version_compare
version_compare_order scan a b = (ground arith, ground arith)

-- Whatever the kernel's command line is, it names the slot A or B, the inactive slot is the other
-- one, whose inactive slot is the active one again, and an update goes to partition 4 when A is
-- active and to 3 when B is.
pub parse_active_slot_lem :
    (cmdline : Bytes)
    → let slot = parse_active_slot cmdline in
      (inactive_slot slot ≢ slot)
      × (inactive_slot (inactive_slot slot) ≡ slot)
      × (inactive_partition_num slot ≡ (if bytes_eq slot (codes "B") then 3 else 4))
unfolding parse_active_slot inactive_slot inactive_partition_num bytes_eq
parse_active_slot_lem cmdline = elim (Option-cases (cut (codes "llamaste.slot=") cmdline)) [
  | inl e ↦ rw e (ground arith)
  | inr ((b, []), e) ↦ rw e (ground arith)
  | inr ((b, c ∷ cs), e) ↦ rw e (elim (Bool-cases (c == b'B' || (c == b'b'))) [
    | inl f ↦ rw f (ground arith)
    | inr f ↦ rw f (ground arith)
  ])
]
