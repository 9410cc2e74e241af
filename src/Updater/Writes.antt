-- ===== src/Updater/Writes.antt =====
-- src/llamaste/updater.cpp: what the write loop and the boot variables of `install_update` leave.
use Prim.Native.Nat.{min}
use llamaste.Prelude.{
  ℕ, zero, suc, ◌+◌, ◌-◌, ◌≤◌, ◌≡◌, refl, inl, inr, ap, Bool, true, false, ◌&&◌, Option, ◌++◌,
  Bytes, is_empty, Assoc, ltb, leb, ◌==◌, if◌then◌else◌, length, take_all, drop, arith, Bool-cases,
}
use llamaste.Updater.Grubenv.{Vars}
use llamaste.Updater.Install.{
  find_grubenv_path, wrote, chunk_size, System, Disk, grubenv_write, switch_slot, write_chunks,
  overwritten,
}

-- A count of the written bytes that says that all went well counts them all.
abbrev pub IsComplete : ℕ → ℕ × (ℕ × Bool) → Type 0
IsComplete size w = w.1.1 ≡ true → (w.0 ≡ size) × (w.1.0 ≡ size)

next_chunk :
    (f size written nw : ℕ)
    → leb size written ≡ false
    → size - written ≤ suc f
    → (ltb 0 nw && (nw == min chunk_size (size - written))) ≡ true
    → (written + nw ≤ size) × (size - (written + nw) ≤ f)
next_chunk f size written nw e h g = ground arith

pub write_chunks-IsComplete :
    (f : ℕ) (write : ℕ → ℕ → Option ℕ) (size written : ℕ)
    → written ≤ size
    → size - written ≤ f
    → IsComplete size (write_chunks f write size written)
unfolding write_chunks
write_chunks-IsComplete zero write size written b h = λ _. (omega arith, omega arith)
write_chunks-IsComplete (suc f) write size written b h =
    let chunk : ℕ = min chunk_size (size - written) in
    let nw : ℕ = wrote (write written chunk) in
    elim (Bool-cases (leb size written)) [
      | inl e ↦ rw e λ _. (ground arith, ground arith)
      | inr e ↦ elim (Bool-cases (ltb 0 nw && (nw == chunk))) [
        | inl g ↦
            let (b', h') = next_chunk f size written nw e h g in
            rw e (rw g (write_chunks-IsComplete f write size (written + nw) b' h'))
        | inr g ↦ rw e (rw g λ q. absurd (ground arith))
      ]
    ]

grubenv_write-partitions :
    (stored : Bool) (path : Bytes) (vars : Vars) (d : Disk)
    → (grubenv_write stored path vars d).partitions ≡ d.partitions
unfolding grubenv_write
grubenv_write-partitions true path vars d = refl
grubenv_write-partitions false path vars d = refl

pub switch_slot-partitions :
    (s : System) (slot : Bytes) (d : Disk) → (switch_slot s slot d).partitions ≡ d.partitions
unfolding switch_slot
switch_slot-partitions s slot d = elim (Bool-cases (is_empty (find_grubenv_path s.exists))) [
  | inl e ↦ rw e refl
  | inr e ↦ rw e (grubenv_write-partitions s.stored _ _ d)
]

pub overwritten_whole :
    (payload old : Bytes) (landed written : ℕ)
    → landed ≡ length payload
    → written ≡ length payload
    → overwritten payload landed old ≡ payload ++ drop written old
overwritten_whole payload old landed written e f = rw e (
    rw f (
      ap (λ (r : Bytes). r ++ drop (length payload) old)
        (take_all (length payload) payload (omega arith))))

pub if_meta :
    (b : Bool) (slots : Assoc (Bytes × Bytes)) (d : Disk)
    → (if b then record d { slots = slots } else d).partitions ≡ d.partitions
if_meta true slots d = refl
if_meta false slots d = refl
