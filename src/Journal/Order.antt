-- ===== src/Journal/Order.antt =====
-- In which order journal_commit of kernel/journal.c writes: the file system is touched only behind the
-- commit record, wherever the writes fail.
use native.Mathlib.Nat.{mul-le-mul}
use aurora_os.Prelude.{
  ℕ, ◌+◌, ◌*◌, ◌%◌, ◌^◌, ◌≤◌, ◌<◌, ◌≡◌, refl, Bool, true, false, ◌&&◌, ◌||◌, List, [], ◌∷◌, length,
  ltb, leb, ◌==◌, arith, Bool-cases, inl, inr,
}
use aurora_os.Journal.Disk.{
  Block, commit_record, Write, Device, Outcome, and_then, written, out_of_range, block_dev_write,
}
use aurora_os.Journal.{Handle, sector_of, journal_write_block, write_jsb, write_data, checkpoint}

-- The sectors of the journal itself.
pub record Area : Type 0 where
  pub first : ℕ
  pub behind : ℕ

abbrev pub area_of : Handle → Area
area_of h = record {
  first = h.journal_start * h.sectors_per_block;
  behind = (h.journal_start + h.journal_blocks) * h.sectors_per_block;
}

abbrev pub in_area : Area → ℕ → Bool
in_area area sector = leb area.first sector && ltb sector area.behind

abbrev pub is_commit_of : ℕ → Block → Bool
is_commit_of seq (commit_record s checksum) = s == seq
is_commit_of seq _ = false

unfoldable pub has_commit : ℕ → List Write → Bool
has_commit seq [] = false
has_commit seq (w ∷ older) = is_commit_of seq (w.1) || has_commit seq older

-- Every write outside of the journal has the commit record of the transaction before it.
unfoldable pub guarded : Area → ℕ → List Write → Bool
unfolding has_commit
guarded area seq [] = true
guarded area seq (w ∷ older) =
    (in_area area (w.0) || has_commit seq older) && guarded area seq older

pub offset-in_area :
    (h : Handle) (offset : ℕ)
    → offset < h.journal_blocks
    → (h.sectors_per_block == 0) ≡ false
    → in_area (area_of h) (sector_of h offset) ≡ true
offset-in_area h offset small positive =
    let spb = h.sectors_per_block in
    let low : h.journal_start * spb ≤ (h.journal_start + offset) * spb =
      mul-le-mul (omega arith) (omega arith) in
    let high : (h.journal_start + offset + 1) * spb ≤ (h.journal_start + h.journal_blocks) * spb =
      mul-le-mul (omega arith) (omega arith) in
    let step : (h.journal_start + offset + 1) * spb ≡ (h.journal_start + offset) * spb + spb =
      grind arith in
    ground (arith, low, high, step)

-- What a write can do: nothing, or one more write.
pub data WriteCase (sector count : ℕ) (block : Block) (dev : Device) : Type 0 where
  refused : block_dev_write sector count block dev ≡ (dev, false) → WriteCase sector count block dev
  done :
      (count == 0) ≡ false
      → block_dev_write sector count block dev ≡ (written sector block dev, true)
      → WriteCase sector count block dev

pub write_case :
    (sector count : ℕ) (block : Block) (dev : Device) → WriteCase sector count block dev
unfolding block_dev_write
write_case sector count block dev = elim (Bool-cases (out_of_range dev sector count)) [
  | inl out ↦ refused (rw out refl)
  | inr within ↦ elim (Bool-cases (dev.can_write sector)) [
    | inl fine ↦ done (ground arith) (rw (within, fine) refl)
    | inr broken ↦ refused (rw (within, broken) refl)
  ]
]

-- A write keeps the order if it goes to the journal, or comes behind the commit record.
pub write-guarded :
    (area : Area) (seq sector count : ℕ) (block : Block) (dev : Device)
    → guarded area seq dev.log ≡ true
    → ((count == 0) ≡ false → (in_area area sector || has_commit seq dev.log) ≡ true)
    → guarded area seq (block_dev_write sector count block dev).0.log ≡ true
unfolding guarded
write-guarded area seq sector count block dev good placed =
    elim (write_case sector count block dev) [
      | refused e ↦ rw e good
      | done positive e ↦ rw e (rw (placed positive) good)
    ]

-- And so does a write to the journal at an offset inside of it.
pub journal_write-guarded :
    (h : Handle) (seq offset : ℕ) (block : Block) (dev : Device)
    → offset < h.journal_blocks
    → guarded (area_of h) seq dev.log ≡ true
    → guarded (area_of h) seq (journal_write_block h offset block dev).0.log ≡ true
unfolding journal_write_block
journal_write-guarded h seq offset block dev small good =
    write-guarded (area_of h) seq (sector_of h offset) h.sectors_per_block block dev good
      (λ positive. rw (offset-in_area h offset small positive) refl)

pub and_then-guarded :
    (area : Area) (seq : ℕ) (o : Outcome) (next : Device → Outcome)
    → guarded area seq o.0.log ≡ true
    → (guarded area seq o.0.log ≡ true → guarded area seq (next o.0).0.log ≡ true)
    → guarded area seq (and_then o next).0.log ≡ true
and_then-guarded area seq (dev, true) next good step = step good
and_then-guarded area seq (dev, false) next good step = good

pub write_data-guarded :
    (h : Handle) (seq offset : ℕ) (txn : List (ℕ × Block)) (dev : Device)
    → offset + length txn ≤ h.journal_blocks
    → guarded (area_of h) seq dev.log ≡ true
    → guarded (area_of h) seq (write_data h offset txn dev).0.log ≡ true
unfolding write_data
write_data-guarded h seq offset [] dev fits good = good
write_data-guarded h seq offset (b ∷ rest) dev fits good =
    let first = journal_write_block h offset (b.1) dev in
    and_then-guarded (area_of h) seq first (write_data h (offset + 1) rest)
      (journal_write-guarded h seq offset (b.1) dev (omega arith) good)
      (write_data-guarded h seq (offset + 1) rest first.0 (omega arith))

-- Behind the commit record, every write is in order.
pub checkpoint-guarded :
    (h : Handle) (seq : ℕ) (txn : List (ℕ × Block)) (dev : Device)
    → has_commit seq dev.log ≡ true
    → guarded (area_of h) seq dev.log ≡ true
    → guarded (area_of h) seq (checkpoint h txn dev).0.log ≡ true
unfolding checkpoint guarded
checkpoint-guarded h seq [] dev committed good = good
checkpoint-guarded h seq (b ∷ rest) dev committed good =
    let spb = h.sectors_per_block in
    let sector = b.0 * spb % 2 ^ 32 in
    elim (write_case sector spb (b.1) dev) [
      | refused e ↦ rw e good
      | done positive e ↦
          let anywhere : (in_area (area_of h) sector || true) ≡ true = ground arith in
          rw e (
            checkpoint-guarded h seq rest (written sector (b.1) dev) (rw committed (ground arith))
              (rw (committed, anywhere) good))
    ]

pub write_jsb-guarded :
    (mem_ok : Bool) (h : Handle) (seq : ℕ) (dev : Device)
    → 0 < h.journal_blocks
    → guarded (area_of h) seq dev.log ≡ true
    → guarded (area_of h) seq (write_jsb mem_ok h dev).0.log ≡ true
unfolding write_jsb
write_jsb-guarded true h seq dev some_blocks good =
    journal_write-guarded h seq 0 _ dev some_blocks good
write_jsb-guarded false h seq dev some_blocks good = good
