-- ===== src/Journal/Log.antt =====
-- What phases 1 to 3 of journal_commit in kernel/journal.c leave on a disk that works.
use mathlib.Core.Path.{subst}
use native.Mathlib.Nat.{mul-le-mul}
use aurora_os.Prelude.{
  ℕ, suc, ◌+◌, ◌-◌, ◌*◌, ◌≤◌, ◌<◌, ◌≡◌, ◌≢◌, refl, ◌∙◌, true, false, ◌||◌, some, List, [], ◌∷◌,
  length, ltb, ◌==◌, arith, ==_refl,
}
use aurora_os.Journal.Disk.{
  Block, superblock, Device, Outcome, written, block_dev_write, block_dev_read,
}
use aurora_os.Journal.{
  Handle, sector_of, journal_write_block, journal_read_block, superblock_of, write_jsb, write_data,
}

-- A device that writes and reads every sector that it has.
pub record Works (dev : Device) : Type 0 where
  pub writes : (s : ℕ) → dev.can_write s ≡ true
  pub reads : (s : ℕ) → dev.can_read s ≡ true

-- The journal lies on the device.
pub record Lies (h : Handle) (dev : Device) : Type 0 where
  pub some_sectors : 0 < h.sectors_per_block
  pub within : (h.journal_start + h.journal_blocks) * h.sectors_per_block ≤ dev.total_sectors

pub write_done :
    (sector count : ℕ) (block : Block) (dev : Device)
    → Works dev
    → 0 < count
    → sector + count ≤ dev.total_sectors
    → block_dev_write sector count block dev ≡ (written sector block dev, true)
unfolding block_dev_write
write_done sector count block dev works positive fits =
    let within : ((count == 0)
          || ltb dev.total_sectors sector
          || ltb (dev.total_sectors - sector) count)
        ≡ false =
      ground arith in
    rw (within, works.writes sector) refl

pub read_done :
    (sector count : ℕ) (dev : Device)
    → Works dev
    → 0 < count
    → sector + count ≤ dev.total_sectors
    → block_dev_read sector count dev ≡ some (dev.disk sector)
unfolding block_dev_read
read_done sector count dev works positive fits =
    let within : ((count == 0)
          || ltb dev.total_sectors sector
          || ltb (dev.total_sectors - sector) count)
        ≡ false =
      ground arith in
    rw (within, works.reads sector) refl

-- The sectors of offsets are in the order of the offsets.
pub sector_behind :
    (h : Handle) (a b : ℕ) → a < b → sector_of h a + h.sectors_per_block ≤ sector_of h b
sector_behind h a b less =
    let spb = h.sectors_per_block in
    let high : (h.journal_start + a + 1) * spb ≤ (h.journal_start + b) * spb =
      mul-le-mul (omega arith) (omega arith) in
    let step : (h.journal_start + a + 1) * spb ≡ (h.journal_start + a) * spb + spb = grind arith in
    omega arith

pub offset_fits :
    (h : Handle) (dev : Device) (offset : ℕ)
    → Lies h dev
    → offset < h.journal_blocks
    → sector_of h offset + h.sectors_per_block ≤ dev.total_sectors
offset_fits h dev offset lies small =
    omega (arith, lies.within, sector_behind h offset h.journal_blocks small)

pub journal_write_done :
    (h : Handle) (offset : ℕ) (block : Block) (dev : Device)
    → Works dev
    → Lies h dev
    → offset < h.journal_blocks
    → journal_write_block h offset block dev ≡ (written (sector_of h offset) block dev, true)
unfolding journal_write_block
journal_write_done h offset block dev works lies small =
    write_done (sector_of h offset) h.sectors_per_block block dev works lies.some_sectors
      (offset_fits h dev offset lies small)

pub write_jsb_done :
    (h : Handle) (dev : Device)
    → Works dev
    → Lies h dev
    → 0 < h.journal_blocks
    → write_jsb true h dev ≡ (written (sector_of h 0) (superblock (superblock_of h)) dev, true)
unfolding write_jsb
write_jsb_done h dev works lies some_blocks =
    journal_write_done h 0 (superblock (superblock_of h)) dev works lies some_blocks

pub journal_read_done :
    (h : Handle) (offset : ℕ) (dev : Device)
    → Works dev
    → Lies h dev
    → offset < h.journal_blocks
    → journal_read_block h offset dev ≡ some (dev.disk (sector_of h offset))
unfolding journal_read_block
journal_read_done h offset dev works lies small =
    read_done (sector_of h offset) h.sectors_per_block dev works lies.some_sectors
      (offset_fits h dev offset lies small)

-- The blocks of a transaction, in the journal from the offset on.
abbrev pub HoldsData : Handle → ℕ → List (ℕ × Block) → (ℕ → Block) → Type 0
HoldsData h offset [] disk = Unit
HoldsData h offset (b ∷ rest) disk =
    (disk (sector_of h offset) ≡ b.1) × HoldsData h (offset + 1) rest disk

-- From one device to another, only the blocks at offsets from `low` on and below `high` are written.
pub record Wrote (h : Handle) (low high : ℕ) (dev dev' : Device) : Type 0 where
  pub works : Works dev'
  pub total : dev'.total_sectors ≡ dev.total_sectors
  pub kept : (s : ℕ) → ((k : ℕ) → low ≤ k → k < high → s ≢ sector_of h k) → dev'.disk s ≡ dev.disk s

pub written-Wrote :
    (h : Handle) (offset : ℕ) (block : Block) (dev : Device)
    → Works dev
    → Wrote h offset (offset + 1) dev (written (sector_of h offset) block dev)
written-Wrote h offset block dev works = record {
  works = record { writes = works.writes; reads = works.reads };
  total = refl;
  kept = λ s other.
      let away : s ≢ sector_of h offset = other offset (omega arith) (omega arith) in
      let differs : (s == sector_of h offset) ≡ false = ground arith in rw differs refl;
}

pub Wrote-chain :
    (h : Handle) (low middle high : ℕ) (a b c : Device)
    → low ≤ middle
    → middle ≤ high
    → Wrote h low middle a b
    → Wrote h middle high b c
    → Wrote h low high a c
Wrote-chain h low middle high a b c p q f g = record {
  works = g.works;
  total = g.total ∙ f.total;
  kept = λ s other.
      g.kept s (λ k l u. other k (omega (arith, l)) u)
      ∙ f.kept s (λ k l u. other k l (omega (arith, u)));
}

-- A block that was written stays while only blocks behind it are written.
pub sector-distinct :
    (h : Handle) (a b : ℕ) → 0 < h.sectors_per_block → a < b → sector_of h a ≢ sector_of h b
sector-distinct h a b positive less e = omega (arith, sector_behind h a b less)

pub HoldsData-kept :
    (h : Handle) (offset low high : ℕ) (txn : List (ℕ × Block)) (dev dev' : Device)
    → 0 < h.sectors_per_block
    → offset + length txn ≤ low
    → Wrote h low high dev dev'
    → HoldsData h offset txn dev.disk
    → HoldsData h offset txn dev'.disk
HoldsData-kept h offset low high [] dev dev' positive before w holds = record {}
HoldsData-kept h offset low high (b ∷ rest) dev dev' positive before w (here, holds) = (
  w.kept (sector_of h offset) (λ k l u. sector-distinct h offset k positive (omega (arith, l)))
      ∙ here,
  HoldsData-kept h (offset + 1) low high rest dev dev' positive (omega arith) w holds,
)

-- The data blocks are written one behind another.
pub record DataWritten (h : Handle) (offset : ℕ) (txn : List (ℕ × Block)) (dev : Device)
    (o : Outcome) : Type 0 where
  pub done : o.1 ≡ true
  pub wrote : Wrote h offset (offset + length txn) dev o.0
  pub holds : HoldsData h offset txn o.0.disk

pub write_data-DataWritten :
    (h : Handle) (offset : ℕ) (txn : List (ℕ × Block)) (dev : Device)
    → Works dev
    → Lies h dev
    → offset + length txn ≤ h.journal_blocks
    → DataWritten h offset txn dev (write_data h offset txn dev)
unfolding write_data
write_data-DataWritten h offset [] dev works lies fits = record {
  done = refl;
  wrote = record { works = works; total = refl; kept = λ s other. refl };
  holds = record {};
}
write_data-DataWritten h offset (b ∷ rest) dev works lies fits =
    let next = written (sector_of h offset) (b.1) dev in
    let first = written-Wrote h offset (b.1) dev works in
    let more =
      write_data-DataWritten h (offset + 1) rest next first.works
        (record { some_sectors = lies.some_sectors; within = lies.within }) (omega arith) in
    let length_ok : offset + 1 + length rest ≡ offset + suc (length rest) = omega arith in
    let now : next.disk (sector_of h offset) ≡ b.1 = rw (==_refl (sector_of h offset)) refl in
    let stays : (write_data h (offset + 1) rest next).0.disk (sector_of h offset) ≡ b.1 =
      more.wrote.kept (sector_of h offset)
        (λ k l u. sector-distinct h offset k lies.some_sectors (omega (arith, l)))
      ∙ now in
    rw (journal_write_done h offset (b.1) dev works lies (omega arith)) (record {
      done = more.done;
      wrote =
          subst (λ high. Wrote h offset high dev (write_data h (offset + 1) rest next).0) length_ok
            (Wrote-chain h offset (offset + 1) (offset + 1 + length rest) dev next
              (write_data h (offset + 1) rest next).0 (omega arith) (omega arith) first more.wrote);
      holds = (stays, more.holds);
    })
