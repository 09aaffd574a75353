-- ===== src/Journal/Redo.antt =====
-- The replay of one transaction by journal_recover of kernel/journal.c: what it does is what the
-- checkpoint of journal_commit does.
use mathlib.Core.Path.{subst}
use aurora_os.Prelude.{
  ℕ, suc, ◌+◌, ◌*◌, ◌%◌, ◌^◌, ◌≤◌, ◌<◌, ◌≡◌, refl, ap, ◌∙◌, Bool, true, false, List, [], ◌∷◌,
  length, get_or, ◌==◌, arith, Bool-cases, inl, inr, ==_refl,
}
use aurora_os.Journal.Disk.{
  Block, Entry, commit_record, zero_entry, block_checksum, commit_checksum, Device, written,
}
use aurora_os.Journal.{Handle, sector_of, block_entry, entries_of, descriptor_of, checkpoint}
use aurora_os.Journal.Recover.{out_of_fs, replay_entry, replay, recover_transaction}
use aurora_os.Journal.Order.{area_of, in_area, offset-in_area}
use aurora_os.Journal.Log.{Works, Lies, HoldsData, write_done, journal_read_done}
use aurora_os.Journal.Logged.{Lies-kept}

-- A block has its place in the file system, on the device and outside of the journal.
pub record Home (h : Handle) (dev : Device) (fs_block : ℕ) : Type 0 where
  pub small : fs_block * h.sectors_per_block < 2 ^ 32
  pub on_device : fs_block * h.sectors_per_block + h.sectors_per_block ≤ dev.total_sectors
  pub in_fs : out_of_fs h fs_block ≡ false
  pub outside : in_area (area_of h) (fs_block * h.sectors_per_block) ≡ false

abbrev pub Homes : Handle → List (ℕ × Block) → Device → Type 0
Homes h [] dev = Unit
Homes h (b ∷ rest) dev = Home h dev (b.0) × Homes h rest dev

-- The device with every block of a transaction at its place.
unfoldable pub stored : ℕ → List (ℕ × Block) → Device → Device
stored spb [] dev = dev
stored spb (b ∷ rest) dev = stored spb rest (written (b.0 * spb) (b.1) dev)

written-Works :
    (sector : ℕ) (block : Block) (dev : Device) → Works dev → Works (written sector block dev)
written-Works sector block dev works = record { writes = works.writes; reads = works.reads }

written-Home :
    (h : Handle) (n sector : ℕ) (block : Block) (dev : Device)
    → Home h dev n
    → Home h (written sector block dev) n
written-Home h n sector block dev p = record {
  small = p.small;
  on_device = p.on_device;
  in_fs = p.in_fs;
  outside = p.outside;
}

written-Homes :
    (h : Handle) (txn : List (ℕ × Block)) (sector : ℕ) (block : Block) (dev : Device)
    → Homes h txn dev
    → Homes h txn (written sector block dev)
written-Homes h [] sector block dev homes = record {}
written-Homes h (b ∷ rest) sector block dev (first, homes) =
    (written-Home h (b.0) sector block dev first, written-Homes h rest sector block dev homes)

pub checkpoint-stored :
    (h : Handle) (txn : List (ℕ × Block)) (dev : Device)
    → Works dev
    → 0 < h.sectors_per_block
    → Homes h txn dev
    → checkpoint h txn dev ≡ (stored (h.sectors_per_block) txn dev, true)
unfolding checkpoint stored
checkpoint-stored h [] dev works positive homes = refl
checkpoint-stored h (b ∷ rest) dev works positive (first, homes) =
    let sector = b.0 * h.sectors_per_block in
    let next = written sector (b.1) dev in
    let whole : sector % 2 ^ 32 ≡ sector = omega (arith, first.small) in
    rw whole (
      rw (write_done sector h.sectors_per_block (b.1) dev works positive first.on_device) (
        checkpoint-stored h rest next (written-Works sector (b.1) dev works) positive
          (written-Homes h rest sector (b.1) dev homes)))

-- A write outside of the journal leaves what the journal holds.
pub outside-kept :
    (h : Handle) (offset sector : ℕ) (block : Block) (dev : Device)
    → offset < h.journal_blocks
    → 0 < h.sectors_per_block
    → in_area (area_of h) sector ≡ false
    → (written sector block dev).disk (sector_of h offset) ≡ dev.disk (sector_of h offset)
outside-kept h offset sector block dev small positive outside =
    let inside : in_area (area_of h) (sector_of h offset) ≡ true =
      offset-in_area h offset small (ground arith) in
    let differs : (sector_of h offset == sector) ≡ false =
      elim (Bool-cases (sector_of h offset == sector)) [
        | inl e ↦ absurd (ground (arith, inside, outside, e))
        | inr e ↦ e
      ] in
    rw differs refl

HoldsData-written :
    (h : Handle) (offset sector : ℕ) (txn : List (ℕ × Block)) (block : Block) (dev : Device)
    → offset + length txn ≤ h.journal_blocks
    → 0 < h.sectors_per_block
    → in_area (area_of h) sector ≡ false
    → HoldsData h offset txn dev.disk
    → HoldsData h offset txn (written sector block dev).disk
HoldsData-written h offset sector [] block dev fits positive outside holds = record {}
HoldsData-written h offset sector (b ∷ rest) block dev fits positive outside (here, holds) = (
  outside-kept h offset sector block dev (omega arith) positive outside ∙ here,
  HoldsData-written h (offset + 1) sector rest block dev (omega arith) positive outside holds,
)

replay_entry-written :
    (h : Handle) (b : ℕ × Block) (offset : ℕ) (dev : Device)
    → Works dev
    → Lies h dev
    → offset < h.journal_blocks
    → Home h dev (b.0)
    → dev.disk (sector_of h offset) ≡ b.1
    → replay_entry h (block_entry h.block_size b) offset dev
      ≡ written (b.0 * h.sectors_per_block) (b.1) dev
replay_entry-written h b offset dev works lies small home here = rw home.in_fs (
    rw (journal_read_done h offset dev works lies small) (
      rw here (
        rw (==_refl (block_checksum h.block_size (b.1))) (
          rw
            (write_done (b.0 * h.sectors_per_block) h.sectors_per_block (b.1) dev works
              lies.some_sectors home.on_device)
            refl))))

-- The entries from a position on are those of the blocks.
replay-stored :
    (h : Handle) (entries : List Entry) (rest : List (ℕ × Block)) (i pos : ℕ) (dev : Device)
    → Works dev
    → Lies h dev
    → pos + 1 + i + length rest ≤ h.journal_blocks
    → Homes h rest dev
    → HoldsData h (pos + 1 + i) rest dev.disk
    → ((k : ℕ)
        → get_or entries (i + k) zero_entry ≡ get_or (entries_of h.block_size rest) k zero_entry)
    → replay h entries (length rest) i pos dev ≡ stored (h.sectors_per_block) rest dev
unfolding replay stored entries_of
replay-stored h entries [] i pos dev works lies fits homes holds same = refl
replay-stored h entries (b ∷ rest) i pos dev works lies fits (home, homes) (here, holds) same =
    let this : get_or entries i zero_entry ≡ block_entry h.block_size b =
      ap (λ k. get_or entries k zero_entry) (omega arith) ∙ same 0 in
    let sector = b.0 * h.sectors_per_block in
    let next = written sector (b.1) dev in
    let more : HoldsData h (pos + 1 + (i + 1)) rest dev.disk =
      subst (λ o. HoldsData h o rest dev.disk) (omega arith) holds in
    let behind : (k : ℕ)
        → get_or entries (i + 1 + k) zero_entry
          ≡ get_or (entries_of h.block_size rest) k zero_entry =
      λ k. ap (λ n. get_or entries n zero_entry) (omega arith) ∙ same (suc k) in
    let step : replay_entry h (get_or entries i zero_entry) (pos + 1 + i) dev ≡ next =
      ap (λ e. replay_entry h e (pos + 1 + i) dev) this
      ∙ replay_entry-written h b (pos + 1 + i) dev works lies (omega arith) home here in
    ap (replay h entries (length rest) (i + 1) pos) step
    ∙ replay-stored h entries rest (i + 1) pos next (written-Works sector (b.1) dev works)
        (Lies-kept h dev next refl lies) (omega arith) (written-Homes h rest sector (b.1) dev homes)
        (HoldsData-written h (pos + 1 + (i + 1)) sector rest (b.1) dev (omega arith)
          lies.some_sectors home.outside more)
        behind

pub recover_transaction-stored :
    (h : Handle) (txn : List (ℕ × Block)) (pos seq : ℕ) (dev : Device)
    → Works dev
    → Lies h dev
    → pos + 1 + length txn + 1 ≤ h.journal_blocks
    → Homes h txn dev
    → HoldsData h (pos + 1) txn dev.disk
    → dev.disk (sector_of h (pos + 1 + length txn)) ≡ commit_record seq (commit_checksum seq)
    → recover_transaction h pos (descriptor_of h.block_size seq txn) dev
      ≡ stored (h.sectors_per_block) txn dev
recover_transaction-stored h txn pos seq dev works lies fits homes holds committed =
    rw (journal_read_done h (pos + 1 + length txn) dev works lies (omega arith)) (
      rw committed (
        replay-stored h (entries_of h.block_size txn) txn 0 pos dev works lies (omega arith) homes
          (subst (λ o. HoldsData h o txn dev.disk) (omega arith) holds)
          (λ k. ap (λ n. get_or (entries_of h.block_size txn) n zero_entry) (omega arith))))

-- The pointers of the journal are not part of its place.
pub Homes-moved :
    (h : Handle) (head tail seq : ℕ) (dirty : Bool) (txn : List (ℕ × Block)) (dev : Device)
    → Homes h txn dev
    → Homes (record h { head = head; tail = tail; sequence = seq; dirty = dirty }) txn dev
Homes-moved h head tail seq dirty [] dev homes = record {}
Homes-moved h head tail seq dirty (b ∷ rest) dev (p, homes) = (
  record { small = p.small; on_device = p.on_device; in_fs = p.in_fs; outside = p.outside },
  Homes-moved h head tail seq dirty rest dev homes,
)

pub Homes-on :
    (h : Handle) (txn : List (ℕ × Block)) (dev dev' : Device)
    → dev'.total_sectors ≡ dev.total_sectors
    → Homes h txn dev
    → Homes h txn dev'
Homes-on h [] dev dev' same homes = record {}
Homes-on h (b ∷ rest) dev dev' same (p, homes) = (
  record { small = p.small; on_device = rw same p.on_device; in_fs = p.in_fs; outside = p.outside },
  Homes-on h rest dev dev' same homes,
)
