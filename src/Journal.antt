-- ===== src/Journal.antt =====
-- kernel/journal.c and kernel/journal.h: the write-ahead journal of file system metadata, on top of
-- kernel/block_dev.c. A disk maps the first sector of a block to its content: one of the structures
-- with a magic number, or any other bytes. What a driver cannot write or read is a fixed set of
-- sectors, and the device keeps a list of its writes, the last one first.
pub mod Disk
pub mod Recover
pub mod Inspect
pub mod Order
pub mod Place
pub mod Ahead
pub mod Log
pub mod Logged
pub mod Redo
pub mod Recovery
pub mod Durable
pub mod Room
pub mod Start
pub mod Tests
use aurora_os.Prelude.{
  ℕ, zero, suc, ◌+◌, ◌-◌, ◌*◌, ◌/◌, ◌%◌, ◌^◌, Bool, true, false, not, ◌&&◌, ◌||◌, Option, none,
  some, List, [], ◌∷◌, ◌++◌, length, get_or, ltb, leb, ◌==◌, if◌then◌else◌, min,
}
use aurora_os.Journal.Disk.{
  Superblock, Entry, Descriptor, Block, superblock, descriptor, commit_record, raw, zero_entry,
  block_checksum, superblock_checksum, header_checksum, commit_checksum, Device, Outcome, and_then,
  block_dev_write, block_dev_read,
}

-- `struct journal_handle`; the blocks of the open transaction are one list, of block number and data.
pub record Handle : Type 0 where
  pub block_size : ℕ
  pub sectors_per_block : ℕ
  pub journal_start : ℕ
  pub journal_blocks : ℕ
  pub head : ℕ
  pub tail : ℕ
  pub sequence : ℕ
  pub in_transaction : Bool
  pub txn : List (ℕ × Block)
  pub txn_capacity : ℕ
  pub dirty : Bool
  pub fs_total_blocks : ℕ

-- `g_journal`, `g_journal_initialized`, and the device behind them.
pub record Journal : Type 0 where
  pub handle : Handle
  pub initialized : Bool
  pub dev : Device

-- The answer of a call: 0, or a negative number.
pub data Answer : Type 0 where
  ok failed no_space read_only io_error : Answer

abbrev pub sector_of : Handle → ℕ → ℕ
sector_of h offset = (h.journal_start + offset) * h.sectors_per_block

unfoldable pub journal_write_block : Handle → ℕ → Block → Device → Outcome
journal_write_block h offset block dev =
    block_dev_write (sector_of h offset) h.sectors_per_block block dev

unfoldable pub journal_read_block : Handle → ℕ → Device → Option Block
journal_read_block h offset dev = block_dev_read (sector_of h offset) h.sectors_per_block dev

abbrev pub superblock_of : Handle → Superblock
superblock_of h =
    let fields : Superblock = record {
      block_size = h.block_size;
      start_block = h.journal_start;
      num_blocks = h.journal_blocks;
      head = h.head;
      tail = h.tail;
      sequence = h.sequence;
      flags = if h.dirty then 1 else 0;
      checksum = 0;
    } in
    record fields { checksum = superblock_checksum fields }

-- `mem_ok` says whether kmalloc has memory.
unfoldable pub write_jsb : Bool → Handle → Device → Outcome
write_jsb mem_ok h dev =
    if mem_ok then journal_write_block h 0 (superblock (superblock_of h)) dev else (dev, false)

abbrev pub sync_jsb : Bool → Journal → Journal
sync_jsb mem_ok j = record j { dev = (write_jsb mem_ok j.handle j.dev).0 }

abbrev pub free_handle : Handle → Handle
free_handle h = record h { txn = []; txn_capacity = 0; in_transaction = false }

abbrev pub free_transaction : Journal → Journal
free_transaction j = record j { handle = free_handle j.handle }

-- How far the tail moves over the oldest transaction.
abbrev pub skip_length : Option Block → ℕ
skip_length (some (descriptor d)) = 1 + d.num_blocks + 1
skip_length _ = 1

-- `while (g_journal.head >= g_journal.tail + usable)`: the tail moves by one at least.
unfoldable pub evict : ℕ → Handle → Device → Handle
evict zero h dev = h
evict (suc fuel) h dev =
    let rest =
      evict fuel (record h { tail = h.tail + skip_length (journal_read_block h h.tail dev) }) dev in
    if ltb h.head (h.tail + (h.journal_blocks - 1)) then h else rest

abbrev pub wrap_head : Handle → Handle
wrap_head h =
    if ltb h.head h.journal_blocks
    then h
    else if ltb h.tail h.journal_blocks
    then record h { head = h.head - h.journal_blocks }
    else record h { head = h.head - h.journal_blocks; tail = h.tail - h.journal_blocks }

unfoldable pub advance_head : Bool → ℕ → Journal → Journal
unfolding evict
advance_head mem_ok n j =
    let moved : Handle = record j.handle { head = j.handle.head + n } in
    let evicted = if mem_ok then evict (suc moved.head) moved j.dev else moved in
    sync_jsb mem_ok (record j { handle = wrap_head evicted })

-- How many entries fit behind the header of 36 bytes, at 20 bytes each.
abbrev pub desc_capacity : ℕ → ℕ
desc_capacity block_size = (block_size - 36) / 20

unfoldable pub journal_begin : Bool → ℕ → Journal → Answer × Journal
journal_begin mem_ok max_blocks j =
    let wanted = if max_blocks == 0 then 1 else max_blocks in
    if not j.initialized
    then (failed, j)
    else if j.handle.in_transaction
    then (failed, j)
    else if not mem_ok
    then (failed, j)
    else let opened : Handle = record j.handle {
      in_transaction = true;
      txn = [];
      txn_capacity = min wanted (desc_capacity j.handle.block_size);
    } in
      (ok, record j { handle = opened })

-- The block number is cut to 32 bits.
unfoldable pub journal_write : Bool → ℕ → Block → Journal → Answer × Journal
journal_write mem_ok fs_block content j =
    if not j.initialized || not j.handle.in_transaction
    then (failed, j)
    else if leb j.handle.txn_capacity (length j.handle.txn)
    then (failed, j)
    else if not mem_ok
    then (failed, j)
    else let grown : Handle = record j.handle {
      txn = j.handle.txn ++ (fs_block % 2 ^ 32, content) ∷ [];
    } in
      (ok, record j { handle = grown })

unfoldable pub journal_rollback : Journal → Answer × Journal
journal_rollback j =
    if not j.initialized || not j.handle.in_transaction
    then (failed, j)
    else (ok, free_transaction j)

abbrev pub block_entry : ℕ → ℕ × Block → Entry
block_entry size b = record { fs_block = b.0; checksum = block_checksum size (b.1) }

unfoldable pub entries_of : ℕ → List (ℕ × Block) → List Entry
entries_of size [] = []
entries_of size (b ∷ rest) = block_entry size b ∷ entries_of size rest

abbrev pub descriptor_of : ℕ → ℕ → List (ℕ × Block) → Descriptor
descriptor_of size seq txn =
    let fields : Descriptor = record {
      sequence = seq;
      num_blocks = length txn;
      checksum = 0;
      entries = entries_of size txn;
    } in
    record fields { checksum = header_checksum fields }

-- Phase 2, the data blocks one behind another.
unfoldable pub write_data : Handle → ℕ → List (ℕ × Block) → Device → Outcome
write_data h offset [] dev = (dev, true)
write_data h offset (b ∷ rest) dev =
    and_then (journal_write_block h offset (b.1) dev) (write_data h (offset + 1) rest)

-- Phase 4, the data blocks at their places. The sector is computed in 32 bits.
unfoldable pub checkpoint : Handle → List (ℕ × Block) → Device → Outcome
checkpoint h [] dev = (dev, true)
checkpoint h (b ∷ rest) dev =
    let sector = b.0 * h.sectors_per_block % 2 ^ 32 in
    and_then (block_dev_write sector h.sectors_per_block (b.1) dev) (checkpoint h rest)

abbrev pub write_descriptor : Handle → ℕ → Device → Outcome
write_descriptor h seq dev =
    journal_write_block h h.head (descriptor (descriptor_of h.block_size seq h.txn)) dev

abbrev pub write_commit : Handle → ℕ → Device → Outcome
write_commit h seq dev =
    journal_write_block h (h.head + 1 + length h.txn) (commit_record seq (commit_checksum seq)) dev

-- Phases 1 to 3, up to the first failure.
unfoldable pub write_log : Handle → ℕ → Device → Outcome
write_log h seq dev =
    and_then (write_descriptor h seq dev)
      λ d1. and_then (write_data h (h.head + 1) h.txn d1) (write_commit h seq)

abbrev pub write_phases : Handle → ℕ → Device → Outcome
write_phases h seq dev = and_then (write_log h seq dev) (checkpoint h h.txn)

-- Phase 5.
abbrev pub finish_commit : Bool → ℕ → Journal → Journal
finish_commit mem_ok blocks j =
    let advanced = advance_head mem_ok blocks j in
    let clean : Handle = record advanced.handle { dirty = false } in
    free_transaction (sync_jsb mem_ok (record advanced { handle = clean }))

abbrev pub commit_blocks : Bool → Journal → Answer × Journal
commit_blocks mem_ok j =
    let seq = j.handle.sequence in
    let numbered : Handle = record j.handle { sequence = (seq + 1) % 2 ^ 64 } in
    let dirty : Handle = record numbered { dirty = true } in
    let marked = sync_jsb mem_ok (record j { handle = dirty }) in
    let (dev, done) = write_phases dirty seq marked.dev in
    if not mem_ok
    then (failed, free_transaction (record j { handle = numbered }))
    else if done
    then (ok, finish_commit mem_ok (length dirty.txn + 2) (record marked { dev = dev }))
    else (failed, free_transaction (record marked { dev = dev }))

unfoldable pub journal_commit : Bool → Journal → Answer × Journal
unfolding write_jsb write_log checkpoint advance_head
journal_commit mem_ok j =
    if not j.initialized || not j.handle.in_transaction
    then (failed, j)
    else elim j.handle.txn [ [] ↦ (ok, free_transaction j) | _ ∷ _ ↦ commit_blocks mem_ok j ]
