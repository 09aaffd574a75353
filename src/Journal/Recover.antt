-- ===== src/Journal/Recover.antt =====
-- journal_recover and journal_init of kernel/journal.c.
use aurora_os.Prelude.{
  ℕ, zero, suc, ◌+◌, ◌-◌, ◌*◌, ◌/◌, Bool, true, false, not, ◌&&◌, ◌||◌, Option, none, some, List,
  [], get_or, ltb, leb, ◌==◌, if◌then◌else◌,
}
use aurora_os.Journal.Disk.{
  Superblock, Entry, Descriptor, Block, superblock, descriptor, commit_record, zero_entry,
  block_checksum, superblock_checksum, Device, block_dev_write,
}
use aurora_os.Journal.{
  Handle, Journal, Answer, ok, failed, no_space, read_only, io_error, journal_read_block, write_jsb,
  sync_jsb,
}

abbrev pub out_of_fs : Handle → ℕ → Bool
out_of_fs h fs_block = ltb 0 h.fs_total_blocks && leb h.fs_total_blocks fs_block

abbrev pub replay_block : Handle → Entry → Block → Device → Device
replay_block h e content dev =
    if block_checksum h.block_size content == e.checksum
    then (block_dev_write (e.fs_block * h.sectors_per_block) h.sectors_per_block content dev).0
    else dev

-- One data block: the entry, and the offset at which the journal has its content.
abbrev pub replay_entry : Handle → Entry → ℕ → Device → Device
replay_entry h e offset dev =
    if out_of_fs h e.fs_block then dev else elim (journal_read_block h offset dev) [
      | none ↦ dev
      | some content ↦ replay_block h e content dev
    ]

unfoldable pub replay : Handle → List Entry → ℕ → ℕ → ℕ → Device → Device
replay h entries zero i pos dev = dev
replay h entries (suc more) i pos dev =
    replay h entries more (i + 1) pos
      (replay_entry h (get_or entries i zero_entry) (pos + 1 + i) dev)

-- The read of the commit record goes into the buffer that holds the descriptor, so that the two
-- sequence numbers that are compared are the same bytes: only the magic number counts.
abbrev pub is_commit : Option Block → Bool
is_commit (some (commit_record seq checksum)) = true
is_commit _ = false

abbrev pub is_unreadable : Option Block → Bool
is_unreadable none = true
is_unreadable _ = false

-- The position behind the transaction, and the device after its replay.
abbrev pub recover_transaction : Handle → ℕ → Descriptor → Device → Device
recover_transaction h pos d dev =
    let commit_pos = pos + 1 + d.num_blocks in
    if is_commit (journal_read_block h commit_pos dev)
    then replay h d.entries d.num_blocks 0 pos dev
    else dev

-- `while (pos < end)`; the position moves by one at least.
unfoldable pub scan : ℕ → Handle → ℕ → Device → Device
scan zero h pos dev = dev
scan (suc fuel) h pos dev = if leb h.head pos then dev else elim (journal_read_block h pos dev) [
  | none ↦ dev
  | some (descriptor d) ↦
      let commit_pos = pos + 1 + d.num_blocks in
      let rest = scan fuel h (commit_pos + 1) (recover_transaction h pos d dev) in
      if leb h.head commit_pos
      then dev
      else if is_unreadable (journal_read_block h commit_pos dev)
      then dev
      else rest
  | some _ ↦ scan fuel h (pos + 1) dev
]

unfoldable pub journal_recover : Bool → Journal → Answer × Journal
unfolding scan replay
journal_recover mem_ok j =
    if not j.initialized
    then (failed, j)
    else if not mem_ok
    then (failed, j)
    else let h = j.handle in
      let replayed = scan (h.head - h.tail) h h.tail j.dev in
      let clean : Handle = record h { tail = h.head; dirty = false } in
      (ok, sync_jsb mem_ok (record { handle = clean; initialized = true; dev = replayed }))

-- What journal_init is given.
pub record Request : Type 0 where
  pub journal_start : ℕ
  pub journal_blocks : ℕ
  pub block_size : ℕ
  pub sectors_per_block : ℕ
  pub fs_total_blocks : ℕ
  pub is_writable : Bool

abbrev pub fresh_handle : Request → Handle
fresh_handle t = record {
  block_size = t.block_size;
  sectors_per_block = t.sectors_per_block;
  journal_start = t.journal_start;
  journal_blocks = t.journal_blocks;
  head = 0;
  tail = 0;
  sequence = 0;
  in_transaction = false;
  txn = [];
  txn_capacity = 0;
  dirty = false;
  fs_total_blocks = t.fs_total_blocks;
}

abbrev pub load_handle : Handle → Superblock → Handle
load_handle h sb = record h {
  head = sb.head;
  tail = sb.tail;
  sequence = sb.sequence;
  dirty = not (sb.flags == 0);
}

-- An existing journal. The flag that the journal is initialized is set after recovery only.
abbrev pub open_journal : Bool → Superblock → Journal → Answer × Journal
open_journal mem_ok sb j =
    let opened : Journal = record j { handle = load_handle j.handle sb } in
    let forced : Handle = record opened.handle { dirty = false } in
    let (answer, recovered) = journal_recover mem_ok opened in
    if not (sb.checksum == superblock_checksum sb)
    then (ok, record (sync_jsb mem_ok (record opened { handle = forced })) { initialized = true })
    else if not opened.handle.dirty
    then (ok, record opened { initialized = true })
    else elim answer [
      | ok ↦ (ok, record recovered { initialized = true })
      | _ ↦ (failed, recovered)
    ]

abbrev pub create_journal : Bool → Journal → Answer × Journal
create_journal mem_ok j =
    let first : Handle = record j.handle { head = 1; tail = 1; sequence = 1; dirty = false } in
    let (dev, done) = write_jsb mem_ok first j.dev in
    if done
    then (ok, record { handle = first; initialized = true; dev = dev })
    else (io_error, record j { handle = first; dev = dev })

abbrev pub open_or_create : Bool → Journal → Option Block → Answer × Journal
open_or_create mem_ok j (some (superblock sb)) = open_journal mem_ok sb j
open_or_create mem_ok j _ = create_journal mem_ok j

-- With the sizes tested as the code tests them; `initialized` is what it was before the call.
unfoldable pub journal_init : Bool → Request → Journal → Answer × Journal
unfolding journal_recover write_jsb
journal_init mem_ok t j =
    let fresh : Journal = record j { handle = fresh_handle t } in
    if ltb t.journal_blocks 8 || ltb t.block_size 512
    then (failed, j)
    else if ltb (j.dev.total_sectors / t.sectors_per_block) 128
    then (no_space, j)
    else if not t.is_writable
    then (read_only, j)
    else if not mem_ok
    then (failed, fresh)
    else open_or_create mem_ok fresh (journal_read_block fresh.handle 0 j.dev)
