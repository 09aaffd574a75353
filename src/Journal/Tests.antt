-- ===== src/Journal/Tests.antt =====
-- The journal on small inputs.
use aurora_os.Prelude.{
  ℕ, ◌+◌, ◌*◌, ◌≤◌, ◌≡◌, refl, Bool, true, false, none, some, List, [], ◌∷◌, ◌==◌, length,
  if◌then◌else◌, arith,
}
use aurora_os.Journal.Disk.{
  Superblock, Descriptor, Block, superblock, raw, Device, block_dev_read, block_dev_write,
  header_checksum,
}
use aurora_os.Journal.{
  Handle, Journal, ok, journal_read_block, write_jsb, superblock_of, write_log, descriptor_of,
  wrap_head, write_data, journal_write_block, journal_begin, journal_write, journal_commit,
}
use aurora_os.Journal.Recover.{Request, fresh_handle, journal_init}
use aurora_os.Journal.Inspect.{
  journal_get_stats, checksum_error, validated_checksum, journal_validate_transaction,
}
use aurora_os.Journal.Order.{area_of, in_area, guarded}
use aurora_os.Journal.Ahead.{journal_commit-guarded}
use aurora_os.Journal.Log.{Works}
use aurora_os.Journal.Room.{History, opened, begun, wrote, descriptor_fits}
use aurora_os.Journal.Start.{
  Refused, resting, superblock_of_sound, journal_init-Refused, journal_init-write_jsb,
}

abbrev empty_dev : Device
empty_dev = record {
  total_sectors = 200;
  can_write = λ s. true;
  can_read = λ s. true;
  disk = λ s. raw [];
  log = [];
}

abbrev target : Request
target = record {
  journal_start = 100;
  journal_blocks = 16;
  block_size = 512;
  sectors_per_block = 1;
  fs_total_blocks = 100;
  is_writable = true;
}

abbrev two_blocks : List (ℕ × Block)
two_blocks = (5, raw (1 ∷ [])) ∷ (7, raw (2 ∷ [])) ∷ []

-- A transaction of two blocks at offset 1.
abbrev filled : Handle
filled =
    let h = resting target 1 1 1 in
    record h { in_transaction = true; txn = two_blocks; txn_capacity = 8 }

abbrev running : Journal
running = record { handle = filled; initialized = true; dev = empty_dev }

empty_dev-Works : Works empty_dev
empty_dev-Works = record { writes = λ s. refl; reads = λ s. refl }

journal_commit-guarded_example :
    guarded (area_of filled) 1 (journal_commit true running).1.dev.log ≡ true
journal_commit-guarded_example = journal_commit-guarded true running refl (omega arith)

abbrev not_started : Journal
not_started = record { handle = fresh_handle target; initialized = false; dev = empty_dev }

new-History : History (journal_init true target not_started).1
unfolding journal_init journal_read_block journal_write_block block_dev_write block_dev_read
new-History = opened true target not_started refl

abbrev begun_journal : Journal
begun_journal = (journal_begin true 4 (journal_init true target not_started).1).1

descriptor_fits_example :
    36 + 20 * length (journal_write true 5 (raw (1 ∷ [])) begun_journal).1.handle.txn
    ≤ (journal_write true 5 (raw (1 ∷ [])) begun_journal).1.handle.block_size
descriptor_fits_example = descriptor_fits (journal_write true 5 (raw (1 ∷ [])) begun_journal).1 (
    wrote true 5 (raw (1 ∷ [])) begun_journal
      (begun true 4 (journal_init true target not_started).1 new-History))

abbrev dirty_superblock : Superblock
dirty_superblock = let h = filled in superblock_of (record h { dirty = true })

abbrev dirty_dev : Device
dirty_dev = record {
  total_sectors = 200;
  can_write = λ s. true;
  can_read = λ s. true;
  disk = λ s. if s == 100 then superblock dirty_superblock else raw [];
  log = [];
}

abbrev after_crash : Journal
after_crash = record { handle = fresh_handle target; initialized = false; dev = dirty_dev }

dirty_dev-read :
    journal_read_block (fresh_handle target) 0 dirty_dev ≡ some (superblock dirty_superblock)
unfolding journal_read_block block_dev_read
dirty_dev-read = refl

journal_init-Refused_example : Refused dirty_dev (journal_init true target after_crash)
journal_init-Refused_example =
    journal_init-Refused true target after_crash dirty_superblock refl dirty_dev-read
      (superblock_of_sound (record filled { dirty = true })) refl

journal_init-write_jsb_example :
    journal_init true target (record {
      handle = fresh_handle target;
      initialized = false;
      dev = (write_jsb true (resting target 9 3 4) empty_dev).0;
    })
    ≡ (
      ok,
      record {
        handle = resting target 9 3 4;
        initialized = true;
        dev = (write_jsb true (resting target 9 3 4) empty_dev).0;
      },
    )
journal_init-write_jsb_example =
    journal_init-write_jsb target 9 3 4 not_started empty_dev-Works
      (record { some_sectors = omega arith; within = omega arith }) (omega arith) (omega arith)
      (omega arith) refl

-- The transaction at the end of the journal: its last two blocks go to the sectors behind the journal.
abbrev at_end : Handle
at_end = record filled { head = 14 }

abbrev places : List (ℕ × Block) → List Bool
places [] = []
places (w ∷ older) = in_area (area_of filled) (w.0) ∷ places older

at_end-places : places (write_log at_end 1 empty_dev).0.log ≡ false ∷ false ∷ true ∷ true ∷ []
unfolding write_log write_data journal_write_block block_dev_write
at_end-places = refl

-- The head wraps to offset 0, where the superblock is.
at_end-wraps : (wrap_head (record filled { head = 16; tail = 9 })).head ≡ 0
at_end-wraps = refl

-- A header that was written by a commit has a checksum that its validation refuses.
abbrev header : Descriptor
header = descriptor_of 512 1 two_blocks

header-refused : (validated_checksum header == header.checksum) ≡ false
unfolding validated_checksum header_checksum
header-refused = refl

running_stats :
    journal_get_stats running
    ≡ record { total_blocks = 16; used_blocks = 0; num_transactions = 0; dirty = false }
unfolding journal_get_stats
running_stats = refl

running-valid : journal_validate_transaction true running (some header) none 2 ≡ checksum_error
unfolding journal_validate_transaction header_checksum
running-valid = refl
