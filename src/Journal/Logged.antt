-- ===== src/Journal/Logged.antt =====
-- What the write of a whole transaction to the journal leaves, in journal_commit of kernel/journal.c.
use aurora_os.Prelude.{ℕ, ◌+◌, ◌≤◌, ◌<◌, ◌≡◌, refl, ap, ◌∙◌, true, length, arith, ==_refl}
use aurora_os.Journal.Disk.{
  Block, descriptor, commit_record, Device, Outcome, written, commit_checksum,
}
use aurora_os.Journal.{Handle, sector_of, write_data, write_log, descriptor_of}
use aurora_os.Journal.Log.{
  Works, Lies, Wrote, HoldsData, DataWritten, journal_write_done, written-Wrote, Wrote-chain,
  sector-distinct, HoldsData-kept, write_data-DataWritten,
}

-- The transaction lies at the head of the journal: descriptor, data, commit record.
pub record Recorded (h : Handle) (seq : ℕ) (disk : ℕ → Block) : Type 0 where
  pub described : disk (sector_of h h.head) ≡ descriptor (descriptor_of h.block_size seq h.txn)
  pub holds : HoldsData h (h.head + 1) h.txn disk
  pub committed :
      disk (sector_of h (h.head + 1 + length h.txn)) ≡ commit_record seq (commit_checksum seq)

pub record Logged (h : Handle) (seq : ℕ) (dev : Device) (o : Outcome) : Type 0 where
  pub done : o.1 ≡ true
  pub wrote : Wrote h h.head (h.head + 1 + length h.txn + 1) dev o.0
  pub recorded : Recorded h seq o.0.disk

pub Lies-kept :
    (h : Handle) (dev dev' : Device)
    → dev'.total_sectors ≡ dev.total_sectors
    → Lies h dev
    → Lies h dev'
Lies-kept h dev dev' same lies = record {
  some_sectors = lies.some_sectors;
  within = rw same lies.within;
}

commit-Logged :
    (h : Handle) (seq : ℕ) (dev first d2 : Device)
    → 0 < h.sectors_per_block
    → Works d2
    → first ≡ written (sector_of h h.head) (descriptor (descriptor_of h.block_size seq h.txn)) dev
    → Wrote h h.head (h.head + 1) dev first
    → Wrote h (h.head + 1) (h.head + 1 + length h.txn) first d2
    → HoldsData h (h.head + 1) h.txn d2.disk
    → Logged h seq dev (
      written
          (sector_of h (h.head + 1 + length h.txn))
          (commit_record seq (commit_checksum seq))
          d2,
      true,
    )
commit-Logged h seq dev first d2 positive works is_first described data_wrote holds = record {
  done = refl;
  wrote =
      Wrote-chain h h.head (h.head + 1 + length h.txn) (h.head + 1 + length h.txn + 1) dev d2 d3
        (omega arith) (omega arith)
        (Wrote-chain h h.head (h.head + 1) (h.head + 1 + length h.txn) dev first d2 (omega arith)
          (omega arith) described data_wrote)
        last;
  recorded = record {
    described = at_head;
    holds =
        HoldsData-kept h (h.head + 1) offset (offset + 1) h.txn d2 d3 positive (omega arith) last
          holds;
    committed = rw (==_refl (sector_of h offset)) refl;
  };
}
  where
    offset : ℕ
    offset = h.head + 1 + length h.txn

    d3 : Device
    d3 = written (sector_of h offset) (commit_record seq (commit_checksum seq)) d2

    last : Wrote h offset (offset + 1) d2 d3
    last = written-Wrote h offset (commit_record seq (commit_checksum seq)) d2 works

    at_first : first.disk (sector_of h h.head) ≡ descriptor (descriptor_of h.block_size seq h.txn)
    at_first =
        ap (λ d. d.disk (sector_of h h.head)) is_first ∙ rw (==_refl (sector_of h h.head)) refl

    at_head : d3.disk (sector_of h h.head) ≡ descriptor (descriptor_of h.block_size seq h.txn)
    at_head =
        last.kept (sector_of h h.head)
          (λ k l u. sector-distinct h h.head k positive (omega (arith, l)))
        ∙ data_wrote.kept (sector_of h h.head)
            (λ k l u. sector-distinct h h.head k positive (omega (arith, l)))
        ∙ at_first

pub write_log-Logged :
    (h : Handle) (seq : ℕ) (dev : Device)
    → Works dev
    → Lies h dev
    → h.head + length h.txn + 2 ≤ h.journal_blocks
    → Logged h seq dev (write_log h seq dev)
unfolding write_log
write_log-Logged h seq dev works lies fits =
    rw (journal_write_done h h.head content dev works lies (omega arith)) (
      rw content_written.done (
        rw
          (journal_write_done h (h.head + 1 + length h.txn) _ d2 content_written.wrote.works
            (Lies-kept h dev d2 content_written.wrote.total lies) (omega arith))
          (commit-Logged h seq dev first d2 lies.some_sectors content_written.wrote.works refl
            described content_written.wrote content_written.holds)))
  where
    content : Block
    content = descriptor (descriptor_of h.block_size seq h.txn)

    first : Device
    first = written (sector_of h h.head) content dev

    described : Wrote h h.head (h.head + 1) dev first
    described = written-Wrote h h.head content dev works

    d2 : Device
    d2 = (write_data h (h.head + 1) h.txn first).0

    content_written : DataWritten h (h.head + 1) h.txn first (write_data h (h.head + 1) h.txn first)
    content_written =
        write_data-DataWritten h (h.head + 1) h.txn first described.works
          (Lies-kept h dev first described.total lies) (omega arith)
