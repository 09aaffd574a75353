-- ===== src/Journal/Recovery.antt =====
-- journal_recover of kernel/journal.c on a journal that has one transaction, with its commit record or
-- without it.
use aurora_os.Prelude.{ℕ, ◌+◌, ◌≡◌, true, false, length}
use aurora_os.Journal.Disk.{descriptor, Device, Outcome, and_then}
use aurora_os.Journal.{
  write_data, write_descriptor, Handle, Journal, sector_of, sync_jsb, descriptor_of,
}
use aurora_os.Journal.Log.{Works}
use aurora_os.Journal.Logged.{Logged}

-- The journal with one transaction between its tail and its head.
abbrev pub enclosing : Handle → Handle
enclosing h = record h { head = h.head + 1 + length h.txn + 1; tail = h.head }

-- What a recovery ends with: the pointers meet, and the superblock says that the journal is clean.
abbrev pub recovered : Handle → Device → Journal
recovered h dev =
    sync_jsb true
      (record { handle = record h { tail = h.head; dirty = false }; initialized = true; dev = dev })

-- Phases 1 and 2, without the commit record.
abbrev pub write_uncommitted : Handle → ℕ → Device → Outcome
write_uncommitted h seq dev =
    and_then (write_descriptor h seq dev) (write_data h (h.head + 1) h.txn)

-- What they leave at the two places that recovery looks at.
record Uncommitted (h : Handle) (seq : ℕ) (dev dev' : Device) : Type 0 where
  pub works : Works dev'
  pub total : dev'.total_sectors ≡ dev.total_sectors
  pub described : dev'.disk (sector_of h h.head) ≡ descriptor (descriptor_of h.block_size seq h.txn)
  pub unwritten :
      dev'.disk (sector_of h (h.head + 1 + length h.txn))
      ≡ dev.disk (sector_of h (h.head + 1 + length h.txn))
