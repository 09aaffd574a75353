-- ===== src/Journal/Durable.antt =====
-- What a successful journal_commit of kernel/journal.c leaves of the file system.
use aurora_os.Prelude.{ℕ, ◌≡◌, false}
use aurora_os.Journal.{Journal, Answer, ok}
use aurora_os.Journal.Logged.{Logged}
use aurora_os.Journal.Redo.{stored}

-- What a commit answers, what it leaves in a sector, and that no transaction is open behind it.
pub record Stored (j : Journal) (sector : ℕ) (r : Answer × Journal) : Type 0 where
  pub answered : r.0 ≡ ok
  pub at_home :
      r.1.dev.disk sector ≡ (stored j.handle.sectors_per_block j.handle.txn j.dev).disk sector
  pub closed : r.1.handle.in_transaction ≡ false
