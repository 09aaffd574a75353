-- ===== src/Capability/Transfer.antt =====
-- fd_send of kernel/capability.c: what the transfer of a descriptor gives.
use aurora_os.Prelude.{ℕ, ◌≡◌, Bool, false, some, bit_and, ◌==◌, set}
use aurora_os.Capability.{free, Task, CapEntry, cap_fd_alloc, cap_get, cap_send}

-- What a transfer has gone through.
record Sent (mem_ok : Bool) (sender target : Task) (fd : ℕ) (after : Task × Task) : Type 0 where
  entry : CapEntry
  found : cap_get sender fd ≡ some entry
  sendable : (bit_and entry.caps cap_send == 0) ≡ false
  new_fd : ℕ
  allocated : cap_fd_alloc mem_ok target entry.file entry.caps ≡ some (new_fd, after.1)
  sender_after : after.0 ≡ record sender { fd_table = set sender.fd_table fd free }
