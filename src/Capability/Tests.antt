-- ===== src/Capability/Tests.antt =====
-- Runs of kernel/capability.c, and the theorems at them.
use aurora_os.Prelude.{◌≡◌, refl, true, false, some, List, [], ◌∷◌, replicate}
use aurora_os.Sched.{running, ready}
use aurora_os.Capability.{free, raw, cap, Task, cap_fd_get_file, fd_check_cap}
use aurora_os.Capability.Rights.{Request, alloc, derive, close, close_all}

-- Descriptor 1 may be read and sent on; descriptor 0 is a plain file.
abbrev shell : Task
shell = record {
  pid = 7;
  state = running;
  fd_table = raw 3 ∷ cap (record { file = 5; caps = 9 }) ∷ replicate 14 free;
  children = 8 ∷ [];
}

abbrev child : Task
child = record { pid = 8; state = ready; fd_table = replicate 16 free; children = [] }

abbrev reader : Task
reader = record child { fd_table = cap (record { file = 6; caps = 9 }) ∷ replicate 15 free }

checks :
    (cap_fd_get_file shell 1 ≡ some 5)
    × (fd_check_cap shell 1 2 ≡ false)
    × (fd_check_cap shell 0 1 ≡ false)
unfolding cap_fd_get_file fd_check_cap
checks = (refl, refl, refl)

abbrev requests : List Request
requests = derive true 1 1 ∷ alloc true 6 63 ∷ close 1 ∷ close_all ∷ []

abbrev shell_after : Task
shell_after = record shell { fd_table = raw 3 ∷ replicate 15 free }

abbrev reader_after : Task
reader_after = record reader {
  fd_table =
      cap (record { file = 6; caps = 9 }) ∷ cap (record { file = 5; caps = 9 }) ∷ replicate 14 free;
}
