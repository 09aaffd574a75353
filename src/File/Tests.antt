-- ===== src/File/Tests.antt =====
-- Runs of kernel/file.c.
use aurora_os.Prelude.{◌≡◌, refl, some, [], ◌∷◌, replicate}
use aurora_os.Sched.{running}
use aurora_os.Capability.{Task, free, raw, cap, fill_first}
use aurora_os.File.{fd_alloc, closing, unix_close, vfs_close}

abbrev before : Task
before = record {
  pid = 4;
  state = running;
  fd_table = raw 2 ∷ cap (record { file = 5; caps = 1 }) ∷ replicate 14 free;
  children = [];
}

abbrev after : Task
after = record before {
  fd_table = raw 2 ∷ cap (record { file = 5; caps = 1 }) ∷ raw 9 ∷ replicate 13 free;
}

opened : fd_alloc before 9 ≡ some (2, after)
unfolding fd_alloc fill_first
opened = refl

-- An even address is taken for a socket, and an odd one for a file.
closings : closing (raw 8) ∷ closing (raw 9) ∷ [] ≡ unix_close (raw 8) ∷ vfs_close (raw 9) ∷ []
closings = refl
