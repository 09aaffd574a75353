-- ===== src/File.antt =====
-- kernel/file.c: the descriptors that lead straight to a file. They share the table with those of
-- kernel/capability.c. A file is a number; that the pointer of a file is none of a cap_entry is
-- the difference of the two kinds of slots.
pub mod Descriptors
pub mod Tests
use aurora_os.Prelude.{
  ℕ, zero, suc, ◌%◌, Bool, true, false, not, ◌&&◌, Option, none, some, List, [], ◌∷◌, get_or, set,
  replicate, leb, ◌==◌, if◌then◌else◌,
}
use aurora_os.Capability.{Slot, free, raw, cap, Task, max_fds, fill_first}

pub fd_table_init : Task → Task
fd_table_init t = record t { fd_table = replicate 16 free }

unfoldable pub fd_alloc : Task → ℕ → Option (ℕ × Task)
fd_alloc t filp = elim (fill_first (raw filp) t.fd_table) [
  | none ↦ none
  | some (fd, table) ↦ some (fd, record t { fd_table = table })
]

abbrev pub file_of : Slot → Option ℕ
file_of (raw file) = some file
file_of _ = none

unfoldable pub fd_get : Task → ℕ → Option ℕ
fd_get t fd = if leb max_fds fd then none else file_of (get_or t.fd_table fd free)

-- Which function fd_close hands a slot to. An address that is even and neither 0 nor all ones is taken
-- for a unix socket, and the entries of capabilities come from kmalloc, at even addresses.
pub data Closing : Type 0 where
  unix_close vfs_close : Slot → Closing

abbrev pub is_even : ℕ → Bool
is_even file = file % 2 == 0

abbrev pub closing : Slot → Closing
closing (raw file) =
    if not (file == 0) && is_even file then unix_close (raw file) else vfs_close (raw file)
closing slot = unix_close slot

abbrev pub slot_is_free : Slot → Bool
slot_is_free free = true
slot_is_free _ = false

-- The task after it, and the call that it makes; what that call does to the object is not part of this.
unfoldable pub fd_close : Task → ℕ → Option (Closing × Task)
fd_close t fd =
    let slot = get_or t.fd_table fd free in
    if leb max_fds fd
    then none
    else if slot_is_free slot
    then none
    else some (closing slot, record t { fd_table = set t.fd_table fd free })
