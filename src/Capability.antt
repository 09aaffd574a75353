-- ===== src/Capability.antt =====
-- kernel/capability.c: rights on file descriptors. A slot of the descriptor table is free, holds the
-- pointer to a file that fd_alloc of kernel/file.c has put there, or the pointer to a cap_entry; the
-- magic number of the entry tells the two apart. Files are numbers, and `refs` has the reference count
-- of each, which is what vfs_close and vfs_file_dup of kernel/vfs.c change. Log output is left out.
pub mod Alloc
pub mod Rights
pub mod Transfer
pub mod Tests
use aurora_os.Prelude.{
  ℕ, zero, suc, ◌+◌, ◌-◌, ◌^◌, Bool, true, false, not, ◌&&◌, ◌||◌, Option, none, some, List, [],
  ◌∷◌, set, get_or, bit_and, bit_or, ltb, leb, ◌==◌, if◌then◌else◌,
}
use aurora_os.Sched.{TaskState, zombie, dead}

abbrev pub max_fds : ℕ
max_fds = 16

abbrev pub cap_send : ℕ
cap_send = 2 ^ 3

-- `struct cap_entry`, less the magic number.
pub record CapEntry : Type 0 where
  pub file : ℕ
  pub caps : ℕ

pub data Slot : Type 0 where
  free : Slot
  raw : ℕ → Slot
  cap : CapEntry → Slot

pub record Task : Type 0 where
  pub pid : ℕ
  pub state : TaskState
  pub fd_table : List Slot
  pub children : List ℕ

abbrev pub entry_of : Slot → Option CapEntry
entry_of (cap entry) = some entry
entry_of _ = none

-- The number of a negative descriptor is far above the end of the table.
unfoldable pub cap_get : Task → ℕ → Option CapEntry
cap_get t fd = if leb max_fds fd then none else entry_of (get_or t.fd_table fd free)

-- The union of the rights in the table.
unfoldable pub held_caps : List Slot → ℕ
held_caps [] = 0
held_caps (free ∷ rest) = held_caps rest
held_caps (raw _ ∷ rest) = held_caps rest
held_caps (cap entry ∷ rest) = bit_or entry.caps (held_caps rest)

-- `~x`, on 32 bits.
abbrev pub complement : ℕ → ℕ
complement x = 2 ^ 32 - 1 - x

-- The loop that fills the first free slot: the descriptor, and the table after it.
unfoldable pub fill_first : Slot → List Slot → Option (ℕ × List Slot)
fill_first slot [] = none
fill_first slot (free ∷ rest) = some (0, slot ∷ rest)
fill_first slot (raw file ∷ rest) = elim (fill_first slot rest) [
  | none ↦ none
  | some (fd, table) ↦ some (suc fd, raw file ∷ table)
]
fill_first slot (cap entry ∷ rest) = elim (fill_first slot rest) [
  | none ↦ none
  | some (fd, table) ↦ some (suc fd, cap entry ∷ table)
]

-- `mem_ok` says whether `kmalloc` gives the entry its memory.
unfoldable pub cap_fd_alloc : Bool → Task → ℕ → ℕ → Option (ℕ × Task)
cap_fd_alloc mem_ok t filp caps =
    if not (t.pid == 1) && not (bit_and caps (complement (held_caps t.fd_table)) == 0)
    then none
    else if not mem_ok
    then none
    else elim (fill_first (cap (record { file = filp; caps = caps })) t.fd_table) [
      | none ↦ none
      | some (fd, table) ↦ some (fd, record t { fd_table = table })
    ]

unfoldable pub cap_fd_get_file : Task → ℕ → Option ℕ
unfolding cap_get
cap_fd_get_file t fd = elim (cap_get t fd) [ none ↦ none | some entry ↦ some entry.file ]

abbrev pub Refs : Type 0
Refs = ℕ → ℕ

unfoldable pub vfs_close : ℕ → Refs → Refs
vfs_close file refs f = if f == file then refs f - 1 else refs f

unfoldable pub vfs_file_dup : ℕ → Refs → Refs
vfs_file_dup file refs f = if f == file && not (refs f == 0) then refs f + 1 else refs f

-- The answer is 0 for `true` and -1 for `false`.
unfoldable pub cap_fd_close : Task → ℕ → Refs → Bool × Task × Refs
cap_fd_close t fd refs = elim (cap_get t fd) [
  | none ↦ (false, t, refs)
  | some entry ↦ (true, record t { fd_table = set t.fd_table fd free }, vfs_close entry.file refs)
]

-- The loop of cap_fd_close_all.
unfoldable pub close_slots : List Slot → Refs → List Slot × Refs
close_slots [] refs = ([], refs)
close_slots (cap entry ∷ rest) refs =
    let (table, refs') = close_slots rest (vfs_close entry.file refs) in (free ∷ table, refs')
close_slots (slot ∷ rest) refs = let (table, refs') = close_slots rest refs in (slot ∷ table, refs')

unfoldable pub cap_fd_close_all : Task → Refs → Task × Refs
cap_fd_close_all t refs =
    let (table, refs') = close_slots t.fd_table refs in (record t { fd_table = table }, refs')

unfoldable pub fd_check_cap : Task → ℕ → ℕ → Bool
fd_check_cap t fd required = elim (cap_get t fd) [
  | none ↦ false
  | some entry ↦ bit_and entry.caps required == required
]

-- The new descriptor, if there is one, with the task and the reference counts after the call.
unfoldable pub fd_derive : Bool → Task → ℕ → ℕ → Refs → Option ℕ × Task × Refs
fd_derive mem_ok t old_fd new_caps refs = elim (cap_get t old_fd) [
  | none ↦ (none, t, refs)
  | some entry ↦
      if not (bit_and new_caps (complement entry.caps) == 0)
      then (none, t, refs)
      else elim (cap_fd_alloc mem_ok t entry.file new_caps) [
        | none ↦ (none, t, vfs_close entry.file (vfs_file_dup entry.file refs))
        | some (fd, t') ↦ (some fd, t', vfs_file_dup entry.file refs)
      ]
]

abbrev pub is_gone : TaskState → Bool
is_gone zombie = true
is_gone dead = true
is_gone _ = false

abbrev pub is_child : ℕ → List ℕ → Bool
is_child pid [] = false
is_child pid (c ∷ rest) = c == pid || is_child pid rest

-- `target` is the answer of task_get_by_pid. A transfer gives the two tasks after it; `none` is -1,
-- which leaves both as they are.
unfoldable pub fd_send : Bool → Task → ℕ → ℕ → Option Task → Option (Task × Task)
fd_send mem_ok sender fd target_pid none = none
fd_send mem_ok sender fd target_pid (some target) = elim (cap_get sender fd) [
  | none ↦ none
  | some entry ↦
      if bit_and entry.caps cap_send == 0
      then none
      else if target_pid == sender.pid
      then none
      else if is_gone target.state
      then none
      else if not (sender.pid == 1) && not (is_child target_pid sender.children)
      then none
      else elim (cap_fd_alloc mem_ok target entry.file entry.caps) [
        | none ↦ none
        | some (new_fd, target') ↦
            some (record sender { fd_table = set sender.fd_table fd free }, target')
      ]
]
