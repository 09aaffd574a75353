-- ===== src/Seccomp.antt =====
-- kernel/seccomp.c and kernel/seccomp.h: the filter of a task, installed once, and the check of a
-- system call against it. The interpreter of BPF programs is Seccomp/Bpf. The spinlock makes
-- each of the two operations one step, so it has no field here; log output is left out.
pub mod Bpf
pub mod Policy
pub mod Layout
pub mod Tests
use aurora_os.Prelude.{
  ℕ, zero, suc, ◌+◌, ◌*◌, ◌/◌, ◌%◌, ◌^◌, Bool, true, false, not, ◌&&◌, ◌||◌, Option, none, some,
  List, [], ◌∷◌, ◌++◌, get_or, bit_and, ltb, leb, ◌==◌, if◌then◌else◌,
}
use aurora_os.Seccomp.Bpf.{SockFilter, allow, seccomp_run_bpf}

-- `struct seccomp_data`
pub record SeccompData : Type 0 where
  pub nr : ℕ
  pub arch : ℕ
  pub instruction_pointer : ℕ
  pub args : List ℕ

-- A number of `k` bytes as they lie in memory, lowest first.
unfoldable pub to_bytes : ℕ → ℕ → List ℕ
to_bytes zero v = []
to_bytes (suc k) v = v % 2 ^ 8 ∷ to_bytes k (v / 2 ^ 8)

unfoldable pub words_to_bytes : List ℕ → List ℕ
unfolding to_bytes
words_to_bytes [] = []
words_to_bytes (w ∷ ws) = to_bytes 8 w ++ words_to_bytes ws

-- The 64 bytes of the structure: `int`, `uint32_t`, `uint64_t`, and six `uint64_t`.
unfoldable pub data_bytes : SeccompData → List ℕ
unfolding words_to_bytes to_bytes
data_bytes d =
    to_bytes 4 d.nr
    ++ (to_bytes 4 d.arch ++ (to_bytes 8 d.instruction_pointer ++ words_to_bytes d.args))

abbrev pub audit_arch_x86_64 : ℕ
audit_arch_x86_64 = 0xc000003e

abbrev pub seccomp_max_bpf_len : ℕ
seccomp_max_bpf_len = 4096

-- `struct seccomp_filter`; the array `bpf_prog` as a list.
pub record SeccompFilter : Type 0 where
  pub syscall_mask : List ℕ
  pub bpf_len : ℕ
  pub bpf_prog : List SockFilter

-- The part of `struct task_struct` that seccomp owns.
pub record Task : Type 0 where
  pub seccomp : Option SeccompFilter

pub data Status : Type 0 where
  ok refused eacces : Status

-- seccomp_set_filter(task, filter); `none` for a NULL task and a NULL filter. `mem_ok` says
-- whether `kmalloc` gives the copy its memory.
pub seccomp_set_filter : Bool → Option Task → Option SeccompFilter → Status × Option Task
seccomp_set_filter mem_ok none filter = (refused, none)
seccomp_set_filter mem_ok (some task) none = elim task.seccomp [
  | some installed ↦ (refused, some task)
  | none ↦ (ok, some task)
]
seccomp_set_filter mem_ok (some task) (some filter) = elim task.seccomp [
  | some installed ↦ (eacces, some task)
  | none ↦
      if ltb seccomp_max_bpf_len filter.bpf_len
      then (refused, some task)
      else if mem_ok
      then (ok, some (record task { seccomp = some filter }))
      else (refused, some task)
]

-- Phase 1 of seccomp_check: `filter->syscall_mask[nr / 64] & (1ULL << (nr % 64))`.
unfoldable pub bitmap_allows : SeccompFilter → ℕ → Bool
bitmap_allows filter nr =
    not (bit_and (get_or filter.syscall_mask (nr / 64) 0) (2 ^ (nr % 64)) == 0)

-- Phase 2: the BPF program, if there is one and the arguments are given. `none` says that the
-- program has not ended within `fuel` rounds.
unfoldable pub bpf_allows : ℕ → SeccompFilter → ℕ → Option (List ℕ) → Option Bool
unfolding data_bytes
bpf_allows fuel filter nr none = some true
bpf_allows fuel filter nr (some args) =
    let call =
      data_bytes
        (record { nr = nr; arch = audit_arch_x86_64; instruction_pointer = 0; args = args }) in
    if ltb 0 filter.bpf_len
    then elim (seccomp_run_bpf fuel filter.bpf_prog filter.bpf_len (some call)) [
      | none ↦ none
      | some v ↦ some (elim v [ allow ↦ true | _ ↦ false ])
    ]
    else some true

-- seccomp_check(task, syscall_num, args): `true` for 0, `false` for -1. The `int` of the number is
-- its bit pattern, so a negative one is at least 2^31. `args` is `none` for NULL.
unfoldable pub seccomp_check : ℕ → Option Task → ℕ → Option (List ℕ) → Option Bool
seccomp_check fuel none nr args = some true
seccomp_check fuel (some task) nr args = elim task.seccomp [
  | none ↦ some true
  | some filter ↦
      if leb (2 ^ 31) nr || leb 256 nr
      then some false
      else if not (bitmap_allows filter nr)
      then some false
      else bpf_allows fuel filter nr args
]
