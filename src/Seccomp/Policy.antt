-- ===== src/Seccomp/Policy.antt =====
-- What the filter of kernel/seccomp.c allows, and that it stays once it is installed.
use aurora_os.Prelude.{
  ℕ, ◌+◌, ◌/◌, ◌%◌, ◌^◌, ◌<◌, ◌≡◌, leb, ◌||◌, ◌↔◌, inl, inr, refl, Bool, true, false, Option, none,
  some, List, [], ◌∷◌, arith, get_or, bit, mask_test, ltb, ltb→lt, Bool-cases, Option-cases,
}
use aurora_os.Seccomp.Bpf.{allow, seccomp_run_bpf}
use aurora_os.Seccomp.Bpf.Program.{AllFrom}
use aurora_os.Seccomp.Bpf.Termination.{Forward, seccomp_run_bpf_ends}
use aurora_os.Seccomp.{
  SeccompFilter, Task, SeccompData, data_bytes, audit_arch_x86_64, seccomp_set_filter,
  bitmap_allows, bpf_allows, seccomp_check,
}

abbrev pub call_of : ℕ → List ℕ → SeccompData
call_of nr args = record { nr = nr; arch = audit_arch_x86_64; instruction_pointer = 0; args = args }

-- The call `nr` has its bit in the mask, and the program, where there is one and the arguments
-- are known, has allowed it within `fuel` rounds.
pub record Permits (fuel : ℕ) (f : SeccompFilter) (nr : ℕ) (args : Option (List ℕ)) : Type 0 where
  pub in_range : nr < 256
  pub in_mask : bit (get_or f.syscall_mask (nr / 64) 0) (nr % 64) ≡ 1
  pub by_program :
      0 < f.bpf_len
      → (call_args : List ℕ) → args ≡ some call_args
      → seccomp_run_bpf fuel f.bpf_prog f.bpf_len (some (data_bytes (call_of nr call_args)))
        ≡ some allow

bitmap_allows-bit :
    (f : SeccompFilter) (nr : ℕ)
    → (bitmap_allows f nr ≡ true) ↔ (bit (get_or f.syscall_mask (nr / 64) 0) (nr % 64) ≡ 1)
unfolding bitmap_allows
bitmap_allows-bit f nr = mask_test (get_or f.syscall_mask (nr / 64) 0) (nr % 64)

bpf_allows_sound :
    (fuel : ℕ) (f : SeccompFilter) (nr : ℕ) (args : Option (List ℕ)) (call_args : List ℕ)
    → bpf_allows fuel f nr args ≡ some true
    → 0 < f.bpf_len
    → args ≡ some call_args
    → seccomp_run_bpf fuel f.bpf_prog f.bpf_len (some (data_bytes (call_of nr call_args)))
      ≡ some allow
unfolding bpf_allows
bpf_allows_sound fuel f nr none call_args h len e = cc
bpf_allows_sound fuel f nr (some given) call_args h len e = ground arith

bpf_allows_complete :
    (fuel : ℕ) (f : SeccompFilter) (nr : ℕ) (args : Option (List ℕ))
    → (0 < f.bpf_len
        → (call_args : List ℕ) → args ≡ some call_args
        → seccomp_run_bpf fuel f.bpf_prog f.bpf_len (some (data_bytes (call_of nr call_args)))
          ≡ some allow)
    → bpf_allows fuel f nr args ≡ some true
unfolding bpf_allows
bpf_allows_complete fuel f nr none h = refl
bpf_allows_complete fuel f nr (some call_args) h = elim (Bool-cases (ltb 0 f.bpf_len)) [
  | inl long ↦ rw (long, h (ltb→lt _ _ long) call_args refl)
  | inr short ↦ rw short
]

bpf_allows_ends :
    (f : SeccompFilter) (nr : ℕ) (args : Option (List ℕ))
    → AllFrom Forward 0 f.bpf_prog
    → f.bpf_len < 2 ^ 16
    → (b : Bool) × (bpf_allows (f.bpf_len + 1) f nr args ≡ some b)
unfolding bpf_allows
bpf_allows_ends f nr none forward len = (true, refl)
bpf_allows_ends f nr (some call_args) forward len = elim (Bool-cases (ltb 0 f.bpf_len)) [
  | inr short ↦ (true, rw short)
  | inl long ↦
      let call = data_bytes (call_of nr call_args) in
      let (v, e) = seccomp_run_bpf_ends f.bpf_prog f.bpf_len call forward len in
      (elim v [ allow ↦ true | _ ↦ false ], rw (long, e))
]

-- A task without a filter may make every call. With a filter, a call is allowed exactly when its
-- number is below 256, its bit is set in the mask, and the filter's program, unless it is empty or
-- the arguments are not given, has allowed it.
pub seccomp_check_iff :
    (fuel : ℕ) (task : Task) (nr : ℕ) (args : Option (List ℕ))
    → (seccomp_check fuel (some task) nr args ≡ some true)
      ↔ ((f : SeccompFilter) → task.seccomp ≡ some f → Permits fuel f nr args)
unfolding seccomp_check
seccomp_check_iff fuel task nr args = (sound, complete)
  where
    sound :
        seccomp_check fuel (some task) nr args ≡ some true
        → (f : SeccompFilter) → task.seccomp ≡ some f
        → Permits fuel f nr args
    sound h f e = record {
      in_range = ground arith;
      in_mask = (bitmap_allows-bit f nr).0 (ground arith);
      by_program =
          λ len call_args given. bpf_allows_sound fuel f nr args call_args (ground arith) len given;
    }

    complete :
        ((f : SeccompFilter) → task.seccomp ≡ some f → Permits fuel f nr args)
        → seccomp_check fuel (some task) nr args ≡ some true
    complete all = elim (Option-cases task.seccomp) [
      | inl free ↦ rw (free, seccomp_check)
      | inr (f, e) ↦
          let p = all f e in
          let masked = (bitmap_allows-bit f nr).1 p.in_mask in
          let program = bpf_allows_complete fuel f nr args p.by_program in
          ground (arith, p.in_range, masked, program)
    ]

-- With a filter whose program only jumps forward and has fewer than 2^16 instructions, every call
-- is decided, allowed or denied, within as many rounds as the program is long, and one more.
pub seccomp_check_ends :
    (f : SeccompFilter) (nr : ℕ) (args : Option (List ℕ))
    → AllFrom Forward 0 f.bpf_prog
    → f.bpf_len < 2 ^ 16
    → (b : Bool) × (seccomp_check (f.bpf_len + 1) (some (record { seccomp = some f })) nr args
        ≡ some b)
unfolding seccomp_check
seccomp_check_ends f nr args forward len = elim (Bool-cases (leb (2 ^ 31) nr || leb 256 nr)) [
  | inl out ↦ (false, rw out)
  | inr inside ↦ elim (Bool-cases (bitmap_allows f nr)) [
    | inr masked ↦ (false, rw (inside, masked))
    | inl set ↦ let (b, e) = bpf_allows_ends f nr args forward len in (b, rw (inside, set, e))
  ]
]

-- Any sequence of attempts, with or without memory for the copy, and the task that it leaves.
pub attempts : List (Bool × Option SeccompFilter) → Option Task → Option Task
attempts [] task = task
attempts ((mem_ok, filter) ∷ rest) task = attempts rest (seccomp_set_filter mem_ok task filter).1

-- Once a task has a filter, every later attempt to set, replace or remove it is refused and leaves
-- that very filter in place, so that what the filter denies stays denied.
pub set_filter_once :
    (calls : List (Bool × Option SeccompFilter)) (task : Task) (f : SeccompFilter)
    → task.seccomp ≡ some f
    → attempts calls (some task) ≡ some task
unfolding attempts
set_filter_once [] task f e = refl
set_filter_once ((mem_ok, none) ∷ rest) task f e =
    let same : (seccomp_set_filter mem_ok (some task) none).1 ≡ some task =
      unfold seccomp_set_filter in ground arith in
    rw same (set_filter_once rest task f e)
set_filter_once ((mem_ok, some g) ∷ rest) task f e =
    let same : (seccomp_set_filter mem_ok (some task) (some g)).1 ≡ some task =
      unfold seccomp_set_filter in ground arith in
    rw same (set_filter_once rest task f e)
