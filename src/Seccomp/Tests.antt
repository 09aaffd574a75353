-- ===== src/Seccomp/Tests.antt =====
-- Runs of kernel/seccomp.c, and the theorems at them.
use aurora_os.Prelude.{
  ℕ, ◌≡◌, ◌≢◌, ◌↔◌, refl, true, false, none, some, List, [], ◌∷◌, arith, replicate,
}
use aurora_os.Kstring.Memcpy.{load_bytes}
use aurora_os.Seccomp.Bpf.{
  SockFilter, Verdict, allow, kill, fault, decode, step, run, seccomp_run_bpf,
}
use aurora_os.Seccomp.Bpf.Termination.{seccomp_run_bpf_ends}
use aurora_os.Seccomp.Bpf.Safety.{seccomp_run_bpf-ne-fault}
use aurora_os.Seccomp.Bpf.Deny.{seccomp_run_bpf-ne-allow}
use aurora_os.Seccomp.{
  SeccompFilter, Task, SeccompData, data_bytes, bitmap_allows, bpf_allows, seccomp_check,
}
use aurora_os.Seccomp.Policy.{Permits, seccomp_check_iff, attempts, set_filter_once}

abbrev op : ℕ → ℕ → ℕ → ℕ → SockFilter
op code jt jf k = record { code = code; jt = jt; jf = jf; k = k }

-- Allow a call whose first argument has the low half 1.
abbrev only_stdout : List SockFilter
only_stdout = op 0x20 0 0 16 ∷ op 0x15 1 2 1 ∷ op 0x06 0 0 0x7fff0000 ∷ op 0x06 0 0 0 ∷ []

abbrev deny_all : List SockFilter
deny_all = op 0x04 0 0 7 ∷ op 0x06 0 0 0 ∷ []

abbrev loop_here : List SockFilter
loop_here = op 0x05 0 0 0 ∷ op 0x06 0 0 0x7fff0000 ∷ []

abbrev wrapped : List SockFilter
wrapped = op 0x20 0 0 0xffff_fffd ∷ op 0x06 0 0 0x7fff0000 ∷ []

abbrev call : ℕ → SeccompData
call fd = record {
  nr = 1;
  arch = 0xc000003e;
  instruction_pointer = 0;
  args = fd ∷ 0 ∷ 0 ∷ 0 ∷ 0 ∷ 0 ∷ [];
}

abbrev zeros : List ℕ
zeros = replicate 64 0

runs :
    (seccomp_run_bpf 5 only_stdout 4 (some (data_bytes (call 1))) ≡ some allow)
    × (seccomp_run_bpf 5 only_stdout 4 (some (data_bytes (call 2))) ≡ some kill)
    × (seccomp_run_bpf 5 only_stdout 0 none ≡ some allow)
    × (seccomp_run_bpf 5 only_stdout 4 none ≡ some kill)
    × (seccomp_run_bpf 5 wrapped 2 (some zeros) ≡ some fault)
unfolding seccomp_run_bpf run step decode data_bytes load_bytes
runs = (refl, refl, refl, refl, refl)

seccomp_run_bpf_ends_example :
    (v : Verdict) × (seccomp_run_bpf 5 only_stdout 4 (some zeros) ≡ some v)
unfolding decode
seccomp_run_bpf_ends_example = seccomp_run_bpf_ends only_stdout 4 zeros (omega arith) (omega arith)

seccomp_run_bpf-ne-fault_example : seccomp_run_bpf 9 only_stdout 4 (some zeros) ≢ some fault
unfolding decode
seccomp_run_bpf-ne-fault_example =
    seccomp_run_bpf-ne-fault 9 only_stdout 4 zeros (omega arith) (omega arith)

seccomp_run_bpf-ne-allow_example : seccomp_run_bpf 9 deny_all 2 (some zeros) ≢ some allow
unfolding decode
seccomp_run_bpf-ne-allow_example =
    seccomp_run_bpf-ne-allow 9 deny_all 2 zeros (omega arith) (omega arith)

-- Calls 0 and 1 only, and 1 only for a first argument of 1.
abbrev filter : SeccompFilter
filter = record { syscall_mask = 3 ∷ 0 ∷ 0 ∷ 0 ∷ []; bpf_len = 4; bpf_prog = only_stdout }

abbrev confined : Task
confined = record { seccomp = some filter }

checks :
    (seccomp_check 5 (some confined) 1 (some (1 ∷ 0 ∷ 0 ∷ 0 ∷ 0 ∷ 0 ∷ [])) ≡ some true)
    × (seccomp_check 5 (some confined) 1 (some (2 ∷ 0 ∷ 0 ∷ 0 ∷ 0 ∷ 0 ∷ [])) ≡ some false)
    × (seccomp_check 5 (some confined) 2 none ≡ some false)
    × (seccomp_check 5 (some confined) 300 none ≡ some false)
    × (seccomp_check 5 none 300 none ≡ some true)
unfolding seccomp_check bitmap_allows bpf_allows seccomp_run_bpf run step decode data_bytes
    load_bytes
checks = (refl, refl, refl, refl, refl)

seccomp_check_iff_example :
    (seccomp_check 5 (some confined) 1 none ≡ some true)
    ↔ ((f : SeccompFilter) → confined.seccomp ≡ some f → Permits 5 f 1 none)
seccomp_check_iff_example = seccomp_check_iff 5 confined 1 none

set_filter_once_example :
    attempts ((true, none) ∷ (true, some filter) ∷ []) (some confined) ≡ some confined
set_filter_once_example =
    set_filter_once ((true, none) ∷ (true, some filter) ∷ []) confined filter refl
