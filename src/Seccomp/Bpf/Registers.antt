-- ===== src/Seccomp/Bpf/Registers.antt =====
-- The registers and the scratch memory of seccomp_run_bpf (kernel/seccomp.c) are 32-bit words.
mod Words
mod Instructions
pub use Words.{IsMachine, IsInsn}
use mathlib.Core.Path.{subst}
use native.Mathlib.Nat.{div-le_self}
use aurora_os.Prelude.{
  ltb, Bool, true, false, if◌then◌else◌, length-replicate, ℕ, zero, suc, ◌+◌, ◌-◌, ◌*◌, ◌/◌, ◌%◌,
  ◌^◌, ◌<◌, ◌≤◌, ◌≡◌, refl, sym, ◌∙◌, ap, none, some, List, [], ◌∷◌, arith, length, get_elem?,
  get_or, set, length-set, get_or-set, inl, inr, bit_and-lt, bit_or-lt, bit_xor-lt,
  bit_and-lt_right, bit_and, bit_or, bit_xor, get_or-replicate,
}
use aurora_os.Kstring.Memcpy.{load_bytes}
use aurora_os.Seccomp.Bpf.{
  advance, Verdict, kill, fault, SockFilter, Machine, AluOp, Source, Op, Outcome, next, done, exec,
  alu, step, run, u32_mod, start, operand, decode-All, load, with_scratch, jump_by,
}

abbrev pub Insn : ℕ → SockFilter → Type 0
Insn pc insn = IsInsn insn

-- The machines that the loop goes through.
pub data Reaches (prog : List SockFilter) (len : ℕ) (bytes : List ℕ) : Machine → Type 0 where
  at_start : Reaches prog len bytes start
  later :
      {m m' : Machine}
      → Reaches prog len bytes m
      → step prog len bytes m ≡ next m'
      → Reaches prog len bytes m'
