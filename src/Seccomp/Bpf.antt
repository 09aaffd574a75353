-- ===== src/Seccomp/Bpf.antt =====
-- kernel/seccomp.c, seccomp_run_bpf, and the instruction set of kernel/seccomp.h: the classic BPF
-- interpreter that decides about a system call. Registers are 32-bit words.
mod Decode
pub mod Program
pub mod Termination
pub mod Safety
pub mod Deny
pub mod Registers
pub use Decode.{AluOp, add, sub, mul, div, or, and, lsh, rsh, modulo, xor}
pub use Decode.{Cond, jeq, jgt, jge, jset, Source, imm, reg}
pub use Decode.{Op}
unfoldable pub use Decode.{decode}
pub use Decode.{AllOps, decode-All, loads, arithmetic, control}
use aurora_os.Prelude.{
  ℕ, zero, suc, ◌+◌, ◌-◌, ◌*◌, ◌/◌, ◌%◌, ◌^◌, Bool, not, Option, none, some, List, get_elem?,
  get_or, set, replicate, bit_and, bit_or, bit_xor, ltb, leb, ◌==◌, if◌then◌else◌,
}
use aurora_os.Kstring.Memcpy.{load_bytes}

-- `struct sock_filter`
pub record SockFilter : Type 0 where
  pub code : ℕ
  pub jt : ℕ
  pub jf : ℕ
  pub k : ℕ

abbrev pub u32_mod : ℕ
u32_mod = 2 ^ 32

abbrev pub sizeof_seccomp_data : ℕ
sizeof_seccomp_data = 64

abbrev pub bpf_scratch_size : ℕ
bpf_scratch_size = 16

abbrev pub seccomp_ret_allow : ℕ
seccomp_ret_allow = 0x7fff0000

-- The locals of the interpreter.
pub record Machine : Type 0 where
  pub a : ℕ
  pub x : ℕ
  pub pc : ℕ
  pub scratch : List ℕ

-- 0 and -1 of the C function; `fault` stands for a read outside of `struct seccomp_data` or of
-- the program, which C leaves undefined.
pub data Verdict : Type 0 where
  allow kill fault : Verdict

pub data Outcome : Type 0 where
  next : Machine → Outcome
  done : Verdict → Outcome

-- `pc++` at the end of the loop's body.
abbrev pub advance : Machine → Outcome
advance m = next (record m { pc = (m.pc + 1) % u32_mod })

-- `if (offset + width > sizeof(struct seccomp_data)) return -1;`, where the sum is a 32-bit one,
-- and the read behind it.
unfoldable pub load : ℕ → List ℕ → ℕ → (ℕ → Machine) → Outcome
load width bytes offset put =
    if ltb sizeof_seccomp_data ((offset + width) % u32_mod)
    then done kill
    else if leb (offset + width) sizeof_seccomp_data
    then advance (put (load_bytes width bytes offset))
    else done fault

unfoldable pub alu : AluOp → ℕ → ℕ → ℕ
alu add a v = (a + v) % u32_mod
alu sub a v = (a + u32_mod - v) % u32_mod
alu mul a v = a * v % u32_mod
alu div a v = if v == 0 then 0 else a / v
alu or a v = bit_or a v
alu and a v = bit_and a v
alu lsh a v = if ltb v 32 then a * 2 ^ v % u32_mod else 0
alu rsh a v = if ltb v 32 then a / 2 ^ v else 0
alu modulo a v = if v == 0 then 0 else a % v
alu xor a v = bit_xor a v

unfoldable pub holds : Cond → ℕ → ℕ → Bool
holds jeq a v = a == v
holds jgt a v = ltb v a
holds jge a v = leb v a
holds jset a v = not (bit_and a v == 0)

abbrev pub operand : Source → SockFilter → Machine → ℕ
operand imm insn m = insn.k
operand reg insn m = m.x

-- `pc += offset; if (pc >= len) return -1; continue;`
unfoldable pub jump_by : ℕ → ℕ → Machine → Outcome
jump_by len offset m =
    let target = (m.pc + offset) % u32_mod in
    if leb len target then done kill else next (record m { pc = target })

abbrev pub verdict_of : ℕ → Verdict
verdict_of v = if v == seccomp_ret_allow then allow else kill

-- `if (k >= BPF_SCRATCH_SIZE) { return -1; } idx = k & (BPF_SCRATCH_SIZE - 1); ... scratch[idx]`
unfoldable pub with_scratch : ℕ → (ℕ → Outcome) → Outcome
with_scratch k body =
    if leb bpf_scratch_size k then done kill else body (bit_and k (bpf_scratch_size - 1))

-- The switch of the interpreter. `len` is the number of instructions, `bytes` the 64 bytes of
-- the `seccomp_data`.
unfoldable pub exec : Op → SockFilter → ℕ → List ℕ → Machine → Outcome
unfolding load alu holds jump_by with_scratch
exec (Op.ld_abs width) insn len bytes m = load width bytes insn.k (λ v. record m { a = v })
exec Op.ld_len insn len bytes m = advance (record m { a = sizeof_seccomp_data })
exec Op.ld_imm insn len bytes m = advance (record m { a = insn.k })
exec Op.ld_ind insn len bytes m =
    if ltb (u32_mod - 1 - insn.k) m.x
    then done kill
    else load 4 bytes ((m.x + insn.k) % u32_mod) (λ v. record m { a = v })
exec Op.ldx_imm insn len bytes m = advance (record m { x = insn.k })
exec Op.ldx_mem insn len bytes m =
    with_scratch insn.k (λ idx. advance (record m { x = get_or m.scratch idx 0 }))
exec Op.ldx_len insn len bytes m = advance (record m { x = sizeof_seccomp_data })
exec Op.ldx_msh insn len bytes m = load 1 bytes insn.k (λ v. record m { x = 4 * bit_and v 0x0f })
exec (Op.alu op src) insn len bytes m = advance (record m { a = alu op m.a (operand src insn m) })
exec Op.alu_neg insn len bytes m = advance (record m { a = (u32_mod - m.a) % u32_mod })
exec Op.ja insn len bytes m = jump_by len insn.k m
exec (Op.jump cond src) insn len bytes m =
    jump_by len (if holds cond m.a (operand src insn m) then insn.jt else insn.jf) m
exec Op.ret_k insn len bytes m = done (verdict_of insn.k)
exec Op.ret_a insn len bytes m = done (verdict_of m.a)
exec Op.tax insn len bytes m = advance (record m { x = m.a })
exec Op.txa insn len bytes m = advance (record m { a = m.x })
exec Op.st insn len bytes m =
    with_scratch insn.k (λ idx. advance (record m { scratch = set m.scratch idx m.a }))
exec Op.stx insn len bytes m =
    with_scratch insn.k (λ idx. advance (record m { scratch = set m.scratch idx m.x }))
exec Op.unknown insn len bytes m = done kill

module _ (prog : List SockFilter) (len : ℕ) (bytes : List ℕ) where
  -- One round of `while (pc < len)`; behind the loop the program has ended without RET.
  unfoldable pub step : Machine → Outcome
  unfolding exec
  step m =
      if ltb m.pc len
      then elim (get_elem? prog m.pc) [
        | none ↦ done fault
        | some insn ↦ exec (decode insn.code) insn len bytes m
      ]
      else done kill

  -- The loop. `none` says that the fuel ran out: the loop has not ended within so many rounds.
  unfoldable pub run : ℕ → Machine → Option Verdict
  run zero m = none
  run (suc fuel) m = elim (step m) [ next m' ↦ run fuel m' | done v ↦ some v ]

abbrev pub start : Machine
start = record { a = 0; x = 0; pc = 0; scratch = replicate 16 0 }

-- `seccomp_run_bpf`; `data_bytes` is `none` for a NULL `data`.
unfoldable pub seccomp_run_bpf : ℕ → List SockFilter → ℕ → Option (List ℕ) → Option Verdict
unfolding run
seccomp_run_bpf fuel prog len data_bytes =
    if len == 0
    then some allow
    else elim data_bytes [ none ↦ some kill | some bytes ↦ run prog len bytes fuel start ]
