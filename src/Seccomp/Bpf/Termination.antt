-- ===== src/Seccomp/Bpf/Termination.antt =====
-- When the loop of seccomp_run_bpf (kernel/seccomp.c) ends: a jump leaves out the `pc++`, so one
-- by 0 stays where it is, and the count of executed instructions is never tested.
use aurora_os.Prelude.{
  ℕ, zero, suc, ◌+◌, ◌-◌, ◌^◌, ◌<◌, ◌≡◌, ◌∙◌, Option, none, some, List, arith, if◌then◌else◌, inl,
  inr, Bool-cases, ◌==◌, ◌==◌,
}
use aurora_os.Seccomp.Bpf.{
  SockFilter, Machine, Verdict, allow, next, Op, decode, exec, step, run, holds, operand, u32_mod,
  seccomp_run_bpf, start,
}
use aurora_os.Seccomp.Bpf.Program.{AllFrom, Outcome-cases, step-next, run-next, run-done}

-- Every jump goes forward by at least one instruction, without passing the 32-bit limit.
abbrev pub IsForward : ℕ → SockFilter → Op → Type 0
IsForward pc insn Op.ja = (0 < insn.k) × (pc + insn.k < u32_mod)
IsForward pc insn (Op.jump cond src) =
    (0 < insn.jt) × (insn.jt < 2 ^ 8) × (0 < insn.jf) × (insn.jf < 2 ^ 8)
IsForward pc insn _ = Unit

-- The next round, if there is one, is at a later instruction.
exec-advances :
    (op : Op) (insn : SockFilter) (len : ℕ) (bytes : List ℕ) (m : Machine) {m' : Machine}
    → m.pc < len
    → len < 2 ^ 16
    → IsForward m.pc insn op
    → exec op insn len bytes m ≡ next m'
    → m.pc < m'.pc
unfolding exec
exec-advances (Op.jump cond src) insn len bytes m h l f e = ground arith
exec-advances op insn len bytes m h l f e = ground arith

abbrev pub Forward : ℕ → SockFilter → Type 0
Forward pc insn = IsForward pc insn (decode insn.code)

module _ (prog : List SockFilter) (len : ℕ) (bytes : List ℕ) where
  step-advances :
      (m : Machine) {m' : Machine}
      → AllFrom Forward 0 prog
      → len < 2 ^ 16
      → step prog len bytes m ≡ next m'
      → (m.pc < m'.pc) × (m.pc < len)
  step-advances m f l e =
      let (insn, inside, here, x) = step-next prog len bytes Forward m f e in
      (exec-advances (decode insn.code) insn len bytes m inside l here x, inside)

  run_ends :
      (fuel : ℕ) (m : Machine)
      → AllFrom Forward 0 prog
      → len < 2 ^ 16
      → len - m.pc < fuel
      → (v : Verdict) × (run prog len bytes fuel m ≡ some v)
  run_ends zero m f l h = absurd (omega arith)
  run_ends (suc fuel) m f l h = elim (Outcome-cases (step prog len bytes m)) [
    | inl (m', e) ↦
        let (v, r) = run_ends fuel m' f l (omega (arith, step-advances m f l e)) in
        (v, run-next prog len bytes fuel m e ∙ r)
    | inr (v, e) ↦ (v, run-done prog len bytes fuel m e)
  ]

-- The offset of the jump that an instruction makes.
abbrev pub jump_offset : Op → SockFilter → Machine → Option ℕ
jump_offset Op.ja insn m = some insn.k
jump_offset (Op.jump cond src) insn m =
    some (if holds cond m.a (operand src insn m) then insn.jt else insn.jf)
jump_offset _ insn m = none

-- A program whose jumps all go forward by at least one, of fewer than 2^16 instructions, ends
-- within as many rounds as it has instructions, and one more that finds it ended, with a verdict.
pub seccomp_run_bpf_ends :
    (prog : List SockFilter) (len : ℕ) (bytes : List ℕ)
    → AllFrom Forward 0 prog
    → len < 2 ^ 16
    → (v : Verdict) × (seccomp_run_bpf (len + 1) prog len (some bytes) ≡ some v)
seccomp_run_bpf_ends prog len bytes f l =
    let (v, r) = run_ends prog len bytes (len + 1) start f l (omega arith) in
    elim (Bool-cases (len == 0)) [
      | inl empty ↦ (allow, unfold seccomp_run_bpf in rw empty)
      | inr some_insns ↦ (v, unfold seccomp_run_bpf in rw (some_insns, r))
    ]
