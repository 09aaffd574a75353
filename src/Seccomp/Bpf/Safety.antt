-- ===== src/Seccomp/Bpf/Safety.antt =====
-- Which reads of seccomp_run_bpf (kernel/seccomp.c) stay inside `struct seccomp_data`: the
-- bounds test adds in 32 bits, so it passes offsets just below 2^32.
use mathlib.Core.Option.{some-injective}
use aurora_os.Prelude.{
  ap, Bool-cases, ◌==◌, ℕ, zero, suc, ◌+◌, ◌<◌, ◌≤◌, ◌≢◌, sym, ◌∙◌, some, List, arith, length, inl,
  inr, get_elem?-eq-none,
}
use aurora_os.Seccomp.Bpf.{
  SockFilter, Machine, fault, done, Op, decode, exec, step, run, u32_mod, seccomp_run_bpf, start,
}
use aurora_os.Seccomp.Bpf.Program.{
  AllFrom, AllFrom-at, Outcome-cases, step-cases, run-next, run-done,
}

-- Loads at a constant offset that does not wrap with the width; no indirect loads.
abbrev pub HasSafeReads : SockFilter → Op → Type 0
HasSafeReads insn (Op.ld_abs width) = insn.k + width < u32_mod
HasSafeReads insn Op.ldx_msh = insn.k + 1 < u32_mod
HasSafeReads insn Op.ld_ind = ⊥
HasSafeReads insn _ = Unit

abbrev pub SafeReads : ℕ → SockFilter → Type 0
SafeReads pc insn = HasSafeReads insn (decode insn.code)

exec-ne-fault :
    (op : Op) (insn : SockFilter) (len : ℕ) (bytes : List ℕ) (m : Machine)
    → HasSafeReads insn op
    → exec op insn len bytes m ≢ done fault
unfolding exec
exec-ne-fault (Op.ld_abs width) insn len bytes m h = ground arith
exec-ne-fault op insn len bytes m h = ground arith

module _ (prog : List SockFilter) (len : ℕ) (bytes : List ℕ) where
  step-ne-fault :
      (m : Machine)
      → AllFrom SafeReads 0 prog
      → len ≤ length prog
      → step prog len bytes m ≢ done fault
  step-ne-fault m all h = elim (step-cases prog len bytes m) [
    | inl (over, s) ↦ λ e. cc
    | inr (inl (inside, gone, s)) ↦ absurd (omega (arith, get_elem?-eq-none prog m.pc gone))
    | inr (inr (insn, inside, here, s)) ↦ λ e.
        exec-ne-fault (decode insn.code) insn len bytes m (AllFrom-at SafeReads prog m.pc all here)
          (sym s ∙ e)
  ]

  run-ne-fault :
      (fuel : ℕ) (m : Machine)
      → AllFrom SafeReads 0 prog
      → len ≤ length prog
      → run prog len bytes fuel m ≢ some fault
  run-ne-fault zero m all h = unfold run in cc
  run-ne-fault (suc fuel) m all h = elim (Outcome-cases (step prog len bytes m)) [
    | inl (m', e) ↦ λ r. run-ne-fault fuel m' all h (sym (run-next prog len bytes fuel m e) ∙ r)
    | inr (v, e) ↦ λ r.
        step-ne-fault m all h
          (e ∙ ap done (some-injective _ _ (sym (run-done prog len bytes fuel m e) ∙ r)))
  ]

-- A program without indirect loads, whose other loads have offsets that do not wrap with their
-- width, never reads outside of `seccomp_data` or of the program, for any number of rounds.
pub seccomp_run_bpf-ne-fault :
    (fuel : ℕ) (prog : List SockFilter) (len : ℕ) (bytes : List ℕ)
    → AllFrom SafeReads 0 prog
    → len ≤ length prog
    → seccomp_run_bpf fuel prog len (some bytes) ≢ some fault
seccomp_run_bpf-ne-fault fuel prog len bytes all h = elim (Bool-cases (len == 0)) [
  | inl empty ↦ unfold seccomp_run_bpf in rw empty (cc)
  | inr some_insns ↦
      unfold seccomp_run_bpf in rw some_insns (run-ne-fault prog len bytes fuel start all h)
]
