-- ===== src/Seccomp/Bpf/Deny.antt =====
-- The default of seccomp_run_bpf (kernel/seccomp.c) is to deny.
use mathlib.Core.Option.{some-injective}
use aurora_os.Prelude.{ℕ, zero, suc, ◌<◌, ◌≢◌, sym, ap, ◌∙◌, some, List, arith, inl, inr, ne→==}
use aurora_os.Seccomp.Bpf.{
  SockFilter, Machine, allow, done, Op, decode, exec, step, run, seccomp_ret_allow, seccomp_run_bpf,
  start,
}
use aurora_os.Seccomp.Bpf.Program.{
  AllFrom, AllFrom-at, Outcome-cases, step-cases, run-next, run-done,
}

-- No instruction returns SECCOMP_RET_ALLOW, or the accumulator.
abbrev pub HasNoAllow : SockFilter → Op → Type 0
HasNoAllow insn Op.ret_k = insn.k ≢ seccomp_ret_allow
HasNoAllow insn Op.ret_a = ⊥
HasNoAllow insn _ = Unit

abbrev pub NoAllow : ℕ → SockFilter → Type 0
NoAllow pc insn = HasNoAllow insn (decode insn.code)

exec-ne-allow :
    (op : Op) (insn : SockFilter) (len : ℕ) (bytes : List ℕ) (m : Machine)
    → HasNoAllow insn op
    → exec op insn len bytes m ≢ done allow
unfolding exec
exec-ne-allow Op.ret_k insn len bytes m h = ground arith
exec-ne-allow op insn len bytes m h = ground arith

module _ (prog : List SockFilter) (len : ℕ) (bytes : List ℕ) where
  step-ne-allow : (m : Machine) → AllFrom NoAllow 0 prog → step prog len bytes m ≢ done allow
  step-ne-allow m all = elim (step-cases prog len bytes m) [
    | inl (over, s) ↦ λ e. cc
    | inr (inl (inside, gone, s)) ↦ λ e. cc
    | inr (inr (insn, inside, here, s)) ↦ λ e.
        exec-ne-allow (decode insn.code) insn len bytes m (AllFrom-at NoAllow prog m.pc all here)
          (sym s ∙ e)
  ]

  pub run-ne-allow :
      (fuel : ℕ) (m : Machine) → AllFrom NoAllow 0 prog → run prog len bytes fuel m ≢ some allow
  run-ne-allow zero m all = unfold run in cc
  run-ne-allow (suc fuel) m all = elim (Outcome-cases (step prog len bytes m)) [
    | inl (m', e) ↦ λ r. run-ne-allow fuel m' all (sym (run-next prog len bytes fuel m e) ∙ r)
    | inr (v, e) ↦ λ r.
        step-ne-allow m all
          (e ∙ ap done (some-injective _ _ (sym (run-done prog len bytes fuel m e) ∙ r)))
  ]

-- A non-empty program in which no instruction returns SECCOMP_RET_ALLOW or the accumulator never
-- allows, whatever the data, however it jumps, and however many rounds it runs.
pub seccomp_run_bpf-ne-allow :
    (fuel : ℕ) (prog : List SockFilter) (len : ℕ) (bytes : List ℕ)
    → 0 < len
    → AllFrom NoAllow 0 prog
    → seccomp_run_bpf fuel prog len (some bytes) ≢ some allow
unfolding seccomp_run_bpf
seccomp_run_bpf-ne-allow fuel prog len bytes h all =
    rw (ne→== len 0 (omega arith)) (run-ne-allow prog len bytes fuel start all)
