-- ===== src/Seccomp/Bpf/Program.antt =====
-- Properties of every instruction of a BPF program, and what one round of the loop of
-- seccomp_run_bpf (kernel/seccomp.c) does.
use mathlib.Core.Path.{subst, subst₂}
use mathlib.Core.Option.{some-injective}
use aurora_os.Prelude.{
  sym, Bool-cases, ltb→lt, ltb→le, Option-cases, ℕ, zero, suc, ◌+◌, ◌<◌, ◌≤◌, ◌≡◌, refl, none, some,
  List, [], ◌∷◌, arith, get_elem?, ltb, lt→ltb, ◌∙◌, ◌⊎◌, inl, inr,
}
use aurora_os.Seccomp.Bpf.{
  SockFilter, Machine, Verdict, kill, fault, Outcome, next, done, decode, exec, step, run,
}

-- `P` holds of the instructions, the first of which has index `i`.
abbrev pub AllFrom : (ℕ → SockFilter → Type 0) → ℕ → List SockFilter → Type 0
AllFrom P i [] = Unit
AllFrom P i (insn ∷ rest) = P i insn × AllFrom P (suc i) rest

pub AllFrom-get_elem? :
    (P : ℕ → SockFilter → Type 0) (i : ℕ) (prog : List SockFilter) (j : ℕ) {insn : SockFilter}
    → AllFrom P i prog
    → get_elem? prog j ≡ some insn
    → P (i + j) insn
AllFrom-get_elem? P i [] j h e = absurd (ground arith)
AllFrom-get_elem? P i (y ∷ rest) zero h e =
    let here : i ≡ i + 0 = omega arith in subst₂ P here (some-injective _ _ e) h.0
AllFrom-get_elem? P i (y ∷ rest) (suc j) {insn} h e =
    let there : suc i + j ≡ i + suc j = omega arith in
    subst (λ n. P n insn) there (AllFrom-get_elem? P (suc i) rest j h.1 e)

pub AllFrom-at :
    (P : ℕ → SockFilter → Type 0) (prog : List SockFilter) (j : ℕ) {insn : SockFilter}
    → AllFrom P 0 prog
    → get_elem? prog j ≡ some insn
    → P j insn
AllFrom-at P prog j {insn} h e =
    let here : 0 + j ≡ j = omega arith in
    subst (λ n. P n insn) here (AllFrom-get_elem? P 0 prog j h e)

pub Outcome-cases : (o : Outcome) → ((m : Machine) × (o ≡ next m)) ⊎ ((v : Verdict) × (o ≡ done v))
Outcome-cases (next m) = inl (m, refl)
Outcome-cases (done v) = inr (v, refl)

module _ (prog : List SockFilter) (len : ℕ) (bytes : List ℕ) where
  -- A round ends the loop behind the program, faults at a missing instruction, or executes.
  pub step-cases :
      (m : Machine)
      → (len ≤ m.pc) × (step prog len bytes m ≡ done kill)
        ⊎ (m.pc < len) × (get_elem? prog m.pc ≡ none) × (step prog len bytes m ≡ done fault)
        ⊎ ((insn : SockFilter) × (m.pc < len)
            × (get_elem? prog m.pc ≡ some insn)
            × (step prog len bytes m ≡ exec (decode insn.code) insn len bytes m))
  step-cases m = elim (Bool-cases (ltb m.pc len)) [
    | inr over ↦ inl (ltb→le _ _ over, unfold step in rw over)
    | inl inside ↦ elim (Option-cases (get_elem? prog m.pc)) [
      | inl gone ↦ inr (inl (ltb→lt _ _ inside, gone, unfold step in rw (inside, gone)))
      | inr (insn, here) ↦
          inr (inr (insn, ltb→lt _ _ inside, here, unfold step in rw (inside, here)))
    ]
  ]

  -- A round at an instruction of the program executes it.
  pub step-eq-exec :
      (m : Machine) {insn : SockFilter}
      → m.pc < len
      → get_elem? prog m.pc ≡ some insn
      → step prog len bytes m ≡ exec (decode insn.code) insn len bytes m
  step-eq-exec m h e = unfold step in rw (lt→ltb _ _ h, e)

  -- A round that goes on has executed an instruction of the program.
  pub step-next :
      (P : ℕ → SockFilter → Type 0) (m : Machine) {m' : Machine}
      → AllFrom P 0 prog
      → step prog len bytes m ≡ next m'
      → (insn : SockFilter) × (m.pc < len)
        × P m.pc insn
        × (exec (decode insn.code) insn len bytes m ≡ next m')
  step-next P m all e = elim (step-cases m) [
    | inl (over, s) ↦ absurd (cc)
    | inr (inl (inside, gone, s)) ↦ absurd (cc)
    | inr (inr (insn, inside, here, s)) ↦ (insn, inside, AllFrom-at P prog m.pc all here, sym s ∙ e)
  ]

  pub run-next :
      (fuel : ℕ) (m : Machine) {m' : Machine}
      → step prog len bytes m ≡ next m'
      → run prog len bytes (suc fuel) m ≡ run prog len bytes fuel m'
  unfolding run
  run-next fuel m e = rw (e, run)

  pub run-done :
      (fuel : ℕ) (m : Machine) {v : Verdict}
      → step prog len bytes m ≡ done v
      → run prog len bytes (suc fuel) m ≡ some v
  unfolding run
  run-done fuel m e = rw (e, run)
